-- ===== src/Outside/Keeping.antt =====
-- Actions on a state that keep a predicate of it, put together as the code puts actions together.
use distributed_caching.Base.{
  Bool, true, false, String, Option, none, some, if◌then◌else◌, ◌≡◌, refl,
}
use distributed_caching.Outside.{Io, ◌>>=◌, ◌>>◌, Reply, ok, err}

module _ {S : Type 0} (P : S → Type 0) where
  abbrev pub Keeping : {A : Type 0} → Io S A → Type 0
  Keeping m = (s : S) → P s → P (m s).1

  pub bind-Keeping :
      {A B : Type 0} (m : Io S A) (k : A → Io S B)
      → Keeping m
      → ((a : A) → Keeping (k a))
      → Keeping (m >>= k)
  bind-Keeping m k h g s p = g (m s).0 (m s).1 (h s p)

  pub then-Keeping :
      {A B : Type 0} (m : Io S A) (k : Io S B) → Keeping m → Keeping k → Keeping (m >> k)
  then-Keeping m k h g s p = g (m s).1 (h s p)

  pub if-Keeping :
      {A : Type 0} (b : Bool) (m n : Io S A) → Keeping m → Keeping n → Keeping (if b then m else n)
  if-Keeping true m n h g = h
  if-Keeping false m n h g = g

  pub option-Keeping :
      {A B : Type 0} (o : Option A) (m : Io S B) (k : A → Io S B)
      → Keeping m
      → ((a : A) → Keeping (k a))
      → Keeping (elim o [ none ↦ m | some a ↦ k a ])
  option-Keeping none m k h g = h
  option-Keeping (some a) m k h g = g a

  pub reply-Keeping :
      {A B : Type 0} (o : Reply A) (m : String → Io S B) (k : A → Io S B)
      → ((e : String) → Keeping (m e))
      → ((a : A) → Keeping (k a))
      → Keeping (elim o [ err e ↦ m e | ok a ↦ k a ])
  reply-Keeping (err e) m k h g = h e
  reply-Keeping (ok a) m k h g = g a

  -- The same on outcomes.
  pub if-kept : {A : Type 0} (b : Bool) (x y : A × S) → P x.1 → P y.1 → P (if b then x else y).1
  if-kept true x y h g = h
  if-kept false x y h g = g

  pub option-kept :
      {A B : Type 0} (o : Option A) (x : B × S) (y : A → B × S)
      → P x.1
      → ((a : A) → P (y a).1)
      → P (elim o as (λ o. B × S) [ none ↦ x | some a ↦ y a ]).1
  option-kept none x y h g = h
  option-kept (some a) x y h g = g a

  pub reply-kept :
      {A B : Type 0} (o : Reply A) (x : String → B × S) (y : A → B × S)
      → ((e : String) → P (x e).1)
      → ((a : A) → o ≡ ok a → P (y a).1)
      → P (elim o as (λ o. B × S) [ err e ↦ x e | ok a ↦ y a ]).1
  reply-kept (err e) x y h g = h e
  reply-kept (ok a) x y h g = g a refl
