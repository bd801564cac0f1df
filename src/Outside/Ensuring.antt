-- ===== src/Outside/Ensuring.antt =====
-- What an action leaves and answers, by the cases that the code tells apart: a predicate of the state
-- and one of the answer.
use distributed_caching.Base.{
  Bool, true, false, String, Option, none, some, if◌then◌else◌, ◌≡◌, refl,
}
use distributed_caching.Outside.{Io, Reply, ok, err}

-- Of the answer nothing is said.
abbrev pub Anything : {A : Type 0} → A → Type 0
Anything a = Unit {0}

module _ {S : Type 0} (P : S → Type 0) where
  abbrev pub Ensures : {B : Type 0} → Io S B → (B → Type 0) → Type 0
  Ensures m R = (s : S) → P s → P (m s).1 × R (m s).0

  module _ {B : Type 0} (R : B → Type 0) where
    pub if-Ensures :
        (b : Bool) (m n : Io S B)
        → (b ≡ true → Ensures m R)
        → (b ≡ false → Ensures n R)
        → Ensures (if b then m else n) R
    if-Ensures true m n h g = h refl
    if-Ensures false m n h g = g refl

    pub bool-Ensures :
        (b : Bool) (m n : Io S B)
        → (b ≡ true → Ensures m R)
        → (b ≡ false → Ensures n R)
        → Ensures (elim b [ false ↦ n | true ↦ m ]) R
    bool-Ensures true m n h g = h refl
    bool-Ensures false m n h g = g refl

    -- The same on outcomes.
    pub option-post :
        {A : Type 0} (o : Option A) (x : B × S) (y : A → B × S)
        → (o ≡ none → P x.1 × R x.0)
        → ((a : A) → o ≡ some a → P (y a).1 × R (y a).0)
        → P (elim o as (λ o. B × S) [ none ↦ x | some a ↦ y a ]).1
          × R (elim o as (λ o. B × S) [ none ↦ x | some a ↦ y a ]).0
    option-post none x y h g = h refl
    option-post (some a) x y h g = g a refl

    pub if-post :
        (b : Bool) (x y : B × S)
        → (b ≡ true → P x.1 × R x.0)
        → (b ≡ false → P y.1 × R y.0)
        → P (if b then x else y).1 × R (if b then x else y).0
    if-post true x y h g = h refl
    if-post false x y h g = g refl

    pub option-Ensures :
        {A : Type 0} (o : Option A) (m : Io S B) (k : A → Io S B)
        → (o ≡ none → Ensures m R)
        → ((a : A) → o ≡ some a → Ensures (k a) R)
        → Ensures (elim o [ none ↦ m | some a ↦ k a ]) R
    option-Ensures none m k h g = h refl
    option-Ensures (some a) m k h g = g a refl

    pub reply-Ensures :
        {A : Type 0} (r : Reply A) (m : String → Io S B) (k : A → Io S B)
        → ((e : String) → Ensures (m e) R)
        → ((a : A) → r ≡ ok a → Ensures (k a) R)
        → Ensures (elim r [ err e ↦ m e | ok a ↦ k a ]) R
    reply-Ensures (err e) m k h g = h e
    reply-Ensures (ok a) m k h g = g a refl

    -- A reply that may hold nothing.
    pub reply_option-Ensures :
        {A : Type 0} (r : Reply (Option A)) (m : String → Io S B) (n : Io S B) (k : A → Io S B)
        → ((e : String) → Ensures (m e) R)
        → Ensures n R
        → ((a : A) → r ≡ ok (some a) → Ensures (k a) R)
        → Ensures (elim r [ err e ↦ m e | ok none ↦ n | ok (some a) ↦ k a ]) R
    reply_option-Ensures (err e) m n k h i g = h e
    reply_option-Ensures (ok none) m n k h i g = i
    reply_option-Ensures (ok (some a)) m n k h i g = g a refl
