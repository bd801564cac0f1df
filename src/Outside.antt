-- ===== src/Outside.antt =====
-- What the gateway calls and does not implement: the clock, Redis through its client, the JSON
-- codec, the random source and the timers. Each operation acts on an abstract world `W`, which other
-- processes change too; it answers a reply or an error. Contexts are part of the world.
pub mod Keeping
pub mod Ensuring
use distributed_caching.Base.{Bool, String, List, Option, some, ◌≡◌, ◌⊎◌, inl, inr, refl}
use distributed_caching.Base.Int.{ℤ}
use distributed_caching.Time.{Time, Duration}

pub data Reply {ℓ} (A : Type ℓ) : Type ℓ where
  ok : A → Reply A
  err : String → Reply A

-- An action on the world.
abbrev pub Io : Type 0 → Type 0 → Type 0
Io W A = W → A × W

abbrev pub pure : {W A : Type 0} → A → Io W A
pure a w = (a, w)

infixl 5 ◌>>=◌ ◌>>◌
abbrev pub ◌>>=◌ : {W A B : Type 0} → Io W A → (A → Io W B) → Io W B
◌>>=◌ m f w = let (a, w') = m w in f a w'

-- The reply of the first action is not looked at.
abbrev pub ◌>>◌ : {W A B : Type 0} → Io W A → Io W B → Io W B
◌>>◌ m k w = k (m w).1

pub record Clock (W : Type 0) : Type 0 where
  pub now : Io W Time

-- The client of Redis. A `Duration` of zero sets no expiry.
pub record Redis (W Float : Type 0) : Type 0 where
  pub get : String → Io W (Reply (Option String))
  pub set : String → String → Duration → Io W (Reply (Unit {0}))
  pub set_nx : String → String → Duration → Io W (Reply Bool)
  pub del : List String → Io W (Reply ℤ)
  pub key_exists : String → Io W (Reply ℤ)
  pub mget : List String → Io W (Reply (List (Option String)))
  pub zadd : String → Float → String → Io W (Reply ℤ)
  pub zrem : String → String → Io W (Reply ℤ)
  pub zcard : String → Io W (Reply ℤ)
  pub zpopmin : String → ℤ → Io W (Reply (List String))
  pub zrange_all : String → Io W (Reply (List String))
  -- A transaction that sets a key and increments a counter: its own reply, and the counter's.
  pub set_and_incr : String → String → String → Io W (Reply (Reply ℤ))
  -- A script runs on the server with nothing in between. Its commands are `call_…`.
  pub run_script : Io W ℤ → Io W (Reply ℤ)
  pub call_get : String → Io W (Option String)
  pub call_del : String → Io W ℤ
  pub call_exists : String → Io W ℤ
  pub call_set : String → String → Io W (Unit {0})

-- `json.Marshal` and `json.Unmarshal` at one type.
pub record Codec (A : Type 0) : Type 0 where
  pub encode : A → Reply String
  pub decode : String → Option A

-- A value that is written can be read back.
pub record RoundTrips {A : Type 0} (c : Codec A) (a : A) : Type 0 where
  pub text : String
  pub written : c.encode a ≡ ok text
  pub read_back : c.decode text ≡ some a

pub Reply-cases {ℓ} :
    {A : Type ℓ} (r : Reply A) → ((a : A) × (r ≡ ok a)) ⊎ ((e : String) × (r ≡ err e))
Reply-cases (ok a) = inl (a, refl)
Reply-cases (err e) = inr (e, refl)
