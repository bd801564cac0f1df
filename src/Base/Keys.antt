-- ===== src/Base/Keys.antt =====
-- Keys of maps: a type whose values a Boolean test tells apart.
use mathlib.Core.Logic.{◌↔◌}
use mathlib.Core.Path.{◌≡◌}
use mathlib.Core.Bool.{Bool, true}
use text.Mathlib.Text.{◌==◌ as same_text}
use text.Mathlib.TextEquality.{eq_iff}
use Prim.Native.String.{String}
use Prim.Native.Nat.{ℕ}
use distributed_caching.Base.Tests.{◌==◌ as same_number, ==_iff}

pub record Keys {ℓ} (K : Type ℓ) : Type ℓ where
  pub same : K → K → Bool
  pub same_iff : (i j : K) → (same i j ≡ true) ↔ (i ≡ j)

instance abbrev pub string_keys : Keys String
string_keys = record { same_iff = eq_iff; same = same_text }

instance abbrev pub nat_keys : Keys ℕ
nat_keys = record { same_iff = ==_iff; same = same_number }

infix 50 ◌==◌
abbrev pub ◌==◌ {ℓ} : {K : Type ℓ} ⦃keys : Keys K⦄ → K → K → Bool
◌==◌ ⦃keys⦄ i j = keys.same i j
