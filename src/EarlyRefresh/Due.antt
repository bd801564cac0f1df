-- ===== src/EarlyRefresh/Due.antt =====
-- When gateway/early_refresh.go fetches a value anew.
use distributed_caching.Base.{true, false, ◌≡◌, arith, Bool-cases, inl, inr}
use distributed_caching.Base.Int.{pos, leb_ℤ, ◌<ℤ◌}
use distributed_caching.Cache.{KeyValue}
use distributed_caching.EarlyRefresh.{should_early_refresh}
use distributed_caching.Fetch.{Env}
use distributed_caching.Time.{Time, sub}

module _ {W Float : Type 0} (env : Env W Float) where
  open env use {floats}

  -- If shouldEarlyRefresh says yes, then beta is above zero, the recompute duration is above zero,
  -- and the value has not expired.
  pub should_early_refresh-due :
      (v : KeyValue) (beta : Float) (now : Time) (w : W)
      → (should_early_refresh env v beta now w).0 ≡ true
      → (floats.le beta (floats.decimal 0 0) ≡ false)
        × (pos 0 <ℤ v.recompute_duration)
        × (pos 0 <ℤ sub v.l2_expiration now)
  unfolding should_early_refresh
  should_early_refresh-due v beta now w h =
      elim (Bool-cases (floats.le beta (floats.decimal 0 0))) [
        | inl off ↦ absurd (cc (off, h))
        | inr on ↦ elim (Bool-cases (leb_ℤ v.recompute_duration (pos 0))) [
          | inl quick ↦ absurd (ground (arith, quick, on, h))
          | inr slow ↦ elim (Bool-cases (leb_ℤ (sub v.l2_expiration now) (pos 0))) [
            | inl gone ↦ absurd (ground (arith, gone, slow, on, h))
            | inr left ↦ (on, ground (arith, slow), ground (arith, left))
          ]
        ]
      ]
