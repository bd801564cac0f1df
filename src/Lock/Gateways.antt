-- ===== src/Lock/Gateways.antt =====
-- Any number of gateways that take and give back one lock of gateway/distributed_lock.go, while the
-- lock may expire at any time and they do other work in between.
use distributed_caching.Base.{
  ℕ, ◌≡◌, ◌≢◌, refl, sym, ◌∙◌, true, false, String, List, [], Option, none, some, lookup, insert,
  delete, nat_keys, string_keys, ◌==◌, lookup-insert, lookup-delete, Bool-cases, inl, inr, arith,
  eq_iff, ap,
}
use distributed_caching.Base.Tests.{==_iff}
use distributed_caching.Fetch.{Env}
use distributed_caching.Lock.{try_acquire_distributed_lock, release_distributed_lock}
use distributed_caching.Lock.Holder.{
  LockWorks, release_distributed_lock-value, try_acquire_distributed_lock_iff,
}
use distributed_caching.Outside.{ok}
use distributed_caching.Time.{Duration}

-- The world, and the token of each gateway that was told that it has the lock.
pub record Sharing (W : Type 0) : Type 0 where
  pub world : W
  pub owners : List (ℕ × String)

pub data LockEvent : Type 0 where
  acquired refused released : ℕ → LockEvent
  worked expired : LockEvent

module _ {W Float : Type 0} (env : Env W Float) (value : W → String → Option String) (lock : String)
    (ttl : Duration) where
  open env use {backend}

  -- A token is random: no gateway has the same.
  pub data LockStep (s : Sharing W) : LockEvent → Sharing W → Type 0 where
    acquire :
        (i : ℕ) (token : String)
        → (backend.token s.world).0 ≡ ok token
        → ((j : ℕ) → lookup j s.owners ≢ some token)
        → (try_acquire_distributed_lock env lock ttl s.world).0 ≡ ok (token, true)
        → LockStep s (acquired i) (record {
          world = (try_acquire_distributed_lock env lock ttl s.world).1;
          owners = insert i token s.owners;
        })
    fail :
        (i : ℕ) (token : String)
        → (backend.token s.world).0 ≡ ok token
        → (try_acquire_distributed_lock env lock ttl s.world).0 ≡ ok (token, false)
        → LockStep s
            (refused i)
            (record s { world = (try_acquire_distributed_lock env lock ttl s.world).1 })
    release :
        (i : ℕ) (token : String)
        → lookup i s.owners ≡ some token
        → LockStep s (released i) (record {
          world = (release_distributed_lock env lock token s.world).1;
          owners = delete i s.owners;
        })
    work : (w : W) → value w lock ≡ value s.world lock → LockStep s worked (record s { world = w })
    expire : (w : W) → value w lock ≡ none → LockStep s expired (record s { world = w })

  pub data LockReach : Sharing W → Type 0 where
    start : (w : W) → value w lock ≡ none → LockReach (record { world = w; owners = [] })
    next : {s t : Sharing W} {e : LockEvent} → LockReach s → LockStep s e t → LockReach t

  -- The gateway was told that it has the lock, and the lock is held with its token.
  pub record IsHolder (s : Sharing W) (i : ℕ) : Type 0 where
    pub token : String
    pub told : lookup i s.owners ≡ some token
    pub held : value s.world lock ≡ some token

  -- No two gateways have the same token.
  abbrev Apart : Sharing W → Type 0
  Apart s = (i j : ℕ) (t : String) → lookup i s.owners ≡ some t → lookup j s.owners ≡ some t → i ≡ j

  LockStep-Apart : {s t : Sharing W} {e : LockEvent} → LockStep s e t → Apart s → Apart t
  LockStep-Apart {s} (acquire k token made fresh got) apart i j t hi hj =
      elim (Bool-cases (k == i)) [
        | inl at_i ↦ elim (Bool-cases (k == j)) [
          | inl at_j ↦ ground (arith, ==_iff k i, ==_iff k j)
          | inr not_j ↦ absurd (
              fresh j (
                ground (arith, lookup-insert k i token s.owners, lookup-insert k j token s.owners)))
        ]
        | inr not_i ↦ elim (Bool-cases (k == j)) [
          | inl at_j ↦ absurd (
              fresh i (
                ground (arith, lookup-insert k i token s.owners, lookup-insert k j token s.owners)))
          | inr not_j ↦
              apart i j t (ground (arith, lookup-insert k i token s.owners))
                (ground (arith, lookup-insert k j token s.owners))
        ]
      ]
  LockStep-Apart (fail k token made got) apart i j t hi hj = apart i j t hi hj
  LockStep-Apart {s} (release k token told) apart i j t hi hj =
      apart i j t (ground (arith, lookup-delete k i s.owners))
        (ground (arith, lookup-delete k j s.owners))
  LockStep-Apart (work w same) apart i j t hi hj = apart i j t hi hj
  LockStep-Apart (expire w gone) apart i j t hi hj = apart i j t hi hj

  LockReach-Apart : {s : Sharing W} → LockReach s → Apart s
  unfolding lookup
  LockReach-Apart (start w free) = λ i j t hi hj. cc
  LockReach-Apart (next r st) = LockStep-Apart st (LockReach-Apart r)

  one_holder : {s : Sharing W} (i j : ℕ) → LockReach s → IsHolder s i → IsHolder s j → i ≡ j
  one_holder i j r hi hj = LockReach-Apart r i j hi.token hi.told (hj.told ∙ sym hj.held ∙ hi.held)

  module _ (works : LockWorks env value) where
    LockStep-IsHolder :
        {s t : Sharing W} {e : LockEvent} (i : ℕ)
        → LockReach s
        → LockStep s e t
        → e ≢ released i
        → e ≢ expired
        → IsHolder s i
        → IsHolder t i
    LockStep-IsHolder {s} i r (acquire k token made fresh got) other lasts h =
        let (answer, kept) =
          try_acquire_distributed_lock_iff env value works lock token ttl s.world made in
        absurd (ground (arith, answer, got, h.held))
    LockStep-IsHolder {s} i r (fail k token made got) other lasts h =
        let (answer, kept) =
          try_acquire_distributed_lock_iff env value works lock token ttl s.world made in
        record { token = h.token; told = h.told; held = ground (arith, kept, h.held) }
    LockStep-IsHolder {s} i r (release k token told) other lasts h =
        let after = release_distributed_lock-value env value works lock token lock s.world in
        elim (Bool-cases (k == i)) [
          | inl same ↦ absurd (other (ap released ((==_iff k i).0 same)))
          | inr not_i ↦ elim (Bool-cases (h.token == token)) [
            | inl ours ↦
                let equal = (eq_iff h.token token).0 ours in
                absurd (
                  other (
                    ap released
                      (sym (LockReach-Apart r i k token (h.told ∙ ap (λ t. some t) equal) told))))
            | inr theirs ↦ record {
              token = h.token;
              told = ground (arith, lookup-delete k i s.owners, h.told);
              held = ground (arith, after, h.held, theirs);
            }
          ]
        ]
    LockStep-IsHolder i r (work w same) other lasts h = record {
      token = h.token;
      told = h.told;
      held = same ∙ h.held;
    }
    LockStep-IsHolder i r (expire w gone) other lasts h = absurd (lasts refl)

    -- In a Redis that works, where a new token is that of no gateway that was told that it has the
    -- lock, in any interleaving of attempts, releases, expirations and work that leaves the lock
    -- alone: the gateway that was told that it has the lock, and whose token is the stored one, is
    -- so after any step that is neither its own release nor an expiration, and no other one is; in
    -- particular a late release by a gateway whose lock has expired takes nothing away.
    pub IsHolder-stays :
        {s t : Sharing W} {e : LockEvent} (i : ℕ)
        → LockReach s
        → LockStep s e t
        → e ≢ released i
        → e ≢ expired
        → IsHolder s i
        → IsHolder t i × ((j : ℕ) → IsHolder t j → j ≡ i)
    IsHolder-stays i r st other lasts h =
        let after = LockStep-IsHolder i r st other lasts h in
        (after, λ j hj. one_holder j i (next r st) hj after)
