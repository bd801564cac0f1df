-- ===== src/Lock/Holder.antt =====
-- Who holds a lock of gateway/distributed_lock.go, in a Redis that works.
use distributed_caching.Base.{
  ◌≡◌, ◌≢◌, refl, ◌∙◌, Bool, true, false, ◌&&◌, ◌==◌, eq_iff, string_keys, String, Option, none,
  some, if◌then◌else◌, arith, Bool-cases, Option-cases, inl, inr,
}
use distributed_caching.Base.Int.{ℤ}
use distributed_caching.Fetch.{Env}
use distributed_caching.Lock.{
  try_acquire_distributed_lock, release_distributed_lock, release_distributed_lock_script,
}
use distributed_caching.Outside.{Io, ◌>>=◌, ◌>>◌, ok}
use distributed_caching.Time.{Duration}

-- The lock is held with the token.
abbrev pub holds : String → Option String → Bool
holds token none = false
holds token (some s) = s == token

module _ {W Float : Type 0} (env : Env W Float) (value : W → String → Option String) where
  open env use {redis, backend}

  -- The documented effect of the commands that the lock uses.
  pub record LockWorks : Type 0 where
    pub set_nx_taken :
        (k t s : String) (ttl : Duration) (w : W)
        → value w k ≡ some s
        → redis.set_nx k t ttl w ≡ (ok false, w)
    pub set_nx_reply :
        (k t : String) (ttl : Duration) (w : W)
        → value w k ≡ none
        → (redis.set_nx k t ttl w).0 ≡ ok true
    pub set_nx_value :
        (k t : String) (ttl : Duration) (w : W) (j : String)
        → value w k ≡ none
        → value (redis.set_nx k t ttl w).1 j ≡ (if k == j then some t else value w j)
    pub token_value : (w : W) (j : String) → value (backend.token w).1 j ≡ value w j
    pub script : (p : Io W ℤ) (w : W) → redis.run_script p w ≡ (ok (p w).0, (p w).1)
    pub call_get : (k : String) (w : W) → redis.call_get k w ≡ (value w k, w)
    pub call_del :
        (k : String) (w : W) (j : String)
        → value (redis.call_del k w).1 j ≡ (if k == j then none else value w j)

  module _ (works : LockWorks) where
    -- In a Redis that works, releaseDistributedLock deletes the lock if it is held with the given
    -- token, and changes no other key and no lock that another token holds.
    pub release_distributed_lock-value :
        (lock token j : String) (w : W)
        → value (release_distributed_lock env lock token w).1 j
          ≡ (if (lock == j) && holds token (value w lock) then none else value w j)
    unfolding release_distributed_lock release_distributed_lock_script
    release_distributed_lock-value lock token j w = elim (Option-cases (value w lock)) [
      | inl free ↦
          rw (works.script, works.call_get, ◌>>=◌, ◌>>◌, release_distributed_lock, free)
            (ground arith)
      | inr (s, held) ↦ elim (Bool-cases (s == token)) [
        | inl mine ↦
            rw (works.script, works.call_get, ◌>>=◌, ◌>>◌, release_distributed_lock, held, mine)
              (ground (arith, works.call_del lock w j))
        | inr other ↦
            rw (works.script, works.call_get, ◌>>=◌, ◌>>◌, release_distributed_lock, held, other)
              (ground arith)
      ]
    ]

    pub not_held :
        (lock token : String) (w : W)
        → value (release_distributed_lock env lock token w).1 lock ≢ some token
    not_held lock token w =
        let after = release_distributed_lock-value lock token lock w in
        λ e. ground (arith, after, e, eq_iff lock lock, eq_iff token token)

    -- In a Redis that works, with a token that could be made, tryAcquireDistributedLock succeeds
    -- exactly if the lock is free; a free lock is then held with the token, and a held lock keeps
    -- its holder.
    pub try_acquire_distributed_lock_iff :
        (lock token : String) (ttl : Duration) (w : W)
        → (backend.token w).0 ≡ ok token
        → ((try_acquire_distributed_lock env lock ttl w).0
            ≡ ok (token, (elim (value w lock) [ none ↦ true | some _ ↦ false ])))
          × (value (try_acquire_distributed_lock env lock ttl w).1 lock
              ≡ some (elim (value w lock) [ none ↦ token | some s ↦ s ]))
    unfolding try_acquire_distributed_lock
    try_acquire_distributed_lock_iff lock token ttl w e =
        let w1 = (backend.token w).1 in
        let same = works.token_value w lock in
        elim (Option-cases (value w lock)) [
          | inl free ↦
              let here = same ∙ free in
              rw (◌>>=◌, e, works.set_nx_reply lock token ttl w1 here, free)
                (
                  refl,
                  ground (arith, works.set_nx_value lock token ttl w1 lock here, eq_iff lock lock),
                )
          | inr (s, held) ↦
              let here = same ∙ held in
              rw (◌>>=◌, e, works.set_nx_taken lock token s ttl w1 here, held) (refl, here)
        ]
