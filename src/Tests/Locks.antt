-- ===== src/Tests/Locks.antt =====
-- Two gateways and one lock: the second one takes the lock when the first one's has expired, and the
-- first one gives back what it does not have any more.
use distributed_caching.Base.{
  ℕ, String, Option, Bool, true, false, ap, sym, ◌∙◌, ◌≡◌, ◌≢◌, refl, none, some, ◌==◌, string_keys,
  if◌then◌else◌, lookup, insert, delete, ◌∷◌, [], ltb, suc, arith, nat_keys,
}
use distributed_caching.Base.Int.{pos}
use distributed_caching.Fetch.{Env}
use distributed_caching.Lock.{try_acquire_distributed_lock, release_distributed_lock}
use distributed_caching.Lock.Holder.{holds, LockWorks}
use distributed_caching.Lock.Gateways.{
  Sharing, released, LockStep, acquire, release, expire, LockReach, start, next, IsHolder,
  IsHolder-stays,
}
use distributed_caching.Outside.{ok}
use distributed_caching.Tests.Server.{answers}
use distributed_caching.Tests.Store.{World, store-taken, store-free_reply, store-free_value}

-- The tokens differ.
abbrev numbered : Env World ℕ
numbered = record (answers 200) {
  backend = record (answers 200).backend {
    token =
        λ w. (ok (if ltb w.clock 6 then "first" else "second"), record w { clock = suc w.clock });
  };
}

numbered-Works : LockWorks numbered (λ w k. w.strings k)
numbered-Works = record {
  set_nx_taken = λ k t s ttl w h. store-taken k t ttl w s h;
  set_nx_reply = λ k t ttl w h. store-free_reply k t ttl w h;
  set_nx_value = λ k t ttl w j h. store-free_value k t ttl w j h;
  token_value = λ w j. refl;
  script = λ p w. refl;
  call_get = λ k w. refl;
  call_del = λ k w j. refl;
}

abbrev free_at : ℕ → World
free_at t = record { strings = λ k. none; sets = λ z. []; clock = t }

abbrev first_has : Sharing World
first_has = record {
  world = (try_acquire_distributed_lock numbered "lock" (pos 20) (free_at 5)).1;
  owners = (1, "first") ∷ [];
}

abbrev second_has : Sharing World
second_has = record {
  world = (try_acquire_distributed_lock numbered "lock" (pos 20) (free_at 6)).1;
  owners = (1, "first") ∷ (2, "second") ∷ [];
}

first_has-LockReach : LockReach numbered (λ w k. w.strings k) "lock" (pos 20) first_has
unfolding try_acquire_distributed_lock insert lookup
first_has-LockReach = next (start (free_at 5) refl) (acquire 1 "first" refl (λ j e. cc) refl)

first_token : (j : ℕ) → lookup j first_has.owners ≡ (if 1 == j then some "first" else none)
unfolding lookup
first_token j = refl

other_token : (b : Bool) → if◌then◌else◌ {A = Option String} b (some "first") none ≢ some "second"
other_token true = λ e. cc (ap (holds "second") e)
other_token false = λ e. cc e

first_token-other : (j : ℕ) → lookup j first_has.owners ≢ some "second"
first_token-other j = λ e. other_token (1 == j) (sym (first_token j) ∙ e)

second_has-LockReach : LockReach numbered (λ w k. w.strings k) "lock" (pos 20) second_has
unfolding try_acquire_distributed_lock insert lookup
second_has-LockReach =
    next (next first_has-LockReach (expire (free_at 6) refl))
      (acquire 2 "second" refl (λ j e. first_token-other j e) refl)

abbrev late_release : Sharing World
late_release = record {
  world = (release_distributed_lock numbered "lock" "first" second_has.world).1;
  owners = (2, "second") ∷ [];
}

late_step :
    LockStep numbered (λ w k. w.strings k) "lock" (pos 20) second_has (released 1) late_release
unfolding delete lookup
late_step = release 1 "first" refl

second_has-IsHolder : IsHolder numbered (λ w k. w.strings k) "lock" (pos 20) second_has 2
unfolding try_acquire_distributed_lock lookup
second_has-IsHolder = record { token = "second"; told = refl; held = refl }

IsHolder-stays_example :
    IsHolder numbered (λ w k. w.strings k) "lock" (pos 20) late_release 2
    × ((j : ℕ) → IsHolder numbered (λ w k. w.strings k) "lock" (pos 20) late_release j → j ≡ 2)
IsHolder-stays_example =
    IsHolder-stays numbered (λ w k. w.strings k) "lock" (pos 20) numbered-Works 2
      second_has-LockReach late_step (λ e. ground (arith, e)) (λ e. cc e) second_has-IsHolder
