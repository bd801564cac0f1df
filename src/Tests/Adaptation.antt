-- ===== src/Tests/Adaptation.antt =====
-- Two controllers that share their state.
use distributed_caching.Base.{ℕ, ◌≡◌, refl}
use distributed_caching.Adaptive.{AdaptiveTtlSnapshot, BackendLoadSignals, snapshot}
use distributed_caching.Floats.{Floats}
use distributed_caching.Outside.{Io, Reply, ok, Codec, RoundTrips}
use distributed_caching.Shared.{save_own, synchronize_from_redis, is_missing}
use distributed_caching.Shared.Snapshot.{synchronize_from_redis-save}
use distributed_caching.Tests.Cases.{controller_at, signals_at}
use distributed_caching.Tests.Fixed.{thousandths}
use distributed_caching.Tests.Server.{answers, world, only}
use distributed_caching.Tests.Store.{World}

instance abbrev fixed_point : Floats ℕ
fixed_point = thousandths

abbrev load : Io World (Reply (BackendLoadSignals ℕ))
load w = (ok (signals_at 600_000 14), w)

abbrev exact : Codec (AdaptiveTtlSnapshot ℕ)
exact = only (snapshot (controller_at 1250))

exact-RoundTrips : RoundTrips exact (snapshot (controller_at 1250))
exact-RoundTrips = record { text = "json"; written = refl; read_back = refl }

synchronize_from_redis-save_example :
    (synchronize_from_redis (answers 200) exact load (record {
      controller = controller_at 1000;
      world =
          (save_own
            (answers 200)
            exact
            load
            (record { controller = controller_at 1250; world = world })).1.world;
    })).1.controller
    ≡ controller_at 1250
unfolding is_missing exact-RoundTrips
synchronize_from_redis-save_example =
    synchronize_from_redis-save (answers 200) exact load (controller_at 1250) exact-RoundTrips refl
      refl (controller_at 1000) world refl
