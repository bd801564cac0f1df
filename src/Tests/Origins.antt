-- ===== src/Tests/Origins.antt =====
-- Two gateways beside one backend, whose codec writes a body of one byte with as many ones.
use distributed_caching.Base.{
  ℕ, ◌≡◌, refl, Bool, true, false, String, [], ◌∷◌, Option, none, some, ◌==◌, string_keys, eq_iff,
  if◌then◌else◌, inl, inr, ap, sym, ◌∙◌, ◌⊎◌, Bool-cases, Option-cases, lookup,
}
use distributed_caching.Cache.{Bytes, L2CacheValue}
use distributed_caching.Config.{GatewayConfig}
use distributed_caching.ConfigStore.{gateway_config_key, gateway_config_version_key}
use distributed_caching.Fetch.{Env, faf_refresh_marker_key}
use distributed_caching.Gateway.{Server, serve_http}
use distributed_caching.L2.{to_l2}
use distributed_caching.L2.Working.{listed}
use distributed_caching.Lock.{distributed_lock_key}
use distributed_caching.Wiring.Routes.{starts-ne}
use text.Mathlib.TextPositions.{starts_with-append}
use distributed_caching.Outside.{Codec, Reply, ok, err}
use distributed_caching.Provenance.{Documented, OwnKeys, FromAnswer}
use distributed_caching.Provenance.Several.{
  Gateways, AllHold, AllKeys, AllAnswers, serve_all, serve_all-Ensures,
}
use distributed_caching.Tests.Cases.{usual_config, value_until}
use distributed_caching.Tests.Server.{only, world, answers, server, empty-IsLinked}
use distributed_caching.Provenance.Answers.{HoldsFrom}
use distributed_caching.Provenance.Served.{serve_http-Ensures}
use distributed_caching.Provenance.First.{some_injective}
use distributed_caching.Tests.Store.{
  World, store, store-Works, ones, parse_ones, count-ones, store-taken, store-free_value,
}
use distributed_caching.Time.{Duration}
use Prim.Native.String.{count, ◌++◌}

abbrev write_bytes : Bytes → Reply String
write_bytes [] = err "empty"
write_bytes (b ∷ []) = ok (ones b)
write_bytes (b ∷ c ∷ bytes) = err "long"

abbrev by_ones : Codec L2CacheValue
by_ones = record {
  encode = λ v. write_bytes v.value;
  decode = λ t. some (record (to_l2 (value_until 10)) { value = count t ∷ [] });
}

abbrev one_byte : Env World ℕ
one_byte = record (answers 200) { codec = by_ones }

abbrev texts : World → String → Option String
texts w k = w.strings k

abbrev is_page : String → Bool
is_page k = k == "/page"

the_ok : {a b : String} → ok a ≡ ok b → a ≡ b
the_ok same = cc

not_erased :
    (b : Bool) (o : Option String) (u : String) → (if b then none else o) ≡ some u → o ≡ some u
not_erased true o u stored = cc
not_erased false o u stored = stored

keeps_bytes : (b : Bytes) (t : String) → write_bytes b ≡ ok t → count t ∷ [] ≡ b
keeps_bytes [] t written = cc
keeps_bytes (b ∷ []) t written = ap (λ n. n ∷ []) (ap count (sym (the_ok written)) ∙ count-ones b)
keeps_bytes (b ∷ c ∷ bytes) t written = cc

put-texts :
    (k t : String) (w : World) (j u : String)
    → (if k == j then some t else w.strings j) ≡ some u
    → (w.strings j ≡ some u) ⊎ ((k ≡ j) × (t ≡ u))
put-texts k t w j u stored = elim (Bool-cases (k == j)) [
  | inl same ↦ inr ((eq_iff k j).0 same, some_injective (rw same at stored))
  | inr other ↦ inl (rw other at stored)
]

set_nx-texts :
    (k t : String) (ttl : Duration) (w : World) (j u : String)
    → (store.set_nx k t ttl w).1.strings j ≡ some u
    → (w.strings j ≡ some u) ⊎ ((k ≡ j) × (t ≡ u))
set_nx-texts k t ttl w j u stored = elim (Option-cases (w.strings k)) [
  | inl free ↦ put-texts k t w j u (sym (store-free_value k t ttl w j free) ∙ stored)
  | inr (s, there) ↦ inl (rw (store-taken k t ttl w s there) at stored)
]

documented : Documented one_byte texts is_page
documented = record {
  now = λ w k t stored. stored;
  get = λ j w k t stored. stored;
  get_reads = λ k t w read. cc;
  set = λ k t ttl w j u stored. put-texts k t w j u stored;
  set_nx = λ k t ttl w j u stored. set_nx-texts k t ttl w j u stored;
  del =
      λ ks w k t stored. not_erased (listed k ks) _ t (sym (store-Works.del_value ks w k) ∙ stored);
  key_exists = λ j w k t stored. stored;
  mget = λ ks w k t stored. stored;
  zadd = λ z x j w k t stored. stored;
  zrem = λ z j w k t stored. stored;
  zcard = λ z w k t stored. stored;
  zpopmin = λ z n w k t stored. stored;
  script = λ p quiet. quiet;
  call_get = λ j w k t stored. stored;
  call_del = λ j w k t stored. not_erased (j == k) _ t stored;
  keeps_value = λ v u t written decoded.
      sym (ap (λ x. x.value) (some_injective decoded)) ∙ keeps_bytes v.value t written;
  serve = λ key timeout w k t stored. stored;
  context_err = λ w k t stored. stored;
  token = λ w k t stored. stored;
  random = λ w k t stored. stored;
  poll = λ d w k t stored. stored;
}

own_keys : OwnKeys one_byte is_page
unfolding faf_refresh_marker_key distributed_lock_key
own_keys = record {
  marker = λ key.
      (starts-ne ("gateway:faf:refresh:" ++ key) "/page" "gateway:faf:refresh:"
        (starts_with-append "gateway:faf:refresh:" key) refl).1;
  lock = λ key.
      (starts-ne ("gateway:lock:" ++ key) "/page" "gateway:lock:"
        (starts_with-append "gateway:lock:" key) refl).1;
}

abbrev plain : GatewayConfig ℕ
plain = record usual_config { single_flight_enabled = false }

abbrev ready : World
ready = record world {
  strings = λ k.
      if k == gateway_config_key
      then some "json"
      else if k == gateway_config_version_key
      then some "1"
      else none;
}

abbrev two_gateways : Gateways World ℕ
two_gateways = record { gateways = λ i. record server { gateway_config = plain }; shared = ready }

nothing_stored : (k t : String) → is_page k ≡ true → ready.strings k ≡ some t → ⊥
nothing_stored k t cached stored = cc (rw ((eq_iff k "/page").0 cached) at stored)

nothing-AllHold : AllHold one_byte texts is_page two_gateways
unfolding lookup
nothing-AllHold = record {
  linked = λ i. empty-IsLinked;
  first = λ i k v none_is. cc;
  second = record {
    sound = λ k t v cached stored decoded. absurd (nothing_stored k t cached stored);
  };
}

serve_all-Ensures_example :
    AllHold one_byte texts is_page
      (serve_all one_byte
        (only plain)
        parse_ones
        3
        ((0, "/page") ∷ (1, "/page") ∷ [])
        two_gateways).1
    × AllAnswers one_byte
        (serve_all one_byte
          (only plain)
          parse_ones
          3
          ((0, "/page") ∷ (1, "/page") ∷ [])
          two_gateways).0
unfolding AllKeys
serve_all-Ensures_example =
    serve_all-Ensures one_byte texts is_page documented own_keys (only plain) parse_ones 3
      ((0, "/page") ∷ (1, "/page") ∷ []) (refl, (refl, tt)) two_gateways nothing-AllHold

abbrev one_gateway : Server World ℕ
one_gateway = record server { gateway_config = plain; world = ready }

serve_http-Ensures_example :
    HoldsFrom one_byte texts is_page
      (serve_http one_byte (only plain) parse_ones 3 "/page" one_gateway).1
    × FromAnswer one_byte "/page"
        (serve_http one_byte (only plain) parse_ones 3 "/page" one_gateway).0
serve_http-Ensures_example =
    serve_http-Ensures one_byte texts is_page documented own_keys (only plain) parse_ones 3 "/page"
      refl one_gateway
      (record {
        linked = nothing-AllHold.linked 0;
        first = nothing-AllHold.first 0;
        second = nothing-AllHold.second;
      })
