-- ===== src/ConfigHandler/Fleet/Told.antt =====
-- The configurations that the store has had, by their versions.
use distributed_caching.Base.{
  ℕ, suc, ◌≤◌, ◌≡◌, refl, Option, none, some, List, [], ◌∷◌, length, nat_keys, ◌==◌, if◌then◌else◌,
  Bool-cases, inl, inr, true, arith,
}
use distributed_caching.Base.Int.{ℤ, pos}
use distributed_caching.Config.{GatewayConfig}
use distributed_caching.Fetch.{Env}
use distributed_caching.Gateway.{Server, adopt_config, same_version}

module _ {A : Type 0} where
  -- The first one stored has version 1.
  abbrev pub at_version : ℕ → List A → Option A
  at_version n [] = none
  at_version n (c ∷ cs) = if suc (length cs) == n then some c else at_version n cs

  at_version-le : (n : ℕ) (cs : List A) {c : A} → at_version n cs ≡ some c → n ≤ length cs
  at_version-le n [] h = cc
  at_version-le n (d ∷ cs) {c} h = ground (arith, at_version-le n cs {c = c})

  pub at_version-cons :
      (n : ℕ) (d : A) (cs : List A) {c : A}
      → at_version n cs ≡ some c
      → at_version n (d ∷ cs) ≡ some c
  at_version-cons n d cs h = ground (arith, at_version-le n cs h)

  pub at_version-latest : (c : A) (cs : List A) → at_version (suc (length cs)) (c ∷ cs) ≡ some c
  at_version-latest c cs = ground arith

  -- The configuration was stored with the version.
  pub record IsTold (cs : List A) (c : A) (version : ℤ) : Type 0 where
    pub number : ℕ
    pub is_number : version ≡ pos number
    pub was_stored : at_version number cs ≡ some c

  pub IsTold-cons : {cs : List A} {c : A} {v : ℤ} (d : A) → IsTold cs c v → IsTold (d ∷ cs) c v
  IsTold-cons {cs} d h = record {
    number = h.number;
    is_number = h.is_number;
    was_stored = at_version-cons h.number d cs h.was_stored;
  }

  pub IsTold-latest : (c : A) (cs : List A) → IsTold (c ∷ cs) c (pos (suc (length cs)))
  IsTold-latest c cs = record {
    number = suc (length cs);
    is_number = refl;
    was_stored = at_version-latest c cs;
  }

  -- A version has one configuration.
  pub IsTold-unique : {cs : List A} {c d : A} {v : ℤ} → IsTold cs c v → IsTold cs d v → c ≡ d
  IsTold-unique h k = ground arith

same_version-eq : (m n : ℕ) → same_version (pos m) (pos n) ≡ true → m ≡ n
unfolding same_version
same_version-eq m n h = ground arith

module _ {W Float : Type 0} (env : Env W Float) {cs : List (GatewayConfig Float)} where
  -- A gateway that takes up a version that it has already keeps its configuration, which is the one
  -- of that version.
  pub adopt_config-told :
      {config : GatewayConfig Float} {version : ℤ} (server : Server W Float)
      → IsTold cs config version
      → IsTold cs server.gateway_config server.config_version
      → ((adopt_config env config version server).gateway_config ≡ config)
        × ((adopt_config env config version server).config_version ≡ version)
  unfolding adopt_config
  adopt_config-told {config} {version} server h k =
      elim (Bool-cases (same_version version server.config_version)) [
        | inr other ↦ rw (other, adopt_config) (refl, refl)
        | inl same ↦
            let n = same_version-eq h.number k.number (ground arith) in
            let equal : server.config_version ≡ version = cc in
            let kept : IsTold cs server.gateway_config version = rw (← equal) k in
            rw (same, adopt_config) (IsTold-unique kept h, equal)
      ]
