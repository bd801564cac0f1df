-- ===== src/Provenance/Several.antt =====
-- Several gateways beside one Redis, which answer requests with `ServeHTTP` of gateway/handler.go one
-- after the other.
use distributed_caching.Base.{
  ℕ, ◌≡◌, true, Bool, String, List, [], ◌∷◌, Option, if◌then◌else◌, ◌==◌, nat_keys, Bool-cases, inl,
  inr,
}
use distributed_caching.Base.Int.{ℤ}
use distributed_caching.Config.{GatewayConfig}
use distributed_caching.Fetch.{Env}
use distributed_caching.Gateway.{Server, serve_http}
use distributed_caching.L1.Linked.{IsLinked, view}
use distributed_caching.Outside.{Io, Codec, pure, ◌>>=◌}
use distributed_caching.Outside.Ensuring.{Ensures}
use distributed_caching.Provenance.{IsFrom, IsSound, Documented, OwnKeys, FromAnswer}
use distributed_caching.Provenance.First.{AllFrom}
use distributed_caching.Provenance.Served.{serve_http-Ensures}
use distributed_caching.SingleFlight.{Response}

-- The gateways by number. The world is one, and that of a gateway is not looked at.
pub record Gateways (W Float : Type 0) : Type 0 where
  pub gateways : ℕ → Server W Float
  pub shared : W

module _ {W Float : Type 0} (env : Env W Float) (config_codec : Codec (GatewayConfig Float))
    (parse_int : String → Option ℤ) (rounds : ℕ) where
  unfoldable pub serve_at : ℕ → String → Io (Gateways W Float) (Option Response)
  serve_at i key g =
      let (answer, s) =
        serve_http env config_codec parse_int rounds key
          (record (g.gateways i) { world = g.shared }) in
      (answer, record { gateways = λ j. if j == i then s else g.gateways j; shared = s.world })

  -- The answers to requests for keys, each at the gateway of a number.
  unfoldable pub serve_all :
      List (ℕ × String) → Io (Gateways W Float) (List (String × Option Response))
  serve_all [] = pure []
  serve_all ((i, key) ∷ requests) = do
    answer ← serve_at i key
    answers ← serve_all requests
    pure ((key, answer) ∷ answers)

module _ (is_key : String → Bool) where
  unfoldable pub AllKeys : List (ℕ × String) → Type 0
  AllKeys [] = Unit
  AllKeys ((i, key) ∷ requests) = (is_key key ≡ true) × AllKeys requests

module _ {W Float : Type 0} (env : Env W Float) where
  unfoldable pub AllAnswers : List (String × Option Response) → Type 0
  AllAnswers [] = Unit
  AllAnswers ((key, answer) ∷ answers) = FromAnswer env key answer × AllAnswers answers

module _ {W Float : Type 0} (env : Env W Float) (value : W → String → Option String)
    (is_key : String → Bool) where
  -- Every gateway's own level and Redis hold what is from the backend.
  pub record AllHold (g : Gateways W Float) : Type 0 where
    pub linked : (i : ℕ) → IsLinked (g.gateways i).l1
    pub first : (i : ℕ) → AllFrom (IsFrom env) (view (g.gateways i).l1.order)
    pub second : IsSound env value is_key g.shared

  module _ (laws : Documented env value is_key) (own : OwnKeys env is_key)
      (config_codec : Codec (GatewayConfig Float)) (parse_int : String → Option ℤ)
      (rounds : ℕ) where
    serve_at-Ensures :
        (i : ℕ) (key : String)
        → is_key key ≡ true
        → Ensures AllHold (serve_at env config_codec parse_int rounds i key) (FromAnswer env key)
    unfolding serve_at
    serve_at-Ensures i key cached g h =
        let s = record (g.gateways i) { world = g.shared } in
        let (kept, from) =
          serve_http-Ensures env value is_key laws own config_codec parse_int rounds key cached s
            (record { linked = h.linked i; first = h.first i; second = h.second }) in
        (
          record {
            linked = λ j. elim (Bool-cases (j == i)) [
              | inl here ↦ rw here kept.linked
              | inr other ↦ rw other (h.linked j)
            ];
            first = λ j. elim (Bool-cases (j == i)) [
              | inl here ↦ rw here kept.first
              | inr other ↦ rw other (h.first j)
            ];
            second = kept.second;
          },
          from,
        )

    -- With a Redis whose commands write nothing but what they are given and may fail, and a codec
    -- that keeps the bytes of a value, where the keys of requests are none of the gateways' own
    -- keys: if the first levels of all gateways are linked, and each of their entries and each
    -- value that is stored in Redis under the key of a request is the body of an answer of the
    -- backend to a request for its key with a status from 200 to 299, then after any list of
    -- requests for such keys at these gateways, one after the other, the same holds, and the body
    -- of each answer with a status from 200 to 299 is that of an answer of the backend to a
    -- request for its key with such a status, whichever gateway answered it and fetched it.
    pub serve_all-Ensures :
        (requests : List (ℕ × String))
        → AllKeys is_key requests
        → Ensures AllHold (serve_all env config_codec parse_int rounds requests) (AllAnswers env)
    unfolding serve_all AllKeys AllAnswers
    serve_all-Ensures [] keys g h = (h, tt)
    serve_all-Ensures ((i, key) ∷ requests) (cached, keys) g h =
        let (h1, from) = serve_at-Ensures i key cached g h in
        let (h2, rest) = serve_all-Ensures requests keys _ h1 in (h2, (from, rest))
