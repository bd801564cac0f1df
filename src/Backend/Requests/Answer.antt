-- ===== src/Backend/Requests/Answer.antt =====
-- What `Get` answers.
use distributed_caching.Base.{
  ◌≡◌, refl, ◌↔◌, Bool, true, false, ◌||◌, none, String, ◌==◌, string_keys, Bool-cases, inl, inr,
  arith,
}
use distributed_caching.Backend.Requests.{get_answer, find_entity}

-- Only a request whose context ended is left without an answer; a failed one is not found.
get_answer-none_iff :
    (id : String) (in_delay ended : Bool)
    → (get_answer id in_delay ended ≡ none) ↔ ((in_delay || ended) ≡ true)
unfolding get_answer find_entity
get_answer-none_iff id true ended = (λ _. refl, λ _. refl)
get_answer-none_iff id false true = elim (Bool-cases (id == "")) [
  | inl empty ↦ ground arith
  | inr full ↦ ground arith
]
get_answer-none_iff id false false = elim (Bool-cases (id == "")) [
  | inl empty ↦ ground arith
  | inr full ↦ ground arith
]
