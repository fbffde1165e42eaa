-- ===== src/Worker/Posting.antt =====
-- The upload of a result by src/distllm/worker.py.
use distllm.Prelude.{
  ℕ, zero, suc, ◌+◌, ◌<◌, ltb, false, Option, none, some, ap, subst, ◌∙◌, ◌==◌, nat_eq, ◌≡◌, refl,
  inl, inr, ◌⊎◌, arith, if◌then◌else◌, Bool-cases,
}
use distllm.Worker.{
  Response, status, http_error, Posted, posted, unauthorized, post_from, post_result,
  result_retries,
}

-- the code of an answer that an upload is not retried after, or none
abbrev pub final : Response → Option ℕ
final http_error = none
final (status code) = if ltb code 500 then some code else none

abbrev pub verdict : ℕ → Posted
verdict code = if code == 401 then unauthorized else posted (code == 200)

-- All answers are passing failures, or the first of another kind decides.
abbrev pub Decides : ℕ → ℕ → (ℕ → Response) → Posted × ℕ → Type 0
Decides left attempt responses r =
    (((i : ℕ) → i < left → final (responses (attempt + i)) ≡ none) × (r ≡ (posted false, left)))
    ⊎ ((i code : ℕ) × (i < left)
        × ((j : ℕ) → j < i → final (responses (attempt + j)) ≡ none)
        × (final (responses (attempt + i)) ≡ some code)
        × (r ≡ (verdict code, suc i)))

before-first :
    (responses : ℕ → Response) (attempt n : ℕ)
    → final (responses attempt) ≡ none
    → ((i : ℕ) → i < n → final (responses (suc attempt + i)) ≡ none)
    → (i : ℕ) → i < suc n
    → final (responses (attempt + i)) ≡ none
before-first responses attempt n now later zero h =
    subst (λ k. final (responses k) ≡ none) (omega arith) now
before-first responses attempt n now later (suc i) h =
    subst (λ k. final (responses k) ≡ none) (omega arith) (later i (omega arith))

Decides-retry :
    (left attempt : ℕ) (responses : ℕ → Response) (r : Posted × ℕ)
    → final (responses attempt) ≡ none
    → Decides left (suc attempt) responses r
    → Decides (suc left) attempt responses (r.0, suc r.1)
Decides-retry left attempt responses r now (inl (all, e)) =
    inl (before-first responses attempt left now all, ap (λ r. (r.0, suc r.1)) e)
Decides-retry left attempt responses r now (inr (i, code, few, earlier, here, e)) = inr (
  suc i,
  code,
  omega arith,
  before-first responses attempt i now earlier,
  subst (λ k. final (responses k) ≡ some code) (omega arith) here,
  ap (λ r. (r.0, suc r.1)) e,
)

Decides-now :
    (left attempt code : ℕ) (responses : ℕ → Response)
    → final (responses attempt) ≡ some code
    → Decides (suc left) attempt responses (verdict code, 1)
Decides-now left attempt code responses e = inr (
  0,
  code,
  omega arith,
  λ j h. absurd (omega (arith, h)),
  subst (λ k. final (responses k) ≡ some code) (omega arith) e,
  refl,
)

Decides-step :
    (left attempt : ℕ) (responses : ℕ → Response) (r : Response) (rest : Posted × ℕ)
    → responses attempt ≡ r
    → Decides left (suc attempt) responses rest
    → Decides (suc left) attempt responses (elim r [
      | http_error ↦ (rest.0, suc rest.1)
      | status code ↦
          if code == 401
          then (unauthorized, 1)
          else if ltb code 500
          then (posted (code == 200), 1)
          else (rest.0, suc rest.1)
    ])
Decides-step left attempt responses http_error rest e d =
    Decides-retry left attempt responses rest (ap final e) d
Decides-step left attempt responses (status code) rest e d = elim (Bool-cases (code == 401)) [
  | inl denied ↦
      let now : final (status code) ≡ some code = ground (arith, denied) in
      let same : verdict code ≡ unauthorized = rw denied refl in
      rw denied (
        subst (λ v. Decides (suc left) attempt responses (v, 1)) same
          (Decides-now left attempt code responses (ap final e ∙ now)))
  | inr granted ↦ elim (Bool-cases (ltb code 500)) [
    | inl settled ↦
        let now : final (status code) ≡ some code = rw settled refl in
        let same : verdict code ≡ posted (code == 200) = rw granted refl in
        rw (granted, settled)
          (subst (λ v. Decides (suc left) attempt responses (v, 1)) same
            (Decides-now left attempt code responses (ap final e ∙ now)))
    | inr passing ↦
        let later : final (status code) ≡ none = rw passing refl in
        rw (granted, passing) (Decides-retry left attempt responses rest (ap final e ∙ later) d)
  ]
]

post_from-Decides :
    (left attempt : ℕ) (responses : ℕ → Response)
    → Decides left attempt responses (post_from left attempt responses)
unfolding post_from
post_from-Decides zero attempt responses = inl (λ i h. absurd (omega (arith, h)), refl)
post_from-Decides (suc left) attempt responses =
    Decides-step left attempt responses (responses attempt) (post_from left (suc attempt) responses)
      refl (post_from-Decides left (suc attempt) responses)

-- The upload of a result is decided by the first answer with a code below 500, among at most
-- RESULT_RETRIES uploads: 401 ends the worker, 200 is a success, any other is not; without such an
-- answer the worker gives up after all of them.
pub post_result-Decides :
    (responses : ℕ → Response) → Decides result_retries 0 responses (post_result responses)
unfolding post_result
post_result-Decides responses = post_from-Decides result_retries 0 responses
