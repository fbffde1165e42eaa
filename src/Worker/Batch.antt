-- ===== src/Worker/Batch.antt =====
-- Every task that a worker of src/distllm/worker.py took is reported once.
use mathlib.Core.List.Perm
use mathlib.Core.List.{perm_middle}
use distllm.Prelude.{
  map-append, length-map, String, Option, none, some, List, [], ◌∷◌, ◌++◌, ◌==◌, nat_eq, eq_of_beq,
  ◌≡◌, refl, sym, ap, ◌∙◌, subst, inl, inr, arith, Bool-cases, Option-cases, map, length, Perm,
}
use distllm.Worker.{
  Payload, Func, single, batched, run_func, Tasks, good, Outcome, undecoded, zip_results, process,
}

abbrev pub ids : {A : Type 0} → List (String × A) → List String
ids ts = map (λ (id, a). id) ts

-- the ids of what is reported
abbrev pub reported : {R : Type 0} → List (Outcome R) → List String
reported os = map (λ (id, r, rid). id) os

-- one result for a payload, whatever the function does
pub length-run_func :
    {R : Type 0} (f : Func R) (ps : List Payload) → length (run_func f ps) ≡ length ps
unfolding run_func
length-run_func (single f) ps = length-map f ps
length-run_func (batched f) ps = elim (Option-cases (f ps)) [
  | inl e ↦ rw e (length-map (λ p. none) ps)
  | inr (rs, e) ↦ elim (Bool-cases (length rs == length ps)) [
    | inl same ↦ rw (e, same) (eq_of_beq (length rs) (length ps) same)
    | inr other ↦ rw (e, other) (length-map (λ p. none) ps)
  ]
]

reported-zip_results :
    {R : Type 0} (ts : List (String × Payload)) (rs : List (Option R))
    → length rs ≡ length ts
    → reported (zip_results ts rs) ≡ ids ts
unfolding zip_results
reported-zip_results [] rs e = refl
reported-zip_results (t ∷ ts) [] e = absurd (omega arith)
reported-zip_results ((id, p) ∷ ts) (r ∷ rs) e =
    ap (◌∷◌ id) (reported-zip_results ts rs (omega (arith, e)))

split-perm :
    (R : Type 0) (ts : Tasks) → Perm (reported (undecoded {R = R} ts) ++ ids (good ts)) (ids ts)
unfolding undecoded good
split-perm R [] = Perm.refl []
split-perm R ((id, none) ∷ ts) = Perm.cons id (split-perm R ts)
split-perm R ((id, some p) ∷ ts) =
    Perm.trans (perm_middle (reported (undecoded {R = R} ts)) (ids (good ts)))
      (Perm.cons id (split-perm R ts))

-- Whatever the worker's function does, alone or in a batch, the outcomes that it reports are those of
-- the tasks that it took, each once.
pub process-perm : {R : Type 0} (f : Func R) (ts : Tasks) → Perm (reported (process f ts)) (ids ts)
unfolding process
process-perm {R} f ts =
    let payloads = map (λ (id, p). p) (good ts) in
    subst (λ xs. Perm xs (ids ts))
      (sym (
        map-append (λ (id, r, rid). id) (undecoded ts) (zip_results (good ts) (run_func f payloads))
        ∙ ap (λ xs. reported (undecoded {R = R} ts) ++ xs)
            (reported-zip_results (good ts) (run_func f payloads)
              (length-run_func f payloads ∙ length-map (λ (id, p). p) (good ts)))))
      (split-perm R ts)
