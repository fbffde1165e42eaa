-- ===== src/Hf/Through/Examples.antt =====
-- Two stages of src/distllm/hf.py behind a relay that loses tasks: the first passes its tokens on, the
-- second outputs their sum.
use distllm.Prelude.{
  ℕ, suc, ◌+◌, string_eq, true, false, none, some, some_inj, List, [], ◌∷◌, ◌++◌, ◌==◌, nat_eq,
  if◌then◌else◌, ◌≡◌, refl, sym, ap, ◌∙◌, take, map-append, length-map,
}
use distllm.Dict
use distllm.Hf.Generate.{
  generate, reference, generated, step_logits, step_cached, step_uncached, replay,
}
use distllm.Hf.Reference.{Agrees}
use distllm.Hf.Stage.{Layers, Limits, handle, resume, run, conclude, evict, drop_expired}
use distllm.Hf.Stage.Tokens.{Lawful}
use distllm.Hf.Through.{Part, passed, ended, States, through, step}
use distllm.Hf.Through.Laws.{Chain, only, link, fresh_all}
use distllm.Hf.Through.Retry.{StepAnswer, step-Answer, chain_pipeline, answer_chain, generate-chain}
use distllm.Hf.Through.Stages.{Fate, delivered, lost_before, lost_after, part, inner, last}

abbrev total : List ℕ → ℕ
total [] = 0
total (t ∷ ts) = t + total ts

-- layers whose cache is the list of its tokens, with a result from the tokens before and the new ones
abbrev listing : (R : Type 0) → (List ℕ → List ℕ → R) → Layers
listing R give = record {
  Cache = List ℕ;
  X = ℕ;
  Hidden = List ℕ × List ℕ;
  Result = R;
  Ask = Unit {0};
  empty = [];
  crop = λ c n. take n c;
  forward = λ c n new. (some (c, new), c ++ new);
  output = λ asked (q, new). some (give q new);
}

abbrev lawful : (R : Type 0) (give : List ℕ → List ℕ → R) → Lawful (listing R give)
lawful R give = record {
  Holds = λ c xs. c ≡ xs;
  whole = λ q new. (q, new);
  empty_holds = refl;
  crop_holds = λ c xs n few e. ap (take n) e;
  forward_holds = λ c xs new h e f. (ap (λ c. c ++ new) e, sym (some_inj f) ∙ ap (λ c. (c, new)) e);
}

abbrev limits : Limits
limits = record { max_sessions = 2; session_ttl = 600000 }

-- the fourth task of the first stage is lost after it ran, the second of the second one before
abbrev first_fates : ℕ → Fate
first_fates k = if k == 3 then lost_after 1000 else delivered 1000

abbrev second_fates : ℕ → Fate
second_fates k = if k == 1 then lost_before else delivered 1000

abbrev same_tokens : List ℕ → List ℕ → List ℕ
same_tokens q new = new

abbrev sum_up : List ℕ → List ℕ → ℕ
sum_up q new = total (q ++ new)

abbrev stages : List (Part ℕ ℕ)
stages =
    part ℕ ℕ (listing (List ℕ) same_tokens) (lawful (List ℕ) same_tokens)
      (λ asked (q, new). (new, refl)) limits tt "chat" first_fates (λ t. t) (λ r. passed r)
    ∷ part ℕ ℕ (listing ℕ sum_up) (lawful ℕ sum_up) (λ asked (q, new). (total (q ++ new), refl))
        limits tt "chat" second_fates (λ t. t) (λ r. ended r)
    ∷ []

abbrev chain : Chain stages
chain =
    link
      (inner ℕ ℕ (listing (List ℕ) same_tokens) (lawful (List ℕ) same_tokens)
        (λ asked (q, new). (new, refl)) limits tt "chat" first_fates (λ t. t) (λ r. r)
        (map-append (λ t. t)) (length-map (λ t. t)))
      (only (
        last ℕ ℕ (listing ℕ sum_up) (lawful ℕ sum_up) (λ asked (q, new). (total (q ++ new), refl))
          limits tt "chat" second_fates (λ t. t) (λ r. r)
          (λ q new. ap total (sym (map-append (λ t. t) q new)))))

abbrev start : States stages
start = ((([], (λ id. []), tt), 0), ((([], (λ id. []), tt), 0), tt))

-- what a step and a run unfold
program : Unit {0}
unfolding through step handle resume run conclude evict drop_expired Dict.get Dict.put Dict.delete
    generate reference step_logits step_cached step_uncached replay
program = tt

-- The second stage's task of the second step is lost, the step is sent again and rewinds the first
-- stage; then the first stage's reply is lost.
lossy_run :
    generate
      (chain_pipeline chain none tt (λ t. t))
      (λ r rng. (suc r, rng))
      (99 ∷ [])
      true
      2
      3
      start
      0
      (1 ∷ 2 ∷ [])
      tt
    ≡ generated (4 ∷ 8 ∷ 16 ∷ []) 0
unfolding program
lossy_run = refl

generate-chain_example :
    Agrees
      (generate
        (chain_pipeline chain none tt (λ t. t))
        (λ r rng. (suc r, rng))
        (99 ∷ [])
        true
        2
        3
        start
        0
        (1 ∷ 2 ∷ [])
        tt)
      (reference
        (λ r rng. (suc r, rng))
        (99 ∷ [])
        (answer_chain chain none tt (λ t. t) [])
        3
        (1 ∷ 2 ∷ [])
        tt)
generate-chain_example =
    generate-chain chain none tt (λ t. t) (λ r rng. (suc r, rng)) (99 ∷ []) true 2 3 start
      (1 ∷ 2 ∷ []) tt

step-Answer_example :
    StepAnswer chain []
      (1 ∷ 2 ∷ [])
      (step stages none start 0 false (1 ∷ 2 ∷ [])).0
      (step stages none start 0 false (1 ∷ 2 ∷ [])).1
step-Answer_example = step-Answer chain none tt start [] (1 ∷ 2 ∷ []) false (fresh_all chain start)
