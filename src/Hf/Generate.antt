-- ===== src/Hf/Generate.antt =====
-- `PipelineGenerator.generate` of src/distllm/hf.py: one token per step, from cached prefixes, with
-- replays of the whole sequence when a stage has lost its cache. Picking a token from logits is a
-- parameter with its random state: `sample_next` with a seeded generator.
use distllm.Prelude.{
  ℕ, zero, suc, ◌+◌, Bool, true, false, ◌||◌, Option, none, some, List, [], ◌∷◌, ◌++◌, ◌==◌, nat_eq,
  if◌then◌else◌, length, drop,
}
use distllm.Hf.Pipeline.{Pipeline}

abbrev pub is_in : ℕ → List ℕ → Bool
is_in a [] = false
is_in a (x ∷ xs) = x == a || is_in a xs

-- The token ids and `cache_recoveries`, CacheRecoveryError, or RuntimeError for a miss at position 0.
pub data Outcome : Type 0 where
  generated : List ℕ → ℕ → Outcome
  recovery_error unexpected_miss : Outcome

-- one more token, and the recoveries that its step took
abbrev pub onto : ℕ → ℕ → Outcome → Outcome
onto token more (generated ids recoveries) = generated (token ∷ ids) (more + recoveries)
onto token more recovery_error = recovery_error
onto token more unexpected_miss = unexpected_miss

abbrev pub give_up : Bool → Outcome
give_up true = recovery_error
give_up false = unexpected_miss

-- The unsplit model, one token at a time, each picked from the logits of the whole sequence.
unfoldable pub reference :
    {Out Rng : Type 0} → (Out → Rng → ℕ × Rng) → List ℕ → (List ℕ → Out) → ℕ → List ℕ → Rng → List ℕ
reference pick eos logits zero sequence rng = []
reference pick eos logits (suc n) sequence rng =
    let (token, rng') = pick (logits sequence) rng in
    let rest = reference pick eos logits n (sequence ++ token ∷ []) rng' in
    token ∷ (if is_in token eos then [] else rest)

module _ {Out : Type 0} (p : Pipeline Out) where
  open p use {State, call, whole, HoldsPrefix}

  -- the loop of replays: the logits with the number of replays, or none when they ran out
  unfoldable pub replay : ℕ → ℕ → State → List ℕ → Option (Out × ℕ) × State
  replay zero done s sequence = (none, s)
  replay (suc budget) done s sequence =
      let (o, s') = call s 0 sequence in
      let rest = replay budget (suc done) s' sequence in
      elim o [ some out ↦ (some (out, suc done), s') | none ↦ rest ]

  -- the logits of one step, from the cached prefix or after replays
  unfoldable pub step_cached : ℕ → State → ℕ → List ℕ → Option (Out × ℕ) × State
  unfolding replay
  step_cached max_recoveries s cached sequence =
      let (o, s') = call s cached (drop cached sequence) in
      let rest = replay max_recoveries 0 s' sequence in
      elim o [ some out ↦ (some (out, 0), s') | none ↦ rest ]

  unfoldable pub step_uncached : State → List ℕ → Option (Out × ℕ) × State
  step_uncached s sequence =
      let (o, s') = call s 0 sequence in
      elim o [ some out ↦ (some (out, 0), s') | none ↦ (none, s') ]

  unfoldable pub step_logits : Bool → ℕ → State → ℕ → List ℕ → Option (Out × ℕ) × State
  unfolding step_cached step_uncached
  step_logits true max_recoveries s cached sequence = step_cached max_recoveries s cached sequence
  step_logits false max_recoveries s cached sequence = step_uncached s sequence

-- The loop of `generate`, over the steps that are left.
unfoldable pub generate :
    {Out Rng : Type 0}
    → (p : Pipeline Out) → (Out → Rng → ℕ × Rng)
    → List ℕ
    → Bool
    → ℕ
    → ℕ
    → p.State
    → ℕ
    → List ℕ
    → Rng
    → Outcome
unfolding step_logits
generate p pick eos use_kv_cache max_recoveries zero s cached sequence rng = generated [] 0
generate p pick eos use_kv_cache max_recoveries (suc n) s cached sequence rng =
    let (o, s') = step_logits p use_kv_cache max_recoveries s cached sequence in
    elim o [
      | none ↦ give_up use_kv_cache
      | some (out, recoveries) ↦
          let (token, rng') = pick out rng in
          let rest =
            generate p pick eos use_kv_cache max_recoveries n s' (length sequence)
              (sequence ++ token ∷ []) rng' in
          onto token recoveries (if is_in token eos then generated [] 0 else rest)
    ]
