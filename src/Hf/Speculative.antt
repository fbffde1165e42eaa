-- ===== src/Hf/Speculative.antt =====
-- `SpeculativeGenerator` of src/distllm/hf.py: rounds of proposals of a draft model, which the stages
-- check in one call. A call's output is the model's greedy token after each of the new tokens.
use distllm.Prelude.{
  ℕ, zero, suc, ◌+◌, ◌-◌, min, Bool, true, false, Option, none, some, List, [], ◌∷◌, ◌++◌, ◌==◌,
  nat_eq, if◌then◌else◌, length, drop,
}
use distllm.Hf.Pipeline.{Pipeline}
use distllm.Hf.Generate.{is_in, replay}
use distllm.Hf.Draft.{DraftModel, Draft, accept, propose}

-- The counts of SpeculativeResult.
pub record Counts : Type 0 where
  pub recoveries : ℕ
  pub rounds : ℕ
  pub proposed : ℕ
  pub accepted : ℕ

abbrev pub no_counts : Counts
no_counts = record { recoveries = 0; rounds = 0; proposed = 0; accepted = 0 }

-- `index_error` is Python's IndexError, `unfinished` stands for rounds without end.
pub data Spoken : Type 0 where
  spoken : List ℕ → Counts → Spoken
  recovery_error index_error unfinished : Spoken

-- the tokens and counts of one round before those of the rounds after it
abbrev pub before : List ℕ → ℕ → ℕ → ℕ → Spoken → Spoken
before emitted recoveries k accepted (spoken ids c) = spoken (emitted ++ ids) (record {
  recoveries = recoveries + c.recoveries;
  rounds = suc c.rounds;
  proposed = k + c.proposed;
  accepted = accepted + c.accepted;
})
before emitted recoveries k accepted recovery_error = recovery_error
before emitted recoveries k accepted index_error = index_error
before emitted recoveries k accepted unfinished = unfinished

-- `while accepted < k and proposal[accepted] == predictions[accepted]`, and the round's tokens:
-- the agreeing proposals with the prediction that follows them, or none where there is none.
unfoldable pub agree : List ℕ → List ℕ → Option (List ℕ × ℕ)
agree proposal [] = none
agree [] (p ∷ predictions) = some (p ∷ [], 0)
agree (t ∷ proposal) (p ∷ predictions) =
    let rest = agree proposal predictions in
    if t == p
    then elim rest [ none ↦ none | some (tokens, accepted) ↦ some (t ∷ tokens, suc accepted) ]
    else some (p ∷ [], 0)

-- The loop over the round's tokens: what it emits within the room, and whether it met an end token.
unfoldable pub emit : List ℕ → ℕ → List ℕ → List ℕ × Bool
emit eos zero tokens = ([], false)
emit eos (suc room) [] = ([], false)
emit eos (suc room) (t ∷ tokens) =
    let (emitted, stop) = emit eos room tokens in
    if is_in t eos then (t ∷ [], true) else (t ∷ emitted, stop)

module _ (p : Pipeline (List ℕ)) where
  abbrev pub of_replay : ℕ → Option (List ℕ × ℕ) × p.State → Option (List ℕ × ℕ) × p.State
  of_replay cached (none, s) = (none, s)
  of_replay cached (some (target, n), s) = (some (drop cached target, n), s)

  -- the predictions for the pending tokens and the proposal, with the number of replays
  unfoldable pub verify : ℕ → p.State → ℕ → List ℕ → List ℕ → Option (List ℕ × ℕ) × p.State
  unfolding replay
  verify max_recoveries s cached sequence proposal =
      let (o, s') = p.call s cached (drop cached sequence ++ proposal) in
      let rest = of_replay cached (replay p max_recoveries 0 s' (sequence ++ proposal)) in
      elim o [ some target ↦ (some (target, 0), s') | none ↦ rest ]

module _ (p : Pipeline (List ℕ)) (m : DraftModel) where
  -- The rounds, `room` tokens from the end. Each emits a token, so `room` rounds are enough fuel.
  unfoldable pub speculate : ℕ → List ℕ → ℕ → ℕ → ℕ → p.State → ℕ → List ℕ → Draft m → Spoken
  unfolding verify agree emit accept propose
  speculate fuel eos max_k max_recoveries zero s cached sequence draft = spoken [] no_counts
  speculate zero eos max_k max_recoveries (suc room) s cached sequence draft = unfinished
  speculate (suc fuel) eos max_k max_recoveries (suc room) s cached sequence draft =
      let k = min max_k (suc room) in
      let (proposal, draft') = propose m sequence k draft in
      let (o, s') = verify p max_recoveries s cached sequence proposal in
      elim o [
        | none ↦ recovery_error
        | some (target, recoveries) ↦
            elim (agree proposal (drop (length (drop cached sequence) - 1) target)) [
              | none ↦ index_error
              | some (tokens, accepted) ↦
                  let (emitted, stop) = emit eos (suc room) tokens in
                  let valid = length sequence + accepted in
                  let rest =
                    speculate fuel eos max_k max_recoveries (suc room - length emitted) s' valid
                      (sequence ++ emitted) (accept m valid draft') in
                  before emitted recoveries k accepted (if stop then spoken [] no_counts else rest)
            ]
      ]
