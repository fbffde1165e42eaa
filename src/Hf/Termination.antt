-- ===== src/Hf/Termination.antt =====
-- The replays of `PipelineGenerator.generate`, src/distllm/hf.py, end when a stage answers a request
-- at position 0.
use distllm.Prelude.{
  ℕ, zero, suc, ◌≤◌, Bool, true, false, Option, none, some, List, [], ◌∷◌, ◌++◌, ◌≡◌, sym, subst,
  arith, if◌then◌else◌, length, drop,
}
use distllm.Hf.Pipeline.{Pipeline}
use distllm.Hf.Generate.{
  is_in, Outcome, generated, recovery_error, unexpected_miss, onto, give_up, replay, step_cached,
  step_uncached, step_logits, generate,
}

-- Ids came out, with at most this many replays.
abbrev pub Generates : Outcome → ℕ → Type 0
Generates (generated ids recoveries) n = recoveries ≤ n
Generates recovery_error n = ⊥
Generates unexpected_miss n = ⊥

onto-Generates :
    (token more n : ℕ) (o : Outcome)
    → more ≤ 1
    → Generates o n
    → Generates (onto token more o) (suc n)
onto-Generates token more n (generated ids r) m g = omega arith
onto-Generates token more n recovery_error m g = absurd g
onto-Generates token more n unexpected_miss m g = absurd g

stop-Generates :
    (b : Bool) (o : Outcome) (n : ℕ) → Generates o n → Generates (if b then generated [] 0 else o) n
stop-Generates true o n g = omega arith
stop-Generates false o n g = g

module _ {Out : Type 0} (p : Pipeline Out)
    (answers : (s : p.State) (sequence : List ℕ)
      → (out : Out) × ((p.call s 0 sequence).0 ≡ some out))
    (max_recoveries : ℕ) (one : 1 ≤ max_recoveries) where
  abbrev Answered : Option (Out × ℕ) × p.State → Type 0
  Answered (none, s') = ⊥
  Answered (some (out, r), s') = r ≤ 1

  answered :
      (o : Option Out) (out : Out) (done : ℕ) (s' : p.State) (rest : Option (Out × ℕ) × p.State)
      → done ≤ 1
      → o ≡ some out
      → Answered (elim o [ some out ↦ (some (out, done), s') | none ↦ rest ])
  answered o out done s' rest d e =
      subst (λ o. Answered (elim o [ some out ↦ (some (out, done), s') | none ↦ rest ])) (sym e) d

  replay-Answered :
      (budget : ℕ) (s : p.State) (sequence : List ℕ)
      → 1 ≤ budget
      → Answered (replay p budget 0 s sequence)
  unfolding replay
  replay-Answered zero s sequence b = absurd (omega arith)
  replay-Answered (suc budget) s sequence b =
      answered (p.call s 0 sequence).0 (answers s sequence).0 1 (p.call s 0 sequence).1
        (replay p budget 1 (p.call s 0 sequence).1 sequence) (omega arith) (answers s sequence).1

  cached-Answered :
      (r : Option Out × p.State) (sequence : List ℕ)
      → Answered (elim r.0 [
        | some out ↦ (some (out, 0), r.1)
        | none ↦ replay p max_recoveries 0 r.1 sequence
      ])
  cached-Answered (some out, s') sequence = omega arith
  cached-Answered (none, s') sequence = replay-Answered max_recoveries s' sequence one

  step_logits-Answered :
      (use_kv_cache : Bool) (s : p.State) (cached : ℕ) (sequence : List ℕ)
      → Answered (step_logits p use_kv_cache max_recoveries s cached sequence)
  unfolding step_logits step_cached step_uncached
  step_logits-Answered true s cached sequence =
      cached-Answered (p.call s cached (drop cached sequence)) sequence
  step_logits-Answered false s cached sequence =
      answered (p.call s 0 sequence).0 (answers s sequence).0 0 (p.call s 0 sequence).1
        (none, (p.call s 0 sequence).1) (omega arith) (answers s sequence).1

  module _ {Rng : Type 0} (pick : Out → Rng → ℕ × Rng) (eos : List ℕ) (use_kv_cache : Bool) where
    pick-Generates :
        (n : ℕ) (sequence : List ℕ) (rng : Rng) (r : Option (Out × ℕ) × p.State)
        → Answered r
        → ((s' : p.State) (token : ℕ) (rng' : Rng)
            → Generates
                (generate p pick eos use_kv_cache max_recoveries n s'
                  (length sequence)
                  (sequence ++ token ∷ [])
                  rng')
                n)
        → Generates
            (elim r.0 [
              | none ↦ give_up use_kv_cache
              | some (out, recoveries) ↦ onto (pick out rng).0 recoveries (
                  if is_in (pick out rng).0 eos
                  then generated [] 0
                  else generate p pick eos use_kv_cache max_recoveries n r.1
                      (length sequence)
                      (sequence ++ (pick out rng).0 ∷ [])
                      (pick out rng).1)
            ])
            (suc n)
    pick-Generates n sequence rng (none, s') a rest = absurd a
    pick-Generates n sequence rng (some (out, recoveries), s') a rest =
        onto-Generates (pick out rng).0 recoveries n _ a (
          stop-Generates (is_in (pick out rng).0 eos) _ n
            (rest s' (pick out rng).0 (pick out rng).1))

    -- When the stages answer every request at position 0 and a step may replay at least once, a run
    -- of `generate` gives ids, with at most one replay per token.
    pub generate-Generates :
        (n : ℕ) (s : p.State) (cached : ℕ) (sequence : List ℕ) (rng : Rng)
        → Generates (generate p pick eos use_kv_cache max_recoveries n s cached sequence rng) n
    unfolding generate
    generate-Generates zero s cached sequence rng = omega arith
    generate-Generates (suc n) s cached sequence rng =
        pick-Generates n sequence rng (step_logits p use_kv_cache max_recoveries s cached sequence)
          (step_logits-Answered use_kv_cache s cached sequence)
          (λ s' token rng'. generate-Generates n s' (length sequence) (sequence ++ token ∷ []) rng')
