-- ===== src/Hf/Speculation.antt =====
-- The output of `SpeculativeGenerator.generate`, src/distllm/hf.py, is the model's own greedy output,
-- whatever the draft model proposes.
use mathlib.Core.List.{append_assoc}
use distllm.Prelude.{
  ℕ, zero, suc, ◌+◌, ◌-◌, ◌≤◌, min, Bool, true, false, Option, none, some, List, [], ◌∷◌, ◌++◌, ◌≡◌,
  refl, sym, ap, subst, ◌∙◌, inl, inr, ◌⊎◌, arith, if◌then◌else◌, length, length-append, take, drop,
  take-length_add, drop-length_add, drop-take, length-take, drop-nonempty,
}
use distllm.Hf.Pipeline.{Pipeline}
use distllm.Hf.Generate.{reference}
use distllm.Hf.Replay.{Ready}
use distllm.Hf.Draft.{DraftModel, Draft, accept, propose}
use distllm.Hf.Speculative.{
  no_counts, Spoken, spoken, recovery_error, index_error, unfinished, before, agree, emit, verify,
  speculate,
}
use distllm.Hf.Greedy.{
  greedy, choices, after, pending-choices, round, agree-after, round-tokens, emit-reference,
  reference-zero, emit-all, emit-progress,
}
use distllm.Hf.Verified.{Verified, verify-Verified}

-- The ids are the expected ones, or the stages lost their caches too often; nothing else happens.
abbrev pub Speaks : Spoken → List ℕ → Type 0
Speaks (spoken ids c) expected = ids ≡ expected
Speaks recovery_error expected = Unit
Speaks index_error expected = ⊥
Speaks unfinished expected = ⊥

before-Speaks :
    (emitted : List ℕ) (recoveries k accepted : ℕ) (o : Spoken) (expected : List ℕ)
    → Speaks o expected
    → Speaks (before emitted recoveries k accepted o) (emitted ++ expected)
before-Speaks emitted r k a (spoken ids c) expected h = ap (λ ids. emitted ++ ids) h
before-Speaks emitted r k a recovery_error expected h = tt
before-Speaks emitted r k a index_error expected h = absurd h
before-Speaks emitted r k a unfinished expected h = absurd h

stop-Speaks :
    (b : Bool) (o : Spoken) (expected : List ℕ)
    → (b ≡ false → Speaks o expected)
    → Speaks (if b then spoken [] no_counts else o) (if b then [] else expected)
stop-Speaks true o expected h = refl
stop-Speaks false o expected h = h refl

room-cases : (a b : ℕ) → (a - b ≡ 0) ⊎ (suc b ≤ a)
room-cases zero b = inl (omega arith)
room-cases (suc a) zero = inr (omega arith)
room-cases (suc a) (suc b) = elim (room-cases a b) [
  | inl none_left ↦ inl (omega (arith, none_left))
  | inr some_left ↦ inr (omega (arith, some_left))
]

module _ (p : Pipeline (List ℕ)) (m : DraftModel) (next : List ℕ → ℕ)
    (last : (q new : List ℕ) → p.whole q new ≡ choices next q new) where
  -- No token is left to emit, or the caches are in step with a sequence that has a pending token.
  abbrev pub Live : ℕ → p.State → ℕ → List ℕ → Type 0
  Live room s cached sequence =
      (room ≡ 0) ⊎ (Ready p s cached sequence × (suc cached ≤ length sequence))

  -- after a round that emitted all its tokens
  kept-Ready :
      (s : p.State) (sequence proposal : List ℕ) (a bonus : ℕ)
      → a ≤ length proposal
      → p.HoldsPrefix s (sequence ++ proposal)
      → Ready p s (length sequence + a) (sequence ++ (take a proposal ++ bonus ∷ []))
        × (suc (length sequence + a) ≤ length (sequence ++ (take a proposal ++ bonus ∷ [])))
  kept-Ready s sequence proposal a bonus few h = (
    inr (
      sequence ++ proposal,
      h,
      omega (arith, length-append sequence proposal),
      rw
          (
            take-length_add sequence proposal a,
            drop-length_add sequence (take a proposal ++ bonus ∷ []) a,
            drop-take a proposal (bonus ∷ []) few,
          )
          (append_assoc sequence (take a proposal) (bonus ∷ [])),
    ),
    omega (
      arith,
      length-append sequence (take a proposal ++ bonus ∷ []),
      length-append (take a proposal) (bonus ∷ []),
      length-take a proposal few,
    ),
  )

  next-Live :
      (eos : List ℕ) (room : ℕ) (s : p.State) (sequence proposal : List ℕ)
      → p.HoldsPrefix s (sequence ++ proposal)
      → (emit eos (suc room) (round next sequence proposal).0).1 ≡ false
      → Live
          (suc room - length (emit eos (suc room) (round next sequence proposal).0).0)
          s
          (length sequence + (round next sequence proposal).1)
          (sequence ++ (emit eos (suc room) (round next sequence proposal).0).0)
  next-Live eos room s sequence proposal h go_on =
      let (few, bonus, same) = round-tokens next sequence proposal in
      elim (room-cases (suc room)
        (length (emit eos (suc room) (round next sequence proposal).0).0)) [
          | inl none_left ↦ inl none_left
          | inr some_left ↦ inr (
              rw (emit-all eos (suc room) (round next sequence proposal).0 go_on some_left, same)
                (kept-Ready s sequence proposal (round next sequence proposal).1 bonus few h))
        ]

  module _ (eos : List ℕ) (max_k max_recoveries fuel : ℕ)
      (rounds : (room : ℕ) (s : p.State) (cached : ℕ) (sequence : List ℕ) (draft : Draft m)
        → room ≤ fuel
        → Live room s cached sequence
        → Speaks
            (speculate p m fuel eos max_k max_recoveries room s cached sequence draft)
            (reference greedy eos next room sequence tt)) where
    -- what a round does with its tokens
    abbrev keep : ℕ → p.State → List ℕ → Draft m → ℕ → ℕ → Option (List ℕ × ℕ) → Spoken
    keep room s sequence draft k recoveries none = index_error
    keep room s sequence draft k recoveries (some (tokens, accepted)) =
        let (emitted, stop) = emit eos (suc room) tokens in
        let valid = length sequence + accepted in
        let rest =
          speculate p m fuel eos max_k max_recoveries (suc room - length emitted) s valid
            (sequence ++ emitted) (accept m valid draft) in
        before emitted recoveries k accepted (if stop then spoken [] no_counts else rest)

    round-nonempty : (q proposal : List ℕ) → 1 ≤ length (round next q proposal).0
    round-nonempty q proposal =
        let (few, bonus, same) = round-tokens next q proposal in
        omega (
          arith,
          ap length same,
          length-append (take (round next q proposal).1 proposal) (bonus ∷ []),
        )

    keep-Speaks :
        (room : ℕ) (s : p.State) (sequence proposal : List ℕ) (draft : Draft m) (k recoveries : ℕ)
        → suc room ≤ suc fuel
        → p.HoldsPrefix s (sequence ++ proposal)
        → Speaks
            (keep room s sequence draft k recoveries (some (round next sequence proposal)))
            (reference greedy eos next (suc room) sequence tt)
    keep-Speaks room s sequence proposal draft k recoveries f h =
        let more =
          emit-progress eos room (round next sequence proposal).0
            (round-nonempty sequence proposal) in
        subst
          (Speaks (keep room s sequence draft k recoveries (some (round next sequence proposal))))
          (sym (emit-reference next eos (suc room) sequence proposal))
          (before-Speaks _ recoveries k _ _ _ (
            stop-Speaks (emit eos (suc room) (round next sequence proposal).0).1 _ _ (λ go_on.
              rounds _ s _ _ _ (omega (arith, more, f))
                (next-Live eos room s sequence proposal h go_on))))

    agree-target :
        (cached : ℕ) (sequence proposal target q : List ℕ)
        → suc cached ≤ length sequence
        → q ++ drop cached sequence ≡ sequence
        → target ≡ choices next q (drop cached sequence ++ proposal)
        → agree proposal (drop (length (drop cached sequence) - 1) target)
          ≡ some (round next sequence proposal)
    agree-target cached sequence proposal target q c split same =
        ap (λ t. agree proposal (drop (length (drop cached sequence) - 1) t)) same
        ∙ ap (agree proposal) (
            pending-choices next q (drop cached sequence) proposal
              (drop-nonempty cached sequence c))
        ∙ ap (λ q. agree proposal (after next q proposal)) split
        ∙ agree-after next sequence proposal

    Verified-Speaks :
        (room cached : ℕ) (sequence proposal : List ℕ) (draft : Draft m) (k : ℕ)
        (r : Option (List ℕ × ℕ) × p.State)
        → suc room ≤ suc fuel
        → suc cached ≤ length sequence
        → Verified p next last cached sequence proposal r
        → Speaks
            (elim r.0 [
              | none ↦ recovery_error
              | some (target, recoveries) ↦
                  keep room r.1 sequence draft k recoveries
                    (agree proposal (drop (length (drop cached sequence) - 1) target))
            ])
            (reference greedy eos next (suc room) sequence tt)
    Verified-Speaks room cached sequence proposal draft k (none, s) f c v = tt
    Verified-Speaks room cached sequence proposal draft k (some (target, n), s) f c
          (h, q, split, same) =
        subst
          (λ o.
            Speaks (keep room s sequence draft k n o)
              (reference greedy eos next (suc room) sequence tt))
          (sym (agree-target cached sequence proposal target q c split same))
          (keep-Speaks room s sequence proposal draft k n f h)

  -- With a pending token and the caches in step with the sequence: for any draft model, any losses of
  -- caches and enough rounds for the room, a run that does not give up on lost caches ends with the
  -- ids that the model itself picks greedily one by one, cut at the first end token and at the room;
  -- and no run ends in any other way.
  pub speculate-Speaks :
      (fuel : ℕ) (eos : List ℕ) (max_k max_recoveries room : ℕ) (s : p.State) (cached : ℕ)
      (sequence : List ℕ) (draft : Draft m)
      → room ≤ fuel
      → Live room s cached sequence
      → Speaks
          (speculate p m fuel eos max_k max_recoveries room s cached sequence draft)
          (reference greedy eos next room sequence tt)
  unfolding speculate
  speculate-Speaks fuel eos max_k max_recoveries zero s cached sequence draft f live =
      sym (reference-zero next eos sequence)
  speculate-Speaks zero eos max_k max_recoveries (suc room) s cached sequence draft f live =
      absurd (omega arith)
  speculate-Speaks (suc fuel) eos max_k max_recoveries (suc room) s cached sequence draft f
        (inl z) =
      absurd (omega arith)
  speculate-Speaks (suc fuel) eos max_k max_recoveries (suc room) s cached sequence draft f
        (inr (ready, c)) =
      let (proposal, draft') = propose m sequence (min max_k (suc room)) draft in
      Verified-Speaks eos max_k max_recoveries fuel
        (λ room s cached sequence draft.
          speculate-Speaks fuel eos max_k max_recoveries room s cached sequence draft)
        room cached sequence proposal draft' (min max_k (suc room))
        (verify p max_recoveries s cached sequence proposal) f c
        (verify-Verified p next last max_recoveries s cached sequence proposal ready (omega arith))
