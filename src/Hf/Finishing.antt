-- ===== src/Hf/Finishing.antt =====
-- `SpeculativeGenerator.generate`, src/distllm/hf.py, does not give up when the stages answer every
-- request at position 0.
use distllm.Prelude.{
  ℕ, zero, suc, ◌+◌, ◌-◌, ◌≤◌, min, Bool, true, false, Option, none, some, List, [], ◌++◌, ◌≡◌, sym,
  subst, arith, if◌then◌else◌, length, drop,
}
use distllm.Hf.Pipeline.{Pipeline}
use distllm.Hf.Generate.{replay}
use distllm.Hf.Draft.{DraftModel, Draft, accept, propose}
use distllm.Hf.Speculative.{
  no_counts, Spoken, spoken, recovery_error, index_error, unfinished, before, agree, emit,
  of_replay, verify, speculate,
}

abbrev pub KeepsOn : Spoken → Type 0
KeepsOn (spoken ids c) = Unit
KeepsOn recovery_error = ⊥
KeepsOn index_error = Unit
KeepsOn unfinished = Unit

before-KeepsOn :
    (emitted : List ℕ) (recoveries k accepted : ℕ) (o : Spoken)
    → KeepsOn o
    → KeepsOn (before emitted recoveries k accepted o)
before-KeepsOn emitted r k a (spoken ids c) h = tt
before-KeepsOn emitted r k a recovery_error h = absurd h
before-KeepsOn emitted r k a index_error h = tt
before-KeepsOn emitted r k a unfinished h = tt

stop-KeepsOn : (b : Bool) (o : Spoken) → KeepsOn o → KeepsOn (if b then spoken [] no_counts else o)
stop-KeepsOn true o h = tt
stop-KeepsOn false o h = h

module _ (p : Pipeline (List ℕ)) (m : DraftModel)
    (answers : (s : p.State) (sequence : List ℕ)
      → (out : List ℕ) × ((p.call s 0 sequence).0 ≡ some out))
    (max_recoveries : ℕ) (one : 1 ≤ max_recoveries) where
  abbrev Given : Option (List ℕ × ℕ) × p.State → Type 0
  Given (none, s) = ⊥
  Given (some target, s) = Unit

  replay-Given :
      (budget cached : ℕ) (s : p.State) (sequence : List ℕ)
      → 1 ≤ budget
      → Given (of_replay p cached (replay p budget 0 s sequence))
  unfolding replay
  replay-Given zero cached s sequence b = absurd (omega arith)
  replay-Given (suc budget) cached s sequence b =
      let (out, e) = answers s sequence in
      let s' = (p.call s 0 sequence).1 in
      subst
        (λ o. Given (
          of_replay p cached
            (elim o [ some out ↦ (some (out, 1), s') | none ↦ replay p budget 1 s' sequence ])))
        (sym e) tt

  elim-Given :
      (r : Option (List ℕ) × p.State) (rest : Option (List ℕ × ℕ) × p.State)
      → Given rest
      → Given (elim r.0 [ some target ↦ (some (target, 0), r.1) | none ↦ rest ])
  elim-Given (some target, s) rest g = tt
  elim-Given (none, s) rest g = g

  verify-Given :
      (s : p.State) (cached : ℕ) (sequence proposal : List ℕ)
      → Given (verify p max_recoveries s cached sequence proposal)
  unfolding verify
  verify-Given s cached sequence proposal =
      elim-Given (p.call s cached (drop cached sequence ++ proposal)) _
        (replay-Given max_recoveries cached _ (sequence ++ proposal) one)

  module _ (eos : List ℕ) (max_k : ℕ) where
    abbrev keep : ℕ → ℕ → p.State → List ℕ → Draft m → ℕ → ℕ → Option (List ℕ × ℕ) → Spoken
    keep fuel room s sequence draft k recoveries none = index_error
    keep fuel room s sequence draft k recoveries (some (tokens, accepted)) =
        let (emitted, stop) = emit eos (suc room) tokens in
        let valid = length sequence + accepted in
        let rest =
          speculate p m fuel eos max_k max_recoveries (suc room - length emitted) s valid
            (sequence ++ emitted) (accept m valid draft) in
        before emitted recoveries k accepted (if stop then spoken [] no_counts else rest)

    keep-KeepsOn :
        (fuel room : ℕ) (s : p.State) (sequence : List ℕ) (draft : Draft m) (k recoveries : ℕ)
        (o : Option (List ℕ × ℕ))
        → ((room : ℕ) (s : p.State) (cached : ℕ) (sequence : List ℕ) (draft : Draft m)
            → KeepsOn (speculate p m fuel eos max_k max_recoveries room s cached sequence draft))
        → KeepsOn (keep fuel room s sequence draft k recoveries o)
    keep-KeepsOn fuel room s sequence draft k recoveries none rounds = tt
    keep-KeepsOn fuel room s sequence draft k recoveries (some (tokens, accepted)) rounds =
        before-KeepsOn _ recoveries k accepted _
          (stop-KeepsOn (emit eos (suc room) tokens).1 _ (rounds _ _ _ _ _))

    Given-KeepsOn :
        (fuel room cached : ℕ) (sequence proposal : List ℕ) (draft : Draft m) (k : ℕ)
        (r : Option (List ℕ × ℕ) × p.State)
        → ((room : ℕ) (s : p.State) (cached : ℕ) (sequence : List ℕ) (draft : Draft m)
            → KeepsOn (speculate p m fuel eos max_k max_recoveries room s cached sequence draft))
        → Given r
        → KeepsOn (elim r.0 [
          | none ↦ recovery_error
          | some (target, recoveries) ↦
              keep fuel room r.1 sequence draft k recoveries
                (agree proposal (drop (length (drop cached sequence) - 1) target))
        ])
    Given-KeepsOn fuel room cached sequence proposal draft k (none, s) rounds g = absurd g
    Given-KeepsOn fuel room cached sequence proposal draft k (some (target, n), s) rounds g =
        keep-KeepsOn fuel room s sequence draft k n _ rounds

    -- When the stages answer every request at position 0 and a round may replay at least once, no run
    -- of the speculative generator gives up on lost caches.
    pub speculate-KeepsOn :
        (fuel room : ℕ) (s : p.State) (cached : ℕ) (sequence : List ℕ) (draft : Draft m)
        → KeepsOn (speculate p m fuel eos max_k max_recoveries room s cached sequence draft)
    unfolding speculate
    speculate-KeepsOn fuel zero s cached sequence draft = tt
    speculate-KeepsOn zero (suc room) s cached sequence draft = tt
    speculate-KeepsOn (suc fuel) (suc room) s cached sequence draft =
        let k = min max_k (suc room) in
        Given-KeepsOn fuel room cached sequence (propose m sequence k draft).0
          (propose m sequence k draft).1 k _ (speculate-KeepsOn fuel)
          (verify-Given s cached sequence (propose m sequence k draft).0)
