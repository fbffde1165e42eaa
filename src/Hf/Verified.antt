-- ===== src/Hf/Verified.antt =====
-- `SpeculativeGenerator._verify` with its replays, src/distllm/hf.py: the predictions are the greedy
-- tokens of the whole model.
use mathlib.Core.List.{append_assoc}
use distllm.Prelude.{
  ℕ, ◌≤◌, Option, none, some, List, [], ◌++◌, ◌≡◌, refl, sym, ap, subst, ◌∙◌, inl, inr, length,
  take, drop, take-append, drop-append, take-append-drop,
}
use distllm.Hf.Pipeline.{Pipeline}
use distllm.Hf.Generate.{replay}
use distllm.Hf.Replay.{Ready, Whole, replay-Whole}
use distllm.Hf.Speculative.{of_replay, verify}
use distllm.Hf.Greedy.{choices, drop-choices}

module _ (p : Pipeline (List ℕ)) (next : List ℕ → ℕ)
    (last : (q new : List ℕ) → p.whole q new ≡ choices next q new) where
  -- The caches hold the sequence with the proposal, and the predictions are those after some prefix.
  abbrev pub Verified : ℕ → List ℕ → List ℕ → Option (List ℕ × ℕ) × p.State → Type 0
  Verified cached sequence proposal (none, s') = Unit
  Verified cached sequence proposal (some (target, n), s') =
      p.HoldsPrefix s' (sequence ++ proposal)
      × (q : List ℕ) × (q ++ drop cached sequence ≡ sequence)
      × (target ≡ choices next q (drop cached sequence ++ proposal))

  answer-Verified :
      (s : p.State) (cached : ℕ) (sequence proposal : List ℕ) (s' : p.State) (out : List ℕ)
      → Ready p s cached sequence
      → p.call s cached (drop cached sequence ++ proposal) ≡ (some out, s')
      → Verified cached sequence proposal (some (out, 0), s')
  answer-Verified s cached sequence proposal s' out (inl z) e =
      let at_start : p.call s 0 (sequence ++ proposal) ≡ (some out, s') =
        subst (λ c. p.call s c (drop c sequence ++ proposal) ≡ (some out, s')) z e in
      let (h, same) = p.fresh s s' (sequence ++ proposal) out at_start in
      (
        h,
        [],
        ap (λ c. drop c sequence) z,
        same
            ∙ last [] (sequence ++ proposal)
            ∙ ap (λ c. choices next [] (drop c sequence ++ proposal)) (sym z),
      )
  answer-Verified s cached sequence proposal s' out (inr (held, h, n, same)) e =
      let (h', e') = p.extend s s' held (drop cached sequence ++ proposal) cached out h n e in
      (
        subst (p.HoldsPrefix s')
            (sym (append_assoc (take cached held) (drop cached sequence) proposal)
              ∙ ap (λ q. q ++ proposal) same)
            h',
        take cached held,
        same,
        e' ∙ last (take cached held) (drop cached sequence ++ proposal),
      )

  replay-Verified :
      (cached : ℕ) (sequence proposal : List ℕ) (r : Option (List ℕ × ℕ) × p.State)
      → cached ≤ length sequence
      → Whole p r (sequence ++ proposal)
      → Verified cached sequence proposal (of_replay p cached r)
  replay-Verified cached sequence proposal (none, s') c w = tt
  replay-Verified cached sequence proposal (some (out, n), s') c (h, same) = (
    h,
    take cached sequence,
    take-append-drop cached sequence,
    ap (drop cached) (same ∙ last [] (sequence ++ proposal))
        ∙ drop-choices next cached [] (sequence ++ proposal)
        ∙ rw (take-append cached sequence proposal c, drop-append cached sequence proposal c) refl,
  )

  elim-Verified :
      (cached : ℕ) (sequence proposal : List ℕ) (r : Option (List ℕ) × p.State)
      (rest : Option (List ℕ × ℕ) × p.State)
      → ((out : List ℕ)
          → r ≡ (some out, r.1)
          → Verified cached sequence proposal (some (out, 0), r.1))
      → Verified cached sequence proposal rest
      → Verified cached sequence proposal
          (elim r.0 [ some target ↦ (some (target, 0), r.1) | none ↦ rest ])
  elim-Verified cached sequence proposal (some out, s') rest h k = h out refl
  elim-Verified cached sequence proposal (none, s') rest h k = k

  pub verify-Verified :
      (max_recoveries : ℕ) (s : p.State) (cached : ℕ) (sequence proposal : List ℕ)
      → Ready p s cached sequence
      → cached ≤ length sequence
      → Verified cached sequence proposal (verify p max_recoveries s cached sequence proposal)
  unfolding verify
  verify-Verified max_recoveries s cached sequence proposal ready c =
      let r = p.call s cached (drop cached sequence ++ proposal) in
      elim-Verified cached sequence proposal r
        (of_replay p cached (replay p max_recoveries 0 r.1 (sequence ++ proposal)))
        (λ out. answer-Verified s cached sequence proposal r.1 out ready)
        (replay-Verified cached sequence proposal _ c
          (replay-Whole p max_recoveries 0 r.1 (sequence ++ proposal)))
