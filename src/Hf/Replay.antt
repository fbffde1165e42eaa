-- ===== src/Hf/Replay.antt =====
-- The replays that both generators of src/distllm/hf.py fall back to: a replay that is answered leaves
-- the whole sequence in the caches.
use distllm.Prelude.{
  ℕ, zero, suc, ◌≤◌, Option, none, some, List, [], ◌++◌, ◌≡◌, refl, ◌⊎◌, length, take, drop,
}
use distllm.Hf.Pipeline.{Pipeline}
use distllm.Hf.Generate.{replay}

module _ {Out : Type 0} (p : Pipeline Out) where
  -- The caches hold a prefix of the sequence that ends at `cached`, or nothing is cached.
  abbrev pub Ready : p.State → ℕ → List ℕ → Type 0
  Ready s cached sequence =
      (cached ≡ 0)
      ⊎ ((held : List ℕ) × p.HoldsPrefix s held
          × (cached ≤ length held)
          × (take cached held ++ drop cached sequence ≡ sequence))

  -- an answer for the whole sequence, which the caches then hold
  abbrev pub Whole : Option (Out × ℕ) × p.State → List ℕ → Type 0
  Whole (none, s') sequence = Unit
  Whole (some (out, r), s') sequence = p.HoldsPrefix s' sequence × (out ≡ p.whole [] sequence)

  answer-Whole :
      (r : Option Out × p.State) (sequence : List ℕ) (done : ℕ) (rest : Option (Out × ℕ) × p.State)
      → ((out : Out)
          → r ≡ (some out, r.1)
          → p.HoldsPrefix r.1 sequence × (out ≡ p.whole [] sequence))
      → Whole rest sequence
      → Whole (elim r.0 [ some out ↦ (some (out, done), r.1) | none ↦ rest ]) sequence
  answer-Whole (some out, s') sequence done rest h k = h out refl
  answer-Whole (none, s') sequence done rest h k = k

  pub replay-Whole :
      (budget done : ℕ) (s : p.State) (sequence : List ℕ)
      → Whole (replay p budget done s sequence) sequence
  unfolding replay
  replay-Whole zero done s sequence = tt
  replay-Whole (suc budget) done s sequence =
      answer-Whole (p.call s 0 sequence) sequence (suc done)
        (replay p budget (suc done) (p.call s 0 sequence).1 sequence)
        (p.fresh s (p.call s 0 sequence).1 sequence)
        (replay-Whole budget (suc done) (p.call s 0 sequence).1 sequence)
