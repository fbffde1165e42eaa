-- ===== src/Hf/Pipeline.antt =====
-- What the generators of src/distllm/hf.py rely on: the stages seen as one session with a cache.
-- A call gives the new tokens at a position and returns the last stage's output, or none on a cache
-- miss. `whole` is the unsplit model's output for new tokens after a prefix.
use distllm.Prelude.{ℕ, ◌≤◌, Option, some, List, [], ◌++◌, ◌≡◌, length, take}

pub record Pipeline (Out : Type 0) : Type 1 where
  pub State : Type 0
  pub call : State → ℕ → List ℕ → Option Out × State
  pub whole : List ℕ → List ℕ → Out
  -- every stage whose cache answers at a position up to there has these tokens before it
  pub HoldsPrefix : State → List ℕ → Type 0
  pub fresh :
      (s s' : State) (new : List ℕ) (out : Out)
      → call s 0 new ≡ (some out, s')
      → HoldsPrefix s' new × (out ≡ whole [] new)
  pub extend :
      (s s' : State) (held new : List ℕ) (n : ℕ) (out : Out)
      → HoldsPrefix s held
      → n ≤ length held
      → call s n new ≡ (some out, s')
      → HoldsPrefix s' (take n held ++ new) × (out ≡ whole (take n held) new)
