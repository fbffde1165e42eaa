-- ===== src/Hf/Through.antt =====
-- `_through` and `_step` of `PipelineGenerator` in src/distllm/hf.py: a request through the stages of a
-- model, each the worker of a role.
pub mod Laws
pub mod Retry
pub mod Prefixes
pub mod Stages
mod Examples
use distllm.Prelude.{ℕ, Bool, true, Option, none, some, List, [], ◌∷◌}

-- What a call of stages gives: hidden states, the output under the caller's key, a cache miss, the
-- TaskLostError of the client, or any other exception.
pub data Asked (X Out : Type 0) : Type 0 where
  passed : List X → Asked X Out
  ended : Out → Asked X Out
  missed lost raised : Asked X Out

-- A stage as the client sees it: a request has a position, `rewind`, and inputs for new tokens.
pub record Part (X Out : Type 0) : Type 1 where
  pub State : Type 0
  pub ask : State → ℕ → Bool → List X → Asked X Out × State

-- What a step gives, or the RuntimeError for a missing key, or another exception.
pub data Stepped (Out : Type 0) : Type 0 where
  output : Out → Stepped Out
  miss no_output failed : Stepped Out

module _ {X Out : Type 0} where
  abbrev pub States : List (Part X Out) → Type 0
  States [] = Unit
  States (p ∷ ps) = p.State × States ps

  -- what follows the call of one stage: the next ones, if it passed hidden states on
  abbrev pub then_ask :
      (p : Part X Out) (ps : List (Part X Out))
      → (List X → Asked X Out × States ps)
      → States ps
      → Asked X Out
      → p.State
      → Asked X Out × States (p ∷ ps)
  then_ask p ps next st (passed ys) s = let (o, st') = next ys in (o, (s, st'))
  then_ask p ps next st (ended out) s = (ended out, (s, st))
  then_ask p ps next st missed s = (missed, (s, st))
  then_ask p ps next st lost s = (lost, (s, st))
  then_ask p ps next st raised s = (raised, (s, st))

  -- the loop over the roles of a chain
  unfoldable pub through :
      (ps : List (Part X Out)) → States ps → ℕ → Bool → List X → Asked X Out × States ps
  through [] st n rewind new = (passed new, st)
  through (p ∷ ps) (s, st) n rewind new =
      let (o, s') = p.ask s n rewind new in then_ask p ps (λ ys. through ps st n rewind ys) st o s'

  -- A route: all stages in one request, which the relay forwards from stage to stage.
  abbrev pub Route : List (Part X Out) → Type 0
  Route ps = States ps → ℕ → Bool → List X → Asked X Out × States ps

  -- `_through` over the pipeline's own roles
  abbrev pub through_pipeline : (ps : List (Part X Out)) → Option (Route ps) → Route ps
  through_pipeline ps none = through ps
  through_pipeline ps (some route) = route

  abbrev pub concluded : Asked X Out → Stepped Out
  concluded (passed ys) = no_output
  concluded (ended out) = output out
  concluded missed = miss
  concluded lost = miss
  concluded raised = failed

  -- the second attempt, if the first is lost
  abbrev pub after_first : {S : Type 0} → Asked X Out → S → Asked X Out × S → Stepped Out × S
  after_first (passed ys) st again = (no_output, st)
  after_first (ended out) st again = (output out, st)
  after_first missed st again = (miss, st)
  after_first lost st (second, st') = (concluded second, st')
  after_first raised st again = (failed, st)

  -- `_step`: one attempt, and one that rewinds if that is lost
  unfoldable pub step :
      (ps : List (Part X Out))
      → Option (Route ps)
      → States ps
      → ℕ
      → Bool
      → List X
      → Stepped Out × States ps
  unfolding through
  step ps route st n rewind new =
      let (first, st') = through_pipeline ps route st n rewind new in
      after_first first st' (through_pipeline ps route st' n true new)
