-- ===== src/Hf/Audit.antt =====
-- `_run_fresh` and `_check` of `PipelineGenerator` in src/distllm/hf.py: spot checks of the pipeline
-- against stages that the client trusts. The stages and the comparison of logits are parameters: `similar`
-- is `similarity >= min_similarity`, `differs` is `similarity < min_similarity`; for NaN both are false.
pub mod Locate
mod Examples
use distllm.Prelude.{
  ℕ, zero, suc, String, string_eq, Bool, List, [], ◌∷◌, ◌++◌, ◌==◌, if◌then◌else◌,
}
use distllm.Hf.Through.{Asked, passed, ended, missed, lost, raised}

-- The calls of roles, with the state of all stages: a request at position 0 of a session, and its close,
-- whose exceptions are suppressed.
pub record Calls (X Out : Type 0) : Type 1 where
  pub World : Type 0
  pub call : World → String → String → List X → Asked X Out × World
  pub close : World → String → String → World

-- Logits, or an exception.
pub data Ran (Out : Type 0) : Type 0 where
  logits : Out → Ran Out
  failed : Ran Out

-- No error, a VerificationError with its suspects, or another exception.
pub data Checked : Type 0 where
  agreed : Checked
  mismatch : List String → Checked
  unchecked : Checked

-- `mixed[i] = role`
abbrev pub replace_at : ℕ → String → List String → List String
replace_at i role [] = []
replace_at zero role (r ∷ rs) = role ∷ rs
replace_at (suc i) role (r ∷ rs) = r ∷ replace_at i role rs

abbrev is_role : String → List String → Bool
is_role r [] = Bool.false
is_role r (q ∷ qs) = let rest = is_role r qs in if q == r then Bool.true else rest

-- `set(chain)`, in an order
abbrev pub distinct : List String → List String
distinct [] = []
distinct (r ∷ rs) = let rest = distinct rs in if is_role r rs then rest else r ∷ rest

module _ {X Out : Type 0} (calls : Calls X Out) where
  -- `_through` over a chain of roles, in a new session
  unfoldable pub through_roles :
      String → List String → calls.World → List X → Asked X Out × calls.World
  through_roles session [] w new = (passed new, w)
  through_roles session (r ∷ rs) w new =
      let (o, w') = calls.call w session r new in
      elim o [
        | passed ys ↦ through_roles session rs w' ys
        | ended out ↦ (ended out, w')
        | missed ↦ (missed, w')
        | lost ↦ (lost, w')
        | raised ↦ (raised, w')
      ]

  abbrev pub close_all : String → List String → calls.World → calls.World
  close_all session [] w = w
  close_all session (r ∷ rs) w = close_all session rs (calls.close w session r)

  abbrev pub ran_of : Asked X Out → Ran Out
  ran_of (ended out) = logits out
  ran_of _ = failed

  -- `_run_fresh`; `session` is the new id
  unfoldable pub run_fresh : String → List String → List X → calls.World → Ran Out × calls.World
  unfolding through_roles
  run_fresh session chain sequence w =
      let (o, w') = through_roles session chain w sequence in
      (ran_of o, close_all session (distinct chain) w')

module _ {Out W : Type 0} (similar differs : Out → Out → Bool) (run : List String → W → Ran Out × W)
    (auditors : List String) where
  -- the loop that puts every role into the auditors' chain
  unfoldable pub locate_from : Out → ℕ → List String → List String → W → Checked × W
  locate_from reference i [] suspects w = (mismatch suspects, w)
  locate_from reference i (role ∷ rs) suspects w =
      let (r, w') = run (replace_at i role auditors) w in
      elim r [
        | failed ↦ (unchecked, w')
        | logits out ↦
            locate_from reference (suc i) rs
              (if differs out reference then suspects ++ role ∷ [] else suspects) w'
      ]

  abbrev pub compare : Bool → List String → Out → Ran Out → W → Checked × W
  compare locate roles out failed w = (unchecked, w)
  compare locate roles out (logits reference) w =
      let located = locate_from reference 0 roles [] w in
      if similar out reference then (agreed, w) else if locate then located else (mismatch [], w)

  -- `_check`; a run's session id is its own
  unfoldable pub check : Bool → List String → Out → W → Checked × W
  unfolding locate_from
  check locate roles out w = let (r, w') = run auditors w in compare locate roles out r w'
