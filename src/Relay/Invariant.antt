-- ===== src/Relay/Invariant.antt =====
-- What holds of every task of the relay, src/distllm/relay.py, in every state that it can come to.
use distllm.Prelude.{
  String, Bool, true, Option, none, some, ◌≡◌, ◌≢◌, refl, subst, sym, ◌⊎◌, inl, inr, arith,
  string_eq, is_some,
}
use distllm.Dict
use distllm.Dict.{Holds}
use distllm.Relay.State.{Bytes, Status, is_finished, Task, Timeouts, RelayState, empty_state}
use distllm.Relay.Step.{Event, submits, results, step, IsFresh, Reach, start, next}
use distllm.Relay.Lifecycle.{
  Move, assigned, requeued, completed, failed, passed, IsNew, Evolves, stays, born, moves, dies,
  IsKeyed, Evolve-IsKeyed,
}
use distllm.Relay.Refines.{Births, step-Evolve}

-- A task's fields agree with its status.
pub record IsGood (t : Task) : Type 0 where
  -- a waiting task belongs to nobody
  pub unowned : t.status ≡ Status.pending → t.worker_id ≡ none
  -- an assigned one to a worker, since a time
  pub owned : t.status ≡ Status.assigned → is_some t.worker_id ≡ true
  pub timed : t.status ≡ Status.assigned → is_some t.assigned_at ≡ true
  -- senders are woken when there is an outcome, and only then
  pub settled : t.done ≡ true → is_finished t.status ≡ true
  pub woken : t.status ≡ Status.completed → t.done ≡ true
  pub woken_failed : t.status ≡ Status.failed → t.done ≡ true
  pub passed_on : t.status ≡ Status.forwarded → t.task_id ≢ t.root_id → t.done ≡ true
  -- there is a result exactly in the two last statuses
  pub result_there : t.status ≡ Status.completed → is_some t.result ≡ true
  pub error_there : t.status ≡ Status.failed → is_some t.result ≡ true
  pub no_result : is_some t.result ≡ true → t.done ≡ true

Move-IsGood : {t u : Task} → Move t u → IsGood t → IsGood u
Move-IsGood (assigned w now h) g = ground arith
Move-IsGood (requeued h) g = ground arith
Move-IsGood (completed r now h) g = ground arith
Move-IsGood (failed r now h) g = ground arith
Move-IsGood {t = t} (passed now h) g = ground (arith, string_eq.beq_iff t.task_id t.root_id)

IsNew-IsGood : {id : String} {t : Task} → IsNew id t → IsGood t
IsNew-IsGood n = ground arith

abbrev GoodIf : Option Task → Type 0
GoodIf none = Unit
GoodIf (some t) = IsGood t

GoodIf-Evolves :
    {B : Type 0} {id : String} {o p : Option Task} → Evolves B id o p → GoodIf o → GoodIf p
GoodIf-Evolves stays h = h
GoodIf-Evolves (born b t n e) h = IsNew-IsGood n
GoodIf-Evolves (moves m e) h = Move-IsGood m (GoodIf-Evolves e h)
GoodIf-Evolves (dies e) h = tt

-- Every task stands under its id, and its fields agree with its status.
pub record Inv (s : RelayState) : Type 0 where
  pub keyed : IsKeyed s.tasks
  pub good : Holds (λ id (t : Task). IsGood t) s.tasks

GoodIf-Inv : (s : RelayState) (id : String) → Inv s → GoodIf (Dict.get id s.tasks)
GoodIf-Inv s id v = go (Dict.get id s.tasks) (λ t e. v.good id t e)
  where
    go : (o : Option Task) → ((t : Task) → o ≡ some t → IsGood t) → GoodIf o
    go none f = tt
    go (some t) f = f t refl

step-Inv :
    (unpack : Bytes → Option Bool) (e : Event) (s : RelayState)
    → IsFresh e s
    → Inv s
    → Inv (step unpack e s)
step-Inv unpack e s f v =
    let ev = step-Evolve unpack e s f v.keyed in
    record {
      keyed = Evolve-IsKeyed s.tasks _ ev v.keyed;
      good = λ id t h. subst GoodIf h (GoodIf-Evolves (ev id) (GoodIf-Inv s id v));
    }

start-Inv : (t : Timeouts) → Inv (empty_state t)
unfolding empty_state Dict.get
start-Inv t = record { keyed = λ id x h. cc; good = λ id x h. cc }

-- In every state that a relay can come to from its start, by any requests, waits and sweeps in any
-- order, each task stands under its own id and its fields agree with its status: a pending task
-- belongs to no worker; an assigned one has a worker and a time; a done one is FORWARDED, COMPLETED
-- or FAILED; a COMPLETED or FAILED one, and a FORWARDED one that is not a root, is done; and there
-- is a result in COMPLETED and FAILED, and only in a done task.
pub Reach-Inv :
    (unpack : Bytes → Option Bool) (t : Timeouts) (s : RelayState) → Reach unpack t s → Inv s
Reach-Inv unpack t _ start = start-Inv t
Reach-Inv unpack t _ (next {s = s} e f r) = step-Inv unpack e s f (Reach-Inv unpack t s r)

Move-done : {t u : Task} → Move t u → IsGood t → t.done ≡ true → ⊥
Move-done (assigned w now h) g d = ground arith
Move-done (requeued h) g d = ground arith
Move-done (completed r now h) g d = cc
Move-done (failed r now h) g d = cc
Move-done (passed now h) g d = ground arith

-- The outcomes of a task that does not change.
abbrev KeptOrGone : Task → Option Task → Type 0
KeptOrGone t p = (p ≡ some t) ⊎ (p ≡ none)

Evolves-done :
    {B : Type 0} {id : String} {o p : Option Task} (t : Task)
    → ¬ B
    → IsGood t
    → t.done ≡ true
    → o ≡ some t
    → Evolves B id o p
    → KeptOrGone t p
Evolves-done t nb g d e stays = inl e
Evolves-done t nb g d e (born b u n ev) = absurd (nb b)
Evolves-done t nb g d e (dies ev) = inr refl
Evolves-done t nb g d e (moves {t = x} m ev) = elim (Evolves-done t nb g d e ev) [
  | inl same ↦ absurd (stuck same)
  | inr gone ↦ cc
]
  where
    stuck : some x ≡ some t → ⊥
    stuck same = Move-done m (ground arith) (ground arith)

not-Births :
    (e : Event) (s : RelayState) (id : String) (t : Task)
    → IsFresh e s
    → Dict.get id s.tasks ≡ some t
    → ¬ Births e id
not-Births (submits fresh a b c d f g) s id t free there e =
    let there' = subst (λ i. Dict.get i s.tasks ≡ some t) (sym e) there in cc
not-Births (results fresh a b c d f) s id t free there e =
    let there' = subst (λ i. Dict.get i s.tasks ≡ some t) (sym e) there in cc
not-Births _ s id t free there e = e

-- In a state whose tasks stand under their ids with fields that agree, any event that gives no new
-- task an id in use leaves a done task with every field as it is, or drops it: its first result is
-- its only one.
pub step-done :
    (unpack : Bytes → Option Bool) (e : Event) (s : RelayState) (id : String) (t : Task)
    → IsFresh e s
    → Inv s
    → Dict.get id s.tasks ≡ some t
    → t.done ≡ true
    → (Dict.get id (step unpack e s).tasks ≡ some t) ⊎ (Dict.get id (step unpack e s).tasks ≡ none)
step-done unpack e s id t f v there done =
    Evolves-done t (not-Births e s id t f there) (v.good id t there) done there
      (step-Evolve unpack e s f v.keyed id)
