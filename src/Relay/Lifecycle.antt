-- ===== src/Relay/Lifecycle.antt =====
-- The life of a task of src/distllm/relay.py, as an abstract state machine that the handlers refine:
-- a task is born pending, is assigned, re-queued, finished or passed on, and is dropped in the end.
use distllm.Prelude.{
  ℕ, String, true, false, Option, none, some, ◌≡◌, refl, ◌∙◌, subst, inl, inr, string_eq,
  Bool-cases, eq_of_beq, ◌==◌,
}
use distllm.Dict
use distllm.Dict.{Dict, Holds, get-put, get-delete}
use distllm.Relay.State.{Bytes, Status, is_finished, Task}
use distllm.Relay.Tasks.{assign, reset}
use distllm.Relay.Api.{pass_on}

-- One change of a task.
pub data Move (t : Task) : Task → Type 0 where
  assigned : (worker : String) (now : ℕ) → t.status ≡ Status.pending → Move t (assign worker now t)
  requeued : t.status ≡ Status.assigned → Move t (reset t)
  completed :
      (result : Bytes) (now : ℕ)
      → t.done ≡ false
      → Move t (record t {
        status = Status.completed;
        result = some result;
        completed_at = some now;
        done = true;
      })
  failed :
      (result : Bytes) (now : ℕ)
      → t.done ≡ false
      → Move t (record t {
        status = Status.failed;
        result = some result;
        completed_at = some now;
        done = true;
      })
  passed : (now : ℕ) → is_finished t.status ≡ false → Move t (pass_on now t)

pub record IsNew (id : String) (t : Task) : Type 0 where
  pub named : t.task_id ≡ id
  pub pending : t.status ≡ Status.pending
  pub unowned : t.worker_id ≡ none
  pub not_done : t.done ≡ false
  pub no_result : t.result ≡ none

-- What may become of the entry at `id`, in any number of changes; `B` is what a birth takes.
pub data Evolves (B : Type 0) (id : String) (o : Option Task) : Option Task → Type 0 where
  stays : Evolves B id o o
  born : B → (t : Task) → IsNew id t → Evolves B id o none → Evolves B id o (some t)
  moves : {t u : Task} → Move t u → Evolves B id o (some t) → Evolves B id o (some u)
  dies : {t : Task} → Evolves B id o (some t) → Evolves B id o none

pub Evolves-weaken :
    {B : Type 0} {id : String} {o p : Option Task} → Evolves ⊥ id o p → Evolves B id o p
Evolves-weaken stays = stays
Evolves-weaken (born b t n e) = absurd b
Evolves-weaken (moves m e) = moves m (Evolves-weaken e)
Evolves-weaken (dies e) = dies (Evolves-weaken e)

pub Evolves-trans :
    {B : Type 0} {id : String} {o p q : Option Task}
    → Evolves B id o p
    → Evolves B id p q
    → Evolves B id o q
Evolves-trans a stays = a
Evolves-trans a (born c t n b) = born c t n (Evolves-trans a b)
Evolves-trans a (moves m b) = moves m (Evolves-trans a b)
Evolves-trans a (dies b) = dies (Evolves-trans a b)

pub task_id-Move : {t u : Task} → Move t u → u.task_id ≡ t.task_id
task_id-Move (assigned w now h) = refl
task_id-Move (requeued h) = refl
task_id-Move (completed r now h) = refl
task_id-Move (failed r now h) = refl
task_id-Move (passed now h) = refl

abbrev pub Table : Type 0
Table = Dict String Task

-- Every task stands under its own id.
abbrev pub IsKeyed : Table → Type 0
IsKeyed m = Holds (λ id (t : Task). t.task_id ≡ id) m

abbrev NamedIf : String → Option Task → Type 0
NamedIf id none = Unit
NamedIf id (some t) = t.task_id ≡ id

NamedIf-Evolves :
    {B : Type 0} {id : String} {o p : Option Task} → Evolves B id o p → NamedIf id o → NamedIf id p
NamedIf-Evolves stays h = h
NamedIf-Evolves (born c t n b) h = n.named
NamedIf-Evolves (moves m b) h = task_id-Move m ∙ NamedIf-Evolves b h
NamedIf-Evolves (dies b) h = tt

-- Every entry of the task table evolves.
abbrev pub EvolveWith : (String → Type 0) → Table → Table → Type 0
EvolveWith B m n = (id : String) → Evolves (B id) id (Dict.get id m) (Dict.get id n)

-- Nothing is born.
abbrev pub Evolve : Table → Table → Type 0
Evolve = EvolveWith (λ _. ⊥)

NamedIf-IsKeyed : (m : Table) (id : String) → IsKeyed m → NamedIf id (Dict.get id m)
NamedIf-IsKeyed m id k = go (Dict.get id m) (λ t e. k id t e)
  where
    go : (o : Option Task) → ((t : Task) → o ≡ some t → t.task_id ≡ id) → NamedIf id o
    go none f = tt
    go (some t) f = f t refl

pub Evolve-IsKeyed : {B : String → Type 0} (m n : Table) → EvolveWith B m n → IsKeyed m → IsKeyed n
Evolve-IsKeyed m n ev k id t e =
    subst (NamedIf id) e (NamedIf-Evolves (ev id) (NamedIf-IsKeyed m id k))

pub Evolve-refl : (m : Table) → Evolve m m
Evolve-refl m id = stays

pub Evolve-weaken : (B : String → Type 0) (m n : Table) → Evolve m n → EvolveWith B m n
Evolve-weaken B m n e id = Evolves-weaken (e id)

pub Evolve-trans :
    {B : String → Type 0} (m n o : Table) → EvolveWith B m n → EvolveWith B n o → EvolveWith B m o
Evolve-trans m n o a b id = Evolves-trans (a id) (b id)

-- A write over the entry at its id, a write of a new task, and a removal.
pub Evolve-put :
    (m : Table) (t u : Task)
    → Dict.get u.task_id m ≡ some t
    → Move t u
    → Evolve m (Dict.put u.task_id u m)
Evolve-put m t u e v id = rw get-put (elim (Bool-cases (u.task_id == id)) [
  | inl same ↦ rw same (
      moves v (
        subst (Evolves ⊥ id (Dict.get id m))
          (subst (λ i. Dict.get i m ≡ some t) (eq_of_beq _ _ same) e) stays))
  | inr other ↦ rw other stays
])

pub Evolve-put_same :
    (m : Table) (t : Task) → Dict.get t.task_id m ≡ some t → Evolve m (Dict.put t.task_id t m)
Evolve-put_same m t e id = rw get-put (elim (Bool-cases (t.task_id == id)) [
  | inl same ↦ rw same (
      subst (Evolves ⊥ id (Dict.get id m))
        (subst (λ i. Dict.get i m ≡ some t) (eq_of_beq _ _ same) e) stays)
  | inr other ↦ rw other stays
])

pub Evolve-put_new :
    (B : String → Type 0) (m : Table) (t : Task)
    → B t.task_id
    → Dict.get t.task_id m ≡ none
    → IsNew t.task_id t
    → EvolveWith B m (Dict.put t.task_id t m)
Evolve-put_new B m t b e n id = rw get-put (elim (Bool-cases (t.task_id == id)) [
  | inl same ↦ rw same (
      born (subst B (eq_of_beq _ _ same) b) t (subst (λ i. IsNew i t) (eq_of_beq _ _ same) n) (
        subst (Evolves (B id) id (Dict.get id m))
          (subst (λ i. Dict.get i m ≡ none) (eq_of_beq _ _ same) e) stays))
  | inr other ↦ rw other stays
])

pub Evolve-delete : (m : Table) (id : String) → Evolve m (Dict.delete id m)
Evolve-delete m id j = rw get-delete (elim (Bool-cases (id == j)) [
  | inl same ↦ rw same (gone (Dict.get j m))
  | inr other ↦ rw other stays
])
  where
    gone : (o : Option Task) → Evolves ⊥ j o none
    gone none = stays
    gone (some t) = dies stays
