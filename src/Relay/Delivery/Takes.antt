-- ===== src/Relay/Delivery/Takes.antt =====
-- What `_take` and the loop of `/poll` in src/distllm/relay.py do to pending tasks.
use distllm.Prelude.{
  ℕ, zero, suc, String, true, false, Option, none, some, List, [], ◌∷◌, ◌≡◌, refl, sym, subst, ap,
  ◌∙◌, inl, inr, arith, string_eq, ◌==◌, Bool-cases, Option-cases, Occurs, some_inj, ◌≢◌,
}
use distllm.Dict
use distllm.Dict.{Dict, get-put}
use distllm.Relay.State.{Status, is_pending, Task, RelayState}
use distllm.Relay.Tasks.{take_task, assign, bind}
use distllm.Relay.Poll.{Taken, take_from, spend, prepend}
use distllm.Relay.Lifecycle.{IsKeyed, Table, Evolve-IsKeyed}
use distllm.Relay.Refines.Polls.{take_task-Evolve}
use distllm.Relay.Refines.Sweeps.{tasks-bind}
use distllm.Relay.Delivery.Waits.{SameQueues}

-- What taking tasks may do to the table: a task that is pending was so before, at the same role.
abbrev pub Fewer : Table → Table → Type 0
Fewer m n =
    (id : String) (t : Task)
    → Dict.get id n ≡ some t
    → t.status ≡ Status.pending
    → (Dict.get id m ≡ some t)

-- `id` is not pending.
abbrev pub Closed : String → Table → Type 0
Closed id m = (t : Task) → Dict.get id m ≡ some t → t.status ≡ Status.pending → ⊥

put_effect :
    (m : Table) (id : String) (u : Task)
    → u.status ≢ Status.pending
    → Fewer m (Dict.put id u m) × Closed id (Dict.put id u m)
put_effect m id u closed = (still, shut)
  where
    written :
        (j : String) (t : Task) → (id == j) ≡ true → Dict.get j (Dict.put id u m) ≡ some t → u ≡ t
    written j t same e = some_inj (rw (get-put, same) at e)

    still : Fewer m (Dict.put id u m)
    still j t e p = elim (Bool-cases (id == j)) [
      | inl same ↦ absurd (closed (ap (λ (x : Task). x.status) (written j t same e) ∙ p))
      | inr other ↦ rw (get-put, other) at e
    ]

    shut : Closed id (Dict.put id u m)
    shut t e p =
        closed (ap (λ (x : Task). x.status) (written id t ((string_eq.beq_iff id id).1 refl) e) ∙ p)

not_pending : (x : Status) → is_pending x ≡ false → x ≢ Status.pending
not_pending x h p = cc

pub take_task_effect :
    (s : RelayState) (id worker : String) (now : ℕ)
    → IsKeyed s.tasks
    → Fewer s.tasks (take_task s id worker now).1.tasks
      × Closed id (take_task s id worker now).1.tasks
unfolding take_task
take_task_effect s id worker now k = elim (Option-cases (Dict.get id s.tasks)) [
  | inl gone ↦ rw (gone, take_task) ((λ j t e p. e), (λ t e p. absurd (lost t e gone)))
  | inr (t, there) ↦
      rw (there, take_task)
        (elim (Bool-cases (is_pending t.status)) [
          | inl open_task ↦
              rw (open_task, tasks-bind)
                (let (fewer, closed) =
                    put_effect s.tasks t.task_id (assign worker now t) (λ h. cc) in
                  (
                    fewer,
                    subst (λ i. Closed i (Dict.put t.task_id (assign worker now t) s.tasks))
                        (k id t there) closed,
                  ))
          | inr shut ↦ rw shut (
            (λ j u e p. e),
            (λ u e p.
                not_pending t.status shut
                  (ap (λ (x : Task). x.status) (some_inj (sym there ∙ e)) ∙ p)),
          )
        ])
]
  where
    lost : (t : Task) → Dict.get id s.tasks ≡ some t → Dict.get id s.tasks ≡ none → ⊥
    lost t e f = cc

Fewer-Closed : (id : String) (m n : Table) → Fewer m n → Closed id m → Closed id n
Fewer-Closed id m n f c t e p = c t (f id t e p) p

pub take_task-SameQueues :
    (s : RelayState) (id worker : String) (now : ℕ) → SameQueues s (take_task s id worker now).1
unfolding take_task bind
take_task-SameQueues s id worker now = ground arith

SameQueues-trans : (a b c : RelayState) → SameQueues a b → SameQueues b c → SameQueues a c
SameQueues-trans a b c f g = record {
  nodes = g.nodes ∙ f.nodes;
  pending = g.pending ∙ f.pending;
  workers = g.workers ∙ f.workers;
  hands = g.hands ∙ f.hands;
}

-- What the loop takes off a queue is not pending any more; the rest it leaves in the queue.
pub record Takes (s : RelayState) (ids left : List String) (s' : RelayState) : Type 0 where
  pub fewer : Fewer s.tasks s'.tasks
  pub kept :
      (id : String) (t : Task)
      → Dict.get id s'.tasks ≡ some t
      → t.status ≡ Status.pending
      → Occurs id ids
      → Occurs id left
  pub frame : SameQueues s s'

Takes-none : (s : RelayState) (ids : List String) → Takes s ids ids s
Takes-none s ids = record {
  fewer = λ id t e p. e;
  kept = λ id t e p o. o;
  frame = record { nodes = refl; pending = refl; workers = refl; hands = refl };
}

Takes-more :
    (s s1 s2 : RelayState) (x : String) (ids left : List String)
    → Fewer s.tasks s1.tasks
    → Closed x s1.tasks
    → SameQueues s s1
    → Takes s1 ids left s2
    → Takes s (x ∷ ids) left s2
Takes-more s s1 s2 x ids left f c q r = record {
  fewer = λ id t e p. f id t (r.fewer id t e p) p;
  kept = still;
  frame = SameQueues-trans s s1 s2 q r.frame;
}
  where
    still :
        (id : String) (t : Task)
        → Dict.get id s2.tasks ≡ some t
        → t.status ≡ Status.pending
        → Occurs id (x ∷ ids)
        → Occurs id left
    still id t e p (inl same) =
        absurd (c t (subst (λ i. Dict.get i s1.tasks ≡ some t) (sym same) (r.fewer id t e p)) p)
    still id t e p (inr o) = r.kept id t e p o

Takes-prepend :
    (o : Option Task) (r : Taken) (s : RelayState) (ids : List String)
    → Takes s ids r.left r.state
    → Takes s ids (prepend o r).left (prepend o r).state
Takes-prepend none r s ids h = h
Takes-prepend (some t) r s ids h = h

pub take_from-Takes :
    (worker : String) (now room : ℕ) (ids : List String) (s : RelayState)
    → IsKeyed s.tasks
    → Takes s ids (take_from worker now room ids s).left (take_from worker now room ids s).state
unfolding take_from
take_from-Takes worker now room [] s k = Takes-none s []
take_from-Takes worker now zero (x ∷ ids) s k = Takes-none s (x ∷ ids)
take_from-Takes worker now (suc room) (x ∷ ids) s k =
    let (t, s1) = take_task s x worker now in
    let r = take_from worker now (spend t room) ids s1 in
    let (fewer, closed) = take_task_effect s x worker now k in
    let k1 : IsKeyed s1.tasks =
      Evolve-IsKeyed s.tasks s1.tasks (take_task-Evolve s x worker now k) k in
    Takes-prepend t r s (x ∷ ids) (
      Takes-more s s1 r.state x ids r.left fewer closed (take_task-SameQueues s x worker now)
        (take_from-Takes worker now (spend t room) ids s1 k1))
