-- ===== src/Relay/Refines/Sweeps.antt =====
-- The sweeps of src/distllm/relay.py change the task table by moves of Relay/Lifecycle alone.
use distllm.Prelude.{
  ℕ, String, Bool, true, Option, none, some, ◌≡◌, refl, subst, ◌∙◌, sym, inl, inr, arith, string_eq,
  Bool-cases, Option-cases, List, [], ◌∷◌, if◌then◌else◌, ◌&&◌,
}
use distllm.Dict
use distllm.Dict.{Dict, get-put}
use distllm.Relay.State.{Status, is_pending, is_assigned, Task, RelayState}
use distllm.Relay.Tasks.{
  write_task, bound_worker, to_role_queue, deliver, enqueue, reset, requeue, bind,
}
use distllm.Relay.Sweep.{
  pop_source, for_each_task, requeue_if_held, requeue_queued, requeue_if_pending, forget_worker,
  drop_node, requeue_if_stuck, cleanup_stuck_tasks, drop_if_old, cleanup_old_tasks, drop_nodes,
  janitor, visit, silent_nodes, is_old,
}
use distllm.Relay.Lifecycle.{
  requeued, IsKeyed, Evolve, Evolve-trans, Evolve-refl, Evolve-IsKeyed, Evolve-put, Evolve-delete,
}

tasks-bound_worker : (s : RelayState) (t : Task) → (bound_worker s t).1.tasks ≡ s.tasks
unfolding bound_worker
tasks-bound_worker s t = ground arith

tasks-deliver : (t : Task) (w : Option String) (s : RelayState) → (deliver t (w, s)).tasks ≡ s.tasks
unfolding deliver
tasks-deliver t none s = refl
tasks-deliver t (some w) s = refl

pub tasks-enqueue : (s : RelayState) (t : Task) → (enqueue s t).tasks ≡ Dict.put t.task_id t s.tasks
unfolding enqueue
tasks-enqueue s t =
    let (w, s') = bound_worker (write_task t s) t in
    tasks-deliver t w s' ∙ tasks-bound_worker (write_task t s) t

pub tasks-requeue :
    (s : RelayState) (t : Task) → (requeue s t).tasks ≡ Dict.put t.task_id (reset t) s.tasks
unfolding requeue
tasks-requeue s t = ground arith

pub tasks-bind :
    (worker : String) (now : ℕ) (t : Task) (s : RelayState) → (bind worker now t s).tasks ≡ s.tasks
unfolding bind
tasks-bind worker now t s = ground arith

requeue-Evolve :
    (s : RelayState) (t : Task)
    → Dict.get t.task_id s.tasks ≡ some t
    → t.status ≡ Status.assigned
    → Evolve s.tasks (requeue s t).tasks
requeue-Evolve s t e h = rw tasks-requeue (Evolve-put s.tasks t (reset t) e (requeued h))

status_of_assigned : (x : Status) → is_assigned x ≡ true → x ≡ Status.assigned
status_of_assigned Status.assigned h = refl
status_of_assigned Status.pending h = cc
status_of_assigned Status.forwarded h = cc
status_of_assigned Status.completed h = cc
status_of_assigned Status.failed h = cc

pub status_of_pending : (x : Status) → is_pending x ≡ true → x ≡ Status.pending
status_of_pending Status.pending h = refl
status_of_pending Status.assigned h = cc
status_of_pending Status.forwarded h = cc
status_of_pending Status.completed h = cc
status_of_pending Status.failed h = cc

-- A body that refines the life of the task it visits.
abbrev pub Refines : (String → Task → RelayState → RelayState) → Type 0
Refines body =
    (id : String) (t : Task) (s : RelayState)
    → IsKeyed s.tasks
    → Dict.get id s.tasks ≡ some t
    → Evolve s.tasks (body id t s).tasks

visit-Evolve :
    (body : String → Task → RelayState → RelayState)
    → Refines body
    → (id : String) (s : RelayState) (o : Option Task) → IsKeyed s.tasks
    → Dict.get id s.tasks ≡ o
    → Evolve s.tasks (visit body id o s).tasks
visit-Evolve body r id s none k e = Evolve-refl s.tasks
visit-Evolve body r id s (some t) k e = r id t s k e

pub for_each_task-Evolve :
    (body : String → Task → RelayState → RelayState)
    → Refines body
    → (l : Dict String Task) (s : RelayState) → IsKeyed s.tasks
    → Evolve s.tasks (for_each_task body l s).tasks
unfolding for_each_task
for_each_task-Evolve body r [] s k = Evolve-refl s.tasks
for_each_task-Evolve body r ((id, x) ∷ rest) s k =
    let s' = visit body id (Dict.get id s.tasks) s in
    let first : Evolve s.tasks s'.tasks = visit-Evolve body r id s (Dict.get id s.tasks) k refl in
    Evolve-trans _ s'.tasks _ first
      (for_each_task-Evolve body r rest s' (Evolve-IsKeyed _ s'.tasks first k))

requeue-Refines :
    (id : String) (t : Task) (s : RelayState)
    → IsKeyed s.tasks
    → Dict.get id s.tasks ≡ some t
    → is_assigned t.status ≡ true
    → Evolve s.tasks (requeue s t).tasks
requeue-Refines id t s k e h =
    requeue-Evolve s t (subst (λ i. Dict.get i s.tasks ≡ some t) (sym (k id t e)) e)
      (status_of_assigned t.status h)

requeue_if-Evolve :
    (b : Bool) (id : String) (t : Task) (s : RelayState)
    → IsKeyed s.tasks
    → Dict.get id s.tasks ≡ some t
    → Evolve s.tasks (if is_assigned t.status && b then requeue s t else s).tasks
requeue_if-Evolve b id t s k e = elim (Bool-cases (is_assigned t.status && b)) [
  | inl held ↦ rw held (requeue-Refines id t s k e (ground arith))
  | inr free ↦ rw free (Evolve-refl s.tasks)
]

pub requeue_if_held-Refines : (worker : String) → Refines (requeue_if_held worker)
unfolding requeue_if_held
requeue_if_held-Refines worker id t s k e = requeue_if-Evolve _ id t s k e

requeue_if_stuck-Refines : (now : ℕ) → Refines (requeue_if_stuck now)
unfolding requeue_if_stuck
requeue_if_stuck-Refines now id t s k e = requeue_if-Evolve _ id t s k e

drop_if_old-Refines : (now : ℕ) → Refines (drop_if_old now)
unfolding drop_if_old
drop_if_old-Refines now id t s k e = elim (Bool-cases (is_old now t)) [
  | inl old ↦ rw old (Evolve-delete s.tasks id)
  | inr young ↦ rw young (Evolve-refl s.tasks)
]

pub tasks-requeue_queued :
    (ids : List String) (s : RelayState) → (requeue_queued ids s).tasks ≡ s.tasks
unfolding requeue_queued to_role_queue
tasks-requeue_queued [] s = refl
tasks-requeue_queued (id ∷ ids) s =
    tasks-requeue_queued ids (requeue_if_pending (Dict.get id s.tasks) s) ∙ ground arith

forget_worker-Evolve :
    (s : RelayState) (worker : String)
    → IsKeyed s.tasks
    → Evolve s.tasks (forget_worker s worker).tasks
unfolding forget_worker
forget_worker-Evolve s worker k = rw tasks-requeue_queued (
    for_each_task-Evolve (requeue_if_held worker) (requeue_if_held-Refines worker) s.tasks
      (record s { in_hand = pop_source worker s.in_hand }) k)

pub drop_node-Evolve :
    (s : RelayState) (node_id : String)
    → IsKeyed s.tasks
    → Evolve s.tasks (drop_node s node_id).tasks
unfolding drop_node
drop_node-Evolve s node_id k = elim (Option-cases (Dict.get node_id s.nodes)) [
  | inl none_there ↦ rw (none_there, drop_node) (Evolve-refl s.tasks)
  | inr (n, there) ↦ rw (there, drop_node) (forget_worker-Evolve _ node_id k)
]

drop_nodes-Evolve :
    (ids : List String) (s : RelayState) → IsKeyed s.tasks → Evolve s.tasks (drop_nodes ids s).tasks
unfolding drop_nodes
drop_nodes-Evolve [] s k = Evolve-refl s.tasks
drop_nodes-Evolve (id ∷ ids) s k =
    let first = drop_node-Evolve s id k in
    Evolve-trans _ (drop_node s id).tasks _ first
      (drop_nodes-Evolve ids (drop_node s id) (Evolve-IsKeyed _ _ first k))

pub janitor-Evolve :
    (now now_stuck now_old : ℕ) (s : RelayState)
    → IsKeyed s.tasks
    → Evolve s.tasks (janitor now now_stuck now_old s).tasks
unfolding janitor cleanup_stuck_tasks cleanup_old_tasks
janitor-Evolve now now_stuck now_old s k =
    let s1 = drop_nodes (silent_nodes s.timeouts.node_timeout now s.nodes) s in
    let a = drop_nodes-Evolve (silent_nodes s.timeouts.node_timeout now s.nodes) s k in
    let k1 = Evolve-IsKeyed s.tasks s1.tasks a k in
    let s2 = for_each_task (requeue_if_stuck now_stuck) s1.tasks s1 in
    let b =
      for_each_task-Evolve (requeue_if_stuck now_stuck) (requeue_if_stuck-Refines now_stuck)
        s1.tasks s1 k1 in
    let k2 = Evolve-IsKeyed s1.tasks s2.tasks b k1 in
    let c =
      for_each_task-Evolve (drop_if_old now_old) (drop_if_old-Refines now_old) s2.tasks s2 k2 in
    Evolve-trans _ s1.tasks _ a (Evolve-trans _ s2.tasks _ b c)
