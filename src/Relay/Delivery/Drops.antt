-- ===== src/Relay/Delivery/Drops.antt =====
-- No pending task is lost when a worker goes or the janitor of src/distllm/relay.py sweeps.
use distllm.Prelude.{
  ℕ, String, Bool, true, false, Option, none, some, List, [], ◌∷◌, ◌≡◌, refl, sym, subst, ap, ◌∙◌,
  inl, inr, arith, string_eq, ◌==◌, eq_of_beq, if◌then◌else◌, Bool-cases, Option-cases, Occurs,
  some_inj,
}
use distllm.Dict
use distllm.Dict.{Dict, get-put, get-delete}
use distllm.Relay.State.{Status, is_pending, Task, RelayState, queue_of}
use distllm.Relay.Tasks.{to_role_queue, requeue}
use distllm.Relay.Sweep.{
  pop_source, for_each_task, visit, requeue_if_held, requeue_if_pending, requeue_queued,
  forget_worker, drop_node, requeue_if_stuck, cleanup_stuck_tasks, is_old, drop_if_old,
  cleanup_old_tasks, silent_nodes, drop_nodes, janitor,
}
use distllm.Relay.Lifecycle.{IsKeyed, Evolve-IsKeyed}
use distllm.Relay.Refines.Sweeps.{drop_node-Evolve, for_each_task-Evolve, requeue_if_held-Refines}
use distllm.Relay.Delivery.Hands.{HeldBy-pop_source}
use distllm.Relay.Delivery.Waits.{
  Waits, Queued, Waits-to_role_queue, Occurs-enqueue_id_self, requeue-Queued,
}

-- What every round of a loop over the tasks keeps, the loop keeps.
for_each_task_keeps :
    (J : RelayState → Type 0) (body : String → Task → RelayState → RelayState)
    → ((id : String) (t : Task) (s : RelayState) → J s → J (body id t s))
    → (l : Dict String Task) (s : RelayState) → J s
    → J (for_each_task body l s)
unfolding for_each_task
for_each_task_keeps J body keep [] s j = j
for_each_task_keeps J body keep ((id, x) ∷ rest) s j =
    for_each_task_keeps J body keep rest (visit body id (Dict.get id s.tasks) s)
      (visited (Dict.get id s.tasks))
  where
    visited : (o : Option Task) → J (visit body id o s)
    visited none = j
    visited (some t) = keep id t s j

module _ (hand : List String) where
  if_requeue-Queued :
      (b : Bool) (t : Task) (s : RelayState)
      → Queued hand s
      → Queued hand (if b then requeue s t else s)
  if_requeue-Queued true t s q = requeue-Queued hand s t q
  if_requeue-Queued false t s q = q

  requeue_if_held-Queued :
      (worker id : String) (t : Task) (s : RelayState)
      → Queued hand s
      → Queued hand (requeue_if_held worker id t s)
  unfolding requeue_if_held
  requeue_if_held-Queued worker id t s q = if_requeue-Queued _ t s q

  requeue_if_stuck-Queued :
      (now : ℕ) (id : String) (t : Task) (s : RelayState)
      → Queued hand s
      → Queued hand (requeue_if_stuck now id t s)
  unfolding requeue_if_stuck
  requeue_if_stuck-Queued now id t s q = if_requeue-Queued _ t s q

  drop_if_old-Queued :
      (now : ℕ) (id : String) (t : Task) (s : RelayState)
      → Queued hand s
      → Queued hand (drop_if_old now id t s)
  unfolding drop_if_old
  drop_if_old-Queued now id t s q = elim (Bool-cases (is_old now t)) [
    | inl old ↦ rw old (λ j u there p. q j u (ground (arith, get-delete id j s.tasks)) p)
    | inr young ↦ rw young q
  ]

-- The id taken from the hand goes to its role's queue if its task is pending.
requeue_one-Queued :
    (id : String) (ids : List String) (s : RelayState) (o : Option Task)
    → IsKeyed s.tasks
    → Dict.get id s.tasks ≡ o
    → Queued (id ∷ ids) s
    → Queued ids (requeue_if_pending o s)
unfolding to_role_queue
requeue_one-Queued id ids s none k e q = λ j u there p. elim (q j u there p) [
  | inl (inl (inl same)) ↦ absurd (clash j u there (subst (λ i. Dict.get i s.tasks ≡ none) same e))
  | inl (inl (inr h)) ↦ inl (inl h)
  | inl (inr h) ↦ inl (inr h)
  | inr w ↦ inr w
]
  where
    clash : (j : String) (u : Task) → Dict.get j s.tasks ≡ some u → Dict.get j s.tasks ≡ none → ⊥
    clash j u there f = cc
requeue_one-Queued id ids s (some t) k e q = elim (Bool-cases (is_pending t.status)) [
  | inl open_task ↦ rw open_task (λ j u there p. elim (q j u (moved j u there) p) [
    | inl (inl (inl same)) ↦
        let it : some t ≡ some u = sym e ∙ ap (λ i. Dict.get i s.tasks) same ∙ moved j u there in
        self_waits j u (k id t e ∙ same) (some_inj it)
    | inl (inl (inr h)) ↦ inl (inl h)
    | inl (inr h) ↦ inl (inr h)
    | inr w ↦ Waits-to_role_queue ids t s j u.target_role (inr w)
  ])
  | inr shut ↦ rw shut (λ j u there p. elim (q j u there p) [
    | inl (inl (inl same)) ↦
        let it : some t ≡ some u = sym e ∙ ap (λ i. Dict.get i s.tasks) same ∙ there in
        absurd (not_open u p (some_inj it) shut)
    | inl (inl (inr h)) ↦ inl (inl h)
    | inl (inr h) ↦ inl (inr h)
    | inr w ↦ inr w
  ])
]
  where
    moved :
        (j : String) (u : Task)
        → Dict.get j (to_role_queue t s).tasks ≡ some u
        → Dict.get j s.tasks ≡ some u
    moved j u h = h

    self_waits :
        (j : String) (u : Task)
        → t.task_id ≡ j
        → t ≡ u
        → Waits ids (to_role_queue t s) j u.target_role
    self_waits j u same it =
        subst (λ (x : Task). Waits ids (to_role_queue t s) j x.target_role) it
          (subst (λ i. Waits ids (to_role_queue t s) i t.target_role) same
            (inr (inl (Occurs-enqueue_id_self t.target_role t.task_id s.pending_queues))))

    not_open : (u : Task) → u.status ≡ Status.pending → t ≡ u → is_pending t.status ≡ false → ⊥
    not_open u p it shut = cc

requeue_if_pending-tasks :
    (o : Option Task) (s : RelayState) → (requeue_if_pending o s).tasks ≡ s.tasks
unfolding to_role_queue
requeue_if_pending-tasks o s = ground arith

requeue_queued-Queued :
    (ids : List String) (s : RelayState)
    → IsKeyed s.tasks
    → Queued ids s
    → Queued [] (requeue_queued ids s)
unfolding requeue_queued
requeue_queued-Queued [] s k q = q
requeue_queued-Queued (id ∷ ids) s k q =
    requeue_queued-Queued ids (requeue_if_pending (Dict.get id s.tasks) s)
      (rw (requeue_if_pending-tasks (Dict.get id s.tasks) s) k)
      (requeue_one-Queued id ids s (Dict.get id s.tasks) k refl q)

-- A worker that leaves the table takes its own queue out of sight: those ids are in hand.
unregister-Queued :
    (worker : String) (s : RelayState)
    → Queued [] s
    → Queued
        (queue_of worker s.worker_queues)
        (record s { nodes = Dict.delete worker s.nodes; in_hand = pop_source worker s.in_hand })
unregister-Queued worker s q id t there p = elim (q id t there p) [
  | inl (inl h) ↦ absurd h
  | inl (inr h) ↦ inl (inr (HeldBy-pop_source s.nodes id t.target_role worker s.in_hand h))
  | inr (inl o) ↦ inr (inl o)
  | inr (inr (w, live, o)) ↦ elim (Bool-cases (worker == w)) [
    | inl same ↦ inl (
        inl (subst (λ i. Occurs id (queue_of i s.worker_queues)) (sym (eq_of_beq worker w same)) o))
    | inr other ↦ inr (inr (w, rw (get-delete, other) live, o))
  ]
]

drop_queue-Queued :
    (worker : String) (s : RelayState)
    → Queued (queue_of worker s.worker_queues) s
    → Queued
        (queue_of worker s.worker_queues)
        (record s { worker_queues = Dict.delete worker s.worker_queues })
drop_queue-Queued worker s q id t there p = elim (q id t there p) [
  | inl h ↦ inl h
  | inr (inl o) ↦ inr (inl o)
  | inr (inr (w, live, o)) ↦ elim (Bool-cases (worker == w)) [
    | inl same ↦ inl (
        inl (subst (λ i. Occurs id (queue_of i s.worker_queues)) (sym (eq_of_beq worker w same)) o))
    | inr other ↦ inr (inr (w, live, rw (get-delete worker w s.worker_queues, other) o))
  ]
]

held_keeps_workers :
    (worker : String) (W : Dict String (List String)) (id : String) (t : Task) (s : RelayState)
    → s.worker_queues ≡ W
    → (requeue_if_held worker id t s).worker_queues ≡ W
unfolding requeue_if_held requeue
held_keeps_workers worker W id t s e = ground arith

-- Everything that a gone worker held, and everything in its own queue, waits for another one.
forget_worker-Queued :
    (before : RelayState) (worker : String)
    → IsKeyed before.tasks
    → Queued
        (queue_of worker before.worker_queues)
        (record before { in_hand = pop_source worker before.in_hand })
    → Queued [] (forget_worker before worker)
unfolding forget_worker
forget_worker-Queued before worker k q =
    let s = record before { in_hand = pop_source worker before.in_hand } in
    let s1 = for_each_task (requeue_if_held worker) s.tasks s in
    let ev =
      for_each_task-Evolve (requeue_if_held worker) (requeue_if_held-Refines worker) s.tasks s k in
    let same : s1.worker_queues ≡ s.worker_queues =
      for_each_task_keeps (λ x. x.worker_queues ≡ s.worker_queues) (requeue_if_held worker)
        (held_keeps_workers worker s.worker_queues) s.tasks s refl in
    let held : Queued (queue_of worker s.worker_queues) s1 =
      for_each_task_keeps (Queued (queue_of worker s.worker_queues)) (requeue_if_held worker)
        (requeue_if_held-Queued (queue_of worker s.worker_queues) worker) s.tasks s q in
    let held' : Queued (queue_of worker s1.worker_queues) s1 =
      subst (λ x. Queued (queue_of worker x) s1) (sym same) held in
    let s2 = record s1 { worker_queues = Dict.delete worker s1.worker_queues } in
    requeue_queued-Queued (queue_of worker s1.worker_queues) s2
      (Evolve-IsKeyed s.tasks s1.tasks ev k) (drop_queue-Queued worker s1 held')

pub drop_node-Queued :
    (s : RelayState) (node_id : String)
    → IsKeyed s.tasks
    → Queued [] s
    → Queued [] (drop_node s node_id)
unfolding drop_node
drop_node-Queued s node_id k q = elim (Option-cases (Dict.get node_id s.nodes)) [
  | inl gone ↦ rw (gone, drop_node) q
  | inr (n, there) ↦
      rw (there, drop_node) (forget_worker-Queued _ node_id k (unregister-Queued node_id s q))
]

drop_nodes-Queued :
    (ids : List String) (s : RelayState)
    → IsKeyed s.tasks
    → Queued [] s
    → Queued [] (drop_nodes ids s)
unfolding drop_nodes
drop_nodes-Queued [] s k q = q
drop_nodes-Queued (id ∷ ids) s k q =
    drop_nodes-Queued ids (drop_node s id)
      (Evolve-IsKeyed s.tasks (drop_node s id).tasks (drop_node-Evolve s id k) k)
      (drop_node-Queued s id k q)

pub janitor-Queued :
    (now now_stuck now_old : ℕ) (s : RelayState)
    → IsKeyed s.tasks
    → Queued [] s
    → Queued [] (janitor now now_stuck now_old s)
unfolding janitor cleanup_stuck_tasks cleanup_old_tasks
janitor-Queued now now_stuck now_old s k q =
    let ids = silent_nodes s.timeouts.node_timeout now s.nodes in
    let s1 = drop_nodes ids s in
    let s2 = for_each_task (requeue_if_stuck now_stuck) s1.tasks s1 in
    for_each_task_keeps (Queued []) (drop_if_old now_old) (drop_if_old-Queued [] now_old) s2.tasks
      s2
      (for_each_task_keeps (Queued []) (requeue_if_stuck now_stuck)
        (requeue_if_stuck-Queued [] now_stuck) s1.tasks s1 (drop_nodes-Queued ids s k q))
