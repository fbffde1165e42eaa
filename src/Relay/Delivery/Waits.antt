-- ===== src/Relay/Delivery/Waits.antt =====
-- Where a pending task of src/distllm/relay.py waits, and what `_enqueue` and `_requeue` do to that.
use distllm.Prelude.{
  String, true, Option, none, some, List, [], ◌∷◌, ◌≡◌, refl, sym, ap, subst, ◌∙◌, ◌⊎◌, inl, inr,
  arith, string_eq, ◌==◌, eq_of_beq, if◌then◌else◌, Bool-cases, Option-cases, Occurs,
  Occurs-append_left, Occurs-append_right, some_inj, pair_eq,
}
use distllm.Dict
use distllm.Dict.{Dict, get-put}
use distllm.Text.{truthy}
use distllm.Relay.State.{
  Source, of_worker, of_popped, of_role, Status, Task, Node, RelayState, queue_of, enqueue_id,
}
use distllm.Relay.Tasks.{
  write_task, bound_to, bound_worker, to_role_queue, deliver, enqueue, unbind, reset, requeue,
  serves, owner,
}
use distllm.Relay.Refines.Sweeps.{tasks-enqueue, tasks-requeue}

-- a registered worker of a role
abbrev pub HasRole : Option Node → String → Type 0
HasRole none role = ⊥
HasRole (some n) role = n.role ≡ role

abbrev pub Fits : Source → Dict String Node → String → Type 0
Fits (of_worker w) nodes role = HasRole (Dict.get w nodes) role
Fits (of_popped w) nodes role = Unit
Fits (of_role r) nodes role = r ≡ role

-- A getter of a held poll has the id: from its role's queue, from the own queue of a registered worker
-- of its role, or from a worker's queue that is popped.
abbrev pub HeldBy : Dict String Node → String → String → List (String × Source) → Type 0
HeldBy nodes id role [] = ⊥
HeldBy nodes id role ((j, source) ∷ hand) =
    ((j ≡ id) × Fits source nodes role) ⊎ HeldBy nodes id role hand

-- Among the ids in hand, with a getter, in the queue of its role, or in the own queue of a registered
-- worker of its role.
abbrev pub Waits : List String → RelayState → String → String → Type 0
Waits hand s id role =
    (Occurs id hand ⊎ HeldBy s.nodes id role s.in_hand)
    ⊎ (Occurs id (queue_of role s.pending_queues)
        ⊎ ((w : String) × HasRole (Dict.get w s.nodes) role
            × Occurs id (queue_of w s.worker_queues)))

abbrev pub Queued : List String → RelayState → Type 0
Queued hand s =
    (id : String) (t : Task)
    → Dict.get id s.tasks ≡ some t
    → t.status ≡ Status.pending
    → Waits hand s id t.target_role

abbrev Queues : Type 0
Queues = Dict String (List String)

pub queue_of-put :
    (k j : String) (q : List String) (qs : Queues)
    → queue_of j (Dict.put k q qs) ≡ (if k == j then q else queue_of j qs)
queue_of-put k j q qs = rw get-put (ground arith)

pub Occurs-enqueue_id :
    (k id r j : String) (qs : Queues)
    → Occurs j (queue_of r qs)
    → Occurs j (queue_of r (enqueue_id k id qs))
unfolding enqueue_id
Occurs-enqueue_id k id r j qs o = rw queue_of-put (elim (Bool-cases (k == r)) [
  | inl same ↦ rw same (
      Occurs-append_left j (queue_of k qs) (id ∷ [])
        (subst (λ i. Occurs j (queue_of i qs)) (sym (eq_of_beq k r same)) o))
  | inr other ↦ rw other o
])

pub Occurs-enqueue_id_self :
    (k id : String) (qs : Queues) → Occurs id (queue_of k (enqueue_id k id qs))
unfolding enqueue_id
Occurs-enqueue_id_self k id qs =
    rw (queue_of-put, (string_eq.beq_iff k k).1 refl)
      (Occurs-append_right id (queue_of k qs) (id ∷ []) (inl refl))

-- Queues that only grow keep every task waiting.
pub Waits-to_role_queue :
    (hand : List String) (x : Task) (s : RelayState) (id role : String)
    → Waits hand s id role
    → Waits hand (to_role_queue x s) id role
unfolding to_role_queue
Waits-to_role_queue hand x s id role (inl h) = inl h
Waits-to_role_queue hand x s id role (inr (inl o)) =
    inr (inl (Occurs-enqueue_id x.target_role x.task_id role id s.pending_queues o))
Waits-to_role_queue hand x s id role (inr (inr w)) = inr (inr w)

Waits-deliver :
    (x : Task) (o : Option String) (s : RelayState) (id role : String)
    → Waits [] s id role
    → Waits [] (deliver x (o, s)) id role
unfolding deliver
Waits-deliver x none s id role w = Waits-to_role_queue [] x s id role w
Waits-deliver x (some k) s id role (inl h) = inl h
Waits-deliver x (some k) s id role (inr (inl o)) = inr (inl o)
Waits-deliver x (some k) s id role (inr (inr (w, live, o))) =
    inr (inr (w, live, Occurs-enqueue_id k x.task_id w id s.worker_queues o))

-- What `_bound_worker` returns is a registered worker of the role; it changes no queue and no node.
serves-HasRole : (o : Option Node) (role : String) → serves o role ≡ true → HasRole o role
serves-HasRole none role h = ground (arith, h)
serves-HasRole (some n) role h = eq_of_beq n.role role h

bound_to-live :
    (s : RelayState) (role session w : String)
    → (bound_to s role session).0 ≡ some w
    → HasRole (Dict.get w s.nodes) role
unfolding bound_to
bound_to-live s role session w h =
    elim (Option-cases (truthy (owner (Dict.get (role, session) s.affinity)))) [
      | inl free ↦ absurd (ground arith)
      | inr (k, held) ↦ elim (Bool-cases (serves (Dict.get k s.nodes) role)) [
        | inl live ↦
            subst (λ i. HasRole (Dict.get i s.nodes) role) (ground arith)
              (serves-HasRole (Dict.get k s.nodes) role live)
        | inr dead ↦ absurd (ground arith)
      ]
    ]

bound_worker-live :
    (s : RelayState) (t : Task) (w : String)
    → (bound_worker s t).0 ≡ some w
    → HasRole (Dict.get w s.nodes) t.target_role
unfolding bound_worker
bound_worker-live s t w h = elim (Option-cases t.session) [
  | inl free ↦ absurd (ground arith)
  | inr (session, e) ↦ bound_to-live s t.target_role session w (ground arith)
]

-- Two states with the same nodes and the same queues.
pub record SameQueues (s s' : RelayState) : Type 0 where
  pub nodes : s'.nodes ≡ s.nodes
  pub pending : s'.pending_queues ≡ s.pending_queues
  pub workers : s'.worker_queues ≡ s.worker_queues
  pub hands : s'.in_hand ≡ s.in_hand

pub Waits-SameQueues :
    (hand : List String) (s s' : RelayState) (id role : String)
    → SameQueues s s'
    → Waits hand s id role
    → Waits hand s' id role
Waits-SameQueues hand s s' id role f w = rw (f.nodes, f.pending, f.workers, f.hands) w

bound_worker-SameQueues : (s : RelayState) (t : Task) → SameQueues s (bound_worker s t).1
unfolding bound_worker
bound_worker-SameQueues s t = ground arith

pub unbind-SameQueues : (t : Task) (s : RelayState) → SameQueues s (unbind t s)
unfolding unbind
unbind-SameQueues t s = ground arith

deliver-Waits_self :
    (t : Task) (o : Option String) (s : RelayState)
    → ((w : String) → o ≡ some w → HasRole (Dict.get w s.nodes) t.target_role)
    → Waits [] (deliver t (o, s)) t.task_id t.target_role
unfolding deliver to_role_queue
deliver-Waits_self t none s live =
    inr (inl (Occurs-enqueue_id_self t.target_role t.task_id s.pending_queues))
deliver-Waits_self t (some w) s live =
    inr (inr (w, live w refl, Occurs-enqueue_id_self w t.task_id s.worker_queues))

-- A write to the table, where the written task waits if it is pending.
pub Queued-put :
    (hand : List String) (s s' : RelayState) (t : Task)
    → s'.tasks ≡ Dict.put t.task_id t s.tasks
    → ((id role : String) → Waits hand s id role → Waits hand s' id role)
    → (t.status ≡ Status.pending → Waits hand s' t.task_id t.target_role)
    → Queued hand s
    → Queued hand s'
Queued-put hand s s' t e grows new old id u there p = elim (Bool-cases (t.task_id == id)) [
  | inl same ↦
      let it : some t ≡ some u = ground (arith, get-put t.task_id id t s.tasks) in
      subst (λ x. Waits hand s' id x.target_role) (some_inj it)
        (subst (λ i. Waits hand s' i t.target_role) (eq_of_beq t.task_id id same)
          (new (ap (λ (x : Task). x.status) (some_inj it) ∙ p)))
  | inr other ↦ grows id u.target_role (old id u (ground (arith, get-put t.task_id id t s.tasks)) p)
]

-- A new task goes to a queue that is read, whatever its session is bound to.
pub enqueue-Queued : (s : RelayState) (t : Task) → Queued [] s → Queued [] (enqueue s t)
unfolding enqueue
enqueue-Queued s t q =
    let s1 = write_task t s in
    let (o, s2) = bound_worker s1 t in
    let same : SameQueues s1 s2 = bound_worker-SameQueues s1 t in
    Queued-put [] s (enqueue s t) t (tasks-enqueue s t)
      (λ id role w. Waits-deliver t o s2 id role (Waits-SameQueues [] s1 s2 id role same w))
      (λ _. deliver-Waits_self t o s2 (λ w e. rw (same.nodes) (bound_worker-live s1 t w e))) q

pub requeue-Queued :
    (hand : List String) (s : RelayState) (t : Task) → Queued hand s → Queued hand (requeue s t)
unfolding requeue to_role_queue
requeue-Queued hand s t q =
    let s1 = unbind t s in
    Queued-put hand s (requeue s t) (reset t) (tasks-requeue s t)
      (λ id role w.
        Waits-to_role_queue hand (reset t) (write_task (reset t) s1) id role
          (Waits-SameQueues hand s s1 id role (unbind-SameQueues t s) w))
      (λ _. inr (inl (Occurs-enqueue_id_self t.target_role t.task_id s1.pending_queues))) q
