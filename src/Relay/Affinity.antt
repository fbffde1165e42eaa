-- ===== src/Relay/Affinity.antt =====
-- Session affinity in src/distllm/relay.py: who gets the tasks of a session.
use distllm.Prelude.{
  ℕ, String, true, false, some, List, [], ◌∷◌, ◌++◌, ◌≡◌, refl, sym, subst, inl, inr, arith,
  string_eq, pair_eq, ◌==◌, eq_of_beq, Bool-cases, is_some, ap, ◌∙◌, take, beq_refl,
}
use distllm.Dict
use distllm.Dict.{get-put}
use distllm.Relay.State.{
  is_pending, max_reported_sessions, Task, Node, RelayState, queue_of, enqueue_id,
}
use distllm.Relay.Tasks.{take_task, bind, bound_to, bound_worker, enqueue, write_task}
use distllm.Relay.Api.{claim_session, claim_sessions, register}
use distllm.Relay.Delivery.Takes.{take_task-SameQueues}
use distllm.Text.{split, nonempty}

module _ (s : RelayState) (t : Task) (session worker : String) (used : ℕ) (node : Node) where
  bound_worker-eq :
      t.session ≡ some session
      → Dict.get (t.target_role, session) s.affinity ≡ some (worker, used)
      → (worker == "") ≡ false
      → Dict.get worker s.nodes ≡ some node
      → (node.role == t.target_role) ≡ true
      → bound_worker s t ≡ (some worker, s)
  unfolding bound_worker bound_to
  bound_worker-eq a b c d e = rw (a, bound_worker, b, bound_to, c, d, e)

-- A task of a session that is bound to a live worker of the task's role goes to the end of that
-- worker's own queue, and to no other queue.
enqueue-bound :
    (s : RelayState) (t : Task) (session worker : String) (used : ℕ) (node : Node)
    → t.session ≡ some session
    → Dict.get (t.target_role, session) s.affinity ≡ some (worker, used)
    → (worker == "") ≡ false
    → Dict.get worker s.nodes ≡ some node
    → (node.role == t.target_role) ≡ true
    → ((enqueue s t).worker_queues
        ≡ Dict.put worker (queue_of worker s.worker_queues ++ t.task_id ∷ []) s.worker_queues)
      × ((enqueue s t).pending_queues ≡ s.pending_queues)
unfolding enqueue enqueue_id
enqueue-bound s t session worker used node a b c d e =
    rw (bound_worker-eq (write_task t s) t session worker used node a b c d e) (refl, refl)

-- The affinity entry of a session whose worker is live is out of reach of other registrations.
claim_session-live :
    (node_id role other : String) (now : ℕ) (role' session w : String) (used : ℕ) (s : RelayState)
    → Dict.get (role', session) s.affinity ≡ some (w, used)
    → is_some (Dict.get w s.nodes) ≡ true
    → Dict.get (role', session) (claim_session node_id role now other s).affinity ≡ some (w, used)
unfolding claim_session
claim_session-live node_id role other now role' session w used s e live =
    let key : String × String = (role', session) in
    let claimed : String × String = (role, other) in
    elim (Bool-cases (claimed == key)) [
      | inl same ↦
          let taken : Dict.get claimed s.affinity ≡ some (w, used) =
            subst (λ i. Dict.get i s.affinity ≡ some (w, used)) (sym (eq_of_beq claimed key same))
              e in
          rw (taken, live) e
      | inr apart ↦ ground (arith, get-put claimed key (node_id, now) s.affinity)
    ]

pub claim_session-nodes :
    (node_id role other : String) (now : ℕ) (s : RelayState)
    → (claim_session node_id role now other s).nodes ≡ s.nodes
unfolding claim_session
claim_session-nodes node_id role other now s = ground arith

pub claim_sessions-live :
    (node_id role : String) (now : ℕ) (role' session w : String) (used : ℕ) (l : List String)
    (s : RelayState)
    → Dict.get (role', session) s.affinity ≡ some (w, used)
    → is_some (Dict.get w s.nodes) ≡ true
    → Dict.get (role', session) (claim_sessions node_id role now l s).affinity ≡ some (w, used)
unfolding claim_sessions
claim_sessions-live node_id role now role' session w used [] s e live = e
claim_sessions-live node_id role now role' session w used (x ∷ l) s e live =
    claim_sessions-live node_id role now role' session w used l (claim_session node_id role now x s)
      (claim_session-live node_id role x now role' session w used s e live)
      (rw claim_session-nodes live)

-- A registration takes no session away from a live worker, whatever sessions it claims.
pub register-live :
    (node_id role sessions : String) (now : ℕ) (role' session w : String) (used : ℕ)
    (s : RelayState)
    → Dict.get (role', session) s.affinity ≡ some (w, used)
    → is_some (Dict.get w s.nodes) ≡ true
    → Dict.get (role', session) (register node_id role sessions now s).1.affinity ≡ some (w, used)
unfolding register
register-live node_id role sessions now role' session w used s e live =
    claim_sessions-live node_id role now role' session w used _ _ e (
      ground (
        arith,
        get-put node_id w (record { node_id = node_id; role = role; last_heartbeat = now }) s.nodes,
      ))

pub claim_sessions-same :
    (node_id role : String) (now : ℕ) (l : List String) (s : RelayState)
    → ((claim_sessions node_id role now l s).nodes ≡ s.nodes)
      × ((claim_sessions node_id role now l s).worker_queues ≡ s.worker_queues)
      × ((claim_sessions node_id role now l s).pending_queues ≡ s.pending_queues)
unfolding claim_sessions claim_session
claim_sessions-same node_id role now [] s = (refl, refl, refl)
claim_sessions-same node_id role now (x ∷ l) s =
    let (n, w, p) = claim_sessions-same node_id role now l (claim_session node_id role now x s) in
    (n ∙ ground arith, w ∙ ground arith, p ∙ ground arith)

-- what taking a task of a session leaves: the session is the worker's
taken-bound :
    (s : RelayState) (id worker session : String) (now : ℕ) (t : Task)
    → Dict.get id s.tasks ≡ some t
    → is_pending t.status ≡ true
    → t.session ≡ some session
    → Dict.get (t.target_role, session) (take_task s id worker now).1.affinity ≡ some (worker, now)
unfolding take_task bind
taken-bound s id worker session now t there open_task e =
    rw (there, take_task, open_task, bind, e)
      (rw (get-put, beq_refl {A = String × String} (t.target_role, session)) refl)

-- A session stays with its worker: once a live worker of the role has taken a pending task of the
-- session, the next task of that session and role goes to the end of this worker's own queue, and to
-- no other queue, also if another worker registers in between, whatever sessions it claims.
pub take_task-enqueue :
    (s : RelayState) (id worker session : String) (now : ℕ) (t next : Task) (node : Node)
    (other role sessions : String) (later : ℕ)
    → Dict.get id s.tasks ≡ some t
    → is_pending t.status ≡ true
    → t.session ≡ some session
    → (worker == "") ≡ false
    → Dict.get worker s.nodes ≡ some node
    → (node.role == t.target_role) ≡ true
    → (other == worker) ≡ false
    → next.session ≡ some session
    → next.target_role ≡ t.target_role
    → let s' = (register other role sessions later (take_task s id worker now).1).1 in
      ((enqueue s' next).worker_queues
        ≡ Dict.put worker (queue_of worker s.worker_queues ++ next.task_id ∷ []) s.worker_queues)
      × ((enqueue s' next).pending_queues ≡ s.pending_queues)
unfolding register
take_task-enqueue s id worker session now t next node other role sessions later there open_task e
      named live serving apart e' same =
    let s1 = (take_task s id worker now).1 in
    let f = take_task-SameQueues s id worker now in
    let s' = (register other role sessions later s1).1 in
    let joined : Node = record { node_id = other; role = role; last_heartbeat = later } in
    let (n, w, p) =
      claim_sessions-same other role later
        (take max_reported_sessions (nonempty (split b',' sessions)))
        (record s1 { nodes = Dict.put other joined s1.nodes }) in
    let bound =
      register-live other role sessions later t.target_role session worker now s1
        (taken-bound s id worker session now t there open_task e) (rw (f.nodes, live) refl) in
    let live' : Dict.get worker s'.nodes ≡ some node =
      ap (Dict.get worker) n
      ∙ ground (
        arith,
        get-put other worker joined s1.nodes,
        apart,
        ap (Dict.get worker) f.nodes,
        live,
      ) in
    let (q, q') =
      enqueue-bound s' next session worker now node e'
        (subst (λ r. Dict.get (r, session) s'.affinity ≡ some (worker, now)) (sym same) bound) named
        live' (subst (λ r. (node.role == r) ≡ true) (sym same) serving) in
    (
      q ∙ ap (λ ws. Dict.put worker (queue_of worker ws ++ next.task_id ∷ []) ws) (w ∙ f.workers),
      q' ∙ p ∙ f.pending,
    )
