-- ===== src/Relay/Tasks.antt =====
-- Routing of tasks to queues, assignment and completion: the helpers of src/distllm/relay.py
-- below `# --- State ---` and between the endpoints. Each runs without a suspension point.
use distllm.Prelude.{
  ℕ, ltb, String, Bool, true, false, ◌&&◌, not, Option, none, some, ◌==◌, string_eq, pair_eq,
  option_eq, if◌then◌else◌, length, is_some,
}
use distllm.Text.{truthy}
use distllm.Dict
use distllm.Relay.State.{
  Bytes, Status, is_pending, Task, Node, RelayState, enqueue_id, stop_chain_sniff_limit,
}

abbrev pub write_task : Task → RelayState → RelayState
write_task t s = record s { tasks = Dict.put t.task_id t s.tasks }

-- `node is None or node.role != task.target_role`, negated
abbrev pub serves : Option Node → String → Bool
serves none role = false
serves (some n) role = n.role == role

abbrev pub owner : Option (String × ℕ) → Option String
owner none = none
owner (some (worker, _)) = some worker

-- `_bound_worker` for a task that has a session
unfoldable pub bound_to : RelayState → String → String → Option String × RelayState
bound_to s role session = elim (truthy (owner (Dict.get (role, session) s.affinity))) [
  | none ↦ (none, s)
  | some worker ↦
      if serves (Dict.get worker s.nodes) role
      then (some worker, s)
      else (none, record s { affinity = Dict.delete (role, session) s.affinity })
]

unfoldable pub bound_worker : RelayState → Task → Option String × RelayState
unfolding bound_to
bound_worker s task = elim task.session [
  | none ↦ (none, s)
  | some session ↦ bound_to s task.target_role session
]

unfoldable pub to_role_queue : Task → RelayState → RelayState
unfolding enqueue_id
to_role_queue t s = record s {
  pending_queues = enqueue_id t.target_role t.task_id s.pending_queues;
}

unfoldable pub deliver : Task → Option String × RelayState → RelayState
unfolding to_role_queue enqueue_id
deliver t (none, s) = to_role_queue t s
deliver t (some worker, s) = record s {
  worker_queues = enqueue_id worker t.task_id s.worker_queues;
}

unfoldable pub enqueue : RelayState → Task → RelayState
unfolding deliver bound_worker
enqueue s task = deliver task (bound_worker (write_task task s) task)

-- Forget the session's worker if it is the one that the task was assigned to.
unfoldable pub unbind : Task → RelayState → RelayState
unbind t s = elim t.session [
  | none ↦ s
  | some session ↦
      let key : String × String = (t.target_role, session) in
      if owner (Dict.get key s.affinity) == t.worker_id
      then record s { affinity = Dict.delete key s.affinity }
      else s
]

abbrev pub reset : Task → Task
reset t = record t { status = Status.pending; worker_id = none; assigned_at = none }

unfoldable pub requeue : RelayState → Task → RelayState
unfolding unbind to_role_queue
requeue s task = to_role_queue (reset task) (write_task (reset task) (unbind task s))

abbrev pub assign : String → ℕ → Task → Task
assign worker now t = record t {
  status = Status.assigned;
  worker_id = some worker;
  assigned_at = some now;
}

unfoldable pub bind : String → ℕ → Task → RelayState → RelayState
bind worker now t s = elim t.session [
  | none ↦ s
  | some session ↦ record s {
    affinity = Dict.put (t.target_role, session) (worker, now) s.affinity;
  }
]

-- `_take`: a task that is gone or not pending is none.
unfoldable pub take_task : RelayState → String → String → ℕ → Option Task × RelayState
unfolding bind
take_task s task_id worker now = elim (Dict.get task_id s.tasks) [
  | none ↦ (none, s)
  | some t ↦
      if is_pending t.status
      then (some (assign worker now t), bind worker now t (write_task (assign worker now t) s))
      else (none, s)
]

abbrev pub is_true : Option Bool → Bool
is_true none = false
is_true (some b) = b

-- `_stops_chain`; `unpack` is msgpack's reading of a body where that is a dict: the truth of its
-- value at STOP_CHAIN_KEY.
unfoldable pub stops_chain : (Bytes → Option Bool) → Bytes → Bool → Bool
stops_chain unpack body flagged =
    if flagged
    then true
    else if ltb stop_chain_sniff_limit (length body)
    then false
    else is_true (unpack body)

-- `_check_worker`: true where it raises 409.
unfoldable pub wrong_worker : Task → Option String → Bool
wrong_worker t worker_id = is_some t.worker_id && not (worker_id == t.worker_id)

abbrev pub complete : Status → Bytes → ℕ → Task → Task
complete status result now t =
    if t.done
    then t
    else record t { status = status; result = some result; completed_at = some now; done = true }

unfoldable pub finish_target : Status → Bytes → ℕ → Option Task → RelayState → RelayState
finish_target status result now none s = s
finish_target status result now (some t) s = write_task (complete status result now t) s

-- `_finish`: the keys of its dict are the task's id and its root's, which may be one. The task is
-- written as the table has it; a task that was dropped meanwhile is written where nobody looks.
unfoldable pub finish : RelayState → Task → Status → Bytes → ℕ → RelayState
unfolding finish_target
finish s t status result now = finish_target status result now (Dict.get t.root_id s.tasks) (
    if t.task_id == t.root_id
    then s
    else finish_target status result now (Dict.get t.task_id s.tasks) s)
