-- ===== src/Relay/State.antt =====
-- The state of src/distllm/relay.py: tasks, nodes, queues, session affinity and timeouts.
-- Times are whole milliseconds, payloads are lists of bytes.
use distllm.Prelude.{
  ℕ, String, Bool, true, false, Option, none, some, List, [], ◌∷◌, ◌++◌, string_eq,
}
use distllm.Text.{truthy}
use distllm.Dict
use distllm.Dict.{Dict}

abbrev pub Bytes : Type 0
Bytes = List ℕ

pub data Status : Type 0 where
  pending assigned forwarded completed failed : Status

-- `task.status in FINISHED`
abbrev pub is_finished : Status → Bool
is_finished Status.pending = false
is_finished Status.assigned = false
is_finished Status.forwarded = true
is_finished Status.completed = true
is_finished Status.failed = true

abbrev pub is_pending : Status → Bool
is_pending Status.pending = true
is_pending Status.assigned = false
is_pending Status.forwarded = false
is_pending Status.completed = false
is_pending Status.failed = false

abbrev pub is_assigned : Status → Bool
is_assigned Status.assigned = true
is_assigned Status.pending = false
is_assigned Status.forwarded = false
is_assigned Status.completed = false
is_assigned Status.failed = false

-- `done` is whether the event is set.
pub record Task : Type 0 where
  pub task_id : String
  pub sender_id : String
  pub target_role : String
  pub payload : Bytes
  pub route : List String
  pub root_id : String
  pub session : Option String
  pub status : Status
  pub worker_id : Option String
  pub assigned_at : Option ℕ
  pub result : Option Bytes
  pub created_at : ℕ
  pub completed_at : Option ℕ
  pub done : Bool

abbrev pub or_else : Option String → String → String
or_else none d = d
or_else (some s) d = s

-- `Task(...)` with `__post_init__`: a missing root is the task itself, an empty session is none.
unfoldable pub new_task :
    String → String → String → Bytes → List String → Option String → Option String → ℕ → Task
new_task task_id sender_id target_role payload route root_id session now = record {
  task_id = task_id;
  sender_id = sender_id;
  target_role = target_role;
  payload = payload;
  route = route;
  root_id = or_else (truthy root_id) task_id;
  session = truthy session;
  status = Status.pending;
  worker_id = none;
  assigned_at = none;
  result = none;
  created_at = now;
  completed_at = none;
  done = false;
}

pub record Node : Type 0 where
  pub node_id : String
  pub role : String
  pub last_heartbeat : ℕ

-- TASK_TIMEOUT and NODE_TIMEOUT, as `set_timeouts` leaves them.
pub record Timeouts : Type 0 where
  pub task_timeout : ℕ
  pub node_timeout : ℕ

-- SESSION_AFFINITY_TTL, FINISHED_TTL, DANGLING_TTL, MAX_REPORTED_SESSIONS
abbrev pub session_affinity_ttl : ℕ
session_affinity_ttl = 900000

abbrev pub finished_ttl : ℕ
finished_ttl = 300000

abbrev pub dangling_ttl : ℕ
dangling_ttl = 1800000

abbrev pub max_reported_sessions : ℕ
max_reported_sessions = 256

-- STOP_CHAIN_SNIFF_LIMIT and MAX_ERROR_LENGTH, in bytes and characters
abbrev pub stop_chain_sniff_limit : ℕ
stop_chain_sniff_limit = 4096

abbrev pub max_error_length : ℕ
max_error_length = 8000

-- The module's globals. A queue that a `defaultdict` has not made yet reads as the empty queue.
-- Where a getter of a held poll took its id: a worker's own queue, such a queue that `_forget_worker`
-- has popped since, or the queue of a role.
pub data Source : Type 0 where
  of_worker of_popped of_role : String → Source

-- The module's tables, and `in_hand`: the ids that getters of held polls have dequeued, which are local
-- to the calls of `_queue_get_first` that wait.
pub record RelayState : Type 0 where
  pub timeouts : Timeouts
  pub nodes : Dict String Node
  pub tasks : Dict String Task
  pub pending_queues : Dict String (List String)
  pub worker_queues : Dict String (List String)
  pub affinity : Dict (String × String) (String × ℕ)
  pub in_hand : List (String × Source)

abbrev pub or_empty : Option (List String) → List String
or_empty none = []
or_empty (some q) = q

abbrev pub queue_of : String → Dict String (List String) → List String
queue_of k qs = or_empty (Dict.get k qs)

-- `await queues[k].put(id)`: an unbounded queue takes the item at once.
unfoldable pub enqueue_id : String → String → Dict String (List String) → Dict String (List String)
enqueue_id k id qs = Dict.put k (queue_of k qs ++ id ∷ []) qs

unfoldable pub empty_state : Timeouts → RelayState
empty_state t = record {
  timeouts = t;
  nodes = [];
  tasks = [];
  pending_queues = [];
  worker_queues = [];
  affinity = [];
  in_hand = [];
}
