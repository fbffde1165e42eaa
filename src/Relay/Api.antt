-- ===== src/Relay/Api.antt =====
-- The HTTP handlers of src/distllm/relay.py but `/poll`. A handler runs from the moment its
-- request body is there, and takes the clock, the fresh task id and the body as arguments.
use distllm.Prelude.{
  ℕ, ltb, String, Bool, true, false, ◌&&◌, not, Option, none, some, List, [], ◌∷◌, map, ◌==◌,
  string_eq, pair_eq, if◌then◌else◌, take, is_some,
}
use distllm.Text.{split, strip, nonempty, take_chars, encode, truthy}
use distllm.Dict
use distllm.Relay.State.{
  Bytes, Status, is_finished, Task, or_else, new_task, Node, RelayState, max_reported_sessions,
  max_error_length,
}
use distllm.Relay.Tasks.{write_task, owner, enqueue, stops_chain, wrong_worker, finish}
use distllm.Relay.Sweep.{drop_node}

-- What a handler answers: the status of its JSON body, or an HTTP error.
pub data Reply : Type 0 where
  ok ignored forwarded not_found conflict : Reply
  submitted : String → Reply
  octets : Bytes → Reply
  failure : Bytes → Reply
  waiting : Status → Reply

abbrev pub alive : RelayState → Option String → Bool
alive s none = false
alive s (some worker) = is_some (Dict.get worker s.nodes)

-- a claimed session goes to the worker unless a live one has it
unfoldable pub claim_session : String → String → ℕ → String → RelayState → RelayState
claim_session node_id role now session s =
    if alive s (owner (Dict.get (role, session) s.affinity))
    then s
    else record s { affinity = Dict.put (role, session) (node_id, now) s.affinity }

unfoldable pub claim_sessions : String → String → ℕ → List String → RelayState → RelayState
claim_sessions node_id role now [] s = s
claim_sessions node_id role now (session ∷ rest) s =
    claim_sessions node_id role now rest (claim_session node_id role now session s)

unfoldable pub register : String → String → String → ℕ → RelayState → Reply × RelayState
register node_id role sessions now s =
    let node : Node = record { node_id = node_id; role = role; last_heartbeat = now } in
    (
      ok,
      claim_sessions node_id role now (take max_reported_sessions (nonempty (split b',' sessions)))
          (record s { nodes = Dict.put node_id node s.nodes }),
    )

unfoldable pub deregister : String → RelayState → Reply × RelayState
deregister node_id s = (ok, drop_node s node_id)

unfoldable pub heartbeat : String → ℕ → RelayState → Reply × RelayState
heartbeat node_id now s = elim (Dict.get node_id s.nodes) [
  | none ↦ (not_found, s)
  | some node ↦
      (ok, record s { nodes = Dict.put node_id (record node { last_heartbeat = now }) s.nodes })
]

unfoldable pub parse_route : String → List String
parse_route route = nonempty (map strip (split b',' route))

unfoldable pub submit_task :
    String → String → String → Bytes → String → String → ℕ → RelayState → Reply × RelayState
submit_task task_id target_role sender_id body route session now s = (
  submitted task_id,
  enqueue s
      (new_task task_id sender_id target_role body (parse_route route) none (some session) now),
)

-- a FORWARDED task; an intermediate step is done, the root of a chain waits for its end
abbrev pub pass_on : ℕ → Task → Task
pass_on now t = record t {
  status = Status.forwarded;
  completed_at = some now;
  done = if t.task_id == t.root_id then t.done else true;
}

-- the task of the next step of a chain
abbrev pub next_step : String → Task → Bytes → String → List String → ℕ → Task
next_step fresh t body role route now =
    new_task fresh t.sender_id role body route (some t.root_id) t.session now

-- the end of `post_result`, for a task that takes this result; the last argument is its route
unfoldable pub accept_result :
    (Bytes → Option Bool)
    → String
    → Bytes
    → Bool
    → ℕ
    → RelayState
    → Task
    → List String
    → Reply × RelayState
accept_result unpack fresh body stop_chain now s t [] = (ok, finish s t Status.completed body now)
accept_result unpack fresh body stop_chain now s t (role ∷ rest) =
    if stops_chain unpack body stop_chain
    then (ok, finish s t Status.completed body now)
    else (forwarded, enqueue (write_task (pass_on now t) s) (next_step fresh t body role rest now))

unfoldable pub post_result :
    (Bytes → Option Bool)
    → String
    → String
    → Bytes
    → Option String
    → Bool
    → ℕ
    → RelayState
    → Reply × RelayState
post_result unpack fresh task_id body worker_id stop_chain now s = elim (Dict.get task_id s.tasks) [
  | none ↦ (not_found, s)
  | some t ↦
      if is_finished t.status
      then (ignored, s)
      else if wrong_worker t worker_id
      then (conflict, s)
      else accept_result unpack fresh body stop_chain now s t t.route
]

-- `(body or error_msg or "unknown error")[:MAX_ERROR_LENGTH].encode()`; `body` is decoded text.
unfoldable pub error_text : String → Option String → Bytes
error_text body error_msg = encode (
    take_chars max_error_length
      (if body == "" then or_else (truthy error_msg) "unknown error" else body))

-- `/fail` checks before it waits for its body: `none` where it goes on to wait.
unfoldable pub check_failure : String → Option String → RelayState → Option Reply
check_failure task_id worker_id s = elim (Dict.get task_id s.tasks) [
  | none ↦ some not_found
  | some t ↦
      if is_finished t.status
      then some ignored
      else if wrong_worker t worker_id
      then some conflict
      else none
]

-- The end of `/fail`, when the body is there; `t` is the task that was checked.
unfoldable pub end_failure : Task → String → Option String → ℕ → RelayState → Reply × RelayState
end_failure t body error_msg now s = (ok, finish s t Status.failed (error_text body error_msg) now)

-- `/fail` whose body is there at once
unfoldable pub post_failure :
    String → String → Option String → Option String → ℕ → RelayState → Reply × RelayState
unfolding end_failure
post_failure task_id body error_msg worker_id now s = elim (Dict.get task_id s.tasks) [
  | none ↦ (not_found, s)
  | some t ↦ elim (check_failure task_id worker_id s) [
    | some reply ↦ (reply, s)
    | none ↦ end_failure t body error_msg now s
  ]
]

abbrev bytes_or_empty : Option Bytes → Bytes
bytes_or_empty none = []
bytes_or_empty (some b) = b

unfoldable pub answer_for : Status → Option Bytes → Reply
answer_for Status.completed result = octets (bytes_or_empty result)
answer_for Status.failed result = failure (bytes_or_empty result)
answer_for Status.pending result = waiting Status.pending
answer_for Status.assigned result = waiting Status.assigned
answer_for Status.forwarded result = waiting Status.forwarded

unfoldable pub answer : Option Task → Reply
unfolding answer_for
answer none = not_found
answer (some t) = answer_for t.status t.result

-- `/get_result`: a request that waits looks its task up again in the state at the end of the wait.
unfoldable pub get_result : String → ℕ → RelayState → RelayState → Reply
unfolding answer
get_result task_id wait s later = elim (Dict.get task_id s.tasks) [
  | none ↦ not_found
  | some t ↦
      if ltb 0 wait && not t.done then answer (Dict.get task_id later.tasks) else answer (some t)
]
