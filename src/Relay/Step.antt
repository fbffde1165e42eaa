-- ===== src/Relay/Step.antt =====
-- What can happen to the relay of src/distllm/relay.py: one event is one stretch of code that the
-- event loop runs without a switch. A client or worker may send any request at any time.
use distllm.Prelude.{ℕ, String, Bool, Option, none, ◌≡◌, string_eq}
use distllm.Dict
use distllm.Relay.State.{Bytes, Task, Timeouts, RelayState, empty_state}
use distllm.Relay.Sweep.{janitor}
use distllm.Relay.Poll.{poll_task, get_own, get_shared, wake_poll}
use distllm.Relay.Api.{
  register, deregister, heartbeat, submit_task, post_result, post_failure, end_failure,
}

-- `gets_own` and `gets_shared` are getters of held polls, `wakes` is the end of such a poll.
-- `late_failures` is the end of a `/fail` request whose body came after a switch, at any time.
pub data Event : Type 0 where
  registers : (node_id role sessions : String) (now : ℕ) → Event
  deregisters : (node_id : String) → Event
  heartbeats : (node_id : String) (now : ℕ) → Event
  submits :
      (fresh target_role sender_id : String) (body : Bytes) (route session : String) (now : ℕ)
      → Event
  polls : (role worker : String) (max_tasks now : ℕ) → Event
  gets_own : (worker : String) → Event
  gets_shared : (role : String) → Event
  wakes :
      (got_own got_shared : Option String) (popped aborted : Bool) (role worker : String)
      (max_tasks now : ℕ)
      → Event
  results :
      (fresh task_id : String) (body : Bytes) (worker_id : Option String) (stop_chain : Bool)
      (now : ℕ)
      → Event
  fails : (task_id body : String) (error_msg worker_id : Option String) (now : ℕ) → Event
  late_failures : (t : Task) (body : String) (error_msg : Option String) (now : ℕ) → Event
  sweeps : (now now_stuck now_old : ℕ) → Event

unfoldable pub step : (Bytes → Option Bool) → Event → RelayState → RelayState
step unpack (registers node_id role sessions now) s = (register node_id role sessions now s).1
step unpack (deregisters node_id) s = (deregister node_id s).1
step unpack (heartbeats node_id now) s = (heartbeat node_id now s).1
step unpack (submits fresh target_role sender_id body route session now) s =
    (submit_task fresh target_role sender_id body route session now s).1
step unpack (polls role worker max_tasks now) s = (poll_task role worker max_tasks now s).1
step unpack (gets_own worker) s = get_own worker s
step unpack (gets_shared role) s = get_shared role s
step unpack (wakes got_own got_shared popped aborted role worker max_tasks now) s =
    (wake_poll got_own got_shared popped aborted role worker max_tasks now s).1
step unpack (results fresh task_id body worker_id stop_chain now) s =
    (post_result unpack fresh task_id body worker_id stop_chain now s).1
step unpack (fails task_id body error_msg worker_id now) s =
    (post_failure task_id body error_msg worker_id now s).1
step unpack (late_failures t body error_msg now) s = (end_failure t body error_msg now s).1
step unpack (sweeps now now_stuck now_old) s = janitor now now_stuck now_old s

-- `uuid.uuid4()` gives an id that no task has.
abbrev pub IsFresh : Event → RelayState → Type 0
IsFresh (submits fresh _ _ _ _ _ _) s = Dict.get fresh s.tasks ≡ none
IsFresh (results fresh _ _ _ _ _) s = Dict.get fresh s.tasks ≡ none
IsFresh _ s = Unit

-- The states that a relay can come to after its start.
pub data Reach (unpack : Bytes → Option Bool) (t : Timeouts) : RelayState → Type 0 where
  start : Reach unpack t (empty_state t)
  next :
      {s : RelayState} (e : Event)
      → IsFresh e s
      → Reach unpack t s
      → Reach unpack t (step unpack e s)
