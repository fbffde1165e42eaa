-- ===== src/Relay/Refines.antt =====
-- Every event of the relay, src/distllm/relay.py, changes the task table by moves of
-- Relay/Lifecycle alone.
pub mod Sweeps
pub mod Polls
pub mod Results
use distllm.Prelude.{
  ℕ, String, Bool, not, Option, none, some, List, [], ◌∷◌, ◌≡◌, refl, inl, inr, Option-cases,
  string_eq,
}
use distllm.Dict
use distllm.Relay.State.{Bytes, RelayState, of_role, queue_of}
use distllm.Relay.Sweep.{janitor}
use distllm.Relay.Poll.{wake_poll, hand_over_if, own_queue, own_source}
use distllm.Relay.Queues.{settle}
use distllm.Relay.Api.{register, deregister, heartbeat}
use distllm.Relay.Step.{
  Event, registers, deregisters, heartbeats, submits, polls, gets_own, gets_shared, wakes, results,
  fails, late_failures, sweeps, step, IsFresh,
}
use distllm.Relay.Lifecycle.{IsKeyed, Evolve, EvolveWith, Evolve-refl}
use Sweeps.{drop_node-Evolve, janitor-Evolve}
use Polls.{poll_task-Evolve, woken-Evolve, get_own-tasks, get_shared-tasks}
use Results.{
  submit_task-Evolve, post_result-Evolve, post_failure-Evolve, end_failure-Evolve,
  tasks-claim_sessions,
}

heartbeat-Evolve :
    (node_id : String) (now : ℕ) (s : RelayState) → Evolve s.tasks (heartbeat node_id now s).1.tasks
unfolding heartbeat
heartbeat-Evolve node_id now s = elim (Option-cases (Dict.get node_id s.nodes)) [
  | inl gone ↦ rw (gone, heartbeat) (Evolve-refl s.tasks)
  | inr (n, there) ↦ rw (there, heartbeat) (Evolve-refl s.tasks)
]

-- The id that an event may give to a new task.
abbrev pub Births : Event → String → Type 0
Births (submits fresh _ _ _ _ _ _) id = fresh ≡ id
Births (results fresh _ _ _ _ _) id = fresh ≡ id
Births _ id = ⊥

-- Where every task stands under its id, whatever the event, if it gives no new task an id in use: what
-- becomes of each entry of the task table is a run of the task life cycle.
pub step-Evolve :
    (unpack : Bytes → Option Bool) (e : Event) (s : RelayState)
    → IsFresh e s
    → IsKeyed s.tasks
    → EvolveWith (Births e) s.tasks (step unpack e s).tasks
unfolding step register deregister wake_poll
step-Evolve unpack (registers node_id role sessions now) s f k =
    rw tasks-claim_sessions (Evolve-refl s.tasks)
step-Evolve unpack (deregisters node_id) s f k = drop_node-Evolve s node_id k
step-Evolve unpack (heartbeats node_id now) s f k = heartbeat-Evolve node_id now s
step-Evolve unpack (submits fresh role sender body route session now) s f k =
    submit_task-Evolve fresh role sender body route session now s f
step-Evolve unpack (polls role worker max_tasks now) s f k =
    poll_task-Evolve role worker max_tasks now s k
step-Evolve unpack (gets_own worker) s f k = rw get_own-tasks (Evolve-refl s.tasks)
step-Evolve unpack (gets_shared role) s f k = rw get_shared-tasks (Evolve-refl s.tasks)
step-Evolve unpack (wakes got_own got_shared popped aborted role worker max_tasks now) s f k =
    let (a, hand) = hand_over_if got_own (own_source popped worker) s.in_hand in
    let (b, hand') = hand_over_if got_shared (of_role role) hand in
    let (o, qs) =
      settle (not aborted)
        ((a, own_queue popped worker s) ∷ (b, queue_of role s.pending_queues) ∷ []) in
    woken-Evolve popped aborted role worker max_tasks now o qs (record s { in_hand = hand' }) k
step-Evolve unpack (results fresh id body worker stop now) s f k =
    post_result-Evolve unpack fresh body stop now id worker s k f
step-Evolve unpack (fails id body error_msg worker now) s f k =
    post_failure-Evolve id body error_msg worker now s k
step-Evolve unpack (late_failures t body error_msg now) s f k =
    end_failure-Evolve t body error_msg now s k
step-Evolve unpack (sweeps now now_stuck now_old) s f k = janitor-Evolve now now_stuck now_old s k
