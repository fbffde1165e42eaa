-- ===== src/Relay/Examples.antt =====
-- Small runs of the relay, src/distllm/relay.py, and the theorems at them.
use distllm.Prelude.{
  ℕ, Bool, true, false, Option, none, some, List, [], ◌∷◌, ◌++◌, ◌≡◌, refl, ◌⊎◌, inl, string_eq,
  option_eq, pair_eq,
}
use distllm.Dict
use distllm.Text
use distllm.Relay.State.{
  Bytes, Status, Task, Node, Timeouts, queue_of, RelayState, empty_state, new_task, enqueue_id,
}
use distllm.Relay.Tasks
use distllm.Relay.Queues
use distllm.Relay.Poll
use distllm.Relay.Sweep
use distllm.Relay.Api
use distllm.Relay.Step.{
  Event, registers, deregisters, submits, polls, gets_own, gets_shared, wakes, results, sweeps,
  step, IsFresh, Reach, start, next,
}
use distllm.Relay.Invariant.{Inv, Reach-Inv, step-done}
use distllm.Relay.Lifecycle.{EvolveWith}
use distllm.Relay.Refines.{Births, step-Evolve}
use distllm.Relay.Outcomes.{JudgedBy, post_result_taken, post_result-root, late_failure_wins}
use distllm.Relay.Status as Reports
use distllm.Relay.Routes.{route_param, parse_route-route_param}
use distllm.Relay.Affinity.{take_task-enqueue, register-live}

-- What a run of the relay unfolds.
program : Unit {0}
unfolding step empty_state Dict.get Dict.put Dict.delete Api.register Api.submit_task
    Api.parse_route Api.post_result Api.accept_result Api.claim_sessions Api.claim_session
    Text.split Text.nonempty Text.strip Text.lstrip Text.rstrip Text.is_space new_task enqueue_id
    Tasks.bound_to Tasks.bound_worker Tasks.to_role_queue Tasks.deliver Tasks.enqueue Tasks.bind
    Tasks.take_task Tasks.stops_chain Tasks.wrong_worker Tasks.finish_target Tasks.finish
    Queues.first_ready Poll.take_from Poll.fill Poll.serve Poll.poll_task Poll.get_own
    Poll.get_shared Poll.hand_over Poll.woken Poll.wake_poll Queues.settle Api.deregister
    Sweep.drop_node Sweep.forget_worker Sweep.for_each_task Sweep.requeue_if_held
    Sweep.requeue_queued Sweep.forget_sessions Sweep.pop_source Tasks.requeue Tasks.unbind
program = tt

abbrev defaults : Timeouts
defaults = record { task_timeout = 30000; node_timeout = 30000 }

abbrev no_dict : Bytes → Option Bool
no_dict body = none

abbrev run : List Event → RelayState → RelayState
run [] s = s
run (e ∷ es) s = run es (step no_dict e s)

abbrev submitted : List Event
submitted =
    registers "w0" "stage-0" "" 1000
    ∷ registers "w1" "stage-1" "" 1000
    ∷ submits "t0" "stage-0" "client" (1 ∷ []) "stage-1" "chat" 2000
    ∷ []

abbrev chained : List Event
chained =
    polls "stage-0" "w0" 1 3000
    ∷ results "t1" "t0" (2 ∷ []) (some "w0") false 4000
    ∷ polls "stage-1" "w1" 1 5000
    ∷ results "t2" "t1" (3 ∷ []) (some "w1") false 6000
    ∷ []

abbrev waiting : RelayState
waiting = run submitted (empty_state defaults)

abbrev answered : RelayState
answered = run chained waiting

-- The chain's end reaches the root: the sender reads the last stage's result.
chain_answer : Api.get_result "t0" 0 answered answered ≡ Api.octets (3 ∷ [])
unfolding program Api.get_result
chain_answer = refl

abbrev AllFresh : List Event → RelayState → Type 0
AllFresh [] s = Unit
AllFresh (e ∷ es) s = IsFresh e s × AllFresh es (step no_dict e s)

run-Reach :
    (es : List Event) (s : RelayState)
    → Reach no_dict defaults s
    → AllFresh es s
    → Reach no_dict defaults (run es s)
run-Reach [] s r f = r
run-Reach (e ∷ es) s r f = run-Reach es (step no_dict e s) (next e f.0 r) f.1

waiting-Reach : Reach no_dict defaults waiting
unfolding program
waiting-Reach = run-Reach submitted (empty_state defaults) start (tt, (tt, (refl, tt)))

answered-Reach : Reach no_dict defaults answered
unfolding program
answered-Reach = run-Reach chained waiting waiting-Reach (tt, (refl, (tt, (refl, tt))))

Reach-Inv_example : Inv answered
Reach-Inv_example = Reach-Inv no_dict defaults answered answered-Reach

-- A poll that waits gets a task; the session's next task goes to its worker's own queue, where a getter
-- of the next poll takes it before the worker leaves.
abbrev held : List Event
held =
    registers "w0" "stage-0" "" 1000
    ∷ polls "stage-0" "w0" 1 1500
    ∷ submits "t0" "stage-0" "client" (1 ∷ []) "" "chat" 2000
    ∷ gets_shared "stage-0"
    ∷ wakes none (some "t0") false false "stage-0" "w0" 1 2500
    ∷ results "f0" "t0" (2 ∷ []) (some "w0") false 3000
    ∷ polls "stage-0" "w0" 1 3500
    ∷ submits "t1" "stage-0" "client" (3 ∷ []) "" "chat" 4000
    ∷ gets_own "w0"
    ∷ deregisters "w0"
    ∷ []

abbrev left : RelayState
left = run held (empty_state defaults)

left-Reach : Reach no_dict defaults left
unfolding program
left-Reach =
    run-Reach held (empty_state defaults) start
      (tt, (tt, (refl, (tt, (tt, (refl, (tt, (refl, (tt, (tt, tt))))))))))

-- The poll is cancelled, as the worker is gone: its id goes back to a queue that nobody reads, and no
-- table leads to it any more.
abbrev lost : RelayState
lost = step no_dict (wakes (some "t1") none true true "stage-0" "w0" 1 4500) left

lost_id :
    (Api.get_result "t1" 0 lost lost ≡ Api.waiting Status.pending)
    × (lost.worker_queues ≡ [])
    × (queue_of "stage-0" lost.pending_queues ≡ [])
    × (lost.in_hand ≡ [])
unfolding program Api.get_result Api.answer_for
lost_id = (refl, refl, refl, refl)

abbrev root_task : Task
root_task =
    record (new_task "t0" "client" "stage-0" (1 ∷ []) ("stage-1" ∷ []) none (some "chat") 2000) {
      status = Status.completed;
      worker_id = some "w0";
      assigned_at = some 3000;
      result = some (3 ∷ []);
      completed_at = some 6000;
      done = true;
    }

step-done_example :
    (Dict.get "t0" (step no_dict (sweeps 7000 7000 7000) answered).tasks ≡ some root_task)
    ⊎ (Dict.get "t0" (step no_dict (sweeps 7000 7000 7000) answered).tasks ≡ none)
unfolding program
step-done_example =
    step-done no_dict (sweeps 7000 7000 7000) answered "t0" root_task tt Reach-Inv_example refl refl

step-Evolve_example :
    EvolveWith
      (Births (polls "stage-0" "w0" 1 3000))
      waiting.tasks
      (step no_dict (polls "stage-0" "w0" 1 3000) waiting).tasks
step-Evolve_example =
    step-Evolve no_dict (polls "stage-0" "w0" 1 3000) waiting tt
      (Reach-Inv no_dict defaults waiting waiting-Reach).keyed

abbrev two_queues : List (List ℕ)
two_queues = (1 ∷ []) ∷ (2 ∷ 3 ∷ []) ∷ []

-- The root after its first worker's result went on to the second role.
abbrev forwarded : RelayState
forwarded =
    run
      (polls "stage-0" "w0" 1 3000
        ∷ results "t1" "t0" (2 ∷ []) (some "w0") false 4000
        ∷ polls "stage-1" "w1" 1 5000
        ∷ [])
      waiting

abbrev forwarded_root : Task
forwarded_root =
    record (new_task "t0" "client" "stage-0" (1 ∷ []) ("stage-1" ∷ []) none (some "chat") 2000) {
      status = Status.forwarded;
      worker_id = some "w0";
      assigned_at = some 3000;
      completed_at = some 4000;
    }

abbrev last_task : Task
last_task = record (new_task "t1" "client" "stage-1" (2 ∷ []) [] (some "t0") (some "chat") 4000) {
  status = Status.assigned;
  worker_id = some "w1";
  assigned_at = some 5000;
}

forwarded-last : Dict.get "t1" forwarded.tasks ≡ some last_task
unfolding program
forwarded-last = refl

post_result_taken_example :
    JudgedBy "t1"
      (some "w0")
      forwarded
      (Api.post_result no_dict "t2" "t1" (3 ∷ []) (some "w0") false 6000 forwarded).0
      (Api.post_result no_dict "t2" "t1" (3 ∷ []) (some "w0") false 6000 forwarded).1
post_result_taken_example =
    post_result_taken no_dict "t2" "t1" (3 ∷ []) (some "w0") false 6000 forwarded

-- The second worker's result ends the chain.
post_result-root_example :
    ((Api.post_result no_dict "t2" "t1" (3 ∷ []) (some "w1") false 6000 forwarded).0 ≡ Api.ok)
    × (Api.answer (
          Dict.get "t0"
            (Api.post_result no_dict "t2" "t1" (3 ∷ []) (some "w1") false 6000 forwarded).1.tasks)
        ≡ Api.octets (3 ∷ []))
unfolding program
post_result-root_example =
    post_result-root no_dict "t2" "t1" (3 ∷ []) (some "w1") false 6000 forwarded last_task
      forwarded_root refl refl refl (inl refl) refl refl refl

-- The first worker's failure, checked before its result came and read after.
late_failure_wins_example :
    Api.answer (
      Dict.get "t0"
        (Api.end_failure
          (new_task "t0" "client" "stage-0" (1 ∷ []) ("stage-1" ∷ []) none (some "chat") 2000)
          "timed out"
          none
          6000
          forwarded).1.tasks)
    ≡ Api.failure (Api.error_text "timed out" none)
unfolding program
late_failure_wins_example =
    late_failure_wins
      (new_task "t0" "client" "stage-0" (1 ∷ []) ("stage-1" ∷ []) none (some "chat") 2000)
      forwarded_root "timed out" none 6000 forwarded refl refl refl

abbrev first_node : Node
first_node = record { node_id = "w0"; role = "stage-0"; last_heartbeat = 1000 }

abbrev first_chat : Task
first_chat = new_task "t0" "client" "stage-0" (1 ∷ []) ("stage-1" ∷ []) none (some "chat") 2000

abbrev next_chat : Task
next_chat = new_task "t9" "client" "stage-0" (4 ∷ []) [] none (some "chat") 7000

-- The session's worker takes its first task, and another one claims the session.
abbrev claimed : RelayState
claimed = (Api.register "w9" "stage-0" "chat" 6000 (Tasks.take_task waiting "t0" "w0" 3000).1).1

take_task-enqueue_example :
    ((Tasks.enqueue claimed next_chat).worker_queues
      ≡ Dict.put "w0" (queue_of "w0" waiting.worker_queues ++ "t9" ∷ []) waiting.worker_queues)
    × ((Tasks.enqueue claimed next_chat).pending_queues ≡ waiting.pending_queues)
unfolding program
take_task-enqueue_example =
    take_task-enqueue waiting "t0" "w0" "chat" 3000 first_chat next_chat first_node "w9" "stage-0"
      "chat" 6000 refl refl refl refl refl refl refl refl refl

register-live_example :
    Dict.get ("stage-1", "chat") (Api.register "w2" "stage-1" "chat,other" 8000 answered).1.affinity
    ≡ some ("w1", 5000)
unfolding program
register-live_example =
    register-live "w2" "stage-1" "chat,other" 8000 "stage-1" "chat" "w1" 5000 answered refl refl

parse_route-route_param_example :
    Api.parse_route (route_param ("stage-1" ∷ "stage-2" ∷ [])) ≡ "stage-1" ∷ "stage-2" ∷ []
unfolding program
parse_route-route_param_example =
    parse_route-route_param ("stage-1" ∷ "stage-2" ∷ [])
      ((refl, refl, refl), ((refl, refl, refl), tt))

status-counts_example :
    ((st : Status)
      → Reports.count_of st (Reports.status waiting).0 ≡ Reports.in_status st waiting.tasks)
    × ((Reports.role_of (Dict.get "stage-0" (Reports.status waiting).1)).pending ≡ 1)
    × ((Reports.role_of (Dict.get "stage-0" (Reports.status waiting).1)).workers ≡ 1)
unfolding program
status-counts_example = Reports.status-counts waiting "stage-0"
