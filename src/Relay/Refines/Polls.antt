-- ===== src/Relay/Refines/Polls.antt =====
-- `/poll` of src/distllm/relay.py changes the task table by moves of Relay/Lifecycle alone.
use distllm.Prelude.{
  false, arith, ℕ, zero, suc, ◌-◌, String, Bool, Option, none, some, ◌≡◌, refl, subst, sym, inl,
  inr, string_eq, Bool-cases, Option-cases, List, [], ◌∷◌,
}
use distllm.Dict
use distllm.Dict.{Dict, get-put}
use distllm.Relay.State.{is_pending, Task, RelayState}
use distllm.Relay.Tasks.{assign, take_task}
use distllm.Relay.Poll.{
  get_own, get_shared, take_from, fill, serve, poll_task, wake_poll, woken, split_queues, spend,
  prepend, queues,
}
use distllm.Relay.Queues.{first_ready}
use distllm.Relay.Lifecycle.{
  assigned, IsKeyed, Evolve, Evolve-trans, Evolve-refl, Evolve-IsKeyed, Evolve-put,
}
use distllm.Relay.Refines.Sweeps.{tasks-bind, status_of_pending}

pub take_task-Evolve :
    (s : RelayState) (id worker : String) (now : ℕ)
    → IsKeyed s.tasks
    → Evolve s.tasks (take_task s id worker now).1.tasks
unfolding take_task
take_task-Evolve s id worker now k = elim (Option-cases (Dict.get id s.tasks)) [
  | inl gone ↦ rw (gone, take_task) (Evolve-refl s.tasks)
  | inr (t, there) ↦
      rw (there, take_task)
        (elim (Bool-cases (is_pending t.status)) [
          | inl open_task ↦
              rw (open_task, tasks-bind)
                (Evolve-put s.tasks t (assign worker now t)
                  (subst (λ i. Dict.get i s.tasks ≡ some t) (sym (k id t there)) there)
                  (assigned worker now (status_of_pending t.status open_task)))
          | inr shut ↦ rw shut (Evolve-refl s.tasks)
        ])
]

state-prepend : (o : Option Task) (r : distllm.Relay.Poll.Taken) → (prepend o r).state ≡ r.state
state-prepend none r = refl
state-prepend (some t) r = refl

pub take_from-Evolve :
    (worker : String) (now room : ℕ) (ids : List String) (s : RelayState)
    → IsKeyed s.tasks
    → Evolve s.tasks (take_from worker now room ids s).state.tasks
unfolding take_from
take_from-Evolve worker now room [] s k = Evolve-refl s.tasks
take_from-Evolve worker now zero (id ∷ ids) s k = Evolve-refl s.tasks
take_from-Evolve worker now (suc room) (id ∷ ids) s k =
    let (t, s') = take_task s id worker now in
    let first : Evolve s.tasks s'.tasks = take_task-Evolve s id worker now k in
    rw (state-prepend t) (
      Evolve-trans s.tasks s'.tasks _ first (
        take_from-Evolve worker now (spend t room) ids s'
          (Evolve-IsKeyed s.tasks s'.tasks first k)))

fill-Evolve :
    (popped : Bool) (role worker : String) (max_tasks now : ℕ) (own shared : List String)
    (o : Option Task) (s : RelayState)
    → IsKeyed s.tasks
    → Evolve s.tasks (fill popped role worker max_tasks now own shared (o, s)).1.tasks
unfolding fill
fill-Evolve popped role worker max_tasks now own shared none s k = Evolve-refl s.tasks
fill-Evolve popped role worker max_tasks now own shared (some t) s k =
    let a = take_from worker now (max_tasks - 1) own s in
    let first = take_from-Evolve worker now (max_tasks - 1) own s k in
    Evolve-trans s.tasks a.state.tasks _ first (
      take_from-Evolve worker now a.room shared a.state
        (Evolve-IsKeyed s.tasks a.state.tasks first k))

serve-Evolve :
    (popped : Bool) (role worker : String) (max_tasks now : ℕ) (id : String)
    (qs : List (List String)) (s : RelayState)
    → IsKeyed s.tasks
    → Evolve s.tasks (serve popped role worker max_tasks now id qs s).1.tasks
unfolding serve
serve-Evolve popped role worker max_tasks now id qs s k =
    let (t, s') = take_task s id worker now in
    let (own, shared) = split_queues qs in
    let first : Evolve s.tasks s'.tasks = take_task-Evolve s id worker now k in
    Evolve-trans s.tasks s'.tasks _ first (
      fill-Evolve popped role worker max_tasks now own shared t s'
        (Evolve-IsKeyed s.tasks s'.tasks first k))

pub poll_task-Evolve :
    (role worker : String) (max_tasks now : ℕ) (s : RelayState)
    → IsKeyed s.tasks
    → Evolve s.tasks (poll_task role worker max_tasks now s).1.tasks
unfolding poll_task
poll_task-Evolve role worker max_tasks now s k =
    elim (Option-cases (first_ready (queues role worker s))) [
      | inl idle ↦ rw (idle, poll_task) (Evolve-refl s.tasks)
      | inr ((id, qs), found) ↦
          rw (found, poll_task) (serve-Evolve false role worker max_tasks now id qs s k)
    ]

pub woken-Evolve :
    (popped aborted : Bool) (role worker : String) (max_tasks now : ℕ) (o : Option String)
    (qs : List (List String)) (s : RelayState)
    → IsKeyed s.tasks
    → Evolve s.tasks (woken popped aborted role worker max_tasks now (o, qs) s).1.tasks
unfolding woken
woken-Evolve popped aborted role worker max_tasks now none qs s k = Evolve-refl s.tasks
woken-Evolve popped aborted role worker max_tasks now (some id) qs s k =
    serve-Evolve popped role worker max_tasks now id qs s k

pub get_own-tasks : (worker : String) (s : RelayState) → (get_own worker s).tasks ≡ s.tasks
unfolding get_own
get_own-tasks worker s = ground arith

pub get_shared-tasks : (role : String) (s : RelayState) → (get_shared role s).tasks ≡ s.tasks
unfolding get_shared
get_shared-tasks role s = ground arith
