-- ===== src/Relay/Refines/Results.antt =====
-- `/submit`, `/result` and `/fail` of src/distllm/relay.py change the task table by moves of
-- Relay/Lifecycle alone.
use distllm.Prelude.{
  ℕ, String, Bool, true, false, Option, none, some, ◌≡◌, refl, subst, ◌∙◌, sym, inl, inr, arith,
  string_eq, Bool-cases, Option-cases, List, [], ◌∷◌, ◌==◌, eq_of_beq, ◌⊎◌, if◌then◌else◌,
}
use distllm.Dict
use distllm.Dict.{Dict, get-put}
use distllm.Relay.State.{Bytes, Status, is_finished, Task, RelayState, new_task}
use distllm.Relay.Tasks.{
  write_task, enqueue, complete, finish_target, finish, stops_chain, wrong_worker,
}
use distllm.Relay.Api.{
  claim_session, claim_sessions, submit_task, accept_result, post_result, post_failure, pass_on,
  next_step, check_failure, end_failure, error_text, parse_route,
}
use distllm.Relay.Lifecycle.{
  Move, completed, failed, passed, IsNew, IsKeyed, Evolve, EvolveWith, Evolve-weaken, Evolve-trans,
  Evolve-refl, Evolve-IsKeyed, Evolve-put, Evolve-put_same, Evolve-put_new, Table,
}
use distllm.Relay.Refines.Sweeps.{tasks-enqueue}

-- The two statuses that `_finish` is called with.
abbrev pub IsEnd : Status → Type 0
IsEnd x = (x ≡ Status.completed) ⊎ (x ≡ Status.failed)

finished-Move :
    (status : Status) (result : Bytes) (now : ℕ) (t : Task)
    → IsEnd status
    → t.done ≡ false
    → Move t
        (record t { status = status; result = some result; completed_at = some now; done = true })
finished-Move status result now t (inl e) h =
    subst
      (λ x.
        Move t
          (record t { status = x; result = some result; completed_at = some now; done = true }))
      (sym e) (completed result now h)
finished-Move status result now t (inr e) h =
    subst
      (λ x.
        Move t
          (record t { status = x; result = some result; completed_at = some now; done = true }))
      (sym e) (failed result now h)

module _ (status : Status) (result : Bytes) (now : ℕ) (ends : IsEnd status) where
  put_complete-Evolve :
      (m : Table) (t : Task) (b : Bool)
      → t.done ≡ b
      → Dict.get t.task_id m ≡ some t
      → Evolve m (
          Dict.put t.task_id
            (if b then t else record t {
              status = status;
              result = some result;
              completed_at = some now;
              done = true;
            })
            m)
  put_complete-Evolve m t true d e = Evolve-put_same m t e
  put_complete-Evolve m t false d e =
      Evolve-put m t
        (record t { status = status; result = some result; completed_at = some now; done = true }) e
        (finished-Move status result now t ends d)

  task_id-complete : (t : Task) → t.task_id ≡ (complete status result now t).task_id
  task_id-complete t = ground arith

  pub root_kept :
      (s : RelayState) (id root : String) (o : Option Task)
      → IsKeyed s.tasks
      → Dict.get id s.tasks ≡ o
      → (id == root) ≡ false
      → Dict.get root (finish_target status result now o s).tasks ≡ Dict.get root s.tasks
  unfolding finish_target
  root_kept s id root none k e two = refl
  root_kept s id root (some t) k e two =
      subst
        (λ i.
          Dict.get root (Dict.put i (complete status result now t) s.tasks) ≡ Dict.get root s.tasks)
        (sym (k id t e) ∙ task_id-complete t) (rw (get-put, two))

  pub finish_target-Evolve :
      (id : String) (o : Option Task) (s : RelayState)
      → IsKeyed s.tasks
      → Dict.get id s.tasks ≡ o
      → Evolve s.tasks (finish_target status result now o s).tasks
  unfolding finish_target
  finish_target-Evolve id none s k e = Evolve-refl s.tasks
  finish_target-Evolve id (some t) s k e =
      subst (λ i. Evolve s.tasks (Dict.put i (complete status result now t) s.tasks))
        (task_id-complete t)
        (put_complete-Evolve s.tasks t t.done refl
          (subst (λ i. Dict.get i s.tasks ≡ some t) (sym (k id t e)) e))

  pub finish-Evolve :
      (s : RelayState) (t : Task)
      → IsKeyed s.tasks
      → Evolve s.tasks (finish s t status result now).tasks
  unfolding finish
  finish-Evolve s t k =
      let own = Dict.get t.task_id s.tasks in
      let root = Dict.get t.root_id s.tasks in
      elim (Bool-cases (t.task_id == t.root_id)) [
        | inl one ↦ rw one (finish_target-Evolve t.root_id root s k refl)
        | inr two ↦ rw two (
            let s' = finish_target status result now own s in
            let first = finish_target-Evolve t.task_id own s k refl in
            Evolve-trans s.tasks s'.tasks _ first (
              finish_target-Evolve t.root_id root s' (Evolve-IsKeyed s.tasks s'.tasks first k)
                (root_kept s t.task_id t.root_id own k refl two)))
      ]

enqueue-Evolve :
    (s : RelayState) (t : Task)
    → Dict.get t.task_id s.tasks ≡ none
    → IsNew t.task_id t
    → EvolveWith (λ id. t.task_id ≡ id) s.tasks (enqueue s t).tasks
enqueue-Evolve s t e n = rw tasks-enqueue (Evolve-put_new _ s.tasks t refl e n)

pub submit_task-Evolve :
    (fresh role sender : String) (body : Bytes) (route session : String) (now : ℕ) (s : RelayState)
    → Dict.get fresh s.tasks ≡ none
    → EvolveWith
        (λ id. fresh ≡ id)
        s.tasks
        (submit_task fresh role sender body route session now s).1.tasks
unfolding submit_task new_task
submit_task-Evolve fresh role sender body route session now s e =
    enqueue-Evolve s (new_task fresh sender role body (parse_route route) none (some session) now) e
      (record { named = refl; pending = refl; unowned = refl; not_done = refl; no_result = refl })

-- A task that is not finished under another id than a fresh one.
fresh_other :
    (m : Table) (fresh : String) (t u : Task)
    → Dict.get t.task_id m ≡ some t
    → Dict.get fresh m ≡ none
    → Dict.get fresh (Dict.put t.task_id u m) ≡ none
fresh_other m fresh t u e f = rw get-put (elim (Bool-cases (t.task_id == fresh)) [
  | inl same ↦ absurd (clash (subst (λ i. Dict.get i m ≡ some t) (eq_of_beq _ _ same) e))
  | inr other ↦ rw other f
])
  where
    clash : Dict.get fresh m ≡ some t → ⊥
    clash g = cc

module _ (unpack : Bytes → Option Bool) (fresh : String) (body : Bytes) (stop : Bool)
    (now : ℕ) where
  accept_result-Evolve :
      (s : RelayState) (t : Task) (route : List String)
      → IsKeyed s.tasks
      → Dict.get t.task_id s.tasks ≡ some t
      → Dict.get fresh s.tasks ≡ none
      → is_finished t.status ≡ false
      → EvolveWith
          (λ id. fresh ≡ id)
          s.tasks
          (accept_result unpack fresh body stop now s t route).1.tasks
  unfolding accept_result new_task
  accept_result-Evolve s t [] k e f h =
      Evolve-weaken _ s.tasks _ (finish-Evolve Status.completed body now (inl refl) s t k)
  accept_result-Evolve s t (role ∷ rest) k e f h =
      elim (Bool-cases (stops_chain unpack body stop)) [
        | inl stops ↦
            rw stops
              (Evolve-weaken _ s.tasks _ (finish-Evolve Status.completed body now (inl refl) s t k))
        | inr goes ↦ rw goes (
            Evolve-trans s.tasks (Dict.put t.task_id (pass_on now t) s.tasks) _
              (Evolve-weaken _ s.tasks (Dict.put t.task_id (pass_on now t) s.tasks)
                (Evolve-put s.tasks t (pass_on now t) e (passed now h)))
              (enqueue-Evolve (write_task (pass_on now t) s) (next_step fresh t body role rest now)
                (fresh_other s.tasks fresh t (pass_on now t) e f)
                (record {
                  named = refl;
                  pending = refl;
                  unowned = refl;
                  not_done = refl;
                  no_result = refl;
                })))
      ]

  pub post_result-Evolve :
      (id : String) (worker : Option String) (s : RelayState)
      → IsKeyed s.tasks
      → Dict.get fresh s.tasks ≡ none
      → EvolveWith
          (λ id. fresh ≡ id)
          s.tasks
          (post_result unpack fresh id body worker stop now s).1.tasks
  unfolding post_result
  post_result-Evolve id worker s k f = elim (Option-cases (Dict.get id s.tasks)) [
    | inl gone ↦ rw (gone, post_result) (Evolve-weaken _ s.tasks s.tasks (Evolve-refl s.tasks))
    | inr (t, there) ↦
        rw (there, post_result)
          (elim (Bool-cases (is_finished t.status)) [
            | inl over ↦ rw over (Evolve-weaken _ s.tasks s.tasks (Evolve-refl s.tasks))
            | inr open_task ↦ rw open_task (elim (Bool-cases (wrong_worker t worker)) [
              | inl wrong ↦ rw wrong (Evolve-weaken _ s.tasks s.tasks (Evolve-refl s.tasks))
              | inr right ↦ rw right (
                  accept_result-Evolve s t t.route k
                    (subst (λ i. Dict.get i s.tasks ≡ some t) (sym (k id t there)) there) f
                    open_task)
            ])
          ])
  ]

pub end_failure-Evolve :
    (t : Task) (body : String) (error_msg : Option String) (now : ℕ) (s : RelayState)
    → IsKeyed s.tasks
    → Evolve s.tasks (end_failure t body error_msg now s).1.tasks
unfolding end_failure
end_failure-Evolve t body error_msg now s k =
    finish-Evolve Status.failed (error_text body error_msg) now (inr refl) s t k

pub post_failure-Evolve :
    (id body : String) (error_msg worker : Option String) (now : ℕ) (s : RelayState)
    → IsKeyed s.tasks
    → Evolve s.tasks (post_failure id body error_msg worker now s).1.tasks
unfolding post_failure
post_failure-Evolve id body error_msg worker now s k = elim (Option-cases (Dict.get id s.tasks)) [
  | inl gone ↦ rw (gone, post_failure) (Evolve-refl s.tasks)
  | inr (t, there) ↦
      rw (there, post_failure)
        (elim (Option-cases (check_failure id worker s)) [
          | inl passes ↦ rw passes (end_failure-Evolve t body error_msg now s k)
          | inr (reply, refused) ↦ rw refused (Evolve-refl s.tasks)
        ])
]

pub tasks-claim_sessions :
    (node_id role : String) (now : ℕ) (l : List String) (s : RelayState)
    → (claim_sessions node_id role now l s).tasks ≡ s.tasks
unfolding claim_sessions claim_session
tasks-claim_sessions node_id role now [] s = refl
tasks-claim_sessions node_id role now (x ∷ l) s =
    tasks-claim_sessions node_id role now l (claim_session node_id role now x s) ∙ ground arith
