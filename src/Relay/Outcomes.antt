-- ===== src/Relay/Outcomes.antt =====
-- What senders and workers of src/distllm/relay.py are told, and what that means for the tasks.
use distllm.Prelude.{
  ℕ, String, Bool, true, false, Option, none, some, List, [], ◌∷◌, ◌≡◌, refl, sym, ap, ◌∙◌, subst,
  ◌⊎◌, inl, inr, arith, string_eq, option_eq, ◌==◌, eq_of_beq, if◌then◌else◌, Bool-cases,
  Option-cases,
}
use distllm.Dict
use distllm.Dict.{Dict, Holds, get-put}
use distllm.Relay.State.{Bytes, Status, is_finished, Task, RelayState}
use distllm.Relay.Tasks.{complete, finish_target, finish, stops_chain, wrong_worker}
use distllm.Relay.Api.{
  Reply, ok, ignored, not_found, conflict, octets, failure, accept_result, post_result, end_failure,
  error_text, answer,
}

-- A reply that takes no result.
abbrev pub Refuses : Reply → Type 0
Refuses r = (r ≡ not_found) ⊎ ((r ≡ ignored) ⊎ (r ≡ conflict))

accept_result-takes :
    (unpack : Bytes → Option Bool) (fresh : String) (body : Bytes) (stop : Bool) (now : ℕ)
    (s : RelayState) (t : Task) (route : List String)
    → ¬ Refuses (accept_result unpack fresh body stop now s t route).0
unfolding accept_result
accept_result-takes unpack fresh body stop now s t [] r = ground arith
accept_result-takes unpack fresh body stop now s t (role ∷ rest) r = ground arith

right_worker :
    (t : Task) (w : Option String)
    → wrong_worker t w ≡ false
    → (t.worker_id ≡ none) ⊎ (t.worker_id ≡ w)
unfolding wrong_worker
right_worker t w h = elim (Option-cases t.worker_id) [
  | inl free ↦ inl free
  | inr (x, owned) ↦ elim (Bool-cases (w == t.worker_id)) [
    | inl same ↦ inr (sym (eq_of_beq w t.worker_id same))
    | inr other ↦ absurd (ground arith)
  ]
]

another_worker :
    (t : Task) (w : Option String)
    → wrong_worker t w ≡ true
    → (x : String) × (t.worker_id ≡ some x) × ((w == some x) ≡ false)
unfolding wrong_worker
another_worker t w h = elim (Option-cases t.worker_id) [
  | inl free ↦ absurd (ground arith)
  | inr (x, owned) ↦ (x, owned, ap (λ o. w == o) (sym owned) ∙ ground arith)
]

-- How `/result` judges a request: its reply, and the state after it.
abbrev pub JudgedBy : String → Option String → RelayState → Reply → RelayState → Type 0
JudgedBy id worker s reply s' =
    ((Dict.get id s.tasks ≡ none) × (reply ≡ not_found) × (s' ≡ s))
    ⊎ (((t : Task) × (Dict.get id s.tasks ≡ some t)
          × (is_finished t.status ≡ true)
          × (reply ≡ ignored)
          × (s' ≡ s))
        ⊎ (((t : Task) × (Dict.get id s.tasks ≡ some t)
              × (is_finished t.status ≡ false)
              × ((x : String) × (t.worker_id ≡ some x) × ((worker == some x) ≡ false))
              × (reply ≡ conflict)
              × (s' ≡ s))
            ⊎ ((t : Task) × (Dict.get id s.tasks ≡ some t)
                × (is_finished t.status ≡ false)
                × ((t.worker_id ≡ none) ⊎ (t.worker_id ≡ worker))
                × (¬ Refuses reply))))

-- A result is answered with 404 exactly where its task is gone, is ignored exactly where the task is
-- FORWARDED, COMPLETED or FAILED, gets 409 exactly where the task is not and is assigned to a worker
-- that the request does not name, and then changes nothing; in every other case, so also where the
-- task is assigned to nobody, it is taken.
pub post_result_taken :
    (unpack : Bytes → Option Bool) (fresh id : String) (body : Bytes) (worker : Option String)
    (stop : Bool) (now : ℕ) (s : RelayState)
    → JudgedBy id worker s
        (post_result unpack fresh id body worker stop now s).0
        (post_result unpack fresh id body worker stop now s).1
unfolding post_result
post_result_taken unpack fresh id body worker stop now s =
    elim (Option-cases (Dict.get id s.tasks)) [
      | inl gone ↦ rw (gone, post_result) (inl (refl, refl, refl))
      | inr (t, there) ↦
          rw (there, post_result)
            (elim (Bool-cases (is_finished t.status)) [
              | inl over ↦ rw over (inr (inl (t, refl, over, refl, refl)))
              | inr running ↦ rw running (elim (Bool-cases (wrong_worker t worker)) [
                | inl wrong ↦
                    rw wrong (
                      inr (inr (inl (t, refl, running, another_worker t worker wrong, refl, refl))))
                | inr right ↦ rw right (
                    inr (
                      inr (
                        inr (
                          t,
                          refl,
                          running,
                          right_worker t worker right,
                          accept_result-takes unpack fresh body stop now s t t.route,
                        ))))
              ])
            ])
    ]

-- A sender whose task is done gets the same answer from then on.
finish_target-done :
    (status : Status) (result : Bytes) (now : ℕ) (t : Task) (s : RelayState)
    → t.done ≡ false
    → Dict.get t.task_id (finish_target status result now (some t) s).tasks
      ≡ some
          (record t { status = status; result = some result; completed_at = some now; done = true })
unfolding finish_target
finish_target-done status result now t s h = ground (
  arith,
  get-put t.task_id t.task_id (complete status result now t) s.tasks,
  string_eq.beq_iff t.task_id t.task_id,
)

finish-root :
    (status : Status) (result : Bytes) (now : ℕ) (s : RelayState) (t root : Task)
    → Dict.get t.root_id s.tasks ≡ some root
    → root.task_id ≡ t.root_id
    → root.done ≡ false
    → Dict.get t.root_id (finish s t status result now).tasks
      ≡ some (record root {
        status = status;
        result = some result;
        completed_at = some now;
        done = true;
      })
unfolding finish
finish-root status result now s t root e k d =
    rw (e, finish)
      (subst
        (λ i.
          Dict.get i (finish_target status result now (some root) s').tasks
          ≡ some (record root {
            status = status;
            result = some result;
            completed_at = some now;
            done = true;
          }))
        k (finish_target-done status result now root s' d))
  where
    s' : RelayState
    s' =
        if t.task_id == t.root_id
        then s
        else finish_target status result now (Dict.get t.task_id s.tasks) s

accept_result-last :
    (unpack : Bytes → Option Bool) (fresh : String) (body : Bytes) (stop : Bool) (now : ℕ)
    (s : RelayState) (t : Task) (route : List String)
    → (route ≡ []) ⊎ (stops_chain unpack body stop ≡ true)
    → accept_result unpack fresh body stop now s t route
      ≡ (ok, finish s t Status.completed body now)
unfolding accept_result
accept_result-last unpack fresh body stop now s t [] h = refl
accept_result-last unpack fresh body stop now s t (role ∷ rest) (inl e) = absurd (ground arith)
accept_result-last unpack fresh body stop now s t (role ∷ rest) (inr e) = rw e

-- The last step of a chain answers its sender: where the task `id` takes the result, and has no
-- roles left or the result stops the chain, and its root is there under its own id and not done, the
-- reply is ok and the root's sender reads this very result.
pub post_result-root :
    (unpack : Bytes → Option Bool) (fresh id : String) (body : Bytes) (worker : Option String)
    (stop : Bool) (now : ℕ) (s : RelayState) (t root : Task)
    → Dict.get id s.tasks ≡ some t
    → is_finished t.status ≡ false
    → wrong_worker t worker ≡ false
    → (t.route ≡ []) ⊎ (stops_chain unpack body stop ≡ true)
    → Dict.get t.root_id s.tasks ≡ some root
    → root.task_id ≡ t.root_id
    → root.done ≡ false
    → ((post_result unpack fresh id body worker stop now s).0 ≡ ok)
      × (answer (Dict.get t.root_id (post_result unpack fresh id body worker stop now s).1.tasks)
          ≡ octets body)
unfolding post_result answer
post_result-root unpack fresh id body worker stop now s t root there run right end e k d =
    rw
      (
        there,
        post_result,
        run,
        right,
        accept_result-last unpack fresh body stop now s t t.route end,
      )
      (refl, rw (finish-root Status.completed body now s t root e k d))

-- A failure report that was checked before it waited for its body is not checked again: whatever
-- happened to its task meanwhile, also if another worker's result went on down the chain, the
-- sender of a root that stands under its own id and is not done then reads the failure.
pub late_failure_wins :
    (t root : Task) (body : String) (error_msg : Option String) (now : ℕ) (s : RelayState)
    → Dict.get t.root_id s.tasks ≡ some root
    → root.task_id ≡ t.root_id
    → root.done ≡ false
    → answer (Dict.get t.root_id (end_failure t body error_msg now s).1.tasks)
      ≡ failure (error_text body error_msg)
unfolding end_failure answer
late_failure_wins t root body error_msg now s e k d =
    rw (finish-root Status.failed (error_text body error_msg) now s t root e k d)
