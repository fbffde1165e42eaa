-- ===== src/Relay/Delivery/Results.antt =====
-- No pending task is lost by the endpoints of src/distllm/relay.py but `/poll`.
use distllm.Prelude.{
  ℕ, String, Bool, Option, none, some, List, [], ◌∷◌, ◌≡◌, ◌≢◌, refl, sym, subst, ap, ◌∙◌, inl, inr,
  arith, string_eq, ◌==◌, eq_of_beq, Bool-cases, Option-cases,
}
use distllm.Dict
use distllm.Dict.{Dict, get-put}
use distllm.Relay.State.{Bytes, Status, is_finished, Task, Node, RelayState}
use distllm.Relay.Tasks.{write_task, complete, finish_target, finish, stops_chain, wrong_worker}
use distllm.Relay.Api.{
  claim_session, claim_sessions, register, heartbeat, submit_task, accept_result, post_result,
  post_failure, pass_on, next_step, check_failure, end_failure, error_text,
}
use distllm.Relay.Lifecycle.{IsKeyed, Evolve-IsKeyed}
use distllm.Relay.Refines.Results.{IsEnd, root_kept, finish_target-Evolve}
use distllm.Relay.Delivery.Hands.{HeldBy-nodes}
use distllm.Relay.Delivery.Waits.{
  HasRole, Waits, Queued, SameQueues, Waits-SameQueues, Queued-put, enqueue-Queued,
}

Queued-SameQueues :
    (s s' : RelayState) → SameQueues s s' → s'.tasks ≡ s.tasks → Queued [] s → Queued [] s'
Queued-SameQueues s s' f e q id t there p =
    Waits-SameQueues [] s s' id t.target_role f (q id t (ap (Dict.get id) (sym e) ∙ there) p)

-- The role that a worker registers with is the one it has, if it is registered.
abbrev pub KeepsRole : Option Node → String → Type 0
KeepsRole none role = Unit
KeepsRole (some n) role = n.role ≡ role

put_node-HasRole :
    (k w role : String) (n : Node) (nodes : Dict String Node)
    → KeepsRole (Dict.get k nodes) n.role
    → HasRole (Dict.get w nodes) role
    → HasRole (Dict.get w (Dict.put k n nodes)) role
put_node-HasRole k w role n nodes kept live = elim (Bool-cases (k == w)) [
  | inl same ↦
      rw (get-put, same)
        (stays (Dict.get k nodes) kept
          (subst (λ i. HasRole (Dict.get i nodes) role) (sym (eq_of_beq k w same)) live))
  | inr other ↦ rw (get-put, other) live
]
  where
    stays : (o : Option Node) → KeepsRole o n.role → HasRole o role → n.role ≡ role
    stays none kept live = absurd live
    stays (some m) kept live = sym kept ∙ live

-- A registration with the same role only adds to the nodes.
put_node-Queued :
    (k : String) (n : Node) (s : RelayState)
    → KeepsRole (Dict.get k s.nodes) n.role
    → Queued [] s
    → Queued [] (record s { nodes = Dict.put k n s.nodes })
put_node-Queued k n s kept q id t there p = elim (q id t there p) [
  | inl (inl h) ↦ absurd h
  | inl (inr h) ↦ inl (
      inr (
        HeldBy-nodes s.nodes id t.target_role (Dict.put k n s.nodes) s.in_hand
          (λ w live. put_node-HasRole k w t.target_role n s.nodes kept live) h))
  | inr (inl o) ↦ inr (inl o)
  | inr (inr (w, live, o)) ↦
      inr (inr (w, put_node-HasRole k w t.target_role n s.nodes kept live, o))
]

claim_session-SameQueues :
    (node_id role : String) (now : ℕ) (x : String) (s : RelayState)
    → SameQueues s (claim_session node_id role now x s)
unfolding claim_session
claim_session-SameQueues node_id role now x s = ground arith

claim_session-tasks :
    (node_id role : String) (now : ℕ) (x : String) (s : RelayState)
    → (claim_session node_id role now x s).tasks ≡ s.tasks
unfolding claim_session
claim_session-tasks node_id role now x s = ground arith

claim_sessions-Queued :
    (node_id role : String) (now : ℕ) (l : List String) (s : RelayState)
    → Queued [] s
    → Queued [] (claim_sessions node_id role now l s)
unfolding claim_sessions
claim_sessions-Queued node_id role now [] s q = q
claim_sessions-Queued node_id role now (x ∷ l) s q =
    claim_sessions-Queued node_id role now l (claim_session node_id role now x s) (
      Queued-SameQueues s _ (claim_session-SameQueues node_id role now x s)
        (claim_session-tasks node_id role now x s) q)

pub register-Queued :
    (node_id role sessions : String) (now : ℕ) (s : RelayState)
    → KeepsRole (Dict.get node_id s.nodes) role
    → Queued [] s
    → Queued [] (register node_id role sessions now s).1
unfolding register
register-Queued node_id role sessions now s kept q =
    claim_sessions-Queued node_id role now _ _ (put_node-Queued node_id _ s kept q)

pub heartbeat-Queued :
    (node_id : String) (now : ℕ) (s : RelayState)
    → Queued [] s
    → Queued [] (heartbeat node_id now s).1
unfolding heartbeat
heartbeat-Queued node_id now s q = elim (Option-cases (Dict.get node_id s.nodes)) [
  | inl gone ↦ rw (gone, heartbeat) q
  | inr (n, there) ↦ rw (there, heartbeat) (put_node-Queued node_id _ s (rw there refl) q)
]

module _ (status : Status) (result : Bytes) (now : ℕ) (ends : status ≢ Status.pending) where
  complete-pending :
      (t : Task)
      → (complete status result now t).status ≡ Status.pending
      → t ≡ complete status result now t
  complete-pending t h = ground arith

  task_id-complete : (t : Task) → (complete status result now t).task_id ≡ t.task_id
  task_id-complete t = ground arith

  finish_target-Queued :
      (id : String) (o : Option Task) (s : RelayState)
      → IsKeyed s.tasks
      → Dict.get id s.tasks ≡ o
      → Queued [] s
      → Queued [] (finish_target status result now o s)
  unfolding finish_target
  finish_target-Queued id none s k e q = q
  finish_target-Queued id (some t) s k e q =
      let u = complete status result now t in
      Queued-put [] s (write_task u s) u refl (λ j role w. w)
        (λ h.
          subst (λ (x : Task). Waits [] (write_task u s) x.task_id x.target_role)
            (complete-pending t h)
            (subst (λ i. Waits [] (write_task u s) i t.target_role) (sym (k id t e))
              (q id t e (ap (λ (x : Task). x.status) (complete-pending t h) ∙ h))))
        q

not-pending : (x : Status) → IsEnd x → x ≢ Status.pending
not-pending x (inl e) p = cc
not-pending x (inr e) p = cc

finish-Queued :
    (status : Status) (result : Bytes) (now : ℕ) (ends : IsEnd status) (s : RelayState) (t : Task)
    → IsKeyed s.tasks
    → Queued [] s
    → Queued [] (finish s t status result now)
unfolding finish
finish-Queued status result now ends s t k q =
    let open_end = not-pending status ends in
    let own = Dict.get t.task_id s.tasks in
    let root = Dict.get t.root_id s.tasks in
    elim (Bool-cases (t.task_id == t.root_id)) [
      | inl one ↦ rw one (finish_target-Queued status result now open_end t.root_id root s k refl q)
      | inr two ↦ rw two (
          let s' = finish_target status result now own s in
          finish_target-Queued status result now open_end t.root_id root s'
            (Evolve-IsKeyed s.tasks s'.tasks
              (finish_target-Evolve status result now ends t.task_id own s k refl) k)
            (root_kept status result now ends s t.task_id t.root_id own k refl two)
            (finish_target-Queued status result now open_end t.task_id own s k refl q))
    ]

pub submit_task-Queued :
    (fresh role sender : String) (body : Bytes) (route session : String) (now : ℕ) (s : RelayState)
    → Queued [] s
    → Queued [] (submit_task fresh role sender body route session now s).1
unfolding submit_task
submit_task-Queued fresh role sender body route session now s q = enqueue-Queued s _ q

pass_on-Queued :
    (now : ℕ) (t : Task) (s : RelayState) → Queued [] s → Queued [] (write_task (pass_on now t) s)
pass_on-Queued now t s q =
    Queued-put [] s (write_task (pass_on now t) s) (pass_on now t) refl (λ id role w. w) (λ h. cc) q

module _ (unpack : Bytes → Option Bool) (fresh : String) (body : Bytes) (stop : Bool)
    (now : ℕ) where
  accept_result-Queued :
      (s : RelayState) (t : Task) (route : List String)
      → IsKeyed s.tasks
      → Dict.get t.task_id s.tasks ≡ some t
      → Queued [] s
      → Queued [] (accept_result unpack fresh body stop now s t route).1
  unfolding accept_result
  accept_result-Queued s t [] k e q = finish-Queued Status.completed body now (inl refl) s t k q
  accept_result-Queued s t (role ∷ rest) k e q = elim (Bool-cases (stops_chain unpack body stop)) [
    | inl stops ↦ rw stops (finish-Queued Status.completed body now (inl refl) s t k q)
    | inr goes ↦ rw goes (
        enqueue-Queued (write_task (pass_on now t) s) (next_step fresh t body role rest now)
          (pass_on-Queued now t s q))
  ]

  pub post_result-Queued :
      (id : String) (worker : Option String) (s : RelayState)
      → IsKeyed s.tasks
      → Queued [] s
      → Queued [] (post_result unpack fresh id body worker stop now s).1
  unfolding post_result
  post_result-Queued id worker s k q = elim (Option-cases (Dict.get id s.tasks)) [
    | inl gone ↦ rw (gone, post_result) q
    | inr (t, there) ↦
        rw (there, post_result)
          (elim (Bool-cases (is_finished t.status)) [
            | inl over ↦ rw over q
            | inr open_task ↦ rw open_task (elim (Bool-cases (wrong_worker t worker)) [
              | inl wrong ↦ rw wrong q
              | inr right ↦ rw right (
                  accept_result-Queued s t t.route k
                    (subst (λ i. Dict.get i s.tasks ≡ some t) (sym (k id t there)) there) q)
            ])
          ])
  ]

pub end_failure-Queued :
    (t : Task) (body : String) (error_msg : Option String) (now : ℕ) (s : RelayState)
    → IsKeyed s.tasks
    → Queued [] s
    → Queued [] (end_failure t body error_msg now s).1
unfolding end_failure
end_failure-Queued t body error_msg now s k q =
    finish-Queued Status.failed (error_text body error_msg) now (inr refl) s t k q

pub post_failure-Queued :
    (id body : String) (error_msg worker : Option String) (now : ℕ) (s : RelayState)
    → IsKeyed s.tasks
    → Queued [] s
    → Queued [] (post_failure id body error_msg worker now s).1
unfolding post_failure
post_failure-Queued id body error_msg worker now s k q = elim (Option-cases (Dict.get id s.tasks)) [
  | inl gone ↦ rw (gone, post_failure) q
  | inr (t, there) ↦
      rw (there, post_failure)
        (elim (Option-cases (check_failure id worker s)) [
          | inl passes ↦ rw passes (end_failure-Queued t body error_msg now s k q)
          | inr (reply, refused) ↦ rw refused q
        ])
]
