-- ===== src/Relay/Delivery/Polls.antt =====
-- No pending task is lost by `/poll` of src/distllm/relay.py: what it dequeues it assigns, unless
-- that was not pending any more.
use distllm.Prelude.{
  ℕ, ◌-◌, String, Bool, true, false, arith, Option, none, some, List, [], ◌≡◌, refl, sym, subst,
  inl, inr, string_eq, ◌==◌, eq_of_beq, Bool-cases, Option-cases, Occurs, ◌⊎◌, some_inj,
}
use distllm.Dict
use distllm.Dict.{Dict, get-put}
use distllm.Relay.State.{Status, Task, RelayState, queue_of}
use distllm.Relay.Tasks.{take_task}
use distllm.Relay.Poll.{
  own_queue, take_from, fill, serve, poll_task, woken, split_queues, queues, store_queues,
}
use distllm.Relay.Queues.{first_ready}
use distllm.Relay.Lifecycle.{IsKeyed, Evolve-IsKeyed}
use distllm.Relay.Refines.Polls.{take_task-Evolve, take_from-Evolve}
use distllm.Relay.Delivery.Takes.{
  Fewer, Closed, take_from-Takes, take_task_effect, take_task-SameQueues,
}
use distllm.Relay.Delivery.Waits.{Waits, Queued, SameQueues, queue_of-put}
use distllm.Relay.Delivery.Losses.{first_ready-Loses}

stays_in :
    (id j : String) (u : Task) (s : RelayState) (q : List String)
    → Closed id s.tasks
    → Dict.get j s.tasks ≡ some u
    → u.status ≡ Status.pending
    → (some id ≡ some j) ⊎ Occurs j q
    → Occurs j q
stays_in id j u s q c e p (inl same) =
    absurd (c u (subst (λ i. Dict.get i s.tasks ≡ some u) (sym (some_inj same)) e) p)
stays_in id j u s q c e p (inr o) = o

-- What stays of a queue, with the id that a poll is served.
abbrev pub Stays : Option String → List String → List String → String → Type 0
Stays o q q' id = Occurs id q → (o ≡ some id) ⊎ Occurs id q'

module _ (popped : Bool) (role worker : String) where
  -- Where an id waits, with the two queues of the poll taken out to `mine` and `all`.
  abbrev pub Beside : List String → List String → RelayState → String → String → Type 0
  Beside mine all s id target = Waits [] (store_queues popped role worker mine all s) id target

  pub Beside-Stays :
      (o : Option String) (s s' : RelayState) (mine all mine' all' : List String)
      (id target : String)
      → SameQueues s s'
      → Stays o mine mine' id
      → Stays o all all' id
      → Beside mine all s id target
      → (o ≡ some id) ⊎ Beside mine' all' s' id target
  Beside-Stays o s s' mine all mine' all' id target f m a (inl (inl h)) = absurd h
  Beside-Stays o s s' mine all mine' all' id target f m a (inl (inr h)) =
      inr (inl (inr (rw (f.hands, f.nodes) h)))
  Beside-Stays o s s' mine all mine' all' id target f m a (inr (inl i)) =
      elim (Bool-cases (role == target)) [
        | inl same ↦ elim (a (rw (queue_of-put, same) at i)) [
          | inl e ↦ inl e
          | inr i' ↦ inr (inr (inl (rw (queue_of-put, same) i')))
        ]
        | inr other ↦
            inr (inr (inl (rw (queue_of-put, other, f.pending) (rw (queue_of-put, other) at i))))
      ]
  Beside-Stays o s s' mine all mine' all' id target f m a (inr (inr (w, live, i))) =
      elim (Bool-cases popped) [
        | inl p ↦ inr (inr (inr (w, rw (f.nodes) live, rw (p, f.workers) (rw p at i))))
        | inr p ↦ elim (Bool-cases (worker == w)) [
          | inl same ↦ elim (m (rw (p, queue_of-put, same) at i)) [
            | inl e ↦ inl e
            | inr i' ↦ inr (inr (inr (w, rw (f.nodes) live, rw (p, queue_of-put, same) i')))
          ]
          | inr other ↦ inr (
              inr (
                inr (
                  w,
                  rw (f.nodes) live,
                  rw (p, queue_of-put, other, f.workers) (rw (p, queue_of-put, other) at i),
                )))
        ]
      ]

  -- Every pending task is the one that is served or waits beside the poll's queues.
  abbrev pub Aside : Option String → List String → List String → RelayState → Type 0
  Aside o mine all s =
      (id : String) (t : Task)
      → Dict.get id s.tasks ≡ some t
      → t.status ≡ Status.pending
      → (o ≡ some id) ⊎ Beside mine all s id t.target_role

  no_more :
      (mine all : List String) (s : RelayState)
      → Aside none mine all s
      → Queued [] (store_queues popped role worker mine all s)
  no_more mine all s a id t e p = elim (a id t e p) [
    | inl h ↦ absurd (ground (arith, h))
    | inr w ↦ w
  ]

  Aside-shrink :
      (s s' : RelayState) (mine all mine' all' : List String)
      → Fewer s.tasks s'.tasks
      → SameQueues s s'
      → ((id : String) (t : Task)
          → Dict.get id s'.tasks ≡ some t
          → t.status ≡ Status.pending
          → (Occurs id mine → Occurs id mine') × (Occurs id all → Occurs id all'))
      → Aside none mine all s
      → Aside none mine' all' s'
  Aside-shrink s s' mine all mine' all' f q kept a id t e p = elim (a id t (f id t e p) p) [
    | inl h ↦ inl h
    | inr w ↦
        Beside-Stays none s s' mine all mine' all' id t.target_role q
          (λ o. inr ((kept id t e p).0 o)) (λ o. inr ((kept id t e p).1 o)) w
  ]

  -- The id that is served is not pending any more.
  Aside-served :
      (id : String) (s s' : RelayState) (mine all : List String)
      → Fewer s.tasks s'.tasks
      → Closed id s'.tasks
      → SameQueues s s'
      → Aside (some id) mine all s
      → Aside none mine all s'
  Aside-served id s s' mine all f c q a j t e p = elim (a j t (f j t e p) p) [
    | inl h ↦ absurd (c t (subst (λ i. Dict.get i s'.tasks ≡ some t) (sym (some_inj h)) e) p)
    | inr w ↦ Beside-Stays none s s' mine all mine all j t.target_role q (λ o. inr o) (λ o. inr o) w
  ]

  module _ (max_tasks now : ℕ) where
    fill-Queued :
        (mine all : List String) (o : Option Task) (s : RelayState)
        → IsKeyed s.tasks
        → Aside none mine all s
        → Queued [] (fill popped role worker max_tasks now mine all (o, s)).1
    unfolding fill
    fill-Queued mine all none s k a = no_more mine all s a
    fill-Queued mine all (some t) s k a =
        let x = take_from worker now (max_tasks - 1) mine s in
        let hx = take_from-Takes worker now (max_tasks - 1) mine s k in
        let kx : IsKeyed x.state.tasks =
          Evolve-IsKeyed s.tasks x.state.tasks
            (take_from-Evolve worker now (max_tasks - 1) mine s k) k in
        let y = take_from worker now x.room all x.state in
        let hy = take_from-Takes worker now x.room all x.state kx in
        no_more x.left y.left y.state (
          Aside-shrink x.state y.state x.left all x.left y.left hy.fewer hy.frame
            (λ id t e p. ((λ o. o), hy.kept id t e p))
            (Aside-shrink s x.state mine all x.left all hx.fewer hx.frame
              (λ id t e p. (hx.kept id t e p, (λ o. o))) a))

    -- `id` was dequeued; the rest of the two queues is in `qs`.
    serve-Queued :
        (id : String) (qs : List (List String)) (s : RelayState)
        → IsKeyed s.tasks
        → Aside (some id) (split_queues qs).0 (split_queues qs).1 s
        → Queued [] (serve popped role worker max_tasks now id qs s).1
    unfolding serve
    serve-Queued id qs s k a =
        let (t, s1) = take_task s id worker now in
        let (mine, all) = split_queues qs in
        let (fewer, closed) = take_task_effect s id worker now k in
        let k1 : IsKeyed s1.tasks =
          Evolve-IsKeyed s.tasks s1.tasks (take_task-Evolve s id worker now k) k in
        fill-Queued mine all t s1 k1
          (Aside-served id s s1 mine all fewer closed (take_task-SameQueues s id worker now) a)

    pub woken-Queued :
        (aborted : Bool) (o : Option String) (qs : List (List String)) (s : RelayState)
        → IsKeyed s.tasks
        → Aside o (split_queues qs).0 (split_queues qs).1 s
        → Queued [] (woken popped aborted role worker max_tasks now (o, qs) s).1
    unfolding woken
    woken-Queued aborted none qs s k a = no_more (split_queues qs).0 (split_queues qs).1 s a
    woken-Queued aborted (some id) qs s k a = serve-Queued id qs s k a

module _ (role worker : String) (max_tasks now : ℕ) where
  put_back :
      (k j id : String) (qs : Dict String (List String))
      → Occurs id (queue_of j qs)
      → Occurs id (queue_of j (Dict.put k (queue_of k qs) qs))
  put_back k j id qs o = elim (Bool-cases (k == j)) [
    | inl same ↦
        rw (queue_of-put, same)
          (subst (λ i. Occurs id (queue_of i qs)) (sym (eq_of_beq k j same)) o)
    | inr other ↦ rw (queue_of-put, other) o
  ]

  -- Before a poll, its queues are as they stand in the state.
  pub Beside-Waits :
      (popped : Bool) (s : RelayState) (id target : String)
      → Waits [] s id target
      → Waits []
          (store_queues popped role worker
            (own_queue popped worker s)
            (queue_of role s.pending_queues)
            s)
          id
          target
  Beside-Waits popped s id target (inl h) = inl h
  Beside-Waits popped s id target (inr (inl o)) =
      inr (inl (put_back role target id s.pending_queues o))
  Beside-Waits true s id target (inr (inr (w, live, o))) = inr (inr (w, live, o))
  Beside-Waits false s id target (inr (inr (w, live, o))) =
      inr (inr (w, live, put_back worker w id s.worker_queues o))

  pub poll_task-Queued :
      (s : RelayState)
      → IsKeyed s.tasks
      → Queued [] s
      → Queued [] (poll_task role worker max_tasks now s).1
  unfolding poll_task
  poll_task-Queued s k q = elim (Option-cases (first_ready (queues role worker s))) [
    | inl idle ↦ rw (idle, poll_task) q
    | inr ((id, qs), found) ↦
        let (lo, ls) =
          first_ready-Loses (queue_of worker s.worker_queues) (queue_of role s.pending_queues) id qs
            found in
        rw (found, poll_task)
          (serve-Queued false role worker max_tasks now id qs s k (λ j t e p.
            Beside-Stays false role worker (some id) s s (queue_of worker s.worker_queues)
              (queue_of role s.pending_queues) (split_queues qs).0 (split_queues qs).1 j
              t.target_role (record { nodes = refl; pending = refl; workers = refl; hands = refl })
              (lo j) (ls j) (Beside-Waits false s j t.target_role (q j t e p))))
  ]
