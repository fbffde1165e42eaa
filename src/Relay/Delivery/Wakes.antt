-- ===== src/Relay/Delivery/Wakes.antt =====
-- No pending task is lost by the getters of a held poll of src/distllm/relay.py, nor by the end of its
-- wait, unless an id goes back to a queue that is popped.
use distllm.Prelude.{
  ℕ, String, Bool, true, false, not, Option, none, some, List, [], ◌∷◌, ◌≡◌, refl, sym, subst, inl,
  inr, string_eq, ◌==◌, eq_of_beq, Bool-cases, Occurs, ◌⊎◌, arith, some_inj, beq_refl,
}
use distllm.Dict
use distllm.Relay.State.{Source, of_worker, of_role, RelayState, queue_of}
use distllm.Relay.Poll.{
  get_own, get_shared, hold, hand_over_if, own_source, own_queue, store_queues, split_queues,
  wake_poll,
}
use distllm.Relay.Queues.{settle}
use distllm.Relay.Lifecycle.{IsKeyed}
use distllm.Relay.Delivery.Waits.{HasRole, Fits, Waits, Queued, queue_of-put}
use distllm.Relay.Delivery.Hands.{HeldBy-hand_over_if}
use distllm.Relay.Delivery.Losses.{
  Loses, with_taken, Occurs-with_taken, settle_both-Loses, settle_first,
}
use distllm.Relay.Delivery.Polls.{Beside-Waits, Beside-Stays, woken-Queued}

-- an id that leaves a queue for a hand
moved :
    (k j id x : String) (q : List String) (qs : Dict.Dict String (List String))
    → queue_of k qs ≡ x ∷ q
    → Occurs id (queue_of j qs)
    → ((x ≡ id) × (k ≡ j)) ⊎ Occurs id (queue_of j (Dict.put k q qs))
moved k j id x q qs e o = elim (Bool-cases (k == j)) [
  | inr other ↦ inr (rw (queue_of-put, other) o)
  | inl same ↦
      elim (subst (Occurs id) e
        (subst (λ i. Occurs id (queue_of i qs)) (sym (eq_of_beq k j same)) o)) [
          | inl here ↦ inl (here, eq_of_beq k j same)
          | inr rest ↦ inr (rw (queue_of-put, same) rest)
        ]
]

pub get_own-Queued : (worker : String) (s : RelayState) → Queued [] s → Queued [] (get_own worker s)
unfolding get_own
get_own-Queued worker s q = go (queue_of worker s.worker_queues) refl
  where
    go :
        (l : List String)
        → queue_of worker s.worker_queues ≡ l
        → Queued [] (elim l [
          | [] ↦ s
          | id ∷ rest ↦
              hold id
                (of_worker worker)
                (record s { worker_queues = Dict.put worker rest s.worker_queues })
        ])
    go [] e j t there p = q j t there p
    go (x ∷ rest) e j t there p = elim (q j t there p) [
      | inl (inl h) ↦ absurd h
      | inl (inr h) ↦ inl (inr (inr h))
      | inr (inl o) ↦ inr (inl o)
      | inr (inr (w, live, o)) ↦ elim (moved worker w j x rest s.worker_queues e o) [
        | inl (here, same) ↦ inl (
            inr
              (inl (here, subst (λ i. HasRole (Dict.get i s.nodes) t.target_role) (sym same) live)))
        | inr o' ↦ inr (inr (w, live, o'))
      ]
    ]

pub get_shared-Queued :
    (role : String) (s : RelayState) → Queued [] s → Queued [] (get_shared role s)
unfolding get_shared
get_shared-Queued role s q = go (queue_of role s.pending_queues) refl
  where
    go :
        (l : List String)
        → queue_of role s.pending_queues ≡ l
        → Queued [] (elim l [
          | [] ↦ s
          | id ∷ rest ↦
              hold id
                (of_role role)
                (record s { pending_queues = Dict.put role rest s.pending_queues })
        ])
    go [] e j t there p = q j t there p
    go (x ∷ rest) e j t there p = elim (q j t there p) [
      | inl (inl h) ↦ absurd h
      | inl (inr h) ↦ inl (inr (inr h))
      | inr (inr w) ↦ inr (inr w)
      | inr (inl o) ↦ elim (moved role t.target_role j x rest s.pending_queues e o) [
        | inl (here, same) ↦ inl (inr (inl (here, same)))
        | inr o' ↦ inr (inl o')
      ]
    ]

-- an id that goes back to the worker's own queue
back_own :
    (popped : Bool) (role worker : String) (mine all : List String) (s : RelayState)
    (id target : String)
    → popped ≡ false
    → Fits (own_source popped worker) s.nodes target
    → Occurs id mine
    → Waits [] (store_queues popped role worker mine all s) id target
back_own true role worker mine all s id target live fits o = absurd (ground (arith, live))
back_own false role worker mine all s id target live fits o =
    inr (inr (worker, fits, rw (queue_of-put, beq_refl worker) o))

-- No id goes back to a queue that is popped: the worker's queue is not, or its getter has no id, or the
-- request was not cancelled, so that the id is served.
abbrev pub Returns : Option String → Bool → Bool → Type 0
Returns got_own popped aborted = (popped ≡ false) ⊎ ((got_own ≡ none) ⊎ (aborted ≡ false))

module _ (role worker : String) (max_tasks now : ℕ) (got_own got_shared : Option String)
    (popped aborted : Bool) (s : RelayState) where
  abbrev first : Option String × List (String × Source)
  first = hand_over_if got_own (own_source popped worker) s.in_hand

  abbrev second : Option String × List (String × Source)
  second = hand_over_if got_shared (of_role role) first.1

  abbrev mine : List String
  mine = own_queue popped worker s

  abbrev all : List String
  all = queue_of role s.pending_queues

  abbrev settled : Option String × List (List String)
  settled = settle (not aborted) ((first.0, mine) ∷ (second.0, all) ∷ [])

  abbrev after : RelayState
  after = record s { in_hand = second.1 }

  abbrev Served : String → String → Type 0
  Served id target =
      (settled.0 ≡ some id)
      ⊎ Waits []
          (store_queues popped role worker (split_queues settled.1).0 (split_queues settled.1).1
            after)
          id target

  abbrev Kept : Type 0
  Kept =
      Loses settled.0 (with_taken first.0 mine) (split_queues settled.1).0
      × Loses settled.0 (with_taken second.0 all) (split_queues settled.1).1

  kept : Kept
  kept = settle_both-Loses (not aborted) first.0 second.0 mine all

  -- an id that the worker's own queue had, or its getter
  own-Served :
      (id target : String)
      → Returns got_own popped aborted
      → first.0 ≡ some id
      → Fits (own_source popped worker) s.nodes target
      → Served id target
  own-Served id target ok e fits = elim (kept.0 id (there first.0 mine e)) [
    | inl served ↦ inl served
    | inr back ↦ elim (Bool-cases popped) [
      | inr live ↦ inr (
          back_own popped role worker (split_queues settled.1).0 (split_queues settled.1).1 after id
            target live fits back)
      | inl gone ↦ inl (elim ok [
        | inl live ↦ absurd (ground (arith, live, gone))
        | inr (inl nothing) ↦ absurd (empty nothing)
        | inr (inr whole) ↦
            subst (λ b. (settle (not b) ((first.0, mine) ∷ (second.0, all) ∷ [])).0 ≡ some id)
              (sym whole) (settle_first first.0 second.0 mine all id e)
      ])
    ]
  ]
    where
      there : (o : Option String) (q : List String) → o ≡ some id → Occurs id (with_taken o q)
      there none q e = absurd (ground (arith, e))
      there (some x) q e = inl (some_inj e)

      empty : got_own ≡ none → ⊥
      empty nothing =
          let e' =
            subst (λ o. (hand_over_if o (own_source popped worker) s.in_hand).0 ≡ some id) nothing
              e in
          ground (arith, e')

  shared-Served : (id target : String) → second.0 ≡ some id → role ≡ target → Served id target
  shared-Served id target e fits = elim (kept.1 id (there second.0 all e)) [
    | inl served ↦ inl served
    | inr back ↦ inr (
        inr (
          inl (
            subst
              (λ r.
                Occurs id (queue_of r (Dict.put role (split_queues settled.1).1 s.pending_queues)))
              fits (rw (queue_of-put, beq_refl role) back))))
  ]
    where
      there : (o : Option String) (q : List String) → o ≡ some id → Occurs id (with_taken o q)
      there none q e = absurd (ground (arith, e))
      there (some x) q e = inl (some_inj e)

  Waits-Served :
      (id target : String)
      → Returns got_own popped aborted
      → Waits [] s id target
      → Served id target
  Waits-Served id target ok (inl (inl h)) = absurd h
  Waits-Served id target ok (inl (inr h)) =
      elim (HeldBy-hand_over_if s.nodes id target got_own (own_source popped worker) s.in_hand h) [
        | inl (e, fits) ↦ own-Served id target ok e fits
        | inr h' ↦
            elim (HeldBy-hand_over_if s.nodes id target got_shared (of_role role) first.1 h') [
              | inl (e, fits) ↦ shared-Served id target e fits
              | inr h'' ↦ inr (inl (inr h''))
            ]
      ]
  Waits-Served id target ok (inr w) =
      Beside-Stays popped role worker settled.0 after after mine all (split_queues settled.1).0
        (split_queues settled.1).1 id target
        (record { nodes = refl; pending = refl; workers = refl; hands = refl })
        (λ o. kept.0 id (Occurs-with_taken first.0 mine id o))
        (λ o. kept.1 id (Occurs-with_taken second.0 all id o))
        (Beside-Waits role worker max_tasks now popped after id target (inr w))

  pub wake_poll-Queued :
      Returns got_own popped aborted
      → IsKeyed s.tasks
      → Queued [] s
      → Queued [] (wake_poll got_own got_shared popped aborted role worker max_tasks now s).1
  unfolding wake_poll
  wake_poll-Queued ok k q =
      woken-Queued popped role worker max_tasks now aborted settled.0 settled.1 after k
        (λ j t e p. Waits-Served j t.target_role ok (q j t e p))
