-- ===== src/Worker/Claims.antt =====
-- The sessions that a worker of src/distllm/worker.py claims are few and recent.
use distllm.Prelude.{
  ℕ, ◌-◌, ◌≤◌, ltb, String, string_eq, ◌||◌, List, [], ◌∷◌, ◌++◌, ◌==◌, inl, inr, arith, Bool-cases,
  Option-cases, length,
}
use distllm.Dict
use distllm.Dict.{Dict}
use distllm.Worker.{
  Payload, session_of, max_claimed_sessions, session_claim_ttl, touch, touch_all, trim,
  track_sessions,
}

-- The times of use, none before `least`, stand in their order and not in the future.
abbrev pub Ordered : ℕ → ℕ → Dict String ℕ → Type 0
Ordered now least [] = Unit
Ordered now least ((id, used) ∷ m) = (least ≤ used) × (used ≤ now) × Ordered now used m

-- nobody claims a session that it used longer ago than the limit
abbrev pub Recent : ℕ → Dict String ℕ → Type 0
Recent now [] = Unit
Recent now ((id, used) ∷ m) = (now - used ≤ session_claim_ttl) × Recent now m

Ordered-weaken :
    (now low least : ℕ) (m : Dict String ℕ) → low ≤ least → Ordered now least m → Ordered now low m
Ordered-weaken now low least [] l o = tt
Ordered-weaken now low least ((id, used) ∷ m) l (a, b, c) = (omega arith, b, c)

Ordered-delete :
    (now least : ℕ) (id : String) (m : Dict String ℕ)
    → Ordered now least m
    → Ordered now least (Dict.delete id m)
unfolding Dict.delete
Ordered-delete now least id [] o = tt
Ordered-delete now least id ((j, used) ∷ m) (a, b, c) = elim (Bool-cases (j == id)) [
  | inl same ↦ rw same (Ordered-weaken now least used _ a (Ordered-delete now used id m c))
  | inr other ↦ rw other (a, b, Ordered-delete now used id m c)
]

Ordered-append :
    (now least : ℕ) (id : String) (m : Dict String ℕ)
    → least ≤ now
    → Ordered now least m
    → Ordered now least (m ++ (id, now) ∷ [])
Ordered-append now least id [] l o = (l, omega arith, tt)
Ordered-append now least id ((j, used) ∷ m) l (a, b, c) = (a, b, Ordered-append now used id m b c)

Ordered-touch :
    (now : ℕ) (p : Payload) (m : Dict String ℕ) → Ordered now 0 m → Ordered now 0 (touch now p m)
unfolding touch
Ordered-touch now p m o = elim (Option-cases (session_of p)) [
  | inl e ↦ rw (touch, e) o
  | inr (id, e) ↦ elim (Bool-cases p.close) [
    | inl over ↦ rw (touch, e, over) (Ordered-delete now 0 id m o)
    | inr open_yet ↦
        rw (touch, e, open_yet)
          (Ordered-append now 0 id (Dict.delete id m) (omega arith) (Ordered-delete now 0 id m o))
  ]
]

Ordered-touch_all :
    (now : ℕ) (ps : List Payload) (m : Dict String ℕ)
    → Ordered now 0 m
    → Ordered now 0 (touch_all now ps m)
unfolding touch_all
Ordered-touch_all now [] m o = o
Ordered-touch_all now (p ∷ ps) m o =
    Ordered-touch_all now ps (touch now p m) (Ordered-touch now p m o)

Ordered-Recent :
    (now least : ℕ) (m : Dict String ℕ)
    → now - least ≤ session_claim_ttl
    → Ordered now least m
    → Recent now m
Ordered-Recent now least [] l o = tt
Ordered-Recent now least ((id, used) ∷ m) l (a, b, c) =
    let recent : now - used ≤ session_claim_ttl = omega arith in
    (recent, Ordered-Recent now used m recent c)

trim-few :
    (now least : ℕ) (m : Dict String ℕ)
    → Ordered now least m
    → (length (trim now m) ≤ max_claimed_sessions)
      × Recent now (trim now m)
      × Ordered now least (trim now m)
unfolding trim
trim-few now least [] o = (omega arith, tt, tt)
trim-few now least ((id, used) ∷ m) (a, b, c) =
    elim (Bool-cases
      (ltb max_claimed_sessions (length ((id, used) ∷ m)) || ltb session_claim_ttl (now - used))) [
        | inl cut ↦
            let (few, recent, ordered) = trim-few now used m c in
            rw cut (few, recent, Ordered-weaken now least used _ a ordered)
        | inr kept ↦ rw kept (
          ground (arith, kept),
          Ordered-Recent now used ((id, used) ∷ m) (ground (arith, kept)) (omega arith, b, c),
          (a, b, c),
        )
      ]

-- Right after `_track_sessions` has run, for any tasks, over a table in the order of use, the table of
-- the sessions that a registration would claim has at most MAX_CLAIMED_SESSIONS of them, none that was
-- used longer than SESSION_CLAIM_TTL ago, and is in that order again. Nothing trims it until the next
-- tasks: a later registration claims the table as it then stands.
pub track_sessions-Recent :
    (now : ℕ) (ps : List Payload) (m : Dict String ℕ)
    → Ordered now 0 m
    → (length (track_sessions now ps m) ≤ max_claimed_sessions)
      × Recent now (track_sessions now ps m)
      × Ordered now 0 (track_sessions now ps m)
unfolding track_sessions
track_sessions-Recent now ps m o =
    trim-few now 0 (touch_all now ps m) (Ordered-touch_all now ps m o)
