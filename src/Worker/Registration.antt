-- ===== src/Worker/Registration.antt =====
-- The sessions that a worker of src/distllm/worker.py claims when it registers at src/distllm/relay.py.
use distllm.Prelude.{
  ℕ, zero, suc, ◌≤◌, String, true, false, Option, some, List, [], ◌∷◌, ◌≡◌, refl, sym, subst, ap,
  ◌∙◌, ◌⊎◌, inl, inr, arith, string_eq, pair_eq, ◌==◌, eq_of_beq, beq_refl, Bool-cases, is_some,
  take, length, map, Occurs, none, length-map,
}
use distllm.Dict
use distllm.Dict.{Dict, get-put}
use distllm.Text.{split, join, nonempty}
use distllm.Relay.State.{Node, RelayState, max_reported_sessions}
use distllm.Relay.Tasks.{owner}
use distllm.Relay.Api.{alive, claim_session, claim_sessions, register}
use distllm.Relay.Affinity.{claim_session-nodes, claim_sessions-live, claim_sessions-same}
use distllm.Relay.Routes.{ArePlain, split-join}
use distllm.Worker.{sessions_param}

-- The session is the worker's from now on, or stays with the registered worker that had it.
abbrev pub ClaimedBy : String → ℕ → String × String → RelayState → RelayState → Type 0
ClaimedBy node_id now key s s' =
    (Dict.get key s'.affinity ≡ some (node_id, now))
    ⊎ ((w : String) × (used : ℕ) × (Dict.get key s.affinity ≡ some (w, used))
        × (is_some (Dict.get w s'.nodes) ≡ true)
        × (Dict.get key s'.affinity ≡ some (w, used)))

live_owner :
    (s : RelayState) (o : Option (String × ℕ))
    → alive s (owner o) ≡ true
    → (w : String) × (used : ℕ) × (o ≡ some (w, used)) × (is_some (Dict.get w s.nodes) ≡ true)
live_owner s none h = absurd (ground (arith, h))
live_owner s (some (w, used)) h = (w, used, refl, h)

module _ (node_id role : String) (now : ℕ) where
  claim_session_other :
      (x id : String) (s : RelayState)
      → (x == id) ≡ false
      → Dict.get (role, id) (claim_session node_id role now x s).affinity
        ≡ Dict.get (role, id) s.affinity
  unfolding claim_session
  claim_session_other x id s other =
      elim (Bool-cases (alive s (owner (Dict.get (role, x) s.affinity)))) [
        | inl e ↦ rw e refl
        | inr e ↦ rw (e, get-put, beq_refl role, other) refl
      ]

  claim_session_self :
      (id : String) (s : RelayState)
      → is_some (Dict.get node_id s.nodes) ≡ true
      → ClaimedBy node_id now (role, id) s (claim_session node_id role now id s)
  unfolding claim_session
  claim_session_self id s here =
      elim (Bool-cases (alive s (owner (Dict.get (role, id) s.affinity)))) [
        | inl e ↦
            let (w, used, there, live) = live_owner s (Dict.get (role, id) s.affinity) e in
            rw e (inr (w, used, there, live, there))
        | inr e ↦ rw e (inl (rw (get-put, beq_refl role, beq_refl id) refl))
      ]

  -- The rest of the loop leaves the entry.
  ClaimedBy-rest :
      (id : String) (l : List String) (s s1 : RelayState)
      → is_some (Dict.get node_id s1.nodes) ≡ true
      → ClaimedBy node_id now (role, id) s s1
      → ClaimedBy node_id now (role, id) s (claim_sessions node_id role now l s1)
  ClaimedBy-rest id l s s1 here (inl e) =
      inl (claim_sessions-live node_id role now role id node_id now l s1 e here)
  ClaimedBy-rest id l s s1 here (inr (w, used, before, live, e)) = inr (
    w,
    used,
    before,
    rw ((claim_sessions-same node_id role now l s1).0) live,
    claim_sessions-live node_id role now role id w used l s1 e live,
  )

  claim_sessions-ClaimedBy :
      (id : String) (l : List String) (s : RelayState)
      → is_some (Dict.get node_id s.nodes) ≡ true
      → Occurs id l
      → ClaimedBy node_id now (role, id) s (claim_sessions node_id role now l s)
  unfolding claim_sessions
  claim_sessions-ClaimedBy id [] s here o = absurd o
  claim_sessions-ClaimedBy id (x ∷ l) s here o =
      let s1 = claim_session node_id role now x s in
      let here1 : is_some (Dict.get node_id s1.nodes) ≡ true =
        ap (λ ns. is_some (Dict.get node_id ns)) (claim_session-nodes node_id role x now s)
        ∙ here in
      elim (Bool-cases (x == id)) [
        | inl same ↦ ClaimedBy-rest id l s s1 here1 (
            subst (λ y. ClaimedBy node_id now (role, id) s (claim_session node_id role now y s))
              (sym (eq_of_beq x id same)) (claim_session_self id s here))
        | inr other ↦
            let o' : Occurs id l = elim o [
              | inl e ↦ absurd (ground (arith, other, e, beq_refl id))
              | inr o ↦ o
            ] in
            from_first id x l s s1 (claim_session_other x id s other)
              (claim_sessions-ClaimedBy id l s1 here1 o')
      ]
    where
      from_first :
          (id x : String) (l : List String) (s s1 : RelayState)
          → Dict.get (role, id) s1.affinity ≡ Dict.get (role, id) s.affinity
          → ClaimedBy node_id now (role, id) s1 (claim_sessions node_id role now l s1)
          → ClaimedBy node_id now (role, id) s (claim_sessions node_id role now l s1)
      from_first id x l s s1 same (inl e) = inl e
      from_first id x l s s1 same (inr (w, used, before, live, after)) =
          inr (w, used, sym same ∙ before, live, after)

take_all : (n : ℕ) (xs : List String) → length xs ≤ n → take n xs ≡ xs
take_all zero [] h = refl
take_all (suc n) [] h = refl
take_all zero (x ∷ xs) h = absurd (ground (arith, h))
take_all (suc n) (x ∷ xs) h = ap (◌∷◌ x) (take_all n xs (ground (arith, h)))

nonempty-ArePlain : (ws : List String) → ArePlain ws → nonempty ws ≡ ws
unfolding nonempty
nonempty-ArePlain [] p = refl
nonempty-ArePlain (w ∷ ws) ((free, same, there), ps) = rw (there, nonempty-ArePlain ws ps) refl

reported :
    (id : String) (ids : List String)
    → Occurs id ids
    → length ids ≤ max_reported_sessions
    → ArePlain ids
    → take max_reported_sessions (nonempty (split 44 (join "," ids))) ≡ ids
reported id [] o few p = absurd o
reported id (w ∷ ws) o few p =
    ap (λ ws. take max_reported_sessions (nonempty ws)) (split-join w ws p)
    ∙ ap (take max_reported_sessions) (nonempty-ArePlain (w ∷ ws) p)
    ∙ take_all max_reported_sessions (w ∷ ws) few

-- A worker that registers with its table of sessions, at most MAX_REPORTED_SESSIONS of them, gets each,
-- or it stays with the registered worker that has it. No session's name is empty, has a comma in it or
-- space around it.
pub register-sessions_param :
    (node_id role id : String) (now : ℕ) (m : Dict String ℕ) (s : RelayState)
    → length m ≤ max_reported_sessions
    → ArePlain (map (λ (id, used). id) m)
    → Occurs id (map (λ (id, used). id) m)
    → ClaimedBy node_id now (role, id) s (register node_id role (sessions_param m) now s).1
unfolding register sessions_param
register-sessions_param node_id role id now m s few p o =
    let ids = map (λ (id, used). id) m in
    let node : Node = record { node_id = node_id; role = role; last_heartbeat = now } in
    let s1 = record s { nodes = Dict.put node_id node s.nodes } in
    subst (λ l. ClaimedBy node_id now (role, id) s (claim_sessions node_id role now l s1))
      (sym (
        reported id ids o
          (subst (λ n. n ≤ max_reported_sessions) (sym (length-map (λ (id, used). id) m)) few) p))
      (claim_sessions-ClaimedBy node_id role now id ids s1 (rw (get-put, beq_refl node_id) refl) o)
