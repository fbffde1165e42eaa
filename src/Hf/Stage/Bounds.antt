-- ===== src/Hf/Stage/Bounds.antt =====
-- `_evict` of src/distllm/hf.py bounds the sessions of a stage, and an output that raises leaves a
-- cache that is ahead of its session's length.
use distllm.Prelude.{
  ℕ, zero, suc, ◌-◌, ◌≤◌, String, Option, none, some, List, [], ◌∷◌, ◌==◌, nat_eq, string_eq, ◌≡◌,
  refl, inl, inr, arith, Bool-cases, Option-cases, length, drop, beq_refl,
}
use distllm.Dict
use distllm.Dict.{Dict, get-put}
use distllm.Hf.Stage.{
  Layers, Payload, Session, Limits, Sessions, drop_expired, evict, cropped, conclude, run, resume,
  handle,
}

length-drop : {A : Type 0} (n : ℕ) (xs : List A) → length (drop n xs) ≡ length xs - n
length-drop zero xs = omega arith
length-drop (suc n) [] = omega arith
length-drop (suc n) (x ∷ xs) = omega (arith, length-drop n xs)

module _ (l : Layers) where
  length-evict :
      (limits : Limits) (now : ℕ) (m : Sessions l)
      → length (evict l limits now m) ≤ limits.max_sessions
  unfolding evict
  length-evict limits now m =
      let kept = drop_expired l limits.session_ttl now m in
      omega (arith, length-drop (length kept - limits.max_sessions) kept)

  length-delete : (id : String) (m : Sessions l) → length (Dict.delete id m) ≤ length m
  unfolding Dict.delete
  length-delete id [] = omega arith
  length-delete id ((j, s) ∷ m) = ground (arith, length-delete id m)

  length-put :
      (id : String) (s s' : Session l) (m : Sessions l)
      → Dict.get id m ≡ some s
      → length (Dict.put id s' m) ≡ length m
  unfolding Dict.put Dict.get
  length-put id s s' [] e = absurd (ground arith)
  length-put id s s' ((j, t) ∷ m) e = ground (arith, length-put id s s' m)

  module _ (limits : Limits) (now : ℕ) (p : Payload l) where
    run-length :
        (cache : l.Cache) (keep : l.Cache → Sessions l) (m : Sessions l)
        → length m ≤ limits.max_sessions
        → ((c : l.Cache) → length (keep c) ≤ limits.max_sessions)
        → length (run l limits now p cache keep m).1 ≤ limits.max_sessions
    unfolding run conclude
    run-length cache keep m few kept = elim (Option-cases p.input) [
      | inl e ↦ rw (e, run) few
      | inr (new, e) ↦ elim (Option-cases (l.forward cache p.start_pos new).0) [
        | inl f ↦ rw (e, run, f) (omega (arith, length-delete p.session_id m, few))
        | inr (h, f) ↦ elim (Option-cases (l.output p.asked h)) [
          | inl o ↦ rw (e, run, f, conclude, o) (kept (l.forward cache p.start_pos new).1)
          | inr (r, o) ↦ rw (e, run, f, conclude, o) (length-evict limits now _)
        ]
      ]
    ]

    resume-length :
        (o : Option (Session l)) (m : Sessions l)
        → Dict.get p.session_id m ≡ o
        → length m ≤ limits.max_sessions
        → length (resume l limits now p o m).1 ≤ limits.max_sessions
    unfolding resume
    resume-length none m e few = few
    resume-length (some s) m e few =
        let s' = cropped l p.rewind p.start_pos s in
        let same = length-put p.session_id s s' m e in
        let here : Dict.get p.session_id (Dict.put p.session_id s' m) ≡ some s' =
          ground (arith, get-put p.session_id p.session_id s' m, beq_refl p.session_id) in
        elim (Bool-cases (s'.held == p.start_pos)) [
          | inl there ↦ rw there (
              run-length s'.cache
                (λ c. Dict.put p.session_id (record s' { cache = c }) (Dict.put p.session_id s' m))
                (Dict.put p.session_id s' m) (omega (arith, same, few))
                (λ c. omega (
                  arith,
                  same,
                  few,
                  length-put p.session_id s' (record s' { cache = c }) (Dict.put p.session_id s' m)
                      here,
                )))
          | inr miss ↦ rw miss (omega (arith, same, few))
        ]

    -- A stage that has at most `max_sessions` sessions has at most that many after any request.
    pub handle-length :
        (m : Sessions l)
        → length m ≤ limits.max_sessions
        → length (handle l limits now p m).1 ≤ limits.max_sessions
    unfolding handle
    handle-length m few = elim (Bool-cases (p.session_id == "")) [
      | inl nameless ↦ rw nameless few
      | inr named ↦ elim (Bool-cases p.close) [
        | inl over ↦ rw (named, over) (omega (arith, length-delete p.session_id m, few))
        | inr going ↦ elim (Bool-cases (p.start_pos == 0)) [
          | inl fresh ↦ rw (named, going, fresh) (run-length l.empty (λ cache. m) m few (λ c. few))
          | inr later ↦
              rw (named, going, later) (resume-length (Dict.get p.session_id m) m refl few)
        ]
      ]
    ]
