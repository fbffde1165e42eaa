-- ===== src/Hf/Stage/Kept.antt =====
-- `PipelineStage.handle` of src/distllm/hf.py keeps its promise, if the output after the layers does not
-- raise.
use distllm.Prelude.{
  ℕ, ◌+◌, ◌-◌, ◌≤◌, ltb, String, Bool, false, ◌&&◌, Option, none, some, List, [], ◌∷◌, ◌++◌, ◌==◌,
  nat_eq, string_eq, eq_of_beq, beq_refl, ◌≡◌, refl, sym, ap, subst, ◌∙◌, inl, inr, arith,
  Bool-cases, Option-cases, length, take, take-length, length-take, length-append,
}
use distllm.Dict
use distllm.Dict.{Dict, get-delete}
use distllm.Hf.Stage.{
  Layers, Payload, Session, Limits, Handled, no_input, Sessions, drop_expired, evict, put_last,
  cropped, conclude, run, resume, handle,
}
use distllm.Hf.Stage.Table.{Every-get, Every-off, Every-delete, Every-put, Every-append, Every-drop}
use distllm.Hf.Stage.Tokens.{Lawful, Known, know, InStep, Tracks, learn, Answers}

module _ (l : Layers) (w : Lawful l) where
  know_other :
      (g0 g : Known l w) (id : String) (xs : List l.X) (j : String) (s : Session l)
      → ((j : String) → (id == j) ≡ false → g0 j ≡ g j)
      → (id == j) ≡ false
      → InStep l w g0 j s
      → InStep l w (know l w id xs g) j s
  know_other g0 g id xs j s agree o (h, e) =
      rw o (subst (w.Holds s.cache) (agree j o) h, e ∙ ap length (agree j o))

  know_same :
      (g : Known l w) (id : String) (xs : List l.X) (s : Session l)
      → w.Holds s.cache xs
      → s.held ≡ length xs
      → InStep l w (know l w id xs g) id s
  know_same g id xs s h e = rw (beq_refl id) (h, e)

  get-drop_expired :
      (ttl now : ℕ) (id : String) (m : Sessions l)
      → Dict.get id m ≡ none
      → Dict.get id (drop_expired l ttl now m) ≡ none
  unfolding drop_expired Dict.get
  get-drop_expired ttl now id [] g = refl
  get-drop_expired ttl now id ((j, s) ∷ m) g = ground (arith, get-drop_expired ttl now id m)

  Tracks-drop_expired :
      (g : Known l w) (ttl now : ℕ) (m : Sessions l)
      → Tracks l w g m
      → Tracks l w g (drop_expired l ttl now m)
  unfolding drop_expired
  Tracks-drop_expired g ttl now [] t = tt
  Tracks-drop_expired g ttl now ((j, s) ∷ m) (here, free, rest) =
      elim (Bool-cases (ltb ttl (now - s.last_used))) [
        | inl old ↦ rw old (Tracks-drop_expired g ttl now m rest)
        | inr young ↦
            rw young (here, get-drop_expired ttl now j m free, Tracks-drop_expired g ttl now m rest)
      ]

  pub Tracks-evict :
      (g : Known l w) (limits : Limits) (now : ℕ) (m : Sessions l)
      → Tracks l w g m
      → Tracks l w g (evict l limits now m)
  unfolding evict
  Tracks-evict g limits now m t =
      Every-drop (InStep l w g) _ _ (Tracks-drop_expired g limits.session_ttl now m t)

  pub Tracks-put_last :
      (g0 g : Known l w) (id : String) (xs : List l.X) (s : Session l) (m : Sessions l)
      → ((j : String) → (id == j) ≡ false → g0 j ≡ g j)
      → w.Holds s.cache xs
      → s.held ≡ length xs
      → Tracks l w g0 m
      → Tracks l w (know l w id xs g) (put_last l id s m)
  Tracks-put_last g0 g id xs s m agree h e t =
      Every-append (InStep l w (know l w id xs g)) id s (Dict.delete id m) (know_same g id xs s h e)
        (ground (arith, get-delete id id m, beq_refl id))
        (Every-delete (InStep l w g0) (InStep l w (know l w id xs g)) id m
          (λ j s. know_other g0 g id xs j s agree) t)

  pub Tracks-delete :
      (g0 g : Known l w) (id : String) (m : Sessions l)
      → ((j : String) → (id == j) ≡ false → g0 j ≡ g j)
      → Tracks l w g0 m
      → Tracks l w g (Dict.delete id m)
  Tracks-delete g0 g id m agree =
      Every-delete (InStep l w g0) (InStep l w g) id m
        (λ j s o (h, e). (subst (w.Holds s.cache) (agree j o) h, e ∙ ap length (agree j o)))

  module _ (total : (a : l.Ask) (h : l.Hidden) → (r : l.Result) × (l.output a h ≡ some r))
      (limits : Limits) (now : ℕ) (p : Payload l) (g0 g : Known l w)
      (agree : (j : String) → (p.session_id == j) ≡ false → g0 j ≡ g j) where
    run-Tracks :
        (cache : l.Cache) (keep : l.Cache → Sessions l) (m : Sessions l)
        → p.start_pos ≤ length (g p.session_id)
        → w.Holds cache (take p.start_pos (g p.session_id))
        → Tracks l w g0 m
        → Tracks l w (learn l w p no_input g) m
        → Tracks l w
            (learn l w p (run l limits now p cache keep m).0 g)
            (run l limits now p cache keep m).1
          × Answers l w p g (run l limits now p cache keep m).0
    unfolding run conclude
    run-Tracks cache keep m few held t kept = elim (Option-cases p.input) [
      | inl e ↦ rw (e, run) (kept, tt)
      | inr (new, e) ↦ elim (Option-cases (l.forward cache p.start_pos new).0) [
        | inl f ↦ rw (e, run, f) (Tracks-delete g0 g p.session_id m agree t, tt)
        | inr (h, f) ↦
            let xs = take p.start_pos (g p.session_id) in
            let (r, out) = total p.asked h in
            let start : p.start_pos ≡ length xs =
              sym (length-take p.start_pos (g p.session_id) few) in
            let (held', same) =
              w.forward_holds cache xs new h held
                (subst (λ n. (l.forward cache n new).0 ≡ some h) start f) in
            rw (e, run, f, conclude, out)
              (
                Tracks-evict _ limits now _ (
                    Tracks-put_last g0 g p.session_id (xs ++ new) _ m agree
                      (subst (λ n. w.Holds (l.forward cache n new).1 (xs ++ new)) (sym start) held')
                      (ap (λ n. n + length new) start ∙ sym (length-append xs new)) t),
                (new, refl, few, ap (l.output p.asked) (sym same) ∙ out),
              )
      ]
    ]

  -- a session that is cropped, or left, holds the tokens up to its length
  cropped-Holds :
      (rewind : Bool) (start : ℕ) (s : Session l) (xs : List l.X)
      → w.Holds s.cache xs
      → s.held ≡ length xs
      → ((cropped l rewind start s).held ≤ length xs)
        × w.Holds (cropped l rewind start s).cache (take (cropped l rewind start s).held xs)
  cropped-Holds rewind start s xs h e = elim (Bool-cases (rewind && ltb start s.held)) [
    | inl cut ↦
        rw cut (ground (arith, cut, e), w.crop_holds s.cache xs start (ground (arith, cut, e)) h)
    | inr whole ↦
        rw whole (
          omega (arith, e),
          subst (w.Holds s.cache) (sym (ap (λ n. take n xs) e ∙ take-length xs)) h,
        )
  ]

  module _ (total : (a : l.Ask) (h : l.Hidden) → (r : l.Result) × (l.output a h ≡ some r))
      (limits : Limits) (now : ℕ) (p : Payload l) (g : Known l w) where
    abbrev Kept : Handled l × Sessions l → Type 0
    Kept (reply, m) = Tracks l w (learn l w p reply g) m × Answers l w p g reply

    know_agree :
        (xs : List l.X) (j : String)
        → (p.session_id == j) ≡ false
        → know l w p.session_id xs g j ≡ g j
    know_agree xs j o = rw o refl

    resume-Kept :
        (o : Option (Session l)) (m : Sessions l)
        → Dict.get p.session_id m ≡ o
        → (p.start_pos == 0) ≡ false
        → Tracks l w g m
        → Kept (resume l limits now p o m)
    unfolding resume
    resume-Kept none m e z t = (
      Every-off (InStep l w g) (InStep l w (know l w p.session_id [] g)) p.session_id m
          (λ j s. know_other g g p.session_id [] j s (λ j o. refl)) e t,
      tt,
    )
    resume-Kept (some s) m e z t =
        let s' = cropped l p.rewind p.start_pos s in
        let (held, same) = Every-get (InStep l w g) p.session_id s m t e in
        let (few, h) = cropped-Holds p.rewind p.start_pos s (g p.session_id) held same in
        let known : Known l w = know l w p.session_id (take s'.held (g p.session_id)) g in
        let t' : Tracks l w known (Dict.put p.session_id s' m) =
          Every-put (InStep l w g) (InStep l w known) p.session_id s' m
            (λ j s. know_other g g p.session_id _ j s (λ j o. refl))
            (know_same g p.session_id (take s'.held (g p.session_id)) s' h
              (sym (length-take s'.held (g p.session_id) few)))
            t in
        elim (Bool-cases (s'.held == p.start_pos)) [
          | inl there ↦
              let position : s'.held ≡ p.start_pos = eq_of_beq s'.held p.start_pos there in
              rw there (
                run-Tracks total limits now p known g (know_agree (take s'.held (g p.session_id)))
                  s'.cache
                  (λ c.
                    Dict.put p.session_id (record s' { cache = c }) (Dict.put p.session_id s' m))
                  (Dict.put p.session_id s' m)
                  (subst (λ n. n ≤ length (g p.session_id)) position few)
                  (subst (λ n. w.Holds s'.cache (take n (g p.session_id))) position h) t'
                  (rw z (
                    subst
                      (λ n.
                        Tracks l w (know l w p.session_id (take n (g p.session_id)) g)
                          (Dict.put p.session_id s' m))
                      position t')))
          | inr miss ↦ rw miss (t', tt)
        ]

    -- A stage whose sessions hold the tokens that its clients know still does after any request, by what
    -- the clients learn from the reply, if what follows the layers does not raise; and a result is the
    -- whole model's output for the new tokens after the session's first `start_pos` tokens.
    pub handle-Kept :
        (m : Sessions l)
        → Tracks l w g m
        → Tracks l w (learn l w p (handle l limits now p m).0 g) (handle l limits now p m).1
          × Answers l w p g (handle l limits now p m).0
    unfolding handle
    handle-Kept m t = elim (Bool-cases (p.session_id == "")) [
      | inl nameless ↦ rw nameless (t, tt)
      | inr named ↦ elim (Bool-cases p.close) [
        | inl over ↦ rw (named, over) (Tracks-delete g g p.session_id m (λ j o. refl) t, tt)
        | inr going ↦ elim (Bool-cases (p.start_pos == 0)) [
          | inl fresh ↦
              let at_start : p.start_pos ≡ 0 = eq_of_beq p.start_pos 0 fresh in
              rw (named, going, fresh)
                (run-Tracks total limits now p g g (λ j o. refl) l.empty (λ cache. m) m
                  (omega (arith, at_start))
                  (subst (λ n. w.Holds l.empty (take n (g p.session_id))) (sym at_start)
                    w.empty_holds)
                  t (rw fresh t))
          | inr later ↦
              rw (named, going, later) (resume-Kept (Dict.get p.session_id m) m refl later t)
        ]
      ]
    ]
