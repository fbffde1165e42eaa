-- ===== src/Hf/Audit/Locate.antt =====
-- `_check` of src/distllm/hf.py names the one stage that computes something else.
use distllm.Prelude.{
  ℕ, suc, String, Bool, true, false, List, [], ◌∷◌, ◌++◌, map, ◌≡◌, refl, sym, ap, ◌∙◌, length,
}
use distllm.Hf.Audit.{Ran, logits, Checked, mismatch, replace_at, locate_from, compare, check}

module _ {Out W B R : Type 0} (run : List String → W → Ran Out × W) (range : String → R)
    (behaviour : String → B) (eval : List B → Out) where
  -- A chain of roles with the auditors' layer ranges gives logits, which depend only on what each role
  -- computes.
  abbrev pub Runs : List String → Type 0
  Runs auditors =
      (chain : List String) (w : W)
      → map range chain ≡ map range auditors
      → (run chain w).0 ≡ logits (eval (map behaviour chain))

module _ {Out W B R : Type 0} (similar differs : Out → Out → Bool)
    (run : List String → W → Ran Out × W) (range : String → R) (behaviour : String → B)
    (eval : List B → Out) where
  replace_at-length :
      (xs ys : List String) (a role : String)
      → replace_at (length xs) role (xs ++ a ∷ ys) ≡ xs ++ role ∷ ys
  replace_at-length [] ys a role = refl
  replace_at-length (x ∷ xs) ys a role = ap (◌∷◌ x) (replace_at-length xs ys a role)

  append_step : (xs ys : List String) (a : String) → xs ++ a ∷ ys ≡ (xs ++ a ∷ []) ++ ys
  append_step [] ys a = refl
  append_step (x ∷ xs) ys a = ap (◌∷◌ x) (append_step xs ys a)

  length_step : (xs : List String) (a : String) → suc (length xs) ≡ length (xs ++ a ∷ [])
  length_step [] a = refl
  length_step (x ∷ xs) a = ap (λ n. suc n) (length_step xs a)

  -- roles that have the layers of others and compute what these do, one by one
  abbrev pub Same : List String → List String → Type 0
  Same [] [] = Unit
  Same [] (a ∷ bs) = ⊥
  Same (x ∷ xs) [] = ⊥
  Same (x ∷ xs) (a ∷ bs) = (behaviour x ≡ behaviour a) × (range x ≡ range a) × Same xs bs

  mixed-same :
      {C : Type 0} (f : String → C) (ds as' : List String) (x a : String)
      → f x ≡ f a
      → map f (ds ++ x ∷ as') ≡ map f (ds ++ a ∷ as')
  mixed-same f [] as' x a e = ap (λ b. b ∷ map f as') e
  mixed-same f (d ∷ ds) as' x a e = ap (◌∷◌ (f d)) (mixed-same f ds as' x a e)

  Same-map :
      (xs as' rest rest' : List String)
      → Same xs as'
      → map behaviour rest ≡ map behaviour rest'
      → map behaviour (xs ++ rest) ≡ map behaviour (as' ++ rest')
  Same-map [] [] rest rest' h e = e
  Same-map [] (a ∷ as') rest rest' h e = absurd h
  Same-map (x ∷ xs) [] rest rest' h e = absurd h
  Same-map (x ∷ xs) (a ∷ as') rest rest' (b, r, h) e =
      ap (λ c. c ∷ map behaviour (xs ++ rest)) b
      ∙ ap (◌∷◌ (behaviour a)) (Same-map xs as' rest rest' h e)

  Same-all : (xs as' : List String) → Same xs as' → map behaviour xs ≡ map behaviour as'
  Same-all [] [] h = refl
  Same-all [] (a ∷ as') h = absurd h
  Same-all (x ∷ xs) [] h = absurd h
  Same-all (x ∷ xs) (a ∷ as') (b, r, h) =
      ap (λ c. c ∷ map behaviour xs) b ∙ ap (◌∷◌ (behaviour a)) (Same-all xs as' h)

  append-nil : (xs : List String) → xs ≡ xs ++ []
  append-nil [] = refl
  append-nil (x ∷ xs) = ap (◌∷◌ x) (append-nil xs)

  module _ (auditors : List String) (runs : Runs run range behaviour eval auditors)
      (alike : differs (eval (map behaviour auditors)) (eval (map behaviour auditors))
        ≡ false) where
    abbrev reference : Out
    reference = eval (map behaviour auditors)

    abbrev locate : ℕ → List String → List String → W → Checked × W
    locate = locate_from similar differs run auditors reference

    -- the run of the auditors with one role among them
    run_mixed :
        (ds as' : List String) (x a : String) (w : W)
        → auditors ≡ ds ++ a ∷ as'
        → range x ≡ range a
        → (run (replace_at (length ds) x auditors) w).0
          ≡ logits (eval (map behaviour (ds ++ x ∷ as')))
    run_mixed ds as' x a w e r =
        let chain = ap (replace_at (length ds) x) e ∙ replace_at-length ds as' a x in
        runs (replace_at (length ds) x auditors) w
          (ap (map range) chain ∙ mixed-same range ds as' x a r ∙ ap (map range) (sym e))
        ∙ ap (λ chain. logits (eval (map behaviour chain))) chain

    -- roles that compute what the auditors do are passed over
    locate-Same :
        (ds xs as' rest rest' suspects : List String) (w : W)
        → Same xs as'
        → auditors ≡ ds ++ (as' ++ rest')
        → (w' : W) × (locate (length ds) (xs ++ rest) suspects w
            ≡ locate (length (ds ++ as')) rest suspects w')
    unfolding locate_from
    locate-Same ds [] [] rest rest' suspects w h e =
        (w, ap (λ ds. locate (length ds) rest suspects w) (append-nil ds))
    locate-Same ds [] (a ∷ as') rest rest' suspects w h e = absurd h
    locate-Same ds (x ∷ xs) [] rest rest' suspects w h e = absurd h
    locate-Same ds (x ∷ xs) (a ∷ as') rest rest' suspects w (b, r, h) e =
        let same : (run (replace_at (length ds) x auditors) w).0 ≡ logits reference =
          run_mixed ds (as' ++ rest') x a w e r
          ∙ ap (λ bs. logits (eval bs))
              (mixed-same behaviour ds (as' ++ rest') x a b ∙ ap (map behaviour) (sym e)) in
        let w1 = (run (replace_at (length ds) x auditors) w).1 in
        let (w', go) =
          locate-Same (ds ++ a ∷ []) xs as' rest rest' suspects w1 h
            (e ∙ append_step ds (as' ++ rest') a) in
        (
          w',
          rw (locate_from, same, alike)
              (ap (λ n. locate n (xs ++ rest) suspects w1) (length_step ds a)
                ∙ go
                ∙ ap (λ ds. locate (length ds) rest suspects w') (sym (append_step ds as' a))),
        )

    -- the role whose chain differs is a suspect
    locate-bad :
        (ds as' rest suspects : List String) (bad good : String) (w : W)
        → auditors ≡ ds ++ good ∷ as'
        → range bad ≡ range good
        → differs (eval (map behaviour (ds ++ bad ∷ as'))) reference ≡ true
        → locate (length ds) (bad ∷ rest) suspects w
          ≡ locate
              (suc (length ds))
              rest
              (suspects ++ bad ∷ [])
              (run (replace_at (length ds) bad auditors) w).1
    unfolding locate_from
    locate-bad ds as' rest suspects bad good w e r other =
        rw (locate_from, run_mixed ds as' bad good w e r, other) refl

    located :
        (xs as' ys bs : List String) (bad good : String) (w : W)
        → auditors ≡ as' ++ good ∷ bs
        → range bad ≡ range good
        → Same xs as'
        → Same ys bs
        → differs (eval (map behaviour (xs ++ bad ∷ ys))) reference ≡ true
        → (w' : W) × (locate 0 (xs ++ bad ∷ ys) [] w ≡ (mismatch (bad ∷ []), w'))
    unfolding locate_from
    located xs as' ys bs bad good w e r before after other =
        let (w1, first) = locate-Same [] xs as' (bad ∷ ys) (good ∷ bs) [] w before e in
        let chains =
          Same-map xs as' (bad ∷ ys) (bad ∷ bs) before
            (ap (◌∷◌ (behaviour bad)) (Same-all ys bs after)) in
        let w2 = (run (replace_at (length as') bad auditors) w1).1 in
        let second =
          locate-bad as' bs ys [] bad good w1 e r
            (ap (λ bs. differs (eval bs) reference) (sym chains) ∙ other) in
        let (w3, third) =
          locate-Same (as' ++ good ∷ []) ys bs [] [] (bad ∷ []) w2 after
            (e ∙ append_step as' bs good ∙ ap (λ bs. (as' ++ good ∷ []) ++ bs) (append-nil bs)) in
        (
          w3,
          first
              ∙ second
              ∙ ap (λ n. locate n ys (bad ∷ []) w2) (length_step as' good)
              ∙ ap (λ ys. locate (length (as' ++ good ∷ [])) ys (bad ∷ []) w2) (append-nil ys)
              ∙ third,
        )

  -- Where every chain with the auditors' layer ranges gives logits that depend only on what its roles
  -- compute, the pipeline and the auditors have the same ranges and compute the same but for one role,
  -- and the pipeline's logits are not as similar to the auditors' as they must be but less so, the
  -- check fails and names that role alone. The auditors' logits are not less similar to themselves.
  -- Of a similarity that is NaN neither holds, and nothing is said of it.
  pub check-mismatch :
      (xs as' ys bs : List String) (bad good : String) (w : W)
      → Runs run range behaviour eval (as' ++ good ∷ bs)
      → differs (eval (map behaviour (as' ++ good ∷ bs))) (eval (map behaviour (as' ++ good ∷ bs)))
        ≡ false
      → Same xs as'
      → range bad ≡ range good
      → Same ys bs
      → similar (eval (map behaviour (xs ++ bad ∷ ys))) (eval (map behaviour (as' ++ good ∷ bs)))
        ≡ false
      → differs (eval (map behaviour (xs ++ bad ∷ ys))) (eval (map behaviour (as' ++ good ∷ bs)))
        ≡ true
      → (check similar differs run
          (as' ++ good ∷ bs)
          true
          (xs ++ bad ∷ ys)
          (eval (map behaviour (xs ++ bad ∷ ys)))
          w).0
        ≡ mismatch (bad ∷ [])
  unfolding check
  check-mismatch xs as' ys bs bad good w runs alike before r after failed other =
      let auditors = as' ++ good ∷ bs in
      let (w', e) =
        located auditors runs alike xs as' ys bs bad good (run auditors w).1 refl r before after
          other in
      rw (check, runs auditors w refl, compare, failed) (ap (λ r. r.0) e)
