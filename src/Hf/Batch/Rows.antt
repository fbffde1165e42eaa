-- ===== src/Hf/Batch/Rows.antt =====
-- `_decode_batch` of src/distllm/hf.py: a row of a padded batch gives its session what the session's own
-- forward would give it.
use distllm.Prelude.{
  ℕ, zero, suc, ◌+◌, ◌-◌, ◌≤◌, String, false, some, some_inj, List, [], ◌∷◌, ◌++◌, map, ◌==◌,
  nat_eq, string_eq, ◌≡◌, refl, sym, ap, subst, ◌∙◌, inl, inr, arith, Bool-cases, Option-cases,
  length, take, drop, take-length, length-append,
}
use distllm.Hf.Stage.{Layers, Payload, Session, Handled, result, Sessions, put_last}
use distllm.Hf.Stage.Tokens.{Lawful, Known, know, Tracks, learn, Answers}
use distllm.Hf.Stage.Kept.{Tracks-put_last}
use distllm.Hf.Batch.{Batched, Row, padded, mask, outputs, unpad, repeat, count_id}

-- What several requests and their replies tell, one after the other.
module _ (l : Layers) (w : Lawful l) where
  abbrev pub learn_all : List (Payload l) → List (Handled l) → Known l w → Known l w
  learn_all [] replies g = g
  learn_all (p ∷ ps) [] g = g
  learn_all (p ∷ ps) (r ∷ rs) g = learn_all ps rs (learn l w p r g)

  abbrev pub AnswersAll : List (Payload l) → List (Handled l) → Known l w → Type 0
  AnswersAll [] [] g = Unit
  AnswersAll [] (r ∷ rs) g = ⊥
  AnswersAll (p ∷ ps) [] g = ⊥
  AnswersAll (p ∷ ps) (r ∷ rs) g = Answers l w p g r × AnswersAll ps rs (learn l w p r g)

module _ (l : Layers) (b : Batched l) (w : Lawful l) where
  -- rows whose caches hold known tokens, and fit in a width
  abbrev pub RowsHold : Known l w → ℕ → List (Row l) → Type 0
  RowsHold g n [] = Unit
  RowsHold g n (r ∷ rs) =
      w.Holds r.session.cache (g r.session_id)
      × (r.session.held ≡ length (g r.session_id))
      × (r.session.held ≤ n)
      × RowsHold g n rs

  -- each row extended by one entry, as if it were alone
  abbrev pub Extended : Known l w → ℕ → List (Row l) → List (l.Hidden × List b.Entry) → Type 0
  Extended g n [] [] = Unit
  Extended g n [] (out ∷ outs) = ⊥
  Extended g n (r ∷ rs) [] = ⊥
  Extended g n (r ∷ rs) ((h, es) ∷ outs) =
      ((e : b.Entry) × (es ≡ padded l b n r ++ e ∷ [])
        × w.Holds (b.with_entries r.session.cache (b.entries r.session.cache ++ e ∷ []))
            (g r.session_id ++ r.x ∷ []))
      × (h ≡ w.whole (g r.session_id) (r.x ∷ []))
      × Extended g n rs outs

  -- What the forward of a batch does where it does not raise: what the mask hides has no influence, and
  -- every row's cache gets one entry at its end.
  pub record LawfulBatch : Type 1 where
    pub base_alone :
        (g : Known l w) (n : ℕ) (rows : List (Row l)) (outs : List (l.Hidden × List b.Entry))
        → RowsHold g n rows
        → b.base
            (map (padded l b n) rows)
            (map (mask l b n) rows)
            (map (λ r. r.session.held) rows)
            (map (λ r. r.x) rows)
          ≡ some outs
        → Extended g n rows outs

  drop-repeat : {A : Type 0} (n : ℕ) (a : A) (xs : List A) → drop n (repeat n a ++ xs) ≡ xs
  drop-repeat zero a xs = refl
  drop-repeat (suc n) a xs = drop-repeat n a xs

  append_assoc : {A : Type 0} (xs ys zs : List A) → (xs ++ ys) ++ zs ≡ xs ++ (ys ++ zs)
  append_assoc [] ys zs = refl
  append_assoc (x ∷ xs) ys zs = ap (◌∷◌ x) (append_assoc xs ys zs)

  -- what is left of a row's entries after the padding
  drop-padded :
      (n : ℕ) (r : Row l) (e : b.Entry)
      → drop (n - r.session.held) (padded l b n r ++ e ∷ []) ≡ b.entries r.session.cache ++ e ∷ []
  drop-padded n r e =
      ap (drop (n - r.session.held))
        (append_assoc (repeat (n - r.session.held) b.padding) (b.entries r.session.cache) (e ∷ []))
      ∙ drop-repeat (n - r.session.held) b.padding (b.entries r.session.cache ++ e ∷ [])

  -- requests for the next token, with their rows
  abbrev pub RowsFor : Known l w → List (Payload l) → List (Row l) → Type 0
  RowsFor g [] [] = Unit
  RowsFor g [] (r ∷ rs) = ⊥
  RowsFor g (p ∷ ps) [] = ⊥
  RowsFor g (p ∷ ps) (r ∷ rs) =
      (r.session_id ≡ p.session_id)
      × (p.input ≡ some (r.x ∷ []))
      × (p.start_pos ≡ length (g p.session_id))
      × (count_id p.session_id ps ≡ 0)
      × RowsFor g ps rs

  -- two clients who know the same of some sessions
  abbrev pub AgreeOn : Known l w → Known l w → List (Payload l) → Type 0
  AgreeOn g g' [] = Unit
  AgreeOn g g' (p ∷ ps) = (g p.session_id ≡ g' p.session_id) × AgreeOn g g' ps

  pub AgreeOn-know :
      (g g' : Known l w) (id : String) (xs : List l.X) (ps : List (Payload l))
      → count_id id ps ≡ 0
      → AgreeOn g g' ps
      → AgreeOn (know l w id xs g) g' ps
  AgreeOn-know g g' id xs [] none_there a = tt
  AgreeOn-know g g' id xs (p ∷ ps) none_there (here, a) = elim (Bool-cases (p.session_id == id)) [
    | inl same ↦ absurd (ground (arith, same, none_there))
    | inr other ↦
        let off : (id == p.session_id) ≡ false =
          ground
            (arith, string_eq.beq_iff id p.session_id, string_eq.beq_iff p.session_id id, other) in
        (rw off here, AgreeOn-know g g' id xs ps (ground (arith, other, none_there)) a)
  ]

  outputs-cons :
      (p : Payload l) (ps : List (Payload l)) (h : l.Hidden) (es : List b.Entry)
      (outs : List (l.Hidden × List b.Entry)) (results : List l.Result)
      → outputs l b (p ∷ ps) ((h, es) ∷ outs) ≡ some results
      → (r : l.Result) × (rs : List l.Result) × (l.output p.asked h ≡ some r)
        × (outputs l b ps outs ≡ some rs)
        × (r ∷ rs ≡ results)
  outputs-cons p ps h es outs results = elim (Option-cases (l.output p.asked h)) [
    | inl e ↦ rw e (λ f. absurd (ground (arith, f)))
    | inr (r, e) ↦ elim (Option-cases (outputs l b ps outs)) [
      | inl e' ↦ rw (outputs, e, e') (λ f. absurd (ground (arith, f)))
      | inr (rs, e') ↦ rw (outputs, e, e') (λ f. (r, rs, refl, refl, some_inj f))
    ]
  ]

  -- a result learned at the end of what is known
  learn-next :
      (p : Payload l) (r : l.Result) (x : l.X) (g : Known l w)
      → p.input ≡ some (x ∷ [])
      → p.start_pos ≡ length (g p.session_id)
      → learn l w p (result r) g ≡ know l w p.session_id (g p.session_id ++ x ∷ []) g
  learn-next p r x g e start = rw (e, start, take-length (g p.session_id)) refl

  next_to :
      (g : Known l w) (xs : List l.X) (x : l.X) (n : ℕ)
      → n ≡ length xs
      → n + 1 ≡ length (xs ++ x ∷ [])
  next_to g xs x n e = omega (arith, e, length-append xs (x ∷ []))

  put-Tracks :
      (g : Known l w) (id' id : String) (xs : List l.X) (x : l.X) (s : Session l) (m : Sessions l)
      → id' ≡ id
      → w.Holds s.cache (xs ++ x ∷ [])
      → s.held ≡ length (xs ++ x ∷ [])
      → Tracks l w g m
      → Tracks l w (know l w id (xs ++ x ∷ []) g) (put_last l id' s m)
  put-Tracks g id' id xs x s m same holds held t =
      subst (λ i. Tracks l w (know l w i (xs ++ x ∷ []) g) (put_last l id' s m)) same
        (Tracks-put_last l w g g id' (xs ++ x ∷ []) s m (λ j o. refl) holds held t)

  pub unpad-Kept :
      (n now : ℕ) (g0 g : Known l w) (ps : List (Payload l)) (rows : List (Row l))
      (outs : List (l.Hidden × List b.Entry)) (results : List l.Result) (m : Sessions l)
      → RowsFor g0 ps rows
      → AgreeOn g g0 ps
      → RowsHold g0 n rows
      → Extended g0 n rows outs
      → outputs l b ps outs ≡ some results
      → Tracks l w g m
      → Tracks l w (learn_all l w ps (map (λ r. result r) results) g) (unpad l b n now rows outs m)
        × AnswersAll l w ps (map (λ r. result r) results) g
  unpad-Kept n now g0 g [] [] [] [] m for agree hold ext e t = (t, tt)
  unpad-Kept n now g0 g [] [] [] (r ∷ results) m for agree hold ext e t = absurd (ground (arith, e))
  unpad-Kept n now g0 g [] [] (out ∷ outs) results m for agree hold ext e t = absurd ext
  unpad-Kept n now g0 g [] (r ∷ rows) outs results m for agree hold ext e t = absurd for
  unpad-Kept n now g0 g (p ∷ ps) [] outs results m for agree hold ext e t = absurd for
  unpad-Kept n now g0 g (p ∷ ps) (r ∷ rows) [] results m for agree hold ext e t = absurd ext
  unpad-Kept n now g0 g (p ∷ ps) (row ∷ rows) ((h, es) ∷ outs) results m
        (same_id, input, start, once, for) (known, agree) (holds, held, fits, hold)
        ((entry, longer, holds'), right, ext) e t =
      let (r, rs, out, out', same) = outputs-cons p ps h es outs results e in
      let id = p.session_id in
      let xs = g id in
      let here : g0 row.session_id ≡ xs = ap g0 same_id ∙ sym known in
      let at_end : p.start_pos ≡ length xs = start ∙ ap length (sym known) in
      let learned = learn-next p r row.x g input at_end in
      let kept : Session l = record {
        cache = b.with_entries row.session.cache (drop (n - row.session.held) es);
        held = row.session.held + 1;
        last_used = now;
      } in
      let t1 =
        put-Tracks g row.session_id id xs row.x kept m same_id
          (subst
            (λ ys.
              w.Holds (b.with_entries row.session.cache (drop (n - row.session.held) es))
                (ys ++ row.x ∷ []))
            here
            (subst
              (λ zs.
                w.Holds (b.with_entries row.session.cache zs) (g0 row.session_id ++ row.x ∷ []))
              (sym (ap (drop (n - row.session.held)) longer ∙ drop-padded n row entry)) holds'))
          (next_to g xs row.x row.session.held (held ∙ ap length here)) t in
      let tail =
        unpad-Kept n now g0 (know l w id (xs ++ row.x ∷ []) g) ps rows outs rs
          (put_last l row.session_id kept m) for
          (AgreeOn-know g g0 id (xs ++ row.x ∷ []) ps once agree) hold ext out' t1 in
      let tail' =
        subst
          (λ k.
            Tracks l w (learn_all l w ps (map (λ r. result r) rs) k)
              (unpad l b n now rows outs (put_last l row.session_id kept m))
            × AnswersAll l w ps (map (λ r. result r) rs) k)
          (sym learned) tail in
      subst
        (λ res.
          Tracks l w (learn_all l w (p ∷ ps) (map (λ r. result r) res) g)
            (unpad l b n now (row ∷ rows) ((h, es) ∷ outs) m)
          × AnswersAll l w (p ∷ ps) (map (λ r. result r) res) g)
        same
        (
          tail'.0,
          (
            (
              row.x ∷ [],
              input,
              omega (arith, at_end),
              ap (λ k. l.output p.asked (w.whole (take k xs) (row.x ∷ []))) at_end
                  ∙ ap (λ ys. l.output p.asked (w.whole ys (row.x ∷ [])))
                      (take-length xs ∙ sym here)
                  ∙ ap (l.output p.asked) (sym right)
                  ∙ out,
            ),
            tail'.1,
          ),
        )
