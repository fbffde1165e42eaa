-- ===== src/Hf/Batch/Order.antt =====
-- `handle_batch` of src/distllm/hf.py: which requests it batches, and that the replies come in the order
-- of the requests.
use mathlib.Core.List.Perm
use mathlib.Core.List.{perm_middle}
use distllm.Prelude.{
  suc, ◌+◌, ◌≤◌, String, Bool, true, false, not, List, [], ◌∷◌, ◌++◌, map, ◌==◌, nat_eq, string_eq,
  beq_refl, ◌≡◌, refl, sym, ap, subst, ◌∙◌, inl, inr, arith, Bool-cases, length, Perm,
}
use distllm.Hf.Stage.{Layers, Payload}
use distllm.Hf.Stage.{Handled}
use distllm.Hf.Batch.{Reply, handled, count_id, filter, merge}

module _ (l : Layers) where
  abbrev pub zip : List (Payload l) → List (Reply l) → List (Payload l × Reply l)
  zip [] rs = []
  zip (p ∷ ps) [] = []
  zip (p ∷ ps) (r ∷ rs) = (p, r) ∷ zip ps rs

  abbrev pub handled_all : List (Handled l) → List (Reply l)
  handled_all hs = map (λ h. handled h) hs

module _ (l : Layers) (f : Payload l → Bool) where
  abbrev pub others : List (Payload l) → List (Payload l)
  others ps = filter (λ p. not (f p)) ps

  count_id-split :
      (id : String) (ps : List (Payload l))
      → count_id id ps ≡ count_id id (filter f ps) + count_id id (others ps)
  count_id-split id [] = omega arith
  count_id-split id (p ∷ ps) = elim (Bool-cases (f p)) [
    | inl y ↦ elim (Bool-cases (p.session_id == id)) [
      | inl e ↦ rw (filter, y, count_id, e) (omega (arith, count_id-split id ps))
      | inr e ↦ rw (filter, y, count_id, e) (count_id-split id ps)
    ]
    | inr n ↦ elim (Bool-cases (p.session_id == id)) [
      | inl e ↦ rw (filter, n, count_id, e) (omega (arith, count_id-split id ps))
      | inr e ↦ rw (filter, n, count_id, e) (count_id-split id ps)
    ]
  ]

  pub merge-batched :
      (p : Payload l) (ps : List (Payload l)) (singles : List (Handled l)) (r : Reply l)
      (batch : List (Reply l))
      → f p ≡ true
      → merge l f (p ∷ ps) singles (r ∷ batch) ≡ r ∷ merge l f ps singles batch
  merge-batched p ps [] r batch y = rw (merge, y) refl
  merge-batched p ps (s ∷ singles) r batch y = rw (merge, y) refl

  pub merge-single :
      (p : Payload l) (ps : List (Payload l)) (s : Handled l) (singles : List (Handled l))
      (batch : List (Reply l))
      → f p ≡ false
      → merge l f (p ∷ ps) (s ∷ singles) batch ≡ handled s ∷ merge l f ps singles batch
  merge-single p ps s singles [] n = rw (merge, n) refl
  merge-single p ps s singles (r ∷ batch) n = rw (merge, n) refl

  pub filter-in :
      (p : Payload l) (ps : List (Payload l)) → f p ≡ true → filter f (p ∷ ps) ≡ p ∷ filter f ps
  filter-in p ps y = rw (filter, y) refl

  pub filter-out :
      (p : Payload l) (ps : List (Payload l)) → f p ≡ false → filter f (p ∷ ps) ≡ filter f ps
  filter-out p ps n = rw (filter, n) refl

  pub others-in : (p : Payload l) (ps : List (Payload l)) → f p ≡ true → others (p ∷ ps) ≡ others ps
  others-in p ps y = rw (filter, y) refl

  pub others-out :
      (p : Payload l) (ps : List (Payload l)) → f p ≡ false → others (p ∷ ps) ≡ p ∷ others ps
  others-out p ps n = rw (filter, n) refl

  abbrev Ordered :
      List (Payload l)
      → List (Payload l)
      → List (Payload l)
      → List (Handled l)
      → List (Reply l)
      → Type 0
  Ordered alone batched ps singles batch =
      Perm (zip l alone (handled_all l singles) ++ zip l batched batch)
        (zip l ps (merge l f ps singles batch))

  batched_next :
      (p : Payload l) (alone batched ps : List (Payload l)) (singles : List (Handled l))
      (batch : List (Reply l))
      → f p ≡ true
      → length batch ≡ suc (length batched)
      → ((batch' : List (Reply l))
          → length batch' ≡ length batched
          → Ordered alone batched ps singles batch')
      → Ordered alone (p ∷ batched) (p ∷ ps) singles batch
  batched_next p alone batched ps singles [] y e go = absurd (ground (arith, e))
  batched_next p alone batched ps singles (r ∷ batch) y e go =
      subst
        (λ rs.
          Perm (zip l alone (handled_all l singles) ++ (p, r) ∷ zip l batched batch)
            (zip l (p ∷ ps) rs))
        (sym (merge-batched p ps singles r batch y))
        (Perm.trans (perm_middle (zip l alone (handled_all l singles)) (zip l batched batch))
          (Perm.cons (p, r) (go batch (omega (arith, e)))))

  single_next :
      (p : Payload l) (alone batched ps : List (Payload l)) (singles : List (Handled l))
      (batch : List (Reply l))
      → f p ≡ false
      → length singles ≡ suc (length alone)
      → ((singles' : List (Handled l))
          → length singles' ≡ length alone
          → Ordered alone batched ps singles' batch)
      → Ordered (p ∷ alone) batched (p ∷ ps) singles batch
  single_next p alone batched ps [] batch n e go = absurd (ground (arith, e))
  single_next p alone batched ps (s ∷ singles) batch n e go =
      subst
        (λ rs.
          Perm ((p, handled s) ∷ (zip l alone (handled_all l singles) ++ zip l batched batch))
            (zip l (p ∷ ps) rs))
        (sym (merge-single p ps s singles batch n))
        (Perm.cons (p, handled s) (go singles (omega (arith, e))))

  -- The requests that were handled alone with their replies, then those of the batch, are all requests
  -- with their replies.
  pub merge-perm :
      (ps : List (Payload l)) (singles : List (Handled l)) (batch : List (Reply l))
      → length singles ≡ length (others ps)
      → length batch ≡ length (filter f ps)
      → Ordered (others ps) (filter f ps) ps singles batch
  merge-perm [] singles batch s t = Perm.refl []
  merge-perm (p ∷ ps) singles batch s t = elim (Bool-cases (f p)) [
    | inl y ↦
        rw (filter, y)
          (batched_next p (others ps) (filter f ps) ps singles batch y
            (t ∙ ap length (filter-in p ps y))
            (λ batch' e. merge-perm ps singles batch' (s ∙ ap length (others-in p ps y)) e))
    | inr n ↦
        rw (filter, n)
          (single_next p (others ps) (filter f ps) ps singles batch n
            (s ∙ ap length (others-out p ps n))
            (λ singles' e. merge-perm ps singles' batch e (t ∙ ap length (filter-out p ps n))))
  ]

  -- requests that are batched, when each session of theirs comes once
  abbrev pub AllIn : List (Payload l) → Type 0
  AllIn [] = Unit
  AllIn (p ∷ ps) = (f p ≡ true) × AllIn ps

  pub AllIn-filter : (ps : List (Payload l)) → AllIn (filter f ps)
  AllIn-filter [] = tt
  AllIn-filter (p ∷ ps) = elim (Bool-cases (f p)) [
    | inl y ↦ rw (filter, y) (y, AllIn-filter ps)
    | inr n ↦ rw (filter, n) (AllIn-filter ps)
  ]

  count_id-here :
      (p : Payload l) (ps : List (Payload l))
      → count_id p.session_id (p ∷ ps) ≡ suc (count_id p.session_id ps)
  count_id-here p ps = rw (count_id, beq_refl p.session_id) refl

  count_id-tail :
      (id : String) (p : Payload l) (ps : List (Payload l)) → count_id id ps ≤ count_id id (p ∷ ps)
  count_id-tail id p ps = elim (Bool-cases (p.session_id == id)) [
    | inl e ↦ rw (count_id, e) (omega arith)
    | inr e ↦ rw (count_id, e) (omega arith)
  ]

  -- no other request names the session of a batched one
  abbrev pub Once : List (Payload l) → List (Payload l) → Type 0
  Once ps [] = Unit
  Once ps (q ∷ qs) =
      (count_id q.session_id qs ≡ 0) × (count_id q.session_id (others ps) ≡ 0) × Once ps qs

  pub Once-batched :
      (ps qs : List (Payload l))
      → ((p : Payload l) → f p ≡ true → count_id p.session_id ps ≡ 1)
      → AllIn qs
      → ((id : String) → count_id id qs ≤ count_id id (filter f ps))
      → Once ps qs
  Once-batched ps [] one a few = tt
  Once-batched ps (q ∷ qs) one (y, a) few = (
    omega (arith, count_id-here q qs, few q.session_id, count_id-split q.session_id ps, one q y),
    omega (arith, count_id-here q qs, few q.session_id, count_id-split q.session_id ps, one q y),
    Once-batched ps qs one a (λ id. omega (arith, few id, count_id-tail id q qs)),
  )
