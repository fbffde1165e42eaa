-- ===== src/Hf/Batch/Lost.antt =====
-- `handle_batch` of src/distllm/hf.py when a session of its batch is gone by the time of the batch: the
-- requests that are handled before it may evict sessions.
use distllm.Prelude.{
  ℕ, suc, String, Bool, true, false, none, List, [], ◌∷◌, map, string_eq, beq_refl, ◌≡◌, refl, sym,
  ap, subst, ◌∙◌, inl, inr, arith, Bool-cases, Option-cases, length, Occurs,
}
use distllm.Dict
use distllm.Dict.{get-delete}
use distllm.Hf.Stage.{Layers, Payload, Limits, Handled, Sessions, handle}
use distllm.Hf.Batch.{
  Batched, Reply, batch_error, filter, chosen, handle_all, row_of, rows_of, decode_batch,
  delete_all, merge, run_batch, handle_batch,
}
use distllm.Hf.Batch.Order.{
  others, zip, merge-batched, merge-single, filter-in, filter-out, others-in, others-out,
}

module _ (l : Layers) where
  -- the batched requests get the exception
  abbrev Failed : (Payload l → Bool) → List (Payload l) → List (Reply l) → Type 0
  Failed f [] rs = Unit
  Failed f (p ∷ ps) [] = ⊥
  Failed f (p ∷ ps) (r ∷ rs) = (f p ≡ true → r ≡ batch_error) × Failed f ps rs

  length-handle_all :
      (limits : Limits) (now : ℕ) (ps : List (Payload l)) (m : Sessions l)
      → length (handle_all l limits now ps m).0 ≡ length ps
  unfolding handle_all
  length-handle_all limits now [] m = refl
  length-handle_all limits now (p ∷ ps) m =
      ap (λ n. suc n) (length-handle_all limits now ps (handle l limits now p m).1)

  get-delete_all-none :
      (id : String) (ps : List (Payload l)) (m : Sessions l)
      → Dict.get id m ≡ none
      → Dict.get id (delete_all l ps m) ≡ none
  get-delete_all-none id [] m e = e
  get-delete_all-none id (p ∷ ps) m e =
      get-delete_all-none id ps (Dict.delete p.session_id m)
        (ground (arith, get-delete p.session_id id m, e))

  get-delete_all :
      (q : Payload l) (ps : List (Payload l)) (m : Sessions l)
      → Occurs q ps
      → Dict.get q.session_id (delete_all l ps m) ≡ none
  get-delete_all q [] m o = absurd o
  get-delete_all q (p ∷ ps) m (inl e) =
      get-delete_all-none q.session_id ps (Dict.delete p.session_id m) (
        subst (λ i. Dict.get i (Dict.delete p.session_id m) ≡ none) (ap (λ p. p.session_id) e)
          (ground (arith, get-delete p.session_id p.session_id m, beq_refl p.session_id)))
  get-delete_all q (p ∷ ps) m (inr o) = get-delete_all q ps (Dict.delete p.session_id m) o

  Occurs-filter :
      (f : Payload l → Bool) (p : Payload l) (ps : List (Payload l))
      → f p ≡ true
      → Occurs p ps
      → Occurs p (filter f ps)
  Occurs-filter f p [] y o = absurd o
  Occurs-filter f p (q ∷ ps) y (inl e) = rw (filter, subst (λ q. f q ≡ true) (sym e) y) (inl e)
  Occurs-filter f p (q ∷ ps) y (inr o) = elim (Bool-cases (f q)) [
    | inl h ↦ rw (filter, h) (inr (Occurs-filter f p ps y o))
    | inr h ↦ rw (filter, h) (Occurs-filter f p ps y o)
  ]

  Failed-single :
      (f : Payload l → Bool) (p : Payload l) (ps : List (Payload l)) (singles : List (Handled l))
      (batch : List (Reply l))
      → f p ≡ false
      → length singles ≡ suc (length (others l f ps))
      → ((singles' : List (Handled l))
          → length singles' ≡ length (others l f ps)
          → Failed f ps (merge l f ps singles' batch))
      → Failed f (p ∷ ps) (merge l f (p ∷ ps) singles batch)
  Failed-single f p ps [] batch n e go = absurd (ground (arith, e))
  Failed-single f p ps (s ∷ singles) batch n e go =
      subst (Failed f (p ∷ ps)) (sym (merge-single l f p ps s singles batch n))
        (λ y. absurd (ground (arith, y, n)), go singles (ground (arith, e)))

  merge-Failed :
      (f : Payload l → Bool) (ps : List (Payload l)) (singles : List (Handled l))
      → length singles ≡ length (others l f ps)
      → Failed f ps (merge l f ps singles (map (λ p. batch_error) (filter f ps)))
  merge-Failed f [] singles e = tt
  merge-Failed f (p ∷ ps) singles e = elim (Bool-cases (f p)) [
    | inl y ↦
        subst (λ qs. Failed f (p ∷ ps) (merge l f (p ∷ ps) singles (map (λ p. batch_error) qs)))
          (sym (filter-in l f p ps y))
          (subst (Failed f (p ∷ ps))
            (sym
              (merge-batched l f p ps singles batch_error (map (λ p. batch_error) (filter f ps)) y))
            (λ y. refl, merge-Failed f ps singles (e ∙ ap length (others-in l f p ps y))))
    | inr n ↦
        subst (λ qs. Failed f (p ∷ ps) (merge l f (p ∷ ps) singles (map (λ p. batch_error) qs)))
          (sym (filter-out l f p ps n))
          (Failed-single f p ps singles (map (λ p. batch_error) (filter f ps)) n
            (e ∙ ap length (others-out l f p ps n)) (λ singles' e. merge-Failed f ps singles' e))
  ]

  Failed-Occurs :
      (f : Payload l → Bool) (q : Payload l) (ps : List (Payload l)) (rs : List (Reply l))
      → f q ≡ true
      → Occurs q ps
      → Failed f ps rs
      → Occurs (q, batch_error) (zip l ps rs)
  Failed-Occurs f q [] rs y o h = absurd o
  Failed-Occurs f q (p ∷ ps) [] y o h = absurd h
  Failed-Occurs f q (p ∷ ps) (r ∷ rs) y (inl e) (h, hs) =
      inl (ap (λ p. (p, r)) e ∙ ap (λ r. (q, r)) (h (subst (λ p. f p ≡ true) (sym e) y)))
  Failed-Occurs f q (p ∷ ps) (r ∷ rs) y (inr o) (h, hs) = inr (Failed-Occurs f q ps rs y o hs)

module _ (l : Layers) (b : Batched l) where
  rows_of-missing :
      (p : Payload l) (ps : List (Payload l)) (m : Sessions l)
      → Occurs p ps
      → Dict.get p.session_id m ≡ none
      → rows_of l b m ps ≡ none
  rows_of-missing p [] m o e = absurd o
  rows_of-missing p (q ∷ ps) m (inl same) e =
      rw (rows_of, row_of, subst (λ q. Dict.get q.session_id m ≡ none) (sym same) e) refl
  rows_of-missing p (q ∷ ps) m (inr o) e = elim (Option-cases (row_of l b m q)) [
    | inl gone ↦ rw (rows_of, gone) refl
    | inr (r, there) ↦ rw (rows_of, there, rows_of-missing p ps m o e) refl
  ]

  run_batch-missing :
      (limits : Limits) (now : ℕ) (p : Payload l) (ps : List (Payload l)) (m : Sessions l)
      → Occurs p ps
      → Dict.get p.session_id m ≡ none
      → run_batch l b limits now ps m ≡ (map (λ p. batch_error) ps, delete_all l ps m)
  unfolding decode_batch
  run_batch-missing limits now p [] m o e = absurd o
  run_batch-missing limits now p (q ∷ ps) m o e =
      rw (run_batch, decode_batch, rows_of-missing p (q ∷ ps) m o e) refl

  -- When the requests that are handled one by one evict a session of the batch, every request of the
  -- batch fails, and its session is dropped, also where it was still there.
  pub handle_batch-Lost :
      (limits : Limits) (now min_batch : ℕ) (ps : List (Payload l)) (m : Sessions l)
      (p q : Payload l)
      → chosen l b min_batch m ps p ≡ true
      → Occurs p ps
      → Dict.get p.session_id
          (handle_all l limits now (others l (chosen l b min_batch m ps) ps) m).1
        ≡ none
      → chosen l b min_batch m ps q ≡ true
      → Occurs q ps
      → Occurs (q, batch_error) (zip l ps (handle_batch l b limits now min_batch ps m).0)
        × (Dict.get q.session_id (handle_batch l b limits now min_batch ps m).1 ≡ none)
  unfolding handle_batch
  handle_batch-Lost limits now min_batch ps m p q y o e y' o' =
      let f = chosen l b min_batch m ps in
      let (singles, m1) = handle_all l limits now (others l f ps) m in
      let ran = run_batch-missing limits now p (filter f ps) m1 (Occurs-filter l f p ps y o) e in
      (
        subst (λ r. Occurs (q, batch_error) (zip l ps (merge l f ps singles r.0))) (sym ran)
            (Failed-Occurs l f q ps (merge l f ps singles (map (λ p. batch_error) (filter f ps))) y'
              o' (merge-Failed l f ps singles (length-handle_all l limits now (others l f ps) m))),
        subst (λ r. Dict.get q.session_id r.1 ≡ none) (sym ran)
            (get-delete_all l q (filter f ps) m1 (Occurs-filter l f q ps y' o')),
      )
