-- ===== src/Planner/Best.antt =====
-- `max` with a key, as the loops of `plan` in examples/plan_split.py use it.
use distllm.Prelude.{
  ℕ, zero, suc, ◌+◌, Bool, true, false, Option, none, some, List, [], ◌∷◌, nat_eq, ◌≡◌, refl, sym,
  subst, ◌⊎◌, inl, inr, Bool-cases, Option-cases, arith, is_some,
}
use distllm.Planner.Shares.{Floats, Share}
use distllm.Planner.Balance.{best_from}

module _ (f : Floats) where
  -- the place of a stage that satisfies a test
  abbrev pub IsAt : (Share f → Bool) → ℕ → List (Share f) → Type 0
  IsAt p i [] = ⊥
  IsAt p zero (s ∷ ss) = p s ≡ true
  IsAt p (suc i) (s ∷ ss) = IsAt p i ss

  abbrev pub Nowhere : (Share f → Bool) → List (Share f) → Type 0
  Nowhere p [] = Unit
  Nowhere p (s ∷ ss) = (p s ≡ false) × Nowhere p ss

  -- `best_from` picks a stage that has a key, and picks one if there is any.
  abbrev pub has_key : (Share f → Option f.Number) → Share f → Bool
  has_key key s = is_some (key s)

  abbrev IsFrom : (Share f → Bool) → ℕ → ℕ → List (Share f) → Type 0
  IsFrom p i j [] = ⊥
  IsFrom p i j (s ∷ ss) = ((i ≡ j) × (p s ≡ true)) ⊎ IsFrom p (suc i) j ss

  IsAt-from :
      (p : Share f → Bool) (i j : ℕ) (ss : List (Share f))
      → IsFrom p i j ss
      → (d : ℕ) × (j ≡ i + d) × IsAt p d ss
  IsAt-from p i j [] o = absurd o
  IsAt-from p i j (s ∷ ss) (inl (e, h)) = (0, omega (arith, e), h)
  IsAt-from p i j (s ∷ ss) (inr o) =
      let (d, e, at) = IsAt-from p (suc i) j ss o in (suc d, omega (arith, e), at)

  best_from-Picks :
      (key : Share f → Option f.Number) (ss : List (Share f)) (i j : ℕ) (k : f.Number)
      → (j' : ℕ) × (best_from f key ss i (some (j, k)) ≡ some j')
        × ((j' ≡ j) ⊎ IsFrom (has_key key) i j' ss)
  best_from-Picks key [] i j k = (j, refl, inl refl)
  best_from-Picks key (s ∷ ss) i j k = elim (Option-cases (key s)) [
    | inl e ↦
        rw (best_from, e)
          (let (j', r, o) = best_from-Picks key ss (suc i) j k in
            (j', r, elim o [ inl a ↦ inl a | inr a ↦ inr (inr a) ]))
    | inr (k', e) ↦
        rw (best_from, e)
          (elim (Bool-cases (f.gt k' k)) [
            | inl g ↦ rw g (
                let (j', r, o) = best_from-Picks key ss (suc i) i k' in
                (j', r, elim o [ inl a ↦ inr (inl (sym a, refl)) | inr a ↦ inr (inr a) ]))
            | inr g ↦ rw g (
                let (j', r, o) = best_from-Picks key ss (suc i) j k in
                (j', r, elim o [ inl a ↦ inl a | inr a ↦ inr (inr a) ]))
          ])
  ]

  best_from-cases :
      (key : Share f → Option f.Number) (ss : List (Share f)) (i : ℕ)
      → ((best_from f key ss i none ≡ none) × Nowhere (has_key key) ss)
        ⊎ ((j : ℕ) × (best_from f key ss i none ≡ some j) × IsFrom (has_key key) i j ss)
  best_from-cases key [] i = inl (refl, tt)
  best_from-cases key (s ∷ ss) i = elim (Option-cases (key s)) [
    | inl e ↦
        rw (best_from, e)
          (elim (best_from-cases key ss (suc i)) [
            | inl (r, none_there) ↦ inl (r, (refl, none_there))
            | inr (j, r, o) ↦ inr (j, r, inr o)
          ])
    | inr (k, e) ↦
        rw (best_from, e)
          (let (j, r, o) = best_from-Picks key ss (suc i) i k in
            inr (j, r, elim o [ inl a ↦ inl (sym a, refl) | inr a ↦ inr a ]))
  ]

  -- a stage with the greatest key, or that no stage has one
  pub best :
      (key : Share f → Option f.Number) (ss : List (Share f))
      → ((best_from f key ss 0 none ≡ none) × Nowhere (has_key key) ss)
        ⊎ ((j : ℕ) × (best_from f key ss 0 none ≡ some j) × IsAt (has_key key) j ss)
  best key ss = elim (best_from-cases key ss 0) [
    | inl r ↦ inl r
    | inr (j, r, o) ↦
        let (d, e, at) = IsAt-from (has_key key) 0 j ss o in
        inr (j, r, subst (λ k. IsAt (has_key key) k ss) (sym (omega (arith, e))) at)
  ]
