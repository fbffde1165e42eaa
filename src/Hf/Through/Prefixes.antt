-- ===== src/Hf/Through/Prefixes.antt =====
-- What a stage of src/distllm/hf.py holds of a session against what its client knows: lists that agree
-- as far as both go.
use distllm.Prelude.{
  ℕ, zero, suc, ◌≤◌, string_eq, List, [], ◌∷◌, ◌++◌, nat_eq, ◌≡◌, refl, ap, ◌∙◌, arith, length,
  take,
}

-- Two lists that agree as far as both go.
module _ {A : Type 0} where
  abbrev pub Compatible : List A → List A → Type 0
  Compatible [] q = Unit
  Compatible (x ∷ xs) [] = Unit
  Compatible (x ∷ xs) (y ∷ ys) = (x ≡ y) × Compatible xs ys

  pub Compatible-nil : (xs : List A) → Compatible xs []
  Compatible-nil [] = tt
  Compatible-nil (x ∷ xs) = tt

  pub Compatible-refl : (xs : List A) → Compatible xs xs
  Compatible-refl [] = tt
  Compatible-refl (x ∷ xs) = (refl, Compatible-refl xs)

  pub Compatible-shorter : (xs q rest : List A) → Compatible xs (q ++ rest) → Compatible xs q
  Compatible-shorter [] q rest k = tt
  Compatible-shorter (x ∷ xs) [] rest k = tt
  Compatible-shorter (x ∷ xs) (y ∷ q) rest (e, k) = (e, Compatible-shorter xs q rest k)

  pub Compatible-take : (n : ℕ) (xs q : List A) → Compatible xs q → Compatible (take n xs) q
  Compatible-take zero xs q k = tt
  Compatible-take (suc n) [] q k = tt
  Compatible-take (suc n) (x ∷ xs) [] k = tt
  Compatible-take (suc n) (x ∷ xs) (y ∷ q) (e, k) = (e, Compatible-take n xs q k)

  pub take-Compatible :
      (xs q : List A) → Compatible xs q → length q ≤ length xs → take (length q) xs ≡ q
  take-Compatible xs [] k few = refl
  take-Compatible [] (y ∷ q) k few = absurd (ground (arith, few))
  take-Compatible (x ∷ xs) (y ∷ q) (e, k) few =
      ap (λ z. z ∷ take (length q) xs) e ∙ ap (◌∷◌ y) (take-Compatible xs q k (ground (arith, few)))
