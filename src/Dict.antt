-- ===== src/Dict.antt =====
-- Python's `dict`: entries in insertion order. Writing to a key that is there keeps its place.
use distllm.Prelude.{
  Eq, ◌==◌, Option, none, some, List, [], ◌∷◌, ◌≡◌, refl, inl, inr, arith, if◌then◌else◌,
  Bool-cases, eq_of_beq, subst,
}

abbrev pub Dict {ℓ κ} : Type ℓ → Type κ → Type (ℓ ⊔ κ)
Dict K V = List (K × V)

module _ {ℓ κ} {K : Type ℓ} {V : Type κ} ⦃e : Eq K⦄ where
  unfoldable pub get : K → Dict K V → Option V
  get k [] = none
  get k ((j, v) ∷ m) = if j == k then some v else get k m

  unfoldable pub put : K → V → Dict K V → Dict K V
  put k v [] = (k, v) ∷ []
  put k v ((j, w) ∷ m) = if j == k then (j, v) ∷ m else (j, w) ∷ put k v m

  unfoldable pub delete : K → Dict K V → Dict K V
  delete k [] = []
  delete k ((j, w) ∷ m) = let rest = delete k m in if j == k then rest else (j, w) ∷ rest

  pub get-put :
      (k j : K) (v : V) (m : Dict K V) → get j (put k v m) ≡ (if k == j then some v else get j m)
  unfolding get put
  get-put k j v [] = refl
  get-put k j v ((i, w) ∷ m) =
      ground (arith, e.beq_iff k j, e.beq_iff i k, e.beq_iff i j, get-put k j v m)

  pub get-delete :
      (k j : K) (m : Dict K V) → get j (delete k m) ≡ (if k == j then none else get j m)
  unfolding get delete
  get-delete k j [] = ground arith
  get-delete k j ((i, w) ∷ m) =
      ground (arith, e.beq_iff k j, e.beq_iff i k, e.beq_iff i j, get-delete k j m)

-- Every entry satisfies `P`.
abbrev pub Holds {ℓ κ μ} :
    {K : Type ℓ} {V : Type κ} ⦃e : Eq K⦄ → (K → V → Type μ) → Dict K V → Type (ℓ ⊔ κ ⊔ μ)
Holds {K} {V} P m = (k : K) (v : V) → get k m ≡ some v → P k v

module _ {ℓ κ μ} {K : Type ℓ} {V : Type κ} ⦃e : Eq K⦄ (P : K → V → Type μ) where
  pub Holds-put : (k : K) (v : V) (m : Dict K V) → P k v → Holds P m → Holds P (put k v m)
  Holds-put k v m new old j w h = elim (Bool-cases (k == j)) [
    | inl same ↦
        subst (λ i. P i w) (eq_of_beq k j same) (subst (P k) (ground (arith, get-put k j v m)) new)
    | inr other ↦ old j w (ground (arith, get-put k j v m))
  ]

  pub Holds-delete : (k : K) (m : Dict K V) → Holds P m → Holds P (delete k m)
  Holds-delete k m old j w h = old j w (ground (arith, get-delete k j m))
