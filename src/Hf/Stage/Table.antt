-- ===== src/Hf/Stage/Table.antt =====
-- The table of sessions of src/distllm/hf.py as an OrderedDict: what holds of every entry, and what
-- its operations keep of that. No key stands twice.
use distllm.Prelude.{
  ℕ, zero, suc, String, false, none, some, [], ◌∷◌, ◌++◌, ◌==◌, string_eq, eq_of_beq, ◌≡◌, refl,
  sym, subst, inl, inr, arith, Bool-cases, drop,
}
use distllm.Dict
use distllm.Dict.{Dict, get-delete}

module _ {V : Type 0} where
  abbrev pub Every : (String → V → Type 0) → Dict String V → Type 0
  Every P [] = Unit
  Every P ((id, v) ∷ m) = P id v × (Dict.get id m ≡ none) × Every P m

  pub Every-get :
      (P : String → V → Type 0) (id : String) (v : V) (m : Dict String V)
      → Every P m
      → Dict.get id m ≡ some v
      → P id v
  unfolding Dict.get
  Every-get P id v [] a e = absurd (ground arith)
  Every-get P id v ((j, w) ∷ m) (here, free, rest) e = elim (Bool-cases (j == id)) [
    | inl same ↦
        subst (λ i. P i v) (eq_of_beq j id same) (subst (P j) (ground (arith, same, e)) here)
    | inr other ↦ Every-get P id v m rest (ground (arith, other, e))
  ]

  -- another statement that follows away from one key
  pub Every-off :
      (P Q : String → V → Type 0) (id : String) (m : Dict String V)
      → ((j : String) (w : V) → (id == j) ≡ false → P j w → Q j w)
      → Dict.get id m ≡ none
      → Every P m
      → Every Q m
  unfolding Dict.get
  Every-off P Q id [] f g a = tt
  Every-off P Q id ((j, w) ∷ m) f g (here, free, rest) = (
    f j w (ground (arith, string_eq.beq_iff id j, string_eq.beq_iff j id, g)) here,
    free,
    Every-off P Q id m f (ground (arith, g)) rest,
  )

  pub Every-delete :
      (P Q : String → V → Type 0) (id : String) (m : Dict String V)
      → ((j : String) (w : V) → (id == j) ≡ false → P j w → Q j w)
      → Every P m
      → Every Q (Dict.delete id m)
  unfolding Dict.delete
  Every-delete P Q id [] f a = tt
  Every-delete P Q id ((j, w) ∷ m) f (here, free, rest) = elim (Bool-cases (j == id)) [
    | inl same ↦ rw same (Every-delete P Q id m f rest)
    | inr other ↦ rw other (
      f j w (ground (arith, string_eq.beq_iff id j, string_eq.beq_iff j id)) here,
      ground (arith, get-delete id j m),
      Every-delete P Q id m f rest,
    )
  ]

  get-put_other :
      (id j : String) (v : V) (m : Dict String V)
      → (id == j) ≡ false
      → Dict.get j m ≡ none
      → Dict.get j (Dict.put id v m) ≡ none
  get-put_other id j v m o g = ground (arith, Dict.get-put id j v m)

  pub Every-put :
      (P Q : String → V → Type 0) (id : String) (v : V) (m : Dict String V)
      → ((j : String) (w : V) → (id == j) ≡ false → P j w → Q j w)
      → Q id v
      → Every P m
      → Every Q (Dict.put id v m)
  unfolding Dict.put Dict.get
  Every-put P Q id v [] f new a = (new, refl, tt)
  Every-put P Q id v ((j, w) ∷ m) f new (here, free, rest) = elim (Bool-cases (j == id)) [
    | inl same ↦ rw same (
      subst (λ i. Q i v) (sym (eq_of_beq j id same)) new,
      free,
      Every-off P Q id m f (subst (λ i. Dict.get i m ≡ none) (eq_of_beq j id same) free) rest,
    )
    | inr other ↦ rw other (
      f j w (ground (arith, string_eq.beq_iff id j, string_eq.beq_iff j id)) here,
      get-put_other id j v m (ground (arith, string_eq.beq_iff id j, string_eq.beq_iff j id)) free,
      Every-put P Q id v m f new rest,
    )
  ]

  get-append :
      (id j : String) (v : V) (m : Dict String V)
      → (id == j) ≡ false
      → Dict.get j m ≡ none
      → Dict.get j (m ++ (id, v) ∷ []) ≡ none
  unfolding Dict.get
  get-append id j v [] o g = rw o refl
  get-append id j v ((k, w) ∷ m) o g = ground (arith, get-append id j v m)

  pub Every-append :
      (P : String → V → Type 0) (id : String) (v : V) (m : Dict String V)
      → P id v
      → Dict.get id m ≡ none
      → Every P m
      → Every P (m ++ (id, v) ∷ [])
  unfolding Dict.get
  Every-append P id v [] new g a = (new, refl, tt)
  Every-append P id v ((j, w) ∷ m) new g (here, free, rest) = (
    here,
    get-append id j v m (ground (arith, string_eq.beq_iff id j, string_eq.beq_iff j id, g)) free,
    Every-append P id v m new (ground (arith, g)) rest,
  )

  pub Every-drop :
      (P : String → V → Type 0) (n : ℕ) (m : Dict String V) → Every P m → Every P (drop n m)
  Every-drop P zero m a = a
  Every-drop P (suc n) [] a = tt
  Every-drop P (suc n) (x ∷ m) (here, free, rest) = Every-drop P n m rest
