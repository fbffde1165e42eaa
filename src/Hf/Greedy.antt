-- ===== src/Hf/Greedy.antt =====
-- The greedy tokens that SpeculativeGenerator of src/distllm/hf.py checks proposals against, and
-- what its round keeps of them.
use mathlib.Core.List.{append_assoc, append-nil}
use distllm.Prelude.{
  ℕ, zero, suc, ◌-◌, ◌≤◌, Bool, true, false, some, List, [], ◌∷◌, ◌++◌, ◌≡◌, refl, sym, ap, ◌∙◌,
  inl, inr, arith, ◌==◌, nat_eq, eq_of_beq, if◌then◌else◌, Bool-cases, length, take, drop,
}
use distllm.Hf.Generate.{is_in, reference}
use distllm.Hf.Speculative.{agree, emit}

abbrev pub greedy : ℕ → Unit {0} → ℕ × Unit {0}
greedy token rng = (token, rng)

some_if {ℓ} :
    {A : Type ℓ} (b : Bool) (x y : A) → (if b then some x else some y) ≡ some (if b then x else y)
some_if true x y = refl
some_if false x y = refl

module _ (next : List ℕ → ℕ) where
  -- the model's token after each of the new tokens
  abbrev pub choices : List ℕ → List ℕ → List ℕ
  choices q [] = []
  choices q (t ∷ ts) = next (q ++ t ∷ []) ∷ choices (q ++ t ∷ []) ts

  abbrev pub after : List ℕ → List ℕ → List ℕ
  after q ts = next q ∷ choices q ts

  pub drop-choices :
      (n : ℕ) (q ts : List ℕ) → drop n (choices q ts) ≡ choices (q ++ take n ts) (drop n ts)
  drop-choices zero q ts = ap (λ q. choices q ts) (sym (append-nil q))
  drop-choices (suc n) q [] = refl
  drop-choices (suc n) q (t ∷ ts) =
      drop-choices n (q ++ t ∷ []) ts
      ∙ ap (λ q. choices q (drop n ts)) (append_assoc q (t ∷ []) (take n ts))

  last-choices :
      (q : List ℕ) (t : ℕ) (ts proposal : List ℕ)
      → drop (length ts) (choices q (t ∷ (ts ++ proposal))) ≡ after (q ++ t ∷ ts) proposal
  last-choices q t [] proposal = refl
  last-choices q t (u ∷ ts) proposal =
      last-choices (q ++ t ∷ []) u ts proposal
      ∙ ap (λ q. after q proposal) (append_assoc q (t ∷ []) (u ∷ ts))

  -- the predictions from the last pending token on
  pub pending-choices :
      (q pending proposal : List ℕ)
      → 1 ≤ length pending
      → drop (length pending - 1) (choices q (pending ++ proposal)) ≡ after (q ++ pending) proposal
  pending-choices q [] proposal h = absurd (omega arith)
  pending-choices q (t ∷ ts) proposal h =
      let e : length (t ∷ ts) - 1 ≡ length ts = omega arith in
      ap (λ n. drop n (choices q (t ∷ (ts ++ proposal)))) e ∙ last-choices q t ts proposal

  -- the tokens of a round after q, and how many of them were proposed
  abbrev pub round : List ℕ → List ℕ → List ℕ × ℕ
  round q [] = (next q ∷ [], 0)
  round q (t ∷ proposal) =
      let (tokens, accepted) = round (q ++ t ∷ []) proposal in
      if t == next q then (t ∷ tokens, suc accepted) else (next q ∷ [], 0)

  pub agree-after :
      (q proposal : List ℕ) → agree proposal (after q proposal) ≡ some (round q proposal)
  unfolding agree
  agree-after q [] = refl
  agree-after q (t ∷ proposal) = rw (agree-after (q ++ t ∷ []) proposal) (some_if (t == next q) _ _)

  -- A round's tokens are the accepted proposals with one token of the model.
  pub round-tokens :
      (q proposal : List ℕ)
      → ((round q proposal).1 ≤ length proposal)
        × (bonus : ℕ) × ((round q proposal).0 ≡ take (round q proposal).1 proposal ++ bonus ∷ [])
  round-tokens q [] = (omega arith, next q, refl)
  round-tokens q (t ∷ proposal) =
      let (few, bonus, same) = round-tokens (q ++ t ∷ []) proposal in
      elim (Bool-cases (t == next q)) [
        | inl e ↦ rw e (omega (arith, few), bonus, ap (◌∷◌ t) same)
        | inr e ↦ rw e (omega arith, next q, refl)
      ]

  module _ (eos : List ℕ) where
    -- the reference, cut after what a round emitted
    abbrev pub rest_of : ℕ → List ℕ → List ℕ × Bool → List ℕ
    rest_of room q (emitted, stop) =
        emitted
        ++ (if stop
            then []
            else reference greedy eos next (room - length emitted) (q ++ emitted) tt)

    abbrev add : ℕ → List ℕ × Bool → List ℕ × Bool
    add t (emitted, stop) = if is_in t eos then (t ∷ [], true) else (t ∷ emitted, stop)

    rest_of-add :
        (room : ℕ) (q : List ℕ) (r : List ℕ × Bool)
        → reference greedy eos next room (q ++ next q ∷ []) tt ≡ rest_of room (q ++ next q ∷ []) r
        → reference greedy eos next (suc room) q tt ≡ rest_of (suc room) q (add (next q) r)
    unfolding reference
    rest_of-add room q (emitted, stop) h =
        let less : suc room - length (next q ∷ emitted) ≡ room - length emitted = omega arith in
        elim (Bool-cases (is_in (next q) eos)) [
          | inl e ↦ rw e refl
          | inr e ↦ rw (e, less, ← append_assoc q (next q ∷ []) emitted) (ap (◌∷◌ (next q)) h)
        ]

    emit-nil : (room : ℕ) → emit eos room [] ≡ ([], false)
    unfolding emit
    emit-nil zero = refl
    emit-nil (suc room) = refl

    emit-one :
        (room : ℕ) (q : List ℕ)
        → reference greedy eos next (suc room) q tt
          ≡ rest_of (suc room) q (emit eos (suc room) (next q ∷ []))
    unfolding emit
    emit-one room q =
        let none_left : room - 0 ≡ room = omega arith in
        rest_of-add room q (emit eos room [])
          (rw (emit-nil room, none_left, append-nil (q ++ next q ∷ [])) refl)

    pub reference-zero : (q : List ℕ) → reference greedy eos next zero q tt ≡ []
    unfolding reference
    reference-zero q = refl

    -- What a round emits, whatever was proposed, are the next tokens of the reference.
    pub emit-reference :
        (room : ℕ) (q proposal : List ℕ)
        → reference greedy eos next room q tt ≡ rest_of room q (emit eos room (round q proposal).0)
    unfolding emit
    emit-reference zero q proposal = reference-zero q ∙ sym (reference-zero (q ++ []))
    emit-reference (suc room) q [] = emit-one room q
    emit-reference (suc room) q (t ∷ proposal) = elim (Bool-cases (t == next q)) [
      | inl e ↦
          rw (e, eq_of_beq t (next q) e)
            (rest_of-add room q _ (emit-reference room (q ++ next q ∷ []) proposal))
      | inr e ↦ rw e (emit-one room q)
    ]

-- A round that meets no end token and leaves room emitted all its tokens.
pub emit-all :
    (eos : List ℕ) (room : ℕ) (tokens : List ℕ)
    → (emit eos room tokens).1 ≡ false
    → suc (length (emit eos room tokens).0) ≤ room
    → (emit eos room tokens).0 ≡ tokens
unfolding emit
emit-all eos zero tokens s h = absurd (omega arith)
emit-all eos (suc room) [] s h = refl
emit-all eos (suc room) (t ∷ tokens) s h = ground (arith, emit-all eos room tokens)

pub emit-progress :
    (eos : List ℕ) (room : ℕ) (tokens : List ℕ)
    → 1 ≤ length tokens
    → 1 ≤ length (emit eos (suc room) tokens).0
unfolding emit
emit-progress eos room [] h = absurd (omega arith)
emit-progress eos room (t ∷ tokens) h = ground arith
