-- ===== src/Auth/Tokens.antt =====
-- The tokens of a spec of src/distllm/auth.py and the comparison of a given one with them.
use distllm.Prelude.{
  ℕ, suc, String, string_eq, true, false, some, some_inj, List, [], ◌∷◌, ◌++◌, map, ◌==◌, nat_eq,
  list_eq, eq_of_beq, beq_refl, ltb, ◌≡◌, sym, ap, subst, ◌∙◌, ◌↔◌, inl, inr, Bool-cases, arith,
  Occurs,
}
use distllm.Text.{split, splitlines, before, strip, nonempty, encode}
use distllm.Text.Strip.{strip-strip}
use distllm.Auth.{parse_tokens, tokens_of_lines, matches, head}

pub matches-Occurs :
    (given : List ℕ) (ts : List (List ℕ)) → (ltb 0 (matches given ts) ≡ true) ↔ Occurs given ts
matches-Occurs given [] = ground arith
matches-Occurs given (t ∷ ts) =
    let rest = matches-Occurs given ts in
    elim (Bool-cases (given == t)) [
      | inl h ↦ rw h (λ e. inl (sym (eq_of_beq given t h)), λ o. lt_suc (matches given ts))
      | inr h ↦ rw h (λ e. inr (rest.0 e), λ o. rest.1 (other t given ts h o))
    ]
  where
    lt_suc : (n : ℕ) → ltb 0 (suc n) ≡ true
    lt_suc n = ground arith

    other :
        (t given : List ℕ) (ts : List (List ℕ))
        → (given == t) ≡ false
        → Occurs given (t ∷ ts)
        → Occurs given ts
    other t given ts h (inl e) =
        absurd (ground (arith, sym h ∙ ap (λ x. given == x) e ∙ beq_refl given))
    other t given ts h (inr o) = o

abbrev AllStripped : List String → Type 0
AllStripped [] = Unit
AllStripped (w ∷ ws) = (strip w ≡ w) × AllStripped ws

AllStripped-append :
    (vs ws : List String) → AllStripped vs → AllStripped ws → AllStripped (vs ++ ws)
AllStripped-append [] ws a b = b
AllStripped-append (v ∷ vs) ws (h, a) b = (h, AllStripped-append vs ws a b)

AllStripped-nonempty : (ws : List String) → AllStripped (nonempty (map strip ws))
unfolding nonempty
AllStripped-nonempty [] = tt
AllStripped-nonempty (w ∷ ws) = elim (Bool-cases (strip w == "")) [
  | inl h ↦ rw h (AllStripped-nonempty ws)
  | inr h ↦ rw h (strip-strip w, AllStripped-nonempty ws)
]

AllStripped-lines : (lines : List String) → AllStripped (tokens_of_lines lines)
AllStripped-lines [] = tt
AllStripped-lines (line ∷ lines) =
    AllStripped-append (nonempty (map strip (split 44 (before 35 line)))) (tokens_of_lines lines)
      (AllStripped-nonempty (split 44 (before 35 line))) (AllStripped-lines lines)

head-Stripped : (ws : List String) (t : String) → AllStripped ws → head ws ≡ some t → strip t ≡ t
head-Stripped [] t a e = absurd (ground (arith, e))
head-Stripped (w ∷ ws) t (h, a) e = subst (λ x. strip x ≡ x) (some_inj e) h

-- The first of some tokens has no space around it.
pub first-stripped : (text t : String) → head (parse_tokens text) ≡ some t → strip t ≡ t
unfolding parse_tokens
first-stripped text t = head-Stripped (parse_tokens text) t (AllStripped-lines (splitlines text))

pub head-Occurs :
    (ws : List String) (t : String) → head ws ≡ some t → Occurs (encode t) (map encode ws)
head-Occurs [] t e = absurd (ground (arith, e))
head-Occurs (w ∷ ws) t e = inl (ap encode (some_inj e))
