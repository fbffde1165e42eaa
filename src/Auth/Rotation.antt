-- ===== src/Auth/Rotation.antt =====
-- How the tokens of a file follow it, `TokenSet` of src/distllm/auth.py, over any calls of `accepts`.
use distllm.Prelude.{
  ℕ, ◌+◌, ◌≤◌, String, Bool, true, not, ◌&&◌, Option, none, some, is_some, List, [], ◌∷◌, map, ◌==◌,
  nat_eq, string_eq, option_eq, ltb, ◌≡◌, ◌≢◌, refl, sym, subst, ◌↔◌, ◌⊎◌, inl, inr, Bool-cases,
  arith, Occurs, beq_refl, eq_of_beq,
}
use distllm.Text.{encode, truthy}
use distllm.Auth.{
  Files, File, Read, contents, unreadable, undecodable, TokenSet, reread, reload_file, reload,
  reload_interval, accepts, is_due, matches, answer_after, parse_tokens,
}
use distllm.Auth.Tokens.{matches-Occurs}

-- the set after some calls of `accepts`, each with its time and value
abbrev pub after_calls : Files → List (ℕ × String) → TokenSet → TokenSet
after_calls files [] s = s
after_calls files ((now, value) ∷ calls) s = after_calls files calls (accepts files now value s).1

abbrev pub AllSince : ℕ → List (ℕ × String) → Type 0
AllSince c [] = Unit
AllSince c ((now, value) ∷ calls) = (c ≤ now) × AllSince c calls

abbrev pub CheckedBy : ℕ → Option ℕ → Type 0
CheckedBy c none = Unit
CheckedBy c (some k) = k ≤ c

module _ (files : Files) (path text : String) (m c : ℕ) (stat : (files path).modified ≡ some m)
    (here : (files path).read ≡ contents text) where
  -- The set has read the file as it is, or will do so when it checks next.
  abbrev Follows : TokenSet → Type 0
  Follows s =
      (truthy s.path ≡ some path)
      × (((s.mtime ≡ some m) × (s.tokens ≡ map encode (parse_tokens text)))
          ⊎ (CheckedBy c s.checked × (s.mtime ≢ some m)))

  abbrev UpToDate : Option TokenSet → Type 0
  UpToDate none = ⊥
  UpToDate (some s) =
      (truthy s.path ≡ some path) × (s.mtime ≡ some m) × (s.tokens ≡ map encode (parse_tokens text))

  reload-UpToDate :
      (now : ℕ) (s : TokenSet)
      → Follows s
      → UpToDate (reload_file (files path) (record s { checked = some now }))
  reload-UpToDate now s (there, f) = elim f [
    | inl (same, read) ↦ rw (stat, same, beq_refl m) (there, refl, read)
    | inr (k, other) ↦ elim (Bool-cases (some m == s.mtime)) [
      | inl e ↦ absurd (other (sym (eq_of_beq (some m) s.mtime e)))
      | inr e ↦ rw (stat, e, here) (there, refl, refl)
    ]
  ]

  -- one call, from what it finds
  abbrev pub Right : String → Option Bool × TokenSet → Type 0
  Right value (none, s) = ⊥
  Right value (some b, s) = (b ≡ true) ↔ Occurs (encode value) (map encode (parse_tokens text))

  answered :
      (value : String) (o : Option TokenSet) (s : TokenSet)
      → UpToDate o
      → Right value (answer_after (encode value) (o, s))
        × Follows (answer_after (encode value) (o, s)).1
  answered value none s u = absurd u
  answered value (some s') s (there, same, read) = (
    subst (λ ts. (ltb 0 (matches (encode value) s'.tokens) ≡ true) ↔ Occurs (encode value) ts) read
        (matches-Occurs (encode value) s'.tokens),
    (there, inl (same, read)),
  )

  accepts-Follows :
      (now : ℕ) (value : String) (s : TokenSet)
      → c ≤ now
      → Follows s
      → Follows (accepts files now value s).1
  unfolding accepts reload
  accepts-Follows now value s late (there, f) = elim (Bool-cases (is_due now s.checked)) [
    | inl due ↦
        rw (accepts, there, due)
          (answered value (reload_file (files path) (record s { checked = some now }))
            (record s { checked = some now }) (reload-UpToDate now s (there, f))).1
    | inr early ↦ rw (accepts, there, early) (there, f)
  ]

  calls-Follows :
      (calls : List (ℕ × String)) (s : TokenSet)
      → AllSince c calls
      → Follows s
      → Follows (after_calls files calls s)
  calls-Follows [] s late f = f
  calls-Follows ((now, value) ∷ calls) s (late, rest) f =
      calls-Follows calls (accepts files now value s).1 rest (accepts-Follows now value s late f)

  due_after :
      (now : ℕ) (checked : Option ℕ)
      → c + reload_interval ≤ now
      → CheckedBy c checked
      → is_due now checked ≡ true
  due_after now none late k = refl
  due_after now (some n) late k = ground arith

  accepts-Right :
      (now : ℕ) (value : String) (s : TokenSet)
      → c + reload_interval ≤ now
      → Follows s
      → Right value (accepts files now value s)
  unfolding accepts reload
  accepts-Right now value s late (there, f) = elim (Bool-cases (is_due now s.checked)) [
    | inl due ↦
        rw (accepts, there, due)
          (answered value (reload_file (files path) (record s { checked = some now }))
            (record s { checked = some now }) (reload-UpToDate now s (there, f))).0
    | inr early ↦ elim f [
      | inl (same, read) ↦
          rw (accepts, there, early, read)
            (matches-Occurs (encode value) (map encode (parse_tokens text)))
      | inr (k, other) ↦ absurd (ground (arith, early, due_after now s.checked late k))
    ]
  ]

  -- A token file with another modification time than the one that was read last, which stays as it is
  -- from some time on, takes effect within a second: a call of `accepts` that comes a second after that
  -- time or later accepts exactly the tokens of the file, whatever calls came meanwhile. The set was
  -- last checked before that time.
  pub rotate-Right :
      (calls : List (ℕ × String)) (now : ℕ) (value : String) (s : TokenSet)
      → truthy s.path ≡ some path
      → CheckedBy c s.checked
      → s.mtime ≢ some m
      → AllSince c calls
      → c + reload_interval ≤ now
      → Right value (accepts files now value (after_calls files calls s))
  rotate-Right calls now value s there k other since late =
      accepts-Right now value (after_calls files calls s) late
        (calls-Follows calls s since (there, inr (k, other)))

module _ (path : String) where
  abbrev IsLost : File → Type 0
  IsLost file = (file.modified ≡ none) ⊎ (file.read ≡ unreadable)

  abbrev Keeps : List (List ℕ) → Option TokenSet → Type 0
  Keeps ts none = ⊥
  Keeps ts (some s) = (truthy s.path ≡ some path) × (s.tokens ≡ ts)

  reread-Keeps :
      (o : Option ℕ) (r : Read) (s : TokenSet)
      → truthy s.path ≡ some path
      → r ≡ unreadable
      → Keeps s.tokens (reread o r s)
  reread-Keeps o (contents text) s there e = absurd (ground (arith, e))
  reread-Keeps o unreadable s there e = (there, refl)
  reread-Keeps o undecodable s there e = absurd (ground (arith, e))

  reload-Keeps :
      (file : File) (s : TokenSet)
      → truthy s.path ≡ some path
      → IsLost file
      → Keeps s.tokens (reload_file file s)
  reload-Keeps file s there (inl e) = rw e (there, refl)
  reload-Keeps file s there (inr e) =
      elim (Bool-cases (is_some file.modified && not (file.modified == s.mtime))) [
        | inl h ↦ rw h (reread-Keeps file.modified file.read s there e)
        | inr h ↦ rw h (there, refl)
      ]

  -- one call, by the tokens before it
  abbrev pub ByTokens : List (List ℕ) → String → Option Bool × TokenSet → Type 0
  ByTokens ts value (none, s) = ⊥
  ByTokens ts value (some b, s) =
      ((b ≡ true) ↔ Occurs (encode value) ts) × (truthy s.path ≡ some path) × (s.tokens ≡ ts)

  answered_kept :
      (ts : List (List ℕ)) (value : String) (o : Option TokenSet) (s : TokenSet)
      → Keeps ts o
      → ByTokens ts value (answer_after (encode value) (o, s))
  answered_kept ts value none s k = absurd k
  answered_kept ts value (some s') s (there, same) = (
    subst (λ us. (ltb 0 (matches (encode value) s'.tokens) ≡ true) ↔ Occurs (encode value) us) same
        (matches-Occurs (encode value) s'.tokens),
    there,
    same,
  )

  accepts-ByTokens :
      (files : Files) (now : ℕ) (value : String) (s : TokenSet)
      → IsLost (files path)
      → truthy s.path ≡ some path
      → ByTokens s.tokens value (accepts files now value s)
  unfolding accepts reload
  accepts-ByTokens files now value s lost there = elim (Bool-cases (is_due now s.checked)) [
    | inl due ↦
        rw (accepts, there, due)
          (answered_kept s.tokens value (reload_file (files path) (record s { checked = some now }))
            (record s { checked = some now })
            (reload-Keeps (files path) (record s { checked = some now }) there lost))
    | inr early ↦ rw (accepts, there, early) (matches-Occurs (encode value) s.tokens, there, refl)
  ]

  step-ByTokens :
      (files : Files) (calls : List (ℕ × String)) (now : ℕ) (value : String) (ts : List (List ℕ))
      (value' : String) (got : Option Bool × TokenSet)
      → ((s : TokenSet)
          → truthy s.path ≡ some path
          → s.tokens ≡ ts
          → ByTokens ts value (accepts files now value (after_calls files calls s)))
      → ByTokens ts value' got
      → ByTokens ts value (accepts files now value (after_calls files calls got.1))
  step-ByTokens files calls now value ts value' (none, s) go k = absurd k
  step-ByTokens files calls now value ts value' (some b, s) go (right, there, same) =
      go s there same

  lost-ByTokens :
      (files : Files) (calls : List (ℕ × String)) (now : ℕ) (value : String) (ts : List (List ℕ))
      → IsLost (files path)
      → (s : TokenSet) → truthy s.path ≡ some path
      → s.tokens ≡ ts
      → ByTokens ts value (accepts files now value (after_calls files calls s))
  lost-ByTokens files [] now value ts lost s there same =
      subst (λ us. ByTokens us value (accepts files now value s)) same
        (accepts-ByTokens files now value s lost there)
  lost-ByTokens files ((then', value') ∷ calls) now value ts lost s there same =
      step-ByTokens files calls now value ts value' (accepts files then' value' s)
        (λ s'. lost-ByTokens files calls now value ts lost s')
        (subst (λ us. ByTokens us value' (accepts files then' value' s)) same
          (accepts-ByTokens files then' value' s lost there))

  -- While the token file is missing or cannot be read, every call of `accepts` answers by the tokens
  -- that were read last, and keeps them, whatever calls came before.
  pub lost-KeepsTokens :
      (files : Files) (calls : List (ℕ × String)) (now : ℕ) (value : String) (s : TokenSet)
      → IsLost (files path)
      → truthy s.path ≡ some path
      → ByTokens s.tokens value (accepts files now value (after_calls files calls s))
  lost-KeepsTokens files calls now value s lost there =
      lost-ByTokens files calls now value s.tokens lost s there refl
