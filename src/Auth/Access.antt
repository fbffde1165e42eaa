-- ===== src/Auth/Access.antt =====
-- What `require_token` of src/distllm/relay.py lets through, and that it lets in whoever has a spec
-- of src/distllm/auth.py like its own.
use distllm.Prelude.{
  ℕ, String, string_eq, Bool, true, false, not, ◌&&◌, Option, none, some, is_some, List, ◌==◌,
  nat_eq, option_eq, list_eq, eq_of_beq, beq_refl, ◌≡◌, refl, sym, ap, ◌∙◌, ◌↔◌, ◌⊎◌, inl, inr,
  Bool-cases, Option-cases, arith, Occurs,
}
use distllm.Text.{before, after, strip, encode, lower, truthy}
use distllm.Auth.{
  Files, File, Read, undecodable, contents, unreadable, TokenSet, reload, reread, reload_file,
  accepts, AuthTokens, of_side, side, Side, worker, client, with_side, Request, Gate, passed,
  unauthorized, raised, header, check_header, require_token, is_due, gate_of, answer_after,
}
use distllm.Auth.Tokens.{matches-Occurs}

-- `accepts` by its result: yes and no are about the tokens that it leaves behind
abbrev Accepted : Files → String → TokenSet → Option Bool × TokenSet → Type 0
Accepted files value s (some b, s') = (b ≡ true) ↔ Occurs (encode value) s'.tokens
Accepted files value s (none, s') =
    (path : String) × (truthy s.path ≡ some path) × ((files path).read ≡ undecodable)

reread-raises : (m : Option ℕ) (r : Read) (s : TokenSet) → reread m r s ≡ none → r ≡ undecodable
reread-raises m (contents text) s e = absurd (ground (arith, e))
reread-raises m unreadable s e = absurd (ground (arith, e))
reread-raises m undecodable s e = refl

reload_file-raises :
    (file : File) (s : TokenSet) → reload_file file s ≡ none → file.read ≡ undecodable
reload_file-raises file s =
    elim (Bool-cases (is_some file.modified && not (file.modified == s.mtime))) [
      | inl h ↦ rw h (λ e. reread-raises file.modified file.read s e)
      | inr h ↦ rw h (λ e. absurd (ground (arith, e)))
    ]

answered :
    (files : Files) (value : String) (s : TokenSet) (path : String) (o : Option TokenSet)
    (kept : TokenSet)
    → truthy s.path ≡ some path
    → (o ≡ none → (files path).read ≡ undecodable)
    → Accepted files value s (answer_after (encode value) (o, kept))
answered files value s path none kept here h = (path, here, h refl)
answered files value s path (some s') kept here h = matches-Occurs (encode value) s'.tokens

pub accepts-Accepted :
    (files : Files) (now : ℕ) (value : String) (s : TokenSet)
    → Accepted files value s (accepts files now value s)
unfolding accepts reload
accepts-Accepted files now value s = elim (Option-cases (truthy s.path)) [
  | inl h ↦ rw (accepts, h) (matches-Occurs (encode value) s.tokens)
  | inr (path, h) ↦ elim (Bool-cases (is_due now s.checked)) [
    | inl due ↦
        rw (accepts, h, due)
          (answered files value s path (reload_file (files path) (record s { checked = some now }))
            (record s { checked = some now }) h
            (reload_file-raises (files path) (record s { checked = some now })))
    | inr due ↦ rw (accepts, h, due) (matches-Occurs (encode value) s.tokens)
  ]
]

-- Who may pass: the page, a side without tokens, and a bearer of one of the side's tokens.
abbrev Admits : Request → Option String → List (List ℕ) → Type 0
Admits r spec tokens =
    (r.path ≡ "/")
    ⊎ ((spec ≡ none)
        ⊎ ((lower (before 32 (header r.authorization)) ≡ lower "bearer")
            × Occurs (encode (strip (after 32 (header r.authorization)))) tokens))

abbrev JudgedBy : Files → Request → TokenSet → Gate → TokenSet → Type 0
JudgedBy files r s passed s' = Admits r s.spec s'.tokens
JudgedBy files r s unauthorized s' = ¬ Admits r s.spec s'.tokens
JudgedBy files r s raised s' =
    (path : String) × (truthy s.path ≡ some path) × ((files path).read ≡ undecodable)

abbrev pub Judged : Files → Request → AuthTokens → Gate × AuthTokens → Type 0
Judged files r tokens (gate, tokens') =
    JudgedBy files r (of_side (side r.path) tokens) gate (of_side (side r.path) tokens')

of_side-with_side :
    (x : Side) (s : TokenSet) (tokens : AuthTokens) → of_side x (with_side x s tokens) ≡ s
of_side-with_side worker s tokens = refl
of_side-with_side client s tokens = refl

-- a request past the first test
barred :
    (r : Request) (spec : Option String) (tokens : List (List ℕ))
    → (r.path == "/") ≡ false
    → is_some spec ≡ true
    → Admits r spec tokens
    → (lower (before 32 (header r.authorization)) ≡ lower "bearer")
      × Occurs (encode (strip (after 32 (header r.authorization)))) tokens
barred r spec tokens page on (inl e) =
    absurd (ground (arith, sym page ∙ ap (λ p. p == "/") e ∙ beq_refl {A = String} "/"))
barred r spec tokens page on (inr (inl e)) = absurd (ground (arith, sym on ∙ ap is_some e))
barred r spec tokens page on (inr (inr b)) = b

by_token :
    (files : Files) (r : Request) (s s' : TokenSet) (accepted : Option Bool)
    → (r.path == "/") ≡ false
    → is_some s.spec ≡ true
    → lower (before 32 (header r.authorization)) ≡ lower "bearer"
    → Accepted files (strip (after 32 (header r.authorization))) s (accepted, s')
    → JudgedBy files r s (gate_of accepted) s'
by_token files r s s' none page on scheme a = a
by_token files r s s' (some true) page on scheme a = inr (inr (scheme, a.0 refl))
by_token files r s s' (some false) page on scheme a =
    λ admits. absurd (ground (arith, a.1 (barred r s.spec s'.tokens page on admits).1))

judged :
    (files : Files) (now : ℕ) (r : Request) (s : TokenSet)
    → (r.path == "/") ≡ false
    → is_some s.spec ≡ true
    → JudgedBy files r s
        (check_header files now (header r.authorization) s).0
        (check_header files now (header r.authorization) s).1
unfolding check_header
judged files now r s page on =
    let h = header r.authorization in
    elim (Bool-cases (lower (before 32 h) == lower "bearer")) [
      | inl e ↦
          rw (check_header, e)
            (by_token files r s (accepts files now (strip (after 32 h)) s).1
              (accepts files now (strip (after 32 h)) s).0 page on
              (eq_of_beq (lower (before 32 h)) (lower "bearer") e)
              (accepts-Accepted files now (strip (after 32 h)) s))
      | inr e ↦
          rw (check_header, e)
            (λ admits. absurd (
              ground (
                arith,
                sym e
                    ∙ ap (λ x. x == lower "bearer") (barred r s.spec s.tokens page on admits).0
                    ∙ beq_refl (lower "bearer"),
              )))
    ]

-- The relay lets a request pass if it is for the page, if its side has no tokens or if it bears one of
-- its side's tokens, and answers 401 otherwise, where the tokens are those after the check, which may
-- have read the token file again. It fails with an exception only if the file is not UTF-8.
pub require_token-Judged :
    (files : Files) (now : ℕ) (r : Request) (tokens : AuthTokens)
    → Judged files r tokens (require_token files now r tokens)
unfolding require_token
require_token-Judged files now r tokens =
    let s = of_side (side r.path) tokens in
    elim (Bool-cases (r.path == "/")) [
      | inl page ↦ rw (require_token, page) (inl (eq_of_beq r.path "/" page))
      | inr page ↦ elim (Option-cases s.spec) [
        | inl off ↦ rw (require_token, page, off) (inr (inl off))
        | inr (spec, on) ↦
            rw
              (
                require_token,
                page,
                on,
                of_side-with_side (side r.path)
                    (check_header files now (header r.authorization) s).1 tokens,
              )
              (judged files now r s page (ap is_some on))
      ]
    ]
