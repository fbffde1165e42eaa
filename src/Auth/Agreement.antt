-- ===== src/Auth/Agreement.antt =====
-- A client or worker with a spec of src/distllm/auth.py at a relay that was started with the same spec.
use distllm.Prelude.{
  ℕ, String, string_eq, Bool, true, false, not, ◌||◌, Option, none, some, some_inj, is_some, [],
  ◌==◌, nat_eq, option_eq, list_eq, eq_of_beq, beq_refl, ltb, if◌then◌else◌, ◌>>=◌, ◌≡◌, ◌≢◌, refl,
  sym, ap, subst, ◌∙◌, inl, inr, Bool-cases, Option-cases, arith, Occurs,
}
use distllm.Text.{append, before, after, strip, encode, lower, truthy}
use distllm.Auth.{
  Files, Read, undecodable, contents, unreadable, TokenSet, reread, reload, reload_file, accepts,
  AuthTokens, of_side, side, Side, worker, client, with_side, Gate, passed, check_header,
  require_token, enabled, is_due, matches, first_token, token_set, authorization_of, path_of, Wire,
  parse_tokens, set_auth_tokens, head, first_of_file, bearer, from_spec,
}
use distllm.Auth.Tokens.{matches-Occurs, first-stripped, head-Occurs}

-- A set that holds a token and has read its file, if it has one, as it is.
abbrev Carries : Files → String → TokenSet → Type 0
Carries files t s =
    Occurs (encode t) s.tokens
    × ((path : String) → truthy s.path ≡ some path → (files path).modified ≡ s.mtime)

-- the first token of a text
abbrev FirstOf : String → String → Type 0
FirstOf text t = head (parse_tokens text) ≡ some t

accepts-Carries :
    (files : Files) (now : ℕ) (t : String) (s : TokenSet)
    → Carries files t s
    → (accepts files now t s).0 ≡ some true
unfolding accepts reload
accepts-Carries files now t s (o, same) =
    let yes : ltb 0 (matches (encode t) s.tokens) ≡ true =
      (matches-Occurs (encode t) s.tokens).1 o in
    elim (Option-cases (truthy s.path)) [
      | inl h ↦ rw (accepts, h) (ap some yes)
      | inr (path, h) ↦ elim (Bool-cases (is_due now s.checked)) [
        | inl due ↦ elim (Bool-cases (is_some s.mtime)) [
          | inl read ↦ rw (accepts, h, due, same path h, beq_refl s.mtime, read) (ap some yes)
          | inr never ↦ rw (accepts, h, due, same path h, beq_refl s.mtime, never) (ap some yes)
        ]
        | inr early ↦ rw (accepts, h, early) (ap some yes)
      ]
    ]

check_header-Carries :
    (files : Files) (now : ℕ) (t : String) (s : TokenSet)
    → strip t ≡ t
    → Carries files t s
    → (check_header files now (append "Bearer " t) s).0 ≡ passed
unfolding check_header before after append lower
check_header-Carries files now t s plain c = rw (plain, accepts-Carries files now t s c) refl

-- What a set made from a spec has, by the client's token.
abbrev Matched : Files → String → TokenSet → Type 0
Matched files t s = Carries files t s × (strip t ≡ t)

from_read :
    (files : Files) (now : ℕ) (path t spec : String) (m : ℕ) (r : Read) (s : TokenSet)
    → (files path).modified ≡ some m
    → first_of_file r ≡ some (some t)
    → reread (some m) r (record {
      spec = some spec;
      path = some path;
      tokens = [];
      mtime = none;
      checked = some now;
    })
      ≡ some s
    → Matched files t s
from_read files now path t spec m (contents text) s stat f e =
    let first = some_inj f in
    subst (λ s. Matched files t s) (some_inj e)
      (
        (
          head-Occurs (parse_tokens text) t first,
          λ p there. ap (λ q. (files q).modified) (sym (same_path path p there)) ∙ stat,
        ),
        first-stripped text t first,
      )
  where
    same_path : (path p : String) → truthy (some path) ≡ some p → path ≡ p
    same_path path p e = elim (Bool-cases (path == "")) [
      | inl h ↦ absurd (ground (arith, sym e ∙ ap (λ b. if b then none else some path) h))
      | inr h ↦ some_inj (sym (ap (λ b. if b then none else some path) h) ∙ e)
    ]
from_read files now path t spec m unreadable s stat f e = absurd (ground (arith, f))
from_read files now path t spec m undecodable s stat f e = absurd (ground (arith, f))

from_file :
    (files : Files) (now : ℕ) (spec path t : String) (s : TokenSet)
    → is_some (files path).modified ≡ true
    → first_of_file (files path).read ≡ some (some t)
    → reload_file (files path) (record {
      spec = some spec;
      path = some path;
      tokens = [];
      mtime = none;
      checked = some now;
    })
      ≡ some s
    → Matched files t s
from_file files now spec path t s stat f = elim (Option-cases (files path).modified) [
  | inl e ↦ absurd (ground (arith, e, stat))
  | inr (m, e) ↦ rw e (from_read files now path t spec m (files path).read s e f)
]

spec-Matched :
    (files : Files) (now : ℕ) (spec t : String) (s : TokenSet)
    → path_of spec ≢ some ""
    → ((path : String) → path_of spec ≡ some path → is_some (files path).modified ≡ true)
    → first_token files (some spec) ≡ some (some t)
    → token_set files now (some spec) ≡ some s
    → Matched files t s
unfolding first_token token_set reload
spec-Matched files now spec t s named stat = elim (Bool-cases (spec == "")) [
  | inl h ↦ rw (first_token, h) (λ f e. absurd (ground (arith, f)))
  | inr h ↦ elim (Option-cases (path_of spec)) [
    | inl direct ↦
        rw (first_token, token_set, from_spec, h, direct)
          (λ f e.
            subst (λ s. Matched files t s) (some_inj e)
              (
                (
                  head-Occurs (parse_tokens spec) t (some_inj f),
                  λ p there. absurd (ground (arith, there)),
                ),
                first-stripped spec t (some_inj f),
              ))
    | inr (path, there) ↦ elim (Bool-cases (path == "")) [
      | inl empty ↦ absurd (named (there ∙ ap some (eq_of_beq path "" empty)))
      | inr full ↦
          rw (first_token, token_set, from_spec, h, there, full)
            (from_file files now spec path t s (stat path there))
    ]
  ]
]

-- What httpx encodes, as ASCII, arrives as it is; anything else it refuses.
abbrev pub Faithful : Wire → Type 0
Faithful wire = (v h : String) → wire v ≡ some h → h ≡ v

token_sent :
    (wire : Wire) (o : Option (Option String)) (h : String)
    → Faithful wire
    → o >>= (λ token. bearer wire token) ≡ some (some h)
    → (t : String) × (o ≡ some (some t)) × (append "Bearer " t ≡ h)
token_sent wire none h law e = absurd (ground (arith, e))
token_sent wire (some none) h law e = absurd (ground (arith, e))
token_sent wire (some (some t)) h law e = elim (Option-cases (wire (append "Bearer " t))) [
  | inl bad ↦
      absurd
        (ground (arith, sym (ap (λ o. elim o [ none ↦ none | some h ↦ some (some h) ]) bad) ∙ e))
  | inr (v, good) ↦ (
    t,
    refl,
    sym (law (append "Bearer " t) v good)
        ∙ some_inj
            (some_inj (sym (ap (λ o. elim o [ none ↦ none | some h ↦ some (some h) ]) good) ∙ e)),
  )
]

one_set :
    (o : Option TokenSet) (tokens : AuthTokens)
    → o >>= (λ s. o >>= (λ s'. some (record { of_client = s; of_worker = s' }))) ≡ some tokens
    → (s : TokenSet) × (o ≡ some s) × ((x : Side) → of_side x tokens ≡ s)
one_set none tokens e = absurd (ground (arith, e))
one_set (some s) tokens e = (s, refl, λ x. ap (of_side x) (sym (some_inj e)) ∙ both s x)
  where
    both : (s : TokenSet) (x : Side) → of_side x (record { of_client = s; of_worker = s }) ≡ s
    both s worker = refl
    both s client = refl

abbrev verdict : Gate × AuthTokens → Gate
verdict r = r.0

either_way :
    (b : Bool) (gate : Gate) (t t' : AuthTokens)
    → gate ≡ passed
    → verdict (if b then (passed, t) else (gate, t')) ≡ passed
either_way true gate t t' e = refl
either_way false gate t t' e = e

-- A client or worker that takes its token from a spec gets past the check of a relay that was started
-- with the same spec while the files were the same, also later, on every path, if httpx encodes its
-- header at all: a token that is not ASCII it refuses, and what it encodes arrives as it is. The spec is
-- not "@" alone, and if it names a file, `os.stat` knows the file.
pub require_token-authorization_of :
    (wire : Wire) (files : Files) (started now : ℕ) (spec h : String) (path : String)
    (tokens : AuthTokens)
    → Faithful wire
    → path_of spec ≢ some ""
    → ((file : String) → path_of spec ≡ some file → is_some (files file).modified ≡ true)
    → authorization_of wire files (some spec) ≡ some (some h)
    → set_auth_tokens files started (some spec) none ≡ some tokens
    → (require_token files now (record { path = path; authorization = some h }) tokens).0 ≡ passed
unfolding require_token authorization_of set_auth_tokens
require_token-authorization_of wire files started now spec h path tokens law named stat a e =
    let (t, first, sent) = token_sent wire (first_token files (some spec)) h law a in
    let (s, made, same) = one_set (token_set files started (some spec)) tokens e in
    let (carries, plain) = spec-Matched files started spec t s named stat first made in
    either_way (path == "/" || not (enabled (of_side (side path) tokens)))
      (check_header files now h (of_side (side path) tokens)).0 tokens
      (with_side (side path) (check_header files now h (of_side (side path) tokens)).1 tokens)
      (ap (λ s. (check_header files now h s).0) (same (side path))
        ∙ ap (λ h. (check_header files now h s).0) (sym sent)
        ∙ check_header-Carries files now t s plain carries)
