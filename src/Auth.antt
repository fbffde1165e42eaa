-- ===== src/Auth.antt =====
-- Token specs, src/distllm/auth.py, and how the relay asks for tokens: `set_auth_tokens`, `_side` and
-- `require_token` of src/distllm/relay.py. Times are whole milliseconds, tokens are compared as bytes,
-- and the files are a parameter: what `os.stat` and reading give at the time of a call.
pub mod Tokens
pub mod Access
pub mod Rotation
pub mod Agreement
mod Examples
use Prim.Native.Char.{code}
use distllm.Prelude.{
  ℕ, suc, ◌+◌, String, Bool, true, false, not, ◌&&◌, ◌||◌, Option, none, some, is_some, List, [],
  ◌∷◌, ◌++◌, map, ◌==◌, nat_eq, string_eq, option_eq, list_eq, ltb, leb, if◌then◌else◌, ◌>>=◌,
}
use distllm.Text.{
  split, splitlines, before, after, strip, nonempty, encode, append, starts_with, lower, truthy,
}

abbrev pub tokens_of_line : String → List String
tokens_of_line line = nonempty (map strip (split 44 (before 35 line)))

abbrev pub tokens_of_lines : List String → List String
tokens_of_lines [] = []
tokens_of_lines (line ∷ lines) = tokens_of_line line ++ tokens_of_lines lines

unfoldable pub parse_tokens : String → List String
parse_tokens text = tokens_of_lines (splitlines text)

-- What `open` and `read` of a file give: its text, an OSError, or a UnicodeDecodeError.
pub data Read : Type 0 where
  contents : String → Read
  unreadable undecodable : Read

-- A file with its `st_mtime_ns`, which is none when `os.stat` raises an OSError.
pub record File : Type 0 where
  pub modified : Option ℕ
  pub read : Read

abbrev pub Files : Type 0
Files = String → File

-- `spec[1:]` of a spec that starts with "@"
abbrev pub path_of : String → Option String
path_of String.[] = none
path_of (String.◌∷◌ c path) = if code c == 64 then some path else none

abbrev pub head : {A : Type 0} → List A → Option A
head [] = none
head (x ∷ xs) = some x

abbrev pub first_of_file : Read → Option (Option String)
first_of_file (contents text) = some (head (parse_tokens text))
first_of_file unreadable = none
first_of_file undecodable = none

-- The outer none: the file could not be read, and the error goes to the caller.
unfoldable pub first_token : Files → Option String → Option (Option String)
first_token files none = some none
first_token files (some spec) = if spec == "" then some none else elim (path_of spec) [
  | none ↦ some (head (parse_tokens spec))
  | some path ↦ first_of_file (files path).read
]

-- httpx's encoding of a header and Starlette's reading of it: none where it raises
abbrev pub Wire : Type 0
Wire = String → Option String

abbrev pub bearer : Wire → Option String → Option (Option String)
bearer wire none = some none
bearer wire (some token) = elim (wire (append "Bearer " token)) [
  | none ↦ none
  | some h ↦ some (some h)
]

-- the header that `_http_client` of src/distllm/worker.py gives every request, as the relay reads it
unfoldable pub authorization_of : Wire → Files → Option String → Option (Option String)
unfolding first_token
authorization_of wire files spec = do token ← first_token files spec; bearer wire token

-- `checked` is none for minus infinity.
pub record TokenSet : Type 0 where
  pub spec : Option String
  pub path : Option String
  pub tokens : List (List ℕ)
  pub mtime : Option ℕ
  pub checked : Option ℕ

abbrev pub reload_interval : ℕ
reload_interval = 1000

-- the body of the try statement: an OSError keeps the tokens, none is a UnicodeDecodeError
abbrev pub reread : Option ℕ → Read → TokenSet → Option TokenSet
reread mtime (contents text) s =
    some (record s { tokens = map encode (parse_tokens text); mtime = mtime })
reread mtime unreadable s = some s
reread mtime undecodable s = none

abbrev pub reload_file : File → TokenSet → Option TokenSet
reload_file file s =
    if is_some file.modified && not (file.modified == s.mtime)
    then reread file.modified file.read s
    else some s

-- `_reload`, which also ends with none by an exception; `checked` is set all the same.
unfoldable pub reload : File → ℕ → TokenSet → Option TokenSet × TokenSet
reload file now s = let s' = record s { checked = some now } in (reload_file file s', s')

abbrev pub from_spec : Files → ℕ → Option String → Option TokenSet
from_spec files now none =
    some (record { spec = none; path = none; tokens = []; mtime = none; checked = none })
from_spec files now (some spec) = elim (truthy (path_of spec)) [
  | none ↦ some (record {
    spec = some spec;
    path = path_of spec;
    tokens = map encode (parse_tokens spec);
    mtime = none;
    checked = none;
  })
  | some path ↦
      (reload (files path) now (record {
        spec = some spec;
        path = some path;
        tokens = [];
        mtime = none;
        checked = none;
      })).0
]

-- `TokenSet.__init__`, none when a token file is not UTF-8
unfoldable pub token_set : Files → ℕ → Option String → Option TokenSet
unfolding reload
token_set files now spec = from_spec files now (truthy spec)

abbrev pub enabled : TokenSet → Bool
enabled s = is_some s.spec

-- `sum(secrets.compare_digest(given, t) for t in tokens)`
abbrev pub matches : List ℕ → List (List ℕ) → ℕ
matches given [] = 0
matches given (t ∷ ts) = let rest = matches given ts in if given == t then suc rest else rest

abbrev pub is_due : ℕ → Option ℕ → Bool
is_due now none = true
is_due now (some checked) = leb (checked + reload_interval) now

abbrev pub answer_after : List ℕ → Option TokenSet × TokenSet → Option Bool × TokenSet
answer_after given (none, s) = (none, s)
answer_after given (some s', s) = (some (ltb 0 (matches given s'.tokens)), s')

-- `accepts`, none when the reload raises
unfoldable pub accepts : Files → ℕ → String → TokenSet → Option Bool × TokenSet
unfolding reload
accepts files now value s =
    let given = encode value in
    elim (truthy s.path) [
      | none ↦ (some (ltb 0 (matches given s.tokens)), s)
      | some path ↦
          if is_due now s.checked
          then answer_after given (reload (files path) now s)
          else (some (ltb 0 (matches given s.tokens)), s)
    ]

pub data Side : Type 0 where
  worker client : Side

abbrev worker_paths : List String
worker_paths = "/register" ∷ "/deregister" ∷ "/heartbeat" ∷ "/poll" ∷ "/result" ∷ "/fail" ∷ []

abbrev starts_with_any : List String → String → Bool
starts_with_any [] path = false
starts_with_any (p ∷ ps) path = starts_with p path || starts_with_any ps path

unfoldable pub side : String → Side
unfolding starts_with
side path = if starts_with_any worker_paths path then worker else client

pub record AuthTokens : Type 0 where
  pub of_client : TokenSet
  pub of_worker : TokenSet

abbrev pub of_side : Side → AuthTokens → TokenSet
of_side worker tokens = tokens.of_worker
of_side client tokens = tokens.of_client

abbrev pub with_side : Side → TokenSet → AuthTokens → AuthTokens
with_side worker s tokens = record tokens { of_worker = s }
with_side client s tokens = record tokens { of_client = s }

-- `worker_token or token`
abbrev pub or_token : Option String → Option String → Option String
or_token worker_token token = if is_some (truthy worker_token) then worker_token else token

-- `set_auth_tokens`, none when a file is not UTF-8
unfoldable pub set_auth_tokens : Files → ℕ → Option String → Option String → Option AuthTokens
set_auth_tokens files now token worker_token = do
  of_client ← token_set files now token
  of_worker ← token_set files now (or_token worker_token token)
  some (record { of_client = of_client; of_worker = of_worker })

pub record Request : Type 0 where
  pub path : String
  pub authorization : Option String

-- The request goes on, is answered with 401, or fails with an exception.
pub data Gate : Type 0 where
  passed unauthorized raised : Gate

abbrev pub header : Option String → String
header none = ""
header (some h) = h

abbrev pub gate_of : Option Bool → Gate
gate_of none = raised
gate_of (some true) = passed
gate_of (some false) = unauthorized

-- the test of the header of a request to a side that has tokens
unfoldable pub check_header : Files → ℕ → String → TokenSet → Gate × TokenSet
check_header files now h s =
    let (accepted, s') = accepts files now (strip (after 32 h)) s in
    if lower (before 32 h) == lower "bearer" then (gate_of accepted, s') else (unauthorized, s)

unfoldable pub require_token : Files → ℕ → Request → AuthTokens → Gate × AuthTokens
unfolding check_header
require_token files now r tokens =
    let expected = of_side (side r.path) tokens in
    let (gate, s) = check_header files now (header r.authorization) expected in
    if r.path == "/" || not (enabled expected)
    then (passed, tokens)
    else (gate, with_side (side r.path) s tokens)
