-- ===== src/Auth/Examples.antt =====
-- Token specs of src/distllm/auth.py and a relay of src/distllm/relay.py that asks for tokens.
use distllm.Prelude.{
  String, string_eq, true, none, some, some_inj, is_some, [], ◌∷◌, ◌==◌, nat_eq, option_eq, list_eq,
  if◌then◌else◌, ◌≡◌, ◌≢◌, refl, ap, sym, inl, arith,
}
use distllm.Text.{
  append, before, after, starts_with, lower, strip, lstrip, rstrip, is_space, split, splitlines,
  is_line_break, nonempty, encode, utf8,
}
use distllm.Auth.{
  Files, contents, unreadable, TokenSet, reload, accepts, AuthTokens, side, worker, client, Request,
  passed, unauthorized, check_header, require_token, first_token, token_set, authorization_of,
  path_of, Wire, parse_tokens, set_auth_tokens,
}
use distllm.Auth.Access.{Judged, require_token-Judged}
use distllm.Auth.Rotation.{after_calls, Right, rotate-Right, ByTokens, lost-KeepsTokens}
use distllm.Auth.Agreement.{Faithful, require_token-authorization_of}

abbrev disk : Files
disk path =
    if path == "tokens"
    then record { modified = some 5; read = contents "# rotated\nnew" }
    else record { modified = none; read = unreadable }

abbrev no_disk : Files
no_disk path = record { modified = none; read = unreadable }

parsed : parse_tokens "# comment\r\n a , b#c\n\n,d" ≡ "a" ∷ "b" ∷ "d" ∷ []
unfolding parse_tokens splitlines is_line_break split before nonempty strip lstrip rstrip is_space
parsed = refl

sides : (side "/poll/stage-0" ≡ worker) × (side "/submit" ≡ client) × (side "/results" ≡ worker)
unfolding side starts_with
sides = (refl, refl, refl)

abbrev old_set : TokenSet
old_set = record {
  spec = some "@tokens";
  path = some "tokens";
  tokens = encode "old" ∷ [];
  mtime = some 4;
  checked = some 900;
}

abbrev asked : Request
asked = record { path = "/submit"; authorization = some "Bearer old" }

abbrev both : AuthTokens
both = record { of_client = old_set; of_worker = old_set }

-- The client asks before the file is checked again, with the token that it no longer has.
let_in : (require_token disk 950 asked both).0 ≡ passed
unfolding require_token check_header accepts append before after lower strip lstrip rstrip is_space
    side starts_with encode utf8
let_in = refl

refused : (require_token disk 2000 asked both).0 ≡ unauthorized
unfolding require_token check_header accepts reload append before after lower strip lstrip rstrip
    is_space side starts_with encode utf8 parse_tokens splitlines is_line_break split nonempty
refused = refl

require_token-Judged_example : Judged disk asked both (require_token disk 2000 asked both)
require_token-Judged_example = require_token-Judged disk 2000 asked both

rotate-Right_example :
    Right disk "tokens" "# rotated\nnew" 5 1000 refl refl "new"
      (accepts disk 2000 "new" (after_calls disk ((1200, "old") ∷ []) old_set))
rotate-Right_example =
    rotate-Right disk "tokens" "# rotated\nnew" 5 1000 refl refl ((1200, "old") ∷ []) 2000 "new"
      old_set refl (omega arith) (λ e. ground (arith, e)) (omega arith, tt) (omega arith)

lost-KeepsTokens_example :
    ByTokens "tokens"
      (encode "old" ∷ [])
      "old"
      (accepts no_disk 5000 "old" (after_calls no_disk ((3000, "new") ∷ []) old_set))
lost-KeepsTokens_example =
    lost-KeepsTokens "tokens" no_disk ((3000, "new") ∷ []) 5000 "old" old_set (inl refl) refl

abbrev started : AuthTokens
started =
    let s : TokenSet = record {
      spec = some "@tokens";
      path = some "tokens";
      tokens = encode "new" ∷ [];
      mtime = some 5;
      checked = some 100;
    } in
    record { of_client = s; of_worker = s }

-- no header here has a character beyond ASCII
abbrev plain : Wire
plain v = some v

faithful : Faithful plain
faithful v h e = some_inj (sym e)

sends : authorization_of plain disk (some "@tokens") ≡ some (some "Bearer new")
unfolding authorization_of first_token parse_tokens splitlines is_line_break split before nonempty
    strip lstrip rstrip is_space append
sends = refl

starts : set_auth_tokens disk 100 (some "@tokens") none ≡ some started
unfolding set_auth_tokens token_set reload parse_tokens splitlines is_line_break split before
    nonempty strip lstrip rstrip is_space
starts = refl

named : path_of "@tokens" ≢ some ""
named e = absurd (ground (arith, ap (λ o. o == some "") e))

known : (file : String) → path_of "@tokens" ≡ some file → is_some (disk file).modified ≡ true
known file e = ap (λ o. elim o [ none ↦ true | some f ↦ is_some (disk f).modified ]) (sym e)

require_token-authorization_of_example :
    (require_token disk 7000
      (record { path = "/poll/stage-0"; authorization = some "Bearer new" })
      started).0
    ≡ passed
require_token-authorization_of_example =
    require_token-authorization_of plain disk 100 7000 "@tokens" "Bearer new" "/poll/stage-0"
      started faithful named known sends starts
