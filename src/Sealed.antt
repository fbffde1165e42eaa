-- ===== src/Sealed.antt =====
-- Payload encryption: src/distllm/crypto.py, and how `Cluster.submit`, `Cluster._result`, `Worker._decode`
-- and `Worker._report` of src/distllm/worker.py seal and open payloads. The cipher, base64, scrypt and
-- msgpack are parameters.
pub mod Frames
pub mod Keys
pub mod Replies
mod Examples
use Prim.Native.Char.{code}
use Prim.Native.Nat.{◌%◌}
use distllm.Prelude.{
  ℕ, zero, suc, ◌+◌, ◌-◌, String, string_eq, Bool, true, false, not, ◌&&◌, Option, none, some,
  is_some, List, [], ◌∷◌, ◌++◌, ◌==◌, nat_eq, list_eq, option_eq, ltb, if◌then◌else◌, length, take,
  drop, ◌>>=◌,
}
use distllm.Text.{append, encode, truthy}
use distllm.Dict
use distllm.Dict.{Dict}

abbrev pub Bytes : Type 0
Bytes = List ℕ

-- ChaCha20-Poly1305 under a key: by nonce, data and associated data; none is InvalidTag.
pub record Aead : Type 0 where
  pub encrypt : Bytes → Bytes → Bytes → Bytes
  pub decrypt : Bytes → Bytes → Bytes → Option Bytes

abbrev pub magic : Bytes
magic = encode "DLE1"

abbrev pub nonce_size : ℕ
nonce_size = 12

unfoldable pub is_sealed : Bytes → Bool
is_sealed bytes = take (length magic) bytes == magic

-- `seal` with the random nonce
unfoldable pub seal : Aead → Bytes → Bytes → Bytes
seal aead nonce bytes = magic ++ (nonce ++ aead.encrypt nonce bytes magic)

-- `PayloadCipher.open`, none for PayloadDecryptionError
unfoldable pub open_sealed : Aead → Bytes → Option Bytes
unfolding is_sealed
open_sealed aead bytes =
    if not (is_sealed bytes)
    then none
    else aead.decrypt (take nonce_size (drop (length magic) bytes))
        (drop (length magic + nonce_size) bytes) magic

-- `_open`
unfoldable pub open_payload : Option Aead → Bytes → Option Bytes
unfolding open_sealed is_sealed
open_payload (some aead) bytes = open_sealed aead bytes
open_payload none bytes = if is_sealed bytes then none else some bytes

-- What the derivation of a key uses: base64 in its URL-safe alphabet, and scrypt with the fixed salt.
pub record KeyTools : Type 0 where
  pub urlsafe_b64encode : Bytes → String
  pub urlsafe_b64decode : String → Option Bytes
  pub scrypt : Bytes → Bytes

abbrev pub rstrip_equals : String → String
rstrip_equals String.[] = ""
rstrip_equals (String.◌∷◌ c s) =
    let rest = rstrip_equals s in if code c == 61 && rest == "" then "" else String.◌∷◌ c rest

-- the number of characters
abbrev pub chars : String → ℕ
chars String.[] = 0
chars (String.◌∷◌ c s) = suc (chars s)

-- `"=" * n`
abbrev pub equals : ℕ → String
equals zero = ""
equals (suc n) = append "=" (equals n)

-- `generate_key` with the random bytes
unfoldable pub generate_key : KeyTools → Bytes → String
generate_key t raw = rstrip_equals (t.urlsafe_b64encode raw)

abbrev pub stretch : KeyTools → String → Option Bytes
stretch t secret = if ltb (chars secret) 12 then none else some (t.scrypt (encode secret))

-- `_derive_key`, none for the ValueError of a short secret
unfoldable pub derive_key : KeyTools → String → Option Bytes
derive_key t secret =
    elim (t.urlsafe_b64decode (append secret (equals ((4 - chars secret % 4) % 4)))) [
      | none ↦ stretch t secret
      | some raw ↦ if length raw == 32 then some raw else stretch t secret
    ]

-- `cipher_from`: the outer none is the ValueError, the inner one no encryption.
unfoldable pub cipher_from :
    KeyTools → (Bytes → Aead) → Option String → Option String → Option (Option Aead)
unfolding derive_key
cipher_from t chacha secret key_env =
    elim (if is_some (truthy secret) then truthy secret else truthy key_env) [
      | none ↦ some none
      | some s ↦ derive_key t s >>= (λ key. some (some (chacha key)))
    ]

-- A payload or result: a dict, whose items are strings or others, or something else.
pub data Item (V : Type 0) : Type 0 where
  text : String → Item V
  item : V → Item V

pub data Value (V : Type 0) : Type 0 where
  dict : Dict String (Item V) → Value V
  other : V → Value V

-- `pack_payload`, which may raise, and `unpack_payload`
pub record Packing (V : Type 0) : Type 0 where
  pub pack : Value V → Option Bytes
  pub unpack : Bytes → Option (Value V)

abbrev pub rid_key : String
rid_key = "_distllm_rid"

module _ {V : Type 0} (packing : Packing V) (cipher : Option Aead) where
  abbrev pub sealed : Bytes → Bytes → Bytes
  sealed nonce bytes = elim cipher [ none ↦ bytes | some aead ↦ seal aead nonce bytes ]

  abbrev pub with_rid : String → Value V → Value V
  with_rid rid (dict d) = dict (Dict.put rid_key (text rid) d)
  with_rid rid (other v) = other v

  abbrev is_dict : Value V → Bool
  is_dict (dict d) = true
  is_dict (other v) = false

  -- the request id that `submit` makes, if any
  abbrev pub request_id : String → Value V → Option String
  request_id rid payload = if is_some cipher && is_dict payload then some rid else none

  -- the body of `submit`
  unfoldable pub submit_body : Bytes → String → Value V → Option Bytes
  unfolding seal
  submit_body nonce rid payload =
      packing.pack (if is_some (request_id rid payload) then with_rid rid payload else payload)
      >>= (λ bytes. some (sealed nonce bytes))

  -- `_decode`
  unfoldable pub decode : Bytes → Option (Value V)
  unfolding open_payload
  decode bytes = open_payload cipher bytes >>= (λ d. packing.unpack d)

  abbrev text_of : Option (Item V) → Option String
  text_of (some (text s)) = some s
  text_of _ = none

  -- `payload.pop(RID_KEY, None)` where the payload is a dict
  abbrev pub pop_rid : Value V → Option (Item V) × Value V
  pop_rid (dict d) = (Dict.get rid_key d, dict (Dict.delete rid_key d))
  pop_rid (other v) = (none, other v)

  -- `{**result, RID_KEY: rid}` if there is a request id and the result is a dict
  abbrev pub echo : Option (Item V) → Value V → Value V
  echo none result = result
  echo (some rid) (dict d) = dict (Dict.put rid_key rid d)
  echo (some rid) (other v) = other v

  -- the body that `_report` uploads, none where the result cannot be packed
  unfoldable pub report_body : Bytes → Option (Item V) → Value V → Option Bytes
  unfolding seal
  report_body nonce rid result =
      packing.pack (echo rid result) >>= (λ bytes. some (sealed nonce bytes))

  abbrev same_rid : Option (Item V) → String → Bool
  same_rid o expected = text_of o == some expected

  -- whose request a result is for, if the client expects a request id
  abbrev pub accept : Option String → Value V → Option (Value V)
  accept none result = some result
  accept (some expected) (dict d) =
      if same_rid (Dict.get rid_key d) expected then some (dict (Dict.delete rid_key d)) else none
  accept (some expected) (other v) = none

  -- the end of `submit`: the request id stands in the client's table under the relay's task id, in
  -- place of one that stood there
  unfoldable pub note_rid : Option String → String → Dict String String → Dict String String
  note_rid none task_id rids = rids
  note_rid (some rid) task_id rids = Dict.put task_id rid rids

  -- `_result`, none for the exceptions, and the client's table after it
  unfoldable pub result_of :
      Dict String String → String → Bytes → Option (Value V) × Dict String String
  unfolding decode
  result_of rids task_id content = elim (decode content) [
    | none ↦ (none, rids)
    | some result ↦ (accept (Dict.get task_id rids) result, Dict.delete task_id rids)
  ]

  -- what a worker does with the body of a task: `_decode`, `_process` and `_report` around its function
  unfoldable pub work : Bytes → (Value V → Value V) → Bytes → Option Bytes
  unfolding decode report_body
  work nonce func content =
      decode content
      >>= (λ payload. report_body nonce (pop_rid payload).0 (func (pop_rid payload).1))
