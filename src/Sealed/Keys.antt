-- ===== src/Sealed/Keys.antt =====
-- A generated key of src/distllm/crypto.py is read back as the key that it is.
use Prim.Native.Char.{code}
use distllm.Prelude.{
  String, string_eq, Bool, true, false, not, ◌&&◌, some, ◌==◌, nat_eq, length, ◌≡◌, refl, arith,
}
use distllm.Text.{append}
use distllm.Sealed.{Bytes, KeyTools, rstrip_equals, chars, equals, generate_key, derive_key}

abbrev pub no_equals : String → Bool
no_equals String.[] = true
no_equals (String.◌∷◌ c s) = not (code c == 61) && no_equals s

-- What base64 is for 32 bytes: 43 characters and one "=", which are decoded to the bytes.
abbrev pub Encodes32 : KeyTools → Bytes → Type 0
Encodes32 t raw =
    (body : String) × (t.urlsafe_b64encode raw ≡ append body "=")
    × (chars body ≡ 43)
    × (no_equals body ≡ true)
    × (t.urlsafe_b64decode (append body "=") ≡ some raw)

rstrip_equals-append : (s : String) → no_equals s ≡ true → rstrip_equals (append s "=") ≡ s
unfolding append
rstrip_equals-append String.[] h = refl
rstrip_equals-append (String.◌∷◌ c s) h =
    let here : (code c == 61) ≡ false = ground (arith, h) in
    rw (here, rstrip_equals-append s (ground (arith, h))) refl

one_equals : equals 1 ≡ "="
unfolding append
one_equals = refl

-- A process that gets a key made by `generate_key` as its secret uses the random bytes that the key was
-- made of, not a stretched passphrase. There are 32 of them, which base64 writes as 43 characters and
-- one padding character.
pub derive_key-generate_key :
    (t : KeyTools) (raw : Bytes)
    → length raw ≡ 32
    → Encodes32 t raw
    → derive_key t (generate_key t raw) ≡ some raw
unfolding derive_key generate_key
derive_key-generate_key t raw long (body, text, size, plain, back) =
    rw
      (
        derive_key,
        generate_key,
        text,
        rstrip_equals-append body plain,
        size,
        one_equals,
        back,
        long,
      )
      refl
