-- ===== src/Sealed/Frames.antt =====
-- The frame of a sealed payload, src/distllm/crypto.py and `_open` of src/distllm/worker.py.
use distllm.Prelude.{
  ◌+◌, true, none, some, [], ◌∷◌, ◌++◌, ◌==◌, nat_eq, list_eq, beq_refl, ◌≡◌, refl, sym, ap, ◌∙◌,
  length, take, drop, drop-length, drop-length_add,
}
use distllm.Sealed.{Bytes, Aead, magic, nonce_size, is_sealed, seal, open_sealed, open_payload}

-- What is encrypted is decrypted with the same nonce and associated data.
abbrev pub Decrypts : Aead → Type 0
Decrypts a =
    (nonce bytes associated : Bytes)
    → a.decrypt nonce (a.encrypt nonce bytes associated) associated ≡ some bytes

take-prefix : (xs ys : Bytes) → take (length xs) (xs ++ ys) ≡ xs
take-prefix [] ys = refl
take-prefix (x ∷ xs) ys = ap (◌∷◌ x) (take-prefix xs ys)

is_sealed-magic : (rest : Bytes) → is_sealed (magic ++ rest) ≡ true
unfolding is_sealed
is_sealed-magic rest = ap (λ xs. xs == magic) (take-prefix magic rest) ∙ beq_refl magic

nonce_of :
    (nonce rest : Bytes) → length nonce ≡ nonce_size → take nonce_size (nonce ++ rest) ≡ nonce
nonce_of nonce rest e = ap (λ n. take n (nonce ++ rest)) (sym e) ∙ take-prefix nonce rest

after_nonce :
    (nonce rest : Bytes)
    → length nonce ≡ nonce_size
    → drop (length magic + nonce_size) (magic ++ (nonce ++ rest)) ≡ rest
after_nonce nonce rest e =
    drop-length_add magic (nonce ++ rest) nonce_size
    ∙ ap (λ n. drop n (nonce ++ rest)) (sym e)
    ∙ drop-length nonce rest

pub open_sealed-seal :
    (a : Aead) (nonce bytes : Bytes)
    → Decrypts a
    → length nonce ≡ nonce_size
    → open_sealed a (seal a nonce bytes) ≡ some bytes
unfolding open_sealed seal
open_sealed-seal a nonce bytes law e =
    let rest = a.encrypt nonce bytes magic in
    rw
      (
        is_sealed-magic (nonce ++ rest),
        drop-length magic (nonce ++ rest),
        nonce_of nonce rest e,
        after_nonce nonce rest e,
      )
      (law nonce bytes magic)

-- A payload that was sealed is opened with the same key, and refused by a process without a key. The
-- cipher decrypts what it encrypts, and the nonce has its size.
pub open_payload-seal :
    (a : Aead) (nonce bytes : Bytes)
    → Decrypts a
    → length nonce ≡ nonce_size
    → (open_payload (some a) (seal a nonce bytes) ≡ some bytes)
      × (open_payload none (seal a nonce bytes) ≡ none)
unfolding open_payload seal
open_payload-seal a nonce bytes law e = (
  open_sealed-seal a nonce bytes law e,
  rw (is_sealed-magic (nonce ++ a.encrypt nonce bytes magic)) refl,
)
