-- ===== src/Sealed/Examples.antt =====
-- Sealed requests of src/distllm/worker.py under a cipher that puts one byte before its text.
use distllm.Prelude.{
  ℕ, zero, suc, String, string_eq, true, false, ◌&&◌, Option, none, some, some_inj, [], ◌∷◌, ◌++◌,
  ◌==◌, nat_eq, eq_of_beq, ◌≡◌, refl, sym, ap, subst, ◌∙◌, inl, inr, Bool-cases, arith,
  if◌then◌else◌,
}
use distllm.Text.{append, encode, utf8}
use distllm.Dict
use distllm.Dict.{Dict}
use distllm.Sealed.{
  Bytes, Aead, is_sealed, seal, open_sealed, open_payload, KeyTools, generate_key, derive_key, text,
  item, Value, dict, other, Packing, rid_key, request_id, submit_body, decode, report_body,
  note_rid, result_of, work,
}
use distllm.Sealed.Keys.{derive_key-generate_key}
use distllm.Sealed.Replies.{Packs, result_of-work, result_of-other}

abbrev shifting : Aead
shifting = record {
  encrypt = λ nonce bytes associated. 7 ∷ bytes;
  decrypt = λ nonce bytes associated. elim bytes [ [] ↦ none | x ∷ rest ↦ some rest ];
}

abbrev nonce : Bytes
nonce = 1 ∷ 2 ∷ 3 ∷ 4 ∷ 5 ∷ 6 ∷ 7 ∷ 8 ∷ 9 ∷ 10 ∷ 11 ∷ 12 ∷ []

plain_refused : open_payload (some shifting) (5 ∷ 6 ∷ []) ≡ none
unfolding open_payload open_sealed is_sealed encode utf8
plain_refused = refl

-- 32 zero bytes in base64
abbrev zeros : ℕ → Bytes
zeros zero = []
zeros (suc n) = 0 ∷ zeros n

abbrev body : String
body = "AAAAAAAAAAAAAAAAAAAAAAAAAAAAAAAAAAAAAAAAAAA"

abbrev tools : KeyTools
tools = record {
  urlsafe_b64encode = λ raw. append body "=";
  urlsafe_b64decode = λ s. if s == append body "=" then some (zeros 32) else none;
  scrypt = λ secret. secret;
}

derive_key-generate_key_example : derive_key tools (generate_key tools (zeros 32)) ≡ some (zeros 32)
unfolding append
derive_key-generate_key_example =
    derive_key-generate_key tools (zeros 32) refl (body, refl, refl, refl, refl)

-- dicts with one number, and perhaps one of two request ids
abbrev pack_pair : String → String → ℕ → String → Option Bytes
pack_pair k j n s =
    if k == "x" && j == rid_key
    then (if s == "r1" then some (2 ∷ n ∷ []) else if s == "r2" then some (3 ∷ n ∷ []) else none)
    else none

abbrev pack : Value ℕ → Option Bytes
pack (dict ((k, item n) ∷ [])) = if k == "x" then some (1 ∷ n ∷ []) else none
pack (dict ((k, item n) ∷ (j, text s) ∷ [])) = pack_pair k j n s
pack _ = none

abbrev unpack_pair : ℕ → ℕ → Option (Value ℕ)
unpack_pair t n =
    if t == 1
    then some (dict (("x", item n) ∷ []))
    else if t == 2
    then some (dict (("x", item n) ∷ (rid_key, text "r1") ∷ []))
    else if t == 3
    then some (dict (("x", item n) ∷ (rid_key, text "r2") ∷ []))
    else none

abbrev unpack : Bytes → Option (Value ℕ)
unpack (t ∷ n ∷ []) = unpack_pair t n
unpack _ = none

abbrev packing : Packing ℕ
packing = record { pack = pack; unpack = unpack }

abbrev Fine : Value ℕ → Bytes → Type 0
Fine v bytes = (unpack bytes ≡ some v) × (is_sealed bytes ≡ false)

packed_number :
    (k : String) (n : ℕ) (bytes : Bytes)
    → pack (dict ((k, item n) ∷ [])) ≡ some bytes
    → Fine (dict ((k, item n) ∷ [])) bytes
unfolding is_sealed encode utf8
packed_number k n bytes = elim (Bool-cases (k == "x")) [
  | inr h ↦ rw h (λ e. absurd (ground (arith, e)))
  | inl h ↦ rw h (λ e.
      subst (Fine (dict ((k, item n) ∷ []))) (some_inj e)
        (ap (λ k. some (dict ((k, item n) ∷ []))) (sym (eq_of_beq k "x" h)), refl))
]

pair_same :
    (k j s t : String) (n : ℕ)
    → (k == "x" && j == rid_key) ≡ true
    → (s == t) ≡ true
    → some (dict (("x", item n) ∷ (rid_key, text t) ∷ []))
      ≡ some (dict ((k, item n) ∷ (j, text s) ∷ []))
pair_same k j s t n h e =
    ap (λ k. some (dict ((k, item n) ∷ (rid_key, text t) ∷ [])))
      (sym (eq_of_beq k "x" (ground (arith, h))))
    ∙ ap (λ j. some (dict ((k, item n) ∷ (j, text t) ∷ [])))
        (sym (eq_of_beq j rid_key (ground (arith, h))))
    ∙ ap (λ s. some (dict ((k, item n) ∷ (j, text s) ∷ []))) (sym (eq_of_beq s t e))

packed_pair :
    (k j s : String) (n : ℕ) (bytes : Bytes)
    → pack_pair k j n s ≡ some bytes
    → Fine (dict ((k, item n) ∷ (j, text s) ∷ [])) bytes
unfolding is_sealed encode utf8
packed_pair k j s n bytes = elim (Bool-cases (k == "x" && j == rid_key)) [
  | inr h ↦ rw h (λ e. absurd (ground (arith, e)))
  | inl h ↦ elim (Bool-cases (s == "r1")) [
    | inl h1 ↦
        rw (h, h1)
          (λ e.
            subst (Fine (dict ((k, item n) ∷ (j, text s) ∷ []))) (some_inj e)
              (pair_same k j s "r1" n h h1, refl))
    | inr h1 ↦ elim (Bool-cases (s == "r2")) [
      | inl h2 ↦
          rw (h, h1, h2)
            (λ e.
              subst (Fine (dict ((k, item n) ∷ (j, text s) ∷ []))) (some_inj e)
                (pair_same k j s "r2" n h h2, refl))
      | inr h2 ↦ rw (h, h1, h2) (λ e. absurd (ground (arith, e)))
    ]
  ]
]

packs : Packs packing (some shifting)
packs (dict ((k, item n) ∷ [])) bytes e = packed_number k n bytes e
packs (dict ((k, item n) ∷ (j, text s) ∷ [])) bytes e = packed_pair k j s n bytes e
packs (dict []) bytes e = absurd (ground (arith, e))
packs (dict ((k, text s) ∷ rest)) bytes e = absurd (ground (arith, e))
packs (dict ((k, item n) ∷ (j, item i) ∷ rest)) bytes e = absurd (ground (arith, e))
packs (dict ((k, item n) ∷ (j, text s) ∷ x ∷ rest)) bytes e = absurd (ground (arith, e))
packs (other v) bytes e = absurd (ground (arith, e))

-- a worker that answers 5 with 6
abbrev six : Value ℕ → Value ℕ
six v = dict (("x", item 6) ∷ [])

abbrev request : Bytes
request = 68 ∷ 76 ∷ 69 ∷ 49 ∷ (nonce ++ (7 ∷ 2 ∷ 5 ∷ []))

abbrev reply : Bytes
reply = 68 ∷ 76 ∷ 69 ∷ 49 ∷ (nonce ++ (7 ∷ 2 ∷ 6 ∷ []))

program : Unit {0}
unfolding submit_body report_body decode work open_payload open_sealed is_sealed seal encode utf8
    Dict.put Dict.get Dict.delete
program = tt

abbrev expecting : String → Dict String String
expecting rid = note_rid packing (some shifting) (some rid) "t1" (("t0", "r0") ∷ [])

result_of-work_example :
    (result_of packing
      (some shifting)
      (note_rid packing
        (some shifting)
        (request_id packing (some shifting) "r1" (dict (("x", item 5) ∷ [])))
        "t1"
        (("t0", "r0") ∷ []))
      "t1"
      reply).0
    ≡ some (dict (("x", item 6) ∷ []))
unfolding program
result_of-work_example =
    result_of-work packing (some shifting) nonce nonce "r1" "t1" (("t0", "r0") ∷ [])
      (("x", item 5) ∷ []) (("x", item 6) ∷ []) six request reply packs
      (λ nonce bytes associated. refl) refl refl refl refl refl refl refl refl

result_of-other_example :
    ((result_of packing (some shifting) (expecting "r2") "t1" reply).0 ≡ none)
    × (Dict.get "t1" (result_of packing (some shifting) (expecting "r2") "t1" reply).1 ≡ none)
unfolding program
result_of-other_example =
    result_of-other packing (some shifting) nonce "r1" "r2" "t1" (("t0", "r0") ∷ [])
      (dict (("x", item 6) ∷ [])) reply packs (λ nonce bytes associated. refl) refl refl refl

-- A relay that gives two requests one task id can answer the first with the result of the second.
mixed_up :
    (result_of packing
      (some shifting)
      (note_rid packing (some shifting) (some "r1") "t1" (expecting "r2"))
      "t1"
      reply).0
    ≡ some (dict (("x", item 6) ∷ []))
unfolding program note_rid result_of
mixed_up = refl
