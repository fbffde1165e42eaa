-- ===== src/Sealed/Replies.antt =====
-- A sealed request and its sealed result, src/distllm/worker.py: the client gets the result that the
-- worker made for it, and refuses the result of another request.
use distllm.Prelude.{
  String, string_eq, true, false, ◌&&◌, Option, none, some, some_inj, is_some, [], ◌∷◌, ◌==◌,
  nat_eq, list_eq, option_eq, beq_refl, length, ◌≡◌, refl, sym, ap, subst, ◌∙◌, inl, inr,
  Bool-cases, Option-cases, arith, ◌>>=◌, if◌then◌else◌,
}
use distllm.Dict
use distllm.Dict.{Dict, get-put, get-delete}
use distllm.Sealed.{
  Bytes, Aead, nonce_size, is_sealed, seal, open_payload, Item, text, Value, dict, other, Packing,
  rid_key, sealed, request_id, submit_body, decode, pop_rid, echo, report_body, accept, note_rid,
  result_of, work,
}
use distllm.Sealed.Frames.{Decrypts, open_payload-seal}

delete-put_new :
    {V : Type 0} (k : String) (v : V) (m : Dict String V)
    → Dict.get k m ≡ none
    → Dict.delete k (Dict.put k v m) ≡ m
unfolding Dict.get Dict.put Dict.delete
delete-put_new k v [] e = rw (beq_refl k) refl
delete-put_new k v ((j, w) ∷ m) e = elim (Bool-cases (j == k)) [
  | inl same ↦ absurd (ground (arith, same, e))
  | inr o ↦ rw (o, o, delete-put_new k v m (ground (arith, o, e))) refl
]

delete-absent :
    {V : Type 0} (k : String) (m : Dict String V) → Dict.get k m ≡ none → Dict.delete k m ≡ m
unfolding Dict.get Dict.delete
delete-absent k [] e = refl
delete-absent k ((j, w) ∷ m) e = elim (Bool-cases (j == k)) [
  | inl same ↦ absurd (ground (arith, same, e))
  | inr o ↦ rw (o, delete-absent k m (ground (arith, o, e))) refl
]

module _ {V : Type 0} (packing : Packing V) (cipher : Option Aead) where
  -- What is packed is unpacked, and no packed value begins with the magic bytes.
  abbrev pub Packs : Type 0
  Packs =
      (v : Value V) (bytes : Bytes)
      → packing.pack v ≡ some bytes
      → (packing.unpack bytes ≡ some v) × (is_sealed bytes ≡ false)

  abbrev pub DecryptsIf : Option Aead → Type 0
  DecryptsIf none = Unit
  DecryptsIf (some a) = Decrypts a

  open-sealed :
      (c : Option Aead) (nonce bytes : Bytes)
      → DecryptsIf c
      → length nonce ≡ nonce_size
      → is_sealed bytes ≡ false
      → open_payload c (elim c [ none ↦ bytes | some aead ↦ seal aead nonce bytes ]) ≡ some bytes
  unfolding open_payload
  open-sealed none nonce bytes law e plain = rw (open_payload, plain) refl
  open-sealed (some a) nonce bytes law e plain = (open_payload-seal a nonce bytes law e).0

  -- what was packed and sealed is decoded
  decode-packed :
      (nonce : Bytes) (v : Value V) (content : Bytes)
      → Packs
      → DecryptsIf cipher
      → length nonce ≡ nonce_size
      → packing.pack v >>= (λ bytes. some (sealed packing cipher nonce bytes)) ≡ some content
      → decode packing cipher content ≡ some v
  unfolding decode
  decode-packed nonce v content packs law e = elim (Option-cases (packing.pack v)) [
    | inl h ↦ rw h (λ f. absurd (ground (arith, f)))
    | inr (bytes, h) ↦
        let (back, plain) = packs v bytes h in
        rw h (λ f.
          ap (λ c. open_payload cipher c >>= (λ d. packing.unpack d)) (sym (some_inj f))
          ∙ ap (λ o. o >>= (λ d. packing.unpack d)) (open-sealed cipher nonce bytes law e plain)
          ∙ back)
  ]

  accept-own :
      (rid : String) (d : Dict String (Item V))
      → Dict.get rid_key d ≡ none
      → accept packing cipher (some rid) (dict (Dict.put rid_key (text rid) d)) ≡ some (dict d)
  accept-own rid d e =
      rw
        (
          accept,
          get-put rid_key rid_key (text rid) d,
          beq_refl rid,
          delete-put_new rid_key (text rid) d e,
        )
        refl

  refused :
      (rid expected : String) (result : Value V)
      → (rid == expected) ≡ false
      → accept packing cipher (some expected) (echo packing cipher (some (text rid)) result) ≡ none
  refused rid expected (dict d) o = rw (accept, get-put rid_key rid_key (text rid) d, o) refl
  refused rid expected (other v) o = refl

  popped :
      (rid : String) (d : Dict String (Item V))
      → Dict.get rid_key d ≡ none
      → pop_rid packing cipher (dict (Dict.put rid_key (text rid) d)) ≡ (some (text rid), dict d)
  popped rid d e =
      rw (pop_rid, get-put rid_key rid_key (text rid) d, delete-put_new rid_key (text rid) d e) refl

  -- a result, opened and judged by the request id that is expected
  abbrev opened : Option String → Bytes → Option (Value V)
  opened expected content = decode packing cipher content >>= accept packing cipher expected

  -- a request with its id, from the worker's side and back
  answered :
      (nonce : Bytes) (rid : Option (Item V)) (result : Value V) (content : Bytes)
      (expected : Option String)
      → Packs
      → DecryptsIf cipher
      → length nonce ≡ nonce_size
      → report_body packing cipher nonce rid result ≡ some content
      → accept packing cipher expected (echo packing cipher rid result) ≡ some result
      → opened expected content ≡ some result
  unfolding report_body
  answered nonce rid result content expected packs law e reported mine =
      ap (λ o. o >>= accept packing cipher expected)
        (decode-packed nonce (echo packing cipher rid result) content packs law e reported)
      ∙ mine

  worked :
      (nonce : Bytes) (func : Value V → Value V) (payload result : Value V) (rid : Option (Item V))
      (sent : Value V) (body content : Bytes) (expected : Option String)
      → Packs
      → DecryptsIf cipher
      → length nonce ≡ nonce_size
      → decode packing cipher body ≡ some sent
      → pop_rid packing cipher sent ≡ (rid, payload)
      → func payload ≡ result
      → work packing cipher nonce func body ≡ some content
      → accept packing cipher expected (echo packing cipher rid result) ≡ some result
      → opened expected content ≡ some result
  unfolding work
  worked nonce func payload result rid sent body content expected packs law e decoded popped' done
        reported mine =
      answered nonce rid result content expected packs law e
        (ap (λ r. report_body packing cipher nonce rid r) (sym done)
          ∙ ap (λ x. report_body packing cipher nonce x.0 (func x.1)) (sym popped')
          ∙ ap
              (λ o. o >>= (λ payload.
                report_body packing cipher nonce (pop_rid packing cipher payload).0
                  (func (pop_rid packing cipher payload).1)))
              (sym decoded)
          ∙ reported)
        mine

  opened-work :
      (nonce nonce' : Bytes) (rid : String) (d e : Dict String (Item V)) (func : Value V → Value V)
      (body content : Bytes)
      → Packs
      → DecryptsIf cipher
      → length nonce ≡ nonce_size
      → length nonce' ≡ nonce_size
      → Dict.get rid_key d ≡ none
      → Dict.get rid_key e ≡ none
      → func (dict d) ≡ dict e
      → submit_body packing cipher nonce rid (dict d) ≡ some body
      → work packing cipher nonce' func body ≡ some content
      → opened (request_id packing cipher rid (dict d)) content ≡ some (dict e)
  unfolding submit_body
  opened-work nonce nonce' rid d e func body content packs law n n' free free' done sent reported =
      elim (Bool-cases (is_some cipher)) [
        | inl on ↦
            let kept =
              ap
                (λ b.
                  if is_some (if b && true then some rid else none)
                  then dict (Dict.put rid_key (text rid) d)
                  else dict d)
                on in
            subst (λ b. opened (if b && true then some rid else none) content ≡ some (dict e))
              (sym on)
              (worked nonce' func (dict d) (dict e) (some (text rid))
                (dict (Dict.put rid_key (text rid) d)) body content (some rid) packs law n'
                (decode-packed nonce (dict (Dict.put rid_key (text rid) d)) body packs law n (
                  ap (λ v. packing.pack v >>= (λ bytes. some (sealed packing cipher nonce bytes)))
                    (sym kept)
                  ∙ sent))
                (popped rid d free) done reported (accept-own rid e free'))
        | inr off ↦
            let kept =
              ap
                (λ b.
                  if is_some (if b && true then some rid else none)
                  then dict (Dict.put rid_key (text rid) d)
                  else dict d)
                off in
            subst (λ b. opened (if b && true then some rid else none) content ≡ some (dict e))
              (sym off)
              (worked nonce' func (dict d) (dict e) none (dict d) body content none packs law n'
                (decode-packed nonce (dict d) body packs law n (
                  ap (λ v. packing.pack v >>= (λ bytes. some (sealed packing cipher nonce bytes)))
                    (sym kept)
                  ∙ sent))
                (rw (pop_rid, free, delete-absent rid_key d free) refl) done reported refl)
      ]

  noted :
      (rid : Option String) (task_id : String) (rids : Dict String String)
      → Dict.get task_id rids ≡ none
      → Dict.get task_id (note_rid packing cipher rid task_id rids) ≡ rid
  unfolding note_rid
  noted none task_id rids e = e
  noted (some rid) task_id rids e = rw (get-put, beq_refl task_id) refl

  by_table :
      (rids : Dict String String) (task_id : String) (content : Bytes) (expected : Option String)
      → Dict.get task_id rids ≡ expected
      → (result_of packing cipher rids task_id content).0 ≡ opened expected content
  unfolding result_of
  by_table rids task_id content expected e = elim (Option-cases (decode packing cipher content)) [
    | inl bad ↦ rw (result_of, bad) refl
    | inr (v, good) ↦ rw (result_of, good, e) refl
  ]

  -- A client gets the result that the worker's function made for its request, with a shared key and
  -- without one: a dict, of which neither side uses the request id's key. The bodies could be packed,
  -- msgpack unpacks what it packs, the cipher decrypts what it encrypts, and nonces have their size.
  -- The relay gave the request a task id under which the client expects no other result.
  pub result_of-work :
      (nonce nonce' : Bytes) (rid task_id : String) (rids : Dict String String)
      (d e : Dict String (Item V)) (func : Value V → Value V) (body content : Bytes)
      → Packs
      → DecryptsIf cipher
      → length nonce ≡ nonce_size
      → length nonce' ≡ nonce_size
      → Dict.get rid_key d ≡ none
      → Dict.get rid_key e ≡ none
      → func (dict d) ≡ dict e
      → Dict.get task_id rids ≡ none
      → submit_body packing cipher nonce rid (dict d) ≡ some body
      → work packing cipher nonce' func body ≡ some content
      → let rids' = note_rid packing cipher (request_id packing cipher rid (dict d)) task_id rids in
        (result_of packing cipher rids' task_id content).0 ≡ some (dict e)
  result_of-work nonce nonce' rid task_id rids d e func body content packs law n n' free free' done
        unknown sent reported =
      let expected = request_id packing cipher rid (dict d) in
      by_table (note_rid packing cipher expected task_id rids) task_id content expected
        (noted expected task_id rids unknown)
      ∙ opened-work nonce nonce' rid d e func body content packs law n n' free free' done sent
          reported

  -- A result that was made for another request id is refused, whatever it is, where the last request
  -- that the relay gave this task id to had an id; the client then expects nothing for the task any more.
  pub result_of-other :
      (nonce : Bytes) (rid expected task_id : String) (rids : Dict String String) (result : Value V)
      (content : Bytes)
      → Packs
      → DecryptsIf cipher
      → length nonce ≡ nonce_size
      → (rid == expected) ≡ false
      → report_body packing cipher nonce (some (text rid)) result ≡ some content
      → let after =
          result_of packing cipher
            (note_rid packing cipher (some expected) task_id rids)
            task_id
            content in
        (after.0 ≡ none) × (Dict.get task_id after.1 ≡ none)
  unfolding report_body result_of note_rid
  result_of-other nonce rid expected task_id rids result content packs law e other' reported =
      rw
        (
          result_of,
          decode-packed nonce (echo packing cipher (some (text rid)) result) content packs law e
              reported,
          get-put,
          beq_refl task_id,
        )
        (refused rid expected result other', rw (get-delete, beq_refl task_id) refl)
