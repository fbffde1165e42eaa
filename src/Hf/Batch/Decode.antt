-- ===== src/Hf/Batch/Decode.antt =====
-- `_decode_batch` of src/distllm/hf.py keeps what `handle` promises: from the table to the rows and back.
use distllm.Prelude.{
  ℕ, ◌≤◌, ltb, Option, none, some, some_inj, List, [], ◌∷◌, map, ◌==◌, nat_eq, string_eq, ◌≡◌, refl,
  sym, ap, subst, inl, inr, arith, Bool-cases, Option-cases, length, if◌then◌else◌,
}
use distllm.Dict
use distllm.Hf.Stage.{Layers, Payload, Session, Limits, result, Sessions}
use distllm.Hf.Stage.Table.{Every-get}
use distllm.Hf.Stage.Tokens.{Lawful, Known, InStep, Tracks}
use distllm.Hf.Stage.Kept.{Tracks-evict}
use distllm.Hf.Batch.{
  Batched, Row, count_id, single_token, row_of, rows_of, longest, outputs, unpad, decode_batch,
  padded, mask,
}
use distllm.Hf.Batch.Rows.{
  learn_all, AnswersAll, RowsHold, LawfulBatch, RowsFor, AgreeOn, unpad-Kept,
}

module _ (l : Layers) (b : Batched l) (w : Lawful l) where
  -- requests for the next token of sessions that come once
  abbrev pub Ready : Known l w → List (Payload l) → Type 0
  Ready g [] = Unit
  Ready g (p ∷ ps) =
      (p.start_pos ≡ length (g p.session_id))
      × ((x : l.X) × (single_token l b p ≡ some x))
      × (count_id p.session_id ps ≡ 0)
      × Ready g ps

  just_one :
      (o : Option (List l.X)) (x : l.X)
      → (elim o [
        | none ↦ none
        | some xs ↦ elim xs [ [] ↦ none | x ∷ rest ↦ if length rest == 0 then some x else none ]
      ])
        ≡ some x
      → o ≡ some (x ∷ [])
  just_one none x e = absurd (ground (arith, e))
  just_one (some []) x e = absurd (ground (arith, e))
  just_one (some (y ∷ [])) x e = ap (λ z. some (z ∷ [])) (some_inj e)
  just_one (some (y ∷ z ∷ xs)) x e = absurd (ground (arith, e))

  longest-cons :
      (r : Row l) (rs : List (Row l)) (n : ℕ)
      → longest l b (r ∷ rs) ≤ n
      → (r.session.held ≤ n) × (longest l b rs ≤ n)
  longest-cons r rs n = elim (Bool-cases (ltb (longest l b rs) r.session.held)) [
    | inl e ↦ rw (longest, e) (λ h. (omega (arith, h), ground (arith, e, h)))
    | inr e ↦ rw (longest, e) (λ h. (ground (arith, e, h), omega (arith, h)))
  ]

  rows_of-cons :
      (m : Sessions l) (p : Payload l) (ps : List (Payload l)) (rows : List (Row l))
      → rows_of l b m (p ∷ ps) ≡ some rows
      → (s : Session l) × (x : l.X) × (rest : List (Row l)) × (Dict.get p.session_id m ≡ some s)
        × (single_token l b p ≡ some x)
        × (rows_of l b m ps ≡ some rest)
        × (record { session_id = p.session_id; session = s; x = x } ∷ rest ≡ rows)
  rows_of-cons m p ps rows = elim (Option-cases (Dict.get p.session_id m)) [
    | inl e ↦ rw (rows_of, row_of, e) (λ f. absurd (ground (arith, f)))
    | inr (s, e) ↦ elim (Option-cases (single_token l b p)) [
      | inl e' ↦ rw (rows_of, row_of, e, e') (λ f. absurd (ground (arith, f)))
      | inr (x, e') ↦ elim (Option-cases (rows_of l b m ps)) [
        | inl e'' ↦ rw (rows_of, row_of, e, e', e'') (λ f. absurd (ground (arith, f)))
        | inr (rest, e'') ↦
            rw (rows_of, row_of, e, e', e'') (λ f. (s, x, rest, refl, refl, refl, some_inj f))
      ]
    ]
  ]

  rows-Right :
      (ps : List (Payload l)) (rows : List (Row l)) (g : Known l w) (m : Sessions l) (n : ℕ)
      → rows_of l b m ps ≡ some rows
      → Ready g ps
      → Tracks l w g m
      → longest l b rows ≤ n
      → RowsFor l b w g ps rows × RowsHold l b w g n rows
  rows-Right [] [] g m n e ready t few = (tt, tt)
  rows-Right [] (r ∷ rows) g m n e ready t few = absurd (ground (arith, e))
  rows-Right (p ∷ ps) rows g m n e (start, (x', token'), once, ready) t few =
      let (s, x, rest, there, token, e', same) = rows_of-cons m p ps rows e in
      let (held, known) = Every-get (InStep l w g) p.session_id s m t there in
      let row : Row l = record { session_id = p.session_id; session = s; x = x } in
      let (here, few') =
        longest-cons row rest n (subst (λ rs. longest l b rs ≤ n) (sym same) few) in
      let (for, hold) = rows-Right ps rest g m n e' ready t few' in
      subst (λ rs. RowsFor l b w g (p ∷ ps) rs × RowsHold l b w g n rs) same
        ((refl, just_one p.input x token, start, once, for), (held, known, here, hold))

  Ready-AgreeOn : (g : Known l w) (ps : List (Payload l)) → AgreeOn l b w g g ps
  Ready-AgreeOn g [] = tt
  Ready-AgreeOn g (p ∷ ps) = (refl, Ready-AgreeOn g ps)

  module _ (lb : LawfulBatch l b w) (limits : Limits) (now : ℕ) where
    pub decode-Kept :
        (ps : List (Payload l)) (g : Known l w) (m m' : Sessions l) (results : List l.Result)
        → decode_batch l b limits now ps m ≡ some (results, m')
        → Ready g ps
        → Tracks l w g m
        → Tracks l w (learn_all l w ps (map (λ r. result r) results) g) m'
          × AnswersAll l w ps (map (λ r. result r) results) g
    unfolding decode_batch
    decode-Kept ps g m m' results = elim (Option-cases (rows_of l b m ps)) [
      | inl e ↦ rw (decode_batch, e) (λ f. absurd (ground (arith, f)))
      | inr (rows, e) ↦
          let n = longest l b rows in
          elim (Option-cases (
            b.base (map (padded l b n) rows) (map (mask l b n) rows)
              (map (λ r. r.session.held) rows) (map (λ r. r.x) rows))) [
                | inl e' ↦ rw (decode_batch, e, e') (λ f. absurd (ground (arith, f)))
                | inr (outs, e') ↦ elim (Option-cases (outputs l b ps outs)) [
                  | inl e'' ↦ rw (decode_batch, e, e', e'') (λ f. absurd (ground (arith, f)))
                  | inr (rs, e'') ↦
                      rw (decode_batch, e, e', e'')
                        (λ f ready t.
                          let (for, hold) = rows-Right ps rows g m n e ready t (omega arith) in
                          let (t', a) =
                            unpad-Kept l b w n now g g ps rows outs rs m for (Ready-AgreeOn g ps)
                              hold (lb.base_alone g n rows outs hold e') e'' t in
                          subst
                            (λ res.
                              Tracks l w (learn_all l w ps (map (λ r. result r) res.0) g) res.1
                              × AnswersAll l w ps (map (λ r. result r) res.0) g)
                            (some_inj f)
                            (
                              Tracks-evict l w (learn_all l w ps (map (λ r. result r) rs) g) limits
                                  now (unpad l b n now rows outs m) t',
                              a,
                            ))
                ]
              ]
    ]
