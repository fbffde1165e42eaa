-- ===== src/Hf/Through/Laws.antt =====
-- What the stages of a chain promise, and a chain of them as one: `_through` of src/distllm/hf.py.
use distllm.Prelude.{
  Bool, List, [], ◌∷◌, ◌++◌, ◌≡◌, refl, sym, ap, subst, ◌∙◌, length, drop, drop-length, arith,
}
use distllm.Hf.Through.{Asked, passed, ended, missed, lost, raised, Part, States, then_ask, through}

empty-length : {X : Type 0} (xs : List X) → length xs ≡ 0 → xs ≡ []
empty-length [] e = refl
empty-length (x ∷ xs) e = absurd (ground (arith, e))

drop-hidden :
    {X : Type 0} (q ys zs : List X) → length q ≡ length zs → drop (length q) (zs ++ ys) ≡ ys
drop-hidden q ys zs e = ap (λ n. drop n (zs ++ ys)) e ∙ drop-length zs ys

module _ {X Out : Type 0} where
  -- What becomes of a stage that is asked for new tokens after some others: what it keeps is right
  -- whatever it answers.
  abbrev pub InnerAnswer :
      {S : Type 0}
      → (S → List X → Type 0)
      → (List X → List X)
      → List X
      → List X
      → Asked X Out
      → S
      → Type 0
  InnerAnswer Keeps hidden q new (passed ys) s =
      Keeps s (q ++ new) × (hidden (q ++ new) ≡ hidden q ++ ys)
  InnerAnswer Keeps hidden q new (ended out) s = ⊥
  InnerAnswer Keeps hidden q new missed s = Keeps s q
  InnerAnswer Keeps hidden q new lost s = Keeps s q
  InnerAnswer Keeps hidden q new raised s = Keeps s q

  abbrev pub LastAnswer :
      {S : Type 0}
      → (S → List X → Type 0)
      → (List X → List X → Out)
      → List X
      → List X
      → Asked X Out
      → S
      → Type 0
  LastAnswer Keeps whole q new (ended out) s = Keeps s (q ++ new) × (out ≡ whole q new)
  LastAnswer Keeps whole q new (passed ys) s = Keeps s q
  LastAnswer Keeps whole q new missed s = Keeps s q
  LastAnswer Keeps whole q new lost s = Keeps s q
  LastAnswer Keeps whole q new raised s = Keeps s q

  -- A stage before the last: `hidden` are the hidden states of a sequence, and `Keeps s q` says that no
  -- request after q is answered from other tokens than q.
  pub record Inner (p : Part X Out) : Type 1 where
    pub Keeps : p.State → List X → Type 0
    pub hidden : List X → List X
    pub length_hidden : (q : List X) → length (hidden q) ≡ length q
    pub causal : (q rest : List X) → (ys : List X) × (hidden (q ++ rest) ≡ hidden q ++ ys)
    pub fresh : (s : p.State) → Keeps s []
    pub shorter : (s : p.State) (q rest : List X) → Keeps s (q ++ rest) → Keeps s q
    pub asks :
        (s : p.State) (q new : List X) (rewind : Bool)
        → Keeps s q
        → InnerAnswer Keeps hidden q new
            (p.ask s (length q) rewind new).0
            (p.ask s (length q) rewind new).1

  -- the last stage, with its output for new tokens after a prefix
  pub record Last (p : Part X Out) : Type 1 where
    pub Keeps : p.State → List X → Type 0
    pub whole : List X → List X → Out
    pub fresh : (s : p.State) → Keeps s []
    pub shorter : (s : p.State) (q rest : List X) → Keeps s (q ++ rest) → Keeps s q
    -- new tokens after a prefix give the same as both at once
    pub at_once : (q new : List X) → whole q new ≡ whole [] (q ++ new)
    pub asks :
        (s : p.State) (q new : List X) (rewind : Bool)
        → Keeps s q
        → LastAnswer Keeps whole q new
            (p.ask s (length q) rewind new).0
            (p.ask s (length q) rewind new).1

  pub data Chain : List (Part X Out) → Type 1 where
    only : {p : Part X Out} → Last p → Chain (p ∷ [])
    link : {p : Part X Out} {ps : List (Part X Out)} → Inner p → Chain ps → Chain (p ∷ ps)

  abbrev pub KeepsAll : {ps : List (Part X Out)} → Chain ps → States ps → List X → Type 0
  KeepsAll (only l) (s, st) q = l.Keeps s q
  KeepsAll (link i c) (s, st) q = i.Keeps s q × KeepsAll c st (i.hidden q)

  -- the output of the stages one after the other, for new tokens after a prefix
  abbrev pub whole_chain : {ps : List (Part X Out)} → Chain ps → List X → List X → Out
  whole_chain (only l) q new = l.whole q new
  whole_chain (link i c) q new = whole_chain c (i.hidden q) (drop (length q) (i.hidden (q ++ new)))

  abbrev pub ChainAnswer :
      {ps : List (Part X Out)} → Chain ps → List X → List X → Asked X Out → States ps → Type 0
  ChainAnswer c q new o st = LastAnswer (KeepsAll c) (whole_chain c) q new o st

  pub fresh_all : {ps : List (Part X Out)} (c : Chain ps) (st : States ps) → KeepsAll c st []
  fresh_all (only l) (s, st) = l.fresh s
  fresh_all (link i c) (s, st) = (
    i.fresh s,
    subst (KeepsAll c st) (sym (empty-length (i.hidden []) (i.length_hidden []))) (fresh_all c st),
  )

  pub shorter_all :
      {ps : List (Part X Out)} (c : Chain ps) (st : States ps) (q rest : List X)
      → KeepsAll c st (q ++ rest)
      → KeepsAll c st q
  shorter_all (only l) (s, st) q rest k = l.shorter s q rest k
  shorter_all (link i c) (s, st) q rest (k, ks) =
      let (ys, e) = i.causal q rest in
      (i.shorter s q rest k, shorter_all c st (i.hidden q) ys (subst (KeepsAll c st) e ks))

  then_only :
      {p : Part X Out} (l : Last p) (q new : List X) (o : Asked X Out) (s : p.State)
      → LastAnswer l.Keeps l.whole q new o s
      → ChainAnswer
          (only l)
          q
          new
          (then_ask p [] (λ ys. (passed ys, tt)) tt o s).0
          (then_ask p [] (λ ys. (passed ys, tt)) tt o s).1
  then_only l q new (passed ys) s a = a
  then_only l q new (ended out) s a = a
  then_only l q new missed s a = a
  then_only l q new lost s a = a
  then_only l q new raised s a = a

  -- a chain after a stage that passed its hidden states on
  after-Inner :
      {p : Part X Out} {ps : List (Part X Out)} (i : Inner p) (c : Chain ps) (q new ys : List X)
      (s : p.State) (o : Asked X Out) (st : States ps)
      → i.Keeps s (q ++ new)
      → i.hidden (q ++ new) ≡ i.hidden q ++ ys
      → ChainAnswer c (i.hidden q) ys o st
      → ChainAnswer (link i c) q new o (s, st)
  after-Inner i c q new ys s (ended out) st k e (ks, right) = (
    (k, subst (KeepsAll c st) (sym e) ks),
    right
        ∙ ap (whole_chain c (i.hidden q)) (
            sym (
              ap (drop (length q)) e
              ∙ ap (λ n. drop n (i.hidden q ++ ys)) (sym (i.length_hidden q))
              ∙ drop-length (i.hidden q) ys)),
  )
  after-Inner i c q new ys s (passed zs) st k e ks = (i.shorter s q new k, ks)
  after-Inner i c q new ys s missed st k e ks = (i.shorter s q new k, ks)
  after-Inner i c q new ys s lost st k e ks = (i.shorter s q new k, ks)
  after-Inner i c q new ys s raised st k e ks = (i.shorter s q new k, ks)

  then_link :
      {p : Part X Out} {ps : List (Part X Out)} (i : Inner p) (c : Chain ps) (q new : List X)
      (next : List X → Asked X Out × States ps) (st : States ps) (o : Asked X Out) (s : p.State)
      → KeepsAll c st (i.hidden q)
      → ((ys : List X) → ChainAnswer c (i.hidden q) ys (next ys).0 (next ys).1)
      → InnerAnswer i.Keeps i.hidden q new o s
      → ChainAnswer (link i c) q new (then_ask p ps next st o s).0 (then_ask p ps next st o s).1
  then_link i c q new next st (passed ys) s ks go (k, e) =
      after-Inner i c q new ys s (next ys).0 (next ys).1 k e (go ys)
  then_link i c q new next st (ended out) s ks go a = absurd a
  then_link i c q new next st missed s ks go k = (k, ks)
  then_link i c q new next st lost s ks go k = (k, ks)
  then_link i c q new next st raised s ks go k = (k, ks)

  pub through-Answer :
      {ps : List (Part X Out)} (c : Chain ps) (st : States ps) (q new : List X) (rewind : Bool)
      → KeepsAll c st q
      → ChainAnswer c q new
          (through ps st (length q) rewind new).0
          (through ps st (length q) rewind new).1
  unfolding through
  through-Answer {ps = []} c st q new rewind k = elim c [ ]
  through-Answer {ps = p ∷ _} (only l) (s, st) q new rewind k =
      then_only l q new (p.ask s (length q) rewind new).0 (p.ask s (length q) rewind new).1
        (l.asks s q new rewind k)
  through-Answer {ps = p ∷ ps} (link i c) (s, st) q new rewind (k, ks) =
      then_link i c q new (λ ys. through ps st (length q) rewind ys) st
        (p.ask s (length q) rewind new).0 (p.ask s (length q) rewind new).1 ks
        (λ ys.
          subst
            (λ n.
              ChainAnswer c (i.hidden q) ys (through ps st n rewind ys).0
                (through ps st n rewind ys).1)
            (i.length_hidden q) (through-Answer c st (i.hidden q) ys rewind ks))
        (i.asks s q new rewind k)

  -- a chain gives the same for new tokens after a prefix as for both at once
  pub whole_chain-at_once :
      {ps : List (Part X Out)} (c : Chain ps) (q new : List X)
      → whole_chain c q new ≡ whole_chain c [] (q ++ new)
  whole_chain-at_once (only l) q new = l.at_once q new
  whole_chain-at_once (link i c) q new =
      let (ys, e) = i.causal q new in
      let tail : drop (length q) (i.hidden (q ++ new)) ≡ ys =
        ap (drop (length q)) e ∙ drop-hidden q ys (i.hidden q) (sym (i.length_hidden q)) in
      ap (whole_chain c (i.hidden q)) tail
      ∙ whole_chain-at_once c (i.hidden q) ys
      ∙ ap (whole_chain c []) (sym e)
      ∙ ap (λ zs. whole_chain c zs (i.hidden (q ++ new)))
          (sym (empty-length (i.hidden []) (i.length_hidden [])))
