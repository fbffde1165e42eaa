-- ===== src/Hf/Through/Retry.antt =====
-- `_step` of src/distllm/hf.py: the attempt that rewinds after a lost task, and generation over a chain
-- of stages whose tasks may be lost.
use distllm.Prelude.{
  ℕ, Bool, true, false, Option, none, some, some_inj, List, [], ◌++◌, map, ◌≡◌, refl, sym, ap,
  subst, ◌∙◌, inl, arith, length, take, drop, take-append-drop, length-take, map-append, length-map,
}
use distllm.Hf.Pipeline.{Pipeline}
use distllm.Hf.Generate.{generate, reference}
use distllm.Hf.Reference.{Agrees, generate-Agrees}
use distllm.Hf.Through.{
  Asked, passed, ended, missed, lost, raised, Part, Stepped, output, miss, no_output, failed,
  States, through, Route, through_pipeline, concluded, after_first, step,
}
use distllm.Hf.Through.Laws.{
  Chain, KeepsAll, whole_chain, ChainAnswer, fresh_all, shorter_all, through-Answer,
  whole_chain-at_once,
}

module _ {X Out : Type 0} {ps : List (Part X Out)} (c : Chain ps) where
  -- What the relay does with a route: the stages one after the other.
  abbrev pub Forwards : Option (Route ps) → Type 0
  Forwards none = Unit
  Forwards (some route) =
      (st : States ps) (n : ℕ) (rewind : Bool) (new : List X)
      → route st n rewind new ≡ through ps st n rewind new

  abbrev pub StepAnswer : List X → List X → Stepped Out → States ps → Type 0
  StepAnswer q new (output out) st = KeepsAll c st (q ++ new) × (out ≡ whole_chain c q new)
  StepAnswer q new miss st = KeepsAll c st q
  StepAnswer q new no_output st = KeepsAll c st q
  StepAnswer q new failed st = KeepsAll c st q

  concluded-Answer :
      (q new : List X) (o : Asked X Out) (st : States ps)
      → ChainAnswer c q new o st
      → StepAnswer q new (concluded o) st
  concluded-Answer q new (passed ys) st a = a
  concluded-Answer q new (ended out) st a = a
  concluded-Answer q new missed st a = a
  concluded-Answer q new lost st a = a
  concluded-Answer q new raised st a = a

  after_first-Answer :
      (q new : List X) (o : Asked X Out) (st : States ps) (again : Asked X Out × States ps)
      → ChainAnswer c q new o st
      → (KeepsAll c st q → ChainAnswer c q new again.0 again.1)
      → StepAnswer q new (after_first o st again).0 (after_first o st again).1
  after_first-Answer q new (passed ys) st again a go = a
  after_first-Answer q new (ended out) st again a go = a
  after_first-Answer q new missed st again a go = a
  after_first-Answer q new lost st (o, st') a go = concluded-Answer q new o st' (go a)
  after_first-Answer q new raised st again a go = a

  module _ (route : Option (Route ps)) (forwards : Forwards route) where
    pipeline-Answer :
        (st : States ps) (q new : List X) (rewind : Bool)
        → KeepsAll c st q
        → ChainAnswer c q new
            (through_pipeline ps route st (length q) rewind new).0
            (through_pipeline ps route st (length q) rewind new).1
    pipeline-Answer st q new rewind k =
        elim route
            as (λ r.
              Forwards r
              → ChainAnswer c q new (through_pipeline ps r st (length q) rewind new).0
                  (through_pipeline ps r st (length q) rewind new).1) [
                    | none ↦ λ f. through-Answer c st q new rewind k
                    | some r ↦ λ f.
                        subst (λ x. ChainAnswer c q new x.0 x.1) (sym (f st (length q) rewind new))
                          (through-Answer c st q new rewind k)
                  ]
          forwards

    -- A step that gives an output gives the output of all stages for the new tokens after the prefix,
    -- also where the first attempt was lost and the second rewound, whichever stages had run it. What
    -- the stages then keep is right, and so it is if the step gives none.
    pub step-Answer :
        (st : States ps) (q new : List X) (rewind : Bool)
        → KeepsAll c st q
        → StepAnswer q new
            (step ps route st (length q) rewind new).0
            (step ps route st (length q) rewind new).1
    unfolding step
    step-Answer st q new rewind k =
        let (first, st') = through_pipeline ps route st (length q) rewind new in
        after_first-Answer q new first st' (through_pipeline ps route st' (length q) true new)
          (pipeline-Answer st q new rewind k) (λ k'. pipeline-Answer st' q new true k')

    abbrev output_of : Stepped Out → Option Out
    output_of (output out) = some out
    output_of miss = none
    output_of no_output = none
    output_of failed = none

    output-Answer :
        (q new : List X) (r : Stepped Out) (st : States ps) (out : Out)
        → output_of r ≡ some out
        → StepAnswer q new r st
        → KeepsAll c st (q ++ new) × (out ≡ whole_chain c q new)
    output-Answer q new (output out') st out e (k, right) = (k, sym (some_inj e) ∙ right)
    output-Answer q new miss st out e a = absurd (ground (arith, e))
    output-Answer q new no_output st out e a = absurd (ground (arith, e))
    output-Answer q new failed st out e a = absurd (ground (arith, e))

    module _ (embed : ℕ → X) where
      -- the call of the stages in a step of `generate`
      abbrev ask_chain : States ps → ℕ → List ℕ → Option Out × States ps
      ask_chain st n new =
          let (r, st') = step ps route st n false (map embed new) in (output_of r, st')

      abbrev pub answer_chain : List ℕ → List ℕ → Out
      answer_chain q new = whole_chain c (map embed q) (map embed new)

      abbrev Holds : States ps → List ℕ → Type 0
      Holds st held = KeepsAll c st (map embed held)

      pub ask_chain-right :
          (st st' : States ps) (q new : List ℕ) (n : ℕ) (out : Out)
          → n ≡ length q
          → Holds st q
          → ask_chain st n new ≡ (some out, st')
          → Holds st' (q ++ new) × (out ≡ answer_chain q new)
      ask_chain-right st st' q new n out long k e =
          let same : n ≡ length (map embed q) = long ∙ sym (length-map embed q) in
          let e' = subst (λ n. ask_chain st n new ≡ (some out, st')) same e in
          let (k', right) =
            output-Answer (map embed q) (map embed new)
              (step ps route st (length (map embed q)) false (map embed new)).0
              (step ps route st (length (map embed q)) false (map embed new)).1 out
              (ap (λ r. r.0) e') (step-Answer st (map embed q) (map embed new) false k) in
          (
            subst (KeepsAll c st') (sym (map-append embed q new)) (
                subst (λ st'. KeepsAll c st' (map embed q ++ map embed new)) (ap (λ r. r.1) e') k'),
            right,
          )

      abbrev pub chain_pipeline : Pipeline Out
      chain_pipeline = record {
        State = States ps;
        call = ask_chain;
        whole = answer_chain;
        HoldsPrefix = Holds;
        fresh = λ st st' new out e. ask_chain-right st st' [] new 0 out refl (fresh_all c st) e;
        extend = λ st st' held new n out k few e.
            ask_chain-right st st' (take n held) new n out (sym (length-take n held few))
              (shorter_all c st (map embed (take n held)) (map embed (drop n held)) (
                subst (KeepsAll c st)
                  (ap (map embed) (sym (take-append-drop n held))
                    ∙ map-append embed (take n held) (drop n held))
                  k))
              e;
      }

      -- Generation over a chain of stages, whose tasks may be lost and whose caches may be gone, with
      -- the attempt that rewinds and with replays: the ids of a run that gives ids are the ones picked one
      -- by one from the output of all stages for whole sequences. The relay forwards along a route as
      -- the client would call the stages. A step that raises counts as one without an output.
      pub generate-chain :
          {Rng : Type 0} (pick : Out → Rng → ℕ × Rng) (eos : List ℕ) (use_kv_cache : Bool)
          (max_recoveries n : ℕ) (st : States ps) (sequence : List ℕ) (rng : Rng)
          → Agrees
              (generate chain_pipeline pick eos use_kv_cache max_recoveries n st 0 sequence rng)
              (reference pick eos (answer_chain []) n sequence rng)
      generate-chain pick eos use_kv_cache max_recoveries n st sequence rng =
          generate-Agrees chain_pipeline (answer_chain [])
            (λ q new.
              whole_chain-at_once c (map embed q) (map embed new)
              ∙ ap (whole_chain c []) (sym (map-append embed q new)))
            pick eos use_kv_cache max_recoveries n st 0 sequence rng (inl refl)
