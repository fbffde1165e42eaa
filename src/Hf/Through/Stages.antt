-- ===== src/Hf/Through/Stages.antt =====
-- `PipelineStage.handle` of src/distllm/hf.py as a stage of a chain, behind a relay that may lose its
-- tasks before or after the stage has run them.
use distllm.Prelude.{
  ℕ, suc, ◌≤◌, String, string_eq, beq_refl, Bool, false, some, some_inj, List, [], ◌++◌, map, ◌==◌,
  nat_eq, ◌≡◌, refl, sym, ap, subst, ◌∙◌, inl, inr, Bool-cases, length, take, length-map,
  map-append,
}
use distllm.Hf.Stage.{
  Layers, Payload, Limits, Handled, closed, cache_miss, result, no_session, no_input, forward_error,
  output_error, Sessions, handle,
}
use distllm.Hf.Stage.Tokens.{Lawful, Known, know, Tracks, learn, Answers}
use distllm.Hf.Stage.Kept.{handle-Kept}
use distllm.Hf.Through.{Asked, passed, ended, missed, lost, raised, Part}
use distllm.Hf.Through.Laws.{Inner, Last, InnerAnswer, LastAnswer}
use distllm.Hf.Through.Prefixes.{
  Compatible, Compatible-nil, Compatible-refl, Compatible-shorter, Compatible-take, take-Compatible,
}

-- What becomes of a task, with the time at which the stage runs it.
pub data Fate : Type 0 where
  delivered : ℕ → Fate
  lost_before : Fate
  lost_after : ℕ → Fate

module _ (X Out : Type 0) (l : Layers) (w : Lawful l)
    (total : (a : l.Ask) (h : l.Hidden) → (r : l.Result) × (l.output a h ≡ some r))
    (limits : Limits) (asked : l.Ask) (session : String) (fates : ℕ → Fate) (input : X → l.X) where
  -- the table with what its sessions hold, and the number of tasks so far
  abbrev pub Table : Type 0
  Table = (m : Sessions l) × (g : Known l w) × Tracks l w g m

  abbrev pub request : ℕ → Bool → List X → Payload l
  request n rewind new = record {
    session_id = session;
    close = false;
    start_pos = n;
    rewind = rewind;
    input = some (map input new);
    asked = asked;
  }

  abbrev pub ran : ℕ → ℕ → Bool → List X → Table → Handled l × Table
  ran now n rewind new (m, g, t) =
      let p = request n rewind new in
      let (reply, m') = handle l limits now p m in
      (reply, (m', learn l w p reply g, (handle-Kept l w total limits now p g m t).0))

  abbrev pub answered : (l.Result → Asked X Out) → Handled l → Asked X Out
  answered give (result r) = give r
  answered give (cache_miss n) = missed
  answered give _ = raised

  abbrev pub told :
      (l.Result → Asked X Out) → ℕ → Bool → List X → Fate → Table → Asked X Out × Table
  told give n rewind new (delivered now) s =
      let (reply, s') = ran now n rewind new s in (answered give reply, s')
  told give n rewind new lost_before s = (lost, s)
  told give n rewind new (lost_after now) s = (lost, (ran now n rewind new s).1)

  -- `give` says what a result is to the client: hidden states, or an output
  abbrev pub part : (l.Result → Asked X Out) → Part X Out
  part give = record {
    State = Table × ℕ;
    ask =
        λ (s, k) n rewind new. let (o, s') = told give n rewind new (fates k) s in (o, (s', suc k));
  }

  abbrev Keeps : Table → List X → Type 0
  Keeps (m, g, t) q = Compatible (g session) (map input q)

  -- what a stage keeps after a request at the end of q, and its result
  abbrev Ran : List X → List X → Handled l → Table → Type 0
  Ran q new (result r) s =
      Keeps s (q ++ new) × (l.output asked (w.whole (map input q) (map input new)) ≡ some r)
  Ran q new _ s = Keeps s q

  known_session : (xs : List l.X) (g : Known l w) → know l w session xs g session ≡ xs
  known_session xs g = rw (beq_refl session) refl

  reply-Ran :
      (q new : List X) (n : ℕ) (rewind : Bool) (g : Known l w) (reply : Handled l) (m : Sessions l)
      (t : Tracks l w (learn l w (request n rewind new) reply g) m)
      → n ≡ length (map input q)
      → Compatible (g session) (map input q)
      → Answers l w (request n rewind new) g reply
      → Ran q new reply (m, learn l w (request n rewind new) reply g, t)
  reply-Ran q new n rewind g (result r) m t long k (new', there, few, right) =
      let before : take n (g session) ≡ map input q =
        ap (λ n. take n (g session)) long
        ∙ take-Compatible (g session) (map input q) k
            (subst (λ n. n ≤ length (g session)) long few) in
      (
        subst (λ xs. Compatible xs (map input (q ++ new)))
            (sym (
              known_session (take n (g session) ++ map input new) g
              ∙ ap (λ xs. xs ++ map input new) before
              ∙ sym (map-append input q new)))
            (Compatible-refl (map input (q ++ new))),
        ap (λ xs. l.output asked (w.whole xs (map input new))) (sym before)
            ∙ ap (λ xs. l.output asked (w.whole (take n (g session)) xs)) (some_inj there)
            ∙ right,
      )
  reply-Ran q new n rewind g (cache_miss h) m t long k a =
      subst (λ xs. Compatible xs (map input q)) (sym (known_session (take h (g session)) g))
        (Compatible-take h (g session) (map input q) k)
  reply-Ran q new n rewind g no_input m t long k a = elim (Bool-cases (n == 0)) [
    | inl z ↦ rw z k
    | inr z ↦ rw (z, beq_refl session) (Compatible-take n (g session) (map input q) k)
  ]
  reply-Ran q new n rewind g closed m t long k a = k
  reply-Ran q new n rewind g no_session m t long k a = k
  reply-Ran q new n rewind g forward_error m t long k a = k
  reply-Ran q new n rewind g output_error m t long k a = k

  ran-Ran :
      (q new : List X) (now : ℕ) (rewind : Bool) (s : Table)
      → Keeps s q
      → Ran q new (ran now (length q) rewind new s).0 (ran now (length q) rewind new s).1
  ran-Ran q new now rewind (m, g, t) k =
      let p = request (length q) rewind new in
      let kept = handle-Kept l w total limits now p g m t in
      reply-Ran q new (length q) rewind g (handle l limits now p m).0 (handle l limits now p m).1
        kept.0 (sym (length-map input q)) k kept.1

  -- what is kept anyway, also when nobody hears the reply
  Ran-Keeps : (q new : List X) (reply : Handled l) (s : Table) → Ran q new reply s → Keeps s q
  Ran-Keeps q new (result r) (m, g, t) (k, e) =
      Compatible-shorter (g session) (map input q) (map input new)
        (subst (Compatible (g session)) (map-append input q new) k)
  Ran-Keeps q new closed s k = k
  Ran-Keeps q new (cache_miss n) s k = k
  Ran-Keeps q new no_session s k = k
  Ran-Keeps q new no_input s k = k
  Ran-Keeps q new forward_error s k = k
  Ran-Keeps q new output_error s k = k

  -- A stage before the last: `pass` reads the hidden states of a result. The layers are causal, with
  -- one hidden state for each token.
  module _ (pass : l.Result → List X) where
    abbrev pub hidden_of : List X → List X
    hidden_of q = pass (total asked (w.whole [] (map input q))).0

    abbrev pub passing : l.Result → Asked X Out
    passing r = passed (pass r)

    inner-Answer :
        (q new : List X) (n : ℕ) (reply : Handled l) (s : Table)
        → hidden_of (q ++ new)
          ≡ hidden_of q ++ pass (total asked (w.whole (map input q) (map input new))).0
        → Ran q new reply s
        → InnerAnswer (λ (x : Table × ℕ). Keeps x.0) hidden_of q new (answered passing reply) (s, n)
    inner-Answer q new n (result r) s causal (k, e) = (
      k,
      causal
          ∙ ap (λ r. hidden_of q ++ pass r)
              (some_inj (sym (total asked (w.whole (map input q) (map input new))).1 ∙ e)),
    )
    inner-Answer q new n closed s causal k = k
    inner-Answer q new n (cache_miss h) s causal k = k
    inner-Answer q new n no_session s causal k = k
    inner-Answer q new n no_input s causal k = k
    inner-Answer q new n forward_error s causal k = k
    inner-Answer q new n output_error s causal k = k

    module _
        (causal : (q new : List X)
          → hidden_of (q ++ new)
            ≡ hidden_of q ++ pass (total asked (w.whole (map input q) (map input new))).0)
        (long : (q : List X) → length (hidden_of q) ≡ length q) where
      told-Inner :
          (q new : List X) (rewind : Bool) (k : ℕ) (fate : Fate) (s : Table)
          → Keeps s q
          → InnerAnswer
              (λ (x : Table × ℕ). Keeps x.0)
              hidden_of
              q
              new
              (told passing (length q) rewind new fate s).0
              ((told passing (length q) rewind new fate s).1, k)
      told-Inner q new rewind k (delivered now) s h =
          inner-Answer q new k (ran now (length q) rewind new s).0
            (ran now (length q) rewind new s).1 (causal q new) (ran-Ran q new now rewind s h)
      told-Inner q new rewind k lost_before s h = h
      told-Inner q new rewind k (lost_after now) s h =
          Ran-Keeps q new (ran now (length q) rewind new s).0 (ran now (length q) rewind new s).1
            (ran-Ran q new now rewind s h)

      pub inner : Inner (part passing)
      inner = record {
        Keeps = λ x q. Keeps x.0 q;
        hidden = hidden_of;
        length_hidden = long;
        causal = λ q rest.
            (pass (total asked (w.whole (map input q) (map input rest))).0, causal q rest);
        fresh = λ ((m, g, t), k). Compatible-nil (g session);
        shorter = λ ((m, g, t), k) q rest h.
            Compatible-shorter (g session) (map input q) (map input rest)
              (subst (Compatible (g session)) (map-append input q rest) h);
        asks = λ (s, k) q new rewind h. told-Inner q new rewind (suc k) (fates k) s h;
      }

  -- The last stage: `out` reads the output of a result. New tokens after a prefix give the same as both
  -- at once.
  module _ (out : l.Result → Out) where
    abbrev pub output_for : List X → List X → Out
    output_for q new = out (total asked (w.whole (map input q) (map input new))).0

    abbrev pub ending : l.Result → Asked X Out
    ending r = ended (out r)

    last-Answer :
        (q new : List X) (n : ℕ) (reply : Handled l) (s : Table)
        → Ran q new reply s
        → LastAnswer (λ (x : Table × ℕ). Keeps x.0) output_for q new (answered ending reply) (s, n)
    last-Answer q new n (result r) s (k, e) =
        (k, ap out (some_inj (sym e ∙ (total asked (w.whole (map input q) (map input new))).1)))
    last-Answer q new n closed s k = k
    last-Answer q new n (cache_miss h) s k = k
    last-Answer q new n no_session s k = k
    last-Answer q new n no_input s k = k
    last-Answer q new n forward_error s k = k
    last-Answer q new n output_error s k = k

    told-Last :
        (q new : List X) (rewind : Bool) (k : ℕ) (fate : Fate) (s : Table)
        → Keeps s q
        → LastAnswer
            (λ (x : Table × ℕ). Keeps x.0)
            output_for
            q
            new
            (told ending (length q) rewind new fate s).0
            ((told ending (length q) rewind new fate s).1, k)
    told-Last q new rewind k (delivered now) s h =
        last-Answer q new k (ran now (length q) rewind new s).0 (ran now (length q) rewind new s).1
          (ran-Ran q new now rewind s h)
    told-Last q new rewind k lost_before s h = h
    told-Last q new rewind k (lost_after now) s h =
        Ran-Keeps q new (ran now (length q) rewind new s).0 (ran now (length q) rewind new s).1
          (ran-Ran q new now rewind s h)

    pub last : ((q new : List X) → output_for q new ≡ output_for [] (q ++ new)) → Last (part ending)
    last at_once = record {
      Keeps = λ x q. Keeps x.0 q;
      whole = output_for;
      at_once = at_once;
      fresh = λ ((m, g, t), k). Compatible-nil (g session);
      shorter = λ ((m, g, t), k) q rest h.
          Compatible-shorter (g session) (map input q) (map input rest)
            (subst (Compatible (g session)) (map-append input q rest) h);
      asks = λ (s, k) q new rewind h. told-Last q new rewind (suc k) (fates k) s h;
    }
