-- ===== src/Hf/Reference.antt =====
-- The generators of src/distllm/hf.py against the unsplit model.
use distllm.Prelude.{
  ℕ, zero, suc, Bool, true, false, Option, none, some, List, [], ◌∷◌, ◌++◌, ◌≡◌, refl, sym, ap,
  subst, ◌∙◌, inl, inr, arith, if◌then◌else◌, length, take, drop, take-length, drop-length,
}
use distllm.Hf.Pipeline.{Pipeline}
use distllm.Hf.Replay.{Ready, Whole, replay-Whole}
use distllm.Hf.Generate.{
  is_in, Outcome, generated, recovery_error, unexpected_miss, onto, give_up, reference, replay,
  step_cached, step_uncached, step_logits, generate,
}

-- The ids of a run that gives ids are the reference's; the run may give up instead.
abbrev pub Agrees : Outcome → List ℕ → Type 0
Agrees (generated ids recoveries) expected = ids ≡ expected
Agrees recovery_error expected = Unit
Agrees unexpected_miss expected = Unit

module _ {Out : Type 0} (p : Pipeline Out) (logits : List ℕ → Out)
    (last : (q new : List ℕ) → p.whole q new ≡ logits (q ++ new)) where
  -- The output of a call is the unsplit model's for the whole sequence.
  abbrev Right : Option (Out × ℕ) × p.State → List ℕ → Type 0
  Right (none, s') sequence = Unit
  Right (some (out, r), s') sequence = p.HoldsPrefix s' sequence × (out ≡ logits sequence)

  answer-Right :
      (r : Option Out × p.State) (sequence : List ℕ) (done : ℕ) (rest : Option (Out × ℕ) × p.State)
      → ((out : Out) → r ≡ (some out, r.1) → p.HoldsPrefix r.1 sequence × (out ≡ logits sequence))
      → Right rest sequence
      → Right (elim r.0 [ some out ↦ (some (out, done), r.1) | none ↦ rest ]) sequence
  answer-Right (some out, s') sequence done rest h k = h out refl
  answer-Right (none, s') sequence done rest h k = k

  fresh-Right :
      (s : p.State) (sequence : List ℕ) (out : Out)
      → p.call s 0 sequence ≡ (some out, (p.call s 0 sequence).1)
      → p.HoldsPrefix (p.call s 0 sequence).1 sequence × (out ≡ logits sequence)
  fresh-Right s sequence out e =
      let (held, same) = p.fresh s (p.call s 0 sequence).1 sequence out e in
      (held, same ∙ last [] sequence)

  Right-Whole :
      (r : Option (Out × ℕ) × p.State) (sequence : List ℕ) → Whole p r sequence → Right r sequence
  Right-Whole (none, s') sequence w = tt
  Right-Whole (some (out, n), s') sequence (held, same) = (held, same ∙ last [] sequence)

  replay-Right :
      (budget done : ℕ) (s : p.State) (sequence : List ℕ)
      → Right (replay p budget done s sequence) sequence
  replay-Right budget done s sequence =
      Right-Whole _ sequence (replay-Whole p budget done s sequence)

  cached-Right :
      (s : p.State) (cached : ℕ) (sequence : List ℕ)
      → Ready p s cached sequence
      → (out : Out)
      → p.call s cached (drop cached sequence)
        ≡ (some out, (p.call s cached (drop cached sequence)).1)
      → p.HoldsPrefix (p.call s cached (drop cached sequence)).1 sequence × (out ≡ logits sequence)
  cached-Right s cached sequence (inl z) out e =
      subst
        (λ c.
          (out : Out)
          → p.call s c (drop c sequence) ≡ (some out, (p.call s c (drop c sequence)).1)
          → p.HoldsPrefix (p.call s c (drop c sequence)).1 sequence × (out ≡ logits sequence))
        (sym z) (fresh-Right s sequence) out e
  cached-Right s cached sequence (inr (held, h, n, same)) out e =
      let r =
        p.extend s (p.call s cached (drop cached sequence)).1 held (drop cached sequence) cached out
          h n e in
      (
        subst (p.HoldsPrefix (p.call s cached (drop cached sequence)).1) same r.0,
        r.1 ∙ last (take cached held) (drop cached sequence) ∙ ap logits same,
      )

  step_logits-Right :
      (use_kv_cache : Bool) (max_recoveries : ℕ) (s : p.State) (cached : ℕ) (sequence : List ℕ)
      → Ready p s cached sequence
      → Right (step_logits p use_kv_cache max_recoveries s cached sequence) sequence
  unfolding step_logits step_cached step_uncached
  step_logits-Right true max_recoveries s cached sequence ready =
      answer-Right (p.call s cached (drop cached sequence)) sequence 0
        (replay p max_recoveries 0 (p.call s cached (drop cached sequence)).1 sequence)
        (cached-Right s cached sequence ready)
        (replay-Right max_recoveries 0 (p.call s cached (drop cached sequence)).1 sequence)
  step_logits-Right false max_recoveries s cached sequence ready =
      answer-Right (p.call s 0 sequence) sequence 0 (none, (p.call s 0 sequence).1)
        (fresh-Right s sequence) tt

  next-Ready :
      (s : p.State) (sequence : List ℕ) (token : ℕ)
      → p.HoldsPrefix s sequence
      → Ready p s (length sequence) (sequence ++ token ∷ [])
  next-Ready s sequence token h =
      inr (sequence, h, omega arith, rw (take-length sequence, drop-length sequence (token ∷ [])))

  module _ {Rng : Type 0} (pick : Out → Rng → ℕ × Rng) (eos : List ℕ) where
    onto-Agrees :
        (token more : ℕ) (o : Outcome) (expected : List ℕ)
        → Agrees o expected
        → Agrees (onto token more o) (token ∷ expected)
    onto-Agrees token more (generated ids r) expected e = ap (◌∷◌ token) e
    onto-Agrees token more recovery_error expected e = tt
    onto-Agrees token more unexpected_miss expected e = tt

    stop-Agrees :
        (b : Bool) (o : Outcome) (expected : List ℕ)
        → Agrees o expected
        → Agrees (if b then generated [] 0 else o) (if b then [] else expected)
    stop-Agrees true o expected a = refl
    stop-Agrees false o expected a = a

    give_up-Agrees : (b : Bool) (expected : List ℕ) → Agrees (give_up b) expected
    give_up-Agrees true expected = tt
    give_up-Agrees false expected = tt

    abbrev after_pick : Bool → ℕ → ℕ → p.State → List ℕ → Rng → ℕ → Out → Outcome
    after_pick use_kv_cache max_recoveries n s' sequence rng recoveries out =
        let (token, rng') = pick out rng in
        let rest =
          generate p pick eos use_kv_cache max_recoveries n s' (length sequence)
            (sequence ++ token ∷ []) rng' in
        onto token recoveries (if is_in token eos then generated [] 0 else rest)

    pick-Agrees :
        (use_kv_cache : Bool) (max_recoveries n : ℕ) (sequence : List ℕ) (rng : Rng)
        (r : Option (Out × ℕ) × p.State)
        → Right r sequence
        → ((s' : p.State) (token : ℕ) (rng' : Rng)
            → Ready p s' (length sequence) (sequence ++ token ∷ [])
            → Agrees
                (generate p pick eos use_kv_cache max_recoveries n s'
                  (length sequence)
                  (sequence ++ token ∷ [])
                  rng')
                (reference pick eos logits n (sequence ++ token ∷ []) rng'))
        → Agrees
            (elim r.0 [
              | none ↦ give_up use_kv_cache
              | some (out, recoveries) ↦
                  after_pick use_kv_cache max_recoveries n r.1 sequence rng recoveries out
            ])
            (reference pick eos logits (suc n) sequence rng)
    unfolding reference
    pick-Agrees use_kv_cache max_recoveries n sequence rng (none, s') right rest =
        give_up-Agrees use_kv_cache (reference pick eos logits (suc n) sequence rng)
    pick-Agrees use_kv_cache max_recoveries n sequence rng (some (out, recoveries), s') (h, same)
          rest =
        subst
          (λ o.
            Agrees (after_pick use_kv_cache max_recoveries n s' sequence rng recoveries o)
              (reference pick eos logits (suc n) sequence rng))
          (sym same)
          (onto-Agrees (pick (logits sequence) rng).0 recoveries _ _ (
            stop-Agrees (is_in (pick (logits sequence) rng).0 eos) _ _ (
              rest s' (pick (logits sequence) rng).0 (pick (logits sequence) rng).1
                (next-Ready s' sequence (pick (logits sequence) rng).0 h))))

    -- With or without the cache, whatever the stages miss: when the caches hold a prefix of the
    -- sequence, the ids of a run of `generate` that gives ids are the ones the unsplit model picks
    -- one by one with the same random state, cut at the first end token.
    pub generate-Agrees :
        (use_kv_cache : Bool) (max_recoveries n : ℕ) (s : p.State) (cached : ℕ) (sequence : List ℕ)
        (rng : Rng)
        → Ready p s cached sequence
        → Agrees
            (generate p pick eos use_kv_cache max_recoveries n s cached sequence rng)
            (reference pick eos logits n sequence rng)
    unfolding generate reference
    generate-Agrees use_kv_cache max_recoveries zero s cached sequence rng ready = refl
    generate-Agrees use_kv_cache max_recoveries (suc n) s cached sequence rng ready =
        pick-Agrees use_kv_cache max_recoveries n sequence rng
          (step_logits p use_kv_cache max_recoveries s cached sequence)
          (step_logits-Right use_kv_cache max_recoveries s cached sequence ready)
          (λ s' token rng'.
            generate-Agrees use_kv_cache max_recoveries n s' (length sequence)
              (sequence ++ token ∷ []) rng')
