-- ===== src/Hf/Examples.antt =====
-- A small pipeline with a cache that is lost now and then, and the generators of
-- src/distllm/hf.py over it.
use distllm.Prelude.{
  ℕ, inr, ltb, zero, suc, ◌+◌, leb, Bool, true, false, Option, none, some, List, [], ◌∷◌, ◌++◌, ◌≡◌,
  refl, inl, some_inj, sym, subst, if◌then◌else◌, length, take, ap, arith,
}
use distllm.Hf.Pipeline.{Pipeline}
use distllm.Hf.Generate.{
  generated, reference, replay, step_cached, step_uncached, step_logits, generate,
}
use distllm.Hf.Reference.{Agrees, generate-Agrees}
use distllm.Hf.Draft.{DraftModel, Draft, accept, propose_from, propose}
use distllm.Hf.Speculative.{spoken, agree, emit, verify, speculate}
use distllm.Hf.Greedy
use distllm.Hf.Greedy.{choices}
use distllm.Hf.Speculation.{Speaks, speculate-Speaks}
use distllm.Hf.Finishing.{KeepsOn, speculate-KeepsOn}
use distllm.Hf.Termination.{Generates, generate-Generates}

-- The tokens that one stage holds, and of the calls to come those before which it loses them.
abbrev Held : Type 0
Held = List ℕ × List Bool

abbrev after_loss : Held → Held
after_loss (held, []) = (held, [])
after_loss (held, true ∷ losses) = ([], losses)
after_loss (held, false ∷ losses) = (held, losses)

module _ {Out : Type 0} (whole : List ℕ → List ℕ → Out) where
  abbrev at : Held → ℕ → List ℕ → Option Out × Held
  at (held, losses) zero new = (some (whole [] new), (new, losses))
  at (held, losses) (suc n) new =
      if leb (suc n) (length held)
      then (some (whole (take (suc n) held) new), (take (suc n) held ++ new, losses))
      else (none, (held, losses))

  at-fresh :
      (h s' : Held) (new : List ℕ) (out : Out)
      → at h 0 new ≡ (some out, s')
      → (s'.0 ≡ new) × (out ≡ whole [] new)
  at-fresh (held, losses) s' new out e = (sym (ap (λ r. r.1.0) e), sym (some_inj (ap (λ r. r.0) e)))

  at-extend :
      (h : List ℕ) (losses : List Bool) (s' : Held) (new : List ℕ) (n : ℕ) (out : Out)
      → at (h, losses) n new ≡ (some out, s')
      → (s'.0 ≡ take n h ++ new) × (out ≡ whole (take n h) new)
  at-extend h losses s' new zero out e = at-fresh (h, losses) s' new out e
  at-extend h losses s' new (suc n) out e = go (leb (suc n) (length h)) e
    where
      go :
          (b : Bool)
          → ◌≡◌ {A = Option Out × Held}
              (if b
                then (some (whole (take (suc n) h) new), (take (suc n) h ++ new, losses))
                else (none, (h, losses)))
              (some out, s')
          → (s'.0 ≡ take (suc n) h ++ new) × (out ≡ whole (take (suc n) h) new)
      go true e = (sym (ap (λ r. r.1.0) e), sym (some_inj (ap (λ r. r.0) e)))
      go false e = absurd (ground (arith, ap (λ r. r.0) e))

  lost-extend :
      (losses : List Bool) (s' : Held) (held new : List ℕ) (n : ℕ) (out : Out)
      → at ([], losses) n new ≡ (some out, s')
      → (s'.0 ≡ take n held ++ new) × (out ≡ whole (take n held) new)
  lost-extend losses s' held new zero out e = at-fresh ([], losses) s' new out e
  lost-extend losses s' held new (suc n) out e = absurd (ground (arith, ap (λ r. r.0) e))

  losing-extend :
      (s s' : Held) (new : List ℕ) (n : ℕ) (out : Out)
      → at (after_loss s) n new ≡ (some out, s')
      → (s'.0 ≡ take n s.0 ++ new) × (out ≡ whole (take n s.0) new)
  losing-extend (h, []) s' new n out e = at-extend h [] s' new n out e
  losing-extend (h, false ∷ losses) s' new n out e = at-extend h losses s' new n out e
  losing-extend (h, true ∷ losses) s' new n out e = lost-extend losses s' h new n out e

  abbrev losing : Pipeline Out
  losing = record {
    State = Held;
    call = λ s n new. at (after_loss s) n new;
    whole = whole;
    HoldsPrefix = λ s held. s.0 ≡ held;
    fresh = λ s s' new out e. at-fresh (after_loss s) s' new out e;
    extend = λ s s' held new n out h _ e.
        subst (λ held. (s'.0 ≡ take n held ++ new) × (out ≡ whole (take n held) new)) h
          (losing-extend s s' new n out e);
  }

abbrev total : List ℕ → ℕ
total [] = 0
total (t ∷ ts) = t + total ts

-- a model that reads the sum of its tokens
abbrev summing : Pipeline ℕ
summing = losing (λ q new. total (q ++ new))

abbrev greedy : ℕ → Unit {0} → ℕ × Unit {0}
greedy logits rng = (suc logits, rng)

abbrev lossy : Held
lossy = ([], false ∷ true ∷ [])

-- What a run of the generators unfolds.
program : Unit {0}
unfolding replay step_cached step_uncached step_logits generate reference accept propose_from
    propose agree emit verify speculate
program = tt

-- The second step loses the cache and is replayed.
lossy_run :
    generate summing greedy (99 ∷ []) true 2 3 lossy 0 (1 ∷ 2 ∷ []) tt
    ≡ generated (4 ∷ 8 ∷ 16 ∷ []) 1
unfolding program
lossy_run = refl

generate-Agrees_example :
    Agrees
      (generate summing greedy (99 ∷ []) true 2 3 lossy 0 (1 ∷ 2 ∷ []) tt)
      (reference greedy (99 ∷ []) total 3 (1 ∷ 2 ∷ []) tt)
generate-Agrees_example =
    generate-Agrees summing total (λ q new. refl) greedy (99 ∷ []) true 2 3 lossy 0 (1 ∷ 2 ∷ []) tt
      (inl refl)

generate-Generates_example :
    Generates (generate summing greedy (99 ∷ []) true 2 3 lossy 0 (1 ∷ 2 ∷ []) tt) 3
generate-Generates_example =
    generate-Generates summing (λ s new. (total new, refl)) 2 (omega arith) greedy (99 ∷ []) true 3
      lossy 0 (1 ∷ 2 ∷ []) tt

-- The greedy model of the same sums, and a draft model that is right only at first.
abbrev successor : List ℕ → ℕ
successor q = suc (total q)

abbrev predicting : Pipeline (List ℕ)
predicting = losing (λ q new. choices successor q new)

abbrev small : DraftModel
small = record {
  Cache = List ℕ;
  next = λ cache new.
      (if ltb (total (cache ++ new)) 8 then suc (total (cache ++ new)) else 0, cache ++ new);
  crop = λ cache n. take n cache;
}

abbrev unfed : Draft small
unfed = record { cache = []; fed = 0 }

-- Two rounds: the first keeps its two right proposals, the second has to be replayed.
speculated :
    speculate predicting small 6 (99 ∷ []) 3 2 5 lossy 0 (1 ∷ 2 ∷ []) unfed
    ≡ spoken
        (4 ∷ 8 ∷ 16 ∷ 32 ∷ 64 ∷ [])
        (record { recoveries = 1; rounds = 3; proposed = 6; accepted = 2 })
unfolding program
speculated = refl

speculate-Speaks_example :
    Speaks
      (speculate predicting small 6 (99 ∷ []) 3 2 5 lossy 0 (1 ∷ 2 ∷ []) unfed)
      (reference Greedy.greedy (99 ∷ []) successor 5 (1 ∷ 2 ∷ []) tt)
speculate-Speaks_example =
    speculate-Speaks predicting small successor (λ q new. refl) 6 (99 ∷ []) 3 2 5 lossy 0
      (1 ∷ 2 ∷ []) unfed (omega arith) (inr (inl refl, omega arith))

speculate-KeepsOn_example :
    KeepsOn (speculate predicting small 6 (99 ∷ []) 3 2 5 lossy 0 (1 ∷ 2 ∷ []) unfed)
speculate-KeepsOn_example =
    speculate-KeepsOn predicting small (λ s new. (choices successor [] new, refl)) 2 (omega arith)
      (99 ∷ []) 3 6 5 lossy 0 (1 ∷ 2 ∷ []) unfed
