-- ===== src/Hf/Draft.antt =====
-- `_DraftModel` of src/distllm/hf.py. The small model with its cache is a parameter: `next` feeds
-- tokens and gives its greedy token, `crop` cuts the cache to a length.
use distllm.Prelude.{
  ℕ, zero, suc, ◌+◌, ◌-◌, min, ltb, List, [], ◌∷◌, ◌≡◌, refl, ap, if◌then◌else◌, length, drop,
}

pub record DraftModel : Type 1 where
  pub Cache : Type 0
  pub next : Cache → List ℕ → ℕ × Cache
  pub crop : Cache → ℕ → Cache

pub record Draft (m : DraftModel) : Type 0 where
  pub cache : m.Cache
  pub fed : ℕ

module _ (m : DraftModel) where
  -- `accept`, and the cut at the start of `propose`: the cache keeps at most `valid` tokens.
  unfoldable pub accept : ℕ → Draft m → Draft m
  accept valid d =
      if ltb valid d.fed then record { cache = m.crop d.cache valid; fed = valid } else d

  -- the loop of `propose`, from the tokens to feed
  unfoldable pub propose_from : ℕ → List ℕ → Draft m → List ℕ × Draft m
  propose_from zero new d = ([], d)
  propose_from (suc k) new d =
      let (token, cache) = m.next d.cache new in
      let (proposed, d') =
        propose_from k (token ∷ []) (record { cache = cache; fed = d.fed + length new }) in
      (token ∷ proposed, d')

  unfoldable pub propose : List ℕ → ℕ → Draft m → List ℕ × Draft m
  unfolding propose_from accept
  propose sequence k d =
      let d' = accept (min d.fed (length sequence - 1)) d in
      propose_from k (drop d'.fed sequence) d'

  length-propose_from : (k : ℕ) (new : List ℕ) (d : Draft m) → length (propose_from k new d).0 ≡ k
  unfolding propose_from
  length-propose_from zero new d = refl
  length-propose_from (suc k) new d = ap (λ n. suc n) (length-propose_from k _ _)

  pub length-propose :
      (sequence : List ℕ) (k : ℕ) (d : Draft m) → length (propose sequence k d).0 ≡ k
  unfolding propose
  length-propose sequence k d = length-propose_from k _ _
