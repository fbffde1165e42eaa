-- ===== src/Planner/Loops.antt =====
-- The two while loops of `plan`, examples/plan_split.py: they end with the right sum, and keep every
-- stage's node.
use distllm.Prelude.{
  ℕ, zero, suc, ◌+◌, ◌-◌, ◌≤◌, ◌<◌, Bool, true, false, List, [], ◌∷◌, map, nat_eq, ltb, ◌≡◌, refl,
  sym, ap, subst, ◌∙◌, inl, inr, Bool-cases, arith,
}
use distllm.Planner.Shares.{Floats, Node, Share, fixed_count, is_flexible}
use distllm.Planner.Balance.{
  counts, change_count, spare, crowded, Loop, ended, nothing_to_pick, running, hand_out, take_back,
  then_take_back, balance,
}
use distllm.Planner.Layers.{fixed_total, flexible_nodes}
use distllm.Planner.Best.{IsAt, Nowhere, has_key, best}

module _ (f : Floats) where
  -- A stage whose count is as the plan wants it: some layers, and the fixed ones if the node says so.
  abbrev pub Fits : Share f → Type 0
  Fits s = (1 ≤ s.count) × (is_flexible f s.node ≡ false → s.count ≡ fixed_count f s.node)

  abbrev pub AllFit : List (Share f) → Type 0
  AllFit [] = Unit
  AllFit (s ∷ ss) = Fits s × AllFit ss

  abbrev pub nodes_of : List (Share f) → List (Node f)
  nodes_of ss = map (λ s. s.node) ss

  nodes_of-change_count :
      (g : ℕ → ℕ) (i : ℕ) (ss : List (Share f)) → nodes_of (change_count f g i ss) ≡ nodes_of ss
  nodes_of-change_count g i [] = refl
  nodes_of-change_count g zero (s ∷ ss) = refl
  nodes_of-change_count g (suc i) (s ∷ ss) = ap (◌∷◌ s.node) (nodes_of-change_count g i ss)

  AllFit-change_count :
      (p : Share f → Bool) (g : ℕ → ℕ) (i : ℕ) (ss : List (Share f))
      → ((s : Share f) → p s ≡ true → Fits s → Fits (record s { count = g s.count }))
      → IsAt f p i ss
      → AllFit ss
      → AllFit (change_count f g i ss)
  AllFit-change_count p g i [] keep at fit = tt
  AllFit-change_count p g zero (s ∷ ss) keep at (h, hs) = (keep s at h, hs)
  AllFit-change_count p g (suc i) (s ∷ ss) keep at (h, hs) =
      (h, AllFit-change_count p g i ss keep at hs)

  counts-grown :
      (p : Share f → Bool) (i : ℕ) (ss : List (Share f))
      → IsAt f p i ss
      → counts f (change_count f (λ c. suc c) i ss) ≡ suc (counts f ss)
  counts-grown p i [] at = absurd at
  counts-grown p zero (s ∷ ss) at = omega arith
  counts-grown p (suc i) (s ∷ ss) at = omega (arith, counts-grown p i ss at)

  -- what a loop that has not failed ends with
  abbrev pub Balanced : List (Node f) → ℕ → Loop f → Type 0
  Balanced nodes n (ended ss) = (counts f ss ≡ n) × AllFit ss × (nodes_of ss ≡ nodes)
  Balanced nodes n nothing_to_pick = (flexible_nodes f nodes ≡ 0) × (fixed_total f nodes < n)
  Balanced nodes n running = ⊥

  spare_there : (s : Share f) → has_key f (spare f) s ≡ is_flexible f s.node
  spare_there s = elim (Bool-cases (is_flexible f s.node)) [
    | inl e ↦ rw (spare, e) refl
    | inr e ↦ rw (spare, e) refl
  ]

  -- with no flexible stage the counts are the fixed ones
  all_fixed :
      (ss : List (Share f))
      → Nowhere f (has_key f (spare f)) ss
      → AllFit ss
      → (flexible_nodes f (nodes_of ss) ≡ 0) × (fixed_total f (nodes_of ss) ≡ counts f ss)
  all_fixed [] none_there fit = (refl, refl)
  all_fixed (s ∷ ss) (h, hs) ((some_there, fixed), fit) =
      let off : is_flexible f s.node ≡ false = sym (spare_there s) ∙ h in
      let (a, b) = all_fixed ss hs fit in (rw off a, omega (arith, fixed off, b))

  not_less : (a b : ℕ) → b ≤ a → ltb a b ≡ false
  not_less a b h = ground (arith, h)

  crowds :
      (s : Share f)
      → is_flexible f s.node ≡ true
      → ltb 1 s.count ≡ true
      → has_key f (crowded f) s ≡ true
  crowds s e more = rw (crowded, e, more) refl

  few : (s : Share f) → is_flexible f s.node ≡ true → has_key f (crowded f) s ≡ false → s.count ≤ 1
  few s e h = elim (Bool-cases (ltb 1 s.count)) [
    | inl more ↦ absurd (ground (arith, sym h ∙ crowds s e more))
    | inr less ↦ ground (arith, less)
  ]

  -- when no stage may lose a layer, the counts are no more than the nodes ask for
  least :
      (ss : List (Share f))
      → Nowhere f (has_key f (crowded f)) ss
      → AllFit ss
      → counts f ss ≤ fixed_total f (nodes_of ss) + flexible_nodes f (nodes_of ss)
  least [] none_there fit = omega arith
  least (s ∷ ss) (h, hs) ((some_there, fixed), fit) = elim (Bool-cases (is_flexible f s.node)) [
    | inl e ↦ rw e (omega (arith, few s e h, least ss hs fit))
    | inr e ↦ rw e (omega (arith, fixed e, least ss hs fit))
  ]

  -- what the first loop ends with
  abbrev Handed : List (Node f) → ℕ → Loop f → Type 0
  Handed nodes n (ended ss) = (n ≤ counts f ss) × AllFit ss × (nodes_of ss ≡ nodes)
  Handed nodes n nothing_to_pick = (flexible_nodes f nodes ≡ 0) × (fixed_total f nodes < n)
  Handed nodes n running = ⊥

  one_more :
      (s : Share f)
      → has_key f (spare f) s ≡ true
      → Fits s
      → Fits (record s { count = suc s.count })
  one_more s e (some_there, fixed) =
      (omega (arith, some_there), λ off. absurd (ground (arith, off, sym (spare_there s) ∙ e)))

  crowded_there :
      (s : Share f) → has_key f (crowded f) s ≡ true → (is_flexible f s.node ≡ true) × (1 < s.count)
  crowded_there s = elim (Bool-cases (is_flexible f s.node)) [
    | inl e ↦ elim (Bool-cases (ltb 1 s.count)) [
      | inl more ↦ λ h. (e, ground (arith, more))
      | inr less ↦ rw (crowded, e, less) (λ h. absurd (ground (arith, h)))
    ]
    | inr e ↦ rw (crowded, e) (λ h. absurd (ground (arith, h)))
  ]

  one_less :
      (s : Share f)
      → has_key f (crowded f) s ≡ true
      → Fits s
      → Fits (record s { count = s.count - 1 })
  one_less s e (some_there, fixed) =
      let (on, more) = crowded_there s e in
      (omega (arith, more), λ off. absurd (ground (arith, off, on)))

  counts-shrunk :
      (i : ℕ) (ss : List (Share f))
      → IsAt f (has_key f (crowded f)) i ss
      → suc (counts f (change_count f (λ c. c - 1) i ss)) ≡ counts f ss
  counts-shrunk i [] at = absurd at
  counts-shrunk zero (s ∷ ss) at = omega (arith, (crowded_there s at).1)
  counts-shrunk (suc i) (s ∷ ss) at = omega (arith, counts-shrunk i ss at)

  hand_out-Handed :
      (fuel n : ℕ) (ss : List (Share f))
      → n ≤ counts f ss + fuel
      → AllFit ss
      → Handed (nodes_of ss) n (hand_out f fuel n ss)
  unfolding hand_out
  hand_out-Handed zero n ss enough fit =
      rw (hand_out, not_less (counts f ss) n (omega (arith, enough)))
        (omega (arith, enough), fit, refl)
  hand_out-Handed (suc fuel) n ss enough fit = elim (Bool-cases (ltb (counts f ss) n)) [
    | inr done ↦ rw (hand_out, done) (ground (arith, done), fit, refl)
    | inl less ↦ elim (best f (spare f) ss) [
      | inl (e, none_there) ↦
          let (a, b) = all_fixed ss none_there fit in
          rw (hand_out, less, e) (a, ground (arith, b, less))
      | inr (i, e, at) ↦
          let ss' = change_count f (λ c. suc c) i ss in
          rw (hand_out, less, e)
            (subst (λ ns. Handed ns n (hand_out f fuel n ss'))
              (nodes_of-change_count (λ c. suc c) i ss)
              (hand_out-Handed fuel n ss'
                (omega (arith, enough, counts-grown (has_key f (spare f)) i ss at))
                (AllFit-change_count (has_key f (spare f)) (λ c. suc c) i ss one_more at fit)))
    ]
  ]

  take_back-Balanced :
      (fuel n : ℕ) (ss : List (Share f))
      → counts f ss ≤ n + fuel
      → n ≤ counts f ss
      → fixed_total f (nodes_of ss) + flexible_nodes f (nodes_of ss) ≤ n
      → AllFit ss
      → Balanced (nodes_of ss) n (take_back f fuel n ss)
  unfolding take_back
  take_back-Balanced zero n ss enough low asked fit =
      rw (take_back, not_less n (counts f ss) (omega (arith, enough)))
        (omega (arith, enough, low), fit, refl)
  take_back-Balanced (suc fuel) n ss enough low asked fit =
      elim (Bool-cases (ltb n (counts f ss))) [
        | inr done ↦ rw (take_back, done) (ground (arith, done, low), fit, refl)
        | inl more ↦ elim (best f (crowded f) ss) [
          | inl (e, none_there) ↦ absurd (ground (arith, least ss none_there fit, more, asked))
          | inr (i, e, at) ↦
              let ss' = change_count f (λ c. c - 1) i ss in
              let same = nodes_of-change_count (λ c. c - 1) i ss in
              let less = counts-shrunk i ss at in
              rw (take_back, more, e)
                (subst (λ ns. Balanced ns n (take_back f fuel n ss')) same
                  (take_back-Balanced fuel n ss' (omega (arith, enough, less))
                    (ground (arith, more, less))
                    (subst (λ ns. fixed_total f ns + flexible_nodes f ns ≤ n) (sym same) asked)
                    (AllFit-change_count (has_key f (crowded f)) (λ c. c - 1) i ss one_less at
                      fit)))
        ]
      ]

  after_hand_out :
      (nodes : List (Node f)) (n : ℕ) (l : Loop f)
      → fixed_total f nodes + flexible_nodes f nodes ≤ n
      → Handed nodes n l
      → Balanced nodes n (then_take_back f n l)
  unfolding then_take_back
  after_hand_out nodes n (ended ss) asked (low, fit, same) =
      subst (λ ns. Balanced ns n (take_back f (counts f ss) n ss)) same
        (take_back-Balanced (counts f ss) n ss (omega arith) low
          (subst (λ ns. fixed_total f ns + flexible_nodes f ns ≤ n) (sym same) asked) fit)
  after_hand_out nodes n nothing_to_pick asked h = h
  after_hand_out nodes n running asked h = h

  pub balance-Balanced :
      (n : ℕ) (ss : List (Share f))
      → fixed_total f (nodes_of ss) + flexible_nodes f (nodes_of ss) ≤ n
      → AllFit ss
      → Balanced (nodes_of ss) n (balance f n ss)
  unfolding balance
  balance-Balanced n ss asked fit =
      after_hand_out (nodes_of ss) n (hand_out f n n ss) asked
        (hand_out-Handed n n ss (omega arith) fit)
