-- ===== src/Planner/Balance.antt =====
-- The two while loops of `plan` in examples/plan_split.py.
use distllm.Prelude.{
  ℕ, zero, suc, ◌-◌, string_eq, ◌&&◌, Option, none, some, List, [], ◌∷◌, map, nat_eq, ltb,
  if◌then◌else◌,
}
use distllm.Planner.Shares.{Floats, Share, is_flexible, total}

module _ (f : Floats) where
  -- `max(stages, key=...)`: the place of the first greatest key among the stages that have one
  abbrev pub best_from :
      (Share f → Option f.Number) → List (Share f) → ℕ → Option (ℕ × f.Number) → Option ℕ
  best_from key [] i none = none
  best_from key [] i (some (j, k)) = some j
  best_from key (s ∷ ss) i none = elim (key s) [
    | none ↦ best_from key ss (suc i) none
    | some k ↦ best_from key ss (suc i) (some (i, k))
  ]
  best_from key (s ∷ ss) i (some (j, best)) = elim (key s) [
    | none ↦ best_from key ss (suc i) (some (j, best))
    | some k ↦ best_from key ss (suc i) (if f.gt k best then some (i, k) else some (j, best))
  ]

  abbrev pub change_count : (ℕ → ℕ) → ℕ → List (Share f) → List (Share f)
  change_count g i [] = []
  change_count g zero (s ∷ ss) = record s { count = g s.count } ∷ ss
  change_count g (suc i) (s ∷ ss) = s ∷ change_count g i ss

  -- the key of a stage that may get one more layer
  abbrev pub spare : Share f → Option f.Number
  spare s = if is_flexible f s.node then some (f.div s.weight (f.of_nat (suc s.count))) else none

  -- the key of a stage that may lose one
  abbrev pub crowded : Share f → Option f.Number
  crowded s =
      if is_flexible f s.node && ltb 1 s.count
      then some (f.div (f.of_nat s.count) (f.max s.weight (f.decimal 10 1)))
      else none

  abbrev pub counts : List (Share f) → ℕ
  counts ss = total (map (λ s. s.count) ss)

  -- How a while loop ends: with the stages, or with the ValueError of `max` over nothing; `running`
  -- when its fuel is used up.
  pub data Loop : Type 0 where
    ended : List (Share f) → Loop
    nothing_to_pick running : Loop

  unfoldable pub hand_out : ℕ → ℕ → List (Share f) → Loop
  hand_out zero n ss = if ltb (counts ss) n then running else ended ss
  hand_out (suc fuel) n ss =
      let next : Loop = elim (best_from spare ss 0 none) [
        | none ↦ nothing_to_pick
        | some i ↦ hand_out fuel n (change_count (λ c. suc c) i ss)
      ] in
      if ltb (counts ss) n then next else ended ss

  unfoldable pub take_back : ℕ → ℕ → List (Share f) → Loop
  take_back zero n ss = if ltb n (counts ss) then running else ended ss
  take_back (suc fuel) n ss =
      let next : Loop = elim (best_from crowded ss 0 none) [
        | none ↦ nothing_to_pick
        | some i ↦ take_back fuel n (change_count (λ c. c - 1) i ss)
      ] in
      if ltb n (counts ss) then next else ended ss

  unfoldable pub then_take_back : ℕ → Loop → Loop
  unfolding take_back
  then_take_back n (ended ss) = take_back (counts ss) n ss
  then_take_back n nothing_to_pick = nothing_to_pick
  then_take_back n running = running

  -- the two while loops, each with the fuel that it needs
  unfoldable pub balance : ℕ → List (Share f) → Loop
  unfolding hand_out then_take_back
  balance n ss = then_take_back n (hand_out n n ss)
