-- ===== src/Planner/Ranges.antt =====
-- The stages that `plan` of examples/plan_split.py gives: ranges of layers that cover the model.
use distllm.Prelude.{
  ℕ, suc, ◌+◌, ◌-◌, ◌≤◌, ◌<◌, string_eq, true, ◌⊎◌, Option, none, some, List, [], ◌∷◌, map, nat_eq,
  length, ◌≡◌,
}
use distllm.Dict
use distllm.Planner.Shares.{
  Floats, Node, Share, fixed_count, is_flexible, fixed_costs, start_shares, weigh,
}
use distllm.Planner.Layers.{
  fixed_total, flexible_nodes, Stage, Plan, stages, too_few_layers, too_little_memory, crashed,
  unfinished,
}
use distllm.Planner.Loops.{AllFit, nodes_of}

module _ (f : Floats) where
  -- Ranges of at least one layer, one after the other, from a start to an end.
  abbrev pub Covers : ℕ → ℕ → List (Stage f) → Type 0
  Covers start end [] = start ≡ end
  Covers start end (s ∷ ss) = (s.first ≡ start) × (start ≤ s.last) × Covers (suc s.last) end ss

  -- Stages for the nodes in their order, with the fixed counts that the nodes ask for.
  abbrev pub AreFor : List (Node f) → List (Stage f) → Type 0
  AreFor [] [] = Unit
  AreFor [] (s ∷ ss) = ⊥
  AreFor (n ∷ ns) [] = ⊥
  AreFor (n ∷ ns) (s ∷ ss) =
      (s.machine ≡ n.machine)
      × ((is_flexible f n ≡ true) ⊎ (suc s.last ≡ s.first + fixed_count f n))
      × AreFor ns ss

  abbrev pub Planned : List ℕ → List (Node f) → Plan f → Type 0
  Planned layers nodes (stages ss) = Covers 0 (length layers) ss × AreFor nodes ss
  Planned layers nodes too_few_layers = length layers < fixed_total f nodes + flexible_nodes f nodes
  Planned layers nodes (too_little_memory machine) = Unit
  Planned layers nodes crashed =
      ((flexible_nodes f nodes ≡ 0) × (fixed_total f nodes < length layers))
      ⊎ ((x : f.Number) × (f.int x ≡ none))
  Planned layers nodes unfinished = ⊥

  abbrev AtStart : List (Share f) → Type 0
  AtStart [] = Unit
  AtStart (s ∷ ss) = (s.count ≡ fixed_count f s.node) × AtStart ss

  module _ (nodes : List (Node f)) (avg_layer whole : f.Number) (all : List (Share f))
      (free : ℕ) where
    -- Either `int` raises, or the stages keep their nodes and have some layers each.
    abbrev Portioned : List (Share f) → Option (List (Share f)) → Type 0
    Portioned ss none = (x : f.Number) × (f.int x ≡ none)
    Portioned ss (some ss') = (nodes_of f ss' ≡ nodes_of f ss) × AllFit f ss'

  module _ (layers : List ℕ) (embed head avg_layer : f.Number) (nodes : List (Node f)) where
    abbrev start : List (Share f)
    start = start_shares f nodes (fixed_costs f embed head nodes)

    abbrev weighed : List (Share f)
    weighed = map (weigh f nodes avg_layer start) start

    abbrev free : ℕ
    free = length layers - fixed_total f nodes
