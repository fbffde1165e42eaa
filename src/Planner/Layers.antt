-- ===== src/Planner/Layers.antt =====
-- The ranges that `plan` in examples/plan_split.py lays, their memory, and `plan` as a whole.
use distllm.Prelude.{
  ℕ, suc, ◌+◌, ◌-◌, ◌*◌, String, string_eq, Option, none, some, List, [], ◌∷◌, map, ◌==◌, nat_eq,
  ltb, if◌then◌else◌, length, take, drop,
}
use distllm.Text.{truthy}
use distllm.Dict
use distllm.Dict.{Dict}
use distllm.Planner.Shares.{
  Floats, Node, Share, total, fixed_count, is_flexible, capacity_of, start_shares, fixed_costs,
  weigh, portions, total_weight, giga, bytes_per_param,
}
use distllm.Planner.Balance.{Loop, ended, nothing_to_pick, running, balance}

module _ (f : Floats) where
  -- One entry of the result: a machine, its first and last layer, and the memory in GB.
  pub record Stage : Type 0 where
    pub machine : String
    pub first : ℕ
    pub last : ℕ
    pub used : f.Number
    pub gb : f.Number

  -- The stages; the SystemExit for too many fixed layers, or for a machine with too little memory;
  -- `crashed` for a Python error on input that the code does not expect.
  pub data Plan : Type 0 where
    stages : List Stage → Plan
    too_few_layers : Plan
    too_little_memory : String → Plan
    crashed unfinished : Plan

  abbrev used_bytes : List ℕ → f.Number → f.Number → Share f → ℕ → ℕ → f.Number
  used_bytes layers weight_bytes kv_per_layer s a b =
      f.add
        (f.add s.cost (f.mul (f.of_nat (total (take (suc b - a) (drop a layers)))) weight_bytes))
        (f.mul (f.of_nat s.count) kv_per_layer)

  -- the loop that lays the stages' ranges one after the other
  abbrev pub lay : List ℕ → f.Number → f.Number → ℕ → List (Share f) → List Stage
  lay layers weight_bytes kv_per_layer start [] = []
  lay layers weight_bytes kv_per_layer start (s ∷ ss) =
      let b = start + s.count - 1 in
      record {
        machine = s.node.machine;
        first = start;
        last = b;
        used = f.div (used_bytes layers weight_bytes kv_per_layer s start b) (giga f);
        gb = s.node.gb;
      }
      ∷ lay layers weight_bytes kv_per_layer (suc b) ss

  abbrev use_of : String → Dict String f.Number → f.Number
  use_of machine used_by = elim (Dict.get machine used_by) [ none ↦ f.decimal 0 1 | some u ↦ u ]

  -- `used_by` after the same loop
  abbrev pub add_up :
      List ℕ
      → f.Number
      → f.Number
      → ℕ
      → List (Share f)
      → Dict String f.Number
      → Dict String f.Number
  add_up layers weight_bytes kv_per_layer start [] used_by = used_by
  add_up layers weight_bytes kv_per_layer start (s ∷ ss) used_by =
      let b = start + s.count - 1 in
      let used = used_bytes layers weight_bytes kv_per_layer s start b in
      let machine = s.node.machine in
      add_up layers weight_bytes kv_per_layer (suc b) ss
        (Dict.put machine (f.add (use_of machine used_by) used) used_by)

  abbrev pub overfull : List (Node f) → Dict String f.Number → Option String
  overfull nodes [] = none
  overfull nodes ((machine, used) ∷ used_by) =
      let rest = overfull nodes used_by in
      if f.gt used (capacity_of f machine nodes) then some machine else rest

  abbrev pub finish : List ℕ → f.Number → f.Number → List (Node f) → Loop f → Plan
  finish layers weight_bytes kv_per_layer nodes running = unfinished
  finish layers weight_bytes kv_per_layer nodes nothing_to_pick = crashed
  finish layers weight_bytes kv_per_layer nodes (ended ss) =
      elim (overfull nodes (add_up layers weight_bytes kv_per_layer 0 ss [])) [
        | none ↦ stages (lay layers weight_bytes kv_per_layer 0 ss)
        | some machine ↦ too_little_memory machine
      ]

  abbrev pub fixed_total : List (Node f) → ℕ
  fixed_total nodes = total (map (fixed_count f) nodes)

  abbrev pub flexible_nodes : List (Node f) → ℕ
  flexible_nodes [] = 0
  flexible_nodes (n ∷ ns) =
      let rest = flexible_nodes ns in if is_flexible f n then suc rest else rest

  -- the stages with their weights and first counts
  abbrev pub shares :
      List ℕ → f.Number → f.Number → f.Number → List (Node f) → Option (List (Share f))
  shares layers embed head avg_layer nodes =
      let ss = start_shares f nodes (fixed_costs f embed head nodes) in
      let weighed = map (weigh f nodes avg_layer ss) ss in
      portions f (length layers - fixed_total nodes) (total_weight f weighed) weighed

  unfoldable pub plan_with : List ℕ → ℕ → ℕ → ℕ → List (Node f) → f.Number → f.Number → ℕ → Plan
  unfolding balance
  plan_with layers embed head kv_width nodes weight_bytes dense_bytes context =
      let kv_per_layer = f.mul (f.of_nat (2 * kv_width * context)) dense_bytes in
      let avg_layer =
        f.add (f.mul (f.div (f.of_nat (total layers)) (f.of_nat (length layers))) weight_bytes)
          kv_per_layer in
      if ltb (length layers) (fixed_total nodes + flexible_nodes nodes)
      then too_few_layers
      else elim (shares layers (f.mul (f.of_nat embed) dense_bytes)
          (f.mul (f.of_nat head) dense_bytes) avg_layer nodes) [
            | none ↦ crashed
            | some ss ↦ finish layers weight_bytes kv_per_layer nodes (balance f (length layers) ss)
          ]

  abbrev pub plan_bytes :
      List ℕ → ℕ → ℕ → ℕ → List (Node f) → ℕ → Option f.Number → Option f.Number → Plan
  plan_bytes layers embed head kv_width nodes context (some weight_bytes) (some dense_bytes) =
      if length layers == 0
      then crashed
      else if length nodes == 0
      then crashed
      else plan_with layers embed head kv_width nodes weight_bytes dense_bytes context
  plan_bytes layers embed head kv_width nodes context _ _ = crashed

  unfoldable pub plan : List ℕ → ℕ → ℕ → ℕ → List (Node f) → Option String → String → ℕ → Plan
  unfolding plan_with
  plan layers embed head kv_width nodes quantize dtype context =
      plan_bytes layers embed head kv_width nodes context
        (Dict.get (elim (truthy quantize) [ none ↦ dtype | some q ↦ q ]) (bytes_per_param f))
        (Dict.get dtype (bytes_per_param f))
