-- ===== src/Planner/Shares.antt =====
-- The stages of `plan` in examples/plan_split.py with their weights and first counts. The floating-point
-- operations are a parameter, without laws.
use distllm.Prelude.{
  ◌>>=◌, ℕ, zero, suc, ◌+◌, String, string_eq, Bool, Option, none, some, List, [], ◌∷◌, map, ◌==◌,
  nat_eq, if◌then◌else◌, length,
}
use distllm.Dict.{Dict}

-- Python's floats: `decimal m k` is the literal m / 10 ** k, `int x` is
-- `max(0, int(x))`, none where `int` raises: of NaN and infinity.
pub record Floats : Type 1 where
  pub Number : Type 0
  pub of_nat : ℕ → Number
  pub decimal : ℕ → ℕ → Number
  pub add : Number → Number → Number
  pub sub : Number → Number → Number
  pub mul : Number → Number → Number
  pub div : Number → Number → Number
  pub max : Number → Number → Number
  pub sum : List Number → Number
  pub gt : Number → Number → Bool
  pub is_zero : Number → Bool
  pub int : Number → Option ℕ

abbrev pub total : List ℕ → ℕ
total [] = 0
total (n ∷ ns) = n + total ns

-- `max(1, n)`
abbrev pub at_least_one : ℕ → ℕ
at_least_one zero = 1
at_least_one (suc n) = suc n

module _ (f : Floats) where
  -- One entry of `nodes`: the machine, its memory in GB, a fixed layer count or none. Negative counts,
  -- which `main` does not refuse, are left out.
  pub record Node : Type 0 where
    pub machine : String
    pub gb : f.Number
    pub fixed : Option ℕ

  -- `counts[i] or 0` at the start; a fixed count of 0 is none
  abbrev pub fixed_count : Node → ℕ
  fixed_count n = elim n.fixed [ none ↦ 0 | some c ↦ c ]

  abbrev pub is_flexible : Node → Bool
  is_flexible n = fixed_count n == 0

  abbrev pub bytes_per_param : Dict String f.Number
  bytes_per_param =
      ("float32", f.decimal 40 1)
      ∷ ("float16", f.decimal 20 1)
      ∷ ("bfloat16", f.decimal 20 1)
      ∷ ("int8", f.decimal 10 1)
      ∷ ("nf4", f.decimal 53 2)
      ∷ ("fp4", f.decimal 53 2)
      ∷ []

  abbrev headroom : f.Number
  headroom = f.decimal 85 2

  abbrev pub giga : f.Number
  giga = f.of_nat 1000000000

  -- A stage while layers are handed out: its node, fixed cost, weight and count.
  pub record Share : Type 0 where
    pub node : Node
    pub cost : f.Number
    pub weight : f.Number
    pub count : ℕ

  abbrev pub add_first : f.Number → List f.Number → List f.Number
  add_first x [] = []
  add_first x (c ∷ cs) = f.add c x ∷ cs

  abbrev pub add_last : f.Number → List f.Number → List f.Number
  add_last x [] = []
  add_last x (c ∷ []) = f.add c x ∷ []
  add_last x (c ∷ d ∷ cs) = c ∷ add_last x (d ∷ cs)

  -- `fixed_cost`
  abbrev pub fixed_costs : f.Number → f.Number → List Node → List f.Number
  fixed_costs embed head nodes = add_last head (add_first embed (map (λ n. f.decimal 0 1) nodes))

  -- `capacity[machine]`, which the machine's first node sets
  abbrev pub capacity_of : String → List Node → f.Number
  capacity_of machine [] = f.decimal 0 1
  capacity_of machine (n ∷ ns) =
      let rest = capacity_of machine ns in
      if n.machine == machine then f.mul (f.mul n.gb giga) headroom else rest

  abbrev pub start_shares : List Node → List f.Number → List Share
  start_shares [] costs = []
  start_shares (n ∷ ns) [] = []
  start_shares (n ∷ ns) (c ∷ cs) =
      record { node = n; cost = c; weight = f.decimal 0 1; count = fixed_count n }
      ∷ start_shares ns cs

  -- the stages in `stages_on[machine]`
  abbrev pub stages_on : String → List Share → List Share
  stages_on machine [] = []
  stages_on machine (s ∷ ss) =
      let rest = stages_on machine ss in if s.node.machine == machine then s ∷ rest else rest

  abbrev pub flexible : List Share → List Share
  flexible [] = []
  flexible (s ∷ ss) = let rest = flexible ss in if is_flexible s.node then s ∷ rest else rest

  -- `max(left, 0.0) / len(flex)` for a machine
  abbrev pub weight_on : f.Number → f.Number → List Share → f.Number
  weight_on avg_layer capacity idx =
      let left = f.sub capacity (f.sum (map (λ s. s.cost) idx)) in
      let left' =
        f.sub left (f.sum (map (λ s. f.mul (f.of_nat (fixed_count s.node)) avg_layer) idx)) in
      f.div (f.max left' (f.decimal 0 1)) (f.of_nat (length (flexible idx)))

  abbrev pub weigh : List Node → f.Number → List Share → Share → Share
  weigh nodes avg_layer all s =
      let machine = s.node.machine in
      if is_flexible s.node
      then record s {
        weight = weight_on avg_layer (capacity_of machine nodes) (stages_on machine all);
      }
      else s

  -- `sum(...) or 1.0`
  abbrev pub total_weight : List Share → f.Number
  total_weight ss =
      let w = f.sum (map (λ s. s.weight) (flexible ss)) in if f.is_zero w then f.decimal 10 1 else w

  -- `counts[i] = max(1, int(...))`, none where `int` raises
  abbrev pub portion : ℕ → f.Number → Share → Option Share
  portion free_layers whole s =
      if is_flexible s.node
      then elim (f.int (f.div (f.mul (f.of_nat free_layers) s.weight) whole)) [
        | none ↦ none
        | some n ↦ some (record s { count = at_least_one n })
      ]
      else some s

  abbrev pub portions : ℕ → f.Number → List Share → Option (List Share)
  portions free_layers whole [] = some []
  portions free_layers whole (s ∷ ss) = do
    s' ← portion free_layers whole s
    ss' ← portions free_layers whole ss
    some (s' ∷ ss')
