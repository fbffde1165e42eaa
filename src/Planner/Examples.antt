-- ===== src/Planner/Examples.antt =====
-- A plan of examples/plan_split.py for three machines.
use Prim.Native.Nat.{◌/◌, ◌^◌}
use distllm.Prelude.{
  ℕ, ◌+◌, ◌-◌, ◌*◌, String, string_eq, Option, none, some, List, [], ◌∷◌, map, ◌==◌, nat_eq, ltb,
  if◌then◌else◌, ◌≡◌, refl,
}
use distllm.Dict
use distllm.Planner.Shares.{Floats, Node, total}
use distllm.Planner.Balance.{hand_out, take_back, then_take_back, balance}
use distllm.Planner.Layers.{plan_with, plan, Plan, stages, crashed, too_few_layers}

-- numbers with two decimals
abbrev hundredths : Floats
hundredths = record {
  Number = ℕ;
  of_nat = λ n. 100 * n;
  decimal = λ m k. m * 100 / 10 ^ k;
  add = λ a b. a + b;
  sub = λ a b. a - b;
  mul = λ a b. a * b / 100;
  div = λ a b. a * 100 / b;
  max = λ a b. if ltb a b then b else a;
  sum = total;
  gt = λ a b. ltb b a;
  is_zero = λ a. a == 0;
  int = λ a. some (a / 100);
}

abbrev node : String → ℕ → Option ℕ → Node hundredths
node machine gb fixed = record { machine = machine; gb = 100 * gb; fixed = fixed }

abbrev friends : List (Node hundredths)
friends =
    node "me" 6 (some 1) ∷ node "alice" 10 none ∷ node "bob" 5 none ∷ node "me" 6 (some 2) ∷ []

abbrev model : List ℕ
model = 100 ∷ 100 ∷ 100 ∷ 100 ∷ 100 ∷ 100 ∷ 100 ∷ 100 ∷ []

abbrev ranges : Plan hundredths → List (String × ℕ × ℕ)
ranges (stages ss) = map (λ s. (s.machine, s.first, s.last)) ss
ranges _ = []

program : Unit {0}
unfolding plan plan_with balance then_take_back hand_out take_back Dict.get Dict.put
program = tt

planned :
    ranges (plan hundredths model 10 10 4 friends none "float16" 16)
    ≡ ("me", 0, 0) ∷ ("alice", 1, 4) ∷ ("bob", 5, 5) ∷ ("me", 6, 7) ∷ []
unfolding program
planned = refl

refused : plan hundredths (1 ∷ 1 ∷ []) 10 10 4 friends none "float16" 16 ≡ too_few_layers
unfolding program
refused = refl

-- Fixed counts for all nodes that leave layers over end with the ValueError of `max`.
left_over : plan hundredths model 10 10 4 (node "me" 6 (some 2) ∷ []) none "float16" 16 ≡ crashed
unfolding program
left_over = refl
