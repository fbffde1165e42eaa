-- ===== src/Hf/Audit/Examples.antt =====
-- A check of src/distllm/hf.py over two stages that add a number each, one of them the wrong one.
use distllm.Prelude.{
  ℕ, suc, ◌+◌, String, string_eq, Bool, true, false, List, [], ◌∷◌, map, ◌==◌, nat_eq, ◌≡◌, refl,
  ap, arith, if◌then◌else◌,
}
use distllm.Hf.Through.{passed, ended}
use distllm.Hf.Audit.{
  Calls, Ran, logits, mismatch, agreed, through_roles, run_fresh, locate_from, check,
}
use distllm.Hf.Audit.Locate.{Runs, check-mismatch}

abbrev total : List ℕ → ℕ
total [] = 0
total (t ∷ ts) = t + total ts

abbrev behaviour : String → ℕ
behaviour r = if r == "main-1" then 7 else if r == "audit-1" then 2 else 1

abbrev range : String → ℕ
range r = if r == "main-1" then 1 else if r == "audit-1" then 1 else 0

-- stages that add their number, the last of which ends a chain
abbrev adders : Calls ℕ ℕ
adders = record {
  World = Unit {0};
  call = λ w session r new. (
    if range r == 1
        then ended (total new + behaviour r)
        else passed (map (λ t. t + behaviour r) new),
    w,
  );
  close = λ w session r. w;
}

abbrev audit_run : List String → Unit {0} → Ran ℕ × Unit {0}
audit_run chain w = run_fresh adders "audit-1f" chain (0 ∷ []) w

abbrev auditors : List String
auditors = "audit-0" ∷ "audit-1" ∷ []

abbrev second : List ℕ → ℕ
second (a ∷ b ∷ ns) = b
second ns = 0

abbrev first : List ℕ → ℕ
first (a ∷ ns) = a
first [] = 5

abbrev long : List ℕ → ℕ
long [] = 0
long (a ∷ ns) = suc (long ns)

two :
    (x y : String) (w : Unit {0})
    → range x ≡ 0
    → range y ≡ 1
    → (audit_run (x ∷ y ∷ []) w).0 ≡ logits (total (behaviour x ∷ behaviour y ∷ []))
unfolding run_fresh through_roles
two x y w e f = rw (run_fresh, through_roles, e, f) (ap logits (omega arith))

runs : Runs audit_run range behaviour total auditors
runs [] w e = absurd (ground (arith, ap long e))
runs (x ∷ []) w e = absurd (ground (arith, ap long e))
runs (x ∷ y ∷ []) w e = two x y w (ap first e) (ap second e)
runs (x ∷ y ∷ z ∷ chain) w e = absurd (ground (arith, ap long e))

abbrev same : ℕ → ℕ → Bool
same a b = a == b

abbrev other : ℕ → ℕ → Bool
other a b = if a == b then false else true

found :
    (check same other audit_run auditors true ("main-0" ∷ "main-1" ∷ []) 8 tt).0
    ≡ mismatch ("main-1" ∷ [])
unfolding check locate_from run_fresh through_roles
found = refl

check-mismatch_example :
    (check same other audit_run auditors true ("main-0" ∷ "main-1" ∷ []) 8 tt).0
    ≡ mismatch ("main-1" ∷ [])
check-mismatch_example =
    check-mismatch same other audit_run range behaviour total ("main-0" ∷ []) ("audit-0" ∷ []) [] []
      "main-1" "audit-1" tt runs refl (refl, refl, tt) refl tt refl refl

-- Logits that no comparison holds of, such as NaN, fail a check that names nobody.
unordered :
    (check (λ a b. false) (λ a b. false) audit_run auditors true ("main-0" ∷ "main-1" ∷ []) 8 tt).0
    ≡ mismatch []
unfolding check locate_from run_fresh through_roles
unordered = refl

passes : (check same other audit_run auditors true ("main-0" ∷ "audit-1" ∷ []) 3 tt).0 ≡ agreed
unfolding check run_fresh through_roles
passes = refl
