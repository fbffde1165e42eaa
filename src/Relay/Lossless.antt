-- ===== src/Relay/Lossless.antt =====
-- The wait of `_queue_get_first` in src/distllm/relay.py loses no item and makes none up.
use mathlib.Core.List.Perm
use distllm.Prelude.{Option, none, some, List, [], ◌∷◌, ◌++◌, Perm}

module _ {A : Type 0} where
  -- everything that the queues hold, and what was taken out of them
  abbrev pub items : Option A → List A
  items none = []
  items (some a) = a ∷ []

  abbrev pub contents : List (List A) → List A
  contents [] = []
  contents (q ∷ qs) = q ++ contents qs

  abbrev pub held : List (Option A × List A) → List A
  held [] = []
  held ((o, q) ∷ rest) = items o ++ (q ++ held rest)
