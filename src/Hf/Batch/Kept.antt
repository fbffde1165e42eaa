-- ===== src/Hf/Batch/Kept.antt =====
-- `handle_batch` of src/distllm/hf.py keeps what `handle` promises.
use distllm.Prelude.{ℕ, List, nat_eq, string_eq, ◌≡◌, length, Perm}
use distllm.Dict
use distllm.Hf.Stage.{Layers, Payload, Limits, Sessions}
use distllm.Hf.Stage.Tokens.{Lawful, Known}
use distllm.Hf.Batch.{Batched, Reply}
use distllm.Hf.Batch.Rows.{LawfulBatch}
use distllm.Hf.Batch.Order.{zip}
use distllm.Hf.Batch.Served.{ServedAs}

module _ (l : Layers) (b : Batched l) (w : Lawful l) where
  module _ (lb : LawfulBatch l b w) (limits : Limits) (now : ℕ) where
    abbrev Ran : Known l w → List (Payload l) → List (Reply l) × Sessions l → Type 0
    Ran g ps r = (length r.0 ≡ length ps) × ServedAs l w g (zip l ps r.0) r.1

  abbrev pub Refines : List (Payload l) → Known l w → List (Reply l) → Sessions l → Type 0
  Refines ps g replies m =
      (served : List (Payload l × Reply l)) × Perm served (zip l ps replies)
      × ServedAs l w g served m
