-- ===== src/Planner.antt =====
-- `plan` of examples/plan_split.py: which layers each stage holds.
pub mod Shares
pub mod Balance
pub mod Layers
mod Best
mod Loops
mod Ranges
mod Examples
