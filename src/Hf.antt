-- ===== src/Hf.antt =====
-- The generators of src/distllm/hf.py.
pub mod Pipeline
pub mod Generate
pub mod Replay
pub mod Reference
pub mod Termination
pub mod Draft
pub mod Speculative
pub mod Greedy
pub mod Verified
pub mod Speculation
pub mod Finishing
pub mod Stage
pub mod Batch
pub mod Through
pub mod Audit
mod Examples
