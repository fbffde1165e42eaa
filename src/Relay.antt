-- ===== src/Relay.antt =====
-- The relay, src/distllm/relay.py: its state, its queues, its sweeps and its HTTP handlers.
pub mod State
pub mod Tasks
pub mod Sweep
pub mod Api
pub mod Queues
pub mod Poll
pub mod Step
pub mod Lifecycle
pub mod Refines
pub mod Invariant
pub mod Delivery
mod Examples
pub mod Outcomes
pub mod Affinity
pub mod Lossless
pub mod Routes
pub mod Status
