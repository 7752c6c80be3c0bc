-- ===== src/Runtime.antt =====
-- The durable runtime (src/runtime): continuations, the ledger of runnable ones, the queue of work,
-- and the workers that drive it.
pub mod Continuation
pub mod Outcome
pub mod Response
pub mod Shaping
pub mod Goal
pub mod Engine
pub mod Opening
pub mod Ledger
pub mod Queue
pub mod Worker
pub mod Service
