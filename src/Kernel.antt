-- ===== src/Kernel.antt =====
-- The kernel (src/platform/kernel/): the process table, capability tokens, budget reservations,
-- permission checks, policies and the syscall pipeline that runs them in order.
pub mod Phase
pub mod Process
pub mod Table
pub mod Json
pub mod Decision
pub mod Policy
pub mod Agent
pub mod Permission
pub mod Budget
pub mod Capability
pub mod Pipeline
pub mod Stages
pub mod Composite
pub mod Glob
