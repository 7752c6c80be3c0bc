-- ===== src/Tests.antt =====
-- Concrete runs of the model and the theorems at concrete inputs.
pub mod Fixtures
mod Chats
mod Composite
mod Gates
mod Tasks
pub mod Engine
mod Service
mod Policies
mod Runtime
mod Budgets
mod Tokens
mod Processes
