-- ===== src/Runtime/Engine.antt =====
-- The step engine, `StepEngine` (src/runtime/engine.py): the suspendable loop of a model's turns in
-- which every tool call is admitted by the kernel. The definitions stand in Machine, Tools, Dispatch,
-- Ending, Turn, Drive, Resume and Start.
pub mod Machine
pub mod Tools
pub mod Dispatch
pub mod Ending
pub mod Turn
pub mod Drive
pub mod Resume
pub mod Kept
pub mod Trust
pub mod Runs
pub mod Checked
pub mod Bounds
pub mod Origins
pub mod Replies
pub mod Complete
pub mod Parking
pub mod Duplicates
pub mod Start
pub mod Memory
