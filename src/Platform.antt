-- ===== src/Platform.antt =====
-- Fleet-level services beside the kernel (src/platform).
pub mod NamespacePolicy
pub mod TaskQueue
