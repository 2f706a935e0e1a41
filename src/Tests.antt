-- ===== src/Tests.antt =====
-- The theorems applied to small states.
pub mod Data
pub mod Memory
pub mod View
pub mod Shared
pub mod Cpu
pub mod Kernel
pub mod Console
