-- ===== src/Tests.antt =====
-- The theorems of the development at concrete inputs.
pub mod Instructions
pub mod Sizes
pub mod Chunks
pub mod Tables
pub mod Code
pub mod Codegen
pub mod Parser
