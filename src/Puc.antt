-- ===== src/Puc.antt =====
-- The Lua 5.1 sources under lua-5.1/src, which the Zig code ports and is tested against.
pub mod Word
pub mod Opmodes
pub mod Zio
pub mod Chunk
pub mod Checker
pub mod Table
pub mod Code
pub mod Vm
pub mod Parser
