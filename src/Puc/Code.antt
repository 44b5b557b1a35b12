-- ===== src/Puc/Code.antt =====
-- lua-5.1/src/lcode.c, lcode.h and lparser.h: the code generator of PUC Lua, on the state of the
-- function that is being compiled.
pub mod State
pub mod Jumps
pub mod Emit
pub mod Consts
pub mod Exps
pub mod Conds
pub mod Ops
pub mod Calls
pub mod Chains
pub mod Registers
pub mod Setlist
pub mod Folding
pub mod Keeps
