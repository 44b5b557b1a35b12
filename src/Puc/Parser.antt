-- ===== src/Puc/Parser.antt =====
-- lua-5.1/src/lparser.c: the parser of PUC Lua, which drives the code generator of lcode.c.
pub mod Tokens
pub mod State
pub mod Scope
pub mod Functions
pub mod Exprs
pub mod Stats
pub mod Keeps
pub mod Search
pub mod Sound
