-- ===== src/Puc/Chunk.antt =====
-- Precompiled chunks of Lua 5.1: function prototypes (lua-5.1/src/lobject.h), the writer (ldump.c)
-- and the loader (lundump.c). The platform is the usual one: little-endian, `int` and `Instruction`
-- of 4 bytes, `size_t` and `lua_Number` of 8. A `lua_Number` is the 64-bit pattern that it is stored as.
pub mod Bytes
pub mod Format
pub mod Dump
pub mod Undump
pub mod Writes
pub mod Reads
pub mod Parts
pub mod Loaded
pub mod RoundTrip
use zua.Prelude.{ℕ, ◌+◌, Bool, List, [], ◌∷◌, Option}

-- The bytes of a TString; strings are interned, so equal strings are one object.
abbrev pub TString : Type 0
TString = List ℕ

-- The values that a constant can have; the string of `none` is a NULL pointer.
pub data TValue : Type 0 where
  nil : TValue
  boolean : Bool → TValue
  number : ℕ → TValue
  string : Option TString → TValue

pub record LocVar : Type 0 where
  pub varname : Option TString
  pub startpc : ℕ
  pub endpc : ℕ

-- The fields of `Proto` but the functions defined inside it; the sizes are those of the lists.
pub record ProtoInfo : Type 0 where
  pub k : List TValue
  pub code : List ℕ
  pub lineinfo : List ℕ
  pub locvars : List LocVar
  pub upvalues : List (Option TString)
  pub source : Option TString
  pub linedefined : ℕ
  pub lastlinedefined : ℕ
  pub nups : ℕ
  pub numparams : ℕ
  pub is_vararg : ℕ
  pub maxstacksize : ℕ

mutual
  pub data Proto : Type 0 where
    proto : ProtoInfo → Protos → Proto

  pub data Protos : Type 0 where
    no_protos : Protos
    more_protos : Proto → Protos → Protos

unfoldable pub count_protos : Protos → ℕ
count_protos no_protos = 0
count_protos (more_protos f fs) = count_protos fs + 1

-- The header that luaU_header builds: the signature "\033Lua", the version and format of the chunk,
-- and the sizes and the byte order of the platform.
abbrev pub luau_header : List ℕ
luau_header = 0x1b ∷ b'L' ∷ b'u' ∷ b'a' ∷ 0x51 ∷ 0 ∷ 1 ∷ 4 ∷ 8 ∷ 4 ∷ 8 ∷ 0 ∷ []

abbrev pub luac_headersize : ℕ
luac_headersize = 12

-- LUA_TNIL and so on.
abbrev pub lua_tnil : ℕ
lua_tnil = 0

abbrev pub lua_tboolean : ℕ
lua_tboolean = 1

abbrev pub lua_tnumber : ℕ
lua_tnumber = 3

abbrev pub lua_tstring : ℕ
lua_tstring = 4
