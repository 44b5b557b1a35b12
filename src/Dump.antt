-- ===== src/Dump.antt =====
-- src/dump.zig, and the function prototypes of src/object.zig that it writes. A number is the 64-bit pattern
-- of its `f64`. The platform is little-endian, `c_int` has 4 bytes and `usize` 8.
pub mod Puc
use zua.Prelude.{
  ℕ, ◌+◌, ◌^◌, Bool, true, false, List, [], ◌∷◌, ◌++◌, Option, none, some, bit_or, bit_and, ltb,
  ◌==◌, if◌then◌else◌, length,
}
use zua.Puc.Chunk.Bytes.{to_le}
use zua.Puc.Chunk.Dump.{words}

pub data Constant : Type 0 where
  string : List ℕ → Constant
  number : ℕ → Constant
  nil : Constant
  boolean : Bool → Constant

pub record VarArgs : Type 0 where
  pub has_arg : Bool
  pub is_var_arg : Bool
  pub needs_arg : Bool

-- The fields of `Function` but `protos`, the header of the collector and the allocator.
pub record FunctionInfo : Type 0 where
  pub name : List ℕ
  pub code : List ℕ
  pub constants : List Constant
  pub varargs : VarArgs
  pub max_stack_size : ℕ
  pub num_params : ℕ
  pub num_upvalues : ℕ
  pub line_info : List ℕ
  pub source : List ℕ

mutual
  pub data Function : Type 0 where
    function : FunctionInfo → Functions → Function

  pub data Functions : Type 0 where
    no_functions : Functions
    more_functions : Function → Functions → Functions

-- `VarArgs.dump`
unfoldable pub dump_varargs : VarArgs → ℕ
dump_varargs self =
    let dumped = if self.has_arg then 1 else 0 in
    let dumped = if self.is_var_arg then bit_or dumped 2 else dumped in
    if self.needs_arg then bit_or dumped 4 else dumped

-- `VarArgs.undump`
unfoldable pub undump_varargs : ℕ → VarArgs
undump_varargs dumped = record {
  has_arg = bit_and dumped 1 == 1;
  is_var_arg = bit_and dumped 2 == 2;
  needs_arg = bit_and dumped 4 == 4;
}

-- `Value.Type.bytecodeId`, of the types that a constant can have.
abbrev pub bytecode_id : Constant → ℕ
bytecode_id (string s) = 4
bytecode_id (number x) = 3
bytecode_id nil = 0
bytecode_id (boolean b) = 1

abbrev pub signature : List ℕ
signature = 0x1b ∷ b'L' ∷ b'u' ∷ b'a' ∷ []

abbrev pub luac_version : ℕ
luac_version = 0x51

abbrev pub luac_format : ℕ
luac_format = 0

abbrev pub int_from_bool : Bool → ℕ
int_from_bool b = if b then 1 else 0

-- The outcome of a step: the writer, the writer's error, or a checked conversion that does not fit.
pub data Written (W : Type 0) : Type 0 where
  written : W → Written W
  failed : Written W
  panicked : Written W

-- `write_all` is the caller's writer; its `writeByte` and `writeInt` write all of their bytes.
module _ {W : Type 0} (write_all : List ℕ → W → Written W) where
  abbrev pub Step : Type 0
  Step = W → Written W

  abbrev pub on_written : Step → Written W → Written W
  on_written k (written w) = k w
  on_written k failed = failed
  on_written k panicked = panicked

  -- `try m; k`
  infixl 1 ◌and_then◌
  abbrev pub ◌and_then◌ : Step → Step → Step
  ◌and_then◌ m k w = on_written k (m w)

  abbrev pub skip : Step
  skip w = written w

  abbrev pub write_byte : ℕ → Step
  write_byte b = write_all (b ∷ [])

  unfoldable pub write_c_int : ℕ → Step
  write_c_int x w = if ltb x (2 ^ 31) then write_all (to_le 4 x) w else panicked

  unfoldable pub write_string : Option (List ℕ) → Step
  write_string none w = write_all (to_le 8 0) w
  write_string (some s) w =
      if ltb (length s + 1) (2 ^ 64)
      then (write_all (to_le 8 (length s + 1)) and_then write_all s and_then write_byte 0) w
      else panicked

  unfoldable pub write_header : Step
  write_header =
      write_all signature
      and_then write_byte luac_version
      and_then write_byte luac_format
      and_then write_byte (int_from_bool true)
      and_then write_byte 4
      and_then write_byte 8
      and_then write_byte 4
      and_then write_byte 8
      and_then write_byte (int_from_bool false)

  unfoldable pub write_constant : Constant → Step
  write_constant (string s) = write_byte (bytecode_id (string s)) and_then write_string (some s)
  write_constant (number x) = write_byte (bytecode_id (number x)) and_then write_all (to_le 8 x)
  write_constant nil = write_byte (bytecode_id nil)
  write_constant (boolean b) =
      write_byte (bytecode_id (boolean b)) and_then write_byte (int_from_bool b)

  unfoldable pub write_constants : List Constant → Step
  write_constants [] = skip
  write_constants (c ∷ cs) = write_constant c and_then write_constants cs

  abbrev pub strip_debug_info : Bool
  strip_debug_info = true

  unfoldable pub write_function : Function → Step
  write_function (function f protos) =
      let chunk_name = if strip_debug_info then none else some f.name in
      write_string chunk_name
      and_then write_c_int 0
      and_then write_c_int 0
      and_then write_byte f.num_upvalues
      and_then write_byte f.num_params
      and_then write_byte (dump_varargs f.varargs)
      and_then write_byte f.max_stack_size
      and_then write_c_int (length f.code)
      and_then write_all (words 4 f.code)
      and_then write_c_int (length f.constants)
      and_then write_constants f.constants
      and_then write_c_int 0
      and_then write_c_int 0
      and_then write_c_int 0
      and_then write_c_int 0

  unfoldable pub write : Function → Step
  write chunk = write_header and_then write_function chunk
