-- ===== src/Dump/Puc.antt =====
-- What src/dump.zig writes, for the loader and the writer of lua-5.1/src.
use zua.Prelude.{
  ℕ, suc, ◌+◌, ◌%◌, ◌^◌, ◌<◌, ◌≡◌, refl, sym, ap, ◌∙◌, Bool, true, false, List, [], ◌∷◌, ◌++◌, map,
  append_assoc, append-nil, none, some, lt→ltb, length, All, arith,
}
use zua.Puc.Zio.{Zio}
use zua.Puc.Zio.Content.{IsValid, content}
use zua.Puc.Chunk.{TValue, ProtoInfo, Proto, proto, no_protos, count_protos, luau_header}
use zua.Puc.Chunk.Dump.{luau_dump, dumped_source, same_string}
use zua.Puc.Chunk.Format.{
  string_bytes, vector_bytes, constant_bytes, each_bytes, list_bytes, debug_bytes, info_bytes,
  function_bytes, protos_bytes, chunk_bytes,
}
use zua.Puc.Chunk.Undump.{luau_undump, unknown_source}
use zua.Puc.Chunk.Reads.{Loaded}
use zua.Puc.Chunk.Parts.{IsVector, IsConstant}
use zua.Puc.Chunk.Loaded.{
  IsInfo, IsLoadable, AreLoadable, resolved, resolved_protos, resolved_info, resolved_source,
}
use zua.Puc.Chunk.Writes.{append_writer, luau_dump-chunk_bytes}
use zua.Puc.Chunk.RoundTrip.{luau_undump-luau_dump}
use zua.Dump.{
  ◌and_then◌, on_written, Constant, string, number, nil, boolean, VarArgs, FunctionInfo, function,
  Functions, dump_varargs, undump_varargs, Written, written, write_c_int, write_string,
  write_header, write_constant, write_constants, write_function, write,
}

abbrev from_flags : Bool → Bool → Bool → VarArgs
from_flags a b c = record { has_arg = a; is_var_arg = b; needs_arg = c }

flags : (a b c : Bool) → undump_varargs (dump_varargs (from_flags a b c)) ≡ from_flags a b c
unfolding undump_varargs dump_varargs
flags true true true = refl
flags true true false = refl
flags true false true = refl
flags true false false = refl
flags false true true = refl
flags false true false = refl
flags false false true = refl
flags false false false = refl

-- The flags of a function's variable arguments come back from the byte that they are dumped to.
pub undump_varargs-dump_varargs : (v : VarArgs) → undump_varargs (dump_varargs v) ≡ v
undump_varargs-dump_varargs v = flags v.has_arg v.is_var_arg v.needs_arg

unfoldable pub puc_constant : Constant → TValue
puc_constant (string s) = zua.Puc.Chunk.string (some s)
puc_constant (number x) = zua.Puc.Chunk.number x
puc_constant nil = zua.Puc.Chunk.nil
puc_constant (boolean b) = zua.Puc.Chunk.boolean b

-- The function without its inner functions, its lines and its debug information.
unfoldable pub puc_info : FunctionInfo → ProtoInfo
unfolding puc_constant
puc_info f = record {
  k = map puc_constant f.constants;
  code = f.code;
  lineinfo = [];
  locvars = [];
  upvalues = [];
  source = some unknown_source;
  linedefined = 0;
  lastlinedefined = 0;
  nups = f.num_upvalues;
  numparams = f.num_params;
  is_vararg = dump_varargs f.varargs;
  maxstacksize = f.max_stack_size;
}

abbrev pub keep : List ℕ → List ℕ → Written (List ℕ)
keep b w = written (w ++ b)

unfoldable pub IsWritable : Constant → Type 0
IsWritable (string s) = length s + 1 < 2 ^ 64
IsWritable (number x) = x < 2 ^ 64
IsWritable _ = Unit

constant :
    (c : Constant) (w : List ℕ)
    → IsWritable c
    → write_constant keep c w ≡ written (w ++ constant_bytes (puc_constant c))
unfolding write_constant write_string constant_bytes string_bytes puc_constant IsWritable
constant (string s) w h = rw (lt→ltb _ _ h) (simp append_assoc)
constant (number x) w h = simp append_assoc
constant nil w h = refl
constant (boolean true) w h = simp append_assoc
constant (boolean false) w h = simp append_assoc

step :
    (m k : List ℕ → Written (List ℕ)) (w : List ℕ) {w' : List ℕ} {o : Written (List ℕ)}
    → m w ≡ written w'
    → k w' ≡ o
    → ◌and_then◌ keep m k w ≡ o
step m k w e e' = ap (on_written keep k) e ∙ e'

constants :
    (cs : List Constant) (w : List ℕ)
    → All IsWritable cs
    → write_constants keep cs w ≡ written (w ++ each_bytes constant_bytes (map puc_constant cs))
unfolding write_constants each_bytes
constants [] w h = ap written (sym (append-nil w))
constants (c ∷ cs) w (h, hs) =
    step (write_constant keep c) (write_constants keep cs) w (constant c w h)
      (constants cs _ hs ∙ ap written (append_assoc w _ _))

length-map : (cs : List Constant) → length (map puc_constant cs) ≡ length cs
length-map [] = refl
length-map (c ∷ cs) = ap suc (length-map cs)

-- The fields are bytes, and the counts and sizes fit what they are converted to.
pub record IsWritten (f : FunctionInfo) : Type 0 where
  pub num_upvalues : f.num_upvalues < 256
  pub num_params : f.num_params < 256
  pub max_stack_size : f.max_stack_size < 256
  pub code : IsVector f.code
  pub few_constants : length f.constants < 2 ^ 31
  pub constants : All IsWritable f.constants

flags_byte :
    (a b c : Bool) → dump_varargs (from_flags a b c) % 256 ≡ dump_varargs (from_flags a b c)
unfolding dump_varargs
flags_byte true true true = refl
flags_byte true true false = refl
flags_byte true false true = refl
flags_byte true false false = refl
flags_byte false true true = refl
flags_byte false true false = refl
flags_byte false false true = refl
flags_byte false false false = refl

dump_varargs-byte : (v : VarArgs) → dump_varargs v % 256 ≡ dump_varargs v
dump_varargs-byte v = flags_byte v.has_arg v.is_var_arg v.needs_arg

byte : {x : ℕ} → x < 256 → x % 256 ≡ x
byte h = omega arith

bytes :
    (f : FunctionInfo) (protos : Functions) (w : List ℕ)
    → IsWritten f
    → write keep (function f protos) w
      ≡ written (w ++ chunk_bytes true (proto (puc_info f) no_protos))
unfolding write write_header write_function write_c_int write_string chunk_bytes function_bytes
    protos_bytes info_bytes debug_bytes vector_bytes list_bytes string_bytes each_bytes puc_info
    dumped_source count_protos
bytes f protos w h =
    rw
      (
        lt→ltb _ _ h.code.short,
        lt→ltb _ _ h.few_constants,
        constants f.constants _ h.constants,
        length-map f.constants,
        byte h.num_upvalues,
        byte h.num_params,
        byte h.max_stack_size,
        dump_varargs-byte f.varargs,
      )
      (simp (append_assoc, append-nil) refl)

-- For a function whose fields fit the format, whatever functions are defined in it, src/dump.zig writes the
-- very bytes that luaU_dump writes, stripped, of the function without those inner functions.
pub write-luau_dump :
    (f : FunctionInfo) (protos : Functions) (w : List ℕ)
    → IsWritten f
    → write keep (function f protos) w
      ≡ written (luau_dump append_writer (proto (puc_info f) no_protos) w true).1
write-luau_dump f protos w h =
    bytes f protos w h
    ∙ ap (λ d. written d.1) (sym (luau_dump-chunk_bytes (proto (puc_info f) no_protos) w true))

constants-IsConstant :
    (cs : List Constant) → All IsWritable cs → All IsConstant (map puc_constant cs)
unfolding puc_constant IsWritable IsConstant
constants-IsConstant [] h = tt
constants-IsConstant (string s ∷ cs) (h, hs) = (h, constants-IsConstant cs hs)
constants-IsConstant (number x ∷ cs) (h, hs) = (h, constants-IsConstant cs hs)
constants-IsConstant (nil ∷ cs) (h, hs) = (tt, constants-IsConstant cs hs)
constants-IsConstant (boolean b ∷ cs) (h, hs) = (tt, constants-IsConstant cs hs)

resolved-puc_info :
    (f : FunctionInfo)
    → resolved true (proto (puc_info f) no_protos) none (some unknown_source)
      ≡ proto (puc_info f) no_protos
unfolding resolved resolved_protos resolved_info resolved_source dumped_source puc_info same_string
resolved-puc_info f = refl

dump_varargs-small : (v : VarArgs) → dump_varargs v < 256
dump_varargs-small v = omega (arith, dump_varargs-byte v)

puc_info-IsInfo : (f : FunctionInfo) → IsWritten f → IsInfo true (puc_info f) none
unfolding puc_info dumped_source same_string
puc_info-IsInfo f h = record {
  source = tt;
  linedefined = omega arith;
  lastlinedefined = omega arith;
  nups = h.num_upvalues;
  numparams = h.num_params;
  is_vararg = dump_varargs-small f.varargs;
  maxstacksize = h.max_stack_size;
  code = h.code;
  few_constants = rw (length-map f.constants) h.few_constants;
  constants = constants-IsConstant f.constants h.constants;
  debug = record {
    lines = record { short = omega arith; elements = tt };
    few_vars = omega arith;
    vars = tt;
    few_names = omega arith;
    names = tt;
  };
}

written_of : Written (List ℕ) → List ℕ
written_of (written w) = w
written_of _ = []

written-inj : {v w : List ℕ} → written v ≡ written w → v ≡ w
unfolding written_of
written-inj e = ap written_of e

puc_info-IsLoadable :
    (luag_checkcode : Proto → Bool) (calls : ℕ) (f : FunctionInfo)
    → IsWritten f
    → luag_checkcode (proto (puc_info f) no_protos) ≡ true
    → IsLoadable luag_checkcode true
        (suc calls)
        (proto (puc_info f) no_protos)
        none
        (some unknown_source)
unfolding IsLoadable count_protos AreLoadable
puc_info-IsLoadable check calls f h accepted =
    (puc_info-IsInfo f h, omega arith, tt, ap check (resolved-puc_info f) ∙ accepted)

-- lua-5.1 loads what src/dump.zig writes of a function whose fields fit the format, when its verifier accepts it, with at
-- least one of LUAI_MAXCCALLS left:
-- luaU_undump returns the function with its code, constants, parameters, upvalue count and flags, but
-- without inner functions, lines and debug information and with the source "=?", and leaves the rest of the stream.
pub luau_undump-write :
    (luag_checkcode : Proto → Bool) (calls : ℕ) (f : FunctionInfo) (protos : Functions) (z : Zio)
    (w rest : List ℕ)
    → IsWritten f
    → luag_checkcode (proto (puc_info f) no_protos) ≡ true
    → write keep (function f protos) [] ≡ written w
    → IsValid z
    → content z ≡ w ++ rest
    → Loaded (proto (puc_info f) no_protos) rest (luau_undump luag_checkcode (suc calls) z)
luau_undump-write check calls f protos z w rest h accepted ew v e =
    let same : w ≡ (luau_dump append_writer (proto (puc_info f) no_protos) [] true).1 =
      written-inj (sym ew ∙ write-luau_dump f protos [] h) in
    rw (sym (resolved-puc_info f)) (
      luau_undump-luau_dump check (suc calls) true (proto (puc_info f) no_protos) z rest
        (puc_info-IsLoadable check calls f h accepted) v (e ∙ ap (λ b. b ++ rest) same))
