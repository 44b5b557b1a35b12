-- ===== src/Opcodes/Twin.antt =====
-- The opcodes of src/opcodes.zig against those of lua-5.1/src/lopcodes.h and lopcodes.c.
use zua.Prelude.{ℕ, zero, suc, ◌≡◌, refl, Bool, true, false, ◌==◌}
use zua.Opcodes.{
  OpCode, move, loadk, loadbool, loadnil, setupval, getglobal, gettable, setglobal, getupval,
  settable, newtable, self, add, sub, mul, div, modulo, pow, unm, not, len, concat, jmp, eq, lt, le,
  test, testset, call, tailcall, return, tforloop, forloop, forprep, setlist, closure, vararg,
  int_from_enum, OpMode, i_abc, i_abx, i_as_bx, OpArgMask, not_used, used, register_or_jump_offset,
  constant_or_register_constant, get_op_mode, get_b_mode, get_c_mode, sets_register_in_a,
  test_t_mode,
}
use zua.Puc.Opmodes
use zua.Puc.Opmodes.{
  op_move, op_loadk, op_loadbool, op_loadnil, op_setupval, op_getglobal, op_gettable, op_setglobal,
  op_getupval, op_settable, op_newtable, op_self, op_add, op_sub, op_mul, op_div, op_mod, op_pow,
  op_unm, op_not, op_len, op_concat, op_jmp, op_eq, op_lt, op_le, op_test, op_testset, op_call,
  op_tailcall, op_return, op_tforloop, op_forloop, op_forprep, op_setlist, op_closure, op_vararg,
  opcode_number,
}

-- The opcode of the same name in lopcodes.h.
abbrev pub twin : OpCode → Opmodes.OpCode
twin move = op_move
twin loadk = op_loadk
twin loadbool = op_loadbool
twin loadnil = op_loadnil
twin setupval = op_setupval
twin getglobal = op_getglobal
twin gettable = op_gettable
twin setglobal = op_setglobal
twin getupval = op_getupval
twin settable = op_settable
twin newtable = op_newtable
twin self = op_self
twin add = op_add
twin sub = op_sub
twin mul = op_mul
twin div = op_div
twin modulo = op_mod
twin pow = op_pow
twin unm = op_unm
twin not = op_not
twin len = op_len
twin concat = op_concat
twin jmp = op_jmp
twin eq = op_eq
twin lt = op_lt
twin le = op_le
twin test = op_test
twin testset = op_testset
twin call = op_call
twin tailcall = op_tailcall
twin return = op_return
twin tforloop = op_tforloop
twin forloop = op_forloop
twin forprep = op_forprep
twin setlist = op_setlist
twin closure = op_closure
twin vararg = op_vararg

-- The opcodes whose number in zua is that of lopcodes.h.
abbrev pub keeps_number : OpCode → Bool
keeps_number setupval = false
keeps_number getupval = false
keeps_number tforloop = false
keeps_number forloop = false
keeps_number forprep = false
keeps_number closure = false
keeps_number vararg = false
keeps_number _ = true

-- An opcode of zua has the number of its namesake in lopcodes.h, except for setupval, getupval,
-- tforloop, forloop, forprep, closure and vararg, each of which has another number.
pub int_from_enum-twin :
    (op : OpCode) → (int_from_enum op == opcode_number (twin op)) ≡ keeps_number op
unfolding int_from_enum opcode_number
int_from_enum-twin move = refl
int_from_enum-twin _ = refl

-- The codes of lopcodes.h for the enumerations of opcodes.zig.
abbrev pub mode_code : OpMode → ℕ
mode_code i_abc = Opmodes.i_abc
mode_code i_abx = Opmodes.i_abx
mode_code i_as_bx = Opmodes.i_asbx

abbrev pub mask_code : OpArgMask → ℕ
mask_code not_used = Opmodes.op_arg_n
mask_code used = Opmodes.op_arg_u
mask_code register_or_jump_offset = Opmodes.op_arg_r
mask_code constant_or_register_constant = Opmodes.op_arg_k

abbrev pub flag : ℕ → Bool
flag zero = false
flag (suc n) = true

-- The properties that zua gives an opcode, one test for each column of lopcodes.c.
pub record Agreement : Type 0 where
  pub mode : Bool
  pub b_mode : Bool
  pub c_mode : Bool
  pub sets_a : Bool
  pub tests : Bool

bool_eq : Bool → Bool → Bool
bool_eq true b = b
bool_eq false true = false
bool_eq false false = true

abbrev pub agreement : OpCode → Agreement
unfolding bool_eq
agreement op = record {
  mode = mode_code (get_op_mode op) == Opmodes.get_op_mode (twin op);
  b_mode = mask_code (get_b_mode op) == Opmodes.get_b_mode (twin op);
  c_mode = mask_code (get_c_mode op) == Opmodes.get_c_mode (twin op);
  sets_a = bool_eq (sets_register_in_a op) (flag (Opmodes.test_a_mode (twin op)));
  tests = bool_eq (test_t_mode op) (flag (Opmodes.test_t_mode (twin op)));
}

abbrev pub full : Agreement
full = record { mode = true; b_mode = true; c_mode = true; sets_a = true; tests = true }

-- Where the properties of opcodes.zig depart from the table of lopcodes.c.
abbrev pub expected : OpCode → Agreement
expected closure = record full { b_mode = false }
expected forloop = record full { b_mode = false }
expected forprep = record full { b_mode = false }
expected tforloop = record full { tests = false }
expected test = record full { b_mode = false; sets_a = false }
expected _ = full

-- The operand format, the uses of B and C, and the two flags of every opcode are those of the table
-- of lopcodes.c, except: B of closure, forloop, forprep and test, "sets register A" of test, and
-- "is a test" of tforloop, which all differ.
pub agreement-eq : (op : OpCode) → agreement op ≡ expected op
unfolding get_op_mode get_b_mode get_c_mode sets_register_in_a test_t_mode Opmodes.get_op_mode
    Opmodes.get_b_mode Opmodes.get_c_mode Opmodes.test_a_mode Opmodes.test_t_mode bool_eq
agreement-eq move = refl
agreement-eq _ = refl
