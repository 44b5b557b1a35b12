-- ===== src/Opcodes.antt =====
-- src/opcodes.zig: the opcodes of zua, the struct that each is laid out by, and their properties.
pub mod Twin
pub mod Instruction
use zua.Prelude.{ℕ, Bool, true, false}

pub data OpCode : Type 0 where
  move loadk loadbool loadnil setupval getglobal gettable setglobal getupval : OpCode
  settable newtable self add sub mul div modulo pow unm not len concat jmp eq lt : OpCode
  le test testset call tailcall return tforloop forloop forprep setlist closure : OpCode
  vararg : OpCode

-- @intFromEnum
unfoldable pub int_from_enum : OpCode → ℕ
int_from_enum move = 0
int_from_enum loadk = 1
int_from_enum loadbool = 2
int_from_enum loadnil = 3
int_from_enum setupval = 4
int_from_enum getglobal = 5
int_from_enum gettable = 6
int_from_enum setglobal = 7
int_from_enum getupval = 8
int_from_enum settable = 9
int_from_enum newtable = 10
int_from_enum self = 11
int_from_enum add = 12
int_from_enum sub = 13
int_from_enum mul = 14
int_from_enum div = 15
int_from_enum modulo = 16
int_from_enum pow = 17
int_from_enum unm = 18
int_from_enum not = 19
int_from_enum len = 20
int_from_enum concat = 21
int_from_enum jmp = 22
int_from_enum eq = 23
int_from_enum lt = 24
int_from_enum le = 25
int_from_enum test = 26
int_from_enum testset = 27
int_from_enum call = 28
int_from_enum tailcall = 29
int_from_enum return = 30
int_from_enum tforloop = 31
int_from_enum forloop = 32
int_from_enum forprep = 33
int_from_enum setlist = 34
int_from_enum closure = 35
int_from_enum vararg = 36

-- The packed structs of `Instruction`, by name.
pub data InstructionType : Type 0 where
  type_move type_load_k type_load_bool type_load_nil type_setup_val : InstructionType
  type_get_global type_get_table type_set_global type_get_up_val type_set_table : InstructionType
  type_new_table type_self type_binary_math type_unary_minus type_not : InstructionType
  type_length type_concat type_jump type_compare type_test type_test_set : InstructionType
  type_call type_return type_t_for_loop type_for_loop type_set_list type_closure : InstructionType
  type_var_arg : InstructionType

unfoldable pub instruction_type : OpCode → InstructionType
instruction_type move = type_move
instruction_type loadk = type_load_k
instruction_type loadbool = type_load_bool
instruction_type loadnil = type_load_nil
instruction_type setupval = type_setup_val
instruction_type getglobal = type_get_global
instruction_type gettable = type_get_table
instruction_type setglobal = type_set_global
instruction_type getupval = type_get_up_val
instruction_type settable = type_set_table
instruction_type newtable = type_new_table
instruction_type self = type_self
instruction_type add = type_binary_math
instruction_type sub = type_binary_math
instruction_type mul = type_binary_math
instruction_type div = type_binary_math
instruction_type modulo = type_binary_math
instruction_type pow = type_binary_math
instruction_type unm = type_unary_minus
instruction_type not = type_not
instruction_type len = type_length
instruction_type concat = type_concat
instruction_type jmp = type_jump
instruction_type eq = type_compare
instruction_type lt = type_compare
instruction_type le = type_compare
instruction_type test = type_test
instruction_type testset = type_test_set
instruction_type call = type_call
instruction_type tailcall = type_call
instruction_type return = type_return
instruction_type tforloop = type_t_for_loop
instruction_type forloop = type_for_loop
instruction_type forprep = type_for_loop
instruction_type setlist = type_set_list
instruction_type closure = type_closure
instruction_type vararg = type_var_arg

pub data OpMode : Type 0 where
  i_abc i_abx i_as_bx : OpMode

pub data OpArgMask : Type 0 where
  not_used used register_or_jump_offset constant_or_register_constant : OpArgMask

pub record OpMeta : Type 0 where
  pub b_mode : OpArgMask
  pub c_mode : OpArgMask
  pub sets_register_in_a : Bool
  pub test_t_mode : Bool

abbrev pub move_meta : OpMeta
move_meta = record {
  b_mode = register_or_jump_offset;
  c_mode = not_used;
  sets_register_in_a = true;
  test_t_mode = false;
}

abbrev pub load_k_meta : OpMeta
load_k_meta = record {
  b_mode = constant_or_register_constant;
  c_mode = not_used;
  sets_register_in_a = true;
  test_t_mode = false;
}

abbrev pub load_bool_meta : OpMeta
load_bool_meta = record {
  b_mode = used;
  c_mode = used;
  sets_register_in_a = true;
  test_t_mode = false;
}

abbrev pub load_nil_meta : OpMeta
load_nil_meta = record {
  b_mode = register_or_jump_offset;
  c_mode = not_used;
  sets_register_in_a = true;
  test_t_mode = false;
}

abbrev pub setup_val_meta : OpMeta
setup_val_meta = record {
  b_mode = used;
  c_mode = not_used;
  sets_register_in_a = false;
  test_t_mode = false;
}

abbrev pub get_global_meta : OpMeta
get_global_meta = record {
  b_mode = constant_or_register_constant;
  c_mode = not_used;
  sets_register_in_a = true;
  test_t_mode = false;
}

abbrev pub get_table_meta : OpMeta
get_table_meta = record {
  b_mode = register_or_jump_offset;
  c_mode = constant_or_register_constant;
  sets_register_in_a = true;
  test_t_mode = false;
}

abbrev pub set_global_meta : OpMeta
set_global_meta = record {
  b_mode = constant_or_register_constant;
  c_mode = not_used;
  sets_register_in_a = false;
  test_t_mode = false;
}

abbrev pub get_up_val_meta : OpMeta
get_up_val_meta = record {
  b_mode = used;
  c_mode = not_used;
  sets_register_in_a = true;
  test_t_mode = false;
}

abbrev pub set_table_meta : OpMeta
set_table_meta = record {
  b_mode = constant_or_register_constant;
  c_mode = constant_or_register_constant;
  sets_register_in_a = false;
  test_t_mode = false;
}

abbrev pub new_table_meta : OpMeta
new_table_meta = record {
  b_mode = used;
  c_mode = used;
  sets_register_in_a = true;
  test_t_mode = false;
}

abbrev pub self_meta : OpMeta
self_meta = record {
  b_mode = register_or_jump_offset;
  c_mode = constant_or_register_constant;
  sets_register_in_a = true;
  test_t_mode = false;
}

abbrev pub binary_math_meta : OpMeta
binary_math_meta = record {
  b_mode = constant_or_register_constant;
  c_mode = constant_or_register_constant;
  sets_register_in_a = true;
  test_t_mode = false;
}

abbrev pub unary_minus_meta : OpMeta
unary_minus_meta = record {
  b_mode = register_or_jump_offset;
  c_mode = not_used;
  sets_register_in_a = true;
  test_t_mode = false;
}

abbrev pub not_meta : OpMeta
not_meta = record {
  b_mode = register_or_jump_offset;
  c_mode = not_used;
  sets_register_in_a = true;
  test_t_mode = false;
}

abbrev pub length_meta : OpMeta
length_meta = record {
  b_mode = register_or_jump_offset;
  c_mode = not_used;
  sets_register_in_a = true;
  test_t_mode = false;
}

abbrev pub concat_meta : OpMeta
concat_meta = record {
  b_mode = register_or_jump_offset;
  c_mode = register_or_jump_offset;
  sets_register_in_a = true;
  test_t_mode = false;
}

abbrev pub jump_meta : OpMeta
jump_meta = record {
  b_mode = register_or_jump_offset;
  c_mode = not_used;
  sets_register_in_a = false;
  test_t_mode = false;
}

abbrev pub compare_meta : OpMeta
compare_meta = record {
  b_mode = constant_or_register_constant;
  c_mode = constant_or_register_constant;
  sets_register_in_a = false;
  test_t_mode = true;
}

abbrev pub test_meta : OpMeta
test_meta = record {
  b_mode = not_used;
  c_mode = used;
  sets_register_in_a = false;
  test_t_mode = true;
}

abbrev pub test_set_meta : OpMeta
test_set_meta = record {
  b_mode = register_or_jump_offset;
  c_mode = used;
  sets_register_in_a = true;
  test_t_mode = true;
}

abbrev pub call_meta : OpMeta
call_meta = record { b_mode = used; c_mode = used; sets_register_in_a = true; test_t_mode = false }

abbrev pub return_meta : OpMeta
return_meta = record {
  b_mode = used;
  c_mode = not_used;
  sets_register_in_a = false;
  test_t_mode = false;
}

abbrev pub t_for_loop_meta : OpMeta
t_for_loop_meta = record {
  b_mode = not_used;
  c_mode = used;
  sets_register_in_a = false;
  test_t_mode = false;
}

abbrev pub for_loop_meta : OpMeta
for_loop_meta = record {
  b_mode = not_used;
  c_mode = not_used;
  sets_register_in_a = true;
  test_t_mode = false;
}

abbrev pub set_list_meta : OpMeta
set_list_meta = record {
  b_mode = used;
  c_mode = used;
  sets_register_in_a = false;
  test_t_mode = false;
}

abbrev pub closure_meta : OpMeta
closure_meta = record {
  b_mode = constant_or_register_constant;
  c_mode = not_used;
  sets_register_in_a = true;
  test_t_mode = false;
}

abbrev pub var_arg_meta : OpMeta
var_arg_meta = record {
  b_mode = used;
  c_mode = not_used;
  sets_register_in_a = true;
  test_t_mode = false;
}

abbrev pub type_meta : InstructionType → OpMeta
type_meta type_move = move_meta
type_meta type_load_k = load_k_meta
type_meta type_load_bool = load_bool_meta
type_meta type_load_nil = load_nil_meta
type_meta type_setup_val = setup_val_meta
type_meta type_get_global = get_global_meta
type_meta type_get_table = get_table_meta
type_meta type_set_global = set_global_meta
type_meta type_get_up_val = get_up_val_meta
type_meta type_set_table = set_table_meta
type_meta type_new_table = new_table_meta
type_meta type_self = self_meta
type_meta type_binary_math = binary_math_meta
type_meta type_unary_minus = unary_minus_meta
type_meta type_not = not_meta
type_meta type_length = length_meta
type_meta type_concat = concat_meta
type_meta type_jump = jump_meta
type_meta type_compare = compare_meta
type_meta type_test = test_meta
type_meta type_test_set = test_set_meta
type_meta type_call = call_meta
type_meta type_return = return_meta
type_meta type_t_for_loop = t_for_loop_meta
type_meta type_for_loop = for_loop_meta
type_meta type_set_list = set_list_meta
type_meta type_closure = closure_meta
type_meta type_var_arg = var_arg_meta

-- The first field of each struct is an ABC, ABx or AsBx.
abbrev pub type_mode : InstructionType → OpMode
type_mode type_move = i_abc
type_mode type_load_k = i_abx
type_mode type_load_bool = i_abc
type_mode type_load_nil = i_abc
type_mode type_setup_val = i_abc
type_mode type_get_global = i_abx
type_mode type_get_table = i_abc
type_mode type_set_global = i_abx
type_mode type_get_up_val = i_abc
type_mode type_set_table = i_abc
type_mode type_new_table = i_abc
type_mode type_self = i_abc
type_mode type_binary_math = i_abc
type_mode type_unary_minus = i_abc
type_mode type_not = i_abc
type_mode type_length = i_abc
type_mode type_concat = i_abc
type_mode type_jump = i_as_bx
type_mode type_compare = i_abc
type_mode type_test = i_abc
type_mode type_test_set = i_abc
type_mode type_call = i_abc
type_mode type_return = i_abc
type_mode type_t_for_loop = i_abc
type_mode type_for_loop = i_as_bx
type_mode type_set_list = i_abc
type_mode type_closure = i_abx
type_mode type_var_arg = i_abc

unfoldable pub get_op_mode : OpCode → OpMode
unfolding instruction_type
get_op_mode op = type_mode (instruction_type op)

abbrev pub op_meta : OpCode → OpMeta
unfolding instruction_type
op_meta op = type_meta (instruction_type op)

unfoldable pub get_b_mode : OpCode → OpArgMask
unfolding op_meta
get_b_mode op = (op_meta op).b_mode

unfoldable pub get_c_mode : OpCode → OpArgMask
unfolding op_meta
get_c_mode op = (op_meta op).c_mode

unfoldable pub sets_register_in_a : OpCode → Bool
unfolding op_meta
sets_register_in_a op = (op_meta op).sets_register_in_a

unfoldable pub test_t_mode : OpCode → Bool
unfolding op_meta
test_t_mode op = (op_meta op).test_t_mode
