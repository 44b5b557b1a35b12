-- ===== src/Puc/Opmodes.antt =====
-- lua-5.1/src/lopcodes.h and lopcodes.c: the opcodes of the Lua 5.1 virtual machine, in order, and
-- the table of their properties.
use zua.Prelude.{ℕ, ◌*◌, ◌/◌, ◌^◌, bit_and, bit_or}

-- "ORDER OP": the number of an opcode is its place in this list.
pub data OpCode : Type 0 where
  op_move op_loadk op_loadbool op_loadnil op_getupval op_getglobal op_gettable : OpCode
  op_setglobal op_setupval op_settable op_newtable op_self op_add op_sub op_mul : OpCode
  op_div op_mod op_pow op_unm op_not op_len op_concat op_jmp op_eq op_lt op_le : OpCode
  op_test op_testset op_call op_tailcall op_return op_forloop op_forprep : OpCode
  op_tforloop op_setlist op_close op_closure op_vararg : OpCode

unfoldable pub opcode_number : OpCode → ℕ
opcode_number op_move = 0
opcode_number op_loadk = 1
opcode_number op_loadbool = 2
opcode_number op_loadnil = 3
opcode_number op_getupval = 4
opcode_number op_getglobal = 5
opcode_number op_gettable = 6
opcode_number op_setglobal = 7
opcode_number op_setupval = 8
opcode_number op_settable = 9
opcode_number op_newtable = 10
opcode_number op_self = 11
opcode_number op_add = 12
opcode_number op_sub = 13
opcode_number op_mul = 14
opcode_number op_div = 15
opcode_number op_mod = 16
opcode_number op_pow = 17
opcode_number op_unm = 18
opcode_number op_not = 19
opcode_number op_len = 20
opcode_number op_concat = 21
opcode_number op_jmp = 22
opcode_number op_eq = 23
opcode_number op_lt = 24
opcode_number op_le = 25
opcode_number op_test = 26
opcode_number op_testset = 27
opcode_number op_call = 28
opcode_number op_tailcall = 29
opcode_number op_return = 30
opcode_number op_forloop = 31
opcode_number op_forprep = 32
opcode_number op_tforloop = 33
opcode_number op_setlist = 34
opcode_number op_close = 35
opcode_number op_closure = 36
opcode_number op_vararg = 37

abbrev pub num_opcodes : ℕ
num_opcodes = 38

-- enum OpMode and enum OpArgMask.
abbrev pub i_abc : ℕ
i_abc = 0

abbrev pub i_abx : ℕ
i_abx = 1

abbrev pub i_asbx : ℕ
i_asbx = 2

abbrev pub op_arg_n : ℕ
op_arg_n = 0

abbrev pub op_arg_u : ℕ
op_arg_u = 1

abbrev pub op_arg_r : ℕ
op_arg_r = 2

abbrev pub op_arg_k : ℕ
op_arg_k = 3

abbrev opmode : ℕ → ℕ → ℕ → ℕ → ℕ → ℕ
opmode t a b c m =
    bit_or (bit_or (bit_or (bit_or (t * 2 ^ 7) (a * 2 ^ 6)) (b * 2 ^ 4)) (c * 2 ^ 2)) m

unfoldable pub luap_opmodes : OpCode → ℕ
luap_opmodes op_move = opmode 0 1 op_arg_r op_arg_n i_abc
luap_opmodes op_loadk = opmode 0 1 op_arg_k op_arg_n i_abx
luap_opmodes op_loadbool = opmode 0 1 op_arg_u op_arg_u i_abc
luap_opmodes op_loadnil = opmode 0 1 op_arg_r op_arg_n i_abc
luap_opmodes op_getupval = opmode 0 1 op_arg_u op_arg_n i_abc
luap_opmodes op_getglobal = opmode 0 1 op_arg_k op_arg_n i_abx
luap_opmodes op_gettable = opmode 0 1 op_arg_r op_arg_k i_abc
luap_opmodes op_setglobal = opmode 0 0 op_arg_k op_arg_n i_abx
luap_opmodes op_setupval = opmode 0 0 op_arg_u op_arg_n i_abc
luap_opmodes op_settable = opmode 0 0 op_arg_k op_arg_k i_abc
luap_opmodes op_newtable = opmode 0 1 op_arg_u op_arg_u i_abc
luap_opmodes op_self = opmode 0 1 op_arg_r op_arg_k i_abc
luap_opmodes op_add = opmode 0 1 op_arg_k op_arg_k i_abc
luap_opmodes op_sub = opmode 0 1 op_arg_k op_arg_k i_abc
luap_opmodes op_mul = opmode 0 1 op_arg_k op_arg_k i_abc
luap_opmodes op_div = opmode 0 1 op_arg_k op_arg_k i_abc
luap_opmodes op_mod = opmode 0 1 op_arg_k op_arg_k i_abc
luap_opmodes op_pow = opmode 0 1 op_arg_k op_arg_k i_abc
luap_opmodes op_unm = opmode 0 1 op_arg_r op_arg_n i_abc
luap_opmodes op_not = opmode 0 1 op_arg_r op_arg_n i_abc
luap_opmodes op_len = opmode 0 1 op_arg_r op_arg_n i_abc
luap_opmodes op_concat = opmode 0 1 op_arg_r op_arg_r i_abc
luap_opmodes op_jmp = opmode 0 0 op_arg_r op_arg_n i_asbx
luap_opmodes op_eq = opmode 1 0 op_arg_k op_arg_k i_abc
luap_opmodes op_lt = opmode 1 0 op_arg_k op_arg_k i_abc
luap_opmodes op_le = opmode 1 0 op_arg_k op_arg_k i_abc
luap_opmodes op_test = opmode 1 1 op_arg_r op_arg_u i_abc
luap_opmodes op_testset = opmode 1 1 op_arg_r op_arg_u i_abc
luap_opmodes op_call = opmode 0 1 op_arg_u op_arg_u i_abc
luap_opmodes op_tailcall = opmode 0 1 op_arg_u op_arg_u i_abc
luap_opmodes op_return = opmode 0 0 op_arg_u op_arg_n i_abc
luap_opmodes op_forloop = opmode 0 1 op_arg_r op_arg_n i_asbx
luap_opmodes op_forprep = opmode 0 1 op_arg_r op_arg_n i_asbx
luap_opmodes op_tforloop = opmode 1 0 op_arg_n op_arg_u i_abc
luap_opmodes op_setlist = opmode 0 0 op_arg_u op_arg_u i_abc
luap_opmodes op_close = opmode 0 0 op_arg_n op_arg_n i_abc
luap_opmodes op_closure = opmode 0 1 op_arg_u op_arg_n i_abx
luap_opmodes op_vararg = opmode 0 1 op_arg_u op_arg_n i_abc

unfoldable pub get_op_mode : OpCode → ℕ
unfolding luap_opmodes
get_op_mode m = bit_and (luap_opmodes m) 3

unfoldable pub get_b_mode : OpCode → ℕ
unfolding luap_opmodes
get_b_mode m = bit_and (luap_opmodes m / 2 ^ 4) 3

unfoldable pub get_c_mode : OpCode → ℕ
unfolding luap_opmodes
get_c_mode m = bit_and (luap_opmodes m / 2 ^ 2) 3

unfoldable pub test_a_mode : OpCode → ℕ
unfolding luap_opmodes
test_a_mode m = bit_and (luap_opmodes m) (2 ^ 6)

unfoldable pub test_t_mode : OpCode → ℕ
unfolding luap_opmodes
test_t_mode m = bit_and (luap_opmodes m) (2 ^ 7)

-- LFIELDS_PER_FLUSH
abbrev pub lfields_per_flush : ℕ
lfields_per_flush = 50
