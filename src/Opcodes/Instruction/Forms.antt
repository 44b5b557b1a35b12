-- ===== src/Opcodes/Instruction/Forms.antt =====
-- src/opcodes.zig: the constructors and accessors of the instruction forms. A field that holds a
-- count plus one, with 0 for "up to the top", is read and written by the same code in three forms.
use zua.Prelude.{
  ℕ, ◌+◌, ◌-◌, ◌/◌, ◌%◌, ◌^◌, Bool, false, not, ◌&&◌, ◌||◌, Option, none, some, ltb, leb, ◌==◌,
  if◌then◌else◌,
}
use zua.Prelude.Int.{ℤ, pos, negsuc, ◌+ℤ◌, leb_ℤ}
use zua.Opcodes.{OpCode, loadk, loadbool, loadnil, getglobal, gettable, setglobal, settable, self}
use zua.Opcodes.{not as op_not, concat, jmp, test, testset, call, return, setlist, closure, vararg}
use zua.Opcodes.Instruction.{
  fits_u, Abc, Abx, AsBx, abc_init, abx_init, as_bx_init, get_signed_bx, set_signed_bx,
  int_from_bool, add_u, sub_u, int_cast_u, max_c,
}

load_k_init : ℕ → ℕ → Abx
load_k_init result_reg constant_index = abx_init loadk result_reg constant_index

load_bool_init : ℕ → Bool → Bool → Abc
load_bool_init result_reg val does_jump =
    abc_init loadbool result_reg (int_from_bool val) (int_from_bool does_jump)

load_bool_does_jump : Abc → Bool
load_bool_does_jump i = not (i.c == 0)

-- The assertion `reg_range_end >= reg_range_start` fails with a panic.
unfoldable pub load_nil_init : ℕ → ℕ → Option Abc
load_nil_init reg_range_start reg_range_end =
    if leb reg_range_start reg_range_end
    then some (abc_init loadnil reg_range_start reg_range_end 0)
    else none

unfoldable pub assigns_to_multiple_registers : Abc → Bool
assigns_to_multiple_registers i = not (i.a == i.b % 2 ^ 8)

unfoldable pub will_assign_to_register : Abc → ℕ → Bool
will_assign_to_register i reg = leb i.a reg && leb reg i.b

get_global_init : ℕ → ℕ → Abx
get_global_init result_reg name_constant_index = abx_init getglobal result_reg name_constant_index

get_table_init : ℕ → ℕ → ℕ → Abc
get_table_init result_reg table_reg key_rk = abc_init gettable result_reg table_reg key_rk

set_global_init : ℕ → ℕ → Abx
set_global_init name_constant_index source_reg = abx_init setglobal source_reg name_constant_index

set_table_init : ℕ → ℕ → ℕ → Abc
set_table_init table_reg key_rk val_rk = abc_init settable table_reg key_rk val_rk

self_init : ℕ → ℕ → ℕ → Abc
self_init setup_reg_start table_reg key_rk = abc_init self setup_reg_start table_reg key_rk

binary_math_init : OpCode → ℕ → ℕ → ℕ → Abc
binary_math_init op result_reg left_rk right_rk = abc_init op result_reg left_rk right_rk

not_init : ℕ → ℕ → Abc
not_init result_reg value_reg = abc_init op_not result_reg value_reg 0

unfoldable pub concat_init : ℕ → ℕ → ℕ → Option Abc
concat_init result_reg start_reg end_reg =
    if ltb start_reg end_reg then some (abc_init concat result_reg start_reg end_reg) else none

-- `(c - b) + 1` on `u9`.
unfoldable pub num_concatted_values : Abc → Option ℕ
num_concatted_values i = elim (sub_u i.c i.b) [ some d ↦ add_u 9 d 1 | none ↦ none ]

-- `no_jump`
abbrev pub no_jump : ℤ
no_jump = negsuc 0

unfoldable pub is_no_jump : ℤ → Bool
is_no_jump (negsuc n) = n == 0
is_no_jump (pos n) = false

-- The inner option is Zig's `?i18`, the outer one a panic.
unfoldable pub get_offset : AsBx → Option (Option ℤ)
unfolding get_signed_bx is_no_jump
get_offset i = elim (get_signed_bx i) [
  | none ↦ none
  | some sbx ↦ if is_no_jump sbx then some none else some (some sbx)
]

unfoldable pub set_offset : AsBx → Option ℤ → Option AsBx
unfolding set_signed_bx
set_offset i (some offset) = set_signed_bx i offset
set_offset i none = set_signed_bx i no_jump

unfoldable pub jump_init : Option ℤ → Option AsBx
unfolding as_bx_init set_offset
jump_init offset = elim (as_bx_init jmp 0 (pos 0)) [ some i ↦ set_offset i offset | none ↦ none ]

-- `@as(isize, pc + 1) + offset`, cast to `usize`; `pc + 1` and the sum are within `isize`.
unfoldable pub offset_to_absolute : ℕ → ℤ → Option ℕ
offset_to_absolute pc offset =
    let absolute = pos (pc + 1) +ℤ offset in
    if not (fits_u 63 (pc + 1)) || leb_ℤ (pos (2 ^ 63)) absolute
    then none
    else int_cast_u 64 absolute

compare_init : OpCode → Bool → ℕ → ℕ → Abc
compare_init op invert left_rk right_rk = abc_init op (int_from_bool invert) left_rk right_rk

is_inverted : Abc → Bool
is_inverted i = not (i.a == 0)

test_init : ℕ → Bool → Abc
test_init reg test_value = abc_init test reg 0 (int_from_bool test_value)

test_set_init : ℕ → ℕ → Bool → Abc
test_set_init result_reg test_reg test_value =
    abc_init testset result_reg test_reg (int_from_bool test_value)

-- A count that is kept plus one, or 0 for `null`: `if (n != null) n.? + 1 else 0` on `u9`, and back.
abbrev pub encode_count : Option ℕ → Option ℕ
encode_count (some n) = add_u 9 n 1
encode_count none = some 0

abbrev pub decode_count : ℕ → Option ℕ
decode_count field = if field == 0 then none else some (field - 1)

unfoldable pub call_init : ℕ → ℕ → Option ℕ → Option Abc
call_init result_reg_start num_params num_return_values = elim (encode_count num_return_values) [
  | none ↦ none
  | some c_val ↦ elim (add_u 9 num_params 1) [
    | none ↦ none
    | some b_val ↦ some (abc_init call result_reg_start b_val c_val)
  ]
]

unfoldable pub call_get_num_params : Abc → Option ℕ
call_get_num_params i = sub_u i.b 1

unfoldable pub call_is_multiple_returns : Abc → Bool
call_is_multiple_returns i = i.c == 0

unfoldable pub call_get_num_return_values : Abc → Option ℕ
call_get_num_return_values i = decode_count i.c

unfoldable pub call_set_num_return_values : Abc → Option ℕ → Option Abc
call_set_num_return_values i num_return_values = elim (encode_count num_return_values) [
  | none ↦ none
  | some v ↦ some (record i { c = v })
]

-- `getResultRegStart() + return_vals - 1`: the first operand is widened to `u9`.
unfoldable pub call_get_result_reg_end : Abc → Option (Option ℕ)
unfolding call_get_num_return_values
call_get_result_reg_end i = elim (call_get_num_return_values i) [
  | none ↦ some none
  | some return_vals ↦
      if ltb 0 return_vals
      then elim (add_u 9 i.a return_vals) [ none ↦ none | some e ↦ some (some (e - 1)) ]
      else some none
]

unfoldable pub return_init : ℕ → Option ℕ → Option Abc
return_init first_return_value_register num_return_values = elim (encode_count num_return_values) [
  | none ↦ none
  | some b_val ↦ some (abc_init return first_return_value_register b_val 0)
]

unfoldable pub return_get_num_return_values : Abc → Option ℕ
return_get_num_return_values i = decode_count i.b

unfoldable pub return_set_num_return_values : Abc → Option ℕ → Option Abc
return_set_num_return_values i num_return_values = elim (encode_count num_return_values) [
  | none ↦ none
  | some v ↦ some (record i { b = v })
]

unfoldable pub var_arg_init : ℕ → Option ℕ → Option Abc
var_arg_init first_return_value_register num_return_values = elim (encode_count num_return_values) [
  | none ↦ none
  | some b_val ↦ some (abc_init vararg first_return_value_register b_val 0)
]

abbrev pub fields_per_flush : ℕ
fields_per_flush = 50

-- `(num_values - 1) / fields_per_flush + 1` on `usize`.
unfoldable pub num_values_to_flush_batch_num : ℕ → Option ℕ
num_values_to_flush_batch_num num_values = elim (sub_u num_values 1) [
  | none ↦ none
  | some n ↦ add_u 64 (n / fields_per_flush) 1
]

-- `if (to_store == null) 0 else @intCast(to_store.?)` as a `u9`.
abbrev pub num_values_in_batch : Option ℕ → Option ℕ
num_values_in_batch none = some 0
num_values_in_batch (some n) = int_cast_u 9 (pos n)

unfoldable pub set_list_init : ℕ → ℕ → Option ℕ → Option Abc
unfolding num_values_to_flush_batch_num
set_list_init table_reg num_values to_store = elim (num_values_to_flush_batch_num num_values) [
  | none ↦ none
  | some flush_batch_num ↦ elim (num_values_in_batch to_store) [
    | none ↦ none
    | some b_val ↦ some (
        abc_init setlist table_reg b_val (if leb flush_batch_num max_c then flush_batch_num else 0))
  ]
]

unfoldable pub is_batch_number_stored_in_next_instruction : Abc → Bool
is_batch_number_stored_in_next_instruction i = i.c == 0

closure_init : ℕ → ℕ → Abx
closure_init result_reg proto_index = abx_init closure result_reg proto_index
