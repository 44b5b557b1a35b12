-- ===== src/Tests/Instructions.antt =====
-- Instruction words: src/opcodes.zig, lua-5.1/src/lopcodes.h and lopcodes.c.
use zua.Prelude.{
  ◌≤◌, ◌⊎◌, ◌↔◌, ℕ, ◌+◌, ◌*◌, ◌%◌, ◌^◌, ◌≤◌, ◌<◌, ◌≡◌, ◌⊎◌, not, ◌==◌, leb, if◌then◌else◌, none,
  some, arith,
}
use zua.Prelude.Int.{pos, negsuc}
use zua.Puc.Word.{
  IsWord, create_abc, set_opcode, setarg_a, setarg_b, setarg_c, setarg_sbx, getarg_sbx, get_opcode,
  getarg_a,
}
use zua.Puc.Word.Fields.{fields, set_fields}
use zua.Puc.Word.Create.{fields-create_abc, getarg_sbx-setarg_sbx}
use zua.Puc.Opmodes.{opcode_number}
use zua.Opcodes.{int_from_enum, add, loadk, jmp, tforloop, test}
use zua.Opcodes.Twin.{twin, keeps_number, int_from_enum-twin, agreement, expected, agreement-eq}
use zua.Opcodes.Instruction.{
  Abc, Abx, AsBx, abc_bits, as_bx_bits, get_signed_bx, max_bx, max_i18, max_c,
  signed_bx_to_unsigned, unsigned_bx_to_signed,
}
use zua.Opcodes.Instruction.Forms.{
  jump_init, get_offset, is_no_jump, call_init, call_get_num_params, call_get_num_return_values,
  call_set_num_return_values, return_init, return_get_num_return_values,
  return_set_num_return_values, var_arg_init, set_list_init, num_values_to_flush_batch_num,
  fields_per_flush, is_batch_number_stored_in_next_instruction,
}
use zua.Opcodes.Instruction.Layout.{abc_bits-create_abc}
use zua.Opcodes.Instruction.Jumps.{
  signed_bx_roundtrip, get_signed_bx-getarg_sbx, get_offset-jump_init,
}
use zua.Opcodes.Instruction.Counts.{call_counts, return_counts, count_overflow, set_list_batches}

abbrev word : ℕ
word = 0x8304c0a5

set_fields_example :
    (fields (set_opcode word 70) ≡ record (fields word) { op = 70 % 2 ^ 6 })
    × (fields (setarg_a word 70) ≡ record (fields word) { a = 70 % 2 ^ 8 })
    × (fields (setarg_b word 70) ≡ record (fields word) { b = 70 % 2 ^ 9 })
    × (fields (setarg_c word 70) ≡ record (fields word) { c = 70 % 2 ^ 9 })
    × IsWord (set_opcode word 70)
    × IsWord (setarg_a word 70)
    × IsWord (setarg_b word 70)
    × IsWord (setarg_c word 70)
set_fields_example = set_fields word 70 (omega arith)

fields-create_abc_example :
    IsWord (create_abc 12 7 258 3)
    × (fields (create_abc 12 7 258 3) ≡ record { op = 12; a = 7; b = 258; c = 3 })
fields-create_abc_example =
    fields-create_abc 12 7 258 3 (omega arith) (omega arith) (omega arith) (omega arith)

getarg_sbx-setarg_sbx_example :
    (getarg_sbx (setarg_sbx word (negsuc 4)) ≡ negsuc 4)
    × (get_opcode (setarg_sbx word (negsuc 4)) ≡ get_opcode word)
    × (getarg_a (setarg_sbx word (negsuc 4)) ≡ getarg_a word)
getarg_sbx-setarg_sbx_example =
    getarg_sbx-setarg_sbx word (negsuc 4) (omega arith) (omega arith) (omega arith)

int_from_enum-twin_example :
    (int_from_enum tforloop == opcode_number (twin tforloop)) ≡ keeps_number tforloop
int_from_enum-twin_example = int_from_enum-twin tforloop

agreement-eq_example : agreement test ≡ expected test
agreement-eq_example = agreement-eq test

abbrev addition : Abc
addition = record { op = add; a = 3; b = 256; c = 257 }

abc_bits-create_abc_example :
    (abc_bits addition ≡ create_abc (int_from_enum add) 3 256 257)
    × (fields (abc_bits addition) ≡ record { op = int_from_enum add; a = 3; b = 256; c = 257 })
abc_bits-create_abc_example =
    abc_bits-create_abc addition
      (record { a_u8 = omega arith; b_u9 = omega arith; c_u9 = omega arith })

abbrev load : Abx
load = record { op = loadk; a = 3; bx = 1000 }

signed_bx_roundtrip_example :
    ((negsuc 4 ≡ negsuc max_i18) × (signed_bx_to_unsigned (negsuc 4) ≡ none))
    ⊎ ((bx : ℕ) × (signed_bx_to_unsigned (negsuc 4) ≡ some bx)
        × (bx < 2 ^ 18)
        × (unsigned_bx_to_signed bx ≡ some (negsuc 4)))
signed_bx_roundtrip_example = signed_bx_roundtrip (negsuc 4) (omega arith) (omega arith)

abbrev jump_to_end : AsBx
jump_to_end = record { op = jmp; a = 0; bx' = max_bx }

get_signed_bx-getarg_sbx_example :
    ((max_bx ≡ max_bx)
      × (get_signed_bx jump_to_end ≡ none)
      × (getarg_sbx (as_bx_bits jump_to_end) ≡ pos 131072))
    ⊎ ((max_bx < max_bx) × (get_signed_bx jump_to_end ≡ some (getarg_sbx (as_bx_bits jump_to_end))))
get_signed_bx-getarg_sbx_example = get_signed_bx-getarg_sbx jump_to_end (omega arith) (omega arith)

get_offset-jump_init_example :
    (i : AsBx) × (jump_init (some (negsuc 6)) ≡ some i)
    × (i.op ≡ jmp)
    × (get_offset i ≡ some (if is_no_jump (negsuc 6) then none else some (negsuc 6)))
get_offset-jump_init_example = get_offset-jump_init (some (negsuc 6)) (omega arith, omega arith)

call_counts_example :
    (i i' : Abc) × (call_init 4 2 (some 1) ≡ some i)
    × (i.a ≡ 4)
    × (call_get_num_params i ≡ some 2)
    × (call_get_num_return_values i ≡ some 1)
    × (call_set_num_return_values i none ≡ some i')
    × (call_get_num_return_values i' ≡ none)
    × (call_get_num_params i' ≡ some 2)
call_counts_example = call_counts 4 2 (some 1) none (omega arith) (omega arith) tt

return_counts_example :
    (i i' j : Abc) × (return_init 2 (some 3) ≡ some i)
    × (i.a ≡ 2)
    × (return_get_num_return_values i ≡ some 3)
    × (return_set_num_return_values i none ≡ some i')
    × (return_get_num_return_values i' ≡ none)
    × (var_arg_init 2 (some 3) ≡ some j)
    × (j.a ≡ 2)
    × (return_get_num_return_values j ≡ some 3)
return_counts_example = return_counts 2 (some 3) none (omega arith) tt

count_overflow_example :
    ((call_init 1 2 (some 600) ≡ none) ↔ ((511 ≤ 2) ⊎ (511 ≤ 600)))
    × ((return_init 1 (some 600) ≡ none) ↔ (511 ≤ 600))
    × ((var_arg_init 1 (some 600) ≡ none) ↔ (511 ≤ 600))
count_overflow_example = count_overflow 1 2 (some 600)

set_list_batches_example :
    (i : Abc) × (batch : ℕ) × (set_list_init 3 120 (some 20) ≡ some i)
    × (num_values_to_flush_batch_num 120 ≡ some batch)
    × (119 < batch * fields_per_flush)
    × (batch * fields_per_flush ≤ 119 + fields_per_flush)
    × (i.b ≡ 20)
    × (is_batch_number_stored_in_next_instruction i ≡ not (leb batch max_c))
    × (i.c ≡ (if leb batch max_c then batch else 0))
set_list_batches_example = set_list_batches 3 119 (some 20) (omega arith) (omega arith)
