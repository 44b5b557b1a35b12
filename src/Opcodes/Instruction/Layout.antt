-- ===== src/Opcodes/Instruction/Layout.antt =====
-- The words of src/opcodes.zig against the macros of lua-5.1/src/lopcodes.h.
use zua.Prelude.{ℕ, ◌^◌, ◌<◌, ◌≡◌, refl, Bool, true, not, ◌&&◌, ◌==◌, arith}
use zua.Prelude.Bits.{all_below, all_below_sound}
use zua.Opcodes.{OpCode, move, int_from_enum}
use zua.Opcodes.Instruction.{
  Abc, Abx, abc_bits, abx_bits, rk_is_constant, rk_get_constant_index, constant_index_to_rk,
}
use zua.Puc.Word.{create_abc, create_abx, isk, indexk, rkask, get_opcode, getarg_a, getarg_bx}
use zua.Puc.Word.Fields.{fields, field_laws}
use zua.Puc.Word.Create.{create_abc-eq, create_abx-eq}

-- The operands of an instruction are in the ranges of `u8` and `u9`.
pub record Fits (i : Abc) : Type 0 where
  pub a_u8 : i.a < 2 ^ 8
  pub b_u9 : i.b < 2 ^ 9
  pub c_u9 : i.c < 2 ^ 9

pub int_from_enum_lt : (op : OpCode) → int_from_enum op < 37
unfolding int_from_enum
int_from_enum_lt move = omega arith
int_from_enum_lt _ = omega arith

-- The word of a packed ABC instruction is the one that CREATE_ABC builds from the same opcode number
-- and operands, and GET_OPCODE, GETARG_A, GETARG_B and GETARG_C read these back from it.
pub abc_bits-create_abc :
    (i : Abc)
    → Fits i
    → (abc_bits i ≡ create_abc (int_from_enum i.op) i.a i.b i.c)
      × (fields (abc_bits i) ≡ record { op = int_from_enum i.op; a = i.a; b = i.b; c = i.c })
abc_bits-create_abc i h = omega (
  field_laws,
  int_from_enum_lt i.op,
  create_abc-eq (int_from_enum i.op) i.a i.b i.c (omega (arith, int_from_enum_lt i.op)) h.a_u8
      h.b_u9 h.c_u9,
)

-- The word of a packed ABx instruction is the one that CREATE_ABx builds, and GET_OPCODE, GETARG_A
-- and GETARG_Bx read its parts back.
pub abx_bits-create_abx :
    (i : Abx)
    → i.a < 2 ^ 8
    → i.bx < 2 ^ 18
    → (abx_bits i ≡ create_abx (int_from_enum i.op) i.a i.bx)
      × (get_opcode (abx_bits i) ≡ int_from_enum i.op)
      × (getarg_a (abx_bits i) ≡ i.a)
      × (getarg_bx (abx_bits i) ≡ i.bx)
abx_bits-create_abx i ha hb = omega (
  field_laws,
  int_from_enum_lt i.op,
  create_abx-eq (int_from_enum i.op) i.a i.bx (omega (arith, int_from_enum_lt i.op)) ha hb,
)

bool_eq : Bool → Bool → Bool
bool_eq true b = b
bool_eq b c = not c

rk_table :
    all_below 512 (λ x.
      bool_eq (rk_is_constant x) (not (isk x == 0))
      && (rk_get_constant_index x == indexk x)
      && (constant_index_to_rk x == rkask x))
    ≡ true
unfolding rk_is_constant rk_get_constant_index constant_index_to_rk isk indexk rkask all_below
    bool_eq
rk_table = refl

-- On every `u9` the RK functions of zua compute ISK, INDEXK and RKASK.
pub rk-eq-puc :
    (x : ℕ)
    → x < 2 ^ 9
    → (rk_is_constant x ≡ not (isk x == 0))
      × (rk_get_constant_index x ≡ indexk x)
      × (constant_index_to_rk x ≡ rkask x)
unfolding bool_eq
rk-eq-puc x h = ground (arith, all_below_sound 512 _ x rk_table (omega arith))
