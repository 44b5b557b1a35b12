-- ===== src/Opcodes/Instruction.antt =====
-- src/opcodes.zig: the packed structs of an instruction, their 32-bit words, and the RK operands.
-- A `uN` is a number; where Zig checks a range (@intCast, `+` and `-` on a `uN`), `none` stands for
-- the safety panic.
pub mod Forms
pub mod Layout
pub mod Jumps
pub mod Counts
use zua.Prelude.{
  ℕ, zero, suc, ◌+◌, ◌-◌, ◌*◌, ◌/◌, ◌%◌, ◌^◌, ◌<◌, bit_and, bit_or, Bool, true, false, not, Option,
  none, some, ltb, leb, ◌==◌, if◌then◌else◌,
}
use zua.Prelude.Int.{ℤ, pos, negsuc, ◌+ℤ◌, ◌-ℤ◌, ◌≤ℤ◌, leb_ℤ}
use zua.Opcodes.{OpCode, int_from_enum}

-- The range of a `uN` and of an `iN`.
abbrev pub fits_u : ℕ → ℕ → Bool
fits_u n x = ltb x (2 ^ n)

abbrev pub int_cast_u : ℕ → ℤ → Option ℕ
int_cast_u n (pos x) = if fits_u n x then some x else none
int_cast_u n (negsuc x) = none

abbrev pub max_i18 : ℕ
max_i18 = 2 ^ 17 - 1

abbrev pub int_cast_i18 : ℤ → Option ℤ
int_cast_i18 x =
    if leb_ℤ (negsuc max_i18) x then if leb_ℤ x (pos max_i18) then some x else none else none

-- `a + b` and `a - b` of two `uN`.
abbrev pub add_u : ℕ → ℕ → ℕ → Option ℕ
add_u n a b = if fits_u n (a + b) then some (a + b) else none

abbrev pub sub_u : ℕ → ℕ → Option ℕ
sub_u a b = if leb b a then some (a - b) else none

abbrev pub int_from_bool : Bool → ℕ
int_from_bool true = 1
int_from_bool false = 0

abbrev pub bit_size_b : ℕ
bit_size_b = 9

abbrev pub rk_bit_mask_constant : ℕ
rk_bit_mask_constant = 2 ^ (bit_size_b - 1)

abbrev pub rk_max_constant_index : ℕ
rk_max_constant_index = rk_bit_mask_constant - 1

pub rk_is_constant : ℕ → Bool
rk_is_constant val = not (bit_and val rk_bit_mask_constant == 0)

-- `~` on a `u9` is `2 ^ 9 - 1 - _`.
pub rk_get_constant_index : ℕ → ℕ
rk_get_constant_index val = bit_and val (2 ^ 9 - 1 - rk_bit_mask_constant)

pub constant_index_to_rk : ℕ → ℕ
constant_index_to_rk val = bit_or val rk_bit_mask_constant

-- Instruction.ABC, ABx and AsBx.
pub record Abc : Type 0 where
  pub op : OpCode
  pub a : ℕ
  pub c : ℕ
  pub b : ℕ

pub record Abx : Type 0 where
  pub op : OpCode
  pub a : ℕ
  pub bx : ℕ

pub record AsBx : Type 0 where
  pub op : OpCode
  pub a : ℕ
  pub bx' : ℕ

-- What @bitCast reads: the fields of a packed struct lie in order from the lowest bit on.
abbrev pub abc_bits : Abc → ℕ
abc_bits i = int_from_enum i.op + i.a * 2 ^ 6 + i.c * 2 ^ 14 + i.b * 2 ^ 23

abbrev pub abx_bits : Abx → ℕ
abx_bits i = int_from_enum i.op + i.a * 2 ^ 6 + i.bx * 2 ^ 14

abbrev pub as_bx_bits : AsBx → ℕ
as_bx_bits i = int_from_enum i.op + i.a * 2 ^ 6 + i.bx' * 2 ^ 14

abbrev pub abc_init : OpCode → ℕ → ℕ → ℕ → Abc
abc_init op a b c = record { op = op; a = a; c = c; b = b }

abbrev pub max_a : ℕ
max_a = 2 ^ 8 - 1

abbrev pub max_b : ℕ
max_b = 2 ^ 9 - 1

abbrev pub max_c : ℕ
max_c = 2 ^ 9 - 1

abbrev pub abx_init : OpCode → ℕ → ℕ → Abx
abx_init op a bx = record { op = op; a = a; bx = bx }

abbrev pub max_bx : ℕ
max_bx = 2 ^ 18 - 1

abbrev pub max_sbx : ℕ
max_sbx = max_i18

-- The integer that fits both ranges is wide enough: only the outer @intCast can fail.
pub unsigned_bx_to_signed : ℕ → Option ℤ
unsigned_bx_to_signed bx = int_cast_i18 (pos bx -ℤ pos max_sbx)

pub signed_bx_to_unsigned : ℤ → Option ℕ
signed_bx_to_unsigned sbx = int_cast_u 18 (sbx +ℤ pos max_sbx)

pub as_bx_init : OpCode → ℕ → ℤ → Option AsBx
unfolding signed_bx_to_unsigned
as_bx_init op a sbx = elim (signed_bx_to_unsigned sbx) [
  | some bx ↦ some (record { op = op; a = a; bx' = bx })
  | none ↦ none
]

pub get_signed_bx : AsBx → Option ℤ
unfolding unsigned_bx_to_signed
get_signed_bx i = unsigned_bx_to_signed i.bx'

pub set_signed_bx : AsBx → ℤ → Option AsBx
unfolding signed_bx_to_unsigned
set_signed_bx i val = elim (signed_bx_to_unsigned val) [
  | some bx ↦ some (record i { bx' = bx })
  | none ↦ none
]
