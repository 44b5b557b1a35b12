-- ===== src/Opcodes/Instruction/Jumps.antt =====
-- The signed operand sBx of src/opcodes.zig, and the jumps that it stands for.
use zua.Prelude.{
  ℕ, ◌+◌, ◌-◌, ◌^◌, ◌<◌, ◌≡◌, ◌⊎◌, inl, inr, refl, ap, if◌then◌else◌, Option, none, some, arith,
}
use zua.Prelude.Int.{ℤ, pos, negsuc, ◌≤ℤ◌}
use mathlib.Core.Option
use native.Mathlib.Decide.{dec_lt}
use zua.Opcodes.{jmp}
use zua.Puc.Word.{getarg_sbx, getarg_bx}
use zua.Puc.Word.Fields.{getarg_bx-eq}
use zua.Opcodes.Instruction.Layout.{int_from_enum_lt}
use zua.Opcodes.Instruction.{
  AsBx, max_i18, max_bx, unsigned_bx_to_signed, signed_bx_to_unsigned, get_signed_bx, as_bx_bits,
}
use zua.Opcodes.Instruction.Forms.{no_jump, get_offset, jump_init, is_no_jump}

-- The offsets that sBx can hold.
abbrev pub InReach : Option ℤ → Type 0
InReach none = Unit
InReach (some n) = (negsuc (max_i18 - 1) ≤ℤ n) × (n ≤ℤ pos max_i18)

-- The excess-K code of a jump: an `i18` other than the least one becomes a `u18`, which decodes to it
-- again; the least `i18`, -131072, panics.
pub signed_bx_roundtrip :
    (n : ℤ)
    → negsuc max_i18 ≤ℤ n
    → n ≤ℤ pos max_i18
    → ((n ≡ negsuc max_i18) × (signed_bx_to_unsigned n ≡ none))
      ⊎ ((bx : ℕ) × (signed_bx_to_unsigned n ≡ some bx)
          × (bx < 2 ^ 18)
          × (unsigned_bx_to_signed bx ≡ some n))
unfolding signed_bx_to_unsigned unsigned_bx_to_signed
signed_bx_roundtrip (pos k) lo hi = inr (k + max_i18, ground arith, omega arith, ground arith)
signed_bx_roundtrip (negsuc k) lo hi = elim (dec_lt k max_i18) [
  | yes h ↦ inr (max_i18 - 1 - k, ground arith, omega arith, ground arith)
  | no h ↦ inl (ap negsuc (omega arith), ground arith)
]

-- Reading sBx of a word: `getSignedBx` returns what GETARG_sBx does, except on the code 262143, on
-- which it panics and GETARG_sBx gives 131072.
pub get_signed_bx-getarg_sbx :
    (i : AsBx)
    → i.a < 2 ^ 8
    → i.bx' < 2 ^ 18
    → ((i.bx' ≡ max_bx) × (get_signed_bx i ≡ none) × (getarg_sbx (as_bx_bits i) ≡ pos 131072))
      ⊎ ((i.bx' < max_bx) × (get_signed_bx i ≡ some (getarg_sbx (as_bx_bits i))))
unfolding get_signed_bx unsigned_bx_to_signed getarg_sbx
get_signed_bx-getarg_sbx i ha hb = elim (dec_lt i.bx' max_bx) [
  | yes h ↦ inr (h, ground (arith, read))
  | no h ↦ inl (omega arith, ground arith, ground (arith, read))
]
  where
    read : getarg_bx (as_bx_bits i) ≡ i.bx'
    read = omega (arith, getarg_bx-eq (as_bx_bits i), int_from_enum_lt i.op)

-- A jump that is made with an offset from -131071 to 131071 keeps the opcode `jmp` and yields that
-- offset again, but for -1, which reads as "no jump"; one that is made with `null` reads as "no jump".
pub get_offset-jump_init :
    (o : Option ℤ)
    → InReach o
    → (i : AsBx) × (jump_init o ≡ some i)
      × (i.op ≡ jmp)
      × (get_offset i ≡ some (if is_no_jump (Option.get_or o no_jump) then none else o))
unfolding jump_init get_offset signed_bx_to_unsigned unsigned_bx_to_signed is_no_jump
get_offset-jump_init none h = (record { op = jmp; a = 0; bx' = max_i18 - 1 }, refl, refl, refl)
get_offset-jump_init (some (pos k)) h =
    (record { op = jmp; a = 0; bx' = k + max_i18 }, ground arith, refl, ground arith)
get_offset-jump_init (some (negsuc k)) h =
    (record { op = jmp; a = 0; bx' = max_i18 - 1 - k }, ground arith, refl, ground arith)
