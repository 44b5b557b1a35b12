-- ===== src/FloatByte.antt =====
-- src/object.zig: intToFloatingPointByte and floatingPointByteToInt, and lua-5.1/src/lobject.c:
-- luaO_int2fb and luaO_fb2int, which code a table size in a byte eeeeexxx.
pub mod Rounding
use mathlib.Core.Logic.{dite}
use mathlib.Core.WellFounded.{Acc}
use native.Mathlib.Decide.{dec_lt}
use zua.Prelude.{
  ℕ, suc, ◌+◌, ◌-◌, ◌*◌, ◌/◌, ◌%◌, ◌^◌, ◌≤◌, ◌<◌, bit_and, bit_or, Option, none, some, ltb, leb,
  ◌==◌, if◌then◌else◌, arith,
}
use zua.Prelude.Order.{lt_wf}

-- 0b1111 << (0b11111 - 1), which needs 34 bits.
abbrev pub max_floating_point_byte : ℕ
max_floating_point_byte = 15 * 2 ^ 30

pub half_up_lt : (x : ℕ) → 15 < x → (x + 1) / 2 < x
half_up_lt x h = omega arith

-- `while (x >= 16) { x = (x + 1) >> 1; e += 1; }`
pub scale_loop : (x e : ℕ) → Acc ◌<◌ x → ℕ × ℕ
scale_loop x e (Acc.intro _ smaller) =
    dite (dec_lt 15 x) (λ h. scale_loop ((x + 1) / 2) (e + 1) (smaller _ (half_up_lt x h)))
      (λ _. (x, e))

-- `e` is a `u8`, so `<< 3` drops what does not fit 8 bits.
abbrev pub pack_byte : ℕ × ℕ → ℕ
pack_byte (x, e) = if ltb x 8 then x else bit_or ((e + 1) * 2 ^ 3 % 2 ^ 8) (x - 8)

-- `none` is the failed assertion.
unfoldable pub int_to_floating_point_byte : ℕ → Option ℕ
unfolding scale_loop lt_wf dec_lt
int_to_floating_point_byte x =
    if leb x max_floating_point_byte
    then some (pack_byte (scale_loop x 0 (lt_wf.apply x)))
    else none

-- A `u34`.
unfoldable pub floating_point_byte_to_int : ℕ → ℕ
floating_point_byte_to_int x =
    let e = x / 2 ^ 3 in if e == 0 then x else (bit_and x 7 + 8) * 2 ^ (e - 1) % 2 ^ 34

pub half_up32_lt : (x : ℕ) → 15 < x → (x + 1) % 2 ^ 32 / 2 < x
half_up32_lt x h = omega arith

-- In C `x` is an `unsigned int`.
pub int2fb_loop : (x e : ℕ) → Acc ◌<◌ x → ℕ × ℕ
int2fb_loop x e (Acc.intro _ smaller) =
    dite (dec_lt 15 x)
      (λ h. int2fb_loop ((x + 1) % 2 ^ 32 / 2) (e + 1) (smaller _ (half_up32_lt x h))) (λ _. (x, e))

abbrev pub int2fb_result : ℕ × ℕ → ℕ
int2fb_result (x, e) = if ltb x 8 then x else bit_or ((e + 1) * 2 ^ 3) (x - 8)

unfoldable pub luao_int2fb : ℕ → ℕ
unfolding int2fb_loop lt_wf dec_lt
luao_int2fb x = int2fb_result (int2fb_loop x 0 (lt_wf.apply x))

-- The result is the integer that the shift stands for; an `int` holds it if `x` is below 232.
unfoldable pub luao_fb2int : ℕ → ℕ
luao_fb2int x =
    let e = bit_and (x / 2 ^ 3) 31 in if e == 0 then x else (bit_and x 7 + 8) * 2 ^ (e - 1)
