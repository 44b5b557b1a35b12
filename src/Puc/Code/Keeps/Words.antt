-- ===== src/Puc/Code/Keeps/Words.antt =====
-- The words that the code generator writes are 32-bit words: lua-5.1/src/lopcodes.h, lcode.c.
use zua.Prelude.{
  ℕ, zero, suc, ◌+◌, ◌*◌, ◌/◌, ◌%◌, ◌^◌, ◌≤◌, ◌<◌, ◌≡◌, refl, ◌∙◌, ap₂, bit_or, List, [], ◌∷◌, some,
  length, get_elem?, set, All, arith, max,
}
use zua.Prelude.Int.{ℤ}
use zua.Prelude.Bits.{bit_or_step, zero-bit_or, bit_or_cut, bit_or-zero}
use native.Mathlib.Nat.{pow-suc}
use zua.Puc.Word.{IsWord, get_opcode, create_abc, create_abx, setarg_sbx, shl32}
use zua.Puc.Word.Fields.{setarg_bx-eq, get_opcode-eq}
use zua.Puc.Code.State.{write}

bit_or_below : (k a b : ℕ) → a < 2 ^ k → b < 2 ^ k → bit_or a b < 2 ^ k
bit_or_below zero a b ha hb =
    let ea : a ≡ 0 = omega arith in
    let eb : b ≡ 0 = omega arith in rw (ea, eb) (omega (arith, zero-bit_or 0))
bit_or_below (suc k) a b ha hb =
    omega (arith, pow-suc 2 k, bit_or_step a b, bit_or_below k (a / 2) (b / 2))

pub create_abc-IsWord : (o a b c : ℕ) → IsWord (create_abc o a b c)
unfolding create_abc
create_abc-IsWord o a b c =
    bit_or_below 32 _ _
      (bit_or_below 32 _ _ (bit_or_below 32 _ _ (omega arith) (omega arith)) (omega arith))
      (omega arith)

-- Bits above the lowest six leave these alone.
bit_or_low : (a b : ℕ) → b % 64 ≡ 0 → bit_or a b % 64 ≡ a % 64
bit_or_low a b h =
    let cut : bit_or (a / 64 * 2 ^ 6 + a % 64) (b / 64 * 2 ^ 6 + 0)
        ≡ bit_or (a / 64) (b / 64) * 2 ^ 6 + bit_or (a % 64) 0 =
      bit_or_cut 6 (a / 64) (a % 64) (b / 64) 0 (omega arith) (omega arith) in
    let parts : bit_or a b ≡ bit_or (a / 64 * 2 ^ 6 + a % 64) (b / 64 * 2 ^ 6 + 0) =
      ap₂ bit_or (omega arith) (omega arith) in
    let low : bit_or (a % 64) 0 ≡ a % 64 = bit_or-zero (a % 64) in
    let whole : bit_or a b ≡ bit_or (a / 64) (b / 64) * 2 ^ 6 + bit_or (a % 64) 0 = parts ∙ cut in
    omega (arith, whole, low)

-- CREATE_ABC keeps the opcode whatever the operands are.
pub create_abc-opcode : (o a b c : ℕ) → o < 64 → get_opcode (create_abc o a b c) ≡ o
unfolding create_abc
create_abc-opcode o a b c h =
    get_opcode-eq (create_abc o a b c)
    ∙ (bit_or_low (bit_or (bit_or (shl32 o 0) (shl32 a 6)) (shl32 b 23)) (shl32 c 14) (omega arith)
        ∙ (bit_or_low (bit_or (shl32 o 0) (shl32 a 6)) (shl32 b 23) (omega arith)
            ∙ (bit_or_low (shl32 o 0) (shl32 a 6) (omega arith) ∙ omega arith)))

pub create_abx-IsWord : (o a bc : ℕ) → IsWord (create_abx o a bc)
unfolding create_abx
create_abx-IsWord o a bc =
    bit_or_below 32 _ _ (bit_or_below 32 _ _ (omega arith) (omega arith)) (omega arith)

pub setarg_sbx-IsWord : (i : ℕ) (n : ℤ) → IsWord i → IsWord (setarg_sbx i n)
unfolding setarg_sbx
setarg_sbx-IsWord i n h = omega (arith, setarg_bx-eq i)

module _ {A : Type 0} where
  pub length-write :
      (xs : List A) (i : ℕ) (v : A)
      → i ≤ length xs
      → length (write xs i v) ≡ max (length xs) (i + 1)
  unfolding write
  length-write [] i v h = omega arith
  length-write (x ∷ xs) zero v h = omega arith
  length-write (x ∷ xs) (suc i) v h = omega (arith, length-write xs i v)

  pub some-injective : {x y : A} → some x ≡ some y → x ≡ y
  some-injective e = cc

  -- A write at the end leaves the elements before it.
  pub get_elem?-write_last :
      (xs : List A) (n : ℕ) (v : A) → n ≡ length xs → get_elem? (write xs n v) n ≡ some v
  unfolding write
  get_elem?-write_last [] zero v e = refl
  get_elem?-write_last [] (suc n) v e = absurd (omega arith)
  get_elem?-write_last (x ∷ xs) zero v e = absurd (omega arith)
  get_elem?-write_last (x ∷ xs) (suc n) v e = get_elem?-write_last xs n v (omega arith)

  pub found_below : (xs : List A) (i : ℕ) (v : A) → get_elem? xs i ≡ some v → i < length xs
  found_below [] i v e = cc
  found_below (x ∷ xs) zero v e = omega arith
  found_below (x ∷ xs) (suc i) v e = omega (arith, found_below xs i v e)

  pub get_elem?-write :
      (xs : List A) (n : ℕ) (v : A) (i : ℕ)
      → n ≡ length xs
      → i < length xs
      → get_elem? (write xs n v) i ≡ get_elem? xs i
  unfolding write
  get_elem?-write [] n v i e h = absurd (omega arith)
  get_elem?-write (x ∷ xs) zero v i e h = absurd (omega arith)
  get_elem?-write (x ∷ xs) (suc n) v zero e h = refl
  get_elem?-write (x ∷ xs) (suc n) v (suc i) e h =
      get_elem?-write xs n v i (omega arith) (omega arith)

  module _ (P : A → Type 0) where
    pub All-write : (xs : List A) (i : ℕ) (v : A) → All P xs → P v → All P (write xs i v)
    unfolding write
    All-write [] i v h p = (p, tt)
    All-write (x ∷ xs) zero v (_, h) p = (p, h)
    All-write (x ∷ xs) (suc i) v (q, h) p = (q, All-write xs i v h p)

    pub All-set : (xs : List A) (i : ℕ) (v : A) → All P xs → P v → All P (set xs i v)
    All-set [] i v h p = h
    All-set (x ∷ xs) zero v (_, h) p = (p, h)
    All-set (x ∷ xs) (suc i) v (q, h) p = (q, All-set xs i v h p)
