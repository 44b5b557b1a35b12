-- ===== src/Puc/Word/Fields.antt =====
-- The GET and SET macros of lua-5.1/src/lopcodes.h as arithmetic, and as independent fields.
use zua.Prelude.{
  ℕ, suc, ◌+◌, ◌-◌, ◌*◌, ◌/◌, ◌%◌, ◌^◌, ◌≤◌, ◌<◌, bit_and, bit_or, ◌≡◌, refl, ◌∙◌, arith,
}
use native.Mathlib.Nat.{add-zero, mod-lt, one-le-pow}
use zua.Prelude.Bits.{bit_and_mask, clear_field, insert_field, bit_and_cut, bit_and-zero}
use zua.Puc.Word.{
  IsWord, mask0, mask1, shl32, get_opcode, set_opcode, getarg_a, setarg_a, getarg_b, setarg_b,
  getarg_c, setarg_c, getarg_bx, setarg_bx,
}

pub get_opcode-eq : (i : ℕ) → get_opcode i ≡ i % 64
unfolding get_opcode
get_opcode-eq i = omega (arith, bit_and_mask 6 (i / 1))

pub getarg_a-eq : (i : ℕ) → getarg_a i ≡ i / 64 % 256
unfolding getarg_a
getarg_a-eq i = bit_and_mask 8 (i / 64)

pub getarg_b-eq : (i : ℕ) → getarg_b i ≡ i / 2 ^ 23 % 512
unfolding getarg_b
getarg_b-eq i = bit_and_mask 9 (i / 2 ^ 23)

pub getarg_c-eq : (i : ℕ) → getarg_c i ≡ i / 2 ^ 14 % 512
unfolding getarg_c
getarg_c-eq i = bit_and_mask 9 (i / 2 ^ 14)

pub getarg_bx-eq : (i : ℕ) → getarg_bx i ≡ i / 2 ^ 14 % 2 ^ 18
unfolding getarg_bx
getarg_bx-eq i = bit_and_mask 18 (i / 2 ^ 14)

-- Writing the `n` bits at `p` below `m` others: the rest stays, and the value is cut to `n` bits.
write_field :
    (n p m a f b u : ℕ) (i s m0 m1 : ℕ)
    → a < 2 ^ m
    → f < 2 ^ n
    → b < 2 ^ p
    → i ≡ (a * 2 ^ n + f) * 2 ^ p + b
    → m0 ≡ ((2 ^ m - 1) * 2 ^ n + 0) * 2 ^ p + (2 ^ p - 1)
    → s ≡ u * 2 ^ p + 0
    → m1 ≡ (2 ^ n - 1) * 2 ^ p + 0
    → bit_or (bit_and i m0) (bit_and s m1) ≡ (a * 2 ^ n + u % 2 ^ n) * 2 ^ p + b
write_field n p m a f b u i s m0 m1 ha hf hb ei e0 es e1 =
    let cut : bit_and (u * 2 ^ p + 0) ((2 ^ n - 1) * 2 ^ p + 0) ≡ u % 2 ^ n * 2 ^ p =
      bit_and_cut p u 0 (2 ^ n - 1) 0 (positive p) (positive p)
      ∙ rw bit_and_mask (simp (bit_and-zero, add-zero)) in
    rw (ei, e0, es, e1, cut, clear_field p n m a f b ha hf hb)
      (insert_field p n a (u % 2 ^ n) b (mod-lt _ (positive n)) hb)
  where
    positive : (k : ℕ) → 0 < 2 ^ k
    positive k = omega (arith, one-le-pow k 2)

pub set_opcode-eq : (i o : ℕ) → IsWord i → set_opcode i o ≡ i / 2 ^ 6 * 2 ^ 6 + o % 2 ^ 6
unfolding set_opcode
set_opcode-eq i o h = omega (
  arith,
  write_field 6 0 26 (i / 2 ^ 6) (i % 2 ^ 6) 0 (o % 2 ^ 32) i (shl32 o 0) (mask0 6 0) (mask1 6 0)
      (omega arith) (omega arith) (omega arith) (omega arith) refl (omega arith) refl,
)

pub setarg_a-eq :
    (i u : ℕ) → IsWord i → setarg_a i u ≡ (i / 2 ^ 14 * 2 ^ 8 + u % 2 ^ 8) * 2 ^ 6 + i % 2 ^ 6
unfolding setarg_a
setarg_a-eq i u h = omega (
  arith,
  write_field 8 6 18 (i / 2 ^ 14) (i / 2 ^ 6 % 2 ^ 8) (i % 2 ^ 6) (u % 2 ^ 26) i (shl32 u 6)
      (mask0 8 6) (mask1 8 6) (omega arith) (omega arith) (omega arith) (omega arith) refl
      (omega arith) refl,
)

pub setarg_b-eq : (i u : ℕ) → IsWord i → setarg_b i u ≡ u % 2 ^ 9 * 2 ^ 23 + i % 2 ^ 23
unfolding setarg_b
setarg_b-eq i u h = omega (
  arith,
  write_field 9 23 0 0 (i / 2 ^ 23) (i % 2 ^ 23) (u % 2 ^ 9) i (shl32 u 23) (mask0 9 23)
      (mask1 9 23) (omega arith) (omega arith) (omega arith) (omega arith) refl (omega arith) refl,
)

pub setarg_c-eq :
    (i u : ℕ) → IsWord i → setarg_c i u ≡ (i / 2 ^ 23 * 2 ^ 9 + u % 2 ^ 9) * 2 ^ 14 + i % 2 ^ 14
unfolding setarg_c
setarg_c-eq i u h = omega (
  arith,
  write_field 9 14 9 (i / 2 ^ 23) (i / 2 ^ 14 % 2 ^ 9) (i % 2 ^ 14) (u % 2 ^ 18) i (shl32 u 14)
      (mask0 9 14) (mask1 9 14) (omega arith) (omega arith) (omega arith) (omega arith) refl
      (omega arith) refl,
)

pub setarg_bx-eq : (i u : ℕ) → IsWord i → setarg_bx i u ≡ u % 2 ^ 18 * 2 ^ 14 + i % 2 ^ 14
unfolding setarg_bx
setarg_bx-eq i u h = omega (
  arith,
  write_field 18 14 0 0 (i / 2 ^ 14) (i % 2 ^ 14) (u % 2 ^ 18) i (shl32 u 14) (mask0 18 14)
      (mask1 18 14) (omega arith) (omega arith) (omega arith) (omega arith) refl (omega arith) refl,
)

-- The opcode and the operands A, B and C of a word.
pub record Fields : Type 0 where
  pub op : ℕ
  pub a : ℕ
  pub b : ℕ
  pub c : ℕ

abbrev pub fields : ℕ → Fields
fields i = record { op = get_opcode i; a = getarg_a i; b = getarg_b i; c = getarg_c i }

pub Fields-ext : (x y : Fields) → (x.op ≡ y.op) × (x.a ≡ y.a) × (x.b ≡ y.b) × (x.c ≡ y.c) → x ≡ y
Fields-ext x y (p, q, r, s) = λ i. record { op = p i; a = q i; b = r i; c = s i }

pub ruleset field_laws = (
  arith, Fields-ext, get_opcode-eq, getarg_a-eq, getarg_b-eq, getarg_c-eq, getarg_bx-eq,
  set_opcode-eq, setarg_a-eq, setarg_b-eq, setarg_c-eq, setarg_bx-eq,
)

-- On a 32-bit word each SET macro replaces its own field by the value that it is given, cut to the
-- width of the field, leaves the other fields alone, and yields a 32-bit word again.
pub set_fields :
    (i u : ℕ)
    → IsWord i
    → (fields (set_opcode i u) ≡ record (fields i) { op = u % 2 ^ 6 })
      × (fields (setarg_a i u) ≡ record (fields i) { a = u % 2 ^ 8 })
      × (fields (setarg_b i u) ≡ record (fields i) { b = u % 2 ^ 9 })
      × (fields (setarg_c i u) ≡ record (fields i) { c = u % 2 ^ 9 })
      × IsWord (set_opcode i u)
      × IsWord (setarg_a i u)
      × IsWord (setarg_b i u)
      × IsWord (setarg_c i u)
set_fields i u h = omega field_laws
