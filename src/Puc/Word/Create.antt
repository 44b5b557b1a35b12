-- ===== src/Puc/Word/Create.antt =====
-- CREATE_ABC, CREATE_ABx and the RK operands of lua-5.1/src/lopcodes.h.
use zua.Prelude.{ℕ, ◌+◌, ◌*◌, ◌^◌, ◌≤◌, ◌<◌, ◌≡◌, refl, ◌≢◌, ◌∙◌, ◌==◌, not, ◌&&◌, true, arith}
use zua.Prelude.Int.{ℤ, pos, negsuc, ◌≤ℤ◌, ◌+ℤ◌}
use zua.Prelude.Bits.{bit_or_above, bit_or_between, all_below, all_below_sound}
use zua.Puc.Word.{
  IsWord, shl32, create_abc, create_abx, getarg_sbx, setarg_sbx, get_opcode, getarg_a, isk, indexk,
  rkask, maxindexrk, setarg_bx, getarg_bx, cast_unsigned, maxarg_sbx,
}
use zua.Puc.Word.Fields.{fields, field_laws}

-- The four fields of an instruction do not overlap.
pub create_abc-eq :
    (o a b c : ℕ)
    → o < 64
    → a < 256
    → b < 512
    → c < 512
    → create_abc o a b c ≡ o + a * 2 ^ 6 + c * 2 ^ 14 + b * 2 ^ 23
unfolding create_abc
create_abc-eq o a b c ho ha hb hc =
    let oa = bit_or_above 6 o a (shl32 o 0) (shl32 a 6) ho (omega arith) (omega arith) in
    let oab = bit_or_above 23 (a * 2 ^ 6 + o) b _ (shl32 b 23) (omega arith) oa (omega arith) in
    omega (
      arith,
      bit_or_between 14 9 (a * 2 ^ 6 + o) c b _ (shl32 c 14) (omega arith) hc (oab ∙ omega arith)
          (omega arith),
    )

pub create_abx-eq :
    (o a bc : ℕ) → o < 64 → a < 256 → bc < 2 ^ 18 → create_abx o a bc ≡ o + a * 2 ^ 6 + bc * 2 ^ 14
unfolding create_abx
create_abx-eq o a bc ho ha hb =
    let oa = bit_or_above 6 o a (shl32 o 0) (shl32 a 6) ho (omega arith) (omega arith) in
    omega (arith, bit_or_above 14 (a * 2 ^ 6 + o) bc _ (shl32 bc 14) (omega arith) oa (omega arith))

-- CREATE_ABC packs an opcode and operands that fit their fields into a 32-bit word, from which the
-- GET macros read back each of them.
pub fields-create_abc :
    (o a b c : ℕ)
    → o < 64
    → a < 256
    → b < 512
    → c < 512
    → IsWord (create_abc o a b c)
      × (fields (create_abc o a b c) ≡ record { op = o; a = a; b = b; c = c })
fields-create_abc o a b c ho ha hb hc = omega (field_laws, create_abc-eq o a b c)

-- A value of 18 bits that is written to Bx is read back.
getarg_bx-setarg_bx :
    (i u : ℕ)
    → IsWord i
    → u < 2 ^ 18
    → (getarg_bx (setarg_bx i u) ≡ u)
      × (get_opcode (setarg_bx i u) ≡ get_opcode i)
      × (getarg_a (setarg_bx i u) ≡ getarg_a i)
getarg_bx-setarg_bx i u h fits = omega field_laws

-- The signed operand sBx: every offset from -131071 to 131072 comes back from the word that
-- SETARG_sBx writes it to, and the opcode and operand A of that word are kept.
pub getarg_sbx-setarg_sbx :
    (i : ℕ) (n : ℤ)
    → IsWord i
    → negsuc 131070 ≤ℤ n
    → n ≤ℤ pos 131072
    → (getarg_sbx (setarg_sbx i n) ≡ n)
      × (get_opcode (setarg_sbx i n) ≡ get_opcode i)
      × (getarg_a (setarg_sbx i n) ≡ getarg_a i)
unfolding getarg_sbx setarg_sbx
getarg_sbx-setarg_sbx i (pos k) h lo hi =
    ground (arith, getarg_bx-setarg_bx i (cast_unsigned (pos k +ℤ pos maxarg_sbx)) h)
getarg_sbx-setarg_sbx i (negsuc k) h lo hi =
    ground (arith, getarg_bx-setarg_bx i (cast_unsigned (negsuc k +ℤ pos maxarg_sbx)) h)

rk_table :
    all_below 256 (λ x. not (isk (rkask x) == 0) && (indexk (rkask x) == x) && (isk x == 0)) ≡ true
unfolding isk indexk rkask all_below
rk_table = refl

-- RK operands: for an index up to MAXINDEXRK, RKASK sets the bit that ISK tests, and INDEXK returns
-- the index; below MAXINDEXRK that bit is not set.
pub indexk-rkask :
    (x : ℕ) → x ≤ maxindexrk → (isk (rkask x) ≢ 0) × (indexk (rkask x) ≡ x) × (isk x ≡ 0)
indexk-rkask x h = ground (arith, all_below_sound 256 _ x rk_table (omega arith))
