-- ===== src/Puc/Word.antt =====
-- lua-5.1/src/lopcodes.h: the 32-bit instruction word, and the macros that read, write and build it.
-- An `Instruction` is a number below 2^32; `~` and `<<` are written out at that width.
pub mod Fields
pub mod Create
use zua.Prelude.{ℕ, ◌+◌, ◌-◌, ◌*◌, ◌/◌, ◌%◌, ◌^◌, ◌<◌, bit_and, bit_or}
use zua.Prelude.Int.{ℤ, pos, pos_part, neg_part, ◌+ℤ◌, ◌-ℤ◌}

abbrev pub IsWord : ℕ → Type 0
IsWord i = i < 2 ^ 32

-- `~x`, `x << p` and `x >> p` on an `Instruction`.
abbrev pub not32 : ℕ → ℕ
not32 x = 2 ^ 32 - 1 - x

abbrev pub shl32 : ℕ → ℕ → ℕ
shl32 x p = x * 2 ^ p % 2 ^ 32

abbrev pub shr32 : ℕ → ℕ → ℕ
shr32 x p = x / 2 ^ p

abbrev pub size_c : ℕ
size_c = 9

abbrev pub size_b : ℕ
size_b = 9

abbrev pub size_bx : ℕ
size_bx = size_c + size_b

abbrev pub size_a : ℕ
size_a = 8

abbrev pub size_op : ℕ
size_op = 6

abbrev pub pos_op : ℕ
pos_op = 0

abbrev pub pos_a : ℕ
pos_a = pos_op + size_op

abbrev pub pos_c : ℕ
pos_c = pos_a + size_a

abbrev pub pos_b : ℕ
pos_b = pos_c + size_c

abbrev pub pos_bx : ℕ
pos_bx = pos_c

abbrev pub maxarg_bx : ℕ
maxarg_bx = 2 ^ size_bx - 1

abbrev pub maxarg_sbx : ℕ
maxarg_sbx = maxarg_bx / 2

abbrev pub maxarg_a : ℕ
maxarg_a = 2 ^ size_a - 1

abbrev pub maxarg_b : ℕ
maxarg_b = 2 ^ size_b - 1

abbrev pub maxarg_c : ℕ
maxarg_c = 2 ^ size_c - 1

-- MASK1(n,p) and MASK0(n,p): `n` one bits, or zero bits, at position `p`.
abbrev pub mask1 : ℕ → ℕ → ℕ
mask1 n p = shl32 (not32 (shl32 (not32 0) n)) p

abbrev pub mask0 : ℕ → ℕ → ℕ
mask0 n p = not32 (mask1 n p)

-- What the GET and SET macros of each field share: its size, its position.
abbrev get_field : ℕ → ℕ → ℕ → ℕ
get_field n p i = bit_and (shr32 i p) (mask1 n 0)

abbrev set_field : ℕ → ℕ → ℕ → ℕ → ℕ
set_field n p i u = bit_or (bit_and i (mask0 n p)) (bit_and (shl32 u p) (mask1 n p))

unfoldable pub get_opcode : ℕ → ℕ
get_opcode i = get_field size_op pos_op i

unfoldable pub set_opcode : ℕ → ℕ → ℕ
set_opcode i o = set_field size_op pos_op i o

unfoldable pub getarg_a : ℕ → ℕ
getarg_a i = get_field size_a pos_a i

unfoldable pub setarg_a : ℕ → ℕ → ℕ
setarg_a i u = set_field size_a pos_a i u

unfoldable pub getarg_b : ℕ → ℕ
getarg_b i = get_field size_b pos_b i

unfoldable pub setarg_b : ℕ → ℕ → ℕ
setarg_b i b = set_field size_b pos_b i b

unfoldable pub getarg_c : ℕ → ℕ
getarg_c i = get_field size_c pos_c i

unfoldable pub setarg_c : ℕ → ℕ → ℕ
setarg_c i b = set_field size_c pos_c i b

unfoldable pub getarg_bx : ℕ → ℕ
getarg_bx i = get_field size_bx pos_bx i

unfoldable pub setarg_bx : ℕ → ℕ → ℕ
setarg_bx i b = set_field size_bx pos_bx i b

unfoldable pub getarg_sbx : ℕ → ℤ
getarg_sbx i = pos (getarg_bx i) -ℤ pos maxarg_sbx

-- `cast(unsigned int, n)` of an `int`.
abbrev pub cast_unsigned : ℤ → ℕ
cast_unsigned n = (pos_part n + (2 ^ 32 - neg_part n)) % 2 ^ 32

unfoldable pub setarg_sbx : ℕ → ℤ → ℕ
setarg_sbx i b = setarg_bx i (cast_unsigned (b +ℤ pos maxarg_sbx))

unfoldable pub create_abc : ℕ → ℕ → ℕ → ℕ → ℕ
create_abc o a b c =
    bit_or (bit_or (bit_or (shl32 o pos_op) (shl32 a pos_a)) (shl32 b pos_b)) (shl32 c pos_c)

unfoldable pub create_abx : ℕ → ℕ → ℕ → ℕ
create_abx o a bc = bit_or (bit_or (shl32 o pos_op) (shl32 a pos_a)) (shl32 bc pos_bx)

-- The RK operands: bit 8 set means a constant.
abbrev pub bitrk : ℕ
bitrk = 2 ^ (size_b - 1)

unfoldable pub isk : ℕ → ℕ
isk x = bit_and x bitrk

unfoldable pub indexk : ℕ → ℕ
indexk r = bit_and r (not32 bitrk)

abbrev pub maxindexrk : ℕ
maxindexrk = bitrk - 1

unfoldable pub rkask : ℕ → ℕ
rkask x = bit_or x bitrk
