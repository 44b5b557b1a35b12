-- ===== src/Tests/Sizes.antt =====
-- The sizes in a byte of src/object.zig and lua-5.1/src/lobject.c.
use zua.Prelude.{ℕ, ◌≤◌, ◌<◌, ◌≡◌, ◌↔◌, refl, some, arith}
use zua.FloatByte.{int_to_floating_point_byte, floating_point_byte_to_int, luao_int2fb, luao_fb2int}
use zua.FloatByte.Rounding.{int_to_floating_point_byte_least, int2fb-eq-puc}

int_to_floating_point_byte_least_example :
    (r : ℕ) × (int_to_floating_point_byte 100 ≡ some r)
    × (r < 256)
    × ((r ≤ 37) ↔ (100 ≤ floating_point_byte_to_int 37))
int_to_floating_point_byte_least_example =
    int_to_floating_point_byte_least 100 37 (omega arith) (omega arith)

int2fb-eq-puc_example :
    (int_to_floating_point_byte 1000 ≡ some (luao_int2fb 1000))
    × (luao_fb2int 77 ≡ floating_point_byte_to_int 77)
int2fb-eq-puc_example = int2fb-eq-puc 1000 77 (omega arith) (omega arith)

-- 100 is rounded up to 104.
code_of_hundred : int_to_floating_point_byte 100 ≡ some 37
unfolding int_to_floating_point_byte
code_of_hundred = refl

value_of_code : floating_point_byte_to_int 37 ≡ 104
unfolding floating_point_byte_to_int
value_of_code = refl

-- The largest `unsigned int` wraps to 0 in luaO_int2fb.
largest_wraps : luao_int2fb 4294967295 ≡ 0
unfolding luao_int2fb
largest_wraps = refl
