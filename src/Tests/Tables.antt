-- ===== src/Tests/Tables.antt =====
-- The length of a table: lua-5.1/src/ltable.c.
use zua.Prelude.{ℕ, [], ◌∷◌, ◌≡◌, refl, some, arith}
use zua.Puc.Table.{
  Table, binary_search, linear_search, double_search, find_node, luah_getnum, unbound_search,
  luah_getn,
}
use zua.Table
use zua.Table.{getn}
use zua.Table.Twin.{puc, getn-eq-luah_getn}
use zua.Puc.Table.Border.{Found, present_in, luah_getn-Found}

-- {1, 2, 3} with t[4] and t[8] in the hash part.
abbrev sparse : Table ℕ
sparse = record {
  array = some 1 ∷ some 2 ∷ some 3 ∷ [];
  node = some ((8, some 8) ∷ (4, some 4) ∷ []);
}

luah_getn-Found_example : Found (present_in sparse) (luah_getn sparse)
luah_getn-Found_example = luah_getn-Found sparse (omega arith)

-- The index 8 is found by doubling 4.
length_of_sparse : luah_getn sparse ≡ some 8
unfolding luah_getn unbound_search double_search binary_search linear_search luah_getnum find_node
length_of_sparse = refl

-- The same table in zua, with two keys that are not integers.
abbrev sparse_in_zua : zua.Table.Table ℕ
sparse_in_zua = record {
  array = some 1 ∷ some 2 ∷ some 3 ∷ [];
  map = (8, some 8) ∷ (4, some 4) ∷ [];
  others = 2;
}

getn-eq-luah_getn_example : getn sparse_in_zua ≡ luah_getn (puc sparse_in_zua)
getn-eq-luah_getn_example = getn-eq-luah_getn sparse_in_zua (λ e. omega arith)
