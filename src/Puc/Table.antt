-- ===== src/Puc/Table.antt =====
-- lua-5.1/src/ltable.c: looking an integer up, and the length of a table. The keys of the hash part that are
-- integers are an association list in the order in which they are found; `none` is dummynode. A nil value is
-- `none`.
pub mod Border
use zua.Prelude.{
  ℕ, zero, suc, ◌+◌, ◌-◌, ◌*◌, ◌/◌, ◌^◌, Bool, true, false, not, ◌&&◌, List, [], ◌∷◌, Option, none,
  some, ltb, leb, ◌==◌, if◌then◌else◌, length, get_or, max,
}

pub record Table (V : Type 0) : Type 0 where
  pub array : List (Option V)
  pub node : Option (List (ℕ × Option V))

-- MAX_INT of llimits.h.
abbrev pub max_int : ℕ
max_int = 2 ^ 31 - 1 - 2

-- The loops on `unsigned int`, over the test `!ttisnil(luaH_getnum(t, j))` or its like for the array part. They run
-- on fuel; `none` is out of fuel.
module _ (present : ℕ → Bool) where
  -- `while (j - i > 1) { m = (i+j)/2; ... }`
  unfoldable pub binary_search : ℕ → ℕ → ℕ → Option ℕ
  binary_search zero i j = if ltb 1 (j - i) then none else some i
  binary_search (suc fuel) i j =
      let m = (i + j) / 2 in
      let below = binary_search fuel i m in
      let above = binary_search fuel m j in
      if ltb 1 (j - i) then (if present m then above else below) else some i

  -- `while (!ttisnil(luaH_getnum(t, i))) i++; return i - 1;`
  unfoldable pub linear_search : ℕ → ℕ → Option ℕ
  linear_search zero i = if present i then none else some (i - 1)
  linear_search (suc fuel) i =
      let rest = linear_search fuel (i + 1) in if present i then rest else some (i - 1)

  -- The loop that doubles `j`, and what follows it: `j * 2` fits an `unsigned int` as `j` is at most MAX_INT.
  unfoldable pub double_search : ℕ → ℕ → ℕ → ℕ → Option ℕ
  unfolding binary_search linear_search
  double_search top zero i j = if present j then none else binary_search j i j
  double_search top (suc rounds) i j =
      let rest = double_search top rounds j (j * 2) in
      let linear = linear_search top 1 in
      if present j then (if ltb max_int (j * 2) then linear else rest) else binary_search j i j

module _ {V : Type 0} where
  abbrev pub is_some : Option V → Bool
  is_some (some v) = true
  is_some none = false

  -- The value of the first node with the key.
  unfoldable pub find_node : List (ℕ × Option V) → ℕ → Option V
  find_node [] key = none
  find_node ((k, v) ∷ rest) key = if k == key then v else find_node rest key

  abbrev pub nodes : Table V → List (ℕ × Option V)
  nodes t = elim t.node [ none ↦ [] | some ns ↦ ns ]

  unfoldable pub luah_getnum : Table V → ℕ → Option V
  unfolding find_node
  luah_getnum t key =
      if leb 1 key && leb key (length t.array)
      then get_or t.array (key - 1) none
      else find_node (nodes t) key

  -- An index above all keys, where the linear search ends at the latest.
  abbrev pub top_key : List (ℕ × Option V) → ℕ
  top_key [] = 0
  top_key ((k, v) ∷ rest) = max k (top_key rest)

  abbrev pub top_of : Table V → ℕ
  top_of t = max (length t.array) (top_key (nodes t)) + 1

  -- `int` results are at most MAX_INT; 31 rounds double 1 beyond it.
  unfoldable pub unbound_search : Table V → ℕ → Option ℕ
  unfolding double_search luah_getnum
  unbound_search t j = double_search (λ k. is_some (luah_getnum t k)) (top_of t) 31 j (j + 1)

  unfoldable pub luah_getn : Table V → Option ℕ
  unfolding unbound_search binary_search
  luah_getn t =
      let j = length t.array in
      if ltb 0 j && not (is_some (get_or t.array (j - 1) none))
      then binary_search (λ m. is_some (get_or t.array (m - 1) none)) j 0 j
      else elim t.node [ none ↦ some j | some ns ↦ unbound_search t j ]
