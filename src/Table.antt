-- ===== src/Table.antt =====
-- src/table.zig: the length of a table. The keys of the map that are integers are an association list,
-- `others` counts the other keys. A nil value is `none`.
pub mod Twin
use zua.Prelude.{
  ℕ, zero, suc, ◌+◌, ◌-◌, ◌*◌, ◌/◌, ◌^◌, Bool, true, false, not, ◌&&◌, List, [], ◌∷◌, Option, none,
  some, ltb, leb, ◌==◌, if◌then◌else◌, length, get_or, max,
}

pub record Table (V : Type 0) : Type 0 where
  pub array : List (Option V)
  pub map : List (ℕ × Option V)
  pub others : ℕ

-- The loops run on fuel; `none` is out of fuel.
-- `while (j - i > 1)`, where the test says that the value at `m` is not nil.
unfoldable pub search_between : (ℕ → Bool) → ℕ → ℕ → ℕ → Option ℕ
search_between has zero i j = if ltb 1 (j - i) then none else some i
search_between has (suc fuel) i j =
    let m = (i + j) / 2 in
    let below = search_between has fuel i m in
    let above = search_between has fuel m j in
    if ltb 1 (j - i) then (if has m then above else below) else some i

-- The loop `linear_search`, and `return i - 1`.
unfoldable pub search_up : (ℕ → Bool) → ℕ → ℕ → Option ℕ
search_up has zero i = if has i then none else some (i - 1)
search_up has (suc fuel) i =
    let rest = search_up has fuel (i + 1) in if has i then rest else some (i - 1)

-- The loop over `j` that doubles it, and the search after it. The first test is of the map, the second of the
-- whole table.
unfoldable pub search_beyond : (ℕ → Bool) → (ℕ → Bool) → ℕ → ℕ → ℕ → ℕ → Option ℕ
unfolding search_between search_up
search_beyond in_map in_table top zero last_contiguous_i j =
    if in_map j then none else search_between in_map j last_contiguous_i j
search_beyond in_map in_table top (suc rounds) last_contiguous_i j =
    let rest = search_beyond in_map in_table top rounds j (j * 2) in
    let linear = search_up in_table top 1 in
    if in_map j
    then (if ltb (2 ^ 31 - 1) (j * 2) then linear else rest)
    else search_between in_map j last_contiguous_i j

module _ {V : Type 0} where
  abbrev pub not_nil : Option V → Bool
  not_nil (some v) = true
  not_nil none = false

  -- `map.get(key)`, where a key that is not there counts as nil.
  unfoldable pub map_get : List (ℕ × Option V) → ℕ → Option V
  map_get [] key = none
  map_get ((k, v) ∷ rest) key = if k == key then v else map_get rest key

  -- `Table.get` of an integer.
  unfoldable pub get : Table V → ℕ → Option V
  unfolding map_get
  get t key =
      if leb 1 key && leb key (length t.array)
      then get_or t.array (key - 1) none
      else map_get t.map key

  -- The largest key of the map.
  abbrev pub largest_key : List (ℕ × Option V) → ℕ
  largest_key [] = 0
  largest_key ((k, v) ∷ rest) = max k (largest_key rest)

  unfoldable pub getn : Table V → Option ℕ
  unfolding search_beyond search_between get
  getn t =
      let j = length t.array in
      if ltb 0 j && not (not_nil (get_or t.array (j - 1) none))
      then search_between (λ m. not_nil (get_or t.array (m - 1) none)) j 0 j
      else if length t.map + t.others == 0
      then some j
      else search_beyond (λ k. not_nil (map_get t.map k)) (λ k. not_nil (get t k))
          (max (length t.array) (largest_key t.map) + 1) 31 j (j + 1)
