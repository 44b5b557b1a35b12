-- ===== src/Table/Twin.antt =====
-- The length of a table in src/table.zig and in lua-5.1/src/ltable.c.
use zua.Prelude.{
  ℕ, zero, suc, ◌+◌, ◌-◌, ◌*◌, ◌/◌, ◌≤◌, ◌<◌, ◌≡◌, ◌≢◌, refl, sym, ap, ◌∙◌, ◌^◌, lt→ltb, le→ltb,
  Bool, true, false, not, ◌&&◌, List, [], ◌∷◌, Option, none, some, ltb, leb, ◌==◌, length, get_or,
  max, Bool-cases, inl, inr, arith,
}
use zua.Puc.Table.{
  max_int, binary_search, linear_search, double_search, is_some, find_node, nodes, luah_getnum,
  top_key, top_of, unbound_search, luah_getn,
}
use zua.Table.{
  Table, search_between, search_up, search_beyond, not_nil, map_get, get, largest_key, getn,
}

-- The table of lua-5.1 with the same array part and hash part.
abbrev pub puc : {V : Type 0} → Table V → zua.Puc.Table.Table V
puc t = record { array = t.array; node = some t.map }

search_between-eq :
    (p q : ℕ → Bool) (n : ℕ)
    → ((k : ℕ) → n < k → p k ≡ q k)
    → (fuel i j : ℕ) → n ≤ i
    → search_between p fuel i j ≡ binary_search q fuel i j
unfolding search_between binary_search
search_between-eq p q n agree zero i j h = refl
search_between-eq p q n agree (suc fuel) i j h = elim (Bool-cases (ltb 1 (j - i))) [
  | inl go ↦
      let half = agree ((i + j) / 2) (ground arith) in
      rw
        (
          go,
          half,
          search_between-eq p q n agree fuel i ((i + j) / 2) h,
          search_between-eq p q n agree fuel ((i + j) / 2) j (ground arith),
        )
        refl
  | inr stop ↦ rw stop refl
]

search_up-eq :
    (p q : ℕ → Bool)
    → ((k : ℕ) → p k ≡ q k)
    → (fuel i : ℕ) → search_up p fuel i ≡ linear_search q fuel i
unfolding search_up linear_search
search_up-eq p q agree zero i = rw (agree i) refl
search_up-eq p q agree (suc fuel) i = rw (agree i, search_up-eq p q agree fuel (i + 1)) refl

-- The two bounds, MAX_INT and the greatest i32, separate no other even number than 2^31 - 2.
bounds-eq : (j : ℕ) → j ≢ 2 ^ 30 - 1 → ltb (2 ^ 31 - 1) (j * 2) ≡ ltb max_int (j * 2)
bounds-eq j h = elim (Bool-cases (ltb (2 ^ 31 - 1) (j * 2))) [
  | inl e ↦ e ∙ sym (lt→ltb max_int (j * 2) (ground arith))
  | inr e ↦ e ∙ sym (le→ltb max_int (j * 2) (within_bounds (ground arith)))
]
  where
    within_bounds : j * 2 ≤ 2 ^ 31 - 1 → j * 2 ≤ max_int
    within_bounds below = elim (Bool-cases (j == 2 ^ 30 - 1)) [
      | inl e ↦ absurd (h (ground arith))
      | inr e ↦ ground arith
    ]

search_beyond-eq :
    (m p q : ℕ → Bool) (n top : ℕ)
    → ((k : ℕ) → n < k → m k ≡ q k)
    → ((k : ℕ) → p k ≡ q k)
    → (rounds i j : ℕ) → n ≤ i
    → n < j
    → j ≢ 2 ^ 30 - 1
    → search_beyond m p top rounds i j ≡ double_search q top rounds i j
unfolding search_beyond double_search
search_beyond-eq m p q n top above all zero i j hi hj odd =
    rw (above j hj, search_between-eq m q n above j i j hi) refl
search_beyond-eq m p q n top above all (suc rounds) i j hi hj odd =
    rw
      (
        above j hj,
        search_between-eq m q n above j i j hi,
        search_up-eq p q all top 1,
        search_beyond-eq m p q n top above all rounds j (j * 2) (omega arith) (omega arith)
            (λ e. omega arith),
        bounds-eq j odd,
      )
      refl

adjacent : (q : ℕ → Bool) (fuel j : ℕ) → binary_search q fuel j (j + 1) ≡ some j
unfolding binary_search
adjacent q zero j = let stop : ltb 1 (j + 1 - j) ≡ false = ground arith in rw stop refl
adjacent q (suc fuel) j = let stop : ltb 1 (j + 1 - j) ≡ false = ground arith in rw stop refl

double_search-stop :
    (q : ℕ → Bool) (top rounds j : ℕ)
    → q (j + 1) ≡ false
    → double_search q top rounds j (j + 1) ≡ some j
unfolding double_search binary_search
double_search-stop q top zero j h = rw h (adjacent q (j + 1) j)
double_search-stop q top (suc rounds) j h = rw h (adjacent q (j + 1) j)

module _ {V : Type 0} where
  not_nil-eq : (o : Option V) → not_nil o ≡ is_some o
  not_nil-eq none = refl
  not_nil-eq (some v) = refl

  map_get-eq : (ns : List (ℕ × Option V)) (k : ℕ) → map_get ns k ≡ find_node ns k
  unfolding map_get find_node
  map_get-eq [] k = refl
  map_get-eq ((k', v) ∷ ns) k = rw (map_get-eq ns k) refl

  largest_key-eq : (ns : List (ℕ × Option V)) → largest_key ns ≡ top_key ns
  largest_key-eq [] = refl
  largest_key-eq ((k, v) ∷ ns) = ap (max k) (largest_key-eq ns)

  get-eq : (t : Table V) (k : ℕ) → get t k ≡ luah_getnum (puc t) k
  unfolding get luah_getnum
  get-eq t k = rw (map_get-eq t.map k) refl

  empty_list : (ns : List (ℕ × Option V)) (others : ℕ) → (length ns + others == 0) ≡ true → ns ≡ []
  empty_list [] others h = refl
  empty_list (n ∷ ns) others h = absurd (ground arith)

  -- Where zua goes on with the map.
  beyond : (t : Table V) → Option ℕ
  beyond t =
      search_beyond (λ k. not_nil (map_get t.map k)) (λ k. not_nil (get t k))
        (max (length t.array) (largest_key t.map) + 1) 31 (length t.array) (length t.array + 1)

  outside_array :
      (t : Table V) (k : ℕ) → length t.array < k → luah_getnum (puc t) k ≡ find_node t.map k
  unfolding luah_getnum
  outside_array t k h =
      let outside : (leb 1 k && leb k (length t.array)) ≡ false = ground arith in rw outside refl

  beyond-eq :
      (t : Table V)
      → length t.array ≢ 2 ^ 30 - 2
      → beyond t ≡ unbound_search (puc t) (length t.array)
  unfolding beyond unbound_search
  beyond-eq t odd = rw (largest_key-eq t.map) (
      search_beyond-eq _ (λ k. not_nil (get t k)) (λ k. is_some (luah_getnum (puc t) k))
        (length t.array) _
        (λ k h. not_nil-eq _ ∙ ap is_some (map_get-eq t.map k ∙ sym (outside_array t k h)))
        (λ k. not_nil-eq _ ∙ ap is_some (get-eq t k)) 31 (length t.array) (length t.array + 1)
        (omega arith) (omega arith) (λ e. odd (omega arith)))

  no_map :
      (t : Table V) → t.map ≡ [] → unbound_search (puc t) (length t.array) ≡ some (length t.array)
  unfolding unbound_search find_node
  no_map t e =
      double_search-stop (λ k. is_some (luah_getnum (puc t) k)) _ 31 (length t.array)
        (ap is_some (
          outside_array t (length t.array + 1) (omega arith)
          ∙ ap (λ ns. find_node ns (length t.array + 1)) e))

  -- The length of a table in zua is what luaH_getn of lua-5.1 returns for the same array part and hash part,
  -- whatever other keys the table has. The size of the array part may be any but 2^30 - 2: from there the search
  -- meets 2^31 - 2, which is past MAX_INT, but not past the greatest i32, zua's bound.
  pub getn-eq-luah_getn : (t : Table V) → length t.array ≢ 2 ^ 30 - 2 → getn t ≡ luah_getn (puc t)
  unfolding getn luah_getn beyond
  getn-eq-luah_getn t odd =
      let same_last = not_nil-eq (get_or t.array (length t.array - 1) none) in
      elim (Bool-cases
        (ltb 0 (length t.array) && not (is_some (get_or t.array (length t.array - 1) none)))) [
          | inl c ↦
              rw (same_last, c)
                (search_between-eq _ _ 0 (λ k _. not_nil-eq (get_or t.array (k - 1) none))
                  (length t.array) 0 (length t.array) (omega arith))
          | inr c ↦ elim (Bool-cases (length t.map + t.others == 0)) [
            | inl none_left ↦
                rw (same_last, c, none_left) (sym (no_map t (empty_list t.map t.others none_left)))
            | inr some_left ↦ rw (same_last, c, some_left) (beyond-eq t odd)
          ]
        ]
