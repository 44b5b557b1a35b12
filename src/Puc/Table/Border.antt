-- ===== src/Puc/Table/Border.antt =====
-- The length of a table of lua-5.1/src/ltable.c is a border.
use zua.Prelude.{
  ℕ, zero, suc, ◌+◌, ◌-◌, ◌*◌, ◌/◌, ◌^◌, ◌≤◌, ◌<◌, ◌≡◌, ◌⊎◌, inl, inr, refl, sym, ap, ◌∙◌, Bool,
  true, false, not, ◌&&◌, List, [], ◌∷◌, Option, none, some, ltb, leb, ◌==◌, length, get_or,
  Bool-cases, arith,
}
use native.Mathlib.Nat.{pow-suc}
use native.Mathlib.Decide.{dec_lt}
use zua.Puc.Table.{
  Table, max_int, binary_search, linear_search, double_search, is_some, find_node, nodes,
  luah_getnum, top_key, top_of, unbound_search, luah_getn,
}

module _ (present : ℕ → Bool) where
  -- A search has ended at a border: 0 or a present index, before an absent one.
  pub data Found : Option ℕ → Type 0 where
    found : {i : ℕ} → (i ≡ 0) ⊎ (present i ≡ true) → present (i + 1) ≡ false → Found (some i)

  pub binary_search-Found :
      (fuel i j : ℕ)
      → i < j
      → j ≤ i + fuel + 1
      → (i ≡ 0) ⊎ (present i ≡ true)
      → present j ≡ false
      → Found (binary_search present fuel i j)
  unfolding binary_search
  binary_search-Found zero i j lt enough low high =
      let last : j ≡ i + 1 = omega arith in
      let stop : ltb 1 (j - i) ≡ false = ground arith in
      rw stop (found low (ap present (sym last) ∙ high))
  binary_search-Found (suc fuel) i j lt enough low high = elim (Bool-cases (ltb 1 (j - i))) [
    | inl go ↦ rw go (elim (Bool-cases (present ((i + j) / 2))) [
      | inl p ↦
          rw p (binary_search-Found fuel ((i + j) / 2) j (ground arith) (ground arith) (inr p) high)
      | inr p ↦ rw p (binary_search-Found fuel i ((i + j) / 2) (ground arith) (ground arith) low p)
    ])
    | inr stop ↦
        let last : j ≡ i + 1 = ground arith in rw stop (found low (ap present (sym last) ∙ high))
  ]

  module _ (top : ℕ) (absent : (k : ℕ) → top < k → present k ≡ false) where
    -- `i` is one more than 0 or a present index.
    linear_search-Found :
        (fuel i : ℕ)
        → top < suc i + fuel
        → (i ≡ 0) ⊎ (present i ≡ true)
        → Found (linear_search present fuel (i + 1))
    unfolding linear_search
    linear_search-Found zero i enough low =
        let end : present (i + 1) ≡ false = absent (i + 1) (omega arith) in
        let back : i + 1 - 1 ≡ i = omega arith in rw (end, back) (found low end)
    linear_search-Found (suc fuel) i enough low =
        let back : i + 1 - 1 ≡ i = omega arith in
        elim (Bool-cases (present (i + 1))) [
          | inl p ↦ rw p (linear_search-Found fuel (i + 1) (omega arith) (inr p))
          | inr p ↦ rw (p, back) (found low p)
        ]

    double_search-Found :
        (rounds i j : ℕ)
        → i < j
        → j ≤ max_int
        → max_int < j * 2 ^ rounds
        → (i ≡ 0) ⊎ (present i ≡ true)
        → Found (double_search present top rounds i j)
    unfolding double_search
    double_search-Found zero i j lt small enough low = absurd (omega arith)
    double_search-Found (suc rounds) i j lt small enough low = elim (Bool-cases (present j)) [
      | inl p ↦ rw p (elim (Bool-cases (ltb max_int (j * 2))) [
        | inl large ↦ rw large (linear_search-Found top 0 (omega arith) (inl refl))
        | inr fits ↦ rw fits (
            double_search-Found rounds j (j * 2) (omega arith) (ground arith)
              (omega (arith, pow-suc 2 rounds, twice)) (inr p))
      ])
      | inr p ↦ rw p (binary_search-Found j i j lt (omega arith) low p)
    ]
      where
        twice : j * 2 ^ suc rounds ≡ j * 2 * 2 ^ rounds
        twice = omega (arith, ap (λ (t : ℕ). j * t) (pow-suc 2 rounds))

module _ {V : Type 0} where
  find_node-above : (ns : List (ℕ × Option V)) (k : ℕ) → top_key ns < k → find_node ns k ≡ none
  unfolding find_node
  find_node-above [] k h = refl
  find_node-above ((k', v) ∷ ns) k h =
      let differ : (k' == k) ≡ false = ground arith in
      rw differ (find_node-above ns k (omega arith))

  -- An integer index of the table that is looked up is not nil.
  abbrev pub present_in : Table V → ℕ → Bool
  present_in t k = is_some (luah_getnum t k)

  beyond_top : (t : Table V) (k : ℕ) → top_of t < k → present_in t k ≡ false
  unfolding luah_getnum
  beyond_top t k h =
      let outside : (leb 1 k && leb k (length t.array)) ≡ false = ground arith in
      rw (outside, find_node-above (nodes t) k (omega arith)) refl

  -- What the array part holds at an index that it has.
  in_array :
      (t : Table V) (k : ℕ)
      → 0 < k
      → k ≤ length t.array
      → present_in t k ≡ is_some (get_or t.array (k - 1) none)
  unfolding luah_getnum
  in_array t k pos_k h =
      let inside : (leb 1 k && leb k (length t.array)) ≡ true = ground arith in rw inside refl

  -- An index that the array part does not have.
  in_node :
      (t : Table V) (k : ℕ) → length t.array < k → present_in t k ≡ is_some (find_node (nodes t) k)
  unfolding luah_getnum
  in_node t k h =
      let outside : (leb 1 k && leb k (length t.array)) ≡ false = ground arith in rw outside refl

binary_search-ap :
    (p q : ℕ → Bool) (n : ℕ)
    → ((k : ℕ) → 0 < k → k ≤ n → p k ≡ q k)
    → (fuel i j : ℕ) → j ≤ n
    → binary_search p fuel i j ≡ binary_search q fuel i j
unfolding binary_search
binary_search-ap p q n agree zero i j h = refl
binary_search-ap p q n agree (suc fuel) i j h = elim (Bool-cases (ltb 1 (j - i))) [
  | inl go ↦
      let half = agree ((i + j) / 2) (ground arith) (ground arith) in
      rw
        (
          go,
          half,
          binary_search-ap p q n agree fuel i ((i + j) / 2) (ground arith),
          binary_search-ap p q n agree fuel ((i + j) / 2) j h,
        )
        refl
  | inr stop ↦ rw stop refl
]

module _ {V : Type 0} where
  -- The last element of the array part is nil, or there is none, or it is present.
  last_nil : Table V → Bool
  last_nil t = ltb 0 (length t.array) && not (is_some (get_or t.array (length t.array - 1) none))

  last_present :
      (t : Table V)
      → last_nil t ≡ false
      → (length t.array ≡ 0) ⊎ (present_in t (length t.array) ≡ true)
  unfolding last_nil
  last_present t h = elim (dec_lt 0 (length t.array)) [
    | yes some_left ↦ inr (in_array t (length t.array) some_left (omega arith) ∙ ground arith)
    | no empty ↦ inl (omega arith)
  ]

  after_array :
      (t : Table V) (o : Option (List (ℕ × Option V)))
      → length t.array < max_int
      → t.node ≡ o
      → last_nil t ≡ false
      → Found
          (present_in t)
          (elim o [ none ↦ some (length t.array) | some ns ↦ unbound_search t (length t.array) ])
  unfolding unbound_search find_node
  after_array t none small e h =
      let no_node : find_node (nodes t) (length t.array + 1) ≡ none = rw e refl in
      found (last_present t h) (in_node t (length t.array + 1) (omega arith) ∙ ap is_some no_node)
  after_array t (some ns) small e h =
      double_search-Found (present_in t) (top_of t) (beyond_top t) 31 (length t.array)
        (length t.array + 1) (omega arith) (omega arith) (omega arith) (last_present t h)

  -- luaH_getn ends, and the length of a table is a border: the index is 0 or has a value that is not nil, and
  -- the next index has none. The array part has less than MAX_INT elements.
  pub luah_getn-Found :
      (t : Table V) → length t.array < max_int → Found (present_in t) (luah_getn t)
  unfolding luah_getn last_nil
  luah_getn-Found t small =
      let n = length t.array in
      elim (Bool-cases (last_nil t)) [
        | inl c ↦
            rw
              (
                c,
                binary_search-ap (λ m. is_some (get_or t.array (m - 1) none)) (present_in t) n
                    (λ k a b. sym (in_array t k a b)) n 0 n (omega arith),
              )
              (binary_search-Found (present_in t) n 0 n (ground arith) (omega arith) (inl refl)
                (in_array t n (ground arith) (omega arith) ∙ ground arith))
        | inr c ↦ rw c (after_array t t.node small refl c)
      ]
