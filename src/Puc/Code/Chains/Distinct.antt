-- ===== src/Puc/Code/Chains/Distinct.antt =====
-- Lists of different positions: there are no more of them than positions. For the lists of jumps of
-- lua-5.1/src/lcode.c.
use zua.Prelude.{
  ℕ, zero, suc, ◌+◌, ◌≤◌, ◌<◌, ◌≡◌, refl, ◌≢◌, List, [], ◌∷◌, length, All, arith, ◌==◌, ==_iff,
  if◌then◌else◌, Bool-cases, inl, inr,
}

abbrev pub Distinct : List ℕ → Type 0
Distinct [] = Unit {0}
Distinct (p ∷ ps) = All (λ q. p ≢ q) ps × Distinct ps

-- The list without the element `n`.
without : ℕ → List ℕ → List ℕ
without n [] = []
without n (x ∷ xs) = let rest = without n xs in if x == n then rest else x ∷ rest

without-none : (n : ℕ) (xs : List ℕ) → All (λ x. n ≢ x) xs → without n xs ≡ xs
unfolding without
without-none n [] a = refl
without-none n (x ∷ xs) (d, a) = rw (without-none n xs a) (ground (arith, d))

All-without : (P : ℕ → Type 0) (n : ℕ) (xs : List ℕ) → All P xs → All P (without n xs)
unfolding without
All-without P n [] a = tt
All-without P n (x ∷ xs) (p, a) = elim (Bool-cases (x == n)) [
  | inl e ↦ rw e (All-without P n xs a)
  | inr e ↦ rw e (p, All-without P n xs a)
]

Distinct-without : (n : ℕ) (xs : List ℕ) → Distinct xs → Distinct (without n xs)
unfolding without
Distinct-without n [] d = tt
Distinct-without n (x ∷ xs) (p, d) = elim (Bool-cases (x == n)) [
  | inl e ↦ rw e (Distinct-without n xs d)
  | inr e ↦ rw e (All-without (λ t. x ≢ t) n xs p, Distinct-without n xs d)
]

below-without : (n : ℕ) (xs : List ℕ) → All (λ x. x < suc n) xs → All (λ x. x < n) (without n xs)
unfolding without
below-without n [] a = tt
below-without n (x ∷ xs) (p, a) = elim (Bool-cases (x == n)) [
  | inl e ↦ rw e (below-without n xs a)
  | inr e ↦ rw e (ground arith, below-without n xs a)
]

length-without : (n : ℕ) (xs : List ℕ) → Distinct xs → length xs ≤ length (without n xs) + 1
unfolding without
length-without n [] d = omega arith
length-without n (x ∷ xs) (p, d) = elim (Bool-cases (x == n)) [
  | inl e ↦
      let same : x ≡ n = (==_iff x n).0 e in
      let whole : without n xs ≡ xs = without-none n xs (rw (← same) p) in
      rw (e, whole) (omega arith)
  | inr e ↦ rw e (omega (arith, length-without n xs d))
]

pub Distinct-length : (n : ℕ) (xs : List ℕ) → Distinct xs → All (λ x. x < n) xs → length xs ≤ n
Distinct-length zero [] d a = omega arith
Distinct-length zero (x ∷ xs) d (p, a) = absurd (omega arith)
Distinct-length (suc n) xs d a = omega (
  arith,
  length-without n xs d,
  Distinct-length n (without n xs) (Distinct-without n xs d) (below-without n xs a),
)
