-- ===== src/Prelude/Bits.antt =====
-- `&` and `|` of words cut at a bit: each acts on the two parts, at every width.
use Prim.Native.Nat.{
  ℕ, zero, suc, ◌+◌, ◌-◌, ◌*◌, ◌/◌, ◌%◌, ◌^◌, ◌≤◌, ◌<◌, min, max, bit_and, bit_or, digits, bitwise,
  bit_and-bitwise, bit_or-bitwise,
}
use mathlib.Core.Path.{◌≡◌, refl, ap, ap₂, ◌∙◌}
use mathlib.Core.Bool.{Bool, true, ◌&&◌}
use native.Mathlib.Nat.{pow-suc, one-le-pow, add-zero}
use native.Mathlib.Omega.{arith}

-- `digits` recurs on fuel that is at least its first operand; how much more does not matter.
module _ (rest : ℕ → ℕ) (digit : ℕ → ℕ → ℕ) where
  spare_fuel : (v w x y : ℕ) → (v ≤ x) × (v ≤ y) → digits rest digit x v w ≡ digits rest digit y v w
  spare_fuel zero w zero zero h = refl
  spare_fuel zero w zero (suc y) h = refl
  spare_fuel zero w (suc x) zero h = refl
  spare_fuel zero w (suc x) (suc y) h = refl
  spare_fuel (suc v) w (suc x) (suc y) h =
      let halves = spare_fuel (suc v / 2) (w / 2) x y (omega arith, omega arith) in
      ap (λ (t : ℕ). t * 2 + digit (suc v % 2) (w % 2)) halves
  spare_fuel (suc v) w zero y h = absurd (omega arith)
  spare_fuel (suc v) w (suc x) zero h = absurd (omega arith)

  lowest_digit :
      (v w : ℕ)
      → bitwise rest digit (suc v) w
        ≡ bitwise rest digit (suc v / 2) (w / 2) * 2 + digit (suc v % 2) (w % 2)
  lowest_digit v w =
      ap (λ (t : ℕ). t * 2 + digit (suc v % 2) (w % 2))
        (spare_fuel (suc v / 2) (w / 2) v (suc v / 2) (omega arith, omega arith))

pub bit_and_step : (a b : ℕ) → bit_and a b ≡ bit_and (a / 2) (b / 2) * 2 + min (a % 2) (b % 2)
bit_and_step a b = rw (bit_and-bitwise a b, bit_and-bitwise (a / 2) (b / 2)) (both a)
  where
    both :
        (v : ℕ)
        → bitwise (λ t. 0) min v b ≡ bitwise (λ t. 0) min (v / 2) (b / 2) * 2 + min (v % 2) (b % 2)
    both (suc v) = lowest_digit (λ t. 0) min v b
    both zero = omega arith

pub bit_or_step : (a b : ℕ) → bit_or a b ≡ bit_or (a / 2) (b / 2) * 2 + max (a % 2) (b % 2)
bit_or_step a b = rw (bit_or-bitwise a b, bit_or-bitwise (a / 2) (b / 2)) (either a)
  where
    either :
        (v : ℕ)
        → bitwise (λ t. t) max v b ≡ bitwise (λ t. t) max (v / 2) (b / 2) * 2 + max (v % 2) (b % 2)
    either (suc v) = lowest_digit (λ t. t) max v b
    either zero = omega arith

pub zero-bit_and : (b : ℕ) → bit_and 0 b ≡ 0
zero-bit_and b = bit_and-bitwise 0 b

pub zero-bit_or : (b : ℕ) → bit_or 0 b ≡ b
zero-bit_or b = bit_or-bitwise 0 b

with_zero : (n a : ℕ) → a ≤ n → (bit_or a 0 ≡ a) × (bit_and a 0 ≡ 0)
with_zero n zero h = (zero-bit_or 0, zero-bit_and 0)
with_zero zero (suc a) h = absurd (omega arith)
with_zero (suc n) (suc a) h =
    omega
      (arith, with_zero n (suc a / 2) (omega arith), bit_or_step (suc a) 0, bit_and_step (suc a) 0)

pub bit_or-zero : (a : ℕ) → bit_or a 0 ≡ a
bit_or-zero a = (with_zero a a (omega arith)).0

pub bit_and-zero : (a : ℕ) → bit_and a 0 ≡ 0
bit_and-zero a = (with_zero a a (omega arith)).1

twice_mul : (q k : ℕ) → q * 2 ^ suc k ≡ 2 * (q * 2 ^ k)
twice_mul q k = omega (arith, ap (λ (t : ℕ). q * t) (pow-suc 2 k))

cut_zero :
    (f : ℕ → ℕ → ℕ)
    → f 0 0 ≡ 0
    → (a b c d : ℕ) → b < 1
    → d < 1
    → f (a * 1 + b) (c * 1 + d) ≡ f a c * 1 + f b d
cut_zero f z a b c d hb hd =
    let eb : b ≡ 0 = omega arith in
    let ed : d ≡ 0 = omega arith in
    let e : f (a * 1 + 0) (c * 1 + 0) ≡ f a c = ap₂ f (omega arith) (omega arith) in
    rw (eb, ed) (omega (arith, e, z))

-- A word cut at bit `k` is `hi * 2 ^ k + lo`.
pub bit_and_cut :
    (k a b c d : ℕ)
    → b < 2 ^ k
    → d < 2 ^ k
    → bit_and (a * 2 ^ k + b) (c * 2 ^ k + d) ≡ bit_and a c * 2 ^ k + bit_and b d
bit_and_cut zero a b c d hb hd = cut_zero bit_and refl a b c d hb hd
bit_and_cut (suc k) a b c d hb hd = ground (
  arith,
  bit_and_step (a * 2 ^ suc k + b) (c * 2 ^ suc k + d),
  bit_and_step b d,
  twice_mul a k,
  twice_mul c k,
  twice_mul (bit_and a c) k,
  pow-suc 2 k,
  bit_and_cut k a (b / 2) c (d / 2) (omega (arith, pow-suc 2 k)) (omega (arith, pow-suc 2 k)),
)

pub bit_or_cut :
    (k a b c d : ℕ)
    → b < 2 ^ k
    → d < 2 ^ k
    → bit_or (a * 2 ^ k + b) (c * 2 ^ k + d) ≡ bit_or a c * 2 ^ k + bit_or b d
bit_or_cut zero a b c d hb hd = cut_zero bit_or refl a b c d hb hd
bit_or_cut (suc k) a b c d hb hd = ground (
  arith,
  bit_or_step (a * 2 ^ suc k + b) (c * 2 ^ suc k + d),
  bit_or_step b d,
  twice_mul a k,
  twice_mul c k,
  twice_mul (bit_or a c) k,
  pow-suc 2 k,
  bit_or_cut k a (b / 2) c (d / 2) (omega (arith, pow-suc 2 k)) (omega (arith, pow-suc 2 k)),
)

-- `(q << k) | r` is a sum when `r` fits `k` bits.
pub bit_or_fields : (k q r : ℕ) → r < 2 ^ k → bit_or (q * 2 ^ k) r ≡ q * 2 ^ k + r
bit_or_fields k q r fits =
    let e : bit_or (q * 2 ^ k + 0) (0 * 2 ^ k + r) ≡ bit_or q 0 * 2 ^ k + bit_or 0 r =
      bit_or_cut k q 0 0 r (omega (arith, one-le-pow k 2)) fits in
    let left : bit_or (q * 2 ^ k) r ≡ bit_or (q * 2 ^ k + 0) (0 * 2 ^ k + r) =
      ap₂ bit_or (omega arith) (omega arith) in
    let q0 : bit_or q 0 * 2 ^ k ≡ q * 2 ^ k = ap (λ (t : ℕ). t * 2 ^ k) (bit_or-zero q) in
    omega (arith, left, e, q0, zero-bit_or r)

-- `lo | (hi << k)` when `lo` fits `k` bits, the operands given up to equations.
pub bit_or_above :
    (k lo hi x s : ℕ) → lo < 2 ^ k → x ≡ lo → s ≡ hi * 2 ^ k → bit_or x s ≡ hi * 2 ^ k + lo
bit_or_above k lo hi x s fits ex es =
    let e : bit_or (0 * 2 ^ k + lo) (hi * 2 ^ k + 0) ≡ bit_or 0 hi * 2 ^ k + bit_or lo 0 =
      bit_or_cut k 0 lo hi 0 fits (omega (arith, one-le-pow k 2)) in
    let left : bit_or x s ≡ bit_or (0 * 2 ^ k + lo) (hi * 2 ^ k + 0) =
      ap₂ bit_or (omega arith) (omega arith) in
    left ∙ e ∙ rw (zero-bit_or, bit_or-zero)

-- `((top << (n + k)) | lo) | (mid << k)`: the bits between two parts are filled.
pub bit_or_between :
    (k n lo mid top x s : ℕ)
    → lo < 2 ^ k
    → mid < 2 ^ n
    → x ≡ top * 2 ^ n * 2 ^ k + lo
    → s ≡ mid * 2 ^ k
    → bit_or x s ≡ (top * 2 ^ n + mid) * 2 ^ k + lo
bit_or_between k n lo mid top x s fits hm ex es =
    let e = bit_or_cut k (top * 2 ^ n) lo mid 0 fits (omega (arith, one-le-pow k 2)) in
    let left : bit_or x s ≡ bit_or (top * 2 ^ n * 2 ^ k + lo) (mid * 2 ^ k + 0) =
      ap₂ bit_or ex (omega arith) in
    left ∙ e ∙ rw (bit_or_fields n top mid hm, bit_or-zero)

-- All bits of a word: `& (2^k - 1)` is the remainder by `2 ^ k`.
bit_and-ones : (k a : ℕ) → a < 2 ^ k → bit_and a (2 ^ k - 1) ≡ a
bit_and-ones zero a fits = let e : a ≡ 0 = omega arith in rw e (omega arith)
bit_and-ones (suc k) a fits =
    let half : (2 ^ suc k - 1) / 2 ≡ 2 ^ k - 1 = omega (arith, pow-suc 2 k, one-le-pow k 2) in
    let odd : (2 ^ suc k - 1) % 2 ≡ 1 = omega (arith, pow-suc 2 k, one-le-pow k 2) in
    let rest : bit_and (a / 2) (2 ^ k - 1) ≡ a / 2 =
      bit_and-ones k (a / 2) (omega (arith, pow-suc 2 k)) in
    omega (arith, bit_and_step a (2 ^ suc k - 1), ap (λ (t : ℕ). bit_and (a / 2) t) half, rest, odd)

pub bit_and_mask : (k a : ℕ) → bit_and a (2 ^ k - 1) ≡ a % 2 ^ k
bit_and_mask k a =
    let below : a % 2 ^ k < 2 ^ k = grind (arith, one-le-pow k 2) in
    let e : bit_and (a / 2 ^ k * 2 ^ k + a % 2 ^ k) (0 * 2 ^ k + (2 ^ k - 1))
        ≡ bit_and (a / 2 ^ k) 0 * 2 ^ k + bit_and (a % 2 ^ k) (2 ^ k - 1) =
      bit_and_cut k (a / 2 ^ k) (a % 2 ^ k) 0 (2 ^ k - 1) below (omega (arith, one-le-pow k 2)) in
    let left : bit_and a (2 ^ k - 1)
        ≡ bit_and (a / 2 ^ k * 2 ^ k + a % 2 ^ k) (0 * 2 ^ k + (2 ^ k - 1)) =
      ap₂ bit_and (grind arith) (omega arith) in
    let none : bit_and (a / 2 ^ k) 0 * 2 ^ k ≡ 0 = rw bit_and-zero (omega arith) in
    omega (arith, left, e, none, bit_and-ones k (a % 2 ^ k) below)

-- A field of `n` bits at bit `k`, below `m` more bits: a mask with zeros on the field clears it,
-- and a value that fits is put in by `|`.
pub clear_field :
    (k n m a f b : ℕ)
    → a < 2 ^ m
    → f < 2 ^ n
    → b < 2 ^ k
    → bit_and ((a * 2 ^ n + f) * 2 ^ k + b) (((2 ^ m - 1) * 2 ^ n + 0) * 2 ^ k + (2 ^ k - 1))
      ≡ a * 2 ^ n * 2 ^ k + b
clear_field k n m a f b ha hf hb =
    let outer =
      bit_and_cut k (a * 2 ^ n + f) b ((2 ^ m - 1) * 2 ^ n + 0) (2 ^ k - 1) hb
        (omega (arith, one-le-pow k 2)) in
    let inner = bit_and_cut n a f (2 ^ m - 1) 0 hf (omega (arith, one-le-pow n 2)) in
    outer ∙ rw (inner, bit_and-ones k b hb, bit_and-ones m a ha, bit_and-zero) (simp add-zero)

pub insert_field :
    (k n a u b : ℕ)
    → u < 2 ^ n
    → b < 2 ^ k
    → bit_or (a * 2 ^ n * 2 ^ k + b) (u * 2 ^ k) ≡ (a * 2 ^ n + u) * 2 ^ k + b
insert_field k n a u b hu hb =
    let e = bit_or_cut k (a * 2 ^ n) b u 0 hb (omega (arith, one-le-pow k 2)) in
    rw add-zero at (rw (bit_or_fields n a u hu, bit_or-zero) at e)

-- Over a small range, a test is checked at every value by evaluation.
unfoldable pub all_below : ℕ → (ℕ → Bool) → Bool
all_below zero p = true
all_below (suc n) p = p n && all_below n p

pub all_below_sound : (n : ℕ) (p : ℕ → Bool) (x : ℕ) → all_below n p ≡ true → x < n → p x ≡ true
unfolding all_below
all_below_sound (suc m) p x every small = ground (arith, all_below_sound m p x)
all_below_sound zero p x every small = absurd (omega arith)
