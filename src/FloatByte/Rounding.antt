-- ===== src/FloatByte/Rounding.antt =====
-- A size is coded by the least byte that stands for as much.
use mathlib.Core.WellFounded.{Acc}
use zua.Prelude.{
  ℕ, zero, suc, ◌+◌, ◌-◌, ◌*◌, ◌/◌, ◌%◌, ◌^◌, ◌≤◌, ◌<◌, ◌≡◌, refl, ap, ◌↔◌, true, some, ltb, le→leb,
  ◌==◌, ==_iff, if◌then◌else◌, arith,
}
use zua.Prelude.Bits.{all_below, all_below_sound, bit_or_fields}
use zua.Prelude.Order.{lt_wf}
use mathlib.Core.Logic.{dif_pos, dif_neg}
use native.Mathlib.Decide.{dec_lt}
use native.Mathlib.Bridge.{le_prop}
use native.Mathlib.Nat.{pow-suc}
use zua.FloatByte.{
  half_up_lt, half_up32_lt, scale_loop, pack_byte, int_to_floating_point_byte,
  floating_point_byte_to_int, int2fb_loop, int2fb_result, luao_int2fb, luao_fb2int,
  max_floating_point_byte,
}

byte_table :
    all_below 256 (λ b.
      if ltb b 16
      then floating_point_byte_to_int b == b
      else floating_point_byte_to_int b == 2 * floating_point_byte_to_int (b - 8))
    ≡ true
unfolding all_below floating_point_byte_to_int
byte_table = refl

-- The value of a byte: itself below 16, and twice that of the byte eight below from there on.
small_byte : (b : ℕ) → b < 16 → floating_point_byte_to_int b ≡ b
small_byte b h = ground (arith, all_below_sound 256 _ b byte_table (omega arith))

double_byte :
    (b : ℕ)
    → b < 256
    → 16 ≤ b
    → floating_point_byte_to_int b ≡ 2 * floating_point_byte_to_int (b - 8)
double_byte b h g = ground (arith, all_below_sound 256 _ b byte_table h)

large_byte : (k b : ℕ) → b < 256 → b < k + 16 → 16 ≤ b → 16 ≤ floating_point_byte_to_int b
large_byte zero b h hk g = absurd (omega arith)
large_byte (suc k) b h hk g = elim (dec_lt (b - 8) 16) [
  | yes s ↦ omega (arith, double_byte b h g, small_byte (b - 8) s)
  | no l ↦
      omega
        (arith, double_byte b h g, large_byte k (b - 8) (omega arith) (omega arith) (omega arith))
]

-- What the loop makes of `x` after `e` rounds.
record Scaled (x e k : ℕ) (out : ℕ × ℕ) : Type 0 where
  rounds : (e ≤ out.1) × (out.1 ≤ e + k)
  digit : out.0 < 16
  top : 8 ≤ x → 8 ≤ out.0
  small : x < 8 → out.1 ≡ e
  least : (b : ℕ) → b < 256 → ((8 * out.1 + out.0 ≤ 8 * e + b) ↔ (x ≤ floating_point_byte_to_int b))

stop : (x e k : ℕ) → x < 16 → Scaled x e k (x, e)
stop x e k h = record {
  rounds = omega arith;
  digit = h;
  top = λ t. t;
  small = λ t. refl;
  least = λ b hb. elim (dec_lt b 16) [
    | yes s ↦ (λ p. omega (arith, small_byte b s), λ p. omega (arith, small_byte b s))
    | no l ↦ (λ p. omega (arith, large_byte b b hb (omega arith) (omega arith)), λ p. omega arith)
  ];
}

go_on :
    (x e k : ℕ) (out : ℕ × ℕ) → 15 < x → Scaled ((x + 1) / 2) (e + 1) k out → Scaled x e (suc k) out
go_on x e k out h s = record {
  rounds = (omega (arith, s.rounds), omega (arith, s.rounds));
  digit = s.digit;
  top = λ t. s.top (omega arith);
  small = λ t. absurd (omega arith);
  least = λ b hb. elim (dec_lt b 16) [
    | yes l ↦ (
      λ p. absurd (omega (arith, s.rounds, s.top (omega arith))),
      λ p. absurd (omega (arith, small_byte b l)),
    )
    | no g ↦ (
      λ p.
          omega (
            arith,
            (s.least (b - 8) (omega arith)).0 (omega arith),
            double_byte b hb (omega arith),
          ),
      λ p. omega (
        arith,
        (s.least (b - 8) (omega arith)).1 (omega (arith, double_byte b hb (omega arith))),
      ),
    )
  ];
}

scale_loop-Scaled : (k x e : ℕ) (w : Acc ◌<◌ x) → x ≤ 15 * 2 ^ k → Scaled x e k (scale_loop x e w)
unfolding scale_loop
scale_loop-Scaled zero x e (Acc.intro _ smaller) h =
    let p : ¬ (15 < x) = omega arith in rw (dif_neg _ p) (stop x e 0 (omega arith))
scale_loop-Scaled (suc k) x e (Acc.intro _ smaller) h = elim (dec_lt 15 x) [
  | yes p ↦ rw (dif_pos _ le_prop p) (
      go_on x e k _ p (
        scale_loop-Scaled k ((x + 1) / 2) (e + 1) (smaller ((x + 1) / 2) (half_up_lt x p))
          (omega (arith, pow-suc 2 k))))
  | no p ↦ rw (dif_neg _ p) (stop x e (suc k) (omega arith))
]

pack_byte-eq : (x e : ℕ) → x < 16 → e ≤ 30 → (x < 8 → e ≡ 0) → pack_byte (x, e) ≡ 8 * e + x
pack_byte-eq x e hx he small = elim (dec_lt x 8) [
  | yes p ↦ ground (arith, small p)
  | no p ↦ ground (arith, bit_or_fields 3 (e + 1) (x - 8))
]

Scaled-byte : {x : ℕ} {out : ℕ × ℕ} → Scaled x 0 30 out → pack_byte out ≡ 8 * out.1 + out.0
Scaled-byte {x} {out} s = pack_byte-eq out.0 out.1 s.digit (omega (arith, s.rounds)) small
  where
    small : out.0 < 8 → out.1 ≡ 0
    small h = elim (dec_lt x 8) [
      | yes p ↦ s.small p
      | no p ↦ absurd (omega (arith, s.top (omega arith)))
    ]

-- The byte of a size is the least byte that stands for as much: for every size up to the largest
-- that a byte can stand for, and every byte `b`, the code of the size is at most `b` exactly when the
-- size is at most the value of `b`.
pub int_to_floating_point_byte_least :
    (x b : ℕ)
    → x ≤ max_floating_point_byte
    → b < 256
    → (r : ℕ) × (int_to_floating_point_byte x ≡ some r)
      × (r < 256)
      × ((r ≤ b) ↔ (x ≤ floating_point_byte_to_int b))
unfolding int_to_floating_point_byte
int_to_floating_point_byte_least x b h hb =
    let s = scale_loop-Scaled 30 x 0 (lt_wf.apply x) h in
    let e = Scaled-byte s in
    (
      pack_byte (scale_loop x 0 (lt_wf.apply x)),
      rw (le→leb x max_floating_point_byte h) refl,
      omega (arith, e, s.rounds, s.digit),
      (λ p. (s.least b hb).0 (omega (arith, e)), λ p. omega (arith, e, (s.least b hb).1 p)),
    )

fb2int_table : all_below 256 (λ b. luao_fb2int b == floating_point_byte_to_int b) ≡ true
unfolding all_below luao_fb2int floating_point_byte_to_int
fb2int_table = refl

loops_agree :
    (k x y e : ℕ) (w : Acc ◌<◌ y) (w' : Acc ◌<◌ x)
    → y ≡ x
    → x ≤ 15 * 2 ^ k
    → k ≤ 30
    → x < 2 ^ 32 - 1
    → int2fb_loop y e w ≡ scale_loop x e w'
unfolding scale_loop int2fb_loop
loops_agree zero x y e (Acc.intro _ s) (Acc.intro _ s') q h hk hx =
    let p : ¬ (15 < x) = omega arith in
    let p' : ¬ (15 < y) = omega arith in
    rw (dif_neg (dec_lt 15 x) p, dif_neg (dec_lt 15 y) p') (ap (λ (t : ℕ). (t, e)) q)
loops_agree (suc k) x y e (Acc.intro _ s) (Acc.intro _ s') q h hk hx = elim (dec_lt 15 x) [
  | yes p ↦
      let p' : 15 < y = omega arith in
      rw (dif_pos (dec_lt 15 x) le_prop p, dif_pos (dec_lt 15 y) le_prop p')
        (loops_agree k ((x + 1) / 2) ((y + 1) % 2 ^ 32 / 2) (e + 1)
          (s ((y + 1) % 2 ^ 32 / 2) (half_up32_lt y p')) (s' ((x + 1) / 2) (half_up_lt x p))
          (omega arith) (omega (arith, pow-suc 2 k)) (omega arith) (omega arith))
  | no p ↦
      let p' : ¬ (15 < y) = omega arith in
      rw (dif_neg (dec_lt 15 x) p, dif_neg (dec_lt 15 y) p') (ap (λ (t : ℕ). (t, e)) q)
]

results_agree : (out : ℕ × ℕ) → out.1 ≤ 30 → int2fb_result out ≡ pack_byte out
results_agree (x, e) h = let r : (e + 1) * 2 ^ 3 % 2 ^ 8 ≡ (e + 1) * 2 ^ 3 = omega arith in rw r

-- luaO_int2fb of Lua gives the same byte as zua for every `unsigned int` but the largest, and
-- luaO_fb2int the same size for every byte below 232, whose size fits an `int`.
pub int2fb-eq-puc :
    (x b : ℕ)
    → x < 2 ^ 32 - 1
    → b < 232
    → (int_to_floating_point_byte x ≡ some (luao_int2fb x))
      × (luao_fb2int b ≡ floating_point_byte_to_int b)
unfolding int_to_floating_point_byte luao_int2fb
int2fb-eq-puc x b h hb =
    let w = lt_wf.apply x in
    let s = scale_loop-Scaled 30 x 0 w (omega arith) in
    (
      rw
          (
            le→leb x max_floating_point_byte (omega arith),
            loops_agree 30 x x 0 w w refl (omega arith) (omega arith) h,
            results_agree (scale_loop x 0 w) (omega (arith, s.rounds)),
          )
          refl,
      (==_iff _ _).0 (all_below_sound 256 _ b fb2int_table (omega arith)),
    )
