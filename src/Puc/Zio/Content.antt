-- ===== src/Puc/Zio/Content.antt =====
-- What a stream still has to give: the rest of the block, and the blocks that the reader will answer
-- up to the first NULL or empty one.
use zua.Prelude.{
  ℕ, ◌^◌, ◌<◌, ◌≡◌, refl, ap, List, [], ◌∷◌, ◌++◌, Option, none, some, length, All, arith, ◌∙◌,
  true, false, ◌==◌, if◌then◌else◌,
}
use zua.Puc.Zio.{Zio, luaz_fill_from, luaz_fill, luaz_lookahead, put_back, head_byte}

abbrev pub stream : List (Option (List ℕ)) → List ℕ
stream [] = []
stream (none ∷ rest) = []
stream (some [] ∷ rest) = []
stream (some (b ∷ bs) ∷ rest) = (b ∷ bs) ++ stream rest

-- The size of a block is a `size_t`.
abbrev pub IsAnswer : Option (List ℕ) → Type 0
IsAnswer none = Unit
IsAnswer (some bs) = length bs < 2 ^ 64

pub record IsValid (z : Zio) : Type 0 where
  pub counted : z.n ≡ length z.p
  pub sized : length z.p < 2 ^ 64
  pub answers_sized : All IsAnswer z.answers

abbrev pub content : Zio → List ℕ
content z = z.p ++ stream z.answers

-- The outcome of looking at the next byte: it is the first of the content, in the block at hand, and
-- the content is left as it was; or there is no content.
pub data Looked (z : Zio) : Option ℕ × Zio → Type 0 where
  found :
      {c : ℕ} {z' : Zio} {rest : List ℕ}
      → IsValid z'
      → z'.p ≡ c ∷ rest
      → content z' ≡ content z
      → Looked z (some c, z')
  ended : {z' : Zio} → content z ≡ [] → Looked z (none, z')

filled :
    (answers : List (Option (List ℕ))) (z : Zio)
    → All IsAnswer answers
    → z.p ≡ []
    → z.answers ≡ answers
    → Looked z (put_back (luaz_fill_from answers z))
unfolding luaz_fill_from put_back
filled [] z h e q = ended (rw (e, q))
filled (none ∷ rest) z h e q = ended (rw (e, q))
filled (some [] ∷ rest) z h e q = ended (rw (e, q))
filled (some (b ∷ bs) ∷ rest) z (h, hs) e q =
    found (record { counted = omega arith; sized = h; answers_sized = hs }) refl (rw (e, q) refl)

-- Looking at the next byte of a valid stream: it is the first byte of the content, which stays as it
-- is, or there is no content.
pub luaz_lookahead-Looked : (z : Zio) → IsValid z → Looked z (luaz_lookahead z)
unfolding luaz_lookahead luaz_fill
luaz_lookahead-Looked z v = look z.p refl
  where
    look :
        (p : List ℕ)
        → z.p ≡ p
        → Looked z (if z.n == 0 then put_back (luaz_fill_from z.answers z) else (head_byte z.p, z))
    look [] e =
        let none_left : (z.n == 0) ≡ true = ground (arith, v.counted ∙ ap length e) in
        rw none_left (filled z.answers z v.answers_sized e refl)
    look (b ∷ bs) e =
        let some_left : (z.n == 0) ≡ false = ground (arith, v.counted ∙ ap length e) in
        let first : head_byte z.p ≡ some b = ap head_byte e in
        rw (some_left, first) (found v e refl)
