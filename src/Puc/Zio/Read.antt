-- ===== src/Puc/Zio/Read.antt =====
-- luaZ_read against the content of the stream.
use zua.Prelude.{
  ℕ, zero, suc, ◌+◌, ◌-◌, ◌≤◌, ◌<◌, ◌≡◌, refl, sym, ap, ◌∙◌, List, [], ◌∷◌, ◌++◌, append_assoc,
  append-nil, Option, none, some, length, take, drop, leb, if◌then◌else◌, length-append,
  length-drop, take-append-drop, arith,
}
use zua.Puc.Zio.{Zio, read_loop, luaz_read}
use zua.Puc.Zio.Content.{IsValid, content, Looked, found, ended, luaz_lookahead-Looked, stream}

-- What reading `n` bytes off `z` gives, after the bytes `b`: as many as there are, the count of those
-- missing, and, if none is missing, a valid stream of what is left.
pub data Delivered (z : Zio) (b : List ℕ) (n : ℕ) : Option (List ℕ × ℕ × Zio) → Type 0 where
  all :
      {bs : List ℕ} {missing : ℕ} {z' : Zio}
      → n ≤ length (content z)
      → bs ≡ b ++ take n (content z)
      → missing ≡ 0
      → IsValid z'
      → content z' ≡ drop n (content z)
      → Delivered z b n (some (bs, missing, z'))
  short :
      {bs : List ℕ} {missing : ℕ} {z' : Zio}
      → length (content z) < n
      → bs ≡ b ++ content z
      → missing ≡ n - length (content z)
      → Delivered z b n (some (bs, missing, z'))

module _ {ℓ} {A : Type ℓ} where
  take-nil : (n : ℕ) → take {A = A} n [] ≡ []
  take-nil zero = refl
  take-nil (suc n) = refl

  drop-nil : (n : ℕ) → drop {A = A} n [] ≡ []
  drop-nil zero = refl
  drop-nil (suc n) = refl

  take-append_le : (n : ℕ) (xs ys : List A) → n ≤ length xs → take n (xs ++ ys) ≡ take n xs
  take-append_le zero xs ys h = refl
  take-append_le (suc n) [] ys h = absurd (omega arith)
  take-append_le (suc n) (x ∷ xs) ys h = ap (λ t. x ∷ t) (take-append_le n xs ys (omega arith))

  drop-append_le : (n : ℕ) (xs ys : List A) → n ≤ length xs → drop n (xs ++ ys) ≡ drop n xs ++ ys
  drop-append_le zero xs ys h = refl
  drop-append_le (suc n) [] ys h = absurd (omega arith)
  drop-append_le (suc n) (x ∷ xs) ys h = drop-append_le n xs ys (omega arith)

  take-append_take-drop :
      (m k n : ℕ) (xs : List A) → m + k ≡ n → take m xs ++ take k (drop m xs) ≡ take n xs
  take-append_take-drop zero k n xs h = ap (λ t. take t xs) (omega arith)
  take-append_take-drop (suc m) k zero xs h = absurd (omega arith)
  take-append_take-drop (suc m) k (suc n) [] h = take-nil k
  take-append_take-drop (suc m) k (suc n) (x ∷ xs) h =
      ap (λ t. x ∷ t) (take-append_take-drop m k n xs (omega arith))

  drop-drop : (m k n : ℕ) (xs : List A) → m + k ≡ n → drop k (drop m xs) ≡ drop n xs
  drop-drop zero k n xs h = ap (λ t. drop t xs) (omega arith)
  drop-drop (suc m) k zero xs h = absurd (omega arith)
  drop-drop (suc m) k (suc n) [] h = drop-nil k
  drop-drop (suc m) k (suc n) (x ∷ xs) h = drop-drop m k n xs (omega arith)

-- Reading `m` bytes, and then `k` more off the stream that is left, is reading all of them.
advance :
    (z z' : Zio) (b : List ℕ) (m k n : ℕ) {r : Option (List ℕ × ℕ × Zio)}
    → m + k ≡ n
    → m ≤ length (content z)
    → content z' ≡ drop m (content z)
    → Delivered z' (b ++ take m (content z)) k r
    → Delivered z b n r
advance z z' b m k n s fits e (all h eb em v ec) =
    let c = content z in
    all (omega (arith, ap length e, length-drop m c))
      (eb
        ∙ append_assoc b _ _
        ∙ ap (λ t. b ++ t) (ap (λ t. take m c ++ take k t) e ∙ take-append_take-drop m k n c s))
      em v (ec ∙ ap (drop k) e ∙ drop-drop m k n c s)
advance z z' b m k n s fits e (short h eb em) =
    let c = content z in
    short (omega (arith, ap length e, length-drop m c))
      (eb
        ∙ append_assoc b _ _
        ∙ ap (λ t. b ++ t) (ap (λ t. take m c ++ t) e ∙ take-append-drop m c))
      (omega (arith, em, ap length e, length-drop m c))

Ih : ℕ → Type 0
Ih fuel =
    (z : Zio) (b : List ℕ) (n : ℕ) → n ≤ fuel → IsValid z → Delivered z b n (read_loop fuel z b n)

read_on :
    (fuel : ℕ) (z : Zio) (b : List ℕ) (n : ℕ) {r : Option ℕ × Zio}
    → n ≤ fuel
    → Ih fuel
    → Looked z r
    → Delivered z b (suc n) (elim r.0 [
      | none ↦ some (b, suc n, r.1)
      | some _ ↦
          let m = if leb (suc n) r.1.n then suc n else r.1.n in
          read_loop fuel
            (record (r.1) { n = r.1.n - m; p = drop m r.1.p })
            (b ++ take m r.1.p)
            (suc n - m)
    ])
unfolding Ih
read_on fuel z b n h ih (ended e) =
    short (omega (arith, ap length e)) (sym (append-nil b) ∙ ap (λ t. b ++ t) (sym e))
      (omega (arith, ap length e))
read_on fuel z b n h ih (found {c} {z'} v e q) =
    copy (if leb (suc n) z'.n then suc n else z'.n) (ground (arith, ap length e, v.counted))
      (ground arith) (ground (arith, ap length e, v.counted))
  where
    copy :
        (m : ℕ)
        → 0 < m
        → m ≤ suc n
        → m ≤ length z'.p
        → Delivered z b (suc n) (
            read_loop fuel
              (record z' { n = z'.n - m; p = drop m z'.p })
              (b ++ take m z'.p)
              (suc n - m))
    copy m pos small fits =
        let tail = stream z'.answers in
        let front : take m z'.p ≡ take m (content z) =
          sym (take-append_le m z'.p tail fits) ∙ ap (take m) q in
        let left : drop m z'.p ++ tail ≡ drop m (content z) =
          sym (drop-append_le m z'.p tail fits) ∙ ap (drop m) q in
        rw front (
          advance z _ b m (suc n - m) (suc n) (omega arith)
            (omega (arith, ap length q, length-append z'.p tail)) left
            (ih _ _ (suc n - m) (omega arith) (record {
              counted = omega (arith, v.counted, length-drop m z'.p);
              sized = omega (arith, v.sized, length-drop m z'.p);
              answers_sized = v.answers_sized;
            })))

read_loop-Delivered :
    (fuel : ℕ) (z : Zio) (b : List ℕ) (n : ℕ)
    → n ≤ fuel
    → IsValid z
    → Delivered z b n (read_loop fuel z b n)
unfolding read_loop Ih
read_loop-Delivered fuel z b zero h v = all (omega arith) (sym (append-nil b)) refl v refl
read_loop-Delivered zero z b (suc n) h v = absurd (omega arith)
read_loop-Delivered (suc fuel) z b (suc n) h v =
    read_on fuel z b n (omega arith) (read_loop-Delivered fuel) (luaz_lookahead-Looked z v)

-- On a valid stream luaZ_read does not run out of rounds: it copies the first `n` bytes of the content,
-- returns 0 and leaves a valid stream of the rest; if the content is shorter, it copies all of it and
-- returns the number of bytes that are missing.
pub luaz_read-Delivered : (z : Zio) (n : ℕ) → IsValid z → Delivered z [] n (luaz_read z n)
unfolding luaz_read
luaz_read-Delivered z n v = read_loop-Delivered n z [] n (omega arith) v
