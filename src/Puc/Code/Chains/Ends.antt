-- ===== src/Puc/Code/Chains/Ends.antt =====
-- A list of jumps of lua-5.1/src/lcode.c that ends has no jump twice, since each links to one only.
use mathlib.Core.Path.{subst}
use zua.Prelude.{
  ℕ, suc, ◌<◌, ◌≡◌, ◌≢◌, refl, sym, ap, ◌∙◌, List, [], ◌∷◌, Option, some, length, All, arith,
}
use zua.Puc.Word.{getarg_sbx}
use zua.Puc.Code.Jumps.{jump_target}
use zua.Puc.Code.Keeps.Words.{some-injective}
use zua.Puc.Code.Chains.{Links, Chain}
use zua.Puc.Code.Chains.Distinct.{Distinct}

Links-eq : (code : List ℕ) (p : ℕ) (a b : Option ℕ) → Links code p a → Links code p b → a ≡ b
Links-eq code p a b (v, found, _, j) (w, found', _, j') =
    let same : v ≡ w = some-injective (sym found ∙ found') in
    some-injective (sym j ∙ ap (λ x. jump_target p (getarg_sbx x)) same ∙ j')

Chain-eq :
    (code : List ℕ) (list : Option ℕ) (ps qs : List ℕ)
    → Chain code list ps
    → Chain code list qs
    → length ps ≡ length qs
Chain-eq code list [] [] c d = refl
Chain-eq code list [] (q ∷ qs) c (e, _) = cc
Chain-eq code list (p ∷ ps) [] (e, _) d = cc
Chain-eq code list (p ∷ ps) (q ∷ qs) (e, (a, l, c)) (e', (b, l', d)) =
    let same : q ≡ p = some-injective (sym e' ∙ e) in
    let next : b ≡ a = Links-eq code p b a (subst (λ x. Links code x b) same l') l in
    ap suc (Chain-eq code a ps qs c (subst (λ x. Chain code x qs) next d))

-- A position whose own list is longer is not in the list.
Chain-All :
    (code : List ℕ) (q : ℕ) (list : Option ℕ) (ps : List ℕ)
    → Chain code list ps
    → ((qs : List ℕ) → Chain code (some q) qs → length ps < length qs)
    → All (λ p. q ≢ p) ps
Chain-All code q list [] c longer = tt
Chain-All code q list (p ∷ ps) (e, (next, l, c)) longer = (
  λ same. absurd (shorter (longer (p ∷ ps) (ap some same, (next, l, c)))),
  Chain-All code q next ps c (λ qs d. shorten (longer qs d)),
)
  where
    shorter : length (p ∷ ps) < length (p ∷ ps) → ⊥
    shorter lt = omega (arith, lt)

    shorten : {n : ℕ} → length (p ∷ ps) < n → length ps < n
    shorten lt = omega (arith, lt)

pub Chain-Distinct :
    (code : List ℕ) (list : Option ℕ) (ps : List ℕ) → Chain code list ps → Distinct ps
Chain-Distinct code list [] c = tt
Chain-Distinct code list (p ∷ ps) (e, (next, l, c)) = (
  Chain-All code p next ps c
      (λ qs d. longer (Chain-eq code (some p) (p ∷ ps) qs (refl, (next, l, c)) d)),
  Chain-Distinct code next ps c,
)
  where
    longer : {n : ℕ} → length (p ∷ ps) ≡ n → length ps < n
    longer e = omega (arith, e)
