-- ===== src/Puc/Parser/Search.antt =====
-- The search for a local variable in searchvar of lua-5.1/src/lparser.c.
use zua.Prelude.{
  ℕ, zero, suc, ◌<◌, ◌≡◌, refl, sym, Bool, true, false, Option, none, some, ◌⊎◌, inl, inr, arith,
  if◌then◌else◌, Bool-cases, ltb, ltb→lt,
}
use mathlib.Core.Path.{subst}
use zua.Puc.Chunk.{TString, LocVar}
use zua.Puc.Chunk.Dump.{same_string}
use zua.Puc.Chunk.Bytes.{same_bytes_refl}
use zua.Puc.Chunk.RoundTrip.{same_string-eq}
use zua.Puc.Parser.State.{Func}
use zua.Puc.Parser.Scope.{getlocvar, searchvar_loop, searchvar}

-- The entry of a variable has the name `n`.
abbrev pub Named : TString → Option LocVar → Type 0
Named n none = ⊥
Named n (some v) = v.varname ≡ some n

-- What a search below index `b` answers: the last variable of that name, none if there is none, and no answer
-- only where a variable has no entry.
abbrev pub Searched : Func → TString → ℕ → Option (Option ℕ) → Type 0
Searched f n b none = (i : ℕ) × (i < b) × (getlocvar f i ≡ none)
Searched f n b (some none) = (i : ℕ) → i < b → ¬ Named n (getlocvar f i)
Searched f n b (some (some v)) =
    (v < b) × Named n (getlocvar f v) × ((i : ℕ) → v < i → i < b → ¬ Named n (getlocvar f i))

same_string_refl : (n : TString) (s : Option TString) → s ≡ some n → same_string (some n) s ≡ true
unfolding same_string
same_string_refl n s e = subst (λ s. same_string (some n) s ≡ true) (sym e) (same_bytes_refl n)

not_both : {b : Bool} → b ≡ true → b ≡ false → ⊥
not_both p q = cc

module _ (f : Func) (n : TString) where
  last_or_below : (i j : ℕ) → j < suc i → (j < i) ⊎ (i ≡ j)
  last_or_below i j lt = elim (Bool-cases (ltb j i)) [
    | inl e ↦ inl (ltb→lt j i e)
    | inr e ↦ inr (ground arith)
  ]

  at_last :
      (i : ℕ)
      → ¬ Named n (getlocvar f i)
      → (j : ℕ) → (j < i → ¬ Named n (getlocvar f j))
      → j < suc i
      → ¬ Named n (getlocvar f j)
  at_last i d j below lt = elim (last_or_below i j lt) [
    | inl p ↦ below p
    | inr p ↦ subst (λ k. ¬ Named n (getlocvar f k)) p d
  ]

  passed-Searched :
      (i : ℕ)
      → ¬ Named n (getlocvar f i)
      → (r : Option (Option ℕ)) → Searched f n i r
      → Searched f n (suc i) r
  passed-Searched i d none (j, lt, q) = (j, omega (arith, lt), q)
  passed-Searched i d (some none) q = λ j lt. at_last i d j (q j) lt
  passed-Searched i d (some (some v)) (lt, named, q) =
      (omega (arith, lt), named, λ j above lt. at_last i d j (q j above) lt)

  -- One round of the loop, where the entry of the variable is `v`.
  round-Searched :
      (i : ℕ) (v : LocVar)
      → getlocvar f i ≡ some v
      → (r : Option (Option ℕ)) → Searched f n i r
      → Searched f n (suc i) (if same_string (some n) v.varname then some (some i) else r)
  round-Searched i v e r q = elim (Bool-cases (same_string (some n) v.varname)) [
    | inl same ↦
        subst (λ b. Searched f n (suc i) (if b then some (some i) else r)) (sym same)
          (
            omega arith,
            subst (Named n) (sym e) (same_string-eq n v.varname same),
            λ j above lt. absurd (omega (arith, above, lt)),
          )
    | inr other ↦
        subst (λ b. Searched f n (suc i) (if b then some (some i) else r)) (sym other)
          (passed-Searched i
            (λ named. not_both (same_string_refl n v.varname (subst (Named n) e named)) other) r q)
  ]

  searchvar_loop-Searched : (b : ℕ) → Searched f n b (searchvar_loop f n b)
  unfolding searchvar_loop
  searchvar_loop-Searched zero = λ i lt. absurd (omega (arith, lt))
  searchvar_loop-Searched (suc i) =
      entry (searchvar_loop f n i) (searchvar_loop-Searched i) (getlocvar f i) refl
    where
      entry :
          (r : Option (Option ℕ))
          → Searched f n i r
          → (o : Option LocVar) → getlocvar f i ≡ o
          → Searched f n (suc i) (elim o [
            | none ↦ none
            | some v ↦ if same_string (some n) v.varname then some (some i) else r
          ])
      entry r q none e = (i, omega arith, e)
      entry r q (some v) e = round-Searched i v e r q

-- searchvar finds the innermost variable of a name: the index that it returns is that of an active variable
-- with the name, and no active variable behind it has the name. If it returns -1, no active variable
-- has the name. It strays only where an active variable has no entry in `locvars`.
pub searchvar-Searched : (f : Func) (n : TString) → Searched f n f.gen.nactvar (searchvar f n)
unfolding searchvar
searchvar-Searched f n = searchvar_loop-Searched f n f.gen.nactvar
