-- ===== src/Puc/Code/Keeps/Consts.antt =====
-- The constants of lua-5.1/src/lcode.c: addk keeps a FuncState sound, and numbers the constant asked for.
use zua.Prelude.{
  ℕ, ◌+◌, ◌<◌, ◌≡◌, refl, Bool, true, false, List, [], ◌∷◌, none, some, length, get_elem?, All,
  arith, leb, ◌∙◌, ◌⊎◌, inl, inr, Bool-cases, Option-cases,
}
use zua.Puc.Word.{maxarg_bx}
use zua.Puc.Chunk.{TValue, TString, nil, boolean, number, string}
use zua.Puc.Chunk.Bytes.{same_bytes_refl}
use zua.Puc.Chunk.Dump.{same_string}
use zua.Puc.Code.State.{FuncState, Numbers, ConstantKey, value_of, value_key, table_key, write}
use zua.Puc.Code.Consts.{
  same_key, addk, find_constant, luak_stringk, luak_numberk, boolk, nilk, is_nan_key,
}
use zua.Puc.Code.Keeps.{
  IsSound, Step, Step-refl, Post, Post-weaken, returns, raises, Post-if, Keeps,
}
use zua.Puc.Code.Keeps.Words.{
  length-write, get_elem?-write, get_elem?-write_last, found_below, some-injective,
}

numbers-write :
    (h : List (ConstantKey × ℕ)) (k : List TValue) (n : ℕ) (v : TValue)
    → n ≡ length k
    → All (λ (entry : ConstantKey × ℕ). get_elem? k entry.1 ≡ some (value_of entry.0)) h
    → All (λ (entry : ConstantKey × ℕ). get_elem? (write k n v) entry.1 ≡ some (value_of entry.0)) h
numbers-write [] k n v e p = tt
numbers-write ((key, m) ∷ h) k n v e (p, q) =
    (get_elem?-write k n v m e (found_below k m (value_of key) p) ∙ p, numbers-write h k n v e q)

new_constant-Step :
    (fs : FuncState) (key : ConstantKey)
    → IsSound fs
    → fs.nk < maxarg_bx
    → Step fs
        (record fs { h = (key, fs.nk) ∷ fs.h; k = write fs.k fs.nk (value_of key); nk = fs.nk + 1 })
new_constant-Step fs key h room = record {
  sound = record {
    frame = h.frame;
    stack = h.stack;
    words = h.words;
    position = h.position;
    lines = h.lines;
    size = h.size;
    count = omega (arith, h.count, length-write fs.k fs.nk (value_of key));
    constants = omega (arith, room);
    numbers = (
      get_elem?-write_last fs.k fs.nk (value_of key) h.count,
      numbers-write fs.h fs.k fs.nk (value_of key) h.count h.numbers,
    );
  };
  kept = λ i below. get_elem?-write fs.k fs.nk (value_of key) i h.count below;
  grown = omega (arith, h.count, length-write fs.k fs.nk (value_of key));
  frame = omega arith;
  actives = refl;
}

module _ (num : Numbers) where
  -- The constant that addk numbers is there, under a key that is equal to the given one.
  abbrev pub Numbered : FuncState → ConstantKey → ℕ → FuncState → Type 0
  Numbered fs key n fs' =
      Step fs fs'
      × ((key' : ConstantKey) × (get_elem? fs'.k n ≡ some (value_of key'))
          × (same_key num key' key ≡ true))

  find_constant-Numbered :
      (h : List (ConstantKey × ℕ)) (k : List TValue) (key : ConstantKey) (n : ℕ)
      → All (λ (entry : ConstantKey × ℕ). get_elem? k entry.1 ≡ some (value_of entry.0)) h
      → find_constant num h key ≡ some n
      → (key' : ConstantKey) × (get_elem? k n ≡ some (value_of key'))
        × (same_key num key' key ≡ true)
  unfolding find_constant
  find_constant-Numbered [] k key n p e = cc
  find_constant-Numbered ((key', m) ∷ h) k key n (p, q) e =
      elim (Bool-cases (same_key num key' key)) [
        | inl same ↦ (key', rw (← some-injective (rw same at e)) p, same)
        | inr other ↦ find_constant-Numbered h k key n q (rw other at e)
      ]

  same_key_refl : (key : ConstantKey) → is_nan_key num key ≡ false → same_key num key key ≡ true
  unfolding same_key same_string
  same_key_refl table_key e = refl
  same_key_refl (value_key nil) e = refl
  same_key_refl (value_key (boolean true)) e = refl
  same_key_refl (value_key (boolean false)) e = refl
  same_key_refl (value_key (number r)) e = ground arith
  same_key_refl (value_key (string none)) e = refl
  same_key_refl (value_key (string (some s))) e = same_bytes_refl s

  -- addk for the constant of a key, on a sound state: if it returns, the number is that of a constant in `k` whose
  -- key is equal to the given one, as luaO_rawequalObj compares; the state is sound, and no constant that was there
  -- before has changed. The key itself may be another one: the numbers 0 and -0 are equal.
  pub addk-Numbered :
      (key : ConstantKey) (fs : FuncState)
      → IsSound fs
      → Post (Numbered fs key) (addk num key (value_of key) fs)
  unfolding addk
  addk-Numbered key fs h = by_number (Option-cases (find_constant num fs.h key))
    where
      by_number :
          (find_constant num fs.h key ≡ none) ⊎ ((n : ℕ) × (find_constant num fs.h key ≡ some n))
          → Post (Numbered fs key) (addk num key (value_of key) fs)
      by_number (inr (n, e)) =
          rw (e, addk) (returns (Step-refl h, find_constant-Numbered fs.h fs.k key n h.numbers e))
      by_number (inl e) =
          rw (e, addk)
            (Post-if (is_nan_key num key) (λ _. raises)
              (λ real.
                Post-if (leb maxarg_bx fs.nk) (λ _. raises)
                  (λ room. returns (
                    new_constant-Step fs key h (ground arith),
                    (
                      key,
                      get_elem?-write_last fs.k fs.nk (value_of key) h.count,
                      same_key_refl key real,
                    ),
                  ))))

  addk-Keeps : (key : ConstantKey) → Keeps (addk num key (value_of key))
  addk-Keeps key = record { at = λ fs h. Post-weaken (λ _ _ p. p.0) (addk-Numbered key fs h) }

  pub luak_stringk-Keeps : (s : TString) → Keeps (luak_stringk num s)
  unfolding luak_stringk
  luak_stringk-Keeps s = addk-Keeps _

  pub luak_numberk-Keeps : (r : ℕ) → Keeps (luak_numberk num r)
  unfolding luak_numberk
  luak_numberk-Keeps r = addk-Keeps _

  pub boolk-Keeps : (b : Bool) → Keeps (boolk num b)
  unfolding boolk
  boolk-Keeps b = addk-Keeps _

  pub nilk-Keeps : Keeps (nilk num)
  unfolding nilk
  nilk-Keeps = addk-Keeps _
