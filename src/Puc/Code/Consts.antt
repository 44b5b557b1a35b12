-- ===== src/Puc/Code/Consts.antt =====
-- lua-5.1/src/lcode.c: the constants of a function. The table `h` is read and written as by luaH_set.
use zua.Prelude.{
  ℕ, ◌+◌, Bool, true, false, not, List, [], ◌∷◌, Option, none, some, leb, if◌then◌else◌,
}
use zua.Puc.Word.{maxarg_bx}
use zua.Puc.Chunk.{TValue, nil, boolean, number, string, TString}
use zua.Puc.Chunk.Dump.{same_string}
use zua.Puc.Code.State.{
  Gen, done, error, write, ConstantKey, value_key, table_key, Numbers, luai_numisnan,
  constant_overflow, index_nan,
}

abbrev same_boolean : Bool → Bool → Bool
same_boolean true b = b
same_boolean false b = not b

module _ (num : Numbers) where
  -- Equality of keys, which is luaO_rawequalObj on the values.
  unfoldable pub same_key : ConstantKey → ConstantKey → Bool
  unfolding same_string
  same_key table_key table_key = true
  same_key (value_key nil) (value_key nil) = true
  same_key (value_key (boolean b)) (value_key (boolean c)) = same_boolean b c
  same_key (value_key (number r)) (value_key (number s)) = num.eq r s
  same_key (value_key (string s)) (value_key (string t)) = same_string s t
  same_key _ _ = false

  unfoldable pub find_constant : List (ConstantKey × ℕ) → ConstantKey → Option ℕ
  find_constant [] key = none
  find_constant ((key', n) ∷ h) key =
      let rest = find_constant h key in if same_key key' key then some n else rest

  abbrev pub is_nan_key : ConstantKey → Bool
  is_nan_key (value_key (number r)) = luai_numisnan num r
  is_nan_key _ = false

  -- A vector of MAXARG_Bx constants does not grow.
  unfoldable pub addk : ConstantKey → TValue → Gen ℕ
  unfolding find_constant
  addk key v fs = elim (find_constant fs.h key) [
    | some n ↦ done n fs
    | none ↦
        if is_nan_key key
        then error index_nan
        else if leb maxarg_bx fs.nk
        then error constant_overflow
        else done fs.nk
            (record fs { h = (key, fs.nk) ∷ fs.h; k = write fs.k fs.nk v; nk = fs.nk + 1 })
  ]

  unfoldable pub luak_stringk : TString → Gen ℕ
  luak_stringk s = addk (value_key (string (some s))) (string (some s))

  unfoldable pub luak_numberk : ℕ → Gen ℕ
  luak_numberk r = addk (value_key (number r)) (number r)

  unfoldable pub boolk : Bool → Gen ℕ
  boolk b = addk (value_key (boolean b)) (boolean b)

  -- nil cannot be a key; the table stands for it.
  unfoldable pub nilk : Gen ℕ
  nilk = addk table_key nil
