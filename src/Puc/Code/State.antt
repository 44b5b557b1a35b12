-- ===== src/Puc/Code/State.antt =====
-- What lua-5.1/src/lparser.h and lcode.h declare for the code generator: expression descriptors, the
-- operators, and the parts of a FuncState and its Proto that lua-5.1/src/lcode.c uses. An `int` that is
-- -1 (NO_JUMP, LUA_MULTRET, the first `lasttarget`) is `none`.
use zua.Prelude.{
  ℕ, zero, suc, Bool, true, false, not, List, [], ◌∷◌, Option, none, some, ltb, ◌==◌, if◌then◌else◌,
  length, set,
}
use zua.Puc.Chunk.{TValue, nil}

-- expkind
pub data ExpKind : Type 0 where
  vvoid vnil vtrue vfalse vk vknum vlocal vupval vglobal vindexed : ExpKind
  vjmp vrelocable vnonreloc vcall vvararg : ExpKind

-- The members of the union `u` are the fields info, aux and nval; `k` says which of them are meant.
pub record ExpDesc : Type 0 where
  pub k : ExpKind
  pub info : ℕ
  pub aux : ℕ
  pub nval : ℕ
  pub t : Option ℕ
  pub f : Option ℕ

pub data BinOpr : Type 0 where
  opr_add opr_sub opr_mul opr_div opr_mod opr_pow opr_concat opr_ne opr_eq : BinOpr
  opr_lt opr_le opr_gt opr_ge opr_and opr_or opr_nobinopr : BinOpr

pub data UnOpr : Type 0 where
  opr_minus opr_not opr_len opr_nounopr : UnOpr

-- A key of the table of constants: a value, or the table itself, which stands for nil.
pub data ConstantKey : Type 0 where
  value_key : TValue → ConstantKey
  table_key : ConstantKey

-- The constant that an entry of the table numbers.
abbrev pub value_of : ConstantKey → TValue
value_of (value_key v) = v
value_of table_key = nil

-- `f->code`, `f->lineinfo` and `f->k` up to what was written; `h`, the table of the constants' numbers, newest
-- first; and `ls->lastline`.
pub record FuncState : Type 0 where
  pub code : List ℕ
  pub lineinfo : List ℕ
  pub k : List TValue
  pub maxstacksize : ℕ
  pub h : List (ConstantKey × ℕ)
  pub pc : ℕ
  pub lasttarget : Option ℕ
  pub jpc : Option ℕ
  pub freereg : ℕ
  pub nk : ℕ
  pub nactvar : ℕ
  pub lastline : ℕ

-- "control structure too long", "function or expression too complex", the two overflows of a vector, and
-- "table index is NaN".
pub data Error : Type 0 where
  too_long too_complex code_overflow constant_overflow index_nan : Error

-- `error` is a raised error, with which the function's state is dropped. `stray` is an access to an array
-- outside of what was written, or a register or a position below 0. `cyclic` is a walk along a list of jumps
-- that takes more rounds than there are instructions, so that it comes to one of them again or leaves them.
pub data Run (A : Type 0) : Type 0 where
  done : A → FuncState → Run A
  error : Error → Run A
  stray : Run A
  cyclic : Run A

abbrev pub Gen : Type 0 → Type 0
Gen A = FuncState → Run A

module _ {A : Type 0} where
  unfoldable pub pure : A → Gen A
  pure a fs = done a fs

  unfoldable pub raise : Error → Gen A
  raise e fs = error e

  unfoldable pub lost : Gen A
  lost fs = stray

  unfoldable pub circle : Gen A
  circle fs = cyclic

unfoldable pub get : Gen FuncState
get fs = done fs fs

module _ {A B : Type 0} where
  abbrev pub continue : Run A → (A → Gen B) → Run B
  continue (done a fs) g = g a fs
  continue (error e) g = error e
  continue stray g = stray
  continue cyclic g = cyclic

  infixl 1 ◌>>=◌ ◌>>◌
  -- Opening this opens `pure`, `raise`, `lost`, `circle` and `get` too.
  unfoldable pub ◌>>=◌ : Gen A → (A → Gen B) → Gen B
  unfolding pure raise lost circle get
  ◌>>=◌ m g fs = continue (m fs) g

  abbrev pub ◌>>◌ : Gen A → Gen B → Gen B
  m >> g = m >>= λ _. g

-- An assignment to fields of `fs`.
unfoldable pub modify : (FuncState → FuncState) → Gen (Unit {0})
modify f fs = done tt (f fs)

-- A value that may lie outside of what is modelled.
unfoldable pub within : {A : Type 0} → Option A → Gen A
within none = lost
within (some a) = pure a

-- `array[i]`, as far as the array was written.
unfoldable pub read : List ℕ → ℕ → Gen ℕ
read [] i = lost
read (x ∷ xs) zero = pure x
read (x ∷ xs) (suc i) = read xs i

-- `array[i] = v`: inside of what was written, or right behind it.
unfoldable pub write {ℓ} : {A : Type ℓ} → List A → ℕ → A → List A
write [] i v = v ∷ []
write (x ∷ xs) zero v = v ∷ xs
write (x ∷ xs) (suc i) v = x ∷ write xs i v

unfoldable pub code_at : ℕ → Gen ℕ
unfolding read
code_at i fs = read fs.code i fs

-- `f->code[i] = v` for an instruction that was written before.
unfoldable pub set_code : ℕ → ℕ → Gen (Unit {0})
set_code i v fs =
    if ltb i (length fs.code) then done tt (record fs { code = set fs.code i v }) else stray

abbrev pub getcode : ExpDesc → Gen ℕ
getcode e = code_at e.info

-- `SETARG_X(f->code[i], u)` for the macro `setarg`.
unfoldable pub set_operand : (ℕ → ℕ → ℕ) → ℕ → ℕ → Gen (Unit {0})
unfolding code_at set_code
set_operand setarg i u = do instruction ← code_at i; set_code i (setarg instruction u)

-- `a == b` on positions that may be NO_JUMP.
abbrev pub same_position : Option ℕ → Option ℕ → Bool
same_position none none = true
same_position (some a) (some b) = a == b
same_position _ _ = false

abbrev pub hasjumps : ExpDesc → Bool
hasjumps e = not (same_position e.t e.f)

-- The arithmetic of lua_Number on its 64-bit patterns, which is the C compiler's.
pub record Numbers : Type 0 where
  pub add : ℕ → ℕ → ℕ
  pub sub : ℕ → ℕ → ℕ
  pub mul : ℕ → ℕ → ℕ
  pub div : ℕ → ℕ → ℕ
  pub pow : ℕ → ℕ → ℕ
  pub neg : ℕ → ℕ
  pub floor : ℕ → ℕ
  pub eq : ℕ → ℕ → Bool

-- luai_nummod and luai_numisnan.
abbrev pub luai_nummod : Numbers → ℕ → ℕ → ℕ
luai_nummod num a b = num.sub a (num.mul (num.floor (num.div a b)) b)

abbrev pub luai_numisnan : Numbers → ℕ → Bool
luai_numisnan num a = not (num.eq a a)
