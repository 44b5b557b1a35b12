-- ===== src/Puc/Code/Folding.antt =====
-- Constant folding of lua-5.1/src/lcode.c, against the arithmetic of lua-5.1/src/lvm.c.
use zua.Prelude.{
  ℕ, ◌≡◌, refl, Bool, true, false, not, ◌&&◌, ◌||◌, inl, inr, none, some, if◌then◌else◌, Bool-cases,
}
use zua.Puc.Opmodes.{OpCode, op_add, op_sub, op_mul, op_div, op_mod, op_pow, op_unm}
use zua.Puc.Code.State.{FuncState, done, pure, ExpDesc, Numbers, luai_numisnan}
use zua.Puc.Code.Ops.{isnumeral, fold_numbers, constfolding, code_operation, codearith}
use zua.Puc.Vm.{arith_op}

abbrev pub divides : OpCode → Bool
divides op_div = true
divides op_mod = true
divides _ = false

not_if :
    {A : Type 0} (a : A) (n : Bool)
    → (if n then none else some a) ≡ (if not n then some a else none)
not_if a true = refl
not_if a false = refl

module _ (num : Numbers) where
  abbrev pub folds : OpCode → ExpDesc → ExpDesc → ℕ → Bool
  folds op e1 e2 r =
      isnumeral e1
      && isnumeral e2
      && not (divides op && num.eq e2.nval 0)
      && not (luai_numisnan num r)

  fold_numbers-arith_op :
      (op : OpCode) (v1 v2 r : ℕ)
      → arith_op num op v1 v2 ≡ some r
      → fold_numbers num op v1 v2 ≡ (if divides op && num.eq v2 0 then none else some r)
  unfolding fold_numbers arith_op
  fold_numbers-arith_op op_add v1 v2 r e = e
  fold_numbers-arith_op op_sub v1 v2 r e = e
  fold_numbers-arith_op op_mul v1 v2 r e = e
  fold_numbers-arith_op op_div v1 v2 r e = rw e refl
  fold_numbers-arith_op op_mod v1 v2 r e = rw e refl
  fold_numbers-arith_op op_pow v1 v2 r e = e
  fold_numbers-arith_op op_unm v1 v2 r e = e
  fold_numbers-arith_op _ v1 v2 r e = cc

  constfolding-folds :
      (op : OpCode) (e1 e2 : ExpDesc) (r : ℕ)
      → arith_op num op e1.nval e2.nval ≡ some r
      → constfolding num op e1 e2
        ≡ (if folds op e1 e2 r then some (record e1 { nval = r }) else none)
  unfolding constfolding
  constfolding-folds op e1 e2 r e = rw (fold_numbers-arith_op op e1.nval e2.nval r e) (
      cases (isnumeral e1) (isnumeral e2) (divides op && num.eq e2.nval 0) (luai_numisnan num r)
        refl)
    where
      cases :
          (n1 n2 z n : Bool)
          → luai_numisnan num r ≡ n
          → (if not n1 || not n2 then none else elim (if z then none else some r) [
            | none ↦ none
            | some r ↦ if luai_numisnan num r then none else some (record e1 { nval = r })
          ])
            ≡ (if n1 && n2 && not z && not n then some (record e1 { nval = r }) else none)
      cases true true true n e = refl
      cases true true false n e = rw e (not_if (record e1 { nval = r }) n)
      cases true false z n e = refl
      cases false n2 z n e = refl

  -- codearith, where the machine computes the number `r` from the operands' values: if both operands are numerals without
  -- jumps, `r` is not NaN and nothing is divided by 0, then the numeral `r` is returned, and no state is
  -- changed, so that no instruction is emitted. Otherwise the operation is emitted.
  pub codearith-arith_op :
      (op : OpCode) (e1 e2 : ExpDesc) (fs : FuncState) (r : ℕ)
      → arith_op num op e1.nval e2.nval ≡ some r
      → codearith num op e1 e2 fs ≡ (
          if folds op e1 e2 r
          then done (record e1 { nval = r }) fs
          else code_operation num op e1 e2 fs)
  unfolding codearith pure
  codearith-arith_op op e1 e2 fs r e = elim (Bool-cases (folds op e1 e2 r)) [
    | inl y ↦ rw (constfolding-folds op e1 e2 r e, y, codearith) refl
    | inr n ↦ rw (constfolding-folds op e1 e2 r e, n, codearith) refl
  ]
