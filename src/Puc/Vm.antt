-- ===== src/Puc/Vm.antt =====
-- The arithmetic instructions of lua-5.1/src/lvm.c on numbers.
use zua.Prelude.{ℕ, Option, none, some}
use zua.Puc.Opmodes.{OpCode, op_add, op_sub, op_mul, op_div, op_mod, op_pow, op_unm}
use zua.Puc.Code.State.{Numbers, luai_nummod}

-- What luaV_execute sets RA to when the operands are numbers; OP_UNM has only the first one. `none` is for the
-- instructions that are not arithmetic.
unfoldable pub arith_op : Numbers → OpCode → ℕ → ℕ → Option ℕ
arith_op num op nb nc = elim op [
  | op_add ↦ some (num.add nb nc)
  | op_sub ↦ some (num.sub nb nc)
  | op_mul ↦ some (num.mul nb nc)
  | op_div ↦ some (num.div nb nc)
  | op_mod ↦ some (luai_nummod num nb nc)
  | op_pow ↦ some (num.pow nb nc)
  | op_unm ↦ some (num.neg nb)
  | _ ↦ none
]
