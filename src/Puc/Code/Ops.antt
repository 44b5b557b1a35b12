-- ===== src/Puc/Code/Ops.antt =====
-- lua-5.1/src/lcode.c: the operators, with constant folding.
use zua.Prelude.{ℕ, Bool, true, false, not, ◌&&◌, ◌||◌, Option, none, some, ltb, if◌then◌else◌}
use zua.Puc.Word.{setarg_b}
use zua.Puc.Opmodes.{
  OpCode, op_add, op_sub, op_mul, op_div, op_mod, op_pow, op_unm, op_len, op_concat, op_eq, op_lt,
  op_le,
}
use zua.Puc.Checker.{is_op}
use zua.Puc.Code.State.{
  Gen, ◌>>=◌, ◌>>◌, pure, getcode, set_operand, same_position, Numbers, luai_nummod, luai_numisnan,
  ExpDesc, vknum, vindexed, vjmp, vrelocable, BinOpr, opr_add, opr_sub, opr_mul, opr_div, opr_mod,
  opr_pow, opr_concat, opr_ne, opr_eq, opr_lt, opr_le, opr_gt, opr_ge, opr_and, opr_or,
  opr_nobinopr, UnOpr, opr_minus, opr_not, opr_len, opr_nounopr,
}
use zua.Puc.Code.Jumps.{luak_concat}
use zua.Puc.Code.Emit.{luak_codeabc, condjump, freeexp}
use zua.Puc.Code.Exps.{
  luak_dischargevars, luak_exp2nextreg, luak_exp2anyreg, luak_exp2val, luak_exp2rk,
}
use zua.Puc.Code.Conds.{luak_goiftrue, luak_goiffalse, codenot}

unfoldable pub isnumeral : ExpDesc → Bool
isnumeral e = elim e.k [ vknum ↦ same_position e.t none && same_position e.f none | _ ↦ false ]

module _ (num : Numbers) where
  unfoldable pub luak_indexed : ExpDesc → ExpDesc → Gen ExpDesc
  luak_indexed t k = do (_, aux) ← luak_exp2rk num k; pure (record t { aux = aux; k = vindexed })

  -- The switch of constfolding; 0 is the pattern of the number 0.
  unfoldable pub fold_numbers : OpCode → ℕ → ℕ → Option ℕ
  fold_numbers op v1 v2 = elim op [
    | op_add ↦ some (num.add v1 v2)
    | op_sub ↦ some (num.sub v1 v2)
    | op_mul ↦ some (num.mul v1 v2)
    | op_div ↦ if num.eq v2 0 then none else some (num.div v1 v2)
    | op_mod ↦ if num.eq v2 0 then none else some (luai_nummod num v1 v2)
    | op_pow ↦ some (num.pow v1 v2)
    | op_unm ↦ some (num.neg v1)
    | op_len ↦ none
    | _ ↦ some 0
  ]

  -- The new `e1`, or `none` for `return 0`.
  unfoldable pub constfolding : OpCode → ExpDesc → ExpDesc → Option ExpDesc
  constfolding op e1 e2 =
      if not (isnumeral e1) || not (isnumeral e2)
      then none
      else elim (fold_numbers op e1.nval e2.nval) [
        | none ↦ none
        | some r ↦ if luai_numisnan num r then none else some (record e1 { nval = r })
      ]

  -- `op != OP_UNM && op != OP_LEN`
  abbrev is_binary : OpCode → Bool
  is_binary op_unm = false
  is_binary op_len = false
  is_binary _ = true

  -- codearith when the operands cannot be folded.
  unfoldable pub code_operation : OpCode → ExpDesc → ExpDesc → Gen ExpDesc
  code_operation op e1 e2 = do
    (e2, o2) ← (if is_binary op then luak_exp2rk num e2 else pure (e2, 0))
    (e1, o1) ← luak_exp2rk num e1
    if ltb o2 o1 then (do freeexp e1; freeexp e2) else (do freeexp e2; freeexp e1)
    i ← luak_codeabc op 0 o1 o2
    pure (record e1 { info = i; k = vrelocable })

  unfoldable pub codearith : OpCode → ExpDesc → ExpDesc → Gen ExpDesc
  codearith op e1 e2 = elim (constfolding op e1 e2) [
    | some e ↦ pure e
    | none ↦ code_operation op e1 e2
  ]

  -- `cond == 0 && op != OP_EQ`
  abbrev exchanged : OpCode → Bool → Bool
  exchanged op_eq cond = false
  exchanged _ cond = not cond

  unfoldable pub codecomp : OpCode → Bool → ExpDesc → ExpDesc → Gen ExpDesc
  codecomp op cond e1 e2 = do
    (e1, o1) ← luak_exp2rk num e1
    (e2, o2) ← luak_exp2rk num e2
    freeexp e2
    freeexp e1
    j ←
        (if exchanged op cond
          then condjump op 1 o2 o1
          else condjump op (elim cond [ true ↦ 1 | false ↦ 0 ]) o1 o2)
    pure (record e1 { info = j; k = vjmp })

  -- The second operand of a unary operation.
  abbrev no_operand : ExpDesc
  no_operand = record { k = vknum; info = 0; aux = 0; nval = 0; t = none; f = none }

  unfoldable pub luak_prefix : UnOpr → ExpDesc → Gen ExpDesc
  luak_prefix opr_minus e = do
    e ← (if isnumeral e then pure e else (do (e, _) ← luak_exp2anyreg num e; pure e))
    codearith op_unm e no_operand
  luak_prefix opr_not e = codenot num e
  luak_prefix opr_len e = do (e, _) ← luak_exp2anyreg num e; codearith op_len e no_operand
  luak_prefix opr_nounopr e = pure e

  -- The first operand of a comparison, or of arithmetic when it is not a numeral.
  abbrev operand : ExpDesc → Gen ExpDesc
  operand v = do (v, _) ← luak_exp2rk num v; pure v

  abbrev arith_operand : ExpDesc → Gen ExpDesc
  arith_operand v = if isnumeral v then pure v else operand v

  unfoldable pub luak_infix : BinOpr → ExpDesc → Gen ExpDesc
  luak_infix opr_and v = luak_goiftrue num v
  luak_infix opr_or v = luak_goiffalse num v
  luak_infix opr_concat v = luak_exp2nextreg num v
  luak_infix opr_add v = arith_operand v
  luak_infix opr_sub v = arith_operand v
  luak_infix opr_mul v = arith_operand v
  luak_infix opr_div v = arith_operand v
  luak_infix opr_mod v = arith_operand v
  luak_infix opr_pow v = arith_operand v
  luak_infix _ v = operand v

  -- `a .. (b .. c)` is one instruction.
  unfoldable pub code_concat : ExpDesc → ExpDesc → Gen ExpDesc
  code_concat e1 e2 = do e2 ← luak_exp2nextreg num e2; codearith op_concat e1 e2

  unfoldable pub extend_concat : ExpDesc → ExpDesc → Gen ExpDesc
  extend_concat e1 e2 = do
    i ← getcode e2
    if is_op op_concat i
        then (do
          freeexp e1
          set_operand setarg_b e2.info e1.info
          pure (record e1 { k = vrelocable; info = e2.info }))
        else code_concat e1 e2

  unfoldable pub join_concat : ExpDesc → ExpDesc → Gen ExpDesc
  join_concat e1 e2 = elim e2.k [ vrelocable ↦ extend_concat e1 e2 | _ ↦ code_concat e1 e2 ]

  -- The new `e1`.
  unfoldable pub luak_posfix : BinOpr → ExpDesc → ExpDesc → Gen ExpDesc
  luak_posfix opr_and e1 e2 = do
    e2 ← luak_dischargevars e2
    f ← luak_concat e2.f e1.f
    pure (record e2 { f = f })
  luak_posfix opr_or e1 e2 = do
    e2 ← luak_dischargevars e2
    t ← luak_concat e2.t e1.t
    pure (record e2 { t = t })
  luak_posfix opr_concat e1 e2 = do e2 ← luak_exp2val num e2; join_concat e1 e2
  luak_posfix opr_add e1 e2 = codearith op_add e1 e2
  luak_posfix opr_sub e1 e2 = codearith op_sub e1 e2
  luak_posfix opr_mul e1 e2 = codearith op_mul e1 e2
  luak_posfix opr_div e1 e2 = codearith op_div e1 e2
  luak_posfix opr_mod e1 e2 = codearith op_mod e1 e2
  luak_posfix opr_pow e1 e2 = codearith op_pow e1 e2
  luak_posfix opr_eq e1 e2 = codecomp op_eq true e1 e2
  luak_posfix opr_ne e1 e2 = codecomp op_eq false e1 e2
  luak_posfix opr_lt e1 e2 = codecomp op_lt true e1 e2
  luak_posfix opr_le e1 e2 = codecomp op_le true e1 e2
  luak_posfix opr_gt e1 e2 = codecomp op_lt false e1 e2
  luak_posfix opr_ge e1 e2 = codecomp op_le false e1 e2
  luak_posfix opr_nobinopr e1 e2 = pure e1
