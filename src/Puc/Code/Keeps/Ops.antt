-- ===== src/Puc/Code/Keeps/Ops.antt =====
-- Conditions and operators of lua-5.1/src/lcode.c keep a FuncState sound.
use zua.Prelude.{◌-◌, Bool, true, false, Option, none, some, arith}
use zua.Puc.Opmodes.{OpCode, op_add, op_sub, op_mul, op_div, op_mod, op_pow, op_eq, op_lt, op_le}
use zua.Puc.Code.State.{
  modify, pure, ExpDesc, ExpKind, Numbers, vnil, vtrue, vfalse, vk, vknum, vjmp, vrelocable,
  vnonreloc, BinOpr, opr_add, opr_sub, opr_mul, opr_div, opr_mod, opr_pow, opr_concat, opr_ne,
  opr_eq, opr_lt, opr_le, opr_gt, opr_ge, opr_and, opr_or, opr_nobinopr, UnOpr, opr_minus, opr_not,
  opr_len, opr_nounopr,
}
use zua.Puc.Code.Conds.{
  invertjump, jump_on_value, jumponcond, jump_if_false, luak_goiftrue, jump_if_true, luak_goiffalse,
  not_of_value, negate, codenot,
}
use zua.Puc.Code.Ops.{
  luak_indexed, code_operation, codearith, codecomp, luak_prefix, luak_infix, code_concat,
  extend_concat, join_concat, luak_posfix,
}
use zua.Puc.Code.Keeps.{Step-free, Keeps, Keeps-bind, Keeps-modify}
use zua.Puc.Code.Keeps.Jumps.{getjumpcontrol-Keeps, removevalues-Keeps}
use zua.Puc.Code.Keeps.Emit.{condjump-Keeps}
use zua.Puc.Code.Keeps.Exps.{
  emit_keeps, luak_dischargevars-Keeps, discharge2anyreg-Keeps, luak_exp2nextreg-Keeps,
  luak_exp2anyreg-Keeps, luak_exp2val-Keeps, luak_exp2rk-Keeps,
}

invertjump-Keeps : (e : ExpDesc) → Keeps (invertjump e)
unfolding invertjump
invertjump-Keeps e = search (emit_keeps, getjumpcontrol-Keeps) depth 20

-- `fs->pc--`
back-Keeps : Keeps (modify (λ fs. record fs { pc = fs.pc - 1 }))
back-Keeps =
    Keeps-modify _
      (λ fs h. Step-free fs (fs.pc - 1) fs.freereg fs.lasttarget fs.jpc h (omega arith) h.frame)

module _ (num : Numbers) where
  jump_on_value-Keeps : (e : ExpDesc) (cond : Bool) → Keeps (jump_on_value num e cond)
  unfolding jump_on_value
  jump_on_value-Keeps e cond = search (emit_keeps, discharge2anyreg-Keeps, condjump-Keeps) depth 20

  jumponcond_of :
      (k : ExpKind) (e : ExpDesc) (cond : Bool) → Keeps (jumponcond num (record e { k = k }) cond)
  unfolding jumponcond
  jumponcond_of vrelocable e cond =
      search (emit_keeps, jump_on_value-Keeps, condjump-Keeps, back-Keeps) depth 20
  jumponcond_of _ e cond = jump_on_value-Keeps _ cond

  jumponcond-Keeps : (e : ExpDesc) (cond : Bool) → Keeps (jumponcond num e cond)
  jumponcond-Keeps e cond = jumponcond_of e.k e cond

  jump_if_false_of : (k : ExpKind) (e : ExpDesc) → Keeps (jump_if_false num (record e { k = k }))
  unfolding jump_if_false
  jump_if_false_of vjmp e = search (emit_keeps, invertjump-Keeps) depth 20
  jump_if_false_of vk e = search emit_keeps
  jump_if_false_of vknum e = search emit_keeps
  jump_if_false_of vtrue e = search emit_keeps
  jump_if_false_of _ e = search (emit_keeps, jumponcond-Keeps) depth 20

  jump_if_false-Keeps : (e : ExpDesc) → Keeps (jump_if_false num e)
  jump_if_false-Keeps e = jump_if_false_of e.k e

  pub luak_goiftrue-Keeps : (e : ExpDesc) → Keeps (luak_goiftrue num e)
  unfolding luak_goiftrue
  luak_goiftrue-Keeps e =
      search (emit_keeps, luak_dischargevars-Keeps, jump_if_false-Keeps) depth 20

  jump_if_true_of : (k : ExpKind) (e : ExpDesc) → Keeps (jump_if_true num (record e { k = k }))
  unfolding jump_if_true
  jump_if_true_of vjmp e = search emit_keeps depth 20
  jump_if_true_of vnil e = search emit_keeps
  jump_if_true_of vfalse e = search emit_keeps
  jump_if_true_of _ e = search (emit_keeps, jumponcond-Keeps) depth 20

  jump_if_true-Keeps : (e : ExpDesc) → Keeps (jump_if_true num e)
  jump_if_true-Keeps e = jump_if_true_of e.k e

  pub luak_goiffalse-Keeps : (e : ExpDesc) → Keeps (luak_goiffalse num e)
  unfolding luak_goiffalse
  luak_goiffalse-Keeps e =
      search (emit_keeps, luak_dischargevars-Keeps, jump_if_true-Keeps) depth 20

  not_of_value-Keeps : (e : ExpDesc) → Keeps (not_of_value num e)
  unfolding not_of_value
  not_of_value-Keeps e = search (emit_keeps, discharge2anyreg-Keeps) depth 20

  negate_of : (k : ExpKind) (e : ExpDesc) → Keeps (negate num (record e { k = k }))
  unfolding negate
  negate_of vjmp e = search (emit_keeps, invertjump-Keeps) depth 20
  negate_of vrelocable e = not_of_value-Keeps _
  negate_of vnonreloc e = not_of_value-Keeps _
  negate_of _ e = search emit_keeps depth 20

  negate-Keeps : (e : ExpDesc) → Keeps (negate num e)
  negate-Keeps e = negate_of e.k e

  codenot-Keeps : (e : ExpDesc) → Keeps (codenot num e)
  unfolding codenot
  codenot-Keeps e =
      search (emit_keeps, luak_dischargevars-Keeps, negate-Keeps, removevalues-Keeps) depth 20

  pub luak_indexed-Keeps : (t k : ExpDesc) → Keeps (luak_indexed num t k)
  unfolding luak_indexed
  luak_indexed-Keeps t k = search (emit_keeps, luak_exp2rk-Keeps) depth 20

  code_operation-Keeps : (op : OpCode) (e1 e2 : ExpDesc) → Keeps (code_operation num op e1 e2)
  unfolding code_operation
  code_operation-Keeps op e1 e2 = search (emit_keeps, luak_exp2rk-Keeps) depth 20

  folded_or_coded :
      (op : OpCode) (e1 e2 : ExpDesc) (folded : Option ExpDesc)
      → Keeps (elim folded [ some e ↦ pure e | none ↦ code_operation num op e1 e2 ])
  folded_or_coded op e1 e2 (some e) = search emit_keeps
  folded_or_coded op e1 e2 none = code_operation-Keeps op e1 e2

  codearith-Keeps : (op : OpCode) (e1 e2 : ExpDesc) → Keeps (codearith num op e1 e2)
  unfolding codearith
  codearith-Keeps op e1 e2 = folded_or_coded op e1 e2 _

  codecomp-Keeps :
      (op : OpCode) (cond : Bool) (e1 e2 : ExpDesc) → Keeps (codecomp num op cond e1 e2)
  unfolding codecomp
  codecomp-Keeps op cond e1 e2 = search (emit_keeps, luak_exp2rk-Keeps, condjump-Keeps) depth 20

  pub luak_prefix-Keeps : (op : UnOpr) (e : ExpDesc) → Keeps (luak_prefix num op e)
  unfolding luak_prefix
  luak_prefix-Keeps opr_minus e =
      search (emit_keeps, luak_exp2anyreg-Keeps, codearith-Keeps) depth 20
  luak_prefix-Keeps opr_not e = codenot-Keeps e
  luak_prefix-Keeps opr_len e = search (emit_keeps, luak_exp2anyreg-Keeps, codearith-Keeps) depth 20
  luak_prefix-Keeps opr_nounopr e = search emit_keeps

  pub luak_infix-Keeps : (op : BinOpr) (v : ExpDesc) → Keeps (luak_infix num op v)
  unfolding luak_infix
  luak_infix-Keeps opr_and v = luak_goiftrue-Keeps v
  luak_infix-Keeps opr_or v = luak_goiffalse-Keeps v
  luak_infix-Keeps opr_concat v = luak_exp2nextreg-Keeps num v
  luak_infix-Keeps _ v = search (emit_keeps, luak_exp2rk-Keeps) depth 20

  code_concat-Keeps : (e1 e2 : ExpDesc) → Keeps (code_concat num e1 e2)
  unfolding code_concat
  code_concat-Keeps e1 e2 = search (emit_keeps, luak_exp2nextreg-Keeps, codearith-Keeps) depth 20

  extend_concat-Keeps : (e1 e2 : ExpDesc) → Keeps (extend_concat num e1 e2)
  unfolding extend_concat
  extend_concat-Keeps e1 e2 = search (emit_keeps, code_concat-Keeps) depth 20

  join_concat_of :
      (k : ExpKind) (e1 e2 : ExpDesc) → Keeps (join_concat num e1 (record e2 { k = k }))
  unfolding join_concat
  join_concat_of vrelocable e1 e2 = extend_concat-Keeps e1 _
  join_concat_of _ e1 e2 = code_concat-Keeps e1 _

  pub luak_posfix-Keeps : (op : BinOpr) (e1 e2 : ExpDesc) → Keeps (luak_posfix num op e1 e2)
  unfolding luak_posfix
  luak_posfix-Keeps opr_and e1 e2 = search (emit_keeps, luak_dischargevars-Keeps) depth 20
  luak_posfix-Keeps opr_or e1 e2 = search (emit_keeps, luak_dischargevars-Keeps) depth 20
  luak_posfix-Keeps opr_concat e1 e2 =
      Keeps-bind _ _ (luak_exp2val-Keeps num e2) (λ e. join_concat_of e.k e1 e)
  luak_posfix-Keeps opr_nobinopr e1 e2 = search emit_keeps
  luak_posfix-Keeps opr_add e1 e2 = codearith-Keeps op_add e1 e2
  luak_posfix-Keeps opr_sub e1 e2 = codearith-Keeps op_sub e1 e2
  luak_posfix-Keeps opr_mul e1 e2 = codearith-Keeps op_mul e1 e2
  luak_posfix-Keeps opr_div e1 e2 = codearith-Keeps op_div e1 e2
  luak_posfix-Keeps opr_mod e1 e2 = codearith-Keeps op_mod e1 e2
  luak_posfix-Keeps opr_pow e1 e2 = codearith-Keeps op_pow e1 e2
  luak_posfix-Keeps opr_eq e1 e2 = codecomp-Keeps op_eq true e1 e2
  luak_posfix-Keeps opr_ne e1 e2 = codecomp-Keeps op_eq false e1 e2
  luak_posfix-Keeps opr_lt e1 e2 = codecomp-Keeps op_lt true e1 e2
  luak_posfix-Keeps opr_le e1 e2 = codecomp-Keeps op_le true e1 e2
  luak_posfix-Keeps opr_gt e1 e2 = codecomp-Keeps op_lt false e1 e2
  luak_posfix-Keeps opr_ge e1 e2 = codecomp-Keeps op_le false e1 e2
