-- ===== src/Puc/Code/Keeps/Exps.antt =====
-- The expressions of lua-5.1/src/lcode.c keep a FuncState sound.
use zua.Prelude.{ℕ, Option}
use zua.Puc.Code.State.{
  ExpDesc, ExpKind, Numbers, vnil, vknum, vlocal, vupval, vglobal, vindexed, vjmp, vnonreloc, vcall,
  vvararg,
}
use zua.Puc.Code.Exps.{
  luak_setreturns, luak_setoneret, luak_dischargevars, join_jump, jump_over, load_bools, load_value,
  discharge2reg, discharge2anyreg, exp2reg, luak_exp2nextreg, discharged2anyreg, luak_exp2anyreg,
  luak_exp2val, value2rk, luak_exp2rk, luak_storevar, luak_self,
}
use zua.Puc.Code.Keeps.{Keeps, Keeps-if, Keeps-bind, Keeps-pure, keeps_rules}
use zua.Puc.Code.Keeps.Jumps.{
  code_at-Keeps, setarg_a-Keeps, setarg_b-Keeps, setarg_c-Keeps, luak_concat-Keeps,
  need_value-Keeps, patchlistaux-Keeps, luak_patchtohere-Keeps, luak_getlabel-Keeps,
}
use zua.Puc.Code.Keeps.Emit.{
  luak_codeabc-Keeps, luak_codeabx-Keeps, luak_jump-Keeps, luak_nil-Keeps, code_label-Keeps,
  luak_reserveregs-Keeps, freereg-Keeps, freeexp-Keeps,
}
use zua.Puc.Code.Keeps.Consts.{luak_numberk-Keeps, boolk-Keeps, nilk-Keeps}

pub ruleset emit_keeps = (
  keeps_rules, code_at-Keeps, setarg_a-Keeps, setarg_b-Keeps, setarg_c-Keeps, luak_concat-Keeps,
  need_value-Keeps, patchlistaux-Keeps, luak_patchtohere-Keeps, luak_getlabel-Keeps,
  luak_codeabc-Keeps, luak_codeabx-Keeps, luak_jump-Keeps, luak_nil-Keeps, code_label-Keeps,
  luak_reserveregs-Keeps, freereg-Keeps, freeexp-Keeps, luak_numberk-Keeps, boolk-Keeps, nilk-Keeps,
)

setreturns_of :
    (k : ExpKind) (e : ExpDesc) (n : Option ℕ) → Keeps (luak_setreturns (record e { k = k }) n)
unfolding luak_setreturns
setreturns_of vcall e n = search emit_keeps depth 20
setreturns_of vvararg e n = search emit_keeps depth 20
setreturns_of _ e n = search emit_keeps depth 20

pub luak_setreturns-Keeps : (e : ExpDesc) (n : Option ℕ) → Keeps (luak_setreturns e n)
luak_setreturns-Keeps e n = setreturns_of e.k e n

setoneret_of : (k : ExpKind) (e : ExpDesc) → Keeps (luak_setoneret (record e { k = k }))
unfolding luak_setoneret
setoneret_of vcall e = search emit_keeps depth 20
setoneret_of _ e = search emit_keeps depth 20

pub luak_setoneret-Keeps : (e : ExpDesc) → Keeps (luak_setoneret e)
luak_setoneret-Keeps e = setoneret_of e.k e

dischargevars_of : (k : ExpKind) (e : ExpDesc) → Keeps (luak_dischargevars (record e { k = k }))
unfolding luak_dischargevars
dischargevars_of vcall e = setoneret_of vcall e
dischargevars_of vvararg e = setoneret_of vvararg e
dischargevars_of _ e = search emit_keeps depth 20

pub luak_dischargevars-Keeps : (e : ExpDesc) → Keeps (luak_dischargevars e)
luak_dischargevars-Keeps e = dischargevars_of e.k e

join_jump_of : (k : ExpKind) (e : ExpDesc) → Keeps (join_jump (record e { k = k }))
unfolding join_jump
join_jump_of vjmp e = search emit_keeps depth 20
join_jump_of _ e = search emit_keeps depth 20

pub join_jump-Keeps : (e : ExpDesc) → Keeps (join_jump e)
join_jump-Keeps e = join_jump_of e.k e

jump_over_of : (k : ExpKind) (e : ExpDesc) → Keeps (jump_over (record e { k = k }))
unfolding jump_over
jump_over_of vjmp e = search emit_keeps depth 20
jump_over_of _ e = search emit_keeps depth 20

jump_over-Keeps : (e : ExpDesc) → Keeps (jump_over e)
jump_over-Keeps e = jump_over_of e.k e

pub load_bools-Keeps : (e : ExpDesc) (reg : ℕ) → Keeps (load_bools e reg)
unfolding load_bools
load_bools-Keeps e reg = search (emit_keeps, jump_over-Keeps) depth 20

module _ (num : Numbers) where
  load_value_of :
      (k : ExpKind) (e : ExpDesc) (reg : ℕ) → Keeps (load_value num (record e { k = k }) reg)
  unfolding load_value
  load_value_of vnil e reg = search emit_keeps depth 20
  load_value_of _ e reg = search emit_keeps depth 20

  load_value-Keeps : (e : ExpDesc) (reg : ℕ) → Keeps (load_value num e reg)
  load_value-Keeps e reg = load_value_of e.k e reg

  pub discharge2reg-Keeps : (e : ExpDesc) (reg : ℕ) → Keeps (discharge2reg num e reg)
  unfolding discharge2reg
  discharge2reg-Keeps e reg =
      search (emit_keeps, luak_dischargevars-Keeps, load_value-Keeps) depth 20

  discharge2anyreg_of :
      (k : ExpKind) (e : ExpDesc) → Keeps (discharge2anyreg num (record e { k = k }))
  unfolding discharge2anyreg
  discharge2anyreg_of vnonreloc e = search emit_keeps
  discharge2anyreg_of _ e = search (emit_keeps, discharge2reg-Keeps) depth 20

  pub discharge2anyreg-Keeps : (e : ExpDesc) → Keeps (discharge2anyreg num e)
  discharge2anyreg-Keeps e = discharge2anyreg_of e.k e

  pub exp2reg-Keeps : (e : ExpDesc) (reg : ℕ) → Keeps (exp2reg num e reg)
  unfolding exp2reg
  exp2reg-Keeps e reg =
      search (emit_keeps, discharge2reg-Keeps, join_jump-Keeps, load_bools-Keeps) depth 30

  pub luak_exp2nextreg-Keeps : (e : ExpDesc) → Keeps (luak_exp2nextreg num e)
  unfolding luak_exp2nextreg
  luak_exp2nextreg-Keeps e = search (emit_keeps, luak_dischargevars-Keeps, exp2reg-Keeps) depth 20

  discharged2anyreg_of :
      (k : ExpKind) (e : ExpDesc) → Keeps (discharged2anyreg num (record e { k = k }))
  unfolding discharged2anyreg
  discharged2anyreg_of vnonreloc e =
      search (emit_keeps, exp2reg-Keeps, luak_exp2nextreg-Keeps) depth 20
  discharged2anyreg_of _ e = search (emit_keeps, luak_exp2nextreg-Keeps) depth 20

  pub luak_exp2anyreg-Keeps : (e : ExpDesc) → Keeps (luak_exp2anyreg num e)
  unfolding luak_exp2anyreg
  luak_exp2anyreg-Keeps e =
      Keeps-bind _ _ (luak_dischargevars-Keeps e) (λ e'. discharged2anyreg_of e'.k e')

  pub luak_exp2val-Keeps : (e : ExpDesc) → Keeps (luak_exp2val num e)
  unfolding luak_exp2val
  luak_exp2val-Keeps e =
      search (emit_keeps, luak_dischargevars-Keeps, luak_exp2anyreg-Keeps) depth 20

  value2rk_of : (k : ExpKind) (e : ExpDesc) → Keeps (value2rk num (record e { k = k }))
  unfolding value2rk
  value2rk_of vknum e = search (emit_keeps, luak_exp2anyreg-Keeps) depth 20
  value2rk_of _ e = search (emit_keeps, luak_exp2anyreg-Keeps) depth 20

  pub luak_exp2rk-Keeps : (e : ExpDesc) → Keeps (luak_exp2rk num e)
  unfolding luak_exp2rk
  luak_exp2rk-Keeps e = Keeps-bind _ _ (luak_exp2val-Keeps e) (λ e'. value2rk_of e'.k e')

  storevar_of :
      (k : ExpKind) (var ex : ExpDesc) → Keeps (luak_storevar num (record var { k = k }) ex)
  unfolding luak_storevar
  storevar_of vlocal var ex = search (emit_keeps, exp2reg-Keeps) depth 20
  storevar_of vindexed var ex = search (emit_keeps, luak_exp2rk-Keeps) depth 20
  storevar_of vupval var ex = search (emit_keeps, luak_exp2anyreg-Keeps) depth 20
  storevar_of vglobal var ex = search (emit_keeps, luak_exp2anyreg-Keeps) depth 20
  storevar_of _ var ex = search emit_keeps depth 20

  pub luak_storevar-Keeps : (var ex : ExpDesc) → Keeps (luak_storevar num var ex)
  luak_storevar-Keeps var ex = storevar_of var.k var ex

  pub luak_self-Keeps : (e key : ExpDesc) → Keeps (luak_self num e key)
  unfolding luak_self
  luak_self-Keeps e key = search (emit_keeps, luak_exp2anyreg-Keeps, luak_exp2rk-Keeps) depth 20
