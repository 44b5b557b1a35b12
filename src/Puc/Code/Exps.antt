-- ===== src/Puc/Code/Exps.antt =====
-- lua-5.1/src/lcode.c: putting the value of an expression where it is wanted. A function that changes an
-- expdesc returns the new one, before its own result.
use zua.Prelude.{ℕ, ◌-◌, true, false, not, Option, none, some, leb, ◌==◌, if◌then◌else◌}
use zua.Puc.Word.{getarg_a, setarg_a, setarg_b, setarg_c, rkask, maxindexrk}
use zua.Puc.Opmodes.{
  op_move, op_loadk, op_loadbool, op_getupval, op_getglobal, op_gettable, op_setglobal, op_setupval,
  op_settable, op_self,
}
use zua.Puc.Code.State.{
  Gen, ◌>>=◌, ◌>>◌, pure, get, getcode, set_operand, hasjumps, Numbers, ExpDesc, vnil, vtrue,
  vfalse, vk, vknum, vlocal, vupval, vglobal, vindexed, vjmp, vrelocable, vnonreloc, vcall, vvararg,
}
use zua.Puc.Code.Jumps.{luak_getlabel, need_value, patchlistaux, luak_concat, luak_patchtohere}
use zua.Puc.Code.Emit.{
  luak_codeabc, luak_codeabx, luak_jump, results, luak_nil, code_label, luak_reserveregs, freereg,
  freeexp,
}
use zua.Puc.Code.Consts.{luak_numberk, boolk, nilk}

unfoldable pub luak_setreturns : ExpDesc → Option ℕ → Gen (Unit {0})
luak_setreturns e nresults = elim e.k [
  | vcall ↦ set_operand setarg_c e.info (results nresults)
  | vvararg ↦ (do
    set_operand setarg_b e.info (results nresults)
    fs ← get
    set_operand setarg_a e.info fs.freereg
    luak_reserveregs 1)
  | _ ↦ pure tt
]

unfoldable pub luak_setoneret : ExpDesc → Gen ExpDesc
luak_setoneret e = elim e.k [
  | vcall ↦ (do i ← getcode e; pure (record e { k = vnonreloc; info = getarg_a i }))
  | vvararg ↦ (do set_operand setarg_b e.info 2; pure (record e { k = vrelocable }))
  | _ ↦ pure e
]

-- The result of an instruction that is still to be given its register.
abbrev relocable : ExpDesc → Gen ℕ → Gen ExpDesc
relocable e emit = do i ← emit; pure (record e { k = vrelocable; info = i })

unfoldable pub luak_dischargevars : ExpDesc → Gen ExpDesc
luak_dischargevars e = elim e.k [
  | vlocal ↦ pure (record e { k = vnonreloc })
  | vupval ↦ relocable e (luak_codeabc op_getupval 0 e.info 0)
  | vglobal ↦ relocable e (luak_codeabx op_getglobal 0 e.info)
  | vindexed ↦ (do
    freereg e.aux
    freereg e.info
    relocable e (luak_codeabc op_gettable 0 e.info e.aux))
  | vvararg ↦ luak_setoneret e
  | vcall ↦ luak_setoneret e
  | _ ↦ pure e
]

-- The end of discharge2reg: the value is in `reg`.
abbrev placed : ExpDesc → ℕ → Gen ExpDesc
placed e reg = pure (record e { k = vnonreloc; info = reg })

-- `if (e->k == VJMP)`: the jump joins the list `t`.
unfoldable pub join_jump : ExpDesc → Gen ExpDesc
join_jump e = elim e.k [
  | vjmp ↦ (do t ← luak_concat e.t (some e.info); pure (record e { t = t }))
  | _ ↦ pure e
]

-- `(e->k == VJMP) ? NO_JUMP : luaK_jump(fs)`
unfoldable pub jump_over : ExpDesc → Gen (Option ℕ)
jump_over e = elim e.k [ vjmp ↦ pure none | _ ↦ (do j ← luak_jump; pure (some j)) ]

-- The two LOADBOOLs for the jumps that bring no value, where there are any.
unfoldable pub load_bools : ExpDesc → ℕ → Gen (Option ℕ × Option ℕ)
load_bools e reg = do
  by_t ← need_value e.t
  needed ← (if by_t then pure true else need_value e.f)
  if not needed then pure (none, none) else (do
    fj ← jump_over e
    p_f ← code_label reg 0 1
    p_t ← code_label reg 1 0
    luak_patchtohere fj
    pure (some p_f, some p_t))

module _ (num : Numbers) where
  -- The switch of discharge2reg.
  unfoldable pub load_value : ExpDesc → ℕ → Gen ExpDesc
  load_value e reg = elim e.k [
    | vnil ↦ (do luak_nil reg 1; placed e reg)
    | vfalse ↦ (do _ ← luak_codeabc op_loadbool reg 0 0; placed e reg)
    | vtrue ↦ (do _ ← luak_codeabc op_loadbool reg 1 0; placed e reg)
    | vk ↦ (do _ ← luak_codeabx op_loadk reg e.info; placed e reg)
    | vknum ↦ (do n ← luak_numberk num e.nval; _ ← luak_codeabx op_loadk reg n; placed e reg)
    | vrelocable ↦ (do set_operand setarg_a e.info reg; placed e reg)
    | vnonreloc ↦ (do
      if reg == e.info then pure tt else (do _ ← luak_codeabc op_move reg e.info 0; pure tt)
      placed e reg)
    | _ ↦ pure e
  ]

  unfoldable pub discharge2reg : ExpDesc → ℕ → Gen ExpDesc
  discharge2reg e reg = do e ← luak_dischargevars e; load_value e reg

  -- In the next register; `fs->freereg-1` is the one that was reserved.
  abbrev discharge2nextreg : ExpDesc → Gen ExpDesc
  discharge2nextreg e = do luak_reserveregs 1; fs ← get; discharge2reg e (fs.freereg - 1)

  unfoldable pub discharge2anyreg : ExpDesc → Gen ExpDesc
  discharge2anyreg e = elim e.k [ vnonreloc ↦ pure e | _ ↦ discharge2nextreg e ]

  unfoldable pub exp2reg : ExpDesc → ℕ → Gen ExpDesc
  exp2reg e reg = do
    e ← discharge2reg e reg
    e ← join_jump e
    if not (hasjumps e) then pure tt else (do
      (p_f, p_t) ← load_bools e reg
      final ← luak_getlabel
      patchlistaux e.f final reg p_f
      patchlistaux e.t final reg p_t)
    pure (record e { k = vnonreloc; info = reg; t = none; f = none })

  unfoldable pub luak_exp2nextreg : ExpDesc → Gen ExpDesc
  luak_exp2nextreg e = do
    e ← luak_dischargevars e
    freeexp e
    luak_reserveregs 1
    fs ← get
    exp2reg e (fs.freereg - 1)

  abbrev exp2nextreg_info : ExpDesc → Gen (ExpDesc × ℕ)
  exp2nextreg_info e = do e ← luak_exp2nextreg e; pure (e, e.info)

  -- luaK_exp2anyreg after its first line.
  unfoldable pub discharged2anyreg : ExpDesc → Gen (ExpDesc × ℕ)
  discharged2anyreg e = elim e.k [
    | vnonreloc ↦ (do
      fs ← get
      if not (hasjumps e)
          then pure (e, e.info)
          else (if leb fs.nactvar e.info
              then (do e ← exp2reg e e.info; pure (e, e.info))
              else exp2nextreg_info e))
    | _ ↦ exp2nextreg_info e
  ]

  unfoldable pub luak_exp2anyreg : ExpDesc → Gen (ExpDesc × ℕ)
  luak_exp2anyreg e = do e ← luak_dischargevars e; discharged2anyreg e

  unfoldable pub luak_exp2val : ExpDesc → Gen ExpDesc
  luak_exp2val e =
      if hasjumps e then (do (e, _) ← luak_exp2anyreg e; pure e) else luak_dischargevars e

  -- A constant that is not in `k` yet, if its number is sure to fit in the operand.
  abbrev constant_operand : ExpDesc → Gen ℕ → Gen (ExpDesc × ℕ)
  constant_operand e constant = do
    fs ← get
    if leb fs.nk maxindexrk
        then (do n ← constant; pure (record e { info = n; k = vk }, rkask n))
        else luak_exp2anyreg e

  -- The switch of luaK_exp2RK.
  unfoldable pub value2rk : ExpDesc → Gen (ExpDesc × ℕ)
  value2rk e = elim e.k [
    | vknum ↦ constant_operand e (luak_numberk num e.nval)
    | vtrue ↦ constant_operand e (boolk num true)
    | vfalse ↦ constant_operand e (boolk num false)
    | vnil ↦ constant_operand e (nilk num)
    | vk ↦ if leb e.info maxindexrk then pure (e, rkask e.info) else luak_exp2anyreg e
    | _ ↦ luak_exp2anyreg e
  ]

  unfoldable pub luak_exp2rk : ExpDesc → Gen (ExpDesc × ℕ)
  luak_exp2rk e = do e ← luak_exp2val e; value2rk e

  -- Returns the new `ex`.
  unfoldable pub luak_storevar : ExpDesc → ExpDesc → Gen ExpDesc
  luak_storevar var ex = elim var.k [
    | vlocal ↦ (do freeexp ex; exp2reg ex var.info)
    | vupval ↦ (do
      (ex, e) ← luak_exp2anyreg ex
      _ ← luak_codeabc op_setupval e var.info 0
      freeexp ex
      pure ex)
    | vglobal ↦ (do
      (ex, e) ← luak_exp2anyreg ex
      _ ← luak_codeabx op_setglobal e var.info
      freeexp ex
      pure ex)
    | vindexed ↦ (do
      (ex, e) ← luak_exp2rk ex
      _ ← luak_codeabc op_settable var.info var.aux e
      freeexp ex
      pure ex)
    | _ ↦ (do freeexp ex; pure ex)
  ]

  unfoldable pub luak_self : ExpDesc → ExpDesc → Gen ExpDesc
  luak_self e key = do
    (e, _) ← luak_exp2anyreg e
    freeexp e
    fs ← get
    let func = fs.freereg
    luak_reserveregs 2
    (key, rk) ← luak_exp2rk key
    _ ← luak_codeabc op_self func e.info rk
    freeexp key
    pure (record e { info = func; k = vnonreloc })
