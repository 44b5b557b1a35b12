-- ===== src/Puc/Code/Conds.antt =====
-- lua-5.1/src/lcode.c: conditions, and the operator `not`.
use zua.Prelude.{ℕ, ◌-◌, Bool, true, false, Option, none, some, ◌==◌, if◌then◌else◌}
use zua.Puc.Word.{getarg_a, setarg_a, getarg_b}
use zua.Puc.Opmodes.{op_not, op_test, op_testset}
use zua.Puc.Checker.{is_op, no_reg}
use zua.Puc.Chunk.Dump.{bool_byte}
use zua.Puc.Code.State.{
  Gen, ◌>>=◌, ◌>>◌, pure, get, modify, lost, code_at, set_operand, getcode, Numbers, ExpDesc, vnil,
  vtrue, vfalse, vk, vknum, vjmp, vrelocable, vnonreloc,
}
use zua.Puc.Code.Jumps.{getjumpcontrol, removevalues, luak_concat, luak_patchtohere}
use zua.Puc.Code.Emit.{luak_codeabc, condjump, freeexp}
use zua.Puc.Code.Exps.{luak_dischargevars, discharge2anyreg}

-- `!(GETARG_A(*pc))`
unfoldable pub invertjump : ExpDesc → Gen (Unit {0})
invertjump e = do
  control ← getjumpcontrol e.info
  i ← code_at control
  set_operand setarg_a control (if getarg_a i == 0 then 1 else 0)

module _ (num : Numbers) where
  unfoldable pub jump_on_value : ExpDesc → Bool → Gen (ExpDesc × ℕ)
  jump_on_value e cond = do
    e ← discharge2anyreg num e
    freeexp e
    j ← condjump op_testset no_reg e.info (bool_byte cond)
    pure (e, j)

  -- `fs->pc--` takes the OP_NOT off the end of the code.
  unfoldable pub jumponcond : ExpDesc → Bool → Gen (ExpDesc × ℕ)
  jumponcond e cond = elim e.k [
    | vrelocable ↦ (do
      ie ← getcode e
      if is_op op_not ie
          then (do
            fs ← get
            if fs.pc == 0 then lost else modify (λ fs. record fs { pc = fs.pc - 1 })
            j ← condjump op_test (getarg_b ie) 0 (elim cond [ true ↦ 0 | false ↦ 1 ])
            pure (e, j))
          else jump_on_value e cond)
    | _ ↦ jump_on_value e cond
  ]

  abbrev jump_of : ExpDesc → Bool → Gen (ExpDesc × Option ℕ)
  jump_of e cond = do (e, j) ← jumponcond e cond; pure (e, some j)

  -- The switch of luaK_goiftrue: the last jump, which is taken on false.
  unfoldable pub jump_if_false : ExpDesc → Gen (ExpDesc × Option ℕ)
  jump_if_false e = elim e.k [
    | vk ↦ pure (e, none)
    | vknum ↦ pure (e, none)
    | vtrue ↦ pure (e, none)
    | vjmp ↦ (do invertjump e; pure (e, some e.info))
    | _ ↦ jump_of e false
  ]

  unfoldable pub luak_goiftrue : ExpDesc → Gen ExpDesc
  luak_goiftrue e = do
    e ← luak_dischargevars e
    (e, pc) ← jump_if_false e
    f ← luak_concat e.f pc
    luak_patchtohere e.t
    pure (record e { f = f; t = none })

  -- The switch of luaK_goiffalse: the last jump, which is taken on true.
  unfoldable pub jump_if_true : ExpDesc → Gen (ExpDesc × Option ℕ)
  jump_if_true e = elim e.k [
    | vnil ↦ pure (e, none)
    | vfalse ↦ pure (e, none)
    | vjmp ↦ pure (e, some e.info)
    | _ ↦ jump_of e true
  ]

  unfoldable pub luak_goiffalse : ExpDesc → Gen ExpDesc
  luak_goiffalse e = do
    e ← luak_dischargevars e
    (e, pc) ← jump_if_true e
    t ← luak_concat e.t pc
    luak_patchtohere e.f
    pure (record e { t = t; f = none })

  unfoldable pub not_of_value : ExpDesc → Gen ExpDesc
  not_of_value e = do
    e ← discharge2anyreg num e
    freeexp e
    i ← luak_codeabc op_not 0 e.info 0
    pure (record e { info = i; k = vrelocable })

  -- The switch of codenot.
  unfoldable pub negate : ExpDesc → Gen ExpDesc
  negate e = elim e.k [
    | vnil ↦ pure (record e { k = vtrue })
    | vfalse ↦ pure (record e { k = vtrue })
    | vk ↦ pure (record e { k = vfalse })
    | vknum ↦ pure (record e { k = vfalse })
    | vtrue ↦ pure (record e { k = vfalse })
    | vjmp ↦ (do invertjump e; pure e)
    | vrelocable ↦ not_of_value e
    | vnonreloc ↦ not_of_value e
    | _ ↦ pure e
  ]

  unfoldable pub codenot : ExpDesc → Gen ExpDesc
  codenot e = do
    e ← luak_dischargevars e
    e ← negate e
    removevalues e.t
    removevalues e.f
    pure (record e { t = e.f; f = e.t })
