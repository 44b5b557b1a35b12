-- ===== src/Puc/Parser/Exprs/Constructor.antt =====
-- lua-5.1/src/lparser.c: table constructors.
use zua.Prelude.{ℕ, zero, suc, ◌+◌, ◌-◌, Bool, true, none, some, ◌==◌, if◌then◌else◌}
use zua.FloatByte.{luao_int2fb}
use zua.Puc.Word.{setarg_b, setarg_c}
use zua.Puc.Opmodes.{op_newtable, op_settable, lfields_per_flush}
use zua.Puc.Table.{max_int}
use zua.Puc.Code.State.{ExpDesc, ExpKind, vvoid, vrelocable, Numbers, set_operand}
use zua.Puc.Code.Emit.{luak_codeabc, luak_setlist}
use zua.Puc.Code.Exps.{luak_setreturns, luak_exp2nextreg, luak_exp2rk}
use zua.Puc.Parser.Tokens.{tk_name}
use zua.Puc.Parser.State.{
  Parse, ◌>>=◌, ◌>>◌, pure, hang, get, top, gen, luax_lookahead, testnext, checknext, check_match,
  luay_checklimit,
}
use zua.Puc.Parser.Scope.{init_exp, hasmultret, close_exp, set_freereg}
use zua.Puc.Parser.Exprs.{Rules, checkname, expr, yindex}

-- The descriptor `t` does not change while it is used: the rules take the register that it stands for, `table`.
pub record ConsControl : Type 0 where
  pub v : ExpDesc
  pub nh : ℕ
  pub na : ℕ
  pub tostore : ℕ

-- The condition of the loop of constructor.
unfoldable pub separator : Parse Bool
separator = do comma ← testnext b','; if comma then pure true else testnext b';'

module _ (num : Numbers) (table : ℕ) where
  abbrev flush : ConsControl → Parse ConsControl
  flush cc =
      if cc.tostore == lfields_per_flush
      then (do gen (luak_setlist table cc.na (some cc.tostore)); pure (record cc { tostore = 0 }))
      else pure cc

  -- By the kind of `cc->v`.
  unfoldable pub close_item : ConsControl → ExpKind → Parse ConsControl
  close_item cc vvoid = pure cc
  close_item cc _ = do
    v ← gen (luak_exp2nextreg num cc.v)
    flush (record cc { v = record v { k = vvoid } })

  unfoldable pub closelistfield : ConsControl → Parse ConsControl
  unfolding close_item
  closelistfield cc = close_item cc cc.v.k

  unfoldable pub lastlistfield : ConsControl → Parse ConsControl
  lastlistfield cc =
      if cc.tostore == 0
      then pure cc
      else if hasmultret cc.v.k
      then (do
        gen (luak_setreturns cc.v none)
        gen (luak_setlist table cc.na none)
        pure (record cc { na = cc.na - 1 }))
      else (do close_exp num cc.v cc.v.k; gen (luak_setlist table cc.na (some cc.tostore)); pure cc)

  module _ (rules : Rules) where
    -- The key of a record field.
    unfoldable pub recfield_key : ConsControl → Parse ExpDesc
    recfield_key cc = do
      ls ← get
      if ls.t.token == tk_name
          then (do luay_checklimit cc.nh max_int; checkname num)
          else yindex num rules

    -- What is left of recfield, which frees the registers from `reg` on.
    unfoldable pub store_field : ℕ → ConsControl → Parse ConsControl
    unfolding recfield_key
    store_field reg cc = do
      key ← recfield_key cc
      checknext b'='
      (_, rkkey) ← gen (luak_exp2rk num key)
      val ← expr num rules
      (_, rkval) ← gen (luak_exp2rk num val)
      _ ← gen (luak_codeabc op_settable table rkkey rkval)
      set_freereg reg
      pure (record cc { nh = cc.nh + 1 })

    unfoldable pub recfield : ConsControl → Parse ConsControl
    unfolding store_field
    recfield cc = do f ← top; store_field f.gen.freereg cc

    unfoldable pub listfield : ConsControl → Parse ConsControl
    listfield cc = do
      v ← expr num rules
      luay_checklimit cc.na max_int
      pure (record cc { v = v; na = cc.na + 1; tostore = cc.tostore + 1 })

    -- The `switch` of constructor.
    unfoldable pub item : ConsControl → Parse ConsControl
    unfolding recfield listfield
    item cc = do
      ls ← get
      if ls.t.token == tk_name
          then (do
            luax_lookahead
            ls ← get
            if ls.lookahead.token == b'=' then recfield cc else listfield cc)
          else (if ls.t.token == b'[' then recfield cc else listfield cc)

    unfoldable pub items : ℕ → ConsControl → Parse ConsControl
    unfolding closelistfield item separator
    items zero cc = hang
    items (suc fuel) cc = do
      ls ← get
      if ls.t.token == b'}' then pure cc else (do
        cc ← closelistfield cc
        cc ← item cc
        more ← separator
        if more then items fuel cc else pure cc)

    -- constructor after the table is fixed in a register.
    unfoldable pub fields : ℕ → ℕ → ℕ → Parse (Unit {0})
    unfolding items lastlistfield
    fields fuel line pc = do
      checknext b'{'
      cc ← items fuel (record { v = init_exp vvoid 0; nh = 0; na = 0; tostore = 0 })
      check_match b'}' b'{' line
      cc ← lastlistfield cc
      gen (set_operand setarg_b pc (luao_int2fb cc.na))
      gen (set_operand setarg_c pc (luao_int2fb cc.nh))

module _ (num : Numbers) (rules : Rules) where
  unfoldable pub constructor : ℕ → Parse ExpDesc
  unfolding fields
  constructor fuel = do
    ls ← get
    let line = ls.linenumber
    pc ← gen (luak_codeabc op_newtable 0 0 0)
    t ← gen (luak_exp2nextreg num (init_exp vrelocable pc))
    fields num t.info rules fuel line pc
    pure t
