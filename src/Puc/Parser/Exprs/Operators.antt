-- ===== src/Puc/Parser/Exprs/Operators.antt =====
-- lua-5.1/src/lparser.c: operators and their priorities.
use zua.Prelude.{ℕ, zero, suc, Bool, false, ltb, ◌==◌, if◌then◌else◌}
use zua.Puc.Code.State.{
  ExpDesc, BinOpr, opr_add, opr_sub, opr_mul, opr_div, opr_mod, opr_pow, opr_concat, opr_ne, opr_eq,
  opr_lt, opr_le, opr_gt, opr_ge, opr_and, opr_or, opr_nobinopr, UnOpr, opr_minus, opr_not, opr_len,
  opr_nounopr, Numbers,
}
use zua.Puc.Code.Ops.{luak_prefix, luak_infix, luak_posfix}
use zua.Puc.Parser.Tokens.{tk_not, tk_concat, tk_ne, tk_eq, tk_le, tk_ge, tk_and, tk_or}
use zua.Puc.Parser.State.{
  Parse, ◌>>=◌, ◌>>◌, pure, hang, get, gen, luax_next, enterlevel, leavelevel,
}
use zua.Puc.Parser.Exprs.{Rules}
use zua.Puc.Parser.Exprs.Primary.{simpleexp}

unfoldable pub getunopr : ℕ → UnOpr
getunopr op =
    if op == tk_not
    then opr_not
    else if op == b'-'
    then opr_minus
    else if op == b'#'
    then opr_len
    else opr_nounopr

unfoldable pub getbinopr : ℕ → BinOpr
getbinopr op =
    if op == b'+'
    then opr_add
    else if op == b'-'
    then opr_sub
    else if op == b'*'
    then opr_mul
    else if op == b'/'
    then opr_div
    else if op == b'%'
    then opr_mod
    else if op == b'^'
    then opr_pow
    else if op == tk_concat
    then opr_concat
    else if op == tk_ne
    then opr_ne
    else if op == tk_eq
    then opr_eq
    else if op == b'<'
    then opr_lt
    else if op == tk_le
    then opr_le
    else if op == b'>'
    then opr_gt
    else if op == tk_ge
    then opr_ge
    else if op == tk_and
    then opr_and
    else if op == tk_or
    then opr_or
    else opr_nobinopr

-- The left and the right priority of an operator.
abbrev pub priority : BinOpr → ℕ × ℕ
priority opr_add = (6, 6)
priority opr_sub = (6, 6)
priority opr_mul = (7, 7)
priority opr_div = (7, 7)
priority opr_mod = (7, 7)
priority opr_pow = (10, 9)
priority opr_concat = (5, 4)
priority opr_and = (2, 2)
priority opr_or = (1, 1)
priority opr_nobinopr = (0, 0)
priority _ = (3, 3)

abbrev pub unary_priority : ℕ
unary_priority = 8

-- `op != OPR_NOBINOPR && priority[op].left > limit`
abbrev pub expands : BinOpr → ℕ → Bool
expands opr_nobinopr limit = false
expands op limit = ltb limit (priority op).0

module _ (num : Numbers) (rules : Rules) (fuel : ℕ) where
  -- The first operand, behind a unary operator if there is one.
  unfoldable pub operand : UnOpr → Parse ExpDesc
  operand opr_nounopr = simpleexp num rules fuel
  operand uop = do luax_next; (v, _) ← rules.subexpr unary_priority; gen (luak_prefix num uop v)

  unfoldable pub subexpr_loop : ℕ → ℕ → ExpDesc → BinOpr → Parse (ExpDesc × BinOpr)
  subexpr_loop zero limit v op = hang
  subexpr_loop (suc rounds) limit v op =
      if expands op limit
      then (do
        luax_next
        v ← gen (luak_infix num op v)
        (v2, nextop) ← rules.subexpr (priority op).1
        v ← gen (luak_posfix num op v v2)
        subexpr_loop rounds limit v nextop)
      else pure (v, op)

  -- subexpr between enterlevel and leavelevel.
  unfoldable pub operation : ℕ → Parse (ExpDesc × BinOpr)
  unfolding operand subexpr_loop getunopr getbinopr
  operation limit = do
    ls ← get
    v ← operand (getunopr ls.t.token)
    ls ← get
    subexpr_loop fuel limit v (getbinopr ls.t.token)

  unfoldable pub subexpr : ℕ → Parse (ExpDesc × BinOpr)
  unfolding operation
  subexpr limit = do enterlevel; (v, op) ← operation limit; leavelevel; pure (v, op)
