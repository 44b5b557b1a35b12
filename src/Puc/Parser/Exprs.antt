-- ===== src/Puc/Parser/Exprs.antt =====
-- lua-5.1/src/lparser.c: names, indices and lists of expressions, given the rules that recur.
pub mod Constructor
pub mod Primary
pub mod Operators
use zua.Prelude.{ℕ, zero, suc, ◌+◌, Bool, true, false, Option, none, some, ltb, ◌==◌, if◌then◌else◌}
use zua.Puc.Chunk.{TString}
use zua.Puc.Code.State.{ExpDesc, vk, BinOpr, Numbers}
use zua.Puc.Code.Exps.{luak_exp2nextreg, luak_exp2anyreg, luak_exp2val}
use zua.Puc.Code.Ops.{luak_indexed}
use zua.Puc.Code.Consts.{luak_stringk}
use zua.Puc.Parser.State.{
  Parse, ◌>>=◌, ◌>>◌, pure, hang, gen, luax_next, testnext, checknext, str_checkname,
}
use zua.Puc.Parser.Scope.{init_exp}

-- The two rules by which the grammar recurs. Each round of a loop takes one from the fuel.
pub record Rules : Type 0 where
  pub subexpr : ℕ → Parse (ExpDesc × BinOpr)
  pub chunk : Parse (Unit {0})

module _ (num : Numbers) where
  unfoldable pub codestring : TString → Parse ExpDesc
  codestring s = do i ← gen (luak_stringk num s); pure (init_exp vk i)

  unfoldable pub checkname : Parse ExpDesc
  unfolding codestring
  checkname = do s ← str_checkname; codestring s

  unfoldable pub field : ExpDesc → Parse ExpDesc
  unfolding checkname
  field v = do
    (v, _) ← gen (luak_exp2anyreg num v)
    luax_next
    key ← checkname
    gen (luak_indexed num v key)

  module _ (rules : Rules) where
    unfoldable pub expr : Parse ExpDesc
    expr = do (v, _) ← rules.subexpr 0; pure v

    unfoldable pub yindex : Parse ExpDesc
    unfolding expr
    yindex = do luax_next; v ← expr; v ← gen (luak_exp2val num v); checknext b']'; pure v

    -- The expressions that follow `v`, with their count.
    unfoldable pub explist_loop : ℕ → ExpDesc → ℕ → Parse (ℕ × ExpDesc)
    unfolding expr
    explist_loop zero v n = hang
    explist_loop (suc fuel) v n = do
      more ← testnext b','
      if more
          then (do _ ← gen (luak_exp2nextreg num v); v ← expr; explist_loop fuel v (n + 1))
          else pure (n, v)

    unfoldable pub explist1 : ℕ → Parse (ℕ × ExpDesc)
    unfolding explist_loop
    explist1 fuel = do v ← expr; explist_loop fuel v 1
