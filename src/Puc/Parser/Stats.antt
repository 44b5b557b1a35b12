-- ===== src/Puc/Parser/Stats.antt =====
-- lua-5.1/src/lparser.c: the grammar rules of statements, and luaY_parser.
pub mod Assign
pub mod Loops
use zua.Prelude.{
  ℕ, zero, suc, ◌+◌, ◌-◌, Bool, true, false, ◌||◌, ◌&&◌, List, [], ◌∷◌, Option, none, some, ltb,
  leb, ◌==◌, if◌then◌else◌, length,
}
use zua.Puc.Word.{set_opcode}
use zua.Puc.Opmodes.{op_tailcall, opcode_number}
use zua.Puc.Chunk.{TString, Proto}
use zua.Puc.Checker.{vararg_isvararg}
use zua.Puc.Code.State.{ExpDesc, ExpKind, vvoid, vlocal, vcall, Numbers, set_operand}
use zua.Puc.Code.Jumps.{luak_concat, luak_patchtohere}
use zua.Puc.Code.Emit.{luak_jump, luak_ret, luak_fixline, luak_reserveregs}
use zua.Puc.Code.Exps.{luak_setreturns, luak_exp2nextreg, luak_exp2anyreg, luak_storevar}
use zua.Puc.Parser.Tokens.{
  Token, Lexeme, tk_if, tk_then, tk_else, tk_elseif, tk_end, tk_while, tk_do, tk_for, tk_repeat,
  tk_function, tk_local, tk_return, tk_break, tk_until, tk_eos,
}
use zua.Puc.Parser.State.{
  Func, LexState, Outcome, Parse, ◌>>=◌, ◌>>◌, pure, hang, get, top, change, gen, luax_next,
  testnext, check, checknext, check_match, str_checkname, enterlevel, leavelevel, eos_token,
  luai_maxccalls,
}
use zua.Puc.Parser.Scope.{
  init_exp, new_localvar, adjustlocalvars, adjust_assign, singlevar, hasmultret, set_freereg,
  lua_assert, start_locvar,
}
use zua.Puc.Parser.Functions.{open_func, close_func, set_is_vararg}
use zua.Puc.Parser.Exprs.{Rules, field, explist1}
use zua.Puc.Parser.Exprs.Primary.{body}
use zua.Puc.Parser.Exprs.Operators.{subexpr}
use zua.Puc.Parser.Stats.Assign.{exprstat}
use zua.Puc.Parser.Stats.Loops.{block, cond, whilestat, repeatstat, forstat, breakstat}

unfoldable pub block_follow : ℕ → Bool
block_follow token =
    token == tk_else
    || token == tk_elseif
    || token == tk_end
    || token == tk_until
    || token == tk_eos

-- What retstat does with the values `e`, `nret` of them.
module _ (num : Numbers) where
  -- `SET_OPCODE(getcode(fs,&e), OP_TAILCALL)`
  abbrev pub tail_call : ExpDesc → ExpKind → ℕ → Parse (Unit {0})
  tail_call e vcall nret =
      if nret == 1 then gen (set_operand set_opcode e.info (opcode_number op_tailcall)) else pure tt
  tail_call e _ nret = pure tt

  -- The first register to return, and the number of values.
  unfoldable pub return_values : ℕ → ExpDesc → Parse (ℕ × Option ℕ)
  return_values nret e =
      if hasmultret e.k
      then (do
        gen (luak_setreturns e none)
        tail_call e e.k nret
        f ← top
        pure (f.gen.nactvar, none))
      else (if nret == 1
          then (do (_, first) ← gen (luak_exp2anyreg num e); pure (first, some nret))
          else (do _ ← gen (luak_exp2nextreg num e); f ← top; pure (f.gen.nactvar, some nret)))

module _ (num : Numbers) (rules : Rules) (fuel : ℕ) where
  unfoldable pub retstat : Parse (Unit {0})
  unfolding return_values block_follow
  retstat = do
    luax_next
    ls ← get
    (first, nret) ←
        (if block_follow ls.t.token || ls.t.token == b';'
          then pure (0, some 0)
          else (do (nret, e) ← explist1 num rules fuel; return_values num nret e))
    gen (luak_ret first nret)

  unfoldable pub test_then_block : Parse (Option ℕ)
  test_then_block = do
    luax_next
    condexit ← cond num rules
    checknext tk_then
    block num rules
    pure condexit

  -- The jump over the blocks that follow, and the start of the next.
  unfoldable pub next_branch : Option ℕ → Option ℕ → Parse (Option ℕ)
  next_branch escapelist flist = do
    jump ← gen luak_jump
    escapelist ← gen (luak_concat escapelist (some jump))
    gen (luak_patchtohere flist)
    pure escapelist

  -- The loop of ifstat, and the `else` part; the result is `escapelist`.
  unfoldable pub branches : ℕ → Option ℕ → Option ℕ → Parse (Option ℕ)
  unfolding test_then_block next_branch
  branches zero escapelist flist = hang
  branches (suc rounds) escapelist flist = do
    ls ← get
    if ls.t.token == tk_elseif
        then (do
          escapelist ← next_branch escapelist flist
          flist ← test_then_block
          branches rounds escapelist flist)
        else (if ls.t.token == tk_else
            then (do
              escapelist ← next_branch escapelist flist
              luax_next
              block num rules
              pure escapelist)
            else gen (luak_concat escapelist flist))

  unfoldable pub ifstat : ℕ → Parse (Unit {0})
  unfolding branches
  ifstat line = do
    flist ← test_then_block
    escapelist ← branches fuel none flist
    gen (luak_patchtohere escapelist)
    check_match tk_end tk_if line

  -- The debug information sees the function's variable from here on.
  abbrev pub start_last : Func → Option Func
  start_last f = if f.gen.nactvar == 0 then none else start_locvar (f.gen.nactvar - 1) f

  unfoldable pub localfunc : Parse (Unit {0})
  unfolding start_locvar
  localfunc = do
    name ← str_checkname
    new_localvar name 0
    f ← top
    let v = init_exp vlocal f.gen.freereg
    gen (luak_reserveregs 1)
    adjustlocalvars 1
    ls ← get
    b ← body num rules fuel false ls.linenumber
    _ ← gen (luak_storevar num v b)
    change start_last

  -- The names of localstat, counted from `nvars` on.
  unfoldable pub local_names : ℕ → ℕ → Parse ℕ
  local_names zero nvars = hang
  local_names (suc rounds) nvars = do
    name ← str_checkname
    new_localvar name nvars
    more ← testnext b','
    if more then local_names rounds (nvars + 1) else pure (nvars + 1)

  unfoldable pub localstat : Parse (Unit {0})
  unfolding local_names
  localstat = do
    nvars ← local_names fuel 0
    more ← testnext b'='
    (nexps, e) ← (if more then explist1 num rules fuel else pure (0, init_exp vvoid 0))
    adjust_assign num nvars nexps e
    adjustlocalvars nvars

  -- The loop of funcname.
  unfoldable pub name_fields : ℕ → ExpDesc → Parse ExpDesc
  name_fields zero v = hang
  name_fields (suc rounds) v = do
    ls ← get
    if ls.t.token == b'.' then (do v ← field num v; name_fields rounds v) else pure v

  unfoldable pub funcname : Parse (Bool × ExpDesc)
  unfolding name_fields
  funcname = do
    v ← singlevar num
    v ← name_fields fuel v
    ls ← get
    if ls.t.token == b':' then (do v ← field num v; pure (true, v)) else pure (false, v)

  unfoldable pub funcstat : ℕ → Parse (Unit {0})
  unfolding funcname
  funcstat line = do
    luax_next
    (needself, v) ← funcname
    b ← body num rules fuel needself line
    _ ← gen (luak_storevar num v b)
    gen (luak_fixline line)

  unfoldable pub local_rule : Parse (Unit {0})
  unfolding localfunc localstat
  local_rule = do
    luax_next
    is_function ← testnext tk_function
    if is_function then localfunc else localstat

  abbrev pub not_last : Parse (Unit {0}) → Parse Bool
  not_last m = do m; pure false

  abbrev pub is_last : Parse (Unit {0}) → Parse Bool
  is_last m = do m; pure true

  -- The result says that the statement must be the last one.
  unfoldable pub statement : Parse Bool
  unfolding ifstat local_rule funcstat retstat
  statement = do
    ls ← get
    let line = ls.linenumber
    if ls.t.token == tk_if
        then not_last (ifstat line)
        else (if ls.t.token == tk_while
            then not_last (whilestat num rules line)
            else (if ls.t.token == tk_do
                then not_last (do luax_next; block num rules; check_match tk_end tk_do line)
                else (if ls.t.token == tk_for
                    then not_last (forstat num rules fuel line)
                    else (if ls.t.token == tk_repeat
                        then not_last (repeatstat num rules line)
                        else (if ls.t.token == tk_function
                            then not_last (funcstat line)
                            else (if ls.t.token == tk_local
                                then not_last local_rule
                                else (if ls.t.token == tk_return
                                    then is_last retstat
                                    else (if ls.t.token == tk_break
                                        then is_last (do luax_next; breakstat)
                                        else not_last (exprstat num rules fuel)))))))))

  -- The registers behind the active variables are free.
  abbrev pub free_registers : Parse (Unit {0})
  free_registers = do
    f ← top
    lua_assert (leb f.gen.freereg f.gen.maxstacksize && leb f.gen.nactvar f.gen.freereg)
    set_freereg f.gen.nactvar

  -- The loop of chunk.
  unfoldable pub statements : ℕ → Parse (Unit {0})
  unfolding statement
  statements zero = hang
  statements (suc rounds) = do
    ls ← get
    if block_follow ls.t.token then pure tt else (do
      islast ← statement
      _ ← testnext b';'
      free_registers
      if islast then pure tt else statements rounds)

  unfoldable pub chunk : Parse (Unit {0})
  unfolding statements
  chunk = do enterlevel; statements fuel; leavelevel

-- The rules for at most `depth` levels of recursion.
module _ (num : Numbers) (fuel : ℕ) where
  unfoldable pub grammar : ℕ → Rules
  unfolding subexpr chunk
  grammar zero = record { subexpr = λ _. hang; chunk = hang }
  grammar (suc depth) =
      let rules = grammar depth in
      record { subexpr = subexpr num rules fuel; chunk = chunk num rules fuel }

  unfoldable pub main_func : Parse Proto
  unfolding grammar set_is_vararg open_func
  main_func = do
    open_func 0
    set_is_vararg vararg_isvararg
    luax_next
    (grammar (luai_maxccalls + 1)).chunk
    check tk_eos
    closed ← close_func
    pure closed.f

-- The LexState of luaX_setinput.
abbrev pub setinput : List Lexeme → Option TString → ℕ → LexState
setinput input source nccalls = record {
  input = input;
  t = eos_token;
  lookahead = eos_token;
  linenumber = 1;
  lastline = 1;
  nccalls = nccalls;
  source = source;
  fs = [];
}

unfoldable pub luay_parser : Numbers → List Lexeme → Option TString → ℕ → Outcome Proto
unfolding main_func
luay_parser num input source nccalls =
    main_func num (length input + 2) (setinput input source nccalls)
