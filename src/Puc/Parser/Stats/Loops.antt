-- ===== src/Puc/Parser/Stats/Loops.antt =====
-- lua-5.1/src/lparser.c: blocks, conditions and loops.
use zua.Prelude.{
  ℕ, zero, suc, ◌+◌, ◌-◌, ◌*◌, ◌^◌, Bool, true, false, ◌||◌, List, [], ◌∷◌, Option, none, some,
  ◌==◌, if◌then◌else◌, set, get_elem?,
}
use zua.Prelude.Int.{negsuc}
use zua.Puc.Opmodes.{op_close, op_forprep, op_forloop, op_tforloop, op_loadk}
use zua.Puc.Chunk.{TString}
use zua.Puc.Code.State.{ExpKind, vnil, vfalse, Numbers}
use zua.Puc.Code.Jumps.{luak_concat, luak_patchlist, luak_patchtohere, luak_getlabel}
use zua.Puc.Code.Emit.{
  luak_codeabc, luak_codeabx, luak_codeasbx, luak_jump, luak_reserveregs, luak_fixline,
  luak_checkstack,
}
use zua.Puc.Code.Consts.{luak_numberk}
use zua.Puc.Code.Exps.{luak_exp2nextreg}
use zua.Puc.Code.Conds.{luak_goiftrue}
use zua.Puc.Parser.Tokens.{tk_do, tk_end, tk_while, tk_until, tk_repeat, tk_in, tk_for}
use zua.Puc.Parser.State.{
  BlockCnt, Func, syntax_error, Parse, ◌>>=◌, ◌>>◌, pure, raise, lost, hang, get, top, change, gen,
  luax_next, testnext, checknext, check_match, str_checkname,
}
use zua.Puc.Parser.Scope.{enterblock, leaveblock, new_localvar, adjustlocalvars, adjust_assign}
use zua.Puc.Parser.Exprs.{Rules, expr, explist1}

-- The loop of breakstat: the number of blocks before the innermost loop, whether one of them has an upvalue, and
-- the loop.
unfoldable pub find_loop : List BlockCnt → ℕ → Bool → Option (ℕ × Bool × BlockCnt)
find_loop [] depth upval = none
find_loop (b ∷ bl) depth upval =
    let rest = find_loop bl (depth + 1) (upval || b.upval) in
    if b.isbreakable then some (depth, upval, b) else rest

-- `bl->breaklist = list`
abbrev pub set_breaklist : ℕ → Option ℕ → Func → Option Func
set_breaklist depth list f = elim (get_elem? f.bl depth) [
  | none ↦ none
  | some b ↦ some (record f { bl = set f.bl depth (record b { breaklist = list }) })
]

abbrev pub break_from : Option (ℕ × Bool × BlockCnt) → Parse (Unit {0})
break_from none = raise syntax_error
break_from (some (depth, upval, b)) = do
  if upval then (do _ ← gen (luak_codeabc op_close b.nactvar 0 0); pure tt) else pure tt
  jump ← gen luak_jump
  list ← gen (luak_concat b.breaklist (some jump))
  change (set_breaklist depth list)

unfoldable pub breakstat : Parse (Unit {0})
unfolding find_loop
breakstat = do f ← top; break_from (find_loop f.bl 0 false)

-- "(for index)" and the other names of control variables.
abbrev for_index : TString
for_index = b'(' ∷ b'f' ∷ b'o' ∷ b'r' ∷ b' ' ∷ b'i' ∷ b'n' ∷ b'd' ∷ b'e' ∷ b'x' ∷ b')' ∷ []

abbrev for_limit : TString
for_limit = b'(' ∷ b'f' ∷ b'o' ∷ b'r' ∷ b' ' ∷ b'l' ∷ b'i' ∷ b'm' ∷ b'i' ∷ b't' ∷ b')' ∷ []

abbrev for_step : TString
for_step = b'(' ∷ b'f' ∷ b'o' ∷ b'r' ∷ b' ' ∷ b's' ∷ b't' ∷ b'e' ∷ b'p' ∷ b')' ∷ []

abbrev for_generator : TString
for_generator =
    b'(' ∷ b'f' ∷ b'o' ∷ b'r' ∷ b' ' ∷ b'g' ∷ b'e' ∷ b'n' ∷ b'e' ∷ b'r' ∷ b'a' ∷ b't' ∷ b'o' ∷ b'r'
    ∷ b')' ∷ []

abbrev for_state : TString
for_state = b'(' ∷ b'f' ∷ b'o' ∷ b'r' ∷ b' ' ∷ b's' ∷ b't' ∷ b'a' ∷ b't' ∷ b'e' ∷ b')' ∷ []

abbrev for_control : TString
for_control =
    b'(' ∷ b'f' ∷ b'o' ∷ b'r' ∷ b' ' ∷ b'c' ∷ b'o' ∷ b'n' ∷ b't' ∷ b'r' ∷ b'o' ∷ b'l' ∷ b')' ∷ []

-- The lua_Number 1.
abbrev number_one : ℕ
number_one = 1023 * 2 ^ 52

module _ (num : Numbers) (rules : Rules) where
  -- The lua_assert on the list of breaks is left out: a `break` stands in a loop.
  unfoldable pub block : Parse (Unit {0})
  block = do enterblock false; rules.chunk; leaveblock

  -- "`falses' are all equal here"
  abbrev pub normal_kind : ExpKind → ExpKind
  normal_kind vnil = vfalse
  normal_kind k = k

  unfoldable pub cond : Parse (Option ℕ)
  cond = do
    v ← expr num rules
    v ← gen (luak_goiftrue num (record v { k = normal_kind v.k }))
    pure v.f

  unfoldable pub whilestat : ℕ → Parse (Unit {0})
  unfolding block cond
  whilestat line = do
    luax_next
    whileinit ← gen luak_getlabel
    condexit ← cond
    enterblock true
    checknext tk_do
    block
    jump ← gen luak_jump
    gen (luak_patchlist (some jump) whileinit)
    check_match tk_end tk_while line
    leaveblock
    gen (luak_patchtohere condexit)

  -- The end of repeatstat, by whether the scope has upvalues.
  unfoldable pub close_repeat : Option ℕ → ℕ → Bool → Parse (Unit {0})
  unfolding breakstat
  close_repeat condexit repeat_init false = do leaveblock; gen (luak_patchlist condexit repeat_init)
  close_repeat condexit repeat_init true = do
    breakstat
    gen (luak_patchtohere condexit)
    leaveblock
    jump ← gen luak_jump
    gen (luak_patchlist (some jump) repeat_init)

  -- `bl2.upval`
  abbrev pub scope_upval : List BlockCnt → Parse Bool
  scope_upval [] = lost
  scope_upval (b ∷ bl) = pure b.upval

  unfoldable pub repeatstat : ℕ → Parse (Unit {0})
  unfolding cond close_repeat
  repeatstat line = do
    repeat_init ← gen luak_getlabel
    enterblock true
    enterblock false
    luax_next
    rules.chunk
    check_match tk_until tk_repeat line
    condexit ← cond
    f ← top
    upval ← scope_upval f.bl
    close_repeat condexit repeat_init upval
    leaveblock

  unfoldable pub exp1 : Parse ExpKind
  exp1 = do e ← expr num rules; _ ← gen (luak_exp2nextreg num e); pure e.k

  unfoldable pub forbody : ℕ → ℕ → ℕ → Bool → Parse (Unit {0})
  unfolding block
  forbody base line nvars isnum = do
    adjustlocalvars 3
    checknext tk_do
    prep ← gen (if isnum then luak_codeasbx op_forprep base (negsuc 0) else luak_jump)
    enterblock false
    adjustlocalvars nvars
    gen (luak_reserveregs nvars)
    block
    leaveblock
    gen (luak_patchtohere (some prep))
    endfor ← gen (
        if isnum
        then luak_codeasbx op_forloop base (negsuc 0)
        else luak_codeabc op_tforloop base 0 nvars)
    gen (luak_fixline line)
    back ← (if isnum then pure endfor else gen luak_jump)
    gen (luak_patchlist (some back) (prep + 1))

  -- The step of a numeric loop, 1 by default.
  unfoldable pub for_step_exp : Bool → Parse (Unit {0})
  unfolding exp1
  for_step_exp true = do _ ← exp1; pure tt
  for_step_exp false = do
    f ← top
    k ← gen (luak_numberk num number_one)
    _ ← gen (luak_codeabx op_loadk f.gen.freereg k)
    gen (luak_reserveregs 1)

  unfoldable pub fornum : TString → ℕ → Parse (Unit {0})
  unfolding exp1 forbody for_step_exp
  fornum varname line = do
    f ← top
    let base = f.gen.freereg
    new_localvar for_index 0
    new_localvar for_limit 1
    new_localvar for_step 2
    new_localvar varname 3
    checknext b'='
    _ ← exp1
    checknext b','
    _ ← exp1
    more ← testnext b','
    for_step_exp more
    forbody base line 1 true

  -- The declared variables that follow, counted from `nvars` on.
  unfoldable pub for_names : ℕ → ℕ → Parse ℕ
  for_names zero nvars = hang
  for_names (suc rounds) nvars = do
    more ← testnext b','
    if more
        then (do name ← str_checkname; new_localvar name nvars; for_names rounds (nvars + 1))
        else pure nvars

  module _ (fuel : ℕ) where
    unfoldable pub forlist : TString → Parse (Unit {0})
    unfolding for_names forbody
    forlist indexname = do
      f ← top
      let base = f.gen.freereg
      new_localvar for_generator 0
      new_localvar for_state 1
      new_localvar for_control 2
      new_localvar indexname 3
      nvars ← for_names fuel 4
      checknext tk_in
      ls ← get
      let line = ls.linenumber
      (nexps, e) ← explist1 num rules fuel
      adjust_assign num 3 nexps e
      gen (luak_checkstack 3)
      forbody base line (nvars - 3) false

    unfoldable pub forstat : ℕ → Parse (Unit {0})
    unfolding fornum forlist
    forstat line = do
      enterblock true
      luax_next
      varname ← str_checkname
      ls ← get
      if ls.t.token == b'='
          then fornum varname line
          else (if ls.t.token == b',' || ls.t.token == tk_in
              then forlist varname
              else raise syntax_error)
      check_match tk_end tk_for line
      leaveblock
