-- ===== src/Puc/Code/Calls.antt =====
-- The functions of lua-5.1/src/lcode.c that the parser calls, and the state that open_func of
-- lua-5.1/src/lparser.c starts from.
use zua.Prelude.{ℕ, List, [], ◌∷◌, Option, none}
use zua.Puc.Opmodes.{OpCode}
use zua.Puc.Chunk.{TString}
use zua.Puc.Code.State.{FuncState, Gen, pure, ◌>>=◌, ◌>>◌, ExpDesc, BinOpr, UnOpr, Numbers}
use zua.Puc.Code.Jumps.{luak_getlabel, luak_concat, luak_patchtohere, luak_patchlist}
use zua.Puc.Code.Emit.{
  luak_codeabc, luak_codeabx, luak_jump, luak_ret, luak_nil, luak_fixline, luak_checkstack,
  luak_reserveregs,
}
use zua.Puc.Code.Consts.{luak_stringk, luak_numberk}
use zua.Puc.Code.Exps.{
  luak_setreturns, luak_setoneret, luak_dischargevars, luak_exp2nextreg, luak_exp2anyreg,
  luak_exp2val, luak_exp2rk, luak_storevar, luak_self,
}
use zua.Puc.Code.Conds.{luak_goiftrue}
use zua.Puc.Code.Ops.{luak_indexed, luak_prefix, luak_infix, luak_posfix}

-- The functions that lcode.h declares, but luaK_setlist.
pub data Call : Type 0 where
  codeabc : OpCode → ℕ → ℕ → ℕ → Call
  codeabx : OpCode → ℕ → ℕ → Call
  fixline : ℕ → Call
  nil_call : ℕ → ℕ → Call
  reserveregs : ℕ → Call
  checkstack : ℕ → Call
  stringk : TString → Call
  numberk : ℕ → Call
  dischargevars : ExpDesc → Call
  exp2anyreg : ExpDesc → Call
  exp2nextreg : ExpDesc → Call
  exp2val : ExpDesc → Call
  exp2rk : ExpDesc → Call
  self_call : ExpDesc → ExpDesc → Call
  indexed : ExpDesc → ExpDesc → Call
  goiftrue : ExpDesc → Call
  storevar : ExpDesc → ExpDesc → Call
  setreturns : ExpDesc → Option ℕ → Call
  setoneret : ExpDesc → Call
  jump : Call
  ret : ℕ → Option ℕ → Call
  patchlist : Option ℕ → ℕ → Call
  patchtohere : Option ℕ → Call
  concat : Option ℕ → Option ℕ → Call
  getlabel : Call
  prefix : UnOpr → ExpDesc → Call
  infix_call : BinOpr → ExpDesc → Call
  posfix : BinOpr → ExpDesc → ExpDesc → Call

abbrev ignore : {A : Type 0} → Gen A → Gen (Unit {0})
ignore m = do _ ← m; pure tt

module _ (num : Numbers) where
  unfoldable pub run_call : Call → Gen (Unit {0})
  run_call (codeabc o a b c) = ignore (luak_codeabc o a b c)
  run_call (codeabx o a bc) = ignore (luak_codeabx o a bc)
  run_call (fixline line) = luak_fixline line
  run_call (nil_call from n) = luak_nil from n
  run_call (reserveregs n) = luak_reserveregs n
  run_call (checkstack n) = luak_checkstack n
  run_call (stringk s) = ignore (luak_stringk num s)
  run_call (numberk r) = ignore (luak_numberk num r)
  run_call (dischargevars e) = ignore (luak_dischargevars e)
  run_call (exp2anyreg e) = ignore (luak_exp2anyreg num e)
  run_call (exp2nextreg e) = ignore (luak_exp2nextreg num e)
  run_call (exp2val e) = ignore (luak_exp2val num e)
  run_call (exp2rk e) = ignore (luak_exp2rk num e)
  run_call (self_call e key) = ignore (luak_self num e key)
  run_call (indexed t k) = ignore (luak_indexed num t k)
  run_call (goiftrue e) = ignore (luak_goiftrue num e)
  run_call (storevar var ex) = ignore (luak_storevar num var ex)
  run_call (setreturns e n) = luak_setreturns e n
  run_call (setoneret e) = ignore (luak_setoneret e)
  run_call jump = ignore luak_jump
  run_call (ret first nret) = luak_ret first nret
  run_call (patchlist list target) = luak_patchlist list target
  run_call (patchtohere list) = luak_patchtohere list
  run_call (concat l1 l2) = ignore (luak_concat l1 l2)
  run_call getlabel = ignore luak_getlabel
  run_call (prefix op e) = ignore (luak_prefix num op e)
  run_call (infix_call op v) = ignore (luak_infix num op v)
  run_call (posfix op e1 e2) = ignore (luak_posfix num op e1 e2)

  unfoldable pub run_calls : List Call → Gen (Unit {0})
  run_calls [] = pure tt
  run_calls (call ∷ calls) = do run_call call; run_calls calls

-- The FuncState of open_func; registers 0 and 1 are always valid.
abbrev pub opened_funcstate : ℕ → FuncState
opened_funcstate lastline = record {
  code = [];
  lineinfo = [];
  k = [];
  maxstacksize = 2;
  h = [];
  pc = 0;
  lasttarget = none;
  jpc = none;
  freereg = 0;
  nk = 0;
  nactvar = 0;
  lastline = lastline;
}
