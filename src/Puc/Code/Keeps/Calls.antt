-- ===== src/Puc/Code/Keeps/Calls.antt =====
-- Every sequence of calls of the code generator of lua-5.1/src/lcode.c keeps a FuncState sound.
use zua.Prelude.{ℕ, List, [], ◌∷◌, refl, arith}
use zua.Puc.Code.State.{FuncState, Numbers}
use zua.Puc.Code.Calls.{
  Call, codeabc, codeabx, fixline, nil_call, reserveregs, checkstack, stringk, numberk,
  dischargevars, exp2anyreg, exp2nextreg, exp2val, exp2rk, self_call, indexed, goiftrue, storevar,
  setreturns, setoneret, jump, ret, patchlist, patchtohere, concat, getlabel, prefix, infix_call,
  posfix, run_call, run_calls, opened_funcstate,
}
use zua.Puc.Code.Keeps.{IsSound, Step, Post, Keeps, Keeps-bind, keeps_rules}
use zua.Puc.Code.Keeps.Jumps.{
  luak_concat-Keeps, luak_patchtohere-Keeps, luak_patchlist-Keeps, luak_getlabel-Keeps,
}
use zua.Puc.Code.Keeps.Emit.{
  luak_codeabc-Keeps, luak_codeabx-Keeps, luak_jump-Keeps, luak_ret-Keeps, luak_nil-Keeps,
  luak_fixline-Keeps, luak_checkstack-Keeps, luak_reserveregs-Keeps,
}
use zua.Puc.Code.Keeps.Consts.{luak_stringk-Keeps, luak_numberk-Keeps}
use zua.Puc.Code.Keeps.Exps.{
  luak_setreturns-Keeps, luak_setoneret-Keeps, luak_dischargevars-Keeps, luak_exp2nextreg-Keeps,
  luak_exp2anyreg-Keeps, luak_exp2val-Keeps, luak_exp2rk-Keeps, luak_storevar-Keeps,
  luak_self-Keeps,
}
use zua.Puc.Code.Keeps.Ops.{
  luak_goiftrue-Keeps, luak_indexed-Keeps, luak_prefix-Keeps, luak_infix-Keeps, luak_posfix-Keeps,
}

module _ (num : Numbers) where
  run_call-Keeps : (call : Call) → Keeps (run_call num call)
  unfolding run_call
  run_call-Keeps (codeabc o a b c) = search (keeps_rules, luak_codeabc-Keeps)
  run_call-Keeps (codeabx o a bc) = search (keeps_rules, luak_codeabx-Keeps)
  run_call-Keeps (fixline line) = luak_fixline-Keeps line
  run_call-Keeps (nil_call from n) = luak_nil-Keeps from n
  run_call-Keeps (reserveregs n) = luak_reserveregs-Keeps n
  run_call-Keeps (checkstack n) = luak_checkstack-Keeps n
  run_call-Keeps (stringk s) = search (keeps_rules, luak_stringk-Keeps)
  run_call-Keeps (numberk r) = search (keeps_rules, luak_numberk-Keeps)
  run_call-Keeps (dischargevars e) = search (keeps_rules, luak_dischargevars-Keeps)
  run_call-Keeps (exp2anyreg e) = search (keeps_rules, luak_exp2anyreg-Keeps)
  run_call-Keeps (exp2nextreg e) = search (keeps_rules, luak_exp2nextreg-Keeps)
  run_call-Keeps (exp2val e) = search (keeps_rules, luak_exp2val-Keeps)
  run_call-Keeps (exp2rk e) = search (keeps_rules, luak_exp2rk-Keeps)
  run_call-Keeps (self_call e key) = search (keeps_rules, luak_self-Keeps)
  run_call-Keeps (indexed t k) = search (keeps_rules, luak_indexed-Keeps)
  run_call-Keeps (goiftrue e) = search (keeps_rules, luak_goiftrue-Keeps)
  run_call-Keeps (storevar var ex) = search (keeps_rules, luak_storevar-Keeps)
  run_call-Keeps (setreturns e n) = luak_setreturns-Keeps e n
  run_call-Keeps (setoneret e) = search (keeps_rules, luak_setoneret-Keeps)
  run_call-Keeps jump = search (keeps_rules, luak_jump-Keeps)
  run_call-Keeps (ret first nret) = luak_ret-Keeps first nret
  run_call-Keeps (patchlist list target) = luak_patchlist-Keeps list target
  run_call-Keeps (patchtohere list) = luak_patchtohere-Keeps list
  run_call-Keeps (concat l1 l2) = search (keeps_rules, luak_concat-Keeps)
  run_call-Keeps getlabel = search (keeps_rules, luak_getlabel-Keeps)
  run_call-Keeps (prefix op e) = search (keeps_rules, luak_prefix-Keeps)
  run_call-Keeps (infix_call op v) = search (keeps_rules, luak_infix-Keeps)
  run_call-Keeps (posfix op e1 e2) = search (keeps_rules, luak_posfix-Keeps)

  run_calls-Keeps : (calls : List Call) → Keeps (run_calls num calls)
  unfolding run_calls
  run_calls-Keeps [] = search keeps_rules
  run_calls-Keeps (call ∷ calls) = Keeps-bind _ _ (run_call-Keeps call) (λ _. run_calls-Keeps calls)

  -- Any sequence of calls of the functions that lcode.h declares, but luaK_setlist, with any arguments, on a
  -- sound state: if a state comes back, it is sound. The registers in use fit the frame, which stays below MAXSTACK;
  -- every instruction is a 32-bit word, and has a line; `pc` is neither past the code nor past MAX_INT; `nk`
  -- counts the constants, at most MAXARG_Bx, and every entry of the table is the number of its constant.
  -- Moreover no constant that was there has changed, and the frame did not shrink.
  pub run_calls-IsSound :
      (calls : List Call) (fs : FuncState)
      → IsSound fs
      → Post (λ _ fs'. Step fs fs') (run_calls num calls fs)
  run_calls-IsSound calls fs h = (run_calls-Keeps calls).at fs h

pub opened_funcstate-IsSound : (lastline : ℕ) → IsSound (opened_funcstate lastline)
opened_funcstate-IsSound lastline = record {
  frame = omega arith;
  stack = omega arith;
  words = tt;
  position = omega arith;
  lines = refl;
  size = omega arith;
  count = refl;
  constants = omega arith;
  numbers = tt;
}
