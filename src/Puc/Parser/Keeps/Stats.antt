-- ===== src/Puc/Parser/Keeps/Stats.antt =====
-- Statements of lua-5.1/src/lparser.c: what their rules uphold.
use zua.Prelude.{
  ℕ, zero, suc, ◌+◌, ◌≤◌, ◌≡◌, ◌≢◌, false, Option, none, ◌==◌, ◌&&◌, leb, ltb, Bool-cases, inl, inr,
  arith,
}
use zua.Puc.Word.{set_opcode}
use zua.Puc.Word.Fields.{set_fields}
use zua.Puc.Opmodes.{op_tailcall, opcode_number}
use zua.Puc.Code.State.{ExpDesc, ExpKind, vcall, Numbers, set_operand}
use zua.Puc.Code.Keeps.{Keeps}
use zua.Puc.Code.Keeps.Jumps.{luak_concat-Keeps, luak_patchtohere-Keeps, set_operand-Keeps}
use zua.Puc.Code.Keeps.Emit.{
  luak_jump-Keeps, luak_ret-Keeps, luak_fixline-Keeps, luak_reserveregs-Keeps,
}
use zua.Puc.Code.Keeps.Exps.{
  luak_setreturns-Keeps, luak_exp2nextreg-Keeps, luak_exp2anyreg-Keeps, luak_storevar-Keeps,
}
use zua.Puc.Parser.Tokens.{tk_eos, tk_elseif}
use zua.Puc.Parser.State.{change, enterlevel, leavelevel, ◌>>=◌, luai_maxccalls}
use zua.Puc.Parser.Exprs.{Rules}
use zua.Puc.Parser.Stats.{
  block_follow, tail_call, return_values, retstat, test_then_block, next_branch, branches, ifstat,
  start_last, localfunc, local_names, localstat, name_fields, funcname, funcstat, local_rule,
  statement, free_registers, statements, chunk, grammar,
}
use zua.Puc.Parser.Keeps.{fails, returns, Post-bind, Upholds, Stays, Falls}
use zua.Puc.Parser.Keeps.Rules.{
  upholds_rules, falls_rules, stays_rules, Upholds-Stays, Upholds-bind, Upholds-pure, Upholds-if,
  Upholds-weaken, Upholds-round, Upholds-here, Here-if, Here-else, Here-Upholds, Falls-then,
  Falls-after,
}
use zua.Puc.Parser.Keeps.Actions.{
  luax_next-Upholds, luax_next-Falls, testnext-Upholds, testnext-Tests, checknext-Upholds,
  check_match-Upholds, str_checkname-Upholds,
}
use zua.Puc.Parser.Keeps.Updates.{strayed, gen-Upholds, gen-Stays, change-Upholds, top-Upholds}
use zua.Puc.Parser.Keeps.Scope.{
  Changes-if, start_locvar-Changes, new_localvar-Upholds, adjustlocalvars-Upholds,
  adjust_assign-Upholds, set_freereg-Upholds,
}
use zua.Puc.Parser.Keeps.Lookup.{singlevar-Upholds}
use zua.Puc.Parser.Keeps.Blocks.{Upholds-top, Upholds-assert}
use zua.Puc.Parser.Keeps.Exprs.{
  RulesHold, Upholds-zero, explist1-Upholds, field-Upholds, field-Falls,
}
use zua.Puc.Parser.Keeps.Operators.{subexpr-Reads, enter-Within, leave-Moves}
use zua.Puc.Parser.Keeps.Body.{body-Upholds}
use zua.Puc.Parser.Keeps.Assign.{exprstat-Falls}
use zua.Puc.Parser.Keeps.Loops.{
  block-Upholds, cond-Upholds, breakstat-Upholds, whilestat-Falls, repeatstat-Falls, forstat-Falls,
}

follow_token : (token : ℕ) → block_follow token ≡ false → token ≢ tk_eos
unfolding block_follow
follow_token token h = ground arith

set_opcode-Keeps : (pc : ℕ) → Keeps (set_operand set_opcode pc (opcode_number op_tailcall))
set_opcode-Keeps pc =
    set_operand-Keeps set_opcode pc _
      (λ w h. omega (arith, set_fields w (opcode_number op_tailcall) h))

module _ {b d r : ℕ} (num : Numbers) where
  tail_call-Upholds :
      (e : ExpDesc) (kind : ExpKind) (nret : ℕ) → Upholds b d r (tail_call num e kind nret)
  tail_call-Upholds e vcall nret = search (upholds_rules, gen-Upholds, set_opcode-Keeps) depth 20
  tail_call-Upholds e _ nret = search upholds_rules

  return_values-Upholds : (nret : ℕ) (e : ExpDesc) → Upholds b d r (return_values num nret e)
  unfolding return_values
  return_values-Upholds nret e =
      search
        (
          upholds_rules, gen-Upholds, top-Upholds, tail_call-Upholds, luak_setreturns-Keeps,
          luak_exp2anyreg-Keeps, luak_exp2nextreg-Keeps,
        )
        depth 20

module _ (num : Numbers) (rules : Rules) {fuel d : ℕ} (k : RulesHold fuel d rules) where
  next_branch-Stays :
      {b r : ℕ} (escapelist flist : Option ℕ)
      → Stays b d r (next_branch num rules fuel escapelist flist)
  unfolding next_branch
  next_branch-Stays escapelist flist =
      search (stays_rules, gen-Stays, luak_jump-Keeps, luak_concat-Keeps, luak_patchtohere-Keeps)
        depth 20

  next_branch-Upholds :
      {b r : ℕ} (escapelist flist : Option ℕ)
      → Upholds b d r (next_branch num rules fuel escapelist flist)
  next_branch-Upholds escapelist flist = Upholds-Stays _ (next_branch-Stays escapelist flist)

  test_then_block-Falls : (b : ℕ) {r : ℕ} → b ≤ fuel → Falls b d r (test_then_block num rules fuel)
  unfolding test_then_block
  test_then_block-Falls b le =
      Falls-then _ _ luax_next-Falls
        (λ _. search (upholds_rules, cond-Upholds, checknext-Upholds, block-Upholds) depth 20)

  branches-Upholds :
      (rounds : ℕ) {r : ℕ} (escapelist flist : Option ℕ)
      → rounds ≤ fuel
      → Upholds rounds d r (branches num rules fuel rounds escapelist flist)
  unfolding branches
  branches-Upholds zero escapelist flist le = Upholds-zero _
  branches-Upholds (suc rounds) escapelist flist le =
      let less : rounds ≤ fuel = omega arith in
      Upholds-here _ (λ ls.
        Here-if ls.t.token (ls.t.token == tk_elseif) _ _ (λ e. ground arith)
          (Falls-after _ _ (next_branch-Stays escapelist flist) (λ list.
            Falls-then _ _ (test_then_block-Falls rounds less)
              (λ flist. branches-Upholds rounds list flist less)))
          (Here-Upholds _ _ (
            search
              (
                upholds_rules, next_branch-Upholds, luax_next-Upholds, block-Upholds, gen-Upholds,
                luak_concat-Keeps,
              )
              depth 20)))

  ifstat-Falls :
      (b : ℕ) {r : ℕ} (line : ℕ) → suc b ≤ fuel → Falls b d r (ifstat num rules fuel line)
  unfolding ifstat
  ifstat-Falls b {r} line le = Falls-then _ _ (test_then_block-Falls b (omega arith)) (λ flist.
      Upholds-bind _ _
        (Upholds-weaken {r = 0} b r _ (omega arith) (omega arith)
          (branches-Upholds fuel none flist (omega arith)))
        (λ list.
          search (upholds_rules, gen-Upholds, luak_patchtohere-Keeps, check_match-Upholds) depth
            20))

  module _ (b : ℕ) (le : b ≤ fuel) where
    retstat-Falls : {r : ℕ} → Falls b d r (retstat num rules fuel)
    unfolding retstat
    retstat-Falls = Falls-then _ _ luax_next-Falls (λ _.
        search (upholds_rules, explist1-Upholds, return_values-Upholds, gen-Upholds, luak_ret-Keeps)
          depth 30)

    start_last-Upholds : {r : ℕ} → Upholds b d r (change (start_last num rules fuel))
    start_last-Upholds = change-Upholds _ (λ f h _.
        Changes-if (f.gen.nactvar == 0) _ _ (λ _. strayed) (λ _. start_locvar-Changes _ f h))

    localfunc-Upholds : {r : ℕ} → Upholds b d r (localfunc num rules fuel)
    unfolding localfunc
    localfunc-Upholds =
        search
          (
            upholds_rules, str_checkname-Upholds, new_localvar-Upholds, top-Upholds, gen-Upholds,
            luak_reserveregs-Keeps, adjustlocalvars-Upholds, body-Upholds, luak_storevar-Keeps,
            start_last-Upholds,
          )
          depth 40

  local_names-Upholds :
      (rounds : ℕ) {r : ℕ} (nvars : ℕ)
      → Upholds rounds d r (local_names num rules fuel rounds nvars)
  unfolding local_names
  local_names-Upholds zero nvars = Upholds-zero _
  local_names-Upholds (suc rounds) nvars = Upholds-bind _ _ str_checkname-Upholds (λ name.
      Upholds-bind _ _ (new_localvar-Upholds name nvars) (λ _.
        Upholds-round _ _ _ (testnext-Tests b',' (omega arith))
          (local_names-Upholds rounds (nvars + 1)) (Upholds-pure (nvars + 1))))

  name_fields-Upholds :
      (rounds : ℕ) {r : ℕ} (v : ExpDesc) → Upholds rounds d r (name_fields num rules fuel rounds v)
  unfolding name_fields
  name_fields-Upholds zero v = Upholds-zero _
  name_fields-Upholds (suc rounds) v = Upholds-here _ (λ ls.
      Here-if _ _ _ _ (λ e. ground arith)
        (Falls-then _ _ (field-Falls num v) (λ v. name_fields-Upholds rounds v))
        (Here-Upholds _ _ (Upholds-pure v)))

  module _ (b : ℕ) (le : b ≤ fuel) where
    all_locals-Upholds : {r : ℕ} (nvars : ℕ) → Upholds b d r (local_names num rules fuel fuel nvars)
    all_locals-Upholds {r} nvars =
        Upholds-weaken {r = 0} b r _ le (omega arith) (local_names-Upholds fuel nvars)

    localstat-Upholds : {r : ℕ} → Upholds b d r (localstat num rules fuel)
    unfolding localstat
    localstat-Upholds =
        search
          (
            upholds_rules, all_locals-Upholds, testnext-Upholds, explist1-Upholds,
            adjust_assign-Upholds, adjustlocalvars-Upholds,
          )
          depth 30

    local_rule-Falls : {r : ℕ} → Falls b d r (local_rule num rules fuel)
    unfolding local_rule
    local_rule-Falls = Falls-then _ _ luax_next-Falls (λ _.
        search (upholds_rules, testnext-Upholds, localfunc-Upholds, localstat-Upholds) depth 20)

    all_fields-Upholds : {r : ℕ} (v : ExpDesc) → Upholds b d r (name_fields num rules fuel fuel v)
    all_fields-Upholds {r} v =
        Upholds-weaken {r = 0} b r _ le (omega arith) (name_fields-Upholds fuel v)

    funcname-Upholds : {r : ℕ} → Upholds b d r (funcname num rules fuel)
    unfolding funcname
    funcname-Upholds =
        search (upholds_rules, singlevar-Upholds, all_fields-Upholds, field-Upholds) depth 20

    funcstat-Falls : {r : ℕ} (line : ℕ) → Falls b d r (funcstat num rules fuel line)
    unfolding funcstat
    funcstat-Falls line = Falls-then _ _ luax_next-Falls (λ _.
        search
          (
            upholds_rules, funcname-Upholds, body-Upholds, gen-Upholds, luak_storevar-Keeps,
            luak_fixline-Keeps,
          )
          depth 20)

  statement-Falls : (b : ℕ) {r : ℕ} → suc b ≤ fuel → Falls b d r (statement num rules fuel)
  unfolding statement
  statement-Falls b le =
      let less : b ≤ fuel = omega arith in
      search
        (
          falls_rules, upholds_rules, luax_next-Falls, ifstat-Falls, whilestat-Falls, forstat-Falls,
          repeatstat-Falls, funcstat-Falls, local_rule-Falls, retstat-Falls, exprstat-Falls,
          block-Upholds, check_match-Upholds, breakstat-Upholds,
        )
        depth 40

  free_registers-Upholds : {b r : ℕ} → Upholds b d r (free_registers num rules fuel)
  free_registers-Upholds = Upholds-top _ (λ f h.
      Upholds-assert (leb f.gen.freereg f.gen.maxstacksize && leb f.gen.nactvar f.gen.freereg) _
        (λ e. set_freereg-Upholds f.gen.nactvar (ground arith)))

  statements-Upholds :
      (rounds : ℕ) {r : ℕ} → rounds ≤ fuel → Upholds rounds d r (statements num rules fuel rounds)
  unfolding statements
  statements-Upholds zero le = Upholds-zero _
  statements-Upholds (suc rounds) le =
      let less : rounds ≤ fuel = omega arith in
      Upholds-here _ (λ ls.
        Here-else ls.t.token (block_follow ls.t.token) _ _ (follow_token ls.t.token)
          (Here-Upholds _ _ (Upholds-pure tt))
          (Falls-then _ _ (statement-Falls rounds le) (λ islast.
            Upholds-bind _ _ (testnext-Upholds b';') (λ _.
              Upholds-bind _ _ free_registers-Upholds
                (λ _. Upholds-if _ _ _ (Upholds-pure tt) (statements-Upholds rounds less))))))

  pub chunk-Upholds : Upholds fuel (suc d) 0 (chunk num rules fuel)
  unfolding chunk enterlevel leavelevel ◌>>=◌
  chunk-Upholds = record {
    at = λ ls h. elim (Bool-cases (ltb luai_maxccalls (ls.nccalls + 1))) [
      | inl over ↦ rw over fails
      | inr room ↦ rw room (
          Post-bind (statements num rules fuel fuel) (λ _. leavelevel)
            (record ls { nccalls = ls.nccalls + 1 })
            ((statements-Upholds fuel (omega arith)).at (record ls { nccalls = ls.nccalls + 1 })
              (enter-Within ls h (ground arith)))
            (λ _ ls' p. returns (leave-Moves ls ls' p)))
    ];
  }

-- The rules of the grammar, at any depth.
pub grammar-RulesHold :
    (num : Numbers) (fuel depth : ℕ) → RulesHold fuel depth (grammar num fuel depth)
unfolding grammar
grammar-RulesHold num fuel zero = record {
  subexpr = λ limit ls h. absurd (omega (arith, h.levels, h.height));
  chunk = record { at = λ ls h. absurd (omega (arith, h.levels, h.height)) };
}
grammar-RulesHold num fuel (suc depth) =
    let k : RulesHold fuel depth (grammar num fuel depth) = grammar-RulesHold num fuel depth in
    record {
      subexpr = subexpr-Reads num (grammar num fuel depth) k;
      chunk = chunk-Upholds num (grammar num fuel depth) k;
    }
