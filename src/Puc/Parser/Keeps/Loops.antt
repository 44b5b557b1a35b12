-- ===== src/Puc/Parser/Keeps/Loops.antt =====
-- Blocks, conditions and loops of lua-5.1/src/lparser.c: what their rules uphold.
use zua.Prelude.{
  ℕ, zero, suc, ◌≤◌, ◌≡◌, refl, Bool, true, false, List, [], ◌∷◌, Option, none, some, set,
  get_elem?, All, arith,
}
use zua.Puc.Chunk.{TString}
use zua.Puc.Code.State.{Numbers}
use zua.Puc.Code.Keeps.{Keeps-if}
use zua.Puc.Code.Keeps.Jumps.{
  luak_concat-Keeps, luak_patchtohere-Keeps, luak_patchlist-Keeps, luak_getlabel-Keeps,
}
use zua.Puc.Code.Keeps.Emit.{
  luak_codeabc-Keeps, luak_codeabx-Keeps, luak_codeasbx-Keeps, luak_jump-Keeps, luak_fixline-Keeps,
  luak_checkstack-Keeps, luak_reserveregs-Keeps,
}
use zua.Puc.Code.Keeps.Consts.{luak_numberk-Keeps}
use zua.Puc.Code.Keeps.Exps.{luak_exp2nextreg-Keeps}
use zua.Puc.Code.Keeps.Ops.{luak_goiftrue-Keeps}
use zua.Puc.Parser.State.{BlockCnt, Func, change}
use zua.Puc.Parser.Exprs.{Rules}
use zua.Puc.Parser.Stats.Loops.{
  set_breaklist, break_from, breakstat, block, cond, whilestat, close_repeat, scope_upval,
  repeatstat, exp1, forbody, for_step_exp, fornum, for_names, forlist, forstat,
}
use zua.Puc.Parser.Keeps.{IsSoundFunc, Upholds, Falls}
use zua.Puc.Parser.Keeps.Rules.{
  upholds_rules, Upholds-pure, Upholds-weaken, Upholds-round, Falls-after, Falls-then,
}
use zua.Puc.Parser.Keeps.Actions.{
  luax_next-Upholds, luax_next-Falls, testnext-Upholds, testnext-Tests, checknext-Upholds,
  check_match-Upholds, str_checkname-Upholds,
}
use zua.Puc.Parser.Keeps.Updates.{
  Changes, strayed, changed, gen-Upholds, gen-Stays, change-Upholds, top-Upholds,
}
use zua.Puc.Parser.Keeps.Scope.{
  new_localvar-Upholds, adjustlocalvars-Upholds, adjust_assign-Upholds, enterblock-Upholds,
  enterblock-Stays,
}
use zua.Puc.Parser.Keeps.Blocks.{leaveblock-Upholds}
use zua.Puc.Parser.Keeps.Exprs.{
  RulesHold, Upholds-zero, expr-Upholds, explist1-Upholds, rules_chunk-Upholds,
}

-- Which jumps a block has is free.
set_block-All :
    (n depth : ℕ) (list : Option ℕ) (b : BlockCnt) (bl : List BlockCnt)
    → All (λ (b : BlockCnt). b.nactvar ≤ n) bl
    → get_elem? bl depth ≡ some b
    → All (λ (b : BlockCnt). b.nactvar ≤ n) (set bl depth (record b { breaklist = list }))
set_block-All n depth list b [] h e = tt
set_block-All n zero list b (c ∷ bl) (h, hs) e = (ground arith, hs)
set_block-All n (suc depth) list b (c ∷ bl) (h, hs) e = (h, set_block-All n depth list b bl hs e)

set_breaklist-Changes :
    (depth : ℕ) (list : Option ℕ) (f : Func)
    → IsSoundFunc f
    → Changes f (set_breaklist depth list f)
set_breaklist-Changes depth list f h = at_block (get_elem? f.bl depth) refl
  where
    at_block :
        (o : Option BlockCnt)
        → get_elem? f.bl depth ≡ o
        → Changes f (elim o [
          | none ↦ none
          | some b ↦ some (record f { bl = set f.bl depth (record b { breaklist = list }) })
        ])
    at_block none e = strayed
    at_block (some b) e = changed (record {
      sound = record {
        gen = h.gen;
        blocks = set_block-All f.gen.maxstacksize depth list b f.bl h.blocks e;
        params = h.params;
        flags = h.flags;
        names = h.names;
        nups = h.nups;
        protos = h.protos;
      };
      frame = omega arith;
    })

module _ {b d r : ℕ} where
  set_breaklist-Upholds :
      (depth : ℕ) (list : Option ℕ) → Upholds b d r (change (set_breaklist depth list))
  set_breaklist-Upholds depth list =
      change-Upholds _ (λ f h _. set_breaklist-Changes depth list f h)

  break_from-Upholds : (o : Option (ℕ × Bool × BlockCnt)) → Upholds b d r (break_from o)
  break_from-Upholds none = search upholds_rules
  break_from-Upholds (some (depth, upval, bl)) =
      search
        (
          upholds_rules, gen-Upholds, luak_codeabc-Keeps, luak_jump-Keeps, luak_concat-Keeps,
          set_breaklist-Upholds,
        )
        depth 20

  pub breakstat-Upholds : Upholds b d r breakstat
  unfolding breakstat
  breakstat-Upholds = search (upholds_rules, top-Upholds, break_from-Upholds) depth 20

  scope_upval-Upholds :
      (num : Numbers) (rules : Rules) (bl : List BlockCnt)
      → Upholds b d r (scope_upval num rules bl)
  scope_upval-Upholds num rules [] = search upholds_rules
  scope_upval-Upholds num rules (block ∷ bl) = search upholds_rules

  close_repeat-Upholds :
      (num : Numbers) (rules : Rules) (condexit : Option ℕ) (repeat_init : ℕ) (upval : Bool)
      → Upholds b d r (close_repeat num rules condexit repeat_init upval)
  unfolding close_repeat
  close_repeat-Upholds num rules condexit repeat_init false =
      search (upholds_rules, leaveblock-Upholds, gen-Upholds, luak_patchlist-Keeps) depth 20
  close_repeat-Upholds num rules condexit repeat_init true =
      search
        (
          upholds_rules, breakstat-Upholds, leaveblock-Upholds, gen-Upholds, luak_patchlist-Keeps,
          luak_patchtohere-Keeps, luak_jump-Keeps,
        )
        depth 20

ruleset loop_keeps = (
  upholds_rules, gen-Upholds, luax_next-Upholds, checknext-Upholds, check_match-Upholds,
  enterblock-Upholds, leaveblock-Upholds, luak_jump-Keeps, luak_patchlist-Keeps,
  luak_patchtohere-Keeps, luak_getlabel-Keeps,
)

module _ (num : Numbers) (rules : Rules) {fuel d : ℕ} (k : RulesHold fuel d rules) where
  module _ (b : ℕ) (le : b ≤ fuel) where
    pub block-Upholds : {r : ℕ} → Upholds b d r (block num rules)
    unfolding block
    block-Upholds = search (loop_keeps, rules_chunk-Upholds) depth 20

    pub cond-Upholds : {r : ℕ} → Upholds b d r (cond num rules)
    unfolding cond
    cond-Upholds = search (loop_keeps, expr-Upholds, luak_goiftrue-Keeps) depth 20

    exp1-Upholds : {r : ℕ} → Upholds b d r (exp1 num rules)
    unfolding exp1
    exp1-Upholds = search (loop_keeps, expr-Upholds, luak_exp2nextreg-Keeps) depth 20

    for_step_exp-Upholds : {r : ℕ} (more : Bool) → Upholds b d r (for_step_exp num rules more)
    unfolding for_step_exp
    for_step_exp-Upholds true = search (loop_keeps, exp1-Upholds) depth 20
    for_step_exp-Upholds false =
        search
          (loop_keeps, top-Upholds, luak_numberk-Keeps, luak_codeabx-Keeps, luak_reserveregs-Keeps)
          depth 20

    forbody-Upholds :
        {r : ℕ} (base line nvars : ℕ) (isnum : Bool)
        → Upholds b d r (forbody num rules base line nvars isnum)
    unfolding forbody
    forbody-Upholds base line nvars isnum =
        search
          (
            loop_keeps, adjustlocalvars-Upholds, block-Upholds, luak_codeabc-Keeps,
            luak_codeasbx-Keeps, luak_reserveregs-Keeps, luak_fixline-Keeps, Keeps-if,
          )
          depth 40

    fornum-Upholds :
        {r : ℕ} (varname : TString) (line : ℕ) → Upholds b d r (fornum num rules varname line)
    unfolding fornum
    fornum-Upholds varname line =
        search
          (
            loop_keeps, top-Upholds, new_localvar-Upholds, exp1-Upholds, testnext-Upholds,
            for_step_exp-Upholds, forbody-Upholds,
          )
          depth 40

  for_names-Upholds :
      (rounds : ℕ) {r : ℕ} (nvars : ℕ) → Upholds rounds d r (for_names num rules rounds nvars)
  unfolding for_names
  for_names-Upholds zero nvars = Upholds-zero _
  for_names-Upholds (suc rounds) nvars =
      Upholds-round _ _ _ (testnext-Tests b',' (omega arith))
        (search
          (upholds_rules, str_checkname-Upholds, new_localvar-Upholds, for_names-Upholds rounds)
          depth 20)
        (Upholds-pure nvars)

  module _ (b : ℕ) (le : b ≤ fuel) where
    all_names-Upholds : {r : ℕ} (nvars : ℕ) → Upholds b d r (for_names num rules fuel nvars)
    all_names-Upholds {r} nvars =
        Upholds-weaken {r = 0} b r _ le (omega arith) (for_names-Upholds fuel nvars)

    forlist-Upholds :
        {r : ℕ} (indexname : TString) → Upholds b d r (forlist num rules fuel indexname)
    unfolding forlist
    forlist-Upholds indexname =
        search
          (
            loop_keeps, top-Upholds, new_localvar-Upholds, all_names-Upholds, explist1-Upholds,
            adjust_assign-Upholds, luak_checkstack-Keeps, forbody-Upholds,
          )
          depth 40

    pub forstat-Falls : {r : ℕ} (line : ℕ) → Falls b d r (forstat num rules fuel line)
    unfolding forstat
    forstat-Falls line = Falls-after _ _ (enterblock-Stays true) (λ _.
        Falls-then _ _ luax_next-Falls (λ _.
          search (loop_keeps, str_checkname-Upholds, fornum-Upholds, forlist-Upholds) depth 30))

    pub whilestat-Falls : {r : ℕ} (line : ℕ) → Falls b d r (whilestat num rules line)
    unfolding whilestat
    whilestat-Falls line =
        Falls-then _ _ luax_next-Falls
          (λ _. search (loop_keeps, cond-Upholds, block-Upholds) depth 40)

    pub repeatstat-Falls : {r : ℕ} (line : ℕ) → Falls b d r (repeatstat num rules line)
    unfolding repeatstat
    repeatstat-Falls line = Falls-after _ _ (gen-Stays _ luak_getlabel-Keeps) (λ repeat_init.
        Falls-after _ _ (enterblock-Stays true) (λ _. Falls-after _ _ (enterblock-Stays false) (λ _.
          Falls-then _ _ luax_next-Falls (λ _.
            search
              (
                loop_keeps, rules_chunk-Upholds, cond-Upholds, top-Upholds, scope_upval-Upholds,
                close_repeat-Upholds,
              )
              depth 40))))
