-- ===== src/Puc/Parser/Keeps/Assign.antt =====
-- Assignments of lua-5.1/src/lparser.c: what their rules uphold.
use zua.Prelude.{ℕ, zero, suc, ◌+◌, ◌-◌, ◌≤◌, List, [], ◌∷◌, ltb, arith}
use zua.Puc.Code.State.{ExpDesc, ExpKind, vcall, Numbers}
use zua.Puc.Code.Keeps.Jumps.{setarg_c-Keeps}
use zua.Puc.Code.Keeps.Emit.{luak_codeabc-Keeps, luak_reserveregs-Keeps}
use zua.Puc.Code.Keeps.Exps.{luak_setoneret-Keeps, luak_storevar-Keeps}
use zua.Puc.Parser.Exprs.{Rules}
use zua.Puc.Parser.Stats.Assign.{
  check_conflict, drop_regs, store_last, assign, next_variable, assignment, call_or_assignment,
  exprstat,
}
use zua.Puc.Parser.Keeps.{Upholds, Falls}
use zua.Puc.Parser.Keeps.Rules.{
  upholds_rules, Upholds-bind, Upholds-pure, Upholds-weaken, Upholds-round, Upholds-if,
  Upholds-raise, Falls-then,
}
use zua.Puc.Parser.Keeps.Actions.{testnext-Tests, checknext-Upholds}
use zua.Puc.Parser.Keeps.Updates.{gen-Upholds, change-Upholds, top-Upholds, changed, strayed}
use zua.Puc.Parser.Keeps.Scope.{FuncStep-free, Changes-if, adjust_assign-Upholds}
use zua.Puc.Parser.Keeps.Exprs.{RulesHold, Upholds-zero, explist1-Upholds}
use zua.Puc.Parser.Keeps.Primary.{primaryexp-Upholds, primaryexp-Falls}

module _ {b d r : ℕ} where
  drop_regs-Upholds : (n : ℕ) → Upholds b d r (drop_regs n)
  unfolding drop_regs
  drop_regs-Upholds n = change-Upholds _ (λ f h _.
      Changes-if (ltb f.gen.freereg n) _ _ (λ _. strayed)
        (λ _.
          changed (
            FuncStep-free f f.gen.nactvar (f.gen.freereg - n) _ _ _ h
              (omega (arith, h.gen.frame)))))

  check_conflict-Upholds : (lhs : List ExpDesc) (v : ExpDesc) → Upholds b d r (check_conflict lhs v)
  unfolding check_conflict
  check_conflict-Upholds lhs v =
      search (upholds_rules, top-Upholds, gen-Upholds, luak_codeabc-Keeps, luak_reserveregs-Keeps)
        depth 20

module _ (num : Numbers) (rules : Rules) {fuel d : ℕ} (k : RulesHold fuel d rules) where
  store_last-Upholds :
      {b r : ℕ} (lhs : List ExpDesc) → Upholds b d r (store_last num rules fuel lhs)
  unfolding store_last
  store_last-Upholds [] = search upholds_rules
  store_last-Upholds (v ∷ prev) =
      search (upholds_rules, top-Upholds, gen-Upholds, luak_storevar-Keeps) depth 20

  assign-Upholds :
      (b : ℕ) {r : ℕ} (v : ExpDesc) (prev : List ExpDesc) (nvars : ℕ)
      → b ≤ fuel
      → Upholds b d r (assign num rules fuel v prev nvars)
  unfolding assign
  assign-Upholds b v prev nvars le =
      search
        (
          upholds_rules, checknext-Upholds, explist1-Upholds, gen-Upholds, luak_setoneret-Keeps,
          luak_storevar-Keeps, adjust_assign-Upholds, drop_regs-Upholds, store_last-Upholds,
        )
        depth 30

  next_variable-Upholds :
      (b : ℕ) {r : ℕ} (lhs : List ExpDesc) (nvars : ℕ)
      → b ≤ fuel
      → Upholds b d r (next_variable num rules fuel lhs nvars)
  unfolding next_variable
  next_variable-Upholds b lhs nvars le =
      search (upholds_rules, primaryexp-Upholds, check_conflict-Upholds) depth 30

  assignment-Upholds :
      (rounds : ℕ) {r : ℕ} (v : ExpDesc) (prev : List ExpDesc) (nvars : ℕ)
      → rounds ≤ fuel
      → Upholds rounds d r (assignment num rules fuel rounds v prev nvars)
  unfolding assignment
  assignment-Upholds zero v prev nvars le = Upholds-zero _
  assignment-Upholds (suc rounds) v prev nvars le =
      let less : rounds ≤ fuel = omega arith in
      Upholds-bind _ _ (Upholds-if _ _ _ (Upholds-pure tt) (Upholds-raise _)) (λ _.
        Upholds-round _ _ _ (testnext-Tests b',' (omega arith))
          (Upholds-bind _ _ (next_variable-Upholds rounds (v ∷ prev) nvars less) (λ (nv, lhs).
            Upholds-bind _ _ (assignment-Upholds rounds nv lhs (nvars + 1) less)
              (λ lhs. store_last-Upholds lhs)))
          (assign-Upholds (suc rounds) v prev nvars le))

  call_or_assignment-Upholds :
      (b : ℕ) {r : ℕ} (v : ExpDesc) (kind : ExpKind)
      → b ≤ fuel
      → Upholds b d r (call_or_assignment num rules fuel v kind)
  call_or_assignment-Upholds b v vcall le = gen-Upholds _ (setarg_c-Keeps v.info 1)
  call_or_assignment-Upholds b {r} v _ le =
      Upholds-bind _ _
        (Upholds-weaken {r = 0} b r _ le (omega arith)
          (assignment-Upholds fuel v [] 1 (omega arith)))
        (λ _. Upholds-pure tt)

  pub exprstat-Upholds : (b : ℕ) {r : ℕ} → b ≤ fuel → Upholds b d r (exprstat num rules fuel)
  unfolding exprstat
  exprstat-Upholds b le =
      Upholds-bind _ _ (primaryexp-Upholds num rules k b le)
        (λ v. call_or_assignment-Upholds b v v.k le)

  pub exprstat-Falls : (b : ℕ) {r : ℕ} → suc b ≤ fuel → Falls b d r (exprstat num rules fuel)
  unfolding exprstat
  exprstat-Falls b le =
      Falls-then _ _ (primaryexp-Falls num rules k b le)
        (λ v. call_or_assignment-Upholds b v v.k (omega arith))
