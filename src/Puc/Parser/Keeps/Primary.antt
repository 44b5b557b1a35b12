-- ===== src/Puc/Parser/Keeps/Primary.antt =====
-- Calls, primary and simple expressions of lua-5.1/src/lparser.c: what their rules uphold.
use zua.Prelude.{ℕ, zero, suc, ◌≤◌, ◌≡◌, refl, arith, inl, inr, bit_and}
use zua.Puc.Code.State.{ExpDesc, Numbers}
use zua.Puc.Code.Keeps.Emit.{luak_codeabc-Keeps, luak_fixline-Keeps}
use zua.Puc.Code.Keeps.Exps.{luak_setreturns-Keeps, luak_dischargevars-Keeps, luak_exp2anyreg-Keeps}
use zua.Puc.Code.Keeps.Ops.{luak_indexed-Keeps}
use zua.Puc.Code.Keeps.Places.{luak_exp2nextreg-Places, luak_self-Places}
use zua.Puc.Code.Exps.{luak_self}
use zua.Puc.Parser.State.{gen, ◌>>=◌}
use zua.Puc.Parser.Functions.{clear_needsarg}
use zua.Puc.Parser.Exprs.{Rules}
use zua.Puc.Parser.Exprs.Primary.{
  paren_args, call_args, close_args, funcargs, prefixexp, index_suffix, method_suffix, call_suffix,
  suffixes, primaryexp, vararg_exp, simpleexp,
}
use zua.Puc.Parser.Keeps.{Upholds, Falls, Flags}
use zua.Puc.Parser.Keeps.Rules.{
  upholds_rules, falls_rules, stays_rules, Upholds-bind, Upholds-pure, Upholds-weaken, Upholds-here,
  Here-if, Here-Upholds, Falls-then,
}
use zua.Puc.Parser.Keeps.Actions.{luax_next-Upholds, luax_next-Falls, check_match-Upholds}
use zua.Puc.Parser.Keeps.Updates.{gen-Upholds, gen-Stays, top-Upholds, change-Upholds, changed}
use zua.Puc.Parser.Keeps.Scope.{set_freereg-Upholds, close_exp-Upholds}
use zua.Puc.Parser.Keeps.Lookup.{singlevar-Upholds, singlevar-Falls}
use zua.Puc.Parser.Keeps.Exprs.{
  RulesHold, Upholds-zero, Upholds-Places, Falls-Places, checkname-Upholds, codestring-Upholds,
  codestring-Stays, field-Falls, expr-Upholds, yindex-Upholds, yindex-Falls, explist1-Upholds,
}
use zua.Puc.Parser.Keeps.Constructor.{constructor-Upholds, constructor-Falls}
use zua.Puc.Parser.Keeps.Body.{body-Upholds}

-- VARARG_NEEDSARG is cleared; VARARG_HASARG stays.
cleared_flags :
    (v : ℕ) → Flags v → Flags (bit_and v 251) × (bit_and (bit_and v 251) 1 ≡ bit_and v 1)
cleared_flags v (inl (inl e)) = rw e (inl (inl refl), refl)
cleared_flags v (inl (inr e)) = rw e (inl (inr refl), refl)
cleared_flags v (inr (inl e)) = rw e (inr (inl refl), refl)
cleared_flags v (inr (inr e)) = rw e (inr (inl refl), refl)

module _ {b d r : ℕ} where
  clear_needsarg-Upholds : Upholds b d r clear_needsarg
  unfolding clear_needsarg
  clear_needsarg-Upholds = change-Upholds _ (λ f h _.
      let (flags, same) = cleared_flags f.is_vararg h.flags in
      changed (record {
        sound = record {
          gen = h.gen;
          blocks = h.blocks;
          params = rw same h.params;
          flags = flags;
          names = h.names;
          nups = h.nups;
          protos = h.protos;
        };
        frame = omega arith;
      }))

  vararg_exp-Upholds :
      (num : Numbers) (rules : Rules) (fuel : ℕ) → Upholds b d r (vararg_exp num rules fuel)
  unfolding vararg_exp
  vararg_exp-Upholds num rules fuel =
      search (upholds_rules, top-Upholds, clear_needsarg-Upholds, gen-Upholds, luak_codeabc-Keeps)
        depth 20

module _ (num : Numbers) (rules : Rules) {fuel d : ℕ} (k : RulesHold fuel d rules) where
  module _ (b : ℕ) (le : b ≤ fuel) where
    paren_args-Upholds : {r : ℕ} (line : ℕ) → Upholds b d r (paren_args num rules fuel line)
    unfolding paren_args
    paren_args-Upholds line =
        search
          (
            upholds_rules, gen-Upholds, luax_next-Upholds, explist1-Upholds, check_match-Upholds,
            luak_setreturns-Keeps,
          )
          depth 30

    call_args-Upholds : {r : ℕ} (line : ℕ) → Upholds b d r (call_args num rules fuel line)
    unfolding call_args
    call_args-Upholds line =
        search
          (
            upholds_rules, paren_args-Upholds, constructor-Upholds, codestring-Upholds,
            luax_next-Upholds,
          )
          depth 30

    close_args-Upholds :
        {r : ℕ} (args : ExpDesc) (base : ℕ) → Upholds b d r (close_args num rules fuel args base)
    unfolding close_args
    close_args-Upholds args base = search (upholds_rules, close_exp-Upholds, top-Upholds) depth 30

    funcargs-Upholds :
        {r : ℕ} (f : ExpDesc) → suc f.info ≤ r → Upholds b d r (funcargs num rules fuel f)
    unfolding funcargs
    funcargs-Upholds f room =
        search
          (
            upholds_rules, call_args-Upholds, close_args-Upholds, gen-Upholds, luak_codeabc-Keeps,
            luak_fixline-Keeps, set_freereg-Upholds,
          )
          depth 30

    call_suffix-Upholds : {r : ℕ} (v : ExpDesc) → Upholds b d r (call_suffix num rules fuel v)
    unfolding call_suffix
    call_suffix-Upholds v =
        Upholds-Places _ _ (luak_exp2nextreg-Places num v) (λ v. funcargs-Upholds v (omega arith))

    self-Upholds :
        {r : ℕ} (v key : ExpDesc)
        → Upholds b d r (gen (luak_self num v key) >>= funcargs num rules fuel)
    self-Upholds v key =
        Upholds-Places _ _ (luak_self-Places num v key) (λ v. funcargs-Upholds v (omega arith))

    index_suffix-Upholds : {r : ℕ} (v : ExpDesc) → Upholds b d r (index_suffix num rules fuel v)
    unfolding index_suffix
    index_suffix-Upholds v =
        search
          (upholds_rules, gen-Upholds, yindex-Upholds, luak_exp2anyreg-Keeps, luak_indexed-Keeps)
          depth 20

  -- The same, where a token is taken.
  module _ (b : ℕ) (le : suc b ≤ fuel) (le' : b ≤ fuel) where
    index_suffix-Falls : {r : ℕ} (v : ExpDesc) → Falls b d r (index_suffix num rules fuel v)
    unfolding index_suffix
    index_suffix-Falls v =
        search
          (
            falls_rules, upholds_rules, gen-Stays, gen-Upholds, yindex-Falls, luak_exp2anyreg-Keeps,
            luak_indexed-Keeps,
          )
          depth 20

    method_suffix-Falls : {r : ℕ} (v : ExpDesc) → Falls b d r (method_suffix num rules fuel v)
    unfolding method_suffix
    method_suffix-Falls v =
        Falls-then _ _ luax_next-Falls
          (λ _. Upholds-bind _ _ (checkname-Upholds num) (λ key. self-Upholds b le' v key))

    paren_args-Falls : {r : ℕ} (line : ℕ) → Falls b d r (paren_args num rules fuel line)
    unfolding paren_args
    paren_args-Falls line =
        search
          (
            falls_rules, upholds_rules, stays_rules, gen-Upholds, luax_next-Falls, explist1-Upholds,
            check_match-Upholds, luak_setreturns-Keeps,
          )
          depth 30

    call_args-Falls : {r : ℕ} (line : ℕ) → Falls b d r (call_args num rules fuel line)
    unfolding call_args
    call_args-Falls line =
        search
          (
            falls_rules, upholds_rules, paren_args-Falls, constructor-Falls, codestring-Stays,
            luax_next-Falls,
          )
          depth 30

    funcargs-Falls :
        {r : ℕ} (f : ExpDesc) → suc f.info ≤ r → Falls b d r (funcargs num rules fuel f)
    unfolding funcargs
    funcargs-Falls f room =
        search
          (
            falls_rules, upholds_rules, call_args-Falls, close_args-Upholds, gen-Upholds,
            luak_codeabc-Keeps, luak_fixline-Keeps, set_freereg-Upholds,
          )
          depth 30

    call_suffix-Falls : {r : ℕ} (v : ExpDesc) → Falls b d r (call_suffix num rules fuel v)
    unfolding call_suffix
    call_suffix-Falls v =
        Falls-Places _ _ (luak_exp2nextreg-Places num v) (λ v. funcargs-Falls v (omega arith))

    prefixexp-Falls : {r : ℕ} → Falls b d r (prefixexp num rules fuel)
    unfolding prefixexp
    prefixexp-Falls =
        search
          (
            falls_rules, upholds_rules, luax_next-Falls, expr-Upholds, check_match-Upholds,
            gen-Upholds, luak_dischargevars-Keeps, singlevar-Falls,
          )
          depth 30

  module _ (b : ℕ) (le : b ≤ fuel) where
    prefixexp-Upholds : {r : ℕ} → Upholds b d r (prefixexp num rules fuel)
    unfolding prefixexp
    prefixexp-Upholds =
        search
          (
            upholds_rules, luax_next-Upholds, expr-Upholds, check_match-Upholds, gen-Upholds,
            luak_dischargevars-Keeps, singlevar-Upholds,
          )
          depth 30

  suffixes-Upholds :
      (rounds : ℕ) {r : ℕ} (v : ExpDesc)
      → rounds ≤ fuel
      → Upholds rounds d r (suffixes num rules fuel rounds v)
  unfolding suffixes
  suffixes-Upholds zero v le = Upholds-zero _
  suffixes-Upholds (suc rounds) {r} v le =
      let less : rounds ≤ fuel = omega arith in
      let again : (v : ExpDesc) → Upholds rounds d r (suffixes num rules fuel rounds v) =
        λ v. suffixes-Upholds rounds v less in
      Upholds-here _ (λ ls.
        Here-if _ _ _ _ (λ e. ground arith) (Falls-then _ _ (field-Falls num v) again)
          (Here-if _ _ _ _ (λ e. ground arith)
            (Falls-then _ _ (index_suffix-Falls rounds le less v) again)
            (Here-if _ _ _ _ (λ e. ground arith)
              (Falls-then _ _ (method_suffix-Falls rounds le less v) again)
              (Here-if _ _ _ _ (λ e. ground arith)
                (Falls-then _ _ (call_suffix-Falls rounds le less v) again)
                (Here-Upholds _ _ (Upholds-pure v))))))

  pub primaryexp-Upholds : (b : ℕ) {r : ℕ} → b ≤ fuel → Upholds b d r (primaryexp num rules fuel)
  unfolding primaryexp
  primaryexp-Upholds b {r} le = Upholds-weaken {r = 0} b r _ le (omega arith) (
      Upholds-bind _ _ (prefixexp-Upholds fuel (omega arith))
        (λ v. suffixes-Upholds fuel v (omega arith)))

  pub primaryexp-Falls : (b : ℕ) {r : ℕ} → suc b ≤ fuel → Falls b d r (primaryexp num rules fuel)
  unfolding primaryexp
  primaryexp-Falls b {r} le = Falls-then _ _ (prefixexp-Falls b le (omega arith)) (λ v.
      Upholds-weaken {r = 0} b r _ (omega arith) (omega arith)
        (suffixes-Upholds fuel v (omega arith)))

  pub simpleexp-Upholds : (b : ℕ) {r : ℕ} → b ≤ fuel → Upholds b d r (simpleexp num rules fuel)
  unfolding simpleexp
  simpleexp-Upholds b le =
      search
        (
          upholds_rules, luax_next-Upholds, codestring-Upholds, vararg_exp-Upholds,
          constructor-Upholds, body-Upholds, primaryexp-Upholds,
        )
        depth 40
