-- ===== src/Puc/Parser/Keeps/Constructor.antt =====
-- Table constructors of lua-5.1/src/lparser.c: what their rules uphold.
use zua.Prelude.{ℕ, zero, suc, ◌≤◌, ◌<◌, ◌≡◌, refl, Bool, true, false, Option, if◌then◌else◌, arith}
use zua.Puc.Code.State.{ExpKind, vvoid, Numbers}
use zua.Puc.Code.Emit.{luak_setlist}
use zua.Puc.Code.Keeps.{Post-weaken as GenPost-weaken}
use zua.Puc.Code.Keeps.Jumps.{setarg_b-Keeps, setarg_c-Keeps}
use zua.Puc.Code.Keeps.Emit.{luak_codeabc-Keeps, luak_setlist-Keeps}
use zua.Puc.Code.Keeps.Exps.{luak_setreturns-Keeps, luak_exp2nextreg-Keeps, luak_exp2rk-Keeps}
use zua.Puc.Code.Keeps.Places.{luak_exp2nextreg-Places}
use zua.Puc.Parser.State.{LexState, gen, pure, testnext}
use zua.Puc.Parser.Exprs.{Rules}
use zua.Puc.Parser.Exprs.Constructor.{
  ConsControl, separator, close_item, closelistfield, lastlistfield, recfield_key, store_field,
  recfield, listfield, item, items, fields, constructor,
}
use zua.Puc.Parser.Keeps.{
  left, Within, Within-Moves, Moves, Moves-trans, Post, returns, Post-bind, Post-weaken, Upholds,
  Falls, Tests,
}
use zua.Puc.Parser.Keeps.Rules.{
  upholds_rules, falls_rules, Falls-get, Falls-after, Falls-then, Upholds-bind, Upholds-if,
  Upholds-pure, Upholds-weaken, Upholds-round, Upholds-get,
}
use zua.Puc.Parser.Keeps.Actions.{
  luax_lookahead-Upholds, testnext-Tests, checknext-Upholds, checknext-Falls, check_match-Upholds,
}
use zua.Puc.Parser.Keeps.Updates.{gen-Post, gen-Stays, gen-Upholds}
use zua.Puc.Parser.Keeps.Scope.{set_freereg-Upholds, close_exp-Upholds}
use zua.Puc.Parser.Keeps.Blocks.{Upholds-top}
use zua.Puc.Parser.Keeps.Exprs.{
  RulesHold, Upholds-zero, Upholds-Places, Falls-Places, checkname-Upholds, expr-Upholds,
  yindex-Upholds,
}

module _ {b d r : ℕ} where
  -- The table's register is in the frame.
  setlist-Upholds :
      (base nelems : ℕ) (tostore : Option ℕ)
      → base < r
      → Upholds b d r (gen (luak_setlist base nelems tostore))
  setlist-Upholds base nelems tostore below = record {
    at = λ ls h.
        Post-weaken (λ _ _ p. p.0)
          (gen-Post _ (λ _. 0)
            (λ fs s room.
              GenPost-weaken (λ _ _ p. (p, omega arith))
                (luak_setlist-Keeps base nelems tostore fs s (omega (arith, below, room))))
            ls h);
  }

module _ (num : Numbers) (table : ℕ) {b d r : ℕ} where
  close_item-Upholds :
      (cc : ConsControl) (k : ExpKind) → table < r → Upholds b d r (close_item num table cc k)
  unfolding close_item
  close_item-Upholds cc vvoid below = search upholds_rules
  close_item-Upholds cc _ below =
      search (upholds_rules, gen-Upholds, luak_exp2nextreg-Keeps, setlist-Upholds) depth 20

  closelistfield-Upholds :
      (cc : ConsControl) → table < r → Upholds b d r (closelistfield num table cc)
  unfolding closelistfield
  closelistfield-Upholds cc below = close_item-Upholds cc cc.v.k below

  lastlistfield-Upholds :
      (cc : ConsControl) → table < r → Upholds b d r (lastlistfield num table cc)
  unfolding lastlistfield
  lastlistfield-Upholds cc below =
      search (upholds_rules, gen-Upholds, luak_setreturns-Keeps, setlist-Upholds, close_exp-Upholds)
        depth 20

module _ {b d r : ℕ} where
  separator-Tests : Tests b d r separator
  unfolding separator pure
  separator-Tests = record {
    at = λ ls h.
        Post-bind (testnext b',') _ ls ((testnext-Tests {b = b} b',' (omega arith)).at ls h)
          (λ comma ls' (p, less). second comma ls ls' h p less);
  }
    where
      second :
          (comma : Bool) (ls ls' : LexState)
          → Within (suc b) d r ls
          → Moves ls ls'
          → (comma ≡ true → left ls' < left ls)
          → Post
              (λ more ls''. Moves ls ls'' × (more ≡ true → left ls'' < left ls))
              ((if comma then pure true else testnext b';') ls')
      second true ls ls' h p less = returns (p, λ _. less refl)
      second false ls ls' h p less =
          Post-weaken (λ _ _ (q, taken). (Moves-trans p q, λ e. omega (arith, taken e, p.tokens)))
            ((testnext-Tests {b = b} b';' (omega arith)).at ls'
              (Within-Moves h p (omega (arith, h.tokens, p.tokens))))

module _ (num : Numbers) (rules : Rules) {fuel d : ℕ} (k : RulesHold fuel d rules) where
  module _ (table b : ℕ) (le : b ≤ fuel) where
    recfield_key-Upholds :
        {r : ℕ} (cc : ConsControl) → Upholds b d r (recfield_key num table rules cc)
    unfolding recfield_key
    recfield_key-Upholds cc = search (upholds_rules, checkname-Upholds, yindex-Upholds) depth 20

    store_field-Upholds :
        {r : ℕ} (reg : ℕ) (cc : ConsControl)
        → reg ≤ r
        → Upholds b d r (store_field num table rules reg cc)
    unfolding store_field
    store_field-Upholds reg cc room =
        search
          (
            upholds_rules, gen-Upholds, recfield_key-Upholds, checknext-Upholds, expr-Upholds,
            luak_exp2rk-Keeps, luak_codeabc-Keeps, set_freereg-Upholds,
          )
          depth 30

    recfield-Upholds : {r : ℕ} (cc : ConsControl) → Upholds b d r (recfield num table rules cc)
    unfolding recfield
    recfield-Upholds cc = Upholds-top _ (λ f h. store_field-Upholds f.gen.freereg cc h.gen.frame)

    listfield-Upholds : {r : ℕ} (cc : ConsControl) → Upholds b d r (listfield num table rules cc)
    unfolding listfield
    listfield-Upholds cc = search (upholds_rules, expr-Upholds) depth 20

    item-Upholds : {r : ℕ} (cc : ConsControl) → Upholds b d r (item num table rules cc)
    unfolding item
    item-Upholds cc =
        search (upholds_rules, luax_lookahead-Upholds, recfield-Upholds, listfield-Upholds) depth 20

  module _ (table : ℕ) {r : ℕ} (below : table < r) where
    items-Upholds :
        (rounds : ℕ) (cc : ConsControl)
        → rounds ≤ fuel
        → Upholds rounds d r (items num table rules rounds cc)
    unfolding items
    items-Upholds zero cc le = Upholds-zero _
    items-Upholds (suc rounds) cc le =
        let less : rounds ≤ fuel = omega arith in
        Upholds-bind _ _ Upholds-get (λ ls. Upholds-if _ _ _ (Upholds-pure cc) (
          Upholds-bind _ _ (closelistfield-Upholds num table cc below) (λ cc.
            Upholds-bind _ _ (item-Upholds table (suc rounds) le cc) (λ cc.
              Upholds-round _ _ _ separator-Tests (items-Upholds rounds cc less)
                (Upholds-pure cc)))))

    all_items-Upholds :
        (b : ℕ) (cc : ConsControl) → b ≤ fuel → Upholds b d r (items num table rules fuel cc)
    all_items-Upholds b cc le =
        Upholds-weaken b r _ le (omega arith) (items-Upholds fuel cc (omega arith))

    fields-Upholds :
        (b line pc : ℕ) → b ≤ fuel → Upholds b d r (fields num table rules fuel line pc)
    unfolding fields
    fields-Upholds b line pc le =
        search
          (
            upholds_rules, gen-Upholds, checknext-Upholds, all_items-Upholds, check_match-Upholds,
            lastlistfield-Upholds, setarg_b-Keeps, setarg_c-Keeps,
          )
          depth 20

    fields-Falls :
        (b line pc : ℕ) → suc b ≤ fuel → Falls b d r (fields num table rules fuel line pc)
    unfolding fields
    fields-Falls b line pc le =
        let less : b ≤ fuel = omega arith in
        search
          (
            falls_rules, upholds_rules, gen-Upholds, checknext-Falls, all_items-Upholds,
            check_match-Upholds, lastlistfield-Upholds, setarg_b-Keeps, setarg_c-Keeps,
          )
          depth 20

  pub constructor-Upholds : (b : ℕ) {r : ℕ} → b ≤ fuel → Upholds b d r (constructor num rules fuel)
  unfolding constructor
  constructor-Upholds b le = Upholds-bind _ _ Upholds-get (λ ls.
      Upholds-bind _ _ (gen-Upholds _ (luak_codeabc-Keeps _ _ _ _)) (λ pc.
        Upholds-Places _ _ (luak_exp2nextreg-Places num _) (λ t.
          Upholds-bind _ _ (fields-Upholds t.info (omega arith) b ls.linenumber pc le)
            (λ _. Upholds-pure t))))

  pub constructor-Falls : (b : ℕ) {r : ℕ} → suc b ≤ fuel → Falls b d r (constructor num rules fuel)
  unfolding constructor
  constructor-Falls b le = Falls-get _ (λ ls.
      Falls-after _ _ (gen-Stays _ (luak_codeabc-Keeps _ _ _ _)) (λ pc.
        Falls-Places _ _ (luak_exp2nextreg-Places num _) (λ t.
          Falls-then _ _ (fields-Falls t.info (omega arith) b ls.linenumber pc le)
            (λ _. Upholds-pure t))))
