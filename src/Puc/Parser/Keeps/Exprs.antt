-- ===== src/Puc/Parser/Keeps/Exprs.antt =====
-- Names, lists of expressions and table constructors of lua-5.1/src/lparser.c: what their rules uphold.
use zua.Prelude.{ℕ, zero, suc, sym, ◌∙◌, ◌≤◌, ◌≡◌, arith}
use zua.Puc.Chunk.{TString}
use zua.Puc.Code.State.{Gen, ExpDesc, Numbers}
use zua.Puc.Code.Keeps.Consts.{luak_stringk-Keeps}
use zua.Puc.Code.Keeps.Exps.{luak_exp2nextreg-Keeps, luak_exp2anyreg-Keeps, luak_exp2val-Keeps}
use zua.Puc.Code.Keeps.Ops.{luak_indexed-Keeps}
use zua.Puc.Code.Keeps.Places.{Places}
use zua.Puc.Parser.State.{LexState, Parse, gen, ◌>>=◌}
use zua.Puc.Parser.Exprs.{Rules, codestring, checkname, field, expr, yindex, explist_loop, explist1}
use zua.Puc.Parser.Exprs.Operators.{getbinopr}
use zua.Puc.Parser.Keeps.{
  Within, Moves, Moves-trans, Post, Post-bind, Post-weaken, Upholds, Stays, Falls,
}
use zua.Puc.Parser.Keeps.Rules.{
  upholds_rules, falls_rules, stays_rules, Upholds-bind, Upholds-pure, Upholds-weaken,
  Upholds-round,
}
use zua.Puc.Parser.Keeps.Actions.{
  luax_next-Upholds, luax_next-Falls, testnext-Tests, checknext-Upholds, str_checkname-Upholds,
}
use zua.Puc.Parser.Keeps.Updates.{gen-Post, gen-Upholds, gen-Stays}

-- The rules uphold the bounds, and the operator that subexpr returns is the current token's.
pub record RulesHold (b d : ℕ) (rules : Rules) : Type 0 where
  pub subexpr :
      (limit : ℕ) (ls : LexState)
      → Within b d 0 ls
      → Post (λ (_, op) ls'. Moves ls ls' × (op ≡ getbinopr ls'.t.token)) (rules.subexpr limit ls)
  pub chunk : Upholds b d 0 rules.chunk

-- No tokens are fewer than none.
pub Upholds-zero : {d r : ℕ} {A : Type 0} (m : Parse A) → Upholds 0 d r m
Upholds-zero m = record { at = λ ls h. absurd (omega (arith, h.tokens)) }

module _ {b d r : ℕ} {A : Type 0} where
  -- A register that the generator leaves a value in is in the frame after it.
  pub Upholds-Places :
      (m : Gen ExpDesc) (g : ExpDesc → Parse A)
      → Places r (λ (v : ExpDesc). suc v.info) m
      → ((v : ExpDesc) → Upholds b d (suc v.info) (g v))
      → Upholds b d r (gen m >>= g)
  Upholds-Places m g p k = record {
    at = λ ls h.
        Post-bind (gen m) g ls (gen-Post m (λ v. suc v.info) p.at ls h) (λ v ls' (q, _, below).
          Post-weaken (λ _ _. Moves-trans q)
            ((k v).at ls' (record {
              funcs = q.funcs;
              tokens = omega (arith, h.tokens, q.tokens);
              levels = omega (arith, h.levels, q.levels);
              height = omega (arith, h.height, q.levels);
              base = below;
            })));
  }

  pub Falls-Places :
      (m : Gen ExpDesc) (g : ExpDesc → Parse A)
      → Places r (λ (v : ExpDesc). suc v.info) m
      → ((v : ExpDesc) → Falls b d (suc v.info) (g v))
      → Falls b d r (gen m >>= g)
  Falls-Places m g p k = record {
    at = λ ls h t.
        Post-bind (gen m) g ls (gen-Post m (λ v. suc v.info) p.at ls h) (λ v ls' (q, e, below).
          Post-weaken (λ _ _ (s, less). (Moves-trans q s, omega (arith, less, q.tokens)))
            ((k v).at ls'
              (record {
                funcs = q.funcs;
                tokens = omega (arith, h.tokens, q.tokens);
                levels = omega (arith, h.levels, q.levels);
                height = omega (arith, h.height, q.levels);
                base = below;
              })
              (λ z. t (sym e ∙ z))));
  }

module _ {b d r : ℕ} (num : Numbers) where
  pub codestring-Stays : (s : TString) → Stays b d r (codestring num s)
  unfolding codestring
  codestring-Stays s = search (stays_rules, gen-Stays, luak_stringk-Keeps) depth 15

  pub codestring-Upholds : (s : TString) → Upholds b d r (codestring num s)
  unfolding codestring
  codestring-Upholds s = search (upholds_rules, gen-Upholds, luak_stringk-Keeps) depth 15

  pub checkname-Upholds : Upholds b d r (checkname num)
  unfolding checkname
  checkname-Upholds = search (upholds_rules, str_checkname-Upholds, codestring-Upholds) depth 15

module _ {b d r : ℕ} (num : Numbers) where
  pub field-Upholds : (v : ExpDesc) → Upholds b d r (field num v)
  unfolding field
  field-Upholds v =
      search
        (
          upholds_rules, gen-Upholds, luax_next-Upholds, checkname-Upholds, luak_exp2anyreg-Keeps,
          luak_indexed-Keeps,
        )
        depth 20

  pub field-Falls : (v : ExpDesc) → Falls b d r (field num v)
  unfolding field
  field-Falls v =
      search
        (
          falls_rules, upholds_rules, gen-Stays, gen-Upholds, luax_next-Falls, checkname-Upholds,
          luak_exp2anyreg-Keeps, luak_indexed-Keeps,
        )
        depth 20

module _ (num : Numbers) (rules : Rules) {fuel d : ℕ} (k : RulesHold fuel d rules) where
  pub expr-Upholds : (b : ℕ) {r : ℕ} → b ≤ fuel → Upholds b d r (expr num rules)
  unfolding expr
  expr-Upholds b {r} le = Upholds-weaken b r _ le (omega arith) (
      Upholds-bind _ _ (record { at = λ ls h. Post-weaken (λ _ _ p. p.0) (k.subexpr 0 ls h) })
        (λ (v, _). Upholds-pure v))

  pub rules_chunk-Upholds : (b : ℕ) {r : ℕ} → b ≤ fuel → Upholds b d r rules.chunk
  rules_chunk-Upholds b {r} le = Upholds-weaken b r _ le (omega arith) k.chunk

  pub yindex-Upholds : (b : ℕ) {r : ℕ} → b ≤ fuel → Upholds b d r (yindex num rules)
  unfolding yindex
  yindex-Upholds b le =
      search
        (
          upholds_rules, gen-Upholds, luax_next-Upholds, expr-Upholds, checknext-Upholds,
          luak_exp2val-Keeps,
        )
        depth 20

  pub yindex-Falls : (b : ℕ) {r : ℕ} → suc b ≤ fuel → b ≤ fuel → Falls b d r (yindex num rules)
  unfolding yindex
  yindex-Falls b le less =
      search
        (
          falls_rules, upholds_rules, gen-Upholds, luax_next-Falls, expr-Upholds, checknext-Upholds,
          luak_exp2val-Keeps,
        )
        depth 20

  explist_loop-Upholds :
      (rounds : ℕ) {r : ℕ} (v : ExpDesc) (n : ℕ)
      → rounds ≤ fuel
      → Upholds rounds d r (explist_loop num rules rounds v n)
  unfolding explist_loop
  explist_loop-Upholds zero v n le = Upholds-zero _
  explist_loop-Upholds (suc rounds) v n le =
      let less : rounds ≤ fuel = omega arith in
      Upholds-round _ _ _ (testnext-Tests b',' (omega arith))
        (search
          (
            upholds_rules,
            gen-Upholds,
            expr-Upholds,
            luak_exp2nextreg-Keeps,
            explist_loop-Upholds rounds,
          )
          depth 20)
        (Upholds-pure _)

  pub explist1-Upholds : (b : ℕ) {r : ℕ} → b ≤ fuel → Upholds b d r (explist1 num rules fuel)
  unfolding explist1
  explist1-Upholds b {r} le = Upholds-weaken {r = 0} b r _ le (omega arith) (
      Upholds-bind _ _ (expr-Upholds fuel (omega arith))
        (λ v. explist_loop-Upholds fuel v 1 (omega arith)))
