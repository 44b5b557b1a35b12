-- ===== src/Puc/Parser/Keeps/Operators.antt =====
-- Operators of lua-5.1/src/lparser.c: what their rules uphold.
use zua.Prelude.{
  ℕ, zero, suc, ◌+◌, ◌≤◌, ◌≡◌, ◌≢◌, ◌∙◌, refl, sym, ap, true, ltb, arith, Bool-cases, inl, inr, ◌-◌,
}
use zua.Puc.Code.State.{ExpDesc, BinOpr, UnOpr, opr_nounopr, opr_nobinopr, Numbers}
use zua.Puc.Code.Ops.{luak_posfix}
use zua.Puc.Code.Keeps.Ops.{luak_prefix-Keeps, luak_infix-Keeps, luak_posfix-Keeps}
use zua.Puc.Parser.Tokens.{tk_eos}
use zua.Puc.Parser.State.{
  LexState, Parse, gen, get, ◌>>=◌, ◌>>◌, pure, enterlevel, leavelevel, luai_maxccalls,
}
use zua.Puc.Parser.Exprs.{Rules}
use zua.Puc.Parser.Exprs.Operators.{
  getunopr, getbinopr, expands, priority, operand, subexpr_loop, operation, subexpr,
}
use zua.Puc.Parser.Keeps.{
  Within, Within-Moves, Moves, Moves-refl, Moves-trans, Post, returns, fails, Post-bind,
  Post-weaken, Upholds,
}
use zua.Puc.Parser.Keeps.Rules.{upholds_rules}
use zua.Puc.Parser.Keeps.Actions.{luax_next-Upholds, luax_next-Falls, act-Post}
use zua.Puc.Parser.Keeps.Updates.{gen-Upholds, gen-Stays}
use zua.Puc.Parser.Keeps.Exprs.{RulesHold}
use zua.Puc.Parser.Keeps.Primary.{simpleexp-Upholds}

-- At the end of the stream there is no operator.
expands_token :
    (op : BinOpr) (limit token : ℕ)
    → op ≡ getbinopr token
    → expands op limit ≡ true
    → token ≢ tk_eos
unfolding getbinopr
expands_token op limit token e x z =
    let none : op ≡ opr_nobinopr = e ∙ ap getbinopr z in cc (ap (λ o. expands o limit) none)

Within-weaken : {b c d r : ℕ} {ls : LexState} → b ≤ c → Within b d r ls → Within c d 0 ls
Within-weaken le h = record {
  funcs = h.funcs;
  tokens = omega (arith, h.tokens, le);
  levels = h.levels;
  height = h.height;
  base = omega arith;
}

-- The operator that is returned is the current token's.
abbrev pub Reads : LexState → ExpDesc × BinOpr → LexState → Type 0
Reads ls (v, op) ls' = Moves ls ls' × (op ≡ getbinopr ls'.t.token)

Reads-trans : {a b c : LexState} (x : ExpDesc × BinOpr) → Moves a b → Reads b x c → Reads a x c
Reads-trans (v, op) p (q, e) = (Moves-trans p q, e)

-- A level is entered, and left.
pub enter-Within :
    {b d r : ℕ} (ls : LexState)
    → Within b (suc d) r ls
    → ls.nccalls + 1 ≤ luai_maxccalls
    → Within b d r (record ls { nccalls = ls.nccalls + 1 })
enter-Within ls h room = record {
  funcs = h.funcs;
  tokens = h.tokens;
  levels = omega (arith, h.levels);
  height = room;
  base = h.base;
}

pub leave-Moves :
    (ls ls' : LexState)
    → Moves (record ls { nccalls = ls.nccalls + 1 }) ls'
    → Moves ls (record ls' { nccalls = ls'.nccalls - 1 })
leave-Moves ls ls' p = record {
  funcs = p.funcs;
  tokens = p.tokens;
  levels = omega (arith, p.levels);
  frames = p.frames;
}

module _ (num : Numbers) (rules : Rules) {fuel d : ℕ} (k : RulesHold fuel d rules) where
  subexpr-Upholds : (b : ℕ) {r : ℕ} (limit : ℕ) → b ≤ fuel → Upholds b d r (rules.subexpr limit)
  subexpr-Upholds b limit le = record {
    at = λ ls h. Post-weaken (λ _ _ p. p.0) (k.subexpr limit ls (Within-weaken le h));
  }

  operand-Upholds :
      (b : ℕ) {r : ℕ} (uop : UnOpr) → b ≤ fuel → Upholds b d r (operand num rules fuel uop)
  unfolding operand
  operand-Upholds b opr_nounopr le = simpleexp-Upholds num rules k b le
  operand-Upholds b _ le =
      search (upholds_rules, luax_next-Upholds, subexpr-Upholds, gen-Upholds, luak_prefix-Keeps)
        depth 20

  -- The right operand, and what follows it.
  right-Reads :
      (b limit : ℕ) (op : BinOpr) (v : ExpDesc) {r : ℕ} (ls : LexState)
      (rest : ExpDesc → BinOpr → Parse (ExpDesc × BinOpr))
      → b ≤ fuel
      → Within b d r ls
      → ((v : ExpDesc) (op : BinOpr) (ls : LexState)
          → Within b d r ls
          → op ≡ getbinopr ls.t.token
          → Post (Reads ls) (rest v op ls))
      → Post (Reads ls) (
          (do (v2, nextop) ← rules.subexpr limit; v ← gen (luak_posfix num op v v2); rest v nextop)
            ls)
  right-Reads b limit op v {r} ls rest le h go =
      Post-bind _ _ ls (k.subexpr limit ls (Within-weaken le h)) (λ (v2, nextop) ls1 (p, e).
        let h1 : Within b d r ls1 = Within-Moves h p (omega (arith, h.tokens, p.tokens)) in
        Post-bind _ _ ls1 ((gen-Stays _ (luak_posfix-Keeps num op v v2)).at ls1 h1)
          (λ v ls2 (q, same).
            Post-weaken (λ y _ t. Reads-trans y (Moves-trans p q) t)
              (go v nextop ls2 (Within-Moves h1 q (omega (arith, h1.tokens, q.tokens)))
                (e ∙ ap getbinopr (sym same)))))

  subexpr_loop-Reads :
      (rounds limit : ℕ) (v : ExpDesc) (op : BinOpr) {r : ℕ} (ls : LexState)
      → rounds ≤ fuel
      → Within rounds d r ls
      → op ≡ getbinopr ls.t.token
      → Post (Reads ls) (subexpr_loop num rules fuel rounds limit v op ls)
  unfolding subexpr_loop pure
  subexpr_loop-Reads zero limit v op ls le h e = absurd (omega (arith, h.tokens))
  subexpr_loop-Reads (suc rounds) limit v op {r} ls le h e =
      let less : rounds ≤ fuel = omega arith in
      act-Post _ _ (expands op limit) ls
        (λ x.
          Post-bind _ _ ls (luax_next-Falls.at ls h (expands_token op limit ls.t.token e x))
            (λ _ ls1 (p, fewer).
              let h1 : Within rounds d r ls1 = Within-Moves h p (omega (arith, h.tokens, fewer)) in
              Post-bind _ _ ls1 ((gen-Upholds _ (luak_infix-Keeps num op v)).at ls1 h1) (λ v ls2 q.
                Post-weaken (λ y _ t. Reads-trans y (Moves-trans p q) t)
                  (right-Reads rounds (priority op).1 op v ls2 _ less
                    (Within-Moves h1 q (omega (arith, h1.tokens, q.tokens)))
                    (λ v op ls h e. subexpr_loop-Reads rounds limit v op ls less h e)))))
        (λ _. returns (Moves-refl h, e))

  operation-Reads :
      (limit : ℕ) {r : ℕ} (ls : LexState)
      → Within fuel d r ls
      → Post (Reads ls) (operation num rules fuel limit ls)
  unfolding operation get ◌>>=◌
  operation-Reads limit {r} ls h =
      Post-bind (operand num rules fuel (getunopr ls.t.token))
        (λ v. get >>= λ ls. subexpr_loop num rules fuel fuel limit v (getbinopr ls.t.token)) ls
        ((operand-Upholds fuel (getunopr ls.t.token) (omega arith)).at ls h)
        (λ v ls1 p.
          Post-weaken (λ y _ t. Reads-trans y p t)
            (subexpr_loop-Reads fuel limit v (getbinopr ls1.t.token) ls1 (omega arith)
              (Within-Moves h p (omega (arith, h.tokens, p.tokens))) refl))

  pub subexpr-Reads :
      (limit : ℕ) (ls : LexState)
      → Within fuel (suc d) 0 ls
      → Post (Reads ls) (subexpr num rules fuel limit ls)
  unfolding subexpr enterlevel leavelevel pure ◌>>=◌
  subexpr-Reads limit ls h = elim (Bool-cases (ltb luai_maxccalls (ls.nccalls + 1))) [
    | inl over ↦ rw over fails
    | inr room ↦ rw room (
        Post-bind (operation num rules fuel limit) (λ x. leavelevel >> pure (x.0, x.1))
          (record ls { nccalls = ls.nccalls + 1 })
          (operation-Reads limit (record ls { nccalls = ls.nccalls + 1 })
            (enter-Within ls h (ground arith)))
          (λ (v, op) ls' (p, e). returns (leave-Moves ls ls' p, e)))
  ]
