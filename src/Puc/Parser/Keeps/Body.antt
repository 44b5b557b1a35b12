-- ===== src/Puc/Parser/Keeps/Body.antt =====
-- Function bodies of lua-5.1/src/lparser.c: what their rules uphold.
use mathlib.Core.Path.{subst}
use zua.Prelude.{
  ℕ, ◌≤◌, ◌≡◌, ◌∙◌, inl, refl, Bool, List, [], ◌∷◌, ◌++◌, some, if◌then◌else◌, All, arith,
}
use zua.Puc.Chunk.{Proto}
use zua.Puc.Code.State.{Numbers}
use zua.Puc.Code.Emit.{luak_ret}
use zua.Puc.Code.Keeps.Emit.{luak_codeabc-Keeps, luak_codeabx-Keeps}
use zua.Puc.Code.Keeps.Calls.{opened_funcstate-IsSound}
use zua.Puc.Parser.Tokens.{tk_end, tk_function}
use zua.Puc.Parser.State.{
  Func, UpvalDesc, LexState, pure, get, gen, checknext, check_match, ◌>>=◌, ◌>>◌,
}
use zua.Puc.Parser.Scope.{removevars, new_localvar, adjustlocalvars}
use zua.Puc.Parser.Functions.{
  opened, open_func, Closed, pop_of, pop_func, close_func, push_upvalues, add_proto, pushclosure,
  parlist,
}
use zua.Puc.Parser.Exprs.{Rules}
use zua.Puc.Parser.Exprs.Primary.{self_name, set_lastlinedefined, body_parts, body}
use zua.Puc.Parser.Keeps.{
  IsSoundFunc, IsChecked, Grows, Grows-trans, left, Within, Within-Moves, Moves, Moves-trans, Post,
  returns, Post-bind, Post-weaken, Upholds,
}
use zua.Puc.Parser.Keeps.Rules.{upholds_rules, Upholds-bind, Upholds-pure}
use zua.Puc.Parser.Keeps.Actions.{checknext-Upholds, check_match-Upholds}
use zua.Puc.Parser.Keeps.Updates.{Head, changed, change-Upholds, gen-Upholds, gen-Head, top-Upholds}
use zua.Puc.Parser.Keeps.Scope.{FuncStep-free, removevars-Upholds}
use zua.Puc.Parser.Keeps.Held.{Holds, holds_rules, checknext-Holds, new_localvar-Holds}
use zua.Puc.Parser.Keeps.Parlist.{parlist-Post}
use zua.Puc.Parser.Keeps.Params.{Fresh, Fresh-IsFree, adjustlocalvars-Holds}
use zua.Puc.Parser.Keeps.Closing.{Ends, proto_of-IsChecked, luak_ret-Ends}
use zua.Puc.Parser.Keeps.Exprs.{RulesHold, rules_chunk-Upholds}

checked_append :
    (ps : List Proto) (p : Proto) → All IsChecked ps → IsChecked p → All IsChecked (ps ++ p ∷ [])
checked_append [] p hs h = (h, tt)
checked_append (q ∷ ps) p (g, hs) h = (g, checked_append ps p hs h)

module _ {b d r : ℕ} where
  add_proto-Upholds : (p : Proto) → IsChecked p → Upholds b d r (add_proto p)
  unfolding add_proto
  add_proto-Upholds p c = change-Upholds _ (λ f h _. changed (record {
    sound = record {
      gen = h.gen;
      blocks = h.blocks;
      params = h.params;
      flags = h.flags;
      names = h.names;
      nups = h.nups;
      protos = checked_append f.p p h.protos c;
    };
    frame = omega arith;
  }))

  push_upvalues-Upholds : (us : List UpvalDesc) → Upholds b d r (push_upvalues us)
  unfolding push_upvalues
  push_upvalues-Upholds [] = Upholds-pure tt
  push_upvalues-Upholds (u ∷ us) =
      Upholds-bind _ _ (gen-Upholds _ (luak_codeabc-Keeps _ _ _ _)) (λ _. push_upvalues-Upholds us)

  pushclosure-Upholds : (func : Closed) → IsChecked func.f → Upholds b d r (pushclosure func)
  unfolding pushclosure
  pushclosure-Upholds func c =
      search
        (
          upholds_rules, top-Upholds, add_proto-Upholds, gen-Upholds, luak_codeabx-Keeps,
          push_upvalues-Upholds,
        )
        depth 20

  set_lastlinedefined-Upholds : (line : ℕ) → Upholds b d r (set_lastlinedefined line)
  unfolding set_lastlinedefined
  set_lastlinedefined-Upholds line =
      change-Upholds _ (λ f h _. changed (FuncStep-free f _ _ _ _ line h h.gen.frame))

-- The functions around the one that is parsed.
abbrev pub rest_of : List Func → List Func
rest_of [] = []
rest_of (f ∷ fs) = fs

-- The function that is parsed is gone, and its Proto is well-formed.
pub record Pops (ls : LexState) (func : Closed) (ls' : LexState) : Type 0 where
  pub checked : IsChecked func.f
  pub funcs : All IsSoundFunc ls'.fs
  pub tokens : left ls' ≤ left ls
  pub levels : ls'.nccalls ≡ ls.nccalls
  pub frames : Grows (rest_of ls.fs) ls'.fs

Grows-rest : (fs gs : List Func) → Grows fs gs → Grows (rest_of fs) (rest_of gs)
Grows-rest [] [] p = tt
Grows-rest [] (g ∷ gs) p = absurd p
Grows-rest (f ∷ fs) [] p = absurd p
Grows-rest (f ∷ fs) (g ∷ gs) (p, ps) = ps

-- Popping a function that ends in a return.
popped :
    (ls ls' : LexState) (fs : List Func)
    → ls'.fs ≡ fs
    → Moves ls ls'
    → Head (λ f. Ends f.gen) fs
    → Post (λ func. Pops ls func) (pop_of fs ls')
popped ls ls' [] e p q = absurd q
popped ls ls' (f ∷ fs) e p q =
    let s : All IsSoundFunc (f ∷ fs) = subst (All IsSoundFunc) e p.funcs in
    let w : Grows ls.fs (f ∷ fs) = subst (Grows ls.fs) e p.frames in
    returns (record {
      checked = proto_of-IsChecked ls'.source f s.0 q;
      funcs = s.1;
      tokens = p.tokens;
      levels = p.levels;
      frames = Grows-rest ls.fs (f ∷ fs) w;
    })

pub close_func-Post :
    {b d r : ℕ} (ls : LexState) → Within b d r ls → Post (λ func. Pops ls func) (close_func ls)
unfolding close_func pop_func
close_func-Post {b} {d} {r} ls h =
    Post-bind (removevars 0) (λ _. gen (luak_ret 0 (some 0)) >> pop_func) ls
      ((removevars-Upholds 0).at ls h)
      (λ _ ls1 p.
        Post-bind (gen (luak_ret 0 (some 0))) (λ _. pop_func) ls1
          (gen-Head {r = r} (λ _. Ends) (luak_ret 0 (some 0)) (λ fs s _. luak_ret-Ends fs s) ls1
            (Within-Moves {c = b} h p (omega (arith, h.tokens, p.tokens))))
          (λ _ ls2 (p2, _, q). popped ls ls2 ls2.fs refl (Moves-trans p p2) q))

-- A function that was just opened.
pub opened-IsSoundFunc : (lastline line : ℕ) → IsSoundFunc (opened lastline line)
opened-IsSoundFunc lastline line = record {
  gen = opened_funcstate-IsSound lastline;
  blocks = tt;
  params = omega arith;
  flags = inl (inl refl);
  names = refl;
  nups = omega arith;
  protos = tt;
}

opened-Within :
    {b d r : ℕ} (ls : LexState) (line : ℕ)
    → Within b d r ls
    → Within b d 1 (record ls { fs = opened ls.lastline line ∷ ls.fs })
opened-Within ls line h = record {
  funcs = (opened-IsSoundFunc ls.lastline line, h.funcs);
  tokens = h.tokens;
  levels = h.levels;
  height = h.height;
  base = omega arith;
}

-- The function around a closed one, where it goes on.
Pops-Moves :
    (ls : LexState) (f : Func) (ls1 : LexState) (func : Closed) (ls2 : LexState)
    → Moves (record ls { fs = f ∷ ls.fs }) ls1
    → Pops ls1 func ls2
    → Moves ls ls2
Pops-Moves ls f ls1 func ls2 p q = record {
  funcs = q.funcs;
  tokens = omega (arith, p.tokens, q.tokens);
  levels = q.levels ∙ p.levels;
  frames =
      Grows-trans ls.fs (rest_of ls1.fs) ls2.fs (Grows-rest (f ∷ ls.fs) ls1.fs p.frames) q.frames;
}

module _ (num : Numbers) (rules : Rules) {fuel d : ℕ} (k : RulesHold fuel d rules) where
  -- The first parts of a body, which the parameters follow.
  self-Holds :
      {b r : ℕ} (needself : Bool)
      → Holds b d r Fresh
          (if needself then (do new_localvar self_name 0; adjustlocalvars 1) else pure tt)
  self-Holds needself =
      search (holds_rules, new_localvar-Holds, Fresh-IsFree, adjustlocalvars-Holds) depth 15

  -- What follows the parameters.
  chunk_end-Upholds :
      (b : ℕ) {r : ℕ} (line : ℕ)
      → b ≤ fuel
      → Upholds b d r (do
        checknext b')'
        rules.chunk
        ls ← get
        set_lastlinedefined ls.linenumber
        check_match tk_end tk_function line)
  chunk_end-Upholds b {r} line le =
      search
        (
          upholds_rules, checknext-Upholds, rules_chunk-Upholds, set_lastlinedefined-Upholds,
          check_match-Upholds,
        )
        depth 20

  body_parts-Post :
      (b : ℕ) (needself : Bool) (line : ℕ) (ls : LexState)
      → b ≤ fuel
      → Within b d 1 ls
      → Head Fresh ls.fs
      → Post (λ _. Moves ls) (body_parts num rules fuel needself line ls)
  unfolding body_parts
  body_parts-Post b needself line ls le h q =
      Post-bind (checknext b'(') _ ls ((checknext-Holds b'(').at ls h q) (λ _ ls1 (p1, q1).
        let h1 : Within b d 1 ls1 =
          Within-Moves {c = b} h p1 (omega (arith, h.tokens, p1.tokens)) in
        Post-bind _ _ ls1 ((self-Holds needself).at ls1 h1 q1) (λ _ ls2 (p2, q2).
          let h2 : Within b d 1 ls2 =
            Within-Moves {c = b} h1 p2 (omega (arith, h1.tokens, p2.tokens)) in
          Post-bind (parlist fuel) _ ls2 (parlist-Post fuel b ls2 le h2 q2) (λ _ ls3 p3.
            Post-weaken (λ _ _ s. Moves-trans p1 (Moves-trans p2 (Moves-trans p3 s)))
              ((chunk_end-Upholds b line le).at ls3
                (Within-Moves {c = b} h2 p3 (omega (arith, h2.tokens, p3.tokens)))))))

  pub body-Upholds :
      (b : ℕ) {r : ℕ} (needself : Bool) (line : ℕ)
      → b ≤ fuel
      → Upholds b d r (body num rules fuel needself line)
  unfolding body open_func ◌>>=◌
  body-Upholds b {r} needself line le = record {
    at = λ ls h.
        let h0 : Within b d 1 (record ls { fs = opened ls.lastline line ∷ ls.fs }) =
          opened-Within ls line h in
        Post-bind (body_parts num rules fuel needself line) (λ _. close_func >>= pushclosure)
          (record ls { fs = opened ls.lastline line ∷ ls.fs })
          (body_parts-Post b needself line _ le h0 refl)
          (λ _ ls1 p.
            Post-bind close_func pushclosure ls1
              (close_func-Post ls1 (Within-Moves {c = b} h0 p (omega (arith, h.tokens, p.tokens))))
              (λ func ls2 c.
                let p2 : Moves ls ls2 = Pops-Moves ls _ ls1 func ls2 p c in
                Post-weaken (λ _ _ s. Moves-trans p2 s)
                  ((pushclosure-Upholds func c.checked).at ls2
                    (Within-Moves {c = b} h p2 (omega (arith, h.tokens, p2.tokens))))));
  }
