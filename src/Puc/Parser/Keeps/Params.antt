-- ===== src/Puc/Parser/Keeps/Params.antt =====
-- The parameters of a function, one by one, in lua-5.1/src/lparser.c.
use mathlib.Core.Path.{subst}
use zua.Prelude.{
  ℕ, zero, suc, ◌+◌, ◌≤◌, ◌<◌, ◌≡◌, inr, refl, sym, true, false, Option, none, some, ltb, ◌==◌,
  get_elem?, set, arith, bit_and,
}
use zua.Puc.Chunk.{LocVar}
use zua.Puc.Parser.Tokens.{tk_name, tk_dots}
use zua.Puc.Parser.State.{Func, LexState, pure, get, testnext, ◌>>=◌, ◌>>◌}
use zua.Puc.Parser.Scope.{update_locvar, start_locvar, start_var, start_vars, adjustlocalvars}
use zua.Puc.Parser.Functions.{set_is_vararg, name_param, dots_param, parameter, parlist_loop}
use zua.Puc.Parser.Keeps.{
  IsSoundFunc, Flags, left, Within, Within-Moves, Moves, Moves-trans, Post, returns, fails,
  Post-bind, Post-weaken,
}
use zua.Puc.Parser.Keeps.Actions.{act-Post, testnext-Post}
use zua.Puc.Parser.Keeps.Updates.{Head, FuncStep}
use zua.Puc.Parser.Keeps.Scope.{FuncStep-free}
use zua.Puc.Parser.Keeps.Held.{
  Holds, Holding, held, none_held, Holding-if, holds_rules, Holds-change, IsFree,
  str_checkname-Holds, new_localvar-Holds, Holds-bind,
}

-- The parameters are not yet counted.
abbrev pub Fresh : Func → Type 0
Fresh f = f.numparams ≡ 0

-- The flags are reset, too.
abbrev pub NoArg : Func → Type 0
NoArg f = Fresh f × (f.is_vararg ≡ 0)

pub Fresh-IsFree : IsFree Fresh
Fresh-IsFree = record { locals = λ f locvars actvar q. q }

module _ {H : Func → Type 0} (free : IsFree H) where
  pub update_locvar-Holding :
      (i : ℕ) (u : LocVar → LocVar) (f : Func)
      → IsSoundFunc f
      → H f
      → Holding H f (update_locvar i u f)
  unfolding update_locvar
  update_locvar-Holding i u f h q = at_index (get_elem? f.actvar i)
    where
      at_var :
          (v : ℕ) (o : Option LocVar)
          → Holding H f (elim o [
            | none ↦ none
            | some lv ↦ some (record f { locvars = set f.locvars v (u lv) })
          ])
      at_var v none = none_held
      at_var v (some lv) =
          held (FuncStep-free f _ _ _ _ _ h h.gen.frame) (free.locals f _ f.actvar q)

      at_index :
          (o : Option ℕ)
          → Holding H f (elim o [
            | none ↦ none
            | some v ↦ elim (get_elem? f.locvars v) [
              | none ↦ none
              | some lv ↦ some (record f { locvars = set f.locvars v (u lv) })
            ]
          ])
      at_index none = none_held
      at_index (some v) = at_var v (get_elem? f.locvars v)

  start_var-Holding : (n : ℕ) (f : Func) → IsSoundFunc f → H f → Holding H f (start_var n f)
  unfolding start_var start_locvar
  start_var-Holding n f h q =
      Holding-if (ltb f.gen.nactvar n) none _ none_held (update_locvar-Holding _ _ f h q)

  pub start_vars-Holds : {b d r : ℕ} (n : ℕ) → Holds b d r H (start_vars n)
  unfolding start_vars
  start_vars-Holds zero = search holds_rules
  start_vars-Holds (suc n) =
      Holds-bind _ _ (Holds-change _ (λ f h _ q. start_var-Holding (suc n) f h q))
        (λ _. start_vars-Holds n)

-- `self` becomes active.
pub adjustlocalvars-Holds : {b d r : ℕ} (n : ℕ) → Holds b d r Fresh (adjustlocalvars n)
unfolding adjustlocalvars
adjustlocalvars-Holds n =
    Holds-bind _ _ (Holds-change _ (λ f h _ q. held (FuncStep-free f _ _ _ _ _ h h.gen.frame) q))
      (λ _. start_vars-Holds Fresh-IsFree n)

-- A function without parameters that takes variable arguments.
pub flags_set :
    (flags : ℕ) (f : Func)
    → Flags flags
    → bit_and flags 1 ≤ f.gen.maxstacksize
    → IsSoundFunc f
    → Fresh f
    → FuncStep f (record f { is_vararg = flags })
flags_set flags f w room h q = record {
  sound = record {
    gen = h.gen;
    blocks = h.blocks;
    params = omega (arith, q, room);
    flags = w;
    names = h.names;
    nups = h.nups;
    protos = h.protos;
  };
  frame = omega arith;
}

module _ {b d r : ℕ} where
  name_param-Holds : (nparams : ℕ) → Holds b d r Fresh (name_param nparams)
  unfolding name_param
  name_param-Holds nparams =
      search (holds_rules, str_checkname-Holds, new_localvar-Holds, Fresh-IsFree) depth 15

  dots_param-Holds : (nparams : ℕ) → Holds b d r Fresh (dots_param nparams)
  unfolding dots_param
  dots_param-Holds nparams = search (holds_rules, new_localvar-Holds, Fresh-IsFree) depth 15

  -- VARARG_HASARG, VARARG_NEEDSARG and VARARG_ISVARARG.
  hasarg-Holds : 1 ≤ r → Holds b d r Fresh (set_is_vararg 7)
  unfolding set_is_vararg
  hasarg-Holds room =
      Holds-change _
        (λ f h below q. held (flags_set 7 f (inr (inr refl)) (omega (arith, room, below)) h q) q)

module _ {b d : ℕ} where
  parameter-Post :
      (nparams : ℕ) (ls : LexState)
      → Within (suc b) d 1 ls
      → Head Fresh ls.fs
      → Post
          (λ more ls'. Moves ls ls' × Head Fresh ls'.fs × (more ≡ true → left ls' < left ls))
          (parameter nparams ls)
  unfolding parameter get ◌>>=◌
  parameter-Post nparams ls h q =
      act-Post _ _ (ls.t.token == tk_name) ls
        (λ _.
          Post-bind (name_param nparams) (λ _. testnext b',') ls
            ((name_param-Holds nparams).at ls h q)
            (λ _ ls' (p, q').
              Post-weaken
                (λ _ ls'' (s, less, same). (
                  Moves-trans p s,
                  subst (Head Fresh) (sym same) q',
                  λ e. omega (arith, less e, p.tokens),
                ))
                (testnext-Post b',' ls' (omega arith)
                  (Within-Moves {c = suc b} h p (omega (arith, h.tokens, p.tokens))))))
        (λ _.
          act-Post _ _ (ls.t.token == tk_dots) ls
            (λ _.
              Post-bind (dots_param nparams) (λ _. set_is_vararg 7 >> pure false) ls
                ((dots_param-Holds nparams).at ls h q)
                (λ _ ls1 (p, q1).
                  Post-bind (set_is_vararg 7) (λ _. pure false) ls1
                    ((hasarg-Holds (omega arith)).at ls1
                      (Within-Moves {c = suc b} h p (omega (arith, h.tokens, p.tokens))) q1)
                    (λ _ ls2 (p', q2). returns (Moves-trans p p', q2, λ e. cc))))
            (λ _. fails))

-- At least one parameter is counted.
pub parlist_loop-Post :
    {d : ℕ} (rounds nparams : ℕ) (ls : LexState)
    → Within rounds d 1 ls
    → Head Fresh ls.fs
    → Post (λ n ls'. Moves ls ls' × (0 < n) × Head Fresh ls'.fs) (parlist_loop rounds nparams ls)
unfolding parlist_loop pure
parlist_loop-Post zero nparams ls h q = absurd (omega (arith, h.tokens))
parlist_loop-Post {d} (suc rounds) nparams ls h q =
    Post-bind (parameter nparams) _ ls (parameter-Post nparams ls h q) (λ more ls' (p, q', less).
      act-Post _ _ more ls'
        (λ e.
          Post-weaken (λ _ _ (s, pos, q''). (Moves-trans p s, pos, q''))
            (parlist_loop-Post rounds (nparams + 1) ls'
              (Within-Moves {c = rounds} h p (omega (arith, h.tokens, less e))) q'))
        (λ _. returns (p, omega arith, q')))
