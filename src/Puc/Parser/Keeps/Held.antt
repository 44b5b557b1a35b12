-- ===== src/Puc/Parser/Keeps/Held.antt =====
-- What the start of a function body of lua-5.1/src/lparser.c leaves as it is in the function that is parsed.
use mathlib.Core.Path.{subst}
use zua.Prelude.{
  ℕ, ◌≤◌, ◌≡◌, refl, sym, Bool, true, false, List, [], ◌∷◌, Option, none, some, ◌==◌, if◌then◌else◌,
  All, arith,
}
use zua.Puc.Chunk.{TString, LocVar}
use zua.Puc.Parser.State.{
  Func, LexState, Fault, Parse, pure, raise, get, top, top_of, change, change_of, luax_next, check,
  checknext, str_checkname, ◌>>=◌, stray, parsed,
}
use zua.Puc.Parser.Scope.{add_locvar, registerlocalvar, new_localvar, set_actvar}
use zua.Puc.Parser.Keeps.{
  IsSoundFunc, frame_of, Within, Within-Moves, Moves, Moves-refl, Moves-trans, Post, returns, fails,
  strays, Post-bind, Post-weaken,
}
use zua.Puc.Parser.Keeps.Actions.{next-Takes, act-Post}
use zua.Puc.Parser.Keeps.Updates.{Head, head-Moves, FuncStep}
use zua.Puc.Parser.Keeps.Scope.{FuncStep-free}

-- `m` upholds the bounds, and `H` of the function that is parsed.
pub record Holds (b d r : ℕ) (H : Func → Type 0) {A : Type 0} (m : Parse A) : Type 0 where
  pub at :
      (ls : LexState)
      → Within b d r ls
      → Head H ls.fs
      → Post (λ _ ls'. Moves ls ls' × Head H ls'.fs) (m ls)

-- A function that is sound after a change, and has `H`.
pub data Holding (H : Func → Type 0) (f : Func) : Option Func → Type 0 where
  none_held : Holding H f none
  held : {f' : Func} → FuncStep f f' → H f' → Holding H f (some f')

module _ {b d r : ℕ} {H : Func → Type 0} where
  module _ {A : Type 0} where
    pub Holds-pure : (a : A) → Holds b d r H (pure a)
    unfolding pure
    Holds-pure a = record { at = λ ls h q. returns (Moves-refl h, q) }

    pub Holds-raise : (e : Fault) → Holds b d r H (raise {A = A} e)
    unfolding raise
    Holds-raise e = record { at = λ ls h q. fails }

    pub Holds-if :
        (c : Bool) (m n : Parse A)
        → Holds b d r H m
        → Holds b d r H n
        → Holds b d r H (if c then m else n)
    Holds-if true m n p q = p
    Holds-if false m n p q = q

  pub Holds-get : Holds b d r H get
  unfolding get
  Holds-get = record { at = λ ls h q. returns (Moves-refl h, q) }

  pub Holds-next : Holds b d r H luax_next
  Holds-next = record {
    at = λ ls h q.
        Post-weaken (λ _ _ (p, _, same). (p, subst (Head H) (sym same) q)) (next-Takes ls h);
  }

  pub Holds-check : (c : ℕ) → Holds b d r H (check c)
  unfolding check get pure raise ◌>>=◌
  Holds-check c = record {
    at = λ ls h q. act-Post _ _ (ls.t.token == c) ls (λ _. returns (Moves-refl h, q)) (λ _. fails);
  }

  pub Holds-top : Holds b d r H top
  unfolding top
  Holds-top = record { at = λ ls h q. at_top ls ls.fs h q }
    where
      at_top :
          (ls : LexState) (fs : List Func)
          → Within b d r ls
          → Head H ls.fs
          → Post (λ _ ls'. Moves ls ls' × Head H ls'.fs) (top_of fs ls)
      at_top ls [] h q = strays
      at_top ls (f ∷ fs) h q = returns (Moves-refl h, q)

module _ {b d r : ℕ} {H : Func → Type 0} {A B : Type 0} where
  pub Holds-bind :
      (m : Parse A) (g : A → Parse B)
      → Holds b d r H m
      → ((a : A) → Holds b d r H (g a))
      → Holds b d r H (m >>= g)
  Holds-bind m g p k = record {
    at = λ ls h q. Post-bind m g ls (p.at ls h q) (λ a ls' (s, q').
        Post-weaken (λ _ _ (t, q''). (Moves-trans s t, q''))
          ((k a).at ls' (Within-Moves h s (omega (arith, h.tokens, s.tokens))) q'));
  }

pub ruleset holds_rules =
    (Holds-pure, Holds-raise, Holds-if, Holds-get, Holds-next, Holds-check, Holds-top, Holds-bind)

module _ {b d r : ℕ} {H H' : Func → Type 0} where
  -- A change that leads from `H` to `H'`.
  pub change-Post :
      (g : Func → Option Func)
      → ((f : Func) → IsSoundFunc f → r ≤ f.gen.maxstacksize → H f → Holding H' f (g f))
      → (ls : LexState) → Within b d r ls
      → Head H ls.fs
      → Post (λ _ ls'. Moves ls ls' × Head H' ls'.fs) (change g ls)
  unfolding change
  change-Post g k ls h q = at_head ls.fs refl
    where
      made :
          (f : Func) (fs : List Func) (o : Option Func)
          → ls.fs ≡ f ∷ fs
          → All IsSoundFunc fs
          → Holding H' f o
          → Post
              (λ _ ls'. Moves ls ls' × Head H' ls'.fs)
              (elim o [ none ↦ stray | some f' ↦ parsed tt (record ls { fs = f' ∷ fs }) ])
      made f fs none e s p = strays
      made f fs (some f') e s (held p q') = returns (head-Moves ls f f' fs e s p, q')

      at_head :
          (fs : List Func)
          → ls.fs ≡ fs
          → Post (λ _ ls'. Moves ls ls' × Head H' ls'.fs) (change_of fs g ls)
      at_head [] e = strays
      at_head (f ∷ fs) e =
          let s : All IsSoundFunc (f ∷ fs) = subst (All IsSoundFunc) e h.funcs in
          let w : r ≤ frame_of (f ∷ fs) = subst (λ z. r ≤ frame_of z) e h.base in
          let x : Head H (f ∷ fs) = subst (Head H) e q in made f fs (g f) e s.1 (k f s.0 w x)

module _ {b d r : ℕ} {H : Func → Type 0} where
  pub Holds-change :
      (g : Func → Option Func)
      → ((f : Func) → IsSoundFunc f → r ≤ f.gen.maxstacksize → H f → Holding H f (g f))
      → Holds b d r H (change g)
  Holds-change g k = record { at = λ ls h q. change-Post g k ls h q }

  pub str_checkname-Holds : Holds b d r H str_checkname
  unfolding str_checkname
  str_checkname-Holds = search holds_rules depth 15

  pub checknext-Holds : (c : ℕ) → Holds b d r H (checknext c)
  unfolding checknext
  checknext-Holds c = search holds_rules depth 15

-- What holds whatever the local variables are.
pub record IsFree (H : Func → Type 0) : Type 0 where
  pub locals :
      (f : Func) (locvars : List LocVar) (actvar : List ℕ)
      → H f
      → H (record f { locvars = locvars; actvar = actvar })

pub Holding-if :
    {H : Func → Type 0} {f : Func} (c : Bool) (o o' : Option Func)
    → Holding H f o
    → Holding H f o'
    → Holding H f (if c then o else o')
Holding-if true o o' p q = p
Holding-if false o o' p q = q

module _ {b d r : ℕ} {H : Func → Type 0} (free : IsFree H) where
  add_locvar-Holds : (varname : TString) → Holds b d r H (change (add_locvar varname))
  add_locvar-Holds varname =
      Holds-change _
        (λ f h _ q. held (FuncStep-free f _ _ _ _ _ h h.gen.frame) (free.locals f _ f.actvar q))

  registerlocalvar-Holds : (varname : TString) → Holds b d r H (registerlocalvar varname)
  unfolding registerlocalvar
  registerlocalvar-Holds varname = search (holds_rules, add_locvar-Holds) depth 15

  set_actvar-Holds : (i v : ℕ) → Holds b d r H (change (set_actvar i v))
  set_actvar-Holds i v = Holds-change _ (λ f h _ q.
      Holding-if _ _ _
        (held (FuncStep-free f _ _ _ _ _ h h.gen.frame) (free.locals f f.locvars _ q)) none_held)

  pub new_localvar-Holds : (name : TString) (n : ℕ) → Holds b d r H (new_localvar name n)
  unfolding new_localvar
  new_localvar-Holds name n =
      search (holds_rules, registerlocalvar-Holds, set_actvar-Holds) depth 15
