-- ===== src/Puc/Parser/Keeps/Updates.antt =====
-- What changes of the function that is parsed, and calls of the code generator for it, uphold in lua-5.1/src/lparser.c.
use mathlib.Core.Path.{subst}
use zua.Prelude.{ℕ, ◌≤◌, ◌≡◌, refl, List, [], ◌∷◌, Option, none, some, All, arith}
use zua.Puc.Code.State.{FuncState, Gen, Run, done, error}
use zua.Puc.Code.Keeps.{IsSound, Step, Keeps}
use zua.Puc.Code.Keeps.{Post as GenPost, returns as gen_returns, Post-weaken as GenPost-weaken}
use zua.Puc.Parser.State.{
  BlockCnt, Func, LexState, ran, gen_of, change_of, parsed, top, change, gen, stray,
}
use zua.Puc.Parser.Keeps.{
  IsSoundFunc, Grows-refl, frame_of, Within, Moves, Post, returns, fails, strays, circles,
  Post-weaken, Upholds, Stays,
}
use zua.Puc.Parser.Keeps.Rules.{Upholds-Stays}
use zua.Puc.Parser.Keeps.Actions.{top-Stays}

-- `H` of the function that is parsed.
abbrev pub Head : (Func → Type 0) → List Func → Type 0
Head H [] = ⊥
Head H (f ∷ fs) = H f

-- A function that is sound after a change of its state, with a frame that is not smaller.
pub record FuncStep (f f' : Func) : Type 0 where
  pub sound : IsSoundFunc f'
  pub frame : f.gen.maxstacksize ≤ f'.gen.maxstacksize

pub data Changes (f : Func) : Option Func → Type 0 where
  strayed : Changes f none
  changed : {f' : Func} → FuncStep f f' → Changes f (some f')

pub head-Moves :
    (ls : LexState) (f f' : Func) (fs : List Func)
    → ls.fs ≡ f ∷ fs
    → All IsSoundFunc fs
    → FuncStep f f'
    → Moves ls (record ls { fs = f' ∷ fs })
head-Moves ls f f' fs e h p = record {
  funcs = (p.sound, h);
  tokens = omega arith;
  levels = refl;
  frames = rw e (p.frame, Grows-refl fs);
}

-- What the generator leaves of a function.
pub gen-FuncStep :
    (f : Func) (lastline : ℕ) (g : FuncState)
    → IsSoundFunc f
    → Step (record f.gen { lastline = lastline }) g
    → FuncStep f (record f { gen = g })
gen-FuncStep f lastline g h p = record {
  sound = record {
    gen = p.sound;
    blocks = All-le f.bl h.blocks;
    params = omega (arith, h.params, p.frame);
    flags = h.flags;
    names = h.names;
    nups = h.nups;
    protos = h.protos;
  };
  frame = p.frame;
}
  where
    All-le :
        (bl : List BlockCnt)
        → All (λ (b : BlockCnt). b.nactvar ≤ f.gen.maxstacksize) bl
        → All (λ (b : BlockCnt). b.nactvar ≤ g.maxstacksize) bl
    All-le [] q = tt
    All-le (b ∷ bl) (q, qs) = (omega (arith, q, p.frame), All-le bl qs)

pub with_lastline-IsSound :
    (fs : FuncState) (lastline : ℕ) → IsSound fs → IsSound (record fs { lastline = lastline })
with_lastline-IsSound fs lastline h = record {
  frame = h.frame;
  stack = h.stack;
  words = h.words;
  position = h.position;
  lines = h.lines;
  size = h.size;
  count = h.count;
  constants = h.constants;
  numbers = h.numbers;
}

module _ {b d r : ℕ} where
  -- A change of the function that is parsed, which has at least `r` registers.
  pub change-Stays :
      (g : Func → Option Func)
      → ((f : Func) → IsSoundFunc f → r ≤ f.gen.maxstacksize → Changes f (g f))
      → Stays b d r (change g)
  unfolding change
  change-Stays g k = record { at = λ ls h. at_head ls ls.fs h refl }
    where
      made :
          (ls : LexState) (f : Func) (fs : List Func) (o : Option Func)
          → ls.fs ≡ f ∷ fs
          → All IsSoundFunc fs
          → Changes f o
          → Post
              (λ _ ls'. Moves ls ls' × (ls'.t.token ≡ ls.t.token))
              (elim o [ none ↦ stray | some f' ↦ parsed tt (record ls { fs = f' ∷ fs }) ])
      made ls f fs none e h p = strays
      made ls f fs (some f') e h (changed p) = returns (head-Moves ls f f' fs e h p, refl)

      at_head :
          (ls : LexState) (fs : List Func)
          → Within b d r ls
          → ls.fs ≡ fs
          → Post (λ _ ls'. Moves ls ls' × (ls'.t.token ≡ ls.t.token)) (change_of fs g ls)
      at_head ls [] h e = strays
      at_head ls (f ∷ fs) h e =
          let s : All IsSoundFunc (f ∷ fs) = subst (All IsSoundFunc) e h.funcs in
          let w : r ≤ frame_of (f ∷ fs) = subst (λ z. r ≤ frame_of z) e h.base in
          made ls f fs (g f) e s.1 (k f s.0 w)

  -- A call of the generator for a function with at least `r` registers, and what is so of its result.
  pub gen-Head :
      {A : Type 0} (P : A → FuncState → Type 0) (m : Gen A)
      → ((fs : FuncState)
          → IsSound fs
          → r ≤ fs.maxstacksize
          → GenPost (λ a fs'. Step fs fs' × P a fs') (m fs))
      → (ls : LexState) → Within b d r ls
      → Post
          (λ a ls'. Moves ls ls' × (ls'.t.token ≡ ls.t.token) × Head (λ f. P a f.gen) ls'.fs)
          (gen m ls)
  unfolding gen
  gen-Head {A} P m k ls h = at_head ls.fs refl
    where
      made :
          (f : Func) (fs : List Func) (o : Run A)
          → ls.fs ≡ f ∷ fs
          → IsSoundFunc f
          → All IsSoundFunc fs
          → GenPost (λ a fs'. Step (record f.gen { lastline = ls.lastline }) fs' × P a fs') o
          → Post
              (λ a ls'. Moves ls ls' × (ls'.t.token ≡ ls.t.token) × Head (λ f. P a f.gen) ls'.fs)
              (ran o f fs ls)
      made f fs (done a g) e s h (gen_returns (p, q)) = returns (
        head-Moves ls f (record f { gen = g }) fs e h (gen-FuncStep f ls.lastline g s p),
        refl,
        q,
      )
      made f fs (error x) e s h p = fails
      made f fs Run.stray e s h p = strays
      made f fs Run.cyclic e s h p = circles

      at_head :
          (fs : List Func)
          → ls.fs ≡ fs
          → Post
              (λ a ls'. Moves ls ls' × (ls'.t.token ≡ ls.t.token) × Head (λ f. P a f.gen) ls'.fs)
              (gen_of m fs ls)
      at_head [] e = strays
      at_head (f ∷ fs) e =
          let s : All IsSoundFunc (f ∷ fs) = subst (All IsSoundFunc) e h.funcs in
          let w : r ≤ frame_of (f ∷ fs) = subst (λ z. r ≤ frame_of z) e h.base in
          made f fs (m (record f.gen { lastline = ls.lastline })) e s.0 s.1 (
            k (record f.gen { lastline = ls.lastline })
              (with_lastline-IsSound f.gen ls.lastline s.0.gen) w)

  -- The same for a number of registers of the frame.
  pub gen-Post :
      {A : Type 0} (m : Gen A) (n : A → ℕ)
      → ((fs : FuncState)
          → IsSound fs
          → r ≤ fs.maxstacksize
          → GenPost (λ a fs'. Step fs fs' × (n a ≤ fs'.maxstacksize)) (m fs))
      → (ls : LexState) → Within b d r ls
      → Post
          (λ a ls'. Moves ls ls' × (ls'.t.token ≡ ls.t.token) × (n a ≤ frame_of ls'.fs))
          (gen m ls)
  gen-Post m n k ls h =
      Post-weaken (λ a ls' (p, e, q). (p, e, in_frame (n a) ls'.fs q))
        (gen-Head (λ a fs. n a ≤ fs.maxstacksize) m k ls h)
    where
      in_frame : (n : ℕ) (fs : List Func) → Head (λ f. n ≤ f.gen.maxstacksize) fs → n ≤ frame_of fs
      in_frame n [] q = absurd q
      in_frame n (f ∷ fs) q = q

  pub gen-Stays : {A : Type 0} (m : Gen A) → Keeps m → Stays b d r (gen m)
  gen-Stays m k = record {
    at = λ ls h.
        Post-weaken (λ _ _ (p, e, _). (p, e))
          (gen-Post m (λ _. 0) (λ fs s _. GenPost-weaken (λ _ _ p. (p, omega arith)) (k.at fs s)) ls
            h);
  }

  pub gen-Upholds : {A : Type 0} (m : Gen A) → Keeps m → Upholds b d r (gen m)
  gen-Upholds m k = Upholds-Stays _ (gen-Stays m k)

  pub change-Upholds :
      (g : Func → Option Func)
      → ((f : Func) → IsSoundFunc f → r ≤ f.gen.maxstacksize → Changes f (g f))
      → Upholds b d r (change g)
  change-Upholds g k = Upholds-Stays _ (change-Stays g k)

  pub top-Upholds : Upholds b d r top
  top-Upholds = Upholds-Stays _ top-Stays
