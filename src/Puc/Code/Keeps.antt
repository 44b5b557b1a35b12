-- ===== src/Puc/Code/Keeps.antt =====
-- What every part of the code generator of lua-5.1/src/lcode.c keeps of a FuncState, with a rule for each
-- way to build an action.
pub mod Words
pub mod Jumps
pub mod Emit
pub mod Consts
pub mod Exps
pub mod Calls
pub mod Ops
pub mod Places
use zua.Prelude.{
  ℕ, zero, suc, ◌+◌, ◌≤◌, ◌<◌, ◌≡◌, ◌∙◌, refl, Bool, true, false, List, [], ◌∷◌, Option, none, some,
  if◌then◌else◌, length, get_elem?, All, arith,
}
use zua.Puc.Word.{IsWord, maxarg_bx}
use zua.Puc.Checker.{maxstack}
use zua.Puc.Table.{max_int}
use zua.Puc.Code.State.{
  ConstantKey, value_of, FuncState, Error, Run, done, error, stray, cyclic, Gen, pure, raise, lost,
  circle, get, continue, ◌>>=◌, modify,
}

-- The registers in use fit the frame, which is within the limit; the instructions are 32-bit words, with a
-- line each, and `pc` is not past them; the constants are counted, and the table has their numbers.
pub record IsSound (fs : FuncState) : Type 0 where
  pub frame : fs.freereg ≤ fs.maxstacksize
  pub stack : fs.maxstacksize < maxstack
  pub words : All IsWord fs.code
  pub position : fs.pc ≤ length fs.code
  pub lines : length fs.lineinfo ≡ length fs.code
  pub size : fs.pc ≤ max_int
  pub count : fs.nk ≡ length fs.k
  pub constants : fs.nk ≤ maxarg_bx
  pub numbers :
      All (λ (entry : ConstantKey × ℕ). get_elem? fs.k entry.1 ≡ some (value_of entry.0)) fs.h

-- The state that follows is sound; the constants keep their numbers, the frame does not shrink, and as many
-- variables are active.
pub record Step (fs fs' : FuncState) : Type 0 where
  pub sound : IsSound fs'
  pub kept : (i : ℕ) → i < length fs.k → get_elem? fs'.k i ≡ get_elem? fs.k i
  pub grown : length fs.k ≤ length fs'.k
  pub frame : fs.maxstacksize ≤ fs'.maxstacksize
  pub actives : fs'.nactvar ≡ fs.nactvar

pub Step-refl : {fs : FuncState} → IsSound fs → Step fs fs
Step-refl h = record {
  sound = h;
  kept = λ i _. refl;
  grown = omega arith;
  frame = omega arith;
  actives = refl;
}

pub Step-trans : {a b c : FuncState} → Step a b → Step b c → Step a c
Step-trans p q = record {
  sound = q.sound;
  kept = λ i h. rw (q.kept i (omega (arith, p.grown))) (p.kept i h);
  grown = omega (arith, p.grown, q.grown);
  frame = omega (arith, p.frame, q.frame);
  actives = q.actives ∙ p.actives;
}

-- The fields that a sound state leaves free.
pub Step-free :
    (fs : FuncState) (pc freereg : ℕ) (lasttarget jpc : Option ℕ)
    → IsSound fs
    → pc ≤ fs.pc
    → freereg ≤ fs.maxstacksize
    → Step fs (record fs { pc = pc; freereg = freereg; lasttarget = lasttarget; jpc = jpc })
Step-free fs pc freereg lasttarget jpc h hp hr = record {
  sound = record {
    frame = hr;
    stack = h.stack;
    words = h.words;
    position = omega (arith, h.position);
    lines = h.lines;
    size = omega (arith, h.size);
    count = h.count;
    constants = h.constants;
    numbers = h.numbers;
  };
  kept = λ i _. refl;
  grown = omega arith;
  frame = omega arith;
  actives = refl;
}

-- `P` of the value and the state that are returned, if they are.
pub data Post {A : Type 0} (P : A → FuncState → Type 0) : Run A → Type 0 where
  returns : {a : A} {fs : FuncState} → P a fs → Post P (done a fs)
  raises : {e : Error} → Post P (error e)
  strays : Post P stray
  circles : Post P cyclic

pub record Keeps {A : Type 0} (m : Gen A) : Type 0 where
  pub at : (fs : FuncState) → IsSound fs → Post (λ _. Step fs) (m fs)

module _ {A : Type 0} where
  pub Keeps-pure : (a : A) → Keeps (pure a)
  unfolding pure
  Keeps-pure a = record { at = λ fs h. returns (Step-refl h) }

  pub Keeps-raise : (e : Error) → Keeps (raise {A = A} e)
  unfolding raise
  Keeps-raise e = record { at = λ fs h. raises }

  pub Keeps-lost : Keeps (lost {A = A})
  unfolding lost
  Keeps-lost = record { at = λ fs h. strays }

  pub Keeps-circle : Keeps (circle {A = A})
  unfolding circle
  Keeps-circle = record { at = λ fs h. circles }

  pub Keeps-if : (b : Bool) (m n : Gen A) → Keeps m → Keeps n → Keeps (if b then m else n)
  Keeps-if true m n km kn = km
  Keeps-if false m n km kn = kn

pub Post-if :
    {A : Type 0} {P : A → FuncState → Type 0} {r r' : Run A} (b : Bool)
    → (b ≡ true → Post P r)
    → (b ≡ false → Post P r')
    → Post P (if b then r else r')
Post-if true h h' = h refl
Post-if false h h' = h' refl

pub Post-weaken :
    {A : Type 0} {P Q : A → FuncState → Type 0} {r : Run A}
    → ((a : A) (fs : FuncState) → P a fs → Q a fs)
    → Post P r
    → Post Q r
Post-weaken h (returns {a} {fs} p) = returns (h a fs p)
Post-weaken h raises = raises
Post-weaken h strays = strays
Post-weaken h circles = circles

pub Keeps-get : Keeps get
unfolding get
Keeps-get = record { at = λ fs h. returns (Step-refl h) }

pub Keeps-modify :
    (f : FuncState → FuncState)
    → ((fs : FuncState) → IsSound fs → Step fs (f fs))
    → Keeps (modify f)
unfolding modify
Keeps-modify f h = record { at = λ fs s. returns (h fs s) }

module _ {A B : Type 0} where
  pub Post-bind :
      {P : A → FuncState → Type 0} {Q : B → FuncState → Type 0} (m : Gen A) (g : A → Gen B)
      (fs : FuncState)
      → Post P (m fs)
      → ((a : A) (fs' : FuncState) → P a fs' → Post Q (g a fs'))
      → Post Q ((m >>= g) fs)
  unfolding ◌>>=◌
  Post-bind {P} {Q} m g fs p h = after (m fs) p
    where
      after : (r : Run A) → Post P r → Post Q (continue r g)
      after (done a fs') (returns q) = h a fs' q
      after (error e) q = raises
      after stray q = strays
      after cyclic q = circles

  pub Keeps-bind : (m : Gen A) (g : A → Gen B) → Keeps m → ((a : A) → Keeps (g a)) → Keeps (m >>= g)
  Keeps-bind m g km kg = record {
    at = λ fs h.
        Post-bind m g fs (km.at fs h)
          (λ a fs' p. Post-weaken (λ _ _. Step-trans p) ((kg a).at fs' p.sound));
  }

pub ruleset keeps_rules =
    (Keeps-pure, Keeps-raise, Keeps-lost, Keeps-circle, Keeps-get, Keeps-if, Keeps-bind)
