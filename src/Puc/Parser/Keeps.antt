-- ===== src/Puc/Parser/Keeps.antt =====
-- What the actions of the parser of lua-5.1/src/lparser.c keep, with a rule for each way to build an action. An
-- action that upholds this does not run out of fuel.
pub mod Rules
pub mod Actions
pub mod Updates
pub mod Scope
pub mod Lookup
pub mod Blocks
pub mod Exprs
pub mod Constructor
pub mod Held
pub mod Params
pub mod Parlist
pub mod Closing
pub mod Body
pub mod Primary
pub mod Operators
pub mod Assign
pub mod Loops
pub mod Stats
use zua.Prelude.{
  ℕ, zero, suc, ◌+◌, ◌≤◌, ◌<◌, ◌≡◌, ◌≢◌, ◌⊎◌, ◌∙◌, refl, Bool, true, false, List, [], ◌∷◌, Option,
  none, some, ◌==◌, if◌then◌else◌, length, All, arith, bit_and,
}
use zua.Puc.Chunk.{Proto, Protos, proto, no_protos, more_protos}
use zua.Puc.Checker.{precheck, checked}
use zua.Puc.Code.Keeps.{IsSound}
use zua.Puc.Parser.Tokens.{Token, tk_eos}
use zua.Puc.Parser.State.{
  BlockCnt, Func, LexState, Fault, Outcome, parsed, failed, stray, cyclic, hung, Parse, pure, raise,
  lost, get, continue, ◌>>=◌, luai_maxccalls, luai_maxupvalues,
}

-- The values of `is_vararg`, in which VARARG_NEEDSARG never stands without VARARG_HASARG.
abbrev pub Flags : ℕ → Type 0
Flags v = ((v ≡ 0) ⊎ (v ≡ 2)) ⊎ ((v ≡ 3) ⊎ (v ≡ 7))

-- The function and all that are inside of it pass the checks that luaG_checkcode begins with, and have a line for
-- each instruction.
abbrev mutual
  pub IsChecked : Proto → Type 0
  IsChecked (proto f ps) =
      (precheck f ≡ checked tt) × (length f.lineinfo ≡ length f.code) × AllChecked ps

  pub AllChecked : Protos → Type 0
  AllChecked no_protos = Unit
  AllChecked (more_protos p ps) = IsChecked p × AllChecked ps

-- The generator's part is sound; the registers that the blocks keep, and the parameters, are in the frame; every
-- upvalue has a name, and they are within their limit; the functions inside pass the checks.
pub record IsSoundFunc (f : Func) : Type 0 where
  pub gen : IsSound f.gen
  pub blocks : All (λ (b : BlockCnt). b.nactvar ≤ f.gen.maxstacksize) f.bl
  pub params : f.numparams + bit_and f.is_vararg 1 ≤ f.gen.maxstacksize
  pub flags : Flags f.is_vararg
  pub names : length f.names ≡ length f.upvalues
  pub nups : length f.upvalues ≤ luai_maxupvalues
  pub protos : All IsChecked f.p

abbrev pub frame_of : List Func → ℕ
frame_of [] = 0
frame_of (f ∷ fs) = f.gen.maxstacksize

-- As many functions, with frames that are not smaller.
abbrev pub Grows : List Func → List Func → Type 0
Grows [] [] = Unit
Grows (f ∷ fs) (g ∷ gs) = (f.gen.maxstacksize ≤ g.gen.maxstacksize) × Grows fs gs
Grows _ _ = ⊥

pub Grows-refl : (fs : List Func) → Grows fs fs
Grows-refl [] = tt
Grows-refl (f ∷ fs) = (omega arith, Grows-refl fs)

pub Grows-trans : (fs gs hs : List Func) → Grows fs gs → Grows gs hs → Grows fs hs
Grows-trans [] [] [] p q = tt
Grows-trans (f ∷ fs) (g ∷ gs) (h ∷ hs) (p, ps) (q, qs) =
    (omega (arith, p, q), Grows-trans fs gs hs ps qs)
Grows-trans [] [] (h ∷ hs) p q = absurd q
Grows-trans [] (g ∷ gs) hs p q = absurd p
Grows-trans (f ∷ fs) [] hs p q = absurd p
Grows-trans (f ∷ fs) (g ∷ gs) [] p q = absurd q

pub Grows-frame_of : (fs gs : List Func) → Grows fs gs → frame_of fs ≤ frame_of gs
Grows-frame_of [] gs p = omega arith
Grows-frame_of (f ∷ fs) [] p = absurd p
Grows-frame_of (f ∷ fs) (g ∷ gs) (p, ps) = p

abbrev pub weight : ℕ → ℕ
weight token = if token == tk_eos then 0 else 1

-- The tokens before the end of the stream, those that are read already included.
abbrev pub left : LexState → ℕ
left ls = length ls.input + weight ls.t.token + weight ls.lookahead.token

-- Fewer than `b` tokens are left, at most `d` levels can be entered, the last of which fails, and the frame has `r`
-- registers.
pub record Within (b d r : ℕ) (ls : LexState) : Type 0 where
  pub funcs : All IsSoundFunc ls.fs
  pub tokens : left ls < b
  pub levels : luai_maxccalls < ls.nccalls + d
  pub height : ls.nccalls ≤ luai_maxccalls
  pub base : r ≤ frame_of ls.fs

-- The functions are sound, no tokens are added, the level is the same, and no frame shrinks.
pub record Moves (ls ls' : LexState) : Type 0 where
  pub funcs : All IsSoundFunc ls'.fs
  pub tokens : left ls' ≤ left ls
  pub levels : ls'.nccalls ≡ ls.nccalls
  pub frames : Grows ls.fs ls'.fs

pub Moves-trans : {a b c : LexState} → Moves a b → Moves b c → Moves a c
Moves-trans {a} {b} {c} p q = record {
  funcs = q.funcs;
  tokens = omega (arith, p.tokens, q.tokens);
  levels = q.levels ∙ p.levels;
  frames = Grows-trans a.fs b.fs c.fs p.frames q.frames;
}

pub Moves-refl : {b d r : ℕ} {ls : LexState} → Within b d r ls → Moves ls ls
Moves-refl {b} {d} {r} {ls} h = record {
  funcs = h.funcs;
  tokens = omega arith;
  levels = refl;
  frames = Grows-refl ls.fs;
}

-- What is so within the bounds is so after a move, where fewer tokens may be left.
pub Within-Moves :
    {b c d r : ℕ} {ls ls' : LexState}
    → Within b d r ls
    → Moves ls ls'
    → left ls' < c
    → Within c d r ls'
Within-Moves {b} {c} {d} {r} {ls} {ls'} h p below = record {
  funcs = p.funcs;
  tokens = below;
  levels = omega (arith, h.levels, p.levels);
  height = omega (arith, h.height, p.levels);
  base = omega (arith, h.base, Grows-frame_of ls.fs ls'.fs p.frames);
}

-- `P` of the value and the state that are returned, if they are; the fuel of the parser did not run out.
pub data Post {A : Type 0} (P : A → LexState → Type 0) : Outcome A → Type 0 where
  returns : {a : A} {ls : LexState} → P a ls → Post P (parsed a ls)
  fails : {e : Fault} → Post P (failed e)
  strays : Post P stray
  circles : Post P cyclic

pub Post-weaken :
    {A : Type 0} {P Q : A → LexState → Type 0} {o : Outcome A}
    → ((a : A) (ls : LexState) → P a ls → Q a ls)
    → Post P o
    → Post Q o
Post-weaken h (returns {a} {ls} p) = returns (h a ls p)
Post-weaken h fails = fails
Post-weaken h strays = strays
Post-weaken h circles = circles

module _ {A B : Type 0} where
  pub Post-bind :
      {P : A → LexState → Type 0} {Q : B → LexState → Type 0} (m : Parse A) (g : A → Parse B)
      (ls : LexState)
      → Post P (m ls)
      → ((a : A) (ls' : LexState) → P a ls' → Post Q (g a ls'))
      → Post Q ((m >>= g) ls)
  unfolding ◌>>=◌
  Post-bind {P} {Q} m g ls p h = after (m ls) p
    where
      after : (o : Outcome A) → Post P o → Post Q (continue o g)
      after (parsed a ls') (returns q) = h a ls' q
      after (failed e) q = fails
      after stray q = strays
      after cyclic q = circles
      after hung q = elim q [ ]

pub record Upholds (b d r : ℕ) {A : Type 0} (m : Parse A) : Type 0 where
  pub at : (ls : LexState) → Within b d r ls → Post (λ _. Moves ls) (m ls)

-- `m` upholds this without reading tokens.
pub record Stays (b d r : ℕ) {A : Type 0} (m : Parse A) : Type 0 where
  pub at :
      (ls : LexState)
      → Within b d r ls
      → Post (λ _ ls'. Moves ls ls' × (ls'.t.token ≡ ls.t.token)) (m ls)

-- Unless the end of the stream is reached, `m` takes a token.
pub record Falls (b d r : ℕ) {A : Type 0} (m : Parse A) : Type 0 where
  pub at :
      (ls : LexState)
      → Within (suc b) d r ls
      → ls.t.token ≢ tk_eos
      → Post (λ _ ls'. Moves ls ls' × (left ls' < left ls)) (m ls)

-- A test that takes a token where it succeeds.
pub record Tests (b d r : ℕ) (m : Parse Bool) : Type 0 where
  pub at :
      (ls : LexState)
      → Within (suc b) d r ls
      → Post (λ more ls'. Moves ls ls' × (more ≡ true → left ls' < left ls)) (m ls)

-- `m` upholds this where the current token is `t`.
pub record Here (b d r : ℕ) (t : ℕ) {A : Type 0} (m : Parse A) : Type 0 where
  pub at : (ls : LexState) → Within b d r ls → ls.t.token ≡ t → Post (λ _. Moves ls) (m ls)
