-- ===== src/Puc/Parser/Keeps/Lookup.antt =====
-- Upvalues and blocks of lua-5.1/src/lparser.c: what their operations uphold.
use zua.Prelude.{
  ℕ, ◌+◌, ◌%◌, ◌≤◌, ◌≡◌, refl, Bool, true, false, List, [], ◌∷◌, ◌++◌, Option, none, some, ltb,
  if◌then◌else◌, length, length-append, All, arith,
}
use zua.Puc.Chunk.{TString}
use zua.Puc.Code.State.{ExpDesc, ExpKind, vlocal, vupval, vglobal, Numbers}
use zua.Puc.Code.Keeps.Consts.{luak_stringk-Keeps}
use zua.Puc.Parser.State.{BlockCnt, UpvalDesc, Func, LexState, Fault, limit_error, luai_maxupvalues}
use zua.Puc.Parser.Scope.{
  find_upvalue, Lookup, found, too_many, out, indexupvalue, searchvar, markupval, captured,
  singlevaraux, find_variable, looked_up, global_name, singlevar,
}
use zua.Puc.Parser.Keeps.{
  IsSoundFunc, Grows, Grows-refl, Within, Moves, Post, returns, fails, strays, Upholds, Falls,
}
use zua.Puc.Parser.Keeps.Rules.{upholds_rules, falls_rules}
use zua.Puc.Parser.Keeps.Actions.{str_checkname-Upholds, str_checkname-Falls}
use zua.Puc.Parser.Keeps.Updates.{gen-Upholds}

-- The functions that a search leaves are sound, and have grown.
data Finds (fs : List Func) : Lookup → Type 0 where
  finds :
      {k : ExpKind} {info : ℕ} {gs : List Func}
      → All IsSoundFunc gs
      → Grows fs gs
      → Finds fs (found k info gs)
  finds_many : {e : Fault} → Finds fs (too_many e)
  finds_out : Finds fs out

-- One more upvalue, with its name.
upvalue-IsSoundFunc :
    (f : Func) (u : UpvalDesc) (name : TString)
    → IsSoundFunc f
    → length f.upvalues + 1 ≤ luai_maxupvalues
    → IsSoundFunc (record f { upvalues = f.upvalues ++ u ∷ []; names = f.names ++ name ∷ [] })
upvalue-IsSoundFunc f u name h room = record {
  gen = h.gen;
  blocks = h.blocks;
  params = h.params;
  flags = h.flags;
  names =
      omega (arith, h.names, length-append f.upvalues (u ∷ []), length-append f.names (name ∷ []));
  nups = omega (arith, length-append f.upvalues (u ∷ []));
  protos = h.protos;
}

indexupvalue-Finds :
    (f : Func) (name : TString) (k : ExpKind) (info : ℕ) (fs gs : List Func)
    → IsSoundFunc f
    → All IsSoundFunc gs
    → Grows fs gs
    → Finds (f ∷ fs) (indexupvalue f name k info gs)
unfolding indexupvalue
indexupvalue-Finds f name k info fs gs h hs grown = at_index (find_upvalue f.upvalues k info 0)
  where
    at_limit :
        (c : Bool)
        → (c ≡ false → length f.upvalues + 1 ≤ luai_maxupvalues)
        → Finds (f ∷ fs) (
            if c
            then too_many (limit_error luai_maxupvalues)
            else found vupval (length f.upvalues) (
                record f {
                  upvalues = f.upvalues ++ (record { k = k; info = info % 256 }) ∷ [];
                  names = f.names ++ name ∷ [];
                }
                ∷ gs))
    at_limit true room = finds_many
    at_limit false room =
        finds (upvalue-IsSoundFunc f (record { k = k; info = info % 256 }) name h (room refl), hs)
          (omega arith, grown)

    at_index :
        (o : Option ℕ)
        → Finds (f ∷ fs) (elim o [
          | some i ↦ found vupval i (f ∷ gs)
          | none ↦
              if ltb luai_maxupvalues (length f.upvalues + 1)
              then too_many (limit_error luai_maxupvalues)
              else found vupval (length f.upvalues) (
                  record f {
                    upvalues = f.upvalues ++ (record { k = k; info = info % 256 }) ∷ [];
                    names = f.names ++ name ∷ [];
                  }
                  ∷ gs)
        ])
    at_index (some i) = finds (h, hs) (omega arith, grown)
    at_index none = at_limit (ltb luai_maxupvalues (length f.upvalues + 1)) (λ e. ground arith)

captured-Finds :
    (f : Func) (name : TString) (fs : List Func) (l : Lookup)
    → IsSoundFunc f
    → Finds fs l
    → Finds (f ∷ fs) (captured f name l)
unfolding captured
captured-Finds f name fs (found vglobal info gs) h (finds hs grown) =
    finds (h, hs) (omega arith, grown)
captured-Finds f name fs (found _ info gs) h (finds hs grown) =
    indexupvalue-Finds f name _ info fs gs h hs grown
captured-Finds f name fs (too_many e) h p = finds_many
captured-Finds f name fs out h p = finds_out

-- Which block has an upvalue is free.
marked-All :
    (n level : ℕ) (bl : List BlockCnt)
    → All (λ (b : BlockCnt). b.nactvar ≤ n) bl
    → All (λ (b : BlockCnt). b.nactvar ≤ n) (markupval bl level)
unfolding markupval
marked-All n level [] h = tt
marked-All n level (b ∷ bl) (h, hs) = at_block (ltb level b.nactvar) (marked-All n level bl hs)
  where
    at_block :
        (c : Bool)
        → All (λ (b : BlockCnt). b.nactvar ≤ n) (markupval bl level)
        → All
            (λ (b : BlockCnt). b.nactvar ≤ n)
            (if c then b ∷ markupval bl level else record b { upval = true } ∷ bl)
    at_block true rest = (h, rest)
    at_block false rest = (h, hs)

marked-IsSoundFunc :
    (f : Func) (level : ℕ) → IsSoundFunc f → IsSoundFunc (record f { bl = markupval f.bl level })
marked-IsSoundFunc f level h = record {
  gen = h.gen;
  blocks = marked-All f.gen.maxstacksize level f.bl h.blocks;
  params = h.params;
  flags = h.flags;
  names = h.names;
  nups = h.nups;
  protos = h.protos;
}

singlevaraux-Finds :
    (fs : List Func) (n : TString) (base : Bool)
    → All IsSoundFunc fs
    → Finds fs (singlevaraux fs n base)
unfolding singlevaraux
singlevaraux-Finds [] n base h = finds tt tt
singlevaraux-Finds (f ∷ fs) n base (h, hs) =
    at_search (singlevaraux-Finds fs n false hs) (searchvar f n)
  where
    at_base :
        (v : ℕ) (c : Bool)
        → Finds
            (f ∷ fs)
            (found vlocal v ((if c then f else record f { bl = markupval f.bl v }) ∷ fs))
    at_base v true = finds (h, hs) (omega arith, Grows-refl fs)
    at_base v false = finds (marked-IsSoundFunc f v h, hs) (omega arith, Grows-refl fs)

    at_search :
        Finds fs (singlevaraux fs n false)
        → (o : Option (Option ℕ))
        → Finds (f ∷ fs) (elim o [
          | none ↦ out
          | some (some v) ↦
              found vlocal v ((if base then f else record f { bl = markupval f.bl v }) ∷ fs)
          | some none ↦ captured f n (singlevaraux fs n false)
        ])
    at_search upper none = finds_out
    at_search upper (some (some v)) = at_base v base
    at_search upper (some none) = captured-Finds f n fs _ h upper

module _ {b d r : ℕ} where
  find_variable-Upholds : (n : TString) → Upholds b d r (find_variable n)
  unfolding find_variable
  find_variable-Upholds n = record {
    at = λ ls h. made ls (singlevaraux ls.fs n true) h (singlevaraux-Finds ls.fs n true h.funcs);
  }
    where
      made :
          (ls : LexState) (l : Lookup)
          → Within b d r ls
          → Finds ls.fs l
          → Post (λ _. Moves ls) (looked_up l ls)
      made ls (found k info gs) h (finds hs grown) =
          returns (record { funcs = hs; tokens = omega arith; levels = refl; frames = grown })
      made ls (too_many e) h p = fails
      made ls out h p = strays

  module _ (num : Numbers) where
    global_name-Upholds :
        (n : TString) (var : ExpDesc) (k : ExpKind) → Upholds b d r (global_name num n var k)
    global_name-Upholds n var vglobal =
        search (upholds_rules, gen-Upholds, luak_stringk-Keeps) depth 15
    global_name-Upholds n var _ = search upholds_rules

    pub singlevar-Upholds : Upholds b d r (singlevar num)
    unfolding singlevar
    singlevar-Upholds =
        search (upholds_rules, str_checkname-Upholds, find_variable-Upholds, global_name-Upholds)
          depth 15

module _ {b d r : ℕ} (num : Numbers) where
  pub singlevar-Falls : Falls b d r (singlevar num)
  unfolding singlevar
  singlevar-Falls =
      search
        (
          falls_rules, upholds_rules, str_checkname-Falls, find_variable-Upholds,
          global_name-Upholds,
        )
        depth 15
