-- ===== src/Puc/Parser/State.antt =====
-- lua-5.1/src/lparser.h, lparser.c and llex.h: the state of the parser, and the actions that it is made of.
use zua.Prelude.{
  ℕ, ◌+◌, ◌-◌, Bool, true, false, List, [], ◌∷◌, Option, none, some, ltb, ◌==◌, if◌then◌else◌,
}
use zua.Puc.Chunk.{TString, LocVar, Proto}
use zua.Puc.Code.State.{FuncState, Error, Run, done, error, Gen, ExpKind}
use zua.Puc.Parser.Tokens.{Token, Lexeme, lexeme, malformed, tk_eos, tk_name}

-- A block of the chain `bl`, innermost first; `previous` is the rest of the chain.
pub record BlockCnt : Type 0 where
  pub breaklist : Option ℕ
  pub nactvar : ℕ
  pub upval : Bool
  pub isbreakable : Bool

pub record UpvalDesc : Type 0 where
  pub k : ExpKind
  pub info : ℕ

-- A FuncState and its Proto: `gen` has what the code generator uses, the vectors are filled up to their counts, so
-- that np, nlocvars and nups are the lengths of p, locvars and upvalues. `names` is `f->upvalues`.
pub record Func : Type 0 where
  pub gen : FuncState
  pub bl : List BlockCnt
  pub p : List Proto
  pub locvars : List LocVar
  pub actvar : List ℕ
  pub upvalues : List UpvalDesc
  pub names : List TString
  pub numparams : ℕ
  pub is_vararg : ℕ
  pub linedefined : ℕ
  pub lastlinedefined : ℕ

-- `input` is what the next calls of llex give, and behind it the end of the stream; `fs` is the function that
-- is parsed, and behind it the functions around it; `nccalls` is `L->nCcalls`.
pub record LexState : Type 0 where
  pub input : List Lexeme
  pub t : Token
  pub lookahead : Token
  pub linenumber : ℕ
  pub lastline : ℕ
  pub nccalls : ℕ
  pub source : Option TString
  pub fs : List Func

-- The errors by their messages: "x expected", "x expected (to close y at line n)", the other syntax errors,
-- errorlimit, "chunk has too many syntax levels", those of the lexer, of luaM_growvector, and of the generator.
pub data Fault : Type 0 where
  expected : ℕ → Fault
  unclosed : ℕ → ℕ → ℕ → Fault
  syntax_error : Fault
  limit_error : ℕ → Fault
  many_levels : Fault
  lexical_error : Fault
  vector_overflow : Fault
  generator_error : Error → Fault

-- `stray` is an access outside of what was written or a failed lua_assert about registers, `cyclic` a walk of
-- the code generator along a list of jumps with more rounds than instructions, `hung` a want of fuel.
pub data Outcome (A : Type 0) : Type 0 where
  parsed : A → LexState → Outcome A
  failed : Fault → Outcome A
  stray : Outcome A
  cyclic : Outcome A
  hung : Outcome A

abbrev pub Parse : Type 0 → Type 0
Parse A = LexState → Outcome A

module _ {A : Type 0} where
  unfoldable pub pure : A → Parse A
  pure a ls = parsed a ls

  unfoldable pub raise : Fault → Parse A
  raise e ls = failed e

  unfoldable pub lost : Parse A
  lost ls = stray

  unfoldable pub hang : Parse A
  hang ls = hung

unfoldable pub get : Parse LexState
get ls = parsed ls ls

module _ {A B : Type 0} where
  abbrev pub continue : Outcome A → (A → Parse B) → Outcome B
  continue (parsed a ls) g = g a ls
  continue (failed e) g = failed e
  continue stray g = stray
  continue cyclic g = cyclic
  continue hung g = hung

  infixl 1 ◌>>=◌ ◌>>◌
  -- Opening this opens `pure`, `raise`, `lost`, `hang` and `get` too.
  unfoldable pub ◌>>=◌ : Parse A → (A → Parse B) → Parse B
  unfolding pure raise lost hang get
  ◌>>=◌ m g ls = continue (m ls) g

  abbrev pub ◌>>◌ : Parse A → Parse B → Parse B
  m >> g = m >>= λ _. g

-- `ls->fs`
abbrev pub top_of : List Func → LexState → Outcome Func
top_of [] ls = stray
top_of (f ∷ fs) ls = parsed f ls

unfoldable pub top : Parse Func
top ls = top_of ls.fs ls

abbrev pub change_of : List Func → (Func → Option Func) → LexState → Outcome (Unit {0})
change_of [] g ls = stray
change_of (f ∷ fs) g ls = elim (g f) [
  | none ↦ stray
  | some f' ↦ parsed tt (record ls { fs = f' ∷ fs })
]

-- Assignments to fields of `ls->fs`, which `none` says to be outside of what was written.
unfoldable pub change : (Func → Option Func) → Parse (Unit {0})
change g ls = change_of ls.fs g ls

abbrev pub ran : {A : Type 0} → Run A → Func → List Func → LexState → Outcome A
ran (done a g) f fs ls = parsed a (record ls { fs = record f { gen = g } ∷ fs })
ran (error e) f fs ls = failed (generator_error e)
ran Run.stray f fs ls = stray
ran Run.cyclic f fs ls = cyclic

abbrev pub gen_of : {A : Type 0} → Gen A → List Func → LexState → Outcome A
gen_of m [] ls = stray
gen_of m (f ∷ fs) ls = ran (m (record f.gen { lastline = ls.lastline })) f fs ls

-- A call of the code generator for `ls->fs`, which reads `ls->lastline`.
unfoldable pub gen : {A : Type 0} → Gen A → Parse A
gen m ls = gen_of m ls.fs ls

-- The next lexeme is used; at the end of the stream the line stays.
abbrev pub eos_token : Token
eos_token = record { token = tk_eos; ts = []; r = 0 }

abbrev pub lex : List Lexeme → (Token → LexState → LexState) → LexState → Outcome (Unit {0})
lex [] use_token ls = parsed tt (use_token eos_token ls)
lex (lexeme t line ∷ input) use_token ls =
    parsed tt (use_token t (record ls { input = input; linenumber = line }))
lex (malformed ∷ input) use_token ls = failed lexical_error

unfoldable pub luax_next : Parse (Unit {0})
luax_next ls =
    if ls.lookahead.token == tk_eos
    then lex ls.input (λ t ls. record ls { t = t }) (record ls { lastline = ls.linenumber })
    else parsed tt (record ls { lastline = ls.linenumber; t = ls.lookahead; lookahead = eos_token })

unfoldable pub luax_lookahead : Parse (Unit {0})
luax_lookahead ls = lex ls.input (λ t ls. record ls { lookahead = t }) ls

unfoldable pub testnext : ℕ → Parse Bool
testnext c = do ls ← get; if ls.t.token == c then (do luax_next; pure true) else pure false

unfoldable pub check : ℕ → Parse (Unit {0})
check c = do ls ← get; if ls.t.token == c then pure tt else raise (expected c)

unfoldable pub checknext : ℕ → Parse (Unit {0})
checknext c = do check c; luax_next

abbrev pub check_condition : Bool → Parse (Unit {0})
check_condition c = if c then pure tt else raise syntax_error

unfoldable pub check_match : ℕ → ℕ → ℕ → Parse (Unit {0})
check_match what who line = do
  more ← testnext what
  ls ← get
  if more
      then pure tt
      else (if line == ls.linenumber then raise (expected what) else raise (unclosed what who line))

unfoldable pub str_checkname : Parse TString
str_checkname = do check tk_name; ls ← get; let ts = ls.t.ts; luax_next; pure ts

-- LUAI_MAXCCALLS, LUAI_MAXVARS, LUAI_MAXUPVALUES and SHRT_MAX.
abbrev pub luai_maxccalls : ℕ
luai_maxccalls = 200

abbrev pub luai_maxvars : ℕ
luai_maxvars = 200

abbrev pub luai_maxupvalues : ℕ
luai_maxupvalues = 60

abbrev pub shrt_max : ℕ
shrt_max = 32767

unfoldable pub enterlevel : Parse (Unit {0})
enterlevel ls =
    if ltb luai_maxccalls (ls.nccalls + 1)
    then failed many_levels
    else parsed tt (record ls { nccalls = ls.nccalls + 1 })

unfoldable pub leavelevel : Parse (Unit {0})
leavelevel ls = parsed tt (record ls { nccalls = ls.nccalls - 1 })

-- luaY_checklimit
abbrev pub luay_checklimit : ℕ → ℕ → Parse (Unit {0})
luay_checklimit v l = if ltb l v then raise (limit_error l) else pure tt
