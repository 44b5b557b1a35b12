-- ===== src/Puc/Parser/Functions.antt =====
-- lua-5.1/src/lparser.c: functions that are opened, closed, and pushed as closures.
use zua.Prelude.{
  ℕ, zero, suc, ◌+◌, ◌-◌, ◌%◌, Bool, false, List, [], ◌∷◌, ◌++◌, Option, some, leb, ◌==◌,
  if◌then◌else◌, bit_and, length, map, take,
}
use zua.Puc.Word.{maxarg_bx}
use zua.Puc.Opmodes.{OpCode, op_closure, op_move, op_getupval}
use zua.Puc.Chunk.{TString, Proto, Protos, proto, no_protos, more_protos}
use zua.Puc.Checker.{vararg_hasarg, vararg_isvararg, vararg_needsarg}
use zua.Puc.Code.State.{ExpDesc, ExpKind, vlocal, vrelocable}
use zua.Puc.Code.Calls.{opened_funcstate}
use zua.Puc.Code.Emit.{luak_codeabc, luak_codeabx, luak_ret, luak_reserveregs}
use zua.Puc.Parser.Tokens.{tk_name, tk_dots}
use zua.Puc.Parser.State.{
  Func, UpvalDesc, vector_overflow, syntax_error, LexState, Outcome, parsed, stray, Parse, ◌>>=◌,
  ◌>>◌, pure, raise, hang, get, top, change, gen, luax_next, testnext, str_checkname,
}
use zua.Puc.Parser.Scope.{init_exp, new_localvar, adjustlocalvars, removevars}

-- The FuncState that open_func pushes, and its Proto.
abbrev pub opened : ℕ → ℕ → Func
opened lastline linedefined = record {
  gen = opened_funcstate lastline;
  bl = [];
  p = [];
  locvars = [];
  actvar = [];
  upvalues = [];
  names = [];
  numparams = 0;
  is_vararg = 0;
  linedefined = linedefined;
  lastlinedefined = 0;
}

-- open_func, with the assignment to `linedefined` that follows it.
unfoldable pub open_func : ℕ → Parse (Unit {0})
open_func linedefined ls = parsed tt (record ls { fs = opened ls.lastline linedefined ∷ ls.fs })

unfoldable pub protos_of : List Proto → Protos
protos_of [] = no_protos
protos_of (p ∷ ps) = more_protos p (protos_of ps)

-- The Proto of a function, with its vectors cut to their sizes.
unfoldable pub proto_of : Option TString → Func → Proto
unfolding protos_of
proto_of source f =
    proto
      (record {
        k = f.gen.k;
        code = take f.gen.pc f.gen.code;
        lineinfo = take f.gen.pc f.gen.lineinfo;
        locvars = f.locvars;
        upvalues = map some f.names;
        source = source;
        linedefined = f.linedefined;
        lastlinedefined = f.lastlinedefined;
        nups = length f.upvalues;
        numparams = f.numparams;
        is_vararg = f.is_vararg;
        maxstacksize = f.gen.maxstacksize;
      })
      (protos_of f.p)

-- What a closed function leaves for pushclosure: its Proto and its upvalues.
pub record Closed : Type 0 where
  pub f : Proto
  pub upvalues : List UpvalDesc

abbrev pub pop_of : List Func → LexState → Outcome Closed
pop_of [] ls = stray
pop_of (f ∷ fs) ls =
    parsed (record { f = proto_of ls.source f; upvalues = f.upvalues }) (record ls { fs = fs })

-- `ls->fs = fs->prev`
unfoldable pub pop_func : Parse Closed
unfolding proto_of
pop_func ls = pop_of ls.fs ls

unfoldable pub close_func : Parse Closed
unfolding removevars pop_func
close_func = do removevars 0; gen (luak_ret 0 (some 0)); pop_func

-- The operation that moves an upvalue of a kind to a closure.
abbrev pub upvalue_code : ExpKind → OpCode
upvalue_code vlocal = op_move
upvalue_code _ = op_getupval

unfoldable pub push_upvalues : List UpvalDesc → Parse (Unit {0})
push_upvalues [] = pure tt
push_upvalues (u ∷ us) = do _ ← gen (luak_codeabc (upvalue_code u.k) 0 u.info 0); push_upvalues us

-- `f->p[fs->np++] = func->f`; a vector with MAXARG_Bx elements does not grow.
unfoldable pub add_proto : Proto → Parse (Unit {0})
add_proto p = change (λ f. some (record f { p = f.p ++ p ∷ [] }))

unfoldable pub pushclosure : Closed → Parse ExpDesc
unfolding push_upvalues add_proto
pushclosure func = do
  f ← top
  if leb maxarg_bx (length f.p) then raise vector_overflow else pure tt
  add_proto func.f
  pc ← gen (luak_codeabx op_closure 0 (length f.p))
  push_upvalues func.upvalues
  pure (init_exp vrelocable pc)

unfoldable pub set_is_vararg : ℕ → Parse (Unit {0})
set_is_vararg flags = change (λ f. some (record f { is_vararg = flags }))

-- `f->is_vararg &= ~VARARG_NEEDSARG`, on a `lu_byte`.
unfoldable pub clear_needsarg : Parse (Unit {0})
clear_needsarg = change (λ f. some (record f { is_vararg = bit_and f.is_vararg 251 }))

-- The name "arg" of LUA_COMPAT_VARARG.
abbrev arg_name : TString
arg_name = b'a' ∷ b'r' ∷ b'g' ∷ []

unfoldable pub name_param : ℕ → Parse (Unit {0})
name_param nparams = do name ← str_checkname; new_localvar name nparams

unfoldable pub dots_param : ℕ → Parse (Unit {0})
dots_param nparams = do luax_next; new_localvar arg_name nparams

-- A parameter, and whether the list goes on.
unfoldable pub parameter : ℕ → Parse Bool
unfolding set_is_vararg name_param dots_param
parameter nparams = do
  ls ← get
  if ls.t.token == tk_name
      then (do name_param nparams; testnext b',')
      else (if ls.t.token == tk_dots
          then (do
            dots_param nparams
            set_is_vararg (vararg_hasarg + vararg_needsarg + vararg_isvararg)
            pure false)
          else raise syntax_error)

-- The parameters, counted from `nparams` on.
unfoldable pub parlist_loop : ℕ → ℕ → Parse ℕ
unfolding parameter
parlist_loop zero nparams = hang
parlist_loop (suc fuel) nparams = do
  more ← parameter nparams
  if more then parlist_loop fuel (nparams + 1) else pure (nparams + 1)

-- `f->numparams = cast_byte(fs->nactvar - (f->is_vararg & VARARG_HASARG))`
unfoldable pub set_numparams : Parse (Unit {0})
set_numparams = change (λ f.
    some (record f { numparams = (f.gen.nactvar + 256 - bit_and f.is_vararg vararg_hasarg) % 256 }))

-- The parameters are counted, and get registers.
unfoldable pub reserve_params : Parse (Unit {0})
unfolding set_numparams
reserve_params = do set_numparams; f ← top; gen (luak_reserveregs f.gen.nactvar)

-- The number of parameters of a list that may be empty.
unfoldable pub parlist_names : ℕ → Parse ℕ
unfolding parlist_loop
parlist_names fuel = do ls ← get; if ls.t.token == b')' then pure 0 else parlist_loop fuel 0

unfoldable pub parlist : ℕ → Parse (Unit {0})
unfolding parlist_names reserve_params
parlist fuel = do
  set_is_vararg 0
  nparams ← parlist_names fuel
  adjustlocalvars nparams
  reserve_params
