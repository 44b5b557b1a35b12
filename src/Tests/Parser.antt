-- ===== src/Tests/Parser.antt =====
-- The parser of lua-5.1/src/lparser.c on small chunks.
use zua.Prelude.{ℕ, ◌+◌, ◌-◌, ◌*◌, ◌/◌, ◌≢◌, refl, List, [], ◌∷◌, none, some, ◌==◌, arith}
use zua.Puc.Chunk.{TString, Proto, proto, no_protos, more_protos, number, string}
use zua.Puc.Code.State.{Numbers, ◌>>=◌ as gen_bind, modify, set_operand, write}
use zua.Puc.Parser.Tokens.{
  Lexeme, lexeme, tk_name, tk_number, tk_local, tk_return, tk_function, tk_end,
}
use zua.Puc.Parser.State.{
  hung, Func, LexState, ◌>>=◌, top, change, gen, luax_next, testnext, check, checknext, check_match,
  str_checkname, enterlevel, leavelevel,
}
use zua.Puc.Parser.Stats.{luay_parser, grammar, setinput}
use zua.Puc.Parser.Keeps.{IsChecked, Post, Moves, Within}
use zua.Puc.Parser.Functions.{opened, close_func, pushclosure, parlist}
use zua.Puc.Code.Calls.{opened_funcstate}
use zua.Puc.Parser.Search.{Searched, searchvar-Searched}
use zua.Puc.Parser.Sound.{luay_parser-IsChecked, luay_parser-ne-hung, chunk-Moves}
use zua.Puc.Parser.Keeps.Body.{opened-IsSoundFunc}
use zua.Puc.Parser.Exprs.{explist1}
use zua.Puc.Parser.Scope.{
  searchvar, registerlocalvar, new_localvar, adjustlocalvars, find_variable, singlevar,
  adjust_assign, leaveblock,
}
use zua.Puc.Parser.Exprs.Primary.{simpleexp}
use zua.Puc.Code.Jumps.{patchtestreg, patchlistaux_loop, patchlistaux, dischargejpc}
use zua.Puc.Code.Emit.{
  append_code, luak_code, luak_codeabc, luak_codeabx, luak_ret, luak_fixline, luak_checkstack,
  luak_reserveregs, freereg, freeexp,
}
use zua.Puc.Code.Consts.{same_key, addk, luak_stringk, luak_numberk}
use zua.Puc.Code.Exps.{
  luak_dischargevars, join_jump, load_value, discharge2reg, exp2reg, luak_exp2nextreg,
  discharged2anyreg, luak_exp2anyreg, luak_exp2val, value2rk, luak_exp2rk, luak_storevar,
}
use zua.Puc.Code.Ops.{isnumeral, constfolding, code_operation, codearith, luak_infix, luak_posfix}
use zua.Puc.Word.{setarg_a, create_abc, create_abx, isk}
use zua.Puc.Chunk.Bytes.{same_bytes}

-- Numbers that are natural numbers.
abbrev naturals : Numbers
naturals = record {
  add = λ a b. a + b;
  sub = λ a b. a - b;
  mul = λ a b. a * b;
  div = λ a b. a / b;
  pow = λ a b. a;
  neg = λ a. a;
  floor = λ a. a;
  eq = λ a b. a == b;
}

abbrev symbol : ℕ → Lexeme
symbol c = lexeme (record { token = c; ts = []; r = 0 }) 1

abbrev name_token : TString → Lexeme
name_token s = lexeme (record { token = tk_name; ts = s; r = 0 }) 1

abbrev number_token : ℕ → Lexeme
number_token r = lexeme (record { token = tk_number; ts = []; r = r }) 1

-- local a = 7 function f(x) return a + x end
abbrev closure_rest : List Lexeme
closure_rest =
    name_token (b'a' ∷ [])
    ∷ symbol b'='
    ∷ number_token 7
    ∷ symbol tk_function
    ∷ name_token (b'f' ∷ [])
    ∷ symbol b'('
    ∷ name_token (b'x' ∷ [])
    ∷ symbol b')'
    ∷ symbol tk_return
    ∷ name_token (b'a' ∷ [])
    ∷ symbol b'+'
    ∷ name_token (b'x' ∷ [])
    ∷ symbol tk_end
    ∷ []

abbrev closure_chunk : List Lexeme
closure_chunk = symbol tk_local ∷ closure_rest

-- The function that luac makes of it.
abbrev closure_proto : Proto
closure_proto =
    proto
      (record {
        k = number 7 ∷ string (some (b'f' ∷ [])) ∷ [];
        code = 1 ∷ 100 ∷ 0 ∷ 16455 ∷ 8388638 ∷ [];
        lineinfo = 1 ∷ 1 ∷ 1 ∷ 1 ∷ 1 ∷ [];
        locvars = record { varname = some (b'a' ∷ []); startpc = 1; endpc = 4 } ∷ [];
        upvalues = [];
        source = none;
        linedefined = 0;
        lastlinedefined = 0;
        nups = 0;
        numparams = 0;
        is_vararg = 2;
        maxstacksize = 2;
      })
      (more_protos
        (proto
          (record {
            k = [];
            code = 68 ∷ 8388684 ∷ 16777310 ∷ 8388638 ∷ [];
            lineinfo = 1 ∷ 1 ∷ 1 ∷ 1 ∷ [];
            locvars = record { varname = some (b'x' ∷ []); startpc = 0; endpc = 3 } ∷ [];
            upvalues = some (b'a' ∷ []) ∷ [];
            source = none;
            linedefined = 1;
            lastlinedefined = 1;
            nups = 1;
            numparams = 1;
            is_vararg = 0;
            maxstacksize = 2;
          })
          no_protos)
        no_protos)

luay_parser-ne-hung_example : luay_parser naturals closure_chunk none 0 ≢ hung
luay_parser-ne-hung_example = luay_parser-ne-hung naturals closure_chunk none 0 (omega arith)

-- Its main function, at the first token.
abbrev closure_state : LexState
closure_state = record (setinput closure_chunk none 0) {
  input = closure_rest;
  t = record { token = tk_local; ts = []; r = 0 };
  fs = opened 1 0 ∷ [];
}

closure_state-Within : Within 20 201 0 closure_state
closure_state-Within = record {
  funcs = (opened-IsSoundFunc 1 0, tt);
  tokens = omega arith;
  levels = omega arith;
  height = omega arith;
  base = omega arith;
}

chunk-Moves_example :
    Post (λ _ ls'. Moves closure_state ls') ((grammar naturals 20 201).chunk closure_state)
chunk-Moves_example = chunk-Moves naturals 20 201 closure_state closure_state-Within

-- A function with two variables `a`, of which the second hides the first.
abbrev hiding : Func
hiding = record (opened 1 0) {
  gen = record (opened_funcstate 1) { nactvar = 2 };
  actvar = 0 ∷ 1 ∷ [];
  locvars =
      record { varname = some (b'a' ∷ []); startpc = 0; endpc = 0 }
      ∷ record { varname = some (b'a' ∷ []); startpc = 1; endpc = 0 }
      ∷ [];
}

searchvar-Searched_example : Searched hiding (b'a' ∷ []) 2 (searchvar hiding (b'a' ∷ []))
searchvar-Searched_example = searchvar-Searched hiding (b'a' ∷ [])

luay_parser-IsChecked_example : IsChecked closure_proto
unfolding luay_parser explist1 ◌>>=◌ top change gen luax_next testnext check checknext check_match
    str_checkname enterlevel leavelevel close_func pushclosure parlist registerlocalvar new_localvar
    adjustlocalvars find_variable singlevar adjust_assign leaveblock simpleexp patchtestreg
    patchlistaux_loop patchlistaux dischargejpc append_code luak_code luak_codeabc luak_codeabx
    luak_ret luak_fixline luak_checkstack luak_reserveregs freereg freeexp same_key addk
    luak_stringk luak_numberk luak_dischargevars join_jump load_value discharge2reg exp2reg
    luak_exp2nextreg discharged2anyreg luak_exp2anyreg luak_exp2val value2rk luak_exp2rk
    luak_storevar isnumeral constfolding code_operation codearith luak_infix luak_posfix gen_bind
    modify set_operand setarg_a create_abc create_abx isk write same_bytes
luay_parser-IsChecked_example =
    luay_parser-IsChecked naturals closure_chunk none 0 (omega arith) refl
