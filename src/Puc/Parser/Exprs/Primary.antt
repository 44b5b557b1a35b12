-- ===== src/Puc/Parser/Exprs/Primary.antt =====
-- lua-5.1/src/lparser.c: function bodies, calls, and primary and simple expressions.
use zua.Prelude.{
  ℕ, zero, suc, ◌-◌, Bool, [], ◌∷◌, none, some, ltb, false, not, ◌||◌, ◌==◌, if◌then◌else◌,
}
use zua.Puc.Opmodes.{op_call, op_vararg}
use zua.Puc.Chunk.{TString}
use zua.Puc.Code.State.{ExpDesc, vvoid, vnil, vtrue, vfalse, vknum, vcall, vvararg, Numbers}
use zua.Puc.Code.Emit.{luak_codeabc, luak_fixline}
use zua.Puc.Code.Exps.{
  luak_setreturns, luak_dischargevars, luak_exp2nextreg, luak_exp2anyreg, luak_self,
}
use zua.Puc.Code.Ops.{luak_indexed}
use zua.Puc.Parser.Tokens.{
  tk_name, tk_string, tk_number, tk_nil, tk_true, tk_false, tk_dots, tk_function, tk_end,
}
use zua.Puc.Parser.State.{
  syntax_error, Parse, ◌>>=◌, ◌>>◌, pure, raise, lost, hang, get, top, change, gen, luax_next,
  checknext, check_condition, check_match,
}
use zua.Puc.Parser.Scope.{
  init_exp, singlevar, hasmultret, close_exp, set_freereg, new_localvar, adjustlocalvars,
}
use zua.Puc.Parser.Functions.{open_func, close_func, pushclosure, parlist, clear_needsarg}
use zua.Puc.Parser.Exprs.{Rules, checkname, codestring, field, expr, yindex, explist1}
use zua.Puc.Parser.Exprs.Constructor.{constructor}

abbrev pub self_name : TString
self_name = b's' ∷ b'e' ∷ b'l' ∷ b'f' ∷ []

unfoldable pub set_lastlinedefined : ℕ → Parse (Unit {0})
set_lastlinedefined line = change (λ f. some (record f { lastlinedefined = line }))

module _ (num : Numbers) (rules : Rules) (fuel : ℕ) where
  -- The function of body, from its parameters to its end.
  unfoldable pub body_parts : Bool → ℕ → Parse (Unit {0})
  unfolding set_lastlinedefined
  body_parts needself line = do
    checknext b'('
    if needself then (do new_localvar self_name 0; adjustlocalvars 1) else pure tt
    parlist fuel
    checknext b')'
    rules.chunk
    ls ← get
    set_lastlinedefined ls.linenumber
    check_match tk_end tk_function line

  unfoldable pub body : Bool → ℕ → Parse ExpDesc
  unfolding body_parts
  body needself line = do
    open_func line
    body_parts needself line
    func ← close_func
    pushclosure func

  -- The arguments of a call in parentheses.
  unfoldable pub paren_args : ℕ → Parse ExpDesc
  paren_args line = do
    ls ← get
    if not (line == ls.lastline) then raise syntax_error else pure tt
    luax_next
    ls ← get
    args ←
        (if ls.t.token == b')'
          then pure (init_exp vvoid 0)
          else (do (_, args) ← explist1 num rules fuel; gen (luak_setreturns args none); pure args))
    check_match b')' b'(' line
    pure args

  -- The `switch` of funcargs.
  unfoldable pub call_args : ℕ → Parse ExpDesc
  unfolding paren_args
  call_args line = do
    ls ← get
    if ls.t.token == b'('
        then paren_args line
        else (if ls.t.token == b'{'
            then constructor num rules fuel
            else (if ls.t.token == tk_string
                then (do args ← codestring num ls.t.ts; luax_next; pure args)
                else raise syntax_error))

  -- `nparams+1` for closed arguments, which start behind `base`.
  unfoldable pub close_args : ExpDesc → ℕ → Parse ℕ
  close_args args base = if hasmultret args.k then pure 0 else (do
    close_exp num args args.k
    f ← top
    if ltb f.gen.freereg base then lost else pure (f.gen.freereg - base))

  unfoldable pub funcargs : ExpDesc → Parse ExpDesc
  unfolding call_args close_args
  funcargs f = do
    ls ← get
    let line = ls.linenumber
    args ← call_args line
    let base = f.info
    b ← close_args args base
    pc ← gen (luak_codeabc op_call base b 2)
    gen (luak_fixline line)
    set_freereg (suc base)
    pure (init_exp vcall pc)

  unfoldable pub prefixexp : Parse ExpDesc
  prefixexp = do
    ls ← get
    if ls.t.token == b'('
        then (do
          luax_next
          v ← expr num rules
          check_match b')' b'(' ls.linenumber
          gen (luak_dischargevars v))
        else (if ls.t.token == tk_name then singlevar num else raise syntax_error)

  unfoldable pub index_suffix : ExpDesc → Parse ExpDesc
  index_suffix v = do
    (v, _) ← gen (luak_exp2anyreg num v)
    key ← yindex num rules
    gen (luak_indexed num v key)

  unfoldable pub method_suffix : ExpDesc → Parse ExpDesc
  unfolding funcargs
  method_suffix v = do luax_next; key ← checkname num; v ← gen (luak_self num v key); funcargs v

  unfoldable pub call_suffix : ExpDesc → Parse ExpDesc
  unfolding funcargs
  call_suffix v = do v ← gen (luak_exp2nextreg num v); funcargs v

  -- The loop of primaryexp.
  unfoldable pub suffixes : ℕ → ExpDesc → Parse ExpDesc
  unfolding index_suffix method_suffix call_suffix
  suffixes zero v = hang
  suffixes (suc rounds) v = do
    ls ← get
    if ls.t.token == b'.'
        then (do v ← field num v; suffixes rounds v)
        else (if ls.t.token == b'['
            then (do v ← index_suffix v; suffixes rounds v)
            else (if ls.t.token == b':'
                then (do v ← method_suffix v; suffixes rounds v)
                else (if ls.t.token == b'(' || ls.t.token == tk_string || ls.t.token == b'{'
                    then (do v ← call_suffix v; suffixes rounds v)
                    else pure v)))

  unfoldable pub primaryexp : Parse ExpDesc
  unfolding prefixexp suffixes
  primaryexp = do v ← prefixexp; suffixes fuel v

  unfoldable pub vararg_exp : Parse ExpDesc
  unfolding clear_needsarg
  vararg_exp = do
    f ← top
    check_condition (not (f.is_vararg == 0))
    clear_needsarg
    pc ← gen (luak_codeabc op_vararg 0 1 0)
    pure (init_exp vvararg pc)

  -- A simple expression of one token.
  abbrev one_token : Parse ExpDesc → Parse ExpDesc
  one_token m = do v ← m; luax_next; pure v

  unfoldable pub simpleexp : Parse ExpDesc
  unfolding vararg_exp body primaryexp
  simpleexp = do
    ls ← get
    if ls.t.token == tk_number
        then one_token (pure (record (init_exp vknum 0) { nval = ls.t.r }))
        else (if ls.t.token == tk_string
            then one_token (codestring num ls.t.ts)
            else (if ls.t.token == tk_nil
                then one_token (pure (init_exp vnil 0))
                else (if ls.t.token == tk_true
                    then one_token (pure (init_exp vtrue 0))
                    else (if ls.t.token == tk_false
                        then one_token (pure (init_exp vfalse 0))
                        else (if ls.t.token == tk_dots
                            then one_token vararg_exp
                            else (if ls.t.token == b'{'
                                then constructor num rules fuel
                                else (if ls.t.token == tk_function
                                    then (do luax_next; ls ← get; body false ls.linenumber)
                                    else primaryexp)))))))
