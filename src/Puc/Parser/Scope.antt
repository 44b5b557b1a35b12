-- ===== src/Puc/Parser/Scope.antt =====
-- lua-5.1/src/lparser.c: local variables, upvalues and blocks.
use zua.Prelude.{
  ℕ, zero, suc, ◌+◌, ◌-◌, ◌%◌, ◌^◌, Bool, true, false, not, ◌&&◌, ◌||◌, List, [], ◌∷◌, ◌++◌, Option,
  none, some, ltb, leb, ◌==◌, if◌then◌else◌, length, get_elem?, set,
}
use zua.Puc.Opmodes.{op_close}
use zua.Puc.Chunk.{TString, LocVar}
use zua.Puc.Chunk.Dump.{same_string}
use zua.Puc.Checker.{no_reg}
use zua.Puc.Code.State.{
  ExpDesc, ExpKind, vvoid, vglobal, vlocal, vupval, vcall, vvararg, Numbers, write,
}
use zua.Puc.Code.Jumps.{luak_patchtohere}
use zua.Puc.Code.Emit.{luak_codeabc, luak_nil, luak_reserveregs}
use zua.Puc.Code.Consts.{luak_stringk}
use zua.Puc.Code.Exps.{luak_setreturns, luak_exp2nextreg}
use zua.Puc.Parser.State.{
  BlockCnt, UpvalDesc, Func, Fault, vector_overflow, limit_error, Parse, parsed, failed, stray,
  ◌>>=◌, ◌>>◌, pure, raise, lost, top, change, gen, str_checkname, LexState, Outcome,
  luay_checklimit, luai_maxvars, luai_maxupvalues, shrt_max,
}

abbrev pub init_exp : ExpKind → ℕ → ExpDesc
init_exp k i = record { k = k; info = i; aux = 0; nval = 0; t = none; f = none }

-- The new entry's startpc and endpc are not yet set.
abbrev pub add_locvar : TString → Func → Option Func
add_locvar varname f = some (record f {
  locvars = f.locvars ++ (record { varname = some varname; startpc = 0; endpc = 0 }) ∷ [];
})

-- A vector with SHRT_MAX elements does not grow.
unfoldable pub registerlocalvar : TString → Parse ℕ
registerlocalvar varname = do
  f ← top
  if leb shrt_max (length f.locvars) then raise vector_overflow else pure tt
  change (add_locvar varname)
  pure (length f.locvars)

-- `fs->actvar[i] = v`
abbrev pub set_actvar : ℕ → ℕ → Func → Option Func
set_actvar i v f =
    if leb i (length f.actvar) then some (record f { actvar = write f.actvar i v }) else none

unfoldable pub new_localvar : TString → ℕ → Parse (Unit {0})
new_localvar name n = do
  f ← top
  luay_checklimit (f.gen.nactvar + n + 1) luai_maxvars
  i ← registerlocalvar name
  change (set_actvar (f.gen.nactvar + n) (i % 2 ^ 16))

-- getlocvar
unfoldable pub getlocvar : Func → ℕ → Option LocVar
getlocvar f i = elim (get_elem? f.actvar i) [ none ↦ none | some v ↦ get_elem? f.locvars v ]

-- An assignment to fields of `getlocvar(fs, i)`.
unfoldable pub update_locvar : ℕ → (LocVar → LocVar) → Func → Option Func
update_locvar i u f = elim (get_elem? f.actvar i) [
  | none ↦ none
  | some v ↦ elim (get_elem? f.locvars v) [
    | none ↦ none
    | some lv ↦ some (record f { locvars = set f.locvars v (u lv) })
  ]
]

unfoldable pub start_locvar : ℕ → Func → Option Func
unfolding update_locvar
start_locvar i f = update_locvar i (λ lv. record lv { startpc = f.gen.pc }) f

-- `getlocvar(fs, fs->nactvar - n).startpc = fs->pc`
unfoldable pub start_var : ℕ → Func → Option Func
unfolding start_locvar
start_var n f = if ltb f.gen.nactvar n then none else start_locvar (f.gen.nactvar - n) f

unfoldable pub start_vars : ℕ → Parse (Unit {0})
unfolding start_var
start_vars zero = pure tt
start_vars (suc n) = do change (start_var (suc n)); start_vars n

-- `fs->nactvar = n`
abbrev pub with_actives : ℕ → Func → Func
with_actives n f = record f { gen = record f.gen { nactvar = n } }

unfoldable pub adjustlocalvars : ℕ → Parse (Unit {0})
unfolding start_vars
adjustlocalvars nvars = do
  change (λ f. some (with_actives ((f.gen.nactvar + nvars) % 256) f))
  start_vars nvars

-- `getlocvar(fs, --fs->nactvar).endpc = fs->pc`, to the count `n`.
unfoldable pub end_var : ℕ → Func → Option Func
unfolding update_locvar
end_var n f = update_locvar n (λ lv. record lv { endpc = f.gen.pc }) (with_actives n f)

unfoldable pub removevars_loop : ℕ → ℕ → Parse (Unit {0})
unfolding end_var
removevars_loop zero tolevel = pure tt
removevars_loop (suc n) tolevel =
    if ltb tolevel (suc n) then (do change (end_var n); removevars_loop n tolevel) else pure tt

unfoldable pub removevars : ℕ → Parse (Unit {0})
unfolding removevars_loop
removevars tolevel = do f ← top; removevars_loop f.gen.nactvar tolevel

-- `==` on the kinds of upvalues.
abbrev pub same_kind : ExpKind → ExpKind → Bool
same_kind vlocal vlocal = true
same_kind vupval vupval = true
same_kind _ _ = false

-- The first loop of indexupvalue, from index `i` on.
unfoldable pub find_upvalue : List UpvalDesc → ExpKind → ℕ → ℕ → Option ℕ
find_upvalue [] k info i = none
find_upvalue (u ∷ us) k info i =
    let rest = find_upvalue us k info (i + 1) in
    if same_kind u.k k && u.info == info then some i else rest

-- What a search for a name gives: the kind and the number of the variable, and the functions with the upvalues
-- that it made.
pub data Lookup : Type 0 where
  found : ExpKind → ℕ → List Func → Lookup
  too_many : Fault → Lookup
  out : Lookup

unfoldable pub indexupvalue : Func → TString → ExpKind → ℕ → List Func → Lookup
unfolding find_upvalue
indexupvalue f name k info fs = elim (find_upvalue f.upvalues k info 0) [
  | some i ↦ found vupval i (f ∷ fs)
  | none ↦
      if ltb luai_maxupvalues (length f.upvalues + 1)
      then too_many (limit_error luai_maxupvalues)
      else found vupval (length f.upvalues) (
          record f {
            upvalues = f.upvalues ++ (record { k = k; info = info % 256 }) ∷ [];
            names = f.names ++ name ∷ [];
          }
          ∷ fs)
]

-- The loop of searchvar, below index `i`; `some none` is the -1.
unfoldable pub searchvar_loop : Func → TString → ℕ → Option (Option ℕ)
unfolding getlocvar same_string
searchvar_loop f n zero = some none
searchvar_loop f n (suc i) =
    let rest = searchvar_loop f n i in
    elim (getlocvar f i) [
      | none ↦ none
      | some v ↦ if same_string (some n) v.varname then some (some i) else rest
    ]

unfoldable pub searchvar : Func → TString → Option (Option ℕ)
unfolding searchvar_loop
searchvar f n = searchvar_loop f n f.gen.nactvar

unfoldable pub markupval : List BlockCnt → ℕ → List BlockCnt
markupval [] level = []
markupval (b ∷ bl) level =
    if ltb level b.nactvar then b ∷ markupval bl level else record b { upval = true } ∷ bl

-- What is left of singlevaraux after its call for the functions around `f`.
unfoldable pub captured : Func → TString → Lookup → Lookup
unfolding indexupvalue
captured f n (found vglobal info fs) = found vglobal info (f ∷ fs)
captured f n (found k info fs) = indexupvalue f n k info fs
captured f n (too_many e) = too_many e
captured f n out = out

unfoldable pub singlevaraux : List Func → TString → Bool → Lookup
unfolding searchvar markupval captured
singlevaraux [] n base = found vglobal no_reg []
singlevaraux (f ∷ fs) n base = elim (searchvar f n) [
  | none ↦ out
  | some (some v) ↦ found vlocal v ((if base then f else record f { bl = markupval f.bl v }) ∷ fs)
  | some none ↦ captured f n (singlevaraux fs n false)
]

abbrev pub looked_up : Lookup → LexState → Outcome ExpDesc
looked_up (found k info fs) ls = parsed (init_exp k info) (record ls { fs = fs })
looked_up (too_many e) ls = failed e
looked_up out ls = stray

unfoldable pub find_variable : TString → Parse ExpDesc
unfolding singlevaraux
find_variable n ls = looked_up (singlevaraux ls.fs n true) ls

module _ (num : Numbers) where
  abbrev pub global_name : TString → ExpDesc → ExpKind → Parse ExpDesc
  global_name n var vglobal = do i ← gen (luak_stringk num n); pure (record var { info = i })
  global_name n var _ = pure var

  unfoldable pub singlevar : Parse ExpDesc
  singlevar = do varname ← str_checkname; var ← find_variable varname; global_name varname var var.k

-- hasmultret
abbrev pub hasmultret : ExpKind → Bool
hasmultret vcall = true
hasmultret vvararg = true
hasmultret _ = false

module _ (num : Numbers) where
  -- `e` is moved to the next register, unless it is VVOID.
  abbrev pub close_exp : ExpDesc → ExpKind → Parse (Unit {0})
  close_exp e vvoid = pure tt
  close_exp e _ = do _ ← gen (luak_exp2nextreg num e); pure tt

  unfoldable pub adjust_assign : ℕ → ℕ → ExpDesc → Parse (Unit {0})
  adjust_assign nvars nexps e =
      if hasmultret e.k
      then (do
        let extra = nvars + 1 - nexps
        gen (luak_setreturns e (some extra))
        if ltb 1 extra then gen (luak_reserveregs (extra - 1)) else pure tt)
      else (do
        close_exp e e.k
        f ← top
        let reg = f.gen.freereg
        if ltb nexps nvars
            then (do gen (luak_reserveregs (nvars - nexps)); gen (luak_nil reg (nvars - nexps)))
            else pure tt)

-- lua_assert
abbrev pub lua_assert : Bool → Parse (Unit {0})
lua_assert c = if c then pure tt else lost

unfoldable pub enterblock : Bool → Parse (Unit {0})
enterblock isbreakable = change (λ f.
    if f.gen.freereg == f.gen.nactvar
    then some (record f {
      bl =
          (record {
            breaklist = none;
            nactvar = f.gen.nactvar;
            upval = false;
            isbreakable = isbreakable;
          })
          ∷ f.bl;
    })
    else none)

-- `fs->freereg = reg`
unfoldable pub set_freereg : ℕ → Parse (Unit {0})
set_freereg reg = change (λ f. some (record f { gen = record f.gen { freereg = reg } }))

abbrev pub close_block : List BlockCnt → Parse (Unit {0})
close_block [] = lost
close_block (b ∷ bl) = do
  change (λ f. some (record f { bl = bl }))
  removevars b.nactvar
  if b.upval then (do _ ← gen (luak_codeabc op_close b.nactvar 0 0); pure tt) else pure tt
  lua_assert (not b.isbreakable || not b.upval)
  f ← top
  lua_assert (b.nactvar == f.gen.nactvar)
  set_freereg f.gen.nactvar
  gen (luak_patchtohere b.breaklist)

unfoldable pub leaveblock : Parse (Unit {0})
unfolding removevars set_freereg
leaveblock = do f ← top; close_block f.bl
