-- ===== src/Puc/Parser/Stats/Assign.antt =====
-- lua-5.1/src/lparser.c: assignments.
use zua.Prelude.{
  ℕ, zero, suc, ◌+◌, ◌-◌, Bool, true, false, ◌||◌, List, [], ◌∷◌, none, some, ltb, ◌==◌,
  if◌then◌else◌,
}
use zua.Puc.Opmodes.{op_move}
use zua.Puc.Code.State.{
  ExpDesc, ExpKind, vlocal, vupval, vglobal, vindexed, vnonreloc, vcall, Numbers, set_operand,
}
use zua.Puc.Word.{setarg_c}
use zua.Puc.Code.Emit.{luak_codeabc, luak_reserveregs}
use zua.Puc.Code.Exps.{luak_setoneret, luak_storevar}
use zua.Puc.Parser.State.{
  Parse, ◌>>=◌, ◌>>◌, pure, lost, hang, get, top, change, gen, testnext, checknext, check_condition,
  luay_checklimit, luai_maxccalls,
}
use zua.Puc.Parser.Scope.{init_exp, adjust_assign}
use zua.Puc.Parser.Exprs.{Rules, explist1}
use zua.Puc.Parser.Exprs.Primary.{primaryexp}

abbrev pub is_local : ExpKind → Bool
is_local vlocal = true
is_local _ = false

-- `VLOCAL <= k && k <= VINDEXED`
abbrev pub is_variable : ExpKind → Bool
is_variable vlocal = true
is_variable vupval = true
is_variable vglobal = true
is_variable vindexed = true
is_variable _ = false

-- A variable of the left-hand side that uses register `extra` where it used `info`, and whether it did.
unfoldable pub spare : ℕ → ℕ → ExpDesc → ExpKind → ExpDesc × Bool
spare info extra v vindexed = (
  record v {
    info = if v.info == info then extra else v.info;
    aux = if v.aux == info then extra else v.aux;
  },
  v.info == info || v.aux == info,
)
spare info extra v _ = (v, false)

-- The loop of check_conflict, with the left-hand side that it leaves.
unfoldable pub spare_all : ℕ → ℕ → List ExpDesc → List ExpDesc × Bool
unfolding spare
spare_all info extra [] = ([], false)
spare_all info extra (v ∷ lhs) =
    let (v', conflict) = spare info extra v v.k in
    let (lhs', others) = spare_all info extra lhs in (v' ∷ lhs', conflict || others)

unfoldable pub check_conflict : List ExpDesc → ExpDesc → Parse (List ExpDesc)
unfolding spare_all
check_conflict lhs v = do
  f ← top
  let extra = f.gen.freereg
  let (lhs', conflict) = spare_all v.info extra lhs
  if conflict
      then (do _ ← gen (luak_codeabc op_move extra v.info 0); gen (luak_reserveregs 1))
      else pure tt
  pure lhs'

-- `ls->fs->freereg -= n`
unfoldable pub drop_regs : ℕ → Parse (Unit {0})
drop_regs n = change (λ f.
    if ltb f.gen.freereg n
    then none
    else some (record f { gen = record f.gen { freereg = f.gen.freereg - n } }))

module _ (num : Numbers) (rules : Rules) (fuel : ℕ) where
  -- The default assignment, of the last register, to the last variable of the left-hand side.
  unfoldable pub store_last : List ExpDesc → Parse (List ExpDesc)
  store_last [] = lost
  store_last (v ∷ prev) = do
    f ← top
    if f.gen.freereg == 0 then lost else pure tt
    _ ← gen (luak_storevar num v (init_exp vnonreloc (f.gen.freereg - 1)))
    pure prev

  -- `=` explist1, for the left-hand side with the last variable `v`.
  unfoldable pub assign : ExpDesc → List ExpDesc → ℕ → Parse (List ExpDesc)
  unfolding store_last drop_regs
  assign v prev nvars = do
    checknext b'='
    (nexps, e) ← explist1 num rules fuel
    if nexps == nvars
        then (do e ← gen (luak_setoneret e); _ ← gen (luak_storevar num v e); pure prev)
        else (do
          adjust_assign num nvars nexps e
          if ltb nvars nexps then drop_regs (nexps - nvars) else pure tt
          store_last (v ∷ prev))

  -- One more variable of the left-hand side.
  unfoldable pub next_variable : List ExpDesc → ℕ → Parse (ExpDesc × List ExpDesc)
  unfolding check_conflict
  next_variable lhs nvars = do
    nv ← primaryexp num rules fuel
    lhs ← (if is_local nv.k then check_conflict lhs nv else pure lhs)
    ls ← get
    luay_checklimit nvars (luai_maxccalls - ls.nccalls)
    pure (nv, lhs)

  -- The left-hand side is `v` and before it `prev`, the last one first; the result is what `prev` has become, since
  -- check_conflict changes variables of it.
  unfoldable pub assignment : ℕ → ExpDesc → List ExpDesc → ℕ → Parse (List ExpDesc)
  unfolding assign next_variable
  assignment zero v prev nvars = hang
  assignment (suc rounds) v prev nvars = do
    check_condition (is_variable v.k)
    more ← testnext b','
    if more
        then (do
          (nv, lhs) ← next_variable (v ∷ prev) nvars
          lhs ← assignment rounds nv lhs (nvars + 1)
          store_last lhs)
        else assign v prev nvars

  abbrev pub call_or_assignment : ExpDesc → ExpKind → Parse (Unit {0})
  call_or_assignment v vcall = gen (set_operand setarg_c v.info 1)
  call_or_assignment v _ = do _ ← assignment fuel v [] 1; pure tt

  unfoldable pub exprstat : Parse (Unit {0})
  unfolding assignment
  exprstat = do v ← primaryexp num rules fuel; call_or_assignment v v.k
