-- ===== src/Puc/Parser/Keeps/Scope.antt =====
-- Local variables of lua-5.1/src/lparser.c: what their operations uphold.
use zua.Prelude.{
  ℕ, zero, suc, ◌-◌, ◌≤◌, ◌≡◌, refl, Bool, true, false, List, Option, none, some, ltb, ◌==◌,
  if◌then◌else◌, get_elem?, set, arith,
}
use zua.Puc.Chunk.{TString, LocVar}
use zua.Puc.Code.State.{FuncState, ExpDesc, ExpKind, vvoid, Numbers}
use zua.Puc.Code.Keeps.{IsSound}
use zua.Puc.Code.Keeps.Emit.{luak_nil-Keeps, luak_reserveregs-Keeps}
use zua.Puc.Code.Keeps.Exps.{luak_setreturns-Keeps, luak_exp2nextreg-Keeps}
use zua.Puc.Parser.State.{Func, change}
use zua.Puc.Parser.Scope.{
  add_locvar, registerlocalvar, new_localvar, set_actvar, update_locvar, start_locvar, start_var,
  start_vars, with_actives, adjustlocalvars, end_var, removevars_loop, removevars, set_freereg,
  enterblock, close_exp, adjust_assign,
}
use zua.Puc.Parser.Keeps.{IsSoundFunc, Upholds, Stays}
use zua.Puc.Parser.Keeps.Rules.{
  upholds_rules, Upholds-bind, Upholds-if, Upholds-pure, Upholds-Stays,
}
use zua.Puc.Parser.Keeps.Updates.{
  FuncStep, Changes, strayed, changed, change-Upholds, change-Stays, gen-Upholds, top-Upholds,
}

with_registers-IsSound :
    (fs : FuncState) (nactvar freereg : ℕ)
    → IsSound fs
    → freereg ≤ fs.maxstacksize
    → IsSound (record fs { nactvar = nactvar; freereg = freereg })
with_registers-IsSound fs nactvar freereg h room = record {
  frame = room;
  stack = h.stack;
  words = h.words;
  position = h.position;
  lines = h.lines;
  size = h.size;
  count = h.count;
  constants = h.constants;
  numbers = h.numbers;
}

-- The fields that a sound function leaves free.
pub FuncStep-free :
    (f : Func) (nactvar freereg : ℕ) (locvars : List LocVar) (actvar : List ℕ) (lastlinedefined : ℕ)
    → IsSoundFunc f
    → freereg ≤ f.gen.maxstacksize
    → FuncStep f (record f {
      gen = record f.gen { nactvar = nactvar; freereg = freereg };
      locvars = locvars;
      actvar = actvar;
      lastlinedefined = lastlinedefined;
    })
FuncStep-free f nactvar freereg locvars actvar lastlinedefined h room = record {
  sound = record {
    gen = with_registers-IsSound f.gen nactvar freereg h.gen room;
    blocks = h.blocks;
    params = h.params;
    flags = h.flags;
    names = h.names;
    nups = h.nups;
    protos = h.protos;
  };
  frame = omega arith;
}

pub Changes-if :
    {f : Func} (c : Bool) (o o' : Option Func)
    → (c ≡ true → Changes f o)
    → (c ≡ false → Changes f o')
    → Changes f (if c then o else o')
Changes-if true o o' h h' = h refl
Changes-if false o o' h h' = h' refl

set_actvar-Changes : (i v : ℕ) (f : Func) → IsSoundFunc f → Changes f (set_actvar i v f)
set_actvar-Changes i v f h =
    Changes-if _ _ _ (λ _. changed (FuncStep-free f _ _ _ _ _ h h.gen.frame)) (λ _. strayed)

-- A variable of `f` with `n` active variables.
update_locvar-Changes :
    (n i : ℕ) (u : LocVar → LocVar) (f : Func)
    → IsSoundFunc f
    → Changes f (update_locvar i u (with_actives n f))
unfolding update_locvar
update_locvar-Changes n i u f h = at_index (get_elem? f.actvar i)
  where
    at_var :
        (v : ℕ) (o : Option LocVar)
        → Changes f (elim o [
          | none ↦ none
          | some lv ↦ some (record (with_actives n f) { locvars = set f.locvars v (u lv) })
        ])
    at_var v none = strayed
    at_var v (some lv) = changed (FuncStep-free f _ _ _ _ _ h h.gen.frame)

    at_index :
        (o : Option ℕ)
        → Changes f (elim o [
          | none ↦ none
          | some v ↦ elim (get_elem? f.locvars v) [
            | none ↦ none
            | some lv ↦ some (record (with_actives n f) { locvars = set f.locvars v (u lv) })
          ]
        ])
    at_index none = strayed
    at_index (some v) = at_var v (get_elem? f.locvars v)

pub start_locvar-Changes : (i : ℕ) (f : Func) → IsSoundFunc f → Changes f (start_locvar i f)
unfolding start_locvar
start_locvar-Changes i f h = update_locvar-Changes f.gen.nactvar i _ f h

start_var-Changes : (n : ℕ) (f : Func) → IsSoundFunc f → Changes f (start_var n f)
unfolding start_var
start_var-Changes n f h =
    Changes-if (ltb f.gen.nactvar n) none (start_locvar (f.gen.nactvar - n) f) (λ _. strayed)
      (λ _. start_locvar-Changes _ f h)

end_var-Changes : (n : ℕ) (f : Func) → IsSoundFunc f → Changes f (end_var n f)
unfolding end_var
end_var-Changes n f h = update_locvar-Changes n n _ f h

module _ {b d r : ℕ} where
  add_locvar-Upholds : (varname : TString) → Upholds b d r (change (add_locvar varname))
  add_locvar-Upholds varname =
      change-Upholds _ (λ f h _. changed (FuncStep-free f _ _ _ _ _ h h.gen.frame))

  registerlocalvar-Upholds : (varname : TString) → Upholds b d r (registerlocalvar varname)
  unfolding registerlocalvar
  registerlocalvar-Upholds varname =
      search (upholds_rules, top-Upholds, add_locvar-Upholds) depth 15

  pub new_localvar-Upholds : (name : TString) (n : ℕ) → Upholds b d r (new_localvar name n)
  unfolding new_localvar
  new_localvar-Upholds name n =
      search (upholds_rules, top-Upholds, registerlocalvar-Upholds, assigned) depth 15
    where
      assigned : (i v : ℕ) → Upholds b d r (change (set_actvar i v))
      assigned i v = change-Upholds _ (λ f h _. set_actvar-Changes i v f h)

  start_vars-Upholds : (n : ℕ) → Upholds b d r (start_vars n)
  unfolding start_vars
  start_vars-Upholds zero = search upholds_rules
  start_vars-Upholds (suc n) =
      Upholds-bind _ _ (change-Upholds _ (λ f h _. start_var-Changes (suc n) f h))
        (λ _. start_vars-Upholds n)

  pub adjustlocalvars-Upholds : (nvars : ℕ) → Upholds b d r (adjustlocalvars nvars)
  unfolding adjustlocalvars
  adjustlocalvars-Upholds nvars =
      Upholds-bind _ _
        (change-Upholds _ (λ f h _. changed (FuncStep-free f _ _ _ _ _ h h.gen.frame)))
        (λ _. start_vars-Upholds nvars)

  removevars_loop-Upholds : (n tolevel : ℕ) → Upholds b d r (removevars_loop n tolevel)
  unfolding removevars_loop
  removevars_loop-Upholds zero tolevel = search upholds_rules
  removevars_loop-Upholds (suc n) tolevel =
      Upholds-if _ _ _
        (Upholds-bind _ _ (change-Upholds _ (λ f h _. end_var-Changes n f h))
          (λ _. removevars_loop-Upholds n tolevel))
        (Upholds-pure tt)

  pub removevars-Upholds : (tolevel : ℕ) → Upholds b d r (removevars tolevel)
  unfolding removevars
  removevars-Upholds tolevel = search (upholds_rules, top-Upholds, removevars_loop-Upholds) depth 15

  pub set_freereg-Upholds : (reg : ℕ) → reg ≤ r → Upholds b d r (set_freereg reg)
  unfolding set_freereg
  set_freereg-Upholds reg le =
      change-Upholds _
        (λ f h room. changed (FuncStep-free f f.gen.nactvar reg _ _ _ h (omega (arith, le, room))))

  pub enterblock-Stays : (isbreakable : Bool) → Stays b d r (enterblock isbreakable)
  unfolding enterblock
  enterblock-Stays isbreakable = change-Stays _ (λ f h _.
      Changes-if (f.gen.freereg == f.gen.nactvar) _ _
        (λ e. changed (record {
          sound = record {
            gen = h.gen;
            blocks = (ground (arith, h.gen.frame), h.blocks);
            params = h.params;
            flags = h.flags;
            names = h.names;
            nups = h.nups;
            protos = h.protos;
          };
          frame = omega arith;
        }))
        (λ _. strayed))

  pub enterblock-Upholds : (isbreakable : Bool) → Upholds b d r (enterblock isbreakable)
  enterblock-Upholds isbreakable = Upholds-Stays _ (enterblock-Stays isbreakable)

  module _ (num : Numbers) where
    pub close_exp-Upholds : (e : ExpDesc) (k : ExpKind) → Upholds b d r (close_exp num e k)
    close_exp-Upholds e vvoid = search upholds_rules
    close_exp-Upholds e _ = search (upholds_rules, gen-Upholds, luak_exp2nextreg-Keeps) depth 15

    pub adjust_assign-Upholds :
        (nvars nexps : ℕ) (e : ExpDesc) → Upholds b d r (adjust_assign num nvars nexps e)
    unfolding adjust_assign
    adjust_assign-Upholds nvars nexps e =
        search
          (
            upholds_rules, gen-Upholds, top-Upholds, close_exp-Upholds, luak_setreturns-Keeps,
            luak_reserveregs-Keeps, luak_nil-Keeps,
          )
          depth 20
