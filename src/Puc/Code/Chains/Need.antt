-- ===== src/Puc/Code/Chains/Need.antt =====
-- need_value of lua-5.1/src/lcode.c on a list of jumps.
use zua.Prelude.{
  ℕ, zero, suc, ◌≤◌, ◌≡◌, refl, ◌∙◌, ◌⊎◌, inl, inr, Bool, true, false, List, [], ◌∷◌, Option, some,
  length, get_elem?, All, arith, Bool-cases, ap, sym, ◌↔◌,
}
use zua.Puc.Opmodes.{op_testset}
use zua.Puc.Checker.{is_op}
use zua.Puc.Code.State.{FuncState, Run, done, error, stray, cyclic, ◌>>=◌, pure}
use zua.Puc.Code.Jumps.{getjumpcontrol, need_value_loop, need_value}
use zua.Puc.Code.Keeps.Words.{some-injective}
use zua.Puc.Code.Chains.Ends.{Chain-Distinct}
use zua.Puc.Code.Chains.Distinct.{Distinct-length}
use zua.Puc.Code.Chains.{Chain, getjump-Links}
use zua.Puc.Code.Chains.Concat.{Chain-below}
use zua.Puc.Code.Chains.Patch.{IsJump, code_at-found, getjumpcontrol-found}

-- The instruction that controls a jump.
control-IsJump :
    (fs : FuncState) (p : ℕ)
    → IsJump fs.code p
    → (control w : ℕ) × (getjumpcontrol p fs ≡ done control fs)
      × (get_elem? fs.code control ≡ some w)
unfolding getjumpcontrol pure
control-IsJump fs zero (w, e, _, _) = (zero, w, refl, e)
control-IsJump fs (suc b) ((w, e, _, _), (o, (v, e', _, ov), below)) =
    elim (getjumpcontrol-found fs b v e' (rw ov below)) [
      | inl g ↦ (b, v, g, e')
      | inr g ↦ (suc b, w, g, e)
    ]

-- A jump of the list that is not controlled by a TESTSET.
abbrev pub Valueless : FuncState → ℕ → Type 0
Valueless fs p =
    (control w : ℕ) × (getjumpcontrol p fs ≡ done control fs)
    × (get_elem? fs.code control ≡ some w)
    × (is_op op_testset w ≡ false)

abbrev pub Any : (ℕ → Type 0) → List ℕ → Type 0
Any P [] = ⊥
Any P (p ∷ ps) = P p ⊎ Any P ps

controlled :
    (fs : FuncState) (p c w : ℕ)
    → getjumpcontrol p fs ≡ done c fs
    → get_elem? fs.code c ≡ some w
    → is_op op_testset w ≡ true
    → ¬ Valueless fs p
controlled fs p c w g e t (c', w', g', e', t') =
    let cc' : c ≡ c' =
      ap (λ (r : Run ℕ). elim r [ done a _ ↦ a | error _ ↦ c | stray ↦ c | cyclic ↦ c ])
        (sym g ∙ g') in
    let ww' : w ≡ w' = some-injective (sym e ∙ (ap (get_elem? fs.code) cc' ∙ e')) in
    let bad : true ≡ false = sym t ∙ (ap (is_op op_testset) ww' ∙ t') in cc

-- Does the answer tell whether there is such a jump?
abbrev Tells : FuncState → List ℕ → Bool → Type 0
Tells fs ps answer = (answer ≡ true) ↔ Any (Valueless fs) ps

need_value_loop-Tells :
    (fuel : ℕ) (fs : FuncState) (list : Option ℕ) (ps : List ℕ)
    → length ps ≤ fuel
    → Chain fs.code list ps
    → All (IsJump fs.code) ps
    → (answer : Bool) × (need_value_loop fuel list fs ≡ done answer fs) × Tells fs ps answer
unfolding need_value_loop ◌>>=◌ pure
need_value_loop-Tells zero fs list [] room c h = (false, rw c refl, ((λ e. cc), λ a. absurd a))
need_value_loop-Tells (suc fuel) fs list [] room c h =
    (false, rw c refl, ((λ e. cc), λ a. absurd a))
need_value_loop-Tells zero fs list (p ∷ ps) room c h = absurd (omega arith)
need_value_loop-Tells (suc fuel) fs list (p ∷ ps) room (e, (next, l, c)) (j, h) =
    let (control, w, g, found) = control-IsJump fs p j in
    let (answer, ran, tells) = need_value_loop-Tells fuel fs next ps (omega arith) c h in
    elim (Bool-cases (is_op op_testset w)) [
      | inr t ↦ (
        true,
        rw e (rw g (rw (code_at-found fs control w found) (rw t refl))),
        ((λ _. inl (control, w, g, found, t)), λ _. refl),
      )
      | inl t ↦ (
        answer,
        rw e (
            rw g
              (rw (code_at-found fs control w found) (rw t (rw (getjump-Links fs p next l) ran)))),
        (
          (λ so. inr (tells.0 so)),
          λ a. elim a [
            | inl v ↦ absurd (controlled fs p control w g found t v)
            | inr rest ↦ tells.1 rest
          ],
        ),
      )
    ]

-- need_value on any list of JMPs that ends, each of them at the start or behind an instruction of the
-- machine: it returns, and leaves the state as it is; its answer is whether some jump of the list is not controlled
-- by a TESTSET.
pub need_value-Tells :
    (fs : FuncState) (list : Option ℕ) (ps : List ℕ)
    → Chain fs.code list ps
    → All (IsJump fs.code) ps
    → (answer : Bool) × (need_value list fs ≡ done answer fs)
      × ((answer ≡ true) ↔ Any (Valueless fs) ps)
unfolding need_value
need_value-Tells fs list ps c h =
    need_value_loop-Tells (length fs.code) fs list ps
      (Distinct-length (length fs.code) ps (Chain-Distinct fs.code list ps c)
        (Chain-below fs.code list ps c))
      c h
