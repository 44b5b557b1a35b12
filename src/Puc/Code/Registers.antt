-- ===== src/Puc/Code/Registers.antt =====
-- Registers of lua-5.1/src/lcode.c: luaK_reserveregs, and the LOADNILs that luaK_nil joins.
use zua.Prelude.{
  ℕ, zero, suc, ◌+◌, ◌-◌, ◌%◌, ◌^◌, ◌≤◌, ◌<◌, ◌≡◌, refl, ◌∙◌, Bool, true, false, List, some, length,
  get_elem?, set, arith, max, ltb, leb, lt→ltb, le→leb, lt→leb, sym, [], ◌∷◌, ◌⊎◌, ◌↔◌, ◌==◌,
  if◌then◌else◌, ap, Bool-cases, inl, inr,
}
use zua.Puc.Word.{IsWord, getarg_a, getarg_b, setarg_b, get_opcode}
use zua.Puc.Word.Fields.{Fields, fields, set_fields}
use zua.Puc.Opmodes.{op_loadnil, opcode_number}
use zua.Puc.Checker.{maxstack}
use zua.Puc.Code.State.{
  FuncState, done, error, too_complex, ◌>>=◌, modify, pure, code_at, set_code, set_operand,
}
use zua.Puc.Code.Emit.{luak_checkstack, luak_reserveregs, past_target, connect_nil, luak_nil}
use zua.Puc.Code.Keeps.{IsSound}
use zua.Puc.Code.Keeps.Words.{found_below, some-injective}
use zua.Puc.Code.Chains.{read-found}

-- luaK_reserveregs of a sound state succeeds exactly when fewer than MAXSTACK registers are then in use. It
-- changes the number of registers in use, and the size of the frame to the greater of the old size and that number;
-- otherwise the error is "function or expression too complex".
pub luak_reserveregs-bounds :
    (fs : FuncState) (n : ℕ)
    → IsSound fs
    → (fs.freereg + n < maxstack
        → luak_reserveregs n fs
          ≡ done tt (record fs {
            freereg = fs.freereg + n;
            maxstacksize = max fs.maxstacksize (fs.freereg + n);
          }))
      × (maxstack ≤ fs.freereg + n → luak_reserveregs n fs ≡ error too_complex)
unfolding luak_reserveregs luak_checkstack ◌>>=◌ modify
luak_reserveregs-bounds fs n h = (
  (λ below. elim (Bool-cases (leb (fs.freereg + n) fs.maxstacksize)) [
    | inl fits ↦
        let same : max fs.maxstacksize (fs.freereg + n) ≡ fs.maxstacksize = ground arith in
        rw fits (rw same refl)
    | inr over ↦
        let more : max fs.maxstacksize (fs.freereg + n) ≡ (fs.freereg + n) % 256 = ground arith in
        rw over (rw (lt→leb maxstack (fs.freereg + n) below) (rw more refl))
  ]),
  (λ over.
      let s : fs.maxstacksize < maxstack = h.stack in
      rw (lt→leb (fs.freereg + n) fs.maxstacksize (omega arith))
        (rw (le→leb maxstack (fs.freereg + n) over) refl)),
)

-- LOADNIL `w` clears the register `r`.
abbrev pub Clears : ℕ → ℕ → Type 0
Clears w r = (getarg_a w ≤ r) × (r ≤ getarg_b w)

set_same : (xs : List ℕ) (i v : ℕ) → get_elem? xs i ≡ some v → set xs i v ≡ xs
set_same [] i v e = refl
set_same (x ∷ xs) zero v e = ap (λ t. t ∷ xs) (sym (some-injective e))
set_same (x ∷ xs) (suc i) v e = ap (λ t. x ∷ t) (set_same xs i v e)

connect_nil-found :
    (fs : FuncState) (before from n v : ℕ)
    → get_elem? fs.code before ≡ some v
    → get_opcode v ≡ opcode_number op_loadnil
    → getarg_a v ≤ from
    → from ≤ getarg_b v + 1
    → connect_nil before from n fs
      ≡ done tt (record fs {
        code =
            set fs.code before
              (if ltb (getarg_b v + 1) (from + n) then setarg_b v (from + n - 1) else v);
      })
unfolding connect_nil ◌>>=◌ pure set_operand code_at set_code opcode_number
connect_nil-found fs before from n v e o ha hb = rw (read-found fs.code before v fs e) (
    rw o (
      rw (le→leb (getarg_a v) from ha) (
        rw (le→leb from (getarg_b v + 1) hb) (elim (Bool-cases (ltb (getarg_b v + 1) (from + n))) [
          | inl t ↦ rw t (
              rw (read-found fs.code before v fs e)
                (rw (lt→ltb before (length fs.code) (found_below fs.code before v e)) refl))
          | inr t ↦ rw t (rw (set_same fs.code before v e) refl)
        ]))))

-- The LOADNIL after the join, and what it clears.
joined-Clears :
    (v from n : ℕ)
    → IsWord v
    → getarg_a v ≤ from
    → from ≤ getarg_b v + 1
    → 0 < n
    → from + n ≤ 512
    → (joins : Bool) → ltb (getarg_b v + 1) (from + n) ≡ joins
    → (get_opcode (if joins then setarg_b v (from + n - 1) else v) ≡ get_opcode v)
      × ((r : ℕ)
          → Clears (if joins then setarg_b v (from + n - 1) else v) r
            ↔ (Clears v r ⊎ ((from ≤ r) × (r < from + n))))
joined-Clears v from n w ha hb hn room true t =
    let kept : fields (setarg_b v (from + n - 1))
        ≡ record (fields v) { b = (from + n - 1) % 2 ^ 9 } =
      (set_fields v (from + n - 1) w).2 in
    let a : getarg_a (setarg_b v (from + n - 1)) ≡ getarg_a v = ap (λ (f : Fields). f.a) kept in
    let b : getarg_b (setarg_b v (from + n - 1)) ≡ (from + n - 1) % 2 ^ 9 =
      ap (λ (f : Fields). f.b) kept in
    let o : get_opcode (setarg_b v (from + n - 1)) ≡ get_opcode v =
      ap (λ (f : Fields). f.op) kept in
    (o, λ r. ground arith)
joined-Clears v from n w ha hb hn room false t = (refl, λ r. ground arith)

-- luaK_nil behind a LOADNIL, where no jump leads between the two, for one or more registers, none past 511, that touch
-- or overlap those of the LOADNIL: no instruction is added. The old one stays a LOADNIL, and clears exactly the
-- registers that it cleared before and the `n` registers from `from` on.
pub luak_nil-Clears :
    (fs : FuncState) (from n v : ℕ)
    → 0 < fs.pc
    → past_target fs ≡ true
    → get_elem? fs.code (fs.pc - 1) ≡ some v
    → IsWord v
    → get_opcode v ≡ opcode_number op_loadnil
    → getarg_a v ≤ from
    → from ≤ getarg_b v + 1
    → 0 < n
    → from + n ≤ 512
    → (v' : ℕ) × (luak_nil from n fs ≡ done tt (record fs { code = set fs.code (fs.pc - 1) v' }))
      × (get_opcode v' ≡ opcode_number op_loadnil)
      × ((r : ℕ) → Clears v' r ↔ (Clears v r ⊎ ((from ≤ r) × (r < from + n))))
unfolding luak_nil ◌>>=◌
luak_nil-Clears fs from n v behind past e w o ha hb hn room =
    let (op, clears) = joined-Clears v from n w ha hb hn room _ refl in
    let later : (fs.pc == 0) ≡ false = ground arith in
    (_, rw past (rw later (connect_nil-found fs (fs.pc - 1) from n v e o ha hb)), op ∙ o, clears)
