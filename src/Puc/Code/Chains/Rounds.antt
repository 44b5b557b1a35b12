-- ===== src/Puc/Code/Chains/Rounds.antt =====
-- One round of the loop of patchlistaux in lua-5.1/src/lcode.c.
use zua.Prelude.{
  ℕ, suc, ◌≤◌, ◌<◌, ◌≡◌, refl, ◌∙◌, sym, ◌≢◌, inl, inr, List, Option, some, length, get_elem?, set,
  length-set, arith, ap,
}
use zua.Puc.Word.{maxarg_sbx, get_opcode}
use zua.Puc.Opmodes.{op_testset, op_test, op_jmp, opcode_number}
use zua.Puc.Checker.{no_reg}
use zua.Puc.Code.State.{FuncState, done, ◌>>=◌}
use zua.Puc.Code.Jumps.{fixjump, patchlistaux_loop}
use zua.Puc.Code.Keeps.Words.{some-injective, create_abc-IsWord, create_abc-opcode}
use zua.Puc.Code.Chains.{Links, getjump-Links, get_elem?-set_other}
use zua.Puc.Code.Chains.Patch.{
  HasOpcode, IsJump, jump_at, plain_test, patchtestreg-IsJump, Patched, Patched-set, jmp-Patched,
  fixjump-Patched, Patched-trans,
}

-- The code after a round of patchlistaux with target `dest` on the jump at `p`.
abbrev pub Round : List ℕ → List ℕ → ℕ → ℕ → Type 0
Round code code' p dest =
    Links code' p (some dest)
    × Patched code code'
    × (length code' ≡ length code)
    × ((i : ℕ)
        → i ≢ p
        → HasOpcode code i (opcode_number op_jmp)
        → get_elem? code' i ≡ get_elem? code i)

Round-fixed :
    (fs : FuncState) (p dest : ℕ)
    → HasOpcode fs.code p (opcode_number op_jmp)
    → dest ≢ p
    → length fs.code ≤ maxarg_sbx
    → dest < maxarg_sbx
    → (code' : List ℕ) × (fixjump p dest fs ≡ done tt (record fs { code = code' }))
      × Round fs.code code' p dest
Round-fixed fs p dest h d small hd =
    let (w', ran, links, patched) = fixjump-Patched fs p dest h d small hd in
    (
      set fs.code p w',
      ran,
      (
        links,
        patched,
        length-set fs.code p w',
        λ i other _. get_elem?-set_other fs.code p i w' (λ t. other (sym t)),
      ),
    )

not_testset :
    (code : List ℕ) (b v i : ℕ)
    → get_elem? code b ≡ some v
    → get_opcode v ≡ opcode_number op_testset
    → HasOpcode code i (opcode_number op_jmp)
    → b ≢ i
unfolding opcode_number
not_testset code b v i e o (w, e', _, o') same =
    let wv : w ≡ v = some-injective (sym e' ∙ (ap (get_elem? code) (sym same) ∙ e)) in
    let op : get_opcode w ≡ get_opcode v = ap get_opcode wv in omega arith

pub plain_test-opcode : (v : ℕ) → get_opcode (plain_test v) ≡ opcode_number op_test
unfolding opcode_number
plain_test-opcode v = create_abc-opcode 26 _ _ _ (omega arith)

-- A TESTSET at `b` is made a TEST before the jump is set.
Round-tested :
    (fs : FuncState) (p b v dest : ℕ)
    → get_elem? fs.code b ≡ some v
    → get_opcode v ≡ opcode_number op_testset
    → HasOpcode fs.code p (opcode_number op_jmp)
    → dest ≢ p
    → length fs.code ≤ maxarg_sbx
    → dest < maxarg_sbx
    → (code' : List ℕ) × (fixjump p dest (record fs { code = set fs.code b (plain_test v) })
        ≡ done tt (record fs { code = code' }))
      × Round fs.code code' p dest
Round-tested fs p b v dest e o h d small hd =
    let code : List ℕ = set fs.code b (plain_test v) in
    let first : Patched fs.code code =
      Patched-set fs.code b v (plain_test v) _ _ e o (create_abc-IsWord _ _ _ _)
        (plain_test-opcode v) (inr (refl, refl)) in
    let size : length code ≡ length fs.code = length-set fs.code b (plain_test v) in
    let (code', ran, (links, second, size', kept)) =
      Round-fixed (record fs { code = code }) p dest (jmp-Patched fs.code code p first h) d
        (omega arith) hd in
    (
      code',
      ran,
      (
        links,
        Patched-trans fs.code code code' first second,
        size' ∙ size,
        λ i other hi.
            kept i other (jmp-Patched fs.code code i first hi)
            ∙ get_elem?-set_other fs.code b i (plain_test v) (not_testset fs.code b v i e o hi),
      ),
    )

-- A round of the loop, TESTSET or not.
pub Round-ran :
    (fuel : ℕ) (fs : FuncState) (p : ℕ) (next : Option ℕ) (dest : ℕ)
    → Links fs.code p next
    → IsJump fs.code p
    → dest ≢ p
    → length fs.code ≤ maxarg_sbx
    → dest < maxarg_sbx
    → (code' : List ℕ) × (patchlistaux_loop (suc fuel) (some p) dest no_reg (some dest) fs
        ≡ patchlistaux_loop fuel next dest no_reg (some dest) (record fs { code = code' }))
      × Round fs.code code' p dest
unfolding patchlistaux_loop ◌>>=◌
Round-ran fuel fs p next dest l h d small hd = elim (patchtestreg-IsJump fs p h) [
  | inl same ↦
      let (code', ran, round) = Round-fixed fs p dest (jump_at fs.code p h) d small hd in
      (code', rw (getjump-Links fs p next l) (rw same (rw ran refl)), round)
  | inr (b, v, _, e, o, tested) ↦
      let (code', ran, round) = Round-tested fs p b v dest e o (jump_at fs.code p h) d small hd in
      (code', rw (getjump-Links fs p next l) (rw tested (rw ran refl)), round)
]
