-- ===== src/Puc/Code/Chains/Patch.antt =====
-- patchtestreg of lua-5.1/src/lcode.c on a jump, and what patching may do to instructions.
use zua.Prelude.{
  ℕ, zero, suc, ◌≤◌, ◌<◌, ◌≡◌, refl, ◌∙◌, sym, ◌≢◌, ◌⊎◌, inl, inr, true, false, not, List, some,
  length, get_elem?, set, arith, ap, ◌==◌, lt→ltb, ==_iff, Bool-cases,
}
use zua.Puc.Word.{IsWord, maxarg_sbx, get_opcode, getarg_b, getarg_c, create_abc}
use zua.Puc.Opmodes.{op_testset, op_test, op_jmp, opcode_number, num_opcodes, test_t_mode}
use zua.Puc.Checker.{is_op, no_reg, opcode_at}
use zua.Puc.Code.State.{FuncState, done, ◌>>=◌, pure, code_at, set_code}
use zua.Puc.Code.Jumps.{fixjump, is_test, getjumpcontrol, patchtestreg}
use zua.Puc.Code.Keeps.Words.{found_below, some-injective}
use zua.Puc.Code.Chains.{Links, read-found, fixjump-Links, get_elem?-set, get_elem?-set_other}

-- A 32-bit word at `i`, with an opcode of the machine.
abbrev pub HasOpcode : List ℕ → ℕ → ℕ → Type 0
HasOpcode code i o = (w : ℕ) × (get_elem? code i ≡ some w) × IsWord w × (get_opcode w ≡ o)

-- A jump at `p`, behind an instruction.
abbrev pub IsJump : List ℕ → ℕ → Type 0
IsJump code zero = HasOpcode code zero (opcode_number op_jmp)
IsJump code (suc b) =
    HasOpcode code (suc b) (opcode_number op_jmp)
    × ((o : ℕ) × HasOpcode code b o × (o < num_opcodes))

pub jump_at : (code : List ℕ) (p : ℕ) → IsJump code p → HasOpcode code p (opcode_number op_jmp)
jump_at code zero h = h
jump_at code (suc b) (h, _) = h

pub code_at-found :
    (fs : FuncState) (i w : ℕ) → get_elem? fs.code i ≡ some w → code_at i fs ≡ done w fs
unfolding code_at
code_at-found fs i w e = read-found fs.code i w fs e

-- The TEST that stands for a TESTSET without a register.
abbrev pub plain_test : ℕ → ℕ
plain_test v = create_abc (opcode_number op_test) (getarg_b v) 0 (getarg_c v)

pub getjumpcontrol-found :
    (fs : FuncState) (b v : ℕ)
    → get_elem? fs.code b ≡ some v
    → get_opcode v < num_opcodes
    → (getjumpcontrol (suc b) fs ≡ done b fs) ⊎ (getjumpcontrol (suc b) fs ≡ done (suc b) fs)
unfolding getjumpcontrol is_test ◌>>=◌ pure
getjumpcontrol-found fs b v e below =
    elim (Bool-cases (not (test_t_mode (opcode_at (get_opcode v)) == 0))) [
      | inl t ↦
          inl
            (rw (code_at-found fs b v e) (rw (lt→ltb (get_opcode v) num_opcodes below) (rw t refl)))
      | inr t ↦
          inr
            (rw (code_at-found fs b v e) (rw (lt→ltb (get_opcode v) num_opcodes below) (rw t refl)))
    ]

-- patchtestreg on an instruction that is no TESTSET, and on one that is.
pub patchtestreg-other :
    (fs : FuncState) (node control v : ℕ)
    → getjumpcontrol node fs ≡ done control fs
    → get_elem? fs.code control ≡ some v
    → is_op op_testset v ≡ false
    → patchtestreg node no_reg fs ≡ done false fs
unfolding patchtestreg ◌>>=◌ pure
patchtestreg-other fs node control v g e t = rw g (rw (code_at-found fs control v e) (rw t refl))

pub patchtestreg-testset :
    (fs : FuncState) (node control v : ℕ)
    → getjumpcontrol node fs ≡ done control fs
    → get_elem? fs.code control ≡ some v
    → is_op op_testset v ≡ true
    → patchtestreg node no_reg fs
      ≡ done true (record fs { code = set fs.code control (plain_test v) })
unfolding patchtestreg ◌>>=◌ pure set_code
patchtestreg-testset fs node control v g e t = rw g (
    rw (code_at-found fs control v e)
      (rw t (rw (lt→ltb control (length fs.code) (found_below fs.code control v e)) refl)))

-- patchtestreg on a jump, without a register: it changes nothing, or a TESTSET just before the jump.
pub patchtestreg-IsJump :
    (fs : FuncState) (p : ℕ)
    → IsJump fs.code p
    → (patchtestreg p no_reg fs ≡ done false fs)
      ⊎ ((b v : ℕ) × (p ≡ suc b)
          × (get_elem? fs.code b ≡ some v)
          × (get_opcode v ≡ opcode_number op_testset)
          × (patchtestreg p no_reg fs
              ≡ done true (record fs { code = set fs.code b (plain_test v) })))
unfolding getjumpcontrol pure opcode_number
patchtestreg-IsJump fs zero (w, e, _, o) =
    inl (patchtestreg-other fs zero zero w refl e (rw o refl))
patchtestreg-IsJump fs (suc b) ((w, e, _, o), (o', (v, e', _, ov), below)) =
    elim (getjumpcontrol-found fs b v e' (rw ov below)) [
      | inr g ↦ inl (patchtestreg-other fs (suc b) (suc b) w g e (rw o refl))
      | inl g ↦ elim (Bool-cases (is_op op_testset v)) [
        | inl t ↦ inr (
          b,
          v,
          refl,
          e',
          (==_iff (get_opcode v) 27).0 t,
          patchtestreg-testset fs (suc b) b v g e' t,
        )
        | inr t ↦ inl (patchtestreg-other fs (suc b) b v g e' t)
      ]
    ]

-- What patching may do to an instruction: its operands, and TESTSET becomes TEST.
abbrev pub Patched : List ℕ → List ℕ → Type 0
Patched code code' =
    (i o : ℕ)
    → HasOpcode code i o
    → (o' : ℕ) × HasOpcode code' i o'
      × ((o' ≡ o) ⊎ ((o ≡ opcode_number op_testset) × (o' ≡ opcode_number op_test)))

pub Patched-set :
    (code : List ℕ) (j v v' o o' : ℕ)
    → get_elem? code j ≡ some v
    → get_opcode v ≡ o
    → IsWord v'
    → get_opcode v' ≡ o'
    → (o' ≡ o) ⊎ ((o ≡ opcode_number op_testset) × (o' ≡ opcode_number op_test))
    → Patched code (set code j v')
Patched-set code j v v' o o' e eo h eo' rel i oi (w, found, hw, ow) = elim (Bool-cases (i == j)) [
  | inl same ↦
      let s : i ≡ j = (==_iff i j).0 same in
      let wv : w ≡ v = some-injective (sym found ∙ (ap (get_elem? code) s ∙ e)) in
      let oo : oi ≡ o = sym ow ∙ (ap get_opcode wv ∙ eo) in
      (o', (v', rw s (get_elem?-set code j v' v e), h, eo'), rw oo rel)
  | inr other ↦
      (oi, (w, get_elem?-set_other code j i v' (λ t. not_same t other) ∙ found, hw, ow), inl refl)
]
  where
    not_same : j ≡ i → (i == j) ≡ false → ⊥
    not_same t f = ground arith

pub jmp-Patched :
    (code code' : List ℕ) (i : ℕ)
    → Patched code code'
    → HasOpcode code i (opcode_number op_jmp)
    → HasOpcode code' i (opcode_number op_jmp)
unfolding opcode_number
jmp-Patched code code' i k h =
    let (o', (w, e, hw, ow), rel) = k i 22 h in
    elim rel [ inl same ↦ (w, e, hw, ow ∙ same) | inr (bad, _) ↦ absurd (omega arith) ]

pub IsJump-Patched :
    (code code' : List ℕ) (p : ℕ) → Patched code code' → IsJump code p → IsJump code' p
unfolding opcode_number
IsJump-Patched code code' zero k h = jmp-Patched code code' zero k h
IsJump-Patched code code' (suc b) k (h, (o, hb, below)) =
    let (o', hb', rel) = k b o hb in
    let below' : o' < num_opcodes = elim rel [ inl e ↦ omega arith | inr (_, e) ↦ omega arith ] in
    (jmp-Patched code code' (suc b) k h, (o', hb', below'))

-- fixjump with the opcode of the jump kept.
pub fixjump-Patched :
    (fs : FuncState) (p dest : ℕ)
    → HasOpcode fs.code p (opcode_number op_jmp)
    → dest ≢ p
    → length fs.code ≤ maxarg_sbx
    → dest < maxarg_sbx
    → (w' : ℕ) × (fixjump p dest fs ≡ done tt (record fs { code = set fs.code p w' }))
      × Links (set fs.code p w') p (some dest)
      × Patched fs.code (set fs.code p w')
fixjump-Patched fs p dest (w, e, h, o) d small hd =
    let hp : p < maxarg_sbx = omega (arith, small, found_below fs.code p w e) in
    let (w', ran, links, word, kept) = fixjump-Links fs p dest w e h d hp hd in
    (w', ran, links, Patched-set fs.code p w w' _ _ e o word (kept ∙ o) (inl refl))

pub Patched-trans : (a b c : List ℕ) → Patched a b → Patched b c → Patched a c
unfolding opcode_number
Patched-trans a b c p q i o h =
    let (o', h', rel) = p i o h in let (o'', h'', rel') = q i o' h' in (o'', h'', ground arith)
