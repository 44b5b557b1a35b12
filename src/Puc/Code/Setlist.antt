-- ===== src/Puc/Code/Setlist.antt =====
-- luaK_setlist of lua-5.1/src/lcode.c with a block number that does not fit in operand C, before a jump.
use zua.Prelude.{
  ℕ, zero, suc, ◌+◌, ◌-◌, ◌/◌, ◌%◌, ◌^◌, ◌≤◌, ◌<◌, ◌≡◌, refl, ◌∙◌, sym, ◌≢◌, true, Option, none,
  some, List, [], ◌∷◌, length, get_elem?, set, arith, lt→leb, ap, max,
}
use zua.Prelude.Int.{pos, negsuc, ◌+ℤ◌}
use zua.Puc.Word.{get_opcode, create_abc, create_abx, maxarg_c, maxarg_sbx, cast_unsigned}
use zua.Puc.Word.Fields.{get_opcode-eq}
use zua.Puc.Opmodes.{lfields_per_flush, opcode_number, op_testset, test_t_mode, op_setlist, op_jmp}
use zua.Puc.Checker.{no_reg, opcode_at}
use zua.Puc.Table.{max_int}
use zua.Puc.Code.State.{FuncState, done, ◌>>=◌, ◌>>◌, pure, modify, within, write}
use zua.Puc.Code.Jumps.{
  patchlistaux_loop, patchlistaux, dischargejpc, luak_concat, getjumpcontrol, is_test, patchtestreg,
}
use zua.Puc.Code.Emit.{
  append_code, luak_code, luak_codeabc, luak_codeabx, luak_codeasbx, luak_jump, luak_setlist,
}
use zua.Puc.Code.Keeps.Words.{length-write, some-injective}
use zua.Puc.Code.Chains.{get_elem?-set}
use zua.Puc.Code.Chains.Patch.{code_at-found, plain_test, patchtestreg-testset}
use zua.Puc.Code.Chains.Rounds.{plain_test-opcode}

-- The state after an instruction, where no jump was pending.
abbrev emitted : FuncState → ℕ → ℕ → FuncState
emitted fs i line = record fs {
  code = write fs.code fs.pc i;
  lineinfo = write fs.lineinfo fs.pc line;
  pc = fs.pc + 1;
  jpc = none;
}

no_jumps :
    (fuel : ℕ) (vtarget reg : ℕ) (dtarget : Option ℕ) (fs : FuncState)
    → patchlistaux_loop fuel none vtarget reg dtarget fs ≡ done tt fs
unfolding patchlistaux_loop pure
no_jumps zero vtarget reg dtarget fs = refl
no_jumps (suc fuel) vtarget reg dtarget fs = refl

luak_code-emitted :
    (fs : FuncState) (i line : ℕ)
    → fs.jpc ≡ none
    → fs.pc < max_int
    → luak_code i line fs ≡ done fs.pc (emitted fs i line)
unfolding luak_code dischargejpc patchlistaux ◌>>=◌ modify append_code
luak_code-emitted fs i line e room = simp e (
    rw (no_jumps (length fs.code) fs.pc no_reg (some fs.pc) fs)
      (rw (lt→leb max_int fs.pc room) refl))

-- The block number of the element `nelems`.
abbrev pub block : ℕ → ℕ
block nelems = (nelems - 1) / lfields_per_flush + 1

abbrev stored : Option ℕ → ℕ
stored tostore = elim tostore [ none ↦ 0 | some n ↦ n ]

-- The states after the SETLIST, its block number and the jump.
abbrev setlist_word : FuncState → ℕ → Option ℕ → FuncState
setlist_word fs base tostore =
    emitted fs (create_abc (opcode_number op_setlist) base (stored tostore) 0) fs.lastline

abbrev number_word : FuncState → ℕ → ℕ → Option ℕ → FuncState
number_word fs base nelems tostore =
    emitted (setlist_word fs base tostore) (block nelems % 2 ^ 32) fs.lastline

abbrev jump_word : FuncState → ℕ → ℕ → Option ℕ → FuncState
jump_word fs base nelems tostore =
    emitted (record (number_word fs base nelems tostore) { freereg = base + 1 })
      (create_abx (opcode_number op_jmp) 0 (cast_unsigned (negsuc 0 +ℤ pos maxarg_sbx))) fs.lastline

setlist_and_jump :
    (fs : FuncState) (base nelems : ℕ) (tostore : Option ℕ)
    → fs.jpc ≡ none
    → fs.pc + 2 < max_int
    → maxarg_c < block nelems
    → (luak_setlist base nelems tostore >> luak_jump) fs
      ≡ done (fs.pc + 1 + 1) (jump_word fs base nelems tostore)
unfolding luak_setlist luak_codeabc luak_jump luak_codeasbx luak_codeabx luak_concat ◌>>=◌ modify
    within
setlist_and_jump fs base nelems tostore e room big =
    let first = λ (i : ℕ). luak_code-emitted fs i fs.lastline e (omega arith) in
    let second = λ (i : ℕ).
      luak_code-emitted (setlist_word fs base tostore) i fs.lastline refl (omega arith) in
    let third = λ (i : ℕ).
      luak_code-emitted
        (record (number_word fs base nelems tostore) { freereg = base + 1; jpc = none }) i
        fs.lastline refl (omega arith) in
    rw (lt→leb (block nelems) maxarg_c big) (rw (first _) (rw (second _) (rw (third _) refl)))

write-here : (xs : List ℕ) (i v : ℕ) → i ≤ length xs → get_elem? (write xs i v) i ≡ some v
unfolding write
write-here [] zero v h = refl
write-here [] (suc i) v h = absurd (omega arith)
write-here (x ∷ xs) zero v h = refl
write-here (x ∷ xs) (suc i) v h = write-here xs i v (omega arith)

write-elsewhere :
    (xs : List ℕ) (i j v : ℕ) → i ≤ length xs → i ≢ j → get_elem? (write xs i v) j ≡ get_elem? xs j
unfolding write
write-elsewhere [] zero zero v h d = absurd (d refl)
write-elsewhere [] zero (suc j) v h d = refl
write-elsewhere [] (suc i) j v h d = absurd (omega arith)
write-elsewhere (x ∷ xs) zero zero v h d = absurd (d refl)
write-elsewhere (x ∷ xs) zero (suc j) v h d = refl
write-elsewhere (x ∷ xs) (suc i) zero v h d = refl
write-elsewhere (x ∷ xs) (suc i) (suc j) v h d =
    write-elsewhere xs i j v (omega arith) (λ e. d (omega arith))

-- An instruction that follows leaves the one that was just written.
number-kept :
    (fs : FuncState) (base nelems : ℕ) (tostore : Option ℕ)
    → fs.pc ≤ length fs.code
    → get_elem? (jump_word fs base nelems tostore).code (fs.pc + 1) ≡ some (block nelems % 2 ^ 32)
number-kept fs base nelems tostore h =
    let one : List ℕ = (setlist_word fs base tostore).code in
    let size : length one ≡ max (length fs.code) (fs.pc + 1) = length-write fs.code fs.pc _ h in
    let two : List ℕ = (number_word fs base nelems tostore).code in
    let size' : length two ≡ max (length one) (fs.pc + 1 + 1) =
      length-write one (fs.pc + 1) _ (omega arith) in
    write-elsewhere two (fs.pc + 1 + 1) (fs.pc + 1) _ (omega arith) (λ e. omega arith)
    ∙ write-here one (fs.pc + 1) _ (omega arith)

patchtestreg-number :
    (fs : FuncState) (b n : ℕ)
    → get_elem? fs.code b ≡ some n
    → get_opcode n ≡ opcode_number op_testset
    → patchtestreg (suc b) no_reg fs ≡ done true (record fs { code = set fs.code b (plain_test n) })
unfolding getjumpcontrol is_test ◌>>=◌ pure opcode_number test_t_mode opcode_at
patchtestreg-number fs b n e o =
    patchtestreg-testset fs (suc b) b n (rw (code_at-found fs b n e) (rw o refl)) e (rw o refl)

-- A SETLIST whose block number is kept in the word behind it, where that number is of the form 64k + 27, and then a
-- jump, with no jump pending and room for the three words. Both are emitted, and the number is there; the jump
-- stands two positions behind the SETLIST. When it is patched, as the jump of a break is, patchtestreg takes the number
-- for a TESTSET that controls the jump, and overwrites it: the block number is lost.
pub luak_setlist-overwritten :
    (fs : FuncState) (base nelems : ℕ) (tostore : Option ℕ)
    → fs.pc ≤ length fs.code
    → fs.jpc ≡ none
    → fs.pc + 2 < max_int
    → maxarg_c < block nelems
    → block nelems < 2 ^ 32
    → block nelems % 64 ≡ 27
    → (fs' fs'' : FuncState) × ((luak_setlist base nelems tostore >> luak_jump) fs
        ≡ done (fs.pc + 2) fs')
      × (get_elem? fs'.code (fs.pc + 1) ≡ some (block nelems))
      × (patchtestreg (fs.pc + 2) no_reg fs' ≡ done true fs'')
      × (get_elem? fs''.code (fs.pc + 1) ≢ some (block nelems))
unfolding opcode_number
luak_setlist-overwritten fs base nelems tostore h e room big fits form =
    let n : ℕ = block nelems in
    let fs' : FuncState = jump_word fs base nelems tostore in
    let whole : n % 2 ^ 32 ≡ n = omega arith in
    let there : get_elem? fs'.code (fs.pc + 1) ≡ some n =
      number-kept fs base nelems tostore h ∙ ap (λ (t : ℕ). some t) whole in
    let op : get_opcode n ≡ 27 = get_opcode-eq n ∙ form in
    let place : fs.pc + 1 + 1 ≡ fs.pc + 2 = omega arith in
    let place' : fs.pc + 2 ≡ suc (fs.pc + 1) = omega arith in
    let test : get_opcode (plain_test n) ≡ 26 = plain_test-opcode n in
    (
      fs',
      record fs' { code = set fs'.code (fs.pc + 1) (plain_test n) },
      rw (← place) (setlist_and_jump fs base nelems tostore e room big),
      there,
      rw place' (patchtestreg-number fs' (fs.pc + 1) n there op),
      λ same.
          let equal : plain_test n ≡ n =
            some-injective
              (sym (get_elem?-set fs'.code (fs.pc + 1) (plain_test n) n there) ∙ same) in
          let wrong : get_opcode (plain_test n) ≡ get_opcode n = ap get_opcode equal in omega arith,
    )
