-- ===== src/Tests/Code.antt =====
-- lua-5.1/src/lcode.c run on small inputs.
use zua.Prelude.{
  ℕ, ◌+◌, ◌-◌, ◌*◌, ◌/◌, ◌≤◌, ◌<◌, ◌≡◌, ◌≢◌, refl, ◌⊎◌, ◌↔◌, Bool, true, List, [], ◌∷◌, Option,
  none, some, max, ◌==◌, get_elem?, set, arith,
}
use zua.Puc.Word.{get_opcode, getarg_a, getarg_b, getarg_bx, getarg_sbx}
use zua.Puc.Opmodes.{op_move, op_loadnil, opcode_number}
use zua.Puc.Checker.{no_reg}
use zua.Puc.Chunk.{nil}
use zua.Puc.Code.State.{
  FuncState, ◌>>◌, ExpDesc, vknum, vnil, Numbers, done, error, too_complex, table_key,
}
use zua.Puc.Code.Jumps.{jump_target, need_value, patchtestreg, luak_concat, luak_patchlist}
use zua.Puc.Code.Emit.{luak_jump, luak_nil, luak_setlist, luak_reserveregs}
use zua.Puc.Code.Consts.{addk}
use zua.Puc.Code.Ops.{isnumeral, codearith}
use zua.Puc.Vm.{arith_op}
use zua.Puc.Opmodes.{op_sub}
use zua.Puc.Code.Calls.{
  Call, codeabc, reserveregs, numberk, exp2nextreg, jump, patchtohere, run_calls, opened_funcstate,
}
use zua.Puc.Code.Keeps.{Post, Step}
use zua.Puc.Code.Keeps.Consts.{Numbered, addk-Numbered}
use zua.Puc.Code.Keeps.Calls.{run_calls-IsSound, opened_funcstate-IsSound}
use zua.Puc.Code.Chains.{Chain}
use zua.Puc.Code.Chains.Concat.{Elsewhere, luak_concat-Chain}
use zua.Puc.Code.Chains.Patchlist.{Jumps, Set, luak_patchlist-Set}
use zua.Puc.Code.Chains.Need.{Valueless, Any, need_value-Tells}
use zua.Puc.Code.Registers.{Clears, luak_reserveregs-bounds, luak_nil-Clears}
use zua.Puc.Code.Setlist.{luak_setlist-overwritten}
use zua.Puc.Code.Folding.{codearith-arith_op}

-- Numbers that are natural numbers.
abbrev naturals : Numbers
naturals = record {
  add = λ a b. a + b;
  sub = λ a b. a - b;
  mul = λ a b. a * b;
  div = λ a b. a / b;
  pow = λ a b. a;
  neg = λ a. a;
  floor = λ a. a;
  eq = λ a b. a == b;
}

abbrev exp : ExpDesc
exp = record { k = vnil; info = 0; aux = 0; nval = 0; t = none; f = none }

abbrev calls : List Call
calls =
    reserveregs 3
    ∷ exp2nextreg exp
    ∷ jump
    ∷ patchtohere (some 1)
    ∷ numberk 7
    ∷ codeabc op_move 0 1 0
    ∷ []

run_calls-IsSound_example :
    Post (λ _. Step (opened_funcstate 1)) (run_calls naturals calls (opened_funcstate 1))
run_calls-IsSound_example =
    run_calls-IsSound naturals calls (opened_funcstate 1) (opened_funcstate-IsSound 1)

addk-Numbered_example :
    Post
      (Numbered naturals (opened_funcstate 1) table_key)
      (addk naturals table_key nil (opened_funcstate 1))
addk-Numbered_example =
    addk-Numbered naturals table_key (opened_funcstate 1) (opened_funcstate-IsSound 1)

-- MOVE 0 0, JMP without a link, TESTSET 255 0 1, and a JMP that links to the one at 1.
abbrev linked : FuncState
linked = record (opened_funcstate 1) { code = 0 ∷ 2147450902 ∷ 32731 ∷ 2147418134 ∷ []; pc = 4 }

linked-Chain : Chain linked.code (some 3) (3 ∷ 1 ∷ [])
unfolding jump_target getarg_sbx getarg_bx
linked-Chain = (
  refl,
  (
    some 1,
    (2147418134, refl, omega arith, refl),
    (refl, (none, (2147450902, refl, omega arith, refl), refl)),
  ),
)

linked-Jumps : Jumps linked.code 0 (3 ∷ 1 ∷ [])
unfolding get_opcode opcode_number
linked-Jumps = (
  (
    ((2147418134, refl, omega arith, refl), (27, (32731, refl, omega arith, refl), omega arith)),
    λ e. omega arith,
  ),
  (
    (
      ((2147450902, refl, omega arith, refl), (0, (0, refl, omega arith, refl), omega arith)),
      λ e. omega arith,
    ),
    tt,
  ),
)

luak_patchlist-Set_example :
    (code' : List ℕ) × (luak_patchlist (some 3) 0 linked ≡ done tt (record linked { code = code' }))
    × Set linked.code code' (3 ∷ 1 ∷ []) 0
luak_patchlist-Set_example =
    luak_patchlist-Set linked (some 3) (3 ∷ 1 ∷ []) 0 (omega arith) (omega arith) (omega arith)
      linked-Chain linked-Jumps

need_value-Tells_example :
    (answer : Bool) × (need_value (some 3) linked ≡ done answer linked)
    × ((answer ≡ true) ↔ Any (Valueless linked) (3 ∷ 1 ∷ []))
need_value-Tells_example =
    need_value-Tells linked (some 3) (3 ∷ 1 ∷ []) linked-Chain
      (linked-Jumps.0.0, (linked-Jumps.1.0.0, tt))

-- Three jumps without a link.
abbrev single_jumps : FuncState
single_jumps = record (opened_funcstate 1) {
  code = 2147450902 ∷ 2147450902 ∷ 2147450902 ∷ [];
  pc = 3;
}

single-Chain :
    (p : ℕ)
    → get_elem? single_jumps.code p ≡ some 2147450902
    → Chain single_jumps.code (some p) (p ∷ [])
unfolding jump_target getarg_sbx getarg_bx
single-Chain p e = (refl, (none, (2147450902, e, omega arith, refl), refl))

luak_concat-Chain_example :
    (l : Option ℕ) × (code' : List ℕ) × (luak_concat (some 2) (some 0) single_jumps
      ≡ done l (record single_jumps { code = code' }))
    × Chain code' l (2 ∷ 0 ∷ [])
    × Elsewhere single_jumps.code code' (2 ∷ [])
luak_concat-Chain_example =
    luak_concat-Chain single_jumps (some 2) (some 0) (2 ∷ []) (0 ∷ []) (omega arith)
      (single-Chain 2 refl) (single-Chain 0 refl) (omega arith)

-- LOADNIL 1 2
abbrev cleared : FuncState
cleared = record (opened_funcstate 1) { code = 16777283 ∷ []; pc = 1 }

luak_nil-Clears_example :
    (v' : ℕ) × (luak_nil 3 2 cleared ≡ done tt (record cleared { code = set cleared.code 0 v' }))
    × (get_opcode v' ≡ opcode_number op_loadnil)
    × ((r : ℕ) → Clears v' r ↔ (Clears 16777283 r ⊎ ((3 ≤ r) × (r < 3 + 2))))
unfolding get_opcode getarg_a getarg_b opcode_number
luak_nil-Clears_example =
    luak_nil-Clears cleared 3 2 16777283 (omega arith) refl refl (omega arith) refl (omega arith)
      (omega arith) (omega arith) (omega arith)

luak_reserveregs-bounds_example :
    (0 + 249 < 250
      → luak_reserveregs 249 (opened_funcstate 1)
        ≡ done tt
            (record (opened_funcstate 1) { freereg = 0 + 249; maxstacksize = max 2 (0 + 249) }))
    × (250 ≤ 0 + 249 → luak_reserveregs 249 (opened_funcstate 1) ≡ error too_complex)
luak_reserveregs-bounds_example =
    luak_reserveregs-bounds (opened_funcstate 1) 249 (opened_funcstate-IsSound 1)

luak_setlist-overwritten_example :
    (fs' fs'' : FuncState) × ((luak_setlist 0 26901 (some 1) >> luak_jump) (opened_funcstate 1)
      ≡ done 2 fs')
    × (get_elem? fs'.code 1 ≡ some 539)
    × (patchtestreg 2 no_reg fs' ≡ done true fs'')
    × (get_elem? fs''.code 1 ≢ some 539)
luak_setlist-overwritten_example =
    luak_setlist-overwritten (opened_funcstate 1) 0 26901 (some 1) (omega arith) refl (omega arith)
      (omega arith) (omega arith) (omega arith)

abbrev seven : ExpDesc
seven = record exp { k = vknum; nval = 7 }

codearith-arith_op_example :
    codearith naturals op_sub seven (record seven { nval = 3 }) (opened_funcstate 1)
    ≡ done (record seven { nval = 4 }) (opened_funcstate 1)
unfolding arith_op isnumeral
codearith-arith_op_example =
    codearith-arith_op naturals op_sub seven (record seven { nval = 3 }) (opened_funcstate 1) 4 refl
