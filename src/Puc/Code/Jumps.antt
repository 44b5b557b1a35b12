-- ===== src/Puc/Code/Jumps.antt =====
-- lua-5.1/src/lcode.c: the lists of jumps, which are threaded through the offsets of the jumps themselves.
use zua.Prelude.{
  ℕ, zero, suc, ◌+◌, ◌-◌, Bool, true, false, not, ◌&&◌, Option, none, some, ltb, ◌==◌,
  if◌then◌else◌, length,
}
use zua.Prelude.Int.{ℤ, pos, negsuc, pos_part, neg_part, ◌-ℤ◌}
use zua.Puc.Word.{
  get_opcode, getarg_b, getarg_c, setarg_a, getarg_sbx, setarg_sbx, create_abc, maxarg_sbx,
}
use zua.Puc.Opmodes.{op_test, op_testset, opcode_number, num_opcodes, test_t_mode}
use zua.Puc.Checker.{opcode_at, is_op, no_reg}
use zua.Puc.Code.State.{
  Gen, ◌>>=◌, ◌>>◌, pure, get, modify, raise, lost, circle, within, code_at, set_code, set_operand,
  too_long, done,
}

-- fixjump for an offset.
unfoldable pub set_offset : ℕ → ℤ → Gen (Unit {0})
set_offset pc offset =
    if ltb maxarg_sbx (pos_part offset + neg_part offset)
    then raise too_long
    else (do jmp ← code_at pc; set_code pc (setarg_sbx jmp offset))

unfoldable pub fixjump : ℕ → ℕ → Gen (Unit {0})
fixjump pc dest = set_offset pc (pos dest -ℤ pos (pc + 1))

unfoldable pub luak_getlabel : Gen ℕ
luak_getlabel fs = done fs.pc (record fs { lasttarget = some fs.pc })

-- `(pc+1)+offset`, or NO_JUMP; `none` for any other negative number.
unfoldable pub jump_target : ℕ → ℤ → Option (Option ℕ)
jump_target pc (pos n) = some (some (pc + 1 + n))
jump_target pc (negsuc zero) = some none
jump_target pc (negsuc (suc n)) =
    if ltb n pc then some (some (pc - suc n)) else if n == pc then some none else none

unfoldable pub getjump : ℕ → Gen (Option ℕ)
getjump pc = do i ← code_at pc; within (jump_target pc (getarg_sbx i))

-- `testTMode(GET_OPCODE(i))`: luaP_opmodes has NUM_OPCODES entries.
unfoldable pub is_test : ℕ → Gen Bool
is_test i =
    if ltb (get_opcode i) num_opcodes
    then pure (not (test_t_mode (opcode_at (get_opcode i)) == 0))
    else lost

unfoldable pub getjumpcontrol : ℕ → Gen ℕ
getjumpcontrol zero = pure zero
getjumpcontrol (suc before) = do
  i ← code_at before
  test ← is_test i
  pure (if test then before else suc before)

-- Each round of the loops over a list takes one from the fuel, which is the number of instructions.
unfoldable pub need_value_loop : ℕ → Option ℕ → Gen Bool
need_value_loop fuel none = pure false
need_value_loop zero (some list) = circle
need_value_loop (suc fuel) (some list) = do
  control ← getjumpcontrol list
  i ← code_at control
  if not (is_op op_testset i)
      then pure true
      else (do next ← getjump list; need_value_loop fuel next)

unfoldable pub need_value : Option ℕ → Gen Bool
need_value list fs = need_value_loop (length fs.code) list fs

unfoldable pub patchtestreg : ℕ → ℕ → Gen Bool
unfolding opcode_number
patchtestreg node reg = do
  control ← getjumpcontrol node
  i ← code_at control
  if not (is_op op_testset i) then pure false else (do
    if not (reg == no_reg) && not (reg == getarg_b i)
        then set_operand setarg_a control reg
        else set_code control (create_abc (opcode_number op_test) (getarg_b i) 0 (getarg_c i))
    pure true)

unfoldable pub removevalues_loop : ℕ → Option ℕ → Gen (Unit {0})
removevalues_loop fuel none = pure tt
removevalues_loop zero (some list) = circle
removevalues_loop (suc fuel) (some list) = do
  _ ← patchtestreg list no_reg
  next ← getjump list
  removevalues_loop fuel next

unfoldable pub removevalues : Option ℕ → Gen (Unit {0})
removevalues list fs = removevalues_loop (length fs.code) list fs

-- A jump to `dtarget`, which is asserted to be a position.
abbrev pub fixjump_to : ℕ → Option ℕ → Gen (Unit {0})
fixjump_to list none = lost
fixjump_to list (some dest) = fixjump list dest

unfoldable pub patchlistaux_loop : ℕ → Option ℕ → ℕ → ℕ → Option ℕ → Gen (Unit {0})
patchlistaux_loop fuel none vtarget reg dtarget = pure tt
patchlistaux_loop zero (some list) vtarget reg dtarget = circle
patchlistaux_loop (suc fuel) (some list) vtarget reg dtarget = do
  next ← getjump list
  patched ← patchtestreg list reg
  fixjump_to list (if patched then some vtarget else dtarget)
  patchlistaux_loop fuel next vtarget reg dtarget

unfoldable pub patchlistaux : Option ℕ → ℕ → ℕ → Option ℕ → Gen (Unit {0})
patchlistaux list vtarget reg dtarget fs =
    patchlistaux_loop (length fs.code) list vtarget reg dtarget fs

unfoldable pub dischargejpc : Gen (Unit {0})
dischargejpc = do
  fs ← get
  patchlistaux fs.jpc fs.pc no_reg (some fs.pc)
  modify (λ fs. record fs { jpc = none })

-- The end of a round of luaK_concat's loop: the link is set, or the next round is run.
unfoldable pub concat_next : ℕ → Option ℕ → ℕ → (ℕ → Gen (Unit {0})) → Gen (Unit {0})
concat_next list none l2 loop = fixjump list l2
concat_next list (some next) l2 loop = loop next

-- The loop that finds the last element of a list, with the link that it sets there.
unfoldable pub concat_loop : ℕ → ℕ → ℕ → Gen (Unit {0})
concat_loop zero list l2 = circle
concat_loop (suc fuel) list l2 = do
  next ← getjump list
  concat_next list next l2 (λ list'. concat_loop fuel list' l2)

-- The new value of `*l1`.
unfoldable pub luak_concat : Option ℕ → Option ℕ → Gen (Option ℕ)
luak_concat l1 none = pure l1
luak_concat none (some l2) = pure (some l2)
luak_concat (some l1) (some l2) = do fs ← get; concat_loop (length fs.code) l1 l2; pure (some l1)

unfoldable pub luak_patchtohere : Option ℕ → Gen (Unit {0})
luak_patchtohere list = do
  _ ← luak_getlabel
  fs ← get
  jpc ← luak_concat fs.jpc list
  modify (λ fs. record fs { jpc = jpc })

unfoldable pub luak_patchlist : Option ℕ → ℕ → Gen (Unit {0})
luak_patchlist list target = do
  fs ← get
  if target == fs.pc then luak_patchtohere list else patchlistaux list target no_reg (some target)
