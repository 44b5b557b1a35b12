-- ===== src/Puc/Checker/Safety.antt =====
-- The symbolic execution of lua-5.1/src/ldebug.c reads no array out of bounds, and ends.
use zua.Prelude.{
  ℕ, zero, suc, ◌+◌, ◌-◌, ◌<◌, ◌≤◌, ◌≡◌, ◌≢◌, refl, sym, ap, ◌∙◌, Bool, true, false, not, ◌&&◌,
  ◌||◌, ltb, leb, ◌==◌, if◌then◌else◌, length, bit_and, arith,
}
use native.Mathlib.Decide.{dec_lt}
use zua.Prelude.Int.{ℤ, pos, negsuc, ◌+ℤ◌}
use zua.Puc.Word.{get_opcode, getarg_a, getarg_c}
use zua.Puc.Opmodes.{
  OpCode, op_loadbool, op_loadnil, op_getupval, op_getglobal, op_setglobal, op_setupval, op_self,
  op_concat, op_jmp, op_call, op_tailcall, op_return, op_forloop, op_forprep, op_tforloop,
  op_setlist, op_closure, op_vararg, opcode_number, num_opcodes, get_op_mode, get_b_mode,
}
use zua.Puc.Chunk.{ProtoInfo, Protos, count_protos}
use zua.Puc.Checker.{
  Checked, checked, ◌>>◌, check, fetch, nups_of, opcode_at, is_op, precheck, checkopenop, Operands,
  in_frame, is_string, no_reg,
}
use zua.Puc.Checker.Symbexec.{jump_on, execute, round, symbexec_loop, symbexec, keep, mark}
use zua.Puc.Checker.Safe.{
  Safe, accepted, accepted, bind, check-Safe, weaken, checks, choose, fetch-Safe, fetch_proto-Safe,
  checked-inj, opcode_number-opcode_at, InConstants, operands-Safe, check_skip-Safe,
  check_pseudo-Safe, checkopenop-Safe,
}

module _ (f : ProtoInfo) (ps : Protos) where
  -- What a round leaves: the program counter has not gone back, and `last` is a position in the code.
  abbrev Onward : ℕ → ℕ × ℕ → Type 0
  Onward pc moved = (pc ≤ moved.0) × (moved.1 < length f.code)

  module _ (lastpc reg pc last a : ℕ) (o : Operands) (here : pc < length f.code)
      (found : last < length f.code) where
    keep-Safe : Safe (Onward pc) (keep f ps lastpc reg pc last a o)
    keep-Safe = accepted (omega arith, found)

    mark-Safe : (c : Bool) → Safe (Onward pc) (mark f ps lastpc reg pc last a o c)
    mark-Safe true = accepted (omega arith, here)
    mark-Safe false = accepted (omega arith, found)

    checked-Safe :
        (c : Bool) {k : Checked (ℕ × ℕ)} → Safe (Onward pc) k → Safe (Onward pc) (check c >> k)
    checked-Safe c h = bind _ (checks c) (λ _ _. h)

    jump_on-Safe : (dest : ℤ) → Safe (Onward pc) (jump_on f ps lastpc reg pc last a o dest)
    unfolding jump_on
    jump_on-Safe (negsuc n) = keep-Safe
    jump_on-Safe (pos dest) =
        choose (not (reg == no_reg) && ltb pc dest && leb dest lastpc)
          (λ h. accepted (ground arith, found)) (λ _. keep-Safe)

    open-Safe :
        (c : ℕ) (d : Bool)
        → pc + 1 < length f.code
        → Safe (λ _. Unit {0}) (if c == 0 then checkopenop f pc else check d)
    open-Safe c d h = choose (c == 0) (λ _. checkopenop-Safe f pc h) (λ _. checks d)

    execute-Safe :
        (op : OpCode)
        → (opcode_number op ≢ opcode_number op_return → pc + 1 < length f.code)
        → InConstants f op o
        → Safe (Onward pc) (execute f ps lastpc reg pc last a o op)
    unfolding execute opcode_number get_op_mode get_b_mode
    execute-Safe op_loadbool next consts =
        choose (o.c == 1)
          (λ _. bind _ (check-Safe (ltb (pc + 2) (length f.code))) (λ _ h.
            bind _ (fetch-Safe f.code (pc + 1) (ground arith))
              (λ i _. checked-Safe (not (is_op op_setlist i) || not (getarg_c i == 0)) keep-Safe)))
          (λ _. keep-Safe)
    execute-Safe op_loadnil next consts = mark-Safe (leb a reg && leb reg o.b)
    execute-Safe op_getupval next consts = checked-Safe (ltb o.b f.nups) keep-Safe
    execute-Safe op_setupval next consts = checked-Safe (ltb o.b f.nups) keep-Safe
    execute-Safe op_getglobal next consts =
        bind _ (fetch-Safe f.k o.b (consts refl refl)) (λ v _. checked-Safe (is_string v) keep-Safe)
    execute-Safe op_setglobal next consts =
        bind _ (fetch-Safe f.k o.b (consts refl refl)) (λ v _. checked-Safe (is_string v) keep-Safe)
    execute-Safe op_self next consts = checked-Safe (in_frame f (a + 1)) (mark-Safe (reg == a + 1))
    execute-Safe op_concat next consts = checked-Safe (ltb o.b o.c) keep-Safe
    execute-Safe op_tforloop next consts =
        checked-Safe (leb 1 o.c)
          (checked-Safe (in_frame f (a + 2 + o.c)) (mark-Safe (leb (a + 2) reg)))
    execute-Safe op_forloop next consts =
        checked-Safe (in_frame f (a + 3)) (jump_on-Safe (pos (pc + 1) +ℤ o.sbx))
    execute-Safe op_forprep next consts =
        checked-Safe (in_frame f (a + 3)) (jump_on-Safe (pos (pc + 1) +ℤ o.sbx))
    execute-Safe op_jmp next consts = jump_on-Safe (pos (pc + 1) +ℤ o.sbx)
    execute-Safe op_call next consts = checked-Safe (o.b == 0 || in_frame f (a + o.b - 1)) (
        bind _ (open-Safe o.c (o.c == 1 || in_frame f (a + o.c - 2)) (next (omega arith)))
          (λ _ _. mark-Safe (leb a reg)))
    execute-Safe op_tailcall next consts = checked-Safe (o.b == 0 || in_frame f (a + o.b - 1)) (
        bind _ (open-Safe o.c (o.c == 1 || in_frame f (a + o.c - 2)) (next (omega arith)))
          (λ _ _. mark-Safe (leb a reg)))
    execute-Safe op_return next consts =
        checked-Safe (leb o.b 1 || in_frame f (a + o.b - 2)) keep-Safe
    execute-Safe op_setlist next consts = checked-Safe (o.b == 0 || in_frame f (a + o.b)) (
        choose (o.c == 0)
          (λ _. checked-Safe (ltb (pc + 1) (length f.code - 1)) (accepted (omega arith, found)))
          (λ _. keep-Safe))
    execute-Safe op_closure next consts = bind _ (check-Safe (ltb o.b (count_protos ps))) (λ _ h.
        bind _ (fetch_proto-Safe ps o.b (ground arith)) (λ inner _.
          bind _ (check-Safe (ltb (pc + nups_of inner) (length f.code))) (λ _ h'.
            bind _ (check_pseudo-Safe f (nups_of inner) pc (ground arith))
              (λ _ _. accepted (ground arith, found)))))
    execute-Safe op_vararg next consts =
        checked-Safe (not (bit_and f.is_vararg 2 == 0) && bit_and f.is_vararg 4 == 0) (
          bind _
            (choose (o.b == 0) (λ _. checkopenop-Safe f pc (next (omega arith))) (λ _. accepted tt))
            (λ _ _. checked-Safe (ltb (a + o.b) (f.maxstacksize + 2)) keep-Safe))
    execute-Safe _ next consts = keep-Safe

  -- The last instruction is a return.
  abbrev Returns : Type 0
  Returns = (w : ℕ) × (fetch f.code (length f.code - 1) ≡ checked w) × (is_op op_return w ≡ true)

  not_last :
      (pc i : ℕ)
      → Returns
      → pc < length f.code
      → fetch f.code pc ≡ checked i
      → get_opcode i < 38
      → opcode_number (opcode_at (get_opcode i)) ≢ opcode_number op_return
      → pc + 1 < length f.code
  unfolding opcode_number
  not_last pc i (w, e, r) here ei small other = elim (dec_lt (pc + 1) (length f.code)) [
    | yes h ↦ h
    | no h ↦
        let last_pc : pc ≡ length f.code - 1 = omega arith in
        let same : i ≡ w = checked-inj (sym ei ∙ ap (fetch f.code) last_pc ∙ e) in
        let number : get_opcode w ≡ 30 = ground arith in
        absurd (other (opcode_number-opcode_at (get_opcode i) small ∙ ap get_opcode same ∙ number))
  ]

  round-Safe :
      (lastpc reg pc last : ℕ)
      → Returns
      → pc < length f.code
      → last < length f.code
      → Safe (Onward pc) (round f ps lastpc reg pc last)
  unfolding round
  round-Safe lastpc reg pc last returns here found = bind _ (fetch-Safe f.code pc here) (λ i ei.
      bind _ (check-Safe (ltb (get_opcode i) num_opcodes)) (λ _ small.
        bind _ (checks (in_frame f (getarg_a i))) (λ _ _.
          bind _ (operands-Safe f (opcode_at (get_opcode i)) pc i) (λ o consts.
            bind _ (check_skip-Safe f (opcode_at (get_opcode i)) pc) (λ _ _.
              execute-Safe lastpc reg pc _ (getarg_a i) o here (marked _ here found)
                (opcode_at (get_opcode i)) (not_last pc i returns here ei (ground arith))
                consts)))))
    where
      marked :
          (c : Bool)
          → pc < length f.code
          → last < length f.code
          → (if c then pc else last) < length f.code
      marked true h h' = h
      marked false h h' = h'

  -- An instruction of the function.
  abbrev pub IsInstruction : ℕ → Type 0
  IsInstruction i = (q : ℕ) × (q < length f.code) × (fetch f.code q ≡ checked i)

  final-Safe : (last : ℕ) → last < length f.code → Safe IsInstruction (fetch f.code last)
  final-Safe last found = weaken (fetch-Safe f.code last found) (λ i e. (last, found, e))

  symbexec_loop-Safe :
      (fuel lastpc reg pc last : ℕ)
      → Returns
      → lastpc ≤ length f.code
      → lastpc ≤ pc + fuel
      → last < length f.code
      → Safe IsInstruction (symbexec_loop f ps fuel lastpc reg pc last)
  unfolding symbexec_loop
  symbexec_loop-Safe zero lastpc reg pc last returns inside enough found =
      choose (ltb pc lastpc) (λ h. absurd (ground arith)) (λ _. final-Safe last found)
  symbexec_loop-Safe (suc fuel) lastpc reg pc last returns inside enough found =
      choose (ltb pc lastpc)
        (λ h. bind _ (round-Safe lastpc reg pc last returns (ground arith) found) (λ moved onward.
          symbexec_loop-Safe fuel lastpc reg (moved.0 + 1) moved.1 returns inside
            (omega (arith, onward.0)) onward.1))
        (λ _. final-Safe last found)

  precheck-Safe : Safe (λ _. (0 < length f.code) × Returns) (precheck f)
  unfolding precheck
  precheck-Safe = bind _ (checks (leb f.maxstacksize 250)) (λ _ _.
      bind _ (checks (leb (f.numparams + bit_and f.is_vararg 1) f.maxstacksize)) (λ _ _.
        bind _ (checks (bit_and f.is_vararg 4 == 0 || not (bit_and f.is_vararg 1 == 0))) (λ _ _.
          bind _ (checks (leb (length f.upvalues) f.nups)) (λ _ _.
            bind _ (checks (length f.lineinfo == length f.code || length f.lineinfo == 0)) (λ _ _.
              bind _ (check-Safe (ltb 0 (length f.code))) (λ _ h.
                bind _ (fetch-Safe f.code (length f.code - 1) (ground arith)) (λ i e.
                  weaken (check-Safe (is_op op_return i)) (λ _ r. (ground arith, (i, e, r))))))))))

  -- The symbolic execution of a function up to any point of its code, for any register, reads its
  -- arrays only within their bounds and ends; what it returns, unless it refuses, is an instruction of the
  -- function.
  pub symbexec-Safe :
      (lastpc reg : ℕ) → lastpc ≤ length f.code → Safe IsInstruction (symbexec f ps lastpc reg)
  unfolding symbexec
  symbexec-Safe lastpc reg inside = bind _ precheck-Safe (λ _ (some_code, returns).
      symbexec_loop-Safe lastpc lastpc reg 0 (length f.code - 1) returns inside (omega arith)
        (omega arith))
