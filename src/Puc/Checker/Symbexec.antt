-- ===== src/Puc/Checker/Symbexec.antt =====
-- lua-5.1/src/ldebug.c: symbexec and luaG_checkcode.
use zua.Prelude.{
  ℕ, zero, suc, ◌+◌, ◌-◌, Bool, false, not, ◌&&◌, ◌||◌, bit_and, ltb, leb, ◌==◌, if◌then◌else◌,
  length,
}
use zua.Prelude.Int.{ℤ, pos, negsuc, ◌+ℤ◌}
use zua.Puc.Word.{get_opcode, getarg_a, getarg_c}
use zua.Puc.Opmodes.{
  OpCode, op_loadbool, op_loadnil, op_getupval, op_getglobal, op_setglobal, op_setupval, op_self,
  op_concat, op_jmp, op_call, op_tailcall, op_return, op_forloop, op_forprep, op_tforloop,
  op_setlist, op_closure, op_vararg, num_opcodes, test_a_mode,
}
use zua.Puc.Chunk.{ProtoInfo, Proto, Protos, proto, count_protos}
use zua.Puc.Checker.{
  check_skip, check_pseudo, Checked, checked, refused, stray, ◌>>=◌, ◌>>◌, check, fetch,
  fetch_proto, nups_of, no_reg, vararg_isvararg, vararg_needsarg, opcode_at, is_op, is_string,
  in_frame, precheck, checkopenop, Operands, operands,
}

module _ (f : ProtoInfo) (ps : Protos) where
  -- The program counter and `last`, after the `switch (op)`. The instruction at `pc` has the operands
  -- `a` and `o`.
  module _ (lastpc reg pc last a : ℕ) (o : Operands) where
    abbrev pub keep : Checked (ℕ × ℕ)
    keep = checked (pc, last)

    -- `if (c) last = pc;`
    abbrev pub mark : Bool → Checked (ℕ × ℕ)
    mark c = checked (pc, if c then pc else last)

    -- The case OP_JMP.
    unfoldable pub jump_on : ℤ → Checked (ℕ × ℕ)
    jump_on (pos dest) =
        if not (reg == no_reg) && ltb pc dest && leb dest lastpc
        then checked (dest - 1, last)
        else keep
    jump_on (negsuc n) = keep

    unfoldable pub execute : OpCode → Checked (ℕ × ℕ)
    unfolding checkopenop jump_on check_pseudo
    execute op_loadbool =
        if o.c == 1
        then (do
          check (ltb (pc + 2) (length f.code))
          next ← fetch f.code (pc + 1)
          check (not (is_op op_setlist next) || not (getarg_c next == 0))
          keep)
        else keep
    execute op_loadnil = mark (leb a reg && leb reg o.b)
    execute op_getupval = do check (ltb o.b f.nups); keep
    execute op_setupval = do check (ltb o.b f.nups); keep
    execute op_getglobal = do v ← fetch f.k o.b; check (is_string v); keep
    execute op_setglobal = do v ← fetch f.k o.b; check (is_string v); keep
    execute op_self = do check (in_frame f (a + 1)); mark (reg == a + 1)
    execute op_concat = do check (ltb o.b o.c); keep
    execute op_tforloop = do
      check (leb 1 o.c)
      check (in_frame f (a + 2 + o.c))
      mark (leb (a + 2) reg)
    execute op_forloop = do check (in_frame f (a + 3)); jump_on (pos (pc + 1) +ℤ o.sbx)
    execute op_forprep = do check (in_frame f (a + 3)); jump_on (pos (pc + 1) +ℤ o.sbx)
    execute op_jmp = jump_on (pos (pc + 1) +ℤ o.sbx)
    execute op_call = do
      check (o.b == 0 || in_frame f (a + o.b - 1))
      if o.c == 0 then checkopenop f pc else check (o.c == 1 || in_frame f (a + o.c - 2))
      mark (leb a reg)
    execute op_tailcall = do
      check (o.b == 0 || in_frame f (a + o.b - 1))
      if o.c == 0 then checkopenop f pc else check (o.c == 1 || in_frame f (a + o.c - 2))
      mark (leb a reg)
    execute op_return = do check (leb o.b 1 || in_frame f (a + o.b - 2)); keep
    execute op_setlist = do
      check (o.b == 0 || in_frame f (a + o.b))
      if o.c == 0
          then (do check (ltb (pc + 1) (length f.code - 1)); checked (pc + 1, last))
          else keep
    execute op_closure = do
      check (ltb o.b (count_protos ps))
      inner ← fetch_proto ps o.b
      check (ltb (pc + nups_of inner) (length f.code))
      check_pseudo f (nups_of inner) pc
      checked (if reg == no_reg then pc else pc + nups_of inner, last)
    -- `a + b - 1` after `b--` may be negative, and then is in the frame.
    execute op_vararg = do
      check (
          not (bit_and f.is_vararg vararg_isvararg == 0)
          && bit_and f.is_vararg vararg_needsarg == 0)
      if o.b == 0 then checkopenop f pc else checked tt
      check (ltb (a + o.b) (f.maxstacksize + 2))
      keep
    execute _ = keep

  -- One round of the loop of symbexec, up to its `pc++`.
  unfoldable pub round : ℕ → ℕ → ℕ → ℕ → Checked (ℕ × ℕ)
  unfolding operands check_skip execute
  round lastpc reg pc last = do
    i ← fetch f.code pc
    check (ltb (get_opcode i) num_opcodes)
    let op = opcode_at (get_opcode i)
    let a = getarg_a i
    check (in_frame f a)
    o ← operands f op pc i
    let last' = if not (test_a_mode op == 0) && a == reg then pc else last
    check_skip f op pc
    execute lastpc reg pc last' a o op

  -- `for (pc = 0; pc < lastpc; pc++)`; every round moves on, so `lastpc` rounds are enough.
  unfoldable pub symbexec_loop : ℕ → ℕ → ℕ → ℕ → ℕ → Checked ℕ
  unfolding round
  symbexec_loop zero lastpc reg pc last = if ltb pc lastpc then stray else fetch f.code last
  symbexec_loop (suc fuel) lastpc reg pc last =
      let next = round lastpc reg pc last in
      if ltb pc lastpc
      then (next >>= λ moved. symbexec_loop fuel lastpc reg (moved.0 + 1) moved.1)
      else fetch f.code last

  unfoldable pub symbexec : ℕ → ℕ → Checked ℕ
  unfolding precheck symbexec_loop
  symbexec lastpc reg = precheck f >> symbexec_loop lastpc lastpc reg 0 (length f.code - 1)

-- The result of symbexec is the instruction found, and 0 when it is refused.
unfoldable pub luag_checkcode : Proto → Bool
unfolding symbexec
luag_checkcode (proto f ps) = elim (symbexec f ps (length f.code) no_reg) [
  | checked i ↦ not (i == 0)
  | refused ↦ false
  | stray ↦ false
]
