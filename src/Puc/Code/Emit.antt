-- ===== src/Puc/Code/Emit.antt =====
-- lua-5.1/src/lcode.c: writing instructions, and the registers they use.
use zua.Prelude.{
  ℕ, ◌+◌, ◌-◌, ◌/◌, ◌%◌, ◌^◌, Bool, true, ◌&&◌, Option, none, some, ltb, leb, ◌==◌, if◌then◌else◌,
  length, set,
}
use zua.Prelude.Int.{ℤ, pos, negsuc, ◌+ℤ◌}
use zua.Puc.Word.{
  getarg_a, getarg_b, setarg_b, create_abc, create_abx, maxarg_sbx, maxarg_c, cast_unsigned, isk,
}
use zua.Puc.Opmodes.{
  OpCode, op_loadnil, op_loadbool, op_jmp, op_return, op_setlist, opcode_number, lfields_per_flush,
}
use zua.Puc.Checker.{is_op, maxstack}
use zua.Puc.Table.{max_int}
use zua.Puc.Code.State.{
  FuncState, Gen, ◌>>=◌, ◌>>◌, pure, error, get, modify, lost, within, code_at, set_operand, write,
  ExpDesc, vnonreloc, code_overflow, too_complex, done, stray,
}
use zua.Puc.Code.Jumps.{luak_getlabel, dischargejpc, luak_concat}

-- luaM_growvector refuses a vector of MAX_INT elements, and otherwise makes room for one more.
unfoldable pub append_code : ℕ → ℕ → Gen ℕ
append_code i line fs =
    if leb max_int fs.pc
    then error code_overflow
    else done fs.pc (record fs {
      code = write fs.code fs.pc i;
      lineinfo = write fs.lineinfo fs.pc line;
      pc = fs.pc + 1;
    })

unfoldable pub luak_code : ℕ → ℕ → Gen ℕ
luak_code i line = do dischargejpc; append_code i line

unfoldable pub luak_codeabc : OpCode → ℕ → ℕ → ℕ → Gen ℕ
luak_codeabc o a b c = do fs ← get; luak_code (create_abc (opcode_number o) a b c) fs.lastline

unfoldable pub luak_codeabx : OpCode → ℕ → ℕ → Gen ℕ
luak_codeabx o a bc = do fs ← get; luak_code (create_abx (opcode_number o) a bc) fs.lastline

unfoldable pub luak_codeasbx : OpCode → ℕ → ℤ → Gen ℕ
luak_codeasbx o a sbx = luak_codeabx o a (cast_unsigned (sbx +ℤ pos maxarg_sbx))

unfoldable pub luak_jump : Gen ℕ
luak_jump = do
  fs ← get
  let jpc = fs.jpc
  modify (λ fs. record fs { jpc = none })
  j ← luak_codeasbx op_jmp 0 (negsuc 0)
  l ← luak_concat (some j) jpc
  within l

-- `n+1`, where LUA_MULTRET is -1.
abbrev pub results : Option ℕ → ℕ
results none = 0
results (some n) = n + 1

unfoldable pub luak_ret : ℕ → Option ℕ → Gen (Unit {0})
luak_ret first nret = do _ ← luak_codeabc op_return first (results nret) 0; pure tt

unfoldable pub condjump : OpCode → ℕ → ℕ → ℕ → Gen ℕ
condjump op a b c = do _ ← luak_codeabc op a b c; luak_jump

-- `fs->pc > fs->lasttarget`
abbrev pub past_target : FuncState → Bool
past_target fs = elim fs.lasttarget [ none ↦ true | some target ↦ ltb target fs.pc ]

-- The LOADNIL without the optimization; `from+n-1` is a register.
unfoldable pub loadnil : ℕ → ℕ → Gen (Unit {0})
loadnil from n =
    if from + n == 0 then lost else (do _ ← luak_codeabc op_loadnil from (from + n - 1) 0; pure tt)

-- The attempt to connect with a LOADNIL at position `before`.
unfoldable pub connect_nil : ℕ → ℕ → ℕ → Gen (Unit {0})
unfolding loadnil
connect_nil before from n = do
  previous ← code_at before
  let pfrom = getarg_a previous
  let pto = getarg_b previous
  if is_op op_loadnil previous && leb pfrom from && leb from (pto + 1)
      then (if ltb (pto + 1) (from + n)
          then set_operand setarg_b before (from + n - 1)
          else pure tt)
      else loadnil from n

unfoldable pub luak_nil : ℕ → ℕ → Gen (Unit {0})
luak_nil from n = do
  fs ← get
  if past_target fs
      then (if fs.pc == 0
          then (if leb fs.nactvar from then pure tt else loadnil from n)
          else connect_nil (fs.pc - 1) from n)
      else loadnil from n

-- The instructions of luaK_setlist. `tostore` is LUA_MULTRET or the number of values.
abbrev pub setlist_code : ℕ → ℕ → Option ℕ → Gen ℕ
setlist_code base nelems tostore =
    let c = (nelems - 1) / lfields_per_flush + 1 in
    let b : ℕ = elim tostore [ none ↦ 0 | some n ↦ n ] in
    if leb c maxarg_c
    then luak_codeabc op_setlist base b c
    else (do _ ← luak_codeabc op_setlist base b 0; fs ← get; luak_code (c % 2 ^ 32) fs.lastline)

unfoldable pub luak_setlist : ℕ → ℕ → Option ℕ → Gen (Unit {0})
luak_setlist base nelems tostore = do
  _ ← setlist_code base nelems tostore
  modify (λ fs. record fs { freereg = base + 1 })

unfoldable pub luak_fixline : ℕ → Gen (Unit {0})
luak_fixline line fs =
    if ltb 0 fs.pc && leb fs.pc (length fs.lineinfo)
    then done tt (record fs { lineinfo = set fs.lineinfo (fs.pc - 1) line })
    else stray

unfoldable pub code_label : ℕ → ℕ → ℕ → Gen ℕ
code_label a b jump = do _ ← luak_getlabel; luak_codeabc op_loadbool a b jump

-- `cast_byte(newstack)`
unfoldable pub luak_checkstack : ℕ → Gen (Unit {0})
luak_checkstack n fs =
    let newstack = fs.freereg + n in
    if leb newstack fs.maxstacksize
    then done tt fs
    else if leb maxstack newstack
    then error too_complex
    else done tt (record fs { maxstacksize = newstack % 256 })

unfoldable pub luak_reserveregs : ℕ → Gen (Unit {0})
luak_reserveregs n = do luak_checkstack n; modify (λ fs. record fs { freereg = fs.freereg + n })

unfoldable pub freereg : ℕ → Gen (Unit {0})
freereg reg fs =
    if isk reg == 0 && leb fs.nactvar reg
    then (if fs.freereg == 0 then stray else done tt (record fs { freereg = fs.freereg - 1 }))
    else done tt fs

unfoldable pub freeexp : ExpDesc → Gen (Unit {0})
freeexp e = elim e.k [ vnonreloc ↦ freereg e.info | _ ↦ pure tt ]
