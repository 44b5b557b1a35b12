-- ===== src/Puc/Checker.antt =====
-- lua-5.1/src/ldebug.c: the bytecode verifier luaG_checkcode, a symbolic execution of a function. Each
-- read of an array is checked here, so that a read out of bounds is an outcome of its own.
pub mod Symbexec
pub mod Safe
pub mod Safety
use zua.Prelude.{
  ℕ, zero, suc, ◌+◌, ◌-◌, ◌<◌, ◌≤◌, Bool, true, false, not, ◌&&◌, ◌||◌, List, [], ◌∷◌, Option, none,
  some, bit_and, ltb, leb, ◌==◌, if◌then◌else◌, length, get_elem?, get_or,
}
use zua.Prelude.Int.{ℤ, pos, negsuc, ◌+ℤ◌}
use zua.Puc.Word.{
  get_opcode, getarg_a, getarg_b, getarg_c, getarg_bx, getarg_sbx, isk, indexk, maxarg_a,
}
use zua.Puc.Opmodes.{
  OpCode, op_move, op_loadk, op_loadbool, op_loadnil, op_getupval, op_getglobal, op_gettable,
  op_setglobal, op_setupval, op_settable, op_newtable, op_self, op_add, op_sub, op_mul, op_div,
  op_mod, op_pow, op_unm, op_not, op_len, op_concat, op_jmp, op_eq, op_lt, op_le, op_test,
  op_testset, op_call, op_tailcall, op_return, op_forloop, op_forprep, op_tforloop, op_setlist,
  op_close, op_closure, op_vararg, opcode_number, num_opcodes, get_op_mode, get_b_mode, get_c_mode,
  test_a_mode, test_t_mode, i_abc, i_abx, op_arg_n, op_arg_u, op_arg_r, op_arg_k,
}
use zua.Puc.Chunk.{
  TValue, string, ProtoInfo, Proto, Protos, proto, no_protos, more_protos, count_protos,
}

-- `refused` is `return 0`; `stray` is a read out of bounds, or a loop that runs out of rounds.
pub data Checked (A : Type 0) : Type 0 where
  checked : A → Checked A
  refused : Checked A
  stray : Checked A

infixl 1 ◌>>=◌ ◌>>◌
abbrev pub ◌>>=◌ : {A B : Type 0} → Checked A → (A → Checked B) → Checked B
checked a >>= f = f a
refused >>= f = refused
stray >>= f = stray

abbrev pub ◌>>◌ : {A B : Type 0} → Checked A → Checked B → Checked B
m >> k = m >>= λ _. k

-- `check(x)`
abbrev pub check : Bool → Checked (Unit {0})
check true = checked tt
check false = refused

-- `array[i]`
unfoldable pub fetch : {A : Type 0} → List A → ℕ → Checked A
fetch [] i = stray
fetch (x ∷ xs) zero = checked x
fetch (x ∷ xs) (suc i) = fetch xs i

unfoldable pub fetch_proto : Protos → ℕ → Checked Proto
fetch_proto no_protos i = stray
fetch_proto (more_protos f fs) zero = checked f
fetch_proto (more_protos f fs) (suc i) = fetch_proto fs i

abbrev pub nups_of : Proto → ℕ
nups_of (proto f ps) = f.nups

-- MAXSTACK, NO_REG, and the flags of variable arguments.
abbrev pub maxstack : ℕ
maxstack = 250

abbrev pub no_reg : ℕ
no_reg = maxarg_a

abbrev pub vararg_hasarg : ℕ
vararg_hasarg = 1

abbrev pub vararg_isvararg : ℕ
vararg_isvararg = 2

abbrev pub vararg_needsarg : ℕ
vararg_needsarg = 4

-- The opcode with a number; ORDER OP.
abbrev pub all_opcodes : List OpCode
all_opcodes =
    op_move ∷ op_loadk ∷ op_loadbool ∷ op_loadnil ∷ op_getupval ∷ op_getglobal ∷ op_gettable
    ∷ op_setglobal ∷ op_setupval ∷ op_settable ∷ op_newtable ∷ op_self ∷ op_add ∷ op_sub ∷ op_mul
    ∷ op_div ∷ op_mod ∷ op_pow ∷ op_unm ∷ op_not ∷ op_len ∷ op_concat ∷ op_jmp ∷ op_eq ∷ op_lt
    ∷ op_le ∷ op_test ∷ op_testset ∷ op_call ∷ op_tailcall ∷ op_return ∷ op_forloop ∷ op_forprep
    ∷ op_tforloop ∷ op_setlist ∷ op_close ∷ op_closure ∷ op_vararg ∷ []

unfoldable pub opcode_at : ℕ → OpCode
opcode_at n = get_or all_opcodes n op_move

-- `GET_OPCODE(i) == op`
abbrev pub is_op : OpCode → ℕ → Bool
unfolding opcode_number
is_op op i = get_opcode i == opcode_number op

unfoldable pub luag_checkopenop : ℕ → Checked (Unit {0})
unfolding opcode_number
luag_checkopenop i = check (
    (is_op op_call i || is_op op_tailcall i || is_op op_return i || is_op op_setlist i)
    && getarg_b i == 0)

-- `k[b]` is a string.
abbrev pub is_string : TValue → Bool
is_string (string s) = true
is_string _ = false

-- C keeps the operands B, Bx and sBx of the three formats in one variable `b`.
abbrev pub Operands : Type 0
Operands = record { b : ℕ; c : ℕ; sbx : ℤ }

module _ (f : ProtoInfo) where
  -- `(reg) < (pt)->maxstacksize`
  abbrev pub in_frame : ℕ → Bool
  in_frame reg = ltb reg f.maxstacksize

  unfoldable pub precheck : Checked (Unit {0})
  precheck = do
    check (leb f.maxstacksize maxstack)
    check (leb (f.numparams + bit_and f.is_vararg vararg_hasarg) f.maxstacksize)
    check (bit_and f.is_vararg vararg_needsarg == 0 || not (bit_and f.is_vararg vararg_hasarg == 0))
    check (leb (length f.upvalues) f.nups)
    check (length f.lineinfo == length f.code || length f.lineinfo == 0)
    check (ltb 0 (length f.code))
    i ← fetch f.code (length f.code - 1)
    check (is_op op_return i)

  unfoldable pub checkopenop : ℕ → Checked (Unit {0})
  unfolding luag_checkopenop
  checkopenop pc = do i ← fetch f.code (pc + 1); luag_checkopenop i

  unfoldable pub check_arg_mode : ℕ → ℕ → Checked (Unit {0})
  unfolding isk indexk
  check_arg_mode r mode =
      if mode == op_arg_n
      then check (r == 0)
      else if mode == op_arg_r
      then check (in_frame r)
      else if mode == op_arg_k
      then check (if isk r == 0 then in_frame r else ltb (indexk r) (length f.k))
      else checked tt

  -- The loop over `j` that goes back from a jump's destination over what may be setlists with C = 0: the count of
  -- these before position `dest`.
  unfoldable pub setlists_before : ℕ → Checked ℕ
  setlists_before zero = checked 0
  setlists_before (suc before) = do
    d ← fetch f.code before
    let rest = setlists_before before
    if is_op op_setlist d && getarg_c d == 0 then (rest >>= λ j. checked (j + 1)) else checked 0

  -- The destination `pc + 1 + b` of a jump.
  unfoldable pub check_dest : ℤ → Checked (Unit {0})
  unfolding setlists_before
  check_dest (negsuc n) = refused
  check_dest (pos dest) = do
    check (ltb dest (length f.code))
    j ← setlists_before dest
    check (bit_and j 1 == 0)

  unfoldable pub operands : OpCode → ℕ → ℕ → Checked Operands
  unfolding check_arg_mode check_dest
  operands op pc i =
      if get_op_mode op == i_abc
      then (do
        check_arg_mode (getarg_b i) (get_b_mode op)
        check_arg_mode (getarg_c i) (get_c_mode op)
        checked (record { b = getarg_b i; c = getarg_c i; sbx = pos 0 }))
      else if get_op_mode op == i_abx
      then (do
        check (not (get_b_mode op == op_arg_k) || ltb (getarg_bx i) (length f.k))
        checked (record { b = getarg_bx i; c = 0; sbx = pos 0 }))
      else (do
        if get_b_mode op == op_arg_r then check_dest (pos (pc + 1) +ℤ getarg_sbx i) else checked tt
        checked (record { b = 0; c = 0; sbx = getarg_sbx i }))

  -- The skip of a test instruction.
  unfoldable pub check_skip : OpCode → ℕ → Checked (Unit {0})
  check_skip op pc = if test_t_mode op == 0 then checked tt else (do
    check (ltb (pc + 2) (length f.code))
    next ← fetch f.code (pc + 1)
    check (is_op op_jmp next))

  -- The instructions that stand for the upvalues of a closure: `count` of them behind `pc`.
  unfoldable pub check_pseudo : ℕ → ℕ → Checked (Unit {0})
  check_pseudo zero pc = checked tt
  check_pseudo (suc count) pc = do
    i ← fetch f.code (pc + 1)
    check (is_op op_getupval i || is_op op_move i)
    check_pseudo count (pc + 1)
