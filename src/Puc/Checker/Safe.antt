-- ===== src/Puc/Checker/Safe.antt =====
-- The parts of the verifier of lua-5.1/src/ldebug.c that read arrays: none reads out of bounds.
use zua.Prelude.{
  ℕ, zero, suc, ◌+◌, ◌<◌, ◌≤◌, ◌≡◌, refl, ap, Bool, true, false, not, ◌&&◌, ◌||◌, List, [], ◌∷◌,
  ltb, ◌==◌, if◌then◌else◌, length, arith,
}
use zua.Prelude.Int.{ℤ, pos, negsuc, ◌+ℤ◌}
use zua.Prelude.Bits.{all_below, all_below_sound}
use zua.Puc.Word.{getarg_b, getarg_c, getarg_bx, getarg_sbx}
use zua.Puc.Opmodes.{
  OpCode, op_move, op_getupval, op_jmp, op_call, op_tailcall, op_return, op_setlist, opcode_number,
  get_op_mode, get_b_mode, get_c_mode, test_t_mode, i_abc, i_abx, op_arg_n, op_arg_r, op_arg_k,
}
use zua.Puc.Chunk.{ProtoInfo, Protos, no_protos, more_protos, count_protos}
use zua.Puc.Checker.{
  check_skip, check_pseudo, Checked, checked, refused, stray, ◌>>=◌, check, fetch, fetch_proto,
  opcode_at, is_op, luag_checkopenop, checkopenop, check_arg_mode, setlists_before, check_dest,
  Operands, operands,
}

-- No stray outcome, and `P` of the result if there is one.
pub data Safe {A : Type 0} (P : A → Type 0) : Checked A → Type 0 where
  accepted : {a : A} → P a → Safe P (checked a)
  declined : Safe P refused

pub bind :
    {A B : Type 0} {P : A → Type 0} {Q : B → Type 0} {m : Checked A} (k : A → Checked B)
    → Safe P m
    → ((a : A) → P a → Safe Q (k a))
    → Safe Q (m >>= k)
bind k (accepted {a} p) h = h a p
bind k declined h = declined

pub check-Safe : (c : Bool) → Safe (λ _. c ≡ true) (check c)
check-Safe true = accepted refl
check-Safe false = declined

pub weaken :
    {A : Type 0} {P Q : A → Type 0} {m : Checked A} → Safe P m → ((a : A) → P a → Q a) → Safe Q m
weaken (accepted {a} p) h = accepted (h a p)
weaken declined h = declined

pub checks : (c : Bool) → Safe (λ _. Unit {0}) (check c)
checks c = weaken (check-Safe c) (λ _ _. tt)

pub choose :
    {A : Type 0} {P : A → Type 0} {m k : Checked A} (c : Bool)
    → (c ≡ true → Safe P m)
    → (c ≡ false → Safe P k)
    → Safe P (if c then m else k)
choose true h h' = h refl
choose false h h' = h' refl

pub fetch-Safe :
    {A : Type 0} (xs : List A) (i : ℕ)
    → i < length xs
    → Safe (λ x. fetch xs i ≡ checked x) (fetch xs i)
unfolding fetch
fetch-Safe [] i h = absurd (omega arith)
fetch-Safe (x ∷ xs) zero h = accepted refl
fetch-Safe (x ∷ xs) (suc i) h = fetch-Safe xs i (omega arith)

pub fetch_proto-Safe :
    (ps : Protos) (i : ℕ) → i < count_protos ps → Safe (λ _. Unit {0}) (fetch_proto ps i)
unfolding fetch_proto count_protos
fetch_proto-Safe no_protos i h = absurd (omega arith)
fetch_proto-Safe (more_protos f fs) zero h = accepted tt
fetch_proto-Safe (more_protos f fs) (suc i) h = fetch_proto-Safe fs i (omega arith)

pub checked-inj : {A : Type 0} {x y : A} → checked x ≡ checked y → x ≡ y
checked-inj {x = x} e = ap (λ m. elim m [ checked a ↦ a | refused ↦ x | stray ↦ x ]) e

pub opcode_table : all_below 38 (λ n. opcode_number (opcode_at n) == n) ≡ true
unfolding opcode_number opcode_at all_below
opcode_table = refl

pub opcode_number-opcode_at : (n : ℕ) → n < 38 → opcode_number (opcode_at n) ≡ n
opcode_number-opcode_at n h = ground (arith, all_below_sound 38 _ n opcode_table h)

pub abc_not_abx : (m : ℕ) → (m == i_abc) ≡ true → m ≡ i_abx → ⊥
abc_not_abx m h e = ground arith

pub not_abx : (m : ℕ) → (m == i_abx) ≡ false → m ≡ i_abx → ⊥
not_abx m h e = ground arith

pub fits_of : (m x y : ℕ) → m ≡ op_arg_k → (not (m == op_arg_k) || ltb x y) ≡ true → x < y
fits_of m x y e h = ground arith

module _ (f : ProtoInfo) where
  pub setlists_before-Safe :
      (dest : ℕ) → dest ≤ length f.code → Safe (λ _. Unit {0}) (setlists_before f dest)
  unfolding setlists_before
  setlists_before-Safe zero h = accepted tt
  setlists_before-Safe (suc n) h = bind _ (fetch-Safe f.code n (omega arith)) (λ d e.
      choose (is_op op_setlist d && getarg_c d == 0)
        (λ _. bind _ (setlists_before-Safe n (omega arith)) (λ j _. accepted tt))
        (λ _. accepted tt))

  pub check_dest-Safe : (dest : ℤ) → Safe (λ _. Unit {0}) (check_dest f dest)
  unfolding check_dest
  check_dest-Safe (negsuc n) = declined
  check_dest-Safe (pos dest) =
      bind _ (check-Safe (ltb dest (length f.code)))
        (λ _ h. bind _ (setlists_before-Safe dest (ground arith)) (λ j _. checks _))

  pub check_arg_mode-Safe : (r mode : ℕ) → Safe (λ _. Unit {0}) (check_arg_mode f r mode)
  unfolding check_arg_mode
  check_arg_mode-Safe r mode =
      choose (mode == op_arg_n) (λ _. checks _)
        (λ _.
          choose (mode == op_arg_r) (λ _. checks _)
            (λ _. choose (mode == op_arg_k) (λ _. checks _) (λ _. accepted tt)))

  -- A constant operand is the index of a constant.
  abbrev pub InConstants : OpCode → Operands → Type 0
  InConstants op o = get_op_mode op ≡ i_abx → get_b_mode op ≡ op_arg_k → o.b < length f.k

  pub operands-Safe : (op : OpCode) (pc i : ℕ) → Safe (InConstants op) (operands f op pc i)
  unfolding operands
  operands-Safe op pc i =
      choose (get_op_mode op == i_abc)
        (λ abc. bind _ (check_arg_mode-Safe (getarg_b i) (get_b_mode op)) (λ _ _.
          bind _ (check_arg_mode-Safe (getarg_c i) (get_c_mode op))
            (λ _ _. accepted (λ e _. absurd (abc_not_abx (get_op_mode op) abc e)))))
        (λ _.
          choose (get_op_mode op == i_abx)
            (λ abx.
              bind _
                (check-Safe (not (get_b_mode op == op_arg_k) || ltb (getarg_bx i) (length f.k)))
                (λ _ fits. accepted (λ _ e. fits_of (get_b_mode op) _ _ e fits)))
            (λ abx.
              bind _
                (choose (get_b_mode op == op_arg_r)
                  (λ _. check_dest-Safe (pos (pc + 1) +ℤ getarg_sbx i)) (λ _. accepted tt))
                (λ _ _. accepted (λ e _. absurd (not_abx (get_op_mode op) abx e)))))

  pub check_skip-Safe : (op : OpCode) (pc : ℕ) → Safe (λ _. Unit {0}) (check_skip f op pc)
  unfolding check_skip
  check_skip-Safe op pc =
      choose (test_t_mode op == 0) (λ _. accepted tt)
        (λ _. bind _ (check-Safe (ltb (pc + 2) (length f.code))) (λ _ h.
          bind _ (fetch-Safe f.code (pc + 1) (ground arith))
            (λ next _. checks (is_op op_jmp next))))

  pub check_pseudo-Safe :
      (count pc : ℕ) → pc + count < length f.code → Safe (λ _. Unit {0}) (check_pseudo f count pc)
  unfolding check_pseudo
  check_pseudo-Safe zero pc h = accepted tt
  check_pseudo-Safe (suc count) pc h = bind _ (fetch-Safe f.code (pc + 1) (omega arith)) (λ i _.
      bind _ (checks (is_op op_getupval i || is_op op_move i))
        (λ _ _. check_pseudo-Safe count (pc + 1) (omega arith)))

  pub checkopenop-Safe : (pc : ℕ) → pc + 1 < length f.code → Safe (λ _. Unit {0}) (checkopenop f pc)
  unfolding checkopenop luag_checkopenop
  checkopenop-Safe pc h = bind _ (fetch-Safe f.code (pc + 1) h) (λ i _. checks (
      (is_op op_call i || is_op op_tailcall i || is_op op_return i || is_op op_setlist i)
      && getarg_b i == 0))
