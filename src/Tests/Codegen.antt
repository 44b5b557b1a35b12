-- ===== src/Tests/Codegen.antt =====
-- The code that lua-5.1/src/lcode.c generates for small expressions.
use zua.Prelude.{ℕ, ◌+◌, ◌-◌, ◌*◌, ◌/◌, ◌≡◌, refl, List, [], ◌∷◌, none, ◌==◌}
use zua.Puc.Checker.{opcode_at}
use zua.Puc.Code.Calls.{opened_funcstate}
use zua.Puc.Code.Conds.{invertjump, jump_if_false, jumponcond, luak_goiftrue}
use zua.Puc.Code.Consts.{addk, find_constant, luak_numberk, same_key}
use zua.Puc.Code.Emit.{
  append_code, code_label, condjump, freeexp, freereg, luak_checkstack, luak_code, luak_codeabc,
  luak_codeabx, luak_codeasbx, luak_jump, luak_reserveregs,
}
use zua.Puc.Code.Exps.{
  discharge2anyreg, discharge2reg, discharged2anyreg, exp2reg, join_jump, jump_over, load_bools,
  load_value, luak_dischargevars, luak_exp2anyreg, luak_exp2nextreg, luak_exp2rk, luak_exp2val,
  luak_setoneret, luak_storevar, value2rk,
}
use zua.Puc.Code.Jumps.{
  concat_loop, concat_next, dischargejpc, fixjump, getjump, getjumpcontrol, is_test, jump_target,
  luak_concat, luak_getlabel, luak_patchtohere, need_value, need_value_loop, patchlistaux,
  patchlistaux_loop, patchtestreg, set_offset,
}
use zua.Puc.Code.Ops.{
  code_operation, codearith, codecomp, constfolding, fold_numbers, isnumeral, luak_infix,
  luak_posfix,
}
use zua.Puc.Code.State.{
  ExpDesc, Gen, Numbers, Run, code_at, done, error, modify, opr_add, opr_and, opr_lt, read,
  set_code, set_operand, stray, cyclic, vglobal, vknum, vnil, within, write, ◌>>=◌,
}
use zua.Puc.Opmodes.{luap_opmodes, opcode_number, test_t_mode}
use zua.Puc.Word.{
  create_abc, create_abx, get_opcode, getarg_a, getarg_b, getarg_bx, getarg_sbx, indexk, isk, rkask,
  setarg_a, setarg_bx, setarg_sbx,
}

-- Numbers that are natural numbers.
abbrev naturals : Numbers
naturals = record {
  add = λ a b. a + b;
  sub = λ a b. a - b;
  mul = λ a b. a * b;
  div = λ a b. a / b;
  pow = λ a b. a;
  neg = λ a. a;
  floor = λ a. a;
  eq = λ a b. a == b;
}

abbrev exp : ExpDesc
exp = record { k = vnil; info = 0; aux = 0; nval = 0; t = none; f = none }

abbrev outcome : {A : Type 0} → Run A → List ℕ
outcome (done a fs) = fs.code
outcome (error e) = 1 ∷ []
outcome stray = []
outcome cyclic = []

-- `x = y + 1` with globals, whose names are the constants 0 and 1.
assigned : Gen ExpDesc
assigned = do
  v ← luak_infix naturals opr_add (record exp { k = vglobal; info = 1 })
  v ← luak_posfix naturals opr_add v (record exp { k = vknum; nval = 1 })
  luak_storevar naturals (record exp { k = vglobal; info = 0 }) v

conj : Gen ExpDesc
conj = do
  v ← luak_infix naturals opr_lt (record exp { k = vglobal; info = 1 })
  v ← luak_posfix naturals opr_lt v (record exp { k = vknum; nval = 1 })
  v ← luak_infix naturals opr_and v
  v ← luak_posfix naturals opr_and v (record exp { k = vglobal; info = 2 })
  luak_exp2nextreg naturals v

-- GETGLOBAL 0 1, ADD 0 0 256, SETGLOBAL 0 0
assigned_lem : outcome (assigned (opened_funcstate 1)) ≡ 16389 ∷ 4194316 ∷ 7 ∷ []
unfolding ◌>>=◌ read write code_at set_code set_operand modify within set_offset fixjump
    luak_getlabel jump_target getjump is_test getjumpcontrol need_value_loop need_value patchtestreg
    patchlistaux_loop patchlistaux dischargejpc concat_next concat_loop luak_concat luak_patchtohere
    append_code luak_code luak_codeabc luak_codeabx luak_codeasbx luak_jump condjump luak_checkstack
    luak_reserveregs freereg freeexp code_label same_key find_constant addk luak_numberk
    luak_setoneret luak_dischargevars join_jump jump_over load_bools load_value discharge2reg
    discharge2anyreg exp2reg luak_exp2nextreg discharged2anyreg luak_exp2anyreg luak_exp2val
    value2rk luak_exp2rk luak_storevar invertjump jumponcond jump_if_false luak_goiftrue isnumeral
    fold_numbers constfolding code_operation codearith codecomp luak_infix luak_posfix opcode_number
    create_abc create_abx isk indexk rkask getarg_a getarg_b getarg_sbx getarg_bx setarg_a setarg_bx
    setarg_sbx get_opcode test_t_mode luap_opmodes opcode_at assigned conj
assigned_lem = refl

-- GETGLOBAL 0 1, LT 0 0 256, JMP 2, GETGLOBAL 0 2, JMP, LOADBOOL 0 0 1, LOADBOOL 0 1 0
conj_lem :
    outcome (conj (opened_funcstate 1))
    ≡ 16389 ∷ 4194328 ∷ 2147500054 ∷ 32773 ∷ 2147450902 ∷ 16386 ∷ 8388610 ∷ []
unfolding ◌>>=◌ read write code_at set_code set_operand modify within set_offset fixjump
    luak_getlabel jump_target getjump is_test getjumpcontrol need_value_loop need_value patchtestreg
    patchlistaux_loop patchlistaux dischargejpc concat_next concat_loop luak_concat luak_patchtohere
    append_code luak_code luak_codeabc luak_codeabx luak_codeasbx luak_jump condjump luak_checkstack
    luak_reserveregs freereg freeexp code_label same_key find_constant addk luak_numberk
    luak_setoneret luak_dischargevars join_jump jump_over load_bools load_value discharge2reg
    discharge2anyreg exp2reg luak_exp2nextreg discharged2anyreg luak_exp2anyreg luak_exp2val
    value2rk luak_exp2rk luak_storevar invertjump jumponcond jump_if_false luak_goiftrue isnumeral
    fold_numbers constfolding code_operation codearith codecomp luak_infix luak_posfix opcode_number
    create_abc create_abx isk indexk rkask getarg_a getarg_b getarg_sbx getarg_bx setarg_a setarg_bx
    setarg_sbx get_opcode test_t_mode luap_opmodes opcode_at assigned conj
conj_lem = refl
