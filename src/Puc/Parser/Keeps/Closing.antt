-- ===== src/Puc/Parser/Keeps/Closing.antt =====
-- Functions that lua-5.1/src/lparser.c closes pass the checks that luaG_checkcode of ldebug.c begins with.
use zua.Prelude.{
  ℕ, zero, suc, ◌+◌, ◌-◌, ◌≤◌, ◌<◌, ◌≡◌, ◌∙◌, sym, inl, inr, refl, ap, true, Bool-cases, not, ◌||◌,
  List, [], ◌∷◌, map, Option, some, ltb, leb, ◌==◌, length, take, length-take, All, arith, bit_and,
  le→leb,
}
use zua.Puc.Word.{create_abc, get_opcode}
use zua.Puc.Opmodes.{op_return, opcode_number}
use zua.Puc.Chunk.{TString, ProtoInfo, Proto}
use zua.Puc.Checker.{checked, fetch, is_op, precheck, maxstack}
use zua.Puc.Code.State.{FuncState, write, pure, get, ◌>>=◌}
use zua.Puc.Code.Emit.{luak_ret, luak_codeabc, luak_code, append_code}
use zua.Puc.Table.{max_int}
use zua.Puc.Code.Jumps.{dischargejpc}
use zua.Puc.Code.Keeps.{
  IsSound, Step, Step-trans, raises, Post as GenPost, returns as gen_returns, Post-bind as Gen-bind,
  Post-weaken as Gen-weaken,
}
use zua.Puc.Code.Keeps.Jumps.{dischargejpc-Keeps}
use zua.Puc.Code.Keeps.Emit.{append-Step}
use zua.Puc.Parser.State.{Func}
use zua.Puc.Parser.Functions.{proto_of, protos_of}
use zua.Puc.Parser.Keeps.{IsSoundFunc, Flags, IsChecked, AllChecked}

-- What precheck tests, as far as a function that the parser closes meets it.
module _ (f : ProtoInfo) (i : ℕ) where
  precheck-checked :
      leb f.maxstacksize maxstack ≡ true
      → leb (f.numparams + bit_and f.is_vararg 1) f.maxstacksize ≡ true
      → (bit_and f.is_vararg 4 == 0 || not (bit_and f.is_vararg 1 == 0)) ≡ true
      → leb (length f.upvalues) f.nups ≡ true
      → (length f.lineinfo == length f.code || length f.lineinfo == 0) ≡ true
      → ltb 0 (length f.code) ≡ true
      → fetch f.code (length f.code - 1) ≡ checked i
      → is_op op_return i ≡ true
      → precheck f ≡ checked tt
  unfolding precheck
  precheck-checked e1 e2 e3 e4 e5 e6 e7 e8 =
      rw e1 (rw e2 (rw e3 (rw e4 (rw e5 (rw e6 (rw e7 (rw e8 refl)))))))

flags_checked : (v : ℕ) → Flags v → (bit_and v 4 == 0 || not (bit_and v 1 == 0)) ≡ true
flags_checked v (inl (inl e)) = rw e refl
flags_checked v (inl (inr e)) = rw e refl
flags_checked v (inr (inl e)) = rw e refl
flags_checked v (inr (inr e)) = rw e refl

length-map_some :
    (names : List TString) → length (map (λ (s : TString). some s) names) ≡ length names
length-map_some [] = refl
length-map_some (s ∷ names) = ap suc (length-map_some names)

protos_of-AllChecked : (ps : List Proto) → All IsChecked ps → AllChecked (protos_of ps)
unfolding protos_of
protos_of-AllChecked [] h = tt
protos_of-AllChecked (p ∷ ps) (h, hs) = (h, protos_of-AllChecked ps hs)

-- The RETURN 0 1 that ends a function.
abbrev final_return : ℕ
final_return = 8388638

-- The code up to `pc` ends in it.
abbrev pub Ends : FuncState → Type 0
Ends fs = (0 < fs.pc) × (fetch (take fs.pc fs.code) (fs.pc - 1) ≡ checked final_return)

taken_length : {A : Type 0} (n : ℕ) (xs : List A) → n ≤ length xs → length (take n xs) ≡ n
taken_length n xs le = omega (arith, length-take n xs)

pub proto_of-IsChecked :
    (source : Option TString) (f : Func)
    → IsSoundFunc f
    → Ends f.gen
    → IsChecked (proto_of source f)
unfolding proto_of opcode_number get_opcode
proto_of-IsChecked source f h (pos, last) =
    let code : length (take f.gen.pc f.gen.code) ≡ f.gen.pc =
      taken_length f.gen.pc f.gen.code h.gen.position in
    let lines : length (take f.gen.pc f.gen.lineinfo) ≡ f.gen.pc =
      taken_length f.gen.pc f.gen.lineinfo (omega (arith, h.gen.position, h.gen.lines)) in
    (
      precheck-checked _ final_return (le→leb _ _ (omega (arith, h.gen.stack)))
          (le→leb _ _ h.params) (flags_checked f.is_vararg h.flags)
          (le→leb _ _ (omega (arith, length-map_some f.names, h.names)))
          (rw (lines, code) (ground arith)) (rw code (ground arith)) (rw code last) refl,
      lines ∙ sym code,
      protos_of-AllChecked f.p h.protos,
    )

-- An instruction that is written at `pc` is the last one up to the next.
write_last :
    (xs : List ℕ) (n w : ℕ) → n ≤ length xs → fetch (take (suc n) (write xs n w)) n ≡ checked w
unfolding fetch write
write_last [] zero w le = refl
write_last [] (suc n) w le = absurd (omega arith)
write_last (x ∷ xs) zero w le = refl
write_last (x ∷ xs) (suc n) w le = write_last xs n w (omega arith)

append-Ends :
    (line : ℕ) (fs : FuncState)
    → IsSound fs
    → GenPost (λ _ fs'. Step fs fs' × Ends fs') (append_code final_return line fs)
unfolding append_code
append-Ends line fs h = elim (Bool-cases (leb max_int fs.pc)) [
  | inl full ↦ rw full raises
  | inr room ↦ rw room (
      gen_returns (
        append-Step fs final_return line h (omega arith) (ground arith),
        (omega arith, ends fs.pc (write_last fs.code fs.pc final_return h.position)),
      ))
]
  where
    ends :
        (n : ℕ)
        → fetch (take (suc n) (write fs.code n final_return)) n ≡ checked final_return
        → fetch (take (n + 1) (write fs.code n final_return)) (n + 1 - 1) ≡ checked final_return
    ends n e =
        let up : n + 1 ≡ suc n = omega arith in
        let down : n + 1 - 1 ≡ n = omega arith in rw (down, up) e

code-Ends :
    (line : ℕ) (fs : FuncState)
    → IsSound fs
    → GenPost (λ _ fs'. Step fs fs' × Ends fs') (luak_code final_return line fs)
unfolding luak_code
code-Ends line fs h =
    Gen-bind dischargejpc (λ _. append_code final_return line) fs (dischargejpc-Keeps.at fs h)
      (λ _ fs' p. Gen-weaken (λ _ _ (q, e). (Step-trans p q, e)) (append-Ends line fs' p.sound))

codeabc-Ends :
    (fs : FuncState)
    → IsSound fs
    → GenPost (λ _ fs'. Step fs fs' × Ends fs') (luak_codeabc op_return 0 1 0 fs)
unfolding luak_codeabc get ◌>>=◌ create_abc opcode_number
codeabc-Ends fs h = code-Ends fs.lastline fs h

pub luak_ret-Ends :
    (fs : FuncState)
    → IsSound fs
    → GenPost (λ _ fs'. Step fs fs' × Ends fs') (luak_ret 0 (some 0) fs)
unfolding luak_ret pure
luak_ret-Ends fs h =
    Gen-bind (luak_codeabc op_return 0 1 0) (λ _. pure tt) fs (codeabc-Ends fs h)
      (λ _ fs' p. gen_returns p)
