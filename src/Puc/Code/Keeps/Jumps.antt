-- ===== src/Puc/Code/Keeps/Jumps.antt =====
-- The lists of jumps of lua-5.1/src/lcode.c keep a FuncState sound.
use zua.Prelude.{
  ℕ, zero, suc, ◌≡◌, refl, List, [], ◌∷◌, Option, none, some, length, set, length-set, All, arith,
  ltb,
}
use zua.Puc.Word.{IsWord, setarg_a, setarg_b, setarg_c}
use zua.Puc.Word.Fields.{set_fields}
use zua.Puc.Code.State.{
  FuncState, Gen, read, code_at, set_code, set_operand, modify, pure, lost, within, ◌>>=◌,
}
use zua.Puc.Code.Jumps.{
  fixjump, set_offset, luak_getlabel, getjump, is_test, getjumpcontrol, need_value_loop, need_value,
  patchtestreg, removevalues_loop, removevalues, patchlistaux_loop, patchlistaux, fixjump_to,
  dischargejpc, concat_next, concat_loop, luak_concat, luak_patchtohere, luak_patchlist,
}
use zua.Puc.Code.Keeps.{
  IsSound, Step, Post, returns, strays, Post-bind, Post-if, Step-free, Keeps, Keeps-if, Keeps-raise,
  Keeps-modify, keeps_rules,
}
use zua.Puc.Code.Keeps.Words.{create_abc-IsWord, setarg_sbx-IsWord, All-set}

read-Keeps : (xs : List ℕ) (i : ℕ) → Keeps (read xs i)
unfolding read
read-Keeps [] i = search keeps_rules
read-Keeps (x ∷ xs) zero = search keeps_rules
read-Keeps (x ∷ xs) (suc i) = read-Keeps xs i

pub code_at-Keeps : (i : ℕ) → Keeps (code_at i)
unfolding code_at
code_at-Keeps i = record { at = λ fs h. (read-Keeps fs.code i).at fs h }

-- A sound state with another word in the place of one of its instructions.
set-Step :
    (fs : FuncState) (i v : ℕ)
    → IsSound fs
    → IsWord v
    → Step fs (record fs { code = set fs.code i v })
set-Step fs i v h w = record {
  sound = record {
    frame = h.frame;
    stack = h.stack;
    words = All-set IsWord fs.code i v h.words w;
    position = omega (arith, h.position, length-set fs.code i v);
    lines = omega (arith, h.lines, length-set fs.code i v);
    size = h.size;
    count = h.count;
    constants = h.constants;
    numbers = h.numbers;
  };
  kept = λ i h. refl;
  grown = omega arith;
  frame = omega arith;
  actives = refl;
}

pub set_code-Keeps : (i v : ℕ) → IsWord v → Keeps (set_code i v)
unfolding set_code
set_code-Keeps i v w = record {
  at = λ fs h. Post-if (ltb i (length fs.code)) (λ _. returns (set-Step fs i v h w)) (λ _. strays);
}

pub read-Word :
    (xs : List ℕ) (i : ℕ) (fs : FuncState)
    → All IsWord xs
    → Post (λ w fs'. IsWord w × (fs' ≡ fs)) (read xs i fs)
unfolding read pure lost
read-Word [] i fs h = strays
read-Word (x ∷ xs) zero fs (w, h) = returns (w, refl)
read-Word (x ∷ xs) (suc i) fs (w, h) = read-Word xs i fs h

-- An instruction that is read, changed and written back.
pub change-Keeps :
    (i j : ℕ) (f : ℕ → ℕ)
    → ((w : ℕ) → IsWord w → IsWord (f w))
    → Keeps (code_at i >>= λ w. set_code j (f w))
unfolding code_at
change-Keeps i j f p = record {
  at = λ fs h.
      Post-bind (code_at i) _ fs (read-Word fs.code i fs h.words)
        (λ w fs' (q, e). rw e ((set_code-Keeps j (f w) (p w q)).at fs h));
}

fixjump-Keeps : (pc dest : ℕ) → Keeps (fixjump pc dest)
unfolding fixjump set_offset
fixjump-Keeps pc dest =
    Keeps-if _ _ _ (Keeps-raise _) (change-Keeps pc pc _ (λ w. setarg_sbx-IsWord w _))

pub set_operand-Keeps :
    (setarg : ℕ → ℕ → ℕ) (i u : ℕ)
    → ((w : ℕ) → IsWord w → IsWord (setarg w u))
    → Keeps (set_operand setarg i u)
unfolding set_operand
set_operand-Keeps setarg i u p = change-Keeps i i (λ w. setarg w u) p

pub setarg_a-Keeps : (i u : ℕ) → Keeps (set_operand setarg_a i u)
setarg_a-Keeps i u = set_operand-Keeps setarg_a i u (λ w h. omega (arith, set_fields w u h))

pub setarg_b-Keeps : (i u : ℕ) → Keeps (set_operand setarg_b i u)
setarg_b-Keeps i u = set_operand-Keeps setarg_b i u (λ w h. omega (arith, set_fields w u h))

pub setarg_c-Keeps : (i u : ℕ) → Keeps (set_operand setarg_c i u)
setarg_c-Keeps i u = set_operand-Keeps setarg_c i u (λ w h. omega (arith, set_fields w u h))

pub luak_getlabel-Keeps : Keeps luak_getlabel
unfolding luak_getlabel
luak_getlabel-Keeps = record {
  at = λ fs h. returns (Step-free fs fs.pc fs.freereg (some fs.pc) fs.jpc h (omega arith) h.frame);
}

pub within-Keeps : {A : Type 0} (a : Option A) → Keeps (within a)
unfolding within
within-Keeps none = search keeps_rules
within-Keeps (some a) = search keeps_rules

getjump-Keeps : (pc : ℕ) → Keeps (getjump pc)
unfolding getjump
getjump-Keeps pc = search (keeps_rules, code_at-Keeps, within-Keeps)

is_test-Keeps : (i : ℕ) → Keeps (is_test i)
unfolding is_test
is_test-Keeps i = search keeps_rules

pub getjumpcontrol-Keeps : (pc : ℕ) → Keeps (getjumpcontrol pc)
unfolding getjumpcontrol
getjumpcontrol-Keeps zero = search keeps_rules
getjumpcontrol-Keeps (suc before) = search (keeps_rules, code_at-Keeps, is_test-Keeps)

need_value_loop-Keeps : (fuel : ℕ) (list : Option ℕ) → Keeps (need_value_loop fuel list)
unfolding need_value_loop
need_value_loop-Keeps zero none = search keeps_rules
need_value_loop-Keeps (suc fuel) none = search keeps_rules
need_value_loop-Keeps zero (some list) = search keeps_rules
need_value_loop-Keeps (suc fuel) (some list) =
    search
      (keeps_rules, code_at-Keeps, getjump-Keeps, getjumpcontrol-Keeps, need_value_loop-Keeps fuel)

pub need_value-Keeps : (list : Option ℕ) → Keeps (need_value list)
unfolding need_value
need_value-Keeps list = record {
  at = λ fs h. (need_value_loop-Keeps (length fs.code) list).at fs h;
}

patchtestreg-Keeps : (node reg : ℕ) → Keeps (patchtestreg node reg)
unfolding patchtestreg
patchtestreg-Keeps node reg =
    search
      (
        keeps_rules, code_at-Keeps, getjumpcontrol-Keeps, setarg_a-Keeps, set_code-Keeps,
        create_abc-IsWord,
      )
      depth 15

removevalues_loop-Keeps : (fuel : ℕ) (list : Option ℕ) → Keeps (removevalues_loop fuel list)
unfolding removevalues_loop
removevalues_loop-Keeps zero none = search keeps_rules
removevalues_loop-Keeps (suc fuel) none = search keeps_rules
removevalues_loop-Keeps zero (some list) = search keeps_rules
removevalues_loop-Keeps (suc fuel) (some list) =
    search (keeps_rules, getjump-Keeps, patchtestreg-Keeps, removevalues_loop-Keeps fuel)

pub removevalues-Keeps : (list : Option ℕ) → Keeps (removevalues list)
unfolding removevalues
removevalues-Keeps list = record {
  at = λ fs h. (removevalues_loop-Keeps (length fs.code) list).at fs h;
}

fixjump_to-Keeps : (list : ℕ) (dest : Option ℕ) → Keeps (fixjump_to list dest)
fixjump_to-Keeps list none = search keeps_rules
fixjump_to-Keeps list (some dest) = fixjump-Keeps list dest

patchlistaux_loop-Keeps :
    (fuel : ℕ) (list : Option ℕ) (vtarget reg : ℕ) (dtarget : Option ℕ)
    → Keeps (patchlistaux_loop fuel list vtarget reg dtarget)
unfolding patchlistaux_loop
patchlistaux_loop-Keeps zero none vtarget reg dtarget = search keeps_rules
patchlistaux_loop-Keeps (suc fuel) none vtarget reg dtarget = search keeps_rules
patchlistaux_loop-Keeps zero (some list) vtarget reg dtarget = search keeps_rules
patchlistaux_loop-Keeps (suc fuel) (some list) vtarget reg dtarget =
    let rest = λ (next : Option ℕ). patchlistaux_loop-Keeps fuel next vtarget reg dtarget in
    search (keeps_rules, getjump-Keeps, patchtestreg-Keeps, fixjump_to-Keeps, rest) depth 15

pub patchlistaux-Keeps :
    (list : Option ℕ) (vtarget reg : ℕ) (dtarget : Option ℕ)
    → Keeps (patchlistaux list vtarget reg dtarget)
unfolding patchlistaux
patchlistaux-Keeps list vtarget reg dtarget = record {
  at = λ fs h. (patchlistaux_loop-Keeps (length fs.code) list vtarget reg dtarget).at fs h;
}

pub jpc-Keeps : (jpc : Option ℕ) → Keeps (modify (λ fs. record fs { jpc = jpc }))
jpc-Keeps jpc =
    Keeps-modify _ (λ fs h. Step-free fs fs.pc fs.freereg fs.lasttarget jpc h (omega arith) h.frame)

pub dischargejpc-Keeps : Keeps dischargejpc
unfolding dischargejpc
dischargejpc-Keeps = search (keeps_rules, patchlistaux-Keeps, jpc-Keeps) depth 15

concat_next-Keeps :
    (list : ℕ) (next : Option ℕ) (l2 : ℕ) (loop : ℕ → Gen (Unit {0}))
    → ((list' : ℕ) → Keeps (loop list'))
    → Keeps (concat_next list next l2 loop)
unfolding concat_next
concat_next-Keeps list none l2 loop h = fixjump-Keeps list l2
concat_next-Keeps list (some next) l2 loop h = h next

concat_loop-Keeps : (fuel list l2 : ℕ) → Keeps (concat_loop fuel list l2)
unfolding concat_loop
concat_loop-Keeps zero list l2 = search keeps_rules
concat_loop-Keeps (suc fuel) list l2 =
    search (keeps_rules, getjump-Keeps, concat_next-Keeps, concat_loop-Keeps fuel) depth 15

pub luak_concat-Keeps : (l1 l2 : Option ℕ) → Keeps (luak_concat l1 l2)
unfolding luak_concat
luak_concat-Keeps none none = search keeps_rules
luak_concat-Keeps (some l1) none = search keeps_rules
luak_concat-Keeps none (some l2) = search keeps_rules
luak_concat-Keeps (some l1) (some l2) = search (keeps_rules, concat_loop-Keeps) depth 15

pub luak_patchtohere-Keeps : (list : Option ℕ) → Keeps (luak_patchtohere list)
unfolding luak_patchtohere
luak_patchtohere-Keeps list =
    search (keeps_rules, luak_getlabel-Keeps, luak_concat-Keeps, jpc-Keeps) depth 15

pub luak_patchlist-Keeps : (list : Option ℕ) (target : ℕ) → Keeps (luak_patchlist list target)
unfolding luak_patchlist
luak_patchlist-Keeps list target =
    search (keeps_rules, luak_patchtohere-Keeps, patchlistaux-Keeps) depth 15
