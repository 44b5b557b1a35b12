-- ===== src/Puc/Code/Keeps/Emit.antt =====
-- Instructions and registers of lua-5.1/src/lcode.c keep a FuncState sound.
use zua.Prelude.{
  ℕ, ◌+◌, ◌-◌, ◌%◌, ◌^◌, ◌≤◌, ◌<◌, ◌≡◌, refl, Option, length, arith, ltb, leb, leb→le, ◌==◌, ◌&&◌,
  set, length-set,
}
use zua.Prelude.Int.{ℤ}
use zua.Puc.Word.{IsWord, isk}
use zua.Puc.Opmodes.{OpCode}
use zua.Puc.Checker.{maxstack}
use zua.Puc.Table.{max_int}
use zua.Puc.Code.State.{FuncState, ExpDesc, ExpKind, vnonreloc, write, modify}
use zua.Puc.Code.Emit.{
  append_code, luak_code, luak_codeabc, luak_codeabx, luak_codeasbx, luak_jump, luak_ret, condjump,
  loadnil, connect_nil, luak_nil, setlist_code, luak_setlist, luak_fixline, code_label,
  luak_checkstack, luak_reserveregs, freereg, freeexp,
}
use zua.Puc.Code.Keeps.{
  IsSound, Step, Step-refl, Step-trans, Step-free, Post, Post-weaken, returns, raises, strays,
  Post-bind, Post-if, Keeps, keeps_rules,
}
use zua.Puc.Code.Keeps.Words.{create_abc-IsWord, create_abx-IsWord, All-write, length-write}
use zua.Puc.Code.Keeps.Jumps.{
  within-Keeps, code_at-Keeps, setarg_b-Keeps, dischargejpc-Keeps, jpc-Keeps, luak_concat-Keeps,
  luak_getlabel-Keeps,
}

pub append-Step :
    (fs : FuncState) (i line : ℕ)
    → IsSound fs
    → IsWord i
    → fs.pc < max_int
    → Step fs (record fs {
      code = write fs.code fs.pc i;
      lineinfo = write fs.lineinfo fs.pc line;
      pc = fs.pc + 1;
    })
append-Step fs i line h w room = record {
  sound = record {
    frame = h.frame;
    stack = h.stack;
    words = All-write IsWord fs.code fs.pc i h.words w;
    position = omega (arith, h.position, length-write fs.code fs.pc i);
    lines = omega (
      arith,
      h.position,
      h.lines,
      length-write fs.code fs.pc i,
      length-write fs.lineinfo fs.pc line,
    );
    size = omega (arith, room);
    count = h.count;
    constants = h.constants;
    numbers = h.numbers;
  };
  kept = λ i _. refl;
  grown = omega arith;
  frame = omega arith;
  actives = refl;
}

append_code-Keeps : (i line : ℕ) → IsWord i → Keeps (append_code i line)
unfolding append_code
append_code-Keeps i line w = record {
  at = λ fs h.
      Post-if (leb max_int fs.pc) (λ _. raises)
        (λ e. returns (append-Step fs i line h w (ground arith)));
}

luak_code-Keeps : (i line : ℕ) → IsWord i → Keeps (luak_code i line)
unfolding luak_code
luak_code-Keeps i line w = search (keeps_rules, dischargejpc-Keeps, append_code-Keeps) depth 15

pub luak_codeabc-Keeps : (o : OpCode) (a b c : ℕ) → Keeps (luak_codeabc o a b c)
unfolding luak_codeabc
luak_codeabc-Keeps o a b c = search (keeps_rules, luak_code-Keeps, create_abc-IsWord) depth 15

pub luak_codeabx-Keeps : (o : OpCode) (a bc : ℕ) → Keeps (luak_codeabx o a bc)
unfolding luak_codeabx
luak_codeabx-Keeps o a bc = search (keeps_rules, luak_code-Keeps, create_abx-IsWord) depth 15

pub luak_codeasbx-Keeps : (o : OpCode) (a : ℕ) (sbx : ℤ) → Keeps (luak_codeasbx o a sbx)
unfolding luak_codeasbx
luak_codeasbx-Keeps o a sbx = luak_codeabx-Keeps o a _

pub luak_jump-Keeps : Keeps luak_jump
unfolding luak_jump
luak_jump-Keeps =
    search (keeps_rules, jpc-Keeps, luak_codeasbx-Keeps, luak_concat-Keeps, within-Keeps) depth 15

pub luak_ret-Keeps : (first : ℕ) (nret : Option ℕ) → Keeps (luak_ret first nret)
unfolding luak_ret
luak_ret-Keeps first nret = search (keeps_rules, luak_codeabc-Keeps) depth 15

pub condjump-Keeps : (op : OpCode) (a b c : ℕ) → Keeps (condjump op a b c)
unfolding condjump
condjump-Keeps op a b c = search (keeps_rules, luak_codeabc-Keeps, luak_jump-Keeps) depth 15

loadnil-Keeps : (from n : ℕ) → Keeps (loadnil from n)
unfolding loadnil
loadnil-Keeps from n = search (keeps_rules, luak_codeabc-Keeps) depth 15

connect_nil-Keeps : (before from n : ℕ) → Keeps (connect_nil before from n)
unfolding connect_nil
connect_nil-Keeps before from n =
    search (keeps_rules, code_at-Keeps, setarg_b-Keeps, loadnil-Keeps) depth 15

pub luak_nil-Keeps : (from n : ℕ) → Keeps (luak_nil from n)
unfolding luak_nil
luak_nil-Keeps from n = search (keeps_rules, connect_nil-Keeps, loadnil-Keeps) depth 15

pub code_label-Keeps : (a b jump : ℕ) → Keeps (code_label a b jump)
unfolding code_label
code_label-Keeps a b jump = search (keeps_rules, luak_getlabel-Keeps, luak_codeabc-Keeps) depth 15

frame-Step :
    (fs : FuncState) (size : ℕ)
    → IsSound fs
    → fs.maxstacksize ≤ size
    → size < maxstack
    → Step fs (record fs { maxstacksize = size })
frame-Step fs size h grown below = record {
  sound = record {
    frame = omega (arith, h.frame);
    stack = below;
    words = h.words;
    position = h.position;
    lines = h.lines;
    size = h.size;
    count = h.count;
    constants = h.constants;
    numbers = h.numbers;
  };
  kept = λ i _. refl;
  grown = omega arith;
  frame = grown;
  actives = refl;
}

-- The registers that checkstack found room for are reserved.
checkstack-Post :
    (n : ℕ) (fs : FuncState)
    → IsSound fs
    → Post
        (λ _ fs'. Step fs fs' × (fs'.freereg ≡ fs.freereg) × (fs.freereg + n ≤ fs'.maxstacksize))
        (luak_checkstack n fs)
unfolding luak_checkstack
checkstack-Post n fs h =
    Post-if (leb (fs.freereg + n) fs.maxstacksize) (λ e. returns (Step-refl h, refl, leb→le _ _ e))
      (λ e.
        Post-if (leb maxstack (fs.freereg + n)) (λ _. raises)
          (λ e'. returns (frame-Step fs _ h (ground arith) (ground arith), refl, ground arith)))

pub luak_checkstack-Keeps : (n : ℕ) → Keeps (luak_checkstack n)
luak_checkstack-Keeps n = record {
  at = λ fs h. Post-weaken (λ _ _ p. p.0) (checkstack-Post n fs h);
}

-- The registers that are reserved are in use.
pub reserveregs-Post :
    (n : ℕ) (fs : FuncState)
    → IsSound fs
    → Post (λ _ fs'. Step fs fs' × (fs'.freereg ≡ fs.freereg + n)) (luak_reserveregs n fs)
unfolding luak_reserveregs modify
reserveregs-Post n fs h =
    Post-bind (luak_checkstack n) _ fs (checkstack-Post n fs h) (λ _ fs' (p, e, room). returns (
      Step-trans p (
          Step-free fs' fs'.pc _ fs'.lasttarget fs'.jpc p.sound (omega arith)
            (omega (arith, e, room))),
      omega (arith, e),
    ))

pub luak_reserveregs-Keeps : (n : ℕ) → Keeps (luak_reserveregs n)
luak_reserveregs-Keeps n = record {
  at = λ fs h. Post-weaken (λ _ _ p. p.0) (reserveregs-Post n fs h);
}

pub freereg_to-Keeps :
    (r : ℕ) (fs : FuncState)
    → IsSound fs
    → r ≤ fs.maxstacksize
    → Step fs (record fs { freereg = r })
freereg_to-Keeps r fs h room = Step-free fs fs.pc r fs.lasttarget fs.jpc h (omega arith) room

pub freereg-Keeps : (reg : ℕ) → Keeps (freereg reg)
unfolding freereg
freereg-Keeps reg = record {
  at = λ fs h.
      Post-if (isk reg == 0 && leb fs.nactvar reg)
        (λ _.
          Post-if (fs.freereg == 0) (λ _. strays)
            (λ _. returns (freereg_to-Keeps (fs.freereg - 1) fs h (omega (arith, h.frame)))))
        (λ _. returns (Step-refl h));
}

freeexp_of-Keeps : (k : ExpKind) (e : ExpDesc) → Keeps (freeexp (record e { k = k }))
unfolding freeexp
freeexp_of-Keeps vnonreloc e = freereg-Keeps e.info
freeexp_of-Keeps _ e = search keeps_rules

pub freeexp-Keeps : (e : ExpDesc) → Keeps (freeexp e)
freeexp-Keeps e = freeexp_of-Keeps e.k e

cut-IsWord : (n : ℕ) → IsWord (n % 2 ^ 32)
cut-IsWord n = omega arith

-- The list of a table constructor whose table is in a register of the frame.
pub luak_setlist-Keeps :
    (base nelems : ℕ) (tostore : Option ℕ) (fs : FuncState)
    → IsSound fs
    → base < fs.maxstacksize
    → Post (λ _. Step fs) (luak_setlist base nelems tostore fs)
unfolding luak_setlist modify
luak_setlist-Keeps base nelems tostore fs h room = Post-bind _ _ fs (written.at fs h) (λ _ fs' p.
    returns (Step-trans p (freereg_to-Keeps (base + 1) fs' p.sound (omega (arith, p.frame)))))
  where
    written : Keeps (setlist_code base nelems tostore)
    written = search (keeps_rules, luak_codeabc-Keeps, luak_code-Keeps, cut-IsWord) depth 15

lines-Step :
    (fs : FuncState) (line : ℕ)
    → IsSound fs
    → Step fs (record fs { lineinfo = set fs.lineinfo (fs.pc - 1) line })
lines-Step fs line h = record {
  sound = record {
    frame = h.frame;
    stack = h.stack;
    words = h.words;
    position = h.position;
    lines = omega (arith, h.lines, length-set fs.lineinfo (fs.pc - 1) line);
    size = h.size;
    count = h.count;
    constants = h.constants;
    numbers = h.numbers;
  };
  kept = λ i _. refl;
  grown = omega arith;
  frame = omega arith;
  actives = refl;
}

pub luak_fixline-Keeps : (line : ℕ) → Keeps (luak_fixline line)
unfolding luak_fixline
luak_fixline-Keeps line = record {
  at = λ fs h.
      Post-if (ltb 0 fs.pc && leb fs.pc (length fs.lineinfo)) (λ _. returns (lines-Step fs line h))
        (λ _. strays);
}
