-- ===== src/Puc/Chunk/Parts.antt =====
-- The parts of a function in a chunk: what lua-5.1/src/lundump.c reads back of each.
use zua.Prelude.{
  ℕ, ◌*◌, ◌^◌, ◌<◌, ◌≡◌, refl, sym, Bool, true, false, List, [], ◌∷◌, append_assoc, length,
  length-append, take-append_length, drop-append_length, All, arith,
}
use zua.Puc.Chunk.{TValue, nil, boolean, number, string, LocVar, ProtoInfo}
use zua.Puc.Chunk.Bytes.{to_le, from_le-to_le, length-to_le}
use zua.Puc.Chunk.Dump.{words, unless}
use zua.Puc.Chunk.Format.{
  string_bytes, vector_bytes, constant_bytes, each_bytes, list_bytes, locvar_bytes, debug_bytes,
}
use zua.Puc.Chunk.Undump.{
  Loader, load_string, load_each, load_vector, cut_words, load_code, load_constant,
  load_constant_of, load_locvar, load_debug, Debug,
}
use zua.Puc.Chunk.Reads.{
  Reads, bind, done, last, block, char, number_lem, int, IsStored, string_lem,
}

length-words : (xs : List ℕ) → length (words 4 xs) ≡ length xs * 4
length-words [] = refl
length-words (x ∷ xs) =
    omega (arith, length-append (to_le 4 x) (words 4 xs), length-to_le 4 x, length-words xs)

cut_words-words : (xs : List ℕ) → All (λ x. x < 2 ^ 32) xs → cut_words (length xs) (words 4 xs) ≡ xs
unfolding cut_words
cut_words-words [] h = refl
cut_words-words (x ∷ xs) (h, hs) =
    let n : 4 ≡ length (to_le 4 x) = sym (length-to_le 4 x) in
    rw
      (
        take-append_length (to_le 4 x) (words 4 xs) 4 n,
        drop-append_length (to_le 4 x) (words 4 xs) 4 n,
        from_le-to_le 4 x h,
        cut_words-words xs hs,
      )
      refl

words_lem :
    (xs : List ℕ) → All (λ x. x < 2 ^ 32) xs → Reads (load_vector (length xs)) (words 4 xs) xs
unfolding load_vector
words_lem xs h =
    last _ (block (words 4 xs) (length xs * 4) (sym (length-words xs)))
      (rw (cut_words-words xs h) done)

-- A vector of 4-byte elements whose count is an `int`.
pub record IsVector (xs : List ℕ) : Type 0 where
  pub short : length xs < 2 ^ 31
  pub elements : All (λ x. x < 2 ^ 32) xs

pub code : (xs : List ℕ) → IsVector xs → Reads load_code (vector_bytes xs) xs
unfolding load_code vector_bytes
code xs h = bind _ (int (length xs) h.short) (words_lem xs h.elements)

module _ {ℓ} {A : Type ℓ} (item : Loader A) (bytes : A → List ℕ) (P : A → Type 0) where
  pub each :
      ((x : A) → P x → Reads item (bytes x) x)
      → (xs : List A) → All P xs
      → Reads (load_each (length xs) item) (each_bytes bytes xs) xs
  unfolding load_each each_bytes
  each r [] h = done
  each r (x ∷ xs) (h, hs) = bind _ (r x h) (last _ (each r xs hs) done)

unfoldable pub IsConstant : TValue → Type 0
IsConstant nil = Unit
IsConstant (boolean b) = Unit
IsConstant (number x) = x < 2 ^ 64
IsConstant (string s) = IsStored s

pub constant : (v : TValue) → IsConstant v → Reads load_constant (constant_bytes v) v
unfolding load_constant load_constant_of constant_bytes IsConstant
constant nil h = last _ (char 0 (omega arith)) done
constant (boolean true) h = bind _ (char 1 (omega arith)) (last _ (char 1 (omega arith)) done)
constant (boolean false) h = bind _ (char 1 (omega arith)) (last _ (char 0 (omega arith)) done)
constant (number x) h = bind _ (char 3 (omega arith)) (last _ (number_lem x h) done)
constant (string s) h = bind _ (char 4 (omega arith)) (last _ (string_lem s h) done)

pub record IsLocVar (v : LocVar) : Type 0 where
  pub name : IsStored v.varname
  pub start : v.startpc < 2 ^ 31
  pub end : v.endpc < 2 ^ 31

pub locvar : (v : LocVar) → IsLocVar v → Reads load_locvar (locvar_bytes v) v
unfolding load_locvar locvar_bytes
locvar v h =
    bind _ (string_lem v.varname h.name)
      (bind _ (int v.startpc h.start) (last _ (int v.endpc h.end) done))

-- The debug information that is written, all of it or none, fits its fields.
pub record IsDebug (strip : Bool) (f : ProtoInfo) : Type 0 where
  pub lines : IsVector (unless strip f.lineinfo)
  pub few_vars : length (unless strip f.locvars) < 2 ^ 31
  pub vars : All IsLocVar (unless strip f.locvars)
  pub few_names : length (unless strip f.upvalues) < 2 ^ 31
  pub names : All IsStored (unless strip f.upvalues)

abbrev pub debug_info : Bool → ProtoInfo → Debug
debug_info strip f = record {
  lineinfo = unless strip f.lineinfo;
  locvars = unless strip f.locvars;
  upvalues = unless strip f.upvalues;
}

pub debug :
    (strip : Bool) (f : ProtoInfo)
    → IsDebug strip f
    → Reads load_debug (debug_bytes strip f) (debug_info strip f)
unfolding load_debug debug_bytes list_bytes vector_bytes
debug strip f h = rw append_assoc (
    bind _ (int _ h.lines.short) (
      bind _ (words_lem _ h.lines.elements) (
        rw append_assoc (
          bind _ (int _ h.few_vars) (
            bind _ (each load_locvar locvar_bytes IsLocVar locvar _ h.vars) (
              bind _ (int _ h.few_names)
                (last _ (each load_string string_bytes IsStored string_lem _ h.names) done)))))))
