-- ===== src/Puc/Chunk/Writes.antt =====
-- luaU_dump writes the format, and calls the writer no more once it has failed.
use zua.Prelude.{
  ℕ, ◌%◌, ◌≡◌, ◌≢◌, refl, sym, ap, ◌∙◌, Bool, true, false, List, [], ◌∷◌, ◌++◌, append_assoc,
  append-nil, Option, none, some, ◌==◌, arith,
}
use zua.Puc.Chunk.{
  TString, TValue, nil, boolean, number, string, LocVar, ProtoInfo, Proto, Protos, proto, no_protos,
  more_protos, luau_header,
}
use zua.Puc.Chunk.Bytes.{to_le}
use zua.Puc.Chunk.Dump.{
  DumpState, dump_block, dump_char, dump_int, dump_number, dump_vector, dump_string, dump_constant,
  dump_each, dump_locvar, dump_debug, dump_function, dump_protos, dump_header, luau_dump,
}
use zua.Puc.Chunk.Format.{
  string_bytes, vector_bytes, constant_bytes, each_bytes, list_bytes, locvar_bytes, debug_bytes,
  info_bytes, function_bytes, protos_bytes, chunk_bytes,
}

-- A writer that keeps all blocks, and never fails.
abbrev pub append_writer : List ℕ → List ℕ → ℕ × List ℕ
append_writer w b = (0, w ++ b)

abbrev wrote : Bool → List ℕ → DumpState (List ℕ)
wrote strip w = record { sink = w; strip = strip; status = 0 }

module _ (strip : Bool) where
  block : (b w : List ℕ) → dump_block append_writer b (wrote strip w) ≡ wrote strip (w ++ b)
  unfolding dump_block
  block b w = refl

  int :
      (x : ℕ) (w : List ℕ) → dump_int append_writer x (wrote strip w) ≡ wrote strip (w ++ to_le 4 x)
  unfolding dump_int
  int x w = block (to_le 4 x) w

  char :
      (x : ℕ) (w : List ℕ)
      → dump_char append_writer x (wrote strip w) ≡ wrote strip (w ++ x % 256 ∷ [])
  unfolding dump_char
  char x w = block (x % 256 ∷ []) w

  vector :
      (xs w : List ℕ)
      → dump_vector append_writer xs (wrote strip w) ≡ wrote strip (w ++ vector_bytes xs)
  unfolding dump_vector vector_bytes
  vector xs w = simp (int, block, append_assoc)

  string_lem :
      (s : Option TString) (w : List ℕ)
      → dump_string append_writer s (wrote strip w) ≡ wrote strip (w ++ string_bytes s)
  unfolding dump_string string_bytes
  string_lem none w = block (to_le 8 0) w
  string_lem (some s) w = simp (block, append_assoc)

  constant :
      (v : TValue) (w : List ℕ)
      → dump_constant append_writer v (wrote strip w) ≡ wrote strip (w ++ constant_bytes v)
  unfolding dump_constant constant_bytes dump_number
  constant nil w = char 0 w
  constant (boolean true) w = simp (char, append_assoc)
  constant (boolean false) w = simp (char, append_assoc)
  constant (number x) w = simp (char, block, append_assoc)
  constant (string s) w = simp (char, string_lem, append_assoc)

  each {ℓ} :
      {A : Type ℓ} (item : A → DumpState (List ℕ) → DumpState (List ℕ)) (bytes : A → List ℕ)
      → ((x : A) (w : List ℕ) → item x (wrote strip w) ≡ wrote strip (w ++ bytes x))
      → (xs : List A) (w : List ℕ)
      → dump_each append_writer item xs (wrote strip w) ≡ wrote strip (w ++ each_bytes bytes xs)
  unfolding dump_each each_bytes
  each item bytes h [] w = ap (wrote strip) (sym (append-nil w))
  each item bytes h (x ∷ xs) w =
      rw (h x w) (each item bytes h xs (w ++ bytes x) ∙ ap (wrote strip) (append_assoc w _ _))

  locvar :
      (v : LocVar) (w : List ℕ)
      → dump_locvar append_writer v (wrote strip w) ≡ wrote strip (w ++ locvar_bytes v)
  unfolding dump_locvar locvar_bytes
  locvar v w = simp (int, string_lem, append_assoc)

  debug :
      (f : ProtoInfo) (w : List ℕ)
      → dump_debug append_writer f (wrote strip w) ≡ wrote strip (w ++ debug_bytes strip f)
  unfolding dump_debug debug_bytes list_bytes
  debug f w = simp (
    int,
    vector,
    each (dump_locvar append_writer) locvar_bytes locvar,
    each (dump_string append_writer) string_bytes string_lem,
    append_assoc,
  )

  mutual
    unfolding dump_function dump_protos function_bytes protos_bytes info_bytes list_bytes

    function :
        (f : Proto) (p : Option TString) (w : List ℕ)
        → dump_function append_writer f p (wrote strip w)
          ≡ wrote strip (w ++ function_bytes strip f p)
    function (proto f ps) p w = simp (
      int,
      char,
      string_lem,
      vector,
      each (dump_constant append_writer) constant_bytes constant,
      protos ps f.source,
      debug f,
      info_bytes,
      list_bytes,
      append_assoc,
    )

    protos :
        (fs : Protos) (p : Option TString) (w : List ℕ)
        → dump_protos append_writer fs p (wrote strip w)
          ≡ wrote strip (w ++ protos_bytes strip fs p)
    protos no_protos p w = ap (wrote strip) (sym (append-nil w))
    protos (more_protos f fs) p w = simp (function f p, protos fs p, append_assoc)

-- Into a writer that keeps every block, luaU_dump writes exactly the chunk of the function, behind
-- what was there, and returns 0.
pub luau_dump-chunk_bytes :
    (f : Proto) (w : List ℕ) (strip : Bool)
    → luau_dump append_writer f w strip ≡ (0, w ++ chunk_bytes strip f)
unfolding luau_dump dump_header chunk_bytes
luau_dump-chunk_bytes f w strip =
    rw (block strip luau_header w, function strip f none (w ++ luau_header), append_assoc) refl

-- A dump that has failed.
module _ {W : Type 0} (writer : W → List ℕ → ℕ × W) (d : DumpState W)
    (failed : (d.status == 0) ≡ false) where
  block_failed : (b : List ℕ) → dump_block writer b d ≡ d
  unfolding dump_block
  block_failed b = rw failed refl

  char_failed : (x : ℕ) → dump_char writer x d ≡ d
  unfolding dump_char
  char_failed x = block_failed _

  int_failed : (x : ℕ) → dump_int writer x d ≡ d
  unfolding dump_int
  int_failed x = block_failed _

  vector_failed : (xs : List ℕ) → dump_vector writer xs d ≡ d
  unfolding dump_vector
  vector_failed xs = rw int_failed (block_failed _)

  string_failed : (s : Option TString) → dump_string writer s d ≡ d
  unfolding dump_string
  string_failed none = block_failed _
  string_failed (some s) = simp block_failed

  constant_failed : (v : TValue) → dump_constant writer v d ≡ d
  unfolding dump_constant dump_number
  constant_failed nil = char_failed _
  constant_failed (boolean b) = simp char_failed
  constant_failed (number x) = simp (char_failed, block_failed)
  constant_failed (string s) = simp (char_failed, string_failed)

  each_failed {ℓ} :
      {A : Type ℓ} (item : A → DumpState W → DumpState W)
      → ((x : A) → item x d ≡ d)
      → (xs : List A) → dump_each writer item xs d ≡ d
  unfolding dump_each
  each_failed item h [] = refl
  each_failed item h (x ∷ xs) = rw (h x) (each_failed item h xs)

  locvar_failed : (v : LocVar) → dump_locvar writer v d ≡ d
  unfolding dump_locvar
  locvar_failed v = simp (int_failed, string_failed)

  debug_failed : (f : ProtoInfo) → dump_debug writer f d ≡ d
  unfolding dump_debug
  debug_failed f = simp (
    int_failed,
    vector_failed,
    each_failed (dump_locvar writer) locvar_failed,
    each_failed (dump_string writer) string_failed,
  )

  mutual
    unfolding dump_function dump_protos

    function_failed : (f : Proto) (p : Option TString) → dump_function writer f p d ≡ d
    function_failed (proto f ps) p = simp (
      int_failed,
      char_failed,
      string_failed,
      vector_failed,
      each_failed (dump_constant writer) constant_failed,
      protos_failed ps f.source,
      debug_failed f,
    )

    protos_failed : (fs : Protos) (p : Option TString) → dump_protos writer fs p d ≡ d
    protos_failed no_protos p = refl
    protos_failed (more_protos f fs) p = simp (function_failed f p, protos_failed fs p)

-- Once the writer, whatever it does, has returned a status other than 0, dumping a function with all
-- that it contains changes nothing: the writer is called no more, and that status is kept.
pub dump_function-failed :
    {W : Type 0} (writer : W → List ℕ → ℕ × W) (f : Proto) (p : Option TString) (d : DumpState W)
    → d.status ≢ 0
    → dump_function writer f p d ≡ d
dump_function-failed writer f p d h = function_failed writer d (ground arith) f p
