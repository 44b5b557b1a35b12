-- ===== src/Puc/Chunk/Dump.antt =====
-- lua-5.1/src/ldump.c. The writer is the caller's: it takes what it was given before and a block, and
-- returns a status, 0 if all went well.
use zua.Prelude.{
  ℕ, ◌+◌, ◌%◌, Bool, true, false, List, [], ◌∷◌, ◌++◌, Option, none, some, ◌==◌, ◌||◌,
  if◌then◌else◌, length,
}
use zua.Puc.Chunk.{
  TString, TValue, nil, boolean, number, string, LocVar, ProtoInfo, Proto, Protos, proto, no_protos,
  more_protos, count_protos, luau_header, lua_tnil, lua_tboolean, lua_tnumber, lua_tstring,
}
use zua.Puc.Chunk.Bytes.{to_le, same_bytes}

pub record DumpState (W : Type 0) : Type 0 where
  pub sink : W
  pub strip : Bool
  pub status : ℕ

abbrev pub words : ℕ → List ℕ → List ℕ
words size [] = []
words size (x ∷ xs) = to_le size x ++ words size xs

-- `==` of two `TString*`.
unfoldable pub same_string : Option TString → Option TString → Bool
same_string none none = true
same_string (some s) (some t) = same_bytes s t
same_string _ _ = false

abbrev pub bool_byte : Bool → ℕ
bool_byte true = 1
bool_byte false = 0

-- `(D->strip) ? 0 : n` elements of a vector.
abbrev pub unless {ℓ} : {A : Type ℓ} → Bool → List A → List A
unless strip xs = if strip then [] else xs

-- `(f->source==p || D->strip) ? NULL : f->source`
unfoldable pub dumped_source : Bool → Option TString → Option TString → Option TString
unfolding same_string
dumped_source strip source p = if same_string source p || strip then none else source

module _ {W : Type 0} (writer : W → List ℕ → ℕ × W) where
  unfoldable pub dump_block : List ℕ → DumpState W → DumpState W
  dump_block b d =
      if d.status == 0
      then (let (status, sink) = writer d.sink b in record d { status = status; sink = sink })
      else d

  unfoldable pub dump_char : ℕ → DumpState W → DumpState W
  dump_char y d = dump_block (y % 256 ∷ []) d

  unfoldable pub dump_int : ℕ → DumpState W → DumpState W
  dump_int x d = dump_block (to_le 4 x) d

  unfoldable pub dump_number : ℕ → DumpState W → DumpState W
  dump_number x d = dump_block (to_le 8 x) d

  -- A vector of 4-byte elements.
  unfoldable pub dump_vector : List ℕ → DumpState W → DumpState W
  dump_vector b d = dump_block (words 4 b) (dump_int (length b) d)

  unfoldable pub dump_string : Option TString → DumpState W → DumpState W
  dump_string none d = dump_block (to_le 8 0) d
  dump_string (some s) d = dump_block (s ++ 0 ∷ []) (dump_block (to_le 8 (length s + 1)) d)

  unfoldable pub dump_constant : TValue → DumpState W → DumpState W
  dump_constant nil d = dump_char lua_tnil d
  dump_constant (boolean b) d = dump_char (bool_byte b) (dump_char lua_tboolean d)
  dump_constant (number x) d = dump_number x (dump_char lua_tnumber d)
  dump_constant (string s) d = dump_string s (dump_char lua_tstring d)

  -- `for (i=0; i<n; i++)` over a list.
  unfoldable pub dump_each {ℓ} :
      {A : Type ℓ} → (A → DumpState W → DumpState W) → List A → DumpState W → DumpState W
  dump_each item [] d = d
  dump_each item (x ∷ xs) d = dump_each item xs (item x d)

  unfoldable pub dump_locvar : LocVar → DumpState W → DumpState W
  dump_locvar v d = dump_int v.endpc (dump_int v.startpc (dump_string v.varname d))

  unfoldable pub dump_debug : ProtoInfo → DumpState W → DumpState W
  dump_debug f d =
      let lines = dump_vector (unless d.strip f.lineinfo) d in
      let vars =
        dump_each dump_locvar (unless d.strip f.locvars)
          (dump_int (length (unless d.strip f.locvars)) lines) in
      dump_each dump_string (unless d.strip f.upvalues)
        (dump_int (length (unless d.strip f.upvalues)) vars)

  unfoldable mutual
    pub dump_function : Proto → Option TString → DumpState W → DumpState W
    dump_function (proto f ps) p d =
        let source = dumped_source d.strip f.source p in
        let lines = dump_int f.lastlinedefined (dump_int f.linedefined (dump_string source d)) in
        let counts =
          dump_char f.maxstacksize
            (dump_char f.is_vararg (dump_char f.numparams (dump_char f.nups lines))) in
        let code = dump_vector f.code counts in
        let constants = dump_each dump_constant f.k (dump_int (length f.k) code) in
        dump_debug f (dump_protos ps f.source (dump_int (count_protos ps) constants))

    pub dump_protos : Protos → Option TString → DumpState W → DumpState W
    dump_protos no_protos p d = d
    dump_protos (more_protos f fs) p d = dump_protos fs p (dump_function f p d)

  unfoldable pub dump_header : DumpState W → DumpState W
  dump_header d = dump_block luau_header d

  -- The status, and what the writer was given.
  unfoldable pub luau_dump : Proto → W → Bool → ℕ × W
  luau_dump f w strip =
      let d = dump_function f none (dump_header (record { sink = w; strip = strip; status = 0 })) in
      (d.status, d.sink)
