-- ===== src/Puc/Chunk/Format.antt =====
-- The format of a precompiled chunk, as the bytes of each part. `char` fields keep their low 8 bits.
use zua.Prelude.{ℕ, ◌+◌, ◌%◌, Bool, List, [], ◌∷◌, ◌++◌, Option, none, some, length}
use zua.Puc.Chunk.{
  TString, TValue, nil, boolean, number, string, LocVar, ProtoInfo, Proto, Protos, proto, no_protos,
  more_protos, count_protos, luau_header,
}
use zua.Puc.Chunk.Bytes.{to_le}
use zua.Puc.Chunk.Dump.{words, dumped_source, unless, bool_byte}

unfoldable pub string_bytes : Option TString → List ℕ
string_bytes none = to_le 8 0
string_bytes (some s) = to_le 8 (length s + 1) ++ (s ++ 0 ∷ [])

unfoldable pub vector_bytes : List ℕ → List ℕ
vector_bytes xs = to_le 4 (length xs) ++ words 4 xs

unfoldable pub constant_bytes : TValue → List ℕ
unfolding string_bytes
constant_bytes nil = 0 ∷ []
constant_bytes (boolean b) = 1 ∷ bool_byte b ∷ []
constant_bytes (number x) = 3 ∷ to_le 8 x
constant_bytes (string s) = 4 ∷ string_bytes s

unfoldable pub each_bytes {ℓ} : {A : Type ℓ} → (A → List ℕ) → List A → List ℕ
each_bytes item [] = []
each_bytes item (x ∷ xs) = item x ++ each_bytes item xs

-- A count, and then the elements.
unfoldable pub list_bytes {ℓ} : {A : Type ℓ} → (A → List ℕ) → List A → List ℕ
list_bytes item xs = to_le 4 (length xs) ++ each_bytes item xs

unfoldable pub locvar_bytes : LocVar → List ℕ
locvar_bytes v = string_bytes v.varname ++ (to_le 4 v.startpc ++ to_le 4 v.endpc)

unfoldable pub debug_bytes : Bool → ProtoInfo → List ℕ
debug_bytes strip f =
    vector_bytes (unless strip f.lineinfo)
    ++ (list_bytes locvar_bytes (unless strip f.locvars)
        ++ list_bytes string_bytes (unless strip f.upvalues))

-- The part of a function before the functions defined in it.
unfoldable pub info_bytes : Option TString → ProtoInfo → List ℕ
info_bytes source f =
    string_bytes source
    ++ (to_le 4 f.linedefined
        ++ (to_le 4 f.lastlinedefined
            ++ ((f.nups % 256)
                ∷ (f.numparams % 256)
                ∷ (f.is_vararg % 256)
                ∷ (f.maxstacksize % 256)
                ∷ (vector_bytes f.code ++ list_bytes constant_bytes f.k))))

unfoldable mutual
  pub function_bytes : Bool → Proto → Option TString → List ℕ
  function_bytes strip (proto f ps) p =
      info_bytes (dumped_source strip f.source p) f
      ++ (to_le 4 (count_protos ps) ++ (protos_bytes strip ps f.source ++ debug_bytes strip f))

  pub protos_bytes : Bool → Protos → Option TString → List ℕ
  protos_bytes strip no_protos p = []
  protos_bytes strip (more_protos f fs) p = function_bytes strip f p ++ protos_bytes strip fs p

unfoldable pub chunk_bytes : Bool → Proto → List ℕ
chunk_bytes strip f = luau_header ++ function_bytes strip f none
