-- ===== src/Puc/Chunk/Undump.antt =====
-- lua-5.1/src/lundump.c. What does not come back to the caller, the name of the chunk in a message,
-- the buffer and the anchoring of objects on the stack, is left out.
use zua.Prelude.{
  ℕ, zero, suc, ◌*◌, ◌^◌, Bool, true, false, not, List, [], ◌∷◌, Option, none, some, ltb, ◌==◌,
  if◌then◌else◌, take, drop,
}
use zua.Puc.Zio.{Zio, luaz_read}
use zua.Puc.Chunk.{
  TString, TValue, nil, boolean, number, string, LocVar, Proto, Protos, proto, no_protos,
  more_protos, luau_header, luac_headersize, lua_tnil, lua_tboolean, lua_tnumber, lua_tstring,
}
use zua.Puc.Chunk.Bytes.{from_le, same_bytes}

pub data Error : Type 0 where
  unexpected_end bad_integer bad_constant code_too_deep bad_code bad_header : Error

-- `stuck` is no outcome of the program: the loop of luaZ_read ran out of rounds.
pub data Outcome {ℓ} (A : Type ℓ) : Type ℓ where
  ok : A → Zio → Outcome A
  err : Error → Outcome A
  stuck : Outcome A

abbrev pub Loader {ℓ} : Type ℓ → Type ℓ
Loader A = Zio → Outcome A

infixl 1 ◌>>=◌ ◌>>◌
abbrev pub ◌>>=◌ {ℓ κ} : {A : Type ℓ} {B : Type κ} → Loader A → (A → Loader B) → Loader B
◌>>=◌ m f z = elim (m z) [ ok a z' ↦ f a z' | err e ↦ err e | stuck ↦ stuck ]

abbrev pub ◌>>◌ {ℓ κ} : {A : Type ℓ} {B : Type κ} → Loader A → Loader B → Loader B
m >> k = m >>= λ _. k

abbrev pub pure {ℓ} : {A : Type ℓ} → A → Loader A
pure a z = ok a z

abbrev pub throw {ℓ} : {A : Type ℓ} → Error → Loader A
throw e z = err e

-- `IF (c, s)`
abbrev pub error_if : Bool → Error → Loader (Unit {0})
error_if true e = throw e
error_if false e = pure tt

-- The outcome of luaZ_read: `IF (r!=0, "unexpected end")`.
abbrev pub checked_read : Option (List ℕ × ℕ × Zio) → Outcome (List ℕ)
checked_read none = stuck
checked_read (some (b, r, z)) = if r == 0 then ok b z else err unexpected_end

unfoldable pub load_block : ℕ → Loader (List ℕ)
load_block size z = checked_read (luaz_read z size)

-- One byte. The callers compare it, or cast it to `lu_byte`.
unfoldable pub load_char : Loader ℕ
load_char = do b ← load_block 1; pure (from_le b)

unfoldable pub load_int : Loader ℕ
load_int = do
  b ← load_block 4
  let x = from_le b
  error_if (not (ltb x (2 ^ 31))) bad_integer
  pure x

unfoldable pub load_number : Loader ℕ
load_number = do b ← load_block 8; pure (from_le b)

unfoldable pub load_sized : ℕ → Loader (Option TString)
load_sized zero = pure none
load_sized (suc size) = do s ← load_block (suc size); pure (some (take size s))

unfoldable pub load_string : Loader (Option TString)
load_string = do b ← load_block 8; load_sized (from_le b)

-- `for (i=0; i<n; i++)`, which fills a vector of `n` elements.
unfoldable pub load_each {ℓ} : {A : Type ℓ} → ℕ → Loader A → Loader (List A)
load_each zero item = pure []
load_each (suc n) item = do x ← item; xs ← load_each n item; pure (x ∷ xs)

-- A vector of 4-byte elements is one block.
unfoldable pub cut_words : ℕ → List ℕ → List ℕ
cut_words zero bs = []
cut_words (suc n) bs = from_le (take 4 bs) ∷ cut_words n (drop 4 bs)

unfoldable pub load_vector : ℕ → Loader (List ℕ)
unfolding cut_words
load_vector n = do b ← load_block (n * 4); pure (cut_words n b)

unfoldable pub load_code : Loader (List ℕ)
load_code = do n ← load_int; load_vector n

unfoldable pub load_constant_of : ℕ → Loader TValue
load_constant_of t =
    if t == lua_tnil
    then pure nil
    else if t == lua_tboolean
    then (do b ← load_char; pure (boolean (not (b == 0))))
    else if t == lua_tnumber
    then (do x ← load_number; pure (number x))
    else if t == lua_tstring
    then (do s ← load_string; pure (string s))
    else throw bad_constant

unfoldable pub load_constant : Loader TValue
load_constant = do t ← load_char; load_constant_of t

unfoldable pub load_locvar : Loader LocVar
load_locvar = do
  varname ← load_string
  startpc ← load_int
  endpc ← load_int
  pure (record { varname = varname; startpc = startpc; endpc = endpc })

abbrev pub Debug : Type 0
Debug = record { lineinfo : List ℕ; locvars : List LocVar; upvalues : List (Option TString) }

unfoldable pub load_debug : Loader Debug
load_debug = do
  n ← load_int
  lineinfo ← load_vector n
  m ← load_int
  locvars ← load_each m load_locvar
  u ← load_int
  upvalues ← load_each u load_string
  pure (record { lineinfo = lineinfo; locvars = locvars; upvalues = upvalues })

unfoldable pub load_protos : ℕ → Loader Proto → Loader Protos
load_protos zero item = pure no_protos
load_protos (suc n) item = do f ← item; fs ← load_protos n item; pure (more_protos f fs)

abbrev pub or_parent : Option TString → Option TString → Option TString
or_parent none p = p
or_parent (some s) p = some s

-- "=?"
abbrev pub unknown_source : TString
unknown_source = b'=' ∷ b'?' ∷ []

-- The bytecode verifier luaG_checkcode of lua-5.1/src/ldebug.c is a parameter.
module _ (luag_checkcode : Proto → Bool) where
  -- The first argument is LUAI_MAXCCALLS less the calls that are open (`nCcalls`).
  unfoldable pub load_function : ℕ → Option TString → Loader Proto
  load_function zero p = throw code_too_deep
  load_function (suc calls) p = do
    s ← load_string
    let source = or_parent s p
    linedefined ← load_int
    lastlinedefined ← load_int
    nups ← load_char
    numparams ← load_char
    is_vararg ← load_char
    maxstacksize ← load_char
    code ← load_code
    n ← load_int
    k ← load_each n load_constant
    m ← load_int
    ps ← load_protos m (load_function calls source)
    debug ← load_debug
    let f =
        proto
          (record {
            k = k;
            code = code;
            lineinfo = debug.lineinfo;
            locvars = debug.locvars;
            upvalues = debug.upvalues;
            source = source;
            linedefined = linedefined;
            lastlinedefined = lastlinedefined;
            nups = nups;
            numparams = numparams;
            is_vararg = is_vararg;
            maxstacksize = maxstacksize;
          })
          ps
    error_if (not (luag_checkcode f)) bad_code
    pure f

  unfoldable pub luau_undump : ℕ → Loader Proto
  luau_undump calls = do
    s ← load_block luac_headersize
    error_if (not (same_bytes s luau_header)) bad_header
    load_function calls (some unknown_source)

abbrev pub luai_maxccalls : ℕ
luai_maxccalls = 200
