-- ===== src/Puc/Chunk/RoundTrip.antt =====
-- Loading what lua-5.1/src/ldump.c wrote with lua-5.1/src/lundump.c.
use zua.Prelude.{
  ℕ, zero, suc, ◌≡◌, refl, sym, ap, ◌∙◌, ap₂, ◌⊎◌, inl, inr, Bool-cases, Bool, true, false, not,
  List, [], ◌++◌, append_assoc, Option, none, some,
}
use native.Mathlib.Numerals.{add-one}
use zua.Puc.Zio.{Zio}
use zua.Puc.Zio.Content.{IsValid, content}
use zua.Puc.Chunk.{
  TString, ProtoInfo, Proto, Protos, proto, no_protos, more_protos, count_protos, luau_header,
}
use zua.Puc.Chunk.Bytes.{same_bytes_refl, same_bytes→eq}
use zua.Puc.Chunk.Dump.{luau_dump, dumped_source, same_string}
use zua.Puc.Chunk.Format.{
  list_bytes, constant_bytes, info_bytes, function_bytes, protos_bytes, chunk_bytes,
}
use zua.Puc.Chunk.Undump.{
  bad_code, bad_header, load_constant, load_protos, load_function, luau_undump, unknown_source,
}
use zua.Puc.Chunk.Reads.{Loaded, Reads, bind, done, last, passed, block, char, int, string_lem}
use zua.Puc.Chunk.Parts.{code, each, IsConstant, constant, debug}
use zua.Puc.Chunk.Loaded.{
  resolved_source, resolved_info, resolved, resolved_protos, IsLoadable, AreLoadable,
}
use zua.Puc.Chunk.Writes.{append_writer, luau_dump-chunk_bytes}

module _ (luag_checkcode : Proto → Bool) (strip : Bool) where
  mutual
    unfolding load_function load_protos function_bytes protos_bytes info_bytes list_bytes resolved
        resolved_protos resolved_info resolved_source IsLoadable AreLoadable count_protos

    function :
        (calls : ℕ) (f : Proto) (p q : Option TString)
        → IsLoadable luag_checkcode strip calls f p q
        → Reads
            (load_function luag_checkcode calls q)
            (function_bytes strip f p)
            (resolved strip f p q)
    function zero f p q h = absurd h
    function (suc calls) (proto f ps) p q (h, few, inner, accepted) = rw append_assoc (
        bind _ (string_lem _ h.source) (
          rw append_assoc (
            bind _ (int _ h.linedefined) (
              rw append_assoc (
                bind _ (int _ h.lastlinedefined) (
                  bind _ (char _ h.nups) (
                    bind _ (char _ h.numparams) (
                      bind _ (char _ h.is_vararg) (
                        bind _ (char _ h.maxstacksize) (
                          rw append_assoc (
                            bind _ (code _ h.code) (
                              rw append_assoc (
                                bind _ (int _ h.few_constants) (
                                  bind _
                                    (each load_constant constant_bytes IsConstant constant _
                                      h.constants)
                                    (bind _ (int _ few) (
                                      bind _
                                        (protos calls ps f.source (resolved_source strip f p q)
                                          inner)
                                        (last _ (debug strip f h.debug)
                                          (passed bad_code (ap not accepted) done))))))))))))))))))

    protos :
        (calls : ℕ) (fs : Protos) (p q : Option TString)
        → AreLoadable luag_checkcode strip calls fs p q
        → Reads
            (load_protos (count_protos fs) (load_function luag_checkcode calls q))
            (protos_bytes strip fs p)
            (resolved_protos strip fs p q)
    protos calls no_protos p q h = done
    protos calls (more_protos f fs) p q (h, hs) =
        rw add-one (bind _ (function calls f p q h) (last _ (protos calls fs p q hs) done))

-- Off any valid stream that starts with what luaU_dump wrote of `f`, stripped or not, luaU_undump
-- returns `f` as it is resolved (a stripped function has lost its debug information; a function that was written
-- without a source has that of the function around it, and the outermost one "=?"), and leaves a valid stream of
-- the rest. The fields of `f` fit the format, functions are nested less deep than `calls`, and the verifier
-- accepts each function that is loaded.
pub luau_undump-luau_dump :
    (luag_checkcode : Proto → Bool) (calls : ℕ) (strip : Bool) (f : Proto) (z : Zio) (rest : List ℕ)
    → IsLoadable luag_checkcode strip calls f none (some unknown_source)
    → IsValid z
    → content z ≡ (luau_dump append_writer f [] strip).1 ++ rest
    → Loaded (resolved strip f none (some unknown_source)) rest (luau_undump luag_checkcode calls z)
unfolding luau_undump chunk_bytes
luau_undump-luau_dump check calls strip f z rest h v e =
    (bind _ (block luau_header 12 refl) (
        passed bad_header (ap not (same_bytes_refl luau_header))
          (function check strip calls f none (some unknown_source) h))).run
      z rest v (e ∙ ap (λ d. d.1 ++ rest) (luau_dump-chunk_bytes f [] strip))

pub same_string-eq : (s : TString) (p : Option TString) → same_string (some s) p ≡ true → p ≡ some s
unfolding same_string
same_string-eq s none h = cc
same_string-eq s (some t) h = ap some (sym (same_bytes→eq s t h))

-- Every function has a source.
unfoldable mutual
  pub HasSources : Proto → Type 0
  HasSources (proto f ps) = (s : TString) × (f.source ≡ some s) × HaveSources ps

  pub HaveSources : Protos → Type 0
  HaveSources no_protos = Unit
  HaveSources (more_protos f fs) = HasSources f × HaveSources fs

-- The source that a function has in the chunk, `none` for the one of the function around it, is read back.
source_back :
    (f : ProtoInfo) (s : TString) (p q : Option TString)
    → f.source ≡ some s
    → (p ≡ none) ⊎ (p ≡ q)
    → resolved_source false f p q ≡ f.source
unfolding resolved_source dumped_source same_string
source_back f s p q e (inl h) = rw (h, e) refl
source_back f s p q e (inr h) =
    rw (e, sym h)
      (elim (Bool-cases (same_string (some s) p)) [
        | inl t ↦ rw t (same_string-eq s p t)
        | inr t ↦ rw t refl
      ])

mutual
  unfolding resolved resolved_protos HasSources HaveSources resolved_info

  resolved_self :
      (f : Proto) (p q : Option TString)
      → HasSources f
      → (p ≡ none) ⊎ (p ≡ q)
      → resolved false f p q ≡ f
  resolved_self (proto f ps) p q (s, e, hs) outer =
      rw (source_back f s p q e outer, resolved_protos_self ps f.source hs) refl

  resolved_protos_self :
      (fs : Protos) (p : Option TString) → HaveSources fs → resolved_protos false fs p p ≡ fs
  resolved_protos_self no_protos p h = refl
  resolved_protos_self (more_protos f fs) p (h, hs) =
      ap₂ more_protos (resolved_self f p p h (inr refl)) (resolved_protos_self fs p hs)

-- When every function has a source, what luaU_dump wrote without stripping is loaded as the same
-- function, under the same conditions.
pub luau_undump-whole :
    (luag_checkcode : Proto → Bool) (calls : ℕ) (f : Proto) (z : Zio) (rest : List ℕ)
    → HasSources f
    → IsLoadable luag_checkcode false calls f none (some unknown_source)
    → IsValid z
    → content z ≡ (luau_dump append_writer f [] false).1 ++ rest
    → Loaded f rest (luau_undump luag_checkcode calls z)
luau_undump-whole check calls f z rest named h v e =
    rw (sym (resolved_self f none (some unknown_source) named (inl refl)))
      (luau_undump-luau_dump check calls false f z rest h v e)
