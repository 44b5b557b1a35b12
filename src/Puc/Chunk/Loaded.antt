-- ===== src/Puc/Chunk/Loaded.antt =====
-- The function that comes back when a chunk is loaded, and the functions that a chunk can hold.
use zua.Prelude.{ℕ, zero, suc, ◌^◌, ◌<◌, ◌≡◌, Bool, true, Option, length, All}
use zua.Puc.Chunk.{TString, ProtoInfo, Proto, Protos, proto, no_protos, more_protos, count_protos}
use zua.Puc.Chunk.Dump.{dumped_source, unless}
use zua.Puc.Chunk.Undump.{or_parent}
use zua.Puc.Chunk.Reads.{IsStored}
use zua.Puc.Chunk.Parts.{IsVector, IsConstant, IsDebug}

-- The source that is left out, since it is the source `p` of the function around it or the chunk is
-- stripped, becomes the source `q` that the function around it was loaded with.
unfoldable pub resolved_source : Bool → ProtoInfo → Option TString → Option TString → Option TString
resolved_source strip f p q = or_parent (dumped_source strip f.source p) q

unfoldable pub resolved_info : Bool → ProtoInfo → Option TString → Option TString → ProtoInfo
unfolding resolved_source
resolved_info strip f p q = record f {
  source = resolved_source strip f p q;
  lineinfo = unless strip f.lineinfo;
  locvars = unless strip f.locvars;
  upvalues = unless strip f.upvalues;
}

unfoldable mutual
  pub resolved : Bool → Proto → Option TString → Option TString → Proto
  resolved strip (proto f ps) p q =
      proto (resolved_info strip f p q)
        (resolved_protos strip ps f.source (resolved_source strip f p q))

  pub resolved_protos : Bool → Protos → Option TString → Option TString → Protos
  resolved_protos strip no_protos p q = no_protos
  resolved_protos strip (more_protos f fs) p q =
      more_protos (resolved strip f p q) (resolved_protos strip fs p q)

-- Each field fits what it has in a chunk.
pub record IsInfo (strip : Bool) (f : ProtoInfo) (p : Option TString) : Type 0 where
  pub source : IsStored (dumped_source strip f.source p)
  pub linedefined : f.linedefined < 2 ^ 31
  pub lastlinedefined : f.lastlinedefined < 2 ^ 31
  pub nups : f.nups < 256
  pub numparams : f.numparams < 256
  pub is_vararg : f.is_vararg < 256
  pub maxstacksize : f.maxstacksize < 256
  pub code : IsVector f.code
  pub few_constants : length f.k < 2 ^ 31
  pub constants : All IsConstant f.k
  pub debug : IsDebug strip f

-- The function and those in it fit the format, are nested in less than `calls` others, and pass the
-- verifier as they are loaded.
module _ (luag_checkcode : Proto → Bool) (strip : Bool) where
  unfoldable mutual
    pub IsLoadable : ℕ → Proto → Option TString → Option TString → Type 0
    IsLoadable zero f p q = ⊥
    IsLoadable (suc calls) (proto f ps) p q =
        IsInfo strip f p
        × (count_protos ps < 2 ^ 31)
        × AreLoadable calls ps f.source (resolved_source strip f p q)
        × (luag_checkcode (resolved strip (proto f ps) p q) ≡ true)

    pub AreLoadable : ℕ → Protos → Option TString → Option TString → Type 0
    AreLoadable calls no_protos p q = Unit
    AreLoadable calls (more_protos f fs) p q = IsLoadable calls f p q × AreLoadable calls fs p q
