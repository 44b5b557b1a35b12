-- ===== src/Puc/Chunk/Reads.antt =====
-- The loader of lua-5.1/src/lundump.c step by step: which bytes a step reads, off any stream.
use zua.Prelude.{
  ℕ, suc, ◌+◌, ◌%◌, ◌^◌, ◌<◌, ◌≡◌, refl, sym, ap, ◌∙◌, Bool, false, List, [], ◌∷◌, ◌++◌,
  append_assoc, Option, none, some, length, take, drop, length-append, take-append_length,
  drop-append_length, arith,
}
use zua.Puc.Zio.{Zio}
use zua.Puc.Zio.Content.{IsValid, content}
use native.Mathlib.Numerals.{add-one}
use zua.Puc.Zio.Read.{Delivered, all, short, luaz_read-Delivered}
use zua.Puc.Chunk.{TString}
use zua.Puc.Chunk.Bytes.{to_le, from_le, from_le-to_le, length-to_le}
use zua.Puc.Chunk.Format.{string_bytes}
use zua.Puc.Chunk.Undump.{
  Outcome, Error, ok, err, stuck, Loader, ◌>>◌, ◌>>=◌, pure, error_if, checked_read, load_block,
  load_char, load_int, load_number, load_sized, load_string,
}

-- The loader returns `a`, and leaves a valid stream of the rest.
pub data Loaded {ℓ} {A : Type ℓ} (a : A) (rest : List ℕ) : Outcome A → Type ℓ where
  loaded : {z : Zio} → IsValid z → content z ≡ rest → Loaded a rest (ok a z)

-- Off any valid stream that starts with the bytes `bs`, `m` reads these and returns `a`.
pub record Reads {ℓ} {A : Type ℓ} (m : Loader A) (bs : List ℕ) (a : A) : Type ℓ where
  pub run : (z : Zio) (rest : List ℕ) → IsValid z → content z ≡ bs ++ rest → Loaded a rest (m z)

Loaded-bind {ℓ κ} :
    {A : Type ℓ} {B : Type κ} {a : A} {b : B} {bs rest : List ℕ} {o : Outcome A} (f : A → Loader B)
    → Loaded a (bs ++ rest) o
    → Reads (f a) bs b
    → Loaded b rest (elim o [ ok a z' ↦ f a z' | err e ↦ err e | stuck ↦ stuck ])
Loaded-bind {rest = rest} f (loaded {z} v e) h = h.run z rest v e

-- One step after another.
pub bind {ℓ κ} :
    {A : Type ℓ} {B : Type κ} {a : A} {b : B} {bs cs : List ℕ} {m : Loader A} (f : A → Loader B)
    → Reads m bs a
    → Reads (f a) cs b
    → Reads (m >>= f) (bs ++ cs) b
bind {bs = bs} {cs = cs} f hm hf = record {
  run = λ z rest v e. Loaded-bind f (hm.run z (cs ++ rest) v (e ∙ append_assoc bs cs rest)) hf;
}

pub done {ℓ} : {A : Type ℓ} {a : A} → Reads (pure a) [] a
done = record { run = λ z rest v e. loaded v e }

-- The last step, whose result is the value.
pub last {ℓ κ} :
    {A : Type ℓ} {B : Type κ} {a : A} {b : B} {bs : List ℕ} {m : Loader A} (f : A → Loader B)
    → Reads m bs a
    → Reads (f a) [] b
    → Reads (m >>= f) bs b
last f hm hf = record { run = λ z rest v e. Loaded-bind f (hm.run z rest v e) hf }

-- A test that passes.
pub passed {ℓ} :
    {A : Type ℓ} {a : A} {bs : List ℕ} {m : Loader A} {c : Bool} (e : Error)
    → c ≡ false
    → Reads m bs a
    → Reads (error_if c e >> m) bs a
passed e h hm = record { run = λ z rest v e. rw h (hm.run z rest v e) }

pub block : (bs : List ℕ) (n : ℕ) → n ≡ length bs → Reads (load_block n) bs bs
unfolding load_block
block bs n h = record { run = λ z rest v e. read z rest e (luaz_read-Delivered z n v) }
  where
    read :
        (z : Zio) (rest : List ℕ)
        → content z ≡ bs ++ rest
        → {o : Option (List ℕ × ℕ × Zio)} → Delivered z [] n o
        → Loaded bs rest (checked_read o)
    read z rest e (all {bs = bs'} {z' = z'} fits eb em v' ec) =
        let same : bs' ≡ bs = eb ∙ ap (take n) e ∙ take-append_length bs rest n h in
        let left : content z' ≡ rest = ec ∙ ap (drop n) e ∙ drop-append_length bs rest n h in
        rw (em, same) (loaded v' left)
    read z rest e (short s eb em) = absurd (omega (arith, ap length e, length-append bs rest))

pub char : (x : ℕ) → x < 256 → Reads load_char ((x % 256) ∷ []) x
unfolding load_char from_le
char x h =
    last _ (block ((x % 256) ∷ []) 1 refl) (let e : x % 256 + 0 ≡ x = omega arith in rw e done)

pub number_lem : (x : ℕ) → x < 2 ^ 64 → Reads load_number (to_le 8 x) x
unfolding load_number
number_lem x h =
    last _ (block (to_le 8 x) 8 (sym (length-to_le 8 x))) (rw (from_le-to_le 8 x h) done)

pub int : (x : ℕ) → x < 2 ^ 31 → Reads load_int (to_le 4 x) x
unfolding load_int
int x h =
    last _ (block (to_le 4 x) 4 (sym (length-to_le 4 x)))
      (rw (from_le-to_le 4 x (omega arith)) (passed _ (ground arith) done))

-- The strings whose size, with the closing 0, is a `size_t`.
abbrev pub IsStored : Option TString → Type 0
IsStored none = Unit
IsStored (some s) = length s + 1 < 2 ^ 64

pub string_lem : (s : Option TString) → IsStored s → Reads load_string (string_bytes s) s
unfolding load_string string_bytes load_sized
string_lem none h =
    last _ (block (to_le 8 0) 8 (sym (length-to_le 8 0)))
      (rw (from_le-to_le 8 0 (omega arith)) done)
string_lem (some s) h = bind _ (block (to_le 8 (length s + 1)) 8 (sym (length-to_le 8 _))) (
    rw (from_le-to_le 8 (length s + 1) h, add-one)
      (last _ (block (s ++ 0 ∷ []) (suc (length s)) (omega (arith, length-append s (0 ∷ []))))
        (rw (take-append_length s (0 ∷ []) (length s) refl) done)))
