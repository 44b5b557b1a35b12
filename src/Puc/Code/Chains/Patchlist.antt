-- ===== src/Puc/Code/Chains/Patchlist.antt =====
-- luaK_patchlist of lua-5.1/src/lcode.c sets the target of every jump of a list.
use zua.Prelude.{
  ℕ, zero, suc, ◌≤◌, ◌<◌, ◌≡◌, refl, ◌∙◌, sym, ◌≢◌, false, List, [], ◌∷◌, Option, some, length,
  get_elem?, All, arith, ◌==◌, inl,
}
use zua.Puc.Word.{maxarg_sbx}
use zua.Puc.Opmodes.{op_jmp, opcode_number}
use zua.Puc.Checker.{no_reg}
use zua.Puc.Code.State.{FuncState, done, ◌>>=◌}
use zua.Puc.Code.Jumps.{patchlistaux_loop, patchlistaux, luak_patchlist}
use zua.Puc.Code.Chains.Ends.{Chain-Distinct}
use zua.Puc.Code.Chains.Distinct.{Distinct, Distinct-length}
use zua.Puc.Code.Chains.{Links, Chain}
use zua.Puc.Code.Chains.Concat.{Chain-agree, Chain-below}
use zua.Puc.Code.Chains.Patch.{
  HasOpcode, IsJump, jump_at, Patched, Patched-trans, IsJump-Patched, jmp-Patched,
}
use zua.Puc.Code.Chains.Rounds.{Round, Round-ran}

-- Jumps that do not stand at `dest`.
abbrev pub Jumps : List ℕ → ℕ → List ℕ → Type 0
Jumps code dest ps = All (λ p. IsJump code p × (dest ≢ p)) ps

Jumps-Patched :
    (code code' : List ℕ) (dest : ℕ) (ps : List ℕ)
    → Patched code code'
    → Jumps code dest ps
    → Jumps code' dest ps
Jumps-Patched code code' dest [] k h = tt
Jumps-Patched code code' dest (p ∷ ps) k ((j, d), h) =
    ((IsJump-Patched code code' p k j, d), Jumps-Patched code code' dest ps k h)

-- The jumps other than the one of a round are as they were.
agree :
    (code code' : List ℕ) (p dest : ℕ) (ps : List ℕ)
    → Round code code' p dest
    → All (λ q. p ≢ q) ps
    → Jumps code dest ps
    → All (λ q. get_elem? code' q ≡ get_elem? code q) ps
agree code code' p dest [] r d h = tt
agree code code' p dest (q ∷ ps) r (d, ds) ((j, _), h) =
    (r.3 q (λ t. d (sym t)) (jump_at code q j), agree code code' p dest ps r ds h)

-- After the loop: every jump of the list goes to `dest`, and the other jumps are as they were.
abbrev pub Set : List ℕ → List ℕ → List ℕ → ℕ → Type 0
Set code code' ps dest =
    All (λ p. Links code' p (some dest)) ps
    × Patched code code'
    × (length code' ≡ length code)
    × ((i : ℕ)
        → All (λ p. i ≢ p) ps
        → HasOpcode code i (opcode_number op_jmp)
        → get_elem? code' i ≡ get_elem? code i)

patchlistaux_loop-Set :
    (fuel : ℕ) (fs : FuncState) (list : Option ℕ) (ps : List ℕ) (dest : ℕ)
    → length ps ≤ fuel
    → Chain fs.code list ps
    → Distinct ps
    → Jumps fs.code dest ps
    → length fs.code ≤ maxarg_sbx
    → dest < maxarg_sbx
    → (code' : List ℕ) × (patchlistaux_loop fuel list dest no_reg (some dest) fs
        ≡ done tt (record fs { code = code' }))
      × Set fs.code code' ps dest
unfolding patchlistaux_loop ◌>>=◌
patchlistaux_loop-Set zero fs list [] dest room c d h small hd =
    (fs.code, rw c refl, (tt, (λ i o h. (o, h, inl refl)), refl, λ i _ _. refl))
patchlistaux_loop-Set (suc fuel) fs list [] dest room c d h small hd =
    (fs.code, rw c refl, (tt, (λ i o h. (o, h, inl refl)), refl, λ i _ _. refl))
patchlistaux_loop-Set zero fs list (p ∷ ps) dest room c d h small hd = absurd (omega arith)
patchlistaux_loop-Set (suc fuel) fs list (p ∷ ps) dest room (e, (next, l, c)) (dp, d)
      ((j, other), h) small hd =
    let (code1, ran, round) = Round-ran fuel fs p next dest l j other small hd in
    let (links, patched, size, kept) = round in
    let (code', rest, (all, patched', size', kept')) =
      patchlistaux_loop-Set fuel (record fs { code = code1 }) next ps dest (omega arith)
        (Chain-agree fs.code code1 next ps c (agree fs.code code1 p dest ps round dp h)) d
        (Jumps-Patched fs.code code1 dest ps patched h) (omega arith) hd in
    (
      code',
      rw e (ran ∙ rest),
      (
        (
          (
            links.0,
            kept' p dp (jmp-Patched fs.code code1 p patched (jump_at fs.code p j)) ∙ links.1,
            links.2,
            links.3,
          ),
          all,
        ),
        Patched-trans fs.code code1 code' patched patched',
        size' ∙ size,
        λ i (o, os) hi. kept' i os (jmp-Patched fs.code code1 i patched hi) ∙ kept i o hi,
      ),
    )

-- luaK_patchlist on a list of JMPs that ends, each of them at the start or behind an instruction of the
-- machine, for a target before `pc` at which none of them stands, in code of up to 131071 instructions: it returns,
-- and every jump of the list then goes to the target. Only the code changes. All other JMPs are as they
-- were, and no instruction gets another opcode, except that a TESTSET may become a TEST.
pub luak_patchlist-Set :
    (fs : FuncState) (list : Option ℕ) (ps : List ℕ) (target : ℕ)
    → target < fs.pc
    → target < maxarg_sbx
    → length fs.code ≤ maxarg_sbx
    → Chain fs.code list ps
    → Jumps fs.code target ps
    → (code' : List ℕ) × (luak_patchlist list target fs ≡ done tt (record fs { code = code' }))
      × Set fs.code code' ps target
unfolding luak_patchlist ◌>>=◌ patchlistaux
luak_patchlist-Set fs list ps target before near small c h =
    let d : Distinct ps = Chain-Distinct fs.code list ps c in
    let room : length ps ≤ length fs.code =
      Distinct-length (length fs.code) ps d (Chain-below fs.code list ps c) in
    let (code', ran, set) =
      patchlistaux_loop-Set (length fs.code) fs list ps target room c d h small near in
    let off : (target == fs.pc) ≡ false = ground arith in (code', rw off ran, set)
