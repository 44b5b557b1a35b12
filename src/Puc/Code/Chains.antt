-- ===== src/Puc/Code/Chains.antt =====
-- The lists of jumps of lua-5.1/src/lcode.c as lists of positions: getjump, fixjump and luaK_concat.
pub mod Distinct
pub mod Ends
pub mod Concat
pub mod Patch
pub mod Rounds
pub mod Patchlist
pub mod Need
use zua.Prelude.{
  ℕ, zero, suc, ◌+◌, ◌-◌, ◌≤◌, ◌<◌, ◌≡◌, refl, ◌≢◌, Bool, true, false, List, [], ◌∷◌, ◌++◌, Option,
  none, some, if◌then◌else◌, ltb, ◌==◌, length, get_elem?, set, All, arith, length-append, ap, ◌⊎◌,
  inl, inr, Bool-cases, ltb→lt, lt→ltb,
}
use zua.Prelude.Int.{ℤ, pos, negsuc, pos_part, neg_part, ◌-ℤ◌, ◌≤ℤ◌}
use zua.Puc.Word.{IsWord, get_opcode, getarg_sbx, setarg_sbx, maxarg_sbx}
use zua.Puc.Word.Create.{getarg_sbx-setarg_sbx}
use zua.Puc.Code.State.{FuncState, done, Gen, ◌>>=◌, read, code_at, set_code, pure, raise, within}
use zua.Puc.Code.Jumps.{
  fixjump, set_offset, jump_target, getjump, concat_next, concat_loop, luak_concat,
}
use zua.Puc.Code.Keeps.{IsSound}
use zua.Puc.Code.Keeps.Words.{setarg_sbx-IsWord, found_below}

-- The instruction at `p` links to `next`.
abbrev pub Links : List ℕ → ℕ → Option ℕ → Type 0
Links code p next =
    (w : ℕ) × (get_elem? code p ≡ some w) × IsWord w × (jump_target p (getarg_sbx w) ≡ some next)

-- `list` is the list of the jumps at the given positions, in that order.
abbrev pub Chain : List ℕ → Option ℕ → List ℕ → Type 0
Chain code list [] = list ≡ none
Chain code list (p ∷ ps) =
    (list ≡ some p) × ((next : Option ℕ) × Links code p next × Chain code next ps)

pub read-found :
    (xs : List ℕ) (i w : ℕ) (fs : FuncState) → get_elem? xs i ≡ some w → read xs i fs ≡ done w fs
unfolding read pure
read-found [] i w fs e = cc
read-found (x ∷ xs) zero w fs e = cc
read-found (x ∷ xs) (suc i) w fs e = read-found xs i w fs e

pub get_elem?-set :
    (xs : List ℕ) (i v w : ℕ) → get_elem? xs i ≡ some w → get_elem? (set xs i v) i ≡ some v
get_elem?-set [] i v w e = cc
get_elem?-set (x ∷ xs) zero v w e = refl
get_elem?-set (x ∷ xs) (suc i) v w e = get_elem?-set xs i v w e

pub get_elem?-set_other :
    (xs : List ℕ) (i j v : ℕ) → i ≢ j → get_elem? (set xs i v) j ≡ get_elem? xs j
get_elem?-set_other [] i j v d = refl
get_elem?-set_other (x ∷ xs) zero zero v d = absurd (d refl)
get_elem?-set_other (x ∷ xs) zero (suc j) v d = refl
get_elem?-set_other (x ∷ xs) (suc i) zero v d = refl
get_elem?-set_other (x ∷ xs) (suc i) (suc j) v d =
    get_elem?-set_other xs i j v (λ e. d (omega arith))

-- The offset that fixjump writes.
abbrev offset_to : ℕ → ℕ → ℤ
offset_to p dest = pos dest -ℤ pos (p + 1)

offset-ahead : (p dest : ℕ) → p < dest → offset_to p dest ≡ pos (dest - (p + 1))
offset-ahead p dest h = ground arith

offset-behind : (p dest : ℕ) → dest < p → offset_to p dest ≡ negsuc (suc (p - dest - 1))
offset-behind p dest h = ground arith

ahead_or_behind : (p dest : ℕ) → dest ≢ p → (p < dest) ⊎ (dest < p)
ahead_or_behind p dest d = elim (Bool-cases (ltb dest p)) [
  | inl e ↦ inr (ltb→lt dest p e)
  | inr e ↦ inl (ground arith)
]

jump_target-offset_to :
    (p dest : ℕ) → dest ≢ p → jump_target p (offset_to p dest) ≡ some (some dest)
unfolding jump_target
jump_target-offset_to p dest d = elim (ahead_or_behind p dest d) [
  | inl h ↦ rw (offset-ahead p dest h) (ap (λ (t : ℕ). some (some t)) (omega arith))
  | inr h ↦ rw (offset-behind p dest h) (ground arith)
]

Near-offset_to :
    (p dest : ℕ)
    → p < maxarg_sbx
    → dest < maxarg_sbx
    → dest ≢ p
    → (ltb maxarg_sbx (pos_part (offset_to p dest) + neg_part (offset_to p dest)) ≡ false)
      × (negsuc 131070 ≤ℤ offset_to p dest)
      × (offset_to p dest ≤ℤ pos 131072)
Near-offset_to p dest hp hd d = elim (ahead_or_behind p dest d) [
  | inl h ↦ rw (offset-ahead p dest h) (ground arith, omega arith, omega arith)
  | inr h ↦ rw (offset-behind p dest h) (ground arith, omega arith, omega arith)
]

pub getjump-Links :
    (fs : FuncState) (p : ℕ) (next : Option ℕ) → Links fs.code p next → getjump p fs ≡ done next fs
unfolding getjump ◌>>=◌ code_at within
getjump-Links fs p next (w, e, h, j) = rw (read-found fs.code p w fs e) (rw j refl)

set_offset-found :
    (fs : FuncState) (p w : ℕ) (offset : ℤ)
    → get_elem? fs.code p ≡ some w
    → ltb maxarg_sbx (pos_part offset + neg_part offset) ≡ false
    → set_offset p offset fs ≡ done tt (record fs { code = set fs.code p (setarg_sbx w offset) })
unfolding set_offset ◌>>=◌ code_at set_code
set_offset-found fs p w offset e near = rw near (
    rw (read-found fs.code p w fs e)
      (rw (lt→ltb p (length fs.code) (found_below fs.code p w e)) refl))

-- fixjump on the jump at `p`: it returns, and in the new code, which has changed at `p` only, `p` links to `dest`;
-- the opcode is kept.
pub fixjump-Links :
    (fs : FuncState) (p dest w : ℕ)
    → get_elem? fs.code p ≡ some w
    → IsWord w
    → dest ≢ p
    → p < maxarg_sbx
    → dest < maxarg_sbx
    → (w' : ℕ) × (fixjump p dest fs ≡ done tt (record fs { code = set fs.code p w' }))
      × Links (set fs.code p w') p (some dest)
      × IsWord w'
      × (get_opcode w' ≡ get_opcode w)
unfolding fixjump
fixjump-Links fs p dest w e h d hp hd =
    let (near, lo, hi) = Near-offset_to p dest hp hd d in
    let w' : ℕ = setarg_sbx w (offset_to p dest) in
    let (back, kept, _) = getarg_sbx-setarg_sbx w (offset_to p dest) h lo hi in
    (
      w',
      set_offset-found fs p w (offset_to p dest) e near,
      (
        w',
        get_elem?-set fs.code p w' w e,
        setarg_sbx-IsWord w _ h,
        rw back (jump_target-offset_to p dest d),
      ),
      setarg_sbx-IsWord w _ h,
      kept,
    )
