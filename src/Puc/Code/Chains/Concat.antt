-- ===== src/Puc/Code/Chains/Concat.antt =====
-- luaK_concat of lua-5.1/src/lcode.c appends lists of jumps.
use zua.Prelude.{
  ℕ, zero, suc, ◌≤◌, ◌<◌, ◌≡◌, refl, ◌∙◌, sym, ◌≢◌, List, [], ◌∷◌, ◌++◌, Option, none, some, length,
  get_elem?, set, length-set, All, arith, append-nil,
}
use zua.Puc.Word.{maxarg_sbx}
use zua.Puc.Code.State.{FuncState, done, ◌>>=◌}
use zua.Puc.Code.Jumps.{getjump, concat_next, concat_loop, luak_concat}
use zua.Puc.Code.Keeps.Words.{found_below}
use zua.Puc.Code.Chains.Distinct.{Distinct, Distinct-length}
use zua.Puc.Code.Chains.{Links, Chain, getjump-Links, fixjump-Links, get_elem?-set_other}

-- Code that agrees with the old one at every position of a list has the same list.
pub Chain-agree :
    (code code' : List ℕ) (list : Option ℕ) (ps : List ℕ)
    → Chain code list ps
    → All (λ p. get_elem? code' p ≡ get_elem? code p) ps
    → Chain code' list ps
Chain-agree code code' list [] c a = c
Chain-agree code code' list (p ∷ ps) (e, (next, (w, found, h, j), c)) (a, rest) =
    (e, (next, (w, a ∙ found, h, j), Chain-agree code code' next ps c rest))

-- The new code differs from the old one at most at the positions `ps`.
abbrev pub Elsewhere : List ℕ → List ℕ → List ℕ → Type 0
Elsewhere code code' ps = (i : ℕ) → All (λ p. i ≢ p) ps → get_elem? code' i ≡ get_elem? code i

All-left : (P : ℕ → Type 0) (xs ys : List ℕ) → All P (xs ++ ys) → All P xs
All-left P [] ys a = tt
All-left P (x ∷ xs) ys (p, a) = (p, All-left P xs ys a)

-- The loop of luaK_concat from the jump at `p`, on code that is short enough for every offset.
concat_loop-Chain :
    (fuel : ℕ) (fs : FuncState) (p : ℕ) (ps : List ℕ) (q : ℕ) (qs : List ℕ)
    → length ps < fuel
    → length fs.code ≤ maxarg_sbx
    → Chain fs.code (some p) (p ∷ ps)
    → Chain fs.code (some q) (q ∷ qs)
    → Distinct ((p ∷ ps) ++ (q ∷ qs))
    → (code' : List ℕ) × (concat_loop fuel p q fs ≡ done tt (record fs { code = code' }))
      × Chain code' (some p) ((p ∷ ps) ++ (q ∷ qs))
      × Elsewhere fs.code code' (p ∷ ps)
      × (length code' ≡ length fs.code)
unfolding concat_loop concat_next ◌>>=◌
concat_loop-Chain zero fs p ps q qs f small c cq d = absurd (omega arith)
concat_loop-Chain (suc fuel) fs p [] q qs f small (e, (next, l, end)) cq ((pq, dq), d) =
    let stop : getjump p fs ≡ done none fs = getjump-Links fs p none (rw (← end) l) in
    let (w', fixed, l', _, _) =
      fixjump-Links fs p q l.0 l.1 l.2 (λ t. pq (sym t)) (below p l) (below q cq.1.1) in
    (
      set fs.code p w',
      rw stop fixed,
      (
        refl,
        (
          some q,
          l',
          Chain-agree fs.code (set fs.code p w') (some q) (q ∷ qs) cq (kept w' (q ∷ qs) (pq, dq)),
        ),
      ),
      (λ i (di, _). get_elem?-set_other fs.code p i w' (λ t. di (sym t))),
      length-set fs.code p w',
    )
  where
    below : (i : ℕ) {n : Option ℕ} → Links fs.code i n → i < maxarg_sbx
    below i (v, found, _, _) = omega (arith, small, found_below fs.code i v found)

    kept :
        (w' : ℕ) (rs : List ℕ)
        → All (λ r. p ≢ r) rs
        → All (λ r. get_elem? (set fs.code p w') r ≡ get_elem? fs.code r) rs
    kept w' [] a = tt
    kept w' (r ∷ rs) (a, b) = (get_elem?-set_other fs.code p r w' a, kept w' rs b)
concat_loop-Chain (suc fuel) fs p (r ∷ ps) q qs f small (e, (next, l, (er, c))) cq (dp, d) =
    let on : getjump p fs ≡ done (some r) fs = getjump-Links fs p (some r) (rw (← er) l) in
    let (code', ran, chain, elsewhere, size) =
      concat_loop-Chain fuel fs r ps q qs (omega arith) small (refl, c) cq d in
    (
      code',
      rw on ran,
      (
        refl,
        (
          some r,
          (l.0, elsewhere p (All-left (λ t. p ≢ t) (r ∷ ps) (q ∷ qs) dp) ∙ l.1, l.2, rw (← er) l.3),
          chain,
        ),
      ),
      (λ i (_, di). elsewhere i di),
      size,
    )

Distinct-left : (xs ys : List ℕ) → Distinct (xs ++ ys) → Distinct xs
Distinct-left [] ys d = tt
Distinct-left (x ∷ xs) ys (p, d) = (All-left (λ t. x ≢ t) xs ys p, Distinct-left xs ys d)

pub Chain-below :
    (code : List ℕ) (list : Option ℕ) (ps : List ℕ)
    → Chain code list ps
    → All (λ p. p < length code) ps
Chain-below code list [] c = tt
Chain-below code list (p ∷ ps) (_, (next, l, c)) =
    (found_below code p l.0 l.1, Chain-below code next ps c)

-- luaK_concat appends: of two lists without a repetition that share no jump, in code of up to 131071 instructions, it returns the
-- list of the first's jumps and then the second's. It changes nothing but the code, and there at most the jumps of
-- the first list. In particular its loop ends.
pub luak_concat-Chain :
    (fs : FuncState) (l1 l2 : Option ℕ) (ps qs : List ℕ)
    → length fs.code ≤ maxarg_sbx
    → Chain fs.code l1 ps
    → Chain fs.code l2 qs
    → Distinct (ps ++ qs)
    → (l : Option ℕ) × (code' : List ℕ) × (luak_concat l1 l2 fs
        ≡ done l (record fs { code = code' }))
      × Chain code' l (ps ++ qs)
      × Elsewhere fs.code code' ps
unfolding luak_concat ◌>>=◌
luak_concat-Chain fs l1 l2 ps [] small c cq d =
    (l1, fs.code, rw cq refl, rw (append-nil ps) c, λ i _. refl)
luak_concat-Chain fs l1 l2 [] (q ∷ qs) small c cq d =
    (l2, fs.code, rw (c, cq.0) refl, cq, λ i _. refl)
luak_concat-Chain fs l1 l2 (p ∷ ps) (q ∷ qs) small (e, c) (eq, cq) d =
    let room : length (p ∷ ps) ≤ length fs.code =
      Distinct-length (length fs.code) (p ∷ ps) (Distinct-left (p ∷ ps) (q ∷ qs) d)
        (Chain-below fs.code l1 (p ∷ ps) (e, c)) in
    let (code', ran, chain, elsewhere, _) =
      concat_loop-Chain (length fs.code) fs p ps q qs (omega arith) small (refl, c) (refl, cq) d in
    (some p, code', rw (e, eq) (rw ran refl), chain, elsewhere)
