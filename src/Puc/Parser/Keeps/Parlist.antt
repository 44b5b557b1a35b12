-- ===== src/Puc/Parser/Keeps/Parlist.antt =====
-- Parameter lists of lua-5.1/src/lparser.c: the parameters are in the frame.
use zua.Prelude.{
  ℕ, zero, suc, ◌+◌, ◌-◌, ◌%◌, ◌≤◌, ◌<◌, ◌≡◌, ◌⊎◌, inl, inr, refl, List, [], ◌∷◌, ltb, Bool-cases,
  ◌==◌, All, arith, bit_and,
}
use zua.Puc.Code.State.{FuncState, Run, done, error}
use zua.Puc.Code.Keeps.{Step, Post as GenPost, returns as gen_returns}
use zua.Puc.Code.Keeps.Emit.{reserveregs-Post}
use zua.Puc.Parser.State.{Func, LexState, Parse, ran, pure, get, top, change, gen, ◌>>=◌, ◌>>◌}
use zua.Puc.Parser.Scope.{start_locvar, start_var, start_vars, adjustlocalvars}
use zua.Puc.Parser.Functions.{set_is_vararg, set_numparams, reserve_params, parlist_names, parlist}
use zua.Puc.Parser.Keeps.{
  IsSoundFunc, Flags, Within, Within-Moves, Moves, Moves-refl, Moves-trans, Post, returns, fails,
  strays, circles, Post-bind, Post-weaken,
}
use zua.Puc.Parser.Keeps.Actions.{act-Post}
use zua.Puc.Parser.Keeps.Updates.{Head, head-Moves, FuncStep, gen-FuncStep, with_lastline-IsSound}
use zua.Puc.Parser.Keeps.Scope.{FuncStep-free}
use zua.Puc.Parser.Keeps.Held.{Holds, Holding, held, none_held, change-Post, IsFree, Holds-pure}
use zua.Puc.Parser.Keeps.Params.{
  Fresh, NoArg, update_locvar-Holding, start_vars-Holds, flags_set, parlist_loop-Post,
}

-- `f` takes no `arg`, if `n` parameters are none.
abbrev Counted : ℕ → Func → Type 0
Counted n f = n ≡ 0 → f.is_vararg ≡ 0

-- `f` takes no `arg`, or has an active variable.
abbrev Active : Func → Type 0
Active f = (f.is_vararg ≡ 0) ⊎ (0 < f.gen.nactvar)

Active-IsFree : IsFree Active
Active-IsFree = record { locals = λ f locvars actvar q. q }

-- The first variable that is started shows that there are as many.
start_var-Active : (n : ℕ) (f : Func) → IsSoundFunc f → Holding Active f (start_var (suc n) f)
unfolding start_var start_locvar
start_var-Active n f h = elim (Bool-cases (ltb f.gen.nactvar (suc n))) [
  | inl few ↦ rw few none_held
  | inr more ↦ rw more (update_locvar-Holding Active-IsFree _ _ f h (inr (ground arith)))
]

hold_after :
    {b d r : ℕ} {H : Func → Type 0} {A : Type 0} (m : Parse A) (ls ls' : LexState)
    → Holds b d r H m
    → Within b d r ls
    → Moves ls ls'
    → Head H ls'.fs
    → Post (λ _ ls''. Moves ls ls'' × Head H ls''.fs) (m ls')
hold_after {b} m ls ls' k h p q =
    Post-weaken (λ _ _ (s, q'). (Moves-trans p s, q'))
      (k.at ls' (Within-Moves {c = b} h p (omega (arith, h.tokens, p.tokens))) q)

-- The variables of the parameters are active.
adjust-Post :
    {b d r : ℕ} (n : ℕ) (ls : LexState)
    → Within b d r ls
    → Head (Counted n) ls.fs
    → Post (λ _ ls'. Moves ls ls' × Head Active ls'.fs) (adjustlocalvars n ls)
unfolding adjustlocalvars start_vars
adjust-Post {b} {d} {r} zero ls h q =
    Post-bind _ (λ _. pure tt) ls
      (change-Post {H' = Active} _
        (λ f s _ q. held (FuncStep-free f _ _ _ _ _ s s.gen.frame) (inl (q refl))) ls h q)
      (λ _ ls' (p, q'). hold_after {r = r} {H = Active} (pure tt) ls ls' (Holds-pure tt) h p q')
adjust-Post {b} {d} {r} (suc n) ls h q =
    Post-bind _ (λ _. change (start_var (suc n)) >> start_vars n) ls
      (change-Post {H' = Counted (suc n)} _
        (λ f s _ q. held (FuncStep-free f _ _ _ _ _ s s.gen.frame) q) ls h q)
      (λ _ ls1 (p, q1).
        Post-bind (change (start_var (suc n))) (λ _. start_vars n) ls1
          (change-Post {r = r} {H = Counted (suc n)} {H' = Active} (start_var (suc n))
            (λ f s _ _. start_var-Active n f s) ls1
            (Within-Moves {c = b} h p (omega (arith, h.tokens, p.tokens))) q1)
          (λ _ ls2 (p', q2).
            hold_after {r = r} {H = Active} (start_vars n) ls ls2 (start_vars-Holds Active-IsFree n)
              h (Moves-trans p p') q2))

flag_le : (v : ℕ) → Flags v → bit_and v 1 ≤ 1
flag_le v (inl (inl e)) = rw e (omega arith)
flag_le v (inl (inr e)) = rw e (omega arith)
flag_le v (inr (inl e)) = rw e (omega arith)
flag_le v (inr (inr e)) = rw e (omega arith)

-- The count of the parameters, `arg` included, is at most that of the active variables.
counted_le :
    (f : Func)
    → Flags f.is_vararg
    → Active f
    → (f.gen.nactvar + 256 - bit_and f.is_vararg 1) % 256 + bit_and f.is_vararg 1 ≤ f.gen.nactvar
counted_le f w (inl e) = rw e (omega arith)
counted_le f w (inr pos) = omega (arith, pos, flag_le f.is_vararg w)

-- The parameters, and `arg`, have their registers.
reserved-FuncStep :
    (f : Func) (lastline : ℕ) (g : FuncState)
    → IsSoundFunc f
    → Active f
    → Step (record f.gen { lastline = lastline }) g
    → g.freereg ≡ f.gen.freereg + f.gen.nactvar
    → FuncStep f
        (record f { gen = g; numparams = (f.gen.nactvar + 256 - bit_and f.is_vararg 1) % 256 })
reserved-FuncStep f lastline g h q p e = record {
  sound = record {
    gen = p.sound;
    blocks = (gen-FuncStep f lastline g h p).sound.blocks;
    params = omega (arith, counted_le f h.flags q, e, p.sound.frame);
    flags = h.flags;
    names = h.names;
    nups = h.nups;
    protos = h.protos;
  };
  frame = p.frame;
}

reserve_at :
    (ls : LexState) (fs : List Func)
    → All IsSoundFunc fs
    → Head Active fs
    → Post (λ _. Moves (record ls { fs = fs })) (reserve_params (record ls { fs = fs }))
unfolding reserve_params set_numparams change top gen ◌>>=◌
reserve_at ls [] h q = strays
reserve_at ls (f ∷ fs) (h, hs) q = made _ (
    reserveregs-Post f.gen.nactvar (record f.gen { lastline = ls.lastline })
      (with_lastline-IsSound f.gen ls.lastline h.gen))
  where
    f1 : Func
    f1 = record f { numparams = (f.gen.nactvar + 256 - bit_and f.is_vararg 1) % 256 }

    made :
        (o : Run (Unit {0}))
        → GenPost
            (λ _ g.
              Step (record f.gen { lastline = ls.lastline }) g
              × (g.freereg ≡ f.gen.freereg + f.gen.nactvar))
            o
        → Post (λ _. Moves (record ls { fs = f ∷ fs })) (ran o f1 fs (record ls { fs = f1 ∷ fs }))
    made (done a g) (gen_returns (p, e)) = returns (
        head-Moves (record ls { fs = f ∷ fs }) f _ fs refl hs
          (reserved-FuncStep f ls.lastline g h q p e))
    made (error x) p = fails
    made Run.stray p = strays
    made Run.cyclic p = circles

reserve_params-Post :
    {b d r : ℕ} (ls : LexState)
    → Within b d r ls
    → Head Active ls.fs
    → Post (λ _. Moves ls) (reserve_params ls)
reserve_params-Post ls h q = reserve_at ls ls.fs h.funcs q

Counted-none : (fs : List Func) → Head NoArg fs → Head (Counted 0) fs
Counted-none [] q = q
Counted-none (f ∷ fs) q = λ _. q.1

Counted-some : (n : ℕ) (fs : List Func) → 0 < n → Head Fresh fs → Head (Counted n) fs
Counted-some n [] pos q = q
Counted-some n (f ∷ fs) pos q = λ e. absurd (omega (arith, e, pos))

Fresh-of : (fs : List Func) → Head NoArg fs → Head Fresh fs
Fresh-of [] q = q
Fresh-of (f ∷ fs) q = q.0

parlist_names-Post :
    (fuel b : ℕ) {d : ℕ} (ls : LexState)
    → b ≤ fuel
    → Within b d 1 ls
    → Head NoArg ls.fs
    → Post (λ n ls'. Moves ls ls' × Head (Counted n) ls'.fs) (parlist_names fuel ls)
unfolding parlist_names get ◌>>=◌ pure
parlist_names-Post fuel b ls le h q =
    act-Post _ _ (ls.t.token == b')') ls (λ _. returns (Moves-refl h, Counted-none ls.fs q))
      (λ _.
        Post-weaken (λ n ls' (s, pos, q'). (s, Counted-some n ls'.fs pos q'))
          (parlist_loop-Post fuel 0 ls
            (Within-Moves {c = fuel} h (Moves-refl h) (omega (arith, h.tokens, le)))
            (Fresh-of ls.fs q)))

-- The parameters of a new function.
pub parlist-Post :
    (fuel b : ℕ) {d : ℕ} (ls : LexState)
    → b ≤ fuel
    → Within b d 1 ls
    → Head Fresh ls.fs
    → Post (λ _. Moves ls) (parlist fuel ls)
unfolding parlist set_is_vararg
parlist-Post fuel b {d} ls le h q =
    Post-bind (set_is_vararg 0) _ ls
      (change-Post {H' = NoArg} _
        (λ f s _ q. held (flags_set 0 f (inl (inl refl)) (omega arith) s q) (q, refl)) ls h q)
      (λ _ ls1 (p, q1).
        let h1 : Within b d 1 ls1 = Within-Moves {c = b} h p (omega (arith, h.tokens, p.tokens)) in
        Post-bind (parlist_names fuel) _ ls1 (parlist_names-Post fuel b ls1 le h1 q1)
          (λ n ls2 (p2, q2).
            let h2 : Within b d 1 ls2 =
              Within-Moves {c = b} h1 p2 (omega (arith, h1.tokens, p2.tokens)) in
            Post-bind (adjustlocalvars n) (λ _. reserve_params) ls2 (adjust-Post n ls2 h2 q2)
              (λ _ ls3 (p3, q3).
                Post-weaken (λ _ _ s. Moves-trans p (Moves-trans p2 (Moves-trans p3 s)))
                  (reserve_params-Post ls3
                    (Within-Moves {c = b} h2 p3 (omega (arith, h2.tokens, p3.tokens))) q3))))
