-- ===== src/Puc/Parser/Keeps/Blocks.antt =====
-- Blocks and the registers that are freed in lua-5.1/src/lparser.c: what their operations uphold.
use mathlib.Core.Path.{subst}
use zua.Prelude.{
  ℕ, ◌≤◌, ◌≡◌, refl, Bool, true, false, List, [], ◌∷◌, some, ◌==◌, if◌then◌else◌, All, arith,
}
use zua.Puc.Opmodes.{op_close}
use zua.Puc.Code.Jumps.{luak_patchtohere}
use zua.Puc.Code.Emit.{luak_codeabc}
use zua.Puc.Code.Keeps.Jumps.{luak_patchtohere-Keeps}
use zua.Puc.Code.Keeps.Emit.{luak_codeabc-Keeps}
use zua.Puc.Parser.State.{
  BlockCnt, Func, LexState, Parse, pure, lost, ◌>>=◌, ◌>>◌, continue, gen, change, top, top_of,
}
use zua.Puc.Parser.Scope.{close_block, leaveblock, lua_assert, set_freereg}
use zua.Puc.Parser.Keeps.{IsSoundFunc, frame_of, Within, Moves, Post, strays, Upholds}
use zua.Puc.Parser.Keeps.Rules.{upholds_rules, Upholds-bind, Upholds-pure, Upholds-lost}
use zua.Puc.Parser.Keeps.Updates.{changed, change-Upholds, gen-Upholds, top-Upholds}
use zua.Puc.Parser.Keeps.Scope.{removevars-Upholds, set_freereg-Upholds}

module _ {b d r : ℕ} {A : Type 0} where
  -- The function that is parsed is sound, and its frame is at hand.
  pub Upholds-top :
      (g : Func → Parse A)
      → ((f : Func) → IsSoundFunc f → Upholds b d f.gen.maxstacksize (g f))
      → Upholds b d r (top >>= g)
  unfolding top ◌>>=◌
  Upholds-top g k = record { at = λ ls h. at_head ls ls.fs h refl }
    where
      at_head :
          (ls : LexState) (fs : List Func)
          → Within b d r ls
          → ls.fs ≡ fs
          → Post (λ _. Moves ls) (continue (top_of fs ls) g)
      at_head ls [] h e = strays
      at_head ls (f ∷ fs) h e =
          let s : All IsSoundFunc (f ∷ fs) = subst (All IsSoundFunc) e h.funcs in
          let w : f.gen.maxstacksize ≤ frame_of ls.fs = rw e (omega arith) in
          (k f s.0).at ls (record {
            funcs = h.funcs;
            tokens = h.tokens;
            levels = h.levels;
            height = h.height;
            base = w;
          })

  pub Upholds-assert :
      (c : Bool) (k : Parse A) → (c ≡ true → Upholds b d r k) → Upholds b d r (lua_assert c >> k)
  unfolding lost ◌>>=◌
  Upholds-assert true k h = Upholds-bind _ _ (Upholds-pure tt) (λ _. h refl)
  Upholds-assert false k h = record { at = λ ls _. strays }

blocks_below :
    (n m : ℕ) (bl : List BlockCnt)
    → n ≤ m
    → All (λ (b : BlockCnt). b.nactvar ≤ n) bl
    → All (λ (b : BlockCnt). b.nactvar ≤ m) bl
blocks_below n m [] le h = tt
blocks_below n m (b ∷ bl) le (h, hs) = (omega (arith, le, h), blocks_below n m bl le hs)

module _ {b d r : ℕ} where
  set_blocks-Upholds :
      (bl : List BlockCnt)
      → All (λ (b : BlockCnt). b.nactvar ≤ r) bl
      → Upholds b d r (change (λ f. some (record f { bl = bl })))
  set_blocks-Upholds bl hs = change-Upholds _ (λ f h room. changed (record {
    sound = record {
      gen = h.gen;
      blocks = blocks_below r f.gen.maxstacksize bl room hs;
      params = h.params;
      flags = h.flags;
      names = h.names;
      nups = h.nups;
      protos = h.protos;
    };
    frame = omega arith;
  }))

  close_upvalues-Upholds :
      (c : Bool) (n : ℕ)
      → Upholds b d r (if c then (do _ ← gen (luak_codeabc op_close n 0 0); pure tt) else pure tt)
  close_upvalues-Upholds c n = search (upholds_rules, gen-Upholds, luak_codeabc-Keeps) depth 15

  -- The registers of the block are freed down to the variables that were active before it.
  freed-Upholds :
      (block : BlockCnt)
      → block.nactvar ≤ r
      → Upholds b d r (do
        f ← top
        lua_assert (block.nactvar == f.gen.nactvar)
        set_freereg f.gen.nactvar
        gen (luak_patchtohere block.breaklist))
  freed-Upholds block le = Upholds-bind _ _ top-Upholds (λ f.
      Upholds-assert (block.nactvar == f.gen.nactvar) _ (λ e.
        Upholds-bind _ _ (set_freereg-Upholds f.gen.nactvar (ground arith))
          (λ _. gen-Upholds _ (luak_patchtohere-Keeps block.breaklist))))

  close_block-Upholds :
      (bl : List BlockCnt)
      → All (λ (b : BlockCnt). b.nactvar ≤ r) bl
      → Upholds b d r (close_block bl)
  close_block-Upholds [] h = Upholds-lost
  close_block-Upholds (block ∷ bl) (h, hs) = Upholds-bind _ _ (set_blocks-Upholds bl hs) (λ _.
      Upholds-bind _ _ (removevars-Upholds block.nactvar) (λ _.
        Upholds-bind _ _ (close_upvalues-Upholds block.upval block.nactvar)
          (λ _. Upholds-assert _ _ (λ _. freed-Upholds block h))))

module _ {b d r : ℕ} where
  pub leaveblock-Upholds : Upholds b d r leaveblock
  unfolding leaveblock
  leaveblock-Upholds = Upholds-top _ (λ f h. close_block-Upholds f.bl h.blocks)
