-- ===== src/Puc/Code/Keeps/Places.antt =====
-- Registers that lua-5.1/src/lcode.c leaves a value in lie in the frame of the function.
use zua.Prelude.{ℕ, suc, ◌+◌, ◌-◌, ◌≤◌, ◌<◌, arith}
use zua.Puc.Code.State.{FuncState, ExpDesc, vnonreloc, Numbers, Gen, pure, get, ◌>>=◌, ◌>>◌}
use zua.Puc.Opmodes.{op_self}
use zua.Puc.Code.Emit.{luak_codeabc, luak_reserveregs, freeexp}
use zua.Puc.Code.Exps.{exp2reg, luak_exp2nextreg, luak_exp2rk, luak_self}
use zua.Puc.Code.Keeps.{
  IsSound, Step, Step-refl, Step-trans, Post, Post-bind, Post-weaken, returns, Keeps,
}
use zua.Puc.Code.Keeps.Emit.{reserveregs-Post, freeexp-Keeps}
use zua.Puc.Code.Keeps.Exps.{
  emit_keeps, luak_dischargevars-Keeps, discharge2reg-Keeps, join_jump-Keeps, load_bools-Keeps,
  luak_exp2anyreg-Keeps, luak_exp2rk-Keeps,
}

-- From a frame of at least `r` registers `m` leads to one of at least `n` of its result.
pub record Places (r : ℕ) {A : Type 0} (n : A → ℕ) (m : Gen A) : Type 0 where
  pub at :
      (fs : FuncState)
      → IsSound fs
      → r ≤ fs.maxstacksize
      → Post (λ a fs'. Step fs fs' × (n a ≤ fs'.maxstacksize)) (m fs)

Places-pure : {r : ℕ} {A : Type 0} {n : A → ℕ} (a : A) → n a ≤ r → Places r n (pure a)
unfolding pure
Places-pure a le = record { at = λ fs h room. returns (Step-refl h, omega (arith, le, room)) }

module _ {A B : Type 0} {n : B → ℕ} {r : ℕ} where
  Places-bind :
      (m : Gen A) (g : A → Gen B) → Keeps m → ((a : A) → Places r n (g a)) → Places r n (m >>= g)
  Places-bind m g k p = record {
    at = λ fs h room. Post-bind m g fs (k.at fs h) (λ a fs' s.
        Post-weaken (λ _ _ (t, q). (Step-trans s t, q))
          ((p a).at fs' s.sound (omega (arith, room, s.frame))));
  }

module _ {B : Type 0} {n : B → ℕ} {r : ℕ} where
  -- After the reservation.
  Places-reserved :
      (c : ℕ) (g : FuncState → Gen B)
      → ((fs : FuncState) → c ≤ fs.freereg → Places fs.freereg n (g fs))
      → Places r n (luak_reserveregs c >>= λ _. get >>= g)
  unfolding get ◌>>=◌
  Places-reserved c g p = record {
    at = λ fs h room. Post-bind (luak_reserveregs c) _ fs (reserveregs-Post c fs h) (λ _ fs' (s, e).
        Post-weaken (λ _ _ (t, q). (Step-trans s t, q))
          ((p fs' (omega (arith, e))).at fs' s.sound s.sound.frame));
  }

  -- Before it.
  Places-reserve :
      (c : ℕ) (g : FuncState → Gen B)
      → ((fs : FuncState) → Places (fs.freereg + c) n (g fs))
      → Places r n (get >>= λ fs. luak_reserveregs c >>= λ _. g fs)
  unfolding get ◌>>=◌
  Places-reserve c g p = record {
    at = λ fs h room. Post-bind (luak_reserveregs c) _ fs (reserveregs-Post c fs h) (λ _ fs' (s, e).
        Post-weaken (λ _ _ (t, q). (Step-trans s t, q))
          ((p fs).at fs' s.sound (omega (arith, e, s.sound.frame))));
  }

module _ (num : Numbers) where
  exp2reg-Places :
      (e : ExpDesc) (reg r : ℕ)
      → reg < r
      → Places r (λ (e : ExpDesc). suc e.info) (exp2reg num e reg)
  unfolding exp2reg
  exp2reg-Places e reg r le =
      search
        (
          Places-bind, Places-pure, emit_keeps, discharge2reg-Keeps, join_jump-Keeps,
          load_bools-Keeps,
        )
        depth 30

  pub luak_exp2nextreg-Places :
      (e : ExpDesc) {r : ℕ} → Places r (λ (e : ExpDesc). suc e.info) (luak_exp2nextreg num e)
  unfolding luak_exp2nextreg
  luak_exp2nextreg-Places e = Places-bind _ _ (luak_dischargevars-Keeps e) (λ e.
      Places-bind _ _ (freeexp-Keeps e) (λ _.
        Places-reserved 1 _ (λ fs le. exp2reg-Places e (fs.freereg - 1) fs.freereg (omega arith))))

  pub luak_self-Places :
      (e key : ExpDesc) {r : ℕ} → Places r (λ (e : ExpDesc). suc e.info) (luak_self num e key)
  unfolding luak_self
  luak_self-Places e key = Places-bind _ _ (luak_exp2anyreg-Keeps num e) (λ (e, _).
      Places-bind _ _ (freeexp-Keeps e) (λ _. Places-reserve 2 _ (λ fs. operands e fs.freereg)))
    where
      operands :
          (e : ExpDesc) (func : ℕ)
          → Places
              (func + 2)
              (λ (e : ExpDesc). suc e.info)
              (do
                (key, rk) ← luak_exp2rk num key
                _ ← luak_codeabc op_self func e.info rk
                freeexp key
                pure (record e { info = func; k = vnonreloc }))
      operands e func =
          let le : suc func ≤ func + 2 = omega arith in
          search (Places-bind, Places-pure, emit_keeps, luak_exp2rk-Keeps) depth 30
