-- ===== src/Puc/Parser/Keeps/Rules.antt =====
-- The rules of Keeps: what is put together from actions of the parser upholds what they uphold.
use zua.Prelude.{
  ℕ, suc, ◌≤◌, ◌<◌, ◌≡◌, ◌≢◌, ◌∙◌, refl, sym, Bool, true, false, if◌then◌else◌, arith,
}
use zua.Puc.Parser.Tokens.{tk_eos}
use zua.Puc.Parser.State.{LexState, Fault, Parse, pure, raise, lost, get, ◌>>=◌}
use zua.Puc.Parser.Keeps.{
  Within, Moves, Moves-refl, Moves-trans, Within-Moves, Post, returns, fails, strays, Post-bind,
  Post-weaken, Upholds, Stays, Falls, Tests, Here, left,
}

module _ {b d r : ℕ} {A : Type 0} where
  pub Upholds-pure : (a : A) → Upholds b d r (pure a)
  unfolding pure
  Upholds-pure a = record { at = λ ls h. returns (Moves-refl h) }

  pub Upholds-raise : (e : Fault) → Upholds b d r (raise {A = A} e)
  unfolding raise
  Upholds-raise e = record { at = λ ls h. fails }

  pub Upholds-lost : Upholds b d r (lost {A = A})
  unfolding lost
  Upholds-lost = record { at = λ ls h. strays }

  pub Upholds-if :
      (c : Bool) (m n : Parse A)
      → Upholds b d r m
      → Upholds b d r n
      → Upholds b d r (if c then m else n)
  Upholds-if true m n p q = p
  Upholds-if false m n p q = q

  pub Upholds-Stays : (m : Parse A) → Stays b d r m → Upholds b d r m
  Upholds-Stays m p = record { at = λ ls h. Post-weaken (λ _ _ q. q.0) (p.at ls h) }

  pub Stays-pure : (a : A) → Stays b d r (pure a)
  unfolding pure
  Stays-pure a = record { at = λ ls h. returns (Moves-refl h, refl) }

  pub Stays-raise : (e : Fault) → Stays b d r (raise {A = A} e)
  unfolding raise
  Stays-raise e = record { at = λ ls h. fails }

  pub Stays-if :
      (c : Bool) (m n : Parse A) → Stays b d r m → Stays b d r n → Stays b d r (if c then m else n)
  Stays-if true m n p q = p
  Stays-if false m n p q = q

  pub Falls-raise : (e : Fault) → Falls b d r (raise {A = A} e)
  unfolding raise
  Falls-raise e = record { at = λ ls h t. fails }

  pub Falls-if :
      (c : Bool) (m n : Parse A) → Falls b d r m → Falls b d r n → Falls b d r (if c then m else n)
  Falls-if true m n p q = p
  Falls-if false m n p q = q

  -- Fewer tokens, and more registers.
  pub Upholds-weaken : (c s : ℕ) (m : Parse A) → c ≤ b → r ≤ s → Upholds b d r m → Upholds c d s m
  Upholds-weaken c s m le le' p = record {
    at = λ ls h. p.at ls (record {
      funcs = h.funcs;
      tokens = omega (arith, h.tokens);
      levels = h.levels;
      height = h.height;
      base = omega (arith, h.base);
    });
  }

  pub Here-Upholds : (t : ℕ) (m : Parse A) → Upholds b d r m → Here b d r t m
  Here-Upholds t m p = record { at = λ ls h e. p.at ls h }

pub Upholds-get : {b d r : ℕ} → Upholds b d r get
unfolding get
Upholds-get = record { at = λ ls h. returns (Moves-refl h) }

-- A branch that is not taken at the end of the stream takes a token.
pub Here-if :
    {b d r : ℕ} {A : Type 0} (t : ℕ) (c : Bool) (m n : Parse A)
    → (c ≡ true → t ≢ tk_eos)
    → Falls b d r m
    → Here (suc b) d r t n
    → Here (suc b) d r t (if c then m else n)
Here-if t true m n ok p q = record {
  at = λ ls h e. Post-weaken (λ _ _ s. s.0) (p.at ls h (λ z. ok refl (sym e ∙ z)));
}
Here-if t false m n ok p q = q

pub Here-else :
    {b d r : ℕ} {A : Type 0} (t : ℕ) (c : Bool) (m n : Parse A)
    → (c ≡ false → t ≢ tk_eos)
    → Here (suc b) d r t m
    → Falls b d r n
    → Here (suc b) d r t (if c then m else n)
Here-else t true m n ok p q = p
Here-else t false m n ok p q = record {
  at = λ ls h e. Post-weaken (λ _ _ s. s.0) (q.at ls h (λ z. ok refl (sym e ∙ z)));
}

module _ {b d r : ℕ} {A B : Type 0} where
  after-Moves :
      (g : A → Parse B) (ls : LexState)
      → Within b d r ls
      → ((a : A) → Upholds b d r (g a))
      → (a : A) (ls' : LexState) → Moves ls ls'
      → Post (λ _. Moves ls) (g a ls')
  after-Moves g ls h k a ls' p =
      Post-weaken (λ _ _. Moves-trans p)
        ((k a).at ls' (Within-Moves h p (omega (arith, h.tokens, p.tokens))))

  pub Upholds-bind :
      (m : Parse A) (g : A → Parse B)
      → Upholds b d r m
      → ((a : A) → Upholds b d r (g a))
      → Upholds b d r (m >>= g)
  Upholds-bind m g p k = record { at = λ ls h. Post-bind m g ls (p.at ls h) (after-Moves g ls h k) }

  pub Stays-bind :
      (m : Parse A) (g : A → Parse B)
      → Stays b d r m
      → ((a : A) → Stays b d r (g a))
      → Stays b d r (m >>= g)
  Stays-bind m g p k = record {
    at = λ ls h. Post-bind m g ls (p.at ls h) (λ a ls' (q, e).
        Post-weaken (λ _ _ (s, e'). (Moves-trans q s, e' ∙ e))
          ((k a).at ls' (Within-Moves h q (omega (arith, h.tokens, q.tokens)))));
  }

  pub Falls-then :
      (m : Parse A) (g : A → Parse B)
      → Falls b d r m
      → ((a : A) → Upholds b d r (g a))
      → Falls b d r (m >>= g)
  Falls-then m g p k = record {
    at = λ ls h t. Post-bind m g ls (p.at ls h t) (λ a ls' (q, less).
        Post-weaken (λ _ _ s. (Moves-trans q s, omega (arith, less, s.tokens)))
          ((k a).at ls' (Within-Moves h q (omega (arith, h.tokens, less)))));
  }

  pub Falls-after :
      (m : Parse A) (g : A → Parse B)
      → Stays (suc b) d r m
      → ((a : A) → Falls b d r (g a))
      → Falls b d r (m >>= g)
  Falls-after m g p k = record {
    at = λ ls h t. Post-bind m g ls (p.at ls h) (λ a ls' (q, e).
        Post-weaken (λ _ _ (s, less). (Moves-trans q s, omega (arith, less, q.tokens)))
          ((k a).at ls' (Within-Moves h q (omega (arith, h.tokens, q.tokens)))
            (λ z. t (sym e ∙ z))));
  }

module _ {b d r : ℕ} {A : Type 0} where
  pub Upholds-here :
      (g : LexState → Parse A)
      → ((ls : LexState) → Here b d r ls.t.token (g ls))
      → Upholds b d r (get >>= g)
  unfolding get ◌>>=◌
  Upholds-here g k = record { at = λ ls h. (k ls).at ls h refl }

  pub Falls-get :
      (g : LexState → Parse A) → ((ls : LexState) → Falls b d r (g ls)) → Falls b d r (get >>= g)
  unfolding get ◌>>=◌
  Falls-get g k = record { at = λ ls h t. (k ls).at ls h t }

  pub Tests-bind :
      (m : Parse A) (g : A → Parse Bool)
      → Upholds (suc b) d r m
      → ((a : A) → Tests b d r (g a))
      → Tests b d r (m >>= g)
  Tests-bind m g p k = record {
    at = λ ls h. Post-bind m g ls (p.at ls h) (λ a ls' q.
        Post-weaken (λ _ _ (s, less). (Moves-trans q s, λ e. omega (arith, less e, q.tokens)))
          ((k a).at ls' (Within-Moves h q (omega (arith, h.tokens, q.tokens)))));
  }

  -- A round of a loop whose test takes a token.
  pub Upholds-round :
      (n : Parse Bool) (m k : Parse A)
      → Tests b d r n
      → Upholds b d r m
      → Upholds (suc b) d r k
      → Upholds (suc b) d r (n >>= λ more. if more then m else k)
  Upholds-round n m k p q s = record {
    at = λ ls h. Post-bind n _ ls (p.at ls h) (λ more ls' (t, less). round more ls ls' h t less);
  }
    where
      round :
          (more : Bool) (ls ls' : LexState)
          → Within (suc b) d r ls
          → Moves ls ls'
          → (more ≡ true → left ls' < left ls)
          → Post (λ _. Moves ls) ((if more then m else k) ls')
      round true ls ls' h t less =
          Post-weaken (λ _ _. Moves-trans t)
            (q.at ls' (Within-Moves h t (omega (arith, h.tokens, less refl))))
      round false ls ls' h t less =
          Post-weaken (λ _ _. Moves-trans t)
            (s.at ls' (Within-Moves h t (omega (arith, h.tokens, t.tokens))))

module _ {b d r : ℕ} where
  pub Tests-false : Tests b d r (pure false)
  unfolding pure
  Tests-false = record { at = λ ls h. returns (Moves-refl h, λ e. cc) }

  pub Tests-raise : (e : Fault) → Tests b d r (raise e)
  unfolding raise
  Tests-raise e = record { at = λ ls h. fails }

  pub Tests-if :
      (c : Bool) (m n : Parse Bool)
      → Tests b d r m
      → Tests b d r n
      → Tests b d r (if c then m else n)
  Tests-if true m n p q = p
  Tests-if false m n p q = q

pub ruleset upholds_rules =
    (Upholds-pure, Upholds-raise, Upholds-lost, Upholds-get, Upholds-if, Upholds-bind)

pub ruleset stays_rules = (Stays-pure, Stays-raise, Stays-if, Stays-bind)

pub ruleset falls_rules = (Falls-raise, Falls-if, Falls-get, Falls-then, Falls-after)
