-- ===== src/Puc/Parser/Keeps/Actions.antt =====
-- What the basic actions of the parser of lua-5.1/src/lparser.c on tokens uphold.
use zua.Prelude.{
  ℕ, ◌≤◌, ◌<◌, ◌≡◌, ◌≢◌, refl, ap, Bool, true, false, List, [], ◌∷◌, ◌==◌, if◌then◌else◌, length,
  arith,
}
use zua.Puc.Parser.Tokens.{Lexeme, lexeme, malformed, tk_eos}
use zua.Puc.Parser.State.{
  Func, LexState, Parse, lex, top_of, Outcome, top, luax_next, luax_lookahead, testnext, check,
  checknext, check_match, str_checkname, pure, raise, get, ◌>>=◌,
}
use zua.Puc.Parser.Keeps.{
  Grows-refl, weight, left, Within, Moves, Moves-refl, Post, returns, fails, strays, Post-bind,
  Post-weaken, Upholds, Stays, Falls, Tests,
}
use zua.Puc.Parser.Keeps.Rules.{upholds_rules, falls_rules, Upholds-Stays}

weight-le : (t : ℕ) → weight t ≤ 1
weight-le t = ground arith

weight_one : (t : ℕ) → t ≢ tk_eos → weight t ≡ 1
weight_one t h = ground arith

weight_zero : (t : ℕ) → (t == tk_eos) ≡ true → weight t ≡ 0
weight_zero t h = ground arith

if-Post :
    {A : Type 0} {P : A → LexState → Type 0} {o o' : Outcome A} (c : Bool)
    → (c ≡ true → Post P o)
    → (c ≡ false → Post P o')
    → Post P (if c then o else o')
if-Post true h h' = h refl
if-Post false h h' = h' refl

pub act-Post :
    {A : Type 0} {P : A → LexState → Type 0} (m n : Parse A) (c : Bool) (ls : LexState)
    → (c ≡ true → Post P (m ls))
    → (c ≡ false → Post P (n ls))
    → Post P ((if c then m else n) ls)
act-Post m n true ls h h' = h refl
act-Post m n false ls h h' = h' refl

-- What luaX_next does from `ls`.
abbrev pub Takes : LexState → LexState → Type 0
Takes ls ls' = Moves ls ls' × (ls.t.token ≢ tk_eos → left ls' < left ls) × (ls'.fs ≡ ls.fs)

module _ {b d r : ℕ} where
  lexed :
      (ls : LexState) (input : List Lexeme)
      → Within b d r ls
      → ls.input ≡ input
      → (ls.lookahead.token == tk_eos) ≡ true
      → Post
          (λ _. Takes ls)
          (lex input (λ t ls. record ls { t = t }) (record ls { lastline = ls.linenumber }))
  lexed ls [] h e z = returns (
    record { funcs = h.funcs; tokens = omega arith; levels = refl; frames = Grows-refl ls.fs },
    λ u. omega (arith, weight_one ls.t.token u),
    refl,
  )
  lexed ls (lexeme t line ∷ input) h e z = returns (
    record {
      funcs = h.funcs;
      tokens = omega (arith, ap length e, weight-le t.token);
      levels = refl;
      frames = Grows-refl ls.fs;
    },
    λ u. omega (arith, ap length e, weight-le t.token, weight_one ls.t.token u),
    refl,
  )
  lexed ls (malformed ∷ input) h e z = fails

  pub next-Takes : (ls : LexState) → Within b d r ls → Post (λ _. Takes ls) (luax_next ls)
  unfolding luax_next
  next-Takes ls h =
      if-Post (ls.lookahead.token == tk_eos) (λ z. lexed ls ls.input h refl z)
        (λ z. returns (
          record {
            funcs = h.funcs;
            tokens = omega arith;
            levels = refl;
            frames = Grows-refl ls.fs;
          },
          λ u. omega (arith, weight_one ls.t.token u),
          refl,
        ))

  pub luax_next-Upholds : Upholds b d r luax_next
  luax_next-Upholds = record { at = λ ls h. Post-weaken (λ _ _ p. p.0) (next-Takes ls h) }

  looked_ahead :
      (ls : LexState) (input : List Lexeme)
      → Within b d r ls
      → ls.input ≡ input
      → Post (λ _. Moves ls) (lex input (λ t ls. record ls { lookahead = t }) ls)
  looked_ahead ls [] h e =
      returns
        (record { funcs = h.funcs; tokens = omega arith; levels = refl; frames = Grows-refl ls.fs })
  looked_ahead ls (lexeme t line ∷ input) h e = returns (record {
    funcs = h.funcs;
    tokens = omega (arith, ap length e, weight-le t.token);
    levels = refl;
    frames = Grows-refl ls.fs;
  })
  looked_ahead ls (malformed ∷ input) h e = fails

  pub luax_lookahead-Upholds : Upholds b d r luax_lookahead
  unfolding luax_lookahead
  luax_lookahead-Upholds = record { at = λ ls h. looked_ahead ls ls.input h refl }

  pub get-Stays : Stays b d r get
  unfolding get
  get-Stays = record { at = λ ls h. returns (Moves-refl h, refl) }

  pub check-Stays : (c : ℕ) → Stays b d r (check c)
  unfolding check get pure raise ◌>>=◌
  check-Stays c = record {
    at = λ ls h. act-Post _ _ (ls.t.token == c) ls (λ _. returns (Moves-refl h, refl)) (λ _. fails);
  }

  pub top-Stays : Stays b d r top
  unfolding top
  top-Stays = record { at = λ ls h. at_top ls ls.fs h }
    where
      at_top :
          (ls : LexState) (fs : List Func)
          → Within b d r ls
          → Post (λ _ ls'. Moves ls ls' × (ls'.t.token ≡ ls.t.token)) (top_of fs ls)
      at_top ls [] h = strays
      at_top ls (f ∷ fs) h = returns (Moves-refl h, refl)

module _ {b d r : ℕ} where
  pub luax_next-Falls : Falls b d r luax_next
  luax_next-Falls = record {
    at = λ ls h t. Post-weaken (λ _ _ (p, less, _). (p, less t)) (next-Takes ls h);
  }

  -- A token that is tested for is taken, and no function is touched.
  pub testnext-Post :
      (c : ℕ) (ls : LexState)
      → c ≢ tk_eos
      → Within b d r ls
      → Post
          (λ more ls'. Moves ls ls' × (more ≡ true → left ls' < left ls) × (ls'.fs ≡ ls.fs))
          (testnext c ls)
  unfolding testnext get pure ◌>>=◌
  testnext-Post c ls no_eos h =
      act-Post _ _ (ls.t.token == c) ls
        (λ e. Post-bind luax_next _ ls (next-Takes ls h) (λ _ ls' (p, less, same).
          returns (p, (λ _. less (λ z. no_eos (same_token ls.t.token c e z))), same)))
        (λ _. returns (Moves-refl h, (λ e. cc), refl))
    where
      same_token : (t c : ℕ) → (t == c) ≡ true → t ≡ tk_eos → c ≡ tk_eos
      same_token t c e z = ground arith

module _ {b d r : ℕ} where
  pub testnext-Tests : (c : ℕ) → c ≢ tk_eos → Tests b d r (testnext c)
  testnext-Tests c no_eos = record {
    at = λ ls h. Post-weaken (λ _ _ (p, less, _). (p, less)) (testnext-Post c ls no_eos h);
  }

module _ {b d r : ℕ} where
  pub testnext-Upholds : (c : ℕ) → Upholds b d r (testnext c)
  unfolding testnext
  testnext-Upholds c = search (upholds_rules, luax_next-Upholds) depth 15

  pub checknext-Upholds : (c : ℕ) → Upholds b d r (checknext c)
  unfolding checknext
  checknext-Upholds c =
      search (upholds_rules, luax_next-Upholds, check-Stays, Upholds-Stays) depth 15

  pub checknext-Falls : (c : ℕ) → Falls b d r (checknext c)
  unfolding checknext
  checknext-Falls c = search (falls_rules, luax_next-Falls, check-Stays) depth 15

  pub check_match-Upholds : (what who line : ℕ) → Upholds b d r (check_match what who line)
  unfolding check_match
  check_match-Upholds what who line = search (upholds_rules, testnext-Upholds) depth 15

  pub str_checkname-Upholds : Upholds b d r str_checkname
  unfolding str_checkname
  str_checkname-Upholds =
      search (upholds_rules, luax_next-Upholds, check-Stays, Upholds-Stays) depth 15

  pub str_checkname-Falls : Falls b d r str_checkname
  unfolding str_checkname
  str_checkname-Falls = search (falls_rules, upholds_rules, luax_next-Falls, check-Stays) depth 15
