-- ===== src/Puc/Parser/Sound.antt =====
-- The parser of lua-5.1/src/lparser.c as a whole: it ends, and its functions are well-formed.
use mathlib.Core.Path.{subst}
use zua.Prelude.{ℕ, ◌+◌, ◌≤◌, ◌≡◌, ◌≢◌, refl, List, [], ◌∷◌, Option, inl, inr, length, arith}
use zua.Puc.Chunk.{TString, Proto}
use zua.Puc.Code.State.{Numbers}
use zua.Puc.Parser.Tokens.{Lexeme, tk_eos}
use zua.Puc.Parser.State.{
  LexState, parsed, hung, luai_maxccalls, luax_next, check, pure, ◌>>=◌, ◌>>◌,
}
use zua.Puc.Parser.Functions.{opened, open_func, set_is_vararg, close_func}
use zua.Puc.Parser.Stats.{grammar, main_func, setinput, luay_parser}
use zua.Puc.Parser.Keeps.{IsChecked, Within, Within-Moves, Moves, Post, returns, Post-bind, Upholds}
use zua.Puc.Parser.Keeps.Actions.{luax_next-Upholds, check-Stays}
use zua.Puc.Parser.Keeps.Updates.{changed, change-Upholds}
use zua.Puc.Parser.Keeps.Body.{opened-IsSoundFunc, close_func-Post}
use zua.Puc.Parser.Keeps.Stats.{grammar-RulesHold}

-- The main function takes variable arguments, and has no `arg`.
main_flags-Upholds : {b d r : ℕ} → Upholds b d r (set_is_vararg 2)
unfolding set_is_vararg
main_flags-Upholds = change-Upholds _ (λ f h _. changed (record {
  sound = record {
    gen = h.gen;
    blocks = h.blocks;
    params = omega (arith, h.params);
    flags = inl (inr refl);
    names = h.names;
    nups = h.nups;
    protos = h.protos;
  };
  frame = omega arith;
}))

module _ (num : Numbers) (fuel : ℕ) where
  main_chunk-Upholds :
      Upholds fuel (luai_maxccalls + 1) 0 (grammar num fuel (luai_maxccalls + 1)).chunk
  main_chunk-Upholds = (grammar-RulesHold num fuel (luai_maxccalls + 1)).chunk

-- Before the first token.
setinput-Within :
    (input : List Lexeme) (source : Option TString) (nccalls : ℕ)
    → nccalls ≤ luai_maxccalls
    → Within
        (length input + 2)
        (luai_maxccalls + 1)
        0
        (record (setinput input source nccalls) { fs = opened 1 0 ∷ [] })
setinput-Within input source nccalls le = record {
  funcs = (opened-IsSoundFunc 1 0, tt);
  tokens = omega arith;
  levels = omega arith;
  height = le;
  base = omega arith;
}

parser-Post :
    (num : Numbers) (input : List Lexeme) (source : Option TString) (nccalls : ℕ)
    → nccalls ≤ luai_maxccalls
    → Post (λ p _. IsChecked p) (luay_parser num input source nccalls)
unfolding luay_parser main_func open_func pure ◌>>=◌
parser-Post num input source nccalls le =
    let ls : LexState = record (setinput input source nccalls) { fs = opened 1 0 ∷ [] } in
    let fuel = length input + 2 in
    let h : Within fuel (luai_maxccalls + 1) 0 ls = setinput-Within input source nccalls le in
    Post-bind (set_is_vararg 2) _ ls (main_flags-Upholds.at ls h) (λ _ ls1 p1.
      let h1 : Within fuel (luai_maxccalls + 1) 0 ls1 =
        Within-Moves {c = fuel} h p1 (omega (arith, h.tokens, p1.tokens)) in
      Post-bind luax_next _ ls1 (luax_next-Upholds.at ls1 h1) (λ _ ls2 p2.
        let h2 : Within fuel (luai_maxccalls + 1) 0 ls2 =
          Within-Moves {c = fuel} h1 p2 (omega (arith, h1.tokens, p2.tokens)) in
        Post-bind ((grammar num fuel (luai_maxccalls + 1)).chunk)
          (λ _. check tk_eos >> (close_func >>= λ closed. pure closed.f)) ls2
          ((main_chunk-Upholds num fuel).at ls2 h2)
          (λ _ ls3 p3.
            let h3 : Within fuel (luai_maxccalls + 1) 0 ls3 =
              Within-Moves {c = fuel} h2 p3 (omega (arith, h2.tokens, p3.tokens)) in
            Post-bind (check tk_eos) (λ _. close_func >>= λ closed. pure closed.f) ls3
              ((check-Stays tk_eos).at ls3 h3)
              (λ _ ls4 (p4, _).
                Post-bind close_func (λ closed. pure closed.f) ls4
                  (close_func-Post ls4
                    (Within-Moves {c = fuel} h3 p4 (omega (arith, h3.tokens, p4.tokens))))
                  (λ func ls5 c. returns {ls = ls5} c.checked)))))

Post-returned :
    {A : Type 0} {P : A → Type 0} {a : A} {ls : LexState} → Post (λ a _. P a) (parsed a ls) → P a
Post-returned (returns p) = p

-- If the parser returns a function for some lexemes, then the checks that luaG_checkcode begins with pass for it,
-- and for every function inside of it at any depth: the frame is within MAXSTACK and holds the parameters and
-- `arg`, VARARG_NEEDSARG implies VARARG_HASARG, there are no more names than upvalues, and the code is not
-- empty and ends in a return. Besides, there are as many lines as instructions, in each of them. At the start at most LUAI_MAXCCALLS levels
-- are in use.
pub luay_parser-IsChecked :
    (num : Numbers) (input : List Lexeme) (source : Option TString) (nccalls : ℕ) {p : Proto}
    {ls : LexState}
    → nccalls ≤ luai_maxccalls
    → luay_parser num input source nccalls ≡ parsed p ls
    → IsChecked p
luay_parser-IsChecked num input source nccalls le e =
    Post-returned (subst (Post (λ p _. IsChecked p)) e (parser-Post num input source nccalls le))

not_hung : {A : Type 0} {P : A → LexState → Type 0} → ¬ Post P hung
not_hung h = elim h [ ]

-- Whatever the lexemes are, the fuel of the parser does not run out, which is two rounds more than there are lexemes
-- for every loop of lparser.c and one level more than LUAI_MAXCCALLS for its recursion. It ends with a function,
-- an error or a stray access, or within a call of the code generator that walks along a list of jumps for more
-- rounds than there are instructions; that no such walk occurs is not stated. At the start at most
-- LUAI_MAXCCALLS levels are in use.
pub luay_parser-ne-hung :
    (num : Numbers) (input : List Lexeme) (source : Option TString) (nccalls : ℕ)
    → nccalls ≤ luai_maxccalls
    → luay_parser num input source nccalls ≢ hung
luay_parser-ne-hung num input source nccalls le e =
    not_hung (subst (Post (λ p _. IsChecked p)) e (parser-Post num input source nccalls le))

-- A chunk of at most `depth` levels, parsed with more fuel than there are tokens left, in a state where the functions
-- are sound: if it returns, they are sound, as many, with frames that are not smaller, the level is the
-- same, and no tokens are added; it does not run out of fuel.
pub chunk-Moves :
    (num : Numbers) (fuel depth : ℕ) (ls : LexState)
    → Within fuel depth 0 ls
    → Post (λ _ ls'. Moves ls ls') ((grammar num fuel depth).chunk ls)
chunk-Moves num fuel depth ls h = (grammar-RulesHold num fuel depth).chunk.at ls h
