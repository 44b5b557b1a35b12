-- ===== src/Puc/Parser/Tokens.antt =====
-- lua-5.1/src/llex.h: the tokens, and what luaX_next and luaX_lookahead of llex.c read them from.
use zua.Prelude.{ℕ}
use zua.Puc.Chunk.{TString}

-- A token of one character is its code. The reserved words, from FIRST_RESERVED on, come first.
abbrev pub tk_and : ℕ
tk_and = 257

abbrev pub tk_break : ℕ
tk_break = 258

abbrev pub tk_do : ℕ
tk_do = 259

abbrev pub tk_else : ℕ
tk_else = 260

abbrev pub tk_elseif : ℕ
tk_elseif = 261

abbrev pub tk_end : ℕ
tk_end = 262

abbrev pub tk_false : ℕ
tk_false = 263

abbrev pub tk_for : ℕ
tk_for = 264

abbrev pub tk_function : ℕ
tk_function = 265

abbrev pub tk_if : ℕ
tk_if = 266

abbrev pub tk_in : ℕ
tk_in = 267

abbrev pub tk_local : ℕ
tk_local = 268

abbrev pub tk_nil : ℕ
tk_nil = 269

abbrev pub tk_not : ℕ
tk_not = 270

abbrev pub tk_or : ℕ
tk_or = 271

abbrev pub tk_repeat : ℕ
tk_repeat = 272

abbrev pub tk_return : ℕ
tk_return = 273

abbrev pub tk_then : ℕ
tk_then = 274

abbrev pub tk_true : ℕ
tk_true = 275

abbrev pub tk_until : ℕ
tk_until = 276

abbrev pub tk_while : ℕ
tk_while = 277

abbrev pub tk_concat : ℕ
tk_concat = 278

abbrev pub tk_dots : ℕ
tk_dots = 279

abbrev pub tk_eq : ℕ
tk_eq = 280

abbrev pub tk_ge : ℕ
tk_ge = 281

abbrev pub tk_le : ℕ
tk_le = 282

abbrev pub tk_ne : ℕ
tk_ne = 283

abbrev pub tk_number : ℕ
tk_number = 284

abbrev pub tk_name : ℕ
tk_name = 285

abbrev pub tk_string : ℕ
tk_string = 286

abbrev pub tk_eos : ℕ
tk_eos = 287

-- `seminfo` is a union: `ts` is meant for names and strings, `r` for numbers.
pub record Token : Type 0 where
  pub token : ℕ
  pub ts : TString
  pub r : ℕ

-- What a call of llex leads to: a token, with the line that it was read up to, or a lexical error.
pub data Lexeme : Type 0 where
  lexeme : Token → ℕ → Lexeme
  malformed : Lexeme
