-- ===== src/Puc/Zio.antt =====
-- lua-5.1/src/lzio.c and lzio.h: a buffered input stream over a reader callback. The reader is what
-- the caller supplies: it is modelled by the answers that it will give, in order, each a block of
-- bytes or NULL; once the list is used up it answers NULL.
pub mod Content
pub mod Read
use zua.Prelude.{
  ℕ, zero, suc, ◌+◌, ◌-◌, ◌%◌, ◌^◌, Bool, true, false, List, [], ◌∷◌, ◌++◌, Option, none, some, ltb,
  leb, ◌==◌, if◌then◌else◌, length, take, drop,
}

-- `n` is the count of unread bytes, and `p` the bytes from the pointer to the end of the block.
pub record Zio : Type 0 where
  pub n : ℕ
  pub p : List ℕ
  pub answers : List (Option (List ℕ))

-- `int` results: a byte, or EOZ (-1), which is `none`.
abbrev pub eoz : Option ℕ
eoz = none

unfoldable pub luaz_init : List (Option (List ℕ)) → Zio
luaz_init answers = record { n = 0; p = []; answers = answers }

-- A call of the reader, and then `if (buff == NULL || size == 0) return EOZ`, or the first byte.
unfoldable pub luaz_fill_from : List (Option (List ℕ)) → Zio → Option ℕ × Zio
luaz_fill_from [] z = (eoz, z)
luaz_fill_from (none ∷ rest) z = (eoz, record z { answers = rest })
luaz_fill_from (some [] ∷ rest) z = (eoz, record z { answers = rest })
luaz_fill_from (some (b ∷ bs) ∷ rest) z =
    (some b, record { n = length (b ∷ bs) - 1; p = bs; answers = rest })

unfoldable pub luaz_fill : Zio → Option ℕ × Zio
unfolding luaz_fill_from
luaz_fill z = luaz_fill_from z.answers z

-- `*p`, `none` past the end of the block.
abbrev pub head_byte : List ℕ → Option ℕ
head_byte [] = none
head_byte (b ∷ bs) = some b

-- `((z)->n--)>0 ? char2int(*(z)->p++) : luaZ_fill(z)`: the decrement of a zero count wraps.
unfoldable pub zgetc : Zio → Option ℕ × Zio
unfolding luaz_fill
zgetc z =
    if ltb 0 z.n
    then (head_byte z.p, record z { n = z.n - 1; p = drop 1 z.p })
    else luaz_fill (record z { n = 2 ^ 64 - 1 })

-- When the block is used up and a new one arrives, the byte that luaZ_fill took is put back.
unfoldable pub put_back : Option ℕ × Zio → Option ℕ × Zio
put_back (none, z) = (eoz, z)
put_back (some b, z) = (some b, record z { n = (z.n + 1) % 2 ^ 64; p = b ∷ z.p })

unfoldable pub luaz_lookahead : Zio → Option ℕ × Zio
unfolding luaz_fill put_back
luaz_lookahead z = if z.n == 0 then put_back (luaz_fill z) else (head_byte z.p, z)

-- The loop of luaZ_read: the bytes copied to `b` so far, the number of missing bytes, the stream.
-- `none` means that the fuel ran out.
unfoldable pub read_loop : ℕ → Zio → List ℕ → ℕ → Option (List ℕ × ℕ × Zio)
unfolding luaz_lookahead
read_loop fuel z b zero = some (b, 0, z)
read_loop zero z b (suc n) = none
read_loop (suc fuel) z b (suc n) =
    let (c, z') = luaz_lookahead z in
    elim c [
      | none ↦ some (b, suc n, z')
      | some _ ↦
          let m = if leb (suc n) z'.n then suc n else z'.n in
          read_loop fuel (record z' { n = z'.n - m; p = drop m z'.p }) (b ++ take m z'.p)
            (suc n - m)
    ]

-- Every round copies a byte at least, so `n` rounds are enough.
unfoldable pub luaz_read : Zio → ℕ → Option (List ℕ × ℕ × Zio)
unfolding read_loop
luaz_read z n = read_loop n z [] n

-- LUA_MINBUFFER; the buffer of `Mbuffer` by its size.
abbrev pub lua_minbuffer : ℕ
lua_minbuffer = 32

unfoldable pub luaz_openspace : ℕ → ℕ → ℕ
luaz_openspace buffsize n =
    if ltb buffsize n then if ltb n lua_minbuffer then lua_minbuffer else n else buffsize
