-- ===== src/Lib.antt =====
-- zua: Lua 5.1 in Zig, beside the C sources of PUC Lua 5.1 that it follows.
--
-- The repository holds two implementations of one language: lua-5.1/src (C) and src (Zig). A source
-- file is lexed, parsed and compiled to function prototypes, which are lists of 32-bit instructions
-- with constants; a prototype is run by the virtual machine, or written to a precompiled chunk and
-- loaded from it later. The development models parts of both, and relates them.
--
-- Puc/Word, Puc/Opmodes: lua-5.1/src/lopcodes.h and lopcodes.c, the instruction words (GET_OPCODE,
--   SETARG_A and so on) and the table luaP_opmodes. A word is a number below 2^32; C shifts and
--   complements are cut to 32 bits.
-- Opcodes, Opcodes/Instruction: src/opcodes.zig. Checked arithmetic on `uN` and `iN` is a function
--   into Option, whose `none` is the panic of a safe build. Opcodes/Twin, Instruction/Layout,
--   Instruction/Jumps and Instruction/Counts relate these to the C macros.
-- FloatByte: intToFloatingPointByte of src/object.zig and luaO_int2fb of lua-5.1/src/lobject.c. The
--   loops are recursion on accessibility of `<`.
-- Puc/Zio: lua-5.1/src/lzio.c. The reader callback is the list of the answers that it will give. The
--   loop of luaZ_read runs on fuel: each round copies a byte at least, so as many rounds as bytes are asked for
--   are enough.
-- Puc/Chunk: function prototypes and precompiled chunks, lua-5.1/src/ldump.c (Dump) and lundump.c
--   (Undump). The writer callback is any function; the loader is a function of the stream. Format is the chunk as
--   bytes, Writes and Reads relate the two sides to it, and RoundTrip joins them.
-- Puc/Checker: the verifier luaG_checkcode of lua-5.1/src/ldebug.c, which the loader calls on each
--   function. A read out of bounds is an outcome of its own, as is a loop that runs out of fuel; every
--   round moves on in the code, so as many rounds as instructions are enough.
-- Puc/Table: lua-5.1/src/ltable.c, the lookup of integers and the length. The doubling of the index runs
--   on 31 rounds, which take it beyond MAX_INT; the linear search on as many as the largest key.
-- Puc/Code: the code generator lua-5.1/src/lcode.c, with the types of lcode.h and lparser.h (State), in its
--   own order of calls: Jumps (the lists of jumps), Emit (instructions and registers), Consts, Exps, Conds
--   and Ops. A function of the C file is an action on a FuncState, which returns, raises an error, or strays: it
--   then reads outside of the code that was written, or loses a register it never had. A walk along a list of
--   jumps with more rounds than there are instructions is an outcome of its own, `cyclic`. An expdesc is passed
--   and returned. The list loops run on as many rounds as there are instructions; Chains shows that this is
--   enough for any list that ends. luaM_growvector is its limit, and -1 (NO_JUMP, LUA_MULTRET) is
--   `none`. The arithmetic of lua_Number is a parameter. Keeps is the invariant of all calls that the parser
--   makes (Calls); Registers, Folding and Setlist treat one function each.
-- Puc/Vm: of lua-5.1/src/lvm.c, what the arithmetic instructions compute from two numbers.
-- Puc/Parser: the parser lua-5.1/src/lparser.c, which calls the code generator while it reads: Tokens and
--   State (LexState, FuncState with its Proto, blocks, errors), Scope (variables, upvalues and blocks), Functions
--   (open_func, close_func, parameters), Exprs and Stats (the rules of the grammar, in their order in the file). A
--   function of the C file is an action on a LexState, which returns, fails with an error, strays, is `cyclic` or runs out of
--   fuel. The tokens are the list of what the calls of llex return, the lexical error included. The list `fs`
--   has the function that is parsed and those around it; `bl` is its chain of blocks. The assertions on registers in
--   enterblock, leaveblock and chunk are modelled, as an outcome of straying; the other assertions are not. A loop
--   of lparser.c runs on two rounds more than there are lexemes, since each takes a token; the rules recur on a depth of
--   one more than LUAI_MAXCCALLS, which enterlevel keeps. Keeps is the invariant of every rule, with the count of the
--   tokens that are left, and Sound applies it to luaY_parser; Search treats searchvar.
-- Table: src/table.zig, the length of a table, the same as in lua-5.1.
-- Dump: src/dump.zig, and the prototypes of src/object.zig that it writes.
-- Prelude: what these share: tests on numbers, lists, integers, and the lemmas on bits.
-- Tests: the theorems at concrete inputs.
--
-- The platform is a little-endian one with 4 bytes for `int` and instructions, and 8 for `size_t` and
-- numbers. The verifier is a parameter of the loader, any function into Bool; the
-- examples of Tests/Chunks pass luag_checkcode.
-- Of the loader, LUAI_MAXCCALLS less the open C calls is an argument, by which it recurs.
--
-- Not modelled: memory errors and the collector, the text of messages, the rest of tables, the lexers, the
-- parser and the code generator of zua, the rest of the virtual machines, the C API, the libraries and the programs.
pub mod Prelude
pub mod Puc
pub mod Opcodes
pub mod FloatByte
pub mod Dump
pub mod Table
pub mod Tests
