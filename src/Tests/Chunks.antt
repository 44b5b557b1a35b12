-- ===== src/Tests/Chunks.antt =====
-- Precompiled chunks: lua-5.1/src/ldump.c and lundump.c, src/dump.zig.
use zua.Prelude.{ℕ, List, [], ◌∷◌, none, some, true, false, ◌≡◌, refl, ◌<◌, ◌^◌, ◌++◌, arith}
use zua.Dump.{
  FunctionInfo, function, no_functions, dump_varargs, undump_varargs, written, write, write_header,
  write_function, write_c_int, write_string, write_constants, write_constant,
}
use zua.Dump.Puc.{
  keep, IsWritten, IsWritable, puc_info, puc_constant, write-luau_dump, luau_undump-write,
}
use zua.Puc.Zio.{Zio, luaz_lookahead, luaz_read}
use zua.Puc.Zio.Content.{IsValid, content, Looked, luaz_lookahead-Looked}
use zua.Puc.Zio.Read.{Delivered, luaz_read-Delivered}
use zua.Puc.Chunk.Undump.{luau_undump, unknown_source}
use zua.Puc.Chunk.Reads.{Loaded}
use zua.Puc.Chunk.Loaded.{
  IsLoadable, AreLoadable, IsInfo, resolved, resolved_protos, resolved_info, resolved_source,
}
use zua.Puc.Word.{get_opcode, getarg_a, getarg_b, getarg_c, getarg_bx}
use zua.Puc.Opmodes.{opcode_number, get_op_mode, get_b_mode, get_c_mode, test_a_mode, test_t_mode}
use zua.Puc.Checker.{
  checked, fetch, fetch_proto, opcode_at, precheck, operands, check_arg_mode, check_skip,
  check_pseudo,
}
use zua.Puc.Checker.Symbexec.{execute, round, symbexec_loop, symbexec, luag_checkcode}
use zua.Puc.Checker.Safe.{Safe}
use zua.Puc.Checker.Safety.{IsInstruction, symbexec-Safe}
use zua.Puc.Chunk.Parts.{IsVector, IsConstant}
use zua.Puc.Chunk.Bytes.{to_le, same_bytes}
use zua.Puc.Chunk.RoundTrip.{HasSources, luau_undump-luau_dump, luau_undump-whole}
use zua.Puc.Chunk.{
  Protos, TString, nil, boolean, number, string, ProtoInfo, Proto, proto, no_protos, more_protos,
  count_protos,
}
use zua.Puc.Chunk.Dump.{
  luau_dump, dump_header, dump_function, dump_protos, dump_block, dump_char, dump_int, dump_number,
  dump_vector, dump_string, dump_constant, dump_each, dump_locvar, dump_debug, dumped_source,
  same_string,
}
use zua.Puc.Chunk.Format.{chunk_bytes}
use zua.Puc.Chunk.Writes.{append_writer, luau_dump-chunk_bytes, dump_function-failed}

-- "@a"
abbrev source_name : TString
source_name = b'@' ∷ b'a' ∷ []

-- return
abbrev return_word : ℕ
return_word = 0x0080001e

abbrev inner : ProtoInfo
inner = record {
  k = number 4607182418800017408 ∷ [];
  code = 1 ∷ return_word ∷ [];
  lineinfo = 2 ∷ 2 ∷ [];
  locvars = record { varname = some (b'x' ∷ []); startpc = 0; endpc = 1 } ∷ [];
  upvalues = [];
  source = some source_name;
  linedefined = 2;
  lastlinedefined = 3;
  nups = 0;
  numparams = 1;
  is_vararg = 0;
  maxstacksize = 2;
}

abbrev outer : ProtoInfo
outer = record {
  k = string (some (b'f' ∷ [])) ∷ nil ∷ boolean true ∷ [];
  code = 36 ∷ return_word ∷ [];
  lineinfo = 3 ∷ 3 ∷ [];
  locvars = [];
  upvalues = [];
  source = some source_name;
  linedefined = 0;
  lastlinedefined = 0;
  nups = 0;
  numparams = 0;
  is_vararg = 2;
  maxstacksize = 2;
}

abbrev inner_protos : Protos
inner_protos = more_protos (proto inner no_protos) no_protos

abbrev main : Proto
main = proto outer inner_protos

-- The chunk of `main`, in two blocks.
abbrev first_block : List ℕ
first_block =
    27 ∷ 76 ∷ 117 ∷ 97 ∷ 81 ∷ 0 ∷ 1 ∷ 4 ∷ 8 ∷ 4 ∷ 8 ∷ 0 ∷ 3 ∷ 0 ∷ 0 ∷ 0 ∷ 0 ∷ 0 ∷ 0 ∷ 0 ∷ 64 ∷ 97
    ∷ 0 ∷ 0 ∷ 0 ∷ 0 ∷ 0 ∷ 0 ∷ 0 ∷ 0 ∷ []

abbrev second_block : List ℕ
second_block =
    0 ∷ 0 ∷ 0 ∷ 2 ∷ 2 ∷ 2 ∷ 0 ∷ 0 ∷ 0 ∷ 36 ∷ 0 ∷ 0 ∷ 0 ∷ 30 ∷ 0 ∷ 128 ∷ 0 ∷ 3 ∷ 0 ∷ 0 ∷ 0 ∷ 4 ∷ 2
    ∷ 0 ∷ 0 ∷ 0 ∷ 0 ∷ 0 ∷ 0 ∷ 0 ∷ 102 ∷ 0 ∷ 0 ∷ 1 ∷ 1 ∷ 1 ∷ 0 ∷ 0 ∷ 0 ∷ 0 ∷ 0 ∷ 0 ∷ 0 ∷ 0 ∷ 0 ∷ 0
    ∷ 0 ∷ 2 ∷ 0 ∷ 0 ∷ 0 ∷ 3 ∷ 0 ∷ 0 ∷ 0 ∷ 0 ∷ 1 ∷ 0 ∷ 2 ∷ 2 ∷ 0 ∷ 0 ∷ 0 ∷ 1 ∷ 0 ∷ 0 ∷ 0 ∷ 30 ∷ 0
    ∷ 128 ∷ 0 ∷ 1 ∷ 0 ∷ 0 ∷ 0 ∷ 3 ∷ 0 ∷ 0 ∷ 0 ∷ 0 ∷ 0 ∷ 0 ∷ 240 ∷ 63 ∷ 0 ∷ 0 ∷ 0 ∷ 0 ∷ 2 ∷ 0 ∷ 0 ∷ 0
    ∷ 2 ∷ 0 ∷ 0 ∷ 0 ∷ 2 ∷ 0 ∷ 0 ∷ 0 ∷ 1 ∷ 0 ∷ 0 ∷ 0 ∷ 2 ∷ 0 ∷ 0 ∷ 0 ∷ 0 ∷ 0 ∷ 0 ∷ 0 ∷ 120 ∷ 0 ∷ 0
    ∷ 0 ∷ 0 ∷ 0 ∷ 1 ∷ 0 ∷ 0 ∷ 0 ∷ 0 ∷ 0 ∷ 0 ∷ 0 ∷ 2 ∷ 0 ∷ 0 ∷ 0 ∷ 3 ∷ 0 ∷ 0 ∷ 0 ∷ 3 ∷ 0 ∷ 0 ∷ 0 ∷ 0
    ∷ 0 ∷ 0 ∷ 0 ∷ 0 ∷ 0 ∷ 0 ∷ 0 ∷ []

abbrev chunk : Zio
chunk = record { n = 0; p = []; answers = some first_block ∷ some second_block ∷ [] }

chunk-IsValid : IsValid chunk
chunk-IsValid = record {
  counted = refl;
  sized = omega arith;
  answers_sized = (omega arith, (omega arith, tt));
}

luaz_lookahead-Looked_example : Looked chunk (luaz_lookahead chunk)
luaz_lookahead-Looked_example = luaz_lookahead-Looked chunk chunk-IsValid

luaz_read-Delivered_example : Delivered chunk [] 35 (luaz_read chunk 35)
luaz_read-Delivered_example = luaz_read-Delivered chunk 35 chunk-IsValid

symbexec-Safe_example : Safe (IsInstruction outer inner_protos) (symbexec outer inner_protos 2 0)
symbexec-Safe_example = symbexec-Safe outer inner_protos 2 0 (omega arith)

-- The instruction that set register 0 last is the closure.
finds_closure : symbexec outer inner_protos 1 0 ≡ checked 36
unfolding count_protos symbexec symbexec_loop round execute precheck fetch fetch_proto operands
    check_arg_mode check_skip check_pseudo opcode_at opcode_number get_opcode getarg_a getarg_b
    getarg_c getarg_bx get_op_mode get_b_mode get_c_mode test_a_mode test_t_mode
finds_closure = refl

accepts_main : luag_checkcode main ≡ true
unfolding count_protos luag_checkcode symbexec symbexec_loop round execute precheck fetch
    fetch_proto operands check_arg_mode check_skip check_pseudo opcode_at opcode_number get_opcode
    getarg_a getarg_b getarg_c getarg_bx get_op_mode get_b_mode get_c_mode test_a_mode test_t_mode
accepts_main = refl

luau_dump-chunk_bytes_example :
    luau_dump append_writer main (1 ∷ []) false ≡ (0, 1 ∷ chunk_bytes false main)
luau_dump-chunk_bytes_example = luau_dump-chunk_bytes main (1 ∷ []) false

-- A writer that is full after one block.
abbrev full_writer : List ℕ → List ℕ → ℕ × List ℕ
full_writer w b = (1, w ++ b)

dump_function-failed_example :
    dump_function full_writer main none (record { sink = 27 ∷ []; strip = false; status = 1 })
    ≡ record { sink = 27 ∷ []; strip = false; status = 1 }
dump_function-failed_example =
    dump_function-failed full_writer main none
      (record { sink = 27 ∷ []; strip = false; status = 1 }) (omega arith)

pair : (x y : ℕ) → x < 2 ^ 32 → y < 2 ^ 32 → IsVector (x ∷ y ∷ [])
pair x y hx hy = record { short = omega arith; elements = (hx, (hy, tt)) }

inner-IsInfo : IsInfo false inner (some source_name)
unfolding dumped_source same_string same_bytes IsConstant
inner-IsInfo = record {
  source = tt;
  linedefined = omega arith;
  lastlinedefined = omega arith;
  nups = omega arith;
  numparams = omega arith;
  is_vararg = omega arith;
  maxstacksize = omega arith;
  code = pair 1 return_word (omega arith) (omega arith);
  few_constants = omega arith;
  constants = (omega arith, tt);
  debug = record {
    lines = pair 2 2 (omega arith) (omega arith);
    few_vars = omega arith;
    vars = (record { name = omega arith; start = omega arith; end = omega arith }, tt);
    few_names = omega arith;
    names = tt;
  };
}

outer-IsInfo : IsInfo false outer none
unfolding dumped_source same_string same_bytes IsConstant
outer-IsInfo = record {
  source = omega arith;
  linedefined = omega arith;
  lastlinedefined = omega arith;
  nups = omega arith;
  numparams = omega arith;
  is_vararg = omega arith;
  maxstacksize = omega arith;
  code = pair 36 return_word (omega arith) (omega arith);
  few_constants = omega arith;
  constants = (omega arith, (tt, (tt, tt)));
  debug = record {
    lines = pair 3 3 (omega arith) (omega arith);
    few_vars = omega arith;
    vars = tt;
    few_names = omega arith;
    names = tt;
  };
}

main-IsLoadable : IsLoadable luag_checkcode false 2 main none (some unknown_source)
unfolding IsLoadable AreLoadable count_protos resolved resolved_protos resolved_info resolved_source
    luag_checkcode symbexec symbexec_loop round execute precheck fetch fetch_proto operands
    check_arg_mode check_skip check_pseudo opcode_at opcode_number get_opcode getarg_a getarg_b
    getarg_c getarg_bx get_op_mode get_b_mode get_c_mode test_a_mode test_t_mode
main-IsLoadable = (outer-IsInfo, omega arith, ((inner-IsInfo, omega arith, tt, refl), tt), refl)

content_written : content chunk ≡ (luau_dump append_writer main [] false).1 ++ []
unfolding luau_dump dump_header dump_function dump_protos dump_block dump_char dump_int dump_number
    dump_vector dump_string dump_constant dump_each dump_locvar dump_debug dumped_source same_string
    same_bytes to_le count_protos
content_written = refl

luau_undump-luau_dump_example :
    Loaded (resolved false main none (some unknown_source)) [] (luau_undump luag_checkcode 2 chunk)
luau_undump-luau_dump_example =
    luau_undump-luau_dump luag_checkcode 2 false main chunk [] main-IsLoadable chunk-IsValid
      content_written

main-HasSources : HasSources main
unfolding HasSources
main-HasSources = (source_name, refl, ((source_name, refl, tt), tt))

luau_undump-whole_example : Loaded main [] (luau_undump luag_checkcode 2 chunk)
luau_undump-whole_example =
    luau_undump-whole luag_checkcode 2 main chunk [] main-HasSources main-IsLoadable chunk-IsValid
      content_written

-- print("hi") as src/dump.zig writes it.
abbrev hello : FunctionInfo
hello = record {
  name = b'm' ∷ [];
  code = 5 ∷ return_word ∷ [];
  constants = zua.Dump.string (b'h' ∷ b'i' ∷ []) ∷ zua.Dump.number 4607182418800017408 ∷ [];
  varargs = record { has_arg = false; is_var_arg = true; needs_arg = false };
  max_stack_size = 2;
  num_params = 0;
  num_upvalues = 0;
  line_info = [];
  source = [];
}

hello-IsWritten : IsWritten hello
unfolding IsWritable
hello-IsWritten = record {
  num_upvalues = omega arith;
  num_params = omega arith;
  max_stack_size = omega arith;
  code = pair 5 return_word (omega arith) (omega arith);
  few_constants = omega arith;
  constants = (omega arith, (omega arith, tt));
}

write-luau_dump_example :
    write keep (function hello no_functions) []
    ≡ written (luau_dump append_writer (proto (puc_info hello) no_protos) [] true).1
write-luau_dump_example = write-luau_dump hello no_functions [] hello-IsWritten

abbrev hello_bytes : List ℕ
hello_bytes =
    27 ∷ 76 ∷ 117 ∷ 97 ∷ 81 ∷ 0 ∷ 1 ∷ 4 ∷ 8 ∷ 4 ∷ 8 ∷ 0 ∷ 0 ∷ 0 ∷ 0 ∷ 0 ∷ 0 ∷ 0 ∷ 0 ∷ 0 ∷ 0 ∷ 0 ∷ 0
    ∷ 0 ∷ 0 ∷ 0 ∷ 0 ∷ 0 ∷ 0 ∷ 0 ∷ 2 ∷ 2 ∷ 2 ∷ 0 ∷ 0 ∷ 0 ∷ 5 ∷ 0 ∷ 0 ∷ 0 ∷ 30 ∷ 0 ∷ 128 ∷ 0 ∷ 2 ∷ 0
    ∷ 0 ∷ 0 ∷ 4 ∷ 3 ∷ 0 ∷ 0 ∷ 0 ∷ 0 ∷ 0 ∷ 0 ∷ 0 ∷ 104 ∷ 105 ∷ 0 ∷ 3 ∷ 0 ∷ 0 ∷ 0 ∷ 0 ∷ 0 ∷ 0 ∷ 240
    ∷ 63 ∷ 0 ∷ 0 ∷ 0 ∷ 0 ∷ 0 ∷ 0 ∷ 0 ∷ 0 ∷ 0 ∷ 0 ∷ 0 ∷ 0 ∷ 0 ∷ 0 ∷ 0 ∷ 0 ∷ []

-- The bytes, with one more behind them.
abbrev hello_chunk : Zio
hello_chunk = record { n = 0; p = []; answers = some hello_bytes ∷ some (99 ∷ []) ∷ [] }

hello_chunk-IsValid : IsValid hello_chunk
hello_chunk-IsValid = record {
  counted = refl;
  sized = omega arith;
  answers_sized = (omega arith, (omega arith, tt));
}

hello_written : write keep (function hello no_functions) [] ≡ written hello_bytes
unfolding write write_header write_function write_c_int write_string write_constants write_constant
    to_le dump_varargs
hello_written = refl

hello_accepted : luag_checkcode (proto (puc_info hello) no_protos) ≡ true
unfolding puc_info puc_constant dump_varargs count_protos luag_checkcode symbexec symbexec_loop
    round execute precheck fetch fetch_proto operands check_arg_mode check_skip check_pseudo
    opcode_at opcode_number get_opcode getarg_a getarg_b getarg_c getarg_bx get_op_mode get_b_mode
    get_c_mode test_a_mode test_t_mode
hello_accepted = refl

luau_undump-write_example :
    Loaded (proto (puc_info hello) no_protos) (99 ∷ []) (luau_undump luag_checkcode 200 hello_chunk)
luau_undump-write_example =
    luau_undump-write luag_checkcode 199 hello no_functions hello_chunk hello_bytes (99 ∷ [])
      hello-IsWritten hello_accepted hello_written hello_chunk-IsValid refl
