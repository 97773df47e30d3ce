-- ===== src/Bytecode/Programs/BootstrapLegacy.antt =====
-- The programs in examples/c/.output/bootstrap_legacy.skel.h: the sections of its ELF bytes that hold
-- instructions, slot by slot, and the slots that name a symbol.
use Prim.Native.String.{String}
use hello_e_bpf.Prelude.{ℕ, List, [], ◌∷◌}
use hello_e_bpf.Bytecode.Instruction.{assemble}
use hello_e_bpf.Bytecode.Machine.{Program}

-- tp/sched/sched_process_exec
abbrev bootstrap_legacy_handle_exec_code : List String
bootstrap_legacy_handle_exec_code =
    "bf16000000000000" ∷ "b707000000000000" ∷ "7b7af8ff00000000" ∷ "7b7af0ff00000000"
    ∷ "7b7ae8ff00000000" ∷ "7b7ae0ff00000000" ∷ "7b7ad8ff00000000" ∷ "7b7ad0ff00000000"
    ∷ "7b7ac8ff00000000" ∷ "7b7ac0ff00000000" ∷ "7b7ab8ff00000000" ∷ "7b7ab0ff00000000"
    ∷ "7b7aa8ff00000000" ∷ "7b7aa0ff00000000" ∷ "7b7a98ff00000000" ∷ "7b7a90ff00000000"
    ∷ "7b7a88ff00000000" ∷ "7b7a80ff00000000" ∷ "7b7a78ff00000000" ∷ "7b7a70ff00000000"
    ∷ "7b7a68ff00000000" ∷ "7b7a60ff00000000" ∷ "7b7a58ff00000000" ∷ "850000000e000000"
    ∷ "7700000020000000" ∷ "630a54ff00000000" ∷ "8500000005000000" ∷ "7b0a48ff00000000"
    ∷ "bfa2000000000000" ∷ "0702000054ffffff" ∷ "bfa3000000000000" ∷ "0703000048ffffff"
    ∷ "1801000000000000" ∷ "0000000000000000" ∷ "b704000000000000" ∷ "8500000002000000"
    ∷ "1801000000000000" ∷ "0000000000000000" ∷ "7911000000000000" ∷ "5501270000000000"
    ∷ "8500000023000000" ∷ "737affff00000000" ∷ "61a154ff00000000" ∷ "631a58ff00000000"
    ∷ "b701000040040000" ∷ "0f10000000000000" ∷ "bfa1000000000000" ∷ "0701000040ffffff"
    ∷ "b702000008000000" ∷ "bf03000000000000" ∷ "8500000071000000" ∷ "b70100003c040000"
    ∷ "79a340ff00000000" ∷ "0f13000000000000" ∷ "bfa1000000000000" ∷ "070100005cffffff"
    ∷ "b702000004000000" ∷ "8500000071000000" ∷ "bfa1000000000000" ∷ "0701000070ffffff"
    ∷ "b702000010000000" ∷ "8500000010000000" ∷ "6161080000000000" ∷ "57010000ffff0000"
    ∷ "bf63000000000000" ∷ "0f13000000000000" ∷ "bfa1000000000000" ∷ "0701000080ffffff"
    ∷ "b70200007f000000" ∷ "850000002d000000" ∷ "bfa4000000000000" ∷ "0704000058ffffff"
    ∷ "bf61000000000000" ∷ "1802000000000000" ∷ "0000000000000000" ∷ "18030000ffffffff"
    ∷ "0000000000000000" ∷ "b7050000a8000000" ∷ "8500000019000000" ∷ "b700000000000000"
    ∷ "9500000000000000" ∷ []

abbrev bootstrap_legacy_handle_exec_relocations : List (ℕ × String)
bootstrap_legacy_handle_exec_relocations =
    (32, "exec_start") ∷ (36, "min_duration_ns") ∷ (73, "perf_buffer") ∷ []

unfoldable pub bootstrap_legacy_handle_exec_program : Program
unfolding assemble
bootstrap_legacy_handle_exec_program = record {
  slots = assemble bootstrap_legacy_handle_exec_code;
  relocations = bootstrap_legacy_handle_exec_relocations;
}

-- tp/sched/sched_process_exit
abbrev bootstrap_legacy_handle_exit_code : List String
bootstrap_legacy_handle_exit_code =
    "bf16000000000000" ∷ "b701000000000000" ∷ "7b1af8ff00000000" ∷ "7b1af0ff00000000"
    ∷ "7b1ae8ff00000000" ∷ "7b1ae0ff00000000" ∷ "7b1ad8ff00000000" ∷ "7b1ad0ff00000000"
    ∷ "7b1ac8ff00000000" ∷ "7b1ac0ff00000000" ∷ "7b1ab8ff00000000" ∷ "7b1ab0ff00000000"
    ∷ "7b1aa8ff00000000" ∷ "7b1aa0ff00000000" ∷ "7b1a98ff00000000" ∷ "7b1a90ff00000000"
    ∷ "7b1a88ff00000000" ∷ "7b1a80ff00000000" ∷ "7b1a78ff00000000" ∷ "7b1a70ff00000000"
    ∷ "7b1a68ff00000000" ∷ "7b1a60ff00000000" ∷ "7b1a58ff00000000" ∷ "850000000e000000"
    ∷ "bf01000000000000" ∷ "7701000020000000" ∷ "631a54ff00000000" ∷ "6700000020000000"
    ∷ "7700000020000000" ∷ "5d01490000000000" ∷ "bfa2000000000000" ∷ "0702000054ffffff"
    ∷ "1801000000000000" ∷ "0000000000000000" ∷ "8500000001000000" ∷ "bf07000000000000"
    ∷ "1507050000000000" ∷ "8500000005000000" ∷ "bf08000000000000" ∷ "7971000000000000"
    ∷ "1f18000000000000" ∷ "0500050000000000" ∷ "b708000000000000" ∷ "1801000000000000"
    ∷ "0000000000000000" ∷ "7911000000000000" ∷ "5501380000000000" ∷ "bfa2000000000000"
    ∷ "0702000054ffffff" ∷ "1801000000000000" ∷ "0000000000000000" ∷ "8500000003000000"
    ∷ "1801000000000000" ∷ "0000000000000000" ∷ "7912000000000000" ∷ "1502020000000000"
    ∷ "7911000000000000" ∷ "2d812d0000000000" ∷ "8500000023000000" ∷ "bf07000000000000"
    ∷ "b701000001000000" ∷ "731affff00000000" ∷ "7b8a68ff00000000" ∷ "61a154ff00000000"
    ∷ "631a58ff00000000" ∷ "b701000040040000" ∷ "bf73000000000000" ∷ "0f13000000000000"
    ∷ "bfa1000000000000" ∷ "0701000048ffffff" ∷ "b702000008000000" ∷ "8500000071000000"
    ∷ "b70100003c040000" ∷ "79a348ff00000000" ∷ "0f13000000000000" ∷ "bfa1000000000000"
    ∷ "070100005cffffff" ∷ "b702000004000000" ∷ "8500000071000000" ∷ "b7010000d4030000"
    ∷ "0f17000000000000" ∷ "bfa1000000000000" ∷ "0701000048ffffff" ∷ "b702000004000000"
    ∷ "bf73000000000000" ∷ "8500000071000000" ∷ "61a148ff00000000" ∷ "7701000008000000"
    ∷ "57010000ff000000" ∷ "631a60ff00000000" ∷ "bfa1000000000000" ∷ "0701000070ffffff"
    ∷ "b702000010000000" ∷ "8500000010000000" ∷ "bfa4000000000000" ∷ "0704000058ffffff"
    ∷ "bf61000000000000" ∷ "1802000000000000" ∷ "0000000000000000" ∷ "18030000ffffffff"
    ∷ "0000000000000000" ∷ "b7050000a8000000" ∷ "8500000019000000" ∷ "b700000000000000"
    ∷ "9500000000000000" ∷ []

abbrev bootstrap_legacy_handle_exit_relocations : List (ℕ × String)
bootstrap_legacy_handle_exit_relocations =
    (32, "exec_start")
    ∷ (43, "min_duration_ns")
    ∷ (49, "exec_start")
    ∷ (52, "min_duration_ns")
    ∷ (97, "perf_buffer")
    ∷ []

unfoldable pub bootstrap_legacy_handle_exit_program : Program
unfolding assemble
bootstrap_legacy_handle_exit_program = record {
  slots = assemble bootstrap_legacy_handle_exit_code;
  relocations = bootstrap_legacy_handle_exit_relocations;
}
