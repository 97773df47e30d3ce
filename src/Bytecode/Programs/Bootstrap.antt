-- ===== src/Bytecode/Programs/Bootstrap.antt =====
-- The programs in examples/c/.output/bootstrap.skel.h: the sections of its ELF bytes that hold
-- instructions, slot by slot, and the slots that name a symbol.
use Prim.Native.String.{String}
use hello_e_bpf.Prelude.{ℕ, List, [], ◌∷◌}
use hello_e_bpf.Bytecode.Instruction.{assemble}
use hello_e_bpf.Bytecode.Machine.{Program}

-- tp/sched/sched_process_exec
abbrev bootstrap_handle_exec_code : List String
bootstrap_handle_exec_code =
    "bf16000000000000" ∷ "850000000e000000" ∷ "7700000020000000" ∷ "630afcff00000000"
    ∷ "8500000005000000" ∷ "7b0af0ff00000000" ∷ "bfa2000000000000" ∷ "07020000fcffffff"
    ∷ "bfa3000000000000" ∷ "07030000f0ffffff" ∷ "1801000000000000" ∷ "0000000000000000"
    ∷ "b704000000000000" ∷ "8500000002000000" ∷ "1801000000000000" ∷ "0000000000000000"
    ∷ "7911000000000000" ∷ "55012b0000000000" ∷ "b708000000000000" ∷ "1801000000000000"
    ∷ "0000000000000000" ∷ "b7020000a8000000" ∷ "b703000000000000" ∷ "8500000083000000"
    ∷ "bf07000000000000" ∷ "1507230000000000" ∷ "8500000023000000" ∷ "7387a70000000000"
    ∷ "61a1fcff00000000" ∷ "6317000000000000" ∷ "b701000040040000" ∷ "0f10000000000000"
    ∷ "bfa1000000000000" ∷ "07010000e0ffffff" ∷ "b702000008000000" ∷ "bf03000000000000"
    ∷ "8500000071000000" ∷ "b70100003c040000" ∷ "79a3e0ff00000000" ∷ "0f13000000000000"
    ∷ "bfa1000000000000" ∷ "07010000ecffffff" ∷ "b702000004000000" ∷ "8500000071000000"
    ∷ "61a1ecff00000000" ∷ "6317040000000000" ∷ "bf71000000000000" ∷ "0701000018000000"
    ∷ "b702000010000000" ∷ "8500000010000000" ∷ "6161080000000000" ∷ "57010000ffff0000"
    ∷ "0f16000000000000" ∷ "bf71000000000000" ∷ "0701000028000000" ∷ "b70200007f000000"
    ∷ "bf63000000000000" ∷ "850000002d000000" ∷ "bf71000000000000" ∷ "b702000000000000"
    ∷ "8500000084000000" ∷ "b700000000000000" ∷ "9500000000000000" ∷ []

abbrev bootstrap_handle_exec_relocations : List (ℕ × String)
bootstrap_handle_exec_relocations = (10, "exec_start") ∷ (14, "min_duration_ns") ∷ (19, "rb") ∷ []

unfoldable pub bootstrap_handle_exec_program : Program
unfolding assemble
bootstrap_handle_exec_program = record {
  slots = assemble bootstrap_handle_exec_code;
  relocations = bootstrap_handle_exec_relocations;
}

-- tp/sched/sched_process_exit
abbrev bootstrap_handle_exit_code : List String
bootstrap_handle_exit_code =
    "850000000e000000" ∷ "bf01000000000000" ∷ "7701000020000000" ∷ "631afcff00000000"
    ∷ "6700000020000000" ∷ "7700000020000000" ∷ "5d014c0000000000" ∷ "bfa2000000000000"
    ∷ "07020000fcffffff" ∷ "1801000000000000" ∷ "0000000000000000" ∷ "8500000001000000"
    ∷ "bf06000000000000" ∷ "1506050000000000" ∷ "8500000005000000" ∷ "bf07000000000000"
    ∷ "7961000000000000" ∷ "1f17000000000000" ∷ "0500050000000000" ∷ "b707000000000000"
    ∷ "1801000000000000" ∷ "0000000000000000" ∷ "7911000000000000" ∷ "55013b0000000000"
    ∷ "bfa2000000000000" ∷ "07020000fcffffff" ∷ "1801000000000000" ∷ "0000000000000000"
    ∷ "8500000003000000" ∷ "1801000000000000" ∷ "0000000000000000" ∷ "7912000000000000"
    ∷ "1502020000000000" ∷ "7911000000000000" ∷ "2d71300000000000" ∷ "1801000000000000"
    ∷ "0000000000000000" ∷ "b7020000a8000000" ∷ "b703000000000000" ∷ "8500000083000000"
    ∷ "bf06000000000000" ∷ "1506290000000000" ∷ "8500000023000000" ∷ "bf08000000000000"
    ∷ "b701000001000000" ∷ "7316a70000000000" ∷ "7b76100000000000" ∷ "61a1fcff00000000"
    ∷ "6316000000000000" ∷ "b701000040040000" ∷ "bf83000000000000" ∷ "0f13000000000000"
    ∷ "bfa1000000000000" ∷ "07010000f0ffffff" ∷ "b702000008000000" ∷ "8500000071000000"
    ∷ "b70100003c040000" ∷ "79a3f0ff00000000" ∷ "0f13000000000000" ∷ "bfa1000000000000"
    ∷ "07010000f8ffffff" ∷ "b702000004000000" ∷ "8500000071000000" ∷ "61a1f8ff00000000"
    ∷ "6316040000000000" ∷ "b7010000d4030000" ∷ "0f18000000000000" ∷ "bfa1000000000000"
    ∷ "07010000f0ffffff" ∷ "b702000004000000" ∷ "bf83000000000000" ∷ "8500000071000000"
    ∷ "61a1f0ff00000000" ∷ "7701000008000000" ∷ "57010000ff000000" ∷ "6316080000000000"
    ∷ "bf61000000000000" ∷ "0701000018000000" ∷ "b702000010000000" ∷ "8500000010000000"
    ∷ "bf61000000000000" ∷ "b702000000000000" ∷ "8500000084000000" ∷ "b700000000000000"
    ∷ "9500000000000000" ∷ []

abbrev bootstrap_handle_exit_relocations : List (ℕ × String)
bootstrap_handle_exit_relocations =
    (9, "exec_start")
    ∷ (20, "min_duration_ns")
    ∷ (26, "exec_start")
    ∷ (29, "min_duration_ns")
    ∷ (35, "rb")
    ∷ []

unfoldable pub bootstrap_handle_exit_program : Program
unfolding assemble
bootstrap_handle_exit_program = record {
  slots = assemble bootstrap_handle_exit_code;
  relocations = bootstrap_handle_exit_relocations;
}
