-- ===== src/Bytecode/Programs/MinimalNs.antt =====
-- The programs in examples/c/.output/minimal_ns.skel.h: the sections of its ELF bytes that hold
-- instructions, slot by slot, and the slots that name a symbol.
use Prim.Native.String.{String}
use hello_e_bpf.Prelude.{ℕ, List, [], ◌∷◌}
use hello_e_bpf.Memory.{Bytes}
use hello_e_bpf.Bytecode.Instruction.{assemble, hex}
use hello_e_bpf.Bytecode.Machine.{Program}

-- tp/syscalls/sys_enter_write
abbrev minimal_ns_handle_tp_code : List String
minimal_ns_handle_tp_code =
    "1801000000000000" ∷ "0000000000000000" ∷ "7911000000000000" ∷ "1802000000000000"
    ∷ "0000000000000000" ∷ "7922000000000000" ∷ "bfa3000000000000" ∷ "07030000f8ffffff"
    ∷ "b704000008000000" ∷ "8500000078000000" ∷ "1801000000000000" ∷ "0000000000000000"
    ∷ "6111000000000000" ∷ "61a3f8ff00000000" ∷ "5d13040000000000" ∷ "1801000000000000"
    ∷ "0000000000000000" ∷ "b70200001c000000" ∷ "8500000006000000" ∷ "b700000000000000"
    ∷ "9500000000000000" ∷ []

abbrev minimal_ns_handle_tp_relocations : List (ℕ × String)
minimal_ns_handle_tp_relocations = (0, "dev") ∷ (3, "ino") ∷ (10, "my_pid") ∷ (15, ".rodata") ∷ []

unfoldable pub minimal_ns_handle_tp_program : Program
unfolding assemble
minimal_ns_handle_tp_program = record {
  slots = assemble minimal_ns_handle_tp_code;
  relocations = minimal_ns_handle_tp_relocations;
}

-- .rodata
unfoldable pub minimal_ns_rodata : Bytes
unfolding hex
minimal_ns_rodata = hex "425046207472696767657265642066726f6d205049442025642e0a00"
