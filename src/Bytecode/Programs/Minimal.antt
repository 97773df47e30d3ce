-- ===== src/Bytecode/Programs/Minimal.antt =====
-- The programs in examples/c/.output/minimal.skel.h: the sections of its ELF bytes that hold
-- instructions, slot by slot, and the slots that name a symbol.
use Prim.Native.String.{String}
use hello_e_bpf.Prelude.{ℕ, List, [], ◌∷◌}
use hello_e_bpf.Memory.{Bytes}
use hello_e_bpf.Bytecode.Instruction.{assemble, hex}
use hello_e_bpf.Bytecode.Machine.{Program}

-- tp/syscalls/sys_enter_write
abbrev minimal_handle_tp_code : List String
minimal_handle_tp_code =
    "850000000e000000" ∷ "7700000020000000" ∷ "1801000000000000" ∷ "0000000000000000"
    ∷ "6111000000000000" ∷ "5d01050000000000" ∷ "1801000000000000" ∷ "0000000000000000"
    ∷ "b70200001c000000" ∷ "bf03000000000000" ∷ "8500000006000000" ∷ "b700000000000000"
    ∷ "9500000000000000" ∷ []

abbrev minimal_handle_tp_relocations : List (ℕ × String)
minimal_handle_tp_relocations = (2, "my_pid") ∷ (6, ".rodata") ∷ []

unfoldable pub minimal_handle_tp_program : Program
unfolding assemble
minimal_handle_tp_program = record {
  slots = assemble minimal_handle_tp_code;
  relocations = minimal_handle_tp_relocations;
}

-- .rodata
unfoldable pub minimal_rodata : Bytes
unfolding hex
minimal_rodata = hex "425046207472696767657265642066726f6d205049442025642e0a00"
