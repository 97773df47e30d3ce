-- ===== src/Bytecode/Programs/MinimalLegacy.antt =====
-- The programs in examples/c/.output/minimal_legacy.skel.h: the sections of its ELF bytes that hold
-- instructions, slot by slot, and the slots that name a symbol.
use Prim.Native.String.{String}
use hello_e_bpf.Prelude.{ℕ, List, [], ◌∷◌}
use hello_e_bpf.Bytecode.Instruction.{assemble}
use hello_e_bpf.Bytecode.Machine.{Program}

-- tp/syscalls/sys_enter_write
abbrev minimal_legacy_handle_tp_code : List String
minimal_legacy_handle_tp_code =
    "b701000000000000" ∷ "631afcff00000000" ∷ "850000000e000000" ∷ "bf06000000000000"
    ∷ "bfa2000000000000" ∷ "07020000fcffffff" ∷ "1801000000000000" ∷ "0000000000000000"
    ∷ "8500000001000000" ∷ "bf01000000000000" ∷ "b700000001000000" ∷ "1501140000000000"
    ∷ "7706000020000000" ∷ "6111000000000000" ∷ "5d61110000000000" ∷ "b7010000642e0a00"
    ∷ "631af8ff00000000" ∷ "180100006f6d2050" ∷ "0000000049442025" ∷ "7b1af0ff00000000"
    ∷ "1801000067657265" ∷ "0000000064206672" ∷ "7b1ae8ff00000000" ∷ "1801000042504620"
    ∷ "0000000074726967" ∷ "7b1ae0ff00000000" ∷ "bfa1000000000000" ∷ "07010000e0ffffff"
    ∷ "b70200001c000000" ∷ "bf63000000000000" ∷ "8500000006000000" ∷ "b700000000000000"
    ∷ "9500000000000000" ∷ []

abbrev minimal_legacy_handle_tp_relocations : List (ℕ × String)
minimal_legacy_handle_tp_relocations = (6, "my_pid_map") ∷ []

unfoldable pub minimal_legacy_handle_tp_program : Program
unfolding assemble
minimal_legacy_handle_tp_program = record {
  slots = assemble minimal_legacy_handle_tp_code;
  relocations = minimal_legacy_handle_tp_relocations;
}
