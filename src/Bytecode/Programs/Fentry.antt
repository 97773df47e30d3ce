-- ===== src/Bytecode/Programs/Fentry.antt =====
-- The programs in examples/c/.output/fentry.skel.h: the sections of its ELF bytes that hold
-- instructions, slot by slot, and the slots that name a symbol.
use Prim.Native.String.{String}
use hello_e_bpf.Prelude.{ℕ, List, [], ◌∷◌, ◌++◌}
use hello_e_bpf.Memory.{Bytes}
use hello_e_bpf.Bytecode.Instruction.{assemble, hex}
use hello_e_bpf.Bytecode.Machine.{Program}

-- fentry/do_unlinkat
abbrev fentry_do_unlinkat_code : List String
fentry_do_unlinkat_code =
    "7916080000000000" ∷ "850000000e000000" ∷ "7964000000000000" ∷ "7700000020000000"
    ∷ "1801000000000000" ∷ "0000000000000000" ∷ "b702000021000000" ∷ "bf03000000000000"
    ∷ "8500000006000000" ∷ "b700000000000000" ∷ "9500000000000000" ∷ []

abbrev fentry_do_unlinkat_relocations : List (ℕ × String)
fentry_do_unlinkat_relocations = (4, ".rodata") ∷ []

unfoldable pub fentry_do_unlinkat_program : Program
unfolding assemble
fentry_do_unlinkat_program = record {
  slots = assemble fentry_do_unlinkat_code;
  relocations = fentry_do_unlinkat_relocations;
}

-- fexit/do_unlinkat
abbrev fentry_do_unlinkat_exit_code : List String
fentry_do_unlinkat_exit_code =
    "7916100000000000" ∷ "7917080000000000" ∷ "850000000e000000" ∷ "7974000000000000"
    ∷ "7700000020000000" ∷ "1801000021000000" ∷ "0000000000000000" ∷ "b70200002b000000"
    ∷ "bf03000000000000" ∷ "bf65000000000000" ∷ "8500000006000000" ∷ "b700000000000000"
    ∷ "9500000000000000" ∷ []

abbrev fentry_do_unlinkat_exit_relocations : List (ℕ × String)
fentry_do_unlinkat_exit_relocations = (5, ".rodata") ∷ []

unfoldable pub fentry_do_unlinkat_exit_program : Program
unfolding assemble
fentry_do_unlinkat_exit_program = record {
  slots = assemble fentry_do_unlinkat_exit_code;
  relocations = fentry_do_unlinkat_exit_relocations;
}

-- .rodata
unfoldable pub fentry_rodata : Bytes
unfolding hex
fentry_rodata =
    hex "66656e7472793a20706964203d2025642c2066696c656e616d65203d2025730a"
    ++ hex "0066657869743a20706964203d2025642c2066696c656e616d65203d2025732c"
    ++ hex "20726574203d20256c640a00"
