-- ===== src/Bytecode/Programs/Kprobe.antt =====
-- The programs in examples/c/.output/kprobe.skel.h: the sections of its ELF bytes that hold
-- instructions, slot by slot, and the slots that name a symbol.
use Prim.Native.String.{String}
use hello_e_bpf.Prelude.{ℕ, List, [], ◌∷◌, ◌++◌}
use hello_e_bpf.Memory.{Bytes}
use hello_e_bpf.Bytecode.Instruction.{assemble, hex}
use hello_e_bpf.Bytecode.Machine.{Program}

-- kprobe/do_unlinkat
abbrev kprobe_do_unlinkat_code : List String
kprobe_do_unlinkat_code =
    "7916080000000000" ∷ "850000000e000000" ∷ "bf07000000000000" ∷ "b701000000000000"
    ∷ "0f16000000000000" ∷ "bfa1000000000000" ∷ "07010000f8ffffff" ∷ "b702000008000000"
    ∷ "bf63000000000000" ∷ "8500000071000000" ∷ "79a4f8ff00000000" ∷ "7707000020000000"
    ∷ "1801000000000000" ∷ "0000000000000000" ∷ "b702000026000000" ∷ "bf73000000000000"
    ∷ "8500000006000000" ∷ "b700000000000000" ∷ "9500000000000000" ∷ []

abbrev kprobe_do_unlinkat_relocations : List (ℕ × String)
kprobe_do_unlinkat_relocations = (12, ".rodata") ∷ []

unfoldable pub kprobe_do_unlinkat_program : Program
unfolding assemble
kprobe_do_unlinkat_program = record {
  slots = assemble kprobe_do_unlinkat_code;
  relocations = kprobe_do_unlinkat_relocations;
}

-- kretprobe/do_unlinkat
abbrev kprobe_do_unlinkat_exit_code : List String
kprobe_do_unlinkat_exit_code =
    "7916000000000000" ∷ "850000000e000000" ∷ "7700000020000000" ∷ "1801000026000000"
    ∷ "0000000000000000" ∷ "b702000022000000" ∷ "bf03000000000000" ∷ "bf64000000000000"
    ∷ "8500000006000000" ∷ "b700000000000000" ∷ "9500000000000000" ∷ []

abbrev kprobe_do_unlinkat_exit_relocations : List (ℕ × String)
kprobe_do_unlinkat_exit_relocations = (3, ".rodata") ∷ []

unfoldable pub kprobe_do_unlinkat_exit_program : Program
unfolding assemble
kprobe_do_unlinkat_exit_program = record {
  slots = assemble kprobe_do_unlinkat_exit_code;
  relocations = kprobe_do_unlinkat_exit_relocations;
}

-- .rodata
unfoldable pub kprobe_rodata : Bytes
unfolding hex
kprobe_rodata =
    hex "4b50524f424520454e54525920706964203d2025642c2066696c656e616d6520"
    ++ hex "3d2025730a004b50524f424520455849543a20706964203d2025642c20726574"
    ++ hex "203d20256c640a00"
