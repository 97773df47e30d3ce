-- ===== src/Bytecode/Programs/Uprobe.antt =====
-- The programs in examples/c/.output/uprobe.skel.h: the sections of its ELF bytes that hold
-- instructions, slot by slot, and the slots that name a symbol.
use Prim.Native.String.{String}
use hello_e_bpf.Prelude.{ℕ, List, [], ◌∷◌, ◌++◌}
use hello_e_bpf.Memory.{Bytes}
use hello_e_bpf.Bytecode.Instruction.{assemble, hex}
use hello_e_bpf.Bytecode.Machine.{Program}

-- uprobe
abbrev uprobe_uprobe_add_code : List String
uprobe_uprobe_add_code =
    "7914080000000000" ∷ "7913000000000000" ∷ "1801000000000000" ∷ "0000000000000000"
    ∷ "b702000022000000" ∷ "8500000006000000" ∷ "b700000000000000" ∷ "9500000000000000" ∷ []

abbrev uprobe_uprobe_add_relocations : List (ℕ × String)
uprobe_uprobe_add_relocations = (2, ".rodata") ∷ []

unfoldable pub uprobe_uprobe_add_program : Program
unfolding assemble
uprobe_uprobe_add_program = record {
  slots = assemble uprobe_uprobe_add_code;
  relocations = uprobe_uprobe_add_relocations;
}

-- uretprobe
abbrev uprobe_uretprobe_add_code : List String
uprobe_uretprobe_add_code =
    "7913000000000000" ∷ "1801000022000000" ∷ "0000000000000000" ∷ "b70200001e000000"
    ∷ "8500000006000000" ∷ "b700000000000000" ∷ "9500000000000000" ∷ []

abbrev uprobe_uretprobe_add_relocations : List (ℕ × String)
uprobe_uretprobe_add_relocations = (1, ".rodata") ∷ []

unfoldable pub uprobe_uretprobe_add_program : Program
unfolding assemble
uprobe_uretprobe_add_program = record {
  slots = assemble uprobe_uretprobe_add_code;
  relocations = uprobe_uretprobe_add_relocations;
}

-- uprobe//proc/self/exe:uprobed_sub
abbrev uprobe_uprobe_sub_code : List String
uprobe_uprobe_sub_code =
    "7914080000000000" ∷ "7913000000000000" ∷ "1801000040000000" ∷ "0000000000000000"
    ∷ "b702000022000000" ∷ "8500000006000000" ∷ "b700000000000000" ∷ "9500000000000000" ∷ []

abbrev uprobe_uprobe_sub_relocations : List (ℕ × String)
uprobe_uprobe_sub_relocations = (2, ".rodata") ∷ []

unfoldable pub uprobe_uprobe_sub_program : Program
unfolding assemble
uprobe_uprobe_sub_program = record {
  slots = assemble uprobe_uprobe_sub_code;
  relocations = uprobe_uprobe_sub_relocations;
}

-- uretprobe//proc/self/exe:uprobed_sub
abbrev uprobe_uretprobe_sub_code : List String
uprobe_uretprobe_sub_code =
    "7913000000000000" ∷ "1801000062000000" ∷ "0000000000000000" ∷ "b70200001e000000"
    ∷ "8500000006000000" ∷ "b700000000000000" ∷ "9500000000000000" ∷ []

abbrev uprobe_uretprobe_sub_relocations : List (ℕ × String)
uprobe_uretprobe_sub_relocations = (1, ".rodata") ∷ []

unfoldable pub uprobe_uretprobe_sub_program : Program
unfolding assemble
uprobe_uretprobe_sub_program = record {
  slots = assemble uprobe_uretprobe_sub_code;
  relocations = uprobe_uretprobe_sub_relocations;
}

-- .rodata
unfoldable pub uprobe_rodata : Bytes
unfolding hex
uprobe_rodata =
    hex "7570726f6265645f61646420454e5452593a2061203d2025642c2062203d2025"
    ++ hex "64007570726f6265645f61646420455849543a2072657475726e203d20256400"
    ++ hex "7570726f6265645f73756220454e5452593a2061203d2025642c2062203d2025"
    ++ hex "64007570726f6265645f73756220455849543a2072657475726e203d20256400"
