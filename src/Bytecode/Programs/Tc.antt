-- ===== src/Bytecode/Programs/Tc.antt =====
-- The programs in examples/c/.output/tc.skel.h: the sections of its ELF bytes that hold
-- instructions, slot by slot, and the slots that name a symbol.
use Prim.Native.String.{String}
use hello_e_bpf.Prelude.{ℕ, List, [], ◌∷◌, ◌++◌}
use hello_e_bpf.Memory.{Bytes}
use hello_e_bpf.Bytecode.Instruction.{assemble, hex}
use hello_e_bpf.Bytecode.Machine.{Program}

-- tc
abbrev tc_tc_ingress_code : List String
tc_tc_ingress_code =
    "6112100000000000" ∷ "55020e0008000000" ∷ "61124c0000000000" ∷ "6113500000000000"
    ∷ "bf21000000000000" ∷ "070100000e000000" ∷ "2d31090000000000" ∷ "0702000022000000"
    ∷ "2d32070000000000" ∷ "7114080000000000" ∷ "6913020000000000" ∷ "dc03000010000000"
    ∷ "1801000000000000" ∷ "0000000000000000" ∷ "b702000024000000" ∷ "8500000006000000"
    ∷ "b700000000000000" ∷ "9500000000000000" ∷ []

abbrev tc_tc_ingress_relocations : List (ℕ × String)
tc_tc_ingress_relocations = (12, ".rodata") ∷ []

unfoldable pub tc_tc_ingress_program : Program
unfolding assemble
tc_tc_ingress_program = record {
  slots = assemble tc_tc_ingress_code;
  relocations = tc_tc_ingress_relocations;
}

-- .rodata
unfoldable pub tc_rodata : Bytes
unfolding hex
tc_rodata = hex "476f74204950207061636b65743a20746f745f6c656e3a2025642c2074746c3a" ++ hex "20256400"
