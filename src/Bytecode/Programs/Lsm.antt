-- ===== src/Bytecode/Programs/Lsm.antt =====
-- The programs in examples/c/.output/lsm.skel.h: the sections of its ELF bytes that hold
-- instructions, slot by slot, and the slots that name a symbol.
use Prim.Native.String.{String}
use hello_e_bpf.Prelude.{ℕ, List, [], ◌∷◌}
use hello_e_bpf.Memory.{Bytes}
use hello_e_bpf.Bytecode.Instruction.{assemble, hex}
use hello_e_bpf.Bytecode.Machine.{Program}

-- lsm/bpf
abbrev lsm_lsm_bpf_code : List String
lsm_lsm_bpf_code =
    "7910180000000000" ∷ "bf01000000000000" ∷ "6701000020000000" ∷ "7701000020000000"
    ∷ "5501060000000000" ∷ "1801000000000000" ∷ "0000000000000000" ∷ "b702000018000000"
    ∷ "8500000006000000" ∷ "18000000ffffffff" ∷ "0000000000000000" ∷ "9500000000000000" ∷ []

abbrev lsm_lsm_bpf_relocations : List (ℕ × String)
lsm_lsm_bpf_relocations = (5, ".rodata") ∷ []

unfoldable pub lsm_lsm_bpf_program : Program
unfolding assemble
lsm_lsm_bpf_program = record {
  slots = assemble lsm_lsm_bpf_code;
  relocations = lsm_lsm_bpf_relocations;
}

-- .rodata
unfoldable pub lsm_rodata : Bytes
unfolding hex
lsm_rodata = hex "4c534d3a20626c6f636b20627066282920776f726b656400"
