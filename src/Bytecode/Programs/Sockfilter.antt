-- ===== src/Bytecode/Programs/Sockfilter.antt =====
-- The programs in examples/c/.output/sockfilter.skel.h: the sections of its ELF bytes that hold
-- instructions, slot by slot, and the slots that name a symbol.
use Prim.Native.String.{String}
use hello_e_bpf.Prelude.{ℕ, List, [], ◌∷◌}
use hello_e_bpf.Bytecode.Instruction.{assemble}
use hello_e_bpf.Bytecode.Machine.{Program}

-- socket
abbrev sockfilter_socket_handler_code : List String
sockfilter_socket_handler_code =
    "bf16000000000000" ∷ "bfa3000000000000" ∷ "07030000faffffff" ∷ "b70200000c000000"
    ∷ "b704000002000000" ∷ "850000001a000000" ∷ "69a1faff00000000" ∷ "bf12000000000000"
    ∷ "dc02000010000000" ∷ "6b2afaff00000000" ∷ "b708000000000000" ∷ "55013a0008000000"
    ∷ "bfa3000000000000" ∷ "07030000feffffff" ∷ "bf61000000000000" ∷ "b702000014000000"
    ∷ "b704000002000000" ∷ "850000001a000000" ∷ "69a1feff00000000" ∷ "570100003fff0000"
    ∷ "5501310000000000" ∷ "1801000000000000" ∷ "0000000000000000" ∷ "b702000018000000"
    ∷ "b703000000000000" ∷ "8500000083000000" ∷ "bf07000000000000" ∷ "15072a0000000000"
    ∷ "bf73000000000000" ∷ "070300000c000000" ∷ "bf61000000000000" ∷ "b702000017000000"
    ∷ "b704000001000000" ∷ "850000001a000000" ∷ "61710c0000000000" ∷ "15010b002f000000"
    ∷ "bf61000000000000" ∷ "b70200001a000000" ∷ "bf73000000000000" ∷ "b704000004000000"
    ∷ "850000001a000000" ∷ "bf73000000000000" ∷ "0703000004000000" ∷ "bf61000000000000"
    ∷ "b70200001e000000" ∷ "b704000004000000" ∷ "850000001a000000" ∷ "bfa3000000000000"
    ∷ "07030000fdffffff" ∷ "bf61000000000000" ∷ "b70200000e000000" ∷ "b704000001000000"
    ∷ "850000001a000000" ∷ "71a2fdff00000000" ∷ "6702000002000000" ∷ "570200003c000000"
    ∷ "070200000e000000" ∷ "bf73000000000000" ∷ "0703000008000000" ∷ "bf61000000000000"
    ∷ "b704000004000000" ∷ "850000001a000000" ∷ "6161040000000000" ∷ "6317100000000000"
    ∷ "6161280000000000" ∷ "6317140000000000" ∷ "bf71000000000000" ∷ "b702000000000000"
    ∷ "8500000084000000" ∷ "6168000000000000" ∷ "bf80000000000000" ∷ "9500000000000000" ∷ []

abbrev sockfilter_socket_handler_relocations : List (ℕ × String)
sockfilter_socket_handler_relocations = (21, "rb") ∷ []

unfoldable pub sockfilter_socket_handler_program : Program
unfolding assemble
sockfilter_socket_handler_program = record {
  slots = assemble sockfilter_socket_handler_code;
  relocations = sockfilter_socket_handler_relocations;
}
