-- ===== src/Bytecode/Programs/Usdt.antt =====
-- The programs in examples/c/.output/usdt.skel.h: the sections of its ELF bytes that hold
-- instructions, slot by slot, the slots that name a symbol, and those that call a function of the
-- section .text, which stands after each program.
use Prim.Native.String.{String}
use hello_e_bpf.Prelude.{ℕ, List, [], ◌∷◌, ◌++◌, length}
use hello_e_bpf.Bytecode.Instruction.{assemble, link}
use hello_e_bpf.Bytecode.Machine.{Program, moved_by}

-- .text
abbrev usdt_text_code : List String
usdt_text_code =
    "1802000000000000" ∷ "0000000000000000" ∷ "7122000000000000" ∷ "55020d0000000000"
    ∷ "7911000100000000" ∷ "7b1af8ff00000000" ∷ "bfa2000000000000" ∷ "07020000f8ffffff"
    ∷ "1801000000000000" ∷ "0000000000000000" ∷ "8500000001000000" ∷ "bf01000000000000"
    ∷ "18000000fdffffff" ∷ "0000000000000000" ∷ "1501030000000000" ∷ "6110000000000000"
    ∷ "0500010000000000" ∷ "85000000ae000000" ∷ "18060000fdffffff" ∷ "0000000000000000"
    ∷ "630af4ff00000000" ∷ "6700000020000000" ∷ "c700000020000000" ∷ "b701000000000000"
    ∷ "6d01090000000000" ∷ "bfa2000000000000" ∷ "07020000f4ffffff" ∷ "1801000000000000"
    ∷ "0000000000000000" ∷ "8500000001000000" ∷ "1500030000000000" ∷ "6906c80000000000"
    ∷ "6706000030000000" ∷ "c706000030000000" ∷ "bf60000000000000" ∷ "9500000000000000"
    ∷ "bf36000000000000" ∷ "bf27000000000000" ∷ "bf18000000000000" ∷ "b701000000000000"
    ∷ "7b16000000000000" ∷ "1801000000000000" ∷ "0000000000000000" ∷ "7111000000000000"
    ∷ "55010d0000000000" ∷ "7981000100000000" ∷ "7b1af8ff00000000" ∷ "bfa2000000000000"
    ∷ "07020000f8ffffff" ∷ "1801000000000000" ∷ "0000000000000000" ∷ "8500000001000000"
    ∷ "bf01000000000000" ∷ "18000000fdffffff" ∷ "0000000000000000" ∷ "1501040000000000"
    ∷ "6110000000000000" ∷ "0500020000000000" ∷ "bf81000000000000" ∷ "85000000ae000000"
    ∷ "18090000fdffffff" ∷ "0000000000000000" ∷ "630af4ff00000000" ∷ "6700000020000000"
    ∷ "c700000020000000" ∷ "b701000000000000" ∷ "6d015e0000000000" ∷ "bfa2000000000000"
    ∷ "07020000f4ffffff" ∷ "1801000000000000" ∷ "0000000000000000" ∷ "8500000001000000"
    ∷ "1500580000000000" ∷ "18090000feffffff" ∷ "0000000000000000" ∷ "250755000b000000"
    ∷ "6901c80000000000" ∷ "6701000030000000" ∷ "c701000030000000" ∷ "3d17510000000000"
    ∷ "bf71000000000000" ∷ "6701000004000000" ∷ "bf02000000000000" ∷ "0f12000000000000"
    ∷ "6121080000000000" ∷ "15011c0002000000" ∷ "1501060001000000" ∷ "18090000eaffffff"
    ∷ "0000000000000000" ∷ "5501470000000000" ∷ "7921000000000000" ∷ "7b1af8ff00000000"
    ∷ "0500330000000000" ∷ "bf71000000000000" ∷ "6701000004000000" ∷ "bf02000000000000"
    ∷ "0f12000000000000" ∷ "69210c0000000000" ∷ "6701000030000000" ∷ "c701000030000000"
    ∷ "0f18000000000000" ∷ "bfa1000000000000" ∷ "07010000f8ffffff" ∷ "b702000008000000"
    ∷ "bf83000000000000" ∷ "bf08000000000000" ∷ "8500000071000000" ∷ "bf09000000000000"
    ∷ "bf80000000000000" ∷ "bf91000000000000" ∷ "6701000020000000" ∷ "7701000020000000"
    ∷ "15011f0000000000" ∷ "05002f0000000000" ∷ "69210c0000000000" ∷ "6701000030000000"
    ∷ "c701000030000000" ∷ "0f18000000000000" ∷ "bfa1000000000000" ∷ "07010000f8ffffff"
    ∷ "bf29000000000000" ∷ "b702000008000000" ∷ "bf83000000000000" ∷ "bf08000000000000"
    ∷ "8500000071000000" ∷ "bf92000000000000" ∷ "bf09000000000000" ∷ "bf91000000000000"
    ∷ "6701000020000000" ∷ "7701000020000000" ∷ "55011e0000000000" ∷ "7921000000000000"
    ∷ "79a3f8ff00000000" ∷ "0f13000000000000" ∷ "bfa1000000000000" ∷ "07010000f8ffffff"
    ∷ "b702000008000000" ∷ "8500000070000000" ∷ "bf09000000000000" ∷ "bf80000000000000"
    ∷ "bf91000000000000" ∷ "6701000020000000" ∷ "7701000020000000" ∷ "5501110000000000"
    ∷ "6707000004000000" ∷ "0f70000000000000" ∷ "71010f0000000000" ∷ "6701000038000000"
    ∷ "c701000038000000" ∷ "6701000020000000" ∷ "7701000020000000" ∷ "79a2f8ff00000000"
    ∷ "6f12000000000000" ∷ "bf23000000000000" ∷ "7f13000000000000" ∷ "71040e0000000000"
    ∷ "1504020000000000" ∷ "cf12000000000000" ∷ "bf23000000000000" ∷ "7b36000000000000"
    ∷ "b709000000000000" ∷ "bf90000000000000" ∷ "9500000000000000" ∷ "1802000000000000"
    ∷ "0000000000000000" ∷ "7122000000000000" ∷ "55020d0000000000" ∷ "7911000100000000"
    ∷ "7b1af8ff00000000" ∷ "bfa2000000000000" ∷ "07020000f8ffffff" ∷ "1801000000000000"
    ∷ "0000000000000000" ∷ "8500000001000000" ∷ "bf01000000000000" ∷ "18000000fdffffff"
    ∷ "0000000000000000" ∷ "1501030000000000" ∷ "6110000000000000" ∷ "0500010000000000"
    ∷ "85000000ae000000" ∷ "630af4ff00000000" ∷ "6700000020000000" ∷ "c700000020000000"
    ∷ "b706000000000000" ∷ "6d06070000000000" ∷ "bfa2000000000000" ∷ "07020000f4ffffff"
    ∷ "1801000000000000" ∷ "0000000000000000" ∷ "8500000001000000" ∷ "1500010000000000"
    ∷ "7906c00000000000" ∷ "bf60000000000000" ∷ "9500000000000000" ∷ []

abbrev usdt_text_relocations : List (ℕ × String)
usdt_text_relocations =
    (0, "LINUX_HAS_BPF_COOKIE")
    ∷ (8, "__bpf_usdt_ip_to_spec_id")
    ∷ (27, "__bpf_usdt_specs")
    ∷ (41, "LINUX_HAS_BPF_COOKIE")
    ∷ (49, "__bpf_usdt_ip_to_spec_id")
    ∷ (69, "__bpf_usdt_specs")
    ∷ (163, "LINUX_HAS_BPF_COOKIE")
    ∷ (171, "__bpf_usdt_ip_to_spec_id")
    ∷ (188, "__bpf_usdt_specs")
    ∷ []

-- usdt/libc.so.6:libc:setjmp
abbrev usdt_usdt_auto_attach_code : List String
usdt_usdt_auto_attach_code =
    "bf18000000000000" ∷ "bfa3000000000000" ∷ "07030000f8ffffff" ∷ "b702000000000000"
    ∷ "85100000ffffffff" ∷ "79a6f8ff00000000" ∷ "bfa3000000000000" ∷ "07030000f8ffffff"
    ∷ "bf81000000000000" ∷ "b702000001000000" ∷ "85100000ffffffff" ∷ "79a7f8ff00000000"
    ∷ "bfa3000000000000" ∷ "07030000f8ffffff" ∷ "bf81000000000000" ∷ "b702000002000000"
    ∷ "85100000ffffffff" ∷ "79a8f8ff00000000" ∷ "850000000e000000" ∷ "7700000020000000"
    ∷ "1801000000000000" ∷ "0000000000000000" ∷ "6111000000000000" ∷ "5d01070000000000"
    ∷ "1801000000000000" ∷ "0000000000000000" ∷ "b702000043000000" ∷ "bf63000000000000"
    ∷ "bf74000000000000" ∷ "bf85000000000000" ∷ "8500000006000000" ∷ "b700000000000000"
    ∷ "9500000000000000" ∷ []

abbrev usdt_usdt_auto_attach_relocations : List (ℕ × String)
usdt_usdt_auto_attach_relocations = (20, "my_pid") ∷ (24, ".rodata") ∷ []

abbrev usdt_usdt_auto_attach_calls : List (ℕ × ℕ)
usdt_usdt_auto_attach_calls = (4, 36) ∷ (10, 36) ∷ (16, 36) ∷ []

unfoldable pub usdt_usdt_auto_attach_program : Program
unfolding assemble link
usdt_usdt_auto_attach_program = record {
  slots =
      link usdt_usdt_auto_attach_calls (length usdt_usdt_auto_attach_code) 0
        (assemble (usdt_usdt_auto_attach_code ++ usdt_text_code));
  relocations =
      usdt_usdt_auto_attach_relocations
      ++ moved_by (length usdt_usdt_auto_attach_code) usdt_text_relocations;
}

-- usdt
abbrev usdt_usdt_manual_attach_code : List String
usdt_usdt_manual_attach_code =
    "bf17000000000000" ∷ "bfa3000000000000" ∷ "07030000f8ffffff" ∷ "b702000000000000"
    ∷ "85100000ffffffff" ∷ "79a6f8ff00000000" ∷ "bfa3000000000000" ∷ "07030000f8ffffff"
    ∷ "bf71000000000000" ∷ "b702000001000000" ∷ "85100000ffffffff" ∷ "79a8f8ff00000000"
    ∷ "bfa3000000000000" ∷ "07030000f8ffffff" ∷ "bf71000000000000" ∷ "b702000002000000"
    ∷ "85100000ffffffff" ∷ "79a5f8ff00000000" ∷ "1801000043000000" ∷ "0000000000000000"
    ∷ "b702000045000000" ∷ "bf63000000000000" ∷ "bf84000000000000" ∷ "8500000006000000"
    ∷ "b700000000000000" ∷ "9500000000000000" ∷ []

abbrev usdt_usdt_manual_attach_relocations : List (ℕ × String)
usdt_usdt_manual_attach_relocations = (18, ".rodata") ∷ []

abbrev usdt_usdt_manual_attach_calls : List (ℕ × ℕ)
usdt_usdt_manual_attach_calls = (4, 36) ∷ (10, 36) ∷ (16, 36) ∷ []

unfoldable pub usdt_usdt_manual_attach_program : Program
unfolding assemble link
usdt_usdt_manual_attach_program = record {
  slots =
      link usdt_usdt_manual_attach_calls (length usdt_usdt_manual_attach_code) 0
        (assemble (usdt_usdt_manual_attach_code ++ usdt_text_code));
  relocations =
      usdt_usdt_manual_attach_relocations
      ++ moved_by (length usdt_usdt_manual_attach_code) usdt_text_relocations;
}
