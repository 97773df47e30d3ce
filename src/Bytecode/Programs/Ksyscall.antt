-- ===== src/Bytecode/Programs/Ksyscall.antt =====
-- The programs in examples/c/.output/ksyscall.skel.h: the sections of its ELF bytes that hold
-- instructions, slot by slot, and the slots that name a symbol.
use Prim.Native.String.{String}
use hello_e_bpf.Prelude.{ℕ, List, [], ◌∷◌}
use hello_e_bpf.Bytecode.Instruction.{assemble}
use hello_e_bpf.Bytecode.Machine.{Program}

-- ksyscall/tgkill
abbrev ksyscall_tgkill_entry_code : List String
ksyscall_tgkill_entry_code =
    "1802000000000000" ∷ "0000000000000000" ∷ "7122000000000000" ∷ "15022d0000000000"
    ∷ "7916000000000000" ∷ "b701000000000000" ∷ "bf63000000000000" ∷ "0f13000000000000"
    ∷ "bfa1000000000000" ∷ "07010000c8ffffff" ∷ "b702000008000000" ∷ "8500000071000000"
    ∷ "b701000008000000" ∷ "bf63000000000000" ∷ "0f13000000000000" ∷ "79a8c8ff00000000"
    ∷ "bfa1000000000000" ∷ "07010000c8ffffff" ∷ "b702000008000000" ∷ "8500000071000000"
    ∷ "b701000010000000" ∷ "0f16000000000000" ∷ "79a9c8ff00000000" ∷ "bfa1000000000000"
    ∷ "07010000c8ffffff" ∷ "b702000008000000" ∷ "bf63000000000000" ∷ "8500000071000000"
    ∷ "79a7c8ff00000000" ∷ "850000000e000000" ∷ "bf06000000000000" ∷ "6707000020000000"
    ∷ "7707000020000000" ∷ "1507300000000000" ∷ "bfa1000000000000" ∷ "07010000f0ffffff"
    ∷ "7b1ac0ff00000000" ∷ "b702000010000000" ∷ "8500000010000000" ∷ "6707000020000000"
    ∷ "c707000020000000" ∷ "7b7ae8ff00000000" ∷ "6708000020000000" ∷ "c708000020000000"
    ∷ "7b8ae0ff00000000" ∷ "6709000020000000" ∷ "c709000020000000" ∷ "7b9ad8ff00000000"
    ∷ "0500160000000000" ∷ "7918080000000000" ∷ "7919000000000000" ∷ "7917100000000000"
    ∷ "850000000e000000" ∷ "bf06000000000000" ∷ "6707000020000000" ∷ "7707000020000000"
    ∷ "1507190000000000" ∷ "bfa1000000000000" ∷ "07010000f0ffffff" ∷ "7b1ac0ff00000000"
    ∷ "b702000010000000" ∷ "8500000010000000" ∷ "6707000020000000" ∷ "c707000020000000"
    ∷ "7b7ae8ff00000000" ∷ "6709000020000000" ∷ "c709000020000000" ∷ "7b9ae0ff00000000"
    ∷ "6708000020000000" ∷ "c708000020000000" ∷ "7b8ad8ff00000000" ∷ "79a1c0ff00000000"
    ∷ "7b1ad0ff00000000" ∷ "7706000020000000" ∷ "7b6ac8ff00000000" ∷ "bfa3000000000000"
    ∷ "07030000c8ffffff" ∷ "1801000000000000" ∷ "0000000000000000" ∷ "b702000051000000"
    ∷ "b704000028000000" ∷ "85000000b1000000" ∷ "b700000000000000" ∷ "9500000000000000" ∷ []

abbrev ksyscall_tgkill_entry_relocations : List (ℕ × String)
ksyscall_tgkill_entry_relocations = (0, "LINUX_HAS_SYSCALL_WRAPPER") ∷ (77, ".rodata") ∷ []

unfoldable pub ksyscall_tgkill_entry_program : Program
unfolding assemble
ksyscall_tgkill_entry_program = record {
  slots = assemble ksyscall_tgkill_entry_code;
  relocations = ksyscall_tgkill_entry_relocations;
}

-- ksyscall/kill
abbrev ksyscall_entry_probe_code : List String
ksyscall_entry_probe_code =
    "1802000000000000" ∷ "0000000000000000" ∷ "7122000000000000" ∷ "1502170000000000"
    ∷ "7916000000000000" ∷ "b701000000000000" ∷ "bf63000000000000" ∷ "0f13000000000000"
    ∷ "bfa1000000000000" ∷ "07010000d0ffffff" ∷ "b702000008000000" ∷ "8500000071000000"
    ∷ "b701000008000000" ∷ "0f16000000000000" ∷ "79a8d0ff00000000" ∷ "bfa1000000000000"
    ∷ "07010000d0ffffff" ∷ "b702000008000000" ∷ "bf63000000000000" ∷ "8500000071000000"
    ∷ "79a9d0ff00000000" ∷ "850000000e000000" ∷ "bf06000000000000" ∷ "6709000020000000"
    ∷ "7709000020000000" ∷ "15091d0000000000" ∷ "0500070000000000" ∷ "7918000000000000"
    ∷ "7919080000000000" ∷ "850000000e000000" ∷ "bf06000000000000" ∷ "6709000020000000"
    ∷ "7709000020000000" ∷ "1509150000000000" ∷ "bfa7000000000000" ∷ "07070000f0ffffff"
    ∷ "bf71000000000000" ∷ "b702000010000000" ∷ "8500000010000000" ∷ "6709000020000000"
    ∷ "c709000020000000" ∷ "7b9ae8ff00000000" ∷ "6708000020000000" ∷ "c708000020000000"
    ∷ "7b8ae0ff00000000" ∷ "7b7ad8ff00000000" ∷ "7706000020000000" ∷ "7b6ad0ff00000000"
    ∷ "bfa3000000000000" ∷ "07030000d0ffffff" ∷ "1801000051000000" ∷ "0000000000000000"
    ∷ "b70200003e000000" ∷ "b704000020000000" ∷ "85000000b1000000" ∷ "b700000000000000"
    ∷ "9500000000000000" ∷ []

abbrev ksyscall_entry_probe_relocations : List (ℕ × String)
ksyscall_entry_probe_relocations = (0, "LINUX_HAS_SYSCALL_WRAPPER") ∷ (50, ".rodata") ∷ []

unfoldable pub ksyscall_entry_probe_program : Program
unfolding assemble
ksyscall_entry_probe_program = record {
  slots = assemble ksyscall_entry_probe_code;
  relocations = ksyscall_entry_probe_relocations;
}
