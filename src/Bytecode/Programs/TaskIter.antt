-- ===== src/Bytecode/Programs/TaskIter.antt =====
-- The programs in examples/c/.output/task_iter.skel.h: the sections of its ELF bytes that hold
-- instructions, slot by slot, and the slots that name a symbol.
use Prim.Native.String.{String}
use hello_e_bpf.Prelude.{ℕ, List, [], ◌∷◌}
use hello_e_bpf.Bytecode.Instruction.{assemble}
use hello_e_bpf.Bytecode.Machine.{Program}

-- iter/task
abbrev task_iter_get_tasks_code : List String
task_iter_get_tasks_code =
    "7912000000000000" ∷ "7926000000000000" ∷ "7918080000000000" ∷ "1508270000000000"
    ∷ "1801000000000000" ∷ "0000000000000000" ∷ "1802000000000000" ∷ "0000000000000000"
    ∷ "8500000001000000" ∷ "1500210000000000" ∷ "bf07000000000000" ∷ "61813c0400000000"
    ∷ "6317000000000000" ∷ "6181380400000000" ∷ "6317040000000000" ∷ "b701000001000000"
    ∷ "1501020000000000" ∷ "7981000000000000" ∷ "0500010000000000" ∷ "6181000000000000"
    ∷ "6317080000000000" ∷ "b701000088050000" ∷ "bf83000000000000" ∷ "0f13000000000000"
    ∷ "bf01000000000000" ∷ "070100000c000000" ∷ "b702000010000000" ∷ "bf09000000000000"
    ∷ "8500000073000000" ∷ "0709000020000000" ∷ "bf81000000000000" ∷ "bf92000000000000"
    ∷ "b7030000f8030000" ∷ "b704000000000000" ∷ "850000008d000000" ∷ "b701000001000000"
    ∷ "6d01010000000000" ∷ "7700000003000000" ∷ "63071c0000000000" ∷ "bf61000000000000"
    ∷ "bf72000000000000" ∷ "b703000018040000" ∷ "850000007f000000" ∷ "b700000000000000"
    ∷ "9500000000000000" ∷ []

abbrev task_iter_get_tasks_relocations : List (ℕ × String)
task_iter_get_tasks_relocations = (4, "task_info_buf") ∷ (6, ".bss") ∷ []

unfoldable pub task_iter_get_tasks_program : Program
unfolding assemble
task_iter_get_tasks_program = record {
  slots = assemble task_iter_get_tasks_code;
  relocations = task_iter_get_tasks_relocations;
}
