-- ===== src/Bytecode/Legacy.antt =====
-- The compiled program of examples/c/.output/minimal_legacy.skel.h: as minimal.bpf.c, but it finds its
-- process number in a map, and builds its format on the stack.
pub mod Print
pub mod Run
mod Tests
use hello_e_bpf.Prelude.{
  ℕ, suc, ◌+◌, ◌-◌, ◌*◌, ◌/◌, ◌%◌, ◌^◌, ◌≤◌, ◌<◌, ◌≡◌, ◌≢◌, refl, sym, ap, subst, ◌∙◌, ◌⊎◌, inl,
  inr, Bool-cases, true, false, Option, Bool, none, some, [], ◌∷◌, ◌++◌, append-nil, ◌==◌, ==_iff,
  if◌then◌else◌, arith, pos, negsuc, List, length,
}
use hello_e_bpf.Memory.{Bytes}
use hello_e_bpf.Bytecode.Instruction.{
  register, constant, mov, add, rsh, eq, ne, alu, load_imm, high, load, store, jump_if, call, exit,
}
use hello_e_bpf.Bytecode.Machine.{
  Program, Kernel, Registers, State, End, exited, update, after_call, call_program,
}
use hello_e_bpf.Bytecode.Flat.{run_flat, call_flat, call_program-flat}
use hello_e_bpf.Bytecode.Tracing.{c_string, Printed, InMemory, IsTracing}
use hello_e_bpf.Bytecode.Stack.{little, Apart, HasStack, below_frame, stored_before}
use hello_e_bpf.Bytecode.Programs.MinimalLegacy.{minimal_legacy_handle_tp_program}

abbrev pub disassembled : Program
disassembled = record {
  slots =
      alu mov 1 (constant 0)
      ∷ store 4 10 1 (negsuc 3)
      ∷ call 14
      ∷ alu mov 6 (register 0)
      ∷ alu mov 2 (register 10)
      ∷ alu add 2 (constant (2 ^ 64 - 4))
      ∷ load_imm 1 0
      ∷ high 0
      ∷ call 1
      ∷ alu mov 1 (register 0)
      ∷ alu mov 0 (constant 1)
      ∷ jump_if eq 1 (constant 0) (pos 20)
      ∷ alu rsh 6 (constant 32)
      ∷ load 4 1 1 (pos 0)
      ∷ jump_if ne 1 (register 6) (pos 17)
      ∷ alu mov 1 (constant 667236)
      ∷ store 4 10 1 (negsuc 7)
      ∷ load_imm 1 1344302447
      ∷ high 622871625
      ∷ store 8 10 1 (negsuc 15)
      ∷ load_imm 1 1701995879
      ∷ high 1919295588
      ∷ store 8 10 1 (negsuc 23)
      ∷ load_imm 1 541478978
      ∷ high 1734963828
      ∷ store 8 10 1 (negsuc 31)
      ∷ alu mov 1 (register 10)
      ∷ alu add 1 (constant (2 ^ 64 - 32))
      ∷ alu mov 2 (constant 28)
      ∷ alu mov 3 (register 6)
      ∷ call 6
      ∷ alu mov 0 (constant 0)
      ∷ exit
      ∷ [];
  relocations = (6, "my_pid_map") ∷ [];
}

pub disassembly : minimal_legacy_handle_tp_program ≡ disassembled
unfolding minimal_legacy_handle_tp_program
disassembly = refl

abbrev pub triggered_text : Bytes
triggered_text = c_string "BPF triggered from PID %d.\n"

-- The constants that the program stores are the text.
abbrev pub word_0 : ℕ
word_0 = 541478978 + 2 ^ 32 * 1734963828

abbrev pub word_1 : ℕ
word_1 = 1701995879 + 2 ^ 32 * 1919295588

abbrev pub word_2 : ℕ
word_2 = 1344302447 + 2 ^ 32 * 622871625

abbrev pub word_3 : ℕ
word_3 = 667236

text_is_stored :
    (little 8 word_0 ++ (little 8 word_1 ++ (little 8 word_2 ++ little 4 word_3))) ≡ triggered_text
text_is_stored = refl

abbrev pub line : (pid : ℕ) → Printed
line pid = record { text = triggered_text; first = some pid; second = none; third = none }
