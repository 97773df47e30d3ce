-- ===== src/Bytecode/Bootstrap.antt =====
-- The programs of examples/c/.output/bootstrap.skel.h, read: one runs when a process executes a program,
-- the other when a thread exits.
pub mod Laws
pub mod Exec
pub mod Exit
pub mod Reporting
pub mod Report
pub mod Parent
pub mod Filling
pub mod Duration
pub mod Lifetime
mod Example
mod ExampleLaws
mod Tests
use hello_e_bpf.Prelude.{◌-◌, ◌^◌, ◌≡◌, refl, [], ◌∷◌, pos, negsuc}
use hello_e_bpf.Bytecode.Instruction.{
  register, constant, mov, add, sub, and, lsh, rsh, eq, ne, gt, alu, load_imm, high, load, store,
  jump, jump_if, call, exit,
}
use hello_e_bpf.Bytecode.Machine.{Program}
use hello_e_bpf.Bytecode.Programs.Bootstrap.{
  bootstrap_handle_exec_program, bootstrap_handle_exit_program,
}

abbrev pub exec_disassembled : Program
exec_disassembled = record {
  slots =
      alu mov 6 (register 1)
      ∷ call 14
      ∷ alu rsh 0 (constant 32)
      ∷ store 4 10 0 (negsuc 3)
      ∷ call 5
      ∷ store 8 10 0 (negsuc 15)
      ∷ alu mov 2 (register 10)
      ∷ alu add 2 (constant (2 ^ 64 - 4))
      ∷ alu mov 3 (register 10)
      ∷ alu add 3 (constant (2 ^ 64 - 16))
      ∷ load_imm 1 0
      ∷ high 0
      ∷ alu mov 4 (constant 0)
      ∷ call 2
      ∷ load_imm 1 0
      ∷ high 0
      ∷ load 8 1 1 (pos 0)
      ∷ jump_if ne 1 (constant 0) (pos 43)
      ∷ alu mov 8 (constant 0)
      ∷ load_imm 1 0
      ∷ high 0
      ∷ alu mov 2 (constant 168)
      ∷ alu mov 3 (constant 0)
      ∷ call 131
      ∷ alu mov 7 (register 0)
      ∷ jump_if eq 7 (constant 0) (pos 35)
      ∷ call 35
      ∷ store 1 7 8 (pos 167)
      ∷ load 4 1 10 (negsuc 3)
      ∷ store 4 7 1 (pos 0)
      ∷ alu mov 1 (constant 1088)
      ∷ alu add 0 (register 1)
      ∷ alu mov 1 (register 10)
      ∷ alu add 1 (constant (2 ^ 64 - 32))
      ∷ alu mov 2 (constant 8)
      ∷ alu mov 3 (register 0)
      ∷ call 113
      ∷ alu mov 1 (constant 1084)
      ∷ load 8 3 10 (negsuc 31)
      ∷ alu add 3 (register 1)
      ∷ alu mov 1 (register 10)
      ∷ alu add 1 (constant (2 ^ 64 - 20))
      ∷ alu mov 2 (constant 4)
      ∷ call 113
      ∷ load 4 1 10 (negsuc 19)
      ∷ store 4 7 1 (pos 4)
      ∷ alu mov 1 (register 7)
      ∷ alu add 1 (constant 24)
      ∷ alu mov 2 (constant 16)
      ∷ call 16
      ∷ load 4 1 6 (pos 8)
      ∷ alu and 1 (constant 65535)
      ∷ alu add 6 (register 1)
      ∷ alu mov 1 (register 7)
      ∷ alu add 1 (constant 40)
      ∷ alu mov 2 (constant 127)
      ∷ alu mov 3 (register 6)
      ∷ call 45
      ∷ alu mov 1 (register 7)
      ∷ alu mov 2 (constant 0)
      ∷ call 132
      ∷ alu mov 0 (constant 0)
      ∷ exit
      ∷ [];
  relocations = (10, "exec_start") ∷ (14, "min_duration_ns") ∷ (19, "rb") ∷ [];
}

pub exec_disassembly : bootstrap_handle_exec_program ≡ exec_disassembled
unfolding bootstrap_handle_exec_program
exec_disassembly = refl

abbrev pub exit_disassembled : Program
exit_disassembled = record {
  slots =
      call 14
      ∷ alu mov 1 (register 0)
      ∷ alu rsh 1 (constant 32)
      ∷ store 4 10 1 (negsuc 3)
      ∷ alu lsh 0 (constant 32)
      ∷ alu rsh 0 (constant 32)
      ∷ jump_if ne 1 (register 0) (pos 76)
      ∷ alu mov 2 (register 10)
      ∷ alu add 2 (constant (2 ^ 64 - 4))
      ∷ load_imm 1 0
      ∷ high 0
      ∷ call 1
      ∷ alu mov 6 (register 0)
      ∷ jump_if eq 6 (constant 0) (pos 5)
      ∷ call 5
      ∷ alu mov 7 (register 0)
      ∷ load 8 1 6 (pos 0)
      ∷ alu sub 7 (register 1)
      ∷ jump (pos 5)
      ∷ alu mov 7 (constant 0)
      ∷ load_imm 1 0
      ∷ high 0
      ∷ load 8 1 1 (pos 0)
      ∷ jump_if ne 1 (constant 0) (pos 59)
      ∷ alu mov 2 (register 10)
      ∷ alu add 2 (constant (2 ^ 64 - 4))
      ∷ load_imm 1 0
      ∷ high 0
      ∷ call 3
      ∷ load_imm 1 0
      ∷ high 0
      ∷ load 8 2 1 (pos 0)
      ∷ jump_if eq 2 (constant 0) (pos 2)
      ∷ load 8 1 1 (pos 0)
      ∷ jump_if gt 1 (register 7) (pos 48)
      ∷ load_imm 1 0
      ∷ high 0
      ∷ alu mov 2 (constant 168)
      ∷ alu mov 3 (constant 0)
      ∷ call 131
      ∷ alu mov 6 (register 0)
      ∷ jump_if eq 6 (constant 0) (pos 41)
      ∷ call 35
      ∷ alu mov 8 (register 0)
      ∷ alu mov 1 (constant 1)
      ∷ store 1 6 1 (pos 167)
      ∷ store 8 6 7 (pos 16)
      ∷ load 4 1 10 (negsuc 3)
      ∷ store 4 6 1 (pos 0)
      ∷ alu mov 1 (constant 1088)
      ∷ alu mov 3 (register 8)
      ∷ alu add 3 (register 1)
      ∷ alu mov 1 (register 10)
      ∷ alu add 1 (constant (2 ^ 64 - 16))
      ∷ alu mov 2 (constant 8)
      ∷ call 113
      ∷ alu mov 1 (constant 1084)
      ∷ load 8 3 10 (negsuc 15)
      ∷ alu add 3 (register 1)
      ∷ alu mov 1 (register 10)
      ∷ alu add 1 (constant (2 ^ 64 - 8))
      ∷ alu mov 2 (constant 4)
      ∷ call 113
      ∷ load 4 1 10 (negsuc 7)
      ∷ store 4 6 1 (pos 4)
      ∷ alu mov 1 (constant 980)
      ∷ alu add 8 (register 1)
      ∷ alu mov 1 (register 10)
      ∷ alu add 1 (constant (2 ^ 64 - 16))
      ∷ alu mov 2 (constant 4)
      ∷ alu mov 3 (register 8)
      ∷ call 113
      ∷ load 4 1 10 (negsuc 15)
      ∷ alu rsh 1 (constant 8)
      ∷ alu and 1 (constant 255)
      ∷ store 4 6 1 (pos 8)
      ∷ alu mov 1 (register 6)
      ∷ alu add 1 (constant 24)
      ∷ alu mov 2 (constant 16)
      ∷ call 16
      ∷ alu mov 1 (register 6)
      ∷ alu mov 2 (constant 0)
      ∷ call 132
      ∷ alu mov 0 (constant 0)
      ∷ exit
      ∷ [];
  relocations =
      (9, "exec_start")
      ∷ (20, "min_duration_ns")
      ∷ (26, "exec_start")
      ∷ (29, "min_duration_ns")
      ∷ (35, "rb")
      ∷ [];
}

pub exit_disassembly : bootstrap_handle_exit_program ≡ exit_disassembled
unfolding bootstrap_handle_exit_program
exit_disassembly = refl
