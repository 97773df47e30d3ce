-- ===== src/Bytecode/Uprobe.antt =====
-- The compiled probes of examples/c/.output/uprobe.skel.h: at the start and at the end of two functions
-- of a program they report the arguments and the result.
use hello_e_bpf.Prelude.{ℕ, ◌+◌, ◌^◌, ◌<◌, ◌≡◌, refl, none, some, [], ◌∷◌, ◌++◌, arith, pos}
use hello_e_bpf.Memory.{Bytes}
use hello_e_bpf.Bytecode.Instruction.{alu, call, constant, exit, high, load, load_imm, mov}
use hello_e_bpf.Bytecode.Machine.{Program, Kernel, call_program}
use hello_e_bpf.Bytecode.Words.{displace}
use hello_e_bpf.Bytecode.Flat.{call_flat, call_program-flat}
use hello_e_bpf.Bytecode.Tracing.{c_string, prints_part, Prints, Printed, InMemory, IsTracing}
use hello_e_bpf.Bytecode.Programs.Uprobe.{
  uprobe_uprobe_add_program, uprobe_uretprobe_add_program, uprobe_uprobe_sub_program,
  uprobe_uretprobe_sub_program, uprobe_rodata,
}

abbrev uprobe_add_disassembled : Program
uprobe_add_disassembled = record {
  slots =
      load 8 4 1 (pos 8)
      ∷ load 8 3 1 (pos 0)
      ∷ load_imm 1 0
      ∷ high 0
      ∷ alu mov 2 (constant 34)
      ∷ call 6
      ∷ alu mov 0 (constant 0)
      ∷ exit
      ∷ [];
  relocations = (2, ".rodata") ∷ [];
}

uprobe_add_disassembly : uprobe_uprobe_add_program ≡ uprobe_add_disassembled
unfolding uprobe_uprobe_add_program
uprobe_add_disassembly = refl

abbrev uretprobe_add_disassembled : Program
uretprobe_add_disassembled = record {
  slots =
      load 8 3 1 (pos 0)
      ∷ load_imm 1 34
      ∷ high 0
      ∷ alu mov 2 (constant 30)
      ∷ call 6
      ∷ alu mov 0 (constant 0)
      ∷ exit
      ∷ [];
  relocations = (1, ".rodata") ∷ [];
}

uretprobe_add_disassembly : uprobe_uretprobe_add_program ≡ uretprobe_add_disassembled
unfolding uprobe_uretprobe_add_program
uretprobe_add_disassembly = refl

abbrev uprobe_sub_disassembled : Program
uprobe_sub_disassembled = record {
  slots =
      load 8 4 1 (pos 8)
      ∷ load 8 3 1 (pos 0)
      ∷ load_imm 1 64
      ∷ high 0
      ∷ alu mov 2 (constant 34)
      ∷ call 6
      ∷ alu mov 0 (constant 0)
      ∷ exit
      ∷ [];
  relocations = (2, ".rodata") ∷ [];
}

uprobe_sub_disassembly : uprobe_uprobe_sub_program ≡ uprobe_sub_disassembled
unfolding uprobe_uprobe_sub_program
uprobe_sub_disassembly = refl

abbrev uretprobe_sub_disassembled : Program
uretprobe_sub_disassembled = record {
  slots =
      load 8 3 1 (pos 0)
      ∷ load_imm 1 98
      ∷ high 0
      ∷ alu mov 2 (constant 30)
      ∷ call 6
      ∷ alu mov 0 (constant 0)
      ∷ exit
      ∷ [];
  relocations = (1, ".rodata") ∷ [];
}

uretprobe_sub_disassembly : uprobe_uretprobe_sub_program ≡ uretprobe_sub_disassembled
unfolding uprobe_uretprobe_sub_program
uretprobe_sub_disassembly = refl

abbrev pub add_entry : Bytes
add_entry = c_string "uprobed_add ENTRY: a = %d, b = %d"

abbrev pub add_exit : Bytes
add_exit = c_string "uprobed_add EXIT: return = %d"

abbrev pub sub_entry : Bytes
sub_entry = c_string "uprobed_sub ENTRY: a = %d, b = %d"

abbrev pub sub_exit : Bytes
sub_exit = c_string "uprobed_sub EXIT: return = %d"

-- A line on the entry of a function, and on its exit.
abbrev pub entry_line : Bytes → (a b : ℕ) → Printed
entry_line format a b = record { text = format; first = some a; second = some b; third = none }

abbrev pub exit_line : Bytes → (result : ℕ) → Printed
exit_line format result = record { text = format; first = some result; second = none; third = none }

module _ {k : Kernel} (t : IsTracing k) (context frame : ℕ) (w : k.World) (x y : ℕ)
    (held : InMemory k w (k.address_of ".rodata") uprobe_rodata)
    (fits : k.address_of ".rodata" + 128 < 2 ^ 64)
    (first_word : k.load_bytes 8 (displace context (pos 0)) w ≡ some x) where
  uprobe_add-Prints :
      k.load_bytes 8 (displace context (pos 8)) w ≡ some y
      → Prints t w
          (call_program k uprobe_uprobe_add_program context frame w)
          (entry_line add_entry x y)
  unfolding call_flat uprobe_rodata
  uprobe_add-Prints second_word =
      rw
        (
          uprobe_add_disassembly,
          call_program-flat k uprobe_add_disassembled refl context frame w,
          call_flat,
          second_word,
          first_word,
        )
        (
          _,
          refl,
          prints_part t _ w ".rodata" [] add_entry (add_exit ++ (sub_entry ++ sub_exit)) held
              (omega arith) refl refl,
        )

  uretprobe_add-Prints :
      Prints t w
        (call_program k uprobe_uretprobe_add_program context frame w)
        (exit_line add_exit x)
  unfolding call_flat uprobe_rodata
  uretprobe_add-Prints =
      rw
        (
          uretprobe_add_disassembly,
          call_program-flat k uretprobe_add_disassembled refl context frame w,
          call_flat,
          first_word,
        )
        (
          _,
          refl,
          prints_part t _ w ".rodata" add_entry add_exit (sub_entry ++ sub_exit) held (omega arith)
              refl refl,
        )

  uprobe_sub-Prints :
      k.load_bytes 8 (displace context (pos 8)) w ≡ some y
      → Prints t w
          (call_program k uprobe_uprobe_sub_program context frame w)
          (entry_line sub_entry x y)
  unfolding call_flat uprobe_rodata
  uprobe_sub-Prints second_word =
      rw
        (
          uprobe_sub_disassembly,
          call_program-flat k uprobe_sub_disassembled refl context frame w,
          call_flat,
          second_word,
          first_word,
        )
        (
          _,
          refl,
          prints_part t _ w ".rodata" (add_entry ++ add_exit) sub_entry sub_exit held (omega arith)
              refl refl,
        )

  uretprobe_sub-Prints :
      Prints t w
        (call_program k uprobe_uretprobe_sub_program context frame w)
        (exit_line sub_exit x)
  unfolding call_flat uprobe_rodata
  uretprobe_sub-Prints =
      rw
        (
          uretprobe_sub_disassembly,
          call_program-flat k uretprobe_sub_disassembled refl context frame w,
          call_flat,
          first_word,
        )
        (
          _,
          refl,
          prints_part t _ w ".rodata" (add_entry ++ (add_exit ++ sub_entry)) sub_exit [] held
              (omega arith) refl refl,
        )

  -- Each of the four probes prints one line, in the format that .rodata has for it, with the words of
  -- its context, and returns 0: the two words at the entry of a function, the first at its exit.
  pub uprobe_programs-Prints :
      k.load_bytes 8 (displace context (pos 8)) w ≡ some y
      → Prints t w
          (call_program k uprobe_uprobe_add_program context frame w)
          (entry_line add_entry x y)
        × Prints t w
            (call_program k uprobe_uretprobe_add_program context frame w)
            (exit_line add_exit x)
        × Prints t w
            (call_program k uprobe_uprobe_sub_program context frame w)
            (entry_line sub_entry x y)
        × Prints t w
            (call_program k uprobe_uretprobe_sub_program context frame w)
            (exit_line sub_exit x)
  uprobe_programs-Prints second_word = (
    uprobe_add-Prints second_word,
    uretprobe_add-Prints,
    uprobe_sub-Prints second_word,
    uretprobe_sub-Prints,
  )
