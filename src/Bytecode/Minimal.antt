-- ===== src/Bytecode/Minimal.antt =====
-- The compiled minimal.bpf.c, in examples/c/.output/minimal.skel.h, does what its source says.
use hello_e_bpf.Prelude.{
  ℕ, ◌+◌, ◌/◌, ◌%◌, ◌^◌, ◌<◌, ◌≡◌, refl, sym, subst, inl, inr, Bool-cases, true, false, none, some,
  List, [], ◌∷◌, ◌++◌, append-nil, ◌==◌, arith, ℤ, pos,
}
use hello_e_bpf.Memory.{Bytes}
use hello_e_bpf.Bpf.Handlers.{triggered, hello_world, Trace, to_int, int_eq, handle_write}
use hello_e_bpf.Bytecode.Instruction.{
  register, constant, mov, rsh, ne, alu, load_imm, high, load, jump_if, call, exit,
}
use hello_e_bpf.Bytecode.Machine.{Program, Kernel, End, exited, call_program}
use hello_e_bpf.Bytecode.Flat.{call_flat, call_program-flat}
use hello_e_bpf.Bytecode.Tracing.{SameMemory, c_string, prints_part, Printed, InMemory, IsTracing}
use hello_e_bpf.Bytecode.Programs.Minimal.{minimal_handle_tp_program, minimal_rodata}

abbrev triggered_text : Bytes
triggered_text = c_string "BPF triggered from PID %d.\n"

-- The program, read.
abbrev disassembled : Program
disassembled = record {
  slots =
      call 14
      ∷ alu rsh 0 (constant 32)
      ∷ load_imm 1 0
      ∷ high 0
      ∷ load 4 1 1 (pos 0)
      ∷ jump_if ne 1 (register 0) (pos 5)
      ∷ load_imm 1 0
      ∷ high 0
      ∷ alu mov 2 (constant 28)
      ∷ alu mov 3 (register 0)
      ∷ call 6
      ∷ alu mov 0 (constant 0)
      ∷ exit
      ∷ [];
  relocations = (2, "my_pid") ∷ (6, ".rodata") ∷ [];
}

rodata_is_text : minimal_rodata ≡ triggered_text
unfolding minimal_rodata
rodata_is_text = refl

disassembly : minimal_handle_tp_program ≡ disassembled
unfolding minimal_handle_tp_program
disassembly = refl

same_address : (a : ℕ) → a < 2 ^ 64 → ((a + 0) % 2 ^ 64 + 0) % 2 ^ 64 ≡ a
same_address a h = omega arith

abbrev hello_text : Bytes
hello_text = c_string "Hello, World!\n"

-- The calls of bpf_trace_printk() that write these lines; %d shows the low 32 bits of its argument.
abbrev pub Shows : List Printed → Trace → Type 0
Shows [] [] = Unit
Shows (p ∷ calls) (triggered pid ∷ trace) =
    (p.text ≡ triggered_text)
    × ((a : ℕ) × (p.first ≡ some a) × (to_int a ≡ pid))
    × Shows calls trace
Shows (p ∷ calls) (hello_world ∷ trace) = (p.text ≡ hello_text) × Shows calls trace
Shows [] (_ ∷ _) = ⊥
Shows (_ ∷ _) [] = ⊥

-- A run of a program does what its source says: it returns the same value and writes the same lines.
abbrev pub Refines : {k : Kernel} → IsTracing k → k.World → End k.World → ℤ × Trace → Type 0
Refines {k} t w end (returned, lines) =
    (r0 : ℕ) × (w' : k.World) × (calls : List Printed) × (end ≡ exited r0 w')
    × SameMemory k w w'
    × (to_int r0 ≡ returned)
    × (t.trace w' ≡ t.trace w ++ calls)
    × Shows calls lines

int_eq-to_int : (a b : ℕ) → a < 2 ^ 32 → b < 2 ^ 32 → int_eq (to_int a) (to_int b) ≡ (b == a)
unfolding int_eq to_int
int_eq-to_int a b h h' = ground arith

module _ {k : Kernel} (t : IsTracing k) (context frame : ℕ) (w : k.World) (my_pid : ℕ)
    (there : k.load_bytes 4 (k.address_of "my_pid") w ≡ some my_pid) where
  other :
      (my_pid == t.pid_tgid w / 2 ^ 32) ≡ false
      → call_program k minimal_handle_tp_program context frame w ≡ exited 0 w
  unfolding call_flat
  other e = rw (
    disassembly,
    call_program-flat k disassembled refl context frame w,
    call_flat,
    t.gets_pid_tgid _ w,
    same_address _ (t.address_is_word "my_pid"),
    there,
    t.gets_pid_tgid _ w,
    e,
  )

  own :
      (my_pid == t.pid_tgid w / 2 ^ 32) ≡ true
      → InMemory k w (k.address_of ".rodata") triggered_text
      → (w' : k.World) × (call_program k minimal_handle_tp_program context frame w ≡ exited 0 w')
        × SameMemory k w w'
        × (t.trace w'
            ≡ t.trace w
              ++ record {
                text = triggered_text;
                first = some (t.pid_tgid w / 2 ^ 32);
                second = none;
                third = none;
              }
                ∷ [])
  unfolding call_flat
  own e held =
      rw
        (
          disassembly,
          call_program-flat k disassembled refl context frame w,
          call_flat,
          t.gets_pid_tgid _ w,
          same_address _ (t.address_is_word "my_pid"),
          there,
          t.gets_pid_tgid _ w,
          e,
        )
        (
          _,
          refl,
          t.print_keeps _ w,
          prints_part t _ w ".rodata" [] triggered_text [] held
              (omega (arith, t.address_is_word ".rodata")) refl refl,
        )

  -- The instructions of minimal.skel.h do what minimal.bpf.c says, for every my_pid and every caller:
  -- where .bss holds the word `my_pid` and .rodata what the file says, a run returns what the source
  -- returns, writes the lines that the source writes, and changes no memory.
  pub minimal_handle_tp-Refines :
      my_pid < 2 ^ 32
      → InMemory k w (k.address_of ".rodata") minimal_rodata
      → Refines t w
          (call_program k minimal_handle_tp_program context frame w)
          (handle_write (to_int my_pid) (t.pid_tgid w) [])
  unfolding handle_write
  minimal_handle_tp-Refines word held =
      let small : t.pid_tgid w / 2 ^ 32 < 2 ^ 32 = omega (arith, t.pid_tgid_is_word w) in
      let same = int_eq-to_int (t.pid_tgid w / 2 ^ 32) my_pid small word in
      elim (Bool-cases (my_pid == t.pid_tgid w / 2 ^ 32)) [
        | inl e ↦
            let (w', ends, keeps, traced) =
              own e (subst (InMemory k w (k.address_of ".rodata")) rodata_is_text held) in
            rw (same, e, handle_write)
              (0, w', _, ends, keeps, refl, traced, (refl, (_, refl, refl), tt))
        | inr e ↦
            rw (same, e, handle_write)
              (0, w, [], other e, (λ size a. refl), refl, sym (append-nil _), tt)
      ]
