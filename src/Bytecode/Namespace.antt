-- ===== src/Bytecode/Namespace.antt =====
-- The compiled program of examples/c/.output/minimal_ns.skel.h: as minimal.bpf.c, but with the process
-- number that the caller has in one namespace, which `dev` and `ino` name.
use hello_e_bpf.Prelude.{
  ℕ, ◌+◌, ◌-◌, ◌%◌, ◌^◌, ◌≤◌, ◌<◌, ◌≡◌, refl, sym, ap, subst, ◌∙◌, ◌⊎◌, inl, inr, Bool-cases, true,
  false, none, some, [], ◌∷◌, ◌++◌, append-nil, ◌==◌, if◌then◌else◌, arith, pos, negsuc, length,
}
use hello_e_bpf.Memory.{Bytes}
use hello_e_bpf.Bytecode.Instruction.{
  register, constant, mov, add, ne, alu, load_imm, high, load, jump_if, call, exit,
}
use hello_e_bpf.Bytecode.Machine.{Program, Kernel, Registers, exited, update, call_program}
use hello_e_bpf.Bytecode.Flat.{call_flat, call_program-flat}
use hello_e_bpf.Bytecode.Tracing.{c_string, prints_part, Printed, InMemory, IsTracing}
use hello_e_bpf.Bytecode.Programs.MinimalNs.{minimal_ns_handle_tp_program, minimal_ns_rodata}

abbrev disassembled : Program
disassembled = record {
  slots =
      load_imm 1 0
      ∷ high 0
      ∷ load 8 1 1 (pos 0)
      ∷ load_imm 2 0
      ∷ high 0
      ∷ load 8 2 2 (pos 0)
      ∷ alu mov 3 (register 10)
      ∷ alu add 3 (constant (2 ^ 64 - 8))
      ∷ alu mov 4 (constant 8)
      ∷ call 120
      ∷ load_imm 1 0
      ∷ high 0
      ∷ load 4 1 1 (pos 0)
      ∷ load 4 3 10 (negsuc 7)
      ∷ jump_if ne 3 (register 1) (pos 4)
      ∷ load_imm 1 0
      ∷ high 0
      ∷ alu mov 2 (constant 28)
      ∷ call 6
      ∷ alu mov 0 (constant 0)
      ∷ exit
      ∷ [];
  relocations = (0, "dev") ∷ (3, "ino") ∷ (10, "my_pid") ∷ (15, ".rodata") ∷ [];
}

disassembly : minimal_ns_handle_tp_program ≡ disassembled
unfolding minimal_ns_handle_tp_program
disassembly = refl

abbrev triggered_text : Bytes
triggered_text = c_string "BPF triggered from PID %d.\n"

rodata_is_text : minimal_ns_rodata ≡ triggered_text
unfolding minimal_ns_rodata
rodata_is_text = refl

-- bpf_get_ns_current_pid_tgid(dev, ino, nsdata, 8) is helper 120: asked for eight bytes, it
-- writes them at r3, and the first four are the process's number in the namespace, or 0 outside it. It
-- prints nothing.
pub record IsNamespaced {k : Kernel} (t : IsTracing k) : Type 0 where
  pub number_in : (dev ino : ℕ) → k.World → ℕ
  pub writes_number :
      (r : Registers) (w : k.World) (dev ino a : ℕ)
      → r 1 ≡ some dev
      → r 2 ≡ some ino
      → r 3 ≡ some a
      → r 4 ≡ some 8
      → k.load_bytes 4 a (k.helper 120 r w).1 ≡ some (number_in dev ino w)
  pub keeps_rest :
      (r : Registers) (w : k.World) (a size b : ℕ)
      → r 3 ≡ some a
      → r 4 ≡ some 8
      → (b + size ≤ a) ⊎ (a + 8 ≤ b)
      → k.load_bytes size b (k.helper 120 r w).1 ≡ k.load_bytes size b w
  pub silent : (r : Registers) (w : k.World) → t.trace (k.helper 120 r w).1 ≡ t.trace w

same_address : (a : ℕ) → a < 2 ^ 64 → ((a + 0) % 2 ^ 64 + 0) % 2 ^ 64 ≡ a
same_address a h = omega arith

-- The bytes of a range that do not meet the eight bytes at `a`.
abbrev pub Apart : (frame b size : ℕ) → Type 0
Apart frame b size = (b + size ≤ frame - 8) ⊎ (frame ≤ b)

InMemory-kept :
    (k : Kernel) {t : IsTracing k} (ns : IsNamespaced t) (r : Registers) (w : k.World) (frame b : ℕ)
    (bytes : Bytes)
    → 8 ≤ frame
    → r 3 ≡ some (frame - 8)
    → r 4 ≡ some 8
    → Apart frame b (length bytes)
    → InMemory k w b bytes
    → InMemory k (k.helper 120 r w).1 b bytes
InMemory-kept k ns r w frame b [] fits e e' apart h = tt
InMemory-kept k ns r w frame b (x ∷ bytes) fits e e' apart h = (
  ns.keeps_rest r w (frame - 8) 1 b e e' (ground arith) ∙ h.0,
  InMemory-kept k ns r w frame (b + 1) bytes fits e e' (ground arith) h.1,
)

module _ {k : Kernel} {t : IsTracing k} (ns : IsNamespaced t) (context frame : ℕ) (w : k.World)
    (dev ino my_pid : ℕ) (at_dev : k.load_bytes 8 (k.address_of "dev") w ≡ some dev)
    (at_ino : k.load_bytes 8 (k.address_of "ino") w ≡ some ino)
    (at_my_pid : k.load_bytes 4 (k.address_of "my_pid") w ≡ some my_pid) (fits : 8 ≤ frame)
    (word : frame < 2 ^ 64) (bss_apart : Apart frame (k.address_of "my_pid") 4) where
  -- The registers at the call of helper 120, and the state after it.
  abbrev arguments : Registers
  arguments =
      update
        (update
          (update
            (update
              (update
                (update
                  (update (update (update (λ _. none) 1 (some context)) 10 (some frame)) 1
                    (some ((k.address_of "dev" + 0) % 2 ^ 64)))
                  1 (some dev))
                2 (some ((k.address_of "ino" + 0) % 2 ^ 64)))
              2 (some ino))
            3 (some frame))
          3 (some ((frame + (2 ^ 64 - 8)) % 2 ^ 64)))
        4 (some 8)

  abbrev asked : k.World
  asked = (k.helper 120 arguments w).1

  abbrev pub number : ℕ
  number = ns.number_in dev ino w

  abbrev pub line : Printed
  line = record { text = triggered_text; first = some number; second = none; third = none }

  r3_is_nsdata : arguments 3 ≡ some (frame - 8)
  unfolding update
  r3_is_nsdata = ap some {x = (frame + (2 ^ 64 - 8)) % 2 ^ 64} {y = frame - 8} (omega arith)

  still_my_pid : k.load_bytes 4 (k.address_of "my_pid") asked ≡ some my_pid
  unfolding update
  still_my_pid =
      ns.keeps_rest arguments w (frame - 8) 4 (k.address_of "my_pid") r3_is_nsdata refl
        (ground arith)
      ∙ at_my_pid

  nsdata_pid : k.load_bytes 4 ((frame + 2 ^ 64 - 8) % 2 ^ 64) asked ≡ some number
  unfolding update
  nsdata_pid =
      ap (λ a. k.load_bytes 4 a asked) {x = (frame + 2 ^ 64 - 8) % 2 ^ 64} {y = frame - 8}
        (omega arith)
      ∙ ns.writes_number arguments w dev ino (frame - 8) refl refl r3_is_nsdata refl

  other :
      (number == my_pid) ≡ false
      → call_program k minimal_ns_handle_tp_program context frame w ≡ exited 0 asked
  unfolding call_flat update
  other e = rw (
    disassembly,
    call_program-flat k disassembled refl context frame w,
    call_flat,
    same_address _ (t.address_is_word "dev"),
    at_dev,
    same_address _ (t.address_is_word "ino"),
    at_ino,
    same_address _ (t.address_is_word "my_pid"),
    still_my_pid,
    nsdata_pid,
    e,
  )

  own :
      (number == my_pid) ≡ true
      → Apart frame (k.address_of ".rodata") 28
      → InMemory k w (k.address_of ".rodata") triggered_text
      → (w' : k.World) × (call_program k minimal_ns_handle_tp_program context frame w ≡ exited 0 w')
        × (t.trace w' ≡ t.trace w ++ line ∷ [])
  unfolding call_flat update
  own e apart held =
      let kept =
        InMemory-kept k ns arguments w frame (k.address_of ".rodata") triggered_text fits
          r3_is_nsdata refl apart held in
      rw
        (
          disassembly,
          call_program-flat k disassembled refl context frame w,
          call_flat,
          same_address _ (t.address_is_word "dev"),
          at_dev,
          same_address _ (t.address_is_word "ino"),
          at_ino,
          same_address _ (t.address_is_word "my_pid"),
          still_my_pid,
          nsdata_pid,
          e,
        )
        (
          _,
          refl,
          prints_part t _ asked ".rodata" [] triggered_text [] kept
                (omega (arith, t.address_is_word ".rodata")) refl refl
              ∙ ap (λ l. l ++ line ∷ []) (ns.silent arguments w),
        )

  -- The program in minimal_ns.skel.h returns 0, and prints one line just if the caller's number in the
  -- namespace is my_pid, with that number; where its frame does not meet the variables.
  pub minimal_ns_handle_tp-Prints :
      Apart frame (k.address_of ".rodata") 28
      → InMemory k w (k.address_of ".rodata") minimal_ns_rodata
      → (w' : k.World) × (call_program k minimal_ns_handle_tp_program context frame w ≡ exited 0 w')
        × (t.trace w' ≡ t.trace w ++ (if number == my_pid then line ∷ [] else []))
  minimal_ns_handle_tp-Prints apart held = elim (Bool-cases (number == my_pid)) [
    | inl e ↦
        rw (e) (own e apart (subst (InMemory k w (k.address_of ".rodata")) rodata_is_text held))
    | inr e ↦ rw (e) (asked, other e, ns.silent arguments w ∙ sym (append-nil _))
  ]
