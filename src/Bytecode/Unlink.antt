-- ===== src/Bytecode/Unlink.antt =====
-- The compiled probes of do_unlinkat() in examples/c/.output/fentry.skel.h, and the one at its exit in
-- examples/c/.output/kprobe.skel.h: they report the process, the file name and the result.
use hello_e_bpf.Prelude.{ℕ, ◌+◌, ◌/◌, ◌^◌, ◌<◌, ◌≡◌, refl, none, some, [], ◌∷◌, arith, pos}
use hello_e_bpf.Memory.{Bytes}
use hello_e_bpf.Bytecode.Instruction.{
  alu, call, constant, exit, high, load, load_imm, mov, register, rsh,
}
use hello_e_bpf.Bytecode.Machine.{Program, Kernel, call_program}
use hello_e_bpf.Bytecode.Words.{displace}
use hello_e_bpf.Bytecode.Flat.{call_flat, call_program-flat}
use hello_e_bpf.Bytecode.Tracing.{c_string, prints_part, Prints, InMemory, IsTracing}
use hello_e_bpf.Bytecode.Programs.Fentry.{
  fentry_do_unlinkat_program, fentry_do_unlinkat_exit_program, fentry_rodata,
}
use hello_e_bpf.Bytecode.Programs.Kprobe.{kprobe_do_unlinkat_exit_program, kprobe_rodata}

abbrev entry_disassembled : Program
entry_disassembled = record {
  slots =
      load 8 6 1 (pos 8)
      ∷ call 14
      ∷ load 8 4 6 (pos 0)
      ∷ alu rsh 0 (constant 32)
      ∷ load_imm 1 0
      ∷ high 0
      ∷ alu mov 2 (constant 33)
      ∷ alu mov 3 (register 0)
      ∷ call 6
      ∷ alu mov 0 (constant 0)
      ∷ exit
      ∷ [];
  relocations = (4, ".rodata") ∷ [];
}

entry_disassembly : fentry_do_unlinkat_program ≡ entry_disassembled
unfolding fentry_do_unlinkat_program
entry_disassembly = refl

abbrev exit_disassembled : Program
exit_disassembled = record {
  slots =
      load 8 6 1 (pos 16)
      ∷ load 8 7 1 (pos 8)
      ∷ call 14
      ∷ load 8 4 7 (pos 0)
      ∷ alu rsh 0 (constant 32)
      ∷ load_imm 1 33
      ∷ high 0
      ∷ alu mov 2 (constant 43)
      ∷ alu mov 3 (register 0)
      ∷ alu mov 5 (register 6)
      ∷ call 6
      ∷ alu mov 0 (constant 0)
      ∷ exit
      ∷ [];
  relocations = (5, ".rodata") ∷ [];
}

exit_disassembly : fentry_do_unlinkat_exit_program ≡ exit_disassembled
unfolding fentry_do_unlinkat_exit_program
exit_disassembly = refl

abbrev kretprobe_disassembled : Program
kretprobe_disassembled = record {
  slots =
      load 8 6 1 (pos 0)
      ∷ call 14
      ∷ alu rsh 0 (constant 32)
      ∷ load_imm 1 38
      ∷ high 0
      ∷ alu mov 2 (constant 34)
      ∷ alu mov 3 (register 0)
      ∷ alu mov 4 (register 6)
      ∷ call 6
      ∷ alu mov 0 (constant 0)
      ∷ exit
      ∷ [];
  relocations = (3, ".rodata") ∷ [];
}

kretprobe_disassembly : kprobe_do_unlinkat_exit_program ≡ kretprobe_disassembled
unfolding kprobe_do_unlinkat_exit_program
kretprobe_disassembly = refl

abbrev pub entry_text : Bytes
entry_text = c_string "fentry: pid = %d, filename = %s\n"

abbrev pub exit_text : Bytes
exit_text = c_string "fexit: pid = %d, filename = %s, ret = %ld\n"

abbrev kprobe_entry_text : Bytes
kprobe_entry_text = c_string "KPROBE ENTRY pid = %d, filename = %s\n"

abbrev kretprobe_text : Bytes
kretprobe_text = c_string "KPROBE EXIT: pid = %d, ret = %ld\n"

module _ {k : Kernel} (t : IsTracing k) (context frame : ℕ) (w : k.World)
    (fits : k.address_of ".rodata" + 128 < 2 ^ 64) where
  -- The process of the caller, as the probes print it.
  abbrev pub caller : ℕ
  caller = t.pid_tgid w / 2 ^ 32

  module _ (name text : ℕ) (held : InMemory k w (k.address_of ".rodata") fentry_rodata)
      (at_name : k.load_bytes 8 (displace context (pos 8)) w ≡ some name)
      (at_text : k.load_bytes 8 (displace name (pos 0)) w ≡ some text) where
    fentry-Prints :
        Prints t w
          (call_program k fentry_do_unlinkat_program context frame w)
          (record { text = entry_text; first = some caller; second = some text; third = none })
    unfolding call_flat fentry_rodata
    fentry-Prints =
        rw
          (
            entry_disassembly,
            call_program-flat k entry_disassembled refl context frame w,
            call_flat,
            at_name,
            t.gets_pid_tgid _ w,
            at_text,
            t.gets_pid_tgid _ w,
          )
          (
            _,
            refl,
            prints_part t _ w ".rodata" [] entry_text exit_text held (omega arith) refl refl,
          )

    fexit-Prints :
        (result : ℕ)
        → k.load_bytes 8 (displace context (pos 16)) w ≡ some result
        → Prints t w (call_program k fentry_do_unlinkat_exit_program context frame w) (record {
          text = exit_text;
          first = some caller;
          second = some text;
          third = some result;
        })
    unfolding call_flat fentry_rodata
    fexit-Prints result at_result =
        rw
          (
            exit_disassembly,
            call_program-flat k exit_disassembled refl context frame w,
            call_flat,
            at_result,
            at_name,
            t.gets_pid_tgid _ w,
            at_text,
            t.gets_pid_tgid _ w,
          )
          (
            _,
            refl,
            prints_part t _ w ".rodata" entry_text exit_text [] held (omega arith) refl refl,
          )

    -- The probe at the entry of do_unlinkat() prints the process and the first word of the struct
    -- filename that its second argument points to; the probe at its exit prints the result too, the
    -- word behind the arguments. Both return 0.
    pub unlink_programs-Prints :
        (result : ℕ)
        → k.load_bytes 8 (displace context (pos 16)) w ≡ some result
        → Prints t w
            (call_program k fentry_do_unlinkat_program context frame w)
            (record { text = entry_text; first = some caller; second = some text; third = none })
          × Prints t w (call_program k fentry_do_unlinkat_exit_program context frame w) (record {
            text = exit_text;
            first = some caller;
            second = some text;
            third = some result;
          })
    unlink_programs-Prints result at_result = (fentry-Prints, fexit-Prints result at_result)

  -- The other probe at the exit, of kprobe.skel.h, prints the process and the result, and returns 0.
  pub kretprobe-Prints :
      (result : ℕ)
      → InMemory k w (k.address_of ".rodata") kprobe_rodata
      → k.load_bytes 8 (displace context (pos 0)) w ≡ some result
      → Prints t w (call_program k kprobe_do_unlinkat_exit_program context frame w) (record {
        text = kretprobe_text;
        first = some caller;
        second = some result;
        third = none;
      })
  unfolding call_flat kprobe_rodata
  kretprobe-Prints result held at_result =
      rw
        (
          kretprobe_disassembly,
          call_program-flat k kretprobe_disassembled refl context frame w,
          call_flat,
          at_result,
          t.gets_pid_tgid _ w,
        )
        (
          _,
          refl,
          prints_part t _ w ".rodata" kprobe_entry_text kretprobe_text [] held (omega arith) refl
              refl,
        )
