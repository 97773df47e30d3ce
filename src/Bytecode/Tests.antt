-- ===== src/Bytecode/Tests.antt =====
-- The theorems on the compiled programs over a small kernel.
use hello_e_bpf.Prelude.{
  ℕ, ◌+◌, ◌-◌, ◌*◌, ◌^◌, ◌≡◌, refl, Option, none, some, List, [], ◌∷◌, ◌++◌, ltb, if◌then◌else◌,
  get_elem?, replicate, inl, arith, pos,
}
use hello_e_bpf.Bpf.Handlers.{triggered, to_int, handle_write}
use hello_e_bpf.Bpf.Tracing.{Thread, AllThreads, calls_of}
use hello_e_bpf.Bytecode.Machine.{call_program, exited}
use hello_e_bpf.Bytecode.Tracing.{Printed, Prints}
use hello_e_bpf.Bytecode.Small.{KernelWorld, small_kernel, small-IsTracing, small-IsScheduling}
use hello_e_bpf.Bytecode.Programs.Minimal.{minimal_handle_tp_program, minimal_rodata}
use hello_e_bpf.Bytecode.Programs.Lsm.{lsm_lsm_bpf_program, lsm_rodata}
use hello_e_bpf.Bytecode.Programs.Uprobe.{
  uprobe_uprobe_add_program, uprobe_uretprobe_add_program, uprobe_uprobe_sub_program,
  uprobe_uretprobe_sub_program, uprobe_rodata,
}
use hello_e_bpf.Bytecode.Programs.Fentry.{
  fentry_do_unlinkat_program, fentry_do_unlinkat_exit_program, fentry_rodata,
}
use hello_e_bpf.Bytecode.Minimal.{Shows, Refines, minimal_handle_tp-Refines}
use hello_e_bpf.Bytecode.Scheduling.{run_writes, run_writes_lem}
use hello_e_bpf.Bytecode.Lsm.{Decides, lsm_bpf-Decides}
use hello_e_bpf.Bytecode.Namespace.{IsNamespaced, minimal_ns_handle_tp-Prints}
use hello_e_bpf.Bytecode.Programs.MinimalNs.{minimal_ns_handle_tp_program, minimal_ns_rodata}
use hello_e_bpf.Bytecode.Uprobe.{
  entry_line, exit_line, add_entry, add_exit, sub_entry, sub_exit, uprobe_programs-Prints,
}
use hello_e_bpf.Bytecode.Unlink.{entry_text, exit_text, unlink_programs-Prints}

-- `text` from the address 700 on.
abbrev at_700 : List ℕ → ℕ → Option ℕ
at_700 text a = if ltb a 700 then none else get_elem? text (a - 700)

abbrev idle : KernelWorld
idle = record { current = 7 * 2 ^ 32 + 9; stored = 7; printed = [] }

-- The process 7, whose number is stored.
minimal_handle_tp-Refines_example :
    Refines
      (small-IsTracing (at_700 minimal_rodata) (λ _ _. some 7))
      idle
      (call_program
        (small_kernel (at_700 minimal_rodata) (λ _ _. some 7))
        minimal_handle_tp_program
        0
        0
        idle)
      (handle_write (to_int 7) (7 * 2 ^ 32 + 9) [])
unfolding minimal_rodata
minimal_handle_tp-Refines_example =
    minimal_handle_tp-Refines (small-IsTracing (at_700 minimal_rodata) (λ _ _. some 7)) 0 0 idle 7
      refl (omega arith) (ground arith)

abbrev own_thread : Thread
own_thread = record { tgid = 7; tid = 9 }

abbrev other_thread : Thread
other_thread = record { tgid = 8; tid = 9 }

both-AllThreads : AllThreads (own_thread ∷ other_thread ∷ [])
both-AllThreads = (
  record { tgid_small = omega arith; tid_small = omega arith },
  (record { tgid_small = omega arith; tid_small = omega arith }, tt),
)

run_writes_lem_example :
    (w' : KernelWorld) × (calls : List Printed) × (run_writes
        (small-IsScheduling (at_700 minimal_rodata) (λ _ _. some 7))
        0
        0
        (own_thread ∷ other_thread ∷ [])
        idle
      ≡ exited 0 w')
    × (w'.printed ≡ [] ++ calls)
    × Shows calls (replicate (calls_of 7 (own_thread ∷ other_thread ∷ [])) (triggered (pos 7)))
unfolding minimal_rodata
run_writes_lem_example =
    run_writes_lem (small-IsScheduling (at_700 minimal_rodata) (λ _ _. some 7)) 0 0 7
      (own_thread ∷ other_thread ∷ []) idle (omega arith) both-AllThreads refl (ground arith)

lsm_bpf-Decides_example :
    (r0 : ℕ) × (w' : KernelWorld) × (calls : List Printed) × (call_program
        (small_kernel (at_700 lsm_rodata) (λ _ _. some 0))
        lsm_lsm_bpf_program
        0
        0
        idle
      ≡ exited r0 w')
    × (w'.printed ≡ [] ++ calls)
    × Decides 0 r0 calls
unfolding lsm_rodata
lsm_bpf-Decides_example =
    lsm_bpf-Decides (small-IsTracing (at_700 lsm_rodata) (λ _ _. some 0)) 0 0 idle 0 refl
      (ground arith)

uprobe_programs-Prints_example :
    Prints
      (small-IsTracing (at_700 uprobe_rodata) (λ _ _. some 5))
      idle
      (call_program
        (small_kernel (at_700 uprobe_rodata) (λ _ _. some 5))
        uprobe_uprobe_add_program
        0
        0
        idle)
      (entry_line add_entry 5 5)
    × Prints
        (small-IsTracing (at_700 uprobe_rodata) (λ _ _. some 5))
        idle
        (call_program
          (small_kernel (at_700 uprobe_rodata) (λ _ _. some 5))
          uprobe_uretprobe_add_program
          0
          0
          idle)
        (exit_line add_exit 5)
    × Prints
        (small-IsTracing (at_700 uprobe_rodata) (λ _ _. some 5))
        idle
        (call_program
          (small_kernel (at_700 uprobe_rodata) (λ _ _. some 5))
          uprobe_uprobe_sub_program
          0
          0
          idle)
        (entry_line sub_entry 5 5)
    × Prints
        (small-IsTracing (at_700 uprobe_rodata) (λ _ _. some 5))
        idle
        (call_program
          (small_kernel (at_700 uprobe_rodata) (λ _ _. some 5))
          uprobe_uretprobe_sub_program
          0
          0
          idle)
        (exit_line sub_exit 5)
unfolding uprobe_rodata
uprobe_programs-Prints_example =
    uprobe_programs-Prints (small-IsTracing (at_700 uprobe_rodata) (λ _ _. some 5)) 0 0 idle 5 5
      (ground arith) (omega arith) refl refl

unlink_programs-Prints_example :
    Prints
      (small-IsTracing (at_700 fentry_rodata) (λ _ _. some 5))
      idle
      (call_program
        (small_kernel (at_700 fentry_rodata) (λ _ _. some 5))
        fentry_do_unlinkat_program
        0
        0
        idle)
      (record { text = entry_text; first = some 7; second = some 5; third = none })
    × Prints
        (small-IsTracing (at_700 fentry_rodata) (λ _ _. some 5))
        idle
        (call_program
          (small_kernel (at_700 fentry_rodata) (λ _ _. some 5))
          fentry_do_unlinkat_exit_program
          0
          0
          idle)
        (record { text = exit_text; first = some 7; second = some 5; third = some 5 })
unfolding fentry_rodata
unlink_programs-Prints_example =
    unlink_programs-Prints (small-IsTracing (at_700 fentry_rodata) (λ _ _. some 5)) 0 0 idle
      (omega arith) 5 5 (ground arith) refl refl 5 refl

-- Every word is the process number 7, also the one that helper 120 writes.
abbrev small-IsNamespaced :
    IsNamespaced (small-IsTracing (at_700 minimal_ns_rodata) (λ stored a. some stored))
small-IsNamespaced = record {
  number_in = λ dev ino w. w.stored;
  writes_number = λ r w dev ino a at_r1 at_r2 at_r3 at_r4. refl;
  keeps_rest = λ r w a size b at_r3 at_r4 apart. refl;
  silent = λ r w. refl;
}

minimal_ns_handle_tp-Prints_example :
    (w' : KernelWorld) × (call_program
        (small_kernel (at_700 minimal_ns_rodata) (λ stored a. some stored))
        minimal_ns_handle_tp_program
        0
        5000
        idle
      ≡ exited 0 w')
    × (w'.printed
        ≡ []
          ++ (record { text = minimal_ns_rodata; first = some 7; second = none; third = none }
              ∷ []))
unfolding minimal_ns_rodata
minimal_ns_handle_tp-Prints_example =
    minimal_ns_handle_tp-Prints small-IsNamespaced 0 5000 idle 7 7 7 refl refl refl (omega arith)
      (omega arith) (inl (omega arith)) (inl (omega arith)) (ground arith)
