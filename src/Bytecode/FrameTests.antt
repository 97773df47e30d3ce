-- ===== src/Bytecode/FrameTests.antt =====
-- The theorem on frames at the program for `usdt` in usdt.skel.h, as it enters a function.
use mathlib.Core.List.Memᴰ.{head, tail}
use hello_e_bpf.Prelude.{◌≡◌, refl, none, some, []}
use hello_e_bpf.Bytecode.Machine.{Kernel, State, execute, entry}
use hello_e_bpf.Bytecode.Frames.{frame_at, Reaches, begins, steps, enters}
use hello_e_bpf.Bytecode.Programs.Usdt.{usdt_usdt_manual_attach_program}
use hello_e_bpf.Bytecode.Small.{KernelWorld, small_kernel}
use hello_e_bpf.Bytecode.Ending.{all_programs-frame}

abbrev no_memory : Kernel
no_memory = small_kernel (λ _. none) (λ _ _. none)

abbrev at_rest : KernelWorld
at_rest = record { current = 0; stored = 0; printed = [] }

-- Four instructions, and the first call.
first_call :
    (s : State no_memory) × Reaches no_memory usdt_usdt_manual_attach_program
      (entry no_memory 0 5000 at_rest)
      1
      s
unfolding usdt_usdt_manual_attach_program execute
first_call = (
  _,
  enters (steps (steps (steps (steps begins refl refl) refl refl) refl refl) refl refl) refl refl,
)

all_programs-frame_example : (first_call.0).registers 10 ≡ some (frame_at no_memory 1 5000)
all_programs-frame_example =
    all_programs-frame no_memory usdt_usdt_manual_attach_program 0 5000 1 at_rest first_call.0
      (tail (
        tail (
          tail (
            tail (
              tail (
                tail (
                  tail (
                    tail (
                      tail (
                        tail (
                          tail (
                            tail (
                              tail (
                                tail (
                                  tail (
                                    tail (
                                      tail (
                                        tail
                                          (tail (tail (tail (tail (head refl)))))))))))))))))))))))
      first_call.1
