-- ===== src/Bpf/Tests.antt =====
-- The handlers of examples/c at small inputs, and their theorems at a few calls of two processes.
use hello_e_bpf.Prelude.{
  ◌+◌, ◌-◌, ◌*◌, ◌^◌, ◌≡◌, refl, [], ◌∷◌, ◌++◌, arith, pos, negsuc, replicate,
}
use hello_e_bpf.Bpf.Handlers.{to_int, triggered, hello_world, handle_write}
use hello_e_bpf.Bpf.Tracing.{Thread, IsThread, trace_writes, calls_of, AllThreads, trace_writes_lem}
use hello_e_bpf.Bpf.Together.{write_by, openat_by, trace_calls, expected_lines, trace_calls_lem}

to_int_wraps : to_int (2 ^ 32 - 1) ≡ negsuc 0
unfolding to_int
to_int_wraps = refl

handle_own : handle_write (pos 7) (7 * 2 ^ 32 + 9) [] ≡ (pos 0, triggered (pos 7) ∷ [])
unfolding handle_write
handle_own = refl

handle_other : handle_write (pos 7) (9 * 2 ^ 32 + 7) [] ≡ (pos 0, [])
unfolding handle_write
handle_other = refl

abbrev first : Thread
first = record { tgid = 7; tid = 7 }

abbrev second : Thread
second = record { tgid = 7; tid = 8 }

abbrev stranger : Thread
stranger = record { tgid = 8; tid = 8 }

first-IsThread : IsThread first
first-IsThread = record { tgid_small = omega arith; tid_small = omega arith }

stranger-IsThread : IsThread stranger
stranger-IsThread = record { tgid_small = omega arith; tid_small = omega arith }

second-IsThread : IsThread second
second-IsThread = record { tgid_small = omega arith; tid_small = omega arith }

three-AllThreads : AllThreads (first ∷ stranger ∷ second ∷ [])
three-AllThreads = (first-IsThread, (stranger-IsThread, (second-IsThread, tt)))

trace_writes_lem_example :
    trace_writes (pos 7) (first ∷ stranger ∷ second ∷ []) []
    ≡ [] ++ replicate (calls_of 7 (first ∷ stranger ∷ second ∷ [])) (triggered (pos 7))
trace_writes_lem_example = trace_writes_lem 7 (first ∷ stranger ∷ second ∷ []) [] three-AllThreads

trace_calls_lem_example :
    trace_calls (pos 7) (openat_by first ∷ write_by second ∷ write_by stranger ∷ []) []
    ≡ [] ++ expected_lines 7 (openat_by first ∷ write_by second ∷ write_by stranger ∷ [])
trace_calls_lem_example =
    trace_calls_lem 7 (openat_by first ∷ write_by second ∷ write_by stranger ∷ []) []
      (second-IsThread, (stranger-IsThread, tt))

expected_two :
    expected_lines 7 (openat_by first ∷ write_by second ∷ write_by stranger ∷ [])
    ≡ hello_world ∷ triggered (pos 7) ∷ []
unfolding expected_lines
expected_two = refl
