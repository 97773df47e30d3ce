-- ===== src/Bpf/Together.antt =====
-- examples/c/minimal.bpf.c and examples/c/hello.bpf.c attached together: one handler runs at each
-- write(), the other at each openat(), and both write to one trace.
use hello_e_bpf.Prelude.{
  ℕ, ◌≡◌, sym, ◌∙◌, inl, inr, Bool-cases, List, [], ◌∷◌, ◌++◌, append_assoc, append-nil, ◌==◌,
  if◌then◌else◌, ℤ, pos,
}
use hello_e_bpf.Bpf.Handlers.{triggered, hello_world, Trace, handle_write, handle_openat}
use hello_e_bpf.Bpf.Tracing.{Thread, IsThread, pid_tgid, handle_write_lem}

pub data SystemCall : Type 0 where
  write_by : Thread → SystemCall
  openat_by : Thread → SystemCall

-- The trace after these calls, in this order.
unfoldable pub trace_calls : (my_pid : ℤ) → List SystemCall → Trace → Trace
trace_calls my_pid [] trace = trace
trace_calls my_pid (write_by t ∷ calls) trace =
    trace_calls my_pid calls (handle_write my_pid (pid_tgid t) trace).1
trace_calls my_pid (openat_by t ∷ calls) trace = trace_calls my_pid calls (handle_openat trace).1

abbrev pub AllWriters : List SystemCall → Type 0
AllWriters [] = Unit
AllWriters (write_by t ∷ calls) = IsThread t × AllWriters calls
AllWriters (openat_by t ∷ calls) = AllWriters calls

-- A line for each write() of the process `pid`, and one for each openat(), in the order of the calls.
unfoldable pub expected_lines : (pid : ℕ) → List SystemCall → Trace
expected_lines pid [] = []
expected_lines pid (write_by t ∷ calls) =
    if t.tgid == pid
    then triggered (pos pid) ∷ expected_lines pid calls
    else expected_lines pid calls
expected_lines pid (openat_by t ∷ calls) = hello_world ∷ expected_lines pid calls

-- With both programs attached, and the process number `pid` in my_pid, any sequence of write() and
-- openat() calls by threads adds to the trace one line of minimal.bpf.c for each write() by the process
-- `pid`, which names it, one line of hello.bpf.c for each openat(), and nothing else, in the order of the
-- calls.
pub trace_calls_lem :
    (pid : ℕ) (calls : List SystemCall) (trace : Trace)
    → AllWriters calls
    → trace_calls (pos pid) calls trace ≡ trace ++ expected_lines pid calls
unfolding trace_calls expected_lines handle_openat
trace_calls_lem pid [] trace h = sym (append-nil trace)
trace_calls_lem pid (write_by t ∷ calls) trace h =
    rw (handle_write_lem pid t trace h.0) (elim (Bool-cases (t.tgid == pid)) [
      | inl own ↦ rw (own) (
          trace_calls_lem pid calls (trace ++ triggered (pos pid) ∷ []) h.1
          ∙ append_assoc trace (triggered (pos pid) ∷ []) _)
      | inr other ↦ rw (other) (trace_calls_lem pid calls trace h.1)
    ])
trace_calls_lem pid (openat_by t ∷ calls) trace h =
    trace_calls_lem pid calls (trace ++ hello_world ∷ []) h
    ∙ append_assoc trace (hello_world ∷ []) _
