-- ===== src/Bpf/Tracing.antt =====
-- What the trace holds after any sequence of system calls, by whichever threads, each of which runs
-- the handler of examples/c/minimal.bpf.c or examples/c/hello.bpf.c once.
use hello_e_bpf.Prelude.{
  ℕ, zero, suc, ◌+◌, ◌*◌, ◌/◌, ◌^◌, ◌<◌, ◌≡◌, sym, ap, ◌∙◌, inl, inr, Bool-cases, List, [], ◌∷◌,
  ◌++◌, ◌==◌, if◌then◌else◌, ℤ, pos, append_assoc, append-nil, arith, replicate,
}
use hello_e_bpf.Bpf.Handlers.{to_int, triggered, hello_world, Trace, handle_write, handle_openat}

-- A thread: its process (`tgid`) and its own number.
pub record Thread : Type 0 where
  pub tgid : ℕ
  pub tid : ℕ

-- What bpf_get_current_pid_tgid() returns in it.
abbrev pub pid_tgid : Thread → ℕ
pid_tgid t = t.tgid * 2 ^ 32 + t.tid

-- The kernel's process and thread numbers stay far below 2^31.
pub record IsThread (t : Thread) : Type 0 where
  pub tgid_small : t.tgid < 2 ^ 31
  pub tid_small : t.tid < 2 ^ 31

-- The trace after write() calls by these threads, in this order.
unfoldable pub trace_writes : (my_pid : ℤ) → List Thread → Trace → Trace
trace_writes my_pid [] trace = trace
trace_writes my_pid (t ∷ ts) trace =
    trace_writes my_pid ts (handle_write my_pid (pid_tgid t) trace).1

-- The trace after openat() calls by `n` threads.
unfoldable pub trace_openats : ℕ → Trace → Trace
trace_openats zero trace = trace
trace_openats (suc n) trace = trace_openats n (handle_openat trace).1

-- How many of the calls come from the process `pid`.
unfoldable pub calls_of : ℕ → List Thread → ℕ
calls_of pid [] = 0
calls_of pid (t ∷ ts) = (if t.tgid == pid then 1 else 0) + calls_of pid ts

abbrev pub AllThreads : List Thread → Type 0
AllThreads [] = Unit
AllThreads (t ∷ ts) = IsThread t × AllThreads ts

pub to_int-tgid : (t : Thread) → IsThread t → to_int (pid_tgid t / 2 ^ 32) ≡ pos t.tgid
unfolding to_int
to_int-tgid t h = ground arith

-- One call: the handler returns 0, and adds one line exactly if the caller's process is the one.
pub handle_write_lem :
    (pid : ℕ) (t : Thread) (trace : Trace)
    → IsThread t
    → handle_write (pos pid) (pid_tgid t) trace
      ≡ (pos 0, (if t.tgid == pid then trace ++ triggered (pos pid) ∷ [] else trace))
unfolding handle_write
handle_write_lem pid t trace h = ground arith

-- After any sequence of write() calls the trace has one line for each call of the process `pid`,
-- which names `pid`, and no line for any other call.
pub trace_writes_lem :
    (pid : ℕ) (ts : List Thread) (trace : Trace)
    → AllThreads ts
    → trace_writes (pos pid) ts trace ≡ trace ++ replicate (calls_of pid ts) (triggered (pos pid))
unfolding trace_writes calls_of
trace_writes_lem pid [] trace h = sym (append-nil trace)
trace_writes_lem pid (t ∷ ts) trace h =
    rw (handle_write_lem pid t trace h.0) (elim (Bool-cases (t.tgid == pid)) [
      | inl own ↦ rw (own) (
          trace_writes_lem pid ts (trace ++ triggered (pos pid) ∷ []) h.1
          ∙ append_assoc trace (triggered (pos pid) ∷ []) _
          ∙ ap (λ n. trace ++ replicate n (triggered (pos pid))) {x = suc (calls_of pid ts)}
              {y = 1 + calls_of pid ts} (omega arith))
      | inr other ↦ rw (other) (
          trace_writes_lem pid ts trace h.1
          ∙ ap (λ n. trace ++ replicate n (triggered (pos pid))) {x = calls_of pid ts}
              {y = 0 + calls_of pid ts} (omega arith))
    ])

-- After `n` calls of openat() the trace has `n` more lines.
pub trace_openats_lem :
    (n : ℕ) (trace : Trace) → trace_openats n trace ≡ trace ++ replicate n hello_world
unfolding trace_openats handle_openat
trace_openats_lem zero trace = sym (append-nil trace)
trace_openats_lem (suc n) trace =
    trace_openats_lem n (trace ++ hello_world ∷ []) ∙ append_assoc trace (hello_world ∷ []) _
