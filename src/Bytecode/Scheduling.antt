-- ===== src/Bytecode/Scheduling.antt =====
-- The compiled minimal.bpf.c attached: write() calls by any threads, each of which runs it once.
use hello_e_bpf.Prelude.{
  ℕ, ◌+◌, ◌/◌, ◌^◌, ◌<◌, ◌≡◌, refl, sym, ap, subst, ◌∙◌, inl, inr, Bool-cases, some, List, [], ◌∷◌,
  ◌++◌, append_assoc, append-nil, replicate, arith, ℤ, pos,
}
use hello_e_bpf.Memory.{Bytes}
use hello_e_bpf.Bpf.Handlers.{triggered, hello_world, Trace, to_int, int_eq, handle_write}
use hello_e_bpf.Bpf.Tracing.{
  Thread, IsThread, pid_tgid, AllThreads, calls_of, trace_writes, trace_writes_lem,
}
use hello_e_bpf.Bytecode.Machine.{Kernel, End, exited, fault, lost, out_of_fuel, call_program}
use hello_e_bpf.Bytecode.Tracing.{SameMemory, Printed, InMemory, IsTracing}
use hello_e_bpf.Bytecode.Programs.Minimal.{minimal_handle_tp_program, minimal_rodata}
use hello_e_bpf.Bytecode.Minimal.{Shows, minimal_handle_tp-Refines}

-- The kernel runs a thread: this changes whose number a program gets, not the trace and not the memory.
pub record IsScheduling {k : Kernel} (t : IsTracing k) : Type 0 where
  pub enter : Thread → k.World → k.World
  pub enters :
      (thread : Thread) (w : k.World)
      → IsThread thread
      → t.pid_tgid (enter thread w) ≡ pid_tgid thread
  pub enter_keeps : (thread : Thread) (w : k.World) → SameMemory k w (enter thread w)
  pub enter_silent : (thread : Thread) (w : k.World) → t.trace (enter thread w) ≡ t.trace w

handle_write-trace :
    (my_pid : ℤ) (call : ℕ) (trace : Trace)
    → (handle_write my_pid call trace).1 ≡ trace ++ (handle_write my_pid call []).1
unfolding handle_write
handle_write-trace my_pid call trace = elim (Bool-cases (int_eq (to_int (call / 2 ^ 32)) my_pid)) [
  | inl own ↦ rw (own, handle_write)
  | inr other ↦ rw (other, handle_write) (sym (append-nil trace))
]

trace_writes-append :
    (my_pid : ℤ) (threads : List Thread) (trace : Trace)
    → trace_writes my_pid threads trace ≡ trace ++ trace_writes my_pid threads []
unfolding trace_writes
trace_writes-append my_pid [] trace = sym (append-nil trace)
trace_writes-append my_pid (t ∷ threads) trace =
    let line = (handle_write my_pid (pid_tgid t) []).1 in
    ap (trace_writes my_pid threads) (handle_write-trace my_pid (pid_tgid t) trace)
    ∙ trace_writes-append my_pid threads (trace ++ line)
    ∙ append_assoc trace line _
    ∙ ap (λ rest. trace ++ rest) (sym (trace_writes-append my_pid threads line))

Shows-append : (a b : List Printed) (x y : Trace) → Shows a x → Shows b y → Shows (a ++ b) (x ++ y)
Shows-append [] b [] y h h' = h'
Shows-append (p ∷ a) b (triggered pid ∷ x) y h h' = (h.0, h.1, Shows-append a b x y h.2 h')
Shows-append (p ∷ a) b (hello_world ∷ x) y h h' = (h.0, Shows-append a b x y h.1 h')
Shows-append [] b (_ ∷ x) y h h' = elim h [ ]
Shows-append (_ ∷ a) b [] y h h' = elim h [ ]

InMemory-Same :
    (k : Kernel) (w w' : k.World) (a : ℕ) (bytes : Bytes)
    → SameMemory k w w'
    → InMemory k w a bytes
    → InMemory k w' a bytes
InMemory-Same k w w' a [] same h = tt
InMemory-Same k w w' a (b ∷ bytes) same h =
    (same 1 a ∙ h.0, InMemory-Same k w w' (a + 1) bytes same h.1)

module _ {k : Kernel} {t : IsTracing k} (sched : IsScheduling t) (context frame : ℕ) where
  -- What the kernel does at write() calls of these threads, in this order.
  unfoldable pub run_writes : List Thread → k.World → End k.World
  run_writes [] w = exited 0 w
  run_writes (thread ∷ threads) w =
      elim (call_program k minimal_handle_tp_program context frame (sched.enter thread w)) [
        | exited r0 w' ↦ run_writes threads w'
        | fault ↦ fault
        | lost ↦ lost
        | out_of_fuel ↦ out_of_fuel
      ]

  module _ (my_pid : ℕ) (word : my_pid < 2 ^ 32) where
    run_writes-Shows :
        (threads : List Thread) (w : k.World)
        → AllThreads threads
        → k.load_bytes 4 (k.address_of "my_pid") w ≡ some my_pid
        → InMemory k w (k.address_of ".rodata") minimal_rodata
        → (w' : k.World) × (calls : List Printed) × (run_writes threads w ≡ exited 0 w')
          × (t.trace w' ≡ t.trace w ++ calls)
          × Shows calls (trace_writes (to_int my_pid) threads [])
    unfolding run_writes trace_writes
    run_writes-Shows [] w all there held = (w, [], refl, sym (append-nil _), tt)
    run_writes-Shows (thread ∷ threads) w all there held =
        let v = sched.enter thread w in
        let (r0, v', line, ends, keeps, code, traced, shown) =
          minimal_handle_tp-Refines t context frame v my_pid
            (sched.enter_keeps thread w _ _ ∙ there) word
            (InMemory-Same k w v _ _ (sched.enter_keeps thread w) held) in
        let same : SameMemory k w v' = λ size a. keeps size a ∙ sched.enter_keeps thread w size a in
        let (w', calls, goes, trace, shows) =
          run_writes-Shows threads v' all.1 (same _ _ ∙ there)
            (InMemory-Same k w v' _ _ same held) in
        let first = (handle_write (to_int my_pid) (pid_tgid thread) []).1 in
        let rest = trace_writes (to_int my_pid) threads [] in
        let shown' : Shows line first =
          subst (λ n. Shows line (handle_write (to_int my_pid) n []).1)
            (sched.enters thread w all.0) shown in
        (
          w',
          line ++ calls,
          rw (ends, run_writes) goes,
          trace
              ∙ ap (λ l. l ++ calls) (traced ∙ ap (λ l. l ++ line) (sched.enter_silent thread w))
              ∙ append_assoc (t.trace w) line calls,
          subst (Shows (line ++ calls)) (sym (trace_writes-append (to_int my_pid) threads first))
              (Shows-append line calls first rest shown' shows),
        )

  to_int_small : (n : ℕ) → n < 2 ^ 31 → to_int n ≡ pos n
  unfolding to_int
  to_int_small n h = ground arith

  -- With the instructions of minimal.skel.h attached, and the process number `pid` in .bss: after any
  -- sequence of write() calls the trace has one line more for each call of the process `pid`, which
  -- names it, and none for any other call. Every run of the program has returned.
  pub run_writes_lem :
      (pid : ℕ) (threads : List Thread) (w : k.World)
      → pid < 2 ^ 31
      → AllThreads threads
      → k.load_bytes 4 (k.address_of "my_pid") w ≡ some pid
      → InMemory k w (k.address_of ".rodata") minimal_rodata
      → (w' : k.World) × (calls : List Printed) × (run_writes threads w ≡ exited 0 w')
        × (t.trace w' ≡ t.trace w ++ calls)
        × Shows calls (replicate (calls_of pid threads) (triggered (pos pid)))
  run_writes_lem pid threads w small all there held =
      let (w', calls, ends, trace, shows) =
        run_writes-Shows pid (omega arith) threads w all there held in
      (
        w',
        calls,
        ends,
        trace,
        subst (Shows calls) (trace_writes_lem pid threads [] all)
            (subst (λ n. Shows calls (trace_writes n threads [])) (to_int_small pid small) shows),
      )
