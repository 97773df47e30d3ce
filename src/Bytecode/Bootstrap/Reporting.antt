-- ===== src/Bytecode/Bootstrap/Reporting.antt =====
-- What bootstrap's programs rely on for their reports: the ring buffer, the task, and reads of the
-- kernel's memory. bpf_ringbuf_reserve() is helper 131, bpf_ringbuf_submit() helper 132,
-- bpf_get_current_task() helper 35, bpf_probe_read_kernel() helper 113, and bpf_get_current_comm()
-- helper 16.
use hello_e_bpf.Prelude.{ℕ, suc, ◌+◌, ◌-◌, ◌^◌, ◌≤◌, ◌≡◌, ◌≢◌, some, List, [], ◌∷◌, ◌++◌}
use hello_e_bpf.Bytecode.Machine.{Kernel, Registers}
use hello_e_bpf.Bytecode.Tracing.{IsTracing}
use hello_e_bpf.Bytecode.Stack.{Apart}
use hello_e_bpf.Bytecode.Bootstrap.Laws.{Starts, IsBootstrap}

-- What a submitted record says at its offsets 0, 16 and 167.
pub record Reported : Type 0 where
  pub pid : ℕ
  pub duration_ns : ℕ
  pub exit_event : ℕ

abbrev pub exit_report : (pid duration : ℕ) → Reported
exit_report pid duration = record { pid = pid; duration_ns = duration; exit_event = 1 }

-- What the programs do, as it is seen from outside.
pub record View : Type 0 where
  pub starts : Starts
  pub times : List ℕ
  pub failures : ℕ
  pub reports : List Reported

abbrev pub viewed :
    {k : Kernel}
    → {t : IsTracing k} → {frame : ℕ} → IsBootstrap t frame
    → (k.World → List Reported)
    → k.World
    → View
viewed b reports w = record {
  starts = b.starts w;
  times = b.times w;
  failures = b.failures w;
  reports = reports w;
}

abbrev pub and_failure : View → View
and_failure v = record v { failures = suc v.failures }

abbrev pub and_report : View → Reported → View
and_report v report = record v { reports = v.reports ++ report ∷ [] }

-- What has been submitted; a store to the stack submits nothing.
pub record HasReports {k : Kernel} {t : IsTracing k} {frame : ℕ} (b : IsBootstrap t frame)
    : Type 0 where
  pub reports : k.World → List Reported
  pub stack_silent :
      (size a v : ℕ) (w w' : k.World)
      → frame - 512 ≤ a
      → a + size ≤ frame
      → k.store_bytes size a v w ≡ some w'
      → reports w' ≡ reports w

abbrev pub view :
    {k : Kernel}
    → {t : IsTracing k} → {frame : ℕ} → {b : IsBootstrap t frame} → HasReports b
    → k.World
    → View
view {b = b} has w = viewed b has.reports w

pub record IsReporting {k : Kernel} {t : IsTracing k} {frame : ℕ} {b : IsBootstrap t frame}
    (has : HasReports b) : Type 1 where
  -- A record of `n` bytes that has been reserved at the address `e`, and not been submitted.
  pub Reserved : k.World → (e n : ℕ) → Type 0
  pub clock_silent : (r : Registers) (w : k.World) → has.reports (k.helper 5 r w).1 ≡ has.reports w
  pub deletes_silent :
      (r : Registers) (w : k.World)
      → (has.reports (k.helper 3 r w).1 ≡ has.reports w)
        × (k.load_bytes 4 (frame - 4) (k.helper 3 r w).1 ≡ k.load_bytes 4 (frame - 4) w)
  pub reserve_keeps :
      (r : Registers) (w : k.World)
      → k.load_bytes 4 (frame - 4) (k.helper 131 r w).1 ≡ k.load_bytes 4 (frame - 4) w
  pub reserve_fails :
      (r : Registers) (w : k.World)
      → (k.helper 131 r w).0 ≡ 0
      → view has (k.helper 131 r w).1 ≡ and_failure (view has w)
  -- A reservation, without flags, that succeeds is of as many bytes as r2 says, apart from the stack.
  pub reserves :
      (r : Registers) (w : k.World) (n : ℕ)
      → r 1 ≡ some (k.address_of "rb")
      → r 2 ≡ some n
      → r 3 ≡ some 0
      → (k.helper 131 r w).0 ≢ 0
      → (view has (k.helper 131 r w).1 ≡ view has w)
        × Reserved (k.helper 131 r w).1 (k.helper 131 r w).0 n
        × ((k.helper 131 r w).0 + n ≤ 2 ^ 64)
        × Apart (k.helper 131 r w).0 n (frame - 512) 512
  -- A store to a reserved record succeeds, and does nothing else.
  pub record_stores :
      (size offset v : ℕ) (w : k.World) (e n : ℕ)
      → Reserved w e n
      → offset + size ≤ n
      → (w' : k.World) × (k.store_bytes size (e + offset) v w ≡ some w')
        × (view has w' ≡ view has w)
        × Reserved w' e n
  pub task_keeps : (r : Registers) (w : k.World) → (k.helper 35 r w).1 ≡ w
  -- r2 bytes are written at r1, here on the stack, whether the read succeeds or not.
  pub probes :
      (r : Registers) (w : k.World) (a size : ℕ)
      → r 1 ≡ some a
      → r 2 ≡ some size
      → frame - 512 ≤ a
      → a + size ≤ frame
      → (v : ℕ) × (k.load_bytes size a (k.helper 113 r w).1 ≡ some v)
        × (view has (k.helper 113 r w).1 ≡ view has w)
        × ((e n : ℕ) → Reserved w e n → Reserved (k.helper 113 r w).1 e n)
        × ((m c : ℕ)
            → Apart c m a size
            → k.load_bytes m c (k.helper 113 r w).1 ≡ k.load_bytes m c w)
  -- r2 bytes are written at r1, here in a record.
  pub names :
      (r : Registers) (w : k.World) (e n offset size : ℕ)
      → r 1 ≡ some (e + offset)
      → r 2 ≡ some size
      → Reserved w e n
      → offset + size ≤ n
      → (view has (k.helper 16 r w).1 ≡ view has w)
        × Reserved (k.helper 16 r w).1 e n
        × ((m c : ℕ)
            → Apart c m (e + offset) size
            → k.load_bytes m c (k.helper 16 r w).1 ≡ k.load_bytes m c w)
  -- A record of 168 bytes is submitted, without flags.
  pub submits :
      (r : Registers) (w : k.World) (e pid duration exit_event : ℕ)
      → r 1 ≡ some e
      → r 2 ≡ some 0
      → Reserved w e 168
      → k.load_bytes 4 e w ≡ some pid
      → k.load_bytes 8 (e + 16) w ≡ some duration
      → k.load_bytes 1 (e + 167) w ≡ some exit_event
      → view has (k.helper 132 r w).1
        ≡ and_report
            (view has w)
            (record { pid = pid; duration_ns = duration; exit_event = exit_event })
