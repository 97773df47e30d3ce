-- ===== src/System/Minimal.antt =====
-- examples/c/minimal.c as a system: what the trace holds while it runs.
use hello_e_bpf.Prelude.{ℕ, suc, ◌^◌, ◌<◌, ◌≡◌, ◌⊎◌, some, List, ◌∷◌, ◌++◌, replicate, pos}
use hello_e_bpf.Outcome.{done}
use hello_e_bpf.Loader.Api.{Ptr}
use hello_e_bpf.Loader.Program.{start_message, looping, Loader, minimal_main}
use hello_e_bpf.Loader.Runs.{dot_events}
use hello_e_bpf.Skeleton.Memory.{Machine}
use hello_e_bpf.Skeleton.Libbpf.{Libbpf, IsLibbpf}
use hello_e_bpf.Skeleton.Generated.{load}
use hello_e_bpf.Skeleton.Instances.{minimal_bpf}
use hello_e_bpf.Skeleton.Api.{api_of}
use hello_e_bpf.Skeleton.MinimalProgram.{store_my_pid, my_pid_of}
use hello_e_bpf.Bpf.Handlers.{triggered}
use hello_e_bpf.Bpf.Tracing.{Thread, IsThread, AllThreads, calls_of}
use hello_e_bpf.Bytecode.Machine.{Kernel, exited}
use hello_e_bpf.Bytecode.Tracing.{Printed, InMemory, IsTracing}
use hello_e_bpf.Bytecode.Programs.Minimal.{minimal_rodata}
use hello_e_bpf.Bytecode.Minimal.{Shows}
use hello_e_bpf.Bytecode.Scheduling.{IsScheduling, run_writes, run_writes_lem}
use hello_e_bpf.System.Loading.{Loads, minimal_main-Loads}
use hello_e_bpf.System.Writes.{Interleaved, rounds-calls}

-- What libbpf does in the kernel when minimal_bpf__load(skel) succeeds: it makes a map of each section,
-- with what the section holds in the memory of the loader.
pub record IsHost (lib : Libbpf) (k : Kernel) : Type 0 where
  pub kernel_of : (skel : Ptr) → Machine lib.World → k.World
  pub loads_bss :
      (skel : Ptr) (m m' : Machine lib.World) (pid : ℕ)
      → pid < 2 ^ 31
      → load lib skel m ≡ done (pos 0, m')
      → my_pid_of skel m ≡ some (pos pid)
      → k.load_bytes 4 (k.address_of "my_pid") (kernel_of skel m) ≡ some pid
  pub loads_rodata :
      (skel : Ptr) (m m' : Machine lib.World)
      → load lib skel m ≡ done (pos 0, m')
      → InMemory k (kernel_of skel m) (k.address_of ".rodata") minimal_rodata

module _ {lib : Libbpf} {k : Kernel} {t : IsTracing k} (laws : IsLibbpf lib) (host : IsHost lib k)
    (sched : IsScheduling t) (context frame : ℕ) where
  -- The trace after these write() calls, when the program has been loaded from the state `before`:
  -- `lines` lines more, each of which names the process `pid`.
  abbrev pub Traces : (skel : Ptr) → Machine lib.World → List Thread → (pid lines : ℕ) → Type 0
  Traces skel before threads pid lines =
      let w = host.kernel_of skel before in
      (w' : k.World) × (calls : List Printed) × (run_writes sched context frame threads w
        ≡ exited 0 w')
      × (t.trace w' ≡ t.trace w ++ calls)
      × Shows calls (replicate lines (triggered (pos pid)))

  -- A run of minimal.c that has come to its loop and made `rounds` rounds, in the process of the thread
  -- `own`, while any other processes make write() calls: it has loaded and attached the program with
  -- its process number stored, every run of the program has returned, and the trace has one line for
  -- each round, or one more if its message has been written, and each line names the process.
  pub minimal_system_lem :
      (own : Thread) (rounds : ℕ) (threads : List Thread) (l l' : Loader (api_of (minimal_bpf lib)))
      → IsThread own
      → AllThreads threads
      → minimal_main (api_of (minimal_bpf lib)) store_my_pid (pos own.tgid) rounds l
        ≡ done (looping, l')
      → Interleaved own (start_message ∷ dot_events rounds) threads
      → (run : Loads lib (pos own.tgid) rounds l l') × (lines : ℕ) × ((lines ≡ rounds)
          ⊎ (lines ≡ suc rounds))
        × Traces run.skel run.before threads own.tgid lines
  minimal_system_lem own rounds threads l l' small all runs among =
      let run = minimal_main-Loads laws (pos own.tgid) rounds l l' runs in
      let bss =
        host.loads_bss run.skel run.before run.after own.tgid small.tgid_small run.loads
          run.stored in
      let rodata = host.loads_rodata run.skel run.before run.after run.loads in
      (
        run,
        calls_of own.tgid threads,
        rounds-calls among,
        run_writes_lem sched context frame own.tgid threads (host.kernel_of run.skel run.before)
            small.tgid_small all bss rodata,
      )
