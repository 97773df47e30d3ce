-- ===== src/System/Tests.antt =====
-- The theorems on minimal.c as a system, over the small libbpf and the small kernel: the process 9
-- makes two rounds, and the process 8 writes between its dots.
use hello_e_bpf.Prelude.{
  ℕ, suc, ◌-◌, ◌≡◌, refl, ◌⊎◌, Option, none, some, List, [], ◌∷◌, ltb, if◌then◌else◌, get_elem?,
  true, arith, ℤ, pos, negsuc,
}
use hello_e_bpf.Outcome.{Outcome, done, fault, aborted, out_of_fuel}
use hello_e_bpf.Loader.Program.{
  start_message, LoaderEnd, Loader, load_and_attach, cleanup, minimal_started, dots, minimal_main,
}
use hello_e_bpf.Loader.Runs.{dot_events}
use hello_e_bpf.Skeleton.Memory.{write, store, skeleton_of, set_skeleton, free}
use hello_e_bpf.Skeleton.Layout.{fill_maps, fill_progs}
use hello_e_bpf.Skeleton.Generated.{
  calloc, create_progs, create_maps, create_skeleton, open_opts, open_bpf, load, attach, destroy,
}
use hello_e_bpf.Skeleton.Instances.{minimal_bpf}
use hello_e_bpf.Skeleton.Api.{api_of}
use hello_e_bpf.Skeleton.MinimalProgram.{store_my_pid, my_pid_of}
use hello_e_bpf.Skeleton.Small.{small, small-IsLibbpf}
use hello_e_bpf.Bpf.Tracing.{Thread, IsThread, AllThreads}
use hello_e_bpf.Bytecode.Machine.{Kernel}
use hello_e_bpf.Bytecode.Small.{small_kernel, small-IsScheduling}
use hello_e_bpf.Bytecode.Programs.Minimal.{minimal_rodata}
use hello_e_bpf.System.Loading.{Loads}
use hello_e_bpf.System.Writes.{
  Interleaved, nothing_yet, other_process, dot_written, sleeping, message_buffered,
}
use hello_e_bpf.System.Minimal.{IsHost, Traces, minimal_system_lem}

-- .rodata is at the address 700.
abbrev rodata_at_700 : ℕ → Option ℕ
rodata_at_700 a = if ltb a 700 then none else get_elem? minimal_rodata (a - 700)

abbrev kernel : Kernel
kernel = small_kernel rodata_at_700 (λ stored a. some stored)

abbrev pid_or_zero : Option ℤ → ℕ
pid_or_zero none = 0
pid_or_zero (some (pos n)) = n
pid_or_zero (some (negsuc n)) = 0

-- The kernel takes from .bss what the loader has stored.
small-IsHost : IsHost (small true) kernel
unfolding minimal_rodata
small-IsHost = record {
  kernel_of =
      λ skel m. record { current = 0; stored = pid_or_zero (my_pid_of skel m); printed = [] };
  loads_bss = λ skel m m' pid fits loads stored. rw (stored) refl;
  loads_rodata = λ skel m m' loads. ground arith;
}

abbrev own_process : Thread
own_process = record { tgid = 9; tid = 9 }

abbrev another : Thread
another = record { tgid = 8; tid = 12 }

abbrev writers : List Thread
writers = own_process ∷ another ∷ own_process ∷ []

abbrev empty_loader : Loader (api_of (minimal_bpf (small true)))
empty_loader = record {
  state = record {
    world = record { last = 0 };
    heap = λ _. none;
    mapped = λ _. none;
    errno = pos 0;
  };
  log = [];
}

own_process-IsThread : IsThread own_process
own_process-IsThread = record { tgid_small = omega arith; tid_small = omega arith }

writers-AllThreads : AllThreads writers
writers-AllThreads = (
  own_process-IsThread,
  (record { tgid_small = omega arith; tid_small = omega arith }, (own_process-IsThread, tt)),
)

writers-Interleaved : Interleaved own_process (start_message ∷ dot_events 2) writers
writers-Interleaved = message_buffered (
    dot_written
      (sleeping (other_process another (omega arith) (dot_written (sleeping nothing_yet)))))

-- Where the two rounds end.
abbrev loader_of :
    Outcome (LoaderEnd × Loader (api_of (minimal_bpf (small true))))
    → Loader (api_of (minimal_bpf (small true)))
loader_of (done (_, l)) = l
loader_of fault = empty_loader
loader_of aborted = empty_loader
loader_of out_of_fuel = empty_loader

abbrev last_loader : Loader (api_of (minimal_bpf (small true)))
last_loader =
    loader_of (minimal_main (api_of (minimal_bpf (small true))) store_my_pid (pos 9) 2 empty_loader)

minimal_system_lem_example :
    (run : Loads (small true) (pos 9) 2 empty_loader last_loader) × (lines : ℕ) × ((lines ≡ 2)
      ⊎ (lines ≡ suc 2))
    × Traces
        (small-IsLibbpf true)
        small-IsHost
        (small-IsScheduling rodata_at_700 (λ stored a. some stored))
        0
        0
        run.skel
        run.before
        writers
        9
        lines
unfolding minimal_main store_my_pid load_and_attach cleanup minimal_started dots open_bpf open_opts
    calloc create_skeleton create_maps create_progs store skeleton_of set_skeleton load attach
    destroy free write fill_maps fill_progs
minimal_system_lem_example =
    minimal_system_lem (small-IsLibbpf true) small-IsHost
      (small-IsScheduling rodata_at_700 (λ stored a. some stored)) 0 0 own_process 2 writers
      empty_loader last_loader own_process-IsThread writers-AllThreads refl writers-Interleaved
