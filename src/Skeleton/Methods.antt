-- ===== src/Skeleton/Methods.antt =====
-- The C++ methods of each skeleton in examples/c/.output, which stand at the end of its file: each of
-- them calls the C function of its name, and open() takes a null pointer where it is given no options.
use hello_e_bpf.Prelude.{ℕ, ℤ, All, List, [], ◌∷◌}
use hello_e_bpf.Outcome.Command.{Command}
use hello_e_bpf.Skeleton.Memory.{Ptr, Machine}
use hello_e_bpf.Skeleton.Libbpf.{Libbpf, IsLibbpf}
use hello_e_bpf.Skeleton.Layout.{Layout}
use hello_e_bpf.Skeleton.Layouts.{
  bootstrap_layout, bootstrap_legacy_layout, fentry_layout, kprobe_layout, ksyscall_layout,
  lsm_layout, minimal_layout, minimal_legacy_layout, minimal_ns_layout, sockfilter_layout,
  task_iter_layout, tc_layout, uprobe_layout, usdt_layout,
}
use hello_e_bpf.Skeleton.Generated.{open_bpf}
use hello_e_bpf.Skeleton.Instances.{
  SkeletonCode, bootstrap_bpf, bootstrap_legacy_bpf, fentry_bpf, kprobe_bpf, ksyscall_bpf, lsm_bpf,
  minimal_bpf, minimal_legacy_bpf, minimal_ns_bpf, sockfilter_bpf, task_iter_bpf, tc_bpf,
  uprobe_bpf, usdt_bpf,
}
use hello_e_bpf.Skeleton.Sessions.{KeepsLive, all_skeletons-KeepsLive}

-- <name>_bpf__elf_bytes: what it stores in *sz
abbrev pub elf_bytes_size : Layout → ℕ
elf_bytes_size layout = layout.data_sz

pub record SkeletonMethods (lib : Libbpf) : Type 0 where
  pub open_with : (opts : Ptr) → Command (Machine lib.World) Ptr
  pub open_and_loads : Command (Machine lib.World) Ptr
  pub loads : Ptr → Command (Machine lib.World) ℤ
  pub attaches : Ptr → Command (Machine lib.World) ℤ
  pub detaches : Ptr → Command (Machine lib.World) (Unit {0})
  pub destroys : Ptr → Command (Machine lib.World) (Unit {0})
  pub elf_size : ℕ

module _ (lib : Libbpf) where
  abbrev pub methods_of : Layout → SkeletonCode lib → SkeletonMethods lib
  methods_of layout code = record {
    open_with = λ opts. code.opens_opts opts;
    open_and_loads = code.opens_and_loads;
    loads = λ skel. code.loads skel;
    attaches = λ skel. code.attaches skel;
    detaches = λ skel. code.detaches skel;
    destroys = λ skel. code.destroys skel;
    elf_size = elf_bytes_size layout;
  }

  abbrev pub bootstrap_methods : SkeletonMethods lib
  bootstrap_methods = methods_of bootstrap_layout (bootstrap_bpf lib)

  abbrev pub bootstrap_legacy_methods : SkeletonMethods lib
  bootstrap_legacy_methods = methods_of bootstrap_legacy_layout (bootstrap_legacy_bpf lib)

  abbrev pub fentry_methods : SkeletonMethods lib
  fentry_methods = methods_of fentry_layout (fentry_bpf lib)

  abbrev pub kprobe_methods : SkeletonMethods lib
  kprobe_methods = methods_of kprobe_layout (kprobe_bpf lib)

  abbrev pub ksyscall_methods : SkeletonMethods lib
  ksyscall_methods = methods_of ksyscall_layout (ksyscall_bpf lib)

  abbrev pub lsm_methods : SkeletonMethods lib
  lsm_methods = methods_of lsm_layout (lsm_bpf lib)

  abbrev pub minimal_methods : SkeletonMethods lib
  minimal_methods = methods_of minimal_layout (minimal_bpf lib)

  abbrev pub minimal_legacy_methods : SkeletonMethods lib
  minimal_legacy_methods = methods_of minimal_legacy_layout (minimal_legacy_bpf lib)

  abbrev pub minimal_ns_methods : SkeletonMethods lib
  minimal_ns_methods = methods_of minimal_ns_layout (minimal_ns_bpf lib)

  abbrev pub sockfilter_methods : SkeletonMethods lib
  sockfilter_methods = methods_of sockfilter_layout (sockfilter_bpf lib)

  abbrev pub task_iter_methods : SkeletonMethods lib
  task_iter_methods = methods_of task_iter_layout (task_iter_bpf lib)

  abbrev pub tc_methods : SkeletonMethods lib
  tc_methods = methods_of tc_layout (tc_bpf lib)

  abbrev pub uprobe_methods : SkeletonMethods lib
  uprobe_methods = methods_of uprobe_layout (uprobe_bpf lib)

  abbrev pub usdt_methods : SkeletonMethods lib
  usdt_methods = methods_of usdt_layout (usdt_bpf lib)

  abbrev pub all_methods : List (SkeletonMethods lib)
  all_methods =
      bootstrap_methods ∷ bootstrap_legacy_methods ∷ fentry_methods ∷ kprobe_methods
      ∷ ksyscall_methods ∷ lsm_methods ∷ minimal_methods ∷ minimal_legacy_methods
      ∷ minimal_ns_methods ∷ sockfilter_methods ∷ task_iter_methods ∷ tc_methods ∷ uprobe_methods
      ∷ usdt_methods ∷ []

  -- A user in C++ who leaves the options of open() out.
  abbrev pub through_methods : SkeletonMethods lib → SkeletonCode lib
  through_methods methods = record {
    destroys = methods.destroys;
    opens_opts = methods.open_with;
    opens = methods.open_with 0;
    loads = methods.loads;
    opens_and_loads = methods.open_and_loads;
    attaches = methods.attaches;
    detaches = methods.detaches;
  }

-- What holds of sessions with the C functions holds of sessions with the methods.
all_methods-KeepsLive :
    {lib : Libbpf}
    → IsLibbpf lib
    → All (λ methods. KeepsLive lib (through_methods lib methods)) (all_methods lib)
unfolding open_bpf
all_methods-KeepsLive {lib} laws = all_skeletons-KeepsLive laws
