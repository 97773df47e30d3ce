-- ===== src/Skeleton/Instances.antt =====
-- The functions of each skeleton in examples/c/.output: the generated code over its layout.
use hello_e_bpf.Prelude.{ℤ, List, [], ◌∷◌}
use hello_e_bpf.Outcome.Command.{Command}
use hello_e_bpf.Skeleton.Memory.{Ptr, Machine}
use hello_e_bpf.Skeleton.Libbpf.{Libbpf}
use hello_e_bpf.Skeleton.Layout.{Layout}
use hello_e_bpf.Skeleton.Generated.{
  destroy, open_opts, open_bpf, load, open_and_load, attach, detach,
}
use hello_e_bpf.Skeleton.Layouts.{
  bootstrap_layout, bootstrap_legacy_layout, fentry_layout, kprobe_layout, ksyscall_layout,
  lsm_layout, minimal_layout, minimal_legacy_layout, minimal_ns_layout, sockfilter_layout,
  task_iter_layout, tc_layout, uprobe_layout, usdt_layout,
}

-- <name>_bpf__destroy, <name>_bpf__open_opts, <name>_bpf__open, ... of one skeleton
pub record SkeletonCode (lib : Libbpf) : Type 0 where
  pub destroys : Ptr → Command (Machine lib.World) (Unit {0})
  pub opens_opts : (opts : Ptr) → Command (Machine lib.World) Ptr
  pub opens : Command (Machine lib.World) Ptr
  pub loads : Ptr → Command (Machine lib.World) ℤ
  pub opens_and_loads : Command (Machine lib.World) Ptr
  pub attaches : Ptr → Command (Machine lib.World) ℤ
  pub detaches : Ptr → Command (Machine lib.World) (Unit {0})

module _ (lib : Libbpf) where
  abbrev pub code_of : Layout → SkeletonCode lib
  code_of layout = record {
    destroys = destroy lib;
    opens_opts = open_opts lib layout;
    opens = open_bpf lib layout;
    loads = load lib;
    opens_and_loads = open_and_load lib layout;
    attaches = attach lib;
    detaches = detach lib;
  }

  abbrev pub bootstrap_bpf : SkeletonCode lib
  bootstrap_bpf = code_of bootstrap_layout

  abbrev pub bootstrap_legacy_bpf : SkeletonCode lib
  bootstrap_legacy_bpf = code_of bootstrap_legacy_layout

  abbrev pub fentry_bpf : SkeletonCode lib
  fentry_bpf = code_of fentry_layout

  abbrev pub kprobe_bpf : SkeletonCode lib
  kprobe_bpf = code_of kprobe_layout

  abbrev pub ksyscall_bpf : SkeletonCode lib
  ksyscall_bpf = code_of ksyscall_layout

  abbrev pub lsm_bpf : SkeletonCode lib
  lsm_bpf = code_of lsm_layout

  abbrev pub minimal_bpf : SkeletonCode lib
  minimal_bpf = code_of minimal_layout

  abbrev pub minimal_legacy_bpf : SkeletonCode lib
  minimal_legacy_bpf = code_of minimal_legacy_layout

  abbrev pub minimal_ns_bpf : SkeletonCode lib
  minimal_ns_bpf = code_of minimal_ns_layout

  abbrev pub sockfilter_bpf : SkeletonCode lib
  sockfilter_bpf = code_of sockfilter_layout

  abbrev pub task_iter_bpf : SkeletonCode lib
  task_iter_bpf = code_of task_iter_layout

  abbrev pub tc_bpf : SkeletonCode lib
  tc_bpf = code_of tc_layout

  abbrev pub uprobe_bpf : SkeletonCode lib
  uprobe_bpf = code_of uprobe_layout

  abbrev pub usdt_bpf : SkeletonCode lib
  usdt_bpf = code_of usdt_layout

  abbrev pub all_skeletons : List (SkeletonCode lib)
  all_skeletons =
      bootstrap_bpf ∷ bootstrap_legacy_bpf ∷ fentry_bpf ∷ kprobe_bpf ∷ ksyscall_bpf ∷ lsm_bpf
      ∷ minimal_bpf ∷ minimal_legacy_bpf ∷ minimal_ns_bpf ∷ sockfilter_bpf ∷ task_iter_bpf ∷ tc_bpf
      ∷ uprobe_bpf ∷ usdt_bpf ∷ []
