-- ===== src/Skeleton/Layouts.antt =====
-- The tables of the skeletons in examples/c/.output: of each `<name>.skel.h` the assignments in its
-- `<name>_bpf__create_skeleton`, and the number of its ELF bytes.
use Prim.Native.String.{String}
use hello_e_bpf.Prelude.{true, false, List, [], ◌∷◌}
use hello_e_bpf.Skeleton.Layout.{MapEntry, Layout}

abbrev pub mapped : String → String → MapEntry
mapped name field = record { object_name = name; field = field; is_mmaped = true }

abbrev pub unmapped : String → String → MapEntry
unmapped name field = record { object_name = name; field = field; is_mmaped = false }

abbrev pub bootstrap_layout : Layout
bootstrap_layout = record {
  name = "bootstrap_bpf";
  map_cnt = 3;
  map_table =
      unmapped "exec_start" "exec_start"
      ∷ unmapped "rb" "rb"
      ∷ mapped "bootstra.rodata" "rodata"
      ∷ [];
  prog_cnt = 2;
  prog_table = "handle_exec" ∷ "handle_exit" ∷ [];
  data_sz = 27848;
}

abbrev pub bootstrap_legacy_layout : Layout
bootstrap_legacy_layout = record {
  name = "bootstrap_legacy_bpf";
  map_cnt = 3;
  map_table =
      unmapped "exec_start" "exec_start"
      ∷ unmapped "perf_buffer" "perf_buffer"
      ∷ mapped "bootstra.rodata" "rodata"
      ∷ [];
  prog_cnt = 2;
  prog_table = "handle_exec" ∷ "handle_exit" ∷ [];
  data_sz = 28200;
}

abbrev pub fentry_layout : Layout
fentry_layout = record {
  name = "fentry_bpf";
  map_cnt = 1;
  map_table = unmapped "fentry_b.rodata" "rodata" ∷ [];
  prog_cnt = 2;
  prog_table = "do_unlinkat" ∷ "do_unlinkat_exit" ∷ [];
  data_sz = 3048;
}

abbrev pub kprobe_layout : Layout
kprobe_layout = record {
  name = "kprobe_bpf";
  map_cnt = 1;
  map_table = unmapped "kprobe_b.rodata" "rodata" ∷ [];
  prog_cnt = 2;
  prog_table = "do_unlinkat" ∷ "do_unlinkat_exit" ∷ [];
  data_sz = 3776;
}

abbrev pub ksyscall_layout : Layout
ksyscall_layout = record {
  name = "ksyscall_bpf";
  map_cnt = 2;
  map_table = unmapped "ksyscall.rodata" "rodata" ∷ mapped "ksyscal.kconfig" "kconfig" ∷ [];
  prog_cnt = 2;
  prog_table = "tgkill_entry" ∷ "entry_probe" ∷ [];
  data_sz = 5648;
}

abbrev pub lsm_layout : Layout
lsm_layout = record {
  name = "lsm_bpf";
  map_cnt = 1;
  map_table = unmapped "lsm_bpf.rodata" "rodata" ∷ [];
  prog_cnt = 1;
  prog_table = "lsm_bpf" ∷ [];
  data_sz = 1808;
}

abbrev pub minimal_layout : Layout
minimal_layout = record {
  name = "minimal_bpf";
  map_cnt = 2;
  map_table = mapped "minimal_.bss" "bss" ∷ unmapped "minimal_.rodata" "rodata" ∷ [];
  prog_cnt = 1;
  prog_table = "handle_tp" ∷ [];
  data_sz = 2040;
}

abbrev pub minimal_legacy_layout : Layout
minimal_legacy_layout = record {
  name = "minimal_legacy_bpf";
  map_cnt = 2;
  map_table = unmapped "my_pid_map" "my_pid_map" ∷ unmapped ".rodata.str1.1" "rodata_str1_1" ∷ [];
  prog_cnt = 1;
  prog_table = "handle_tp" ∷ [];
  data_sz = 2528;
}

abbrev pub minimal_ns_layout : Layout
minimal_ns_layout = record {
  name = "minimal_ns_bpf";
  map_cnt = 2;
  map_table = mapped "minimal_.bss" "bss" ∷ unmapped "minimal_.rodata" "rodata" ∷ [];
  prog_cnt = 1;
  prog_table = "handle_tp" ∷ [];
  data_sz = 2368;
}

abbrev pub sockfilter_layout : Layout
sockfilter_layout = record {
  name = "sockfilter_bpf";
  map_cnt = 1;
  map_table = unmapped "rb" "rb" ∷ [];
  prog_cnt = 1;
  prog_table = "socket_handler" ∷ [];
  data_sz = 4608;
}

abbrev pub task_iter_layout : Layout
task_iter_layout = record {
  name = "task_iter_bpf";
  map_cnt = 2;
  map_table = unmapped "task_info_buf" "task_info_buf" ∷ unmapped "task_ite.bss" "bss" ∷ [];
  prog_cnt = 1;
  prog_table = "get_tasks" ∷ [];
  data_sz = 25240;
}

abbrev pub tc_layout : Layout
tc_layout = record {
  name = "tc_bpf";
  map_cnt = 1;
  map_table = unmapped "tc_bpf.rodata" "rodata" ∷ [];
  prog_cnt = 1;
  prog_table = "tc_ingress" ∷ [];
  data_sz = 3552;
}

abbrev pub uprobe_layout : Layout
uprobe_layout = record {
  name = "uprobe_bpf";
  map_cnt = 1;
  map_table = unmapped "uprobe_b.rodata" "rodata" ∷ [];
  prog_cnt = 4;
  prog_table = "uprobe_add" ∷ "uretprobe_add" ∷ "uprobe_sub" ∷ "uretprobe_sub" ∷ [];
  data_sz = 4544;
}

abbrev pub usdt_layout : Layout
usdt_layout = record {
  name = "usdt_bpf";
  map_cnt = 5;
  map_table =
      unmapped "__bpf_usdt_specs" "__bpf_usdt_specs"
      ∷ unmapped "__bpf_usdt_ip_to_spec_id" "__bpf_usdt_ip_to_spec_id"
      ∷ mapped "usdt_bpf.bss" "bss"
      ∷ unmapped "usdt_bpf.rodata" "rodata"
      ∷ mapped "usdt_bp.kconfig" "kconfig"
      ∷ [];
  prog_cnt = 2;
  prog_table = "usdt_auto_attach" ∷ "usdt_manual_attach" ∷ [];
  data_sz = 10360;
}

abbrev pub all_layouts : List Layout
all_layouts =
    bootstrap_layout ∷ bootstrap_legacy_layout ∷ fentry_layout ∷ kprobe_layout ∷ ksyscall_layout
    ∷ lsm_layout ∷ minimal_layout ∷ minimal_legacy_layout ∷ minimal_ns_layout ∷ sockfilter_layout
    ∷ task_iter_layout ∷ tc_layout ∷ uprobe_layout ∷ usdt_layout ∷ []
