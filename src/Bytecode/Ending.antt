-- ===== src/Bytecode/Ending.antt =====
-- All programs of the skeletons in examples/c/.output: that they end, and where their frames are.
use hello_e_bpf.Prelude.{◌≡◌, refl, true, some, List, [], ◌∷◌, every, every-All, All-member, ℕ}
use hello_e_bpf.Bytecode.Machine.{Program, Kernel, State, entry}
use mathlib.Core.List.{Memᴰ}
use hello_e_bpf.Bytecode.Frames.{all_keep_frame, Reaches, frame_at, Reaches-frame}
use hello_e_bpf.Bytecode.Programs.Bootstrap.{
  bootstrap_handle_exec_program, bootstrap_handle_exit_program,
}
use hello_e_bpf.Bytecode.Programs.BootstrapLegacy.{
  bootstrap_legacy_handle_exec_program, bootstrap_legacy_handle_exit_program,
}
use hello_e_bpf.Bytecode.Programs.Fentry.{
  fentry_do_unlinkat_program, fentry_do_unlinkat_exit_program,
}
use hello_e_bpf.Bytecode.Programs.Kprobe.{
  kprobe_do_unlinkat_program, kprobe_do_unlinkat_exit_program,
}
use hello_e_bpf.Bytecode.Programs.Ksyscall.{
  ksyscall_tgkill_entry_program, ksyscall_entry_probe_program,
}
use hello_e_bpf.Bytecode.Programs.Lsm.{lsm_lsm_bpf_program}
use hello_e_bpf.Bytecode.Programs.Minimal.{minimal_handle_tp_program}
use hello_e_bpf.Bytecode.Programs.MinimalLegacy.{minimal_legacy_handle_tp_program}
use hello_e_bpf.Bytecode.Programs.MinimalNs.{minimal_ns_handle_tp_program}
use hello_e_bpf.Bytecode.Programs.Sockfilter.{sockfilter_socket_handler_program}
use hello_e_bpf.Bytecode.Programs.TaskIter.{task_iter_get_tasks_program}
use hello_e_bpf.Bytecode.Programs.Tc.{tc_tc_ingress_program}
use hello_e_bpf.Bytecode.Programs.Uprobe.{
  uprobe_uprobe_add_program, uprobe_uretprobe_add_program, uprobe_uprobe_sub_program,
  uprobe_uretprobe_sub_program,
}
use hello_e_bpf.Bytecode.Programs.Usdt.{
  usdt_usdt_auto_attach_program, usdt_usdt_manual_attach_program,
}

abbrev pub all_programs : List Program
all_programs =
    bootstrap_handle_exec_program ∷ bootstrap_handle_exit_program
    ∷ bootstrap_legacy_handle_exec_program ∷ bootstrap_legacy_handle_exit_program
    ∷ fentry_do_unlinkat_program ∷ fentry_do_unlinkat_exit_program ∷ kprobe_do_unlinkat_program
    ∷ kprobe_do_unlinkat_exit_program ∷ ksyscall_tgkill_entry_program ∷ ksyscall_entry_probe_program
    ∷ lsm_lsm_bpf_program ∷ minimal_handle_tp_program ∷ minimal_legacy_handle_tp_program
    ∷ minimal_ns_handle_tp_program ∷ sockfilter_socket_handler_program ∷ task_iter_get_tasks_program
    ∷ tc_tc_ingress_program ∷ uprobe_uprobe_add_program ∷ uprobe_uretprobe_add_program
    ∷ uprobe_uprobe_sub_program ∷ uprobe_uretprobe_sub_program ∷ usdt_usdt_auto_attach_program
    ∷ usdt_usdt_manual_attach_program ∷ []

-- No program writes r10.
all_programs-all_keep_frame : every (λ p. all_keep_frame p.slots) all_programs ≡ true
unfolding all_keep_frame bootstrap_handle_exec_program bootstrap_handle_exit_program
    bootstrap_legacy_handle_exec_program bootstrap_legacy_handle_exit_program
    fentry_do_unlinkat_program fentry_do_unlinkat_exit_program kprobe_do_unlinkat_program
    kprobe_do_unlinkat_exit_program ksyscall_tgkill_entry_program ksyscall_entry_probe_program
    lsm_lsm_bpf_program minimal_handle_tp_program minimal_legacy_handle_tp_program
    minimal_ns_handle_tp_program sockfilter_socket_handler_program task_iter_get_tasks_program
    tc_tc_ingress_program uprobe_uprobe_add_program uprobe_uretprobe_add_program
    uprobe_uprobe_sub_program uprobe_uretprobe_sub_program usdt_usdt_auto_attach_program
    usdt_usdt_manual_attach_program
all_programs-all_keep_frame = refl

-- In every state that a call of one of the 23 programs comes to, r10 holds the frame of the function
-- that runs: that of the program, or, in a function that it has called, the one next to the caller's.
pub all_programs-frame :
    (k : Kernel) (p : Program) (context frame depth : ℕ) (w : k.World) (s : State k)
    → Memᴰ p all_programs
    → Reaches k p (entry k context frame w) depth s
    → s.registers 10 ≡ some (frame_at k depth frame)
all_programs-frame k p context frame depth w s among comes =
    Reaches-frame k context frame w
      (All-member (λ q. all_keep_frame q.slots ≡ true)
        (every-All (λ q. all_keep_frame q.slots) all_programs all_programs-all_keep_frame) among)
      comes
