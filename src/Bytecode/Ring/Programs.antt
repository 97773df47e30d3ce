-- ===== src/Bytecode/Ring/Programs.antt =====
-- The check of every program of the skeletons, and what it shows.
use mathlib.Core.List.{Memᴰ}
use mathlib.Core.List.Memᴰ.{head, tail}
use hello_e_bpf.Prelude.{
  ℕ, and_true, ◌≡◌, refl, sym, subst, Bool, true, false, ◌&&◌, List, [], ◌∷◌, replicate, ◌++◌,
}
use hello_e_bpf.Bytecode.Machine.{Program, Kernel, exited, call_program}
use hello_e_bpf.Bytecode.Programs.Bootstrap.{
  bootstrap_handle_exec_program, bootstrap_handle_exit_program,
}
use hello_e_bpf.Bytecode.Programs.BootstrapLegacy.{
  bootstrap_legacy_handle_exec_program, bootstrap_legacy_handle_exit_program,
}
use hello_e_bpf.Bytecode.Programs.Fentry.{
  fentry_do_unlinkat_program, fentry_do_unlinkat_exit_program,
}
use hello_e_bpf.Bytecode.Programs.Kprobe.{
  kprobe_do_unlinkat_program, kprobe_do_unlinkat_exit_program,
}
use hello_e_bpf.Bytecode.Programs.Ksyscall.{
  ksyscall_tgkill_entry_program, ksyscall_entry_probe_program,
}
use hello_e_bpf.Bytecode.Programs.Lsm.{lsm_lsm_bpf_program}
use hello_e_bpf.Bytecode.Programs.Minimal.{minimal_handle_tp_program}
use hello_e_bpf.Bytecode.Programs.MinimalLegacy.{minimal_legacy_handle_tp_program}
use hello_e_bpf.Bytecode.Programs.MinimalNs.{minimal_ns_handle_tp_program}
use hello_e_bpf.Bytecode.Programs.Sockfilter.{sockfilter_socket_handler_program}
use hello_e_bpf.Bytecode.Programs.TaskIter.{task_iter_get_tasks_program}
use hello_e_bpf.Bytecode.Programs.Tc.{tc_tc_ingress_program}
use hello_e_bpf.Bytecode.Programs.Uprobe.{
  uprobe_uprobe_add_program, uprobe_uretprobe_add_program, uprobe_uprobe_sub_program,
  uprobe_uretprobe_sub_program,
}
use hello_e_bpf.Bytecode.Programs.Usdt.{
  usdt_usdt_auto_attach_program, usdt_usdt_manual_attach_program,
}
use hello_e_bpf.Bytecode.Ending.{all_programs}
use hello_e_bpf.Bytecode.Ring.Events.{HasRing, Paired}
use hello_e_bpf.Bytecode.Ring.Holds.{free, asked, holding, Holds, leads, all_allowed}
use hello_e_bpf.Bytecode.Ring.Sound.{call_program-Paired}

-- handle_exec and handle_exit of bootstrap, and socket_handler of sockfilter: the record is in r0, then
-- in r7 or r6, and at its submission in r1.
abbrev exec_holds : Holds
exec_holds =
    (24, asked (0 ∷ []))
    ∷ (25, asked (7 ∷ []))
    ∷ (26, holding (7 ∷ []))
    ∷ (59, holding (1 ∷ []))
    ∷ (61, free)
    ∷ []

abbrev exit_holds : Holds
exit_holds =
    (40, asked (0 ∷ []))
    ∷ (41, asked (6 ∷ []))
    ∷ (42, holding (6 ∷ []))
    ∷ (81, holding (1 ∷ []))
    ∷ (83, free)
    ∷ []

abbrev socket_holds : Holds
socket_holds =
    (26, asked (0 ∷ []))
    ∷ (27, asked (7 ∷ []))
    ∷ (28, holding (7 ∷ []))
    ∷ (67, holding (1 ∷ []))
    ∷ (69, free)
    ∷ []

-- In the order of `all_programs`; the other programs hold nothing.
abbrev all_holds : List Holds
all_holds = exec_holds ∷ exit_holds ∷ (replicate 12 [] ++ (socket_holds ∷ replicate 8 []))

abbrev is_checked : Holds → Program → Bool
is_checked check p = all_allowed check 0 p.slots && leads check free 0

abbrev are_checked : List Holds → List Program → Bool
are_checked [] [] = true
are_checked (c ∷ cs) (p ∷ ps) = is_checked c p && are_checked cs ps
are_checked [] (_ ∷ _) = false
are_checked (_ ∷ _) [] = false

all_programs-are_checked : are_checked all_holds all_programs ≡ true
unfolding all_allowed bootstrap_handle_exec_program bootstrap_handle_exit_program
    bootstrap_legacy_handle_exec_program bootstrap_legacy_handle_exit_program
    fentry_do_unlinkat_program fentry_do_unlinkat_exit_program kprobe_do_unlinkat_program
    kprobe_do_unlinkat_exit_program ksyscall_tgkill_entry_program ksyscall_entry_probe_program
    lsm_lsm_bpf_program minimal_handle_tp_program minimal_legacy_handle_tp_program
    minimal_ns_handle_tp_program sockfilter_socket_handler_program task_iter_get_tasks_program
    tc_tc_ingress_program uprobe_uprobe_add_program uprobe_uretprobe_add_program
    uprobe_uprobe_sub_program uprobe_uretprobe_sub_program usdt_usdt_auto_attach_program
    usdt_usdt_manual_attach_program
all_programs-are_checked = refl

are_checked-member :
    {p : Program} (checks : List Holds) (programs : List Program)
    → are_checked checks programs ≡ true
    → Memᴰ p programs
    → (check : Holds) × (is_checked check p ≡ true)
are_checked-member (c ∷ cs) (q ∷ ps) h (head e) =
    (c, subst (λ x. is_checked c x ≡ true) (sym e) (and_true (is_checked c q) _ h).0)
are_checked-member (c ∷ cs) (q ∷ ps) h (tail m) =
    are_checked-member cs ps (and_true (is_checked c q) _ h).1 m
are_checked-member [] (q ∷ ps) h m = cc
are_checked-member [] [] h m = elim m [ ]
are_checked-member (c ∷ cs) [] h m = elim m [ ]

-- A call of any of the 23 programs, if it exits, has submitted each record of a ring buffer that it has
-- reserved, once and before it reserved another, and has submitted nothing else.
pub all_programs-Paired :
    {k : Kernel} (ring : HasRing k) (p : Program) (context frame r0 : ℕ) (w w' : k.World)
    → Memᴰ p all_programs
    → call_program k p context frame w ≡ exited r0 w'
    → Paired (ring.history w) (ring.history w')
all_programs-Paired ring p context frame r0 w w' among exits =
    let (check, checked) =
      are_checked-member all_holds all_programs all_programs-are_checked among in
    let (allowed, starts) = and_true (all_allowed check 0 p.slots) (leads check free 0) checked in
    call_program-Paired ring check p context frame r0 w w' allowed starts exits
