-- ===== src/Bytecode/Bootstrap/Lifetime.antt =====
-- An exec and an exit of one process: what the first program has put in the map, the second takes out.
use hello_e_bpf.Prelude.{
  subst, suc, ℕ, ◌+◌, ◌-◌, ◌/◌, ◌%◌, ◌^◌, ◌≡◌, ◌≢◌, sym, ap, ◌∙◌, inl, inr, Option, some, ◌∷◌, ltb,
  arith,
}
use hello_e_bpf.Bytecode.Machine.{Kernel, exited, call_program}
use hello_e_bpf.Bytecode.Tracing.{IsTracing}
use hello_e_bpf.Bytecode.Stack.{HasStack}
use hello_e_bpf.Bytecode.Programs.Bootstrap.{
  bootstrap_handle_exec_program, bootstrap_handle_exit_program,
}
use hello_e_bpf.Bytecode.Bootstrap.Laws.{Starts, put, IsBootstrap}
use hello_e_bpf.Bytecode.Bootstrap.Exec.{handle_exec-Records}
use hello_e_bpf.Bytecode.Bootstrap.Reporting.{exit_report, view, HasReports, IsReporting}
use hello_e_bpf.Bytecode.Bootstrap.Duration.{taken_out, Judged, handle_exit-Judges}

put-same : (key : ℕ) (time : Option ℕ) (starts : Starts) → put key time starts key ≡ time
put-same key time starts = ground arith

more_failures : {n : ℕ} → suc n ≢ n
more_failures e = omega arith

exited_world : {A : Type 0} → {w w' : A} → exited 0 w ≡ exited 0 w' → w ≡ w'
exited_world e = cc

module _ {k : Kernel} {t : IsTracing k} {frame : ℕ} (stack : HasStack t frame)
    {b : IsBootstrap t frame} {has : HasReports b} (rep : IsReporting has) (context context' : ℕ)
    (nonzero : b.min_duration_ns ≢ 0) where
  -- An exec by a process at which no update has failed, and then the exit of its first thread, with whatever
  -- between them leaves its entry in the map alone, with a min_duration_ns: the exit takes the entry out, and
  -- measures from the time that the clock told at the exec to the one that it tells now. Where this is shorter
  -- than min_duration_ns it reports nothing; else it reports the process with this time, or the reservation
  -- of a record has failed.
  pub exec_exit-Reports :
      (w w1 w2 : k.World)
      → call_program k bootstrap_handle_exec_program context frame w ≡ exited 0 w1
      → b.failures w1 ≡ b.failures w
      → b.starts w2 (t.pid_tgid w / 2 ^ 32) ≡ b.starts w1 (t.pid_tgid w / 2 ^ 32)
      → t.pid_tgid w2 / 2 ^ 32 ≡ t.pid_tgid w / 2 ^ 32
      → t.pid_tgid w2 % 2 ^ 32 ≡ t.pid_tgid w / 2 ^ 32
      → (w3 : k.World) × (began : ℕ) × (ended : ℕ) × (b.times w1 ≡ began ∷ b.times w)
        × (call_program k bootstrap_handle_exit_program context' frame w2 ≡ exited 0 w3)
        × Judged
            (ltb ((ended + 2 ^ 64 - began) % 2 ^ 64) b.min_duration_ns)
            (taken_out (t.pid_tgid w / 2 ^ 32) ended (view has w2))
            (view has w3)
            (exit_report (t.pid_tgid w / 2 ^ 32) ((ended + 2 ^ 64 - began) % 2 ^ 64))
  exec_exit-Reports w w1 w2 runs worked kept same first =
      let (w', began, ends, word, told, mapped) = handle_exec-Records stack b context w nonzero in
      let here : w' ≡ w1 = exited_world (sym ends ∙ runs) in
      let added : b.starts w1 ≡ put (t.pid_tgid w / 2 ^ 32) (some began) (b.starts w) =
        elim mapped [
          | inl (added, counted) ↦ ap b.starts (sym here) ∙ added
          | inr (full, counted) ↦ absurd (more_failures (sym counted ∙ ap b.failures here ∙ worked))
        ] in
      let started : b.starts w2 (t.pid_tgid w2 / 2 ^ 32) ≡ some began =
        ap (b.starts w2) same
        ∙ kept
        ∙ ap (λ starts. starts (t.pid_tgid w / 2 ^ 32)) added
        ∙ put-same (t.pid_tgid w / 2 ^ 32) (some began) (b.starts w) in
      let (w3, ended, stops, judges) =
        handle_exit-Judges stack has context' w2 nonzero rep began (same ∙ sym first) started in
      (
        w3,
        began,
        ended,
        ap b.times (sym here) ∙ told,
        stops,
        subst
            (λ pid.
              Judged (ltb ((ended + 2 ^ 64 - began) % 2 ^ 64) b.min_duration_ns)
                (taken_out pid ended (view has w2)) (view has w3)
                (exit_report pid ((ended + 2 ^ 64 - began) % 2 ^ 64)))
            same judges,
      )
