-- ===== src/Bytecode/Bootstrap/Tests.antt =====
-- The theorems on bootstrap's programs at one process, over the kernel of Example.
use hello_e_bpf.Prelude.{
  ltb, ℕ, ◌+◌, ◌-◌, ◌%◌, ◌^◌, ◌<◌, ◌≡◌, ◌≢◌, ◌⊎◌, refl, inr, none, some, [], ◌∷◌, arith,
}
use hello_e_bpf.Bytecode.Machine.{exited, call_program}
use hello_e_bpf.Bytecode.Cells.{write}
use hello_e_bpf.Bytecode.Programs.Bootstrap.{
  bootstrap_handle_exec_program, bootstrap_handle_exit_program,
}
use hello_e_bpf.Bytecode.Bootstrap.Laws.{put}
use hello_e_bpf.Bytecode.Bootstrap.Exec.{handle_exec-Records}
use hello_e_bpf.Bytecode.Bootstrap.Reporting.{View, view, exit_report}
use hello_e_bpf.Bytecode.Bootstrap.Duration.{handle_exit-Ignores, taken_out, Judged}
use hello_e_bpf.Bytecode.Bootstrap.Lifetime.{exec_exit-Reports}
use hello_e_bpf.Bytecode.Bootstrap.Example.{
  World, starts, kernel, kernel-IsTracing, kernel-HasStack,
}
use hello_e_bpf.Bytecode.Bootstrap.ExampleLaws.{
  kernel-IsBootstrap, kernel-HasReports, kernel-IsReporting,
}

abbrev before : World
before = record {
  cells = λ a. 0;
  map = λ n. none;
  times = [];
  log = [];
  failures = 0;
  reports = [];
}

-- After the exec: its time is 600.
abbrev between : World
between = record {
  cells = write 8 4984 600 (write 4 4996 7 (λ a. 0));
  map = put 7 (some 600) (λ n. none);
  times = 600 ∷ [];
  log = [];
  failures = 0;
  reports = [];
}

exec_runs : call_program kernel bootstrap_handle_exec_program 0 5000 before ≡ exited 0 between
unfolding call_program bootstrap_handle_exec_program
exec_runs = refl

min_nonzero : kernel-IsBootstrap.min_duration_ns ≢ 0
unfolding kernel-IsBootstrap
min_nonzero = omega arith

-- What is seen after the exec.
abbrev seen : View
seen = record { starts = starts between; times = 600 ∷ []; failures = 0; reports = [] }

exec_exit-Reports_example :
    (w3 : World) × (began : ℕ) × (ended : ℕ) × (between.times ≡ began ∷ [])
    × (call_program kernel bootstrap_handle_exit_program 0 5000 between ≡ exited 0 w3)
    × Judged
        (ltb ((ended + 2 ^ 64 - began) % 2 ^ 64) 500)
        (taken_out 7 ended seen)
        (view kernel-HasReports w3)
        (exit_report 7 ((ended + 2 ^ 64 - began) % 2 ^ 64))
unfolding kernel-IsTracing kernel-IsBootstrap kernel-HasReports
exec_exit-Reports_example =
    exec_exit-Reports kernel-HasStack kernel-IsReporting 0 0 min_nonzero before between between
      exec_runs refl refl refl refl

handle_exec-Records_example :
    (w' : World) × (now : ℕ) × (call_program kernel bootstrap_handle_exec_program 0 5000 before
      ≡ exited 0 w')
    × (now < 2 ^ 64)
    × (w'.times ≡ now ∷ [])
    × (((starts w' ≡ put 7 (some now) (starts before)) × (w'.failures ≡ 0))
        ⊎ ((starts w' ≡ starts before) × (w'.failures ≡ 1)))
unfolding kernel-IsTracing kernel-IsBootstrap
handle_exec-Records_example =
    handle_exec-Records kernel-HasStack kernel-IsBootstrap 0 before min_nonzero

handle_exit-Ignores_example :
    (w' : World) × (call_program kernel bootstrap_handle_exit_program 0 5000 before ≡ exited 0 w')
    × (view kernel-HasReports w' ≡ view kernel-HasReports before)
unfolding kernel-IsTracing kernel-IsBootstrap kernel-HasReports
handle_exit-Ignores_example =
    handle_exit-Ignores kernel-HasStack kernel-HasReports 0 before min_nonzero (inr refl)
