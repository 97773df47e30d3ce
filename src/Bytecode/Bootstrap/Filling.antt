-- ===== src/Bytecode/Bootstrap/Filling.antt =====
-- The report of an exit from its start, the slot 35: bootstrap's program reserves a record, and fills it.
use hello_e_bpf.Prelude.{
  ℕ, ◌+◌, ◌-◌, ◌%◌, ◌^◌, ◌≤◌, ◌<◌, ◌≡◌, refl, ap, subst, ◌∙◌, ◌⊎◌, inl, inr, true, false, some,
  ◌==◌, ==_iff, Bool-cases, arith,
}
use hello_e_bpf.Bytecode.Machine.{Kernel, Registers, End, exited, update, after_call}
use hello_e_bpf.Bytecode.Flat.{run_flat}
use hello_e_bpf.Bytecode.Tracing.{IsTracing}
use hello_e_bpf.Bytecode.Stack.{Apart, HasStack, below_frame}
use hello_e_bpf.Bytecode.Bootstrap.{exit_disassembled}
use hello_e_bpf.Bytecode.Bootstrap.Laws.{IsBootstrap}
use hello_e_bpf.Bytecode.Bootstrap.Reporting.{
  exit_report, and_failure, and_report, view, HasReports, IsReporting,
}
use hello_e_bpf.Bytecode.Bootstrap.Report.{Filled, Holding}
use hello_e_bpf.Bytecode.Bootstrap.Parent.{address_runs}

module _ {k : Kernel} {t : IsTracing k} {frame : ℕ} (stack : HasStack t frame)
    {b : IsBootstrap t frame} {has : HasReports b} (rep : IsReporting has) where
  low : (n : ℕ) → n ≤ 512 → (frame + 2 ^ 64 - n) % 2 ^ 64 ≡ frame - n
  low n small = below_frame frame n small stack.room stack.word

  abbrev filled_registers : Registers → (pid task : ℕ) → Registers
  filled_registers r pid task =
      update (update (update (after_call r task) 8 (some task)) 1 (some 1)) 1 (some pid)

  filling_steps :
      (e duration pid : ℕ) (r : Registers) (w w1 w2 w3 : k.World)
      → e + 167 < 2 ^ 64
      → duration < 2 ^ 64
      → pid < 2 ^ 32
      → r 6 ≡ some e
      → r 7 ≡ some duration
      → r 10 ≡ some frame
      → k.store_bytes 1 (e + 167) 1 w ≡ some w1
      → k.store_bytes 8 (e + 16) duration w1 ≡ some w2
      → k.store_bytes 4 e pid w2 ≡ some w3
      → k.load_bytes 4 (frame - 4) w2 ≡ some pid
      → (end : End k.World)
      → run_flat k 45 exit_disassembled
          (record { pc = 49; registers = filled_registers r pid (k.helper 35 r w).0; world = w3 })
        ≡ end
      → run_flat k 52 exit_disassembled (record { pc = 42; registers = r; world = w }) ≡ end
  unfolding run_flat update after_call
  filling_steps e duration pid r w w1 w2 w3 fits long small at_r6 at_r7 at_r10 first second third
        key end runs =
      let inside : (offset : ℕ) → offset < 168 → (e + offset) % 2 ^ 64 ≡ e + offset =
        (λ offset h. omega arith) in
      let long_small : duration % 256 ^ 8 ≡ duration = omega arith in
      let base : (e + 0) % 2 ^ 64 ≡ e = omega arith in
      let pid_small : pid % 256 ^ 4 ≡ pid = omega arith in
      rw
        (
          run_flat,
          at_r6,
          inside 167 (omega arith),
          rep.task_keeps r w,
          first,
          at_r6,
          at_r7,
          inside 16 (omega arith),
          long_small,
          second,
          at_r10,
          low 4 (omega arith),
          key,
          at_r6,
          base,
          pid_small,
          third,
        )
        runs

  -- From the slot 42 on: r6 holds the record, r7 the duration.
  filling_runs :
      (e duration pid : ℕ) (r : Registers) (w : k.World)
      → e + 168 ≤ 2 ^ 64
      → Apart e 168 (frame - 512) 512
      → duration < 2 ^ 64
      → pid < 2 ^ 32
      → r 6 ≡ some e
      → r 7 ≡ some duration
      → r 10 ≡ some frame
      → rep.Reserved w e 168
      → k.load_bytes 4 (frame - 4) w ≡ some pid
      → (w' : k.World) × (run_flat k 52 exit_disassembled
            (record { pc = 42; registers = r; world = w })
          ≡ exited 0 w')
        × (view has w' ≡ and_report (view has w) (exit_report pid duration))
  unfolding run_flat update after_call
  filling_runs e duration pid r w fits apart long small at_r6 at_r7 at_r10 reserved key =
      let room = stack.room in
      let (w1, first, silent1, still1) = rep.record_stores 1 167 1 w e 168 reserved (omega arith) in
      let (w2, second, silent2, still2) =
        rep.record_stores 8 16 duration w1 e 168 still1 (omega arith) in
      let (w3, third', silent3, still3) = rep.record_stores 4 0 pid w2 e 168 still2 (omega arith) in
      let third : k.store_bytes 4 e pid w2 ≡ some w3 =
        subst (λ a. k.store_bytes 4 a pid w2 ≡ some w3) {x = e + 0} {y = e} (omega arith) third' in
      let task = (k.helper 35 r w).0 in
      let key2 : k.load_bytes 4 (frame - 4) w2 ≡ some pid =
        stack.keeps 8 (e + 16) duration w1 w2 4 (frame - 4) second (ground arith)
        ∙ stack.keeps 1 (e + 167) 1 w w1 4 (frame - 4) first (ground arith)
        ∙ key in
      let filled : Filled stack rep e duration fits apart (view has w) pid w3 = record {
        reserved = still3;
        silent = silent3 ∙ silent2 ∙ silent1;
        pid_there = stack.reads 4 e pid w2 w3 (omega arith) third;
        duration_there =
            stack.keeps 4 e pid w2 w3 8 (e + 16) third (inr (omega arith))
            ∙ stack.reads 8 (e + 16) duration w1 w2 (omega arith) second;
        exit_there =
            stack.keeps 4 e pid w2 w3 1 (e + 167) third (inr (omega arith))
            ∙ stack.keeps 8 (e + 16) duration w1 w2 1 (e + 167) second (inr (omega arith))
            ∙ stack.reads 1 (e + 167) 1 w w1 (omega arith) first;
      } in
      let r' = filled_registers r pid (k.helper 35 r w).0 in
      let holding : Holding stack rep e duration fits apart r' = record {
        at_r6 = at_r6;
        at_r10 = at_r10;
      } in
      let (w', runs, reported) =
        address_runs stack rep e duration fits apart r' w3 task holding refl filled in
      (
        w',
        filling_steps e duration pid r w w1 w2 w3 (omega arith) long small at_r6 at_r7 at_r10 first
            second third key2 (exited 0 w') runs,
        reported,
      )

  abbrev at_reserve : Registers → Registers
  at_reserve r =
      update (update (update r 1 (some ((k.address_of "rb" + 0) % 2 ^ 64))) 2 (some 168)) 3 (some 0)

  at_rb : (k.address_of "rb" + 0) % 2 ^ 64 ≡ k.address_of "rb"
  at_rb = omega (arith, t.address_is_word "rb")

  full_steps :
      (r : Registers) (w : k.World)
      → ((k.helper 131 (at_reserve r) w).0 == 0) ≡ true
      → run_flat k 58 exit_disassembled (record { pc = 35; registers = r; world = w })
        ≡ exited 0 (k.helper 131 (at_reserve r) w).1
  unfolding run_flat update after_call
  full_steps r w none_left = rw (run_flat, none_left) refl

  reserved_steps :
      (r : Registers) (w : k.World)
      → ((k.helper 131 (at_reserve r) w).0 == 0) ≡ false
      → (end : End k.World)
      → run_flat k 52 exit_disassembled (record {
        pc = 42;
        registers =
            update
              (after_call (at_reserve r) (k.helper 131 (at_reserve r) w).0)
              6
              (some (k.helper 131 (at_reserve r) w).0);
        world = (k.helper 131 (at_reserve r) w).1;
      })
        ≡ end
      → run_flat k 58 exit_disassembled (record { pc = 35; registers = r; world = w }) ≡ end
  unfolding run_flat update after_call
  reserved_steps r w some_left end runs = rw (run_flat, some_left) runs

  -- The whole report: nothing where no record can be reserved, else one record.
  pub report_runs :
      (duration pid : ℕ) (r : Registers) (w : k.World)
      → duration < 2 ^ 64
      → pid < 2 ^ 32
      → r 7 ≡ some duration
      → r 10 ≡ some frame
      → k.load_bytes 4 (frame - 4) w ≡ some pid
      → (w' : k.World) × (run_flat k 58 exit_disassembled
            (record { pc = 35; registers = r; world = w })
          ≡ exited 0 w')
        × ((view has w' ≡ and_failure (view has w))
            ⊎ (view has w' ≡ and_report (view has w) (exit_report pid duration)))
  unfolding update after_call
  report_runs duration pid r w long small at_r7 at_r10 key =
      let asks = at_reserve r in
      let stays = rep.reserve_keeps asks w in
      elim (Bool-cases ((k.helper 131 asks w).0 == 0)) [
        | inl e ↦ (
          (k.helper 131 asks w).1,
          full_steps r w e,
          inl (rep.reserve_fails asks w ((==_iff (k.helper 131 asks w).0 0).0 e)),
        )
        | inr e ↦
            let (silent, reserved, fits, apart) =
              rep.reserves asks w 168 (ap some at_rb) refl refl (ground arith) in
            let (w', runs, reported) =
              filling_runs (k.helper 131 asks w).0 duration pid
                (update (after_call asks (k.helper 131 asks w).0) 6 (some (k.helper 131 asks w).0))
                (k.helper 131 asks w).1 fits apart long small refl at_r7 at_r10 reserved
                (stays ∙ key) in
            (
              w',
              reserved_steps r w e (exited 0 w') runs,
              inr (reported ∙ ap (λ v. and_report v (exit_report pid duration)) silent),
            )
      ]
