-- ===== src/Bytecode/Bootstrap/Parent.antt =====
-- The report of an exit, from the slot 49 on: bootstrap's program follows its task to the parent.
use hello_e_bpf.Prelude.{ℕ, ◌+◌, ◌-◌, ◌%◌, ◌^◌, ◌≤◌, ◌≡◌, refl, ap, inl, inr, some, arith}
use hello_e_bpf.Bytecode.Machine.{Kernel, Registers, exited, update, after_call}
use hello_e_bpf.Bytecode.Flat.{run_flat}
use hello_e_bpf.Bytecode.Tracing.{IsTracing}
use hello_e_bpf.Bytecode.Stack.{Apart, HasStack}
use hello_e_bpf.Bytecode.Bootstrap.{exit_disassembled}
use hello_e_bpf.Bytecode.Bootstrap.Laws.{IsBootstrap}
use hello_e_bpf.Bytecode.Bootstrap.Reporting.{
  exit_report, View, and_report, view, HasReports, IsReporting,
}
use hello_e_bpf.Bytecode.Bootstrap.Report.{
  Filled, Filled-kept, Holding, at, low, same_low, code_runs,
}

module _ {k : Kernel} {t : IsTracing k} {frame : ℕ} (stack : HasStack t frame)
    {b : IsBootstrap t frame} {has : HasReports b} (rep : IsReporting has) (e duration : ℕ)
    (fits : e + 168 ≤ 2 ^ 64) (apart : Apart e 168 (frame - 512) 512) where
  -- The read of the exit code, from the slot 63 on; the parent's number is on the stack.
  abbrev at_code : Registers → (v task : ℕ) → Registers
  at_code r v task =
      update
        (update
          (update
            (update
              (update (update (update r 1 (some v)) 1 (some 980)) 8 (some ((task + 980) % 2 ^ 64)))
              1 (some frame))
            1 (some ((frame + (2 ^ 64 - 16)) % 2 ^ 64)))
          2 (some 4))
        3 (some ((task + 980) % 2 ^ 64))

  parent_runs :
      {before : View} {pid : ℕ} (r : Registers) (w : k.World) (v task : ℕ)
      → Holding stack rep e duration fits apart r
      → r 8 ≡ some task
      → Filled stack rep e duration fits apart before pid w
      → k.load_bytes 4 (frame - 8) w ≡ some v
      → (w' : k.World) × (run_flat k 31 exit_disassembled
            (record { pc = 63; registers = r; world = w })
          ≡ exited 0 w')
        × (view has w' ≡ and_report before (exit_report pid duration))
  unfolding run_flat update after_call
  parent_runs r w v task h at_r8 f there =
      let room = stack.room in
      let x = v % 256 ^ 4 in
      let (w1, stored, silent, still) = rep.record_stores 4 4 x w e 168 f.reserved (omega arith) in
      let filled =
        Filled-kept stack rep e duration fits apart (e + 4) 4 silent still
          (λ m b away. stack.keeps 4 (e + 4) x w w1 m b stored away) (inl (omega arith))
          (inr (omega arith)) (inr (omega arith)) f in
      let asks = at_code r v task in
      let (code, code_there, silent', still', keeps) =
        rep.probes asks w1 (frame - 16) 4
          (ap some (same_low stack rep e duration fits apart 16 (omega arith))) refl (omega arith)
          (omega arith) in
      let filled' =
        Filled-kept stack rep e duration fits apart (frame - 16) 4 silent'
          (still' e 168 filled.reserved) keeps (ground arith) (ground arith) (ground arith)
          filled in
      let r' = after_call asks (k.helper 113 asks w1).0 in
      let holding : Holding stack rep e duration fits apart r' = record {
        at_r6 = h.at_r6;
        at_r10 = h.at_r10;
      } in
      let (w', runs, reported) =
        code_runs stack rep e duration fits apart r' (k.helper 113 asks w1).1 code holding filled'
          code_there in
      (
        w',
        rw
            (
              run_flat,
              h.at_r10,
              low stack rep e duration fits apart 8 (omega arith),
              there,
              h.at_r6,
              at stack rep e duration fits apart 4 (omega arith),
              stored,
              at_r8,
              h.at_r10,
            )
            runs,
        reported,
      )

  -- The reads of the parent: of its number, from the slot 56 on, and of its address, from the slot 49 on.
  abbrev at_parent : Registers → (u : ℕ) → Registers
  at_parent r u =
      update
        (update
          (update
            (update (update (update r 1 (some 1084)) 3 (some u)) 3 (some ((u + 1084) % 2 ^ 64))) 1
            (some frame))
          1 (some ((frame + (2 ^ 64 - 8)) % 2 ^ 64)))
        2 (some 4)

  number_runs :
      {before : View} {pid : ℕ} (r : Registers) (w : k.World) (u task : ℕ)
      → Holding stack rep e duration fits apart r
      → r 8 ≡ some task
      → Filled stack rep e duration fits apart before pid w
      → k.load_bytes 8 (frame - 16) w ≡ some u
      → (w' : k.World) × (run_flat k 38 exit_disassembled
            (record { pc = 56; registers = r; world = w })
          ≡ exited 0 w')
        × (view has w' ≡ and_report before (exit_report pid duration))
  unfolding run_flat update after_call
  number_runs r w u task h at_r8 f there =
      let room = stack.room in
      let asks = at_parent r u in
      let (v, v_there, silent, still, keeps) =
        rep.probes asks w (frame - 8) 4
          (ap some (same_low stack rep e duration fits apart 8 (omega arith))) refl (omega arith)
          (omega arith) in
      let filled =
        Filled-kept stack rep e duration fits apart (frame - 8) 4 silent (still e 168 f.reserved)
          keeps (ground arith) (ground arith) (ground arith) f in
      let r' = after_call asks (k.helper 113 asks w).0 in
      let holding : Holding stack rep e duration fits apart r' = record {
        at_r6 = h.at_r6;
        at_r10 = h.at_r10;
      } in
      let (w', runs, reported) =
        parent_runs r' (k.helper 113 asks w).1 v task holding at_r8 filled v_there in
      (
        w',
        rw
            (
              run_flat,
              h.at_r10,
              low stack rep e duration fits apart 16 (omega arith),
              there,
              h.at_r10,
            )
            runs,
        reported,
      )

  abbrev at_address : Registers → (task : ℕ) → Registers
  at_address r task =
      update
        (update
          (update
            (update (update (update r 1 (some 1088)) 3 (some task)) 3
              (some ((task + 1088) % 2 ^ 64)))
            1 (some frame))
          1 (some ((frame + (2 ^ 64 - 16)) % 2 ^ 64)))
        2 (some 8)

  pub address_runs :
      {before : View} {pid : ℕ} (r : Registers) (w : k.World) (task : ℕ)
      → Holding stack rep e duration fits apart r
      → r 8 ≡ some task
      → Filled stack rep e duration fits apart before pid w
      → (w' : k.World) × (run_flat k 45 exit_disassembled
            (record { pc = 49; registers = r; world = w })
          ≡ exited 0 w')
        × (view has w' ≡ and_report before (exit_report pid duration))
  unfolding run_flat update after_call
  address_runs r w task h at_r8 f =
      let room = stack.room in
      let asks = at_address r task in
      let (u, u_there, silent, still, keeps) =
        rep.probes asks w (frame - 16) 8
          (ap some (same_low stack rep e duration fits apart 16 (omega arith))) refl (omega arith)
          (omega arith) in
      let filled =
        Filled-kept stack rep e duration fits apart (frame - 16) 8 silent (still e 168 f.reserved)
          keeps (ground arith) (ground arith) (ground arith) f in
      let r' = after_call asks (k.helper 113 asks w).0 in
      let holding : Holding stack rep e duration fits apart r' = record {
        at_r6 = h.at_r6;
        at_r10 = h.at_r10;
      } in
      let (w', runs, reported) =
        number_runs r' (k.helper 113 asks w).1 u task holding at_r8 filled u_there in
      (w', rw (run_flat, at_r8, h.at_r10) runs, reported)
