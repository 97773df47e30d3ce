-- ===== src/Bytecode/Bootstrap/Report.antt =====
-- The report of an exit, from the slot 72 on: bootstrap's program stores the exit code and the name in its
-- record, and submits it.
use Prim.Native.Nat.{bit_and}
use hello_e_bpf.Prelude.{
  ℕ, ◌+◌, ◌-◌, ◌/◌, ◌%◌, ◌^◌, ◌≤◌, ◌<◌, ◌≡◌, refl, ap, ◌∙◌, inl, inr, some, arith,
}
use hello_e_bpf.Bytecode.Machine.{Kernel, Registers, exited, update, after_call}
use hello_e_bpf.Bytecode.Flat.{run_flat}
use hello_e_bpf.Bytecode.Tracing.{IsTracing}
use hello_e_bpf.Bytecode.Stack.{Apart, HasStack, below_frame}
use hello_e_bpf.Bytecode.Bootstrap.{exit_disassembled}
use hello_e_bpf.Bytecode.Bootstrap.Laws.{IsBootstrap}
use hello_e_bpf.Bytecode.Bootstrap.Reporting.{
  exit_report, View, and_report, view, HasReports, IsReporting,
}

module _ {k : Kernel} {t : IsTracing k} {frame : ℕ} (stack : HasStack t frame)
    {b : IsBootstrap t frame} {has : HasReports b} (rep : IsReporting has) (e duration : ℕ)
    (fits : e + 168 ≤ 2 ^ 64) (apart : Apart e 168 (frame - 512) 512) where
  -- The record is filled, but for fields that are not followed.
  pub record Filled (before : View) (pid : ℕ) (w : k.World) : Type 0 where
    pub reserved : rep.Reserved w e 168
    pub silent : view has w ≡ before
    pub pid_there : k.load_bytes 4 e w ≡ some pid
    pub duration_there : k.load_bytes 8 (e + 16) w ≡ some duration
    pub exit_there : k.load_bytes 1 (e + 167) w ≡ some 1

  pub Filled-kept :
      {before : View} {pid : ℕ} {w w' : k.World} (a n : ℕ)
      → view has w' ≡ view has w
      → rep.Reserved w' e 168
      → ((m b : ℕ) → Apart b m a n → k.load_bytes m b w' ≡ k.load_bytes m b w)
      → Apart e 4 a n
      → Apart (e + 16) 8 a n
      → Apart (e + 167) 1 a n
      → Filled before pid w
      → Filled before pid w'
  Filled-kept a n same still keeps at_pid at_duration at_exit f = record {
    reserved = still;
    silent = same ∙ f.silent;
    pid_there = keeps 4 e at_pid ∙ f.pid_there;
    duration_there = keeps 8 (e + 16) at_duration ∙ f.duration_there;
    exit_there = keeps 1 (e + 167) at_exit ∙ f.exit_there;
  }

  -- The registers that last over the calls.
  pub record Holding (r : Registers) : Type 0 where
    pub at_r6 : r 6 ≡ some e
    pub at_r10 : r 10 ≡ some frame

  pub at : (offset : ℕ) → offset < 168 → (e + offset) % 2 ^ 64 ≡ e + offset
  at offset h = omega (arith, fits)

  pub low : (n : ℕ) → n ≤ 512 → (frame + 2 ^ 64 - n) % 2 ^ 64 ≡ frame - n
  low n small = below_frame frame n small stack.room stack.word

  pub same_low : (n : ℕ) → n ≤ 512 → (frame + (2 ^ 64 - n)) % 2 ^ 64 ≡ frame - n
  same_low n small = let room = stack.room in omega (arith, stack.word)

  -- The submission, from the slot 80 on.
  submit_runs :
      {before : View} {pid : ℕ} (r : Registers) (w : k.World)
      → Holding r
      → Filled before pid w
      → (w' : k.World) × (run_flat k 14 exit_disassembled
            (record { pc = 80; registers = r; world = w })
          ≡ exited 0 w')
        × (view has w' ≡ and_report before (exit_report pid duration))
  unfolding run_flat update after_call
  submit_runs {before} {pid} r w h f =
      rw (run_flat, h.at_r6)
        (
          _,
          refl,
          rep.submits _ w e pid duration 1 refl refl f.reserved f.pid_there f.duration_there
                f.exit_there
              ∙ ap (λ v. and_report v (exit_report pid duration)) f.silent,
        )

  -- The name of the program, from the slot 76 on.
  abbrev at_name : Registers → Registers
  at_name r = update (update (update r 1 (some e)) 1 (some ((e + 24) % 2 ^ 64))) 2 (some 16)

  name_runs :
      {before : View} {pid : ℕ} (r : Registers) (w : k.World)
      → Holding r
      → Filled before pid w
      → (w' : k.World) × (run_flat k 18 exit_disassembled
            (record { pc = 76; registers = r; world = w })
          ≡ exited 0 w')
        × (view has w' ≡ and_report before (exit_report pid duration))
  unfolding run_flat update after_call
  name_runs r w h f =
      let (silent, still, keeps) =
        rep.names (at_name r) w e 168 24 16 (ap some {x = (e + 24) % 2 ^ 64} (omega (arith, fits)))
          refl f.reserved (omega arith) in
      let filled =
        Filled-kept (e + 24) 16 silent still keeps (inl (omega arith)) (inl (omega arith))
          (inr (omega arith)) f in
      let r' = after_call (at_name r) (k.helper 16 (at_name r) w).0 in
      let holding : Holding r' = record { at_r6 = h.at_r6; at_r10 = h.at_r10 } in
      let (w', runs, reported) = submit_runs r' (k.helper 16 (at_name r) w).1 holding filled in
      (w', rw (run_flat, h.at_r6) runs, reported)

  -- The exit code, from the slot 72 on: it is on the stack.
  abbrev coded : Registers → ℕ → Registers
  coded r v =
      update (update (update r 1 (some v)) 1 (some (v / 2 ^ 8))) 1 (some (bit_and (v / 2 ^ 8) 255))

  pub code_runs :
      {before : View} {pid : ℕ} (r : Registers) (w : k.World) (v : ℕ)
      → Holding r
      → Filled before pid w
      → k.load_bytes 4 (frame - 16) w ≡ some v
      → (w' : k.World) × (run_flat k 22 exit_disassembled
            (record { pc = 72; registers = r; world = w })
          ≡ exited 0 w')
        × (view has w' ≡ and_report before (exit_report pid duration))
  unfolding run_flat update after_call
  code_runs r w v h f there =
      let x = bit_and (v / 2 ^ 8) 255 % 256 ^ 4 in
      let (w1, stored, silent, still) = rep.record_stores 4 8 x w e 168 f.reserved (omega arith) in
      let filled =
        Filled-kept (e + 8) 4 silent still
          (λ m b away. stack.keeps 4 (e + 8) x w w1 m b stored away) (inl (omega arith))
          (inr (omega arith)) (inr (omega arith)) f in
      let holding : Holding (coded r v) = record { at_r6 = h.at_r6; at_r10 = h.at_r10 } in
      let (w', runs, reported) = name_runs (coded r v) w1 holding filled in
      (
        w',
        rw (run_flat, h.at_r10, low 16 (omega arith), there, h.at_r6, at 8 (omega arith), stored)
            runs,
        reported,
      )
