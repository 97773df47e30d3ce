-- ===== src/Bytecode/Bootstrap/Duration.antt =====
-- A whole exit: bootstrap's program takes the start of the process from the map, and reports how long it
-- has run.
use hello_e_bpf.Prelude.{
  Bool, ◌<◌, subst, List, ℕ, ◌+◌, ◌-◌, ◌/◌, ◌%◌, ◌^◌, ◌≡◌, ◌≢◌, refl, ap, ◌∙◌, ◌⊎◌, inl, inr, true,
  false, none, some, ◌∷◌, ◌==◌, ltb, Bool-cases, arith,
}
use hello_e_bpf.Bytecode.Machine.{Kernel, Registers, exited, update, after_call, call_program}
use hello_e_bpf.Bytecode.Flat.{run_flat}
use hello_e_bpf.Bytecode.Tracing.{IsTracing}
use hello_e_bpf.Bytecode.Stack.{HasStack}
use hello_e_bpf.Bytecode.Programs.Bootstrap.{bootstrap_handle_exit_program}
use hello_e_bpf.Bytecode.Bootstrap.{exit_disassembled}
use hello_e_bpf.Bytecode.Bootstrap.Laws.{Starts, put, IsBootstrap}
use hello_e_bpf.Bytecode.Bootstrap.Reporting.{
  Reported, exit_report, View, and_failure, and_report, view, HasReports, IsReporting,
}
use hello_e_bpf.Bytecode.Bootstrap.Filling.{report_runs}
use hello_e_bpf.Bytecode.Bootstrap.Exit.{
  at_lookup, at_clock, at_delete, now, at_report, other_thread, not_started, removed, too_short,
  long_enough,
}

-- An exit of the process `pid`, before its report.
abbrev pub taken_out : (pid now : ℕ) → View → View
taken_out pid now v = record v { starts = put pid none v.starts; times = now ∷ v.times }

-- No report of what was too short; else one, or a reservation that has failed.
abbrev pub Judged : (short : Bool) → (before after : View) → Reported → Type 0
Judged true before after report = after ≡ before
Judged false before after report = (after ≡ and_failure before) ⊎ (after ≡ and_report before report)

same_view :
    {starts starts' : Starts} {times times' : List ℕ} {failures failures' : ℕ}
    {reports reports' : List Reported}
    → starts ≡ starts'
    → times ≡ times'
    → failures ≡ failures'
    → reports ≡ reports'
    → ◌≡◌ {A = View}
        (record { starts = starts; times = times; failures = failures; reports = reports })
        (record { starts = starts'; times = times'; failures = failures'; reports = reports' })
same_view a b c d = rw (a, b, c, d) refl

module _ {k : Kernel} {t : IsTracing k} {frame : ℕ} (stack : HasStack t frame)
    {b : IsBootstrap t frame} (has : HasReports b) (context : ℕ) (w : k.World)
    (nonzero : b.min_duration_ns ≢ 0) where
  abbrev pid : ℕ
  pid = t.pid_tgid w / 2 ^ 32

  min : (b.min_duration_ns == 0) ≡ false
  min = ground arith

  keyed : (w1 : k.World) × (k.store_bytes 4 (frame - 4) pid w ≡ some w1)
  keyed = let room = stack.room in stack.stores 4 (frame - 4) pid w (omega arith) (omega arith)

  same_keyed :
      (b.starts keyed.0 ≡ b.starts w)
      × (b.times keyed.0 ≡ b.times w)
      × (b.failures keyed.0 ≡ b.failures w)
  same_keyed =
      let room = stack.room in
      b.stores_keep 4 (frame - 4) pid w keyed.0 (omega arith) (omega arith) keyed.1

  key_there : k.load_bytes 4 (frame - 4) keyed.0 ≡ some pid
  key_there = stack.reads 4 (frame - 4) pid w keyed.0 (omega (arith, t.pid_tgid_is_word w)) keyed.1

  at_map : (k.address_of "exec_start" + 0) % 2 ^ 64 ≡ k.address_of "exec_start"
  at_map = omega (arith, t.address_is_word "exec_start")

  at_key : (frame + (2 ^ 64 - 4)) % 2 ^ 64 ≡ frame - 4
  at_key = let room = stack.room in omega (arith, stack.word)

  looked_none :
      b.starts w pid ≡ none
      → k.helper 1 (at_lookup stack b context w keyed.0 keyed.1) keyed.0 ≡ (0, keyed.0)
  unfolding update after_call
  looked_none absent =
      b.finds_none _ keyed.0 (frame - 4) pid (ap some at_map) (ap some at_key) key_there
        (ap (λ starts. starts pid) same_keyed.0 ∙ absent)

  quiet : view has keyed.0 ≡ view has w
  quiet =
      let room = stack.room in
      same_view same_keyed.0 same_keyed.1 same_keyed.2
        (has.stack_silent 4 (frame - 4) pid w keyed.0 (omega arith) (omega arith) keyed.1)

  -- With a min_duration_ns, the program that runs at an exit ends with 0, and neither asks the clock,
  -- nor changes the map, nor reports, for a thread that is not the first of its process and for a process that is not in
  -- the map.
  pub handle_exit-Ignores :
      (pid ≢ t.pid_tgid w % 2 ^ 32) ⊎ (b.starts w pid ≡ none)
      → (w' : k.World) × (call_program k bootstrap_handle_exit_program context frame w
          ≡ exited 0 w')
        × (view has w' ≡ view has w)
  handle_exit-Ignores h = elim (Bool-cases (pid == t.pid_tgid w % 2 ^ 32)) [
    | inr e ↦ (keyed.0, other_thread stack b context w keyed.0 keyed.1 e, quiet)
    | inl e ↦
        let absent : b.starts w pid ≡ none = ground arith in
        (keyed.0, not_started stack b context w keyed.0 keyed.1 e min (looked_none absent), quiet)
  ]

  judged :
      (rep : IsReporting has) (r : Registers) (duration : ℕ) (w3 : k.World)
      → duration < 2 ^ 64
      → r 7 ≡ some duration
      → r 10 ≡ some frame
      → k.load_bytes 4 (frame - 4) w3 ≡ some pid
      → (w' : k.World) × (run_flat k 63 exit_disassembled
            (record { pc = 29; registers = r; world = w3 })
          ≡ exited 0 w')
        × Judged
            (ltb duration b.min_duration_ns)
            (view has w3)
            (view has w')
            (exit_report pid duration)
  unfolding update
  judged rep r duration w3 long at_r7 at_r10 key =
      elim (Bool-cases (ltb duration b.min_duration_ns)) [
        | inl e ↦ rw (e) (w3, too_short b r w3 duration at_r7 min e, refl)
        | inr e ↦
            let small : pid < 2 ^ 32 = omega (arith, t.pid_tgid_is_word w) in
            let (w', runs, reported) =
              report_runs stack rep duration pid (at_report b r w3 duration at_r7 min) w3 long small
                at_r7 at_r10 key in
            rw (e) (w', long_enough b r w3 duration at_r7 min e ∙ runs, reported)
      ]

  -- With a min_duration_ns, a first thread that exits and whose process is in the map has it taken out, and
  -- asks the clock once: where the time since the start, of 64 bits, is shorter than min_duration_ns, nothing
  -- is reported; else the process is, with this time, or the reservation of a record has failed.
  pub handle_exit-Judges :
      (rep : IsReporting has) (start : ℕ)
      → pid ≡ t.pid_tgid w % 2 ^ 32
      → b.starts w pid ≡ some start
      → (w' : k.World) × (now : ℕ) × (call_program k bootstrap_handle_exit_program context frame w
          ≡ exited 0 w')
        × Judged
            (ltb ((now + 2 ^ 64 - start) % 2 ^ 64) b.min_duration_ns)
            (taken_out pid now (view has w))
            (view has w')
            (exit_report pid ((now + 2 ^ 64 - start) % 2 ^ 64))
  unfolding update after_call
  handle_exit-Judges rep start first started =
      let e : (pid == t.pid_tgid w % 2 ^ 32) ≡ true = ground arith in
      let (slot, looked, found, word, there) =
        b.finds (at_lookup stack b context w keyed.0 keyed.1) keyed.0 (frame - 4) pid start
          (ap some at_map) (ap some at_key) key_there
          (ap (λ starts. starts pid) same_keyed.0 ∙ started) in
      let clock = at_clock stack b context w keyed.0 keyed.1 e min slot start looked found word in
      let dropper =
        at_delete stack b context w keyed.0 keyed.1 e min slot start looked found word in
      let time = now stack b context w keyed.0 keyed.1 e min slot start looked found word in
      let w2 = (k.helper 5 clock keyed.0).1 in
      let (mapped, counted, loads) = b.clock_keeps clock keyed.0 in
      let key2 = loads 4 (frame - 4) ∙ key_there in
      let (dropped, timed, counted') =
        b.deletes dropper w2 (frame - 4) pid (ap some at_map) (ap some at_key) key2 in
      let (silent, keeps) = rep.deletes_silent dropper w2 in
      let runs =
        removed stack b context w keyed.0 keyed.1 e min slot start looked found word
          (loads 8 slot ∙ there) in
      let taken : view has (k.helper 3 dropper w2).1 ≡ taken_out pid time (view has w) =
        same_view (dropped ∙ ap (put pid none) (mapped ∙ same_keyed.0))
          (timed ∙ b.clock_tells clock keyed.0 ∙ ap (λ l. time ∷ l) same_keyed.1)
          (counted' ∙ counted ∙ same_keyed.2)
          (silent ∙ rep.clock_silent clock keyed.0 ∙ ap (λ v. v.reports) quiet) in
      let (w', ends, judges) =
        judged rep _ ((time + 2 ^ 64 - start) % 2 ^ 64) (k.helper 3 dropper w2).1 (omega arith) refl
          refl (keeps ∙ key2) in
      (
        w',
        time,
        runs ∙ ends,
        subst
            (λ v.
              Judged (ltb ((time + 2 ^ 64 - start) % 2 ^ 64) b.min_duration_ns) v (view has w')
                (exit_report pid ((time + 2 ^ 64 - start) % 2 ^ 64)))
            taken judges,
      )
