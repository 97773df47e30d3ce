-- ===== src/Bytecode/Bootstrap/Exec.antt =====
-- The program of bootstrap that runs when a process executes a program: it records the time.
use hello_e_bpf.Prelude.{
  ℕ, ◌+◌, ◌-◌, ◌/◌, ◌%◌, ◌^◌, ◌<◌, ◌≡◌, ◌≢◌, refl, ap, ◌∙◌, ◌⊎◌, suc, inl, inr, false, none, some,
  ◌∷◌, ◌==◌, arith,
}
use hello_e_bpf.Bytecode.Machine.{Kernel, Registers, exited, update, after_call, call_program}
use hello_e_bpf.Bytecode.Flat.{call_flat, call_program-flat}
use hello_e_bpf.Bytecode.Tracing.{IsTracing}
use hello_e_bpf.Bytecode.Stack.{HasStack, below_frame}
use hello_e_bpf.Bytecode.Programs.Bootstrap.{bootstrap_handle_exec_program}
use hello_e_bpf.Bytecode.Bootstrap.{exec_disassembled, exec_disassembly}
use hello_e_bpf.Bytecode.Bootstrap.Laws.{put, IsBootstrap}

same_address : (a : ℕ) → a < 2 ^ 64 → ((a + 0) % 2 ^ 64 + 0) % 2 ^ 64 ≡ a
same_address a h = omega arith

module _ {k : Kernel} {t : IsTracing k} {frame : ℕ} (stack : HasStack t frame)
    (b : IsBootstrap t frame) (context : ℕ) (w : k.World) where
  abbrev pid : ℕ
  pid = t.pid_tgid w / 2 ^ 32

  pid_small : pid % 256 ^ 4 ≡ pid
  pid_small = omega (arith, t.pid_tgid_is_word w)

  -- The registers when the program asks for the time.
  abbrev at_clock : Registers
  at_clock =
      update
        (after_call
          (update (update (update (λ _. none) 1 (some context)) 10 (some frame)) 6 (some context))
          (t.pid_tgid w))
        0 (some pid)

  module _ (w1 w3 : k.World) (first : k.store_bytes 4 (frame - 4) pid w ≡ some w1) where
    abbrev now : ℕ
    now = (k.helper 5 at_clock w1).0

    now_small : now % 256 ^ 8 ≡ now
    now_small = omega (arith, b.clock_is_word at_clock w1)

    module _ (second : k.store_bytes 8 (frame - 16) now (k.helper 5 at_clock w1).1 ≡ some w3) where
      -- The run ends after the update of the map.
      runs :
          (b.min_duration_ns == 0) ≡ false
          → (r : Registers) × (call_program k bootstrap_handle_exec_program context frame w
              ≡ exited 0 (k.helper 2 r w3).1)
            × (r 1 ≡ some (k.address_of "exec_start"))
            × (r 2 ≡ some (frame - 4))
            × (r 3 ≡ some (frame - 16))
            × (r 4 ≡ some 0)
      unfolding call_flat update after_call
      runs e =
          let room = stack.room in
          rw
            (
              exec_disassembly,
              call_program-flat k exec_disassembled refl context frame w,
              call_flat,
              t.gets_pid_tgid _ w,
              below_frame frame 4 (omega arith) stack.room stack.word,
              pid_small,
              first,
              t.gets_pid_tgid _ w,
              now_small,
              below_frame frame 16 (omega arith) stack.room stack.word,
              second,
              same_address _ (t.address_is_word "min_duration_ns"),
              b.constant_there _,
              e,
            )
            (
              _,
              refl,
              ap some {x = (k.address_of "exec_start" + 0) % 2 ^ 64} {y = k.address_of "exec_start"}
                  (omega (arith, t.address_is_word "exec_start")),
              ap some {x = (frame + (2 ^ 64 - 4)) % 2 ^ 64} {y = frame - 4}
                  (omega (arith, stack.word)),
              ap some {x = (frame + (2 ^ 64 - 16)) % 2 ^ 64} {y = frame - 16}
                  (omega (arith, stack.word)),
              refl,
            )

      -- The map after it.
      updated :
          (r : Registers)
          → r 1 ≡ some (k.address_of "exec_start")
          → r 2 ≡ some (frame - 4)
          → r 3 ≡ some (frame - 16)
          → r 4 ≡ some 0
          → (b.times (k.helper 2 r w3).1 ≡ now ∷ b.times w)
            × (((b.starts (k.helper 2 r w3).1 ≡ put pid (some now) (b.starts w))
                  × (b.failures (k.helper 2 r w3).1 ≡ b.failures w))
                ⊎ ((b.starts (k.helper 2 r w3).1 ≡ b.starts w)
                    × (b.failures (k.helper 2 r w3).1 ≡ suc (b.failures w))))
      updated r at_r1 at_r2 at_r3 at_r4 =
          let room = stack.room in
          let w2 = (k.helper 5 at_clock w1).1 in
          let (mapped2, counted2, loads) = b.clock_keeps at_clock w1 in
          let pid_there =
            stack.keeps 8 (frame - 16) now w2 w3 4 (frame - 4) second (inr (omega arith))
            ∙ loads 4 (frame - 4)
            ∙ stack.reads 4 (frame - 4) pid w w1 (omega (arith, t.pid_tgid_is_word w)) first in
          let now_there =
            stack.reads 8 (frame - 16) now w2 w3 (omega (arith, b.clock_is_word at_clock w1))
              second in
          let (timed, mapped) =
            b.updates r w3 (frame - 4) (frame - 16) pid now at_r1 at_r2 at_r3 at_r4 pid_there
              now_there in
          let (same1, times1, failures1) =
            b.stores_keep 4 (frame - 4) pid w w1 (omega arith) (omega arith) first in
          let (same3, times3, failures3) =
            b.stores_keep 8 (frame - 16) now w2 w3 (omega arith) (omega arith) second in
          let same = same3 ∙ mapped2 ∙ same1 in
          let failed = failures3 ∙ counted2 ∙ failures1 in
          (
            timed ∙ times3 ∙ b.clock_tells at_clock w1 ∙ ap (λ l. now ∷ l) times1,
            elim mapped [
              | inl (added, counted) ↦ inl (added ∙ ap (put pid (some now)) same, counted ∙ failed)
              | inr (full, counted) ↦ inr (full ∙ same, counted ∙ ap suc failed)
            ],
          )

  -- With a min_duration_ns, the program that runs at an exec ends with 0 after it has asked the clock once
  -- and has put the answer in the map under the process number, or has left the map alone, where the
  -- update has failed.
  pub handle_exec-Records :
      b.min_duration_ns ≢ 0
      → (w' : k.World) × (now : ℕ) × (call_program k bootstrap_handle_exec_program context frame w
          ≡ exited 0 w')
        × (now < 2 ^ 64)
        × (b.times w' ≡ now ∷ b.times w)
        × (((b.starts w' ≡ put (t.pid_tgid w / 2 ^ 32) (some now) (b.starts w))
              × (b.failures w' ≡ b.failures w))
            ⊎ ((b.starts w' ≡ b.starts w) × (b.failures w' ≡ suc (b.failures w))))
  handle_exec-Records nonzero =
      let room = stack.room in
      let e : (b.min_duration_ns == 0) ≡ false = ground arith in
      let (w1, first) = stack.stores 4 (frame - 4) pid w (omega arith) (omega arith) in
      let (w3, second) =
        stack.stores 8 (frame - 16) (now w1 w1 first) (k.helper 5 at_clock w1).1 (omega arith)
          (omega arith) in
      let (r, ends, at_r1, at_r2, at_r3, at_r4) = runs w1 w3 first second e in
      let (timed, mapped) = updated w1 w3 first second r at_r1 at_r2 at_r3 at_r4 in
      ((k.helper 2 r w3).1, now w1 w1 first, ends, b.clock_is_word at_clock w1, timed, mapped)
