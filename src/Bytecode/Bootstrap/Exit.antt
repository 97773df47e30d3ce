-- ===== src/Bytecode/Bootstrap/Exit.antt =====
-- The program of bootstrap that runs when a thread exits, up to where it reports: it takes the time at
-- which the process has started from the map.
use hello_e_bpf.Prelude.{
  ℕ, ◌+◌, ◌-◌, ◌*◌, ◌/◌, ◌%◌, ◌^◌, ◌<◌, ◌≡◌, refl, true, false, none, some, ◌==◌, ltb, arith,
}
use hello_e_bpf.Bytecode.Machine.{Kernel, Registers, exited, update, after_call, call_program}
use hello_e_bpf.Bytecode.Flat.{run_flat, call_flat, call_program-flat}
use hello_e_bpf.Bytecode.Tracing.{IsTracing}
use hello_e_bpf.Bytecode.Stack.{HasStack, below_frame}
use hello_e_bpf.Bytecode.Programs.Bootstrap.{bootstrap_handle_exit_program}
use hello_e_bpf.Bytecode.Bootstrap.{exit_disassembled, exit_disassembly}
use hello_e_bpf.Bytecode.Bootstrap.Laws.{IsBootstrap}

same_address : (a : ℕ) → a < 2 ^ 64 → ((a + 0) % 2 ^ 64 + 0) % 2 ^ 64 ≡ a
same_address a h = omega arith

same_slot : (a : ℕ) → a < 2 ^ 64 → (a + 0) % 2 ^ 64 ≡ a
same_slot a h = omega arith

-- The test of the duration, from the slot 29 on: r7 holds the duration.
module _ {k : Kernel} {t : IsTracing k} {frame : ℕ} (b : IsBootstrap t frame) (r : Registers)
    (w : k.World) (duration : ℕ) (at_r7 : r 7 ≡ some duration)
    (min : (b.min_duration_ns == 0) ≡ false) where
  pub too_short :
      ltb duration b.min_duration_ns ≡ true
      → run_flat k 63 exit_disassembled (record { pc = 29; registers = r; world = w }) ≡ exited 0 w
  unfolding run_flat update after_call
  too_short e =
      rw
        (
          same_address _ (t.address_is_word "min_duration_ns"),
          b.constant_there w,
          min,
          same_address _ (t.address_is_word "min_duration_ns"),
          b.constant_there w,
          at_r7,
          e,
        )
        refl

  abbrev pub at_report : Registers
  at_report =
      update
        (update (update r 1 (some ((k.address_of "min_duration_ns" + 0) % 2 ^ 64))) 2
          (some b.min_duration_ns))
        1 (some b.min_duration_ns)

  pub long_enough :
      ltb duration b.min_duration_ns ≡ false
      → run_flat k 63 exit_disassembled (record { pc = 29; registers = r; world = w })
        ≡ run_flat k 58 exit_disassembled (record { pc = 35; registers = at_report; world = w })
  unfolding run_flat update after_call
  long_enough e =
      rw
        (
          same_address _ (t.address_is_word "min_duration_ns"),
          b.constant_there w,
          min,
          same_address _ (t.address_is_word "min_duration_ns"),
          b.constant_there w,
          at_r7,
          e,
        )
        refl

module _ {k : Kernel} {t : IsTracing k} {frame : ℕ} (stack : HasStack t frame)
    (b : IsBootstrap t frame) (context : ℕ) (w w1 : k.World)
    (stored : k.store_bytes 4 (frame - 4) (t.pid_tgid w / 2 ^ 32) w ≡ some w1) where
  abbrev pid : ℕ
  pid = t.pid_tgid w / 2 ^ 32

  abbrev tid : ℕ
  tid = t.pid_tgid w % 2 ^ 32

  pid_small : pid % 256 ^ 4 ≡ pid
  pid_small = omega (arith, t.pid_tgid_is_word w)

  tid_is_low : (t.pid_tgid w * 2 ^ 32) % 2 ^ 64 / 2 ^ 32 ≡ tid
  tid_is_low = omega (arith, t.pid_tgid_is_word w)

  -- The registers after the jump at the slot 6.
  abbrev numbers : Registers
  numbers =
      update
        (update
          (update
            (update
              (after_call (update (update (λ _. none) 1 (some context)) 10 (some frame))
                (t.pid_tgid w))
              1 (some (t.pid_tgid w)))
            1 (some pid))
          0 (some (t.pid_tgid w * 2 ^ 32 % 2 ^ 64)))
        0 (some tid)

  begun :
      call_program k bootstrap_handle_exit_program context frame w
      ≡ run_flat k 79 exit_disassembled (record { pc = 6; registers = numbers; world = w1 })
  unfolding call_flat run_flat update after_call
  begun =
      rw
        (
          exit_disassembly,
          call_program-flat k exit_disassembled refl context frame w,
          call_flat,
          t.gets_pid_tgid _ w,
          below_frame frame 4 (omega arith) stack.room stack.word,
          pid_small,
          stored,
          t.gets_pid_tgid _ w,
          tid_is_low,
        )
        refl

  -- A thread that is not the first one of its process: nothing happens.
  pub other_thread :
      (pid == tid) ≡ false
      → call_program k bootstrap_handle_exit_program context frame w ≡ exited 0 w1
  unfolding run_flat update after_call
  other_thread e = rw (begun, run_flat, e) refl

  -- The registers at the lookup.
  abbrev pub at_lookup : Registers
  at_lookup =
      update (update (update numbers 2 (some frame)) 2 (some ((frame + (2 ^ 64 - 4)) % 2 ^ 64))) 1
        (some ((k.address_of "exec_start" + 0) % 2 ^ 64))

  module _ (first_thread : (pid == tid) ≡ true) (min : (b.min_duration_ns == 0) ≡ false) where
    pub not_started :
        k.helper 1 at_lookup w1 ≡ (0, w1)
        → call_program k bootstrap_handle_exit_program context frame w ≡ exited 0 w1
    unfolding run_flat update after_call
    not_started looked =
        rw
          (
            begun,
            run_flat,
            first_thread,
            looked,
            same_address _ (t.address_is_word "min_duration_ns"),
            b.constant_there _,
            min,
          )
          refl

    module _ (slot start : ℕ) (looked : k.helper 1 at_lookup w1 ≡ (slot, w1))
        (found : (slot == 0) ≡ false) (word : slot < 2 ^ 64) where
      abbrev pub at_clock : Registers
      at_clock = update (after_call at_lookup slot) 6 (some slot)

      abbrev pub now : ℕ
      now = (k.helper 5 at_clock w1).0

      abbrev pub duration : ℕ
      duration = (now + 2 ^ 64 - start) % 2 ^ 64

      -- The registers at the removal of the entry, and after it.
      abbrev pub at_delete : Registers
      at_delete =
          update
            (update
              (update
                (update (update (update (after_call at_clock now) 7 (some now)) 1 (some start)) 7
                  (some duration))
                2 (some frame))
              2 (some ((frame + (2 ^ 64 - 4)) % 2 ^ 64)))
            1 (some ((k.address_of "exec_start" + 0) % 2 ^ 64))

      abbrev pub deleted : k.World
      deleted = (k.helper 3 at_delete (k.helper 5 at_clock w1).1).1

      abbrev pub after_delete : Registers
      after_delete = after_call at_delete (k.helper 3 at_delete (k.helper 5 at_clock w1).1).0

      pub removed :
          k.load_bytes 8 slot (k.helper 5 at_clock w1).1 ≡ some start
          → call_program k bootstrap_handle_exit_program context frame w
            ≡ run_flat k 63 exit_disassembled
                (record { pc = 29; registers = after_delete; world = deleted })
      unfolding run_flat update after_call
      removed there =
          rw (begun, run_flat, first_thread, looked, found, same_slot _ word, there) refl
