-- ===== src/Bytecode/Legacy/Run.antt =====
-- Whole runs of minimal_legacy's program: the lookup of the number, and what follows.
use hello_e_bpf.Prelude.{
  ℕ, ◌+◌, ◌-◌, ◌/◌, ◌%◌, ◌^◌, ◌<◌, ◌≡◌, ◌≢◌, refl, sym, ap, ◌∙◌, inl, inr, Bool-cases, true, false,
  Option, Bool, none, some, [], ◌∷◌, ◌++◌, append-nil, ◌==◌, if◌then◌else◌, arith,
}
use hello_e_bpf.Bytecode.Machine.{Kernel, Registers, exited, update, after_call, call_program}
use hello_e_bpf.Bytecode.Flat.{run_flat, call_flat, call_program-flat}
use hello_e_bpf.Bytecode.Tracing.{IsTracing}
use hello_e_bpf.Bytecode.Stack.{Apart, HasStack, below_frame}
use hello_e_bpf.Bytecode.Programs.MinimalLegacy.{minimal_legacy_handle_tp_program}
use hello_e_bpf.Bytecode.Legacy.{disassembled, disassembly, word_0, word_1, word_2, word_3, line}
use hello_e_bpf.Bytecode.Legacy.Print.{print_runs}

same_address : (a : ℕ) → a < 2 ^ 64 → (a + 0) % 2 ^ 64 ≡ a
same_address a h = omega arith

-- bpf_map_lookup_elem() is helper 1. The map `my_pid_map` is an array: a key has its slot, whatever the
-- slot holds, or none, which is 0.
pub record IsPidMap {k : Kernel} (t : IsTracing k) : Type 0 where
  pub slot : (key : ℕ) → ℕ
  pub slot_is_word : (key : ℕ) → slot key < 2 ^ 64
  pub looks_up :
      (r : Registers) (w : k.World) (a key : ℕ)
      → r 1 ≡ some (k.address_of "my_pid_map")
      → r 2 ≡ some a
      → k.load_bytes 4 a w ≡ some key
      → k.helper 1 r w ≡ (slot key, w)

module _ {k : Kernel} {t : IsTracing k} (map : IsPidMap t) {frame : ℕ} (stack : HasStack t frame)
    (context : ℕ) (w w0 : k.World) (stored : k.store_bytes 4 (frame - 4) 0 w ≡ some w0) where
  abbrev pid : ℕ
  pid = t.pid_tgid w0 / 2 ^ 32

  -- The registers at the lookup, whose key is on the stack.
  abbrev arguments : Registers
  arguments =
      update
        (update
          (update
            (update
              (after_call
                (update (update (update (λ _. none) 1 (some context)) 10 (some frame)) 1 (some 0))
                (t.pid_tgid w0))
              6 (some (t.pid_tgid w0)))
            2 (some frame))
          2 (some ((frame + (2 ^ 64 - 4)) % 2 ^ 64)))
        1 (some ((k.address_of "my_pid_map" + 0) % 2 ^ 64))

  looked : k.helper 1 arguments w0 ≡ (map.slot 0, w0)
  unfolding update after_call
  looked =
      let room = stack.room in
      map.looks_up arguments w0 (frame - 4) 0
        (ap some {x = (k.address_of "my_pid_map" + 0) % 2 ^ 64}
          (omega (arith, t.address_is_word "my_pid_map")))
        (ap some {x = (frame + (2 ^ 64 - 4)) % 2 ^ 64} {y = frame - 4} (omega (arith, stack.word)))
        (stack.reads 4 (frame - 4) 0 w w0 (omega arith) stored)

  -- The registers after it, at the slot 11.
  abbrev found : Registers
  found = update (update (after_call arguments (map.slot 0)) 1 (some (map.slot 0))) 0 (some 1)

  begun :
      call_program k minimal_legacy_handle_tp_program context frame w
      ≡ run_flat k 23 disassembled (record { pc = 11; registers = found; world = w0 })
  unfolding call_flat run_flat update after_call
  begun =
      rw
        (
          disassembly,
          call_program-flat k disassembled refl context frame w,
          call_flat,
          below_frame frame 4 (omega arith) stack.room stack.word,
          stored,
          t.gets_pid_tgid _ w0,
          looked,
        )
        refl

  absent :
      map.slot 0 ≡ 0 → call_program k minimal_legacy_handle_tp_program context frame w ≡ exited 1 w0
  unfolding run_flat update after_call
  absent e = rw (begun, run_flat, e) refl

  module _ (v : ℕ) (present : (map.slot 0 == 0) ≡ false)
      (held : k.load_bytes 4 (map.slot 0) w0 ≡ some v) where
    other :
        (v == pid) ≡ false
        → call_program k minimal_legacy_handle_tp_program context frame w ≡ exited 1 w0
    unfolding run_flat update after_call
    other e = rw (begun, run_flat, present, same_address _ (map.slot_is_word 0), held, e) refl

    own :
        (v == pid) ≡ true
        → (w' : k.World) × (call_program k minimal_legacy_handle_tp_program context frame w
            ≡ exited 0 w')
          × (t.trace w' ≡ t.trace w ++ line pid ∷ [])
    unfolding run_flat update after_call
    own e =
        let room = stack.room in
        let (w1, first) = stack.stores 4 (frame - 8) word_3 w0 (omega arith) (omega arith) in
        let (w2, second) = stack.stores 8 (frame - 16) word_2 w1 (omega arith) (omega arith) in
        let (w3, third) = stack.stores 8 (frame - 24) word_1 w2 (omega arith) (omega arith) in
        let (w4, fourth) = stack.stores 8 (frame - 32) word_0 w3 (omega arith) (omega arith) in
        let (w', runs, traced) =
          print_runs stack (update (update found 6 (some pid)) 1 (some v)) pid w0 w1 w2 w3 w4 refl
            refl refl refl first second third fourth in
        (
          w',
          rw (begun, run_flat, present, same_address _ (map.slot_is_word 0), held, e) runs,
          traced ∙ ap (λ l. l ++ line pid ∷ []) (stack.silent 4 (frame - 4) 0 w w0 stored),
        )

module _ {k : Kernel} {t : IsTracing k} (map : IsPidMap t) {frame : ℕ} (stack : HasStack t frame)
    (context : ℕ) (w : k.World) where
  -- What the map's first slot holds, away from the stack; or that it has none.
  abbrev pub PidEntry : Option ℕ → Type 0
  PidEntry none = map.slot 0 ≡ 0
  PidEntry (some v) =
      (map.slot 0 ≢ 0)
      × (k.load_bytes 4 (map.slot 0) w ≡ some v)
      × Apart (map.slot 0) 4 (frame - 512) 512

  abbrev pub is_own : Option ℕ → (n : ℕ) → Bool
  is_own none _ = false
  is_own (some v) n = v == n

  -- The world with the key on the stack.
  keyed : (w0 : k.World) × (k.store_bytes 4 (frame - 4) 0 w ≡ some w0)
  keyed = let room = stack.room in stack.stores 4 (frame - 4) 0 w (omega arith) (omega arith)

  same_trace_keyed : t.trace keyed.0 ≡ t.trace w
  same_trace_keyed = stack.silent 4 (frame - 4) 0 w keyed.0 keyed.1

  same_caller : t.pid_tgid w ≡ t.pid_tgid keyed.0
  same_caller = sym (stack.same_thread 4 (frame - 4) 0 w keyed.0 keyed.1)

  same_number : (v : ℕ) → PidEntry (some v) → k.load_bytes 4 (map.slot 0) keyed.0 ≡ some v
  same_number v (present, held, apart) =
      let room = stack.room in
      stack.keeps 4 (frame - 4) 0 w keyed.0 4 (map.slot 0) keyed.1 (ground arith) ∙ held

  -- The program in minimal_legacy.skel.h returns 0 and prints one line, with the caller's process number,
  -- just if the map `my_pid_map` has an entry that is this number; else it prints nothing and returns 1.
  pub minimal_legacy_handle_tp-Prints :
      (entry : Option ℕ)
      → PidEntry entry
      → (w' : k.World) × (call_program k minimal_legacy_handle_tp_program context frame w
          ≡ exited (if is_own entry (t.pid_tgid w / 2 ^ 32) then 0 else 1) w')
        × (t.trace w'
            ≡ t.trace w
              ++ (if is_own entry (t.pid_tgid w / 2 ^ 32)
                  then line (t.pid_tgid w / 2 ^ 32) ∷ []
                  else []))
  minimal_legacy_handle_tp-Prints none missing = (
    keyed.0,
    absent map stack context w keyed.0 keyed.1 missing,
    same_trace_keyed ∙ sym (append-nil _),
  )
  minimal_legacy_handle_tp-Prints (some v) h =
      let present : (map.slot 0 == 0) ≡ false = ground (arith, h.0) in
      let held = same_number v h in
      rw (same_caller) (elim (Bool-cases (v == t.pid_tgid keyed.0 / 2 ^ 32)) [
        | inl e ↦
            let (w', ends, traced) = own map stack context w keyed.0 keyed.1 v present held e in
            rw (e) (w', ends, traced)
        | inr e ↦ rw (e) (
          keyed.0,
          other map stack context w keyed.0 keyed.1 v present held e,
          same_trace_keyed ∙ sym (append-nil _),
        )
      ])
