-- ===== src/Bytecode/Legacy/Tests.antt =====
-- The theorem on minimal_legacy's program at one caller, over a kernel with a memory of bytes.
use hello_e_bpf.Prelude.{
  ℕ, ◌+◌, ◌*◌, ◌-◌, ◌^◌, ◌≡◌, refl, ap, inl, Option, none, some, List, [], ◌∷◌, ◌++◌, ◌==◌,
  if◌then◌else◌, length, arith,
}
use hello_e_bpf.Memory.{Bytes}
use hello_e_bpf.Bytecode.Machine.{Kernel, exited, call_program}
use hello_e_bpf.Bytecode.Tracing.{Printed, InMemory, IsTracing}
use hello_e_bpf.Bytecode.Stack.{little, length-little, HasStack}
use hello_e_bpf.Bytecode.Cells.{
  Cells, read, write, bytes_at, read-Apart, read-write, bytes_at-write,
}
use hello_e_bpf.Bytecode.Programs.MinimalLegacy.{minimal_legacy_handle_tp_program}
use hello_e_bpf.Bytecode.Legacy.{line}
use hello_e_bpf.Bytecode.Legacy.Run.{IsPidMap, minimal_legacy_handle_tp-Prints}

abbrev or_zero : Option ℕ → ℕ
or_zero none = 0
or_zero (some n) = n

-- The map my_pid_map is at 64, and its only slot at 128.
abbrev slot_of : ℕ → ℕ
slot_of key = if key == 0 then 128 else 0

abbrev said : Cells → (ℕ → Option ℕ) → Printed
said m r = record {
  text = bytes_at (or_zero (r 2)) (or_zero (r 1)) m;
  first = r 3;
  second = r 4;
  third = r 5;
}

abbrev kernel : Kernel
kernel = record {
  World = Cells × List Printed;
  load_bytes = λ size a w. some (read size a w.0);
  store_bytes = λ size a v w. some (write size a v w.0, w.1);
  helper = λ id r w.
      if id == 1
      then (slot_of (read 4 (or_zero (r 2)) w.0), w)
      else if id == 6
      then (0, (w.0, w.1 ++ said w.0 r ∷ []))
      else (7 * 2 ^ 32 + 9, w);
  address_of = λ s. 64;
  next_frame = λ frame. frame - 512;
}

inside {ℓ} : {A : Type ℓ} → {x y : A} → some x ≡ some y → x ≡ y
inside e = cc

first_of : {x y : ℕ} {xs ys : Bytes} → ◌≡◌ {A = Bytes} (x ∷ xs) (y ∷ ys) → x ≡ y
first_of e = cc

rest_of : {x y : ℕ} {xs ys : Bytes} → ◌≡◌ {A = Bytes} (x ∷ xs) (y ∷ ys) → xs ≡ ys
rest_of e = cc

InMemory-bytes_at :
    (w : Cells × List Printed) (a : ℕ) (bytes : Bytes)
    → bytes_at (length bytes) a w.0 ≡ bytes
    → InMemory kernel w a bytes
InMemory-bytes_at w a [] h = tt
InMemory-bytes_at w a (b ∷ bytes) h = (
  ap some {x = w.0 a + 256 * 0} {y = b} (omega (arith, first_of h)),
  InMemory-bytes_at w (a + 1) bytes (rest_of h),
)

bytes_at-InMemory :
    (w : Cells × List Printed) (a : ℕ) (bytes : Bytes)
    → InMemory kernel w a bytes
    → bytes_at (length bytes) a w.0 ≡ bytes
bytes_at-InMemory w a [] h = refl
bytes_at-InMemory w a (b ∷ bytes) (h, h') =
    let first : w.0 a ≡ b = omega (arith, inside h) in
    rw (first, bytes_at-InMemory w (a + 1) bytes h') refl

kernel-IsTracing : IsTracing kernel
kernel-IsTracing = record {
  trace = λ w. w.1;
  pid_tgid = λ w. 7 * 2 ^ 32 + 9;
  pid_tgid_is_word = λ w. omega arith;
  address_is_word = λ s. omega arith;
  gets_pid_tgid = λ r w. refl;
  print_keeps = λ r w size a. refl;
  prints = λ r w a text at_r1 at_r2 held. rw (at_r1, at_r2, bytes_at-InMemory w a text held) refl;
}

kernel-HasStack : HasStack kernel-IsTracing 5000
unfolding kernel-IsTracing
kernel-HasStack = record {
  room = omega arith;
  word = omega arith;
  stores = λ size a v w above below. (_, refl);
  holds = λ size a v w w' e.
      InMemory-bytes_at w' a (little size v)
        (rw (← inside e, length-little size v) (bytes_at-write size a v w.0));
  reads = λ size a v w w' small e. rw (← inside e, read-write size a v w.0 small) refl;
  keeps = λ size a v w w' n b e apart. rw (← inside e, read-Apart n b size a v w.0 apart) refl;
  silent = λ size a v w w' e. rw (← inside e) refl;
  same_thread = λ size a v w w' e. refl;
}

kernel-IsPidMap : IsPidMap kernel-IsTracing
kernel-IsPidMap = record {
  slot = slot_of;
  slot_is_word = λ key. ground arith;
  looks_up = λ r w a key at_r1 at_r2 held. rw (at_r2, inside held) refl;
}

minimal_legacy_handle_tp-Prints_example :
    (w' : kernel.World) × (call_program kernel minimal_legacy_handle_tp_program 300 5000
        ((λ a. if a == 128 then 7 else 0), [])
      ≡ exited 0 w')
    × (w'.1 ≡ line 7 ∷ [])
unfolding kernel-IsTracing kernel-IsPidMap
minimal_legacy_handle_tp-Prints_example =
    minimal_legacy_handle_tp-Prints kernel-IsPidMap kernel-HasStack 300
      ((λ a. if a == 128 then 7 else 0), []) (some 7) (omega arith, refl, inl (omega arith))
