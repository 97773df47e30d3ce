-- ===== src/Bytecode/Bootstrap/Example.antt =====
-- A kernel for tests of bootstrap's programs, with a memory of bytes: its stack is at 4488 to 5000, its
-- constant at 6000, and its map from 10000 on.
use hello_e_bpf.Prelude.{
  ℕ, zero, suc, ◌+◌, ◌*◌, ◌-◌, ◌%◌, ◌^◌, ◌≤◌, ◌≡◌, refl, ap, ◌∙◌, true, Option, none, some, List,
  [], ◌∷◌, ◌++◌, ◌==◌, ltb, leb, ◌&&◌, Bool, if◌then◌else◌, length, arith,
}
use hello_e_bpf.Memory.{Bytes}
use hello_e_bpf.Bytecode.Machine.{Kernel, Registers}
use hello_e_bpf.Bytecode.Tracing.{Printed, InMemory, IsTracing}
use hello_e_bpf.Bytecode.Stack.{little, length-little, Apart, HasStack}
use hello_e_bpf.Bytecode.Cells.{
  Cells, read, write, bytes_at, read-Apart, read-write, bytes_at-write,
}
use hello_e_bpf.Bytecode.Bootstrap.Laws.{Starts, put}
use hello_e_bpf.Bytecode.Bootstrap.Reporting.{Reported}

abbrev pub or_zero : Option ℕ → ℕ
or_zero none = 0
or_zero (some n) = n

pub record World : Type 0 where
  pub cells : Cells
  pub map : Starts
  pub times : List ℕ
  pub log : List Printed
  pub failures : ℕ
  pub reports : List Reported

-- A key has 32 bits.
abbrev pub starts : World → Starts
starts w n = if ltb n (2 ^ 32) then w.map n else none

abbrev pub load : (size a : ℕ) → World → Option ℕ
load size a w =
    if leb (a + size) 5000
    then some (read size a w.cells)
    else if a == 6000
    then some 500
    else some (or_zero (starts w (a - 10000)))

-- The stack, and the one record of the ring buffer, at 1000.
abbrev writable : (size a : ℕ) → Bool
writable size a =
    if leb 4488 a && leb (a + size) 5000 then true else leb 1000 a && leb (a + size) 1168

abbrev pub store : (size a v : ℕ) → World → Option World
store size a v w =
    if writable size a then some (record w { cells = write size a v w.cells }) else none

-- The time grows by 600 between two questions.
abbrev time : World → ℕ
time w = (600 * (1 + length w.times)) % 2 ^ 64

abbrev found : ℕ → Option ℕ → ℕ
found key none = 0
found key (some v) = 10000 + key

-- An update fails for a key of more than 32 bits.
abbrev update_map : (key v : ℕ) → World → World
update_map key v w =
    if ltb key (2 ^ 32)
    then record w { map = put key (some v) w.map }
    else record w { failures = suc w.failures }

abbrev key_of : Registers → World → ℕ
key_of r w = or_zero (load 4 (or_zero (r 2)) w)

abbrev text_at : (n a : ℕ) → World → Bytes
text_at zero a w = []
text_at (suc n) a w = or_zero (load 1 a w) ∷ text_at n (a + 1) w

abbrev said : Registers → World → Printed
said r w = record {
  text = text_at (or_zero (r 2)) (or_zero (r 1)) w;
  first = r 3;
  second = r 4;
  third = r 5;
}

abbrev submitted : (a : ℕ) → World → Reported
submitted a w = record {
  pid = or_zero (load 4 a w);
  duration_ns = or_zero (load 8 (a + 16) w);
  exit_event = or_zero (load 1 (a + 167) w);
}

-- The record is given to who asks for at most its 168 bytes.
abbrev pub given : ℕ → World → ℕ × World
given n w = if leb n 168 then (1000, w) else (0, record w { failures = suc w.failures })

-- A read of nothing but zeros.
abbrev pub erased : (n a : ℕ) → World → World
erased n a w = record w { cells = write n a 0 w.cells }

abbrev pub kernel : Kernel
kernel = record {
  World = World;
  load_bytes = load;
  store_bytes = store;
  helper = λ id r w.
      if id == 1
      then (found (key_of r w) (starts w (key_of r w)), w)
      else if id == 2
      then (0, update_map (key_of r w) (or_zero (load 8 (or_zero (r 3)) w)) w)
      else if id == 3
      then (0, record w { map = put (key_of r w) none w.map })
      else if id == 5
      then (time w, record w { times = time w ∷ w.times })
      else if id == 6
      then (0, record w { log = w.log ++ said r w ∷ [] })
      else if id == 131
      then given (or_zero (r 2)) w
      else if id == 132
      then (0, record w { reports = w.reports ++ submitted (or_zero (r 1)) w ∷ [] })
      else if id == 113
      then (0, erased (or_zero (r 2)) (or_zero (r 1)) w)
      else if id == 16
      then (0, erased (or_zero (r 2)) (or_zero (r 1)) w)
      else (7 * 2 ^ 32 + 7, w);
  address_of = λ s. 6000;
  next_frame = λ frame. frame - 512;
}

pub text_at-InMemory :
    (w : World) (a : ℕ) (text : Bytes) → InMemory kernel w a text → text_at (length text) a w ≡ text
text_at-InMemory w a [] h = refl
text_at-InMemory w a (c ∷ text) (h, h') = rw (h, text_at-InMemory w (a + 1) text h') refl

unfoldable pub kernel-IsTracing : IsTracing kernel
kernel-IsTracing = record {
  trace = λ w. w.log;
  pid_tgid = λ w. 7 * 2 ^ 32 + 7;
  pid_tgid_is_word = λ w. omega arith;
  address_is_word = λ s. omega arith;
  gets_pid_tgid = λ r w. refl;
  print_keeps = λ r w size a. refl;
  prints = λ r w a text at_r1 at_r2 held. rw (at_r1, at_r2, text_at-InMemory w a text held) refl;
}

inside {ℓ} : {A : Type ℓ} → {x y : A} → some x ≡ some y → x ≡ y
inside e = cc

-- A store that succeeds writes to the stack.
pub store-Writes :
    (size a v : ℕ) (w w' : World)
    → store size a v w ≡ some w'
    → (a + size ≤ 5000) × (record w { cells = write size a v w.cells } ≡ w')
store-Writes size a v w w' e = ground arith

pub stored :
    (size a v : ℕ) (w : World)
    → 4488 ≤ a
    → a + size ≤ 5000
    → store size a v w ≡ some (record w { cells = write size a v w.cells })
stored size a v w above below = ground arith

-- A load gives the same after a store elsewhere.
pub load-store :
    (size a v : ℕ) (w : World) (n b : ℕ)
    → Apart b n a size
    → load n b (record w { cells = write size a v w.cells }) ≡ load n b w
load-store size a v w n b apart = rw (read-Apart n b size a v w.cells apart) refl

pub read_stack :
    (size a : ℕ) (w : World) → a + size ≤ 5000 → load size a w ≡ some (read size a w.cells)
read_stack size a w h = ground arith

first_of : {x y : ℕ} {xs ys : Bytes} → ◌≡◌ {A = Bytes} (x ∷ xs) (y ∷ ys) → x ≡ y
first_of e = cc

rest_of : {x y : ℕ} {xs ys : Bytes} → ◌≡◌ {A = Bytes} (x ∷ xs) (y ∷ ys) → xs ≡ ys
rest_of e = cc

pub InMemory-bytes_at :
    (w : World) (a : ℕ) (bytes : Bytes)
    → a + length bytes ≤ 5000
    → bytes_at (length bytes) a w.cells ≡ bytes
    → InMemory kernel w a bytes
InMemory-bytes_at w a [] below h = tt
InMemory-bytes_at w a (c ∷ bytes) below h = (
  read_stack 1 a w (omega arith)
      ∙ ap some {x = w.cells a + 256 * 0} {y = c} (omega (arith, first_of h)),
  InMemory-bytes_at w (a + 1) bytes (omega arith) (rest_of h),
)

unfoldable pub kernel-HasStack : HasStack kernel-IsTracing 5000
unfolding kernel-IsTracing
kernel-HasStack = record {
  room = omega arith;
  word = omega arith;
  stores = λ size a v w above below. (_, stored size a v w (omega arith) below);
  holds = λ size a v w w' e.
      let (below, here) = store-Writes size a v w w' e in
      InMemory-bytes_at w' a (little size v) (omega (arith, length-little size v))
        (rw (← here, length-little size v) (bytes_at-write size a v w.cells));
  reads = λ size a v w w' small e.
      let (below, here) = store-Writes size a v w w' e in
      read_stack size a w' below ∙ rw (← here, read-write size a v w.cells small) refl;
  keeps = λ size a v w w' n b e apart.
      let (below, here) = store-Writes size a v w w' e in
      rw (← here) (load-store size a v w n b apart);
  silent = λ size a v w w' e. rw (← (store-Writes size a v w w' e).1) refl;
  same_thread = λ size a v w w' e. refl;
}
