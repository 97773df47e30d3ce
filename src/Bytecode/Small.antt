-- ===== src/Bytecode/Small.antt =====
-- A small kernel, for the examples: a memory of single bytes and of words, and a trace.
use Prim.Native.String.{String}
use hello_e_bpf.Prelude.{
  ℕ, zero, suc, ◌+◌, ◌-◌, ◌*◌, ◌%◌, ◌^◌, ◌≡◌, refl, ap, Option, none, some, List, [], ◌∷◌, ◌++◌,
  ◌==◌, if◌then◌else◌, length, arith,
}
use hello_e_bpf.Memory.{Bytes}
use hello_e_bpf.Bytecode.Machine.{Kernel}
use hello_e_bpf.Bpf.Tracing.{pid_tgid}
use hello_e_bpf.Bytecode.Scheduling.{IsScheduling}
use hello_e_bpf.Bytecode.Tracing.{Printed, InMemory, IsTracing}

abbrev name_length : String → ℕ
name_length String.[] = 0
name_length (String.◌∷◌ c s) = suc (name_length s)

-- What is read at the `n` addresses from `a` on.
abbrev text_at : (ℕ → Option ℕ) → (n a : ℕ) → Bytes
text_at memory zero a = []
text_at memory (suc n) a = elim (memory a) [ none ↦ [] | some b ↦ b ∷ text_at memory n (a + 1) ]

abbrev or_zero : Option ℕ → ℕ
or_zero none = 0
or_zero (some n) = n

-- The thread that runs, as bpf_get_current_pid_tgid() gives it, what my_pid holds, and the trace.
pub record KernelWorld : Type 0 where
  pub current : ℕ
  pub stored : ℕ
  pub printed : List Printed

abbrev print : Printed → KernelWorld → KernelWorld
print p w = record w { printed = w.printed ++ p ∷ [] }

-- `bytes` are in memory, and `words` gives its words of 4 and 8 bytes, by what my_pid holds. A symbol is at 100 times the
-- length of its name: my_pid is at 600, and .rodata at 700.
module _ (bytes : ℕ → Option ℕ) (words : ℕ → ℕ → Option ℕ) where
  abbrev pub small_kernel : Kernel
  small_kernel = record {
    World = KernelWorld;
    load_bytes = λ size a w. if size == 1 then bytes a else words w.stored a;
    store_bytes = λ size a v w. none;
    helper = λ id r w.
        if id == 14
        then (w.current % 2 ^ 64, w)
        else if id == 6
        then (
          0,
          print
              (record {
                text = text_at bytes (or_zero (r 2)) (or_zero (r 1));
                first = r 3;
                second = r 4;
                third = r 5;
              })
              w,
        )
        else (0, w);
    next_frame = λ frame. frame - 512;
    address_of = λ s. (100 * name_length s) % 2 ^ 64;
  }

  pub text_at-InMemory :
      (w : KernelWorld) (text : Bytes) (a : ℕ)
      → InMemory small_kernel w a text
      → text_at bytes (length text) a ≡ text
  text_at-InMemory w [] a h = refl
  text_at-InMemory w (b ∷ text) a h =
      rw (h.0) (ap (λ rest. b ∷ rest) (text_at-InMemory w text (a + 1) h.1))

  abbrev pub small-IsTracing : IsTracing small_kernel
  small-IsTracing = record {
    trace = λ w. w.printed;
    pid_tgid = λ w. w.current % 2 ^ 64;
    pid_tgid_is_word = λ w. omega arith;
    address_is_word = λ s. omega arith;
    gets_pid_tgid = λ r w. refl;
    print_keeps = λ r w size a. refl;
    prints = λ r w a text at_r1 at_r2 held. rw (at_r1, at_r2, text_at-InMemory w text a held);
  }

  abbrev pub small-IsScheduling : IsScheduling small-IsTracing
  small-IsScheduling = record {
    enter = λ thread w. record w { current = pid_tgid thread };
    enters = λ thread w small. omega arith;
    enter_keeps = λ thread w size a. refl;
    enter_silent = λ thread w. refl;
  }
