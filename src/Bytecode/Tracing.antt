-- ===== src/Bytecode/Tracing.antt =====
-- What the programs rely on in the kernel: bpf_get_current_pid_tgid() is helper 14, and
-- bpf_trace_printk(), which the macro bpf_printk() calls, is helper 6.
use Prim.Native.Char.{code}
use Prim.Native.String.{String}
use hello_e_bpf.Prelude.{
  ℕ, suc, ◌+◌, ◌^◌, ◌<◌, ◌%◌, ◌≡◌, ap, ◌∙◌, subst, arith, Option, some, List, [], ◌∷◌, ◌++◌, length,
}
use hello_e_bpf.Memory.{Bytes}
use hello_e_bpf.Bytecode.Machine.{End, exited, Kernel, Registers}

-- A text in the memory of a C program.
abbrev codes : String → Bytes
codes String.[] = []
codes (String.◌∷◌ c s) = code c ∷ codes s

abbrev pub c_string : String → Bytes
c_string s = codes s ++ 0 ∷ []

-- A call of bpf_trace_printk(): its format, with the 0 at its end, and its arguments, where
-- there are any.
pub record Printed : Type 0 where
  pub text : Bytes
  pub first : Option ℕ
  pub second : Option ℕ
  pub third : Option ℕ

-- The memory from the address `a` on holds `bytes`.
abbrev pub InMemory : (k : Kernel) → k.World → (a : ℕ) → (bytes : Bytes) → Type 0
InMemory k w a [] = Unit
InMemory k w a (b ∷ bytes) = (k.load_bytes 1 a w ≡ some b) × InMemory k w (a + 1) bytes

pub record IsTracing (k : Kernel) : Type 0 where
  pub trace : k.World → List Printed
  pub pid_tgid : k.World → ℕ
  pub pid_tgid_is_word : (w : k.World) → pid_tgid w < 2 ^ 64
  pub address_is_word : (symbol : String) → k.address_of symbol < 2 ^ 64
  pub gets_pid_tgid : (r : Registers) (w : k.World) → k.helper 14 r w ≡ (pid_tgid w, w)
  pub print_keeps :
      (r : Registers) (w : k.World) (size a : ℕ)
      → k.load_bytes size a (k.helper 6 r w).1 ≡ k.load_bytes size a w
  -- The format is in memory at r1, as many bytes as r2 says; r3 to r5 hold the arguments.
  pub prints :
      (r : Registers) (w : k.World) (a : ℕ) (text : Bytes)
      → r 1 ≡ some a
      → r 2 ≡ some (length text)
      → InMemory k w a text
      → trace (k.helper 6 r w).1
        ≡ trace w ++ record { text = text; first = r 3; second = r 4; third = r 5 } ∷ []

-- Two states with the same memory.
abbrev pub SameMemory : (k : Kernel) → k.World → k.World → Type 0
SameMemory k w w' = (size a : ℕ) → k.load_bytes size a w' ≡ k.load_bytes size a w

-- A run that prints `line`, nothing else, and returns 0.
abbrev pub Prints : {k : Kernel} → IsTracing k → k.World → End k.World → Printed → Type 0
Prints {k} t w end line =
    (w' : k.World) × (end ≡ exited 0 w') × (t.trace w' ≡ t.trace w ++ line ∷ [])

module _ (k : Kernel) (w : k.World) where
  InMemory-append :
      (xs ys : Bytes) (a : ℕ)
      → InMemory k w a (xs ++ ys)
      → InMemory k w a xs × InMemory k w (a + length xs) ys
  InMemory-append [] ys a h =
      (tt, subst (λ b. InMemory k w b ys) {x = a} {y = a + 0} (omega arith) h)
  InMemory-append (x ∷ xs) ys a h =
      let (these, those) = InMemory-append xs ys (a + 1) h.1 in
      (
        (h.0, these),
        subst (λ b. InMemory k w b ys) {x = a + 1 + length xs} {y = a + suc (length xs)}
            (omega arith) those,
      )

  -- A part of what is in memory.
  InMemory-middle :
      (before xs after : Bytes) (a : ℕ)
      → InMemory k w a (before ++ (xs ++ after))
      → InMemory k w (a + length before) xs
  InMemory-middle before xs after a h =
      (InMemory-append xs after (a + length before) (InMemory-append before (xs ++ after) a h).1).0

module _ {k : Kernel} (t : IsTracing k) where
  -- bpf_trace_printk() with a format that is a part of what is behind a symbol.
  pub prints_part :
      (r : Registers) (w : k.World) (symbol : String) (before text after : Bytes)
      → InMemory k w (k.address_of symbol) (before ++ (text ++ after))
      → k.address_of symbol + length before < 2 ^ 64
      → r 1 ≡ some ((k.address_of symbol + length before) % 2 ^ 64)
      → r 2 ≡ some (length text)
      → t.trace (k.helper 6 r w).1
        ≡ t.trace w ++ record { text = text; first = r 3; second = r 4; third = r 5 } ∷ []
  prints_part r w symbol before text after held fits at_r1 at_r2 =
      let a = k.address_of symbol + length before in
      let same : a % 2 ^ 64 ≡ a = omega arith in
      t.prints r w a text (at_r1 ∙ ap some same) at_r2
        (InMemory-middle k w before text after (k.address_of symbol) held)
