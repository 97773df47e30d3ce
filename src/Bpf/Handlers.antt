-- ===== src/Bpf/Handlers.antt =====
-- examples/c/minimal.bpf.c and examples/c/hello.bpf.c: `handle_tp` of each. A call gets what
-- bpf_get_current_pid_tgid() returns, and the trace that bpf_printk() writes to.
use hello_e_bpf.Prelude.{
  ℕ, ◌-◌, ◌/◌, ◌%◌, ◌^◌, Bool, false, not, List, [], ◌∷◌, ◌++◌, ltb, ◌==◌, if◌then◌else◌, ℤ, pos,
  negsuc,
}

-- The value of type `int` with the low 32 bits of `n`.
unfoldable pub to_int : ℕ → ℤ
to_int n =
    let word = n % 2 ^ 32 in if ltb word (2 ^ 31) then pos word else negsuc (2 ^ 32 - word - 1)

-- a == b, of two values of type `int`
unfoldable pub int_eq : ℤ → ℤ → Bool
int_eq (pos a) (pos b) = a == b
int_eq (negsuc a) (negsuc b) = a == b
int_eq _ _ = false

-- A line of the trace: "BPF triggered from PID %d.\n" with its argument, or "Hello, World!\n".
pub data TraceLine : Type 0 where
  triggered : ℤ → TraceLine
  hello_world : TraceLine

abbrev pub Trace : Type 0
Trace = List TraceLine

-- minimal.bpf.c, by its global `my_pid`: what the handler returns, and the trace after it.
unfoldable pub handle_write : (my_pid : ℤ) → (pid_tgid : ℕ) → Trace → ℤ × Trace
unfolding to_int int_eq
handle_write my_pid pid_tgid trace =
    let pid = to_int (pid_tgid / 2 ^ 32) in
    if not (int_eq pid my_pid) then (pos 0, trace) else (pos 0, trace ++ triggered pid ∷ [])

-- hello.bpf.c
unfoldable pub handle_openat : Trace → ℤ × Trace
handle_openat trace = (pos 0, trace ++ hello_world ∷ [])
