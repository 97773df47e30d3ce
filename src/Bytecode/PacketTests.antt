-- ===== src/Bytecode/PacketTests.antt =====
-- The theorem on the compiled classifier over a small kernel, with a packet of 34 bytes.
use hello_e_bpf.Prelude.{
  ℕ, ◌-◌, ◌≤◌, ◌+◌, ◌≡◌, refl, Option, none, some, [], ◌∷◌, ◌++◌, ◌==◌, ltb, if◌then◌else◌,
  get_elem?, arith,
}
use hello_e_bpf.Bytecode.Machine.{call_program, exited}
use hello_e_bpf.Bytecode.Words.{swapped}
use hello_e_bpf.Bytecode.Small.{KernelWorld, small_kernel, small-IsTracing}
use hello_e_bpf.Bytecode.Programs.Tc.{tc_tc_ingress_program, tc_rodata}
use hello_e_bpf.Bytecode.TrafficControl.{tc_ingress-Prints}

-- .rodata is at 700, the packet at 1000: each of its bytes is 64, each of its longer words 5.
abbrev bytes_at : ℕ → Option ℕ
bytes_at a =
    if ltb a 1000 then (if ltb a 700 then none else get_elem? tc_rodata (a - 700)) else some 64

-- The context is at 0.
abbrev words_at : (stored : ℕ) → ℕ → Option ℕ
words_at stored a =
    if a == 16 then some 8 else if a == 76 then some 1000 else if a == 80 then some 1034 else some 5

abbrev packet : (size a : ℕ) → ℕ
packet size a = if size == 1 then 64 else 5

abbrev quiet : KernelWorld
quiet = record { current = 0; stored = 0; printed = [] }

packet-readable :
    (size a : ℕ)
    → 1000 ≤ a
    → a + size ≤ 1034
    → (if size == 1 then bytes_at a else words_at 0 a) ≡ some (packet size a)
packet-readable size a above below = ground arith

tc_ingress-Prints_example :
    (w' : KernelWorld) × (call_program
        (small_kernel bytes_at words_at)
        tc_tc_ingress_program
        0
        0
        quiet
      ≡ exited 0 w')
    × (w'.printed
        ≡ []
          ++ (record {
            text = tc_rodata;
            first = some (swapped 2 5);
            second = some 64;
            third = none;
          }
              ∷ []))
unfolding tc_rodata
tc_ingress-Prints_example =
    tc_ingress-Prints (small-IsTracing bytes_at words_at) 0 0 quiet 8 1000 1034 packet (omega arith)
      (omega arith) refl refl refl packet-readable (ground arith)
