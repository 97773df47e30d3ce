-- ===== src/Bytecode/Lsm.antt =====
-- The compiled hook of examples/c/.output/lsm.skel.h for the system call bpf(): it gets the verdict of
-- the hooks before it, and gives one of its own.
use hello_e_bpf.Prelude.{
  ℕ, ◌-◌, ◌*◌, ◌/◌, ◌%◌, ◌^◌, ◌≡◌, ◌≢◌, refl, sym, inl, inr, Bool-cases, none, some, List, [], ◌∷◌,
  ◌++◌, append-nil, ◌==◌, ==_iff, arith, pos,
}
use hello_e_bpf.Bytecode.Instruction.{
  register, constant, mov, lsh, rsh, ne, alu, load_imm, high, load, jump_if, call, exit,
}
use hello_e_bpf.Bytecode.Machine.{Program, Kernel, exited, call_program}
use hello_e_bpf.Bytecode.Words.{displace}
use hello_e_bpf.Bytecode.Flat.{call_flat, call_program-flat}
use hello_e_bpf.Bytecode.Tracing.{c_string, prints_part, Printed, InMemory, IsTracing}
use hello_e_bpf.Bytecode.Programs.Lsm.{lsm_lsm_bpf_program, lsm_rodata}

-- The program, read.
abbrev disassembled : Program
disassembled = record {
  slots =
      load 8 0 1 (pos 24)
      ∷ alu mov 1 (register 0)
      ∷ alu lsh 1 (constant 32)
      ∷ alu rsh 1 (constant 32)
      ∷ jump_if ne 1 (constant 0) (pos 6)
      ∷ load_imm 1 0
      ∷ high 0
      ∷ alu mov 2 (constant 24)
      ∷ call 6
      ∷ load_imm 0 4294967295
      ∷ high 0
      ∷ exit
      ∷ [];
  relocations = (5, ".rodata") ∷ [];
}

disassembly : lsm_lsm_bpf_program ≡ disassembled
unfolding lsm_lsm_bpf_program
disassembly = refl

abbrev pub worked : Printed
worked = record {
  text = c_string "LSM: block bpf() worked";
  first = none;
  second = none;
  third = none;
}

-- -1, as an `int`
abbrev pub minus_one : ℕ
minus_one = 2 ^ 32 - 1

-- An `int` verdict other than 0 stands, with nothing printed; 0, which allows the call, becomes -1.
pub data Decides (verdict : ℕ) : (r0 : ℕ) → List Printed → Type 0 where
  keeps : verdict % 2 ^ 32 ≢ 0 → Decides verdict verdict []
  denies : verdict % 2 ^ 32 ≡ 0 → Decides verdict minus_one (worked ∷ [])

low_word : (a : ℕ) → (a * 2 ^ 32 % 2 ^ 64) / 2 ^ 32 ≡ a % 2 ^ 32
low_word a = omega arith

module _ {k : Kernel} (t : IsTracing k) (context frame : ℕ) (w : k.World) (verdict : ℕ)
    (given : k.load_bytes 8 (displace context (pos 24)) w ≡ some verdict) where
  -- The hook never allows what a hook before it has denied, and denies every other call, which it
  -- reports: where the fourth word of the context is the verdict so far, and .rodata in memory.
  pub lsm_bpf-Decides :
      InMemory k w (k.address_of ".rodata") lsm_rodata
      → (r0 : ℕ) × (w' : k.World) × (calls : List Printed) × (call_program k lsm_lsm_bpf_program
            context frame w
          ≡ exited r0 w')
        × (t.trace w' ≡ t.trace w ++ calls)
        × Decides verdict r0 calls
  unfolding call_flat lsm_rodata
  lsm_bpf-Decides held = elim (Bool-cases (verdict % 2 ^ 32 == 0)) [
    | inl e ↦
        rw
          (
            disassembly,
            call_program-flat k disassembled refl context frame w,
            call_flat,
            given,
            low_word,
            e,
          )
          (
            _,
            _,
            _,
            refl,
            prints_part t _ w ".rodata" [] worked.text [] held
                (omega (arith, t.address_is_word ".rodata")) refl refl,
            denies ((==_iff _ 0).0 e),
          )
    | inr e ↦
        rw
          (
            disassembly,
            call_program-flat k disassembled refl context frame w,
            call_flat,
            given,
            low_word,
            e,
          )
          (_, _, [], refl, sym (append-nil _), keeps (ground arith))
  ]
