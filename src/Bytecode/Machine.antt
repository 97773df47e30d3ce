-- ===== src/Bytecode/Machine.antt =====
-- Runs of a program. The kernel is a parameter: its memory, its helper functions, and the addresses
-- at which libbpf has put the symbols of the ELF object.
use Prim.Native.String.{String}
use hello_e_bpf.Prelude.{
  ℕ, zero, suc, ◌+◌, ◌-◌, ◌*◌, ◌%◌, ◌^◌, Option, none, some, List, [], ◌∷◌, ltb, ◌==◌,
  if◌then◌else◌, get_elem?, length, ℤ, pos, negsuc,
}
use hello_e_bpf.Bytecode.Instruction.{
  Operand, register, constant, mov, Instruction, alu, swap, load_imm, high, load, store, jump,
  jump_if, call, call_function, exit, invalid,
}
use hello_e_bpf.Bytecode.Words.{displace, compute, holds, swapped}

-- A program of an ELF object: its instructions, and the slots whose constants are symbols.
pub record Program : Type 0 where
  pub slots : List Instruction
  pub relocations : List (ℕ × String)

-- A register that nothing has been written to cannot be read.
abbrev pub Registers : Type 0
Registers = ℕ → Option ℕ

pub record Kernel : Type 1 where
  pub World : Type 0
  pub load_bytes : (size address : ℕ) → World → Option ℕ
  pub store_bytes : (size address value : ℕ) → World → Option World
  pub helper : (id : ℕ) → Registers → World → ℕ × World
  pub address_of : String → ℕ
  pub next_frame : ℕ → ℕ  -- the frame of a called function, by that of its caller

-- How a run ends. `fault` is the read of an unwritten register or an access to memory that the kernel
-- refuses, `lost` the execution of a slot that holds no instruction.
pub data End (World : Type 0) : Type 0 where
  exited : (r0 : ℕ) → World → End World
  fault : End World
  lost : End World
  out_of_fuel : End World

unfoldable pub update : Registers → ℕ → Option ℕ → Registers
update r n v m = if m == n then v else r m

-- A helper leaves its result in r0, and nothing that can be read in r1 to r5.
unfoldable pub after_call : Registers → (r0 : ℕ) → Registers
after_call r r0 m = if m == 0 then some r0 else if ltb m 6 then none else r m

-- A function is called with its arguments in r1 to r5 and a frame of its own.
unfoldable pub for_function : Registers → (frame : ℕ) → Registers
for_function r frame m =
    if m == 10 then some frame else if m == 0 then none else if ltb m 6 then r m else none

abbrev pub value : Registers → Operand → Option ℕ
value r (register n) = r n
value r (constant c) = some c

unfoldable pub symbol_at : List (ℕ × String) → ℕ → Option String
symbol_at [] pc = none
symbol_at ((slot, symbol) ∷ relocations) pc =
    if slot == pc then some symbol else symbol_at relocations pc

-- The relocations of a section that stands from the slot `base` on.
abbrev pub moved_by : (base : ℕ) → List (ℕ × String) → List (ℕ × String)
moved_by base [] = []
moved_by base ((slot, symbol) ∷ relocations) = (base + slot, symbol) ∷ moved_by base relocations

module _ (k : Kernel) where
  open k use {World}

  pub record State : Type 0 where
    pub pc : ℕ
    pub registers : Registers
    pub world : World

  pub data Move : Type 0 where
    moved : State → Move
    called : (callee : State) → Move
    ended : End World → Move

  abbrev pub goto : State → ℕ → Registers → Move
  goto s pc r = moved (record s { pc = pc; registers = r })

  -- The slot that a jump from the slot `pc` leads to; before the first one there is none.
  abbrev pub target : (pc : ℕ) → ℤ → Option ℕ
  target pc (pos n) = some (pc + 1 + n)
  target pc (negsuc n) = if ltb pc n then none else some (pc - n)

  abbrev pub jump_to : State → ℤ → Move
  jump_to s offset = elim (target s.pc offset) [
    | none ↦ ended lost
    | some pc ↦ goto s pc s.registers
  ]

  -- The 64-bit constant of a load_imm at `pc`: a number, or the address of a symbol.
  abbrev pub long_constant : Program → (pc low upper : ℕ) → ℕ
  long_constant p pc low upper = elim (symbol_at p.relocations pc) [
    | none ↦ low + 2 ^ 32 * upper
    | some symbol ↦ (k.address_of symbol + low) % 2 ^ 64
  ]

  unfoldable pub execute : Program → Instruction → State → Move
  unfolding update after_call for_function compute holds swapped symbol_at
  execute p (alu mov dst src) s = elim (value s.registers src) [
    | none ↦ ended fault
    | some b ↦ goto s (s.pc + 1) (update s.registers dst (some b))
  ]
  execute p (alu op dst src) s = elim (s.registers dst) [
    | none ↦ ended fault
    | some a ↦ elim (value s.registers src) [
      | none ↦ ended fault
      | some b ↦ goto s (s.pc + 1) (update s.registers dst (some (compute op a b)))
    ]
  ]
  execute p (swap size dst) s = elim (s.registers dst) [
    | none ↦ ended fault
    | some a ↦ goto s (s.pc + 1) (update s.registers dst (some (swapped size a)))
  ]
  execute p (load_imm dst low) s = elim (get_elem? p.slots (s.pc + 1)) [
    | none ↦ ended lost
    | some second ↦ elim second [
      | high upper ↦
          goto s (s.pc + 2) (update s.registers dst (some (long_constant p s.pc low upper)))
      | _ ↦ ended lost
    ]
  ]
  execute p (high _) s = ended lost
  execute p (load size dst src offset) s = elim (s.registers src) [
    | none ↦ ended fault
    | some a ↦ elim (k.load_bytes size (displace a offset) s.world) [
      | none ↦ ended fault
      | some v ↦ goto s (s.pc + 1) (update s.registers dst (some v))
    ]
  ]
  execute p (store size dst src offset) s = elim (s.registers dst) [
    | none ↦ ended fault
    | some a ↦ elim (s.registers src) [
      | none ↦ ended fault
      | some v ↦ elim (k.store_bytes size (displace a offset) (v % 256 ^ size) s.world) [
        | none ↦ ended fault
        | some w ↦ moved (record s { pc = s.pc + 1; world = w })
      ]
    ]
  ]
  execute p (jump offset) s = jump_to s offset
  execute p (jump_if test dst src offset) s = elim (s.registers dst) [
    | none ↦ ended fault
    | some a ↦ elim (value s.registers src) [
      | none ↦ ended fault
      | some b ↦ if holds test a b then jump_to s offset else goto s (s.pc + 1) s.registers
    ]
  ]
  execute p (call id) s =
      let (r0, w) = k.helper id s.registers s.world in
      moved (record { pc = s.pc + 1; registers = after_call s.registers r0; world = w })
  execute p (call_function slot) s = elim (s.registers 10) [
    | none ↦ ended fault
    | some frame ↦ called (record {
      pc = slot;
      registers = for_function s.registers (k.next_frame frame);
      world = s.world;
    })
  ]
  execute p exit s = elim (s.registers 0) [
    | none ↦ ended fault
    | some r0 ↦ ended (exited r0 s.world)
  ]
  execute p invalid s = ended lost

  -- A function that has been called has r6 to r9 of its own: its caller finds them as they were.
  abbrev pub back_in : State → (r0 : ℕ) → World → State
  back_in s r0 w = record { pc = s.pc + 1; registers = after_call s.registers r0; world = w }

  unfoldable pub run : ℕ → Program → State → End World
  unfolding execute after_call
  run zero p s = out_of_fuel
  run (suc fuel) p s = elim (get_elem? p.slots s.pc) [
    | none ↦ lost
    | some i ↦ elim (execute p i s) [
      | moved s' ↦ run fuel p s'
      | called callee ↦ elim (run fuel p callee) [
        | exited r0 w ↦ run fuel p (back_in s r0 w)
        | fault ↦ fault
        | lost ↦ lost
        | out_of_fuel ↦ out_of_fuel
      ]
      | ended e ↦ e
    ]
  ]

  -- Where a call of a program begins: the address of its context is in r1, that of its frame in r10.
  abbrev pub entry : (context frame : ℕ) → World → State
  entry context frame w = record {
    pc = 0;
    registers = update (update (λ _. none) 1 (some context)) 10 (some frame);
    world = w;
  }

  -- A call of a program. If its jumps lead forward, it takes no more steps than it has slots.
  unfoldable pub call_program : Program → (context frame : ℕ) → World → End World
  unfolding run update
  call_program p context frame w = run (length p.slots) p (entry context frame w)
