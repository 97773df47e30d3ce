-- ===== src/Bytecode/Instruction.antt =====
-- eBPF instructions: eight bytes each, as the instruction set fixes them. It has more; these are the
-- ones that the skeletons of examples/c/.output use, and all else is `invalid`.
use Prim.Native.Char.{code}
use Prim.Native.String.{String}
use hello_e_bpf.Prelude.{
  ℕ, ◌+◌, ◌-◌, ◌*◌, ◌/◌, ◌%◌, ◌^◌, Option, none, some, List, [], ◌∷◌, ltb, ◌==◌, if◌then◌else◌, ℤ,
  pos, negsuc,
}
use hello_e_bpf.Memory.{Bytes}

-- An operand: a register, or a constant as a 64-bit word.
pub data Operand : Type 0 where
  register : ℕ → Operand
  constant : ℕ → Operand

pub data Alu : Type 0 where
  mov add sub and lsh rsh arsh : Alu

pub data Test : Type 0 where
  eq ne gt ge sgt : Test

-- Sizes are in bytes, `offset`s of jumps in slots.
pub data Instruction : Type 0 where
  alu : Alu → (dst : ℕ) → Operand → Instruction
  swap : (size dst : ℕ) → Instruction  -- to big endian
  load_imm : (dst : ℕ) → (low : ℕ) → Instruction  -- two slots, the other a `high`
  high : ℕ → Instruction
  load : (size dst src : ℕ) → (offset : ℤ) → Instruction
  store : (size dst src : ℕ) → (offset : ℤ) → Instruction
  jump : (offset : ℤ) → Instruction
  jump_if : Test → (dst : ℕ) → Operand → (offset : ℤ) → Instruction
  call : (helper : ℕ) → Instruction
  call_function : (slot : ℕ) → Instruction  -- a function of the program, where `link` has put it
  exit : Instruction
  invalid : Instruction

-- The value of a signed word of `bits` bits.
unfoldable pub signed : (bits : ℕ) → ℕ → ℤ
signed bits n = if ltb n (2 ^ (bits - 1)) then pos n else negsuc (2 ^ bits - n - 1)

-- A 32-bit constant as a 64-bit word.
abbrev pub extended : ℕ → ℕ
extended n = if ltb n (2 ^ 31) then n else n + (2 ^ 64 - 2 ^ 32)

-- The parts of an instruction: its first byte, its two registers, its offset and its constant.
pub record Fields : Type 0 where
  pub opcode : ℕ
  pub dst : ℕ
  pub src : ℕ
  pub offset : ℤ
  pub imm : ℕ

-- By the upper four bits of the opcode.
abbrev pub alu_of : ℕ → Option Alu
alu_of n =
    if n == 0xb
    then some mov
    else if n == 0
    then some add
    else if n == 1
    then some sub
    else if n == 5
    then some and
    else if n == 6
    then some lsh
    else if n == 7
    then some rsh
    else if n == 0xc
    then some arsh
    else none

abbrev pub test_of : ℕ → Option Test
test_of n =
    if n == 1
    then some eq
    else if n == 5
    then some ne
    else if n == 2
    then some gt
    else if n == 3
    then some ge
    else if n == 6
    then some sgt
    else none

-- The size of a load or a store, by the upper five bits of its opcode, mode MEM.
abbrev pub size_of : ℕ → Option ℕ
size_of n =
    if n == 12
    then some 4
    else if n == 13
    then some 2
    else if n == 14
    then some 1
    else if n == 15
    then some 8
    else none

-- The lowest bits of an opcode are its class, the fourth tells a constant from a register.
unfoldable pub instruction_of : Fields → Instruction
instruction_of f =
    let class = f.opcode % 8 in
    let operand = if f.opcode / 8 % 2 == 0 then constant (extended f.imm) else register f.src in
    if f.opcode == 0
    then high f.imm
    else if f.opcode == 0x18
    then load_imm f.dst f.imm
    else if f.opcode == 0x05
    then jump f.offset
    else if f.opcode == 0x95
    then exit
    else if f.opcode == 0x85
    then (if f.src == 0 then call f.imm else if f.src == 1 then call_function f.imm else invalid)
    else if f.opcode == 0xdc
    then swap (f.imm / 8) f.dst
    else if class == 7
    then elim (alu_of (f.opcode / 16)) [ none ↦ invalid | some a ↦ alu a f.dst operand ]
    else if class == 5
    then elim (test_of (f.opcode / 16)) [
      | none ↦ invalid
      | some t ↦ jump_if t f.dst operand f.offset
    ]
    else if class == 1
    then elim (size_of (f.opcode / 8)) [ none ↦ invalid | some n ↦ load n f.dst f.src f.offset ]
    else if class == 3
    then elim (size_of (f.opcode / 8)) [ none ↦ invalid | some n ↦ store n f.dst f.src f.offset ]
    else invalid

-- Numbers are little-endian; the lower half of the second byte is the destination.
unfoldable pub fields : Bytes → Option Fields
unfolding signed
fields (b0 ∷ b1 ∷ b2 ∷ b3 ∷ b4 ∷ b5 ∷ b6 ∷ b7 ∷ []) = some (record {
  opcode = b0;
  dst = b1 % 16;
  src = b1 / 16;
  offset = signed 16 (b2 + 256 * b3);
  imm = b4 + 256 * b5 + 65536 * b6 + 16777216 * b7;
})
fields _ = none

unfoldable pub decode : Bytes → Instruction
unfolding fields instruction_of
decode bytes = elim (fields bytes) [ none ↦ invalid | some f ↦ instruction_of f ]

-- Bytes written in hexadecimal.
unfoldable pub hex_digit : ℕ → ℕ
hex_digit c = if ltb c b'a' then c - b'0' else c - b'a' + 10

unfoldable pub hex : String → Bytes
unfolding hex_digit
hex (String.◌∷◌ c (String.◌∷◌ d s)) = (16 * hex_digit (code c) + hex_digit (code d)) ∷ hex s
hex _ = []

-- A program, an instruction to a text.
unfoldable pub assemble : List String → List Instruction
unfolding decode hex
assemble [] = []
assemble (s ∷ program) = decode (hex s) ∷ assemble program

-- The slot of the function that is called at a slot.
unfoldable pub function_at : List (ℕ × ℕ) → ℕ → Option ℕ
function_at [] slot = none
function_at ((caller, callee) ∷ functions) slot =
    if caller == slot then some callee else function_at functions slot

abbrev linked : Option ℕ → (base : ℕ) → Instruction → Instruction
linked (some callee) base (call_function _) = call_function (base + callee)
linked _ base i = i

-- A call of a function names it by a relocation: `functions` has the slot of each call, and that of
-- the function in the section .text, which stands from the slot `base` on.
unfoldable pub link :
    (functions : List (ℕ × ℕ)) → (base slot : ℕ) → List Instruction → List Instruction
unfolding function_at
link functions base slot [] = []
link functions base slot (i ∷ slots) =
    linked (function_at functions slot) base i ∷ link functions base (slot + 1) slots
