-- ===== src/Bytecode/Ring/Holds.antt =====
-- A check of a program: at each slot, whether it holds a record, and which registers hold its address.
use hello_e_bpf.Prelude.{
  ℕ, ◌+◌, Bool, true, false, ◌&&◌, not, List, [], ◌∷◌, ltb, ◌==◌, if◌then◌else◌, pos, negsuc,
}
use hello_e_bpf.Bytecode.Instruction.{
  Operand, register, constant, mov, Test, eq, Instruction, alu, swap, load_imm, high, load, store,
  jump, jump_if, call, call_function, exit, invalid,
}
use hello_e_bpf.Bytecode.Ring.Events.{is_ring_helper}

-- `asked`: these registers hold the result of a reservation, which may be 0; `holding`: they hold the
-- address of the record.
pub data Hold : Type 0 where
  free : Hold
  asked : List ℕ → Hold
  holding : List ℕ → Hold

abbrev pub member : ℕ → List ℕ → Bool
member n [] = false
member n (m ∷ ms) = if n == m then true else member n ms

abbrev pub subset : List ℕ → List ℕ → Bool
subset [] ms = true
subset (n ∷ ns) ms = member n ms && subset ns ms

-- What is known where `a` is so is enough for `b`.
abbrev pub entails : Hold → Hold → Bool
entails free free = true
entails (asked ms) (asked ns) = subset ns ms
entails (holding ms) (holding ns) = subset ns ms
entails free (asked _) = false
entails free (holding _) = false
entails (asked _) free = false
entails (asked _) (holding _) = false
entails (holding _) free = false
entails (holding _) (asked _) = false

abbrev pub without : (ℕ → Bool) → List ℕ → List ℕ
without gone [] = []
without gone (m ∷ ms) = let rest = without gone ms in if gone m then rest else m ∷ rest

abbrev pub on_registers : (List ℕ → List ℕ) → Hold → Hold
on_registers f free = free
on_registers f (asked ms) = asked (f ms)
on_registers f (holding ms) = holding (f ms)

-- After a write to the register `dst`, after a copy of `src` to it, and after a call of a helper.
abbrev pub written : (dst : ℕ) → Hold → Hold
written dst = on_registers (without (λ m. m == dst))

abbrev pub copy : (dst src : ℕ) → List ℕ → List ℕ
copy dst src ms =
    let rest = without (λ m. m == dst) ms in if member src ms then dst ∷ rest else rest

abbrev pub copied : (dst src : ℕ) → Hold → Hold
copied dst src = on_registers (copy dst src)

abbrev pub helped : Hold → Hold
helped = on_registers (without (λ m. ltb m 6))

-- The jump is taken just if the reservation has failed.
abbrev pub tests_null : Test → (dst : ℕ) → Operand → List ℕ → Bool
tests_null eq dst (constant c) ms = c == 0 && member dst ms
tests_null _ _ _ _ = false

-- A program's holds, by the slots from which on they are so; up to the first of them it holds nothing.
abbrev pub Holds : Type 0
Holds = List (ℕ × Hold)

unfoldable pub hold_from : Hold → Holds → ℕ → Hold
hold_from h [] slot = h
hold_from h ((start, next) ∷ holds) slot =
    let rest = hold_from next holds slot in if ltb slot start then h else rest

unfoldable pub hold_at : Holds → ℕ → Hold
unfolding hold_from
hold_at = hold_from free

module _ (holds : Holds) where
  -- What holds after a step is enough for what holds at the slot `next`.
  abbrev pub leads : Hold → (next : ℕ) → Bool
  leads h next = entails h (hold_at holds next)

  abbrev pub jumps : Test → (dst : ℕ) → Operand → Hold → (next target : ℕ) → Bool
  jumps test dst src free next target = leads free next && leads free target
  jumps test dst src (holding ms) next target = leads (holding ms) next && leads (holding ms) target
  jumps test dst src (asked ms) next target =
      if tests_null test dst src ms
      then leads (holding ms) next && leads free target
      else leads (asked ms) next && leads (asked ms) target

  abbrev pub reserves_ok : Hold → (next : ℕ) → Bool
  reserves_ok free next = leads (asked (0 ∷ [])) next
  reserves_ok (asked _) next = false
  reserves_ok (holding _) next = false

  abbrev pub submits_ok : Hold → (next : ℕ) → Bool
  submits_ok free next = false
  submits_ok (asked _) next = false
  submits_ok (holding ms) next = member 1 ms && leads free next

  abbrev pub calls_ok : (id : ℕ) → Hold → (next : ℕ) → Bool
  calls_ok id h next =
      if id == 131
      then reserves_ok h next
      else if id == 132
      then submits_ok h next
      else not (is_ring_helper id) && leads (helped h) next

  abbrev pub enters_ok : Hold → (next slot : ℕ) → Bool
  enters_ok h next slot = entails h free && (leads free next && leads free slot)

  unfoldable pub allows : (slot : ℕ) → Instruction → Bool
  allows slot (alu mov dst (register src)) = leads (copied dst src (hold_at holds slot)) (slot + 1)
  allows slot (alu _ dst _) = leads (written dst (hold_at holds slot)) (slot + 1)
  allows slot (swap _ dst) = leads (written dst (hold_at holds slot)) (slot + 1)
  allows slot (load_imm dst _) = leads (written dst (hold_at holds slot)) (slot + 2)
  allows slot (high _) = true
  allows slot (load _ dst _ _) = leads (written dst (hold_at holds slot)) (slot + 1)
  allows slot (store _ _ _ _) = leads (hold_at holds slot) (slot + 1)
  allows slot (jump (pos n)) = leads (hold_at holds slot) (slot + 1 + n)
  allows slot (jump (negsuc n)) = false
  allows slot (jump_if test dst src (pos n)) =
      jumps test dst src (hold_at holds slot) (slot + 1) (slot + 1 + n)
  allows slot (jump_if _ _ _ (negsuc n)) = false
  allows slot (call id) = calls_ok id (hold_at holds slot) (slot + 1)
  allows slot (call_function callee) = enters_ok (hold_at holds slot) (slot + 1) callee
  allows slot exit = entails (hold_at holds slot) free
  allows slot invalid = true

  unfoldable pub all_allowed : (slot : ℕ) → List Instruction → Bool
  unfolding allows hold_at
  all_allowed slot [] = true
  all_allowed slot (i ∷ slots) = allows slot i && all_allowed (slot + 1) slots
