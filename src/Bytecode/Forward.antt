-- ===== src/Bytecode/Forward.antt =====
-- Programs whose jumps lead forward, to an instruction. Each run of such a program ends within as many
-- steps as there are slots, and never leaves the program.
use hello_e_bpf.Prelude.{
  and_true, ℕ, zero, suc, ◌+◌, ◌≤◌, ◌<◌, ◌≡◌, refl, Bool, true, false, ◌&&◌, Option, none, some,
  List, [], ◌∷◌, get_elem?, length, ltb, arith, ℤ, pos, negsuc,
}
use hello_e_bpf.Bytecode.Instruction.{
  mov, Instruction, alu, swap, load_imm, high, load, store, jump, jump_if, call, call_function,
  exit, invalid,
}
use hello_e_bpf.Bytecode.Machine.{
  Program, Kernel, End, exited, fault, lost, out_of_fuel, State, Move, moved, called, ended,
  back_in, execute, run, call_program,
}

abbrev pub begins : Option Instruction → Bool
begins none = false
begins (some (high _)) = false
begins (some _) = true

abbrev pub is_high : Option Instruction → Bool
is_high (some (high _)) = true
is_high _ = false

-- An instruction begins at the slot `i`.
abbrev pub is_start : List Instruction → ℕ → Bool
is_start slots i = begins (get_elem? slots i)

abbrev pub leads_forward : List Instruction → ℕ → ℤ → Bool
leads_forward slots i (pos n) = is_start slots (i + 1 + n)
leads_forward slots i (negsuc n) = false

-- From the slot `i` with this instruction a run comes to another instruction, further on, or ends.
unfoldable pub goes_on : List Instruction → ℕ → Instruction → Bool
goes_on slots i (alu _ _ _) = is_start slots (i + 1)
goes_on slots i (swap _ _) = is_start slots (i + 1)
goes_on slots i (load_imm _ _) = is_high (get_elem? slots (i + 1)) && is_start slots (i + 2)
goes_on slots i (high _) = true
goes_on slots i (load _ _ _ _) = is_start slots (i + 1)
goes_on slots i (store _ _ _ _) = is_start slots (i + 1)
goes_on slots i (jump offset) = leads_forward slots i offset
goes_on slots i (jump_if _ _ _ offset) = is_start slots (i + 1) && leads_forward slots i offset
goes_on slots i (call _) = is_start slots (i + 1)
goes_on slots i (call_function slot) = is_start slots (i + 1) && (ltb i slot && is_start slots slot)
goes_on slots i exit = true
goes_on slots i invalid = false

unfoldable pub all_go_on : List Instruction → ℕ → List Instruction → Bool
unfolding goes_on
all_go_on slots i [] = true
all_go_on slots i (x ∷ rest) = goes_on slots i x && all_go_on slots (i + 1) rest

unfoldable pub is_forward : List Instruction → Bool
unfolding all_go_on
is_forward slots = is_start slots 0 && all_go_on slots 0 slots

-- A run has ended: the program has exited, or has been refused a register or an access to memory.
abbrev pub HasEnded : {World : Type 0} → End World → Type 0
HasEnded (exited _ _) = Unit
HasEnded fault = Unit
HasEnded lost = ⊥
HasEnded out_of_fuel = ⊥

all_go_on-get :
    (slots rest : List Instruction) (i j n : ℕ) (x : Instruction)
    → n ≡ i + j
    → all_go_on slots i rest ≡ true
    → get_elem? rest j ≡ some x
    → goes_on slots n x ≡ true
unfolding all_go_on
all_go_on-get slots [] i j n x at h e = cc
all_go_on-get slots (y ∷ rest) i zero n x at h e =
    let same : y ≡ x = cc in
    let here : n ≡ i = omega arith in rw (here, ← same) (and_true (goes_on slots i y) _ h).0
all_go_on-get slots (y ∷ rest) i (suc j) n x at h e =
    all_go_on-get slots rest (i + 1) j n x (omega arith) (and_true (goes_on slots i y) _ h).1 e

get_elem?-lt-length :
    (slots : List Instruction) (i : ℕ) (x : Instruction)
    → get_elem? slots i ≡ some x
    → i < length slots
get_elem?-lt-length [] i x e = cc
get_elem?-lt-length (y ∷ slots) zero x e = omega arith
get_elem?-lt-length (y ∷ slots) (suc i) x e = omega (arith, get_elem?-lt-length slots i x e)

begins_cases :
    (o : Option Instruction)
    → begins o ≡ true
    → (x : Instruction) × (o ≡ some x) × (begins (some x) ≡ true)
begins_cases none h = cc
begins_cases (some x) h = (x, refl, h)

begins_get :
    (slots : List Instruction) (i : ℕ)
    → is_start slots i ≡ true
    → (x : Instruction) × (get_elem? slots i ≡ some x) × (begins (some x) ≡ true)
begins_get slots i h = begins_cases (get_elem? slots i) h

module _ (k : Kernel) where
  -- One step: to a later instruction, or to the end.
  abbrev GoesOn : List Instruction → ℕ → Move k → Type 0
  GoesOn slots i (moved s) = (i < s.pc) × (is_start slots s.pc ≡ true)
  GoesOn slots i (called callee) =
      (i < callee.pc) × (is_start slots callee.pc ≡ true) × (is_start slots (i + 1) ≡ true)
  GoesOn slots i (ended e) = HasEnded e

  execute-GoesOn :
      (p : Program) (x : Instruction) (s : State k)
      → goes_on p.slots s.pc x ≡ true
      → begins (some x) ≡ true
      → GoesOn p.slots s.pc (execute k p x s)
  unfolding execute goes_on
  execute-GoesOn p (alu mov dst src) s h b = ground arith
  execute-GoesOn p (alu op dst src) s h b = ground arith
  execute-GoesOn p (swap size dst) s h b = ground arith
  execute-GoesOn p (load_imm dst low) s h b = ground arith
  execute-GoesOn p (high _) s h b = cc
  execute-GoesOn p (load size dst src offset) s h b = ground arith
  execute-GoesOn p (store size dst src offset) s h b = ground arith
  execute-GoesOn p (jump (pos n)) s h b = ground arith
  execute-GoesOn p (jump (negsuc n)) s h b = cc
  execute-GoesOn p (jump_if test dst src (pos n)) s h b = ground arith
  execute-GoesOn p (jump_if test dst src (negsuc n)) s h b = ground arith
  execute-GoesOn p (call id) s h b = ground arith
  execute-GoesOn p (call_function slot) s h b = ground arith
  execute-GoesOn p exit s h b = ground arith
  execute-GoesOn p invalid s h b = cc

  -- A call of a function has ended, if the function has, and what follows the call.
  called-HasEnded :
      (p : Program) (fuel : ℕ) (s : State k) (callee : End k.World)
      → HasEnded callee
      → ((r0 : ℕ) (w : k.World) → HasEnded (run k fuel p (back_in k s r0 w)))
      → HasEnded {World = k.World} (elim callee [
        | exited r0 w ↦ run k fuel p (back_in k s r0 w)
        | fault ↦ fault
        | lost ↦ lost
        | out_of_fuel ↦ out_of_fuel
      ])
  called-HasEnded p fuel s (exited r0 w) h rest = rest r0 w
  called-HasEnded p fuel s fault h rest = tt
  called-HasEnded p fuel s lost h rest = h
  called-HasEnded p fuel s out_of_fuel h rest = h

  -- What a step leads to has ended, if every later run has.
  moved-HasEnded :
      (p : Program) (fuel : ℕ) (s : State k) (move : Move k)
      → GoesOn p.slots s.pc move
      → ((s' : State k) → s.pc < s'.pc → is_start p.slots s'.pc ≡ true → HasEnded (run k fuel p s'))
      → HasEnded {World = k.World} (elim move [
        | moved s' ↦ run k fuel p s'
        | called callee ↦ elim (run k fuel p callee) [
          | exited r0 w ↦ run k fuel p (back_in k s r0 w)
          | fault ↦ fault
          | lost ↦ lost
          | out_of_fuel ↦ out_of_fuel
        ]
        | ended e ↦ e
      ])
  moved-HasEnded p fuel s (moved s') (later, starts) rest = rest s' later starts
  moved-HasEnded p fuel s (called callee) (later, starts, back) rest =
      called-HasEnded p fuel s (run k fuel p callee) (rest callee later starts)
        λ r0 w. rest (back_in k s r0 w) (omega arith) back
  moved-HasEnded p fuel s (ended e) h rest = h

  run-HasEnded :
      (p : Program) (fuel : ℕ) (s : State k)
      → all_go_on p.slots 0 p.slots ≡ true
      → is_start p.slots s.pc ≡ true
      → length p.slots ≤ fuel + s.pc
      → HasEnded (run k fuel p s)
  unfolding run
  run-HasEnded p zero s h st enough =
      let (x, got, b) = begins_get p.slots s.pc st in
      absurd (omega (arith, get_elem?-lt-length p.slots s.pc x got))
  run-HasEnded p (suc fuel) s h st enough =
      let (x, got, b) = begins_get p.slots s.pc st in
      rw (got, run)
        (moved-HasEnded p fuel s (execute k p x s)
          (execute-GoesOn p x s (all_go_on-get p.slots p.slots 0 s.pc s.pc x (omega arith) h got) b)
          λ s' later starts. run-HasEnded p fuel s' h starts (omega arith))

  -- A program whose jumps lead forward has ended by the time it has made a step for each of its slots,
  -- whatever its context, the memory and the helpers, and it has not run out of its instructions.
  pub call_program-HasEnded :
      (p : Program) (context frame : ℕ) (w : k.World)
      → is_forward p.slots ≡ true
      → HasEnded (call_program k p context frame w)
  unfolding call_program is_forward
  call_program-HasEnded p context frame w h =
      let (starts, goes) = and_true (is_start p.slots 0) _ h in
      run-HasEnded p (length p.slots) _ goes starts (omega arith)
