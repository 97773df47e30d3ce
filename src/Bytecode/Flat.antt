-- ===== src/Bytecode/Flat.antt =====
-- Programs that call no functions of their own. A run of such a program keeps no callers, and is
-- simpler to follow.
use hello_e_bpf.Prelude.{
  ℕ, zero, suc, ◌≡◌, refl, Bool, true, false, ◌&&◌, not, none, some, List, [], ◌∷◌, get_elem?,
  length, arith, ◌⊎◌, inl, inr, pos, negsuc,
}
use hello_e_bpf.Bytecode.Instruction.{
  mov, Instruction, alu, swap, load_imm, high, load, store, jump, jump_if, call, call_function,
  exit, invalid,
}
use hello_e_bpf.Bytecode.Machine.{
  Program, Kernel, End, exited, fault, lost, out_of_fuel, State, Move, moved, called, ended,
  back_in, entry, update, execute, run, call_program,
}

abbrev pub is_function : Instruction → Bool
is_function (call_function _) = true
is_function _ = false

abbrev pub calls_no_function : List Instruction → Bool
calls_no_function [] = true
calls_no_function (i ∷ slots) = not (is_function i) && calls_no_function slots

calls_no_function-get :
    (slots : List Instruction) (n : ℕ) (i : Instruction)
    → calls_no_function slots ≡ true
    → get_elem? slots n ≡ some i
    → is_function i ≡ false
calls_no_function-get [] n i h e = cc
calls_no_function-get (x ∷ slots) zero i h e = ground arith
calls_no_function-get (x ∷ slots) (suc n) i h e = calls_no_function-get slots n i (ground arith) e

pub get_cases :
    (slots : List Instruction) (n : ℕ)
    → (get_elem? slots n ≡ none) ⊎ ((i : Instruction) × (get_elem? slots n ≡ some i))
get_cases [] n = inl refl
get_cases (x ∷ slots) zero = inr (x, refl)
get_cases (x ∷ slots) (suc n) = get_cases slots n

module _ (k : Kernel) where
  open k use {World}

  unfoldable pub run_flat : ℕ → Program → State k → End World
  unfolding execute
  run_flat zero p s = out_of_fuel
  run_flat (suc fuel) p s = elim (get_elem? p.slots s.pc) [
    | none ↦ lost
    | some i ↦ elim (execute k p i s) [
      | moved s' ↦ run_flat fuel p s'
      | called _ ↦ lost
      | ended e ↦ e
    ]
  ]

  unfoldable pub call_flat : Program → (context frame : ℕ) → World → End World
  unfolding run_flat update
  call_flat p context frame w = run_flat (length p.slots) p (entry k context frame w)

  abbrev NotCalled : Move k → Type 0
  NotCalled (moved _) = Unit
  NotCalled (called _) = ⊥
  NotCalled (ended _) = Unit

  execute-NotCalled :
      (p : Program) (i : Instruction) (s : State k)
      → is_function i ≡ false
      → NotCalled (execute k p i s)
  unfolding execute
  execute-NotCalled p (alu mov dst src) s h = ground arith
  execute-NotCalled p (alu op dst src) s h = ground arith
  execute-NotCalled p (swap size dst) s h = ground arith
  execute-NotCalled p (load_imm dst low) s h = ground arith
  execute-NotCalled p (high _) s h = tt
  execute-NotCalled p (load size dst src offset) s h = ground arith
  execute-NotCalled p (store size dst src offset) s h = ground arith
  execute-NotCalled p (jump (pos n)) s h = ground arith
  execute-NotCalled p (jump (negsuc n)) s h = ground arith
  execute-NotCalled p (jump_if test dst src (pos n)) s h = ground arith
  execute-NotCalled p (jump_if test dst src (negsuc n)) s h = ground arith
  execute-NotCalled p (call id) s h = tt
  execute-NotCalled p (call_function _) s h = cc
  execute-NotCalled p exit s h = ground arith
  execute-NotCalled p invalid s h = tt

  module _ (p : Program) (flat : calls_no_function p.slots ≡ true) where
    -- Any step goes on in the same way.
    step-flat :
        (fuel : ℕ) (s : State k) (move : Move k)
        → NotCalled move
        → ((s' : State k) → run k fuel p s' ≡ run_flat fuel p s')
        → ◌≡◌ {A = End World}
            (elim move [
              | moved s' ↦ run k fuel p s'
              | called callee ↦ elim (run k fuel p callee) [
                | exited r0 w ↦ run k fuel p (back_in k s r0 w)
                | fault ↦ fault
                | lost ↦ lost
                | out_of_fuel ↦ out_of_fuel
              ]
              | ended e ↦ e
            ])
            (elim move [ moved s' ↦ run_flat fuel p s' | called _ ↦ lost | ended e ↦ e ])
    step-flat fuel s (moved s') h same = same s'
    step-flat fuel s (called callee) h same = elim h [ ]
    step-flat fuel s (ended e) h same = refl

    run-flat : (fuel : ℕ) (s : State k) → run k fuel p s ≡ run_flat fuel p s
    unfolding run run_flat
    run-flat zero s = refl
    run-flat (suc fuel) s = elim (get_cases p.slots s.pc) [
      | inl e ↦ rw (e, run, run_flat) refl
      | inr (i, e) ↦
          rw (e, run, run_flat)
            (step-flat fuel s (execute k p i s)
              (execute-NotCalled p i s (calls_no_function-get p.slots s.pc i flat e))
              (run-flat fuel))
    ]

    pub call_program-flat :
        (context frame : ℕ) (w : World)
        → call_program k p context frame w ≡ call_flat p context frame w
    unfolding call_program call_flat
    call_program-flat context frame w = run-flat (length p.slots) _
