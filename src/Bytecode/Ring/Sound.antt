-- ===== src/Bytecode/Ring/Sound.antt =====
-- A program that the check allows pairs its reservations and submissions, on every run.
use hello_e_bpf.Prelude.{
  and_true, ℕ, zero, suc, ◌+◌, ◌%◌, ◌^◌, ◌≡◌, subst, true, Option, none, some, List, [], ◌∷◌,
  get_elem?, length, inl, inr, arith, pos, negsuc,
}
use hello_e_bpf.Bytecode.Instruction.{
  register, constant, mov, Instruction, alu, swap, load_imm, high, load, store, jump, jump_if, call,
  call_function, exit, invalid,
}
use hello_e_bpf.Bytecode.Words.{compute, holds, swapped, displace}
use hello_e_bpf.Bytecode.Machine.{
  Program, Kernel, End, exited, fault, lost, out_of_fuel, value, long_constant, State, Move, moved,
  called, ended, goto, update, back_in, entry, execute, run, call_program,
}
use hello_e_bpf.Bytecode.Flat.{get_cases}
use hello_e_bpf.Bytecode.Ring.Events.{RingEvent, HasRing, Paired, nothing}
use hello_e_bpf.Bytecode.Ring.Holds.{free, Holds, hold_at, leads, allows, all_allowed}
use hello_e_bpf.Bytecode.Ring.Steps.{
  At, Stays, Stays-maybe, leads-At, goes-written, goes-copied, jumps-Stays, branch-Stays,
}
use hello_e_bpf.Bytecode.Ring.Calls.{calls-Stays, enters-Stays, exits-Stays, stores-Stays}

module _ {k : Kernel} (ring : HasRing k) (before : List RingEvent) (check : Holds) where
  load_imm-Stays :
      (p : Program) (s : State k) (dst low : ℕ) (o : Option Instruction)
      → allows check s.pc (load_imm dst low) ≡ true
      → At ring before check s (hold_at check s.pc)
      → Stays ring before check s.pc (elim o [
        | none ↦ ended lost
        | some second ↦ elim second [
          | high upper ↦
              goto k s (s.pc + 2) (update s.registers dst (some (long_constant k p s.pc low upper)))
          | _ ↦ ended lost
        ]
      ])
  unfolding allows
  load_imm-Stays p s dst low none e m = tt
  load_imm-Stays p s dst low (some (high upper)) e m =
      goes-written ring before check s (hold_at check s.pc) dst (long_constant k p s.pc low upper)
        (s.pc + 2) e m
  load_imm-Stays p s dst low (some _) e m = tt

  execute-Stays :
      (p : Program) (i : Instruction) (s : State k)
      → allows check s.pc i ≡ true
      → At ring before check s (hold_at check s.pc)
      → Stays ring before check s.pc (execute k p i s)
  unfolding execute allows
  execute-Stays p (alu mov dst (register src)) s e m =
      Stays-maybe ring before check s.pc (s.registers src) _
        λ b at. goes-copied ring before check s (hold_at check s.pc) dst src b e at m
  execute-Stays p (alu mov dst (constant c)) s e m =
      goes-written ring before check s (hold_at check s.pc) dst c (s.pc + 1) e m
  execute-Stays p (alu op dst src) s e m =
      Stays-maybe ring before check s.pc (s.registers dst) _ λ a at.
        Stays-maybe ring before check s.pc (value s.registers src) _ λ b at'.
          goes-written ring before check s (hold_at check s.pc) dst (compute op a b) (s.pc + 1) e m
  execute-Stays p (swap size dst) s e m =
      Stays-maybe ring before check s.pc (s.registers dst) _ λ a at.
        goes-written ring before check s (hold_at check s.pc) dst (swapped size a) (s.pc + 1) e m
  execute-Stays p (load_imm dst low) s e m =
      load_imm-Stays p s dst low (get_elem? p.slots (s.pc + 1)) e m
  execute-Stays p (high _) s e m = tt
  execute-Stays p (load size dst src offset) s e m =
      Stays-maybe ring before check s.pc (s.registers src) _ λ a at.
        Stays-maybe ring before check s.pc (k.load_bytes size (displace a offset) s.world) _
          λ v at'. goes-written ring before check s (hold_at check s.pc) dst v (s.pc + 1) e m
  execute-Stays p (store size dst src offset) s e m =
      Stays-maybe ring before check s.pc (s.registers dst) _ λ a at.
        Stays-maybe ring before check s.pc (s.registers src) _ λ v at'.
          Stays-maybe ring before check s.pc
            (k.store_bytes size (displace a offset) (v % 256 ^ size) s.world) _
            λ w stored.
              stores-Stays ring before check s (hold_at check s.pc) w
                (ring.stores _ _ _ s.world w stored) e m
  execute-Stays p (jump (pos n)) s e m =
      leads-At ring before check (record s { pc = s.pc + 1 + n }) (hold_at check s.pc) e m
  execute-Stays p (jump (negsuc n)) s e m = cc
  execute-Stays p (jump_if test dst src (pos n)) s e m =
      Stays-maybe ring before check s.pc (s.registers dst) _ λ a at.
        Stays-maybe ring before check s.pc (value s.registers src) _ λ b at'.
          branch-Stays ring before check s n (holds test a b)
            (jumps-Stays ring before check s n (hold_at check s.pc) test dst src a b e at at' m)
  execute-Stays p (jump_if test dst src (negsuc n)) s e m = cc
  execute-Stays p (call id) s e m = calls-Stays ring before check s id (hold_at check s.pc) e m
  execute-Stays p (call_function slot) s e m =
      Stays-maybe ring before check s.pc (s.registers 10) _ λ frame at.
        enters-Stays ring before check s (hold_at check s.pc) slot (k.next_frame frame) e m
  execute-Stays p exit s e m =
      Stays-maybe ring before check s.pc (s.registers 0) _
        λ r0 at. exits-Stays ring before check s (hold_at check s.pc) r0 e m
  execute-Stays p invalid s e m = tt

  abbrev Kept : End k.World → Type 0
  Kept (exited r0 w) = Paired before (ring.history w)
  Kept fault = Unit
  Kept lost = Unit
  Kept out_of_fuel = Unit

  all_allowed-get :
      (slots : List Instruction) (from j slot : ℕ) (i : Instruction)
      → slot ≡ from + j
      → all_allowed check from slots ≡ true
      → get_elem? slots j ≡ some i
      → allows check slot i ≡ true
  unfolding all_allowed
  all_allowed-get [] from j slot i at h e = cc
  all_allowed-get (x ∷ slots) from zero slot i at h e =
      let same : x ≡ i = cc in
      let here : slot ≡ from = omega arith in
      rw (here, ← same) (and_true (allows check from x) _ h).0
  all_allowed-get (x ∷ slots) from (suc j) slot i at h e =
      all_allowed-get slots (from + 1) j slot i (omega arith) (and_true (allows check from x) _ h).1
        e

  module _ (p : Program) (allowed : all_allowed check 0 p.slots ≡ true) where
    -- If every later run keeps its records paired, so does this one.
    called-Kept :
        (fuel : ℕ) (s : State k) (callee : End k.World)
        → leads check free (s.pc + 1) ≡ true
        → Kept callee
        → ((s' : State k) → At ring before check s' (hold_at check s'.pc) → Kept (run k fuel p s'))
        → Kept (elim callee [
          | exited r0 w ↦ run k fuel p (back_in k s r0 w)
          | fault ↦ fault
          | lost ↦ lost
          | out_of_fuel ↦ out_of_fuel
        ])
    called-Kept fuel s (exited r0 w) back kept rest =
        rest (back_in k s r0 w) (leads-At ring before check (back_in k s r0 w) free back kept)
    called-Kept fuel s fault back kept rest = tt
    called-Kept fuel s lost back kept rest = tt
    called-Kept fuel s out_of_fuel back kept rest = tt

    moved-Kept :
        (fuel : ℕ) (s : State k) (move : Move k)
        → Stays ring before check s.pc move
        → ((s' : State k) → At ring before check s' (hold_at check s'.pc) → Kept (run k fuel p s'))
        → Kept (elim move [
          | moved s' ↦ run k fuel p s'
          | called callee ↦ elim (run k fuel p callee) [
            | exited r0 w ↦ run k fuel p (back_in k s r0 w)
            | fault ↦ fault
            | lost ↦ lost
            | out_of_fuel ↦ out_of_fuel
          ]
          | ended e ↦ e
        ])
    moved-Kept fuel s (moved s') stays rest = rest s' stays
    moved-Kept fuel s (called callee) (stays, back) rest =
        called-Kept fuel s (run k fuel p callee) back (rest callee stays) rest
    moved-Kept fuel s (ended (exited r0 w)) stays rest = stays
    moved-Kept fuel s (ended fault) stays rest = tt
    moved-Kept fuel s (ended lost) stays rest = tt
    moved-Kept fuel s (ended out_of_fuel) stays rest = tt

    run-Kept :
        (fuel : ℕ) (s : State k)
        → At ring before check s (hold_at check s.pc)
        → Kept (run k fuel p s)
    unfolding run
    run-Kept zero s m = tt
    run-Kept (suc fuel) s m = elim (get_cases p.slots s.pc) [
      | inl e ↦ rw (e, run) tt
      | inr (i, e) ↦
          rw (e, run)
            (moved-Kept fuel s (execute k p i s)
              (execute-Stays p i s (all_allowed-get p.slots 0 s.pc s.pc i (omega arith) allowed e)
                m)
              (run-Kept fuel))
    ]

-- A call of a program that the check allows, if it exits, has submitted what it has reserved.
pub call_program-Paired :
    {k : Kernel} (ring : HasRing k) (check : Holds) (p : Program) (context frame r0 : ℕ)
    (w w' : k.World)
    → all_allowed check 0 p.slots ≡ true
    → leads check free 0 ≡ true
    → call_program k p context frame w ≡ exited r0 w'
    → Paired (ring.history w) (ring.history w')
unfolding call_program
call_program-Paired {k} ring check p context frame r0 w w' allowed starts exits =
    subst (Kept ring (ring.history w) check) exits (
      run-Kept ring (ring.history w) check p allowed (length p.slots) (entry k context frame w)
        (leads-At ring (ring.history w) check (entry k context frame w) free starts nothing))
