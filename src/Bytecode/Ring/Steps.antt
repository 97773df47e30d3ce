-- ===== src/Bytecode/Ring/Steps.antt =====
-- One step of a program that the check allows, kind by kind.
use hello_e_bpf.Prelude.{
  and_true, ℕ, ◌+◌, ◌≡◌, refl, sym, subst, inl, inr, Bool, Bool-cases, true, false, ◌&&◌, Option,
  none, some, List, ◌==◌, ==_iff, if◌then◌else◌, arith,
}
use hello_e_bpf.Bytecode.Instruction.{Operand, register, constant, Test, eq, ne, gt, ge, sgt}
use hello_e_bpf.Bytecode.Words.{holds}
use hello_e_bpf.Bytecode.Machine.{
  Kernel, Registers, exited, fault, lost, out_of_fuel, update, value, State, Move, moved, called,
  ended,
}
use hello_e_bpf.Bytecode.Ring.Events.{RingEvent, HasRing, Paired}
use hello_e_bpf.Bytecode.Ring.Holds.{
  Hold, free, asked, holding, member, written, copy, copied, tests_null, Holds, hold_at, leads,
  jumps,
}
use hello_e_bpf.Bytecode.Ring.Matches.{
  AllContain, member-value, copy-value, Matches, entails-Matches, on_registers-Matches,
  written-Matches,
}

module _ {k : Kernel} (ring : HasRing k) (before : List RingEvent) (check : Holds) where
  abbrev pub At : State k → Hold → Type 0
  At s h = Matches ring before s.world s.registers h

  -- A step from the slot `slot` to a state that is as the check says.
  abbrev pub Stays : (slot : ℕ) → Move k → Type 0
  Stays slot (moved s) = At s (hold_at check s.pc)
  Stays slot (called s) = At s (hold_at check s.pc) × (leads check free (slot + 1) ≡ true)
  Stays slot (ended (exited r0 w)) = Paired before (ring.history w)
  Stays slot (ended fault) = Unit
  Stays slot (ended lost) = Unit
  Stays slot (ended out_of_fuel) = Unit

  -- Code that may be refused.
  pub Stays-maybe :
      {A : Type 0} (slot : ℕ) (o : Option A) (f : A → Move k)
      → ((a : A) → o ≡ some a → Stays slot (f a))
      → Stays slot (elim o [ none ↦ ended fault | some a ↦ f a ])
  Stays-maybe slot none f h = tt
  Stays-maybe slot (some a) f h = h a refl

  pub leads-At :
      (s : State k) (h : Hold) → leads check h s.pc ≡ true → At s h → At s (hold_at check s.pc)
  leads-At s h e m = entails-Matches ring before h (hold_at check s.pc) s.world s.registers e m

  pub goes-written :
      (s : State k) (h : Hold) (dst v : ℕ) (next : ℕ)
      → leads check (written dst h) next ≡ true
      → At s h
      → Stays s.pc (moved (record s { pc = next; registers = update s.registers dst (some v) }))
  goes-written s h dst v next e m =
      leads-At (record s { pc = next; registers = update s.registers dst (some v) }) (written dst h)
        e (written-Matches ring before h s.world s.registers dst (some v) m)

  pub goes-copied :
      (s : State k) (h : Hold) (dst src v : ℕ)
      → leads check (copied dst src h) (s.pc + 1) ≡ true
      → s.registers src ≡ some v
      → At s h
      → Stays s.pc (moved (record s { pc = s.pc + 1; registers = update s.registers dst (some v) }))
  goes-copied s h dst src v e at m =
      leads-At (record s { pc = s.pc + 1; registers = update s.registers dst (some v) })
        (copied dst src h) e
        (on_registers-Matches ring before (copy dst src) h s.world s.world s.registers
          (update s.registers dst (some v)) refl (λ a ms. copy-value s.registers a v dst src ms at)
          m)

  -- A jump on 0 that the check knows.
  null-value :
      (r : Registers) (v a b dst : ℕ) (src : Operand) (test : Test) (ms : List ℕ)
      → tests_null test dst src ms ≡ true
      → AllContain r v ms
      → r dst ≡ some a
      → value r src ≡ some b
      → holds test a b ≡ (v == 0)
  unfolding holds
  null-value r v a b dst (constant c) eq ms h all at at' =
      let (zero_c, known) = and_true (c == 0) (member dst ms) h in
      ground (arith, member-value r v dst ms known all)
  null-value r v a b dst (register c) eq ms h all at at' = cc
  null-value r v a b dst src ne ms h all at at' = cc
  null-value r v a b dst src gt ms h all at at' = cc
  null-value r v a b dst src ge ms h all at at' = cc
  null-value r v a b dst src sgt ms h all at at' = cc

  module _ (s : State k) (n : ℕ) where
    -- Where a conditional jump leads.
    abbrev pub branch : Bool → State k
    branch b = if b then record s { pc = s.pc + 1 + n } else record s { pc = s.pc + 1 }

    either-Stays :
        (h : Hold) (b : Bool)
        → leads check h (s.pc + 1) && leads check h (s.pc + 1 + n) ≡ true
        → At s h
        → Stays s.pc (moved (branch b))
    either-Stays h true e m = leads-At (branch true) h (and_true _ _ e).1 m
    either-Stays h false e m = leads-At (branch false) h (and_true _ _ e).0 m

    pub jumps-Stays :
        (h : Hold) (test : Test) (dst : ℕ) (src : Operand) (a b : ℕ)
        → jumps check test dst src h (s.pc + 1) (s.pc + 1 + n) ≡ true
        → s.registers dst ≡ some a
        → value s.registers src ≡ some b
        → At s h
        → Stays s.pc (moved (branch (holds test a b)))
    jumps-Stays free test dst src a b e at at' m = either-Stays free (holds test a b) e m
    jumps-Stays (holding ms) test dst src a b e at at' m =
        either-Stays (holding ms) (holds test a b) e m
    jumps-Stays (asked ms) test dst src a b e at at' m =
        elim (Bool-cases (tests_null test dst src ms)) [
          | inr unknown ↦ either-Stays (asked ms) (holds test a b) (ground arith) m
          | inl known ↦
              let (v, events, paired, all, null, new) = m in
              let both : leads check (holding ms) (s.pc + 1) && leads check free (s.pc + 1 + n)
                  ≡ true =
                ground arith in
              let same = null-value s.registers v a b dst src test ms known all at at' in
              elim (Bool-cases (v == 0)) [
                | inl z ↦
                    rw (same, z)
                      (leads-At (branch true) free (and_true _ _ both).1
                        (subst (Paired before) (sym (null ((==_iff v 0).0 z))) paired))
                | inr nz ↦
                    rw (same, nz)
                      (leads-At (branch false) (holding ms) (and_true _ _ both).0
                        (v, events, paired, all, new (ground arith)))
              ]
        ]

    pub branch-Stays :
        (b : Bool)
        → Stays s.pc (moved (branch b))
        → Stays s.pc (
            if b
            then moved (record s { pc = s.pc + 1 + n })
            else moved (record s { pc = s.pc + 1 }))
    branch-Stays true m = m
    branch-Stays false m = m
