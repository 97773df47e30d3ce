-- ===== src/Bytecode/Ring/Calls.antt =====
-- One step of a program that the check allows: calls, exits and stores.
use hello_e_bpf.Prelude.{
  and_true, ℕ, ◌+◌, ◌≡◌, refl, sym, ap, subst, ◌∙◌, inl, inr, Bool-cases, true, false, List, [],
  ◌∷◌, ltb, ◌==◌, ==_iff, arith,
}
use hello_e_bpf.Bytecode.Machine.{
  Kernel, exited, after_call, for_function, State, moved, called, ended,
}
use hello_e_bpf.Bytecode.Ring.Events.{RingEvent, submitted, is_ring_helper, HasRing, pair}
use hello_e_bpf.Bytecode.Ring.Holds.{
  Hold, free, asked, holding, member, without, helped, Holds, leads, reserves_ok, submits_ok,
  calls_ok, enters_ok, entails,
}
use hello_e_bpf.Bytecode.Ring.Matches.{
  member-value, without-value, after_call-other, on_registers-Matches, history-Matches,
}
use hello_e_bpf.Bytecode.Ring.Steps.{At, Stays, leads-At}

module _ {k : Kernel} (ring : HasRing k) (before : List RingEvent) (check : Holds) where
  -- The state after a call of a helper.
  abbrev pub after_helper : State k → ℕ → State k
  after_helper s id = record {
    pc = s.pc + 1;
    registers = after_call s.registers (k.helper id s.registers s.world).0;
    world = (k.helper id s.registers s.world).1;
  }

  reserves-Stays :
      (s : State k) (h : Hold)
      → reserves_ok check h (s.pc + 1) ≡ true
      → At ring before check s h
      → Stays ring before check s.pc (moved (after_helper s 131))
  unfolding after_call
  reserves-Stays s free e m = leads-At ring before check (after_helper s 131) (asked (0 ∷ [])) e (
    (k.helper 131 s.registers s.world).0,
    ring.history s.world,
    m,
    (refl, tt),
    ring.reserves_none s.registers s.world,
    ring.reserves s.registers s.world,
  )
  reserves-Stays s (asked _) e m = cc
  reserves-Stays s (holding _) e m = cc

  submits-Stays :
      (s : State k) (h : Hold)
      → submits_ok check h (s.pc + 1) ≡ true
      → At ring before check s h
      → Stays ring before check s.pc (moved (after_helper s 132))
  submits-Stays s free e m = cc
  submits-Stays s (asked _) e m = cc
  submits-Stays s (holding ms) e (v, events, paired, all, new) =
      let (known, goes) = and_true (member 1 ms) _ e in
      leads-At ring before check (after_helper s 132) free goes (
        pair v paired (
          ring.submits s.registers s.world v (member-value s.registers v 1 ms known all)
          ∙ ap (λ l. submitted v ∷ l) new))

  helps-Stays :
      (s : State k) (id : ℕ) (h : Hold)
      → is_ring_helper id ≡ false
      → leads check (helped h) (s.pc + 1) ≡ true
      → At ring before check s h
      → Stays ring before check s.pc (moved (after_helper s id))
  helps-Stays s id h other e m = leads-At ring before check (after_helper s id) (helped h) e (
      on_registers-Matches ring before (without (λ r. ltb r 6)) h s.world
        (k.helper id s.registers s.world).1 s.registers
        (after_call s.registers (k.helper id s.registers s.world).0)
        (ring.keeps id s.registers s.world other)
        (λ v ms.
          without-value s.registers (after_call s.registers (k.helper id s.registers s.world).0) v
            (λ r. ltb r 6) ms (after_call-other s.registers (k.helper id s.registers s.world).0))
        m)

  pub calls-Stays :
      (s : State k) (id : ℕ) (h : Hold)
      → calls_ok check id h (s.pc + 1) ≡ true
      → At ring before check s h
      → Stays ring before check s.pc (moved (after_helper s id))
  calls-Stays s id h e m = elim (Bool-cases (id == 131)) [
    | inl is ↦
        subst (λ i. Stays ring before check s.pc (moved (after_helper s i)))
          (sym ((==_iff id 131).0 is)) (reserves-Stays s h (ground arith) m)
    | inr not_131 ↦ elim (Bool-cases (id == 132)) [
      | inl is ↦
          subst (λ i. Stays ring before check s.pc (moved (after_helper s i)))
            (sym ((==_iff id 132).0 is)) (submits-Stays s h (ground arith) m)
      | inr not_132 ↦ helps-Stays s id h (ground arith) (ground arith) m
    ]
  ]

  pub enters-Stays :
      (s : State k) (h : Hold) (slot frame : ℕ)
      → enters_ok check h (s.pc + 1) slot ≡ true
      → At ring before check s h
      → Stays ring before check s.pc (
          called
            (record { pc = slot; registers = for_function s.registers frame; world = s.world }))
  enters-Stays s free slot frame e m =
      let (back, there) = and_true (leads check free (s.pc + 1)) _ e in
      (
        leads-At ring before check
            (record { pc = slot; registers = for_function s.registers frame; world = s.world }) free
            there m,
        back,
      )
  enters-Stays s (asked _) slot frame e m = cc
  enters-Stays s (holding _) slot frame e m = cc

  pub exits-Stays :
      (s : State k) (h : Hold) (r0 : ℕ)
      → entails h free ≡ true
      → At ring before check s h
      → Stays ring before check s.pc (ended (exited r0 s.world))
  exits-Stays s free r0 e m = m
  exits-Stays s (asked _) r0 e m = cc
  exits-Stays s (holding _) r0 e m = cc

  pub stores-Stays :
      (s : State k) (h : Hold) (w : k.World)
      → ring.history w ≡ ring.history s.world
      → leads check h (s.pc + 1) ≡ true
      → At ring before check s h
      → Stays ring before check s.pc (moved (record s { pc = s.pc + 1; world = w }))
  stores-Stays s h w same e m =
      leads-At ring before check (record s { pc = s.pc + 1; world = w }) h e
        (history-Matches ring before h s.world w s.registers same m)
