-- ===== src/Bytecode/Ring/Matches.antt =====
-- When a state is as the check of a program says, and steps that keep it so.
use hello_e_bpf.Prelude.{
  and_true, ℕ, ◌≡◌, ◌≢◌, refl, sym, ap, ◌∙◌, inl, inr, Bool, Bool-cases, true, false, Option, some,
  List, [], ◌∷◌, All, ltb, ◌==◌, arith,
}
use hello_e_bpf.Bytecode.Machine.{Kernel, Registers, update, after_call}
use hello_e_bpf.Bytecode.Ring.Events.{RingEvent, reserved, HasRing, Paired}
use hello_e_bpf.Bytecode.Ring.Holds.{
  Hold, free, asked, holding, member, subset, entails, without, on_registers, written, copy,
}

-- These registers hold `v`.
abbrev pub AllContain : Registers → ℕ → List ℕ → Type 0
AllContain r v = All (λ n. r n ≡ some v)

pub member-value :
    (r : Registers) (v n : ℕ) (ms : List ℕ) → member n ms ≡ true → AllContain r v ms → r n ≡ some v
member-value r v n [] h all = cc
member-value r v n (m ∷ ms) h all = ground (arith, member-value r v n ms, ap r {x = n} {y = m})

subset-value :
    (r : Registers) (v : ℕ) (ns ms : List ℕ)
    → subset ns ms ≡ true
    → AllContain r v ms
    → AllContain r v ns
subset-value r v [] ms h all = tt
subset-value r v (n ∷ ns) ms h all =
    let (first, rest) = and_true (member n ms) (subset ns ms) h in
    (member-value r v n ms first all, subset-value r v ns ms rest all)

-- Registers that another state has alike.
pub without-value :
    (r r' : Registers) (v : ℕ) (gone : ℕ → Bool) (ms : List ℕ)
    → ((n : ℕ) → gone n ≡ false → r' n ≡ r n)
    → AllContain r v ms
    → AllContain r' v (without gone ms)
without-value r r' v gone [] same all = tt
without-value r r' v gone (m ∷ ms) same all = elim (Bool-cases (gone m)) [
  | inl e ↦ rw (e) (without-value r r' v gone ms same all.1)
  | inr e ↦ rw (e) (same m e ∙ all.0, without-value r r' v gone ms same all.1)
]

update-other :
    (r : Registers) (dst : ℕ) (x : Option ℕ) (n : ℕ) → (n == dst) ≡ false → update r dst x n ≡ r n
unfolding update
update-other r dst x n e = rw (e)

update_self : (r : Registers) (dst : ℕ) (x : Option ℕ) → update r dst x dst ≡ x
unfolding update
update_self r dst x = ground arith

pub copy-value :
    (r : Registers) (v b dst src : ℕ) (ms : List ℕ)
    → r src ≡ some b
    → AllContain r v ms
    → AllContain (update r dst (some b)) v (copy dst src ms)
copy-value r v b dst src ms at all =
    let rest =
      without-value r (update r dst (some b)) v (λ m. m == dst) ms (update-other r dst (some b))
        all in
    elim (Bool-cases (member src ms)) [
      | inl e ↦ rw (e) (update_self r dst (some b) ∙ sym at ∙ member-value r v src ms e all, rest)
      | inr e ↦ rw (e) rest
    ]

pub after_call-other : (r : Registers) (r0 n : ℕ) → ltb n 6 ≡ false → after_call r r0 n ≡ r n
unfolding after_call
after_call-other r r0 n e = ground arith

module _ {k : Kernel} (ring : HasRing k) (before : List RingEvent) where
  -- A state is as the check says.
  abbrev pub Matches : k.World → Registers → Hold → Type 0
  Matches w r free = Paired before (ring.history w)
  Matches w r (asked ms) =
      (v : ℕ) × (events : List RingEvent) × Paired before events
      × AllContain r v ms
      × (v ≡ 0 → ring.history w ≡ events)
      × (v ≢ 0 → ring.history w ≡ reserved v ∷ events)
  Matches w r (holding ms) =
      (v : ℕ) × (events : List RingEvent) × Paired before events
      × AllContain r v ms
      × (ring.history w ≡ reserved v ∷ events)

  pub entails-Matches :
      (a b : Hold) (w : k.World) (r : Registers)
      → entails a b ≡ true
      → Matches w r a
      → Matches w r b
  entails-Matches free free w r h m = m
  entails-Matches free (asked _) w r h m = cc
  entails-Matches free (holding _) w r h m = cc
  entails-Matches (asked _) free w r h m = cc
  entails-Matches (asked ms) (asked ns) w r h (v, events, paired, all, null, new) =
      (v, events, paired, subset-value r v ns ms h all, null, new)
  entails-Matches (asked _) (holding _) w r h m = cc
  entails-Matches (holding _) free w r h m = cc
  entails-Matches (holding _) (asked _) w r h m = cc
  entails-Matches (holding ms) (holding ns) w r h (v, events, paired, all, new) =
      (v, events, paired, subset-value r v ns ms h all, new)

  -- A step that changes registers, and no record.
  pub on_registers-Matches :
      (f : List ℕ → List ℕ) (h : Hold) (w w' : k.World) (r r' : Registers)
      → ring.history w' ≡ ring.history w
      → ((v : ℕ) (ms : List ℕ) → AllContain r v ms → AllContain r' v (f ms))
      → Matches w r h
      → Matches w' r' (on_registers f h)
  on_registers-Matches f free w w' r r' same regs m = rw (same) m
  on_registers-Matches f (asked ms) w w' r r' same regs (v, events, paired, all, null, new) =
      (v, events, paired, regs v ms all, (λ z. same ∙ null z), λ ne. same ∙ new ne)
  on_registers-Matches f (holding ms) w w' r r' same regs (v, events, paired, all, new) =
      (v, events, paired, regs v ms all, same ∙ new)

  pub written-Matches :
      (h : Hold) (w : k.World) (r : Registers) (dst : ℕ) (x : Option ℕ)
      → Matches w r h
      → Matches w (update r dst x) (written dst h)
  written-Matches h w r dst x =
      on_registers-Matches (without (λ m. m == dst)) h w w r (update r dst x) refl
        λ v ms. without-value r (update r dst x) v (λ m. m == dst) ms (update-other r dst x)

  pub history-Matches :
      (h : Hold) (w w' : k.World) (r : Registers)
      → ring.history w' ≡ ring.history w
      → Matches w r h
      → Matches w' r h
  history-Matches free w w' r same m = rw (same) m
  history-Matches (asked ms) w w' r same (v, events, paired, all, null, new) =
      (v, events, paired, all, (λ z. same ∙ null z), λ ne. same ∙ new ne)
  history-Matches (holding ms) w w' r same (v, events, paired, all, new) =
      (v, events, paired, all, same ∙ new)
