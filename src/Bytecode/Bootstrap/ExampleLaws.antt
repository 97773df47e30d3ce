-- ===== src/Bytecode/Bootstrap/ExampleLaws.antt =====
-- The kernel of Example has the map, the clock and the ring buffer that bootstrap's programs rely on.
use hello_e_bpf.Prelude.{
  ℕ, ◌+◌, ◌-◌, ◌^◌, ◌≤◌, ◌<◌, ◌≡◌, ◌≢◌, ap, ◌∙◌, ◌⊎◌, refl, inl, inr, true, false, Option, none,
  some, ◌==◌, ltb, leb, Bool-cases, arith,
}
use hello_e_bpf.Bytecode.Cells.{write}
use hello_e_bpf.Bytecode.Bootstrap.Laws.{put, IsBootstrap}
use hello_e_bpf.Bytecode.Bootstrap.Reporting.{HasReports, IsReporting}
use hello_e_bpf.Bytecode.Bootstrap.Example.{
  World, given, or_zero, starts, load, store, erased, kernel-IsTracing, load-store, store-Writes,
}

pub put-starts :
    (key n : ℕ) (v : Option ℕ) (w : World)
    → ((ltb key (2 ^ 32) ≡ true) ⊎ (v ≡ none))
    → starts (record w { map = put key v w.map }) n ≡ put key v (starts w) n
put-starts key n v w h = ground arith

pub small_key : (w : World) (key v : ℕ) → starts w key ≡ some v → key < 2 ^ 32
small_key w key v h = ground arith

pub slot_is_something : (key : ℕ) → (10000 + key == 0) ≡ false
slot_is_something key = ground arith

pub load_slot : (w : World) (key v : ℕ) → starts w key ≡ some v → load 8 (10000 + key) w ≡ some v
load_slot w key v h =
    let same : 10000 + key - 10000 ≡ key = omega arith in
    let far : leb (10000 + key + 8) 5000 ≡ false = ground arith in
    let other : (10000 + key == 6000) ≡ false = ground arith in rw (far, other, same, h) refl

unfoldable pub kernel-IsBootstrap : IsBootstrap kernel-IsTracing 5000
unfolding kernel-IsTracing
kernel-IsBootstrap = record {
  starts = starts;
  times = λ w. w.times;
  failures = λ w. w.failures;
  min_duration_ns = 500;
  constant_there = λ w. refl;
  stores_keep = λ size a v w w' above below e.
      let here = (store-Writes size a v w w' e).1 in rw (← here) (refl, refl, refl);
  clock_is_word = λ r w. omega arith;
  clock_tells = λ r w. refl;
  clock_keeps = λ r w. (refl, refl, λ size a. refl);
  updates = λ r w a b key v at_r1 at_r2 at_r3 at_r4 key_there v_there.
      rw (at_r2, key_there, at_r3, v_there)
        (elim (Bool-cases (ltb key (2 ^ 32))) [
          | inl e ↦ rw (e) (refl, inl ((λ i n. put-starts key n (some v) w (inl e) i), refl))
          | inr e ↦ rw (e) (refl, inr (refl, refl))
        ]);
  finds_none = λ r w a key at_r1 at_r2 key_there absent. rw (at_r2, key_there, absent) refl;
  finds = λ r w a key v at_r1 at_r2 key_there there. (
    10000 + key,
    rw (at_r2, key_there, there) refl,
    slot_is_something key,
    omega (arith, small_key w key v there),
    load_slot w key v there,
  );
  deletes = λ r w a key at_r1 at_r2 key_there.
      rw (at_r2, key_there) ((λ i n. put-starts key n none w (inr refl) i), refl, refl);
}

pub load-some : (n a : ℕ) (w : World) → (v : ℕ) × (load n a w ≡ some v)
load-some n a w = elim (Bool-cases (leb (a + n) 5000)) [
  | inl e ↦ rw (e) (_, refl)
  | inr e ↦
      rw (e)
        (elim (Bool-cases (a == 6000)) [ inl e' ↦ rw (e') (_, refl) | inr e' ↦ rw (e') (_, refl) ])
]

pub record_stored :
    (size offset v : ℕ) (w : World) (e n : ℕ)
    → (e ≡ 1000) × (n ≤ 168)
    → offset + size ≤ n
    → store size (e + offset) v w ≡ some (record w { cells = write size (e + offset) v w.cells })
record_stored size offset v w e n h fits = ground arith

unfoldable pub kernel-HasReports : HasReports kernel-IsBootstrap
unfolding kernel-IsTracing kernel-IsBootstrap
kernel-HasReports = record {
  reports = λ w. w.reports;
  stack_silent = λ size a v w w' above below e.
      let here = (store-Writes size a v w w' e).1 in rw (← here) refl;
}

pub given-fails : (n : ℕ) (w : World) → leb n 168 ≡ true → (given n w).0 ≢ 0
given-fails n w e = rw (e) (omega arith)

pub refused : (n : ℕ) (w : World) → leb n 168 ≡ false → ¬ ((given n w).0 ≢ 0)
refused n w e = rw (e) (λ ne. ne refl)

pub small_record : (n : ℕ) → leb n 168 ≡ true → n ≤ 168
small_record n e = ground arith

pub fits_below : (n : ℕ) → leb n 168 ≡ true → 1000 + n ≤ 2 ^ 64
fits_below n e = omega (arith, small_record n e)

pub below_stack : (n : ℕ) → leb n 168 ≡ true → 1000 + n ≤ 4488
below_stack n e = omega (arith, small_record n e)

unfoldable pub kernel-IsReporting : IsReporting kernel-HasReports
unfolding kernel-IsTracing kernel-IsBootstrap kernel-HasReports
kernel-IsReporting = record {
  Reserved = λ w e n. (e ≡ 1000) × (n ≤ 168);
  clock_silent = λ r w. refl;
  deletes_silent = λ r w. (refl, refl);
  reserve_keeps = λ r w. elim (Bool-cases (leb (or_zero (r 2)) 168)) [
    | inl e ↦ rw (e) refl
    | inr e ↦ rw (e) refl
  ];
  reserve_fails = λ r w fails. elim (Bool-cases (leb (or_zero (r 2)) 168)) [
    | inl e ↦ absurd (given-fails (or_zero (r 2)) w e fails)
    | inr e ↦ rw (e) refl
  ];
  reserves = λ r w n at_r1 at_r2 at_r3 ne. elim (Bool-cases (leb n 168)) [
    | inl e ↦ rw (at_r2, e) (refl, (refl, small_record n e), fits_below n e, inl (below_stack n e))
    | inr e ↦ absurd (refused (or_zero (r 2)) w (ap (λ o. leb (or_zero o) 168) at_r2 ∙ e) ne)
  ];
  record_stores =
      λ size offset v w e n h fits. (_, record_stored size offset v w e n h fits, refl, h);
  task_keeps = λ r w. refl;
  probes = λ r w a n at_r1 at_r2 above below.
      let (v, there) = load-some n a (erased n a w) in
      rw (at_r1, at_r2) (v, there, refl, (λ e n h. h), λ m c apart. load-store n a 0 w m c apart);
  names = λ r w e n offset size at_r1 at_r2 h fits.
      rw (at_r1, at_r2) (refl, h, λ m c apart. load-store size (e + offset) 0 w m c apart);
  submits = λ r w e pid duration exit_event at_r1 at_r2 h pid_there duration_there exit_there.
      rw (at_r1, pid_there, duration_there, exit_there) refl;
}
