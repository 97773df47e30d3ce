-- ===== src/Loader/Looping.antt =====
-- A run of examples/c/minimal.c or examples/c/hello.c that stays in its last loop: what it has done.
use hello_e_bpf.Prelude.{
  ◌≡◌, refl, sym, ap, ◌∙◌, inl, inr, Bool-cases, List, [], ◌∷◌, ◌++◌, ℤ, pos, neg, is_zero,
}
use hello_e_bpf.Outcome.{Outcome, done}
use hello_e_bpf.Outcome.Command.{Command}
use hello_e_bpf.Loader.Api.{Ptr, SkeletonApi, Lifecycle}
use hello_e_bpf.Loader.Program.{
  Event, loaded, attached, load_message, destroyed, LoaderEnd, returned, looping, Loader, cleanup,
  load_and_attach,
}
use hello_e_bpf.Loader.Runs.{
  eq_of_is_zero, Attempt, not_loaded, not_attached, running, Forever, load_and_attach-Does,
}

Attempt-looping :
    {p : Ptr} {after events : List Event} {end : LoaderEnd}
    → Attempt p after end events
    → end ≡ looping
    → events ≡ loaded p (pos 0) ∷ attached p (pos 0) ∷ after
Attempt-looping (not_loaded bad) e = cc
Attempt-looping (not_attached bad) e = cc
Attempt-looping running e = refl

-- A run has one end.
pub done-looping :
    {X : Type 0} (end : LoaderEnd) (a b : X)
    → ◌≡◌ {A = Outcome (LoaderEnd × X)} (done (end, a)) (done (looping, b))
    → (end ≡ looping) × (a ≡ b)
done-looping end a b e = (cc, cc)

pub returned-looping :
    {X : Type 0} (code : ℤ) (a b : X)
    → ◌≡◌ {A = Outcome (LoaderEnd × X)} (done (returned code, a)) (done (looping, b))
    → ⊥
returned-looping code a b e = cc

module _ {api : SkeletonApi} (lifecycle : Lifecycle api) where
  open api use {State}
  open lifecycle use {Owns}

  -- It has loaded the BPF program, and then attached it.
  pub load_and_attach-looping :
      (p : Ptr) {s : State} (l l' : Loader api) {after : List Event}
      {forever : Command (Loader api) LoaderEnd}
      → Forever lifecycle after forever
      → Owns p s l.state
      → load_and_attach api forever p l ≡ done (looping, l')
      → (t : State) × (api.load_bpf p l.state ≡ done (pos 0, t))
        × (l'.log ≡ l.log ++ (loaded p (pos 0) ∷ attached p (pos 0) ∷ after))
  unfolding load_and_attach cleanup
  load_and_attach-looping p {s} l l' {after} {forever} ever owns e =
      let d = load_and_attach-Does lifecycle p {s = s} l ever owns in
      let (ends, last) = done-looping d.end _ l' (sym d.runs ∙ e) in
      let (err, t, load, owns') = lifecycle.loads p s l.state owns in
      let logs : l.log ++ d.events ≡ l'.log = ap (λ m. m.log) last in
      elim (Bool-cases (is_zero err)) [
        | inl ok ↦ (
          t,
          rw (load) (ap (λ n. done (n, t)) (eq_of_is_zero err ok)),
          sym logs ∙ ap (λ events. l.log ++ events) (Attempt-looping d.does ends),
        )
        | inr bad ↦
            let (u, destroy, free) = lifecycle.destroys p s t owns' in
            let log = ((l.log ++ loaded p err ∷ []) ++ load_message ∷ []) ++ destroyed p ∷ [] in
            let returns : load_and_attach api forever p l
                ≡ done (returned (neg err), record { state = u; log = log }) =
              rw (load, load_and_attach, bad, destroy) refl in
            absurd (returned-looping (neg err) _ l' (sym returns ∙ e))
      ]
