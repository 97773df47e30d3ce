-- ===== src/Loader/Mains.antt =====
-- `main` of examples/c/hello.c and of examples/c/minimal.c: every run, its exit status and what it
-- leaves allocated.
use hello_e_bpf.Prelude.{
  ℕ, ◌≡◌, ◌≢◌, ap, ◌∙◌, inl, inr, Bool-cases, List, [], ◌∷◌, ◌++◌, append_assoc, arith, ◌==◌,
  ==_iff, ℤ, pos,
}
use hello_e_bpf.Outcome.{done}
use hello_e_bpf.Outcome.Command.{Command}
use hello_e_bpf.Loader.Api.{Ptr, SkeletonApi, Lifecycle}
use hello_e_bpf.Loader.Program.{
  Event, set_print, opened, stored_my_pid, open_message, start_message, stop_message, LoaderEnd,
  returned, Loader, hello_started, minimal_started, load_and_attach, hello_main, minimal_main,
}
use hello_e_bpf.Loader.Runs.{
  Attempt, Does, load_and_attach-Does, sleep_events, dot_events, hello_started-Forever,
  minimal_started-Forever,
}

-- A run of either program: `prepare p` is what is done with the open skeleton `p` before it is
-- loaded, and `after` what follows a success.
pub data Run (prepare : Ptr → List Event) (after : List Event)
    : LoaderEnd → List Event → Type 0 where
  not_opened : Run prepare after (returned (pos 1)) (set_print ∷ opened 0 ∷ open_message ∷ [])
  opens :
      {p : Ptr} {end : LoaderEnd} {events : List Event}
      → p ≢ 0
      → Attempt p after end events
      → Run prepare after end ((set_print ∷ opened p ∷ prepare p) ++ events)

abbrev pub nothing : Ptr → List Event
nothing p = []

module _ {api : SkeletonApi} (lifecycle : Lifecycle api) where
  open api use {State}
  open lifecycle use {live, Owns, Opened}

  -- What is common to both programs, from the call of open on.
  module _ (prepare : Ptr → List Event) (after : List Event) where
    -- `begun l` has made the calls `before`, and goes on as `rest` from the open skeleton `p`.
    Attempt-Run :
        (p : Ptr) (l : Loader api) (t : State) (run rest : Command (Loader api) LoaderEnd)
        → p ≢ 0
        → run l ≡ rest (record { state = t; log = l.log ++ (set_print ∷ opened p ∷ prepare p) })
        → Does lifecycle
            (Attempt p after)
            l.state
            (record { state = t; log = l.log ++ (set_print ∷ opened p ∷ prepare p) })
            rest
        → Does lifecycle (Run prepare after) l.state l run
    Attempt-Run p l t run rest ne begins d = record {
      end = d.end;
      state = d.state;
      events = (set_print ∷ opened p ∷ prepare p) ++ d.events;
      runs =
          begins
          ∙ d.runs
          ∙ ap (λ log. done (d.end, record { state = d.state; log = log }))
              (append_assoc l.log (set_print ∷ opened p ∷ prepare p) d.events);
      does = opens ne d.does;
      holds = d.holds;
    }

  -- Any run of hello.c, over any skeleton that keeps its promises: open, load and attach are tried
  -- in this order, each once and each only after the one before; the first failure is reported, the
  -- skeleton destroyed just if it had been opened, and the error returned, with nothing left
  -- allocated. Without a failure the program runs on.
  pub hello_main-Run :
      (rounds : ℕ) (l : Loader api)
      → Does lifecycle
          (Run nothing (start_message ∷ stop_message ∷ sleep_events rounds))
          l.state
          l
          (hello_main api rounds)
  unfolding hello_main
  hello_main-Run rounds l =
      let (p, t, open_, null, owned) = lifecycle.opens l.state in
      elim (Bool-cases (p == 0)) [
        | inl none ↦
            let z : p ≡ 0 = (==_iff p 0).0 none in
            record {
              end = returned (pos 1);
              state = t;
              events = set_print ∷ opened 0 ∷ open_message ∷ [];
              runs = rw (open_, hello_main, z) (simp append_assoc);
              does = not_opened;
              holds = null z;
            }
        | inr ok ↦
            let ne : p ≢ 0 = ground arith in
            let started = hello_started api rounds in
            Attempt-Run nothing _ p l t (hello_main api rounds) (load_and_attach api started p) ne
              (rw (open_, hello_main, ok) (simp append_assoc))
              (load_and_attach-Does lifecycle p _ (hello_started-Forever lifecycle rounds)
                (lifecycle.opened_owned p l.state t (owned ne)))
      ]

  -- The store of the process number: skel->bss is mapped once the skeleton is open, and the store
  -- touches nothing that is owned.
  abbrev pub StoresPid : (Ptr → ℤ → Command State (Unit {0})) → Type 0
  StoresPid store_my_pid =
      (p : Ptr) (pid : ℤ) (s t : State)
      → Opened p s t
      → (u : State) × (store_my_pid p pid t ≡ done (tt, u)) × Owns p s u

  -- Any run of minimal.c: as hello.c, but its process number is stored before the BPF program is
  -- loaded, and it prints a dot in each round.
  pub minimal_main-Run :
      (store_my_pid : Ptr → ℤ → Command State (Unit {0})) (pid : ℤ)
      → StoresPid store_my_pid
      → (rounds : ℕ) (l : Loader api)
      → Does lifecycle
          (Run (λ p. stored_my_pid p pid ∷ []) (start_message ∷ dot_events rounds))
          l.state
          l
          (minimal_main api store_my_pid pid rounds)
  unfolding minimal_main
  minimal_main-Run store_my_pid pid stores rounds l =
      let (p, t, open_, null, owned) = lifecycle.opens l.state in
      elim (Bool-cases (p == 0)) [
        | inl none ↦
            let z : p ≡ 0 = (==_iff p 0).0 none in
            record {
              end = returned (pos 1);
              state = t;
              events = set_print ∷ opened 0 ∷ open_message ∷ [];
              runs = rw (open_, minimal_main, z) (simp append_assoc);
              does = not_opened;
              holds = null z;
            }
        | inr ok ↦
            let ne : p ≢ 0 = ground arith in
            let (u, store, owned') = stores p pid l.state t (owned ne) in
            let started = minimal_started api rounds in
            Attempt-Run (λ p. stored_my_pid p pid ∷ []) _ p l u
              (minimal_main api store_my_pid pid rounds) (load_and_attach api started p) ne
              (rw (open_, minimal_main, ok, store) (simp append_assoc))
              (load_and_attach-Does lifecycle p _ (minimal_started-Forever lifecycle rounds) owned')
      ]
