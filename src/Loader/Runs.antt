-- ===== src/Loader/Runs.antt =====
-- How a run of examples/c/minimal.c or examples/c/hello.c goes, over any skeleton that keeps its
-- promises about memory.
use hello_e_bpf.Prelude.{
  ℕ, zero, suc, ◌≡◌, refl, inl, inr, Bool-cases, true, false, List, [], ◌∷◌, ◌++◌, append_assoc,
  append-nil, ℤ, pos, negsuc, neg, is_zero,
}
use hello_e_bpf.Outcome.{done}
use hello_e_bpf.Outcome.Command.{Command}
use hello_e_bpf.Loader.Api.{Ptr, SkeletonApi, Lifecycle}
use hello_e_bpf.Loader.Program.{
  Event, loaded, attached, destroyed, load_message, attach_message, start_message, stop_message,
  dot, slept, LoaderEnd, returned, looping, Loader, dots, sleeps, hello_started, minimal_started,
  cleanup, load_and_attach,
}

-- From the open skeleton `p` on: what is done, and how it ends; `after` follows a success.
pub data Attempt (p : Ptr) (after : List Event) : LoaderEnd → List Event → Type 0 where
  not_loaded :
      {err : ℤ}
      → is_zero err ≡ false
      → Attempt p after (returned (neg err)) (loaded p err ∷ load_message ∷ destroyed p ∷ [])
  not_attached :
      {err : ℤ}
      → is_zero err ≡ false
      → Attempt p after
          (returned (neg err))
          (loaded p (pos 0) ∷ attached p err ∷ attach_message ∷ destroyed p ∷ [])
  running : Attempt p after looping (loaded p (pos 0) ∷ attached p (pos 0) ∷ after)

-- hello.c: what is printed at the start and in `rounds` rounds of the last loop.
abbrev pub sleep_events : ℕ → List Event
sleep_events zero = []
sleep_events (suc rounds) = slept ∷ sleep_events rounds

-- minimal.c: one "." in each round
abbrev pub dot_events : ℕ → List Event
dot_events zero = []
dot_events (suc rounds) = dot ∷ slept ∷ dot_events rounds

pub eq_of_is_zero : (a : ℤ) → is_zero a ≡ true → a ≡ pos 0
eq_of_is_zero (pos zero) h = refl
eq_of_is_zero (pos (suc n)) h = cc
eq_of_is_zero (negsuc n) h = cc

module _ {api : SkeletonApi} (lifecycle : Lifecycle api) where
  open api use {State}
  open lifecycle use {live, Owns}

  -- What is held at the end: nothing new if the program returns, one skeleton while it runs on.
  abbrev pub Holds : State → LoaderEnd → State → Type 0
  Holds s (returned _) t = (a : Ptr) → live t a ≡ live s a
  Holds s looping t = (p : Ptr) × Owns p s t

  -- A piece of the program, begun at `l` where `s` was held: it ends, and has added `events`.
  pub record Does (P : LoaderEnd → List Event → Type 0) (s : State) (l : Loader api)
      (run : Command (Loader api) LoaderEnd) : Type 0 where
    pub end : LoaderEnd
    pub state : State
    pub events : List Event
    pub runs : run l ≡ done (end, record { state = state; log = l.log ++ events })
    pub does : P end events
    pub holds : Holds s end state

  -- A last part that prints `after` and goes on for ever.
  abbrev pub Forever : List Event → Command (Loader api) LoaderEnd → Type 0
  Forever after forever =
      (l : Loader api) → forever l ≡ done (looping, record l { log = l.log ++ after })

  pub load_and_attach-Does :
      (p : Ptr) {s : State} (l : Loader api) {after : List Event}
      {forever : Command (Loader api) LoaderEnd}
      → Forever after forever
      → Owns p s l.state
      → Does (Attempt p after) s l (load_and_attach api forever p)
  unfolding load_and_attach cleanup
  load_and_attach-Does p {s} l {after} {forever} ever owns =
      let (err, t, load, owns₁) = lifecycle.loads p s l.state owns in
      elim (Bool-cases (is_zero err)) [
        | inr bad ↦
            let (u, destroy, free) = lifecycle.destroys p s t owns₁ in
            record {
              end = returned (neg err);
              state = u;
              events = loaded p err ∷ load_message ∷ destroyed p ∷ [];
              runs = rw (load, load_and_attach, bad, destroy) (simp append_assoc);
              does = not_loaded bad;
              holds = free;
            }
        | inl ok ↦
            let (err', t', attach, owns₂) = lifecycle.attaches p s t owns₁ in
            elim (Bool-cases (is_zero err')) [
              | inr bad ↦
                  let (u, destroy, free) = lifecycle.destroys p s t' owns₂ in
                  record {
                    end = returned (neg err');
                    state = u;
                    events = loaded p (pos 0) ∷ attached p err' ∷ attach_message ∷ destroyed p ∷ [];
                    runs =
                        rw (load, load_and_attach, eq_of_is_zero err ok, attach, bad, destroy)
                          (simp append_assoc);
                    does = not_attached bad;
                    holds = free;
                  }
              | inl fine ↦ record {
                end = looping;
                state = t';
                events = loaded p (pos 0) ∷ attached p (pos 0) ∷ after;
                runs =
                    rw
                      (
                        load,
                        load_and_attach,
                        eq_of_is_zero err ok,
                        attach,
                        eq_of_is_zero err' fine,
                        ever,
                      )
                      (simp append_assoc);
                does = running;
                holds = (p, owns₂);
              }
            ]
      ]

  sleeps-Forever : (rounds : ℕ) → Forever (sleep_events rounds) (sleeps api rounds)
  unfolding sleeps
  sleeps-Forever zero l = simp append-nil
  sleeps-Forever (suc rounds) l = rw (sleeps-Forever rounds) (simp append_assoc)

  dots-Forever : (rounds : ℕ) → Forever (dot_events rounds) (dots api rounds)
  unfolding dots
  dots-Forever zero l = simp append-nil
  dots-Forever (suc rounds) l = rw (dots-Forever rounds) (simp append_assoc)

  pub hello_started-Forever :
      (rounds : ℕ)
      → Forever (start_message ∷ stop_message ∷ sleep_events rounds) (hello_started api rounds)
  unfolding hello_started
  hello_started-Forever rounds l = rw (sleeps-Forever rounds, hello_started) (simp append_assoc)

  pub minimal_started-Forever :
      (rounds : ℕ) → Forever (start_message ∷ dot_events rounds) (minimal_started api rounds)
  unfolding minimal_started
  minimal_started-Forever rounds l = rw (dots-Forever rounds, minimal_started) (simp append_assoc)
