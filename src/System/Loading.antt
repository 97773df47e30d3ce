-- ===== src/System/Loading.antt =====
-- The state from which a run of examples/c/minimal.c that stays in its last loop has loaded its BPF
-- program.
use hello_e_bpf.Prelude.{
  ℕ, ◌≡◌, ◌≢◌, refl, sym, ◌∙◌, inl, inr, Bool-cases, some, List, [], ◌∷◌, ◌++◌, ◌==◌, ==_iff,
  append_assoc, arith, ℤ, pos,
}
use hello_e_bpf.Outcome.{done}
use hello_e_bpf.Loader.Api.{Ptr}
use hello_e_bpf.Loader.Program.{
  Event, set_print, opened, stored_my_pid, loaded, attached, start_message, open_message, returned,
  looping, Loader, minimal_started, load_and_attach, minimal_main,
}
use hello_e_bpf.Loader.Runs.{dot_events, minimal_started-Forever}
use hello_e_bpf.Loader.Looping.{returned-looping, load_and_attach-looping}
use hello_e_bpf.Skeleton.Memory.{Machine}
use hello_e_bpf.Skeleton.Libbpf.{Libbpf, IsLibbpf}
use hello_e_bpf.Skeleton.Generated.{load}
use hello_e_bpf.Skeleton.Layouts.{minimal_layout}
use hello_e_bpf.Skeleton.Instances.{minimal_bpf}
use hello_e_bpf.Skeleton.Api.{api_of, skeleton-Lifecycle, open_Opened}
use hello_e_bpf.Skeleton.MinimalProgram.{
  store_my_pid, my_pid_of, minimal-IsComplete, store_my_pid_lem,
}

abbrev pub begin_events : Ptr → ℤ → List Event
begin_events skel pid = set_print ∷ opened skel ∷ stored_my_pid skel pid ∷ []

abbrev pub loop_events : Ptr → ℕ → List Event
loop_events skel rounds =
    loaded skel (pos 0) ∷ attached skel (pos 0) ∷ start_message ∷ dot_events rounds

-- The run from `l` to `l'` opens `skel`, stores `pid`, and goes on from the state `before`, from which
-- it loads the program; it attaches it and prints a dot in each round.
pub record Loads (lib : Libbpf) (pid : ℤ) (rounds : ℕ) (l l' : Loader (api_of (minimal_bpf lib)))
    : Type 0 where
  pub skel : Ptr
  pub before : Machine lib.World
  pub after : Machine lib.World
  pub begins :
      minimal_main (api_of (minimal_bpf lib)) store_my_pid pid rounds l
      ≡ load_and_attach
          (api_of (minimal_bpf lib))
          (minimal_started (api_of (minimal_bpf lib)) rounds)
          skel
          (record { state = before; log = l.log ++ begin_events skel pid })
  pub stored : my_pid_of skel before ≡ some pid
  pub loads : load lib skel before ≡ done (pos 0, after)
  pub log_is : l'.log ≡ (l.log ++ begin_events skel pid) ++ loop_events skel rounds

module _ {lib : Libbpf} (laws : IsLibbpf lib) where
  abbrev L : Type 0
  L = Loader (api_of (minimal_bpf lib))

  pub minimal_main-Loads :
      (pid : ℤ) (rounds : ℕ) (l l' : L)
      → minimal_main (api_of (minimal_bpf lib)) store_my_pid pid rounds l ≡ done (looping, l')
      → Loads lib pid rounds l l'
  unfolding minimal_main
  minimal_main-Loads pid rounds l l' e =
      let (p, t, open_, null, owned) = open_Opened laws minimal_layout minimal-IsComplete l.state in
      elim (Bool-cases (p == 0)) [
        | inl none ↦
            let z : p ≡ 0 = (==_iff p 0).0 none in
            let log = ((l.log ++ set_print ∷ []) ++ opened 0 ∷ []) ++ open_message ∷ [] in
            let returns : minimal_main (api_of (minimal_bpf lib)) store_my_pid pid rounds l
                ≡ done (returned (pos 1), record { state = t; log = log }) =
              rw (open_, minimal_main, z) refl in
            absurd (returned-looping (pos 1) _ l' (sym returns ∙ e))
        | inr ok ↦
            let ne : p ≢ 0 = ground arith in
            let (u, store, owned', stored) = store_my_pid_lem laws p pid l.state t (owned ne) in
            let m : L = record { state = u; log = l.log ++ begin_events p pid } in
            let begins : minimal_main (api_of (minimal_bpf lib)) store_my_pid pid rounds l
                ≡ load_and_attach (api_of (minimal_bpf lib))
                    (minimal_started (api_of (minimal_bpf lib)) rounds) p m =
              rw (open_, minimal_main, ok, store) (simp append_assoc) in
            let lifecycle = skeleton-Lifecycle laws minimal_layout minimal-IsComplete in
            let (after, loads, log_is) =
              load_and_attach-looping lifecycle p {s = l.state} m l'
                (minimal_started-Forever lifecycle rounds) owned' (sym begins ∙ e) in
            record {
              skel = p;
              before = u;
              after = after;
              begins = begins;
              stored = stored;
              loads = loads;
              log_is = log_is;
            }
      ]
