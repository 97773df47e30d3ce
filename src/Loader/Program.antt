-- ===== src/Loader/Program.antt =====
-- examples/c/minimal.c and examples/c/hello.c: `main` of each. The last loop has no exit: a run that
-- reaches it is followed for a number of rounds and stays `looping`.
use hello_e_bpf.Prelude.{
  ℕ, zero, suc, not, List, [], ◌∷◌, ◌++◌, ◌==◌, if◌then◌else◌, ℤ, pos, neg, is_zero,
}
use hello_e_bpf.Outcome.{and_then, done}
use hello_e_bpf.Outcome.Command.{Command, pure, ◌>>=◌, ◌>>◌}
use hello_e_bpf.Loader.Api.{Ptr, SkeletonApi}

-- Calls and messages, in the order in which they are made.
pub data Event : Type 0 where
  set_print : Event
  opened : Ptr → Event
  stored_my_pid : Ptr → ℤ → Event
  loaded : Ptr → ℤ → Event
  attached : Ptr → ℤ → Event
  destroyed : Ptr → Event
  open_message : Event  -- "Failed to open BPF skeleton\n"
  load_message : Event  -- "Failed to load and verify BPF skeleton\n"
  attach_message : Event  -- "Failed to attach BPF skeleton\n"
  start_message : Event  -- "Successfully started! ...", or "Hello eBPF started! ..."
  stop_message : Event  -- "Press Ctrl+C to stop.\n"
  dot : Event  -- "."
  slept : Event

pub data LoaderEnd : Type 0 where
  returned : ℤ → LoaderEnd
  looping : LoaderEnd

module _ (api : SkeletonApi) where
  open api use {State}

  pub record Loader : Type 0 where
    pub state : State
    pub log : List Event

  abbrev pub emit : Event → Command Loader (Unit {0})
  emit e l = pure tt (record l { log = l.log ++ e ∷ [] })

  -- A call of the skeleton.
  abbrev pub call : {A : Type 0} → Command State A → (A → Event) → Command Loader A
  call f event l =
      and_then (f l.state) λ (a, s). done (a, record { state = s; log = l.log ++ event a ∷ [] })

  -- cleanup:
  unfoldable pub cleanup : Ptr → (err : ℤ) → Command Loader LoaderEnd
  cleanup skel err = do call (api.destroy_bpf skel) (λ _. destroyed skel); pure (returned (neg err))

  -- for (;;) of minimal.c, `rounds` times
  unfoldable pub dots : ℕ → Command Loader LoaderEnd
  dots zero = pure looping
  dots (suc rounds) = do emit dot; emit slept; dots rounds

  -- for (;;) of hello.c
  unfoldable pub sleeps : ℕ → Command Loader LoaderEnd
  sleeps zero = pure looping
  sleeps (suc rounds) = do emit slept; sleeps rounds

  -- What each program does when the BPF program is attached.
  unfoldable pub minimal_started : ℕ → Command Loader LoaderEnd
  unfolding dots
  minimal_started rounds = do emit start_message; dots rounds

  unfoldable pub hello_started : ℕ → Command Loader LoaderEnd
  unfolding sleeps
  hello_started rounds = do emit start_message; emit stop_message; sleeps rounds

  -- From the call of load on; `forever` is what follows it if all goes well.
  unfoldable pub load_and_attach : Command Loader LoaderEnd → Ptr → Command Loader LoaderEnd
  unfolding cleanup
  load_and_attach forever skel = do
    err ← call (api.load_bpf skel) (loaded skel)
    if not (is_zero err) then (do emit load_message; cleanup skel err) else do
      err ← call (api.attach_bpf skel) (attached skel)
      if not (is_zero err) then (do emit attach_message; cleanup skel err) else forever

  -- hello.c
  unfoldable pub hello_main : ℕ → Command Loader LoaderEnd
  unfolding load_and_attach hello_started
  hello_main rounds = do
    emit set_print
    skel ← call api.open_bpf opened
    if skel == 0
        then (do emit open_message; pure (returned (pos 1)))
        else load_and_attach (hello_started rounds) skel

  -- minimal.c, where getpid() returns `pid` and `store_my_pid` is the store of skel->bss->my_pid.
  unfoldable pub minimal_main :
      (store_my_pid : Ptr → ℤ → Command State (Unit {0})) → (pid : ℤ) → ℕ → Command Loader LoaderEnd
  unfolding load_and_attach minimal_started
  minimal_main store_my_pid pid rounds = do
    emit set_print
    skel ← call api.open_bpf opened
    if skel == 0 then (do emit open_message; pure (returned (pos 1))) else do
      call (store_my_pid skel pid) (λ _. stored_my_pid skel pid)
      load_and_attach (minimal_started rounds) skel
