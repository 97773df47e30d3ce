-- ===== src/Skeleton/Tests.antt =====
-- The theorems on the skeletons and on their users, over a small libbpf.
use hello_e_bpf.Prelude.{
  All, ◌≡◌, refl, Bool, true, false, Option, none, some, List, [], ◌∷◌, ◌==◌, if◌then◌else◌, arith,
  pos,
}
use hello_e_bpf.Outcome.{Outcome, done}
use hello_e_bpf.Outcome.Command.{Command}
use hello_e_bpf.Loader.Program.{
  Event, start_message, stop_message, slept, dot, stored_my_pid, LoaderEnd, returned, Loader,
  cleanup, load_and_attach, hello_main, minimal_main,
}
use hello_e_bpf.Loader.Runs.{Does}
use hello_e_bpf.Loader.Mains.{Run, nothing, hello_main-Run}
use hello_e_bpf.Skeleton.Programs.{Creates}
use hello_e_bpf.Skeleton.Generated.{
  empty_skeleton, calloc, create_progs, create_maps, create_skeleton, open_opts, open_bpf, load,
  open_and_load, destroy,
}
use hello_e_bpf.Skeleton.Creation.{create_skeleton-Creates}
use hello_e_bpf.Skeleton.Lifetime.{Owned, SameLive, destroy-Owned}
use hello_e_bpf.Skeleton.MinimalProgram.{minimal-IsComplete, store_my_pid, minimal_program-Run}
use hello_e_bpf.Skeleton.Opening.{Opens, open_and_load-Opens}
use hello_e_bpf.Skeleton.Instances.{code_of, all_skeletons}
use hello_e_bpf.Skeleton.Api.{api_of, skeleton-Lifecycle, AlwaysOpens, all_layouts-Opens}
use hello_e_bpf.Skeleton.Sessions.{KeepsLive, all_skeletons-KeepsLive}
use hello_e_bpf.Skeleton.Memory.{
  Ptr, bpf, object_skeleton, map_skeletons, prog_skeletons, write, store, skeleton_of, set_skeleton,
  free, Machine, ObjectSkeleton,
}
use hello_e_bpf.Skeleton.Layout.{fill_maps, fill_progs}
use hello_e_bpf.Skeleton.Layouts.{minimal_layout, all_layouts}
use hello_e_bpf.Skeleton.Small.{SmallWorld, small, small-IsLibbpf}

abbrev empty_machine : Machine SmallWorld
empty_machine = record {
  world = record { last = 0 };
  heap = λ _. none;
  mapped = λ _. none;
  errno = pos 0;
}

abbrev started : (takes : Bool) → Loader (api_of (code_of (small takes) minimal_layout))
started takes = record { state = empty_machine; log = [] }

abbrev LoaderRun :
    (takes : Bool)
    → (Ptr → List Event)
    → List Event
    → (Command (Loader (api_of (code_of (small takes) minimal_layout))) LoaderEnd)
    → Type 0
LoaderRun takes prepare after run =
    Does (skeleton-Lifecycle (small-IsLibbpf takes) minimal_layout minimal-IsComplete)
      (Run prepare after) empty_machine (started takes) run

hello_main-Run_example :
    LoaderRun true nothing
      (start_message ∷ stop_message ∷ slept ∷ slept ∷ [])
      (hello_main (api_of (code_of (small true) minimal_layout)) 2)
hello_main-Run_example =
    hello_main-Run (skeleton-Lifecycle (small-IsLibbpf true) minimal_layout minimal-IsComplete) 2
      (started true)

minimal_program-Run_example :
    LoaderRun true
      (λ p. stored_my_pid p (pos 9) ∷ [])
      (start_message ∷ dot ∷ slept ∷ dot ∷ slept ∷ [])
      (minimal_main (api_of (code_of (small true) minimal_layout)) store_my_pid (pos 9) 2)
minimal_program-Run_example = minimal_program-Run (small-IsLibbpf true) (pos 9) 2 (started true)

all_layouts-Opens_example : All (AlwaysOpens (small-IsLibbpf true)) all_layouts
all_layouts-Opens_example = all_layouts-Opens (small-IsLibbpf true)

all_skeletons-KeepsLive_example : All (KeepsLive (small true)) (all_skeletons (small true))
all_skeletons-KeepsLive_example = all_skeletons-KeepsLive (small-IsLibbpf true)

open_and_load-Opens_example :
    Opens
      (small-IsLibbpf false)
      empty_machine
      (λ obj t. Owned obj empty_machine t)
      (open_and_load (small false) minimal_layout empty_machine)
open_and_load-Opens_example =
    open_and_load-Opens (small-IsLibbpf false) minimal_layout minimal-IsComplete empty_machine

-- The struct at the address 7, as open_opts has made it.
abbrev with_seven : Machine SmallWorld
with_seven = record empty_machine { heap = write (λ _. none) 7 (some (bpf 0 λ _. 0)) }

create_skeleton-Creates_example :
    Creates
      (small-IsLibbpf true)
      minimal_layout
      minimal-IsComplete
      7
      (λ _. 0)
      with_seven
      (create_skeleton (small true) minimal_layout 7 with_seven)
unfolding write
create_skeleton-Creates_example =
    create_skeleton-Creates (small-IsLibbpf true) minimal_layout minimal-IsComplete with_seven refl

abbrev end_of : {State : Type 0} → Outcome (LoaderEnd × State) → Option LoaderEnd
end_of (done (end, _)) = some end
end_of _ = none

-- The kernel refuses the program: -22 comes back as the status 22.
hello_refused :
    end_of (hello_main (api_of (code_of (small false) minimal_layout)) 2 (started false))
    ≡ some (returned (pos 22))
unfolding hello_main load_and_attach cleanup open_bpf open_opts calloc create_skeleton create_maps
    create_progs store skeleton_of set_skeleton load destroy free write fill_maps fill_progs
hello_refused = refl

minimal_refused :
    end_of (
      minimal_main
        (api_of (code_of (small false) minimal_layout))
        store_my_pid
        (pos 9)
        2
        (started false))
    ≡ some (returned (pos 22))
unfolding minimal_main store_my_pid load_and_attach cleanup open_bpf open_opts calloc
    create_skeleton create_maps create_progs store skeleton_of set_skeleton load destroy free write
    fill_maps fill_progs
minimal_refused = refl

-- The skeleton at 5, for a struct at 7, with its arrays at 3 and 4.
abbrev five : ObjectSkeleton
five = record (empty_skeleton (small true)) { map_array = 3; prog_array = 4 }

abbrev opened_at_seven : Machine SmallWorld
opened_at_seven = record empty_machine {
  mapped = λ a. if a == 1 then some (λ _. pos 0) else none;
  heap = λ a.
      if a == 7
      then some (bpf 5 λ _. 1)
      else if a == 5
      then some (object_skeleton five)
      else if a == 3
      then some (map_skeletons [])
      else if a == 4
      then some (prog_skeletons [])
      else none;
}

seven-Owned : Owned 7 empty_machine opened_at_seven
seven-Owned = record {
  skeleton = 5;
  sk = five;
  obj_nonnull = omega arith;
  skeleton_nonnull = omega arith;
  at_obj = refl;
  at_skeleton = refl;
  apart = refl;
  new_obj = refl;
  new_parts = λ a part. refl;
  rest = λ a. ground arith;
}

destroy-Owned_example :
    (u : Machine SmallWorld) × (destroy (small true) 7 opened_at_seven ≡ done (tt, u))
    × SameLive empty_machine u
destroy-Owned_example = destroy-Owned (small-IsLibbpf true) opened_at_seven seven-Owned
