-- ===== src/Loader/Api.antt =====
-- A BPF skeleton as its user sees it: `<name>_bpf__open`, `__load`, `__attach` and `__destroy`, over
-- a state that holds what they own. hello.skel.h is not in the repository: for hello.c this is a
-- parameter. For minimal.c, Skeleton implements it.
use hello_e_bpf.Prelude.{ℕ, ◌≡◌, ◌≢◌, Bool, ℤ}
use hello_e_bpf.Outcome.{done}
use hello_e_bpf.Outcome.Command.{Command}

-- 0 is NULL.
abbrev pub Ptr : Type 0
Ptr = ℕ

pub record SkeletonApi : Type 1 where
  pub State : Type 0
  pub open_bpf : Command State Ptr
  pub load_bpf : Ptr → Command State ℤ
  pub attach_bpf : Ptr → Command State ℤ
  pub destroy_bpf : Ptr → Command State (Unit {0})

-- What a skeleton promises about memory: `live s a` tells whether the address `a` is allocated.
-- `Owns p s t` says that `t` holds what `s` holds and besides it the open skeleton `p`;
-- `Opened p s t`, that this has just been opened.
pub record Lifecycle (api : SkeletonApi) : Type 1 where
  pub live : api.State → Ptr → Bool
  pub Owns : Ptr → api.State → api.State → Type 0
  pub Opened : Ptr → api.State → api.State → Type 0
  -- open ends, with NULL and nothing allocated, or with a skeleton that is owned.
  pub opens :
      (s : api.State)
      → (p : Ptr) × (t : api.State) × (api.open_bpf s ≡ done (p, t))
        × (p ≡ 0 → (a : Ptr) → live t a ≡ live s a)
        × (p ≢ 0 → Opened p s t)
  pub opened_owned : (p : Ptr) (s t : api.State) → Opened p s t → Owns p s t
  pub loads :
      (p : Ptr) (s t : api.State)
      → Owns p s t
      → (err : ℤ) × (u : api.State) × (api.load_bpf p t ≡ done (err, u)) × Owns p s u
  pub attaches :
      (p : Ptr) (s t : api.State)
      → Owns p s t
      → (err : ℤ) × (u : api.State) × (api.attach_bpf p t ≡ done (err, u)) × Owns p s u
  -- destroy gives back all that the skeleton owned.
  pub destroys :
      (p : Ptr) (s t : api.State)
      → Owns p s t
      → (u : api.State) × (api.destroy_bpf p t ≡ done (tt, u)) × ((a : Ptr) → live u a ≡ live s a)
