-- ===== src/Skeleton/Api.antt =====
-- The skeletons as their users see them: each generated skeleton keeps the promises that the programs
-- of examples/c rely on.
use hello_e_bpf.Prelude.{All, All-map, ◌≡◌, ◌≢◌, refl, inl, inr, arith}
use hello_e_bpf.Outcome.{done}
use hello_e_bpf.Loader.Api.{SkeletonApi, Lifecycle}
use hello_e_bpf.Skeleton.Memory.{Ptr, Machine, live}
use hello_e_bpf.Skeleton.Libbpf.{Libbpf, IsLibbpf}
use hello_e_bpf.Skeleton.Layout.{Layout}
use hello_e_bpf.Skeleton.Generated.{open_bpf, open_opts}
use hello_e_bpf.Skeleton.Programs.{IsComplete}
use hello_e_bpf.Skeleton.Lifetime.{Owned, load-Owned, attach-Owned, destroy-Owned}
use hello_e_bpf.Skeleton.Opening.{Opened, Opens, open_opts-Opens}
use hello_e_bpf.Skeleton.Layouts.{all_layouts}
use hello_e_bpf.Skeleton.Instances.{SkeletonCode, code_of}

module _ {lib : Libbpf} where
  -- What a loader uses of a skeleton.
  abbrev pub api_of : SkeletonCode lib → SkeletonApi
  api_of code = record {
    State = Machine lib.World;
    open_bpf = code.opens;
    load_bpf = code.loads;
    attach_bpf = code.attaches;
    destroy_bpf = code.destroys;
  }

  module _ (laws : IsLibbpf lib) (layout : Layout) (complete : IsComplete layout) where
    pub open_Opened :
        (m : Machine lib.World)
        → (p : Ptr) × (t : Machine lib.World) × (open_bpf lib layout m ≡ done (p, t))
          × (p ≡ 0 → (a : Ptr) → live t a ≡ live m a)
          × (p ≢ 0 → Opened layout m p t)
    unfolding open_bpf
    open_Opened m = elim (open_opts-Opens laws layout complete m 0) [
      | inl (t, failed, same, err) ↦ (0, t, failed, (λ z. same), λ ne. absurd (ne refl))
      | inr (obj, t, opened, o) ↦ (obj, t, opened, (λ z. absurd (o.owned.obj_nonnull z)), λ ne. o)
    ]

    -- Every skeleton whose tables fit its counts keeps the promises of the interface.
    abbrev pub skeleton-Lifecycle : Lifecycle (api_of (code_of lib layout))
    skeleton-Lifecycle = record {
      live = live;
      Owns = Owned;
      Opened = λ p s t. Opened layout s p t;
      opens = open_Opened;
      opened_owned = λ p s t o. o.owned;
      loads = λ p s t o. load-Owned laws t o;
      attaches = λ p s t o. attach-Owned laws t o;
      destroys = λ p s t o. destroy-Owned laws t o;
    }

-- In each of the fourteen skeletons the tables have as many entries as their counts say.
pub all_layouts-IsComplete : All IsComplete all_layouts
all_layouts-IsComplete = omega arith

abbrev pub AlwaysOpens : {lib : Libbpf} → IsLibbpf lib → Layout → Type 0
AlwaysOpens {lib} laws layout =
    (m : Machine lib.World) (opts : Ptr)
    → Opens laws m (Opened layout m) (open_opts lib layout opts m)

-- Opening any of the fourteen skeletons in any state, whatever fails on the way: the result is NULL,
-- with an error in errno and as much allocated as before, or an open skeleton that owns new blocks
-- and whose sections, but .kconfig, are mapped.
pub all_layouts-Opens : {lib : Libbpf} (laws : IsLibbpf lib) → All (AlwaysOpens laws) all_layouts
all_layouts-Opens laws =
    All-map {P = IsComplete} {Q = AlwaysOpens laws} all_layouts
      (λ layout complete m opts. open_opts-Opens laws layout complete m opts) all_layouts-IsComplete
