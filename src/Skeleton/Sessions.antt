-- ===== src/Skeleton/Sessions.antt =====
-- Whole sessions with a skeleton: it is opened, used in any way, and destroyed.
use hello_e_bpf.Prelude.{
  All-map, All, ◌≡◌, ◌≢◌, refl, inl, inr, List, [], ◌∷◌, ◌==◌, ==_iff, Bool-cases, if◌then◌else◌,
  arith,
}
use hello_e_bpf.Outcome.{done}
use hello_e_bpf.Outcome.Command.{Command, pure, ◌>>=◌, ◌>>◌}
use hello_e_bpf.Skeleton.Memory.{Ptr, Machine}
use hello_e_bpf.Skeleton.Libbpf.{Libbpf, IsLibbpf}
use hello_e_bpf.Skeleton.Layout.{Layout}
use hello_e_bpf.Skeleton.Generated.{destroy}
use hello_e_bpf.Skeleton.Programs.{IsComplete}
use hello_e_bpf.Skeleton.Lifetime.{
  Owned, SameLive, load-Owned, attach-Owned, detach-Owned, destroy-Owned,
}
use hello_e_bpf.Skeleton.Layouts.{all_layouts}
use hello_e_bpf.Skeleton.Opening.{open_and_load-Opens}
use hello_e_bpf.Skeleton.Instances.{SkeletonCode, code_of, all_skeletons}
use hello_e_bpf.Skeleton.Api.{all_layouts-IsComplete, open_Opened}

pub data Use : Type 0 where
  loads attaches detaches : Use

pub data Opening : Type 0 where
  by_open by_open_and_load : Opening

module _ (lib : Libbpf) where
  -- The error codes are ignored: a user may go on after any of them.
  unfoldable pub use_one : SkeletonCode lib → Ptr → Use → Command (Machine lib.World) (Unit {0})
  use_one code obj loads = do code.loads obj; pure tt
  use_one code obj attaches = do code.attaches obj; pure tt
  use_one code obj detaches = code.detaches obj

  unfoldable pub use_all :
      SkeletonCode lib → Ptr → List Use → Command (Machine lib.World) (Unit {0})
  use_all code obj [] = pure tt
  use_all code obj (u ∷ uses) = do use_one code obj u; use_all code obj uses

  abbrev pub open_by : SkeletonCode lib → Opening → Command (Machine lib.World) Ptr
  open_by code by_open = code.opens
  open_by code by_open_and_load = code.opens_and_loads

  unfoldable pub session :
      SkeletonCode lib → Opening → List Use → Command (Machine lib.World) (Unit {0})
  session code opening uses = do
    obj ← open_by code opening
    use_all code obj (if obj == 0 then [] else uses)
    code.destroys obj

module _ {lib : Libbpf} (laws : IsLibbpf lib) (layout : Layout) where
  use_one-Owned :
      {obj : Ptr} {m : Machine lib.World} (u : Use) (t : Machine lib.World)
      → Owned obj m t
      → (t' : Machine lib.World) × (use_one lib (code_of lib layout) obj u t ≡ done (tt, t'))
        × Owned obj m t'
  unfolding use_one
  use_one-Owned loads t o = let (err, t', e, o') = load-Owned laws t o in (t', rw (e, use_one), o')
  use_one-Owned attaches t o =
      let (err, t', e, o') = attach-Owned laws t o in (t', rw (e, use_one), o')
  use_one-Owned detaches t o = detach-Owned laws t o

  destroy_null_lem : (t : Machine lib.World) → destroy lib 0 t ≡ done (tt, t)
  unfolding destroy
  destroy_null_lem t = refl

  use_all-Owned :
      {obj : Ptr} {m : Machine lib.World} (uses : List Use) (t : Machine lib.World)
      → Owned obj m t
      → (t' : Machine lib.World) × (use_all lib (code_of lib layout) obj uses t ≡ done (tt, t'))
        × Owned obj m t'
  unfolding use_all
  use_all-Owned [] t o = (t, refl, o)
  use_all-Owned (u ∷ uses) t o =
      let (t', e, o') = use_one-Owned u t o in
      let (t'', e', o'') = use_all-Owned uses t' o' in (t'', rw (e, use_all, e'), o'')

  open_by-Owned :
      IsComplete layout
      → (opening : Opening) (m : Machine lib.World)
      → (p : Ptr) × (t : Machine lib.World) × (open_by lib (code_of lib layout) opening m
          ≡ done (p, t))
        × (p ≡ 0 → SameLive m t)
        × (p ≢ 0 → Owned p m t)
  open_by-Owned complete by_open m =
      let (p, t, opened, null, owned) = open_Opened laws layout complete m in
      (p, t, opened, null, λ ne. (owned ne).owned)
  open_by-Owned complete by_open_and_load m = elim (open_and_load-Opens laws layout complete m) [
    | inl (t, failed, same, err) ↦ (0, t, failed, (λ z. same), λ ne. absurd (ne refl))
    | inr (obj, t, opened, o) ↦ (obj, t, opened, (λ z. absurd (o.obj_nonnull z)), λ ne. o)
  ]

  session-SameLive :
      IsComplete layout
      → (opening : Opening) (uses : List Use) (m : Machine lib.World)
      → (t : Machine lib.World) × (session lib (code_of lib layout) opening uses m ≡ done (tt, t))
        × SameLive m t
  unfolding session use_all
  session-SameLive complete opening uses m =
      let (p, t, opened, null, owned) = open_by-Owned complete opening m in
      elim (Bool-cases (p == 0)) [
        | inl failed ↦
            let z : p ≡ 0 = (==_iff p 0).0 failed in
            (t, rw (opened, session, z, destroy_null_lem), null z)
        | inr ok ↦
            let ne : p ≢ 0 = ground arith in
            let (t', used, o') = use_all-Owned uses t (owned ne) in
            let (u, destroyed, same) = destroy-Owned laws t' o' in
            (u, rw (opened, session, ok, used) destroyed, same)
      ]

abbrev pub KeepsLive : (lib : Libbpf) → SkeletonCode lib → Type 0
KeepsLive lib code =
    (opening : Opening) (uses : List Use) (m : Machine lib.World)
    → (t : Machine lib.World) × (session lib code opening uses m ≡ done (tt, t)) × SameLive m t

-- With any of the fourteen skeletons: open it, or open and load it, then load, attach and detach it
-- in any order and any number of times, and destroy it. The session ends without a fault, such as a
-- second free, and as much is allocated as before.
pub all_skeletons-KeepsLive :
    {lib : Libbpf} → IsLibbpf lib → All (KeepsLive lib) (all_skeletons lib)
all_skeletons-KeepsLive {lib} laws =
    All-map {P = IsComplete} {Q = λ layout. KeepsLive lib (code_of lib layout)} all_layouts
      (λ layout complete opening uses m. session-SameLive laws layout complete opening uses m)
      all_layouts-IsComplete
