-- ===== src/Skeleton/Steps.antt =====
-- The single steps of a generated skeleton: what each call and each store does to the heap.
use hello_e_bpf.Prelude.{
  ◌≡◌, ◌≢◌, refl, sym, ap, ◌∙◌, ◌⊎◌, inl, inr, Bool-cases, true, Option, none, some, ◌==◌, arith,
}
use hello_e_bpf.Outcome.{done}
use hello_e_bpf.Skeleton.Memory.{
  Ptr, Slot, Block, bpf, object_skeleton, map_skeletons, prog_skeletons, write, Machine, is_live,
  live, ObjectSkeleton, store, free, skeleton_of, set_skeleton,
}
use hello_e_bpf.Skeleton.Libbpf.{Libbpf, IsLibbpf, shape}
use hello_e_bpf.Skeleton.Generated.{calloc}

pub is_live-shape : (b : Option Block) → is_live (shape b) ≡ is_live b
is_live-shape none = refl
is_live-shape (some (bpf _ _)) = refl
is_live-shape (some (object_skeleton _)) = refl
is_live-shape (some (map_skeletons _)) = refl
is_live-shape (some (prog_skeletons _)) = refl

abbrev skeleton_or_zero : Option Block → Ptr
skeleton_or_zero (some (bpf s _)) = s
skeleton_or_zero _ = 0

pub bpf_of_shape :
    (b : Option Block) {skeleton : Ptr}
    → shape b ≡ some (bpf skeleton λ _. 0)
    → (slots : Slot → Ptr) × (b ≡ some (bpf skeleton slots))
bpf_of_shape none e = cc
bpf_of_shape (some (bpf s slots)) e = (slots, ap (λ s. some (bpf s slots)) (ap skeleton_or_zero e))
bpf_of_shape (some (object_skeleton _)) e = cc
bpf_of_shape (some (map_skeletons _)) e = cc
bpf_of_shape (some (prog_skeletons _)) e = cc

pub object_of_shape :
    (b : Option Block) {sk : ObjectSkeleton}
    → shape b ≡ some (object_skeleton sk)
    → b ≡ some (object_skeleton sk)
object_of_shape none e = cc
object_of_shape (some (bpf s slots)) e = cc
object_of_shape (some (object_skeleton _)) e = e
object_of_shape (some (map_skeletons _)) e = cc
object_of_shape (some (prog_skeletons _)) e = cc

module _ {World : Type 0} (m : Machine World) where
  pub store_live :
      {p : Ptr} {old : Block} (block : Block)
      → m.heap p ≡ some old
      → store p block m ≡ done (tt, record m { heap = write m.heap p (some block) })
  unfolding store
  store_live block e = rw (e, store)

  pub free_live :
      {p : Ptr}
      → p ≢ 0
      → live m p ≡ true
      → free p m ≡ done (tt, record m { heap = write m.heap p none })
  unfolding free
  free_live ne alive = ground arith

  pub set_skeleton_bpf :
      {p : Ptr} {skeleton : Ptr} {slots : Slot → Ptr} (s : Ptr)
      → m.heap p ≡ some (bpf skeleton slots)
      → set_skeleton p s m ≡ done (tt, record m { heap = write m.heap p (some (bpf s slots)) })
  unfolding set_skeleton
  set_skeleton_bpf s e = rw (e, set_skeleton)

  -- Where a slot-blind look at the heap shows a struct, its skeleton can be read.
  pub skeleton_of-shape :
      (p : Ptr) {skeleton : Ptr}
      → shape (m.heap p) ≡ some (bpf skeleton λ _. 0)
      → skeleton_of p m ≡ done (skeleton, m)
  unfolding skeleton_of
  skeleton_of-shape p e = let (slots, same) = bpf_of_shape (m.heap p) e in rw (same, skeleton_of)

  pub live_of_shape :
      (m' : Machine World) (a : Ptr) → shape (m'.heap a) ≡ shape (m.heap a) → live m' a ≡ live m a
  live_of_shape m' a e = sym (is_live-shape (m'.heap a)) ∙ ap is_live e ∙ is_live-shape (m.heap a)

module _ {lib : Libbpf} (laws : IsLibbpf lib) (block : Block) (m : Machine lib.World) where
  -- calloc() either fails and changes nothing in the heap, or gives a new block.
  pub calloc_cases :
      (calloc lib block m ≡ done (0, record m { world = (lib.calloc m).1 }))
      ⊎ ((p : Ptr) × (p ≢ 0)
          × (m.heap p ≡ none)
          × (calloc lib block m
              ≡ done
                  (p, record m { world = (lib.calloc m).1; heap = write m.heap p (some block) })))
  unfolding calloc
  calloc_cases = elim (Bool-cases ((lib.calloc m).0 == 0)) [
    | inl failed ↦ inl (rw (failed, calloc))
    | inr got ↦
        let ne : (lib.calloc m).0 ≢ 0 = ground arith in
        inr ((lib.calloc m).0, ne, laws.calloc_fresh m ne, rw (got, calloc))
  ]
