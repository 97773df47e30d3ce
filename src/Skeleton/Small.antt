-- ===== src/Skeleton/Small.antt =====
-- A small libbpf, for the examples: its laws can hold.
use hello_e_bpf.Prelude.{
  List, [], ◌∷◌, Bool-cases, inl, inr, ◌+◌, ◌≡◌, refl, Bool, true, false, Option, none, some, ◌==◌,
  if◌then◌else◌, arith, pos, negsuc,
}
use hello_e_bpf.Skeleton.Memory.{
  Machine, Slot, Place, MapSkeleton, Ptr, Block, bpf, object_skeleton, map_skeletons,
  prog_skeletons, live, is_live,
}
use hello_e_bpf.Skeleton.Libbpf.{Keeps, AreMapped, Libbpf, IsLibbpf, shape, is_part}
use hello_e_bpf.Skeleton.Lifetime.{ne-==_zero}

-- The last address given out.
pub record SmallWorld : Type 0 where
  pub last : Ptr

-- All sections are mapped at the address 1.
abbrev map_slots : Option Block → Option Block
map_slots none = none
map_slots (some (bpf s slots)) = some (bpf s λ _. 1)
map_slots (some (object_skeleton s)) = some (object_skeleton s)
map_slots (some (map_skeletons l)) = some (map_skeletons l)
map_slots (some (prog_skeletons l)) = some (prog_skeletons l)

abbrev map_sections : Ptr → Machine SmallWorld → Machine SmallWorld
map_sections obj m = record m {
  heap = λ a. if a == obj then map_slots (m.heap a) else m.heap a;
  mapped = λ a. if a == 1 then some (λ _. pos 0) else m.mapped a;
}

abbrev map_at : Option Place → Machine SmallWorld → Machine SmallWorld
map_at none m = m
map_at (some p) m = map_sections p.base m

abbrev map_all : Option Block → Machine SmallWorld → Machine SmallWorld
map_all none m = m
map_all (some (bpf _ _)) m = m
map_all (some (object_skeleton sk)) m = map_at sk.obj m
map_all (some (map_skeletons _)) m = m
map_all (some (prog_skeletons _)) m = m

-- Addresses are given out in their order. `takes` tells whether the kernel takes the program.
abbrev pub small : Bool → Libbpf
small takes = record {
  World = SmallWorld;
  sizeof_object_skeleton = 80;
  sizeof_map_skeleton = 24;
  sizeof_prog_skeleton = 24;
  calloc = λ m.
      let next = m.world.last + 1 in
      ((if live m next then 0 else next), record m.world { last = next });
  open_skeleton = λ s opts m. (pos 0, map_all (m.heap s) m);
  load_skeleton = λ s m. ((if takes then pos 0 else negsuc 21), m);
  attach_skeleton = λ s m. (pos 0, m);
  detach_skeleton = λ s m. m;
  destroy_skeleton = λ s m. if s == 0 then m else elim (m.heap s) [
    | none ↦ m
    | some block ↦ elim block [
      | bpf _ _ ↦ m
      | object_skeleton sk ↦ record m { heap = λ a. if is_part s sk a then none else m.heap a }
      | map_skeletons _ ↦ m
      | prog_skeletons _ ↦ m
    ]
  ];
}

none_of_live : (b : Option Block) → is_live b ≡ false → b ≡ none
none_of_live none e = refl
none_of_live (some _) e = cc

shape-if :
    (b : Bool) (x : Option Block) → shape (if b then none else x) ≡ (if b then none else shape x)
shape-if true x = refl
shape-if false x = refl

shape-map_slots : (b : Option Block) → shape (map_slots b) ≡ shape b
shape-map_slots none = refl
shape-map_slots (some (bpf s slots)) = refl
shape-map_slots (some (object_skeleton s)) = refl
shape-map_slots (some (map_skeletons l)) = refl
shape-map_slots (some (prog_skeletons l)) = refl

map_at-Keeps : (p : Option Place) (m : Machine SmallWorld) → Keeps m (map_at p m)
map_at-Keeps none m a = refl
map_at-Keeps (some p) m a = elim (Bool-cases (a == p.base)) [
  | inl at ↦ rw (at) (shape-map_slots (m.heap a))
  | inr off ↦ rw (off)
]

map_all-Keeps : (b : Option Block) (m : Machine SmallWorld) → Keeps m (map_all b m)
map_all-Keeps none m a = refl
map_all-Keeps (some (bpf s slots)) m a = refl
map_all-Keeps (some (object_skeleton sk)) m a = map_at-Keeps sk.obj m a
map_all-Keeps (some (map_skeletons l)) m a = refl
map_all-Keeps (some (prog_skeletons l)) m a = refl

-- Every slot of the struct is mapped.
all-AreMapped :
    (obj skeleton : Ptr) (slots : Slot → Ptr) (l : List MapSkeleton) (m : Machine SmallWorld)
    → m.heap obj ≡ some (bpf skeleton slots)
    → AreMapped (map_sections obj m) obj l
all-AreMapped obj skeleton slots [] m at_obj = tt
all-AreMapped obj skeleton slots (e ∷ l) m at_obj = (
  λ field not_kconfig is_place.
      (skeleton, (λ _. 1), (λ _. pos 0), rw (at_obj) (ground arith), refl),
  all-AreMapped obj skeleton slots l m at_obj,
)

pub small-IsLibbpf : (takes : Bool) → IsLibbpf (small takes)
small-IsLibbpf takes = record {
  calloc_fresh = λ m ne. ground arith;
  open_keeps = λ s opts m. map_all-Keeps (m.heap s) m;
  open_maps = λ s opts obj skeleton slots sk l m at_s at_maps its_obj at_obj fine.
      rw (at_s, its_obj) (all-AreMapped obj skeleton slots l m at_obj);
  load_keeps = λ s m a. refl;
  attach_keeps = λ s m a. refl;
  detach_keeps = λ s m a. refl;
  destroy_null = λ m a. refl;
  destroy_frees =
      λ s sk m nz at_s a. rw (ne-==_zero s nz, at_s) (shape-if (is_part s sk a) (m.heap a));
}
