-- ===== src/Skeleton/Libbpf.antt =====
-- calloc() and the functions of libbpf that a skeleton calls. libbpf is not part of the repository:
-- it is a parameter, with what the skeletons rely on as the laws `Keeps` and `IsLibbpf`.
use Prim.Native.String.{String}
use hello_e_bpf.Prelude.{
  List, [], ◌∷◌, is_zero, ℕ, ◌≡◌, ◌≢◌, Bool, true, false, Option, none, some, ◌==◌, if◌then◌else◌,
  ℤ,
}
use hello_e_bpf.Skeleton.Memory.{
  place, Slot, object, section, MapSkeleton, Ptr, ObjectSkeleton, Block, bpf, object_skeleton,
  map_skeletons, prog_skeletons, Machine,
}

pub record Libbpf : Type 1 where
  pub World : Type 0
  pub sizeof_object_skeleton : ℕ
  pub sizeof_map_skeleton : ℕ
  pub sizeof_prog_skeleton : ℕ
  pub calloc : Machine World → Ptr × World  -- the address of the new block, 0 if there is none
  pub open_skeleton : Ptr → (opts : Ptr) → Machine World → ℤ × Machine World
  pub load_skeleton : Ptr → Machine World → ℤ × Machine World
  pub attach_skeleton : Ptr → Machine World → ℤ × Machine World
  pub detach_skeleton : Ptr → Machine World → Machine World
  pub destroy_skeleton : Ptr → Machine World → Machine World

-- A block up to the slots of a struct <name>_bpf.
abbrev pub shape : Option Block → Option Block
shape none = none
shape (some (bpf skeleton slots)) = some (bpf skeleton λ _. 0)
shape (some (object_skeleton s)) = some (object_skeleton s)
shape (some (map_skeletons l)) = some (map_skeletons l)
shape (some (prog_skeletons l)) = some (prog_skeletons l)

-- Nothing is allocated or freed, and nothing is written but slots.
abbrev pub Keeps : {World : Type 0} → Machine World → Machine World → Type 0
Keeps m m' = (a : Ptr) → shape (m'.heap a) ≡ shape (m.heap a)

-- The blocks of a skeleton at `s`: its own and its arrays', where these are not NULL.
abbrev pub is_part : Ptr → ObjectSkeleton → Ptr → Bool
is_part s sk a =
    if a == 0
    then false
    else if a == s
    then true
    else if a == sk.map_array
    then true
    else a == sk.prog_array

-- What the slot points to is a mapped section.
abbrev pub IsMapped : {World : Type 0} → Machine World → Ptr → Slot → Type 0
IsMapped m obj slot =
    (skeleton : Ptr) × (slots : Slot → Ptr) × (fields : ℕ → ℤ) × (m.heap obj
      ≡ some (bpf skeleton slots))
    × (m.mapped (slots slot) ≡ some fields)

-- Of the maps in a skeleton's array, those with a pointer for their section have it set; not
-- .kconfig, which is mapped when the skeleton is loaded.
abbrev pub AreMapped : {World : Type 0} → Machine World → Ptr → List MapSkeleton → Type 0
AreMapped m obj [] = Unit
AreMapped m obj (e ∷ l) =
    ((field : String)
      → field ≢ "kconfig"
      → e.mmaped ≡ some (place obj (section field))
      → IsMapped m obj (section field))
    × AreMapped m obj l

pub record IsLibbpf (lib : Libbpf) : Type 0 where
  pub calloc_fresh : (m : Machine lib.World) → (lib.calloc m).0 ≢ 0 → m.heap (lib.calloc m).0 ≡ none
  pub open_keeps : (s opts : Ptr) (m : Machine lib.World) → Keeps m (lib.open_skeleton s opts m).1
  pub open_maps :
      (s opts obj skeleton : Ptr) (slots : Slot → Ptr) (sk : ObjectSkeleton) (l : List MapSkeleton)
      (m : Machine lib.World)
      → m.heap s ≡ some (object_skeleton sk)
      → m.heap sk.map_array ≡ some (map_skeletons l)
      → sk.obj ≡ some (place obj object)
      → m.heap obj ≡ some (bpf skeleton slots)
      → is_zero (lib.open_skeleton s opts m).0 ≡ true
      → AreMapped (lib.open_skeleton s opts m).1 obj l
  pub load_keeps : (s : Ptr) (m : Machine lib.World) → Keeps m (lib.load_skeleton s m).1
  pub attach_keeps : (s : Ptr) (m : Machine lib.World) → Keeps m (lib.attach_skeleton s m).1
  pub detach_keeps : (s : Ptr) (m : Machine lib.World) → Keeps m (lib.detach_skeleton s m)
  -- Destroying NULL does nothing.
  pub destroy_null : (m : Machine lib.World) → Keeps m (lib.destroy_skeleton 0 m)
  -- Destroying a skeleton frees it and its two arrays.
  pub destroy_frees :
      (s : Ptr) (sk : ObjectSkeleton) (m : Machine lib.World)
      → s ≢ 0
      → m.heap s ≡ some (object_skeleton sk)
      → (a : Ptr)
      → shape ((lib.destroy_skeleton s m).heap a)
        ≡ (if is_part s sk a then none else shape (m.heap a))
