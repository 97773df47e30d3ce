-- ===== src/Skeleton/Memory.antt =====
-- The heap blocks that a skeleton is made of. A field of `struct <name>_bpf` that libbpf fills through
-- a pointer is a `Slot`; 0 is NULL.
use Prim.Native.String.{String}
use hello_e_bpf.Prelude.{ℕ, Bool, true, false, Option, none, some, List, ◌==◌, if◌then◌else◌, ℤ}
use hello_e_bpf.Outcome.{done, fault}
use hello_e_bpf.Outcome.Command.{Command}

abbrev pub Ptr : Type 0
Ptr = ℕ

-- obj->obj, and by the names of the struct's fields obj->maps, obj->progs, obj->links and the memory
-- mapped sections obj->bss, obj->rodata, ...
pub data Slot : Type 0 where
  object : Slot
  maps : String → Slot
  progs : String → Slot
  links : String → Slot
  section : String → Slot

-- The address of a slot of the struct at `base`.
pub record Place : Type 0 where
  pub base : Ptr
  pub slot : Slot

abbrev pub place : Ptr → Slot → Place
place p slot = record { base = p; slot = slot }

-- struct bpf_map_skeleton, struct bpf_prog_skeleton and struct bpf_object_skeleton
pub record MapSkeleton : Type 0 where
  pub name : Option String
  pub map : Option Place
  pub mmaped : Option Place

pub record ProgSkeleton : Type 0 where
  pub name : Option String
  pub prog : Option Place
  pub link : Option Place

pub record ObjectSkeleton : Type 0 where
  pub sz : ℕ
  pub name : Option String
  pub obj : Option Place
  pub map_cnt : ℕ
  pub map_skel_sz : ℕ
  pub map_array : Ptr
  pub prog_cnt : ℕ
  pub prog_skel_sz : ℕ
  pub prog_array : Ptr
  pub data_sz : ℕ  -- of the ELF bytes that s->data points to

-- `bpf` is a struct <name>_bpf: its pointer to the skeleton, and its slots.
pub data Block : Type 0 where
  bpf : (skeleton : Ptr) → (slots : Slot → Ptr) → Block
  object_skeleton : ObjectSkeleton → Block
  map_skeletons : List MapSkeleton → Block
  prog_skeletons : List ProgSkeleton → Block

abbrev pub Heap : Type 0
Heap = Ptr → Option Block

abbrev pub is_live : Option Block → Bool
is_live none = false
is_live (some _) = true

unfoldable pub write : Heap → Ptr → Option Block → Heap
write heap p block a = if a == p then block else heap a

pub record Machine (World : Type 0) : Type 0 where
  pub world : World
  pub heap : Heap
  pub mapped : Ptr → Option (ℕ → ℤ)  -- by the address of a mapped section, its ints by their offsets
  pub errno : ℤ

module _ {World : Type 0} where
  abbrev pub live : Machine World → Ptr → Bool
  live m a = is_live (m.heap a)

  -- A write to the block at `p`, which must be allocated.
  unfoldable pub store : Ptr → Block → Command (Machine World) (Unit {0})
  store p block m = elim (m.heap p) [
    | none ↦ fault
    | some _ ↦ done (tt, record m { heap = write m.heap p (some block) })
  ]

  -- free(p): a fault where `p` is not allocated, as after an earlier free
  unfoldable pub free : Ptr → Command (Machine World) (Unit {0})
  free p m = if p == 0 then done (tt, m) else elim (m.heap p) [
    | none ↦ fault
    | some _ ↦ done (tt, record m { heap = write m.heap p none })
  ]

  -- p->skeleton, of a struct <name>_bpf
  unfoldable pub skeleton_of : Ptr → Command (Machine World) Ptr
  skeleton_of p m = elim (m.heap p) [
    | none ↦ fault
    | some block ↦ elim block [
      | bpf skeleton slots ↦ done (skeleton, m)
      | object_skeleton _ ↦ fault
      | map_skeletons _ ↦ fault
      | prog_skeletons _ ↦ fault
    ]
  ]

  -- p->skeleton = s
  unfoldable pub set_skeleton : Ptr → Ptr → Command (Machine World) (Unit {0})
  set_skeleton p s m = elim (m.heap p) [
    | none ↦ fault
    | some block ↦ elim block [
      | bpf _ slots ↦ done (tt, record m { heap = write m.heap p (some (bpf s slots)) })
      | object_skeleton _ ↦ fault
      | map_skeletons _ ↦ fault
      | prog_skeletons _ ↦ fault
    ]
  ]
