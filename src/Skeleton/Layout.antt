-- ===== src/Skeleton/Layout.antt =====
-- What tells one generated skeleton from another: the tables in its `__create_skeleton`.
use Prim.Native.String.{String}
use hello_e_bpf.Prelude.{ℕ, Bool, Option, none, some, List, [], ◌∷◌, if◌then◌else◌}
use hello_e_bpf.Skeleton.Memory.{place, Ptr, maps, progs, links, section, MapSkeleton, ProgSkeleton}

-- s->maps[i].name = object_name; .map = &obj->maps.field; .mmaped = &obj->field, if it is set
pub record MapEntry : Type 0 where
  pub object_name : String
  pub field : String
  pub is_mmaped : Bool

pub record Layout : Type 0 where
  pub name : String
  pub map_cnt : ℕ
  pub map_table : List MapEntry
  pub prog_cnt : ℕ
  pub prog_table : List String  -- the program, its prog and its link bear one name
  pub data_sz : ℕ

-- The elements of an array that calloc() has just made.
abbrev pub empty_map : MapSkeleton
empty_map = record { name = none; map = none; mmaped = none }

abbrev pub empty_prog : ProgSkeleton
empty_prog = record { name = none; prog = none; link = none }

abbrev pub filled_map : Ptr → MapEntry → MapSkeleton
filled_map p e = record {
  name = some e.object_name;
  map = some (place p (maps e.field));
  mmaped = if e.is_mmaped then some (place p (section e.field)) else none;
}

abbrev pub filled_prog : Ptr → String → ProgSkeleton
filled_prog p name = record {
  name = some name;
  prog = some (place p (progs name));
  link = some (place p (links name));
}

-- The assignments to s->maps[0], s->maps[1], ...: none where one lies outside the array.
unfoldable pub fill_maps : Ptr → List MapEntry → List MapSkeleton → Option (List MapSkeleton)
fill_maps p [] array = some array
fill_maps p (e ∷ table) [] = none
fill_maps p (e ∷ table) (_ ∷ array) = elim (fill_maps p table array) [
  | none ↦ none
  | some rest ↦ some (filled_map p e ∷ rest)
]

-- The assignments to s->progs[0], s->progs[1], ...
unfoldable pub fill_progs : Ptr → List String → List ProgSkeleton → Option (List ProgSkeleton)
fill_progs p [] array = some array
fill_progs p (name ∷ table) [] = none
fill_progs p (name ∷ table) (_ ∷ array) = elim (fill_progs p table array) [
  | none ↦ none
  | some rest ↦ some (filled_prog p name ∷ rest)
]
