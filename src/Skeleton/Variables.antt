-- ===== src/Skeleton/Variables.antt =====
-- The global variables of a BPF program as `struct <name>_bpf` of its skeleton shows them: one struct
-- for each section, which a C compiler lays out on its own, and which has to meet the section of the
-- ELF object byte by byte, since libbpf maps the one under a pointer to the other.
use Prim.Native.String.{String, compare}
use Prim.Native.Nat.{Ordering, lt, eq, gt}
use hello_e_bpf.Prelude.{
  ℕ, ◌+◌, ◌-◌, ◌*◌, ◌/◌, Bool, true, false, Option, none, some, List, [], ◌∷◌, if◌then◌else◌, ltb,
}

-- The types of the variables. pid_t is int, as the types in the ELF object of usdt.skel.h say.
pub data CType : Type 0 where
  int : CType
  unsigned_long_long : CType
  bool : CType
  pid_t : CType
  char_array : ℕ → CType

abbrev pub size_of : CType → ℕ
size_of int = 4
size_of unsigned_long_long = 8
size_of bool = 1
size_of pid_t = 4
size_of (char_array n) = n

abbrev pub alignment : CType → ℕ
alignment int = 4
alignment unsigned_long_long = 8
alignment bool = 1
alignment pid_t = 4
alignment (char_array n) = 1

pub data Field : Type 0 where
  field : (name : String) → (type : CType) → Field

-- struct { ... } *section
pub data Struct : Type 0 where
  struct_of : (section : String) → (fields : List Field) → Struct

-- _Static_assert(sizeof(s->section->name) == size, ...)
pub data Assertion : Type 0 where
  asserted : (section name : String) → (size : ℕ) → Assertion

-- An entry of the ELF object's symbol table, for a variable that is not static.
pub data Symbol : Type 0 where
  symbol : (name section : String) → (offset size : ℕ) → Symbol

-- The size of a section, in the ELF object's section headers.
pub data Size : Type 0 where
  sized : (section : String) → (size : ℕ) → Size

pub record Variables : Type 0 where
  pub structs : List Struct
  pub assertions : List Assertion
  pub symbols : List Symbol
  pub sizes : List Size

-- The next multiple of `a`.
unfoldable pub align_up : (n a : ℕ) → ℕ
align_up n a = (n + (a - 1)) / a * a

-- A field of a struct, where the compiler has put it.
pub record Placed : Type 0 where
  pub name : String
  pub type : CType
  pub offset : ℕ

abbrev pub place_field : ℕ → String → CType → Placed
place_field n name type = record { name = name; type = type; offset = align_up n (alignment type) }

-- The fields of a struct from the offset `n` on: each at the next multiple of its alignment.
unfoldable pub place_fields : ℕ → List Field → List Placed
unfolding align_up
place_fields n [] = []
place_fields n (field name type ∷ fields) =
    place_field n name type ∷ place_fields (align_up n (alignment type) + size_of type) fields

-- Where the last field ends, and the strictest alignment.
unfoldable pub fields_end : ℕ → List Field → ℕ
unfolding align_up
fields_end n [] = n
fields_end n (field name type ∷ fields) =
    fields_end (align_up n (alignment type) + size_of type) fields

unfoldable pub strictest : List Field → ℕ
strictest [] = 1
strictest (field name type ∷ fields) =
    let rest = strictest fields in if ltb rest (alignment type) then alignment type else rest

-- sizeof(struct { ... })
unfoldable pub size_of_struct : List Field → ℕ
unfolding fields_end strictest align_up
size_of_struct fields = align_up (fields_end 0 fields) (strictest fields)

abbrev is_equal : Ordering → Bool
is_equal lt = false
is_equal eq = true
is_equal gt = false

abbrev same_name : String → String → Bool
same_name s t = is_equal (compare s t)

unfoldable pub find_placed : String → List Placed → Option Placed
find_placed name [] = none
find_placed name (p ∷ placed) = if same_name name p.name then some p else find_placed name placed

unfoldable pub fields_of : String → List Struct → Option (List Field)
fields_of section [] = none
fields_of section (struct_of name fields ∷ structs) =
    if same_name section name then some fields else fields_of section structs

-- s->section->name
unfoldable pub variable : List Struct → (section name : String) → Option Placed
unfolding fields_of place_fields find_placed
variable structs section name = elim (fields_of section structs) [
  | none ↦ none
  | some fields ↦ find_placed name (place_fields 0 fields)
]
