-- ===== src/Skeleton/Alignment.antt =====
-- The structs in `Skeleton.Objects` against what is there of the ELF objects: the static assertions, and
-- the places of the listed variables.
use hello_e_bpf.Prelude.{◌≡◌, refl, some, List, All}
use hello_e_bpf.Skeleton.Variables.{
  size_of, Field, Struct, Assertion, asserted, Symbol, symbol, Size, sized, Placed, size_of_struct,
  fields_of, variable,
}
use hello_e_bpf.Skeleton.Objects.{
  bootstrap_variables, bootstrap_legacy_variables, ksyscall_variables, minimal_variables,
  minimal_ns_variables, usdt_variables, all_variables,
}

-- The assertion compiles: the variable is there, and of this size.
abbrev pub Compiles : List Struct → Assertion → Type 0
Compiles structs (asserted section name size) =
    (p : Placed) × (variable structs section name ≡ some p) × (size_of p.type ≡ size)

-- The static assertions that are listed compile.
pub all_variables-Compiles : All (λ v. All (Compiles v.structs) v.assertions) all_variables
unfolding bootstrap_variables bootstrap_legacy_variables ksyscall_variables minimal_variables
    minimal_ns_variables usdt_variables variable
all_variables-Compiles = (
  ((_, refl, refl), tt),
  (
    ((_, refl, refl), tt),
    (
      ((_, refl, refl), tt),
      (
        ((_, refl, refl), tt),
        (
          ((_, refl, refl), ((_, refl, refl), ((_, refl, refl), tt))),
          (((_, refl, refl), ((_, refl, refl), tt)), tt),
        ),
      ),
    ),
  ),
)

-- Of the struct for a section: the symbol is one of its variables, of the same size and at the same
-- place.
abbrev pub Meets : List Struct → Symbol → Type 0
Meets structs (symbol name section offset size) =
    (p : Placed) × (variable structs section name ≡ some p)
    × (p.offset ≡ offset)
    × (size_of p.type ≡ size)

-- The struct for a section has the section's size.
abbrev pub Fills : List Struct → Size → Type 0
Fills structs (sized section size) =
    (fields : List Field) × (fields_of section structs ≡ some fields)
    × (size_of_struct fields ≡ size)

-- Each listed symbol is a field of the struct for its section, of the same size and at the same offset,
-- and each struct for a listed section is as large as the section.
pub all_variables-Meets :
    All (λ v. All (Meets v.structs) v.symbols × All (Fills v.structs) v.sizes) all_variables
unfolding bootstrap_variables bootstrap_legacy_variables ksyscall_variables minimal_variables
    minimal_ns_variables usdt_variables variable fields_of size_of_struct
all_variables-Meets = (
  (((_, refl, refl, refl), tt), ((_, refl, refl), tt)),
  (
    (((_, refl, refl, refl), tt), ((_, refl, refl), tt)),
    (
      (tt, tt),
      (
        (((_, refl, refl, refl), tt), ((_, refl, refl), tt)),
        (
          (
            ((_, refl, refl, refl), ((_, refl, refl, refl), ((_, refl, refl, refl), tt))),
            ((_, refl, refl), tt),
          ),
          ((((_, refl, refl, refl), tt), ((_, refl, refl), tt)), tt),
        ),
      ),
    ),
  ),
)
