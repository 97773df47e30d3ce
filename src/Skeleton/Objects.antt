-- ===== src/Skeleton/Objects.antt =====
-- Of the skeletons in examples/c/.output whose BPF programs have global variables: the structs of
-- these in `struct <name>_bpf`, the static assertions in `<name>_bpf__assert`, and what the ELF object
-- says of its variables, in its symbol table, and of the sections that hold them.
use hello_e_bpf.Prelude.{List, [], ◌∷◌}
use hello_e_bpf.Skeleton.Variables.{
  int, unsigned_long_long, bool, pid_t, char_array, field, struct_of, asserted, Struct, Assertion,
  symbol, Symbol, sized, Size, Variables,
}

abbrev bootstrap_structs : List Struct
bootstrap_structs = struct_of "rodata" (field "min_duration_ns" unsigned_long_long ∷ []) ∷ []

abbrev bootstrap_assertions : List Assertion
bootstrap_assertions = asserted "rodata" "min_duration_ns" 8 ∷ []

abbrev bootstrap_symbols : List Symbol
bootstrap_symbols = symbol "min_duration_ns" "rodata" 0 8 ∷ []

abbrev bootstrap_sizes : List Size
bootstrap_sizes = sized "rodata" 8 ∷ []

unfoldable pub bootstrap_variables : Variables
bootstrap_variables = record {
  structs = bootstrap_structs;
  assertions = bootstrap_assertions;
  symbols = bootstrap_symbols;
  sizes = bootstrap_sizes;
}

abbrev bootstrap_legacy_structs : List Struct
bootstrap_legacy_structs = struct_of "rodata" (field "min_duration_ns" unsigned_long_long ∷ []) ∷ []

abbrev bootstrap_legacy_assertions : List Assertion
bootstrap_legacy_assertions = asserted "rodata" "min_duration_ns" 8 ∷ []

abbrev bootstrap_legacy_symbols : List Symbol
bootstrap_legacy_symbols = symbol "min_duration_ns" "rodata" 0 8 ∷ []

abbrev bootstrap_legacy_sizes : List Size
bootstrap_legacy_sizes = sized "rodata" 8 ∷ []

unfoldable pub bootstrap_legacy_variables : Variables
bootstrap_legacy_variables = record {
  structs = bootstrap_legacy_structs;
  assertions = bootstrap_legacy_assertions;
  symbols = bootstrap_legacy_symbols;
  sizes = bootstrap_legacy_sizes;
}

abbrev ksyscall_structs : List Struct
ksyscall_structs = struct_of "kconfig" (field "LINUX_HAS_SYSCALL_WRAPPER" bool ∷ []) ∷ []

abbrev ksyscall_assertions : List Assertion
ksyscall_assertions = asserted "kconfig" "LINUX_HAS_SYSCALL_WRAPPER" 1 ∷ []

unfoldable pub ksyscall_variables : Variables
ksyscall_variables = record {
  structs = ksyscall_structs;
  assertions = ksyscall_assertions;
  symbols = [];
  sizes = [];
}

abbrev minimal_structs : List Struct
minimal_structs = struct_of "bss" (field "my_pid" int ∷ []) ∷ []

abbrev minimal_assertions : List Assertion
minimal_assertions = asserted "bss" "my_pid" 4 ∷ []

abbrev minimal_symbols : List Symbol
minimal_symbols = symbol "my_pid" "bss" 0 4 ∷ []

abbrev minimal_sizes : List Size
minimal_sizes = sized "bss" 4 ∷ []

unfoldable pub minimal_variables : Variables
minimal_variables = record {
  structs = minimal_structs;
  assertions = minimal_assertions;
  symbols = minimal_symbols;
  sizes = minimal_sizes;
}

abbrev minimal_ns_structs : List Struct
minimal_ns_structs =
    struct_of "bss" (
      field "my_pid" int
      ∷ field "__pad0" (char_array 4)
      ∷ field "dev" unsigned_long_long
      ∷ field "ino" unsigned_long_long
      ∷ [])
    ∷ []

abbrev minimal_ns_assertions : List Assertion
minimal_ns_assertions =
    asserted "bss" "my_pid" 4 ∷ asserted "bss" "dev" 8 ∷ asserted "bss" "ino" 8 ∷ []

abbrev minimal_ns_symbols : List Symbol
minimal_ns_symbols =
    symbol "dev" "bss" 8 8 ∷ symbol "ino" "bss" 16 8 ∷ symbol "my_pid" "bss" 0 4 ∷ []

abbrev minimal_ns_sizes : List Size
minimal_ns_sizes = sized "bss" 24 ∷ []

unfoldable pub minimal_ns_variables : Variables
minimal_ns_variables = record {
  structs = minimal_ns_structs;
  assertions = minimal_ns_assertions;
  symbols = minimal_ns_symbols;
  sizes = minimal_ns_sizes;
}

abbrev usdt_structs : List Struct
usdt_structs =
    struct_of "bss" (field "my_pid" pid_t ∷ [])
    ∷ struct_of "kconfig" (field "LINUX_HAS_BPF_COOKIE" bool ∷ [])
    ∷ []

abbrev usdt_assertions : List Assertion
usdt_assertions = asserted "bss" "my_pid" 4 ∷ asserted "kconfig" "LINUX_HAS_BPF_COOKIE" 1 ∷ []

abbrev usdt_symbols : List Symbol
usdt_symbols = symbol "my_pid" "bss" 0 4 ∷ []

abbrev usdt_sizes : List Size
usdt_sizes = sized "bss" 4 ∷ []

unfoldable pub usdt_variables : Variables
usdt_variables = record {
  structs = usdt_structs;
  assertions = usdt_assertions;
  symbols = usdt_symbols;
  sizes = usdt_sizes;
}

abbrev pub all_variables : List Variables
all_variables =
    bootstrap_variables ∷ bootstrap_legacy_variables ∷ ksyscall_variables ∷ minimal_variables
    ∷ minimal_ns_variables ∷ usdt_variables ∷ []
