-- ===== src/Loader/Printing.antt =====
-- examples/c/minimal.c and examples/c/hello.c: `libbpf_print_fn` of each, which libbpf calls with its
-- messages. The C library's streams are a parameter.
use Prim.Native.String.{String}
use hello_e_bpf.Prelude.{ℤ}

-- enum libbpf_print_level
pub data PrintLevel : Type 0 where
  warn info debug : PrintLevel

-- vfprintf(), with what a va_list is, and the streams.
pub record Stdio : Type 1 where
  pub World : Type 0
  pub Stream : Type 0
  pub Arguments : Type 0
  pub stderr : Stream
  pub vfprintf : Stream → (format : String) → Arguments → World → ℤ × World

module _ (stdio : Stdio) where
  open stdio use {World, Arguments}

  unfoldable pub minimal_print_fn :
      (level : PrintLevel) → (format : String) → (args : Arguments) → World → ℤ × World
  minimal_print_fn level format args = stdio.vfprintf stdio.stderr format args

  unfoldable pub hello_print_fn :
      (level : PrintLevel) → (format : String) → (args : Arguments) → World → ℤ × World
  hello_print_fn level format args = stdio.vfprintf stdio.stderr format args
