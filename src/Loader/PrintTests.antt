-- ===== src/Loader/PrintTests.antt =====
-- The print callbacks of the loaders at two messages.
use Prim.Native.String.{String}
use hello_e_bpf.Prelude.{ℕ, ◌≡◌, refl, List, [], ◌∷◌, ◌++◌, pos}
use hello_e_bpf.Loader.Printing.{warn, debug, Stdio, minimal_print_fn, hello_print_fn}

-- Streams 1 and 2 of a process, whose lines are their formats.
abbrev lines_of : Stdio
lines_of = record {
  World = List (ℕ × String);
  Stream = ℕ;
  Arguments = Unit {0};
  stderr = 2;
  vfprintf = λ stream format args w. (pos 0, w ++ (stream, format) ∷ []);
}

prints_debug :
    minimal_print_fn lines_of debug "libbpf: loaded\n" tt [] ≡ (pos 0, (2, "libbpf: loaded\n") ∷ [])
unfolding minimal_print_fn
prints_debug = refl

prints_warning :
    hello_print_fn lines_of warn "libbpf: failed\n" tt [] ≡ (pos 0, (2, "libbpf: failed\n") ∷ [])
unfolding hello_print_fn
prints_warning = refl
