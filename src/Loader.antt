-- ===== src/Loader.antt =====
-- The user-space programs of examples/c that load a BPF program: minimal.c and hello.c, over an
-- interface to the generated skeleton of the program.
pub mod Api
pub mod Program
pub mod Runs
pub mod Looping
pub mod Mains
pub mod Printing
mod PrintTests
