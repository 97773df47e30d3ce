-- ===== src/System.antt =====
-- examples/c/minimal.c, its skeleton examples/c/.output/minimal.skel.h and the BPF program in it, as
-- one system: the loader stores its process number, libbpf makes a map of the section, and each
-- write() of any process runs the program on that map.
pub mod Loading
pub mod Writes
pub mod Minimal
mod Tests
