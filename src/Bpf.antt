-- ===== src/Bpf.antt =====
-- The programs of examples/c that run in the kernel, one call of a handler at a time.
pub mod Handlers
pub mod Tracing
pub mod Together
mod Tests
