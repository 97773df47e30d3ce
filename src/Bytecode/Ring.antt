-- ===== src/Bytecode/Ring.antt =====
-- Records of a ring buffer: bpf_ringbuf_reserve() is helper 131, and bpf_ringbuf_submit() helper 132. A
-- record that has been reserved must be submitted, and nothing else may be. The kernel refuses
-- a program unless it can see this; here a check of the same kind runs on the compiled programs.
pub mod Events
pub mod Holds
pub mod Matches
pub mod Steps
pub mod Calls
pub mod Sound
pub mod Programs
mod Tests
