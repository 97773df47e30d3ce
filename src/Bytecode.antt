-- ===== src/Bytecode.antt =====
-- The programs in the kernel as the skeletons of examples/c/.output carry them: the eBPF instructions
-- in their ELF bytes. `Instruction` decodes them, and `Machine` runs them.
pub mod Instruction
pub mod Words
pub mod Machine
pub mod Forward
pub mod Flat
pub mod Programs
pub mod Ending
pub mod Frames
pub mod Ring
pub mod Tracing
pub mod Minimal
pub mod Scheduling
pub mod Lsm
pub mod Uprobe
pub mod Unlink
pub mod Stack
pub mod Cells
pub mod Legacy
pub mod Bootstrap
pub mod Namespace
pub mod TrafficControl
pub mod Small
mod Tests
mod PacketTests
mod FrameTests
