-- ===== src/Bytecode/Programs.antt =====
-- The programs of the skeletons in examples/c/.output.
pub mod Bootstrap
pub mod BootstrapLegacy
pub mod Fentry
pub mod Kprobe
pub mod Ksyscall
pub mod Lsm
pub mod Minimal
pub mod MinimalLegacy
pub mod MinimalNs
pub mod Sockfilter
pub mod TaskIter
pub mod Tc
pub mod Uprobe
pub mod Usdt
