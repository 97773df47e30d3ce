-- ===== src/Baseline.antt =====
-- benchmarks/baseline.c: counts the pattern "Alpha" in a file that it reads in chunks. `Chunk` has
-- the work on one filled buffer, `Program` the reads around it and `main`.
pub mod Chunk
pub mod Program
pub mod Occurrences
pub mod Scan
pub mod Resume
pub mod Reading
pub mod Results
pub mod Exits
mod Tests
