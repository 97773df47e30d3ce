-- ===== src/Lib.antt =====
-- hello_eBPF: the C programs of the repository.
--
-- The parts, and where they are modelled:
--
-- Baseline, benchmarks/baseline.c: it reads a file in pieces into a buffer of 65,536 bytes and
-- counts the places of the pattern "Alpha"; what stands at the end of one piece is kept for the
-- next. `Baseline.Chunk` has one round of its read loop: `scan_loop` is the inner while, and
-- `chunk_step` the body, which is `count_and_keep` from the scan on. `Baseline.Program` has `main`:
-- `read_loop` is the outer while, `finish` what follows it. The buffer is a list of bytes, and
-- `Memory` has memcmp(), memmove() and the store of read(), each of which fails outside the buffer.
-- `Outcome` tells how code ends: with a value, with an access outside an array, or with a failed
-- assertion. The system calls and the floating-point arithmetic are the parameter `Posix`, and
-- `Posix.Laws` says what is documented of them: read() stores at most what was asked for, a file
-- hands its bytes out in their order and then 0, and the clock can be read. The proofs go from the
-- scan of a buffer (`Baseline.Occurrences`, `Baseline.Scan`) by the overlap between two reads
-- (`Baseline.Resume`) and the loop (`Baseline.Reading`) to `main` (`Baseline.Results`,
-- `Baseline.Exits`).
--
-- The script that writes the file for it, scripts/generate_data.py: `Generator` has its loop,
-- `write_chunks`, and the part near the end, `write_rest`; `Generator.Benchmark` runs baseline.c on
-- the file. The size in bytes is an argument, since the script computes it in floating point.
--
-- The programs in the kernel, examples/c/minimal.bpf.c and examples/c/hello.bpf.c: `Bpf.Handlers`
-- has the function `handle_tp` of each, as `handle_write` and `handle_openat`, over what
-- bpf_get_current_pid_tgid() returns and the trace that bpf_printk() writes to; `Bpf.Tracing` runs
-- each for sequences of system calls, and `Bpf.Together` both at once.
--
-- The same programs compiled, and the other ones that examples/c/.output/*.skel.h carry in their
-- ELF bytes: `Bytecode.Programs` has the sections with instructions of each file, slot by slot, and
-- their relocations, `Bytecode.Instruction` decodes eBPF instructions and `Bytecode.Machine` runs
-- them. Registers are 64-bit words, and one that has not been written to cannot be read. The
-- memory, the helper functions and the addresses of the symbols are the parameter `Kernel`;
-- `IsTracing` says what is documented of helper 14, bpf_get_current_pid_tgid(), and of helper 6,
-- bpf_trace_printk(). `Bytecode.Minimal` holds the compiled minimal.bpf.c against `handle_write`,
-- `Bytecode.Scheduling` runs it for sequences of system calls, `Bytecode.Forward` and
-- `Bytecode.Ending` show that programs end, and the other modules say what single programs do. The
-- programs of usdt.skel.h call functions of their own, each with a frame of its own;
-- `Bytecode.Flat` has a simpler run for the programs that do not, and that it is the same.
-- `Bytecode.Frames` follows the frame pointer from state to state. `Bytecode.Ring` is about the
-- records of ring buffers: `Ring.Holds` is a check of a program, slot by slot, `Ring.Sound` shows
-- what it promises for every run, and `Ring.Programs` makes it for each program. `Bytecode.Stack`
-- has the laws of memory for programs that write to their stack, and `Bytecode.Cells` a memory of
-- bytes that keeps them: `Bytecode.Legacy` is about the program of minimal_legacy.skel.h, and
-- `Bytecode.Bootstrap` about the two of bootstrap.skel.h, by way of the map from which one takes
-- what the other has put there; `Bootstrap.Laws` and `Bootstrap.Reporting` say what is documented of the
-- helpers that these two call, with a count of the updates and reservations that have failed.
--
-- Their loaders, examples/c/minimal.c and examples/c/hello.c: `Loader.Program` has `main` of each,
-- as `minimal_main` and `hello_main`, with the calls and messages in a log. They use the skeleton
-- of their BPF program by the interface `Loader.Api`: open, load, attach and destroy, with the
-- promises `Lifecycle` on what these allocate. `Loader.Runs` and `Loader.Mains` say how they run,
-- and `Loader.Printing` has `libbpf_print_fn` of each. `Skeleton.MinimalProgram` has minimal.c over
-- its own skeleton, with its store through skel->bss. hello.skel.h is not in the repository, so
-- that hello.c stays over the interface.
--
-- minimal.c, its skeleton and the program in it as one system: `System.Loading` takes a run of the
-- loader that stays in its loop apart, up to the state from which it has loaded the program;
-- `System.Writes` puts its dots among the write() calls of other processes, in any order;
-- `System.Minimal` joins this to the runs of `Bytecode.Scheduling`. What libbpf makes of the loader's
-- sections in the kernel is the parameter `IsHost`.
--
-- The skeletons that bpftool has generated, examples/c/.output/*.skel.h: the fourteen files have
-- one text up to names and tables. `Skeleton.Generated` has the functions of that text over a
-- `Layout`, `Skeleton.Layouts` the tables of each file, and `Skeleton.Instances` the functions of
-- each. The heap (`Skeleton.Memory`) is a function from addresses to blocks: the struct, its
-- skeleton and the skeleton's two arrays; to free a block twice, or to use a freed one, is a fault.
-- calloc(), which can always fail, and libbpf are the parameter `Skeleton.Libbpf`, with the laws
-- that calloc() gives a block that is not in use, that only bpf_object__destroy_skeleton() frees,
-- namely a skeleton and its arrays, and that bpf_object__open_skeleton(), where it succeeds, maps
-- the sections that the skeleton has pointers for, all but .kconfig, which is mapped by a load.
-- `Skeleton.Creation`, `Skeleton.Opening`, `Skeleton.Lifetime` and `Skeleton.Sessions` follow a
-- skeleton from calloc() to free(). `Skeleton.Api` hands each of them to the loaders as a
-- `Lifecycle`, and `Skeleton.Methods` has the C++ methods, which call the functions of the same
-- names. The structs of a BPF program's global variables and their static assertions are in
-- `Skeleton.Objects`, beside what the ELF bytes say of the same variables; `Skeleton.Variables`
-- lays a struct out as C does on x86-64, and `Skeleton.Alignment` compares.
--
-- Bounds and fuel. A size_t is a natural number below 2^64, with its wrap-around written out;
-- total_count wraps too. `scan_loop` takes a number of rounds: `count_and_keep` gives it one more
-- than there are positions to scan, which is enough since every round moves the pointer.
-- `read_loop` takes a number of rounds from outside, and more rounds than the file has bytes are
-- enough, since every read that goes on takes a byte. `call_program` gives a compiled program a
-- step for each of its slots, and a function that is called the steps that are left, which is
-- enough where jumps and calls lead forward, and `write_chunks` needs a round for each 256 blocks
-- of 4,096 bytes and one more. The last loop of the loaders has no exit in the source: it is
-- followed for any number of rounds.
--
-- Not modelled: the time that is printed beyond the arithmetic that computes it, the bytes of the
-- ELF objects that are no instructions, relocations, read-only data, or symbols and sizes of global
-- variables, the CO-RE relocations that libbpf makes when it loads a program, the headers of libbpf
-- under examples/c/.output/bpf and examples/c/.output/bpftool (third-party code), the shell scripts
-- under scripts and test, benchmarks/test_baseline.py, the Makefiles, and the documents under
-- conductor.
pub mod Prelude
pub mod Memory
pub mod Outcome
pub mod Posix
pub mod Baseline
pub mod Bpf
pub mod Bytecode
pub mod Generator
pub mod Loader
pub mod Skeleton
pub mod System
