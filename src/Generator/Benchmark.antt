-- ===== src/Generator/Benchmark.antt =====
-- The benchmark as benchmarks/README.md describes it: scripts/generate_data.py writes a file, and
-- benchmarks/baseline.c counts in it.
use hello_e_bpf.Prelude.{ℕ, ◌*◌, ◌/◌, ◌^◌, ◌<◌, ◌≡◌, ap, ◌∙◌, arith, length, subst, pos}
use hello_e_bpf.Memory.{Bytes}
use hello_e_bpf.Outcome.{done}
use hello_e_bpf.Posix.{Posix}
use hello_e_bpf.Posix.Laws.{ClockWorks, ReadFails, IsFile}
use hello_e_bpf.Baseline.Program.{Process}
use hello_e_bpf.Baseline.Results.{Counts, main-occurrences}
use hello_e_bpf.Baseline.Occurrences.{occurrences}
use hello_e_bpf.Generator.{Written, generate}
use hello_e_bpf.Generator.Files.{generate_lem}

-- On a file that the script has written, of fewer than 2^63 bytes, and whose reads do not fail, `main`
-- returns 0 and prints the count that the script has printed, one for each 4096 bytes of the file.
pub main-generate :
    (os : Posix) (clock : ClockWorks os) {fd : ℕ} {unread : os.World → Bytes}
    (file : IsFile os (pos fd) unread) (fuel rounds : ℕ) (program filename : Bytes) (s : Process os)
    (opens : (os.open_rdonly filename s.world).0 ≡ pos fd) (target : ℕ) (r : Written)
    → ¬ ReadFails os (pos fd)
    → target < 2 ^ 63
    → target < fuel
    → target < rounds * (256 * 4096)
    → generate rounds (pos target) ≡ done r
    → unread (os.open_rdonly filename s.world).1 ≡ r.file
    → Counts os clock file fuel program filename s opens r.count × (r.count ≡ target / 4096)
main-generate os clock {unread} file fuel rounds program filename s opens target r never small
      enough rounds_enough made same =
    let (r', made', written, size, count, found) = generate_lem rounds target rounds_enough in
    let one : r ≡ r' = cc in
    let size' : length (unread (os.open_rdonly filename s.world).1) ≡ target =
      ap length same ∙ rw (one) size in
    let found' : occurrences (unread (os.open_rdonly filename s.world).1) ≡ r.count =
      ap occurrences same ∙ rw (one) found in
    (
      subst (Counts os clock file fuel program filename s opens) found' (
          main-occurrences os clock file fuel program filename s opens never (omega (arith, size'))
            (omega (arith, size'))),
      rw (one) count,
    )
