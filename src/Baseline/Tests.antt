-- ===== src/Baseline/Tests.antt =====
-- Runs of the parts of benchmarks/baseline.c on small buffers, and its theorems at a small file that
-- is read three bytes at a time, the one of benchmarks/test_baseline.py.
use Prim.Native.Char.{code}
use Prim.Native.String.{String}
use hello_e_bpf.Prelude.{◌+◌, ◌%◌, ◌^◌, ◌≡◌, refl, ◌⊎◌, [], ◌∷◌, arith, take, pos, negsuc}
use hello_e_bpf.Memory.{Bytes, memcmp_is_zero, load_bytes, store_bytes, memmove, same_bytes}
use hello_e_bpf.Outcome.{done, ◌>>=◌}
use hello_e_bpf.Outcome.Safe.{IsSafe}
use hello_e_bpf.Posix.{Posix}
use hello_e_bpf.Posix.Small.{three, three-ReadFits, three-IsFile}
use hello_e_bpf.Posix.Laws.{ReadFails}
use hello_e_bpf.Baseline.Chunk.{Progress, start, scan_loop, chunk_step}
use hello_e_bpf.Baseline.Program.{Process, perror_open, main, read_loop}
use hello_e_bpf.Baseline.Occurrences.{occurrences, is_prefix}
use hello_e_bpf.Baseline.Scan.{scan_loop-occurrences}
use hello_e_bpf.Baseline.Resume.{Steps, start-Counted, chunk_step-Counted}
use hello_e_bpf.Baseline.Reading.{Ends, read_loop-Ends}
use hello_e_bpf.Baseline.Results.{Counts, GivesUp, main_ends, main-occurrences, main-IsSafe}
use hello_e_bpf.Baseline.Exits.{Exits, main-Exits}

abbrev codes : String → Bytes
codes String.[] = []
codes (String.◌∷◌ c s) = code c ∷ codes s

abbrev sample : Bytes
sample = codes "Alpha beta Alpha\nNo match here.\nAlphaAlpha"

sample_has_four : occurrences sample ≡ 4
unfolding occurrences is_prefix
sample_has_four = refl

scan_sample : scan_loop 40 sample 0 38 0 ≡ done 4
unfolding scan_loop memcmp_is_zero load_bytes same_bytes
scan_sample = refl

-- "Alp" and then "haA" and "lpha": a pattern across two reads is found once, and the next one too.
across : Progress
across = record { buffer = codes "................"; offset_bytes = 0; total_count = 0 }

steps_across :
    (do
      p ← chunk_step across (codes "xxAlp")
      p ← chunk_step p (codes "haA")
      chunk_step p (codes "lpha"))
    ≡ done (record { buffer = codes "lphalpha........"; offset_bytes = 4; total_count = 2 })
unfolding across chunk_step store_bytes memmove memcmp_is_zero load_bytes same_bytes
steps_across = refl

abbrev waiting : Process three
waiting = record { world = sample; log = [] }

scan_loop-occurrences_example :
    scan_loop 39 sample 0 38 7 ≡ done ((7 + occurrences (take 42 sample)) % 2 ^ 64)
scan_loop-occurrences_example =
    scan_loop-occurrences sample 42 7 (omega arith) (omega arith) (omega arith)

chunk_step-Counted_example : Steps [] start (codes "Alpha be")
chunk_step-Counted_example = chunk_step-Counted start-Counted (codes "Alpha be") (omega arith)

read_loop-Ends_example :
    Ends three (pos 3) sample waiting (read_loop three 100 (pos 3) start waiting)
read_loop-Ends_example =
    read_loop-Ends three (pos 3) three-IsFile 100 waiting start-Counted (omega arith)

main_ends_example :
    Counts three
      (λ w. refl)
      three-IsFile
      100
      (codes "baseline")
      (codes "f")
      waiting
      refl
      (occurrences sample % 2 ^ 64)
    ⊎ (GivesUp three (λ w. refl) three-IsFile 100 (codes "baseline") (codes "f") waiting refl
        × ReadFails three (pos 3))
main_ends_example =
    main_ends three (λ w. refl) three-IsFile 100 (codes "baseline") (codes "f") waiting refl
      (omega arith)

main-occurrences_example :
    Counts three
      (λ w. refl)
      three-IsFile
      100
      (codes "baseline")
      (codes "f")
      waiting
      refl
      (occurrences sample)
main-occurrences_example =
    main-occurrences three (λ w. refl) three-IsFile 100 (codes "baseline") (codes "f") waiting refl
      (λ (n, w, e). cc e) (omega arith) (omega arith)

main-IsSafe_example : IsSafe (main three 9 (codes "baseline" ∷ codes "f" ∷ []) waiting)
main-IsSafe_example =
    main-IsSafe three (λ w. refl) three-ReadFits 9 (codes "baseline" ∷ codes "f" ∷ []) waiting

-- A system on which the file cannot be opened.
abbrev locked : Posix
locked = record three { open_rdonly = λ _ w. (negsuc 0, w) }

main-Exits_example :
    Exits locked 9
      (codes "baseline" ∷ codes "f" ∷ [])
      (record { world = sample; log = [] })
      (pos 1, record { world = sample; log = perror_open ∷ [] })
unfolding main
main-Exits_example =
    main-Exits locked 9 (codes "baseline" ∷ codes "f" ∷ []) (record { world = sample; log = [] }) _
      _ refl
