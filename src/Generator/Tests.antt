-- ===== src/Generator/Tests.antt =====
-- The script at small sizes, and its theorems there.
use hello_e_bpf.Prelude.{◌/◌, ◌≡◌, refl, [], ◌++◌, arith, length, replicate, pos, negsuc}
use hello_e_bpf.Outcome.{done}
use hello_e_bpf.Posix.Small.{three, three-IsFile}
use hello_e_bpf.Baseline.Results.{Counts}
use hello_e_bpf.Baseline.Occurrences.{occurrences}
use hello_e_bpf.Generator.{Written, block, times, nothing_written, generate}
use hello_e_bpf.Generator.Files.{generate_lem}
use hello_e_bpf.Generator.Benchmark.{main-generate}

negative_size : generate 1 (negsuc 5) ≡ done nothing_written
unfolding generate
negative_size = refl

-- Two blocks, and eight bytes behind them.
abbrev two_blocks : Written
two_blocks = record { file = times block 2 ++ replicate 8 b'x'; written = 8200; count = 2 }

two_blocks_made : generate 1 (pos 8200) ≡ done two_blocks
unfolding generate
two_blocks_made = refl

generate_lem_example :
    (r : Written) × (generate 51 (pos 52428800) ≡ done r)
    × (r.written ≡ 52428800)
    × (length r.file ≡ 52428800)
    × (r.count ≡ 52428800 / 4096)
    × (occurrences r.file ≡ r.count)
generate_lem_example = generate_lem 51 52428800 (omega arith)

main-generate_example :
    Counts three
      (λ w. refl)
      three-IsFile
      9000
      []
      []
      (record { world = two_blocks.file; log = [] })
      refl
      2
    × (two_blocks.count ≡ 8200 / 4096)
main-generate_example =
    main-generate three (λ w. refl) three-IsFile 9000 1 [] []
      (record { world = two_blocks.file; log = [] }) refl 8200 two_blocks (λ (n, w, e). cc e)
      (omega arith) (omega arith) (omega arith) two_blocks_made refl
