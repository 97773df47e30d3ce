-- ===== src/Baseline/Resume.antt =====
-- One round of the read loop of benchmarks/baseline.c: the overlap that it keeps is enough to go on
-- counting as if the bytes had come in one piece.
use hello_e_bpf.Prelude.{
  ℕ, ◌+◌, ◌-◌, ◌%◌, ◌^◌, ◌≤◌, ◌<◌, ◌≡◌, refl, sym, ap, ◌∙◌, true, false, inl, inr, [], ◌++◌,
  append_assoc, arith, ltb, leb, if◌then◌else◌, Bool-cases, length, take, drop, length-append,
  length-take, take-drop-take,
}
use hello_e_bpf.Memory.{Bytes}
use hello_e_bpf.Memory.Laws.{
  stored, store_fits, length-stored, take-stored, memmove_front, length-zeroed,
}
use hello_e_bpf.Outcome.{done}
use hello_e_bpf.Baseline.Chunk.{
  chunk_size_bytes, add_size, Progress, start, count_and_keep, chunk_step,
}
use hello_e_bpf.Baseline.Occurrences.{occurrences, occurrences_short, occurrences_tail}
use hello_e_bpf.Baseline.Scan.{scan_loop-occurrences}

-- `p` after the bytes `seen`: the bytes kept in front of the buffer are all that later bytes can
-- need of them.
pub record Counted (seen : Bytes) (p : Progress) : Type 0 where
  pub size : length p.buffer ≡ chunk_size_bytes
  pub offset : p.offset_bytes ≤ 4
  pub count : p.total_count ≡ occurrences seen % 2 ^ 64
  pub resume :
      (more : Bytes)
      → occurrences (seen ++ more)
        ≡ occurrences seen + occurrences (take p.offset_bytes p.buffer ++ more)

pub start-Counted : Counted [] start
unfolding occurrences
start-Counted = record {
  size = length-zeroed chunk_size_bytes;
  offset = omega arith;
  count = refl;
  resume = λ more. omega arith;
}

-- What a call returns, and what holds of it.
abbrev pub Steps : Bytes → Progress → Bytes → Type 0
Steps seen p bytes = (p' : Progress) × (chunk_step p bytes ≡ done p') × Counted (seen ++ bytes) p'

module _ {seen : Bytes} {p : Progress} (c : Counted seen p) (bytes : Bytes) where
  abbrev window : Bytes
  window = take p.offset_bytes p.buffer ++ bytes

  occurrences-window : occurrences (seen ++ bytes) ≡ occurrences seen + occurrences window
  occurrences-window = c.resume bytes

  resume-window :
      (more : Bytes)
      → occurrences (seen ++ bytes ++ more) ≡ occurrences seen + occurrences (window ++ more)
  resume-window more =
      rw (append_assoc seen bytes more, append_assoc (take p.offset_bytes p.buffer) bytes more)
        (c.resume (bytes ++ more))

  module _ (fits : length bytes + p.offset_bytes ≤ chunk_size_bytes) where
    inside : p.offset_bytes + length bytes ≤ length p.buffer
    inside = omega (arith, c.size)

    total : ℕ
    total = p.offset_bytes + length bytes

    filled : Progress
    filled = record p { buffer = stored p.buffer p.offset_bytes bytes }

    filled-size : length filled.buffer ≡ chunk_size_bytes
    unfolding filled
    filled-size = length-stored p.buffer p.offset_bytes bytes inside ∙ c.size

    filled-count : filled.total_count ≡ p.total_count
    unfolding filled
    filled-count = refl

    take-filled : take total filled.buffer ≡ window
    unfolding total filled
    take-filled = take-stored p.buffer p.offset_bytes bytes inside

    length-window : length window ≡ total
    unfolding total
    length-window = omega (
      arith,
      inside,
      length-append (take p.offset_bytes p.buffer) bytes,
      length-take p.offset_bytes p.buffer,
    )

    total-le : total ≤ chunk_size_bytes
    unfolding total
    total-le = omega arith

    small : p.total_count < 2 ^ 64
    small = omega (arith, c.count)

    -- Fewer bytes than the pattern has are all kept.
    keep_all : total < 5 → Counted (seen ++ bytes) (record filled { offset_bytes = total })
    unfolding total filled
    keep_all h =
        let none_yet : occurrences window ≡ 0 =
          occurrences_short window (omega (arith, length-window)) in
        record {
          size = filled-size;
          offset = omega arith;
          count = omega (arith, c.count, occurrences-window, none_yet);
          resume = λ more.
              rw take-filled (omega (arith, resume-window more, occurrences-window, none_yet));
        }

    -- The buffer is counted, and its last four bytes are moved to the front.
    module _ (h : 5 ≤ total) where
      open memmove_front filled.buffer (total - 4) 4 (omega (arith, filled-size, total-le)) use {
        moved, runs, size as size-moved, front,
      }

      counted : Progress
      counted = record {
        buffer = moved;
        offset_bytes = 4;
        total_count = (p.total_count + occurrences window) % 2 ^ 64;
      }

      take-moved : take 4 moved ≡ take 4 (drop (total - 4) window)
      take-moved =
          front
          ∙ sym (take-drop-take 4 (total - 4) total filled.buffer (omega arith))
          ∙ ap (λ bytes. take 4 (drop (total - 4) bytes)) take-filled

      resume-moved :
          (more : Bytes)
          → occurrences (window ++ more) ≡ occurrences window + occurrences (take 4 moved ++ more)
      resume-moved more =
          rw take-moved (occurrences_tail (total - 4) window more (omega (arith, length-window)))

      counted-Counted : Counted (seen ++ bytes) counted
      unfolding counted
      counted-Counted = record {
        size = size-moved ∙ filled-size;
        offset = omega arith;
        count = omega (arith, c.count, occurrences-window);
        resume = λ more. omega (arith, resume-window more, occurrences-window, resume-moved more);
      }

      count_and_keep-counted : count_and_keep filled total ≡ done counted
      unfolding count_and_keep counted
      count_and_keep-counted =
          let scanned =
            scan_loop-occurrences filled.buffer total filled.total_count h
              (omega (arith, filled-size, total-le)) (omega (arith, filled-count, small)) in
          let wide : ltb total 4 ≡ false = ground arith in
          rw (scanned, count_and_keep, wide, runs, take-filled, filled-count)

    chunk_step-total : chunk_step p bytes ≡ (
        if ltb total 5
        then done (record filled { offset_bytes = total })
        else count_and_keep filled total)
    unfolding chunk_step total filled
    chunk_step-total =
        let stores = store_fits p.buffer p.offset_bytes bytes inside in
        let sum : add_size (length bytes) p.offset_bytes ≡ p.offset_bytes + length bytes =
          omega arith in
        let room : leb (p.offset_bytes + length bytes) chunk_size_bytes ≡ true = ground arith in
        rw (stores, chunk_step, sum, room)

    -- One round on the bytes of a read() that fits: no access outside the buffer and no failed
    -- assertion, and the count goes on as over the bytes in one piece.
    pub chunk_step-Counted : Steps seen p bytes
    chunk_step-Counted = elim (Bool-cases (ltb total 5)) [
      | inl few ↦ (
        record filled { offset_bytes = total },
        chunk_step-total ∙ rw few,
        keep_all (ground arith),
      )
      | inr enough ↦
          let h : 5 ≤ total = ground arith in
          (counted h, chunk_step-total ∙ rw enough (count_and_keep-counted h), counted-Counted h)
    ]
