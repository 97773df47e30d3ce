-- ===== src/Baseline/Occurrences.antt =====
-- The specification of the count of benchmarks/baseline.c: at how many places a pattern stands in a
-- sequence of bytes. It knows nothing of buffers, pointers or chunks.
use hello_e_bpf.Prelude.{
  ℕ, zero, suc, ◌+◌, ◌*◌, ◌≤◌, ◌<◌, ◌≡◌, refl, ap, ◌∙◌, Bool, true, false, [], ◌∷◌, ◌++◌, arith,
  ◌==◌, if◌then◌else◌, Bool-cases, inl, inr, length, take, drop, length-append, length-drop,
  take-append-drop, take_all,
}
use hello_e_bpf.Memory.{Bytes, same_bytes}
use hello_e_bpf.Baseline.Chunk.{pattern_bytes}

unfoldable pub is_prefix : Bytes → Bytes → Bool
is_prefix [] xs = true
is_prefix (p ∷ ps) [] = false
is_prefix (p ∷ ps) (x ∷ xs) = if p == x then is_prefix ps xs else false

-- The number of places at which "Alpha" begins.
unfoldable pub occurrences : Bytes → ℕ
occurrences [] = 0
occurrences (x ∷ xs) = (if is_prefix pattern_bytes (x ∷ xs) then 1 else 0) + occurrences xs

-- A prefix is seen within the part that holds it.
pub is_prefix-append :
    (ps xs ys : Bytes) → length ps ≤ length xs → is_prefix ps (xs ++ ys) ≡ is_prefix ps xs
unfolding is_prefix
is_prefix-append [] xs ys h = refl
is_prefix-append (p ∷ ps) [] ys h = absurd (omega arith)
is_prefix-append (p ∷ ps) (x ∷ xs) ys h = ground (arith, is_prefix-append ps xs ys)

pub is_prefix_short : (ps xs : Bytes) → length xs < length ps → is_prefix ps xs ≡ false
unfolding is_prefix
is_prefix_short [] xs h = absurd (omega arith)
is_prefix_short (p ∷ ps) [] h = refl
is_prefix_short (p ∷ ps) (x ∷ xs) h = ground (arith, is_prefix_short ps xs)

pub is_prefix-length : (ps xs : Bytes) → is_prefix ps xs ≡ true → length ps ≤ length xs
unfolding is_prefix
is_prefix-length [] xs h = omega arith
is_prefix-length (p ∷ ps) [] h = ground arith
is_prefix-length (p ∷ ps) (x ∷ xs) h = ground (arith, is_prefix-length ps xs)

-- The comparison of memcmp, on the bytes that it reads.
pub same_bytes-is_prefix :
    (ps xs : Bytes) → length ps ≤ length xs → same_bytes (take (length ps) xs) ps ≡ is_prefix ps xs
unfolding same_bytes is_prefix
same_bytes-is_prefix [] xs h = refl
same_bytes-is_prefix (p ∷ ps) [] h = absurd (omega arith)
same_bytes-is_prefix (p ∷ ps) (x ∷ xs) h = ground (arith, same_bytes-is_prefix ps xs)

pub eq_of_is_prefix : (ps xs : Bytes) → is_prefix ps xs ≡ true → xs ≡ ps ++ drop (length ps) xs
unfolding is_prefix
eq_of_is_prefix [] xs h = refl
eq_of_is_prefix (p ∷ ps) [] h = ground arith
eq_of_is_prefix (p ∷ ps) (x ∷ xs) h = ground (arith, eq_of_is_prefix ps xs)

-- Fewer than five bytes hold no occurrence.
pub occurrences_short : (xs : Bytes) → length xs < 5 → occurrences xs ≡ 0
unfolding occurrences
occurrences_short [] h = refl
occurrences_short (x ∷ xs) h =
    rw (is_prefix_short pattern_bytes (x ∷ xs) h)
      (omega (arith, occurrences_short xs (omega arith)))

-- Counting can start again at the last four bytes of what has been counted.
pub occurrences_resume :
    (xs kept ys : Bytes)
    → length kept ≡ 4
    → occurrences (xs ++ kept ++ ys) ≡ occurrences (xs ++ kept) + occurrences (kept ++ ys)
unfolding occurrences
occurrences_resume [] kept ys h = omega (arith, occurrences_short kept (omega arith))
occurrences_resume (x ∷ xs) kept ys h = ground (
  arith,
  is_prefix-append pattern_bytes (x ∷ (xs ++ kept)) ys (omega (arith, length-append xs kept)),
  occurrences_resume xs kept ys,
)

occurrences-pattern : (xs : Bytes) → occurrences (pattern_bytes ++ xs) ≡ 1 + occurrences xs
unfolding occurrences is_prefix
occurrences-pattern xs = omega arith

-- No two occurrences overlap: after one, none begins in its last four bytes.
pub occurrences_skip :
    (xs : Bytes) → is_prefix pattern_bytes xs ≡ true → occurrences xs ≡ 1 + occurrences (drop 5 xs)
occurrences_skip xs h =
    ap occurrences (eq_of_is_prefix pattern_bytes xs h) ∙ occurrences-pattern (drop 5 xs)

occurrences_miss :
    (x : ℕ) (xs : Bytes)
    → is_prefix pattern_bytes (x ∷ xs) ≡ false
    → occurrences (x ∷ xs) ≡ occurrences xs
unfolding occurrences
occurrences_miss x xs h = rw h (omega arith)

-- The same at any bytes, one of which is passed over.
pub occurrences_advance :
    (xs : Bytes) → is_prefix pattern_bytes xs ≡ false → occurrences xs ≡ occurrences (drop 1 xs)
occurrences_advance [] h = refl
occurrences_advance (x ∷ xs) h = occurrences_miss x xs h

occurrences-le_below : (n : ℕ) (xs : Bytes) → length xs ≤ n → 5 * occurrences xs ≤ length xs
occurrences-le_below n [] h = omega (arith, occurrences_short [] (omega arith))
occurrences-le_below zero (x ∷ xs) h = absurd (omega arith)
occurrences-le_below (suc n) (x ∷ xs) h = elim (Bool-cases (is_prefix pattern_bytes (x ∷ xs))) [
  | inl hit ↦ omega (
    arith,
    occurrences_skip (x ∷ xs) hit,
    is_prefix-length pattern_bytes (x ∷ xs) hit,
    length-drop 4 xs,
    occurrences-le_below n (drop 4 xs) (omega (arith, length-drop 4 xs)),
  )
  | inr miss ↦ omega (arith, occurrences_miss x xs miss, occurrences-le_below n xs (omega arith))
]

-- So they are at most a fifth of the length.
pub occurrences-le : (xs : Bytes) → 5 * occurrences xs ≤ length xs
occurrences-le xs = occurrences-le_below (length xs) xs (omega arith)

-- Counting resumes at the four bytes behind the first `n`, where these are the last.
pub occurrences_tail :
    (n : ℕ) (xs ys : Bytes)
    → length xs ≡ n + 4
    → occurrences (xs ++ ys) ≡ occurrences xs + occurrences (take 4 (drop n xs) ++ ys)
occurrences_tail n xs ys h =
    let kept : Bytes = drop n xs in
    let size : length kept ≡ 4 = omega (arith, length-drop n xs) in
    rw (take_all 4 kept (omega arith)) (
      let again = occurrences_resume (take n xs) kept ys size in
      rw (take-append-drop n xs) at again)
