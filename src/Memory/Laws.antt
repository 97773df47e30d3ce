-- ===== src/Memory/Laws.antt =====
-- What the accesses of Memory.antt read back: lengths, slices, a load after a store.
use hello_e_bpf.Prelude.{
  ℕ, zero, suc, ◌+◌, ◌≤◌, ◌≡◌, refl, ap, some, ◌++◌, arith, le→leb, length, take, drop,
  length-append, length-take, length-drop, take-append,
}
use hello_e_bpf.Memory.{Bytes, zeroed, load_bytes, store_bytes, memmove}

pub length-zeroed : (n : ℕ) → length (zeroed n) ≡ n
unfolding zeroed
length-zeroed zero = refl
length-zeroed (suc n) = ap suc (length-zeroed n)

-- What a store that fits leaves in the array.
abbrev pub stored : Bytes → ℕ → Bytes → Bytes
stored buffer off bytes = take off buffer ++ bytes ++ drop (off + length bytes) buffer

module _ (buffer : Bytes) where
  pub load_fits :
      (off n : ℕ)
      → off + n ≤ length buffer
      → load_bytes buffer off n ≡ some (take n (drop off buffer))
  unfolding load_bytes
  load_fits off n h = rw (le→leb _ _ h)

  pub store_fits :
      (off : ℕ) (bytes : Bytes)
      → off + length bytes ≤ length buffer
      → store_bytes buffer off bytes ≡ some (stored buffer off bytes)
  unfolding store_bytes
  store_fits off bytes h = rw (le→leb _ _ h)

  pub length-stored :
      (off : ℕ) (bytes : Bytes)
      → off + length bytes ≤ length buffer
      → length (stored buffer off bytes) ≡ length buffer
  length-stored off bytes h = omega (
    arith,
    length-append (take off buffer ++ bytes) (drop (off + length bytes) buffer),
    length-append (take off buffer) bytes,
    length-take off buffer,
    length-drop (off + length bytes) buffer,
  )

  -- The bytes up to the end of a store are those before it, then the ones stored.
  pub take-stored :
      (off : ℕ) (bytes : Bytes)
      → off + length bytes ≤ length buffer
      → take (off + length bytes) (stored buffer off bytes) ≡ take off buffer ++ bytes
  take-stored off bytes h =
      take-append (take off buffer ++ bytes) _ _
        (omega (arith, length-append (take off buffer) bytes, length-take off buffer))

  -- A move within the array keeps its length, and puts the moved bytes in front.
  pub memmove_front : (from n : ℕ) → from + n ≤ length buffer → record {
    moved : Bytes;
    runs : memmove buffer 0 from n ≡ some moved;
    size : length moved ≡ length buffer;
    front : take n moved ≡ take n (drop from buffer);
  }
  unfolding memmove
  memmove_front from n h = record {
    moved = stored buffer 0 slice;
    runs = rw (load_fits from n h, memmove) (store_fits 0 slice fits);
    size = length-stored 0 slice fits;
    front = take-append slice _ n (omega (arith, size));
  }
    where
      slice : Bytes
      slice = take n (drop from buffer)

      size : length slice ≡ n
      size = omega (arith, length-take n (drop from buffer), length-drop from buffer)

      fits : 0 + length slice ≤ length buffer
      fits = omega (arith, size)
