-- ===== src/Bytecode/Cells.antt =====
-- A memory of bytes that satisfies what programs rely on: each address holds a byte, and a store of a
-- number writes its bytes, the lowest first.
use hello_e_bpf.Prelude.{
  ℕ, zero, suc, ◌+◌, ◌*◌, ◌/◌, ◌%◌, ◌^◌, ◌≤◌, ◌<◌, ◌≡◌, refl, ◌∙◌, inl, inr, false, [], ◌∷◌, ◌==◌,
  if◌then◌else◌, arith,
}
use hello_e_bpf.Memory.{Bytes}
use hello_e_bpf.Bytecode.Stack.{little, Apart}

abbrev pub Cells : Type 0
Cells = ℕ → ℕ

abbrev pub read : (size a : ℕ) → Cells → ℕ
read zero a m = 0
read (suc size) a m = m a + 256 * read size (a + 1) m

abbrev pub set : (a v : ℕ) → Cells → Cells
set a v m b = if b == a then v else m b

abbrev pub write : (size a v : ℕ) → Cells → Cells
write zero a v m = m
write (suc size) a v m = write size (a + 1) (v / 256) (set a (v % 256) m)

abbrev pub bytes_at : (n a : ℕ) → Cells → Bytes
bytes_at zero a m = []
bytes_at (suc n) a m = m a ∷ bytes_at n (a + 1) m

set-other : (a v b : ℕ) (m : Cells) → (b == a) ≡ false → set a v m b ≡ m b
set-other a v b m e = rw (e) refl

write-below : (size a v b : ℕ) (m : Cells) → b < a → write size a v m b ≡ m b
write-below zero a v b m h = refl
write-below (suc size) a v b m h =
    write-below size (a + 1) (v / 256) b (set a (v % 256) m) (omega arith)
    ∙ set-other a (v % 256) b m (ground arith)

write-above : (size a v b : ℕ) (m : Cells) → a + size ≤ b → write size a v m b ≡ m b
write-above zero a v b m h = refl
write-above (suc size) a v b m h =
    write-above size (a + 1) (v / 256) b (set a (v % 256) m) (omega arith)
    ∙ set-other a (v % 256) b m (ground arith)

pub read-Apart :
    (n b size a v : ℕ) (m : Cells) → Apart b n a size → read n b (write size a v m) ≡ read n b m
read-Apart zero b size a v m h = refl
read-Apart (suc n) b size a v m (inl h) =
    rw (write-below size a v b m (omega arith), read-Apart n (b + 1) size a v m (inl (omega arith)))
      refl
read-Apart (suc n) b size a v m (inr h) =
    rw (write-above size a v b m h, read-Apart n (b + 1) size a v m (inr (omega arith))) refl

set-same : (a v : ℕ) (m : Cells) → set a v m a ≡ v
set-same a v m = ground arith

-- What is written is read.
pub read-write : (size a v : ℕ) (m : Cells) → v < 256 ^ size → read size a (write size a v m) ≡ v
read-write zero a v m h = omega arith
read-write (suc size) a v m h =
    rw
      (
        write-below size (a + 1) (v / 256) a (set a (v % 256) m) (omega arith),
        set-same a (v % 256) m,
        read-write size (a + 1) (v / 256) (set a (v % 256) m) (omega arith),
      )
      (omega arith)

pub bytes_at-write : (size a v : ℕ) (m : Cells) → bytes_at size a (write size a v m) ≡ little size v
bytes_at-write zero a v m = refl
bytes_at-write (suc size) a v m =
    rw
      (
        write-below size (a + 1) (v / 256) a (set a (v % 256) m) (omega arith),
        set-same a (v % 256) m,
        bytes_at-write size (a + 1) (v / 256) (set a (v % 256) m),
      )
      refl
