-- ===== src/Bytecode/Stack.antt =====
-- The memory of a kernel as programs write it: numbers are little-endian, and the 512 bytes below r10
-- are the program's own.
use hello_e_bpf.Prelude.{
  ℕ, zero, suc, ◌+◌, ◌-◌, ◌/◌, ◌%◌, ◌^◌, ◌≤◌, ◌<◌, ◌≡◌, refl, ap, subst, ◌∙◌, ◌⊎◌, inr, some, [],
  ◌∷◌, ◌++◌, length, arith,
}
use hello_e_bpf.Memory.{Bytes}
use hello_e_bpf.Bytecode.Machine.{Kernel}
use hello_e_bpf.Bytecode.Tracing.{InMemory, IsTracing}

-- The lowest `size` bytes of a number, the lowest first.
abbrev pub little : (size : ℕ) → ℕ → Bytes
little zero v = []
little (suc size) v = (v % 256) ∷ little size (v / 256)

pub length-little : (size v : ℕ) → length (little size v) ≡ size
length-little zero v = refl
length-little (suc size) v = ap suc (length-little size (v / 256))

-- `n` bytes from `b` on and `size` bytes from `a` on have none in common.
abbrev pub Apart : (b n a size : ℕ) → Type 0
Apart b n a size = (b + n ≤ a) ⊎ (a + size ≤ b)

pub record HasStack {k : Kernel} (t : IsTracing k) (frame : ℕ) : Type 0 where
  pub room : 512 ≤ frame
  pub word : frame < 2 ^ 64
  pub stores :
      (size a v : ℕ) (w : k.World)
      → frame - 512 ≤ a
      → a + size ≤ frame
      → (w' : k.World) × (k.store_bytes size a v w ≡ some w')
  pub holds :
      (size a v : ℕ) (w w' : k.World)
      → k.store_bytes size a v w ≡ some w'
      → InMemory k w' a (little size v)
  pub reads :
      (size a v : ℕ) (w w' : k.World)
      → v < 256 ^ size
      → k.store_bytes size a v w ≡ some w'
      → k.load_bytes size a w' ≡ some v
  pub keeps :
      (size a v : ℕ) (w w' : k.World) (n b : ℕ)
      → k.store_bytes size a v w ≡ some w'
      → Apart b n a size
      → k.load_bytes n b w' ≡ k.load_bytes n b w
  pub silent :
      (size a v : ℕ) (w w' : k.World) → k.store_bytes size a v w ≡ some w' → t.trace w' ≡ t.trace w
  pub same_thread :
      (size a v : ℕ) (w w' : k.World)
      → k.store_bytes size a v w ≡ some w'
      → t.pid_tgid w' ≡ t.pid_tgid w

module _ {k : Kernel} {t : IsTracing k} {frame : ℕ} (stack : HasStack t frame) where
  -- What is in memory stays there while something else is stored.
  pub InMemory-kept :
      (size a v : ℕ) (w w' : k.World) (b : ℕ) (bytes : Bytes)
      → k.store_bytes size a v w ≡ some w'
      → Apart b (length bytes) a size
      → InMemory k w b bytes
      → InMemory k w' b bytes
  InMemory-kept size a v w w' b [] stored apart h = tt
  InMemory-kept size a v w w' b (x ∷ bytes) stored apart h = (
    stack.keeps size a v w w' 1 b stored (ground arith) ∙ h.0,
    InMemory-kept size a v w w' (b + 1) bytes stored (ground arith) h.1,
  )

pub InMemory-join :
    (k : Kernel) (w : k.World) (a : ℕ) (xs ys : Bytes)
    → InMemory k w a xs
    → InMemory k w (a + length xs) ys
    → InMemory k w a (xs ++ ys)
InMemory-join k w a [] ys h h' = subst (λ b. InMemory k w b ys) {x = a + 0} {y = a} (omega arith) h'
InMemory-join k w a (x ∷ xs) ys h h' = (
  h.0,
  InMemory-join k w (a + 1) xs ys h.1 (
      subst (λ b. InMemory k w b ys) {x = a + suc (length xs)} {y = a + 1 + length xs} (omega arith)
        h'),
)

-- A place in a frame, as programs compute its address.
pub below_frame :
    (frame n : ℕ)
    → n ≤ 512
    → 512 ≤ frame
    → frame < 2 ^ 64
    → (frame + 2 ^ 64 - n) % 2 ^ 64 ≡ frame - n
below_frame frame n small room word = omega arith

-- A store right below a text that is in memory makes the text longer.
pub stored_before :
    {k : Kernel} {t : IsTracing k} {frame : ℕ} (stack : HasStack t frame) (size a b v : ℕ)
    (w w' : k.World) (bytes : Bytes)
    → a + size ≡ b
    → k.store_bytes size a v w ≡ some w'
    → InMemory k w b bytes
    → InMemory k w' a (little size v ++ bytes)
stored_before {k} stack size a b v w w' bytes end stored held =
    InMemory-join k w' a (little size v) bytes (stack.holds size a v w w' stored) (
      subst (λ n. InMemory k w' n bytes) {x = b} {y = a + length (little size v)}
        (omega (arith, length-little size v))
        (InMemory-kept stack size a v w w' b bytes stored (inr (omega arith)) held))
