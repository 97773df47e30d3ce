-- ===== src/Bytecode/Bootstrap/Laws.antt =====
-- What bootstrap's programs rely on in the kernel: the hash map exec_start, which has the time at which
-- a process has started, the clock, and their constant min_duration_ns.
use hello_e_bpf.Prelude.{
  ℕ, suc, ◌+◌, ◌-◌, ◌^◌, ◌≤◌, ◌<◌, ◌≡◌, ◌⊎◌, Option, none, some, false, List, ◌∷◌, ◌==◌,
  if◌then◌else◌,
}
use hello_e_bpf.Bytecode.Machine.{Kernel, Registers}
use hello_e_bpf.Bytecode.Tracing.{IsTracing}

abbrev pub Starts : Type 0
Starts = ℕ → Option ℕ

abbrev pub put : (key : ℕ) → Option ℕ → Starts → Starts
put key time starts n = if n == key then time else starts n

-- bpf_map_lookup_elem() is helper 1, bpf_map_update_elem() helper 2, bpf_map_delete_elem() helper 3, and
-- bpf_ktime_get_ns() helper 5. An update without flags fails only where the map is
-- full. A constant is in .rodata, which
-- nothing changes.
pub record IsBootstrap {k : Kernel} (t : IsTracing k) (frame : ℕ) : Type 0 where
  pub starts : k.World → Starts
  pub times : k.World → List ℕ  -- what the clock has told, the last time first
  pub failures : k.World → ℕ  -- updates and reservations that have failed
  pub min_duration_ns : ℕ
  pub constant_there :
      (w : k.World) → k.load_bytes 8 (k.address_of "min_duration_ns") w ≡ some min_duration_ns
  pub stores_keep :
      (size a v : ℕ) (w w' : k.World)
      → frame - 512 ≤ a
      → a + size ≤ frame
      → k.store_bytes size a v w ≡ some w'
      → (starts w' ≡ starts w) × (times w' ≡ times w) × (failures w' ≡ failures w)
  pub clock_is_word : (r : Registers) (w : k.World) → (k.helper 5 r w).0 < 2 ^ 64
  pub clock_tells :
      (r : Registers) (w : k.World) → times (k.helper 5 r w).1 ≡ (k.helper 5 r w).0 ∷ times w
  pub clock_keeps :
      (r : Registers) (w : k.World)
      → (starts (k.helper 5 r w).1 ≡ starts w)
        × (failures (k.helper 5 r w).1 ≡ failures w)
        × ((size a : ℕ) → k.load_bytes size a (k.helper 5 r w).1 ≡ k.load_bytes size a w)
  pub updates :
      (r : Registers) (w : k.World) (a b key v : ℕ)
      → r 1 ≡ some (k.address_of "exec_start")
      → r 2 ≡ some a
      → r 3 ≡ some b
      → r 4 ≡ some 0
      → k.load_bytes 4 a w ≡ some key
      → k.load_bytes 8 b w ≡ some v
      → (times (k.helper 2 r w).1 ≡ times w)
        × (((starts (k.helper 2 r w).1 ≡ put key (some v) (starts w))
              × (failures (k.helper 2 r w).1 ≡ failures w))
            ⊎ ((starts (k.helper 2 r w).1 ≡ starts w)
                × (failures (k.helper 2 r w).1 ≡ suc (failures w))))
  pub finds_none :
      (r : Registers) (w : k.World) (a key : ℕ)
      → r 1 ≡ some (k.address_of "exec_start")
      → r 2 ≡ some a
      → k.load_bytes 4 a w ≡ some key
      → starts w key ≡ none
      → k.helper 1 r w ≡ (0, w)
  pub finds :
      (r : Registers) (w : k.World) (a key v : ℕ)
      → r 1 ≡ some (k.address_of "exec_start")
      → r 2 ≡ some a
      → k.load_bytes 4 a w ≡ some key
      → starts w key ≡ some v
      → (slot : ℕ) × (k.helper 1 r w ≡ (slot, w))
        × ((slot == 0) ≡ false)
        × (slot < 2 ^ 64)
        × (k.load_bytes 8 slot w ≡ some v)
  pub deletes :
      (r : Registers) (w : k.World) (a key : ℕ)
      → r 1 ≡ some (k.address_of "exec_start")
      → r 2 ≡ some a
      → k.load_bytes 4 a w ≡ some key
      → (starts (k.helper 3 r w).1 ≡ put key none (starts w))
        × (times (k.helper 3 r w).1 ≡ times w)
        × (failures (k.helper 3 r w).1 ≡ failures w)
