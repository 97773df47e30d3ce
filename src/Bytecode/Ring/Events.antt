-- ===== src/Bytecode/Ring/Events.antt =====
-- What a kernel has seen of ring buffers, the last first.
use hello_e_bpf.Prelude.{ℕ, ◌≡◌, ◌≢◌, Bool, false, ◌==◌, if◌then◌else◌, true, some, List, ◌∷◌}
use hello_e_bpf.Bytecode.Machine.{Kernel, Registers}

pub data RingEvent : Type 0 where
  reserved : (record_at : ℕ) → RingEvent
  submitted : (record_at : ℕ) → RingEvent

-- reserve, submit and discard
abbrev pub is_ring_helper : ℕ → Bool
is_ring_helper id =
    if id == 131 then true else if id == 132 then true else if id == 133 then true else false

pub record HasRing (k : Kernel) : Type 0 where
  pub history : k.World → List RingEvent
  -- A reservation returns the address of a new record, or 0 if there is no room.
  pub reserves_none :
      (r : Registers) (w : k.World)
      → (k.helper 131 r w).0 ≡ 0
      → history (k.helper 131 r w).1 ≡ history w
  pub reserves :
      (r : Registers) (w : k.World)
      → (k.helper 131 r w).0 ≢ 0
      → history (k.helper 131 r w).1 ≡ reserved (k.helper 131 r w).0 ∷ history w
  pub submits :
      (r : Registers) (w : k.World) (a : ℕ)
      → r 1 ≡ some a
      → history (k.helper 132 r w).1 ≡ submitted a ∷ history w
  pub keeps :
      (id : ℕ) (r : Registers) (w : k.World)
      → is_ring_helper id ≡ false
      → history (k.helper id r w).1 ≡ history w
  pub stores :
      (size address value : ℕ) (w w' : k.World)
      → k.store_bytes size address value w ≡ some w'
      → history w' ≡ history w

-- Since `before`, each record that was reserved has been submitted before anything else happened.
pub data Paired (before : List RingEvent) : List RingEvent → Type 0 where
  nothing : Paired before before
  pair :
      {events events' : List RingEvent} (a : ℕ)
      → Paired before events
      → events' ≡ submitted a ∷ reserved a ∷ events
      → Paired before events'
