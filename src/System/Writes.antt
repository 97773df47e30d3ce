-- ===== src/System/Writes.antt =====
-- The write() calls of the whole machine while examples/c/minimal.c runs: its own, and among them, in
-- any order, those of other processes.
use hello_e_bpf.Prelude.{ℕ, zero, suc, ◌+◌, ◌≡◌, ◌≢◌, ◌≤◌, refl, ◌⊎◌, List, [], ◌∷◌, arith}
use hello_e_bpf.Bpf.Tracing.{Thread, calls_of}
use hello_e_bpf.Loader.Program.{Event, start_message, dot, slept}
use hello_e_bpf.Loader.Runs.{dot_events}

-- The threads that call write() while `own` does these things. The stream stderr is not buffered: a
-- dot is one write(). stdout may be: the first message is one write(), or none so far.
pub data Interleaved (own : Thread) : List Event → List Thread → Type 0 where
  nothing_yet : Interleaved own [] []
  other_process :
      {events : List Event} {threads : List Thread} (t : Thread)
      → t.tgid ≢ own.tgid
      → Interleaved own events threads
      → Interleaved own events (t ∷ threads)
  dot_written :
      {events : List Event} {threads : List Thread}
      → Interleaved own events threads
      → Interleaved own (dot ∷ events) (own ∷ threads)
  sleeping :
      {events : List Event} {threads : List Thread}
      → Interleaved own events threads
      → Interleaved own (slept ∷ events) threads
  message_written :
      {events : List Event} {threads : List Thread}
      → Interleaved own events threads
      → Interleaved own (start_message ∷ events) (own ∷ threads)
  message_buffered :
      {events : List Event} {threads : List Thread}
      → Interleaved own events threads
      → Interleaved own (start_message ∷ events) threads

-- What the loader writes, by its log.
unfoldable pub dots_in : List Event → ℕ
dots_in [] = 0
dots_in (dot ∷ events) = suc (dots_in events)
dots_in (_ ∷ events) = dots_in events

unfoldable pub messages_in : List Event → ℕ
messages_in [] = 0
messages_in (start_message ∷ events) = suc (messages_in events)
messages_in (_ ∷ events) = messages_in events

pub Interleaved-calls :
    {own : Thread} {events : List Event} {threads : List Thread}
    → Interleaved own events threads
    → (dots_in events ≤ calls_of own.tgid threads)
      × (calls_of own.tgid threads ≤ dots_in events + messages_in events)
unfolding calls_of dots_in messages_in
Interleaved-calls nothing_yet = (omega arith, omega arith)
Interleaved-calls (other_process t ne rest) = let h = Interleaved-calls rest in ground arith
Interleaved-calls (dot_written rest) = let h = Interleaved-calls rest in ground arith
Interleaved-calls (sleeping rest) = Interleaved-calls rest
Interleaved-calls (message_written rest) = let h = Interleaved-calls rest in ground arith
Interleaved-calls (message_buffered rest) = let h = Interleaved-calls rest in ground arith

dots_in-dot_events : (rounds : ℕ) → dots_in (dot_events rounds) ≡ rounds
unfolding dots_in
dots_in-dot_events zero = refl
dots_in-dot_events (suc rounds) = omega (arith, dots_in-dot_events rounds)

messages_in-dot_events : (rounds : ℕ) → messages_in (dot_events rounds) ≡ 0
unfolding messages_in
messages_in-dot_events zero = refl
messages_in-dot_events (suc rounds) = messages_in-dot_events rounds

-- In `rounds` rounds the loader's process has written once in each, and once more if its message
-- has been written.
pub rounds-calls :
    {own : Thread} {rounds : ℕ} {threads : List Thread}
    → Interleaved own (start_message ∷ dot_events rounds) threads
    → (calls_of own.tgid threads ≡ rounds) ⊎ (calls_of own.tgid threads ≡ suc rounds)
unfolding dots_in messages_in
rounds-calls {rounds} i =
    let h = Interleaved-calls i in
    ground (arith, dots_in-dot_events rounds, messages_in-dot_events rounds)
