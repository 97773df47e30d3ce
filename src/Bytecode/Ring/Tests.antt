-- ===== src/Bytecode/Ring/Tests.antt =====
-- The theorem on ring buffers at the program of sockfilter.skel.h, over a kernel in which each
-- reservation succeeds.
use mathlib.Core.List.Memᴰ.{head, tail}
use hello_e_bpf.Prelude.{ℕ, refl, Option, none, some, List, [], ◌∷◌, ◌==◌, if◌then◌else◌, arith}
use hello_e_bpf.Bytecode.Machine.{Kernel, call_program}
use hello_e_bpf.Bytecode.Programs.Sockfilter.{sockfilter_socket_handler_program}
use hello_e_bpf.Bytecode.Ring.Events.{RingEvent, reserved, submitted, HasRing, Paired}
use hello_e_bpf.Bytecode.Ring.Programs.{all_programs-Paired}

abbrev or_zero : Option ℕ → ℕ
or_zero none = 0
or_zero (some n) = n

-- Every word of the memory is 8, the protocol of IPv4, but one: the flags of the packet.
abbrev ring_kernel : Kernel
ring_kernel = record {
  World = List RingEvent;
  load_bytes = λ size a w. if a == 4998 then some 0 else some 8;
  store_bytes = λ size a v w. some w;
  helper = λ id r w.
      if id == 131
      then (4096, reserved 4096 ∷ w)
      else if id == 132
      then (0, submitted (or_zero (r 1)) ∷ w)
      else (0, w);
  address_of = λ s. 600;
  next_frame = λ frame. frame;
}

ring_kernel-HasRing : HasRing ring_kernel
ring_kernel-HasRing = record {
  history = λ w. w;
  reserves_none = λ r w e. absurd (omega arith);
  reserves = λ r w ne. refl;
  submits = λ r w a at_r1. rw (at_r1) refl;
  keeps = λ id r w other. ground arith;
  stores = λ size a v w w' e. cc;
}

all_programs-Paired_example : Paired [] (submitted 4096 ∷ reserved 4096 ∷ [])
unfolding call_program sockfilter_socket_handler_program ring_kernel-HasRing
all_programs-Paired_example =
    all_programs-Paired ring_kernel-HasRing sockfilter_socket_handler_program 0 5000 8 []
      (submitted 4096 ∷ reserved 4096 ∷ [])
      (tail (
        tail (
          tail (
            tail
              (tail (tail (tail (tail (tail (tail (tail (tail (tail (tail (head refl)))))))))))))))
      refl
