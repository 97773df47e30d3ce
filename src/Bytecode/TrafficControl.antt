-- ===== src/Bytecode/TrafficControl.antt =====
-- The compiled program of examples/c/.output/tc.skel.h: it reports the length and the time to live of
-- IPv4 packets, and may read a packet only up to its end.
use hello_e_bpf.Prelude.{
  ℕ, ◌+◌, ◌%◌, ◌^◌, ◌≤◌, ◌<◌, ◌≡◌, refl, sym, ap, subst, ◌∙◌, inl, inr, Bool-cases, true, false,
  ◌&&◌, not, none, some, [], ◌∷◌, ◌++◌, append-nil, ◌==◌, ltb, if◌then◌else◌, arith, pos,
}
use hello_e_bpf.Memory.{Bytes}
use hello_e_bpf.Bytecode.Instruction.{
  register, constant, mov, add, ne, gt, alu, swap, load_imm, high, load, jump_if, call, exit,
}
use hello_e_bpf.Bytecode.Machine.{Program, Kernel, exited, call_program}
use hello_e_bpf.Bytecode.Words.{swapped}
use hello_e_bpf.Bytecode.Flat.{call_flat, call_program-flat}
use hello_e_bpf.Bytecode.Tracing.{c_string, prints_part, Printed, InMemory, IsTracing}
use hello_e_bpf.Bytecode.Programs.Tc.{tc_tc_ingress_program, tc_rodata}

abbrev disassembled : Program
disassembled = record {
  slots =
      load 4 2 1 (pos 16)
      ∷ jump_if ne 2 (constant 8) (pos 14)
      ∷ load 4 2 1 (pos 76)
      ∷ load 4 3 1 (pos 80)
      ∷ alu mov 1 (register 2)
      ∷ alu add 1 (constant 14)
      ∷ jump_if gt 1 (register 3) (pos 9)
      ∷ alu add 2 (constant 34)
      ∷ jump_if gt 2 (register 3) (pos 7)
      ∷ load 1 4 1 (pos 8)
      ∷ load 2 3 1 (pos 2)
      ∷ swap 2 3
      ∷ load_imm 1 0
      ∷ high 0
      ∷ alu mov 2 (constant 36)
      ∷ call 6
      ∷ alu mov 0 (constant 0)
      ∷ exit
      ∷ [];
  relocations = (12, ".rodata") ∷ [];
}

disassembly : tc_tc_ingress_program ≡ disassembled
unfolding tc_tc_ingress_program
disassembly = refl

abbrev packet_text : Bytes
packet_text = c_string "Got IP packet: tot_len: %d, ttl: %d"

rodata_is_text : tc_rodata ≡ packet_text
unfolding tc_rodata
rodata_is_text = refl

-- The packet is from `data` up to `data_end`, and these bytes can be read; nothing is said of others.
module _ {k : Kernel} (t : IsTracing k) (context frame : ℕ) (w : k.World)
    (protocol data_start data_end : ℕ) (packet : (size address : ℕ) → ℕ)
    (small : context + 80 < 2 ^ 64) (fits : data_start + 34 < 2 ^ 64)
    (at_protocol : k.load_bytes 4 (context + 16) w ≡ some protocol)
    (at_data : k.load_bytes 4 (context + 76) w ≡ some data_start)
    (at_data_end : k.load_bytes 4 (context + 80) w ≡ some data_end)
    (readable : (size a : ℕ)
      → data_start ≤ a
      → a + size ≤ data_end
      → k.load_bytes size a w ≡ some (packet size a)) where
  field_at : (n : ℕ) → n ≤ 80 → (context + n) % 2 ^ 64 ≡ context + n
  field_at n h = omega arith

  foreign :
      (protocol == 8) ≡ false → call_program k tc_tc_ingress_program context frame w ≡ exited 0 w
  unfolding call_flat
  foreign e = rw (
    disassembly,
    call_program-flat k disassembled refl context frame w,
    call_flat,
    field_at 16 (omega arith),
    at_protocol,
    e,
  )

  -- An offset into the packet does not wrap around.
  packet_at : (n : ℕ) → n ≤ 34 → (data_start + n) % 2 ^ 64 ≡ data_start + n
  packet_at n h = omega arith

  no_ethernet :
      (protocol == 8) ≡ true
      → ltb data_end (data_start + 14) ≡ true
      → call_program k tc_tc_ingress_program context frame w ≡ exited 0 w
  unfolding call_flat
  no_ethernet e short = rw (
    disassembly,
    call_program-flat k disassembled refl context frame w,
    call_flat,
    field_at 16 (omega arith),
    at_protocol,
    e,
    field_at 76 (omega arith),
    at_data,
    field_at 80 (omega arith),
    at_data_end,
    packet_at 14 (omega arith),
    short,
  )

  no_header :
      (protocol == 8) ≡ true
      → ltb data_end (data_start + 14) ≡ false
      → ltb data_end (data_start + 34) ≡ true
      → call_program k tc_tc_ingress_program context frame w ≡ exited 0 w
  unfolding call_flat
  no_header e long short = rw (
    disassembly,
    call_program-flat k disassembled refl context frame w,
    call_flat,
    field_at 16 (omega arith),
    at_protocol,
    e,
    field_at 76 (omega arith),
    at_data,
    field_at 80 (omega arith),
    at_data_end,
    packet_at 14 (omega arith),
    long,
    packet_at 34 (omega arith),
    short,
  )

  abbrev pub line : Printed
  line = record {
    text = packet_text;
    first = some (swapped 2 (packet 2 (data_start + 16)));
    second = some (packet 1 (data_start + 22));
    third = none;
  }

  reads :
      (size n : ℕ)
      → n + size ≤ 20
      → data_start + 34 ≤ data_end
      → k.load_bytes size ((data_start + 14 + n) % 2 ^ 64) w
        ≡ some (packet size (data_start + (14 + n)))
  reads size n h room =
      ap (λ a. k.load_bytes size a w) {x = (data_start + 14 + n) % 2 ^ 64}
        {y = data_start + (14 + n)} (omega arith)
      ∙ readable size (data_start + (14 + n)) (omega arith) (omega arith)

  whole :
      (protocol == 8) ≡ true
      → data_start + 34 ≤ data_end
      → InMemory k w (k.address_of ".rodata") packet_text
      → (w' : k.World) × (call_program k tc_tc_ingress_program context frame w ≡ exited 0 w')
        × (t.trace w' ≡ t.trace w ++ line ∷ [])
  unfolding call_flat
  whole e room held =
      let first : ltb data_end (data_start + 14) ≡ false = ground arith in
      let second : ltb data_end (data_start + 34) ≡ false = ground arith in
      rw
        (
          disassembly,
          call_program-flat k disassembled refl context frame w,
          call_flat,
          field_at 16 (omega arith),
          at_protocol,
          e,
          field_at 76 (omega arith),
          at_data,
          field_at 80 (omega arith),
          at_data_end,
          packet_at 14 (omega arith),
          first,
          packet_at 34 (omega arith),
          second,
          reads 1 8 (omega arith) room,
          reads 2 2 (omega arith) room,
        )
        (
          _,
          refl,
          prints_part t _ w ".rodata" [] packet_text [] held
              (omega (arith, t.address_is_word ".rodata")) refl refl,
        )

  -- The classifier in tc.skel.h returns 0, and needs no byte outside the packet: it prints the length, in
  -- the order of the machine, and the time to live of a packet whose protocol is IPv4 and which holds
  -- its two headers, and nothing for any other.
  pub tc_ingress-Prints :
      InMemory k w (k.address_of ".rodata") tc_rodata
      → (w' : k.World) × (call_program k tc_tc_ingress_program context frame w ≡ exited 0 w')
        × (t.trace w'
            ≡ t.trace w
              ++ (if (protocol == 8) && not (ltb data_end (data_start + 34))
                  then line ∷ []
                  else []))
  tc_ingress-Prints held = elim (Bool-cases (protocol == 8)) [
    | inr e ↦ rw (e) (w, foreign e, sym (append-nil _))
    | inl e ↦ elim (Bool-cases (ltb data_end (data_start + 34))) [
      | inr room ↦
          rw (e, room)
            (whole e (ground arith)
              (subst (InMemory k w (k.address_of ".rodata")) rodata_is_text held))
      | inl short ↦ elim (Bool-cases (ltb data_end (data_start + 14))) [
        | inl shorter ↦ rw (e, short) (w, no_ethernet e shorter, sym (append-nil _))
        | inr longer ↦ rw (e, short) (w, no_header e longer short, sym (append-nil _))
      ]
    ]
  ]
