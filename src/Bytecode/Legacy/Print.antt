-- ===== src/Bytecode/Legacy/Print.antt =====
-- The text that minimal_legacy's program builds on its stack, and the call that prints it.
use hello_e_bpf.Prelude.{
  ℕ, ◌+◌, ◌-◌, ◌%◌, ◌^◌, ◌≤◌, ◌≡◌, refl, ap, ◌∙◌, none, some, [], ◌∷◌, ◌++◌, arith,
}
use hello_e_bpf.Bytecode.Machine.{Kernel, Registers, exited, update, after_call}
use hello_e_bpf.Bytecode.Flat.{run_flat}
use hello_e_bpf.Bytecode.Tracing.{Printed, InMemory, IsTracing}
use hello_e_bpf.Bytecode.Stack.{little, HasStack, below_frame, stored_before}
use hello_e_bpf.Bytecode.Legacy.{disassembled, triggered_text, word_0, word_1, word_2, word_3, line}

-- The print, from the slot 15 on: r6 holds the process number.
module _ {k : Kernel} {t : IsTracing k} {frame : ℕ} (stack : HasStack t frame) (r : Registers)
    (pid : ℕ) (w w1 w2 w3 w4 : k.World) (at_r6 : r 6 ≡ some pid) (at_r10 : r 10 ≡ some frame)
    (at_r4 : r 4 ≡ none) (at_r5 : r 5 ≡ none)
    (first : k.store_bytes 4 (frame - 8) word_3 w ≡ some w1)
    (second : k.store_bytes 8 (frame - 16) word_2 w1 ≡ some w2)
    (third : k.store_bytes 8 (frame - 24) word_1 w2 ≡ some w3)
    (fourth : k.store_bytes 8 (frame - 32) word_0 w3 ≡ some w4) where
  low : (n : ℕ) → n ≤ 512 → (frame + 2 ^ 64 - n) % 2 ^ 64 ≡ frame - n
  low n small = below_frame frame n small stack.room stack.word

  -- The world is the last one, and what the stores before it have left is still there.
  text_is_there : InMemory k w4 (frame - 32) triggered_text
  text_is_there =
      let room = stack.room in
      stored_before stack 8 (frame - 32) (frame - 24) word_0 w3 w4
        (little 8 word_1 ++ (little 8 word_2 ++ little 4 word_3)) (omega arith) fourth
        (stored_before stack 8 (frame - 24) (frame - 16) word_1 w2 w3
          (little 8 word_2 ++ little 4 word_3) (omega arith) third
          (stored_before stack 8 (frame - 16) (frame - 8) word_2 w1 w2 (little 4 word_3)
            (omega arith) second (stack.holds 4 (frame - 8) word_3 w w1 first)))

  abbrev shown : Printed
  shown = record { text = triggered_text; first = some pid; second = r 4; third = r 5 }

  as_line : shown ≡ line pid
  as_line = rw (at_r4, at_r5) refl

  same_trace : t.trace w4 ≡ t.trace w
  same_trace =
      stack.silent 8 (frame - 32) word_0 w3 w4 fourth
      ∙ stack.silent 8 (frame - 24) word_1 w2 w3 third
      ∙ stack.silent 8 (frame - 16) word_2 w1 w2 second
      ∙ stack.silent 4 (frame - 8) word_3 w w1 first

  pub print_runs :
      (w' : k.World) × (run_flat k 19 disassembled (record { pc = 15; registers = r; world = w })
        ≡ exited 0 w')
      × (t.trace w' ≡ t.trace w ++ line pid ∷ [])
  unfolding run_flat update after_call
  print_runs =
      rw
        (
          at_r10,
          low 8 (omega arith),
          first,
          at_r10,
          low 16 (omega arith),
          second,
          at_r10,
          low 24 (omega arith),
          third,
          at_r10,
          low 32 (omega arith),
          fourth,
          at_r10,
          at_r6,
        )
        (
          _,
          refl,
          t.prints _ w4 (frame - 32) triggered_text
                (ap some {x = (frame + (2 ^ 64 - 32)) % 2 ^ 64} {y = frame - 32}
                  (omega (arith, stack.room, stack.word)))
                refl text_is_there
              ∙ ap (λ l. l ++ shown ∷ []) same_trace
              ∙ ap (λ p. t.trace w ++ p ∷ []) as_line,
        )
