-- ===== src/Bytecode/Frames.antt =====
-- The frame pointer: no program of the skeletons writes r10, so that each of its functions has its own
-- frame there all the time.
use hello_e_bpf.Prelude.{
  ℕ, zero, suc, ◌≡◌, refl, subst, Bool, true, ◌&&◌, not, some, List, [], ◌∷◌, ◌==◌, get_elem?,
  arith, pos, negsuc,
}
use hello_e_bpf.Bytecode.Instruction.{
  mov, Instruction, alu, swap, load_imm, high, load, store, jump, jump_if, call, call_function,
  exit, invalid,
}
use hello_e_bpf.Bytecode.Machine.{
  Program, Kernel, State, Move, moved, called, ended, back_in, entry, update, after_call, execute,
}

-- The instruction does not write r10.
unfoldable pub keeps_frame : Instruction → Bool
keeps_frame (alu _ dst _) = not (dst == 10)
keeps_frame (swap _ dst) = not (dst == 10)
keeps_frame (load_imm dst _) = not (dst == 10)
keeps_frame (load _ dst _ _) = not (dst == 10)
keeps_frame _ = true

unfoldable pub all_keep_frame : List Instruction → Bool
unfolding keeps_frame
all_keep_frame [] = true
all_keep_frame (i ∷ slots) = keeps_frame i && all_keep_frame slots

all_keep_frame-get :
    (slots : List Instruction) (n : ℕ) (i : Instruction)
    → all_keep_frame slots ≡ true
    → get_elem? slots n ≡ some i
    → keeps_frame i ≡ true
unfolding all_keep_frame
all_keep_frame-get [] n i h e = cc
all_keep_frame-get (x ∷ slots) zero i h e = let same : x ≡ i = cc in rw (← same) (ground arith)
all_keep_frame-get (x ∷ slots) (suc n) i h e = all_keep_frame-get slots n i (ground arith) e

module _ (k : Kernel) where
  -- The states that a run comes to, `depth` calls of functions below the program. What a function
  -- returns, and the state that it leaves, are any.
  pub data Reaches (p : Program) (first : State k) : (depth : ℕ) → State k → Type 0 where
    begins : Reaches p first 0 first
    steps :
        {depth : ℕ} {s s' : State k} {i : Instruction}
        → Reaches p first depth s
        → get_elem? p.slots s.pc ≡ some i
        → execute k p i s ≡ moved s'
        → Reaches p first depth s'
    enters :
        {depth : ℕ} {s s' : State k} {i : Instruction}
        → Reaches p first depth s
        → get_elem? p.slots s.pc ≡ some i
        → execute k p i s ≡ called s'
        → Reaches p first (suc depth) s'
    comes_back :
        {depth : ℕ} {s s' : State k} {i : Instruction} (r0 : ℕ) (w : k.World)
        → Reaches p first depth s
        → get_elem? p.slots s.pc ≡ some i
        → execute k p i s ≡ called s'
        → Reaches p first depth (back_in k s r0 w)

  -- The frame of a function `depth` calls below the program, whose own is `frame`.
  unfoldable pub frame_at : (depth frame : ℕ) → ℕ
  frame_at zero frame = frame
  frame_at (suc depth) frame = k.next_frame (frame_at depth frame)

  -- A step keeps the frame, or makes the next one.
  abbrev KeepsFrame : (a : ℕ) → Move k → Type 0
  KeepsFrame a (moved s) = s.registers 10 ≡ some a
  KeepsFrame a (called s) = s.registers 10 ≡ some (k.next_frame a)
  KeepsFrame a (ended _) = Unit

  execute-KeepsFrame :
      (p : Program) (i : Instruction) (s : State k) (a : ℕ)
      → keeps_frame i ≡ true
      → s.registers 10 ≡ some a
      → KeepsFrame a (execute k p i s)
  unfolding execute keeps_frame
  execute-KeepsFrame p (alu mov dst src) s a h e = ground arith
  execute-KeepsFrame p (alu op dst src) s a h e = ground arith
  execute-KeepsFrame p (swap size dst) s a h e = ground arith
  execute-KeepsFrame p (load_imm dst low) s a h e = ground arith
  execute-KeepsFrame p (high _) s a h e = tt
  execute-KeepsFrame p (load size dst src offset) s a h e = ground arith
  execute-KeepsFrame p (store size dst src offset) s a h e = ground arith
  execute-KeepsFrame p (jump (pos n)) s a h e = ground arith
  execute-KeepsFrame p (jump (negsuc n)) s a h e = ground arith
  execute-KeepsFrame p (jump_if test dst src (pos n)) s a h e = ground arith
  execute-KeepsFrame p (jump_if test dst src (negsuc n)) s a h e = ground arith
  execute-KeepsFrame p (call id) s a h e = ground arith
  execute-KeepsFrame p (call_function _) s a h e = ground arith
  execute-KeepsFrame p exit s a h e = ground arith
  execute-KeepsFrame p invalid s a h e = tt

  module _ {p : Program} (context frame : ℕ) (w : k.World)
      (all : all_keep_frame p.slots ≡ true) where
    -- In every state that a run comes to, r10 holds the frame of the function that runs.
    pub Reaches-frame :
        {depth : ℕ} {s : State k}
        → Reaches p (entry k context frame w) depth s
        → s.registers 10 ≡ some (frame_at depth frame)
    unfolding update after_call frame_at
    Reaches-frame begins = refl
    Reaches-frame (steps {s} {i} before at e) = subst (KeepsFrame _) e (
        execute-KeepsFrame p i s _ (all_keep_frame-get p.slots s.pc i all at)
          (Reaches-frame before))
    Reaches-frame (enters {s} {i} before at e) = subst (KeepsFrame _) e (
        execute-KeepsFrame p i s _ (all_keep_frame-get p.slots s.pc i all at)
          (Reaches-frame before))
    Reaches-frame (comes_back r0 w' before at e) = Reaches-frame before
