-- ===== src/Posix/Small.antt =====
-- A small system with one file, for the examples: its laws can hold.
use Prim.Native.Nat.{min}
use hello_e_bpf.Prelude.{
  ℕ, zero, suc, ◌+◌, ◌<◌, ◌≡◌, refl, sym, ap, [], ◌∷◌, arith, length, take, drop, length-take,
  take-append-drop, ℤ, pos,
}
use hello_e_bpf.Memory.{Bytes}
use hello_e_bpf.Posix.{got, Posix}
use hello_e_bpf.Posix.Laws.{ReadFits, IsFile}

-- A system whose world is what is left of its one file.
abbrev pub three : Posix
three = record {
  World = Bytes;
  Double = ℕ;
  open_rdonly = λ _ w. (pos 3, w);
  read = λ _ n w. (got (take (min n 3) w), drop (min n 3) w);
  close = λ _ w. w;
  clock_gettime =
      λ w. (record { clock_res = pos 0; time = record { tv_sec = pos 1; tv_nsec = pos 0 } }, w);
  to_double = λ _. 0;
  add_double = λ a b. a + b;
  div_double = λ a b. a;
  one_e9 = 1;
}

taken : (k : ℕ) (w bytes : Bytes) → got (take k w) ≡ got bytes → take k w ≡ bytes
taken k w bytes e = ground arith

pub three-ReadFits : (fd : ℤ) → ReadFits three fd
three-ReadFits fd n w bytes e =
    omega (arith, ap length (taken (min n 3) w bytes e), length-take (min n 3) w)

nil_of_take : (k : ℕ) (w : Bytes) → 0 < k → take k w ≡ [] → w ≡ []
nil_of_take k [] some_room e = refl
nil_of_take zero (x ∷ w) some_room e = absurd (omega arith)
nil_of_take (suc k) (x ∷ w) some_room e = cc

pub three-IsFile : IsFile three (pos 3) λ w. w
three-IsFile = record {
  fits = three-ReadFits (pos 3);
  next = λ n w bytes e. rw (← taken (min n 3) w bytes e) (sym (take-append-drop (min n 3) w));
  ends = λ n w some_room e. nil_of_take (min n 3) w (omega arith) (taken (min n 3) w [] e);
  clock_keeps = λ w. refl;
}
