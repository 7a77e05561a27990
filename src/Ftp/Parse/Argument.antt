-- ===== src/Ftp/Parse/Argument.antt =====
-- What `ftpvita_copy_command_argument` copies, exactly.
use vitacompanion_vitadeck.Prelude.{
  ℕ, ◌+◌, ◌≤◌, ◌≡◌, refl, ◌↔◌, true, false, Option, none, some, [], ◌∷◌, ◌++◌, arith, All, length,
  Bool-cases, ◌⊎◌, inl, inr, valid, Text, peek,
}
use vitacompanion_vitadeck.Ftp.Parse.{ends_argument, copy_loop, nonempty, copy_command_argument}

abbrev pub IsArgument : Text → Type 0
IsArgument = All (λ c. ends_argument c ≡ false)

-- The argument is the text up to the first tab, line end or NUL.
pub record CopiesAs (output_size : ℕ) (arguments output : Text) : Type 0 where
  pub rest : Text
  pub whole : arguments ≡ output ++ rest
  pub is_argument : IsArgument output
  pub argument_ends : ends_argument (peek rest) ≡ true
  pub inhabited : 1 ≤ length output
  pub fits : length output + 1 ≤ output_size

copy_loop_sound :
    (size n : ℕ) (s out : Text)
    → copy_loop size n s ≡ some out
    → (rest : Text) × (s ≡ out ++ rest)
      × IsArgument out
      × (ends_argument (peek rest) ≡ true)
      × ((out ≡ []) ⊎ (n + length out + 1 ≤ size))
unfolding copy_loop
copy_loop_sound size n [] out h = ([], ground arith, ground arith, refl, ground arith)
copy_loop_sound size n (c ∷ s) [] h = (c ∷ s, refl, tt, ground arith, inl refl)
copy_loop_sound size n (c ∷ s) (d ∷ out) h = elim (Bool-cases (ends_argument c)) [
  | inl e ↦ absurd (ground arith)
  | inr e ↦
      let (rest, w, a, e', f) = copy_loop_sound size (n + 1) s out (ground arith) in
      (rest, ground (arith, w), ground (arith, a), e', ground (arith, f))
]

copy_loop-append :
    (size n : ℕ) (out rest : Text)
    → IsArgument out
    → ends_argument (peek rest) ≡ true
    → n + length out + 1 ≤ size
    → copy_loop size n (out ++ rest) ≡ some out
unfolding copy_loop
copy_loop-append size n [] [] w e h = refl
copy_loop-append size n [] (c ∷ rest) w e h = ground arith
copy_loop-append size n (c ∷ out) rest w e h =
    ground (arith, copy_loop-append size (n + 1) out rest w.1 e (omega arith))

nonempty_sound :
    (o : Option Text) (out : Text) → nonempty o ≡ some out → (o ≡ some out) × (1 ≤ length out)
unfolding nonempty
nonempty_sound none out h = cc
nonempty_sound (some []) out h = cc
nonempty_sound (some (c ∷ s)) out h = ground arith

copy_command_argument_sound :
    (size : ℕ) (arguments output : Text)
    → copy_command_argument (some arguments) valid size ≡ some output
    → CopiesAs size arguments output
unfolding copy_command_argument
copy_command_argument_sound size arguments output h =
    let (e, pos) = nonempty_sound (copy_loop size 0 arguments) output (ground arith) in
    let (rest, w, a, e', f) = copy_loop_sound size 0 arguments output e in
    record {
      rest = rest;
      whole = w;
      is_argument = a;
      argument_ends = e';
      inhabited = pos;
      fits = ground (arith, f, pos);
    }

copy_command_argument_complete :
    (size : ℕ) (arguments output : Text)
    → CopiesAs size arguments output
    → copy_command_argument (some arguments) valid size ≡ some output
unfolding copy_command_argument nonempty
copy_command_argument_complete size arguments [] s = absurd (omega (arith, s.inhabited))
copy_command_argument_complete size arguments (c ∷ output) s = ground (
  arith,
  s.whole,
  s.fits,
  copy_loop-append size 0 (c ∷ output) s.rest s.is_argument s.argument_ends (omega (arith, s.fits)),
)

-- The argument copier succeeds with an output exactly when the output is the text up to the first
-- tab, line end or NUL, is not empty, and fits the buffer with its NUL.
pub copy_command_argument-iff-CopiesAs :
    (size : ℕ) (arguments output : Text)
    → (copy_command_argument (some arguments) valid size ≡ some output)
      ↔ CopiesAs size arguments output
copy_command_argument-iff-CopiesAs size arguments output = (
  copy_command_argument_sound size arguments output,
  copy_command_argument_complete size arguments output,
)
