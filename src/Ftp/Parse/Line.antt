-- ===== src/Ftp/Parse/Line.antt =====
-- What `ftpvita_parse_command_line` accepts, exactly.
use mathlib.Core.Path.{subst}
use vitacompanion_vitadeck.Prelude.{
  ℕ, ◌+◌, ◌≤◌, ◌≡◌, refl, ◌↔◌, true, false, Option, none, some, [], ◌∷◌, ◌++◌, arith, All, length,
  Bool-cases, sym, ◌∙◌, ◌⊎◌, inl, inr, valid, Text, peek,
}
use vitacompanion_vitadeck.Ftp.Parse.{
  is_blank, skip_blanks, ends_word, read_word, finish_line, parse_command_line,
}

abbrev pub AllBlank : Text → Type 0
AllBlank = All (λ c. is_blank c ≡ true)

abbrev pub IsWord : Text → Type 0
IsWord = All (λ c. ends_word c ≡ false)

-- Blanks, the command word, blanks, and the arguments, which start behind all blanks.
pub record SplitsAs (command_size : ℕ) (line command arguments : Text) : Type 0 where
  pub lead : Text
  pub gap : Text
  pub whole : line ≡ lead ++ (command ++ (gap ++ arguments))
  pub lead_blank : AllBlank lead
  pub gap_blank : AllBlank gap
  pub is_word : IsWord command
  pub inhabited : 1 ≤ length command
  pub fits : length command + 1 ≤ command_size
  pub word_ends : ends_word (peek (gap ++ arguments)) ≡ true
  pub starts : is_blank (peek arguments) ≡ false

pub record Skipped (s : Text) : Type 0 where
  pub lead : Text
  pub blank : AllBlank lead
  pub whole : s ≡ lead ++ skip_blanks s
  pub starts : is_blank (peek (skip_blanks s)) ≡ false

pub skip_blanks-Skipped : (s : Text) → Skipped s
unfolding skip_blanks
skip_blanks-Skipped [] = record { lead = []; blank = tt; whole = refl; starts = refl }
skip_blanks-Skipped (c ∷ s) = elim (Bool-cases (is_blank c)) [
  | inl e ↦
      let open_rest = skip_blanks-Skipped s in
      record {
        lead = c ∷ open_rest.lead;
        blank = (e, open_rest.blank);
        whole = ground (arith, open_rest.whole);
        starts = ground (arith, open_rest.starts);
      }
  | inr e ↦ record { lead = []; blank = tt; whole = ground arith; starts = ground arith }
]

pub skip_blanks-append :
    (lead s : Text) → AllBlank lead → is_blank (peek s) ≡ false → skip_blanks (lead ++ s) ≡ s
unfolding skip_blanks
skip_blanks-append [] [] b h = refl
skip_blanks-append [] (c ∷ s) b h = ground arith
skip_blanks-append (d ∷ lead) s b h = ground (arith, skip_blanks-append lead s b.1 h)

read_word_sound :
    (size length' : ℕ) (s word rest : Text)
    → read_word size length' s ≡ some (word, rest)
    → IsWord word
      × (s ≡ word ++ rest)
      × (ends_word (peek rest) ≡ true)
      × ((word ≡ []) ⊎ (length' + length word + 1 ≤ size))
unfolding read_word
read_word_sound size n [] word rest h = ground arith
read_word_sound size n (c ∷ s) [] rest h = ground arith
read_word_sound size n (c ∷ s) (d ∷ word) rest h =
    ground (arith, read_word_sound size (n + 1) s word rest)

read_word-append :
    (size n : ℕ) (word rest : Text)
    → IsWord word
    → ends_word (peek rest) ≡ true
    → n + length word + 1 ≤ size
    → read_word size n (word ++ rest) ≡ some (word, rest)
unfolding read_word
read_word-append size n [] [] w e h = refl
read_word-append size n [] (c ∷ rest) w e h = ground arith
read_word-append size n (c ∷ word) rest w e h =
    ground (arith, read_word-append size (n + 1) word rest w.1 e (omega arith))

finish_line_sound :
    (o : Option (Text × Text)) (command arguments : Text)
    → finish_line o ≡ some (command, arguments)
    → (rest : Text) × (o ≡ some (command, rest))
      × (skip_blanks rest ≡ arguments)
      × (1 ≤ length command)
unfolding finish_line
finish_line_sound none command arguments h = cc
finish_line_sound (some ([], rest)) command arguments h = cc
finish_line_sound (some (c ∷ word, rest)) command arguments h =
    (rest, ground arith, ground arith, ground arith)

-- The word after the blanks gives a split of the whole line.
SplitsAs-of_word :
    (size : ℕ) (line command rest : Text)
    → read_word size 0 (skip_blanks line) ≡ some (command, rest)
    → 1 ≤ length command
    → SplitsAs size line command (skip_blanks rest)
SplitsAs-of_word size line command rest h pos =
    let front = skip_blanks-Skipped line in
    let back = skip_blanks-Skipped rest in
    let word = read_word_sound size 0 (skip_blanks line) command rest h in
    record {
      lead = front.lead;
      gap = back.lead;
      whole = ground (arith, front.whole, back.whole, word.1);
      lead_blank = front.blank;
      gap_blank = back.blank;
      is_word = word.0;
      inhabited = pos;
      fits = ground (arith, word.3);
      word_ends = ground (arith, word.2, back.whole);
      starts = back.starts;
    }

parse_command_line-finish :
    (size : ℕ) (line : Text)
    → 2 ≤ size
    → parse_command_line (some line) valid size valid
      ≡ finish_line (read_word size 0 (skip_blanks line))
unfolding parse_command_line
parse_command_line-finish size line h = ground arith

parse_command_line-size :
    (size : ℕ) (line command arguments : Text)
    → parse_command_line (some line) valid size valid ≡ some (command, arguments)
    → 2 ≤ size
unfolding parse_command_line
parse_command_line-size size line command arguments h = ground arith

parse_command_line_sound :
    (size : ℕ) (line command arguments : Text)
    → parse_command_line (some line) valid size valid ≡ some (command, arguments)
    → SplitsAs size line command arguments
parse_command_line_sound size line command arguments h =
    let big = parse_command_line-size size line command arguments h in
    let (rest, e, e', pos) =
      finish_line_sound (read_word size 0 (skip_blanks line)) command arguments
        (sym (parse_command_line-finish size line big) ∙ h) in
    subst (SplitsAs size line command) e' (SplitsAs-of_word size line command rest e pos)

skip_blanks-of_word :
    (command rest : Text)
    → IsWord command
    → 1 ≤ length command
    → is_blank (peek (command ++ rest)) ≡ false
skip_blanks-of_word [] rest w h = absurd (omega arith)
skip_blanks-of_word (c ∷ command) rest w h = ground arith

finish_line_complete :
    (command rest : Text)
    → 1 ≤ length command
    → finish_line (some (command, rest)) ≡ some (command, skip_blanks rest)
unfolding finish_line
finish_line_complete [] rest h = absurd (omega arith)
finish_line_complete (c ∷ command) rest h = refl

parse_command_line_complete :
    (size : ℕ) (line command arguments : Text)
    → SplitsAs size line command arguments
    → parse_command_line (some line) valid size valid ≡ some (command, arguments)
parse_command_line_complete size line command arguments s =
    let tail = s.gap ++ arguments in
    let skipped =
      skip_blanks-append s.lead (command ++ tail) s.lead_blank
        (skip_blanks-of_word command tail s.is_word s.inhabited) in
    let word = read_word-append size 0 command tail s.is_word s.word_ends (omega (arith, s.fits)) in
    rw (
      parse_command_line-finish size line (omega (arith, s.fits, s.inhabited)),
      s.whole,
      skipped,
      word,
      finish_line_complete command tail s.inhabited,
      skip_blanks-append s.gap arguments s.gap_blank s.starts,
    )

-- The line parser accepts a line with a command and arguments exactly when the line is blanks, a
-- non-empty word that fits the buffer with its NUL and is ended by a blank, a line end or the end
-- of the text, blanks, and the arguments, which do not start with a blank.
pub parse_command_line-iff-SplitsAs :
    (size : ℕ) (line command arguments : Text)
    → (parse_command_line (some line) valid size valid ≡ some (command, arguments))
      ↔ SplitsAs size line command arguments
parse_command_line-iff-SplitsAs size line command arguments = (
  parse_command_line_sound size line command arguments,
  parse_command_line_complete size line command arguments,
)
