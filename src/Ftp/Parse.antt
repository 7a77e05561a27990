-- ===== src/Ftp/Parse.antt =====
-- libftpvita/ftpvita_parse.h: the parsers of control commands.
pub mod Line
pub mod Argument
pub mod Number
pub mod Port
use vitacompanion_vitadeck.Prelude.{
  ℕ, zero, suc, ◌+◌, ◌-◌, ◌*◌, ◌/◌, ◌≤◌, ◌<◌, ◌≡◌, refl, Bool, true, false, not, ◌&&◌, ◌||◌, Option,
  none, some, List, [], ◌∷◌, ◌++◌, arith, ltb, leb, ◌==◌, if◌then◌else◌, Pointer, is_null, null,
  valid, Text, codes, peek, u32,
}

abbrev pub space : ℕ
space = b' '

abbrev pub tab : ℕ
tab = 9

abbrev pub lf : ℕ
lf = 10

abbrev pub cr : ℕ
cr = 13

-- `*cursor == ' ' || *cursor == '\t'`
abbrev pub is_blank : ℕ → Bool
is_blank c = c == space || c == tab

-- `while (*cursor == ' ' || *cursor == '\t') cursor++;`
unfoldable pub skip_blanks : Text → Text
skip_blanks [] = []
skip_blanks (c ∷ s) = if is_blank c then skip_blanks s else c ∷ s

-- The bytes at which a command word stops.
abbrev pub ends_word : ℕ → Bool
ends_word c = c == 0 || c == space || c == tab || c == cr || c == lf

-- The loop that copies the command word: `length` bytes are in `command` already. The result is
-- what the loop adds to `command`, and the cursor behind the word.
pub read_word : ℕ → ℕ → Text → Option (Text × Text)
read_word command_size length [] = some ([], [])
read_word command_size length (c ∷ s) =
    if ends_word c
    then some ([], c ∷ s)
    else if leb command_size (length + 1)
    then none
    else elim (read_word command_size (length + 1) s) [
      | none ↦ none
      | some (word, rest) ↦ some (c ∷ word, rest)
    ]

-- Skips the blanks behind the word; the word must not be empty.
finish_line : Option (Text × Text) → Option (Text × Text)
finish_line none = none
finish_line (some ([], rest)) = none
finish_line (some (c ∷ word, rest)) = some (c ∷ word, skip_blanks rest)

-- `none` is the result 0; otherwise the bytes in `command` and the cursor in `*arguments`.
pub parse_command_line : Option Text → Pointer → ℕ → Pointer → Option (Text × Text)
parse_command_line none command command_size arguments = none
parse_command_line (some line) command command_size arguments =
    if is_null command || ltb command_size 2 || is_null arguments
    then none
    else finish_line (read_word command_size 0 (skip_blanks line))

-- The bytes at which an argument stops.
abbrev pub ends_argument : ℕ → Bool
ends_argument c = c == 0 || c == cr || c == lf || c == tab

-- The copying loop of `ftpvita_copy_command_argument`, with `length` bytes in `output` already.
pub copy_loop : ℕ → ℕ → Text → Option Text
copy_loop output_size length [] = some []
copy_loop output_size length (c ∷ s) =
    if ends_argument c
    then some []
    else if leb output_size (length + 1)
    then none
    else elim (copy_loop output_size (length + 1) s) [ none ↦ none | some out ↦ some (c ∷ out) ]

nonempty : Option Text → Option Text
nonempty none = none
nonempty (some []) = none
nonempty (some (c ∷ s)) = some (c ∷ s)

-- `none` is the result 0, which leaves an empty string in `output`.
pub copy_command_argument : Option Text → Pointer → ℕ → Option Text
copy_command_argument none output output_size = none
copy_command_argument (some arguments) output output_size =
    if is_null output || output_size == 0
    then none
    else nonempty (copy_loop output_size 0 arguments)

abbrev pub is_digit : ℕ → Bool
is_digit c = leb b'0' c && leb c b'9'

abbrev pub rest_maximum : ℕ
rest_maximum = 0x7fffffff

-- The digit loop of `ftpvita_parse_rest_offset`.
pub rest_digits : ℕ → Text → Option (ℕ × Text)
rest_digits value [] = some (value, [])
rest_digits value (c ∷ s) =
    let more = rest_digits (u32 (u32 (value * 10) + (c - b'0'))) s in
    if is_digit c
    then if ltb ((rest_maximum - (c - b'0')) / 10) value then none else more
    else some (value, c ∷ s)

-- A NUL, a carriage return or a line feed.
abbrev pub ends_line : ℕ → Bool
ends_line c = c == 0 || c == cr || c == lf

finish_rest : Option (ℕ × Text) → Option ℕ
finish_rest none = none
finish_rest (some (value, rest)) = if ends_line (peek (skip_blanks rest)) then some value else none

-- `none` is the result 0; otherwise the number stored in `*offset`.
pub parse_rest_offset : Option Text → Pointer → Option ℕ
parse_rest_offset none offset = none
parse_rest_offset (some arguments) offset =
    if is_null offset || not (is_digit (peek (skip_blanks arguments)))
    then none
    else finish_rest (rest_digits 0 (skip_blanks arguments))

-- The digit loop of `ftpvita_parse_port_tuple`: the value, the number of digits, the cursor.
unfoldable pub port_digits : ℕ → ℕ → Text → Option (ℕ × ℕ × Text)
port_digits value digits [] = some (value, digits, [])
port_digits value digits (c ∷ s) =
    let value' = u32 (u32 (value * 10) + (c - b'0')) in
    let more = port_digits value' (u32 (digits + 1)) s in
    if is_digit c then if ltb 255 value' then none else more else some (value, digits, c ∷ s)

-- The separator behind a number: a comma, except behind the last one.
unfoldable pub port_separator : ℕ → Text → Option Text
port_separator zero s = some s
port_separator (suc left) [] = none
port_separator (suc left) (c ∷ s) = if c == b',' then some s else none

unfoldable pub port_field : ℕ → Option (ℕ × ℕ × Text) → Option (ℕ × Text)
port_field left none = none
port_field left (some (value, digits, s)) =
    if digits == 0
    then none
    else elim (port_separator left s) [ none ↦ none | some rest ↦ some (value, rest) ]

-- The loop over the fields; `left` fields follow the current one.
unfoldable pub port_fields : ℕ → Text → Option (List ℕ × Text)
port_fields zero s = some ([], s)
port_fields (suc left) s = elim (port_field left (port_digits 0 0 s)) [
  | none ↦ none
  | some (value, rest) ↦ elim (port_fields left rest) [
    | none ↦ none
    | some (values, end) ↦ some (value ∷ values, end)
  ]
]

unfoldable pub finish_port : Option (List ℕ × Text) → Option (List ℕ)
finish_port none = none
finish_port (some (values, s)) = if ends_line (peek (skip_blanks s)) then some values else none

-- `none` is the result 0; otherwise the six numbers stored in `values`.
unfoldable pub parse_port_tuple : Option Text → Pointer → Option (List ℕ)
parse_port_tuple none values = none
parse_port_tuple (some arguments) values =
    if is_null values then none else finish_port (port_fields 6 arguments)
