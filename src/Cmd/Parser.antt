-- ===== src/Cmd/Parser.antt =====
-- src/parser.c: splits a command in place. Arguments are offsets into the buffer.
pub mod Words
pub mod Split
use vitacompanion_vitadeck.Prelude.{
  ℕ, zero, suc, ◌+◌, Bool, ◌||◌, Option, none, some, List, [], ◌∷◌, ◌++◌, ltb, ◌==◌, if◌then◌else◌,
  Pointer, is_null, Text, peek, length, take, drop,
}

-- `*cursor == ' ' || *cursor == '\t' || *cursor == '\r'`
abbrev pub is_separator : ℕ → Bool
is_separator c = c == b' ' || c == 9 || c == 13

-- `*cursor == '\0' || *cursor == '\n'`
abbrev pub is_terminal : ℕ → Bool
is_terminal c = c == 0 || c == 10

-- The loop over the separators before an argument: the zeros written over them, and the cursor.
pub erase_separators : Text → Text × Text
erase_separators [] = ([], [])
erase_separators (c ∷ s) =
    let (erased, rest) = erase_separators s in
    if is_separator c then (0 ∷ erased, rest) else ([], c ∷ s)

-- The loop over an argument: its bytes, and the cursor.
pub skip_argument : Text → Text × Text
skip_argument [] = ([], [])
skip_argument (c ∷ s) =
    let (argument, rest) = skip_argument s in
    if is_terminal c || is_separator c then ([], c ∷ s) else (c ∷ argument, rest)

-- Puts an argument and the zero behind it in front of what the rest of the loop leaves.
add_argument : Text → ℕ → Option (Text × List ℕ) → Option (Text × List ℕ)
add_argument before start none = none
add_argument before start (some (out, args)) = some (before ++ (0 ∷ out), start ∷ args)

-- The outer loop, from the offset `at` of the cursor on, with `arg_count` arguments found. The
-- result is the rest of the buffer as the loop leaves it, with the offsets of further arguments;
-- `none` is PARSE_CMD_TOO_MANY_ARGS. The fuel is one more than the bytes left.
pub parse_loop : ℕ → ℕ → ℕ → ℕ → Text → Option (Text × List ℕ)
parse_loop zero arg_max at arg_count s = some (s, [])
parse_loop (suc fuel) arg_max at arg_count s =
    let (erased, rest) = erase_separators s in
    let start = at + length erased in
    let (argument, behind) = skip_argument rest in
    let split : Option (Text × List ℕ) = elim behind [
      | [] ↦ some (erased ++ argument, start ∷ [])
      | d ∷ tail ↦
          let more = parse_loop fuel arg_max (start + length argument + 1) (arg_count + 1) tail in
          if is_terminal d
          then some ((erased ++ argument) ++ (0 ∷ tail), start ∷ [])
          else add_argument (erased ++ argument) start more
    ] in
    if is_terminal (peek rest)
    then some (erased ++ rest, [])
    else if arg_count == arg_max
    then none
    else split

-- The first `cmd_size` bytes of the buffer are split; `none` is PARSE_CMD_TOO_MANY_ARGS, and
-- otherwise there are as many arguments as offsets.
pub parse_cmd : Pointer → Text → ℕ → Pointer → ℕ → Option (Text × List ℕ)
parse_cmd pointer cmd cmd_size arg_list arg_max =
    if is_null pointer || is_null arg_list || arg_max == 0
    then some (cmd, [])
    else elim (parse_loop (suc cmd_size) arg_max 0 0 (take cmd_size cmd)) [
      | none ↦ none
      | some (out, args) ↦ some (out ++ drop cmd_size cmd, args)
    ]
