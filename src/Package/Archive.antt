-- ===== src/Package/Archive.antt =====
-- src/package_installer.c: the check on the names of archive entries, and the search for the central
-- directory.
pub mod Paths
pub mod Directory
use vitacompanion_vitadeck.Prelude.{
  ℕ, zero, suc, ◌+◌, ◌-◌, ◌*◌, ◌^◌, Bool, true, false, not, ◌&&◌, ◌||◌, Option, none, some, List,
  [], ◌∷◌, ltb, leb, ◌==◌, if◌then◌else◌, bit_or, u16, Text, peek, length, get_or,
}

abbrev pub slash : ℕ
slash = 47

abbrev pub backslash : ℕ
backslash = 92

abbrev pub colon : ℕ
colon = 58

abbrev pub dot : ℕ
dot = 46

-- `strchr(s, c) != NULL`
abbrev pub has_char : ℕ → Text → Bool
has_char c [] = false
has_char c (x ∷ s) = x == c || has_char c s

-- `component`, up to `end`: the bytes before the first slash.
abbrev pub before_slash : Text → Text
before_slash [] = []
before_slash (c ∷ s) = if c == slash then [] else c ∷ before_slash s

-- What follows the first slash, when there is one.
abbrev pub after_slash : Text → Option Text
after_slash [] = none
after_slash (c ∷ s) = if c == slash then some s else after_slash s

-- The test on the component.
abbrev pub is_bad_component : Text → Bool
is_bad_component word =
    length word == 0
    || (length word == 1 && get_or word 0 0 == dot)
    || (length word == 2 && get_or word 0 0 == dot && get_or word 1 0 == dot)

-- The loop over the components. Each turn leaves a slash behind, so that the length of the path is
-- fuel enough.
unfoldable pub safe_components : ℕ → Text → Bool
safe_components zero component = false
safe_components (suc fuel) component =
    if peek component == 0
    then true
    else if is_bad_component (before_slash component)
    then false
    else elim (after_slash component) [
      | none ↦ true
      | some rest ↦ peek rest == 0 || safe_components fuel rest
    ]

-- The path is not null: the caller passes its own buffer.
unfoldable pub is_safe_archive_path : Text → Bool
is_safe_archive_path path =
    if peek path == 0
      || peek path == slash
      || peek path == backslash
      || has_char colon path
      || has_char backslash path
    then false
    else safe_components (suc (length path)) path

pub read_le16 : List ℕ → ℕ → ℕ
read_le16 data_bytes at = bit_or (get_or data_bytes at 0) (get_or data_bytes (at + 1) 0 * 2 ^ 8)

pub read_le32 : List ℕ → ℕ → ℕ
read_le32 data_bytes at =
    bit_or
      (bit_or (bit_or (get_or data_bytes at 0) (get_or data_bytes (at + 1) 0 * 2 ^ 8))
        (get_or data_bytes (at + 2) 0 * 2 ^ 16))
      (get_or data_bytes (at + 3) 0 * 2 ^ 24)

-- `0x06054B50`, the mark of the record that ends the central directory.
abbrev pub end_mark : ℕ
end_mark = 0x06054B50

-- What the record at an index says: the offset of the central directory and the number of entries.
pub read_end_record : List ℕ → ℕ → ℕ → Option (ℕ × ℕ)
unfolding read_le16 read_le32
read_end_record tail file_size index =
    let disk = read_le16 tail (index + 4) in
    let central_disk = read_le16 tail (index + 6) in
    let entries_on_disk = read_le16 tail (index + 8) in
    let entries = read_le16 tail (index + 10) in
    let central_size = read_le32 tail (index + 12) in
    let central_offset = read_le32 tail (index + 16) in
    if disk == 0
      && central_disk == 0
      && entries == entries_on_disk
      && not (entries == 0xFFFF)
      && leb (central_offset + central_size) file_size
    then some (central_offset, entries)
    else none

-- The loop of `find_central_directory`, from an index down.
pub scan_tail : List ℕ → ℕ → ℕ → Option (ℕ × ℕ)
scan_tail tail file_size zero =
    if read_le32 tail 0 == end_mark then read_end_record tail file_size 0 else none
scan_tail tail file_size (suc index) =
    if read_le32 tail (suc index) == end_mark
    then read_end_record tail file_size (suc index)
    else scan_tail tail file_size index
