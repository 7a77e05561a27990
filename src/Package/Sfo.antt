-- ===== src/Package/Sfo.antt =====
-- src/package_installer.c: reading a string of the parameter file, and the title ID.
pub mod Lookup
pub mod Entry
pub mod Found
use vitacompanion_vitadeck.Prelude.{
  ℕ, zero, suc, ◌+◌, ◌-◌, ◌*◌, ◌/◌, ◌^◌, Bool, true, false, not, ◌&&◌, ◌||◌, Option, none, some,
  List, [], ◌∷◌, ltb, leb, ◌==◌, if◌then◌else◌, Text, length, get_or, take, drop, text_eq,
}

-- A little-endian field of a packed structure.
unfoldable pub field16 : List ℕ → ℕ → ℕ
field16 buffer at = get_or buffer at 0 + get_or buffer (at + 1) 0 * 2 ^ 8

unfoldable pub field32 : List ℕ → ℕ → ℕ
unfolding field16
field32 buffer at = field16 buffer at + field16 buffer (at + 2) * 2 ^ 16

-- `sizeof(SfoHeader)` and `sizeof(SfoEntry)`
abbrev pub header_size : ℕ
header_size = 20

abbrev pub entry_size : ℕ
entry_size = 16

-- `SfoHeader`
abbrev pub header_magic : List ℕ → ℕ
header_magic buffer = field32 buffer 0

abbrev pub header_key_offset : List ℕ → ℕ
header_key_offset buffer = field32 buffer 8

abbrev pub header_value_offset : List ℕ → ℕ
header_value_offset buffer = field32 buffer 12

abbrev pub header_count : List ℕ → ℕ
header_count buffer = field32 buffer 16

-- `entries[index]`, an `SfoEntry`
abbrev pub entry_name_offset : List ℕ → ℕ → ℕ
entry_name_offset buffer index = field16 buffer (header_size + entry_size * index)

abbrev pub entry_value_size : List ℕ → ℕ → ℕ
entry_value_size buffer index = field32 buffer (header_size + entry_size * index + 4)

abbrev pub entry_data_offset : List ℕ → ℕ → ℕ
entry_data_offset buffer index = field32 buffer (header_size + entry_size * index + 12)

-- `bounded_string_length` of a window of bytes: the limit is the length of the window.
abbrev pub bounded_string_length : List ℕ → ℕ
bounded_string_length [] = 0
bounded_string_length (c ∷ window) = if c == 0 then 0 else suc (bounded_string_length window)

-- `memchr(window, '\0', …) != NULL`
abbrev pub has_nul : List ℕ → Bool
has_nul [] = false
has_nul (c ∷ window) = c == 0 || has_nul window

-- The bytes before the first NUL.
abbrev pub string_of : List ℕ → Text
string_of window = take (bounded_string_length window) window

abbrev pub key_window : List ℕ → ℕ → List ℕ
key_window buffer index = drop (header_key_offset buffer + entry_name_offset buffer index) buffer

abbrev pub data_window : List ℕ → ℕ → List ℕ
data_window buffer index =
    take (entry_value_size buffer index)
      (drop (header_value_offset buffer + entry_data_offset buffer index) buffer)

-- The tests on entry `index`.
unfoldable pub entry_fits : List ℕ → ℕ → Bool
entry_fits buffer index =
    let size = length buffer in
    let key_offset = header_key_offset buffer + entry_name_offset buffer index in
    let data_offset = header_value_offset buffer + entry_data_offset buffer index in
    let value_size = entry_value_size buffer index in
    if leb size key_offset
      || leb size data_offset
      || value_size == 0
      || ltb (size - data_offset) value_size
    then false
    else has_nul (key_window buffer index) && has_nul (data_window buffer index)

-- What is copied of the value, for a buffer of `value_size` bytes.
unfoldable pub copied_value : List ℕ → ℕ → ℕ → Text
copied_value buffer index value_size =
    let window = data_window buffer index in
    let found = bounded_string_length window in
    take (if leb value_size found then value_size - 1 else found) window

-- The loop over the entries, from `index` on, `left` entries to go; `none` is `INSTALL_ERROR_SFO`.
unfoldable pub search : ℕ → ℕ → List ℕ → Text → ℕ → Option Text
search zero index buffer key value_size = none
search (suc left) index buffer key value_size =
    if not (entry_fits buffer index)
    then none
    else if text_eq (string_of (key_window buffer index)) key
    then some (copied_value buffer index value_size)
    else search left (index + 1) buffer key value_size

-- The text put into `value`, or `none` for `INSTALL_ERROR_SFO`.
unfoldable pub sfo_string : List ℕ → Text → ℕ → Option Text
sfo_string buffer key value_size =
    if ltb (length buffer) header_size || value_size == 0
    then none
    else if not (header_magic buffer == 0x46535000)
        || ltb ((length buffer - header_size) / entry_size) (header_count buffer)
    then none
    else search (header_count buffer) 0 buffer key value_size

abbrev pub is_title_char : ℕ → Bool
is_title_char c = (leb 65 c && leb c 90) || (leb 48 c && leb c 57)

-- The loop of `valid_title_id`, over the nine bytes.
abbrev pub all_title_chars : Text → Bool
all_title_chars [] = true
all_title_chars (c ∷ s) = if not (is_title_char c) then false else all_title_chars s

unfoldable pub valid_title_id : Text → Bool
valid_title_id title_id = if not (length title_id == 9) then false else all_title_chars title_id
