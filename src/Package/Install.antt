-- ===== src/Package/Install.antt =====
-- src/package_installer.c: the walk over the archive, and the installation as a whole.
pub mod Inside
pub mod Folders
pub mod Data
pub mod Walk
pub mod Removal
pub mod Header
pub mod Cleanup
use vitacompanion_vitadeck.Prelude.{
  ℕ, zero, suc, ◌+◌, ◌-◌, ◌*◌, ◌/◌, ◌^◌, Bool, true, false, not, ◌&&◌, ◌||◌, ◌⊎◌, inl, inr, Option,
  none, some, List, [], ◌∷◌, ◌++◌, ltb, leb, ◌==◌, if◌then◌else◌, ℤ, pos, negsuc, is_negative,
  bit_and, Text, codes, length, get_or, take, drop, snprintf, c_string, text_eq,
}
use vitacompanion_vitadeck.Ftp.Retr.{is_zero}
use vitacompanion_vitadeck.Sha1.{Context}
use vitacompanion_vitadeck.Package.Archive.{is_safe_archive_path, read_le16, read_le32, scan_tail}
use vitacompanion_vitadeck.Package.Head.{HeadError, bad_sfo, bad_title_id, make_head}
use vitacompanion_vitadeck.Package.Disk.{
  open_read, create_file, seek_end, seek_to, write, close, allocate, free, Trace, Disk,
  error_argument, error_archive, error_archive_path, error_archive_type, error_archive_size,
  error_sfo, error_title_id, error_memory, error_io, io_result, path_max, install_stage, answer,
  make, read_at, read_loop,
}
use vitacompanion_vitadeck.Package.Stage.{ensure_directory, ensure_parent_directory, remove_tree}
use vitacompanion_vitadeck.Package.Extract.{is_count, extract_zip_data}
use vitacompanion_vitadeck.Package.Sfo.{sfo_string, valid_title_id}
use vitacompanion_vitadeck.Package.Promote as Promote
use vitacompanion_vitadeck.Package.Promote.{promote_stage}
use vitacompanion_vitadeck.Package.HeadFile.{
  install_sfo, install_head, Contents, read_sized, read_to, read_file, write_head, Titled, put_head,
  make_and_write, head_of_title, head_of_file, make_head_bin,
}

-- The fields of an entry of the central directory.
pub record Central : Type 0 where
  pub flags : ℕ
  pub method : ℕ
  pub expected_crc : ℕ
  pub compressed_size : ℕ
  pub uncompressed_size : ℕ
  pub name_size : ℕ
  pub extra_size : ℕ
  pub comment_size : ℕ
  pub disk : ℕ
  pub attributes : ℕ
  pub local_offset : ℕ

unfoldable pub read_central : List ℕ → Central
read_central central = record {
  flags = read_le16 central 8;
  method = read_le16 central 10;
  expected_crc = read_le32 central 16;
  compressed_size = read_le32 central 20;
  uncompressed_size = read_le32 central 24;
  name_size = read_le16 central 28;
  extra_size = read_le16 central 30;
  comment_size = read_le16 central 32;
  disk = read_le16 central 34;
  attributes = read_le32 central 38;
  local_offset = read_le32 central 42;
}

abbrev pub next_cursor : ℕ → Central → ℕ
next_cursor cursor c = cursor + 46 + c.name_size + c.extra_size + c.comment_size

unfoldable pub is_bad_central : ℕ → ℕ → Central → Bool
is_bad_central file_size cursor c =
    not (bit_and c.flags 1 == 0)
    || not (c.disk == 0)
    || c.name_size == 0
    || leb 512 c.name_size
    || c.compressed_size == 0xFFFFFFFF
    || c.uncompressed_size == 0xFFFFFFFF
    || c.local_offset == 0xFFFFFFFF
    || not (c.method == 0 || c.method == 8)
    || ltb file_size (next_cursor cursor c)

-- Neither a plain file nor a directory.
unfoldable pub is_bad_type : Central → Bool
is_bad_type c =
    let unix_type = bit_and (c.attributes / 2 ^ 16) 0xF000 in
    not (unix_type == 0 || unix_type == 0x8000 || unix_type == 0x4000)

-- INSTALL_TOTAL_MAX
abbrev pub total_max : ℕ
total_max = 4 * 1024 * 1024 * 1024

-- An entry's result, and `total_size` and the calls behind it.
abbrev pub Outcome : Type 0
Outcome = Option (ℤ × ℕ × Trace)

abbrev pub with_total : ℕ → Option (ℤ × Trace) → Outcome
with_total total_size none = none
with_total total_size (some (result, trace)) = some (result, total_size, trace)

module _ (disk : Disk) (fuel : ℕ) (file : ℤ) (file_size : ℕ) where
  -- A file: its local header, and its data.
  unfoldable pub extract_file : Central → Text → Trace → Option (ℤ × Trace)
  extract_file c destination trace =
      let (result, local, trace) = read_at disk file c.local_offset 30 trace in
      let data_offset = c.local_offset + 30 + read_le16 local 26 + read_le16 local 28 in
      let extracted =
        extract_zip_data disk fuel file data_offset c.compressed_size c.uncompressed_size c.method
          c.expected_crc destination trace in
      if is_negative result
        || not (read_le32 local 0 == 0x04034B50)
        || not (read_le16 local 8 == c.method)
      then some (error_archive, trace)
      else if ltb file_size (data_offset + c.compressed_size)
      then some (error_archive, trace)
      else extracted

  -- From the name on that was read.
  unfoldable pub extract_named : Central → List ℕ → ℕ → Trace → Outcome
  extract_named c name total_size trace =
      let entry_path = c_string name in
      let total = total_size + c.uncompressed_size in
      let destination = install_stage ++ (47 ∷ entry_path) in
      if not (is_safe_archive_path entry_path)
      then some (error_archive_path, total_size, trace)
      else if is_bad_type c
      then some (error_archive_type, total_size, trace)
      else if ltb (total_max - total_size) c.uncompressed_size
      then some (error_archive_size, total_size, trace)
      else if leb path_max (length destination)
      then some (error_archive_path, total, trace)
      else if get_or name (c.name_size - 1) 0 == 47
      then with_total total
          (some (ensure_directory disk (take (length destination - 1) destination) trace))
      else with_total total (extract_file c destination trace)

  -- From the central entry on that was read.
  unfoldable pub extract_entry : ℕ → Central → ℕ → Trace → Outcome
  extract_entry cursor c total_size trace =
      let (result, name, trace') = read_at disk file (cursor + 46) c.name_size trace in
      if is_bad_central file_size cursor c
      then some (error_archive, total_size, trace)
      else if is_negative result
      then some (result, total_size, trace')
      else extract_named c name total_size trace'

  -- The loop over the entries left.
  unfoldable pub extract_entries : ℕ → ℕ → ℕ → Trace → Option (ℤ × Trace)
  extract_entries zero cursor total_size trace = some (pos 0, trace)
  extract_entries (suc entries) cursor total_size trace =
      let (result, central, trace') = read_at disk file cursor 46 trace in
      let c = read_central central in
      let rest : Option (ℤ × Trace) = elim (extract_entry cursor c total_size trace') [
        | none ↦ none
        | some (result, total, trace'') ↦
            let more = extract_entries entries (next_cursor cursor c) total trace'' in
            if is_negative result then some (result, trace'') else more
      ] in
      if is_negative result || not (read_le32 central 0 == 0x02014B50)
      then some (error_archive, trace')
      else rest

-- The search for the central directory: its offset and the number of entries, or an error.
unfoldable pub find_central_directory : Disk → ℤ → ℕ → Trace → (ℤ ⊎ (ℕ × ℕ)) × Trace
find_central_directory disk file file_size trace =
    let tail_size = if ltb file_size 0x10016 then file_size else 0x10016 in
    let tail_buffer = answer disk (allocate tail_size) trace in
    let trace = make disk (allocate tail_size) trace in
    let (result, tail, trace') = read_at disk file (file_size - tail_size) tail_size trace in
    let trace'' = make disk (free tail_buffer) trace' in
    if is_zero tail_buffer
    then (inl error_memory, trace)
    else if is_negative result
    then (inl result, trace'')
    else (
      elim (scan_tail tail file_size (tail_size - 22)) [
        | none ↦ inl error_archive
        | some found ↦ inr found
      ],
      trace'',
    )

abbrev pub close_archive : Disk → ℤ → Option (ℤ × Trace) → Option (ℤ × Trace)
close_archive disk file none = none
close_archive disk file (some (result, trace)) = some (result, make disk (close file) trace)

-- The walk behind the search.
abbrev pub walk : Disk → ℕ → ℤ → ℕ → (ℤ ⊎ (ℕ × ℕ)) × Trace → Option (ℤ × Trace)
walk disk fuel file file_size (inl result, trace) = some (result, trace)
walk disk fuel file file_size (inr (central_offset, entry_count), trace) =
    extract_entries disk fuel file file_size entry_count central_offset 0 trace

-- From the size of the archive on.
abbrev pub extract_sized : Disk → ℕ → ℤ → ℤ → Trace → Option (ℤ × Trace)
extract_sized disk fuel file (negsuc n) trace = some (error_archive, make disk (close file) trace)
extract_sized disk fuel file (pos file_size) trace =
    if ltb file_size 22
    then some (error_archive, make disk (close file) trace)
    else close_archive disk file
        (walk disk fuel file file_size (find_central_directory disk file file_size trace))

unfoldable pub extract_vpk : Disk → ℕ → Text → Trace → Option (ℤ × Trace)
extract_vpk disk fuel vpk_path trace =
    let file = answer disk (open_read vpk_path) trace in
    let trace = make disk (open_read vpk_path) trace in
    if is_negative file
    then some (file, trace)
    else extract_sized disk fuel file (answer disk (seek_end file) trace)
        (make disk (seek_end file) trace)

-- `strcmp(vpk_path + path_length - 4, ".vpk") == 0`
abbrev pub is_vpk : Text → Bool
is_vpk vpk_path =
    leb 5 (length vpk_path) && text_eq (drop (length vpk_path - 4) vpk_path) (codes ".vpk")

-- The cleanup: its error counts when there was none before.
abbrev pub clean_up : Disk → ℕ → Titled → Option Titled
clean_up disk fuel (result, title_id, trace) = elim (remove_tree disk fuel install_stage trace) [
  | none ↦ none
  | some (cleanup_result, trace) ↦ some (
    if not (is_negative result) && is_negative cleanup_result then cleanup_result else result,
    title_id,
    trace,
  )
]

-- Behind the extraction.
abbrev pub promote_titled : Promote.System → Titled → Titled
promote_titled promoter (result, title_id, trace) =
    (if is_negative result then result else (promote_stage promoter []).0, title_id, trace)

abbrev pub after_extraction :
    Disk → ℕ → Promote.System → Context → List ℕ → ℕ → Option (ℤ × Trace) → Option Titled
after_extraction disk fuel promoter context template title_id_size none = none
after_extraction disk fuel promoter context template title_id_size (some (result, trace)) =
    if is_negative result
    then clean_up disk fuel (result, [], trace)
    else clean_up disk fuel
        (promote_titled promoter (make_head_bin disk context template title_id_size trace))

-- From the emptied stage on.
abbrev pub install_staged :
    Disk → ℕ → Promote.System → Context → List ℕ → Text → ℕ → Trace → Option Titled
install_staged disk fuel promoter context template vpk_path title_id_size trace =
    let (result, trace) = ensure_directory disk install_stage trace in
    if is_negative result
    then clean_up disk fuel (result, [], trace)
    else after_extraction disk fuel promoter context template title_id_size
        (extract_vpk disk fuel vpk_path trace)

abbrev pub after_removal :
    Disk → ℕ → Promote.System → Context → List ℕ → Text → ℕ → Option (ℤ × Trace) → Option Titled
after_removal disk fuel promoter context template vpk_path title_id_size none = none
after_removal disk fuel promoter context template vpk_path title_id_size (some (result, trace)) =
    install_staged disk fuel promoter context template vpk_path title_id_size trace

-- The system's answers on the disk and to the promotion, the context that the heap happens to hold, the
-- template of the header, the path, and the size of the buffer for the title ID. With bad arguments that
-- buffer is left alone, which is no title ID here. `none` is the end of the fuel.
unfoldable pub install_vpk :
    Disk → ℕ → Promote.System → Context → List ℕ → Text → ℕ → Trace → Option Titled
install_vpk disk fuel promoter context template vpk_path title_id_size trace =
    if ltb title_id_size 10 || not (is_vpk vpk_path)
    then some (error_argument, [], trace)
    else after_removal disk fuel promoter context template vpk_path title_id_size
        (remove_tree disk fuel install_stage trace)
