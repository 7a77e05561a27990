-- ===== src/Package/Disk.antt =====
-- src/package_installer.c: the calls of the installer, and reading and writing whole buffers. The calls
-- are recorded with their answers, the latest first, and what the system answers may depend on all.
use vitacompanion_vitadeck.Prelude.{
  ℕ, zero, suc, ◌-◌, Bool, List, [], ◌∷◌, ◌++◌, ◌==◌, if◌then◌else◌, ℤ, pos, negsuc, is_negative,
  cast_u32, Text, codes, length, take, drop,
}
use vitacompanion_vitadeck.Ftp.Retr.{is_not_positive}

pub data Call : Type 0 where
  open_read create_file : Text → Call
  seek_end : ℤ → Call
  seek_to : ℤ → ℕ → Call
  read : ℤ → ℕ → Call
  write : ℤ → List ℕ → Call
  close : ℤ → Call
  remove_file : Text → Call
  get_stat : Text → Call
  open_directory : Text → Call
  read_directory close_directory : ℤ → Call
  make_directory remove_directory : Text → Call
  allocate : ℕ → Call
  free : ℤ → Call
  inflate_init inflate inflate_end : Call

pub data Event : Type 0 where
  event : Call → ℤ → Event

abbrev pub Trace : Type 0
Trace = List Event

-- What `inflate` leaves: Z_STREAM_END or Z_OK or another result, the output, and the input left.
pub data InflateResult : Type 0 where
  stream_end stream_ok stream_error : InflateResult

-- The results of the calls, and what they store: the bytes of a read, the name of an entry, whether a
-- stat is of a directory, what an `inflate` has made. `crc32` is zlib's.
pub record Disk : Type 0 where
  pub answer : Trace → Call → ℤ
  pub bytes_read : Trace → List ℕ
  pub entry_name : Trace → Text
  pub is_directory : Trace → Bool
  pub inflate_result : Trace → InflateResult
  pub produced : Trace → List ℕ
  pub input_left : Trace → ℕ
  pub crc32 : ℕ → List ℕ → ℕ

-- The errors of the installer.
abbrev pub error_archive : ℤ
error_archive = negsuc 0x7101

abbrev pub error_archive_path : ℤ
error_archive_path = negsuc 0x7102

abbrev pub error_archive_type : ℤ
error_archive_type = negsuc 0x7103

abbrev pub error_archive_size : ℤ
error_archive_size = negsuc 0x7104

abbrev pub error_sfo : ℤ
error_sfo = negsuc 0x7105

abbrev pub error_title_id : ℤ
error_title_id = negsuc 0x7106

abbrev pub error_memory : ℤ
error_memory = negsuc 0x7107

abbrev pub error_io : ℤ
error_io = negsuc 0x7108

abbrev pub error_argument : ℤ
error_argument = negsuc 0x7100

-- INSTALL_PATH_MAX
abbrev pub path_max : ℕ
path_max = 1024

abbrev pub install_stage : Text
install_stage = codes "ux0:data/vitacompanion-package"

-- `n < 0 ? n : INSTALL_ERROR_IO`
abbrev pub io_result : ℤ → ℤ
io_result n = if is_negative n then n else error_io

module _ (disk : Disk) where
  abbrev pub answer : Call → Trace → ℤ
  answer call trace = disk.answer trace call

  unfoldable pub make : Call → Trace → Trace
  make call trace = event call (disk.answer trace call) ∷ trace

  -- The loop of `read_at` over the bytes left. Each turn reads one byte at least, so that the size is
  -- bound enough.
  unfoldable pub read_loop : ℕ → ℤ → ℕ → Trace → ℤ × List ℕ × Trace
  read_loop zero file left trace = (pos 0, [], trace)
  read_loop (suc bound) file left trace =
      let n = answer (read file left) trace in
      let trace' = make (read file left) trace in
      let (result, bytes, trace'') = read_loop bound file (left - cast_u32 n) trace' in
      if left == 0
      then (pos 0, [], trace)
      else if is_not_positive n
      then (io_result n, [], trace')
      else (result, take (cast_u32 n) (disk.bytes_read trace') ++ bytes, trace'')

  unfoldable pub read_at : ℤ → ℕ → ℕ → Trace → ℤ × List ℕ × Trace
  read_at file offset size trace =
      let trace' = make (seek_to file offset) trace in
      if is_negative (answer (seek_to file offset) trace)
      then (error_io, [], trace')
      else read_loop size file size trace'

  -- The loop of `write_all`; each turn writes one byte at least.
  unfoldable pub write_loop : ℕ → ℤ → List ℕ → Trace → ℤ × Trace
  write_loop zero file bytes trace = (pos 0, trace)
  write_loop (suc bound) file bytes trace =
      let n = answer (write file bytes) trace in
      let trace' = make (write file bytes) trace in
      let rest = write_loop bound file (drop (cast_u32 n) bytes) trace' in
      if length bytes == 0
      then (pos 0, trace)
      else if is_not_positive n
      then (io_result n, trace')
      else rest

  unfoldable pub write_all : ℤ → List ℕ → Trace → ℤ × Trace
  write_all file bytes trace = write_loop (length bytes) file bytes trace
