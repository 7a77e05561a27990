-- ===== src/Package/Extract.antt =====
-- src/package_installer.c: the data of one entry of the archive, stored or deflated. What `inflate`
-- does is a parameter, and so is `crc32`.
use vitacompanion_vitadeck.Prelude.{
  ℕ, zero, suc, ◌+◌, ◌-◌, Bool, true, false, not, ◌&&◌, ◌||◌, Option, none, some, List, [], ltb,
  ◌==◌, if◌then◌else◌, ℤ, pos, negsuc, is_negative, u32, Text, length, take,
}
use vitacompanion_vitadeck.Ftp.Retr.{is_zero}
use vitacompanion_vitadeck.Package.Disk.{
  create_file, seek_to, read, close, remove_file, allocate, free, inflate_init, inflate,
  inflate_end, Trace, InflateResult, stream_end, stream_ok, Disk, error_archive, error_archive_type,
  error_archive_size, error_memory, error_io, io_result, answer, make, write_all,
}
use vitacompanion_vitadeck.Package.Stage.{ensure_parent_directory}

-- INSTALL_IO_BUFFER
abbrev pub io_buffer : ℕ
io_buffer = 65536

-- What the loops leave in `result`, `checksum` and `produced_total`.
pub record Copied : Type 0 where
  pub result : ℤ
  pub checksum : ℕ
  pub produced_total : ℕ
  pub trace : Trace

abbrev pub chunk_of : ℕ → ℕ
chunk_of left = if ltb left io_buffer then left else io_buffer

-- `read == (int)chunk_size`
abbrev pub is_count : ℤ → ℕ → Bool
is_count (pos n) chunk_size = n == chunk_size
is_count (negsuc n) chunk_size = false

abbrev pub is_end : InflateResult → Bool
is_end stream_end = true
is_end _ = false

abbrev pub is_ok : InflateResult → Bool
is_ok stream_ok = true
is_ok _ = false

module _ (disk : Disk) (input output : ℤ) where
  -- The loop over a stored entry. Each turn copies one byte at least.
  unfoldable pub copy_stored : ℕ → ℕ → Copied → Copied
  copy_stored zero compressed_left c = c
  copy_stored (suc bound) compressed_left c =
      let chunk_size = chunk_of compressed_left in
      let n = answer disk (read input chunk_size) c.trace in
      let trace = make disk (read input chunk_size) c.trace in
      let bytes = take chunk_size (disk.bytes_read trace) in
      let checksum = disk.crc32 c.checksum bytes in
      let (result, trace') = write_all disk output bytes trace in
      let more = copy_stored bound (compressed_left - chunk_size) (record {
        result = result;
        checksum = checksum;
        produced_total = u32 (c.produced_total + chunk_size);
        trace = trace';
      }) in
      if compressed_left == 0
      then c
      else if not (is_count n chunk_size)
      then record c { result = io_result n; trace = trace }
      else if is_negative result
      then record c { result = result; checksum = checksum; trace = trace' }
      else more

  -- The checksum and the write of what an `inflate` has made.
  unfoldable pub store_output : List ℕ → Copied → Copied
  store_output bytes c =
      let checksum = disk.crc32 c.checksum bytes in
      let (result, trace) = write_all disk output bytes c.trace in
      if length bytes == 0 then c else record {
        result = result;
        checksum = checksum;
        produced_total =
            if is_negative result then c.produced_total else u32 (c.produced_total + length bytes);
        trace = trace;
      }

  -- The refill of the input: whether it is wanted.
  abbrev pub is_starved : ℕ → ℕ → Bool
  is_starved avail_in compressed_left = avail_in == 0 && ltb 0 compressed_left

  -- `while (!finished)`. `none` is the end of the fuel.
  unfoldable pub inflate_loop : ℕ → ℕ → ℕ → Copied → Option Copied
  inflate_loop zero avail_in compressed_left c = none
  inflate_loop (suc fuel) avail_in compressed_left c =
      let starved = is_starved avail_in compressed_left in
      let chunk_size = chunk_of compressed_left in
      let n = answer disk (read input chunk_size) c.trace in
      let refilled = if starved then make disk (read input chunk_size) c.trace else c.trace in
      let left = if starved then compressed_left - chunk_size else compressed_left in
      let trace = make disk inflate refilled in
      let produced = disk.produced trace in
      let c' = store_output produced (record c { trace = trace }) in
      let rest = inflate_loop fuel (disk.input_left trace) left c' in
      if starved && not (is_count n chunk_size)
      then some (record c { result = io_result n; trace = refilled })
      else if is_negative c'.result
      then some c'
      else if is_end (disk.inflate_result trace)
      then some c'
      else if not (is_ok (disk.inflate_result trace))
          || (length produced == 0 && disk.input_left trace == 0 && left == 0)
      then some (record c' { result = error_archive })
      else rest

  abbrev pub end_inflate : Option Copied → Option Copied
  end_inflate none = none
  end_inflate (some c) = some (record c { trace = make disk inflate_end c.trace })

  -- The choice of the method.
  unfoldable pub copy_entry : ℕ → ℕ → ℕ → ℕ → Copied → Option Copied
  copy_entry fuel method compressed_size uncompressed_size c =
      let trace = make disk inflate_init c.trace in
      let inflated =
        end_inflate (inflate_loop fuel 0 compressed_size (record c { trace = trace })) in
      if method == 0
      then if compressed_size == uncompressed_size
        then some (copy_stored compressed_size compressed_size c)
        else some (record c { result = error_archive_size })
      else if method == 8
      then if is_zero (answer disk inflate_init c.trace)
        then inflated
        else some (record c { result = error_archive; trace = trace })
      else some (record c { result = error_archive_type })

  -- `free` of a pointer that may be null.
  abbrev pub free_if : ℤ → Trace → Trace
  free_if address trace = if is_zero address then trace else make disk (free address) trace

  -- What follows the copy: the verdict, and the removal of a bad file.
  unfoldable pub finish_entry : ℤ → ℤ → ℕ → ℕ → Text → Copied → ℤ × Trace
  finish_entry input_buffer output_buffer uncompressed_size expected_crc destination c =
      let trace = make disk (close output) (free_if output_buffer (free_if input_buffer c.trace)) in
      let is_wrong =
        not (is_negative c.result)
        && (not (c.produced_total == uncompressed_size) || not (c.checksum == expected_crc)) in
      let result = if is_wrong then error_archive else c.result in
      (result, if is_negative result then make disk (remove_file destination) trace else trace)

  abbrev pub finish_copied : ℤ → ℤ → ℕ → ℕ → Text → Option Copied → Option (ℤ × Trace)
  finish_copied input_buffer output_buffer uncompressed_size expected_crc destination none = none
  finish_copied input_buffer output_buffer uncompressed_size expected_crc destination (some c) =
      some (finish_entry input_buffer output_buffer uncompressed_size expected_crc destination c)

  abbrev pub drop_output : Text → Trace → Trace
  drop_output destination trace =
      make disk (remove_file destination) (make disk (close output) trace)

  -- From the open output on.
  unfoldable pub extract_to : ℕ → ℕ → ℕ → ℕ → ℕ → ℕ → Text → Trace → Option (ℤ × Trace)
  extract_to fuel data_offset compressed_size uncompressed_size method expected_crc destination
        trace =
      let sought = answer disk (seek_to input data_offset) trace in
      let trace = make disk (seek_to input data_offset) trace in
      let input_buffer = answer disk (allocate io_buffer) trace in
      let trace' = make disk (allocate io_buffer) trace in
      let output_buffer = answer disk (allocate io_buffer) trace' in
      let trace'' = make disk (allocate io_buffer) trace' in
      let start : Copied = record {
        result = pos 0;
        checksum = disk.crc32 0 [];
        produced_total = 0;
        trace = trace'';
      } in
      let copied = copy_entry fuel method compressed_size uncompressed_size start in
      if is_negative sought
      then some (error_io, drop_output destination trace)
      else if is_zero input_buffer || is_zero output_buffer
      then some (
        error_memory,
        drop_output destination (free_if output_buffer (free_if input_buffer trace'')),
      )
      else finish_copied input_buffer output_buffer uncompressed_size expected_crc destination
          copied

-- The archive, the offset and the sizes of the data, the method, the checksum, and the destination.
unfoldable pub extract_zip_data :
    Disk → ℕ → ℤ → ℕ → ℕ → ℕ → ℕ → ℕ → Text → Trace → Option (ℤ × Trace)
extract_zip_data disk fuel input data_offset compressed_size uncompressed_size method expected_crc
      destination trace =
    let (result, trace) = ensure_parent_directory disk destination trace in
    let output = answer disk (create_file destination) trace in
    let trace' = make disk (create_file destination) trace in
    let extracted =
      extract_to disk input output fuel data_offset compressed_size uncompressed_size method
        expected_crc destination trace' in
    if is_negative result
    then some (result, trace)
    else if is_negative output
    then some (output, trace')
    else extracted
