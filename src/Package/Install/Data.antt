-- ===== src/Package/Install/Data.antt =====
-- The data of an entry: the copy returns, and touches no path but those of the entry.
use vitacompanion_vitadeck.Prelude.{
  ℕ, zero, suc, ◌+◌, ◌-◌, ◌≤◌, ◌<◌, ◌≡◌, inl, inr, false, not, ◌&&◌, ◌||◌, Bool-cases, List, [],
  ◌==◌, if◌then◌else◌, ℤ, pos, is_negative, Text, length, take, arith, Yields, Yields-found,
}
use vitacompanion_vitadeck.Ftp.Retr.{is_zero}
use vitacompanion_vitadeck.Package.Disk.{
  create_file, seek_to, read, close, remove_file, allocate, free, inflate_init, inflate,
  inflate_end, Trace, Disk, error_archive, make, write_all,
}
use vitacompanion_vitadeck.Package.Stage.{ensure_parent_directory}
use vitacompanion_vitadeck.Package.Extract.{
  io_buffer, Copied, chunk_of, is_count, is_end, is_ok, is_starved, copy_stored, store_output,
  inflate_loop, copy_entry, free_if, finish_entry, drop_output, extract_to, extract_zip_data,
}
use vitacompanion_vitadeck.Package.Install.Inside.{
  IsStaged, Staged, Staged-le, make-next, make-Staged, write_all-Staged,
}
use vitacompanion_vitadeck.Package.Install.Folders.{ensure_parent_directory-Staged}

-- From `limit` calls on `inflate` does not go on.
abbrev pub InflateEnds : Disk → ℕ → Type 0
InflateEnds disk limit =
    (trace : Trace) → limit ≤ length trace → is_ok (disk.inflate_result trace) ≡ false

module _ (disk : Disk) (input output : ℤ) where
  copy_stored-Staged :
      (n bound compressed_left : ℕ) (c : Copied)
      → Staged disk n c.trace
      → Staged disk n (copy_stored disk input output bound compressed_left c).trace
  unfolding copy_stored
  copy_stored-Staged n zero compressed_left c s = s
  copy_stored-Staged n (suc bound) compressed_left c s =
      let chunk_size = chunk_of compressed_left in
      let call = read input chunk_size in
      let trace = make disk call c.trace in
      let s' = make-Staged disk n call c.trace tt s in
      let bytes = take chunk_size (disk.bytes_read trace) in
      let wrote = write_all disk output bytes trace in
      let s'' = write_all-Staged disk n output bytes trace s' in
      elim (Bool-cases (compressed_left == 0)) [
        | inl end ↦ rw end s
        | inr more ↦ elim (Bool-cases (is_count (disk.answer c.trace call) chunk_size)) [
          | inr short ↦ rw (more, short) s'
          | inl whole ↦ elim (Bool-cases (is_negative wrote.0)) [
            | inl failed ↦ rw (more, whole, failed) s''
            | inr good ↦
                rw (more, whole, good)
                  (copy_stored-Staged n bound (compressed_left - chunk_size) _ s'')
          ]
        ]
      ]

  store_output-Staged :
      (n : ℕ) (bytes : List ℕ) (c : Copied)
      → Staged disk n c.trace
      → Staged disk n (store_output disk input output bytes c).trace
  unfolding store_output
  store_output-Staged n bytes c s = elim (Bool-cases (length bytes == 0)) [
    | inl nothing ↦ rw nothing s
    | inr something ↦ rw something (write_all-Staged disk n output bytes c.trace s)
  ]

  inflate_loop-Staged :
      (limit fuel n avail_in compressed_left : ℕ) (c : Copied)
      → InflateEnds disk limit
      → 0 < fuel
      → limit < fuel + n
      → Staged disk n c.trace
      → Yields
          (λ out. Staged disk n out.trace)
          (inflate_loop disk input output fuel avail_in compressed_left c)
  unfolding inflate_loop
  inflate_loop-Staged limit zero n avail_in compressed_left c ends some_fuel enough s =
      absurd (omega arith)
  inflate_loop-Staged limit (suc fuel) n avail_in compressed_left c ends some_fuel enough s =
      let starved = is_starved disk input output avail_in compressed_left in
      let chunk_size = chunk_of compressed_left in
      let call = read input chunk_size in
      let refilled = if starved then make disk call c.trace else c.trace in
      let s' : Staged disk n refilled = elim (Bool-cases starved) [
        | inl more ↦ rw more (make-Staged disk n call c.trace tt s)
        | inr enough_left ↦ rw enough_left s
      ] in
      let left = if starved then compressed_left - chunk_size else compressed_left in
      let trace = make disk inflate refilled in
      let s'' = make-next disk n inflate refilled tt s' in
      let made = disk.produced trace in
      let c' = store_output disk input output made (record c { trace = trace }) in
      let next = store_output-Staged (suc n) made (record c { trace = trace }) s'' in
      let out = Staged-le disk (suc n) n c'.trace (omega arith) next in
      elim (Bool-cases (starved && not (is_count (disk.answer c.trace call) chunk_size))) [
        | inl short ↦ rw short s'
        | inr whole ↦ elim (Bool-cases (is_negative c'.result)) [
          | inl failed ↦ rw (whole, failed) out
          | inr good ↦ elim (Bool-cases (is_end (disk.inflate_result trace))) [
            | inl end ↦ rw (whole, good, end) out
            | inr on ↦
                elim (Bool-cases (
                  not (is_ok (disk.inflate_result trace))
                  || (length made == 0 && disk.input_left trace == 0 && left == 0))) [
                    | inl stuck ↦ rw (whole, good, on, stuck) out
                    | inr going ↦
                        let early : n < limit =
                          let h = ends trace in let l = s''.longer in ground (arith, going, h, l) in
                        let (end, went, at_end) =
                          Yields-found (λ out. Staged disk (suc n) out.trace)
                            (inflate_loop disk input output fuel (disk.input_left trace) left c')
                            (inflate_loop-Staged limit fuel (suc n) (disk.input_left trace) left c'
                              ends (omega arith) (omega arith) next) in
                        rw (whole, good, on, going, went)
                          (Staged-le disk (suc n) n end.trace (omega arith) at_end)
                  ]
          ]
        ]
      ]

module _ (disk : Disk) (input output : ℤ) (limit fuel n : ℕ) (ends : InflateEnds disk limit)
    (enough : limit < fuel) where
  copy_entry-Staged :
      (method compressed_size uncompressed_size : ℕ) (c : Copied)
      → Staged disk n c.trace
      → Yields
          (λ out. Staged disk n out.trace)
          (copy_entry disk input output fuel method compressed_size uncompressed_size c)
  unfolding copy_entry
  copy_entry-Staged method compressed_size uncompressed_size c s =
      let s' = make-Staged disk n inflate_init c.trace tt s in
      let start = record c { trace = make disk inflate_init c.trace } in
      elim (Bool-cases (method == 0)) [
        | inl stored ↦ elim (Bool-cases (compressed_size == uncompressed_size)) [
          | inl same ↦
              rw (stored, same)
                (copy_stored-Staged disk input output n compressed_size compressed_size c s)
          | inr different ↦ rw (stored, different) s
        ]
        | inr other ↦ elim (Bool-cases (method == 8)) [
          | inr unknown ↦ rw (other, unknown) s
          | inl deflated ↦ elim (Bool-cases (is_zero (disk.answer c.trace inflate_init))) [
            | inr refused ↦ rw (other, deflated, refused) s'
            | inl ready ↦
                let (end, went, at_end) =
                  Yields-found (λ out. Staged disk n out.trace)
                    (inflate_loop disk input output fuel 0 compressed_size start)
                    (inflate_loop-Staged disk input output limit fuel n 0 compressed_size start ends
                      (omega arith) (omega arith) s') in
                rw (other, deflated, ready, went)
                  (make-Staged disk n inflate_end end.trace tt at_end)
          ]
        ]
      ]

  free_if-Staged :
      (address : ℤ) (trace : Trace)
      → Staged disk n trace
      → Staged disk n (free_if disk input output address trace)
  free_if-Staged address trace s = elim (Bool-cases (is_zero address)) [
    | inl null ↦ rw null s
    | inr there ↦ rw there (make-Staged disk n (free address) trace tt s)
  ]

  finish_entry-Staged :
      (input_buffer output_buffer : ℤ) (uncompressed_size expected_crc : ℕ) (destination : Text)
      (c : Copied)
      → IsStaged destination
      → Staged disk n c.trace
      → Staged disk n
          (finish_entry disk input output input_buffer output_buffer uncompressed_size expected_crc
            destination c).1
  unfolding finish_entry
  finish_entry-Staged input_buffer output_buffer uncompressed_size expected_crc destination c is s =
      let freed = free_if disk input output input_buffer c.trace in
      let freed' = free_if disk input output output_buffer freed in
      let s' =
        make-Staged disk n (close output) freed' tt
          (free_if-Staged output_buffer freed (free_if-Staged input_buffer c.trace s)) in
      let is_wrong =
        not (is_negative c.result)
        && (not (c.produced_total == uncompressed_size) || not (c.checksum == expected_crc)) in
      let result = if is_wrong then error_archive else c.result in
      elim (Bool-cases (is_negative result)) [
        | inl bad ↦ rw bad (make-Staged disk n (remove_file destination) _ (inl is) s')
        | inr good ↦ rw good s'
      ]

  drop_output-Staged :
      (destination : Text) (trace : Trace)
      → IsStaged destination
      → Staged disk n trace
      → Staged disk n (drop_output disk input output destination trace)
  drop_output-Staged destination trace is s =
      make-Staged disk n (remove_file destination) (make disk (close output) trace) (inl is)
        (make-Staged disk n (close output) trace tt s)

  extract_to-Staged :
      (data_offset compressed_size uncompressed_size method expected_crc : ℕ) (destination : Text)
      (trace : Trace)
      → IsStaged destination
      → Staged disk n trace
      → Yields
          (λ out. Staged disk n out.1)
          (extract_to disk input output fuel data_offset compressed_size uncompressed_size method
            expected_crc destination trace)
  unfolding extract_to
  extract_to-Staged data_offset compressed_size uncompressed_size method expected_crc destination
        trace is s =
      let sought = make disk (seek_to input data_offset) trace in
      let input_buffer = disk.answer sought (allocate io_buffer) in
      let first = make disk (allocate io_buffer) sought in
      let output_buffer = disk.answer first (allocate io_buffer) in
      let second = make disk (allocate io_buffer) first in
      let s' = make-Staged disk n (seek_to input data_offset) trace tt s in
      let s'' =
        make-Staged disk n (allocate io_buffer) first tt
          (make-Staged disk n (allocate io_buffer) sought tt s') in
      elim (Bool-cases (is_negative (disk.answer trace (seek_to input data_offset)))) [
        | inl lost ↦ rw lost (drop_output-Staged destination sought is s')
        | inr there ↦ elim (Bool-cases (is_zero input_buffer || is_zero output_buffer)) [
          | inl refused ↦
              rw (there, refused)
                (drop_output-Staged destination _ is
                  (free_if-Staged output_buffer _ (free_if-Staged input_buffer second s'')))
          | inr given ↦
              let start : Copied = record {
                result = pos 0;
                checksum = disk.crc32 0 [];
                produced_total = 0;
                trace = second;
              } in
              let (end, went, at_end) =
                Yields-found (λ out. Staged disk n out.trace)
                  (copy_entry disk input output fuel method compressed_size uncompressed_size start)
                  (copy_entry-Staged method compressed_size uncompressed_size start s'') in
              rw (there, given, went)
                (finish_entry-Staged input_buffer output_buffer uncompressed_size expected_crc
                  destination end is at_end)
        ]
      ]

pub extract_zip_data-Staged :
    (disk : Disk) (limit fuel n : ℕ) (input : ℤ)
    (data_offset compressed_size uncompressed_size method expected_crc : ℕ) (destination : Text)
    (trace : Trace)
    → InflateEnds disk limit
    → limit < fuel
    → IsStaged destination
    → Staged disk n trace
    → Yields
        (λ out. Staged disk n out.1)
        (extract_zip_data disk fuel input data_offset compressed_size uncompressed_size method
          expected_crc destination trace)
unfolding extract_zip_data
extract_zip_data-Staged disk limit fuel n input data_offset compressed_size uncompressed_size method
      expected_crc destination trace ends enough is s =
    let parent = ensure_parent_directory disk destination trace in
    let output = disk.answer parent.1 (create_file destination) in
    let s' = ensure_parent_directory-Staged disk n destination trace is s in
    let s'' = make-Staged disk n (create_file destination) parent.1 is s' in
    elim (Bool-cases (is_negative parent.0)) [
      | inl failed ↦ rw failed s'
      | inr there ↦ elim (Bool-cases (is_negative output)) [
        | inl refused ↦ rw (there, refused) s''
        | inr made ↦
            rw (there, made)
              (extract_to-Staged disk input output limit fuel n ends enough data_offset
                compressed_size uncompressed_size method expected_crc destination _ is s'')
      ]
    ]
