-- ===== src/Package/Install/Walk.antt =====
-- The walk over the archive returns, and the paths that it makes and removes are known.
use vitacompanion_vitadeck.Prelude.{
  ℕ, zero, suc, ◌+◌, ◌-◌, ◌<◌, refl, inl, inr, not, ◌||◌, Bool-cases, Option, none, some, List, ◌∷◌,
  ◌++◌, ltb, leb, ◌==◌, ◌⊎◌, if◌then◌else◌, ℤ, pos, negsuc, is_negative, Text, length, get_or, take,
  c_string, arith, Yields, Yields-found, Yields-map,
}
use vitacompanion_vitadeck.Ftp.Retr.{is_zero}
use vitacompanion_vitadeck.Package.Archive.{is_safe_archive_path, read_le16, read_le32}
use vitacompanion_vitadeck.Package.Disk.{
  open_read, seek_end, close, allocate, free, Trace, Disk, path_max, install_stage, make, read_at,
}
use vitacompanion_vitadeck.Package.Install.{
  Central, read_central, next_cursor, is_bad_central, is_bad_type, total_max, extract_file,
  extract_named, extract_entry, extract_entries, find_central_directory, close_archive, walk,
  extract_sized, extract_vpk,
}
use vitacompanion_vitadeck.Package.Install.Inside.{
  IsStaged, IsRead, take-length, AllAllowed, Staged, make-Staged, read_at-Staged,
}
use vitacompanion_vitadeck.Package.Install.Folders.{ensure_directory-Staged}
use vitacompanion_vitadeck.Package.Install.Data.{InflateEnds, extract_zip_data-Staged}

module _ (disk : Disk) (limit fuel n : ℕ) (file : ℤ) (file_size : ℕ) (ends : InflateEnds disk limit)
    (enough : limit < fuel) where
  extract_file-Staged :
      (c : Central) (destination : Text) (trace : Trace)
      → IsStaged destination
      → Staged disk n trace
      → Yields
          (λ out. Staged disk n out.1)
          (extract_file disk fuel file file_size c destination trace)
  unfolding extract_file
  extract_file-Staged c destination trace is s =
      let (result, local, trace') = read_at disk file c.local_offset 30 trace in
      let s' = read_at-Staged disk n file c.local_offset 30 trace s in
      let data_offset = c.local_offset + 30 + read_le16 local 26 + read_le16 local 28 in
      elim (Bool-cases (
        is_negative result
        || not (read_le32 local 0 == 0x04034B50)
        || not (read_le16 local 8 == c.method))) [
          | inl bad ↦ rw bad s'
          | inr good ↦ elim (Bool-cases (ltb file_size (data_offset + c.compressed_size))) [
            | inl long ↦ rw (good, long) s'
            | inr inside ↦
                rw (good, inside)
                  (extract_zip_data-Staged disk limit fuel n file data_offset c.compressed_size
                    c.uncompressed_size c.method c.expected_crc destination trace' ends enough is
                    s')
          ]
        ]

  extract_named-Staged :
      (c : Central) (name : List ℕ) (total_size : ℕ) (trace : Trace)
      → IsRead disk name c.name_size
      → Staged disk n trace
      → Yields
          (λ out. Staged disk n out.2)
          (extract_named disk fuel file file_size c name total_size trace)
  unfolding extract_named
  extract_named-Staged c name total_size trace read s =
      let entry_path = c_string name in
      let destination = install_stage ++ (47 ∷ entry_path) in
      elim (Bool-cases (is_safe_archive_path entry_path)) [
        | inr unsafe ↦ rw unsafe s
        | inl safe ↦
            let is : IsStaged destination = (entry_path, refl, safe) in
            elim (Bool-cases (is_bad_type c)) [
              | inl bad ↦ rw (safe, bad) s
              | inr good ↦ elim (Bool-cases (ltb (total_max - total_size) c.uncompressed_size)) [
                | inl big ↦ rw (safe, good, big) s
                | inr small ↦ elim (Bool-cases (leb path_max (length destination))) [
                  | inl long ↦ rw (safe, good, small, long) s
                  | inr short ↦ elim (Bool-cases (get_or name (c.name_size - 1) 0 == 47)) [
                    | inl directory ↦
                        rw (safe, good, small, short, directory)
                          (ensure_directory-Staged disk n
                            (take (length destination - 1) destination) trace
                            (inr (
                              name,
                              c.name_size,
                              get_or destination (length destination - 1) 0,
                              read,
                              ground (arith, directory),
                              safe,
                              take-length destination (omega arith),
                            ))
                            s)
                    | inr plain ↦
                        let (end, went, at_end) =
                          Yields-found (λ out. Staged disk n out.1)
                            (extract_file disk fuel file file_size c destination trace)
                            (extract_file-Staged c destination trace is s) in
                        rw (safe, good, small, short, plain, went) at_end
                  ]
                ]
              ]
            ]
      ]

  extract_entry-Staged :
      (cursor : ℕ) (c : Central) (total_size : ℕ) (trace : Trace)
      → Staged disk n trace
      → Yields
          (λ out. Staged disk n out.2)
          (extract_entry disk fuel file file_size cursor c total_size trace)
  unfolding extract_entry
  extract_entry-Staged cursor c total_size trace s =
      let (result, name, trace') = read_at disk file (cursor + 46) c.name_size trace in
      let s' = read_at-Staged disk n file (cursor + 46) c.name_size trace s in
      elim (Bool-cases (is_bad_central file_size cursor c)) [
        | inl bad ↦ rw bad s
        | inr good ↦ elim (Bool-cases (is_negative result)) [
          | inl failed ↦ rw (good, failed) s'
          | inr named ↦
              rw (good, named)
                (extract_named-Staged c name total_size trace' (file, cursor + 46, trace, refl) s')
        ]
      ]

  extract_entries-Staged :
      (entries cursor total_size : ℕ) (trace : Trace)
      → Staged disk n trace
      → Yields
          (λ out. Staged disk n out.1)
          (extract_entries disk fuel file file_size entries cursor total_size trace)
  unfolding extract_entries
  extract_entries-Staged zero cursor total_size trace s = s
  extract_entries-Staged (suc entries) cursor total_size trace s =
      let (result, central, trace') = read_at disk file cursor 46 trace in
      let s' = read_at-Staged disk n file cursor 46 trace s in
      let c = read_central central in
      elim (Bool-cases (is_negative result || not (read_le32 central 0 == 0x02014B50))) [
        | inl bad ↦ rw bad s'
        | inr good ↦
            let (end, went, at_end) =
              Yields-found (λ out. Staged disk n out.2)
                (extract_entry disk fuel file file_size cursor c total_size trace')
                (extract_entry-Staged cursor c total_size trace' s') in
            rw (good, went)
              (elim (Bool-cases (is_negative end.0)) [
                | inl failed ↦ rw failed at_end
                | inr going ↦
                    rw going
                      (extract_entries-Staged entries (next_cursor cursor c) end.1 end.2 at_end)
              ])
      ]

module _ (disk : Disk) (n : ℕ) where
  find_central_directory-Staged :
      (file : ℤ) (file_size : ℕ) (trace : Trace)
      → Staged disk n trace
      → Staged disk n (find_central_directory disk file file_size trace).1
  unfolding find_central_directory
  find_central_directory-Staged file file_size trace s =
      let tail_size = if ltb file_size 0x10016 then file_size else 0x10016 in
      let tail_buffer = disk.answer trace (allocate tail_size) in
      let first = make disk (allocate tail_size) trace in
      let s' = make-Staged disk n (allocate tail_size) trace tt s in
      let found = read_at disk file (file_size - tail_size) tail_size first in
      let s'' = read_at-Staged disk n file (file_size - tail_size) tail_size first s' in
      let s''' = make-Staged disk n (free tail_buffer) found.2 tt s'' in
      elim (Bool-cases (is_zero tail_buffer)) [
        | inl refused ↦ rw refused s'
        | inr given ↦ elim (Bool-cases (is_negative found.0)) [
          | inl failed ↦ rw (given, failed) s'''
          | inr good ↦ rw (given, good) s'''
        ]
      ]

  close_archive-Staged :
      (file : ℤ) (o : Option (ℤ × Trace))
      → Yields (λ out. Staged disk n out.1) o
      → Yields (λ out. Staged disk n out.1) (close_archive disk file o)
  close_archive-Staged file none y = y
  close_archive-Staged file (some (result, trace)) y = make-Staged disk n (close file) trace tt y

module _ (disk : Disk) (limit fuel n : ℕ) (ends : InflateEnds disk limit)
    (enough : limit < fuel) where
  walk-Staged :
      (file : ℤ) (file_size : ℕ) (found : (ℤ ⊎ (ℕ × ℕ)) × Trace)
      → Staged disk n found.1
      → Yields (λ out. Staged disk n out.1) (walk disk fuel file file_size found)
  walk-Staged file file_size (inl result, trace) s = s
  walk-Staged file file_size (inr (central_offset, entry_count), trace) s =
      extract_entries-Staged disk limit fuel n file file_size ends enough entry_count central_offset
        0 trace s

  extract_sized-Staged :
      (file size : ℤ) (trace : Trace)
      → Staged disk n trace
      → Yields (λ out. Staged disk n out.1) (extract_sized disk fuel file size trace)
  extract_sized-Staged file (negsuc size) trace s = make-Staged disk n (close file) trace tt s
  extract_sized-Staged file (pos file_size) trace s = elim (Bool-cases (ltb file_size 22)) [
    | inl short ↦ rw short (make-Staged disk n (close file) trace tt s)
    | inr long ↦ rw long (
        close_archive-Staged disk n file _ (
          walk-Staged file file_size (find_central_directory disk file file_size trace)
            (find_central_directory-Staged disk n file file_size trace s)))
  ]

-- Whatever the archive holds and the system answers, as long as `inflate` stops going on at some point,
-- the extraction returns. When this holds of the calls before it, it holds of all calls behind it: a file
-- is created only at `%s/%s` of the staging directory and of a name that `is_safe_archive_path` accepts;
-- a directory is made only where such a path is cut at one of its slashes, or at the path of an entry
-- less one byte, for an entry whose name field was read off the archive and ends in a slash, where the
-- byte is that slash unless the field holds a NUL; and what is removed is such a file or what the
-- system's listings of the staging directory lead to.
pub extract_vpk-Staged :
    (disk : Disk) (limit fuel : ℕ) (vpk_path : Text) (trace : Trace)
    → InflateEnds disk limit
    → limit < fuel
    → AllAllowed disk trace
    → Yields (λ out. AllAllowed disk out.1) (extract_vpk disk fuel vpk_path trace)
unfolding extract_vpk
extract_vpk-Staged disk limit fuel vpk_path trace ends enough allowed =
    let s : Staged disk 0 trace = record { allowed = allowed; longer = omega arith } in
    let file = disk.answer trace (open_read vpk_path) in
    let opened = make disk (open_read vpk_path) trace in
    let s' = make-Staged disk 0 (open_read vpk_path) trace tt s in
    let size = disk.answer opened (seek_end file) in
    let sought = make disk (seek_end file) opened in
    let s'' = make-Staged disk 0 (seek_end file) opened tt s' in
    elim (Bool-cases (is_negative file)) [
      | inl failed ↦ rw failed s'.allowed
      | inr there ↦ rw there (
          Yields-map (λ out. Staged disk 0 out.1) (λ out. AllAllowed disk out.1)
            (extract_sized disk fuel file size sought) (λ out s. s.allowed)
            (extract_sized-Staged disk limit fuel 0 ends enough file size sought s''))
    ]
