-- ===== src/Package/Tests/Extraction.antt =====
-- The extraction of an archive of one entry, `a`, without data, and its installation.
use vitacompanion_vitadeck.Prelude.{
  refl, ℕ, true, List, [], ◌∷◌, ◌++◌, ltb, if◌then◌else◌, ℤ, pos, codes, length, replicate, take,
  drop, arith, Yields,
}
use vitacompanion_vitadeck.Package.Disk.{
  read_directory, Call, seek_to, seek_end, read, event, Trace, stream_ok, stream_end, Disk,
}
use vitacompanion_vitadeck.Sha1.{Context}
use vitacompanion_vitadeck.Package.Promote as Promote
use vitacompanion_vitadeck.Package.Install.{extract_vpk, install_vpk}
use vitacompanion_vitadeck.Package.Install.Removal.{DirectoryEnds}
use vitacompanion_vitadeck.Package.Install.Cleanup.{CleanedUp, install_vpk-CleanedUp}
use vitacompanion_vitadeck.Package.Install.Inside.{AllAllowed}
use vitacompanion_vitadeck.Package.Install.Data.{InflateEnds}
use vitacompanion_vitadeck.Package.Install.Walk.{extract_vpk-Staged}

-- The local header and the name at byte 0, the central entry at byte 31, the end record at byte 78.
abbrev small_archive : List ℕ
small_archive =
    (0x50 ∷ 0x4B ∷ 0x03 ∷ 0x04 ∷ [])
    ++ (replicate 22 0
        ++ ((1 ∷ 0 ∷ 0 ∷ 0 ∷ 97 ∷ [])
            ++ ((0x50 ∷ 0x4B ∷ 0x01 ∷ 0x02 ∷ [])
                ++ (replicate 24 0
                    ++ ((1 ∷ 0 ∷ [])
                        ++ (replicate 16 0
                            ++ ((97 ∷ 0x50 ∷ 0x4B ∷ 0x05 ∷ 0x06 ∷ [])
                                ++ (0 ∷ 0 ∷ 0 ∷ 0 ∷ 1 ∷ 0 ∷ 1 ∷ 0 ∷ 47 ∷ 0 ∷ 0 ∷ 0 ∷ 31 ∷ 0 ∷ 0 ∷ 0
                                    ∷ 0 ∷ 0 ∷ []))))))))

abbrev disk_answers : Trace → Call → ℤ
disk_answers trace (seek_end file) = pos 100
disk_answers trace (read file n) = pos n
disk_answers trace (read_directory dir) = pos 0
disk_answers trace _ = pos 3

-- The bytes of a read behind a seek.
abbrev bytes_at : Trace → List ℕ
bytes_at (event (read file n) a ∷ event (seek_to file' offset) b ∷ trace) =
    take n (drop offset small_archive)
bytes_at _ = []

abbrev small_disk : Disk
small_disk = record {
  answer = disk_answers;
  bytes_read = bytes_at;
  entry_name = λ trace. [];
  is_directory = λ trace. true;
  inflate_result = λ trace. if ltb (length trace) 40 then stream_ok else stream_end;
  produced = λ trace. [];
  input_left = λ trace. 0;
  crc32 = λ checksum bytes. 0;
}

small_disk-InflateEnds : InflateEnds small_disk 40
small_disk-InflateEnds trace late = ground arith

extract_vpk-Staged_example :
    Yields
      (λ out. AllAllowed small_disk out.1)
      (extract_vpk small_disk 41 (codes "ux0:data/small.vpk") [])
extract_vpk-Staged_example =
    extract_vpk-Staged small_disk 40 41 (codes "ux0:data/small.vpk") [] small_disk-InflateEnds
      (omega arith) tt

small_disk-DirectoryEnds : DirectoryEnds small_disk 40
small_disk-DirectoryEnds trace dir late = refl

abbrev willing_promoter : Promote.System
willing_promoter trace call = pos 0

abbrev heap_context : Context
heap_context = record { data_block = replicate 64 7; datalen = 99; bitlen = 5; state = []; k = [] }

-- The archive has no parameter file, and what stands in for it is not one.
install_vpk-CleanedUp_example : Yields (CleanedUp small_disk 42) (
    install_vpk small_disk 42 willing_promoter heap_context
      (replicate 512 0)
      (codes "ux0:data/small.vpk")
      10
      [])
install_vpk-CleanedUp_example =
    install_vpk-CleanedUp small_disk 40 42 willing_promoter heap_context (replicate 512 0)
      (codes "ux0:data/small.vpk") 10 small_disk-DirectoryEnds small_disk-InflateEnds (omega arith)
