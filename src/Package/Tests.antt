-- ===== src/Package/Tests.antt =====
-- Runs of the package installer's parts at concrete inputs.
pub mod Extraction
use vitacompanion_vitadeck.Prelude.{
  ℕ, ◌<◌, ◌≡◌, ◌↔◌, refl, ◌⊎◌, inl, inr, text_eq, snprintf, true, false, some, List, [], ◌∷◌, ◌++◌,
  arith, pos, negsuc, is_negative, Text, codes, length, replicate, take,
}
use vitacompanion_vitadeck.Sha1.{
  Context, load_words, extend_words, rounds, compress, sha1_init, update_byte, sha1_update,
  zero_fill, pad_block, sha1_final,
}
use vitacompanion_vitadeck.Sha1.Standard.{digest}
use vitacompanion_vitadeck.Sha1.Digest.{sha1_final-digest, sha1_update-append}
use vitacompanion_vitadeck.Package.Archive.{is_safe_archive_path, scan_tail, read_end_record}
use vitacompanion_vitadeck.Package.Archive.Paths.{IsRelative, is_safe_archive_path-iff-IsRelative}
use vitacompanion_vitadeck.Package.Archive.Directory.{IsLastMark, scan_tail-iff-IsLastMark}
use vitacompanion_vitadeck.Package.Sfo.{
  sfo_string, search, entry_fits, field16, field32, copied_value, header_count, valid_title_id,
}
use vitacompanion_vitadeck.Package.Sfo.Lookup.{IsSfo, sfo_string-fits}
use vitacompanion_vitadeck.Package.Sfo.Found.{IsFirstEntry, sfo_string-iff-IsFirstEntry}
use vitacompanion_vitadeck.Package.Head.{
  HeadError, hash_block, fpkg_hmac, sign_prefix, sign_part, sign_head, head_for, make_head,
}
use vitacompanion_vitadeck.Package.Head.Signing.{signature, fpkg_hmac-digest}
use vitacompanion_vitadeck.Package.Head.Made.{IsHead, make_head-IsSigned}
use vitacompanion_vitadeck.Package.Promote.{System, load_promoter, promote_stage}
use vitacompanion_vitadeck.Package.Promote.Balance.{
  open_parts, in_order, all_succeeded, promote_stage-balanced, promote_stage-iff-all_succeeded,
}

-- A context that holds what was on the stack.
abbrev stale : Context
stale = record { data_block = replicate 64 7; datalen = 99; bitlen = 5; state = []; k = [] }

sha1_final-digest_example :
    (sha1_final (sha1_update (sha1_init stale) (codes "abc"))).0 ≡ digest (codes "abc")
sha1_final-digest_example = sha1_final-digest stale (codes "abc") refl

is_safe_archive_path-iff-IsRelative_example :
    (is_safe_archive_path (codes "sce_sys/../eboot.bin") ≡ true)
    ↔ IsRelative (codes "sce_sys/../eboot.bin")
is_safe_archive_path-iff-IsRelative_example =
    is_safe_archive_path-iff-IsRelative (codes "sce_sys/../eboot.bin") (ground arith)

-- The end record of an archive of 122 bytes, whose directory of one entry starts at byte 40.
abbrev archive_tail : List ℕ
archive_tail =
    0 ∷ 0x50 ∷ 0x4B ∷ 0x05 ∷ 0x06 ∷ 0 ∷ 0 ∷ 0 ∷ 0 ∷ 1 ∷ 0 ∷ 1 ∷ 0 ∷ 60 ∷ 0 ∷ 0 ∷ 0 ∷ 40 ∷ 0 ∷ 0 ∷ 0
    ∷ 0 ∷ 0 ∷ []

scan_tail-iff-IsLastMark_example : (scan_tail archive_tail 122 1 ≡ some (40, 1)) ↔ (
    (index : ℕ) × IsLastMark archive_tail 1 index
    × (read_end_record archive_tail 122 index ≡ some (40, 1)))
scan_tail-iff-IsLastMark_example = scan_tail-iff-IsLastMark archive_tail 122 1 (40, 1)

-- A parameter file with one entry, a title ID.
abbrev small_sfo : List ℕ
small_sfo =
    0
    ∷ 0x50
    ∷ 0x53
    ∷ 0x46
    ∷ 1
    ∷ 1
    ∷ 0
    ∷ 0
    ∷ 36
    ∷ 0
    ∷ 0
    ∷ 0
    ∷ 48
    ∷ 0
    ∷ 0
    ∷ 0
    ∷ 1
    ∷ 0
    ∷ 0
    ∷ 0
    ∷ 0
    ∷ 0
    ∷ 4
    ∷ 2
    ∷ 10
    ∷ 0
    ∷ 0
    ∷ 0
    ∷ 12
    ∷ 0
    ∷ 0
    ∷ 0
    ∷ 0
    ∷ 0
    ∷ 0
    ∷ 0
    ∷ (codes "TITLE_ID" ++ (0 ∷ 0 ∷ 0 ∷ 0 ∷ (codes "ABCD00001" ++ (0 ∷ 0 ∷ 0 ∷ []))))

title_found : sfo_string small_sfo (codes "TITLE_ID") 12 ≡ some (codes "ABCD00001")
unfolding sfo_string search entry_fits copied_value field16 field32 text_eq
title_found = refl

sfo_string-iff-IsFirstEntry_example :
    (sfo_string small_sfo (codes "TITLE_ID") 12 ≡ some (codes "ABCD00001")) ↔ (
      (0 < 12)
      × IsSfo small_sfo
      × ((index : ℕ) × (whole : Text) × (index < field32 small_sfo 16)
          × IsFirstEntry small_sfo (codes "TITLE_ID") index whole
          × (take 11 whole ≡ codes "ABCD00001")))
sfo_string-iff-IsFirstEntry_example =
    sfo_string-iff-IsFirstEntry small_sfo (codes "TITLE_ID") 12 (codes "ABCD00001")

fpkg_hmac-digest_example : fpkg_hmac stale (codes "abc") ≡ signature (codes "abc")
fpkg_hmac-digest_example = fpkg_hmac-digest stale (codes "abc") refl

-- A header of 272 bytes, that says where its parts and signatures stand.
abbrev template : List ℕ
template =
    replicate 19 0
    ++ (64
        ∷ (replicate 191 0
            ++ (96 ∷ (replicate 3 0 ++ (112 ∷ (replicate 19 0 ++ (236 ∷ replicate 36 0)))))))

abbrev head_of : HeadError ⊎ (Text × List ℕ) → List ℕ
head_of (inl e) = []
head_of (inr (title_id, head)) = head

head_made :
    make_head stale template small_sfo
    ≡ inr (codes "ABCD00001", head_of (make_head stale template small_sfo))
unfolding make_head head_for sign_head sign_prefix sign_part fpkg_hmac sha1_init sha1_update
    update_byte sha1_final pad_block zero_fill compress load_words extend_words rounds sfo_string
    search entry_fits copied_value field16 field32 text_eq valid_title_id snprintf
head_made = refl

make_head-IsSigned_example :
    (sfo_string small_sfo (codes "TITLE_ID") 12 ≡ some (codes "ABCD00001"))
    × (valid_title_id (codes "ABCD00001") ≡ true)
    × IsHead template small_sfo (codes "ABCD00001") (head_of (make_head stale template small_sfo))
make_head-IsSigned_example =
    make_head-IsSigned stale template small_sfo (codes "ABCD00001")
      (head_of (make_head stale template small_sfo)) refl (omega arith) head_made

-- A system that cannot load the promoter.
abbrev no_promoter : System
no_promoter calls load_promoter = negsuc 4
no_promoter calls call = pos 0

promote_stage-balanced_example :
    (open_parts no_promoter (promote_stage no_promoter []).1 ≡ [])
    × (in_order no_promoter (promote_stage no_promoter []).1 ≡ true)
promote_stage-balanced_example = promote_stage-balanced no_promoter

promote_stage-iff-all_succeeded_example :
    (is_negative (promote_stage no_promoter []).0 ≡ false)
    ↔ (all_succeeded no_promoter (promote_stage no_promoter []).1 ≡ true)
promote_stage-iff-all_succeeded_example = promote_stage-iff-all_succeeded no_promoter
