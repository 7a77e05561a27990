-- ===== src/Package/Archive/Directory.antt =====
-- Which record the search for the central directory reads.
use vitacompanion_vitadeck.Prelude.{
  ℕ, zero, suc, ◌≤◌, ◌<◌, ◌≡◌, ◌≢◌, ◌↔◌, inl, inr, Bool-cases, false, some, List, arith, ◌==◌, leb,
}
use vitacompanion_vitadeck.Package.Archive.{read_le32, end_mark, read_end_record, scan_tail}

-- The end mark nearest the end of the archive, of those that stand at `last` or before.
pub record IsLastMark (tail : List ℕ) (last index : ℕ) : Type 0 where
  pub within : index ≤ last
  pub marked : read_le32 tail index ≡ end_mark
  pub none_later : (k : ℕ) → index < k → k ≤ last → read_le32 tail k ≢ end_mark

mark_at :
    (tail : List ℕ) (file_size last : ℕ) (r : ℕ × ℕ)
    → read_le32 tail last ≡ end_mark
    → read_end_record tail file_size last ≡ some r
    → (index : ℕ) × IsLastMark tail last index × (read_end_record tail file_size index ≡ some r)
mark_at tail file_size last r mark e = (
  last,
  record { within = omega arith; marked = mark; none_later = λ k less le. absurd (omega arith) },
  e,
)

only_mark :
    (tail : List ℕ) (last index : ℕ)
    → IsLastMark tail last index
    → read_le32 tail last ≡ end_mark
    → index ≡ last
only_mark tail last index is mark = elim (Bool-cases (leb last index)) [
  | inl le ↦ ground (arith, is.within)
  | inr less ↦ absurd (is.none_later last (ground arith) (omega arith) mark)
]

other_mark :
    (tail : List ℕ) (j k : ℕ)
    → (read_le32 tail k == end_mark) ≡ false
    → read_le32 tail j ≡ end_mark
    → j ≢ k
other_mark tail j k unmarked mark e = let mark' = rw e at mark in ground (arith, mark', unmarked)

-- The search finds a directory exactly when the end mark nearest the end of the archive begins a
-- record that passes the tests, and then what that record says.
pub scan_tail-iff-IsLastMark :
    (tail : List ℕ) (file_size last : ℕ) (r : ℕ × ℕ)
    → (scan_tail tail file_size last ≡ some r)
      ↔ ((index : ℕ) × IsLastMark tail last index × (read_end_record tail file_size index ≡ some r))
unfolding scan_tail
scan_tail-iff-IsLastMark tail file_size zero r = elim (Bool-cases (read_le32 tail 0 == end_mark)) [
  | inl mark ↦ (
    (λ h. mark_at tail file_size 0 r (ground (arith, mark)) (rw mark at h)),
    (λ (index, is, e). let here : index ≡ 0 = omega (arith, is.within) in rw (mark) (rw here at e)),
  )
  | inr unmarked ↦ (
    (λ h. cc (rw unmarked at h)),
    (λ (index, is, e).
        let here : index ≡ 0 = omega (arith, is.within) in
        absurd (ground (arith, rw here at is.marked, unmarked))),
  )
]
scan_tail-iff-IsLastMark tail file_size (suc last) r =
    let rest = scan_tail-iff-IsLastMark tail file_size last r in
    elim (Bool-cases (read_le32 tail (suc last) == end_mark)) [
      | inl mark ↦ (
        (λ h. mark_at tail file_size (suc last) r (ground (arith, mark)) (rw mark at h)),
        (λ (index, is, e).
            let here : index ≡ suc last =
              only_mark tail (suc last) index is (ground (arith, mark)) in
            rw (mark) (rw here at e)),
      )
      | inr unmarked ↦ (
        (λ h.
            let (index, is, e) = rest.0 (rw unmarked at h) in
            (
              index,
              record {
                within = omega (arith, is.within);
                marked = is.marked;
                none_later = λ k less le mark'.
                    is.none_later k less
                      (let other = other_mark tail k (suc last) unmarked mark' in
                        ground (arith, other, le))
                      mark';
              },
              e,
            )),
        (λ (index, is, e). rw (unmarked) (
            rest.1 (
              index,
              record {
                within =
                    let other = other_mark tail index (suc last) unmarked is.marked in
                    ground (arith, other, is.within);
                marked = is.marked;
                none_later = λ k less le. is.none_later k less (omega arith);
              },
              e,
            ))),
      )
    ]
