-- ===== src/Package/Sfo/Found.antt =====
-- What the lookup in the parameter file finds.
use vitacompanion_vitadeck.Prelude.{
  ℕ, ◌-◌, ◌<◌, ◌≡◌, ◌≢◌, ◌↔◌, sym, ap, ◌∙◌, inl, inr, Bool-cases, some, List, arith, ◌==◌, Text,
  take,
}
use mathlib.Core.Path.{subst}
use vitacompanion_vitadeck.Package.Sfo.{
  field32, key_window, data_window, string_of, entry_fits, sfo_string,
}
use vitacompanion_vitadeck.Package.Sfo.Entry.{IsEntry, copied_value-cut, fits-IsEntry, IsEntry-fits}
use vitacompanion_vitadeck.Package.Sfo.Lookup.{IsFirstFit, IsSfo, sfo_string-Finds}

-- The first entry with the key; all before it are entries with other keys.
pub record IsFirstEntry (buffer : List ℕ) (key : Text) (index : ℕ) (value : Text) : Type 0 where
  pub is_entry : IsEntry buffer index key value
  pub others :
      (i : ℕ)
      → i < index
      → (other_key : Text) × (other_value : Text) × IsEntry buffer i other_key other_value
        × (other_key ≢ key)

fit-IsFirstEntry :
    (buffer : List ℕ) (key : Text) (index : ℕ)
    → IsFirstFit buffer key 0 index
    → IsFirstEntry buffer key index (string_of (data_window buffer index))
fit-IsFirstEntry buffer key index is = record {
  is_entry =
      subst (λ k. IsEntry buffer index k (string_of (data_window buffer index))) is.found
        (fits-IsEntry buffer index (is.fit index (omega arith) (omega arith)));
  others = λ i less. (
    string_of (key_window buffer i),
    string_of (data_window buffer i),
    fits-IsEntry buffer i (is.fit i (omega arith) (omega (arith, less))),
    is.none_before i (omega arith) less,
  );
}

IsFirstEntry-fit :
    (buffer : List ℕ) (key : Text) (index : ℕ) (value : Text)
    → IsFirstEntry buffer key index value
    → IsFirstFit buffer key 0 index
IsFirstEntry-fit buffer key index value is =
    let (good, same, whole) = IsEntry-fits buffer index key value is.is_entry in
    record {
      from = omega arith;
      fit = λ i le le'. elim (Bool-cases (i == index)) [
        | inl e ↦ let e' : i ≡ index = ground arith in ap (λ (j : ℕ). entry_fits buffer j) e' ∙ good
        | inr e ↦
            let (k, v, is', other) = is.others i (ground arith) in (IsEntry-fits buffer i k v is').0
      ];
      found = same;
      none_before = λ i le less.
          let (k, v, is', other) = is.others i less in
          λ e. other (sym (IsEntry-fits buffer i k v is').1 ∙ e);
    }

-- The lookup gives a value exactly when the buffer has room for a byte, the file has a proper header
-- with all its entries inside the file, and some entry has the key: then it is the value of the first
-- entry that has it, cut to one byte less than the room, and that entry and all those before it have a
-- key that ends inside the file and a value that lies inside the file and holds a NUL.
pub sfo_string-iff-IsFirstEntry :
    (buffer : List ℕ) (key : Text) (value_size : ℕ) (value : Text)
    → (sfo_string buffer key value_size ≡ some value) ↔ (
        (0 < value_size)
        × IsSfo buffer
        × ((index : ℕ) × (whole : Text) × (index < field32 buffer 16)
            × IsFirstEntry buffer key index whole
            × (take (value_size - 1) whole ≡ value)))
sfo_string-iff-IsFirstEntry buffer key value_size value =
    let found = sfo_string-Finds buffer key value_size value in
    (
      (λ h.
          let (room, is, (index, less, first, e)) = found.0 h in
          (
            room,
            is,
            (
              index,
              string_of (data_window buffer index),
              less,
              fit-IsFirstEntry buffer key index first,
              sym (copied_value-cut buffer index value_size room) ∙ e,
            ),
          )),
      (λ (room, is, (index, whole, less, first, e)).
          let same = (IsEntry-fits buffer index key whole first.is_entry).2 in
          found.1 (
            room,
            is,
            (
              index,
              less,
              IsFirstEntry-fit buffer key index whole first,
              copied_value-cut buffer index value_size room
                  ∙ (ap (λ w. take (value_size - 1) w) same ∙ e),
            ),
          )),
    )
