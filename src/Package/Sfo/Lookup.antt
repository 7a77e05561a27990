-- ===== src/Package/Sfo/Lookup.antt =====
-- Which value the parameter file gives for a key.
use mathlib.Core.Path.{subst}
use vitacompanion_vitadeck.Prelude.{
  ℕ, zero, suc, ◌+◌, ◌-◌, ◌*◌, ◌/◌, ◌≤◌, ◌<◌, ◌≡◌, ◌≢◌, sym, ap, ◌∙◌, ◌↔◌, inl, inr, Bool-cases,
  true, some, List, arith, ◌==◌, if◌then◌else◌, not, ◌||◌, ltb, leb, Text, length, take,
  length-take, text_eq, text_eq_iff,
}
use vitacompanion_vitadeck.Package.Sfo.{
  header_size, entry_size, field32, header_magic, header_count, key_window, data_window, string_of,
  bounded_string_length, entry_fits, copied_value, search, sfo_string,
}

-- The first entry with the key, from `first` on; it and those before it lie inside the file.
pub record IsFirstFit (buffer : List ℕ) (key : Text) (first index : ℕ) : Type 0 where
  pub from : first ≤ index
  pub fit : (i : ℕ) → first ≤ i → i ≤ index → entry_fits buffer i ≡ true
  pub found : string_of (key_window buffer index) ≡ key
  pub none_before : (i : ℕ) → first ≤ i → i < index → string_of (key_window buffer i) ≢ key

Finds : ℕ → ℕ → List ℕ → Text → ℕ → Text → Type 0
Finds first end buffer key value_size value =
    (index : ℕ) × (index < end)
    × IsFirstFit buffer key first index
    × (copied_value buffer index value_size ≡ value)

starts_here :
    (buffer : List ℕ) (key : Text) (first : ℕ)
    → entry_fits buffer first ≡ true
    → string_of (key_window buffer first) ≡ key
    → IsFirstFit buffer key first first
starts_here buffer key first good same = record {
  from = omega arith;
  fit = λ i le le'.
      let e : first ≡ i = omega arith in ap (λ (j : ℕ). entry_fits buffer j) (sym e) ∙ good;
  found = same;
  none_before = λ i le less. absurd (omega arith);
}

starts_later :
    (buffer : List ℕ) (key : Text) (first index : ℕ)
    → entry_fits buffer first ≡ true
    → string_of (key_window buffer first) ≢ key
    → IsFirstFit buffer key (first + 1) index
    → IsFirstFit buffer key first index
starts_later buffer key first index good other is = record {
  from = omega (arith, is.from);
  fit = λ i le le'. elim (Bool-cases (i == first)) [
    | inl e ↦ let e' : i ≡ first = ground arith in ap (λ (j : ℕ). entry_fits buffer j) e' ∙ good
    | inr e ↦ is.fit i (ground arith) le'
  ];
  found = is.found;
  none_before = λ i le less. elim (Bool-cases (i == first)) [
    | inl e ↦
        let e' : first ≡ i = ground arith in
        subst (λ (j : ℕ). string_of (key_window buffer j) ≢ key) e' other
    | inr e ↦ is.none_before i (ground arith) less
  ];
}

-- When the first entry has the key, it is the first with it; when it has not, another one is.
only_here :
    (buffer : List ℕ) (key : Text) (first index : ℕ)
    → IsFirstFit buffer key first index
    → string_of (key_window buffer first) ≡ key
    → first ≡ index
only_here buffer key first index is same = elim (Bool-cases (first == index)) [
  | inl e ↦ ground arith
  | inr e ↦ absurd (is.none_before first (omega arith) (ground (arith, is.from)) same)
]

starts_after :
    (buffer : List ℕ) (key : Text) (first index : ℕ)
    → IsFirstFit buffer key first index
    → string_of (key_window buffer first) ≢ key
    → IsFirstFit buffer key (first + 1) index
starts_after buffer key first index is other = record {
  from = elim (Bool-cases (first == index)) [
    | inl e ↦
        let e' : index ≡ first = ground arith in
        absurd (other (ap (λ (j : ℕ). string_of (key_window buffer j)) (sym e') ∙ is.found))
    | inr e ↦ ground (arith, is.from)
  ];
  fit = λ i le le'. is.fit i (omega arith) le';
  found = is.found;
  none_before = λ i le less. is.none_before i (omega arith) less;
}

search-iff-Finds :
    (left first : ℕ) (buffer : List ℕ) (key : Text) (value_size : ℕ) (value : Text)
    → (search left first buffer key value_size ≡ some value)
      ↔ Finds first (first + left) buffer key value_size value
unfolding search Finds
search-iff-Finds zero first buffer key value_size value =
    ((λ h. cc), (λ (index, less, is, e). absurd (omega (arith, is.from))))
search-iff-Finds (suc left) first buffer key value_size value =
    let rest = search-iff-Finds left (first + 1) buffer key value_size value in
    let same = text_eq_iff (string_of (key_window buffer first)) key in
    elim (Bool-cases (entry_fits buffer first)) [
      | inr bad ↦ (
        (λ h. cc (rw bad at h)),
        (λ (index, less, is, e). cc (sym bad ∙ is.fit first (omega arith) is.from)),
      )
      | inl good ↦ elim (Bool-cases (text_eq (string_of (key_window buffer first)) key)) [
        | inl here ↦ (
          (λ h. (
            first,
            omega arith,
            starts_here buffer key first good (same.0 here),
            cc (rw (good, here) at h),
          )),
          (λ (index, less, is, e).
              let first_is = only_here buffer key first index is (same.0 here) in
              rw (good, here)
                (ap some (ap (λ (j : ℕ). copied_value buffer j value_size) first_is ∙ e))),
        )
        | inr later ↦
            let other : string_of (key_window buffer first) ≢ key =
              λ e. cc (sym later ∙ same.1 e) in
            (
              (λ h.
                  let (index, less, is, e) = rest.0 (rw (good, later) at h) in
                  (index, omega arith, starts_later buffer key first index good other is, e)),
              (λ (index, less, is, e).
                  rw (good, later)
                    (rest.1 (index, omega arith, starts_after buffer key first index is other, e))),
            )
      ]
    ]

-- The header is one of a parameter file, and its table of entries lies inside the file.
abbrev pub IsSfo : List ℕ → Type 0
IsSfo buffer =
    (20 ≤ length buffer)
    × (field32 buffer 0 ≡ 0x46535000)
    × (20 + 16 * field32 buffer 16 ≤ length buffer)

-- The lookup in terms of the tests on the entries.
pub sfo_string-Finds :
    (buffer : List ℕ) (key : Text) (value_size : ℕ) (value : Text)
    → (sfo_string buffer key value_size ≡ some value) ↔ (
        (0 < value_size)
        × IsSfo buffer
        × ((index : ℕ) × (index < header_count buffer)
            × IsFirstFit buffer key 0 index
            × (copied_value buffer index value_size ≡ value)))
unfolding sfo_string Finds
sfo_string-Finds buffer key value_size value =
    let count = header_count buffer in
    let found = search-iff-Finds count 0 buffer key value_size value in
    elim (Bool-cases (ltb (length buffer) header_size || value_size == 0)) [
      | inl short ↦ (
        (λ h. cc (rw short at h)),
        (λ (room, is, found'). absurd (ground (arith, is.0, room, short))),
      )
      | inr long ↦
          elim (Bool-cases (
            not (header_magic buffer == 0x46535000)
            || ltb ((length buffer - header_size) / entry_size) (header_count buffer))) [
              | inl bad ↦ (
                (λ h. cc (rw (long, bad) at h)),
                (λ (room, is, found'). absurd (ground (arith, is.1, is.2, bad))),
              )
              | inr good ↦ (
                (λ h.
                    let (index, less, is, e) = found.0 (rw (long, good) at h) in
                    (
                      ground (arith, long),
                      (ground (arith, long), ground (arith, good), ground (arith, good)),
                      (index, omega (arith, less), is, e),
                    )),
                (λ (room, is, (index, less, first, e)).
                    rw (long, good) (found.1 (index, omega arith, first, e))),
              )
            ]
    ]

-- A value that the lookup gives fits the buffer with its NUL.
pub sfo_string-fits :
    (buffer : List ℕ) (key : Text) (value_size : ℕ) (value : Text)
    → sfo_string buffer key value_size ≡ some value
    → length value < value_size
unfolding copied_value
sfo_string-fits buffer key value_size value h =
    let (room, is, (index, less, first, e)) = (sfo_string-Finds buffer key value_size value).0 h in
    let window = data_window buffer index in
    let cut =
      if leb value_size (bounded_string_length window)
      then value_size - 1
      else bounded_string_length window in
    let size : length value ≡ length (take cut window) = ap length (sym e) in
    ground (arith, size, length-take cut window, room)
