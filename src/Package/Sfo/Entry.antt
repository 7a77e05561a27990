-- ===== src/Package/Sfo/Entry.antt =====
-- What an entry of the parameter file says, in terms of the bytes of the file.
use vitacompanion_vitadeck.Prelude.{
  ℕ, zero, suc, ◌+◌, ◌-◌, ◌*◌, ◌≤◌, ◌<◌, ◌≡◌, ◌≢◌, refl, sym, ap, ◌∙◌, inl, inr, Bool-cases, true,
  false, List, [], ◌∷◌, ◌++◌, arith, ◌==◌, leb, Text, length, take, drop, take-take,
}
use vitacompanion_vitadeck.Package.Sfo.{
  field16, field32, key_window, data_window, bounded_string_length, has_nul, string_of, entry_fits,
  copied_value,
}

abbrev pub IsNulFree : Text → Type 0
IsNulFree [] = Unit
IsNulFree (c ∷ s) = (c ≢ 0) × IsNulFree s

-- The bytes begin with the text and a NUL, the first one.
abbrev pub BeginsWith : List ℕ → Text → Type 0
BeginsWith bytes s = IsNulFree s × ((rest : List ℕ) × (bytes ≡ s ++ (0 ∷ rest)))

-- Entry `index`: 16 bytes from byte `20 + 16 * index` on, which hold the offset of the key (2 bytes), the
-- size of the value (at 4, 4 bytes) and its offset (at 12, 4 bytes); the header holds the offset of all
-- keys at byte 8 and of all values at byte 12. The key ends with a NUL inside the file; the value has a
-- size, lies inside the file, and a NUL among its bytes.
pub record IsEntry (buffer : List ℕ) (index : ℕ) (key value : Text) : Type 0 where
  pub key_inside : field32 buffer 8 + field16 buffer (20 + 16 * index) < length buffer
  pub value_inside :
      field32 buffer 12
        + field32 buffer (20 + 16 * index + 12)
        + field32 buffer (20 + 16 * index + 4)
      ≤ length buffer
  pub key_is : BeginsWith (drop (field32 buffer 8 + field16 buffer (20 + 16 * index)) buffer) key
  pub value_is :
      BeginsWith
        (take
          (field32 buffer (20 + 16 * index + 4))
          (drop (field32 buffer 12 + field32 buffer (20 + 16 * index + 12)) buffer))
        value

string_of-IsNulFree : (window : List ℕ) → IsNulFree (string_of window)
string_of-IsNulFree [] = tt
string_of-IsNulFree (c ∷ window) = elim (Bool-cases (c == 0)) [
  | inl nul ↦ rw nul tt
  | inr other ↦ rw other ((λ e. ground (arith, other, e)), string_of-IsNulFree window)
]

has_nul-BeginsWith :
    (window : List ℕ) → has_nul window ≡ true → BeginsWith window (string_of window)
has_nul-BeginsWith [] h = absurd (ground (arith, h))
has_nul-BeginsWith (c ∷ window) h = elim (Bool-cases (c == 0)) [
  | inl nul ↦ let e : c ≡ 0 = ground (arith, nul) in rw nul (tt, (window, ap (λ b. b ∷ window) e))
  | inr other ↦
      let (free, (rest, e)) = has_nul-BeginsWith window (rw other at h) in
      rw other (((λ e'. ground (arith, other, e')), free), (rest, ap (λ w. c ∷ w) e))
]

begins-string_of :
    (s : Text) (rest : List ℕ)
    → IsNulFree s
    → (has_nul (s ++ (0 ∷ rest)) ≡ true) × (string_of (s ++ (0 ∷ rest)) ≡ s)
begins-string_of [] rest free = (refl, refl)
begins-string_of (c ∷ s) rest (other, free) =
    let (found, same) = begins-string_of s rest free in
    let b : (c == 0) ≡ false = ground (arith, other) in rw b (found, ap (λ t. c ∷ t) same)

BeginsWith-string_of :
    (window : List ℕ) (s : Text)
    → BeginsWith window s
    → (has_nul window ≡ true) × (string_of window ≡ s)
BeginsWith-string_of window s (free, (rest, e)) =
    let (found, same) = begins-string_of s rest free in
    (ap has_nul e ∙ found, ap string_of e ∙ same)

take-take-ge : (m n : ℕ) (xs : List ℕ) → n ≤ m → take m (take n xs) ≡ take n xs
take-take-ge zero zero xs h = refl
take-take-ge (suc m) zero xs h = refl
take-take-ge zero (suc n) xs h = absurd (omega (arith, h))
take-take-ge (suc m) (suc n) [] h = refl
take-take-ge (suc m) (suc n) (x ∷ xs) h = ap (λ t. x ∷ t) (take-take-ge m n xs (omega (arith, h)))

-- Of the value as much is copied as the room has place for.
pub copied_value-cut :
    (buffer : List ℕ) (index value_size : ℕ)
    → 0 < value_size
    → copied_value buffer index value_size
      ≡ take (value_size - 1) (string_of (data_window buffer index))
unfolding copied_value
copied_value-cut buffer index value_size room =
    let window = data_window buffer index in
    let found = bounded_string_length window in
    elim (Bool-cases (leb value_size found)) [
      | inl long ↦ rw long (sym (take-take (value_size - 1) found window (ground (arith, long))))
      | inr short ↦
          rw short (sym (take-take-ge (value_size - 1) found window (ground (arith, short, room))))
    ]

-- The tests on an entry say just that.
pub fits-IsEntry :
    (buffer : List ℕ) (index : ℕ)
    → entry_fits buffer index ≡ true
    → IsEntry buffer index
        (string_of (key_window buffer index))
        (string_of (data_window buffer index))
unfolding entry_fits
fits-IsEntry buffer index h = record {
  key_inside = ground (arith, h);
  value_inside = ground (arith, h);
  key_is = has_nul-BeginsWith (key_window buffer index) (ground (arith, h));
  value_is = has_nul-BeginsWith (data_window buffer index) (ground (arith, h));
}

pub IsEntry-fits :
    (buffer : List ℕ) (index : ℕ) (key value : Text)
    → IsEntry buffer index key value
    → (entry_fits buffer index ≡ true)
      × (string_of (key_window buffer index) ≡ key)
      × (string_of (data_window buffer index) ≡ value)
unfolding entry_fits
IsEntry-fits buffer index key value is =
    let (key_nul, key_same) = BeginsWith-string_of (key_window buffer index) key is.key_is in
    let (value_nul, value_same) =
      BeginsWith-string_of (data_window buffer index) value is.value_is in
    (ground (arith, key_nul, value_nul, is.key_inside, is.value_inside), key_same, value_same)
