-- ===== src/Ftp/Parse/Number.antt =====
-- What the parser of the REST offset accepts, and the values of decimal digits.
use vitacompanion_vitadeck.Prelude.{
  ℕ, ◌+◌, ◌-◌, ◌*◌, ◌/◌, ◌≤◌, ◌≡◌, ◌↔◌, true, false, Option, none, some, [], ◌∷◌, ◌++◌, arith, All,
  length, leb, ltb, if◌then◌else◌, Bool-cases, inl, inr, valid, Text, peek,
}
use vitacompanion_vitadeck.Ftp.Parse.{
  skip_blanks, is_digit, rest_maximum, rest_digits, ends_line, finish_rest, parse_rest_offset,
}
use vitacompanion_vitadeck.Ftp.Parse.Line.{AllBlank, skip_blanks-Skipped, skip_blanks-append}

abbrev pub AllDigit : Text → Type 0
AllDigit = All (λ c. is_digit c ≡ true)

-- The number that digits stand for, behind those that gave `value`.
unfoldable pub decimal : ℕ → Text → ℕ
decimal value [] = value
decimal value (c ∷ s) = decimal (value * 10 + (c - b'0')) s

pub decimal-ge : (value : ℕ) (s : Text) → value ≤ decimal value s
unfolding decimal
decimal-ge value [] = omega arith
decimal-ge value (c ∷ s) = omega (arith, decimal-ge (value * 10 + (c - b'0')) s)

-- The overflow test keeps exactly the values up to the maximum.
rest_digits-append :
    (value : ℕ) (digits rest : Text)
    → AllDigit digits
    → is_digit (peek rest) ≡ false
    → value ≤ rest_maximum
    → rest_digits value (digits ++ rest) ≡ (
        if leb (decimal value digits) rest_maximum then some (decimal value digits, rest) else none)
unfolding rest_digits decimal
rest_digits-append value [] [] d e h = ground arith
rest_digits-append value [] (c ∷ rest) d e h = ground arith
rest_digits-append value (c ∷ digits) rest d e h =
    elim (Bool-cases (ltb ((rest_maximum - (c - b'0')) / 10) value)) [
      | inl big ↦ ground (arith, d.0, decimal-ge (value * 10 + (c - b'0')) digits)
      | inr small ↦ ground (
        arith,
        d.0,
        rest_digits-append (value * 10 + (c - b'0')) digits rest d.1 e (ground (arith, d.0)),
      )
    ]

rest_digits_sound :
    (value : ℕ) (s : Text) (v : ℕ) (rest : Text)
    → value ≤ rest_maximum
    → rest_digits value s ≡ some (v, rest)
    → (digits : Text) × (s ≡ digits ++ rest)
      × AllDigit digits
      × (v ≡ decimal value digits)
      × (v ≤ rest_maximum)
      × (is_digit (peek rest) ≡ false)
unfolding rest_digits decimal
rest_digits_sound value [] v rest h e =
    ([], ground arith, tt, ground arith, ground arith, ground arith)
rest_digits_sound value (c ∷ s) v rest h e = elim (Bool-cases (is_digit c)) [
  | inl d ↦
      let (digits, w, a, e', b, f) =
        rest_digits_sound (value * 10 + (c - b'0')) s v rest (ground arith) (ground arith) in
      (c ∷ digits, ground (arith, w), (d, a), e', b, f)
  | inr d ↦ ([], ground arith, tt, ground arith, ground arith, ground arith)
]

-- Blanks, digits, blanks, and the end of the line; `offset` is the value of the digits.
pub record RestOffset (arguments : Text) (offset : ℕ) : Type 0 where
  pub lead : Text
  pub digits : Text
  pub trail : Text
  pub rest : Text
  pub whole : arguments ≡ lead ++ (digits ++ (trail ++ rest))
  pub lead_blank : AllBlank lead
  pub all_digit : AllDigit digits
  pub inhabited : 1 ≤ length digits
  pub trail_blank : AllBlank trail
  pub line_ends : ends_line (peek rest) ≡ true
  pub value : offset ≡ decimal 0 digits
  pub within : offset ≤ rest_maximum

finish_rest_sound :
    (o : Option (ℕ × Text)) (offset : ℕ)
    → finish_rest o ≡ some offset
    → (rest : Text) × (o ≡ some (offset, rest)) × (ends_line (peek (skip_blanks rest)) ≡ true)
unfolding finish_rest
finish_rest_sound none offset h = cc
finish_rest_sound (some (value, rest)) offset h = (rest, ground arith, ground arith)

digits-inhabited :
    (digits rest s : Text)
    → s ≡ digits ++ rest
    → is_digit (peek rest) ≡ false
    → is_digit (peek s) ≡ true
    → 1 ≤ length digits
digits-inhabited [] rest s w e h = ground arith
digits-inhabited (c ∷ digits) rest s w e h = omega arith

parse_rest_offset_sound :
    (arguments : Text) (offset : ℕ)
    → parse_rest_offset (some arguments) valid ≡ some offset
    → RestOffset arguments offset
unfolding parse_rest_offset
parse_rest_offset_sound arguments offset h =
    let front = skip_blanks-Skipped arguments in
    let (rest, e, ends) =
      finish_rest_sound (rest_digits 0 (skip_blanks arguments)) offset (ground arith) in
    let (digits, w, a, v, b, f) =
      rest_digits_sound 0 (skip_blanks arguments) offset rest (omega arith) e in
    let back = skip_blanks-Skipped rest in
    record {
      lead = front.lead;
      digits = digits;
      trail = back.lead;
      rest = skip_blanks rest;
      whole = ground (arith, front.whole, w, back.whole);
      lead_blank = front.blank;
      all_digit = a;
      inhabited = digits-inhabited digits rest (skip_blanks arguments) w f (ground arith);
      trail_blank = back.blank;
      line_ends = ends;
      value = v;
      within = b;
    }

pub ends_line-not_digit :
    (trail rest : Text)
    → AllBlank trail
    → ends_line (peek rest) ≡ true
    → is_digit (peek (trail ++ rest)) ≡ false
ends_line-not_digit [] rest b h = ground arith
ends_line-not_digit (c ∷ trail) rest b h = ground (arith, b.0)

digits-start :
    (digits rest : Text)
    → AllDigit digits
    → 1 ≤ length digits
    → is_digit (peek (digits ++ rest)) ≡ true
digits-start [] rest d h = absurd (omega arith)
digits-start (c ∷ digits) rest d h = d.0

parse_rest_offset_complete :
    (arguments : Text) (offset : ℕ)
    → RestOffset arguments offset
    → parse_rest_offset (some arguments) valid ≡ some offset
unfolding parse_rest_offset finish_rest
parse_rest_offset_complete arguments offset r =
    let tail = r.trail ++ r.rest in
    let starts = digits-start r.digits tail r.all_digit r.inhabited in
    let skipped =
      skip_blanks-append r.lead (r.digits ++ tail) r.lead_blank (ground (arith, starts)) in
    let read =
      rest_digits-append 0 r.digits tail r.all_digit
        (ends_line-not_digit r.trail r.rest r.trail_blank r.line_ends) (omega arith) in
    let ended = skip_blanks-append r.trail r.rest r.trail_blank (ground (arith, r.line_ends)) in
    ground (arith, r.whole, skipped, starts, read, ended, r.value, r.within, r.line_ends)

-- REST accepts an offset exactly when the arguments are blanks, decimal digits, blanks and the end
-- of the line, and the offset is their value and at most 0x7fffffff.
pub parse_rest_offset-iff-RestOffset :
    (arguments : Text) (offset : ℕ)
    → (parse_rest_offset (some arguments) valid ≡ some offset) ↔ RestOffset arguments offset
parse_rest_offset-iff-RestOffset arguments offset =
    (parse_rest_offset_sound arguments offset, parse_rest_offset_complete arguments offset)
