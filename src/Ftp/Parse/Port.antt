-- ===== src/Ftp/Parse/Port.antt =====
-- What the parser of the PORT tuple accepts.
use vitacompanion_vitadeck.Prelude.{
  ℕ, zero, suc, ◌+◌, ◌-◌, ◌*◌, ◌^◌, ◌≤◌, ◌<◌, ◌≡◌, refl, true, false, Option, none, some, List, [],
  ◌∷◌, ◌++◌, arith, All, length, leb, ltb, if◌then◌else◌, Bool-cases, inl, inr, valid, Text, peek,
  u32, map, Option-cases,
}
use vitacompanion_vitadeck.Ftp.Parse.{
  is_digit, ends_line, port_digits, port_separator, port_field, port_fields, finish_port,
  parse_port_tuple,
}
use vitacompanion_vitadeck.Ftp.Parse.Line.{AllBlank, skip_blanks-append}
use vitacompanion_vitadeck.Ftp.Parse.Number.{AllDigit, decimal, decimal-ge, ends_line-not_digit}

port_digits-append :
    (value n : ℕ) (digits rest : Text)
    → AllDigit digits
    → is_digit (peek rest) ≡ false
    → value ≤ 255
    → n + length digits < 2 ^ 32
    → port_digits value n (digits ++ rest) ≡ (
        if leb (decimal value digits) 255
        then some (decimal value digits, n + length digits, rest)
        else none)
unfolding port_digits decimal
port_digits-append value n [] [] d e h k = ground arith
port_digits-append value n [] (c ∷ rest) d e h k = ground arith
port_digits-append value n (c ∷ digits) rest d e h k =
    elim (Bool-cases (ltb 255 (value * 10 + (c - b'0')))) [
      | inl big ↦ ground (arith, d.0, decimal-ge (value * 10 + (c - b'0')) digits)
      | inr small ↦ ground (
        arith,
        d.0,
        port_digits-append (value * 10 + (c - b'0')) (n + 1) digits rest d.1 e (ground arith)
            (omega arith),
      )
    ]

-- A number of the tuple: at least one digit, fewer than 2 ^ 32 of them, and a value of one byte.
pub record IsOctet (digits : Text) : Type 0 where
  pub all_digit : AllDigit digits
  pub inhabited : 1 ≤ length digits
  pub short : length digits < 2 ^ 32
  pub within : decimal 0 digits ≤ 255

-- The numbers, each but the last with its comma.
unfoldable pub tuple_text : List Text → Text → Text
tuple_text [] rest = rest
tuple_text (digits ∷ []) rest = digits ++ rest
tuple_text (digits ∷ more) rest = digits ++ (b',' ∷ tuple_text more rest)

port_field-append :
    (left : ℕ) (digits rest after : Text)
    → IsOctet digits
    → is_digit (peek after) ≡ false
    → port_separator left after ≡ some rest
    → port_field left (port_digits 0 0 (digits ++ after)) ≡ some (decimal 0 digits, rest)
unfolding port_field
port_field-append left digits rest after o e h = ground (
  arith,
  port_digits-append 0 0 digits after o.all_digit e (omega arith) (omega (arith, o.short)),
  o.inhabited,
  o.within,
)

port_fields-tuple_text :
    (numbers : List Text) (rest : Text)
    → All IsOctet numbers
    → is_digit (peek rest) ≡ false
    → 1 ≤ length numbers
    → port_fields (length numbers) (tuple_text numbers rest) ≡ some (map (decimal 0) numbers, rest)
unfolding port_fields tuple_text port_separator
port_fields-tuple_text [] rest o e h = absurd (omega arith)
port_fields-tuple_text (digits ∷ []) rest o e h =
    ground (arith, port_field-append 0 digits rest rest o.0 e refl)
port_fields-tuple_text (digits ∷ d' ∷ more) rest o e h =
    let after = tuple_text (d' ∷ more) rest in
    ground (
      arith,
      port_field-append (suc (length more)) digits after (b',' ∷ after) o.0 refl refl,
      port_fields-tuple_text (d' ∷ more) rest o.1 e (omega arith),
    )

-- PORT reads back the values of any six decimal bytes that are joined by commas and followed by
-- blanks and the end of the line.
pub parse_port_tuple-tuple_text :
    (numbers : List Text) (trail rest : Text)
    → length numbers ≡ 6
    → All IsOctet numbers
    → AllBlank trail
    → ends_line (peek rest) ≡ true
    → parse_port_tuple (some (tuple_text numbers (trail ++ rest))) valid
      ≡ some (map (decimal 0) numbers)
unfolding parse_port_tuple finish_port
parse_port_tuple-tuple_text numbers trail rest six o b e =
    let fields =
      port_fields-tuple_text numbers (trail ++ rest) o (ends_line-not_digit trail rest b e)
        (omega arith) in
    ground (arith, six, fields, skip_blanks-append trail rest b (ground (arith, e)), e)

port_digits-le :
    (value n : ℕ) (s : Text) (v m : ℕ) (rest : Text)
    → value ≤ 255
    → port_digits value n s ≡ some (v, m, rest)
    → v ≤ 255
unfolding port_digits
port_digits-le value n [] v m rest b h = ground arith
port_digits-le value n (c ∷ s) v m rest b h =
    ground (arith, port_digits-le (u32 (u32 (value * 10) + (c - b'0'))) (u32 (n + 1)) s v m rest)

port_field_sound :
    (left : ℕ) (o : Option (ℕ × ℕ × Text)) (v : ℕ) (rest : Text)
    → port_field left o ≡ some (v, rest)
    → (m : ℕ) × (end : Text) × (o ≡ some (v, m, end))
unfolding port_field
port_field_sound left none v rest h = cc
port_field_sound left (some (value, digits, s)) v rest h = (digits, s, ground arith)

port_fields-le :
    (left : ℕ) (s : Text) (values : List ℕ) (rest : Text)
    → port_fields left s ≡ some (values, rest)
    → (length values ≡ left) × All (λ v. v ≤ 255) values
unfolding port_fields
port_fields-le zero s [] rest h = (refl, tt)
port_fields-le zero s (v ∷ values) rest h = absurd (ground arith)
port_fields-le (suc left) s [] rest h = absurd (ground arith)
port_fields-le (suc left) s (v ∷ values) rest h =
    elim (Option-cases (port_field left (port_digits 0 0 s))) [
      | inl e ↦ absurd (ground arith)
      | inr ((w, after), e) ↦
          let (m, end, e') = port_field_sound left (port_digits 0 0 s) w after e in
          ground (
            arith,
            port_digits-le 0 0 s w m end (omega arith) e',
            port_fields-le left after values rest,
          )
    ]

finish_port_sound :
    (o : Option (List ℕ × Text)) (values : List ℕ)
    → finish_port o ≡ some values
    → (rest : Text) × (o ≡ some (values, rest))
unfolding finish_port
finish_port_sound none values h = cc
finish_port_sound (some (vs, rest)) values h = (rest, ground arith)

-- PORT stores six numbers, each of them a byte.
pub parse_port_tuple-le :
    (arguments : Text) (values : List ℕ)
    → parse_port_tuple (some arguments) valid ≡ some values
    → (length values ≡ 6) × All (λ v. v ≤ 255) values
unfolding parse_port_tuple
parse_port_tuple-le arguments values h =
    let (rest, e) = finish_port_sound (port_fields 6 arguments) values h in
    port_fields-le 6 arguments values rest e
