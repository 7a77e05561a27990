-- ===== src/Package/Head/Made.antt =====
-- The header that is made of a parameter file.
use mathlib.Core.Path.{subst}
use vitacompanion_vitadeck.Prelude.{
  ℕ, ◌+◌, ◌-◌, ◌≤◌, ◌≡◌, ◌≢◌, refl, sym, ap, ◌∙◌, true, false, ◌==◌, ◌⊎◌, inl, inr, Bool-cases,
  Option, none, some, Option-cases, List, ◌++◌, append_assoc, arith, Text, codes, peek, length,
  take, drop, replicate, snprintf, length-append, length-take, length-replicate, replicate-append,
  take-append, drop-append, take-of_le,
}
use vitacompanion_vitadeck.Sha1.{Context}
use vitacompanion_vitadeck.Package.Sfo.{sfo_string, valid_title_id}
use vitacompanion_vitadeck.Package.Sfo.Lookup.{sfo_string-fits}
use vitacompanion_vitadeck.Package.Head.{
  copy_into, sign_head, put_content_id, select_content_id, text_or_empty, signed_head, head_for,
  make_head,
}
use vitacompanion_vitadeck.Package.Head.Signing.{
  IsPut, IsSigned, copy_into-IsPut, sign_head-IsSigned,
}

-- The content ID of the parameter file; when it has none or an empty one, one made of the title ID.
abbrev pub IsContentId : List ℕ → Text → Text → Type 0
IsContentId sfo title_id id =
    let found = sfo_string sfo (codes "CONTENT_ID") 48 in
    ((found ≡ some id) × (peek id ≢ 0))
    ⊎ ((peek (text_or_empty found) ≡ 0)
        × (id ≡ codes "EP9000-" ++ (title_id ++ codes "_00-0000000000000000")))

-- The 48 bytes of the header that hold it.
abbrev pub id_field : Text → List ℕ
id_field id = id ++ replicate (48 - length id) 0

-- Both copies as one.
put_content_id-copy_into :
    (id : Text) (head : List ℕ)
    → length id ≤ 48
    → 96 ≤ length head
    → put_content_id id head ≡ copy_into (id_field id) 0x30 head
put_content_id-copy_into id head short long =
    let n = length id in
    let rest = drop 96 head in
    let front : length (take 48 head) ≡ 48 = omega (arith, length-take 48 head) in
    let zeros : List ℕ = replicate 48 0 in
    let whole : take 48 id ≡ id = take-of_le 48 id short in
    let m = 48 - n in
    let cleared = copy_into zeros 0x30 head in
    let split : zeros ++ rest ≡ replicate n 0 ++ (replicate m 0 ++ rest) =
      ap (λ z. z ++ rest) (sym (replicate-append n m 48 0 (omega (arith, short))))
      ∙ append_assoc (replicate n 0) (replicate m 0) rest in
    let behind : drop (48 + n) cleared ≡ replicate m 0 ++ rest =
      ap (λ t. drop (48 + n) (take 48 head ++ t)) split
      ∙ ap (drop (48 + n))
          (sym (append_assoc (take 48 head) (replicate n 0) (replicate m 0 ++ rest)))
      ∙ drop-append (48 + n) (take 48 head ++ replicate n 0) (replicate m 0 ++ rest) (
          omega (
            arith,
            length-append (take 48 head) (replicate n 0),
            front,
            length-replicate {A = ℕ} n 0,
          )) in
    let end : 96 ≡ 48 + length (id_field id) =
      omega (arith, length-append id (replicate m 0), length-replicate {A = ℕ} m 0, short) in
    ap (λ t. take 48 cleared ++ (t ++ drop (48 + length t) cleared)) whole
    ∙ ap (λ t. t ++ (id ++ drop (48 + n) cleared))
        (take-append 48 (take 48 head) (zeros ++ rest) front)
    ∙ ap (λ t. take 48 head ++ (id ++ t)) behind
    ∙ ap (λ t. take 48 head ++ t) (sym (append_assoc id (replicate m 0) rest))
    ∙ ap (λ (k : ℕ). take 48 head ++ (id_field id ++ drop k head)) end

put_content_id-IsPut :
    (id : Text) (head : List ℕ)
    → length id ≤ 48
    → 96 ≤ length head
    → IsPut 0x30 (id_field id) head (put_content_id id head)
put_content_id-IsPut id head short long =
    let size : 48 + length (id_field id) ≤ length head = omega (
      arith,
      length-append id (replicate (48 - length id) 0),
      length-replicate {A = ℕ} (48 - length id) 0,
      short,
      long,
    ) in
    subst (λ after. IsPut 0x30 (id_field id) head after)
      (sym (put_content_id-copy_into id head short long))
      (copy_into-IsPut (id_field id) 0x30 head size)

snprintf-uncut : (s : Text) → length s ≤ 47 → snprintf 48 s ≡ s
unfolding snprintf
snprintf-uncut s h = take-of_le 47 s h

-- The ID that is selected is the one described, and it fits its field.
select_content_id-IsContentId :
    (sfo : List ℕ) (title_id : Text)
    → length title_id ≡ 9
    → let id =
        select_content_id title_id (text_or_empty (sfo_string sfo (codes "CONTENT_ID") 48)) in
      IsContentId sfo title_id id × (length id ≤ 48)
select_content_id-IsContentId sfo title_id nine =
    let found = sfo_string sfo (codes "CONTENT_ID") 48 in
    let made = codes "EP9000-" ++ (title_id ++ codes "_00-0000000000000000") in
    let size : length made ≤ 47 =
      omega (arith, length-append title_id (codes "_00-0000000000000000"), nine) in
    let uncut : snprintf 48 made ≡ made = snprintf-uncut made size in
    elim (Bool-cases (peek (text_or_empty found) == 0)) [
      | inl empty ↦ rw (empty, uncut) (inr (ground (arith, empty), refl), omega (arith, size))
      | inr there ↦ elim (Option-cases found) [
        | inl nothing ↦ absurd (ground (arith, there, ap (λ o. peek (text_or_empty o)) nothing))
        | inr (id, e) ↦
            let fits = sfo_string-fits sfo (codes "CONTENT_ID") 48 id e in
            let other : (peek id == 0) ≡ false =
              sym (ap (λ o. peek (text_or_empty o) == 0) e) ∙ there in
            rw (e, other) (inl (refl, ground (arith, other)), omega (arith, fits))
      ]
    ]

signed_head-parts :
    (found title_id : Text) (o : Option (List ℕ)) (head : List ℕ)
    → signed_head found o ≡ inr (title_id, head)
    → (found ≡ title_id) × (o ≡ some head)
signed_head-parts found title_id none head h = cc
signed_head-parts found title_id (some made) head h = (cc, cc)

-- The template with the content ID in its field, and signed.
abbrev pub IsHead : List ℕ → List ℕ → Text → List ℕ → Type 0
IsHead template sfo title_id head =
    (id : Text) × (start : List ℕ) × IsContentId sfo title_id id
    × IsPut 0x30 (id_field id) template start
    × IsSigned start head

head_for-IsHead :
    (context : Context) (template sfo : List ℕ) (o : Option Text) (title_id : Text) (head : List ℕ)
    → length context.data_block ≡ 64
    → 96 ≤ length template
    → head_for context template sfo o ≡ inr (title_id, head)
    → (o ≡ some title_id) × (valid_title_id title_id ≡ true) × IsHead template sfo title_id head
unfolding head_for valid_title_id
head_for-IsHead context template sfo none title_id head size long h = cc
head_for-IsHead context template sfo (some found) title_id head size long h =
    elim (Bool-cases (valid_title_id found)) [
      | inr bad ↦ cc (rw (bad) at h)
      | inl valid ↦
          let id =
            select_content_id found (text_or_empty (sfo_string sfo (codes "CONTENT_ID") 48)) in
          let start = put_content_id id template in
          let (same, made) =
            signed_head-parts found title_id (sign_head context start) head (rw valid at h) in
          let (is, short) = select_content_id-IsContentId sfo found (ground (arith, valid)) in
          (
            ap some same,
            ap valid_title_id (sym same) ∙ valid,
            (
              id,
              start,
              subst (λ t. IsContentId sfo t id) same is,
              put_content_id-IsPut id template short long,
              sign_head-IsSigned context start head size made,
            ),
          )
    ]

-- A header that is made is, byte for byte, the template with the content ID in the 48 bytes from 0x30
-- on and then signed three times, each time with 16 bytes put into what was made before: behind the
-- prefix of the length in field 0xD0; at the place in field 0xD4 for the part at the offset in field
-- 0x8 of the length in field 0x10 less 64; behind the prefix of the length in field 0xE8. The content ID
-- is the one of the parameter file, or one made of the title ID where that is missing or empty; the
-- title ID is the one of the parameter file and a valid one. This holds for a template that has room
-- for a content ID and a context whose block has its 64 bytes.
pub make_head-IsSigned :
    (context : Context) (template sfo : List ℕ) (title_id : Text) (head : List ℕ)
    → length context.data_block ≡ 64
    → 96 ≤ length template
    → make_head context template sfo ≡ inr (title_id, head)
    → (sfo_string sfo (codes "TITLE_ID") 12 ≡ some title_id)
      × (valid_title_id title_id ≡ true)
      × IsHead template sfo title_id head
unfolding make_head
make_head-IsSigned context template sfo title_id head size long h =
    head_for-IsHead context template sfo (sfo_string sfo (codes "TITLE_ID") 12) title_id head size
      long h
