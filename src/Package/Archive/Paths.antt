-- ===== src/Package/Archive/Paths.antt =====
-- Which names of archive entries are taken as safe.
use mathlib.Core.Path.{subst}
use vitacompanion_vitadeck.Prelude.{
  ℕ, zero, suc, ◌<◌, ◌≡◌, ◌≢◌, refl, sym, ap, ap₂, ◌∙◌, ◌↔◌, inl, inr, true, false, ◌&&◌, ◌||◌,
  none, some, [], ◌∷◌, ◌++◌, append-nil, arith, ◌==◌, Bool-cases, Option-cases, Text, codes, peek,
  length, All, length-append,
}
use vitacompanion_vitadeck.Package.Archive.{
  slash, backslash, colon, dot, has_char, before_slash, after_slash, is_bad_component,
  safe_components, is_safe_archive_path,
}

-- A byte that a component may hold.
abbrev pub IsPlain : ℕ → Type 0
IsPlain c = (c ≢ slash) × (c ≢ colon) × (c ≢ backslash) × (0 < c)

-- A component that stays in its directory.
pub record IsComponent (word : Text) : Type 0 where
  pub plain : All IsPlain word
  pub some_byte : word ≢ []
  pub not_here : word ≢ codes "."
  pub not_up : word ≢ codes ".."

-- Components with a slash between them, and perhaps one at the end.
pub data IsRelative : Text → Type 0 where
  last : {word : Text} → IsComponent word → IsRelative word
  closed : {word : Text} → IsComponent word → IsRelative (word ++ (slash ∷ []))
  inside :
      {word rest : Text} → IsComponent word → IsRelative rest → IsRelative (word ++ (slash ∷ rest))

-- No byte that the first test refuses, and none that ends a C string.
abbrev Clean : Text → Type 0
Clean s = All (λ c. (c ≢ colon) × (c ≢ backslash) × (0 < c)) s

before-IsPlain : (s : Text) → Clean s → All IsPlain (before_slash s)
before-IsPlain [] clean = tt
before-IsPlain (c ∷ s) clean = elim (Bool-cases (c == slash)) [
  | inl here ↦ rw (here) tt
  | inr later ↦
      rw (later) (((λ e. ground arith), clean.0.0, clean.0.1, clean.0.2), before-IsPlain s clean.1)
]

before-all : (s : Text) → after_slash s ≡ none → before_slash s ≡ s
before-all [] h = refl
before-all (c ∷ s) h = elim (Bool-cases (c == slash)) [
  | inl here ↦ cc (rw here at h)
  | inr later ↦ rw (later) (ap (λ t. c ∷ t) (before-all s (rw later at h)))
]

before-after : (s rest : Text) → after_slash s ≡ some rest → before_slash s ++ (slash ∷ rest) ≡ s
before-after [] rest h = cc
before-after (c ∷ s) rest h = elim (Bool-cases (c == slash)) [
  | inl here ↦
      let e : some s ≡ some rest = rw here at h in
      let c_slash : c ≡ slash = ground arith in rw (here) cc
  | inr later ↦ rw (later) (ap (λ t. c ∷ t) (before-after s rest (rw later at h)))
]

after-Clean : (s rest : Text) → after_slash s ≡ some rest → Clean s → Clean rest
after-Clean [] rest h clean = cc
after-Clean (c ∷ s) rest h clean = elim (Bool-cases (c == slash)) [
  | inl here ↦ let same : s ≡ rest = cc (rw here at h) in subst Clean same clean.1
  | inr later ↦ after-Clean s rest (rw later at h) clean.1
]

before-word : (word t : Text) → All IsPlain word → before_slash (word ++ (slash ∷ t)) ≡ word
before-word [] t plain = refl
before-word (c ∷ word) t plain =
    let no : (c == slash) ≡ false = ground (arith, plain.0.0) in
    rw (no) (ap (λ u. c ∷ u) (before-word word t plain.1))

after-word : (word t : Text) → All IsPlain word → after_slash (word ++ (slash ∷ t)) ≡ some t
after-word [] t plain = refl
after-word (c ∷ word) t plain =
    let no : (c == slash) ≡ false = ground (arith, plain.0.0) in rw (no) (after-word word t plain.1)

before-last : (word : Text) → All IsPlain word → before_slash word ≡ word
before-last [] plain = refl
before-last (c ∷ word) plain =
    let no : (c == slash) ≡ false = ground (arith, plain.0.0) in
    rw (no) (ap (λ u. c ∷ u) (before-last word plain.1))

after-last : (word : Text) → All IsPlain word → after_slash word ≡ none
after-last [] plain = refl
after-last (c ∷ word) plain =
    let no : (c == slash) ≡ false = ground (arith, plain.0.0) in rw (no) (after-last word plain.1)

good-IsComponent :
    (word : Text) → All IsPlain word → is_bad_component word ≡ false → IsComponent word
good-IsComponent word plain good = record {
  plain = plain;
  some_byte = λ e. cc (sym good ∙ ap is_bad_component e);
  not_here = λ e. cc (sym good ∙ ap is_bad_component e);
  not_up = λ e. cc (sym good ∙ ap is_bad_component e);
}

IsComponent-good : (word : Text) → IsComponent word → is_bad_component word ≡ false
IsComponent-good [] is = absurd (is.some_byte refl)
IsComponent-good (a ∷ []) is = elim (Bool-cases (a == dot)) [
  | inl e ↦ let e' : a ≡ dot = ground arith in absurd (is.not_here (ap (λ x. x ∷ []) e'))
  | inr e ↦ rw (e) refl
]
IsComponent-good (a ∷ b ∷ []) is = elim (Bool-cases (a == dot && b == dot)) [
  | inl e ↦
      let a' : a ≡ dot = ground arith in
      let b' : b ≡ dot = ground arith in absurd (is.not_up (ap₂ (λ x y. x ∷ y ∷ []) a' b'))
  | inr e ↦ e
]
IsComponent-good (a ∷ b ∷ c ∷ word) is = ground arith

peek-Clean : (s : Text) → Clean s → s ≢ [] → (peek s == 0) ≡ false
peek-Clean [] clean more = absurd (more refl)
peek-Clean (c ∷ s) clean more = ground (arith, clean.0.2)

rest-IsRelative :
    {word : Text} (rest : Text)
    → IsComponent word
    → (rest ≢ [] → IsRelative rest)
    → IsRelative (word ++ (slash ∷ rest))
rest-IsRelative [] is more = closed is
rest-IsRelative (c ∷ rest) is more = inside is (more (λ e. cc))

-- The loop, forwards.
safe-IsRelative :
    (fuel : ℕ) (s : Text) → Clean s → s ≢ [] → safe_components fuel s ≡ true → IsRelative s
unfolding safe_components
safe-IsRelative zero s clean some_byte h = cc
safe-IsRelative (suc fuel) [] clean some_byte h = absurd (some_byte refl)
safe-IsRelative (suc fuel) (c ∷ t) clean some_byte h =
    let s : Text = c ∷ t in
    let begun : (c == 0) ≡ false = ground (arith, clean.0.2) in
    elim (Bool-cases (is_bad_component (before_slash s))) [
      | inl bad ↦ cc (rw (begun, bad) at h)
      | inr good ↦
          let word = good-IsComponent (before_slash s) (before-IsPlain s clean) good in
          elim (Option-cases (after_slash s)) [
            | inl none_left ↦ subst IsRelative (before-all s none_left) (last word)
            | inr (rest, left) ↦ subst IsRelative (before-after s rest left) (
                rest-IsRelative rest word (λ more.
                  let clean' = after-Clean s rest left clean in
                  safe-IsRelative fuel rest clean' more
                    (rw (begun, good, left, peek-Clean rest clean' more) at h)))
          ]
    ]

-- And backwards.
IsRelative-safe :
    (fuel : ℕ) {s : Text} → IsRelative s → length s < fuel → safe_components fuel s ≡ true
unfolding safe_components
IsRelative-safe zero r less = absurd (omega arith)
IsRelative-safe (suc fuel) (last {word} is) less =
    let good = IsComponent-good word is in
    rw (before-last word is.plain, after-last word is.plain, good) (ground arith)
IsRelative-safe (suc fuel) (closed {word} is) less =
    let good = IsComponent-good word is in
    rw (before-word word [] is.plain, after-word word [] is.plain, good) (ground arith)
IsRelative-safe (suc fuel) (inside {word} {rest} is more) less =
    let good = IsComponent-good word is in
    let next = IsRelative-safe fuel more (omega (arith, length-append word (slash ∷ rest))) in
    rw (before-word word rest is.plain, after-word word rest is.plain, good, next) (ground arith)

word-Clean : (word t : Text) → All IsPlain word → Clean t → Clean (word ++ t)
word-Clean [] t plain clean = clean
word-Clean (c ∷ word) t plain clean =
    ((plain.0.1, plain.0.2, plain.0.3), word-Clean word t plain.1 clean)

slash-Clean : (slash ≢ colon) × (slash ≢ backslash) × (0 < slash)
slash-Clean = ((λ e. omega arith), (λ e. omega arith), omega arith)

IsRelative-Clean : {s : Text} → IsRelative s → Clean s
IsRelative-Clean (last {word} is) = subst Clean (append-nil word) (word-Clean word [] is.plain tt)
IsRelative-Clean (closed {word} is) = word-Clean word (slash ∷ []) is.plain (slash-Clean, tt)
IsRelative-Clean (inside {word} {rest} is more) =
    word-Clean word (slash ∷ rest) is.plain (slash-Clean, IsRelative-Clean more)

Clean-of_chars :
    (s : Text)
    → All (λ c. 0 < c) s
    → has_char colon s ≡ false
    → has_char backslash s ≡ false
    → Clean s
Clean-of_chars [] whole no_colon no_backslash = tt
Clean-of_chars (c ∷ s) whole no_colon no_backslash = (
  ((λ e. ground arith), (λ e. ground arith), whole.0),
  Clean-of_chars s whole.1 (ground arith) (ground arith),
)

Clean-chars : (s : Text) → Clean s → (has_char colon s ≡ false) × (has_char backslash s ≡ false)
Clean-chars [] clean = (refl, refl)
Clean-chars (c ∷ s) clean =
    let rest = Clean-chars s clean.1 in
    (ground (arith, clean.0.0, rest.0), ground (arith, clean.0.1, rest.1))

word-begins : (word : Text) → IsComponent word → (word ≢ []) × (peek word ≢ slash)
word-begins [] is = absurd (is.some_byte refl)
word-begins (c ∷ word) is = (is.some_byte, is.plain.0.0)

joined-begins : (word t : Text) → IsComponent word → (word ++ t ≢ []) × (peek (word ++ t) ≢ slash)
joined-begins [] t is = absurd (is.some_byte refl)
joined-begins (c ∷ word) t is = ((λ e. cc), is.plain.0.0)

IsRelative-begins : {s : Text} → IsRelative s → (s ≢ []) × (peek s ≢ slash)
IsRelative-begins (last {word} is) = word-begins word is
IsRelative-begins (closed {word} is) = joined-begins word (slash ∷ []) is
IsRelative-begins (inside {word} {rest} is more) = joined-begins word (slash ∷ rest) is

-- A name of an archive entry, a C string, is taken as safe exactly when it is a relative path: one
-- or more components with a slash between them and perhaps one at the end, where no component is
-- empty, `.` or `..`, and none holds a colon or a backslash.
pub is_safe_archive_path-iff-IsRelative :
    (path : Text) → All (λ c. 0 < c) path → (is_safe_archive_path path ≡ true) ↔ IsRelative path
unfolding is_safe_archive_path
is_safe_archive_path-iff-IsRelative [] whole =
    ((λ h. cc), (λ r. absurd ((IsRelative-begins r).0 refl)))
is_safe_archive_path-iff-IsRelative (c ∷ s) whole =
    let path : Text = c ∷ s in
    (
      (λ h.
          elim (Bool-cases (
            c == 0
            || c == slash
            || c == backslash
            || has_char colon path
            || has_char backslash path)) [
              | inl refused ↦ cc (rw refused at h)
              | inr passed ↦
                  safe-IsRelative (suc (length path)) path
                    (Clean-of_chars path whole (ground (arith, passed)) (ground (arith, passed)))
                    (λ e. cc) (rw passed at h)
            ]),
      (λ r.
          let clean = IsRelative-Clean r in
          let chars = Clean-chars path clean in
          let begins = IsRelative-begins r in
          let passed : (c == 0
                || c == slash
                || c == backslash
                || has_char colon path
                || has_char backslash path)
              ≡ false =
            ground (arith, clean.0, chars.0, chars.1, begins.1) in
          rw (passed) (IsRelative-safe (suc (length path)) r (omega arith))),
    )
