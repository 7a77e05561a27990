-- ===== src/Cmd/Parser/Words.antt =====
-- The words of a command, and what the loops of the tokenizer find of them.
use vitacompanion_vitadeck.Prelude.{
  ℕ, zero, suc, ◌+◌, ◌≤◌, ◌<◌, ◌≡◌, refl, sym, ap, ◌∙◌, true, false, ◌||◌, Option, none, some, List,
  [], ◌∷◌, ◌++◌, map, append_assoc, append-nil, arith, ◌==◌, if◌then◌else◌, Text, peek, length,
  length-append, drop, All,
}
use vitacompanion_vitadeck.Cmd.Parser.{is_separator, is_terminal, erase_separators, skip_argument}

-- The C string that starts at the front of some memory.
unfoldable pub c_string : Text → Text
c_string [] = []
c_string (c ∷ s) = if c == 0 then [] else c ∷ c_string s

-- A word that is not empty.
unfoldable pub flush : Text → List Text
flush [] = []
flush (c ∷ word) = (c ∷ word) ∷ []

-- The words up to the first NUL or line feed, `word` being the start of the current one.
unfoldable pub words_from : Text → Text → List Text
words_from word [] = flush word
words_from word (c ∷ s) =
    if is_terminal c
    then flush word
    else if is_separator c
    then flush word ++ words_from [] s
    else words_from (word ++ (c ∷ [])) s

unfoldable pub words : Text → List Text
words s = words_from [] s

pub erase_separators-words : (s : Text) → words_from [] (erase_separators s).1 ≡ words_from [] s
unfolding erase_separators words_from flush
erase_separators-words [] = refl
erase_separators-words (c ∷ s) = ground (arith, erase_separators-words s)

pub length-erase_separators :
    (s : Text) → length (erase_separators s).0 + length (erase_separators s).1 ≡ length s
unfolding erase_separators
length-erase_separators [] = refl
length-erase_separators (c ∷ s) = ground (arith, length-erase_separators s)

erase_separators-start :
    (s : Text) (c : ℕ) (rest : Text) → (erase_separators s).1 ≡ c ∷ rest → is_separator c ≡ false
unfolding erase_separators
erase_separators-start [] c rest h = ground arith
erase_separators-start (d ∷ s) c rest h = ground (arith, erase_separators-start s c rest)

skip_argument-whole : (s : Text) → (skip_argument s).0 ++ (skip_argument s).1 ≡ s
unfolding skip_argument
skip_argument-whole [] = refl
skip_argument-whole (c ∷ s) = ground (arith, skip_argument-whole s)

abbrev pub IsInside : ℕ → Type 0
IsInside c = (is_terminal c ≡ false) × (is_separator c ≡ false)

skip_argument-IsInside : (s : Text) → All IsInside (skip_argument s).0
unfolding skip_argument
skip_argument-IsInside [] = tt
skip_argument-IsInside (c ∷ s) = ground (arith, skip_argument-IsInside s)

pub skip_argument-stops :
    (s : Text) (d : ℕ) (tail : Text)
    → (skip_argument s).1 ≡ d ∷ tail
    → (is_terminal d || is_separator d) ≡ true
unfolding skip_argument
skip_argument-stops [] d tail h = ground arith
skip_argument-stops (c ∷ s) d tail h = ground (arith, skip_argument-stops s d tail)

words_from-append :
    (word argument rest : Text)
    → All IsInside argument
    → words_from word (argument ++ rest) ≡ words_from (word ++ argument) rest
unfolding words_from
words_from-append word [] rest h = ap (λ t. words_from t rest) (sym (append-nil word))
words_from-append word (c ∷ argument) rest h =
    rw (h.0.0, h.0.1)
      (words_from-append (word ++ (c ∷ [])) argument rest h.1
        ∙ ap (λ t. words_from t rest) (append_assoc word (c ∷ []) argument))

c_string-append :
    (argument rest : Text)
    → All IsInside argument
    → c_string (argument ++ rest) ≡ argument ++ c_string rest
unfolding c_string
c_string-append [] rest h = refl
c_string-append (c ∷ argument) rest h = ground (arith, h.0, c_string-append argument rest h.1)

-- Arguments at their offsets in a buffer.
abbrev pub strings_at : Text → List ℕ → List Text
strings_at buffer args = map (λ at. c_string (drop at buffer)) args

pub drop-append :
    (before s : Text) (n k : ℕ) → length before + k ≡ n → drop n (before ++ s) ≡ drop k s
drop-append [] s n k e = let e' : n ≡ k = omega arith in ap (λ (t : ℕ). drop t s) e'
drop-append (c ∷ before) s zero k e = absurd (omega arith)
drop-append (c ∷ before) s (suc n) k e = drop-append before s n k (omega arith)

-- What the loop leaves of the rest of the buffer, behind any bytes `before`.
pub record Split (s : Text) (at room : ℕ) (result : Option (Text × List ℕ)) : Type 0 where
  pub fits :
      length (words s) ≤ room
      → (out : Text) × (args : List ℕ) × (result ≡ some (out, args))
        × (length out ≡ length s)
        × ((before : Text) → length before ≡ at → strings_at (before ++ out) args ≡ words s)
  pub overflows : room < length (words s) → result ≡ none

-- One argument of the command, found behind the separators.
abbrev pub erased_of : Text → Text
erased_of s = (erase_separators s).0

abbrev pub argument_of : Text → Text
argument_of s = (skip_argument (erase_separators s).1).0

abbrev pub behind_of : Text → Text
behind_of s = (skip_argument (erase_separators s).1).1

pub record Turn (s : Text) : Type 0 where
  pub whole : length (erased_of s) + length (argument_of s) + length (behind_of s) ≡ length s
  pub inside : All IsInside (argument_of s)
  pub inhabited : 1 ≤ length (argument_of s)
  pub splits : words s ≡ words_from (argument_of s) (behind_of s)

skip_argument-inhabited :
    (s : Text)
    → is_terminal (peek s) ≡ false
    → is_separator (peek s) ≡ false
    → 1 ≤ length (skip_argument s).0
unfolding skip_argument
skip_argument-inhabited [] t p = absurd (ground arith)
skip_argument-inhabited (c ∷ s) t p = ground arith

erase_separators-peek : (s : Text) → is_separator (peek (erase_separators s).1) ≡ false
unfolding erase_separators
erase_separators-peek [] = refl
erase_separators-peek (c ∷ s) = ground (arith, erase_separators-peek s)

pub Turn-found : (s : Text) → is_terminal (peek (erase_separators s).1) ≡ false → Turn s
unfolding words
Turn-found s t =
    let rest = (erase_separators s).1 in
    let argument = (skip_argument rest).0 in
    let behind = (skip_argument rest).1 in
    record {
      whole = omega (
        arith,
        length-erase_separators s,
        length-append argument behind,
        ap length (skip_argument-whole rest),
      );
      inside = skip_argument-IsInside rest;
      inhabited = skip_argument-inhabited rest t (erase_separators-peek s);
      splits =
          sym (erase_separators-words s)
          ∙ ap (words_from []) (sym (skip_argument-whole rest))
          ∙ words_from-append [] argument behind (skip_argument-IsInside rest);
    }

pub flush_argument : (argument : Text) → 1 ≤ length argument → flush argument ≡ argument ∷ []
unfolding flush
flush_argument [] h = absurd (omega arith)
flush_argument (c ∷ argument) h = refl

-- The string at the start of an argument, behind `before` and the erased separators.
pub string_at-argument :
    (before erased argument rest : Text) (at n : ℕ)
    → length before ≡ at
    → at + length erased ≡ n
    → c_string rest ≡ []
    → All IsInside argument
    → c_string (drop n (before ++ ((erased ++ argument) ++ rest))) ≡ argument
string_at-argument before erased argument rest at n b e z h =
    ap (λ t. c_string (drop n (before ++ t))) (append_assoc erased argument rest)
    ∙ ap c_string (
        drop-append before (erased ++ (argument ++ rest)) n (length erased) (omega arith)
        ∙ drop-append erased (argument ++ rest) (length erased) 0 (omega arith))
    ∙ c_string-append argument rest h
    ∙ ap (λ t. argument ++ t) z
    ∙ append-nil argument

pub words_from-separator :
    (argument : Text) (d : ℕ) (tail : Text)
    → is_terminal d ≡ false
    → is_separator d ≡ true
    → 1 ≤ length argument
    → words_from argument (d ∷ tail) ≡ argument ∷ words tail
unfolding words words_from
words_from-separator argument d tail t p h =
    rw (t, p) (ap (λ w. w ++ words_from [] tail) (flush_argument argument h))
