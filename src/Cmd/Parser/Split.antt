-- ===== src/Cmd/Parser/Split.antt =====
-- The arguments that the tokenizer leaves in the buffer are the words of the command.
use native.Mathlib.Decide.{dec_lt}
use vitacompanion_vitadeck.Prelude.{
  ℕ, zero, suc, ◌+◌, ◌-◌, ◌≤◌, ◌<◌, ◌≡◌, refl, sym, ap, ap₂, ◌∙◌, ◌↔◌, true, false, Option, none,
  some, List, [], ◌∷◌, ◌++◌, append_assoc, append-nil, arith, ◌==◌, if◌then◌else◌, Bool-cases, inl,
  inr, valid, Text, peek, length, ◌⊎◌, length-append, take, take-of_le, drop-of_le, drop,
}
use vitacompanion_vitadeck.Cmd.Parser.{
  is_separator, is_terminal, erase_separators, add_argument, parse_loop, parse_cmd,
}
use vitacompanion_vitadeck.Cmd.Parser.Words.{
  c_string, flush, words_from, words, erase_separators-words, length-erase_separators,
  skip_argument-stops, strings_at, Split, erased_of, argument_of, behind_of, Turn, Turn-found,
  flush_argument, string_at-argument, words_from-separator,
}

module _ (fuel arg_max at arg_count : ℕ) (s : Text) (turn : Turn s)
    (more : is_terminal (peek (erase_separators s).1) ≡ false) where
  open turn use {whole, inside, inhabited, splits}

  abbrev erased : Text
  erased = erased_of s

  abbrev argument : Text
  argument = argument_of s

  abbrev behind : Text
  behind = behind_of s

  -- The last argument of the command: nothing is split behind it.
  Split-last :
      (tail : Text)
      → words_from argument behind ≡ flush argument
      → c_string tail ≡ []
      → length tail ≡ length behind
      → parse_loop (suc fuel) arg_max at arg_count s ≡ (
          if arg_count == arg_max
          then none
          else some ((erased ++ argument) ++ tail, (at + length erased) ∷ []))
      → arg_count ≤ arg_max
      → Split s at (arg_max - arg_count) (parse_loop (suc fuel) arg_max at arg_count s)
  Split-last tail last z same returns c =
      let one : words s ≡ argument ∷ [] = splits ∙ last ∙ flush_argument argument inhabited in
      record {
        fits = λ h. (
          (erased ++ argument) ++ tail,
          (at + length erased) ∷ [],
          returns ∙ (ground (arith, ap length one)),
          omega (
            arith,
            length-append (erased ++ argument) tail,
            length-append erased argument,
            whole,
            same,
          ),
          λ before b.
              ap (λ t. t ∷ []) (string_at-argument before erased argument tail at _ b refl z inside)
              ∙ sym one,
        );
        overflows = λ h. returns ∙ (ground (arith, ap length one));
      }

  abbrev next_at : ℕ
  next_at = at + length erased + length argument + 1

  parse_loop-more :
      (d : ℕ) (tail : Text)
      → behind ≡ d ∷ tail
      → is_terminal d ≡ false
      → parse_loop (suc fuel) arg_max at arg_count s ≡ (
          if arg_count == arg_max
          then none
          else add_argument
              (erased ++ argument)
              (at + length erased)
              (parse_loop fuel arg_max next_at (arg_count + 1) tail))
  unfolding parse_loop add_argument
  parse_loop-more d tail e t = rw (more, e, t)

  parse_loop-last :
      (tail : Text)
      → (behind ≡ []) × (tail ≡ [])
        ⊎ ((d : ℕ) × (t : Text) × (behind ≡ d ∷ t) × (is_terminal d ≡ true) × (tail ≡ 0 ∷ t))
      → parse_loop (suc fuel) arg_max at arg_count s ≡ (
          if arg_count == arg_max
          then none
          else some ((erased ++ argument) ++ tail, (at + length erased) ∷ []))
  unfolding parse_loop
  parse_loop-last tail (inl (e, z)) = rw (more, e, z, append-nil (erased ++ argument))
  parse_loop-last tail (inr (d, t, e, h, z)) = rw (more, e, h, z)

  -- What a later call leaves, put behind this argument.
  rejoin :
      (before out : Text)
      → (before ++ ((erased ++ argument) ++ (0 ∷ []))) ++ out
        ≡ before ++ ((erased ++ argument) ++ (0 ∷ out))
  rejoin before out =
      append_assoc before ((erased ++ argument) ++ (0 ∷ [])) out
      ∙ ap (λ t. before ++ t) (append_assoc (erased ++ argument) (0 ∷ []) out)

  Split-more :
      (d : ℕ) (tail : Text)
      → behind ≡ d ∷ tail
      → is_terminal d ≡ false
      → is_separator d ≡ true
      → arg_count ≤ arg_max
      → (arg_count < arg_max
          → Split tail next_at
              (arg_max - (arg_count + 1))
              (parse_loop fuel arg_max next_at (arg_count + 1) tail))
      → Split s at (arg_max - arg_count) (parse_loop (suc fuel) arg_max at arg_count s)
  unfolding add_argument
  Split-more d tail e t p c rest =
      let several : words s ≡ argument ∷ words tail =
        splits ∙ ap (words_from argument) e ∙ words_from-separator argument d tail t p inhabited in
      let many = ap length several in
      let returns = parse_loop-more d tail e t in
      record {
        fits = λ h.
            let (out, args, got, same, strings) =
              (rest (omega (arith, many))).fits (omega (arith, many)) in
            (
              (erased ++ argument) ++ (0 ∷ out),
              (at + length erased) ∷ args,
              returns ∙ (ground (arith, many, got)),
              omega (
                arith,
                length-append (erased ++ argument) (0 ∷ out),
                length-append erased argument,
                whole,
                same,
                ap length e,
              ),
              λ before b.
                  ap₂ ◌∷◌
                    (string_at-argument before erased argument (0 ∷ out) at _ b refl
                      (unfold c_string in refl) inside)
                    (ap (λ t. strings_at t args) (sym (rejoin before out))
                      ∙ strings (before ++ ((erased ++ argument) ++ (0 ∷ []))) (
                          omega (
                            arith,
                            b,
                            length-append before ((erased ++ argument) ++ (0 ∷ [])),
                            length-append (erased ++ argument) (0 ∷ []),
                            length-append erased argument,
                          )))
                  ∙ sym several,
            );
        overflows = λ h. elim (Bool-cases (arg_count == arg_max)) [
          | inl full ↦ returns ∙ (rw full)
          | inr free ↦
              let less : arg_count < arg_max = ground arith in
              returns ∙ (rw (free, (rest less).overflows (omega (arith, many, less))))
        ];
      }

  -- One turn of the loop, whatever it stops at.
  Split-turn :
      arg_count ≤ arg_max
      → (behind' : Text) → behind ≡ behind'
      → ((tail : Text)
          → length tail + 1 ≤ length s
          → arg_count < arg_max
          → Split tail next_at
              (arg_max - (arg_count + 1))
              (parse_loop fuel arg_max next_at (arg_count + 1) tail))
      → Split s at (arg_max - arg_count) (parse_loop (suc fuel) arg_max at arg_count s)
  unfolding words_from c_string
  Split-turn c [] e rest =
      Split-last [] (ap (words_from argument) e) refl (ap length (sym e))
        (parse_loop-last [] (inl (e, refl))) c
  Split-turn c (d ∷ tail) e rest = elim (Bool-cases (is_terminal d)) [
    | inl t ↦
        Split-last (0 ∷ tail) (ap (words_from argument) e ∙ (rw t)) refl (ap length (sym e))
          (parse_loop-last (0 ∷ tail) (inr (d, tail, e, t, refl))) c
    | inr t ↦
        Split-more d tail e t (ground (arith, skip_argument-stops (erase_separators s).1 d tail e))
          c (rest tail (omega (arith, whole, ap length e, inhabited)))
  ]

parse_loop-none :
    (fuel arg_max at arg_count : ℕ) (s : Text)
    → is_terminal (peek (erase_separators s).1) ≡ true
    → parse_loop (suc fuel) arg_max at arg_count s
      ≡ some (erased_of s ++ (erase_separators s).1, [])
unfolding parse_loop
parse_loop-none fuel arg_max at arg_count s end = rw end

words-terminal : (s : Text) → is_terminal (peek s) ≡ true → words_from [] s ≡ []
unfolding words_from flush
words-terminal [] h = refl
words-terminal (c ∷ s) h = rw h

Split-none :
    (fuel arg_max at arg_count : ℕ) (s : Text)
    → is_terminal (peek (erase_separators s).1) ≡ true
    → Split s at (arg_max - arg_count) (parse_loop (suc fuel) arg_max at arg_count s)
unfolding words
Split-none fuel arg_max at arg_count s end =
    let empty = sym (erase_separators-words s) ∙ words-terminal (erase_separators s).1 end in
    record {
      fits = λ h. (
        erased_of s ++ (erase_separators s).1,
        [],
        parse_loop-none fuel arg_max at arg_count s end,
        length-append (erased_of s) (erase_separators s).1 ∙ length-erase_separators s,
        λ before b. sym empty,
      );
      overflows = λ h. absurd (omega (arith, ap length empty));
    }

parse_loop-Split :
    (fuel arg_max at arg_count : ℕ) (s : Text)
    → length s < fuel
    → arg_count ≤ arg_max
    → Split s at (arg_max - arg_count) (parse_loop fuel arg_max at arg_count s)
parse_loop-Split zero arg_max at arg_count s f c = absurd (omega arith)
parse_loop-Split (suc fuel) arg_max at arg_count s f c =
    elim (Bool-cases (is_terminal (peek (erase_separators s).1))) [
      | inl end ↦ Split-none fuel arg_max at arg_count s end
      | inr more ↦
          Split-turn fuel arg_max at arg_count s (Turn-found s more) more c (behind_of s) refl
            (λ tail short less.
              parse_loop-Split fuel arg_max _ (arg_count + 1) tail (omega arith) (omega arith))
    ]

-- Behind the command there is nothing.
keep_all : Option (Text × List ℕ) → Text → Option (Text × List ℕ)
keep_all none tail = none
keep_all (some (out, args)) tail = some (out ++ tail, args)

keep_all_lem : (o : Option (Text × List ℕ)) → keep_all o [] ≡ o
unfolding keep_all
keep_all_lem none = refl
keep_all_lem (some (out, args)) = ap (λ t. some (t, args)) (append-nil out)

parse_cmd-loop :
    (cmd : Text) (size arg_max : ℕ)
    → 0 < arg_max
    → parse_cmd valid cmd size valid arg_max
      ≡ keep_all (parse_loop (suc size) arg_max 0 0 (take size cmd)) (drop size cmd)
unfolding parse_cmd keep_all
parse_cmd-loop cmd size arg_max h = ground arith

parse_cmd-eq-parse_loop :
    (cmd : Text) (arg_max : ℕ)
    → 0 < arg_max
    → parse_cmd valid cmd (length cmd) valid arg_max ≡ parse_loop (suc (length cmd)) arg_max 0 0 cmd
parse_cmd-eq-parse_loop cmd arg_max h =
    parse_cmd-loop cmd (length cmd) arg_max h
    ∙ (rw (take-of_le (length cmd) cmd (omega arith), drop-of_le (length cmd) cmd (omega arith))
        (keep_all_lem (parse_loop (suc (length cmd)) arg_max 0 0 cmd)))

-- If the limit is not 0 and the command has at most that many words, the tokenizer succeeds, and the
-- C strings that it leaves at its offsets in the buffer are exactly these words, in order.
pub parse_cmd-words :
    (cmd : Text) (arg_max : ℕ)
    → 0 < arg_max
    → length (words cmd) ≤ arg_max
    → (buffer : Text) × (args : List ℕ) × (parse_cmd valid cmd (length cmd) valid arg_max
        ≡ some (buffer, args))
      × (length buffer ≡ length cmd)
      × (strings_at buffer args ≡ words cmd)
parse_cmd-words cmd arg_max h room =
    let all = parse_loop-Split (suc (length cmd)) arg_max 0 0 cmd (omega arith) (omega arith) in
    let (out, args, e, same, strings) = all.fits (omega arith) in
    (out, args, parse_cmd-eq-parse_loop cmd arg_max h ∙ e, same, strings [] refl)

-- With a limit that is not 0, the tokenizer reports too many arguments exactly when the command has
-- more words than the limit.
pub parse_cmd-too_many_iff :
    (cmd : Text) (arg_max : ℕ)
    → 0 < arg_max
    → (parse_cmd valid cmd (length cmd) valid arg_max ≡ none) ↔ (arg_max < length (words cmd))
parse_cmd-too_many_iff cmd arg_max h =
    let all = parse_loop-Split (suc (length cmd)) arg_max 0 0 cmd (omega arith) (omega arith) in
    let same = parse_cmd-eq-parse_loop cmd arg_max h in
    (
      (λ e. elim (dec_lt arg_max (length (words cmd))) [
        | yes more ↦ more
        | no less ↦ let (out, args, e', _, _) = all.fits (omega arith) in absurd (ground arith)
      ]),
      (λ more. same ∙ all.overflows (omega arith)),
    )
