-- ===== src/Sha1/Standard/Compression.antt =====
-- The code's parts compute the hash that FIPS 180 describes.
use vitacompanion_vitadeck.Prelude.{
  ℕ, zero, suc, ◌+◌, ◌*◌, ◌/◌, ◌≤◌, ◌<◌, ◌≡◌, refl, sym, ap, ◌∙◌, List, [], ◌∷◌, ◌++◌, ltb, true,
  false, arith, get_or, take, drop, length, Text,
}
use vitacompanion_vitadeck.Sha1.{
  Registers, load_word, load_words, extend_words, round, rounds, choose, parity, majority, compress,
  initial_state, round_constants, hash_bytes,
}
use vitacompanion_vitadeck.Sha1.Blocks.{hash_blocks}
use vitacompanion_vitadeck.Sha1.Padding.{padded, hash_of_blocks}
use vitacompanion_vitadeck.Sha1.Standard.{
  word_at, schedule, behind_rounds, standard_round, added, next_hash, behind_blocks, digest,
}

load_word-word_at : (block : List ℕ) (t : ℕ) → load_word block (t * 4) ≡ word_at block t
load_word-word_at block t =
    let e : t * 4 ≡ 4 * t = omega arith in ap (λ (j : ℕ). load_word block j) e ∙ omega arith

-- The two loops of the message schedule.
load_words-schedule :
    (left i : ℕ) (block : List ℕ)
    → i + left ≤ 16
    → load_words left i block (schedule block i) ≡ schedule block (i + left)
unfolding load_words schedule
load_words-schedule zero i block h =
    let e : i ≡ i + 0 = omega arith in ap (λ (j : ℕ). schedule block j) e
load_words-schedule (suc left) i block h =
    let early : ltb i 16 ≡ true = ground arith in
    let e : i + 1 + left ≡ i + suc left = omega arith in
    let next : schedule block i ++ (load_word block (i * 4) ∷ []) ≡ schedule block (suc i) =
      rw early (ap (λ w. schedule block i ++ (w ∷ [])) (load_word-word_at block i)) in
    let e' : suc i ≡ i + 1 = omega arith in
    ap (λ m. load_words left (i + 1) block m) (next ∙ ap (λ (j : ℕ). schedule block j) e')
    ∙ load_words-schedule left (i + 1) block (omega (arith, h))
    ∙ ap (λ (j : ℕ). schedule block j) e

extend_words-schedule :
    (left i : ℕ) (block : List ℕ)
    → 16 ≤ i
    → extend_words left i (schedule block i) ≡ schedule block (i + left)
unfolding extend_words schedule
extend_words-schedule zero i block h =
    let e : i ≡ i + 0 = omega arith in ap (λ (j : ℕ). schedule block j) e
extend_words-schedule (suc left) i block h =
    let late : ltb i 16 ≡ false = ground arith in
    let e : i + 1 + left ≡ i + suc left = omega arith in
    let e' : suc i ≡ i + 1 = omega arith in
    let next : schedule block (suc i) ≡ schedule block (i + 1) =
      ap (λ (j : ℕ). schedule block j) e' in
    ap (λ m. extend_words left (i + 1) m) (rw late at next)
    ∙ extend_words-schedule left (i + 1) block (omega (arith, h))
    ∙ ap (λ (j : ℕ). schedule block j) e

-- A loop of rounds with one function and one constant.
rounds-behind :
    (left i : ℕ) (mix : Registers → ℕ) (k : ℕ) (w : List ℕ) (start : Registers)
    → ((j : ℕ) (r : Registers)
        → i ≤ j
        → j < i + left
        → round (mix r) k (get_or w j 0) r ≡ standard_round j (get_or w j 0) r)
    → rounds left mix k i w (behind_rounds w i start) ≡ behind_rounds w (i + left) start
unfolding rounds behind_rounds
rounds-behind zero i mix k w start same =
    let e : i ≡ i + 0 = omega arith in ap (λ (j : ℕ). behind_rounds w j start) e
rounds-behind (suc left) i mix k w start same =
    let e : suc i ≡ i + 1 = omega arith in
    let e' : i + 1 + left ≡ i + suc left = omega arith in
    ap (λ r. rounds left mix k (i + 1) w r)
      (same i (behind_rounds w i start) (omega arith) (omega arith)
        ∙ ap (λ (j : ℕ). behind_rounds w j start) e)
    ∙ rounds-behind left (i + 1) mix k w start
        (λ j r le less. same j r (omega (arith, le)) (omega (arith, less)))
    ∙ ap (λ (j : ℕ). behind_rounds w j start) e'

-- Each loop has the function and the constant of its rounds.
compress-next_hash : (h block : List ℕ) → compress round_constants h block ≡ next_hash h block
unfolding compress next_hash
compress-next_hash h block =
    let start : Registers = record {
      a = get_or h 0 0;
      b = get_or h 1 0;
      c = get_or h 2 0;
      d = get_or h 3 0;
      e = get_or h 4 0;
    } in
    let w = extend_words 64 16 (load_words 16 0 block []) in
    let none : schedule block 0 ≡ [] = (unfold schedule in refl) in
    let m : w ≡ schedule block 80 =
      ap (λ m. extend_words 64 16 m)
        (ap (λ m. load_words 16 0 block m) (sym none)
          ∙ load_words-schedule 16 0 block (omega arith))
      ∙ extend_words-schedule 64 16 block (omega arith) in
    let begin : start ≡ behind_rounds w 0 start = (unfold behind_rounds in refl) in
    let first : rounds 20 choose 0x5a827999 0 w start ≡ behind_rounds w 20 start =
      ap (λ r. rounds 20 choose 0x5a827999 0 w r) begin
      ∙ rounds-behind 20 0 choose 0x5a827999 w start
          (λ j r le less. let t : ltb j 20 ≡ true = ground arith in rw t refl) in
    let second : rounds 20 parity 0x6ed9eba1 20 w (behind_rounds w 20 start)
        ≡ behind_rounds w 40 start =
      rounds-behind 20 20 parity 0x6ed9eba1 w start (λ j r le less.
        let t : ltb j 20 ≡ false = ground arith in
        let t' : ltb j 40 ≡ true = ground arith in rw (t, t') refl) in
    let third : rounds 20 majority 0x8f1bbcdc 40 w (behind_rounds w 40 start)
        ≡ behind_rounds w 60 start =
      rounds-behind 20 40 majority 0x8f1bbcdc w start (λ j r le less.
        let t : ltb j 20 ≡ false = ground arith in
        let t' : ltb j 40 ≡ false = ground arith in
        let t'' : ltb j 60 ≡ true = ground arith in rw (t, t', t'') refl) in
    let last : rounds 20 parity 0xca62c1d6 60 w (behind_rounds w 60 start)
        ≡ behind_rounds w 80 start =
      rounds-behind 20 60 parity 0xca62c1d6 w start (λ j r le less.
        let t : ltb j 20 ≡ false = ground arith in
        let t' : ltb j 40 ≡ false = ground arith in
        let t'' : ltb j 60 ≡ false = ground arith in rw (t, t', t'') refl) in
    let all : rounds 20 parity 0xca62c1d6 60 w (
          rounds 20 majority 0x8f1bbcdc 40 w
            (rounds 20 parity 0x6ed9eba1 20 w (rounds 20 choose 0x5a827999 0 w start)))
        ≡ behind_rounds (schedule block 80) 80 start =
      ap
        (λ r.
          rounds 20 parity 0xca62c1d6 60 w
            (rounds 20 majority 0x8f1bbcdc 40 w (rounds 20 parity 0x6ed9eba1 20 w r)))
        first
      ∙ ap (λ r. rounds 20 parity 0xca62c1d6 60 w (rounds 20 majority 0x8f1bbcdc 40 w r)) second
      ∙ ap (λ r. rounds 20 parity 0xca62c1d6 60 w r) third
      ∙ last
      ∙ ap (λ v. behind_rounds v 80 start) m in
    ap (λ r. added start r) all

hash_blocks-behind_blocks :
    (n : ℕ) (h : List ℕ) (s : Text) → hash_blocks round_constants n h s ≡ behind_blocks n h s
unfolding hash_blocks behind_blocks
hash_blocks-behind_blocks zero h s = refl
hash_blocks-behind_blocks (suc n) h s =
    hash_blocks-behind_blocks n (compress round_constants h (take 64 s)) (drop 64 s)
    ∙ ap (λ g. behind_blocks n g (drop 64 s)) (compress-next_hash h (take 64 s))

-- What the code's parts compute of the padded message is its hash.
pub hash_of_blocks-digest : (s : Text) → hash_of_blocks s ≡ digest s
unfolding hash_of_blocks digest
hash_of_blocks-digest s =
    ap hash_bytes (hash_blocks-behind_blocks (length (padded s) / 64) initial_state (padded s))
