-- ===== src/Sha1/Standard.antt =====
-- SHA-1 as FIPS 180 describes it.
pub mod Compression
use vitacompanion_vitadeck.Prelude.{
  ℕ, zero, suc, ◌+◌, ◌-◌, ◌*◌, ◌/◌, ◌%◌, ◌^◌, ◌≤◌, ◌<◌, ◌≡◌, refl, sym, ap, ◌∙◌, List, [], ◌∷◌,
  ◌++◌, ltb, true, false, if◌then◌else◌, arith, bit_and, bit_or, bit_xor, get_or, take, drop,
  length, Text,
}
use vitacompanion_vitadeck.Sha1.{
  Registers, load_word, load_words, extend_words, round, rounds, choose, parity, majority, compress,
  initial_state, round_constants, hash_bytes,
}
use vitacompanion_vitadeck.Sha1.Blocks.{hash_blocks}
use vitacompanion_vitadeck.Sha1.Padding.{padded}

-- Words are taken modulo 2^32.
abbrev pub word : ℕ → ℕ
word n = n % 2 ^ 32

abbrev pub rotl : ℕ → ℕ → ℕ
rotl n x = bit_or (word (x * 2 ^ n)) (x / 2 ^ (32 - n))

-- The word `t` of a block, its first byte the highest.
abbrev pub word_at : List ℕ → ℕ → ℕ
word_at block t = word (
    ((get_or block (4 * t) 0 * 256 + get_or block (4 * t + 1) 0) * 256 + get_or block (4 * t + 2) 0)
      * 256
    + get_or block (4 * t + 3) 0)

-- The first words of the message schedule.
pub schedule : List ℕ → ℕ → List ℕ
schedule block zero = []
schedule block (suc t) =
    let w = schedule block t in
    w
    ++ ((if ltb t 16
          then word_at block t
          else rotl 1 (
              bit_xor
                (bit_xor (bit_xor (get_or w (t - 3) 0) (get_or w (t - 8) 0)) (get_or w (t - 14) 0))
                (get_or w (t - 16) 0)))
        ∷ [])

-- The function and the constant of round `t`.
abbrev pub logical : ℕ → ℕ → ℕ → ℕ → ℕ
logical t x y z =
    if ltb t 20
    then bit_xor (bit_and x y) (bit_and (bit_xor x 0xFFFFFFFF) z)
    else if ltb t 40
    then bit_xor (bit_xor x y) z
    else if ltb t 60
    then bit_xor (bit_xor (bit_and x y) (bit_and x z)) (bit_and y z)
    else bit_xor (bit_xor x y) z

abbrev pub constant : ℕ → ℕ
constant t =
    if ltb t 20
    then 0x5A827999
    else if ltb t 40
    then 0x6ED9EBA1
    else if ltb t 60
    then 0x8F1BBCDC
    else 0xCA62C1D6

abbrev pub standard_round : ℕ → ℕ → Registers → Registers
standard_round t w r = record {
  a = word (rotl 5 r.a + logical t r.b r.c r.d + r.e + constant t + w);
  b = r.a;
  c = rotl 30 r.b;
  d = r.c;
  e = r.d;
}

-- The registers behind the first rounds.
pub behind_rounds : List ℕ → ℕ → Registers → Registers
behind_rounds w zero r = r
behind_rounds w (suc t) r = standard_round t (get_or w t 0) (behind_rounds w t r)

-- The hash value with the registers added.
abbrev pub added : Registers → Registers → List ℕ
added start r =
    word (start.a + r.a)
    ∷ word (start.b + r.b)
    ∷ word (start.c + r.c)
    ∷ word (start.d + r.d)
    ∷ word (start.e + r.e)
    ∷ []

-- The hash value behind one more block.
pub next_hash : List ℕ → List ℕ → List ℕ
next_hash h block =
    let start : Registers = record {
      a = get_or h 0 0;
      b = get_or h 1 0;
      c = get_or h 2 0;
      d = get_or h 3 0;
      e = get_or h 4 0;
    } in
    added start (behind_rounds (schedule block 80) 80 start)

pub behind_blocks : ℕ → List ℕ → Text → List ℕ
behind_blocks zero h s = h
behind_blocks (suc n) h s = behind_blocks n (next_hash h (take 64 s)) (drop 64 s)

-- A word as four bytes, the highest first.
abbrev pub bytes_of : ℕ → Text
bytes_of w =
    bit_and (w / 2 ^ 24) 255
    ∷ bit_and (w / 2 ^ 16) 255
    ∷ bit_and (w / 2 ^ 8) 255
    ∷ bit_and w 255
    ∷ []

-- The SHA-1 hash of a message.
pub digest : Text → Text
digest s =
    let h =
      behind_blocks (length (padded s) / 64)
        (0x67452301 ∷ 0xEFCDAB89 ∷ 0x98BADCFE ∷ 0x10325476 ∷ 0xC3D2E1F0 ∷ []) (padded s) in
    bytes_of (get_or h 0 0)
    ++ bytes_of (get_or h 1 0)
    ++ bytes_of (get_or h 2 0)
    ++ bytes_of (get_or h 3 0)
    ++ bytes_of (get_or h 4 0)

pub length-digest : (s : Text) → length (digest s) ≡ 20
unfolding digest
length-digest s = refl
