-- ===== src/Sha1.antt =====
-- src/sha1.c and src/sha1.h: the SHA-1 of the package installer. Bytes and words are numbers, and
-- each store into a word keeps its wrap-around.
pub mod Blocks
pub mod Padding
pub mod Standard
pub mod Digest
use vitacompanion_vitadeck.Prelude.{
  ℕ, zero, suc, ◌+◌, ◌-◌, ◌*◌, ◌/◌, ◌^◌, List, [], ◌∷◌, ◌++◌, ltb, ◌==◌, if◌then◌else◌, bit_and,
  bit_or, bit_xor, u8, u32, u64, get_or, set, replicate, drop, Text,
}

-- `ROTLEFT(a, n)`
abbrev pub rotate_left : ℕ → ℕ → ℕ
rotate_left a n = bit_or (u32 (a * 2 ^ n)) (a / 2 ^ (32 - n))

-- `~a` on a word
abbrev pub complement : ℕ → ℕ
complement a = bit_xor a 0xffffffff

-- `SHA1_CTX`
pub record Context : Type 0 where
  pub data_block : List ℕ
  pub datalen : ℕ
  pub bitlen : ℕ
  pub state : List ℕ
  pub k : List ℕ

-- `m[i]` for i < 16: a word of the block, its first byte the highest.
abbrev pub load_word : List ℕ → ℕ → ℕ
load_word block j = u32 (
    get_or block j 0 * 2 ^ 24
    + get_or block (j + 1) 0 * 2 ^ 16
    + get_or block (j + 2) 0 * 2 ^ 8
    + get_or block (j + 3) 0)

-- The first loop of the message schedule, from word i on, `left` words to go.
unfoldable pub load_words : ℕ → ℕ → List ℕ → List ℕ → List ℕ
load_words zero i block m = m
load_words (suc left) i block m =
    load_words left (i + 1) block (m ++ (load_word block (i * 4) ∷ []))

-- The second loop.
unfoldable pub extend_words : ℕ → ℕ → List ℕ → List ℕ
extend_words zero i m = m
extend_words (suc left) i m =
    let mixed =
      bit_xor (bit_xor (bit_xor (get_or m (i - 3) 0) (get_or m (i - 8) 0)) (get_or m (i - 14) 0))
        (get_or m (i - 16) 0) in
    extend_words left (i + 1) (m ++ (bit_or (u32 (mixed * 2)) (mixed / 2 ^ 31) ∷ []))

-- The variables a to e of `sha1_transform`.
pub record Registers : Type 0 where
  pub a : ℕ
  pub b : ℕ
  pub c : ℕ
  pub d : ℕ
  pub e : ℕ

-- One pass of a round loop, with the value that the loop's function takes of b, c and d.
abbrev pub round : ℕ → ℕ → ℕ → Registers → Registers
round mixed k word r = record {
  a = u32 (rotate_left r.a 5 + mixed + r.e + k + word);
  b = r.a;
  c = rotate_left r.b 30;
  d = r.c;
  e = r.d;
}

abbrev pub choose : Registers → ℕ
choose r = bit_xor (bit_and r.b r.c) (bit_and (complement r.b) r.d)

abbrev pub parity : Registers → ℕ
parity r = bit_xor (bit_xor r.b r.c) r.d

abbrev pub majority : Registers → ℕ
majority r = bit_xor (bit_xor (bit_and r.b r.c) (bit_and r.b r.d)) (bit_and r.c r.d)

-- A loop of twenty rounds, from word i on.
unfoldable pub rounds : ℕ → (Registers → ℕ) → ℕ → ℕ → List ℕ → Registers → Registers
rounds zero mix k i m r = r
rounds (suc left) mix k i m r = rounds left mix k (i + 1) m (round (mix r) k (get_or m i 0) r)

-- What `sha1_transform` makes of the five state words.
unfoldable pub compress : List ℕ → List ℕ → List ℕ → List ℕ
compress k state block =
    let m = extend_words 64 16 (load_words 16 0 block []) in
    let start : Registers = record {
      a = get_or state 0 0;
      b = get_or state 1 0;
      c = get_or state 2 0;
      d = get_or state 3 0;
      e = get_or state 4 0;
    } in
    let r = rounds 20 parity (get_or k 3 0) 60 m (
      rounds 20 majority (get_or k 2 0) 40 m
        (rounds 20 parity (get_or k 1 0) 20 m (rounds 20 choose (get_or k 0 0) 0 m start))) in
    u32 (start.a + r.a)
    ∷ u32 (start.b + r.b)
    ∷ u32 (start.c + r.c)
    ∷ u32 (start.d + r.d)
    ∷ u32 (start.e + r.e)
    ∷ []

abbrev pub sha1_transform : Context → Context
sha1_transform ctx = record ctx { state = compress ctx.k ctx.state ctx.data_block }

abbrev pub initial_state : List ℕ
initial_state = 0x67452301 ∷ 0xEFCDAB89 ∷ 0x98BADCFE ∷ 0x10325476 ∷ 0xc3d2e1f0 ∷ []

abbrev pub round_constants : List ℕ
round_constants = 0x5a827999 ∷ 0x6ed9eba1 ∷ 0x8f1bbcdc ∷ 0xca62c1d6 ∷ []

unfoldable pub sha1_init : Context → Context
sha1_init ctx = record ctx { datalen = 0; bitlen = 0; state = initial_state; k = round_constants }

-- The body of the loop of `sha1_update`.
unfoldable pub update_byte : Context → ℕ → Context
update_byte ctx byte =
    let data_block = set ctx.data_block ctx.datalen byte in
    let datalen = ctx.datalen + 1 in
    if datalen == 64
    then record {
      data_block = data_block;
      datalen = 0;
      bitlen = u64 (ctx.bitlen + 512);
      state = compress ctx.k ctx.state data_block;
      k = ctx.k;
    }
    else record ctx { data_block = data_block; datalen = datalen }

unfoldable pub sha1_update : Context → Text → Context
sha1_update ctx [] = ctx
sha1_update ctx (byte ∷ rest) = sha1_update (update_byte ctx byte) rest

-- `while (i < end) ctx->data[i++] = 0x00`, with `left` bytes to go.
unfoldable pub zero_fill : ℕ → ℕ → List ℕ → List ℕ
zero_fill zero i block = block
zero_fill (suc left) i block = zero_fill left (i + 1) (set block i 0)

-- The stores of the bit count, from the last byte of the block down.
abbrev pub store_bitlen : ℕ → List ℕ → List ℕ
store_bitlen bitlen block =
    let block = set block 63 (u8 bitlen) in
    let block = set block 62 (u8 (bitlen / 2 ^ 8)) in
    let block = set block 61 (u8 (bitlen / 2 ^ 16)) in
    let block = set block 60 (u8 (bitlen / 2 ^ 24)) in
    let block = set block 59 (u8 (bitlen / 2 ^ 32)) in
    let block = set block 58 (u8 (bitlen / 2 ^ 40)) in
    let block = set block 57 (u8 (bitlen / 2 ^ 48)) in set block 56 (u8 (bitlen / 2 ^ 56))

-- The copying of a state word, its highest byte first.
abbrev pub word_bytes : ℕ → Text
word_bytes w =
    bit_and (w / 2 ^ 24) 0xff
    ∷ bit_and (w / 2 ^ 16) 0xff
    ∷ bit_and (w / 2 ^ 8) 0xff
    ∷ bit_and w 0xff
    ∷ []

abbrev pub hash_bytes : List ℕ → Text
hash_bytes state =
    word_bytes (get_or state 0 0)
    ++ word_bytes (get_or state 1 0)
    ++ word_bytes (get_or state 2 0)
    ++ word_bytes (get_or state 3 0)
    ++ word_bytes (get_or state 4 0)

-- The padding at the head of `sha1_final`.
unfoldable pub pad_block : Context → Context
pad_block ctx =
    let marked = set ctx.data_block ctx.datalen 0x80 in
    if ltb ctx.datalen 56
    then record ctx { data_block = zero_fill (55 - ctx.datalen) (ctx.datalen + 1) marked }
    else let filled = zero_fill (63 - ctx.datalen) (ctx.datalen + 1) marked in
      record ctx {
        state = compress ctx.k ctx.state filled;
        data_block = replicate 56 0 ++ drop 56 filled;
      }

-- The context after `sha1_final`, and the hash.
unfoldable pub sha1_final : Context → Text × Context
sha1_final ctx =
    let padded = pad_block ctx in
    let bitlen = u64 (padded.bitlen + u32 (padded.datalen * 8)) in
    let last : Context = record padded {
      bitlen = bitlen;
      data_block = store_bitlen bitlen padded.data_block;
    } in
    let done = sha1_transform last in (hash_bytes done.state, done)
