-- ===== src/Sha1/Padding.antt =====
-- The padded message, and what `sha1_final` stores into the block.
use vitacompanion_vitadeck.Prelude.{
  ℕ, zero, suc, ◌+◌, ◌-◌, ◌*◌, ◌/◌, ◌%◌, ◌≤◌, ◌<◌, ◌^◌, ◌≡◌, refl, sym, ap, ◌∙◌, true, false, List,
  [], ◌∷◌, ◌++◌, append-nil, append_assoc, arith, ltb, u8, u32, u64, Text, length, take, drop,
  replicate, set, length-set, length-take, length-drop, take-set, take-of_le, take-append-drop,
  set-append,
}
use vitacompanion_vitadeck.Sha1.{
  Context, compress, sha1_final, pad_block, zero_fill, store_bitlen, hash_bytes, initial_state,
  round_constants,
}
use vitacompanion_vitadeck.Sha1.Blocks.{hash_blocks}

-- The bit count as eight bytes, the highest first.
abbrev pub length_bytes : ℕ → Text
length_bytes n =
    u8 (n / 2 ^ 56)
    ∷ u8 (n / 2 ^ 48)
    ∷ u8 (n / 2 ^ 40)
    ∷ u8 (n / 2 ^ 32)
    ∷ u8 (n / 2 ^ 24)
    ∷ u8 (n / 2 ^ 16)
    ∷ u8 (n / 2 ^ 8)
    ∷ u8 n
    ∷ []

-- The message, a one bit, the zeros up to the last eight bytes of a block, the bit count.
unfoldable pub padded : Text → Text
padded s =
    s ++ (0x80 ∷ (replicate ((119 - length s % 64) % 64) 0 ++ length_bytes (u64 (8 * length s))))

unfoldable pub hash_of_blocks : Text → Text
unfolding padded
hash_of_blocks s =
    hash_bytes (hash_blocks round_constants (length (padded s) / 64) initial_state (padded s))

pub length-zero_fill : (left i : ℕ) (block : Text) → length (zero_fill left i block) ≡ length block
unfolding zero_fill
length-zero_fill zero i block = refl
length-zero_fill (suc left) i block =
    length-zero_fill left (i + 1) (set block i 0) ∙ length-set block i 0

take-zero_fill :
    (left i k : ℕ) (block : Text)
    → k ≤ length block
    → i + left ≡ k
    → take k (zero_fill left i block) ≡ take i block ++ replicate left 0
unfolding zero_fill
take-zero_fill zero i k block le e =
    let e' : k ≡ i = omega (arith, e) in
    ap (λ (j : ℕ). take j block) e' ∙ sym (append-nil (take i block))
take-zero_fill (suc left) i k block le e =
    take-zero_fill left (i + 1) k (set block i 0) (omega (arith, length-set block i 0))
      (omega (arith, e))
    ∙ ap (λ t. t ++ replicate left 0) (take-set i (i + 1) block 0 (omega arith) refl)
    ∙ append_assoc (take i block) (0 ∷ []) (replicate left 0)

-- What a block begins with when the mark and zeros were stored after the d bytes that wait.
pub take-marked :
    (d k : ℕ) (block : Text)
    → length block ≡ 64
    → d < k
    → k ≤ 64
    → take k (zero_fill (k - 1 - d) (d + 1) (set block d 0x80))
      ≡ take d block ++ (0x80 ∷ replicate (k - 1 - d) 0)
take-marked d k block size less le =
    take-zero_fill (k - 1 - d) (d + 1) k (set block d 0x80) (omega (arith, length-set block d 0x80))
      (omega arith)
    ∙ ap (λ t. t ++ replicate (k - 1 - d) 0)
        (take-set d (d + 1) block 0x80 (omega (arith, size)) refl)
    ∙ append_assoc (take d block) (0x80 ∷ []) (replicate (k - 1 - d) 0)

pub store_bitlen-end :
    (n : ℕ) (front end : Text)
    → length front ≡ 56
    → length end ≡ 8
    → store_bitlen n (front ++ end) ≡ front ++ length_bytes n
store_bitlen-end n front (a ∷ b ∷ c ∷ d ∷ e ∷ f ∷ g ∷ h ∷ []) size eight =
    rw
      (
        set-append 56 7 63 front _ _ size refl,
        set-append 56 6 62 front _ _ size refl,
        set-append 56 5 61 front _ _ size refl,
        set-append 56 4 60 front _ _ size refl,
        set-append 56 3 59 front _ _ size refl,
        set-append 56 2 58 front _ _ size refl,
        set-append 56 1 57 front _ _ size refl,
        set-append 56 0 56 front _ _ size refl,
      )
      refl
store_bitlen-end n front _ size eight = absurd (omega (arith, eight))

pub store_bitlen-block :
    (n : ℕ) (block : Text)
    → length block ≡ 64
    → store_bitlen n block ≡ take 56 block ++ length_bytes n
store_bitlen-block n block size =
    ap (λ t. store_bitlen n t) (sym (take-append-drop 56 block))
    ∙ store_bitlen-end n (take 56 block) (drop 56 block) (omega (arith, length-take 56 block))
        (omega (arith, length-drop 56 block))

abbrev pub counted : Context → ℕ
counted ctx = u64 (ctx.bitlen + u32 (ctx.datalen * 8))

pub pad_block-short :
    (ctx : Context)
    → ctx.datalen < 56
    → pad_block ctx ≡ record ctx {
      data_block =
          zero_fill (55 - ctx.datalen) (ctx.datalen + 1) (set ctx.data_block ctx.datalen 0x80);
    }
unfolding pad_block
pad_block-short ctx less = let test : ltb ctx.datalen 56 ≡ true = ground arith in rw (test)

pub pad_block-long :
    (ctx : Context)
    → 56 ≤ ctx.datalen
    → (filled : Text)
    → zero_fill (63 - ctx.datalen) (ctx.datalen + 1) (set ctx.data_block ctx.datalen 0x80) ≡ filled
    → pad_block ctx ≡ record ctx {
      state = compress ctx.k ctx.state filled;
      data_block = replicate 56 0 ++ drop 56 filled;
    }
unfolding pad_block
pad_block-long ctx le filled e =
    let test : ltb ctx.datalen 56 ≡ false = ground arith in rw (test, e)

pub sha1_final-hash :
    (ctx : Context) (p : Context)
    → pad_block ctx ≡ p
    → (sha1_final ctx).0 ≡ hash_bytes (compress p.k p.state (store_bitlen (counted p) p.data_block))
unfolding sha1_final
sha1_final-hash ctx p e =
    ap (λ q. hash_bytes (compress q.k q.state (store_bitlen (counted q) q.data_block))) e

pub compress-one :
    (k state : List ℕ) (s : Text) → length s ≡ 64 → compress k state s ≡ hash_blocks k 1 state s
unfolding hash_blocks
compress-one k state s h = ap (λ t. compress k state t) (sym (take-of_le 64 s (omega (arith, h))))
