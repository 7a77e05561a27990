-- ===== src/Sha1/Digest.antt =====
-- The hash of a message, as the three functions compute it.
use vitacompanion_vitadeck.Prelude.{
  ℕ, ◌+◌, ◌-◌, ◌*◌, ◌/◌, ◌%◌, ◌≤◌, ◌<◌, ◌≡◌, refl, sym, ap, ap₂, ◌∙◌, [], ◌∷◌, ◌++◌, append_assoc,
  arith, ltb, Bool-cases, inl, inr, u64, Text, length, take, drop, replicate, set, length-set,
  length-append, length-take, length-drop, length-replicate, take-of_le, replicate-append,
}
use vitacompanion_vitadeck.Sha1.{
  Context, compress, update_byte, sha1_init, sha1_update, sha1_final, pad_block, zero_fill,
  store_bitlen, hash_bytes,
}
use vitacompanion_vitadeck.Sha1.Blocks.{
  hash_blocks, hash_blocks-head, waiting, IsContext, Absorbed, sha1_update-Absorbed,
}
use vitacompanion_vitadeck.Sha1.Padding.{
  length_bytes, padded, hash_of_blocks, length-zero_fill, take-marked, store_bitlen-end,
  store_bitlen-block, counted, pad_block-short, pad_block-long, sha1_final-hash, compress-one,
}
use vitacompanion_vitadeck.Sha1.Standard.{digest}
use vitacompanion_vitadeck.Sha1.Standard.Compression.{hash_of_blocks-digest}

size_stored : (n : ℕ) (block : Text) → length block ≡ 64 → length (store_bitlen n block) ≡ 64
size_stored n block size =
    ap length (store_bitlen-block n block size)
    ∙ omega (arith, length-append (take 56 block) (length_bytes n), length-take 56 block)

sha1_final-short :
    (ctx : Context)
    → IsContext ctx
    → ctx.datalen < 56
    → (sha1_final ctx).0
      ≡ hash_bytes (
          hash_blocks ctx.k 1 ctx.state (
            waiting ctx ++ (0x80 ∷ (replicate (55 - ctx.datalen) 0 ++ length_bytes (counted ctx)))))
sha1_final-short ctx is less =
    let filled =
      zero_fill (55 - ctx.datalen) (ctx.datalen + 1) (set ctx.data_block ctx.datalen 0x80) in
    let size : length filled ≡ 64 =
      length-zero_fill (55 - ctx.datalen) (ctx.datalen + 1) _
      ∙ length-set ctx.data_block ctx.datalen 0x80
      ∙ is.size in
    let front = take-marked ctx.datalen 56 ctx.data_block is.size less (omega arith) in
    let block : store_bitlen (counted ctx) filled
        ≡ waiting ctx ++ (0x80 ∷ (replicate (55 - ctx.datalen) 0 ++ length_bytes (counted ctx))) =
      store_bitlen-block (counted ctx) filled size
      ∙ ap (λ t. t ++ length_bytes (counted ctx)) front
      ∙ append_assoc (waiting ctx) (0x80 ∷ replicate (55 - ctx.datalen) 0)
          (length_bytes (counted ctx)) in
    sha1_final-hash ctx _ (pad_block-short ctx less)
    ∙ ap (λ t. hash_bytes (compress ctx.k ctx.state t)) block
    ∙ ap hash_bytes (
        compress-one ctx.k ctx.state _
          (ap length (sym block) ∙ size_stored (counted ctx) filled size))

sha1_final-long :
    (ctx : Context)
    → IsContext ctx
    → 56 ≤ ctx.datalen
    → (sha1_final ctx).0
      ≡ hash_bytes (
          hash_blocks ctx.k 2 ctx.state (
            waiting ctx
            ++ (0x80 ∷ (replicate (119 - ctx.datalen) 0 ++ length_bytes (counted ctx)))))
sha1_final-long ctx is le =
    let d = ctx.datalen in
    let filled = zero_fill (63 - d) (d + 1) (set ctx.data_block d 0x80) in
    let size : length filled ≡ 64 =
      length-zero_fill (63 - d) (d + 1) _ ∙ length-set ctx.data_block d 0x80 ∙ is.size in
    let front : filled ≡ waiting ctx ++ (0x80 ∷ replicate (63 - d) 0) =
      sym (take-of_le 64 filled (omega (arith, size)))
      ∙ take-marked d 64 ctx.data_block is.size is.room (omega arith) in
    let zeros : Text = replicate 56 0 ++ length_bytes (counted ctx) in
    let second : store_bitlen (counted ctx) (replicate 56 0 ++ drop 56 filled) ≡ zeros =
      store_bitlen-end (counted ctx) (replicate 56 0) (drop 56 filled) refl
        (omega (arith, length-drop 56 filled, size)) in
    let whole : filled ++ zeros
        ≡ waiting ctx ++ (0x80 ∷ (replicate (119 - d) 0 ++ length_bytes (counted ctx))) =
      ap (λ t. t ++ zeros) front
      ∙ append_assoc (waiting ctx) (0x80 ∷ replicate (63 - d) 0) zeros
      ∙ ap (λ t. waiting ctx ++ (0x80 ∷ t))
          (sym (append_assoc (replicate (63 - d) 0) (replicate 56 0) (length_bytes (counted ctx)))
            ∙ ap (λ t. t ++ length_bytes (counted ctx))
                (replicate-append (63 - d) 56 (119 - d) 0 (omega (arith, is.room)))) in
    sha1_final-hash ctx _ (pad_block-long ctx le filled refl)
    ∙ ap (λ t. hash_bytes (compress ctx.k (compress ctx.k ctx.state filled) t)) second
    ∙ ap hash_bytes (
        compress-one ctx.k (compress ctx.k ctx.state filled) zeros refl
        ∙ sym (hash_blocks-head ctx.k 1 ctx.state filled zeros size)
        ∙ ap (λ t. hash_blocks ctx.k 2 ctx.state t) whole)

length-padded : (s : Text) → length (padded s) ≡ length s + 9 + (119 - length s % 64) % 64
unfolding padded
length-padded s =
    let zeros = (119 - length s % 64) % 64 in
    let bits = length_bytes (u64 (8 * length s)) in
    omega (
      arith,
      length-append s (0x80 ∷ (replicate zeros 0 ++ bits)),
      length-append (replicate zeros 0) bits,
      length-replicate {A = ℕ} zeros 0,
    )

-- What is left to hash after the message was taken in is the end of the padded message.
rest-digest :
    (start after : Context) (s : Text) (m zeros : ℕ)
    → Absorbed start s after
    → start.datalen ≡ 0
    → start.bitlen ≡ 0
    → zeros ≡ (119 - length s % 64) % 64
    → m * 64 ≡ after.datalen + 9 + zeros
    → hash_blocks after.k m after.state
        (waiting after ++ (0x80 ∷ (replicate zeros 0 ++ length_bytes (counted after))))
      ≡ hash_blocks start.k (length (padded s) / 64) start.state (padded s)
unfolding padded
rest-digest start after s m zeros taken none none' e whole =
    let tail : Text = 0x80 ∷ (replicate zeros 0 ++ length_bytes (counted after)) in
    let bits : counted after ≡ u64 (8 * length s) =
      omega (arith, taken.total, taken.bits, none, none', taken.is_context.room) in
    let ends : tail
        ≡ 0x80 ∷ (replicate ((119 - length s % 64) % 64) 0 ++ length_bytes (u64 (8 * length s))) =
      ap₂ (λ (j b : ℕ). 0x80 ∷ (replicate j 0 ++ length_bytes b)) e bits in
    let count : taken.blocks + m ≡ length (padded s) / 64 =
      omega (arith, taken.total, length-padded s) in
    ap (λ k. hash_blocks k m after.state (waiting after ++ tail)) taken.same_k
    ∙ sym (taken.hashed m (length (padded s) / 64) tail count)
    ∙ ap
        (λ (j : ℕ).
          hash_blocks start.k (length (padded s) / 64) start.state
            (take j start.data_block ++ (s ++ tail)))
        none
    ∙ ap (λ t. hash_blocks start.k (length (padded s) / 64) start.state (s ++ t)) ends

-- The three functions hash the blocks of the padded message.
sha1_final-hash_of_blocks :
    (ctx : Context) (s : Text)
    → length ctx.data_block ≡ 64
    → (sha1_final (sha1_update (sha1_init ctx) s)).0 ≡ hash_of_blocks s
unfolding sha1_init hash_of_blocks
sha1_final-hash_of_blocks ctx s size =
    let start = sha1_init ctx in
    let after = sha1_update start s in
    let taken =
      sha1_update-Absorbed s start
        (record { size = size; room = omega arith; bounded = omega arith }) in
    let is = taken.is_context in
    elim (Bool-cases (ltb after.datalen 56)) [
      | inl short ↦
          sha1_final-short after is (ground (arith, short))
          ∙ ap hash_bytes (
              rest-digest start after s 1 (55 - after.datalen) taken refl refl
                (ground (arith, short, taken.total)) (ground (arith, short)))
      | inr long ↦
          sha1_final-long after is (ground (arith, long))
          ∙ ap hash_bytes (
              rest-digest start after s 2 (119 - after.datalen) taken refl refl
                (ground (arith, long, is.room, taken.total)) (ground (arith, long, is.room)))
    ]

-- Initialising a context whose block has its 64 bytes, taking in a message in one go and finishing
-- gives the SHA-1 hash of FIPS 180 of the message, its length in bits taken modulo 2^64, whatever the
-- block held before.
pub sha1_final-digest :
    (ctx : Context) (s : Text)
    → length ctx.data_block ≡ 64
    → (sha1_final (sha1_update (sha1_init ctx) s)).0 ≡ digest s
sha1_final-digest ctx s size = sha1_final-hash_of_blocks ctx s size ∙ hash_of_blocks-digest s

-- Taking in a message in two goes is taking it in in one.
pub sha1_update-append :
    (s t : Text) (ctx : Context) → sha1_update ctx (s ++ t) ≡ sha1_update (sha1_update ctx s) t
unfolding sha1_update
sha1_update-append [] t ctx = refl
sha1_update-append (x ∷ s) t ctx = sha1_update-append s t (update_byte ctx x)

length-pad_block : (ctx : Context) → IsContext ctx → length (pad_block ctx).data_block ≡ 64
length-pad_block ctx is =
    let d = ctx.datalen in
    elim (Bool-cases (ltb d 56)) [
      | inl short ↦
          ap (λ c. length c.data_block) (pad_block-short ctx (ground arith))
          ∙ length-zero_fill (55 - d) (d + 1) _
          ∙ length-set ctx.data_block d 0x80
          ∙ is.size
      | inr long ↦
          let filled = zero_fill (63 - d) (d + 1) (set ctx.data_block d 0x80) in
          let size : length filled ≡ 64 =
            length-zero_fill (63 - d) (d + 1) _ ∙ length-set ctx.data_block d 0x80 ∙ is.size in
          ap (λ c. length c.data_block) (pad_block-long ctx (ground arith) filled refl)
          ∙ omega (
            arith,
            length-append {A = ℕ} (replicate 56 0) (drop 56 filled),
            length-drop 56 filled,
            size,
          )
    ]

-- The block keeps its 64 bytes, so that the context can be used again.
pub sha1_final-size :
    (ctx : Context) (s : Text)
    → length ctx.data_block ≡ 64
    → length (sha1_final (sha1_update (sha1_init ctx) s)).1.data_block ≡ 64
unfolding sha1_init sha1_final
sha1_final-size ctx s size =
    let taken =
      sha1_update-Absorbed s (sha1_init ctx)
        (record { size = size; room = omega arith; bounded = omega arith }) in
    let after = sha1_update (sha1_init ctx) s in
    let padded_block = pad_block after in
    size_stored (counted padded_block) padded_block.data_block
      (length-pad_block after taken.is_context)
