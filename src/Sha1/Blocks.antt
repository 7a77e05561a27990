-- ===== src/Sha1/Blocks.antt =====
-- The data that `sha1_update` takes in, block by block.
use vitacompanion_vitadeck.Prelude.{
  ℕ, zero, suc, ◌+◌, ◌*◌, ◌<◌, ◌^◌, ◌≡◌, refl, sym, ap, ◌∙◌, true, false, List, [], ◌∷◌, ◌++◌,
  append_assoc, arith, ◌==◌, Bool-cases, inl, inr, u64, Text, length, take, drop, set, length-set,
  take-set, take-of_le, take-append, drop-append,
}
use vitacompanion_vitadeck.Sha1.{Context, compress, update_byte, sha1_update}

-- The state after n blocks of the data.
unfoldable pub hash_blocks : List ℕ → ℕ → List ℕ → Text → List ℕ
hash_blocks k zero state s = state
hash_blocks k (suc n) state s = hash_blocks k n (compress k state (take 64 s)) (drop 64 s)

-- The bytes that wait in the block.
abbrev pub waiting : Context → Text
waiting ctx = take ctx.datalen ctx.data_block

pub record IsContext (ctx : Context) : Type 0 where
  pub size : length ctx.data_block ≡ 64
  pub room : ctx.datalen < 64
  pub bounded : ctx.bitlen < 2 ^ 64

-- What taking in s makes of a context.
pub record Absorbed (ctx : Context) (s : Text) (after : Context) : Type 0 where
  pub blocks : ℕ
  pub is_context : IsContext after
  pub total : blocks * 64 + after.datalen ≡ ctx.datalen + length s
  pub bits : after.bitlen ≡ u64 (ctx.bitlen + blocks * 512)
  pub same_k : after.k ≡ ctx.k
  pub hashed :
      (m n : ℕ) (t : Text)
      → blocks + m ≡ n
      → hash_blocks ctx.k n ctx.state (waiting ctx ++ (s ++ t))
        ≡ hash_blocks ctx.k m after.state (waiting after ++ t)

update_byte-next :
    (ctx : Context) (x : ℕ)
    → ctx.datalen + 1 < 64
    → update_byte ctx x
      ≡ record ctx { data_block = set ctx.data_block ctx.datalen x; datalen = ctx.datalen + 1 }
unfolding update_byte
update_byte-next ctx x h = let test : (ctx.datalen + 1 == 64) ≡ false = ground arith in rw (test)

update_byte-full :
    (ctx : Context) (x : ℕ)
    → ctx.datalen + 1 ≡ 64
    → update_byte ctx x ≡ record ctx {
      data_block = set ctx.data_block ctx.datalen x;
      datalen = 0;
      bitlen = u64 (ctx.bitlen + 512);
      state = compress ctx.k ctx.state (set ctx.data_block ctx.datalen x);
    }
unfolding update_byte
update_byte-full ctx x h = let test : (ctx.datalen + 1 == 64) ≡ true = ground arith in rw (test)

pub hash_blocks-head :
    (k : List ℕ) (m : ℕ) (state : List ℕ) (block t : Text)
    → length block ≡ 64
    → hash_blocks k (suc m) state (block ++ t) ≡ hash_blocks k m (compress k state block) t
unfolding hash_blocks
hash_blocks-head k m state block t h = rw (take-append 64 block t h, drop-append 64 block t h)

-- One byte more, when the block does not get full, and when it does.
absorb-next :
    (ctx : Context) (x : ℕ) (s : Text) (after : Context)
    → IsContext ctx
    → ctx.datalen + 1 < 64
    → Absorbed
        (record ctx { data_block = set ctx.data_block ctx.datalen x; datalen = ctx.datalen + 1 })
        s
        after
    → Absorbed ctx (x ∷ s) after
absorb-next ctx x s after is less rest =
    let grown =
      take-set ctx.datalen (ctx.datalen + 1) ctx.data_block x (omega (arith, is.size)) refl in
    record {
      blocks = rest.blocks;
      is_context = rest.is_context;
      total = omega (arith, rest.total);
      bits = rest.bits;
      same_k = rest.same_k;
      hashed = λ m n t e.
          ap (λ u. hash_blocks ctx.k n ctx.state u)
            (sym (append_assoc (waiting ctx) (x ∷ []) (s ++ t))
              ∙ ap (λ u. u ++ (s ++ t)) (sym grown))
          ∙ rest.hashed m n t e;
    }

absorb-full :
    (ctx : Context) (x : ℕ) (s : Text) (after : Context)
    → IsContext ctx
    → ctx.datalen + 1 ≡ 64
    → Absorbed
        (record ctx {
          data_block = set ctx.data_block ctx.datalen x;
          datalen = 0;
          bitlen = u64 (ctx.bitlen + 512);
          state = compress ctx.k ctx.state (set ctx.data_block ctx.datalen x);
        })
        s
        after
    → Absorbed ctx (x ∷ s) after
absorb-full ctx x s after is full rest =
    let block = set ctx.data_block ctx.datalen x in
    let size : length block ≡ 64 = length-set ctx.data_block ctx.datalen x ∙ is.size in
    let grown : block ≡ waiting ctx ++ (x ∷ []) =
      sym (take-of_le 64 block (omega (arith, size)))
      ∙ take-set ctx.datalen 64 ctx.data_block x (omega (arith, is.size)) full in
    record {
      blocks = suc rest.blocks;
      is_context = rest.is_context;
      total = omega (arith, rest.total, full);
      bits = omega (arith, rest.bits);
      same_k = rest.same_k;
      hashed = λ m n t e.
          let e' : n ≡ suc (rest.blocks + m) = omega (arith, e) in
          ap (λ (j : ℕ). hash_blocks ctx.k j ctx.state (waiting ctx ++ ((x ∷ s) ++ t))) e'
          ∙ ap (λ u. hash_blocks ctx.k (suc (rest.blocks + m)) ctx.state u)
              (sym (append_assoc (waiting ctx) (x ∷ []) (s ++ t))
                ∙ ap (λ u. u ++ (s ++ t)) (sym grown))
          ∙ hash_blocks-head ctx.k (rest.blocks + m) ctx.state block (s ++ t) size
          ∙ rest.hashed m (rest.blocks + m) t refl;
    }

pub sha1_update-Absorbed :
    (s : Text) (ctx : Context) → IsContext ctx → Absorbed ctx s (sha1_update ctx s)
unfolding sha1_update
sha1_update-Absorbed [] ctx is = record {
  blocks = 0;
  is_context = is;
  total = omega arith;
  bits = omega (arith, is.bounded);
  same_k = refl;
  hashed = λ m n t e.
      let e' : n ≡ m = omega (arith, e) in
      ap (λ (j : ℕ). hash_blocks ctx.k j ctx.state (waiting ctx ++ t)) e';
}
sha1_update-Absorbed (x ∷ s) ctx is = elim (Bool-cases (ctx.datalen + 1 == 64)) [
  | inl full ↦ rw (update_byte-full ctx x (ground arith)) (
      absorb-full ctx x s _ is (ground arith) (
        sha1_update-Absorbed s _ (record {
          size = length-set ctx.data_block ctx.datalen x ∙ is.size;
          room = omega arith;
          bounded = omega arith;
        })))
  | inr next ↦ rw (update_byte-next ctx x (ground (arith, is.room))) (
      absorb-next ctx x s _ is (ground (arith, is.room)) (
        sha1_update-Absorbed s _ (record {
          size = length-set ctx.data_block ctx.datalen x ∙ is.size;
          room = ground (arith, is.room);
          bounded = is.bounded;
        })))
]
