-- ===== src/Package/Head/Signing.antt =====
-- The signatures of a package header.
use mathlib.Core.Path.{subst}
use vitacompanion_vitadeck.Prelude.{
  ℕ, ◌+◌, ◌-◌, ◌≤◌, ◌≡◌, refl, sym, ap, ◌∙◌, ◌||◌, inl, inr, Bool-cases, some, Option-cases, List,
  [], ◌∷◌, ◌++◌, append_assoc, arith, ltb, Text, length, get_or, take, drop, replicate,
  length-append, length-take, length-drop, take-append, drop-append,
}
use vitacompanion_vitadeck.Sha1.{Context, sha1_init, sha1_update, sha1_final}
use vitacompanion_vitadeck.Sha1.Standard.{digest, length-digest}
use vitacompanion_vitadeck.Sha1.Digest.{sha1_final-digest, sha1_final-size}
use vitacompanion_vitadeck.Package.Head.{
  copy_into, window, hash_block, fpkg_hmac, read_be32, sign_prefix, sign_part, sign_head,
}

-- The bytes of a hash at some places.
abbrev bytes_at : Text → List ℕ → List ℕ
bytes_at hash [] = []
bytes_at hash (i ∷ places) = get_or hash i 0 ∷ bytes_at hash places

-- The 64 bytes that are hashed for a signature: bytes 4 to 11 of a hash twice, bytes 12 to 16 and 1 to 3
-- twice, and 32 zeros.
abbrev pub signature_block : Text → List ℕ
signature_block hash =
    bytes_at hash (
      4 ∷ 5 ∷ 6 ∷ 7 ∷ 8 ∷ 9 ∷ 10 ∷ 11 ∷ 4 ∷ 5 ∷ 6 ∷ 7 ∷ 8 ∷ 9 ∷ 10 ∷ 11 ∷ 12 ∷ 13 ∷ 14 ∷ 15 ∷ 16 ∷ 1
      ∷ 2 ∷ 3 ∷ 12 ∷ 13 ∷ 14 ∷ 15 ∷ 16 ∷ 1 ∷ 2 ∷ 3 ∷ [])
    ++ replicate 32 0

abbrev pub signature : List ℕ → List ℕ
signature bytes = take 16 (digest (signature_block (digest bytes)))

hash_block-signature_block :
    (hash : Text) → length hash ≡ 20 → hash_block hash ≡ signature_block hash
hash_block-signature_block
      (b0 ∷ b1 ∷ b2 ∷ b3 ∷ b4 ∷ b5 ∷ b6 ∷ b7 ∷ b8 ∷ b9 ∷ b10 ∷ b11 ∷ b12 ∷ b13 ∷ b14 ∷ b15 ∷ b16
        ∷ b17 ∷ b18 ∷ b19 ∷ [])
      e =
    refl
hash_block-signature_block _ e = absurd (omega (arith, e))

-- The code of a package signature is the first 16 bytes of the SHA-1 hash of these 64 bytes: bytes 4 to
-- 11 of the SHA-1 hash of the data twice, its bytes 12 to 16 and 1 to 3 twice, and 32 zeros; whatever
-- the context held before, as long as its block has its 64 bytes.
pub fpkg_hmac-digest :
    (context : Context) (bytes : Text)
    → length context.data_block ≡ 64
    → fpkg_hmac context bytes ≡ signature bytes
unfolding fpkg_hmac
fpkg_hmac-digest context bytes size =
    let first = sha1_final (sha1_update (sha1_init context) bytes) in
    ap (take 16) (
      sha1_final-digest first.1 (hash_block first.0) (sha1_final-size context bytes size)
      ∙ ap (λ t. digest (hash_block t)) (sha1_final-digest context bytes size)
      ∙ ap digest (hash_block-signature_block (digest bytes) (length-digest bytes)))

length-copy_into :
    (bytes : List ℕ) (at : ℕ) (buffer : List ℕ)
    → at + length bytes ≤ length buffer
    → length (copy_into bytes at buffer) ≡ length buffer
length-copy_into bytes at buffer h = omega (
  arith,
  length-append (take at buffer) (bytes ++ drop (at + length bytes) buffer),
  length-append bytes (drop (at + length bytes) buffer),
  length-take at buffer,
  length-drop (at + length bytes) buffer,
)

-- What stands before the copied bytes, and where they are copied to.
take-copy_into :
    (bytes : List ℕ) (at : ℕ) (buffer : List ℕ)
    → at ≤ length buffer
    → take at (copy_into bytes at buffer) ≡ take at buffer
take-copy_into bytes at buffer h =
    take-append at (take at buffer) (bytes ++ drop (at + length bytes) buffer)
      (omega (arith, length-take at buffer))

window-copy_into :
    (bytes : List ℕ) (at n : ℕ) (buffer : List ℕ)
    → at ≤ length buffer
    → length bytes ≡ n
    → window (copy_into bytes at buffer) at n ≡ bytes
window-copy_into bytes at n buffer h e =
    let rest = drop (at + length bytes) buffer in
    ap (take n)
      (drop-append at (take at buffer) (bytes ++ rest) (omega (arith, length-take at buffer)))
    ∙ take-append n bytes rest e

drop-copy_into :
    (bytes : List ℕ) (at : ℕ) (buffer : List ℕ)
    → at ≤ length buffer
    → drop (at + length bytes) (copy_into bytes at buffer) ≡ drop (at + length bytes) buffer
drop-copy_into bytes at buffer h =
    let rest = drop (at + length bytes) buffer in
    ap (drop (at + length bytes)) (sym (append_assoc (take at buffer) bytes rest))
    ∙ drop-append (at + length bytes) (take at buffer ++ bytes) rest
        (omega (arith, length-append (take at buffer) bytes, length-take at buffer))

-- `after` is `before` with the bytes at `at` and nothing else changed.
pub record IsPut (at : ℕ) (bytes before after : List ℕ) : Type 0 where
  pub room : at + length bytes ≤ length before
  pub same : length after ≡ length before
  pub front : take at after ≡ take at before
  pub there : take (length bytes) (drop at after) ≡ bytes
  pub rest : drop (at + length bytes) after ≡ drop (at + length bytes) before

pub copy_into-IsPut :
    (bytes : List ℕ) (at : ℕ) (buffer : List ℕ)
    → at + length bytes ≤ length buffer
    → IsPut at bytes buffer (copy_into bytes at buffer)
copy_into-IsPut bytes at buffer h = record {
  room = h;
  same = length-copy_into bytes at buffer h;
  front = take-copy_into bytes at buffer (omega (arith, h));
  there = window-copy_into bytes at (length bytes) buffer (omega (arith, h)) refl;
  rest = drop-copy_into bytes at buffer (omega (arith, h));
}

length-signature : (bytes : List ℕ) → length (signature bytes) ≡ 16
length-signature bytes =
    let hash = digest (signature_block (digest bytes)) in
    omega (arith, length-take 16 hash, length-digest (signature_block (digest bytes)))

-- The code of `bytes` is copied to where it fits.
signed-IsPut :
    (context : Context) (bytes : List ℕ) (at : ℕ) (head head' : List ℕ)
    → length context.data_block ≡ 64
    → at + 16 ≤ length head
    → copy_into (fpkg_hmac context bytes) at head ≡ head'
    → IsPut at (signature bytes) head head'
signed-IsPut context bytes at head head' size room copied =
    let code = fpkg_hmac-digest context bytes size in
    subst (λ after. IsPut at (signature bytes) head after)
      (ap (λ c. copy_into c at head) (sym code) ∙ copied)
      (copy_into-IsPut (signature bytes) at head (omega (arith, length-signature bytes, room)))

-- A prefix of `head` is signed behind its end; its length stands in the field `at`.
abbrev pub IsPrefixSigned : ℕ → List ℕ → List ℕ → Type 0
IsPrefixSigned at head head' =
    let n = read_be32 head at in IsPut n (signature (take n head)) head head'

-- The part of the header at the offset in field 0x8, with the length in field 0x10 less 64, is signed at
-- the place in field 0xD4.
abbrev pub IsPartSigned : List ℕ → List ℕ → Type 0
IsPartSigned head head' =
    let offset = read_be32 head 0x8 in
    let n = read_be32 head 0x10 in
    (64 ≤ n)
    × (offset + n ≤ length head)
    × IsPut (read_be32 head 0xD4) (signature (take (n - 64) (drop offset head))) head head'

-- The three signatures: the prefix that field 0xD0 names, the part, and the prefix that field 0xE8 names.
pub record IsSigned (start head : List ℕ) : Type 0 where
  pub first : List ℕ
  pub second : List ℕ
  pub prefix_signed : IsPrefixSigned 0xD0 start first
  pub part_signed : IsPartSigned first second
  pub whole_signed : IsPrefixSigned 0xE8 second head

sign_prefix-IsPrefixSigned :
    (context : Context) (at : ℕ) (head head' : List ℕ)
    → length context.data_block ≡ 64
    → sign_prefix context at head ≡ some head'
    → IsPrefixSigned at head head'
unfolding sign_prefix
sign_prefix-IsPrefixSigned context at head head' size h =
    let n = read_be32 head at in
    elim (Bool-cases (ltb (length head) (n + 16))) [
      | inl short ↦ cc (rw short at h)
      | inr long ↦
          signed-IsPut context (take n head) n head head' size (ground (arith, long))
            (cc (rw long at h))
    ]

sign_part-IsPartSigned :
    (context : Context) (head head' : List ℕ)
    → length context.data_block ≡ 64
    → sign_part context head ≡ some head'
    → IsPartSigned head head'
unfolding sign_part
sign_part-IsPartSigned context head head' size h =
    let offset = read_be32 head 0x8 in
    let n = read_be32 head 0x10 in
    let output = read_be32 head 0xD4 in
    elim (Bool-cases
      (ltb n 64 || ltb (length head) (offset + n) || ltb (length head) (output + 16))) [
        | inl bad ↦ cc (rw bad at h)
        | inr good ↦ (
          ground (arith, good),
          ground (arith, good),
          signed-IsPut context (window head offset (n - 64)) output head head' size
              (ground (arith, good)) (cc (rw good at h)),
        )
      ]

pub sign_head-IsSigned :
    (context : Context) (head head' : List ℕ)
    → length context.data_block ≡ 64
    → sign_head context head ≡ some head'
    → IsSigned head head'
unfolding sign_head
sign_head-IsSigned context head head' size h = elim (Option-cases (sign_prefix context 0xD0 head)) [
  | inl bad ↦ cc (rw bad at h)
  | inr (first, e1) ↦ elim (Option-cases (sign_part context first)) [
    | inl bad ↦ cc (rw (e1, bad) at h)
    | inr (second, e2) ↦ record {
      first = first;
      second = second;
      prefix_signed = sign_prefix-IsPrefixSigned context 0xD0 head first size e1;
      part_signed = sign_part-IsPartSigned context first second size e2;
      whole_signed = sign_prefix-IsPrefixSigned context 0xE8 second head' size (rw (e1, e2) at h);
    }
  ]
]
