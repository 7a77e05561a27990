-- ===== src/Package/Head.antt =====
-- src/package_installer.c: the signed header of a package. The template of the header, the bytes of
-- src/vita_shell_head_bin.h, is an argument.
pub mod Signing
pub mod Made
use vitacompanion_vitadeck.Prelude.{
  ℕ, zero, suc, ◌+◌, ◌-◌, ◌*◌, ◌^◌, Bool, true, false, not, ◌&&◌, ◌||◌, ◌⊎◌, inl, inr, Option, none,
  some, List, [], ◌∷◌, ◌++◌, ltb, leb, ◌==◌, if◌then◌else◌, Text, codes, peek, length, get_or, take,
  drop, replicate, snprintf,
}
use vitacompanion_vitadeck.Sha1.{Context, sha1_init, sha1_update, sha1_final}
use vitacompanion_vitadeck.Package.Sfo.{sfo_string, valid_title_id}

-- `memcpy(buffer + at, bytes, …)`, inside the buffer.
abbrev pub copy_into : List ℕ → ℕ → List ℕ → List ℕ
copy_into bytes at buffer = take at buffer ++ (bytes ++ drop (at + length bytes) buffer)

abbrev pub window : List ℕ → ℕ → ℕ → List ℕ
window buffer at n = take n (drop at buffer)

-- The 64 bytes that `fpkg_hmac` makes of a hash.
abbrev pub hash_block : Text → List ℕ
hash_block sha1 =
    let buffer = replicate 64 0 in
    let buffer = copy_into (window sha1 4 8) 0 buffer in
    let buffer = copy_into (window sha1 4 8) 8 buffer in
    let buffer = copy_into (window sha1 12 4) 16 buffer in
    let buffer = copy_into (get_or sha1 16 0 ∷ []) 20 buffer in
    let buffer = copy_into (get_or sha1 1 0 ∷ []) 21 buffer in
    let buffer = copy_into (get_or sha1 2 0 ∷ []) 22 buffer in
    let buffer = copy_into (get_or sha1 3 0 ∷ []) 23 buffer in
    copy_into (window buffer 16 8) 24 buffer

-- The context is the local one, with what it holds before it is initialised.
unfoldable pub fpkg_hmac : Context → Text → Text
fpkg_hmac context bytes =
    let (sha1, context) = sha1_final (sha1_update (sha1_init context) bytes) in
    let (sha1, context) = sha1_final (sha1_update (sha1_init context) (hash_block sha1)) in
    take 16 sha1

abbrev pub read_be32 : List ℕ → ℕ → ℕ
read_be32 bytes at =
    get_or bytes at 0 * 2 ^ 24
    + get_or bytes (at + 1) 0 * 2 ^ 16
    + get_or bytes (at + 2) 0 * 2 ^ 8
    + get_or bytes (at + 3) 0

-- The errors of `make_head_bin` that come before the header is written.
pub data HeadError : Type 0 where
  bad_sfo bad_title_id : HeadError

-- A length and the bytes before it, signed at the length.
unfoldable pub sign_prefix : Context → ℕ → List ℕ → Option (List ℕ)
sign_prefix context at head =
    let n = read_be32 head at in
    if ltb (length head) (n + 16)
    then none
    else some (copy_into (fpkg_hmac context (take n head)) n head)

-- The part of the header at an offset, signed at the place that the header names.
unfoldable pub sign_part : Context → List ℕ → Option (List ℕ)
sign_part context head =
    let offset = read_be32 head 0x8 in
    let n = read_be32 head 0x10 in
    let output = read_be32 head 0xD4 in
    if ltb n 64 || ltb (length head) (offset + n) || ltb (length head) (output + 16)
    then none
    else some (copy_into (fpkg_hmac context (window head offset (n - 64))) output head)

-- The early return on an error.
infixl 10 ◌>>=◌
abbrev ◌>>=◌ {ℓ κ} : {A : Type ℓ} {B : Type κ} → Option A → (A → Option B) → Option B
none >>= f = none
some a >>= f = f a

-- The three signatures, in their order.
unfoldable pub sign_head : Context → List ℕ → Option (List ℕ)
sign_head context head = do
  head ← sign_prefix context 0xD0 head
  head ← sign_part context head
  sign_prefix context 0xE8 head

-- `memset` and `memcpy` of the content ID.
abbrev pub put_content_id : Text → List ℕ → List ℕ
put_content_id content_id head =
    copy_into (take 48 content_id) 0x30 (copy_into (replicate 48 0) 0x30 head)

-- The content ID of the file, or the one made of the title ID.
abbrev pub select_content_id : Text → Text → Text
select_content_id title_id content_id =
    if peek content_id == 0
    then snprintf 48 (codes "EP9000-" ++ title_id ++ codes "_00-0000000000000000")
    else content_id

abbrev pub text_or_empty : Option Text → Text
text_or_empty none = []
text_or_empty (some s) = s

-- The header to write, when it could be signed.
abbrev pub signed_head : Text → Option (List ℕ) → HeadError ⊎ (Text × List ℕ)
signed_head title_id none = inl bad_sfo
signed_head title_id (some head) = inr (title_id, head)

-- From the title ID on that was looked up.
unfoldable pub head_for : Context → List ℕ → List ℕ → Option Text → HeadError ⊎ (Text × List ℕ)
head_for context template sfo none = inl bad_sfo
head_for context template sfo (some title_id) =
    if not (valid_title_id title_id)
    then inl bad_title_id
    else let content_id = text_or_empty (sfo_string sfo (codes "CONTENT_ID") 48) in
      signed_head title_id
        (sign_head context (put_content_id (select_content_id title_id content_id) template))

-- The title ID, and the header to write, from the bytes of the parameter file.
unfoldable pub make_head : Context → List ℕ → List ℕ → HeadError ⊎ (Text × List ℕ)
make_head context template sfo =
    head_for context template sfo (sfo_string sfo (codes "TITLE_ID") 12)
