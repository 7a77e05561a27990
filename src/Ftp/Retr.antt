-- ===== src/Ftp/Retr.antt =====
-- libftpvita/ftpvita_retr.h: the bounded download loop, over callbacks that read and send.
pub mod Transfer
pub mod Returns
use vitacompanion_vitadeck.Prelude.{
  ℕ, zero, suc, ◌+◌, ◌-◌, Bool, true, false, ◌||◌, Option, none, some, List, ltb, leb, ◌==◌,
  if◌then◌else◌, Pointer, is_null, ℤ, pos, negsuc, is_negative, cast_u32, u32, u64, int_max, take,
  drop,
}

-- What the stage strings of the result say.
pub data Stage : Type 0 where
  complete range early_eof read_failed send_failed : Stage

-- `ftpvita_retr_result_t`
pub record RetrResult : Type 0 where
  pub stage : Stage
  pub code : ℤ
  pub net_errno : ℤ
  pub bytes_read : ℕ
  pub bytes_sent : ℕ

abbrev pub retr_start : RetrResult
retr_start = record {
  stage = complete;
  code = pos 0;
  net_errno = pos 0;
  bytes_read = 0;
  bytes_sent = 0;
}

-- `n <= 0`
abbrev pub is_not_positive : ℤ → Bool
is_not_positive (pos n) = n == 0
is_not_positive (negsuc n) = true

-- `n <= 0 || (unsigned int)n > limit`
abbrev pub is_bad_count : ℤ → ℕ → Bool
is_bad_count n limit = is_not_positive n || ltb limit (cast_u32 n)

-- `n < 0 ? net_error : 0`
abbrev pub errno_of : ℤ → ℤ → ℤ
errno_of n net_error = if is_negative n then net_error else pos 0

-- `bytes_read == 0`
abbrev pub is_zero : ℤ → Bool
is_zero (pos n) = n == 0
is_zero (negsuc n) = false

-- A read callback gets the buffer and the length, and returns its result, the buffer and the
-- context. A send callback gets the bytes from the position on, and returns its result and the
-- network error.
abbrev pub ReadFile : Type 0 → Type 0
ReadFile W = W → List ℕ → ℕ → ℤ × List ℕ × W

abbrev pub SendData : Type 0 → Type 0
SendData W = W → List ℕ → ℤ × ℤ × W

-- What follows a send: on a bad count the transfer stops (`true`).
abbrev pub after_send : ℕ → RetrResult → ℤ → ℤ → Bool × RetrResult
after_send pending r sent net_error =
    if is_bad_count sent pending
    then (true, record r { stage = send_failed; code = sent; net_errno = errno_of sent net_error })
    else (false, record r { bytes_sent = u64 (r.bytes_sent + cast_u32 sent) })

module _ {W : Type 0} where
  -- The loop over the unsent part of a chunk. `none` is the end of the fuel.
  pub send_loop : ℕ → SendData W → List ℕ → ℕ → ℕ → RetrResult → W → Option (Bool × RetrResult × W)
  send_loop zero send_data buffer count position r w = none
  send_loop (suc fuel) send_data buffer count position r w =
      let pending = count - position in
      let (sent, net_error, w') = send_data w (take pending (drop position buffer)) in
      let (stop, r') = after_send pending r sent net_error in
      let rest = send_loop fuel send_data buffer count (u32 (position + cast_u32 sent)) r' w' in
      if ltb position count then if stop then some (true, r', w') else rest else some (false, r, w)

  -- The loop over the chunks of the extent.
  pub extent_loop :
      ℕ → ReadFile W → SendData W → ℕ → List ℕ → ℕ → RetrResult → W → Option (RetrResult × W)
  extent_loop zero read_file send_data buffer_size buffer remaining r w = none
  extent_loop (suc fuel) read_file send_data buffer_size buffer remaining r w =
      let requested = if ltb remaining buffer_size then remaining else buffer_size in
      let (count, buffer', w') = read_file w buffer requested in
      let n = cast_u32 count in
      let r' = record r { bytes_read = u64 (r.bytes_read + n) } in
      let chunk = send_loop (suc n) send_data buffer' n 0 r' w' in
      let rest : Option (RetrResult × W) = elim chunk [
        | none ↦ none
        | some (stop, r'', w'') ↦
            let more =
              extent_loop fuel read_file send_data buffer_size buffer' (remaining - n) r'' w'' in
            if stop then some (r'', w'') else more
      ] in
      if ltb 0 remaining
      then if is_bad_count count requested
        then some (
          record r { stage = if is_zero count then early_eof else read_failed; code = count },
          w',
        )
        else rest
      else some (r, w)

  -- The fuel is one more than the bytes of the extent.
  pub retr_extent :
      Option (ReadFile W)
      → Option (SendData W)
      → Pointer
      → List ℕ
      → ℕ
      → ℕ
      → ℕ
      → W
      → Option (RetrResult × W)
  retr_extent none send_data pointer buffer buffer_size start extent w =
      some (record retr_start { stage = range }, w)
  retr_extent (some read_file) none pointer buffer buffer_size start extent w =
      some (record retr_start { stage = range }, w)
  retr_extent (some read_file) (some send_data) pointer buffer buffer_size start extent w =
      let remaining = extent - start in
      let run =
        extent_loop (suc remaining) read_file send_data buffer_size buffer remaining retr_start w in
      if is_null pointer || buffer_size == 0 || ltb int_max buffer_size || ltb extent start
      then some (record retr_start { stage = range }, w)
      else run
