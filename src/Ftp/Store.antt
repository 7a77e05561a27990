-- ===== src/Ftp/Store.antt =====
-- libftpvita/ftpvita_store.h: the upload loop, over callbacks that receive and write.
pub mod Upload
pub mod Returns
use vitacompanion_vitadeck.Prelude.{
  ℕ, zero, suc, ◌+◌, ◌-◌, Bool, true, false, ◌||◌, Option, none, some, List, ltb, ◌==◌,
  if◌then◌else◌, Pointer, is_null, ℤ, pos, negsuc, is_negative, cast_u32, u32, u64, int_max, take,
  drop,
}

-- What the stage strings of the result say.
pub data Stage : Type 0 where
  complete range receive_failed write_failed : Stage

-- `ftpvita_store_result_t`
pub record StoreResult : Type 0 where
  pub stage : Stage
  pub code : ℤ
  pub net_errno : ℤ
  pub bytes_received : ℕ
  pub bytes_written : ℕ

abbrev pub store_start : StoreResult
store_start = record {
  stage = complete;
  code = pos 0;
  net_errno = pos 0;
  bytes_received = 0;
  bytes_written = 0;
}

-- `received == 0`
abbrev pub is_zero : ℤ → Bool
is_zero (pos n) = n == 0
is_zero (negsuc n) = false

-- `received < 0 || (unsigned int)received > limit`
abbrev pub is_bad_receive : ℤ → ℕ → Bool
is_bad_receive n limit = is_negative n || ltb limit (cast_u32 n)

-- `written <= 0 || (unsigned int)written > limit`
abbrev pub is_bad_write : ℤ → ℕ → Bool
is_bad_write n limit = is_zero n || is_negative n || ltb limit (cast_u32 n)

-- A receive callback gets the buffer and its size, and returns its result, the buffer, the network
-- error and the context. A write callback gets the bytes from the position on.
abbrev pub ReceiveData : Type 0 → Type 0
ReceiveData W = W → List ℕ → ℕ → ℤ × List ℕ × ℤ × W

abbrev pub WriteFile : Type 0 → Type 0
WriteFile W = W → List ℕ → ℤ × W

-- What follows a write: on a bad count the upload stops (`true`).
abbrev pub after_write : ℕ → StoreResult → ℤ → Bool × StoreResult
after_write pending r written =
    if is_bad_write written pending
    then (true, record r { stage = write_failed; code = written })
    else (false, record r { bytes_written = u64 (r.bytes_written + cast_u32 written) })

module _ {W : Type 0} where
  -- The loop over the unwritten part of what was received. `none` is the end of the fuel.
  pub write_loop :
      ℕ → WriteFile W → List ℕ → ℕ → ℕ → StoreResult → W → Option (Bool × StoreResult × W)
  write_loop zero write_file buffer count position r w = none
  write_loop (suc fuel) write_file buffer count position r w =
      let pending = count - position in
      let (written, w') = write_file w (take pending (drop position buffer)) in
      let (stop, r') = after_write pending r written in
      let rest =
        write_loop fuel write_file buffer count (u32 (position + cast_u32 written)) r' w' in
      if ltb position count then if stop then some (true, r', w') else rest else some (false, r, w)

  -- The loop over the receives.
  pub receive_loop :
      ℕ → ReceiveData W → WriteFile W → ℕ → List ℕ → StoreResult → W → Option (StoreResult × W)
  receive_loop zero receive_data write_file buffer_size buffer r w = none
  receive_loop (suc fuel) receive_data write_file buffer_size buffer r w =
      let (received, buffer', net_error, w') = receive_data w buffer buffer_size in
      let n = cast_u32 received in
      let r' = record r { bytes_received = u64 (r.bytes_received + n) } in
      let chunk = write_loop (suc n) write_file buffer' n 0 r' w' in
      let rest : Option (StoreResult × W) = elim chunk [
        | none ↦ none
        | some (stop, r'', w'') ↦
            let more = receive_loop fuel receive_data write_file buffer_size buffer' r'' w'' in
            if stop then some (r'', w'') else more
      ] in
      if is_zero received
      then some (r, w')
      else if is_bad_receive received buffer_size
      then some (
        record r {
          stage = receive_failed;
          code = received;
          net_errno = if is_negative received then net_error else pos 0;
        },
        w',
      )
      else rest

  -- The fuel bounds the number of receives.
  pub store_stream :
      ℕ
      → Option (ReceiveData W)
      → Option (WriteFile W)
      → Pointer
      → List ℕ
      → ℕ
      → W
      → Option (StoreResult × W)
  store_stream fuel none write_file pointer buffer buffer_size w =
      some (record store_start { stage = range }, w)
  store_stream fuel (some receive_data) none pointer buffer buffer_size w =
      some (record store_start { stage = range }, w)
  store_stream fuel (some receive_data) (some write_file) pointer buffer buffer_size w =
      let run = receive_loop fuel receive_data write_file buffer_size buffer store_start w in
      if is_null pointer || buffer_size == 0 || ltb int_max buffer_size
      then some (record store_start { stage = range }, w)
      else run
