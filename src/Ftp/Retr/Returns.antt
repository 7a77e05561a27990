-- ===== src/Ftp/Retr/Returns.antt =====
-- A download returns, over any callbacks, and keeps what they keep.
use vitacompanion_vitadeck.Prelude.{
  ℕ, zero, suc, ◌+◌, ◌-◌, ◌^◌, ◌≤◌, ◌<◌, ◌≡◌, ◌||◌, some, List, arith, ltb, ◌==◌, Bool-cases, inl,
  inr, Yields, Yields-found, Pointer, is_null, cast_u32, u32, u64, int_max, take, drop,
  if◌then◌else◌,
}
use vitacompanion_vitadeck.Ftp.Retr.{
  RetrResult, retr_start, is_bad_count, ReadFile, SendData, send_loop, extent_loop, retr_extent,
}
use vitacompanion_vitadeck.Ftp.Retr.Transfer.{good_count}

module _ {W : Type 0} (read_file : ReadFile W) (send_data : SendData W) (P : W → Type 0)
    (read_keeps : (w : W) (buffer : List ℕ) (n : ℕ) → P w → P (read_file w buffer n).2)
    (send_keeps : (w : W) (bytes : List ℕ) → P w → P (send_data w bytes).2) where
  send_loop_returns :
      (fuel : ℕ) (buffer : List ℕ) (count position : ℕ) (r : RetrResult) (w : W)
      → count < 2 ^ 32
      → position ≤ count
      → count < fuel + position
      → P w
      → Yields (λ out. P out.2) (send_loop fuel send_data buffer count position r w)
  unfolding send_loop
  send_loop_returns zero buffer count position r w small inside enough p = absurd (omega arith)
  send_loop_returns (suc fuel) buffer count position r w small inside enough p =
      let bytes = take (count - position) (drop position buffer) in
      let a = send_data w bytes in
      elim (Bool-cases (ltb position count)) [
        | inr end ↦ rw end p
        | inl more ↦ elim (Bool-cases (is_bad_count a.0 (count - position))) [
          | inl bad ↦ rw (more, bad) (send_keeps w bytes p)
          | inr good ↦
              let bounds = good_count a.0 (count - position) good in
              let moved : u32 (position + cast_u32 a.0) ≡ position + cast_u32 a.0 =
                omega (arith, bounds) in
              rw (more, good)
                (send_loop_returns fuel buffer count (u32 (position + cast_u32 a.0)) _ a.2 small
                  (omega (arith, bounds, moved)) (omega (arith, bounds, moved))
                  (send_keeps w bytes p))
        ]
      ]

  extent_loop_returns :
      (fuel buffer_size : ℕ) (buffer : List ℕ) (remaining : ℕ) (r : RetrResult) (w : W)
      → buffer_size ≤ int_max
      → remaining < fuel
      → P w
      → Yields
          (λ out. P out.1)
          (extent_loop fuel read_file send_data buffer_size buffer remaining r w)
  unfolding extent_loop
  extent_loop_returns zero buffer_size buffer remaining r w bounded enough p = absurd (omega arith)
  extent_loop_returns (suc fuel) buffer_size buffer remaining r w bounded enough p =
      let requested = if ltb remaining buffer_size then remaining else buffer_size in
      let a = read_file w buffer requested in
      let kept = read_keeps w buffer requested p in
      elim (Bool-cases (ltb 0 remaining)) [
        | inr end ↦ rw end p
        | inl more ↦ elim (Bool-cases (is_bad_count a.0 requested)) [
          | inl bad ↦ rw (more, bad) kept
          | inr good ↦
              let bounds = good_count a.0 requested good in
              let pending : 0 < remaining = ground (arith, more) in
              let within : requested ≤ buffer_size = ground arith in
              let n = cast_u32 a.0 in
              let r' = record r { bytes_read = u64 (r.bytes_read + n) } in
              let (out, sent, after) =
                Yields-found (λ out. P out.2) (send_loop (suc n) send_data a.1 n 0 r' a.2)
                  (send_loop_returns (suc n) a.1 n 0 r' a.2 (omega (arith, bounds, within))
                    (omega arith) (omega arith) kept) in
              rw (more, good, sent)
                (elim (Bool-cases out.0) [
                  | inl stopped ↦ rw stopped after
                  | inr on ↦ rw on (
                      extent_loop_returns fuel buffer_size a.1 (remaining - n) out.1 out.2 bounded
                        (omega (arith, bounds)) after)
                ])
        ]
      ]

  -- Whatever its callbacks return, a download returns, and what they keep of the context it keeps.
  pub retr_extent_returns :
      (pointer : Pointer) (buffer : List ℕ) (buffer_size start extent : ℕ) (w : W)
      → P w
      → Yields
          (λ out. P out.1)
          (retr_extent (some read_file) (some send_data) pointer buffer buffer_size start extent w)
  unfolding retr_extent
  retr_extent_returns pointer buffer buffer_size start extent w p =
      elim (Bool-cases
        (is_null pointer || buffer_size == 0 || ltb int_max buffer_size || ltb extent start)) [
          | inl refused ↦ rw refused p
          | inr taken ↦ rw taken (
              extent_loop_returns (suc (extent - start)) buffer_size buffer (extent - start)
                retr_start w (ground (arith, taken)) (omega arith) p)
        ]
