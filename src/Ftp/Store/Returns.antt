-- ===== src/Ftp/Store/Returns.antt =====
-- An upload returns when its receives end, over any callbacks, and keeps what they keep.
use vitacompanion_vitadeck.Prelude.{
  ℕ, zero, suc, ◌+◌, ◌-◌, ◌^◌, ◌≤◌, ◌<◌, ◌≡◌, true, false, ◌||◌, some, List, arith, ltb, ◌==◌,
  Bool-cases, inl, inr, ℤ, pos, negsuc, is_negative, Yields, Yields-found, Pointer, is_null,
  cast_u32, u32, u64, int_max, take, drop,
}
use vitacompanion_vitadeck.Ftp.Store.{
  StoreResult, store_start, is_zero, is_bad_receive, is_bad_write, ReceiveData, WriteFile,
  write_loop, receive_loop, store_stream,
}

good_written :
    (n : ℤ) (limit : ℕ) → is_bad_write n limit ≡ false → (1 ≤ cast_u32 n) × (cast_u32 n ≤ limit)
good_written (pos n) limit h = ground arith
good_written (negsuc n) limit h = cc

good_received :
    (n : ℤ) (limit : ℕ)
    → is_zero n ≡ false
    → is_bad_receive n limit ≡ false
    → (1 ≤ cast_u32 n) × (cast_u32 n ≤ limit)
good_received (pos n) limit some_bytes h = ground arith
good_received (negsuc n) limit some_bytes h = cc

-- `P n w` says that the context has come at least `n` steps; a receive is a step, and from `last`
-- steps on there is nothing to receive.
module _ {W : Type 0} (receive_data : ReceiveData W) (write_file : WriteFile W) (P : ℕ → W → Type 0)
    (last : ℕ)
    (receive_keeps : (n : ℕ) (w : W) (buffer : List ℕ) (size : ℕ)
      → P n w
      → P (suc n) (receive_data w buffer size).3)
    (write_keeps : (n : ℕ) (w : W) (bytes : List ℕ) → P n w → P n (write_file w bytes).1)
    (receive_ends : (n : ℕ) (w : W) (buffer : List ℕ) (size : ℕ)
      → last ≤ n
      → P n w
      → is_zero (receive_data w buffer size).0 || is_negative (receive_data w buffer size).0 ≡ true)
    (lower : (n : ℕ) (w : W) → P (suc n) w → P n w) where
  write_loop_returns :
      (fuel n : ℕ) (buffer : List ℕ) (count position : ℕ) (r : StoreResult) (w : W)
      → count < 2 ^ 32
      → position ≤ count
      → count < fuel + position
      → P n w
      → Yields (λ out. P n out.2) (write_loop fuel write_file buffer count position r w)
  unfolding write_loop
  write_loop_returns zero n buffer count position r w small inside enough p = absurd (omega arith)
  write_loop_returns (suc fuel) n buffer count position r w small inside enough p =
      let bytes = take (count - position) (drop position buffer) in
      let a = write_file w bytes in
      elim (Bool-cases (ltb position count)) [
        | inr end ↦ rw end p
        | inl more ↦ elim (Bool-cases (is_bad_write a.0 (count - position))) [
          | inl bad ↦ rw (more, bad) (write_keeps n w bytes p)
          | inr good ↦
              let bounds = good_written a.0 (count - position) good in
              let moved : u32 (position + cast_u32 a.0) ≡ position + cast_u32 a.0 =
                omega (arith, bounds) in
              rw (more, good)
                (write_loop_returns fuel n buffer count (u32 (position + cast_u32 a.0)) _ a.1 small
                  (omega (arith, bounds, moved)) (omega (arith, bounds, moved))
                  (write_keeps n w bytes p))
        ]
      ]

  receive_loop_returns :
      (fuel n buffer_size : ℕ) (buffer : List ℕ) (r : StoreResult) (w : W)
      → buffer_size ≤ int_max
      → 0 < fuel
      → last < fuel + n
      → P n w
      → Yields (λ out. P n out.1) (receive_loop fuel receive_data write_file buffer_size buffer r w)
  unfolding receive_loop
  receive_loop_returns zero n buffer_size buffer r w bounded some_fuel enough p =
      absurd (omega arith)
  receive_loop_returns (suc fuel) n buffer_size buffer r w bounded some_fuel enough p =
      let a = receive_data w buffer buffer_size in
      let kept = receive_keeps n w buffer buffer_size p in
      elim (Bool-cases (is_zero a.0)) [
        | inl end ↦ rw end (lower n a.3 kept)
        | inr some_bytes ↦ elim (Bool-cases (is_bad_receive a.0 buffer_size)) [
          | inl bad ↦ rw (some_bytes, bad) (lower n a.3 kept)
          | inr good ↦
              let bounds = good_received a.0 buffer_size some_bytes good in
              let count = cast_u32 a.0 in
              let early : n < last = ground (arith, receive_ends n w buffer buffer_size, good) in
              let r' = record r { bytes_received = u64 (r.bytes_received + count) } in
              let (out, written, after) =
                Yields-found (λ out. P (suc n) out.2)
                  (write_loop (suc count) write_file a.1 count 0 r' a.3)
                  (write_loop_returns (suc count) (suc n) a.1 count 0 r' a.3 (omega (arith, bounds))
                    (omega arith) (omega arith) kept) in
              rw (some_bytes, good, written)
                (elim (Bool-cases out.0) [
                  | inl stopped ↦ rw stopped (lower n out.2 after)
                  | inr on ↦
                      let (end, went, at_end) =
                        Yields-found (λ out. P (suc n) out.1)
                          (receive_loop fuel receive_data write_file buffer_size a.1 out.1 out.2)
                          (receive_loop_returns fuel (suc n) buffer_size a.1 out.1 out.2 bounded
                            (omega arith) (omega arith) after) in
                      rw (on, went) (lower n end.1 at_end)
                ])
        ]
      ]

  -- With fuel for the steps that are left, an upload returns, and what its callbacks keep of the
  -- context it keeps.
  pub store_stream_returns :
      (fuel n : ℕ) (pointer : Pointer) (buffer : List ℕ) (buffer_size : ℕ) (w : W)
      → last < fuel
      → P n w
      → Yields
          (λ out. P n out.1)
          (store_stream fuel (some receive_data) (some write_file) pointer buffer buffer_size w)
  unfolding store_stream
  store_stream_returns fuel n pointer buffer buffer_size w enough p =
      elim (Bool-cases (is_null pointer || buffer_size == 0 || ltb int_max buffer_size)) [
        | inl refused ↦ rw refused p
        | inr taken ↦ rw taken (
            receive_loop_returns fuel n buffer_size buffer store_start w (ground (arith, taken))
              (omega arith) (omega arith) p)
      ]
