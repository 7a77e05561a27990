-- ===== src/Ftp/Retr/Transfer.antt =====
-- What a download puts on the wire, over callbacks that keep the contracts of sceIoRead and
-- sceNetSend.
use vitacompanion_vitadeck.Prelude.{
  ℕ, zero, suc, ◌+◌, ◌-◌, ◌^◌, ◌≤◌, ◌<◌, ◌≡◌, refl, sym, ap, ◌∙◌, ◌↔◌, Bool, true, false, Option,
  some, List, ◌++◌, arith, ltb, Bool-cases, inl, inr, valid, slice-eq, length-slice, append-window,
  ℤ, pos, negsuc, cast_u32, u32, u64, int_max, length, take, drop, append-nil, if◌then◌else◌,
}
use vitacompanion_vitadeck.Ftp.Retr.{
  complete, early_eof, read_failed, is_zero, send_failed, RetrResult, retr_start, is_bad_count,
  ReadFile, SendData, after_send, send_loop, extent_loop, retr_extent,
}

-- The documented behaviour of the two callbacks. `file` is what the opened file holds, or will hold
-- when others have appended to it; `offset` is the descriptor's position, and `wire` is what the
-- data socket has accepted. A positive count within the request that stays inside `file` delivers
-- those bytes; what a send returns is the number of bytes that the socket has accepted.
pub record RetrContract {W : Type 0} (read_file : ReadFile W) (send_data : SendData W)
    (file : List ℕ) : Type 0 where
  pub offset : W → ℕ
  pub wire : W → List ℕ
  pub read_bytes :
      (w : W) (buffer : List ℕ) (requested : ℕ)
      → is_bad_count (read_file w buffer requested).0 requested ≡ false
      → let n = cast_u32 (read_file w buffer requested).0 in
        offset w + n ≤ length file
        → (take n (read_file w buffer requested).1 ≡ take n (drop (offset w) file))
          × (offset (read_file w buffer requested).2 ≡ offset w + n)
  pub read_wire :
      (w : W) (buffer : List ℕ) (requested : ℕ) → wire (read_file w buffer requested).2 ≡ wire w
  pub send_bytes :
      (w : W) (bytes : List ℕ)
      → is_bad_count (send_data w bytes).0 (length bytes) ≡ false
      → wire (send_data w bytes).2 ≡ wire w ++ take (cast_u32 (send_data w bytes).0) bytes
  pub send_fails :
      (w : W) (bytes : List ℕ)
      → is_bad_count (send_data w bytes).0 (length bytes) ≡ true
      → wire (send_data w bytes).2 ≡ wire w
  pub send_offset : (w : W) (bytes : List ℕ) → offset (send_data w bytes).2 ≡ offset w

pub good_count :
    (n : ℤ) (limit : ℕ) → is_bad_count n limit ≡ false → (1 ≤ cast_u32 n) × (cast_u32 n ≤ limit)
good_count (pos n) limit h = ground arith
good_count (negsuc n) limit h = cc

-- What a download has done when it returns: the first `bytes_sent` bytes from `start` on are on
-- the wire, behind those that were there before.
pub record Delivered {W : Type 0} (wire : W → List ℕ) (file base : List ℕ) (start extent : ℕ)
    (out : Option (RetrResult × W)) : Type 0 where
  pub r' : RetrResult
  pub w' : W
  pub returns : out ≡ some (r', w')
  pub sent : wire w' ≡ base ++ take r'.bytes_sent (drop start file)
  pub sent_le_read : r'.bytes_sent ≤ r'.bytes_read
  pub within : start + r'.bytes_read ≤ extent
  pub complete_iff : (r'.stage ≡ complete) ↔ (start + r'.bytes_sent ≡ extent)

module _ {W : Type 0} (read_file : ReadFile W) (send_data : SendData W) (file base : List ℕ)
    (start extent : ℕ) (contract : RetrContract read_file send_data file)
    (small : length file < 2 ^ 64) where
  open contract use {offset, wire, read_bytes, read_wire, send_bytes, send_fails, send_offset}

  abbrev OnWire : RetrResult → W → Type 0
  OnWire r w = wire w ≡ base ++ take r.bytes_sent (drop start file)

  abbrev bytes : List ℕ → ℕ → ℕ → List ℕ
  bytes buffer count position = take (count - position) (drop position buffer)

  abbrev answer : List ℕ → ℕ → ℕ → W → ℤ × ℤ × W
  answer buffer count position w = send_data w (bytes buffer count position)

  record Sending (buffer : List ℕ) (count off position : ℕ) (r : RetrResult) (w : W) : Type 0 where
    chunk : take count buffer ≡ take count (drop off file)
    inside : off + count ≤ length file
    where_sent : start + r.bytes_sent ≡ off + position
    where_read : start + r.bytes_read ≡ off + count
    sent : OnWire r w
    going : r.stage ≡ complete
    bounded : position ≤ count

  record Sent (count off : ℕ) (r : RetrResult) (w : W) (out : Option (Bool × RetrResult × W))
      : Type 0 where
    stop : Bool
    r' : RetrResult
    w' : W
    returns : out ≡ some (stop, r', w')
    sent : OnWire r' w'
    same_read : r'.bytes_read ≡ r.bytes_read
    same_offset : offset w' ≡ offset w
    finished : stop ≡ false → (start + r'.bytes_sent ≡ off + count) × (r'.stage ≡ complete)
    failed : stop ≡ true → (start + r'.bytes_sent < off + count) × (r'.stage ≡ send_failed)

  length-bytes :
      (buffer : List ℕ) (count off position : ℕ) (r : RetrResult) (w : W)
      → Sending buffer count off position r w
      → length (bytes buffer count position) ≡ count - position
  length-bytes buffer count off position r w s =
      ap length (slice-eq buffer file off count position s.chunk s.bounded)
      ∙ length-slice file (off + position) (count - position) (omega (arith, s.inside, s.bounded))

  good_bytes :
      (buffer : List ℕ) (count off position : ℕ) (r : RetrResult) (w : W)
      → Sending buffer count off position r w
      → {b : Bool} → is_bad_count (answer buffer count position w).0 (count - position) ≡ b
      → is_bad_count (answer buffer count position w).0 (length (bytes buffer count position)) ≡ b
  good_bytes buffer count off position r w s h = rw (length-bytes buffer count off position r w s) h

  Sending-next :
      (buffer : List ℕ) (count off position : ℕ) (r : RetrResult) (w : W)
      → Sending buffer count off position r w
      → count ≤ int_max
      → let a = answer buffer count position w in
        is_bad_count a.0 (count - position) ≡ false
        → Sending buffer count off
            (u32 (position + cast_u32 a.0))
            (record r { bytes_sent = u64 (r.bytes_sent + cast_u32 a.0) })
            a.2
  Sending-next buffer count off position r w s c good =
      let a = answer buffer count position w in
      let n = cast_u32 a.0 in
      let small_n : n ≤ count - position = (good_count a.0 (count - position) good).1 in
      let same_sent : u64 (r.bytes_sent + n) ≡ r.bytes_sent + n =
        omega (arith, s.where_sent, s.inside, s.bounded, small) in
      let same_position : u32 (position + n) ≡ position + n = omega (arith, s.bounded) in
      record {
        chunk = s.chunk;
        inside = s.inside;
        where_sent = omega (arith, same_sent, same_position, s.where_sent);
        where_read = s.where_read;
        sent =
            send_bytes w (bytes buffer count position)
              (good_bytes buffer count off position r w s good)
            ∙ ap (λ t. t ++ take n (bytes buffer count position)) s.sent
            ∙ ap (λ t. (base ++ take r.bytes_sent (drop start file)) ++ take n t)
                (slice-eq buffer file off count position s.chunk s.bounded
                  ∙ ap (λ (t : ℕ). take (count - position) (drop t file)) (sym s.where_sent))
            ∙ append-window base file start r.bytes_sent n (count - position) small_n
            ∙ ap (λ (t : ℕ). base ++ take t (drop start file)) (sym same_sent);
        going = s.going;
        bounded = omega (arith, same_position, s.bounded);
      }

  send_loop-next :
      (fuel : ℕ) (buffer : List ℕ) (count position : ℕ) (r : RetrResult) (w : W)
      → ltb position count ≡ true
      → let a = answer buffer count position w in
        is_bad_count a.0 (count - position) ≡ false
        → send_loop (suc fuel) send_data buffer count position r w
          ≡ send_loop fuel send_data buffer count
              (u32 (position + cast_u32 a.0))
              (record r { bytes_sent = u64 (r.bytes_sent + cast_u32 a.0) })
              a.2
  unfolding send_loop
  send_loop-next fuel buffer count position r w more good = rw (more, good)

  send_loop-Sent :
      (fuel : ℕ) (buffer : List ℕ) (count off position : ℕ) (r : RetrResult) (w : W)
      → count < fuel + position
      → count ≤ int_max
      → Sending buffer count off position r w
      → Sent count off r w (send_loop fuel send_data buffer count position r w)
  send_loop-Sent zero buffer count off position r w f c s = absurd (omega (arith, s.bounded))
  send_loop-Sent (suc fuel) buffer count off position r w f c s =
      elim (Bool-cases (ltb position count)) [
        | inr done ↦ record {
          stop = false;
          r' = r;
          w' = w;
          returns = unfold send_loop in ground arith;
          sent = s.sent;
          same_read = refl;
          same_offset = refl;
          finished = λ e. (ground (arith, s.where_sent, s.bounded), s.going);
          failed = λ e. cc;
        }
        | inl more ↦
            elim (Bool-cases
              (is_bad_count (send_data w (bytes buffer count position)).0 (count - position))) [
                | inl bad ↦ record {
                  stop = true;
                  r' =
                      (after_send (count - position) r (answer buffer count position w).0
                        (answer buffer count position w).1).1;
                  w' = (answer buffer count position w).2;
                  returns = unfold send_loop in ground (arith, bad, more);
                  sent = rw (bad) (
                      send_fails w (bytes buffer count position)
                        (good_bytes buffer count off position r w s bad)
                      ∙ s.sent);
                  same_read = ground (arith, bad);
                  same_offset = send_offset w (bytes buffer count position);
                  finished = λ e. cc;
                  failed = λ e. ground (arith, bad, more, s.where_sent);
                }
                | inr good ↦
                    let a = answer buffer count position w in
                    let next = Sending-next buffer count off position r w s c good in
                    let rest =
                      send_loop-Sent fuel buffer count off (u32 (position + cast_u32 a.0))
                        (record r { bytes_sent = u64 (r.bytes_sent + cast_u32 a.0) }) a.2
                        (ground (arith, good_count a.0 (count - position) good, s.bounded)) c
                        next in
                    record {
                      stop = rest.stop;
                      r' = rest.r';
                      w' = rest.w';
                      returns =
                          send_loop-next fuel buffer count position r w more good ∙ rest.returns;
                      sent = rest.sent;
                      same_read = rest.same_read;
                      same_offset = rest.same_offset ∙ send_offset w (bytes buffer count position);
                      finished = rest.finished;
                      failed = rest.failed;
                    }
              ]
      ]

  -- At the head of the outer loop everything that was read is on the wire.
  record Extending (remaining : ℕ) (r : RetrResult) (w : W) : Type 0 where
    where_read : start + r.bytes_read + remaining ≡ extent
    all_sent : r.bytes_sent ≡ r.bytes_read
    where_file : offset w ≡ start + r.bytes_read
    sent : OnWire r w
    going : r.stage ≡ complete

  abbrev request : ℕ → ℕ → ℕ
  request remaining buffer_size = if ltb remaining buffer_size then remaining else buffer_size

  module _ (fits : extent ≤ length file) (buffer_size : ℕ)
      (buffer_small : buffer_size ≤ int_max) where
    abbrev reading : List ℕ → ℕ → W → ℤ × List ℕ × W
    reading buffer remaining w = read_file w buffer (request remaining buffer_size)

    request_le :
        (remaining : ℕ)
        → (request remaining buffer_size ≤ remaining) × (request remaining buffer_size ≤ int_max)
    request_le remaining = ground arith

    Sending-read :
        (buffer : List ℕ) (remaining : ℕ) (r : RetrResult) (w : W)
        → Extending remaining r w
        → let a = reading buffer remaining w in
          is_bad_count a.0 (request remaining buffer_size) ≡ false
          → Sending a.1
              (cast_u32 a.0)
              (start + r.bytes_read)
              0
              (record r { bytes_read = u64 (r.bytes_read + cast_u32 a.0) })
              a.2
    Sending-read buffer remaining r w e good =
        let a = reading buffer remaining w in
        let (some_read, at_most) = good_count a.0 (request remaining buffer_size) good in
        let asked = request_le remaining in
        let inside : start + r.bytes_read + cast_u32 a.0 ≤ length file =
          omega (arith, at_most, asked, e.where_read, fits) in
        let got =
          read_bytes w buffer (request remaining buffer_size) good
            (omega (arith, inside, e.where_file)) in
        record {
          chunk = got.0 ∙ ap (λ (t : ℕ). take (cast_u32 a.0) (drop t file)) e.where_file;
          inside = inside;
          where_sent = omega (arith, e.all_sent);
          where_read = omega (arith, inside, small);
          sent = read_wire w buffer (request remaining buffer_size) ∙ e.sent;
          going = e.going;
          bounded = omega arith;
        }

    extent_loop-next :
        (fuel : ℕ) (buffer : List ℕ) (remaining : ℕ) (r : RetrResult) (w : W) (stop : Bool)
        (r'' : RetrResult) (w'' : W)
        → ltb 0 remaining ≡ true
        → let a = reading buffer remaining w in
          is_bad_count a.0 (request remaining buffer_size) ≡ false
          → send_loop
              (suc (cast_u32 a.0))
              send_data
              a.1
              (cast_u32 a.0)
              0
              (record r { bytes_read = u64 (r.bytes_read + cast_u32 a.0) })
              a.2
            ≡ some (stop, r'', w'')
          → extent_loop (suc fuel) read_file send_data buffer_size buffer remaining r w ≡ (
              if stop
              then some (r'', w'')
              else extent_loop fuel read_file send_data buffer_size a.1
                  (remaining - cast_u32 a.0)
                  r''
                  w'')
    unfolding extent_loop
    extent_loop-next fuel buffer remaining r w stop r'' w'' more good chunk = rw (more, good, chunk)

    -- After a chunk the download stops, or the loop goes on behind it.
    Delivered-chunk :
        (fuel : ℕ) (buffer : List ℕ) (remaining : ℕ) (r : RetrResult) (w : W)
        → remaining < suc fuel
        → Extending remaining r w
        → ltb 0 remaining ≡ true
        → let a = reading buffer remaining w in
          is_bad_count a.0 (request remaining buffer_size) ≡ false
          → Sent
              (cast_u32 a.0)
              (start + r.bytes_read)
              (record r { bytes_read = u64 (r.bytes_read + cast_u32 a.0) })
              a.2
              (send_loop
                (suc (cast_u32 a.0))
                send_data
                a.1
                (cast_u32 a.0)
                0
                (record r { bytes_read = u64 (r.bytes_read + cast_u32 a.0) })
                a.2)
          → ((r'' : RetrResult) (w'' : W)
              → Extending (remaining - cast_u32 a.0) r'' w''
              → Delivered wire file base start extent (
                  extent_loop fuel read_file send_data buffer_size a.1
                    (remaining - cast_u32 a.0)
                    r''
                    w''))
          → Delivered wire file base start extent
              (extent_loop (suc fuel) read_file send_data buffer_size buffer remaining r w)
    Delivered-chunk fuel buffer remaining r w f e more good chunk go =
        let a = reading buffer remaining w in
        let at_most = (good_count a.0 (request remaining buffer_size) good).1 in
        let asked = request_le remaining in
        let inside : start + r.bytes_read + cast_u32 a.0 ≤ length file =
          omega (arith, at_most, asked, e.where_read, fits) in
        let same : u64 (r.bytes_read + cast_u32 a.0) ≡ r.bytes_read + cast_u32 a.0 =
          omega (arith, inside, small) in
        let moved =
          (read_bytes w buffer (request remaining buffer_size) good
            (omega (arith, inside, e.where_file))).1 in
        let next =
          extent_loop-next fuel buffer remaining r w chunk.stop chunk.r' chunk.w' more good
            chunk.returns in
        elim (Bool-cases chunk.stop) [
          | inl stopped ↦ record {
            r' = chunk.r';
            w' = chunk.w';
            returns = next ∙ (rw stopped);
            sent = chunk.sent;
            sent_le_read = omega (arith, chunk.failed stopped, chunk.same_read, same);
            within = omega (arith, chunk.same_read, same, at_most, asked, e.where_read);
            complete_iff = (
              (λ h. absurd (ground (arith, chunk.failed stopped))),
              (λ h. absurd (omega (arith, chunk.failed stopped, at_most, asked, e.where_read))),
            );
          }
          | inr on ↦
              let rest = go chunk.r' chunk.w' (record {
                where_read = omega (arith, chunk.same_read, same, e.where_read, at_most, asked);
                all_sent = omega (arith, chunk.finished on, chunk.same_read, same);
                where_file =
                    omega (arith, chunk.same_offset, moved, e.where_file, chunk.same_read, same);
                sent = chunk.sent;
                going = (chunk.finished on).1;
              }) in
              record {
                r' = rest.r';
                w' = rest.w';
                returns = next ∙ (rw on) ∙ rest.returns;
                sent = rest.sent;
                sent_le_read = rest.sent_le_read;
                within = rest.within;
                complete_iff = rest.complete_iff;
              }
        ]

    extent_loop-Delivered :
        (fuel : ℕ) (buffer : List ℕ) (remaining : ℕ) (r : RetrResult) (w : W)
        → remaining < fuel
        → Extending remaining r w
        → Delivered wire file base start extent
            (extent_loop fuel read_file send_data buffer_size buffer remaining r w)
    extent_loop-Delivered zero buffer remaining r w f e = absurd (omega arith)
    extent_loop-Delivered (suc fuel) buffer remaining r w f e =
        elim (Bool-cases (ltb 0 remaining)) [
          | inr done ↦ record {
            r' = r;
            w' = w;
            returns = unfold extent_loop in rw done;
            sent = e.sent;
            sent_le_read = omega (arith, e.all_sent);
            within = omega (arith, e.where_read);
            complete_iff = ((λ h. ground (arith, e.where_read, e.all_sent, done)), (λ h. e.going));
          }
          | inl more ↦
              elim (Bool-cases
                (is_bad_count (reading buffer remaining w).0 (request remaining buffer_size))) [
                  | inl bad ↦ record {
                    r' = record r {
                      stage =
                          if is_zero (reading buffer remaining w).0 then early_eof else read_failed;
                      code = (reading buffer remaining w).0;
                    };
                    w' = (reading buffer remaining w).2;
                    returns = unfold extent_loop in rw (more, bad);
                    sent = read_wire w buffer (request remaining buffer_size) ∙ e.sent;
                    sent_le_read = omega (arith, e.all_sent);
                    within = omega (arith, e.where_read);
                    complete_iff = (
                      (λ h. absurd (ground arith)),
                      (λ h. absurd (ground (arith, more, e.where_read, e.all_sent))),
                    );
                  }
                  | inr good ↦
                      let a = reading buffer remaining w in
                      let s = Sending-read buffer remaining r w e good in
                      let bounds = good_count a.0 (request remaining buffer_size) good in
                      let asked = request_le remaining in
                      Delivered-chunk fuel buffer remaining r w f e more good
                        (send_loop-Sent (suc (cast_u32 a.0)) a.1 (cast_u32 a.0)
                          (start + r.bytes_read) 0 _ a.2 (omega arith)
                          (omega (arith, bounds, asked)) s)
                        (λ r'' w''.
                          extent_loop-Delivered fuel a.1 (remaining - cast_u32 a.0) r'' w''
                            (omega (arith, bounds, asked)))
                ]
        ]

-- Over callbacks that keep their contract, with a buffer of 1 to INT_MAX bytes, a download of the bytes
-- from `start`, where the descriptor stands, to `extent`, which the file holds, always returns. What it
-- has put on the wire is exactly the first `bytes_sent` bytes from `start` on, at most as many as it
-- has read, and nothing behind `extent` was read; and it reports completion exactly when all bytes up
-- to `extent` were sent.
pub retr_extent-Delivered :
    {W : Type 0} (read_file : ReadFile W) (send_data : SendData W) (file : List ℕ) (buffer : List ℕ)
    (buffer_size start extent : ℕ) (w : W) (contract : RetrContract read_file send_data file)
    → length file < 2 ^ 64
    → 0 < buffer_size
    → buffer_size ≤ int_max
    → start ≤ extent
    → extent ≤ length file
    → contract.offset w ≡ start
    → Delivered contract.wire file
        (contract.wire w)
        start
        extent
        (retr_extent (some read_file) (some send_data) valid buffer buffer_size start extent w)
retr_extent-Delivered read_file send_data file buffer buffer_size start extent w contract small room
      bounded ordered fits at_start =
    rw entered (
      extent_loop-Delivered read_file send_data file (contract.wire w) start extent contract small
        fits buffer_size bounded (suc (extent - start)) buffer (extent - start) retr_start w
        (omega arith)
        (record {
          where_read = omega arith;
          all_sent = refl;
          where_file = omega (arith, at_start);
          sent = sym (append-nil (contract.wire w));
          going = refl;
        }))
  where
    entered :
        retr_extent (some read_file) (some send_data) valid buffer buffer_size start extent w
        ≡ extent_loop
            (suc (extent - start))
            read_file
            send_data
            buffer_size
            buffer
            (extent - start)
            retr_start
            w
    entered = unfold retr_extent in ground arith
