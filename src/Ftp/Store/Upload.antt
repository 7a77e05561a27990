-- ===== src/Ftp/Store/Upload.antt =====
-- What an upload leaves in the file, over callbacks that keep the contracts of sceNetRecv and
-- sceIoWrite.
use vitacompanion_vitadeck.Prelude.{
  ℕ, zero, suc, ◌+◌, ◌-◌, ◌^◌, ◌≤◌, ◌<◌, ◌≡◌, refl, sym, ap, ◌∙◌, Bool, true, false, Option, some,
  List, ◌++◌, arith, ltb, Bool-cases, inl, inr, valid, slice-eq, length-slice, append-window, ℤ,
  pos, negsuc, is_negative, cast_u32, u32, u64, int_max, length, take, drop, append-nil,
  if◌then◌else◌,
}
use vitacompanion_vitadeck.Ftp.Store.{
  complete, receive_failed, write_failed, StoreResult, store_start, is_zero, is_bad_receive,
  is_bad_write, ReceiveData, WriteFile, write_loop, receive_loop, store_stream,
}

-- The documented behaviour of the two callbacks. `stream` is all that the peer sends; `taken`
-- counts the bytes of it that were received, and `stored` is what the file holds. A receive
-- delivers the next bytes, and its result is 0 only when the peer has closed behind the last one;
-- what a write returns is the number of bytes that the file has taken.
pub record StoreContract {W : Type 0} (receive_data : ReceiveData W) (write_file : WriteFile W)
    (stream : List ℕ) : Type 0 where
  pub taken : W → ℕ
  pub stored : W → List ℕ
  pub receive_bytes :
      (w : W) (buffer : List ℕ) (size : ℕ)
      → let a = receive_data w buffer size in
        is_zero a.0 ≡ false
        → is_bad_receive a.0 size ≡ false
        → (taken w + cast_u32 a.0 ≤ length stream)
          × (take (cast_u32 a.0) a.1 ≡ take (cast_u32 a.0) (drop (taken w) stream))
          × (taken a.3 ≡ taken w + cast_u32 a.0)
  pub receive_end :
      (w : W) (buffer : List ℕ) (size : ℕ)
      → 0 < size
      → let a = receive_data w buffer size in is_zero a.0 ≡ true → taken w ≡ length stream
  pub receive_stored :
      (w : W) (buffer : List ℕ) (size : ℕ) → stored (receive_data w buffer size).3 ≡ stored w
  pub write_bytes :
      (w : W) (bytes : List ℕ)
      → is_bad_write (write_file w bytes).0 (length bytes) ≡ false
      → stored (write_file w bytes).1 ≡ stored w ++ take (cast_u32 (write_file w bytes).0) bytes
  pub write_fails :
      (w : W) (bytes : List ℕ)
      → is_bad_write (write_file w bytes).0 (length bytes) ≡ true
      → stored (write_file w bytes).1 ≡ stored w
  pub write_taken : (w : W) (bytes : List ℕ) → taken (write_file w bytes).1 ≡ taken w

good_write :
    (n : ℤ) (limit : ℕ) → is_bad_write n limit ≡ false → (1 ≤ cast_u32 n) × (cast_u32 n ≤ limit)
good_write (pos n) limit h = ground arith
good_write (negsuc n) limit h = cc

good_receive :
    (n : ℤ) (limit : ℕ)
    → is_zero n ≡ false
    → is_bad_receive n limit ≡ false
    → (1 ≤ cast_u32 n) × (cast_u32 n ≤ limit)
good_receive (pos n) limit z h = ground arith
good_receive (negsuc n) limit z h = cc

-- What an upload has done when it returns: the first `bytes_written` bytes of the stream from
-- `start` on are in the file, behind those that were there before.
pub record Uploaded {W : Type 0} (stored : W → List ℕ) (stream base : List ℕ) (start : ℕ)
    (out : Option (StoreResult × W)) : Type 0 where
  pub r' : StoreResult
  pub w' : W
  pub returns : out ≡ some (r', w')
  pub kept : stored w' ≡ base ++ take r'.bytes_written (drop start stream)
  pub written_le_received : r'.bytes_written ≤ r'.bytes_received
  pub within : start + r'.bytes_received ≤ length stream
  pub complete_all : r'.stage ≡ complete → start + r'.bytes_written ≡ length stream
  pub receive_kept : r'.stage ≡ receive_failed → r'.bytes_written ≡ r'.bytes_received
  pub write_lost : r'.stage ≡ write_failed → r'.bytes_written < r'.bytes_received

module _ {W : Type 0} (receive_data : ReceiveData W) (write_file : WriteFile W)
    (stream base : List ℕ) (start : ℕ) (contract : StoreContract receive_data write_file stream)
    (small : length stream < 2 ^ 64) where
  open contract use {
    taken, stored, receive_bytes, receive_end, receive_stored, write_bytes, write_fails,
    write_taken,
  }

  abbrev InFile : StoreResult → W → Type 0
  InFile r w = stored w ≡ base ++ take r.bytes_written (drop start stream)

  abbrev bytes : List ℕ → ℕ → ℕ → List ℕ
  bytes buffer count position = take (count - position) (drop position buffer)

  abbrev answer : List ℕ → ℕ → ℕ → W → ℤ × W
  answer buffer count position w = write_file w (bytes buffer count position)

  record Writing (buffer : List ℕ) (count off position : ℕ) (r : StoreResult) (w : W) : Type 0 where
    chunk : take count buffer ≡ take count (drop off stream)
    inside : off + count ≤ length stream
    where_written : start + r.bytes_written ≡ off + position
    where_received : start + r.bytes_received ≡ off + count
    kept : InFile r w
    going : r.stage ≡ complete
    bounded : position ≤ count

  record Written (count off : ℕ) (r : StoreResult) (w : W) (out : Option (Bool × StoreResult × W))
      : Type 0 where
    stop : Bool
    r' : StoreResult
    w' : W
    returns : out ≡ some (stop, r', w')
    kept : InFile r' w'
    same_received : r'.bytes_received ≡ r.bytes_received
    same_taken : taken w' ≡ taken w
    finished : stop ≡ false → (start + r'.bytes_written ≡ off + count) × (r'.stage ≡ complete)
    failed : stop ≡ true → (start + r'.bytes_written < off + count) × (r'.stage ≡ write_failed)

  length-bytes :
      (buffer : List ℕ) (count off position : ℕ) (r : StoreResult) (w : W)
      → Writing buffer count off position r w
      → length (bytes buffer count position) ≡ count - position
  length-bytes buffer count off position r w s =
      ap length (slice-eq buffer stream off count position s.chunk s.bounded)
      ∙ length-slice stream (off + position) (count - position) (omega (arith, s.inside, s.bounded))

  same_test :
      (buffer : List ℕ) (count off position : ℕ) (r : StoreResult) (w : W)
      → Writing buffer count off position r w
      → {b : Bool} → is_bad_write (answer buffer count position w).0 (count - position) ≡ b
      → is_bad_write (answer buffer count position w).0 (length (bytes buffer count position)) ≡ b
  same_test buffer count off position r w s h = rw (length-bytes buffer count off position r w s) h

  Writing-next :
      (buffer : List ℕ) (count off position : ℕ) (r : StoreResult) (w : W)
      → Writing buffer count off position r w
      → count ≤ int_max
      → let a = answer buffer count position w in
        is_bad_write a.0 (count - position) ≡ false
        → Writing buffer count off
            (u32 (position + cast_u32 a.0))
            (record r { bytes_written = u64 (r.bytes_written + cast_u32 a.0) })
            a.1
  Writing-next buffer count off position r w s c good =
      let a = answer buffer count position w in
      let n = cast_u32 a.0 in
      let small_n : n ≤ count - position = (good_write a.0 (count - position) good).1 in
      let same_written : u64 (r.bytes_written + n) ≡ r.bytes_written + n =
        omega (arith, s.where_written, s.inside, s.bounded, small) in
      let same_position : u32 (position + n) ≡ position + n = omega (arith, s.bounded) in
      record {
        chunk = s.chunk;
        inside = s.inside;
        where_written = omega (arith, same_written, same_position, s.where_written);
        where_received = s.where_received;
        kept =
            write_bytes w (bytes buffer count position)
              (same_test buffer count off position r w s good)
            ∙ ap (λ t. t ++ take n (bytes buffer count position)) s.kept
            ∙ ap (λ t. (base ++ take r.bytes_written (drop start stream)) ++ take n t)
                (slice-eq buffer stream off count position s.chunk s.bounded
                  ∙ ap (λ (t : ℕ). take (count - position) (drop t stream)) (sym s.where_written))
            ∙ append-window base stream start r.bytes_written n (count - position) small_n
            ∙ ap (λ (t : ℕ). base ++ take t (drop start stream)) (sym same_written);
        going = s.going;
        bounded = omega (arith, same_position, s.bounded);
      }

  write_loop-next :
      (fuel : ℕ) (buffer : List ℕ) (count position : ℕ) (r : StoreResult) (w : W)
      → ltb position count ≡ true
      → let a = answer buffer count position w in
        is_bad_write a.0 (count - position) ≡ false
        → write_loop (suc fuel) write_file buffer count position r w
          ≡ write_loop fuel write_file buffer count
              (u32 (position + cast_u32 a.0))
              (record r { bytes_written = u64 (r.bytes_written + cast_u32 a.0) })
              a.1
  unfolding write_loop
  write_loop-next fuel buffer count position r w more good = rw (more, good)

  write_loop-Written :
      (fuel : ℕ) (buffer : List ℕ) (count off position : ℕ) (r : StoreResult) (w : W)
      → count < fuel + position
      → count ≤ int_max
      → Writing buffer count off position r w
      → Written count off r w (write_loop fuel write_file buffer count position r w)
  write_loop-Written zero buffer count off position r w f c s = absurd (omega (arith, s.bounded))
  write_loop-Written (suc fuel) buffer count off position r w f c s =
      elim (Bool-cases (ltb position count)) [
        | inr done ↦ record {
          stop = false;
          r' = r;
          w' = w;
          returns = unfold write_loop in ground arith;
          kept = s.kept;
          same_received = refl;
          same_taken = refl;
          finished = λ e. (ground (arith, s.where_written, s.bounded), s.going);
          failed = λ e. cc;
        }
        | inl more ↦
            elim (Bool-cases (is_bad_write (answer buffer count position w).0 (count - position))) [
              | inl bad ↦ record {
                stop = true;
                r' = record r { stage = write_failed; code = (answer buffer count position w).0 };
                w' = (answer buffer count position w).1;
                returns = unfold write_loop in rw (more, bad);
                kept =
                    write_fails w (bytes buffer count position)
                      (same_test buffer count off position r w s bad)
                    ∙ s.kept;
                same_received = refl;
                same_taken = write_taken w (bytes buffer count position);
                finished = λ e. cc;
                failed = λ e. (ground (arith, more, s.where_written), refl);
              }
              | inr good ↦
                  let a = answer buffer count position w in
                  let next = Writing-next buffer count off position r w s c good in
                  let rest =
                    write_loop-Written fuel buffer count off (u32 (position + cast_u32 a.0))
                      (record r { bytes_written = u64 (r.bytes_written + cast_u32 a.0) }) a.1
                      (ground (arith, good_write a.0 (count - position) good, s.bounded)) c next in
                  record {
                    stop = rest.stop;
                    r' = rest.r';
                    w' = rest.w';
                    returns =
                        write_loop-next fuel buffer count position r w more good ∙ rest.returns;
                    kept = rest.kept;
                    same_received = rest.same_received;
                    same_taken = rest.same_taken ∙ write_taken w (bytes buffer count position);
                    finished = rest.finished;
                    failed = rest.failed;
                  }
            ]
      ]

  -- At the head of the outer loop everything that was received is in the file.
  record Receiving (r : StoreResult) (w : W) : Type 0 where
    where_taken : taken w ≡ start + r.bytes_received
    all_written : r.bytes_written ≡ r.bytes_received
    inside : start + r.bytes_received ≤ length stream
    kept : InFile r w
    going : r.stage ≡ complete

  module _ (buffer_size : ℕ) (buffer_small : buffer_size ≤ int_max) where
    abbrev receiving : List ℕ → W → ℤ × List ℕ × ℤ × W
    receiving buffer w = receive_data w buffer buffer_size

    abbrev got : List ℕ → StoreResult → W → StoreResult
    got buffer r w = record r {
      bytes_received = u64 (r.bytes_received + cast_u32 (receiving buffer w).0);
    }

    Writing-received :
        (buffer : List ℕ) (r : StoreResult) (w : W)
        → Receiving r w
        → let a = receiving buffer w in
          is_zero a.0 ≡ false
          → is_bad_receive a.0 buffer_size ≡ false
          → Writing a.1 (cast_u32 a.0) (start + r.bytes_received) 0 (got buffer r w) a.3
    Writing-received buffer r w e some_bytes good =
        let a = receiving buffer w in
        let (inside, chunk, moved) = receive_bytes w buffer buffer_size some_bytes good in
        record {
          chunk = chunk ∙ ap (λ (t : ℕ). take (cast_u32 a.0) (drop t stream)) e.where_taken;
          inside = omega (arith, inside, e.where_taken);
          where_written = omega (arith, e.all_written);
          where_received = omega (arith, inside, e.where_taken, small);
          kept = receive_stored w buffer buffer_size ∙ e.kept;
          going = e.going;
          bounded = omega arith;
        }

    receive_loop-next :
        (fuel : ℕ) (buffer : List ℕ) (r : StoreResult) (w : W) (stop : Bool) (r'' : StoreResult)
        (w'' : W)
        → let a = receiving buffer w in
          is_zero a.0 ≡ false
          → is_bad_receive a.0 buffer_size ≡ false
          → write_loop (suc (cast_u32 a.0)) write_file a.1 (cast_u32 a.0) 0 (got buffer r w) a.3
            ≡ some (stop, r'', w'')
          → receive_loop (suc fuel) receive_data write_file buffer_size buffer r w ≡ (
              if stop
              then some (r'', w'')
              else receive_loop fuel receive_data write_file buffer_size a.1 r'' w'')
    unfolding receive_loop
    receive_loop-next fuel buffer r w stop r'' w'' some_bytes good chunk =
        rw (some_bytes, good, chunk)

    -- After a chunk the upload stops, or the loop goes on behind it.
    Uploaded-chunk :
        (fuel : ℕ) (buffer : List ℕ) (r : StoreResult) (w : W)
        → Receiving r w
        → let a = receiving buffer w in
          is_zero a.0 ≡ false
          → is_bad_receive a.0 buffer_size ≡ false
          → Written
              (cast_u32 a.0)
              (start + r.bytes_received)
              (got buffer r w)
              a.3
              (write_loop (suc (cast_u32 a.0)) write_file a.1 (cast_u32 a.0) 0 (got buffer r w) a.3)
          → ((r'' : StoreResult) (w'' : W)
              → Receiving r'' w''
              → taken w < taken w''
              → Uploaded stored stream base start
                  (receive_loop fuel receive_data write_file buffer_size a.1 r'' w''))
          → Uploaded stored stream base start
              (receive_loop (suc fuel) receive_data write_file buffer_size buffer r w)
    Uploaded-chunk fuel buffer r w e some_bytes good chunk go =
        let a = receiving buffer w in
        let (inside, _, moved) = receive_bytes w buffer buffer_size some_bytes good in
        let same : u64 (r.bytes_received + cast_u32 a.0) ≡ r.bytes_received + cast_u32 a.0 =
          omega (arith, inside, e.where_taken, small) in
        let next =
          receive_loop-next fuel buffer r w chunk.stop chunk.r' chunk.w' some_bytes good
            chunk.returns in
        elim (Bool-cases chunk.stop) [
          | inl stopped ↦ record {
            r' = chunk.r';
            w' = chunk.w';
            returns = next ∙ (rw stopped);
            kept = chunk.kept;
            written_le_received = omega (arith, chunk.failed stopped, chunk.same_received, same);
            within = omega (arith, chunk.same_received, same, inside, e.where_taken);
            complete_all = λ h. absurd (ground (arith, chunk.failed stopped));
            receive_kept = λ h. absurd (ground (arith, chunk.failed stopped));
            write_lost = λ h. omega (arith, chunk.failed stopped, chunk.same_received, same);
          }
          | inr on ↦
              let rest =
                go chunk.r' chunk.w'
                  (record {
                    where_taken =
                        omega (
                          arith, chunk.same_taken, moved, e.where_taken, chunk.same_received, same,
                        );
                    all_written = omega (arith, chunk.finished on, chunk.same_received, same);
                    inside = omega (arith, chunk.same_received, same, inside, e.where_taken);
                    kept = chunk.kept;
                    going = (chunk.finished on).1;
                  })
                  (omega (
                    arith,
                    chunk.same_taken,
                    moved,
                    good_receive a.0 buffer_size some_bytes good,
                  )) in
              record {
                r' = rest.r';
                w' = rest.w';
                returns = next ∙ (rw on) ∙ rest.returns;
                kept = rest.kept;
                written_le_received = rest.written_le_received;
                within = rest.within;
                complete_all = rest.complete_all;
                receive_kept = rest.receive_kept;
                write_lost = rest.write_lost;
              }
        ]

    receive_loop-Uploaded :
        (fuel : ℕ) (buffer : List ℕ) (r : StoreResult) (w : W)
        → 0 < buffer_size
        → length stream < fuel + taken w
        → Receiving r w
        → Uploaded stored stream base start
            (receive_loop fuel receive_data write_file buffer_size buffer r w)
    receive_loop-Uploaded zero buffer r w room f e = absurd (omega (arith, e.where_taken, e.inside))
    receive_loop-Uploaded (suc fuel) buffer r w room f e =
        elim (Bool-cases (is_zero (receiving buffer w).0)) [
          | inl end ↦ record {
            r' = r;
            w' = (receiving buffer w).3;
            returns = unfold receive_loop in rw end;
            kept = receive_stored w buffer buffer_size ∙ e.kept;
            written_le_received = omega (arith, e.all_written);
            within = e.inside;
            complete_all = λ h.
                omega
                  (arith, receive_end w buffer buffer_size room end, e.where_taken, e.all_written);
            receive_kept = λ h. e.all_written;
            write_lost = λ h. absurd (ground (arith, e.going));
          }
          | inr some_bytes ↦ elim (Bool-cases (is_bad_receive (receiving buffer w).0 buffer_size)) [
            | inl bad ↦ record {
              r' = record r {
                stage = receive_failed;
                code = (receiving buffer w).0;
                net_errno =
                    if is_negative (receiving buffer w).0 then (receiving buffer w).2 else pos 0;
              };
              w' = (receiving buffer w).3;
              returns = unfold receive_loop in rw (some_bytes, bad);
              kept = receive_stored w buffer buffer_size ∙ e.kept;
              written_le_received = omega (arith, e.all_written);
              within = e.inside;
              complete_all = λ h. absurd (ground arith);
              receive_kept = λ h. e.all_written;
              write_lost = λ h. absurd (ground arith);
            }
            | inr good ↦
                let a = receiving buffer w in
                let s = Writing-received buffer r w e some_bytes good in
                let bounds = good_receive a.0 buffer_size some_bytes good in
                Uploaded-chunk fuel buffer r w e some_bytes good
                  (write_loop-Written (suc (cast_u32 a.0)) a.1 (cast_u32 a.0)
                    (start + r.bytes_received) 0 (got buffer r w) a.3 (omega arith)
                    (omega (arith, bounds)) s)
                  (λ r'' w'' e' more. receive_loop-Uploaded fuel a.1 r'' w'' room (omega arith) e')
          ]
        ]

-- Over callbacks that keep their contract, with a buffer of 1 to INT_MAX bytes, an upload returns once
-- it may receive more often than the peer has bytes left to send. The file then holds what it held
-- before and exactly the first `bytes_written` bytes of those; completion is reported only when all of
-- the stream is in the file, a failed receive loses nothing that was received, and a failed write is
-- reported with fewer bytes written than received.
pub store_stream-Uploaded :
    {W : Type 0} (receive_data : ReceiveData W) (write_file : WriteFile W) (stream : List ℕ)
    (fuel : ℕ) (buffer : List ℕ) (buffer_size : ℕ) (w : W)
    (contract : StoreContract receive_data write_file stream)
    → length stream < 2 ^ 64
    → 0 < buffer_size
    → buffer_size ≤ int_max
    → contract.taken w ≤ length stream
    → length stream < fuel + contract.taken w
    → Uploaded contract.stored stream
        (contract.stored w)
        (contract.taken w)
        (store_stream fuel (some receive_data) (some write_file) valid buffer buffer_size w)
store_stream-Uploaded receive_data write_file stream fuel buffer buffer_size w contract small room
      bounded inside enough =
    rw entered (
      receive_loop-Uploaded receive_data write_file stream (contract.stored w) (contract.taken w)
        contract small buffer_size bounded fuel buffer store_start w room enough
        (record {
          where_taken = omega arith;
          all_written = refl;
          inside = omega arith;
          kept = sym (append-nil (contract.stored w));
          going = refl;
        }))
  where
    entered :
        store_stream fuel (some receive_data) (some write_file) valid buffer buffer_size w
        ≡ receive_loop fuel receive_data write_file buffer_size buffer store_start w
    entered = unfold store_stream in ground arith
