-- ===== src/Cmd/Server/Framing.antt =====
-- What `receive_command` takes from a stream.
use vitacompanion_vitadeck.Prelude.{
  ℕ, zero, suc, ◌+◌, ◌-◌, ◌≤◌, ◌<◌, ◌≡◌, refl, sym, ap, ◌∙◌, ◌⊎◌, Bool, true, false, not, ◌&&◌,
  some, [], ◌++◌, arith, ltb, ◌==◌, Bool-cases, inl, inr, ℤ, is_negative, cast_u32, Text, length,
  length-append, length-slice, take, drop, take-append-take-drop, drop-drop,
}
use vitacompanion_vitadeck.Cmd.Os.{Os}
use vitacompanion_vitadeck.Cmd.Server.{
  Received, failed, command, framed, has_newline, receive_loop, receive_command,
}

-- The documented behaviour of sceNetRecv on the command socket: it delivers the next bytes of what
-- the peer sends, at most as many as asked for, and 0 only behind the last one.
pub record RecvContract {W : Type 0} (os : Os W) (sockfd : ℤ) (stream : Text) : Type 0 where
  pub taken : W → ℕ
  pub recv_bytes :
      (w : W) (asked : ℕ)
      → let a = os.recv sockfd asked w in
        is_negative a.0 ≡ false
        → (cast_u32 a.0 ≤ asked)
          × (taken w + cast_u32 a.0 ≤ length stream)
          × (take (cast_u32 a.0) a.1 ≡ take (cast_u32 a.0) (drop (taken w) stream))
          × (taken a.2 ≡ taken w + cast_u32 a.0)
  pub recv_end :
      (w : W) (asked : ℕ)
      → 0 < asked
      → is_negative (os.recv sockfd asked w).0 ≡ false
      → cast_u32 (os.recv sockfd asked w).0 ≡ 0
      → taken w ≡ length stream

-- A framed command: the bytes of the stream from `start` on, complete when it has a line feed, when
-- the stream is over, or when it fills the buffer, and then it is too long without a line feed.
pub record Framed (capacity start : ℕ) (stream cmd : Text) (too_long : Bool) : Type 0 where
  pub prefix : cmd ≡ take (length cmd) (drop start stream)
  pub bounded : length cmd ≤ capacity
  pub complete :
      (has_newline cmd ≡ true) ⊎ (start + length cmd ≡ length stream) ⊎ (length cmd ≡ capacity)
  pub too_long_eq : too_long ≡ (length cmd == capacity && not (has_newline cmd))

-- The outcome of the loop: a failure is that of the last receive, which has left the world as it is.
abbrev pub IsFramed : {W : Type 0} → Os W → ℤ → ℕ → ℕ → Text → Received × W → Type 0
IsFramed {W} os sockfd capacity start stream (failed e, w) =
    (before : W) × (asked : ℕ) × (is_negative e ≡ true)
    × ((os.recv sockfd asked before).0 ≡ e)
    × ((os.recv sockfd asked before).2 ≡ w)
IsFramed os sockfd capacity start stream (command cmd too_long, w) =
    Framed capacity start stream cmd too_long

module _ {W : Type 0} (os : Os W) (sockfd : ℤ) (stream : Text)
    (contract : RecvContract os sockfd stream) (capacity start : ℕ) where
  open contract use {taken, recv_bytes, recv_end}

  record Using (used : Text) (w : W) : Type 0 where
    prefix : used ≡ take (length used) (drop start stream)
    where_taken : taken w ≡ start + length used
    bounded : length used ≤ capacity

  abbrev answer : Text → W → ℤ × Text × W
  answer used w = os.recv sockfd (capacity - length used) w

  abbrev used_next : Text → W → Text
  used_next used w = used ++ take (cast_u32 (answer used w).0) (answer used w).1

  Using-next :
      (used : Text) (w : W)
      → Using used w
      → is_negative (answer used w).0 ≡ false
      → Using (used_next used w) (answer used w).2
        × (length (used_next used w) ≡ length used + cast_u32 (answer used w).0)
  Using-next used w u good =
      let a = answer used w in
      let n = cast_u32 a.0 in
      let (asked, inside, chunk, moved) = recv_bytes w (capacity - length used) good in
      let size : length (used_next used w) ≡ length used + n =
        length-append used (take n a.1)
        ∙ ap (λ (t : ℕ). length used + t)
            (ap length chunk ∙ length-slice stream (taken w) n inside) in
      (
        record {
          prefix =
              ap (λ t. used ++ t)
                (chunk
                  ∙ ap (λ (t : ℕ). take n (drop t stream)) u.where_taken
                  ∙ ap (λ t. take n t)
                      (sym (drop-drop (length used) start (start + length used) stream refl)))
              ∙ ap (λ t. t ++ take n (drop (length used) (drop start stream))) u.prefix
              ∙ take-append-take-drop (length used) n (length used + n) (drop start stream) refl
              ∙ ap (λ (t : ℕ). take t (drop start stream)) (sym size);
          where_taken = omega (arith, moved, u.where_taken, size);
          bounded = omega (arith, size, asked, u.bounded);
        },
        size,
      )

  receive_loop-next :
      (fuel : ℕ) (used : Text) (w : W)
      → ltb (length used) capacity ≡ true
      → is_negative (answer used w).0 ≡ false
      → (cast_u32 (answer used w).0 == 0) ≡ false
      → has_newline (used_next used w) ≡ false
      → receive_loop os (suc fuel) sockfd capacity used w
        ≡ receive_loop os fuel sockfd capacity (used_next used w) (answer used w).2
  unfolding receive_loop
  receive_loop-next fuel used w room good some_bytes open_line =
      rw (room, good, some_bytes, open_line)

  receive_loop-Framed :
      (fuel : ℕ) (used : Text) (w : W)
      → capacity < fuel + length used
      → Using used w
      → (r : Received × W) × (receive_loop os fuel sockfd capacity used w ≡ some r)
        × IsFramed os sockfd capacity start stream r
  receive_loop-Framed zero used w f u = absurd (omega (arith, u.bounded))
  receive_loop-Framed (suc fuel) used w f u = elim (Bool-cases (ltb (length used) capacity)) [
    | inr full ↦ (
      (framed capacity used, w),
      unfold receive_loop in rw full,
      record {
        prefix = u.prefix;
        bounded = u.bounded;
        complete = inr (inr (ground (arith, u.bounded)));
        too_long_eq = refl;
      },
    )
    | inl room ↦ elim (Bool-cases (is_negative (answer used w).0)) [
      | inl bad ↦ (
        (failed (answer used w).0, (answer used w).2),
        unfold receive_loop in rw (room, bad),
        (w, capacity - length used, bad, refl, refl),
      )
      | inr good ↦ elim (Bool-cases (cast_u32 (answer used w).0 == 0)) [
        | inl over ↦ (
          (framed capacity used, (answer used w).2),
          unfold receive_loop in rw (room, good, over),
          record {
            prefix = u.prefix;
            bounded = u.bounded;
            complete = inr (
                inl (
                  omega (
                    arith,
                    recv_end w (capacity - length used) (ground arith) good (ground arith),
                    u.where_taken,
                  )));
            too_long_eq = refl;
          },
        )
        | inr some_bytes ↦
            let (next, size) = Using-next used w u good in
            elim (Bool-cases (has_newline (used_next used w))) [
              | inl newline ↦ (
                (framed capacity (used_next used w), (answer used w).2),
                unfold receive_loop in rw (room, good, some_bytes, newline),
                record {
                  prefix = next.prefix;
                  bounded = next.bounded;
                  complete = inl newline;
                  too_long_eq = refl;
                },
              )
              | inr open_line ↦
                  let (r, e, framed') =
                    receive_loop-Framed fuel (used_next used w) (answer used w).2
                      (ground (arith, size)) next in
                  (r, receive_loop-next fuel used w room good some_bytes open_line ∙ e, framed')
            ]
      ]
    ]
  ]

-- On a socket that keeps the contract of sceNetRecv the receive loop always returns. It gives a failure
-- only with the negative result of the last receive. Otherwise it has framed a command: an exact prefix
-- of what the peer sends, never longer than the buffer, and complete; it is flagged as too long exactly
-- when it fills the buffer without a line feed.
pub receive_command-Framed :
    {W : Type 0} (os : Os W) (sockfd : ℤ) (stream : Text) (contract : RecvContract os sockfd stream)
    (capacity : ℕ) (w : W)
    → (r : Received × W) × (receive_command os sockfd capacity w ≡ some r)
      × IsFramed os sockfd capacity (contract.taken w) stream r
unfolding receive_command
receive_command-Framed os sockfd stream contract capacity w =
    receive_loop-Framed os sockfd stream contract capacity (contract.taken w) (suc capacity) [] w
      (omega arith) (record { prefix = refl; where_taken = omega arith; bounded = omega arith })
