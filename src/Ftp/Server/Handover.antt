-- ===== src/Ftp/Server/Handover.antt =====
-- What the server thread does with each client it accepts, and how it ends.
use vitacompanion_vitadeck.Prelude.{
  ℕ, zero, suc, ◌+◌, ◌≤◌, ◌<◌, ◌≡◌, ◌⊎◌, inl, inr, refl, true, Bool-cases, List, [], ◌∷◌,
  if◌then◌else◌, ℤ, pos, is_negative, length, arith, Yields, Yields-found, ◌∙◌,
}
use vitacompanion_vitadeck.Ftp.Retr.{is_zero}
use vitacompanion_vitadeck.Ftp.Server.{
  Call, new_listener, bind, listen, accept, close_server_socket, close_socket, allocate_client,
  free_client, create_thread, start_thread, event, Trace, System, Server, make, fail_start,
  exit_thread, start_client, accept_client, accept_loop, listen_for_clients, server_thread,
}

pub data Resource : Type 0 where
  listener connection block thread : ℤ → Resource

-- Resources are counted with a weight for each.
abbrev pub Weight : Type 0
Weight = Resource → ℕ

abbrev pub opened : ℤ → ℕ → ℕ
opened a w = if is_negative a then 0 else w

abbrev pub acquires : Weight → Call → ℤ → ℕ
acquires w new_listener a = opened a (w (listener a))
acquires w (accept fd) a = opened a (w (connection a))
acquires w allocate_client a = if is_zero a then 0 else w (block a)
acquires w (create_thread n) a = opened a (w (thread a))
acquires w _ a = 0

-- A thread that was started owns itself, the block and the socket of its client.
abbrev pub gives_up : Weight → Call → ℤ → ℕ
gives_up w (close_server_socket fd) a = w (listener fd)
gives_up w (close_socket fd) a = w (connection fd)
gives_up w (free_client address) a = w (block address)
gives_up w (Call.delete_thread thid) a = w (thread thid)
gives_up w (start_thread thid address fd) a =
    opened a (w (thread thid) + (w (block address) + w (connection fd)))
gives_up w _ a = 0

unfoldable pub acquired : Weight → Trace → ℕ
acquired w [] = 0
acquired w (event call a ∷ trace) = acquires w call a + acquired w trace

unfoldable pub given_up : Weight → Trace → ℕ
given_up w [] = 0
given_up w (event call a ∷ trace) = gives_up w call a + given_up w trace

abbrev pub total : Weight → List Resource → ℕ
total w [] = 0
total w (r ∷ rs) = w r + total w rs

-- What was acquired was given up or handed over, or is one of `rs`.
abbrev pub Keeps : List Resource → Server → Type 0
Keeps rs s = (w : Weight) → given_up w s.trace + total w rs ≡ acquired w s.trace

module _ (system : System) (rs : List Resource) where
  -- A client that was accepted is handed over to a thread, or all that was made for it is given up.
  accept_client-Keeps :
      (fd : ℤ) (s : Server) → Keeps (connection fd ∷ rs) s → Keeps rs (accept_client system fd s)
  unfolding accept_client start_client acquired given_up
  accept_client-Keeps fd s k w = let h = k w in ground arith

  accept_client-rest :
      (fd : ℤ) (s : Server)
      → ((accept_client system fd s).server_sockfd ≡ s.server_sockfd)
        × ((accept_client system fd s).server_start_status ≡ s.server_start_status)
        × (length s.trace ≤ length (accept_client system fd s).trace)
  unfolding accept_client start_client
  accept_client-rest fd s = (ground arith, ground arith, ground arith)

-- Behind the loop the listener is still there.
pub record Looped (rs : List Resource) (status sockfd : ℤ) (s : Server) : Type 0 where
  pub kept : Keeps rs s
  pub same_status : s.server_start_status ≡ status
  pub same_sockfd : s.server_sockfd ≡ sockfd

-- Once the listening socket is closed, `accept` fails: from `limit` calls on.
abbrev pub IsShut : System → ℕ → Type 0
IsShut system limit =
    (trace : Trace) (fd : ℤ) → limit ≤ length trace → is_negative (system trace (accept fd)) ≡ true

-- How the thread ends: the start has succeeded, and the listener is left to the shutdown, or it has
-- failed with a negative status, and nothing is left.
pub record Ended (rs : List Resource) (s : Server) : Type 0 where
  pub decided : (s.server_start_status ≡ pos 0) ⊎ (is_negative s.server_start_status ≡ true)
  pub kept :
      Keeps (if is_negative s.server_start_status then rs else listener s.server_sockfd ∷ rs) s

module _ (system : System) (limit : ℕ) (shut : IsShut system limit) (rs : List Resource) where
  accept_loop-Looped :
      (fuel n : ℕ) (s : Server)
      → 0 < fuel
      → limit < fuel + n
      → n ≤ length s.trace
      → Keeps rs s
      → Yields (Looped rs s.server_start_status s.server_sockfd) (accept_loop system fuel s)
  unfolding accept_loop acquired given_up
  accept_loop-Looped zero n s some_fuel more long k = absurd (omega arith)
  accept_loop-Looped (suc fuel) n s some_fuel more long k =
      let call = accept s.server_sockfd in
      let fd = system s.trace call in
      let s' = make system call s in
      elim (Bool-cases (is_negative fd)) [
        | inl closed ↦ rw closed (record {
          kept = λ w. let h = k w in ground (arith, closed);
          same_status = refl;
          same_sockfd = refl;
        })
        | inr open_fd ↦
            let early : n < limit =
              let h = shut s.trace s.server_sockfd in ground (arith, h, open_fd) in
            let served =
              accept_client-Keeps system rs fd s' (λ w. let h = k w in ground (arith, open_fd)) in
            let (sockfd, status, longer) = accept_client-rest system rs fd s' in
            let (end, went, at_end) =
              Yields-found _ (accept_loop system fuel (accept_client system fd s')) (
                accept_loop-Looped fuel (suc n) (accept_client system fd s') (omega arith)
                  (omega arith) (omega (arith, longer, long)) served) in
            rw (open_fd, went)
              (record {
                kept = at_end.kept;
                same_status = at_end.same_status ∙ status;
                same_sockfd = at_end.same_sockfd ∙ sockfd;
              })
      ]

module _ (system : System) (limit : ℕ) (shut : IsShut system limit) (rs : List Resource) where
  -- A start that failed with a negative status.
  fail_start-Ended :
      (ret : ℤ) (s : Server)
      → is_negative ret ≡ true
      → Keeps (listener s.server_sockfd ∷ rs) s
      → Ended rs (exit_thread system (fail_start system ret s))
  unfolding acquired given_up
  fail_start-Ended ret s failed k = record {
    decided = inr (ground (arith, failed));
    kept = λ w. let h = k w in ground (arith, failed);
  }

  -- A start that succeeded.
  exit-Ended :
      (fd : ℤ) (s : Server)
      → Looped (listener fd ∷ rs) (pos 0) fd s
      → Ended rs (exit_thread system s)
  exit-Ended fd s l = record {
    decided = rw l.same_status (inl refl);
    kept = λ w. let h = l.kept w in rw (l.same_status, l.same_sockfd) h;
  }

  listen_for_clients-Ended :
      (fuel : ℕ) (s : Server)
      → limit < fuel
      → Keeps (listener s.server_sockfd ∷ rs) s
      → Yields (Ended rs) (listen_for_clients system fuel s)
  unfolding listen_for_clients acquired given_up
  listen_for_clients-Ended fuel s more k =
      let fd = s.server_sockfd in
      let s' = make system (bind fd) s in
      let s'' = make system (listen fd) s' in
      elim (Bool-cases (is_negative (system s.trace (bind fd)))) [
        | inl unbound ↦ rw unbound (
            fail_start-Ended (system s.trace (bind fd)) s' unbound
              (λ w. let h = k w in ground arith))
        | inr bound ↦ elim (Bool-cases (is_negative (system s'.trace (listen fd)))) [
          | inl deaf ↦
              rw (bound, deaf)
                (fail_start-Ended (system s'.trace (listen fd)) s'' deaf
                  (λ w. let h = k w in ground arith))
          | inr listening ↦
              let on = record s'' { server_start_status = pos 0 } in
              let (end, went, at_end) =
                Yields-found (Looped (listener fd ∷ rs) (pos 0) fd) (accept_loop system fuel on) (
                  accept_loop-Looped system limit shut (listener fd ∷ rs) fuel 0 on (omega arith)
                    (omega arith) (omega arith) (λ w. let h = k w in ground arith)) in
              rw (bound, listening, went) (exit-Ended fd end at_end)
        ]
      ]

-- However the system answers, the server thread returns once its listening socket is closed or the
-- start has failed. The status it leaves is then 0 or negative, never the pending one. Each socket it
-- accepted, each block and each thread it made was given up, or handed over with a started thread;
-- its own socket is left open exactly when the start succeeded.
pub server_thread-Ended :
    (system : System) (limit fuel : ℕ) (rs : List Resource) (s : Server)
    → IsShut system limit
    → limit < fuel
    → Keeps rs s
    → Yields (Ended rs) (server_thread system fuel s)
unfolding server_thread acquired given_up
server_thread-Ended system limit fuel rs s shut more k =
    let fd = system s.trace new_listener in
    let s' = record (make system new_listener s) { server_sockfd = fd } in
    elim (Bool-cases (is_negative fd)) [
      | inl failed ↦ rw failed (record {
        decided = inr (ground (arith, failed));
        kept = λ w. let h = k w in ground (arith, failed);
      })
      | inr open_fd ↦ rw open_fd (
          listen_for_clients-Ended system limit shut rs fuel s' more
            (λ w. let h = k w in ground (arith, open_fd)))
    ]
