-- ===== src/Cmd/Service/Sockets.antt =====
-- How the command thread ends: no socket is left open.
use vitacompanion_vitadeck.Prelude.{
  ℕ, zero, suc, ◌+◌, ◌≤◌, ◌<◌, ◌≡◌, ◌∙◌, ◌⊎◌, inl, inr, refl, true, false, not, ◌||◌, Bool-cases,
  [], ◌∷◌, if◌then◌else◌, ℤ, pos, is_negative, length, arith, Yields, Yields-found,
}
use vitacompanion_vitadeck.Cmd.Service.{
  Call, new_socket, bind, listen, accept, close_socket, event, Trace, System, Service, close_active,
  close_loader, make, handle_client, accept_loop, exit_thread, listen_for_commands, cmd_thread,
}

-- Sockets are counted with a weight for each.
abbrev pub Weight : Type 0
Weight = ℤ → ℕ

abbrev pub opened : ℤ → ℕ → ℕ
opened a w = if is_negative a then 0 else w

abbrev pub acquires : Weight → Call → ℤ → ℕ
acquires w new_socket a = opened a (w a)
acquires w (accept fd) a = opened a (w a)
acquires w _ a = 0

abbrev pub releases : Weight → Call → ℕ
releases w (close_socket fd) = w fd
releases w _ = 0

unfoldable pub acquired : Weight → Trace → ℕ
acquired w [] = 0
acquired w (event call a ∷ trace) = acquires w call a + acquired w trace

unfoldable pub released : Weight → Trace → ℕ
released w [] = 0
released w (event call a ∷ trace) = releases w call + released w trace

-- Every socket that was opened was closed, or is in one of the two slots.
abbrev pub Holds : Service → Type 0
Holds s =
    (w : Weight)
    → released w s.trace
        + (opened s.loader_sockfd (w s.loader_sockfd)
            + opened s.active_client_sockfd (w s.active_client_sockfd))
      ≡ acquired w s.trace

-- Between two clients the slot of the client is empty.
pub record Ready (status : ℤ) (s : Service) : Type 0 where
  pub holds : Holds s
  pub no_client : is_negative s.active_client_sockfd ≡ true
  pub same_status : s.loader_start_status ≡ status

-- How the thread ends: with both slots empty, every socket closed, and its start decided.
pub record Ended (s : Service) : Type 0 where
  pub all_closed : (w : Weight) → released w s.trace ≡ acquired w s.trace
  pub no_loader : is_negative s.loader_sockfd ≡ true
  pub no_client : is_negative s.active_client_sockfd ≡ true
  pub decided : (s.loader_start_status ≡ pos 0) ⊎ (is_negative s.loader_start_status ≡ true)

-- From `limit` calls on the thread is told to stop, or its socket is closed.
abbrev pub IsShut : System → ℕ → Type 0
IsShut system limit =
    (trace : Trace) (fd : ℤ)
    → limit ≤ length trace
    → not (system.is_running trace) || is_negative (system.answer trace (accept fd)) ≡ true

module _ (system : System) where
  exit_thread-Ended :
      (s : Service)
      → Holds s
      → (s.loader_start_status ≡ pos 0) ⊎ (is_negative s.loader_start_status ≡ true)
      → Ended (exit_thread system s)
  unfolding exit_thread close_active close_loader acquired released
  exit_thread-Ended s holds decided = record {
    all_closed = λ w. let h = holds w in ground arith;
    no_loader = ground arith;
    no_client = ground arith;
    decided = ground (arith, decided);
  }

  -- The socket that was accepted is closed behind the client.
  handle_client-Ready :
      (sockfd : ℤ) (s : Service)
      → is_negative sockfd ≡ false
      → is_negative s.active_client_sockfd ≡ true
      → ((w : Weight)
          → released w s.trace + (opened s.loader_sockfd (w s.loader_sockfd) + w sockfd)
            ≡ acquired w s.trace)
      → Ready s.loader_start_status (handle_client system sockfd s)
  unfolding handle_client close_active acquired released
  handle_client-Ready sockfd s there free holds = record {
    holds = λ w. let h = holds w in ground (arith, there);
    no_client = ground (arith, there);
    same_status = ground (arith, there);
  }

  handle_client-longer :
      (sockfd : ℤ) (s : Service) → length s.trace ≤ length (handle_client system sockfd s).trace
  unfolding handle_client close_active
  handle_client-longer sockfd s = ground arith

module _ (system : System) (limit : ℕ) (shut : IsShut system limit) where
  accept_loop-Ready :
      (fuel n : ℕ) (s : Service)
      → 0 < fuel
      → limit < fuel + n
      → n ≤ length s.trace
      → Ready s.loader_start_status s
      → Yields (Ready s.loader_start_status) (accept_loop system fuel s)
  unfolding accept_loop acquired released
  accept_loop-Ready zero n s some_fuel more long r = absurd (omega arith)
  accept_loop-Ready (suc fuel) n s some_fuel more long r =
      let call = accept s.loader_sockfd in
      let sockfd = system.answer s.trace call in
      let s' = make system call s in
      elim (Bool-cases (system.is_running s.trace)) [
        | inr told ↦ rw told r
        | inl running ↦ elim (Bool-cases (is_negative sockfd)) [
          | inl closed ↦
              rw (running, closed)
                (record {
                  holds = λ w. let h = r.holds w in ground (arith, closed);
                  no_client = r.no_client;
                  same_status = refl;
                })
          | inr there ↦
              let early : n < limit =
                let h = shut s.trace s.loader_sockfd in ground (arith, h, running, there) in
              let served =
                handle_client-Ready system sockfd s' there r.no_client
                  (λ w. let h = r.holds w in let f = r.no_client in ground (arith, there)) in
              let longer = handle_client-longer system sockfd s' in
              let next = handle_client system sockfd s' in
              let (end, went, at_end) = Yields-found _ (accept_loop system fuel next) (
                accept_loop-Ready fuel (suc n) next (omega arith) (omega arith)
                  (omega (arith, longer, long))
                  (record {
                    holds = served.holds;
                    no_client = served.no_client;
                    same_status = refl;
                  })) in
              rw (running, there, went)
                (record {
                  holds = at_end.holds;
                  no_client = at_end.no_client;
                  same_status = at_end.same_status ∙ served.same_status;
                })
        ]
      ]

  listen_for_commands-Ended :
      (fuel : ℕ) (s : Service)
      → limit < fuel
      → is_negative s.active_client_sockfd ≡ true
      → Holds s
      → Yields Ended (listen_for_commands system fuel s)
  unfolding listen_for_commands acquired released
  listen_for_commands-Ended fuel s more free holds =
      let s' = make system (bind s.loader_sockfd) s in
      let bound = system.answer s.trace (bind s.loader_sockfd) in
      let s'' = make system (listen s.loader_sockfd) s' in
      let listening = system.answer s'.trace (listen s.loader_sockfd) in
      elim (Bool-cases (is_negative bound)) [
        | inl unbound ↦ rw unbound (
            exit_thread-Ended system (record s' { loader_start_status = bound })
              (λ w. let h = holds w in ground arith) (inr unbound))
        | inr good ↦ elim (Bool-cases (is_negative listening)) [
          | inl deaf ↦
              rw (good, deaf)
                (exit_thread-Ended system (record s'' { loader_start_status = listening })
                  (λ w. let h = holds w in ground arith) (inr deaf))
          | inr on ↦
              let start = record s'' { loader_start_status = pos 0 } in
              let (end, went, at_end) =
                Yields-found (Ready (pos 0)) (accept_loop system fuel start) (
                  accept_loop-Ready fuel 0 start (omega arith) (omega arith) (omega arith) (record {
                    holds = λ w. let h = holds w in ground arith;
                    no_client = free;
                    same_status = refl;
                  })) in
              rw (good, on, went)
                (exit_thread-Ended system end at_end.holds (inl at_end.same_status))
        ]
      ]

-- However the system answers, the command thread returns once it is told to stop or its socket is
-- closed. Then every socket that it opened or accepted is closed and both slots are empty, and the
-- status of its start is 0 or negative, never the pending one.
pub cmd_thread-Ended :
    (system : System) (limit fuel : ℕ) (s : Service)
    → IsShut system limit
    → limit < fuel
    → is_negative s.loader_sockfd ≡ true
    → is_negative s.active_client_sockfd ≡ true
    → Holds s
    → Yields Ended (cmd_thread system fuel s)
unfolding cmd_thread acquired released
cmd_thread-Ended system limit fuel s shut more no_loader free holds =
    let sockfd = system.answer s.trace new_socket in
    let s' = record (make system new_socket s) { loader_sockfd = sockfd } in
    elim (Bool-cases (is_negative sockfd)) [
      | inl failed ↦ rw failed (
          exit_thread-Ended system (record s' { loader_start_status = sockfd })
            (λ w. let h = holds w in ground (arith, failed)) (inr failed))
      | inr there ↦ rw there (
          listen_for_commands-Ended system limit shut fuel s' more free
            (λ w. let h = holds w in ground (arith, there)))
    ]
