-- ===== src/Cmd/Service.antt =====
-- src/cmd.c: the command thread with its accept loop, its start and its end. The calls are recorded
-- with their answers, the latest first. What the thread does for an accepted client is one call here,
-- that of `serve_client`. Another thread that empties a slot meanwhile makes `accept` fail.
pub mod Sockets
pub mod Start
pub mod Tests
use vitacompanion_vitadeck.Prelude.{
  ℕ, zero, suc, Bool, true, false, Option, none, some, List, [], ◌∷◌, ◌==◌, not, if◌then◌else◌, ℤ,
  pos, negsuc, is_negative,
}
use vitacompanion_vitadeck.Ftp.Retr.{is_zero}

pub data Call : Type 0 where
  new_socket : Call
  bind listen accept : ℤ → Call
  serve : ℤ → Call
  close_socket : ℤ → Call

pub data Event : Type 0 where
  event : Call → ℤ → Event

abbrev pub Trace : Type 0
Trace = List Event

-- The results of the calls, and `run && net_connected`.
pub record System : Type 0 where
  pub answer : Trace → Call → ℤ
  pub is_running : Trace → Bool

-- CMD_START_PENDING
abbrev pub is_pending : ℤ → Bool
is_pending (pos n) = n == 0x7fffffff
is_pending (negsuc n) = false

pub record Service : Type 0 where
  pub loader_sockfd : ℤ
  pub active_client_sockfd : ℤ
  pub loader_start_status : ℤ
  pub trace : Trace

-- `close_socket_slot` of the two slots.
pub close_active : (Call → Service → Service) → Service → Service
close_active make s =
    if is_negative s.active_client_sockfd
    then s
    else record (make (close_socket s.active_client_sockfd) s) { active_client_sockfd = negsuc 0 }

pub close_loader : (Call → Service → Service) → Service → Service
close_loader make s =
    if is_negative s.loader_sockfd
    then s
    else record (make (close_socket s.loader_sockfd) s) { loader_sockfd = negsuc 0 }

module _ (system : System) where
  abbrev pub make : Call → Service → Service
  make call s = record s { trace = event call (system.answer s.trace call) ∷ s.trace }

  -- What the loop does with an accepted client.
  pub handle_client : ℤ → Service → Service
  handle_client sockfd s =
      close_active make (make (serve sockfd) (record s { active_client_sockfd = sockfd }))

  -- `while (run && net_connected)`. `none` is the end of the fuel.
  pub accept_loop : ℕ → Service → Option Service
  accept_loop zero s = none
  accept_loop (suc fuel) s =
      let sockfd = system.answer s.trace (accept s.loader_sockfd) in
      let s' = make (accept s.loader_sockfd) s in
      let rest = accept_loop fuel (handle_client sockfd s') in
      if not (system.is_running s.trace)
      then some s
      else if is_negative sockfd
      then some s'
      else rest

  -- `exit_thread`
  pub exit_thread : Service → Service
  exit_thread s =
      let status = if is_pending s.loader_start_status then negsuc 0 else s.loader_start_status in
      close_loader make (close_active make (record s { loader_start_status = status }))

  abbrev pub exit_loop : Option Service → Option Service
  exit_loop none = none
  exit_loop (some s) = some (exit_thread s)

  -- From the open socket on.
  pub listen_for_commands : ℕ → Service → Option Service
  listen_for_commands fuel s =
      let bound = system.answer s.trace (bind s.loader_sockfd) in
      let s = make (bind s.loader_sockfd) s in
      let listening = system.answer s.trace (listen s.loader_sockfd) in
      let s' = make (listen s.loader_sockfd) s in
      if is_negative bound
      then some (exit_thread (record s { loader_start_status = bound }))
      else if is_negative listening
      then some (exit_thread (record s' { loader_start_status = listening }))
      else exit_loop (accept_loop fuel (record s' { loader_start_status = pos 0 }))

  pub cmd_thread : ℕ → Service → Option Service
  cmd_thread fuel s =
      let sockfd = system.answer s.trace new_socket in
      let s = record (make new_socket s) { loader_sockfd = sockfd } in
      if is_negative sockfd
      then some (exit_thread (record s { loader_start_status = sockfd }))
      else listen_for_commands fuel s
