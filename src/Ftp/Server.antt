-- ===== src/Ftp/Server.antt =====
-- libftpvita/ftpvita.c: the thread that accepts clients, and what ends or aborts all of them. The
-- calls are recorded with their answers, the latest first.
pub mod Handover
pub mod Shutdown
use vitacompanion_vitadeck.Prelude.{
  ℕ, zero, suc, ◌+◌, Bool, true, false, not, ◌&&◌, ◌||◌, Option, none, some, List, [], ◌∷◌, ltb,
  ◌==◌, if◌then◌else◌, ℤ, pos, negsuc, is_negative, u32, Text, codes, length, ◌++◌,
}
use vitacompanion_vitadeck.Ftp.Retr.{is_zero}
use vitacompanion_vitadeck.Ftp.Session.{eol}

pub data Call : Type 0 where
  new_listener : Call
  bind listen accept : ℤ → Call
  close_server_socket : ℤ → Call
  set_timeouts : ℤ → Call
  send : ℤ → Text → Call
  close_socket : ℤ → Call
  allocate_client : Call
  free_client : ℤ → Call
  create_thread : ℕ → Call
  delete_thread : ℤ → Call
  add_client delete_client : ℤ → Call
  -- the thread, with the block and the socket of its client
  start_thread : ℤ → ℤ → ℤ → Call

pub data Event : Type 0 where
  event : Call → ℤ → Event

abbrev pub Trace : Type 0
Trace = List Event

abbrev pub System : Type 0
System = Trace → Call → ℤ

-- SERVER_START_PENDING
abbrev pub start_pending : ℤ
start_pending = pos 0x7fffffff

abbrev pub is_pending : ℤ → Bool
is_pending (pos n) = n == 0x7fffffff
is_pending (negsuc n) = false

-- The variables of the server thread. Another thread may close the socket meanwhile, which makes
-- `accept` fail.
pub record Server : Type 0 where
  pub server_sockfd : ℤ
  pub server_start_status : ℤ
  pub next_client_num : ℕ
  pub trace : Trace

module _ (system : System) where
  abbrev pub answer : Call → Server → ℤ
  answer call s = system s.trace call

  abbrev pub make : Call → Server → Server
  make call s = record s { trace = event call (system s.trace call) ∷ s.trace }

  -- The reply, and the calls that give a client's resources back.
  abbrev pub reject : ℤ → Text → Server → Server
  reject fd message s = make (send fd message) s

  -- From the created thread on, with the socket, the block and the thread.
  pub start_client : ℤ → ℤ → ℤ → Server → Server
  start_client fd block thid s =
      let added = answer (add_client block) s in
      let s = make (add_client block) s in
      let started = answer (start_thread thid block fd) s in
      let s' = make (start_thread thid block fd) s in
      if is_zero added
      then make (free_client block) (
          make (close_socket fd)
            (make (delete_thread thid) (reject fd (eol (codes "421 Too many FTP clients.")) s)))
      else if is_negative started
      then make (free_client block)
          (make (close_socket fd) (make (delete_thread thid) (make (delete_client block) s')))
      else s'

  -- From the accepted socket on.
  pub accept_client : ℤ → Server → Server
  accept_client fd s =
      let s = make (set_timeouts fd) s in
      let client_num = s.next_client_num in
      let s = record s { next_client_num = u32 (suc client_num) } in
      let block = answer allocate_client s in
      let s = make allocate_client s in
      let thid = answer (create_thread client_num) s in
      let s' = make (create_thread client_num) s in
      if is_zero block
      then make (close_socket fd) (reject fd (eol (codes "421 Server is out of memory.")) s)
      else if is_negative thid
      then make (free_client block) (
          make (close_socket fd)
            (reject fd (eol (codes "421 Server cannot create a client thread.")) s'))
      else start_client fd block thid s'

  -- `while (1)`. `none` is the end of the fuel.
  pub accept_loop : ℕ → Server → Option Server
  accept_loop zero s = none
  accept_loop (suc fuel) s =
      let fd = answer (accept s.server_sockfd) s in
      let s' = make (accept s.server_sockfd) s in
      let rest = accept_loop fuel (accept_client fd s') in if is_negative fd then some s' else rest

  -- `server_start_status = ret`, with the close of the socket.
  abbrev pub fail_start : ℤ → Server → Server
  fail_start ret s = record (make (close_server_socket s.server_sockfd) s) {
    server_sockfd = negsuc 0;
    server_start_status = ret;
  }

  -- `exit_thread`
  abbrev pub exit_thread : Server → Server
  exit_thread s =
      if is_pending s.server_start_status then record s { server_start_status = negsuc 0 } else s

  abbrev pub exit_loop : Option Server → Option Server
  exit_loop none = none
  exit_loop (some s) = some (exit_thread s)

  -- From the open socket on.
  pub listen_for_clients : ℕ → Server → Option Server
  listen_for_clients fuel s =
      let fd = s.server_sockfd in
      let bound = answer (bind fd) s in
      let s = make (bind fd) s in
      let listening = answer (listen fd) s in
      let s' = make (listen fd) s in
      if is_negative bound
      then some (exit_thread (fail_start bound s))
      else if is_negative listening
      then some (exit_thread (fail_start listening s'))
      else exit_loop (accept_loop fuel (record s' { server_start_status = pos 0 }))

  pub server_thread : ℕ → Server → Option Server
  server_thread fuel s =
      let fd = answer new_listener s in
      let s = record (make new_listener s) { server_sockfd = fd } in
      if is_negative fd
      then some (exit_thread (record s { server_start_status = fd }))
      else listen_for_clients fuel s

-- What the shutdown and `ftpvita_abort_clients` read of a client in the list.
pub record Client : Type 0 where
  pub thid : ℤ
  pub ctrl_sockfd : ℤ
  pub data_sockfd : ℤ
  pub pasv_sockfd : ℤ
  pub has_data_connection : Bool
  pub is_passive : Bool

-- The calls of the shutdown and its writes to the shared variables. An abort may be of the receives only.
pub data EndCall : Type 0 where
  lock_list unlock_list : EndCall
  abort_receive abort : ℤ → EndCall
  detach : ℤ → EndCall
  -- `client_list = NULL; number_clients = 0; transfer_active = 0;`
  empty_list zero_clients clear_transfer : EndCall
  wait_thread delete_thread : ℤ → EndCall

abbrev pub abort_data : Client → List EndCall
abort_data c =
    if not c.has_data_connection
    then []
    else (if is_negative c.data_sockfd then [] else abort c.data_sockfd ∷ [])
      ++ (if c.is_passive && not (is_negative c.pasv_sockfd) then abort c.pasv_sockfd ∷ [] else [])

-- The loop over the list, up to MAX_CLIENTS: the calls, and the threads to wait for.
pub detach_clients : ℕ → List Client → List EndCall × List ℤ
detach_clients zero clients = ([], [])
detach_clients (suc left) [] = ([], [])
detach_clients (suc left) (c ∷ clients) =
    let (calls, thids) = detach_clients left clients in
    (abort_receive c.ctrl_sockfd ∷ (abort_data c ++ (detach c.thid ∷ calls)), c.thid ∷ thids)

pub join_threads : List ℤ → List EndCall
join_threads [] = []
join_threads (thid ∷ thids) = wait_thread thid ∷ EndCall.delete_thread thid ∷ join_threads thids

-- With the mutex's identifier, the calls of `client_list_thread_end`.
pub client_list_thread_end : ℤ → List Client → List EndCall
client_list_thread_end client_list_mtx clients =
    let (calls, thids) = detach_clients 8 clients in
    if is_negative client_list_mtx
    then []
    else lock_list
      ∷ (calls ++ (empty_list ∷ zero_clients ∷ clear_transfer ∷ unlock_list ∷ join_threads thids))

abbrev pub abort_if_open : ℤ → List EndCall
abort_if_open sockfd = if is_negative sockfd then [] else abort sockfd ∷ []

pub abort_all : List Client → List EndCall
abort_all [] = []
abort_all (c ∷ clients) =
    abort_if_open c.ctrl_sockfd
    ++ (abort_if_open c.data_sockfd ++ (abort_if_open c.pasv_sockfd ++ abort_all clients))

-- The result of `ftpvita_abort_clients` and its calls, with that of the lock.
pub ftpvita_abort_clients : ℤ → ℤ → List Client → ℤ × List EndCall
ftpvita_abort_clients client_list_mtx locked clients =
    if is_negative client_list_mtx
    then (pos 0, [])
    else if is_negative locked
    then (negsuc 0, lock_list ∷ [])
    else (pos (length clients), lock_list ∷ (abort_all clients ++ (unlock_list ∷ [])))
