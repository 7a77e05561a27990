-- ===== src/Ftp/Session.antt =====
-- libftpvita/ftpvita.c: the session of a client, the calls it makes of the system, and its sockets.
-- The calls are recorded with their answers, the latest first, and what the system answers may
-- depend on all of them. The names of sockets and the lines of the logs are left out.
pub mod Listing
pub mod Transfers
pub mod Connections
pub mod Commands
pub mod Dispatch
pub mod Thread
pub mod Resources
pub mod Steps
pub mod ListingEnds
pub mod TransferEnds
pub mod UploadEnds
pub mod CommandEnds
pub mod ThreadEnds
pub mod Release
use vitacompanion_vitadeck.Prelude.{
  ℕ, zero, suc, ◌+◌, ◌-◌, ◌^◌, Bool, true, false, Option, none, some, List, [], ◌∷◌, ◌++◌, ◌==◌,
  ◌||◌, not, if◌then◌else◌, ℤ, pos, negsuc, is_negative, cast_u32, u32, String, Text, codes, length,
  drop,
}

pub data Call : Type 0 where
  -- the sockets
  new_socket : Call
  set_timeouts : ℤ → Call
  bind listen socket_name : ℤ → Call
  connect : ℤ → ℕ → ℕ → Call
  accept : ℤ → Call
  receive : ℤ → ℕ → Call
  send : ℤ → List ℕ → Call
  close_socket : ℤ → Call
  -- the files
  open_file : Option Text → Bool → Call
  open_append : Option Text → Call
  seek_end : ℤ → Call
  seek_to : ℤ → ℕ → Call
  read_file : ℤ → ℕ → Call
  write_file : ℤ → List ℕ → Call
  close_file : ℤ → Call
  open_directory : Option Text → Call
  read_directory close_directory : ℤ → Call
  get_stat remove_file remove_directory make_directory : Option Text → Call
  rename_file : Text → Option Text → Call
  -- the memory, the clock, and `client_begin_transfer` and `client_end_transfer`
  allocate : ℕ → Call
  free_memory : ℤ → Call
  local_time delay : Call
  begin_transfer end_transfer : Call
  -- the block of the client, `client_list_delete`, and the exit that deletes the thread or not
  allocate_client leave_list free_client exit_delete_thread exit_thread : Call

pub data Event : Type 0 where
  event : Call → ℤ → Event

abbrev pub Trace : Type 0
Trace = List Event

-- `SceIoStat`, as far as it is used, and an entry of a directory.
pub record Stat : Type 0 where
  pub is_directory : Bool
  pub st_size : ℕ
  pub year : ℕ
  pub month : ℕ
  pub day : ℕ
  pub hour : ℕ
  pub minute : ℕ

-- What the system answers behind the calls so far: the result of a call, and what it stores: the
-- buffer, the network error, the port that was picked, a stat, a name, the year.
pub record System : Type 0 where
  pub answer : Trace → Call → ℤ
  pub stored : Trace → List ℕ → List ℕ
  pub net_errno : Trace → ℤ
  pub picked_port : Trace → ℕ
  pub stat : Trace → Stat
  pub entry_name : Trace → Text
  pub year_now : Trace → ℕ
  -- `sceNetInetPton`, PATH_MAX, and the variables that the sessions only read
  pub inet_address : Text → ℕ
  pub path_max : ℕ
  pub vita_addr : ℕ
  pub file_buf_size : ℕ
  pub devices : List (Bool × Text)

pub data DataConnection : Type 0 where
  no_connection active passive : DataConnection

-- `ftpvita_client_info_t`, and the calls made. `data_sockaddr` is an address and a port.
pub record Session : Type 0 where
  pub ctrl_sockfd : ℤ
  pub data_sockfd : ℤ
  pub pasv_sockfd : ℤ
  pub data_con_type : DataConnection
  pub data_sockaddr : ℕ × ℕ
  pub cur_path : Text
  pub rename_path : Text
  pub recv_cmd_args : Text
  pub restore_point : ℕ
  pub quit_requested : Bool
  pub trace : Trace

-- FTPVITA_EOL at the end of a literal, and of any text.
abbrev pub eol : Text → Text
eol s = s ++ (13 ∷ 10 ∷ [])

abbrev pub is_active : DataConnection → Bool
is_active active = true
is_active _ = false

abbrev pub is_none : DataConnection → Bool
is_none no_connection = true
is_none _ = false

module _ (system : System) where
  -- A call, and its answer.
  unfoldable pub make : Call → Session → Session
  make call s = record s { trace = event call (system.answer s.trace call) ∷ s.trace }

  abbrev pub answer : Call → Session → ℤ
  answer call s = system.answer s.trace call

  unfoldable pub client_send_ctrl_msg : Text → Session → Session
  client_send_ctrl_msg message s = make (send s.ctrl_sockfd message) s

  -- The loop over the bytes left; a socket accepts at most the bytes it is given. `none` is the end
  -- of the fuel.
  unfoldable pub send_all_loop : ℕ → ℤ → List ℕ → Session → Option (ℤ × Session)
  send_all_loop zero sockfd bytes s = none
  send_all_loop (suc fuel) sockfd [] s = some (pos 0, s)
  send_all_loop (suc fuel) sockfd (b ∷ bytes) s =
      let sent = answer (send sockfd (b ∷ bytes)) s in
      let s' = make (send sockfd (b ∷ bytes)) s in
      let rest = send_all_loop fuel sockfd (drop (cast_u32 sent) (b ∷ bytes)) s' in
      if is_negative sent
      then some (sent, s')
      else if cast_u32 sent == 0
      then some (negsuc 0, s')
      else rest

  -- The fuel is one more than the bytes.
  unfoldable pub client_send_all : ℤ → List ℕ → Session → Option (ℤ × Session)
  client_send_all sockfd bytes s = send_all_loop (suc (length bytes)) sockfd bytes s

  -- The socket that carries the data.
  abbrev pub transfer_sockfd : Session → ℤ
  transfer_sockfd s = if is_active s.data_con_type then s.data_sockfd else s.pasv_sockfd

  unfoldable pub client_send_data_msg : Text → Session → Option (ℤ × Session)
  client_send_data_msg message s = client_send_all (transfer_sockfd s) message s

  unfoldable pub close_ctrl_sockfd : Session → Session
  close_ctrl_sockfd s =
      if is_negative s.ctrl_sockfd
      then s
      else record (make (close_socket s.ctrl_sockfd) s) { ctrl_sockfd = negsuc 0 }

  unfoldable pub close_data_sockfd : Session → Session
  close_data_sockfd s =
      if is_negative s.data_sockfd
      then s
      else record (make (close_socket s.data_sockfd) s) { data_sockfd = negsuc 0 }

  unfoldable pub close_pasv_sockfd : Session → Session
  close_pasv_sockfd s =
      if is_negative s.pasv_sockfd
      then s
      else record (make (close_socket s.pasv_sockfd) s) { pasv_sockfd = negsuc 0 }

  unfoldable pub client_close_data_connection : Session → Session
  client_close_data_connection s = record (close_pasv_sockfd (close_data_sockfd s)) {
    data_con_type = no_connection;
  }

  -- `configure_socket_io_timeout`, its two calls taken as one.
  unfoldable pub configure_socket_io_timeout : ℤ → Session → Session
  configure_socket_io_timeout sockfd s =
      if is_negative sockfd then s else make (set_timeouts sockfd) s

  -- The active side of `client_open_data_connection`.
  abbrev pub connect_data : Session → ℤ × Session
  connect_data s =
      let call = connect s.data_sockfd s.data_sockaddr.0 s.data_sockaddr.1 in
      (answer call s, make call s)

  -- The passive side of `client_open_data_connection`.
  abbrev pub accept_data : Session → ℤ × Session
  accept_data s =
      let fd = answer (accept s.data_sockfd) s in
      let s = record (make (accept s.data_sockfd) s) { pasv_sockfd = fd } in
      (if is_negative fd then fd else pos 0, configure_socket_io_timeout fd s)

  unfoldable pub client_open_data_connection : Session → ℤ × Session
  client_open_data_connection s =
      if is_none s.data_con_type || is_negative s.data_sockfd
      then (negsuc 0, s)
      else if is_active s.data_con_type
      then connect_data s
      else accept_data s
