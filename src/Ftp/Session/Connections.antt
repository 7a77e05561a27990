-- ===== src/Ftp/Session/Connections.antt =====
-- libftpvita/ftpvita.c: PASV and PORT.
use vitacompanion_vitadeck.Prelude.{
  ℕ, ◌+◌, ◌*◌, ◌/◌, ◌^◌, none, some, List, ◌++◌, if◌then◌else◌, is_negative, u8, u16, Text, codes,
  get_or, decimal_text, valid,
}
use vitacompanion_vitadeck.Ftp.Parse.{parse_port_tuple}
use vitacompanion_vitadeck.Ftp.Session.{
  new_socket, bind, listen, socket_name, active, passive, System, Session, eol, make, answer,
  client_send_ctrl_msg, close_data_sockfd, client_close_data_connection,
  configure_socket_io_timeout,
}

-- The six bytes of the reply: those of the address and of the port, the lowest first.
abbrev pub passive_reply : ℕ → ℕ → Text
passive_reply address port = eol (
    codes "227 Entering Passive Mode ("
    ++ decimal_text (u8 address)
    ++ codes ","
    ++ decimal_text (u8 (address / 2 ^ 8))
    ++ codes ","
    ++ decimal_text (u8 (address / 2 ^ 16))
    ++ codes ","
    ++ decimal_text (u8 (address / 2 ^ 24))
    ++ codes ","
    ++ decimal_text (u8 port)
    ++ codes ","
    ++ decimal_text (u8 (port / 2 ^ 8))
    ++ codes ")")

-- The dotted address of the tuple, and its port.
abbrev pub tuple_address : List ℕ → Text
tuple_address tuple =
    decimal_text (get_or tuple 0 0)
    ++ codes "."
    ++ decimal_text (get_or tuple 1 0)
    ++ codes "."
    ++ decimal_text (get_or tuple 2 0)
    ++ codes "."
    ++ decimal_text (get_or tuple 3 0)

abbrev pub tuple_port : List ℕ → ℕ
tuple_port tuple = u16 (get_or tuple 5 0 + get_or tuple 4 0 * 256)

module _ (system : System) where
  -- The close of the listener and the reply of a failed PASV.
  abbrev pub give_up : Text → Session → Session
  give_up reply s = client_send_ctrl_msg system (eol reply) (close_data_sockfd system s)

  -- From the new socket on.
  unfoldable pub listen_passively : Session → Session
  listen_passively s =
      let fd = s.data_sockfd in
      let bound = answer system (bind fd) s in
      let s = make system (bind fd) s in
      let listening = answer system (listen fd) s in
      let s' = make system (listen fd) s in
      let named = answer system (socket_name fd) s' in
      let s'' = make system (socket_name fd) s' in
      if is_negative bound
      then give_up (codes "425 Can't bind passive connection.") s
      else if is_negative listening
      then give_up (codes "425 Can't listen for passive connection.") s'
      else if is_negative named
      then give_up (codes "425 Can't inspect passive connection.") s''
      else record (client_send_ctrl_msg system
          (passive_reply system.vita_addr (system.picked_port s''.trace)) s'') {
            data_con_type = passive;
          }

  -- The close of the old connection, and a new socket.
  abbrev pub open_data_socket : Session → Session
  open_data_socket s =
      let s = client_close_data_connection system s in
      record (make system new_socket s) { data_sockfd = answer system new_socket s }

  unfoldable pub cmd_pasv : Session → Session
  cmd_pasv s =
      let s = open_data_socket s in
      if is_negative s.data_sockfd
      then client_send_ctrl_msg system (eol (codes "425 Can't open passive connection.")) s
      else listen_passively
          (record (configure_socket_io_timeout system s.data_sockfd s) { data_sockaddr = (0, 0) })

  unfoldable pub connect_actively : List ℕ → Session → Session
  connect_actively tuple s =
      let s = open_data_socket s in
      if is_negative s.data_sockfd
      then client_send_ctrl_msg system (eol (codes "425 Can't open active connection.")) s
      else client_send_ctrl_msg system (eol (codes "200 PORT command successful!"))
          (record (configure_socket_io_timeout system s.data_sockfd s) {
            data_sockaddr = (system.inet_address (tuple_address tuple), tuple_port tuple);
            data_con_type = active;
          })

  unfoldable pub cmd_port : Session → Session
  cmd_port s = elim (parse_port_tuple (some s.recv_cmd_args) valid) [
    | none ↦ client_send_ctrl_msg system (eol (codes "501 Invalid PORT parameters.")) s
    | some tuple ↦ connect_actively tuple s
  ]
