-- ===== src/Ftp/Session/Thread.antt =====
-- libftpvita/ftpvita.c: the thread of a client.
use vitacompanion_vitadeck.Prelude.{
  ℕ, zero, suc, Bool, false, Option, none, some, List, if◌then◌else◌, pos, negsuc, cast_u32, Text,
  codes, take, replicate, valid, c_string,
}
use vitacompanion_vitadeck.Ftp.Parse.{parse_command_line}
use vitacompanion_vitadeck.Ftp.Retr.{is_zero}
use vitacompanion_vitadeck.Ftp.Session.{
  receive, delay, leave_list, free_client, exit_delete_thread, exit_thread, System, Session, eol,
  make, answer, client_send_ctrl_msg, close_ctrl_sockfd, client_close_data_connection,
}
use vitacompanion_vitadeck.Ftp.Session.Dispatch.{
  Function, CustomCommand, get_dispatch_func, run_function,
}

-- The system, the functions of the custom commands and their table, and the fuel of a transfer.
module _ (system : System) (functions : ℕ → Session → Option Session) (customs : List CustomCommand)
    (transfer_fuel : ℕ) where
  -- The call of the function that was found, and whether the session has ended.
  unfoldable pub serve_command : Option Function → Session → Option (Bool × Session)
  serve_command none s =
      some (
        false,
        client_send_ctrl_msg system (eol (codes "502 Sorry, command not implemented. :(")) s,
      )
  serve_command (some func) s = elim (run_function system functions transfer_fuel func s) [
    | none ↦ none
    | some s ↦ some (s.quit_requested, s)
  ]

  -- From the parsed line on.
  unfoldable pub serve_line : Option (Text × Text) → Session → Option (Bool × Session)
  serve_line none s = some (false, client_send_ctrl_msg system (eol (codes "500 Empty command.")) s)
  serve_line (some (cmd, args)) s =
      serve_command (get_dispatch_func customs cmd)
        (make system delay (record s { recv_cmd_args = args }))

  -- The loop over the lines. `none` is the end of the fuel.
  unfoldable pub client_loop : ℕ → Session → Option Session
  client_loop zero s = none
  client_loop (suc fuel) s =
      let n_recv = answer system (receive s.ctrl_sockfd 511) s in
      let s' = make system (receive s.ctrl_sockfd 511) s in
      let line = c_string (take (cast_u32 n_recv) (system.stored s'.trace (replicate 512 0))) in
      let served : Option Session =
        elim (serve_line (parse_command_line (some line) valid 16 valid) s') [
          | none ↦ none
          | some (ended, s'') ↦ let rest = client_loop fuel s'' in if ended then some s'' else rest
        ] in
      elim n_recv [ pos zero ↦ some s' | pos (suc n) ↦ served | negsuc n ↦ some s' ]

  -- What follows the loop.
  unfoldable pub end_client : Session → Session
  end_client s =
      let delete_own_thread = answer system leave_list s in
      let s =
        client_close_data_connection system (close_ctrl_sockfd system (make system leave_list s)) in
      let s = make system free_client s in
      if is_zero delete_own_thread
      then make system exit_thread s
      else make system exit_delete_thread s

  unfoldable pub client_thread : ℕ → Session → Option Session
  client_thread fuel s =
      elim (client_loop fuel
        (client_send_ctrl_msg system (eol (codes "220 FTPVita Server ready.")) s)) [
          | none ↦ none
          | some s ↦ some (end_client s)
        ]
