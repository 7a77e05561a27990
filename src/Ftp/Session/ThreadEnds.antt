-- ===== src/Ftp/Session/ThreadEnds.antt =====
-- Every command keeps the session in order, and the thread of a client ends with nothing held.
use vitacompanion_vitadeck.Prelude.{
  ℕ, zero, suc, ◌+◌, ◌≤◌, ◌<◌, ◌≡◌, refl, inl, inr, Bool, true, false, Bool-cases, Option, none,
  some, List, ℤ, cast_u32, Text, take, replicate, c_string, arith, valid, Yields, Yields-found,
  Yields-map, sign_cases,
}
use vitacompanion_vitadeck.Ftp.Parse.{parse_command_line}
use vitacompanion_vitadeck.Ftp.Session.{receive, delay, System, Session, make}
use vitacompanion_vitadeck.Ftp.Session.Transfers.{named_path, cmd_retr, cmd_stor, cmd_appe}
use vitacompanion_vitadeck.Ftp.Session.Commands.{
  cmd_noop, cmd_user, cmd_pass, cmd_quit, cmd_syst, cmd_pwd, cmd_dele, cmd_mkd, cmd_rnto, cmd_feat,
  cmd_opts,
}
use vitacompanion_vitadeck.Ftp.Session.Dispatch.{
  Function, noop, user, pass, quit, syst, pasv, port, list, pwd, cwd, type, cdup, retr, stor, dele,
  rmd, mkd, rnfr, rnto, size, rest, feat, opts, appe, custom, CustomCommand, get_dispatch_func,
  run_function,
}
use vitacompanion_vitadeck.Ftp.Session.Thread.{serve_command, serve_line, client_loop}
use vitacompanion_vitadeck.Ftp.Session.Resources.{Resource, Goes-le, Ready, Closed, Ends}
use vitacompanion_vitadeck.Ftp.Session.Steps.{idle-Goes, say-Ready}
use vitacompanion_vitadeck.Ftp.Session.ListingEnds.{cmd_list-Closed}
use vitacompanion_vitadeck.Ftp.Session.TransferEnds.{send_file-Closed}
use vitacompanion_vitadeck.Ftp.Session.UploadEnds.{receive_file-Closed}
use vitacompanion_vitadeck.Ftp.Session.CommandEnds.{
  copy-Ready, idle-Ready, cmd_pasv-Ready, cmd_port-Ready, change_cur_path-Ready, cmd_cdup-Ready,
  try_call-Ready, cmd_rmd-Ready, cmd_rnfr-Ready, cmd_size-Ready, cmd_rest-Ready, cmd_type-Ready,
}

-- The commands that use a data connection.
abbrev pub is_transfer : Function → Bool
is_transfer list = true
is_transfer retr = true
is_transfer stor = true
is_transfer appe = true
is_transfer _ = false

-- A custom command returns and keeps the session in order.
abbrev pub IsOrderly : List Resource → (ℕ → Session → Option Session) → Type 0
IsOrderly rs functions =
    (i n : ℕ) (s : Session) → Ready rs n s → Yields (Ready rs n) (functions i s)

-- The system, the custom commands, and what is held besides the session's sockets.
module _ (system : System) (functions : ℕ → Session → Option Session) (customs : List CustomCommand)
    (limit transfer_fuel : ℕ) (rs : List Resource) (room : 1 < system.path_max)
    (ends : Ends system limit) (enough : limit < transfer_fuel)
    (orderly : IsOrderly rs functions) where
  pub from_Closed : (n : ℕ) (o : Option Session) → Yields (Closed rs n) o → Yields (Ready rs n) o
  from_Closed n o y = Yields-map (Closed rs n) (Ready rs n) o (λ s c. c.ready) y

  -- Under these conditions every command returns and keeps the session in order: from `limit` calls
  -- on a receive brings nothing more and a directory has no more entries, a stat of a null pointer
  -- fails, the fuel of a transfer is above `limit`, PATH_MAX is above 1, and the custom commands
  -- return and keep a session in order. Out of a session in order, what the command acquired is
  -- released or is a socket of the session, no accepted data socket is left, and the current directory
  -- is the root or begins with a slash and has another one.
  pub run_function-Ready :
      (func : Function) (n : ℕ) (s : Session)
      → Ready rs n s
      → Yields (Ready rs n) (run_function system functions transfer_fuel func s)
  unfolding run_function cmd_noop cmd_user cmd_pass cmd_quit cmd_syst cmd_pwd cmd_dele cmd_mkd
      cmd_rnto cmd_feat cmd_opts cmd_retr cmd_stor cmd_appe
  run_function-Ready noop n s g = say-Ready system n rs _ s g
  run_function-Ready user n s g = say-Ready system n rs _ s g
  run_function-Ready pass n s g = say-Ready system n rs _ s g
  run_function-Ready quit n s g =
      copy-Ready system n rs _ _ refl refl refl refl refl (say-Ready system n rs _ s g)
  run_function-Ready syst n s g = say-Ready system n rs _ s g
  run_function-Ready pasv n s g = cmd_pasv-Ready system n rs s g
  run_function-Ready port n s g = cmd_port-Ready system n rs s g
  run_function-Ready list n s g =
      from_Closed n _ (cmd_list-Closed system limit transfer_fuel n rs ends enough s g)
  run_function-Ready pwd n s g = say-Ready system n rs _ s g
  run_function-Ready cwd n s g = change_cur_path-Ready system n rs s room g
  run_function-Ready type n s g = cmd_type-Ready system n rs s g
  run_function-Ready cdup n s g = cmd_cdup-Ready system n rs s g
  run_function-Ready retr n s g =
      from_Closed n _ (send_file-Closed system n rs (named_path system s) s g)
  run_function-Ready stor n s g =
      from_Closed n _
        (receive_file-Closed system limit transfer_fuel n rs ends enough (named_path system s) s g)
  run_function-Ready dele n s g =
      try_call-Ready system n rs _ "550 Could not delete the file." "250 File deleted." s refl refl
        g
  run_function-Ready rmd n s g = cmd_rmd-Ready system n rs s g
  run_function-Ready mkd n s g =
      try_call-Ready system n rs _ "550 Could not create the directory." "257 Directory created." s
        refl refl g
  run_function-Ready rnfr n s g = cmd_rnfr-Ready system n rs limit s ends g
  run_function-Ready rnto n s g =
      try_call-Ready system n rs _ "550 Error renaming the file." "250 Rename completed." s refl
        refl g
  run_function-Ready size n s g = cmd_size-Ready system n rs s g
  run_function-Ready rest n s g = cmd_rest-Ready system n rs s g
  run_function-Ready feat n s g =
      say-Ready system n rs _ _
        (say-Ready system n rs _ _ (say-Ready system n rs _ _ (say-Ready system n rs _ s g)))
  run_function-Ready opts n s g = say-Ready system n rs _ s g
  run_function-Ready appe n s g = from_Closed n _ (
      receive_file-Closed system limit transfer_fuel n rs ends enough (named_path system s) _
        (copy-Ready system n rs s _ refl refl refl refl refl g))
  run_function-Ready (custom i) n s g = orderly i n s g

  -- When from `limit` calls on a receive brings nothing more and a directory has no more entries, a
  -- stat of a null pointer fails, the fuel of a transfer is above `limit`, PATH_MAX is above 1 and the
  -- custom commands keep a session in order, LIST, RETR, STOR and APPE return out of a session in
  -- order and leave no data connection: both its sockets are closed, and what the command acquired
  -- (the admission of the transfer, the file or the directory, the buffer) is released.
  pub transfer-Closed :
      (func : Function) (n : ℕ) (s : Session)
      → is_transfer func ≡ true
      → Ready rs n s
      → Yields (Closed rs n) (run_function system functions transfer_fuel func s)
  unfolding run_function cmd_retr cmd_stor cmd_appe
  transfer-Closed list n s is g = cmd_list-Closed system limit transfer_fuel n rs ends enough s g
  transfer-Closed retr n s is g = send_file-Closed system n rs (named_path system s) s g
  transfer-Closed stor n s is g =
      receive_file-Closed system limit transfer_fuel n rs ends enough (named_path system s) s g
  transfer-Closed appe n s is g =
      receive_file-Closed system limit transfer_fuel n rs ends enough (named_path system s) _
        (copy-Ready system n rs s _ refl refl refl refl refl g)
  transfer-Closed _ n s is g = absurd (ground arith)

  pub serve_command-Ready :
      (func : Option Function) (n : ℕ) (s : Session)
      → Ready rs n s
      → Yields
          (λ out. Ready rs n out.1)
          (serve_command system functions customs transfer_fuel func s)
  unfolding serve_command
  serve_command-Ready none n s g = say-Ready system n rs _ s g
  serve_command-Ready (some func) n s g =
      let (s', ran, after) =
        Yields-found (Ready rs n) (run_function system functions transfer_fuel func s)
          (run_function-Ready func n s g) in
      rw (Yields, ran) after

  pub serve_line-Ready :
      (parsed : Option (Text × Text)) (n : ℕ) (s : Session)
      → Ready rs n s
      → Yields
          (λ out. Ready rs n out.1)
          (serve_line system functions customs transfer_fuel parsed s)
  unfolding serve_line
  serve_line-Ready none n s g = say-Ready system n rs _ s g
  serve_line-Ready (some (cmd, args)) n s g =
      serve_command-Ready (get_dispatch_func customs cmd) n _ (
        idle-Ready system n rs delay (record s { recv_cmd_args = args }) refl refl
          (copy-Ready system n rs s (record s { recv_cmd_args = args }) refl refl refl refl refl g))

  pub Ready-le : (m n : ℕ) (s : Session) → m ≤ n → Ready rs n s → Ready rs m s
  Ready-le m n s h g = record { goes = Goes-le system n m rs s h g.goes; no_pasv = g.no_pasv }

  -- The line that a receive of `n_recv` bytes has brought.
  abbrev pub received_line : ℤ → Session → Text
  received_line n_recv s =
      c_string (take (cast_u32 n_recv) (system.stored s.trace (replicate 512 0)))

  pub client_loop-Ready :
      (fuel n : ℕ) (s : Session)
      → 0 < fuel
      → limit < fuel + n
      → Ready rs n s
      → Yields (Ready rs n) (client_loop system functions customs transfer_fuel fuel s)
  unfolding client_loop
  client_loop-Ready zero n s some_fuel more g = absurd (omega arith)
  client_loop-Ready (suc fuel) n s some_fuel more g =
      let call = receive s.ctrl_sockfd 511 in
      let s' = make system call s in
      let a = system.answer s.trace call in
      let g' : Ready rs (suc n) s' = record {
        goes = idle-Goes system n rs call s refl refl g.goes;
        no_pasv = (unfold make in g.no_pasv);
      } in
      elim (sign_cases a) [
        | inl end ↦ rw (Yields, end) (Ready-le n (suc n) s' (omega arith) g')
        | inr (inr (m, failed)) ↦ rw (Yields, failed) (Ready-le n (suc n) s' (omega arith) g')
        | inr (inl (m, found)) ↦
            let early : n < limit =
              let l = g.goes.longer in
              ground (arith, ends.receive_ends s.trace s.ctrl_sockfd 511, found) in
            let line = received_line a s' in
            let (out, served, after) =
              Yields-found (λ out. Ready rs (suc n) out.1)
                (serve_line system functions customs transfer_fuel
                  (parse_command_line (some line) valid 16 valid) s')
                (serve_line-Ready (parse_command_line (some line) valid 16 valid) (suc n) s' g') in
            rw (Yields, found, served)
              (elim (Bool-cases out.0) [
                | inl ended ↦ rw ended (Ready-le n (suc n) out.1 (omega arith) after)
                | inr going_on ↦
                    let (end, went, at_end) =
                      Yields-found (Ready rs (suc n))
                        (client_loop system functions customs transfer_fuel fuel out.1)
                        (client_loop-Ready fuel (suc n) out.1 (omega arith) (omega arith) after) in
                    rw (going_on, went) (Ready-le n (suc n) end (omega arith) at_end)
              ])
      ]
