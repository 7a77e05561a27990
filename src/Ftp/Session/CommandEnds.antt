-- ===== src/Ftp/Session/CommandEnds.antt =====
-- The other commands return; PASV and PORT replace the data connection without losing a socket.
use mathlib.Core.Path.{subst}
use vitacompanion_vitadeck.Prelude.{
  ℕ, ◌<◌, ◌≡◌, ◌≢◌, refl, sym, inl, inr, ◌||◌, Bool-cases, Option, none, some, Option-cases, List,
  ◌∷◌, ◌==◌, ℤ, is_negative, cast_u32, String, Text, codes, arith, valid, Yields, peek,
}
use vitacompanion_vitadeck.Ftp.Parse.{parse_rest_offset, parse_port_tuple}
use vitacompanion_vitadeck.Ftp.Paths.{Reply}
use vitacompanion_vitadeck.Ftp.Paths.Directory.{
  IsDirectory, dir_up-IsDirectory, Probed, untouched, not_opened, visited, cmd_cwd-IsDirectory,
}
use vitacompanion_vitadeck.Ftp.Session.{
  Call, bind, listen, socket_name, set_timeouts, open_directory, close_directory, get_stat,
  remove_directory, System, Session, eol, make, close_data_sockfd, configure_socket_io_timeout,
}
use vitacompanion_vitadeck.Ftp.Session.Connections.{
  give_up, listen_passively, open_data_socket, cmd_pasv, connect_actively, cmd_port,
}
use vitacompanion_vitadeck.Ftp.Session.Transfers.{named_path}
use vitacompanion_vitadeck.Ftp.Session.Commands.{
  cmd_type, cmd_size, cmd_rest, cwd_reply, probe_directory, leave_directory, change_cur_path,
  cmd_cdup, try_call, cmd_rmd, remember_path, cmd_rnfr,
}
use vitacompanion_vitadeck.Ftp.Session.Resources.{
  Resource, directory, releases, acquires, acquired, released, Ready, Ends, make-Ready,
}
use vitacompanion_vitadeck.Ftp.Session.Steps.{
  say-Ready, close_connection-Closed, close_data_sockfd-Goes,
}

module _ (system : System) (n : ℕ) (rs : List Resource) where
  -- Only the sockets, the current directory and the calls count.
  pub copy-Ready :
      (s s' : Session)
      → s'.ctrl_sockfd ≡ s.ctrl_sockfd
      → s'.data_sockfd ≡ s.data_sockfd
      → s'.pasv_sockfd ≡ s.pasv_sockfd
      → s'.cur_path ≡ s.cur_path
      → s'.trace ≡ s.trace
      → Ready rs n s
      → Ready rs n s'
  copy-Ready s s' c d p cur trace g = record {
    goes = record {
      holds = λ w. rw (c, d, p, trace) (g.goes.holds w);
      directory = subst (λ path. IsDirectory path) (sym cur) g.goes.directory;
      longer = rw trace g.goes.longer;
    };
    no_pasv = rw p g.no_pasv;
  }

  -- A call that acquires and releases nothing.
  pub idle-Ready :
      (call : Call) (s : Session)
      → releases call ≡ none
      → acquires call (system.answer s.trace call) ≡ none
      → Ready rs n s
      → Ready rs n (make system call s)
  idle-Ready call s none_released none_acquired g =
      make-Ready system n call rs rs s (λ w. rw (none_released, none_acquired) refl) g

  -- The new socket becomes the session's, which has none left.
  open_data_socket-Ready : (s : Session) → Ready rs n s → Ready rs n (open_data_socket system s)
  unfolding make acquired released
  open_data_socket-Ready s g =
      let c = close_connection-Closed system n rs s g.goes in
      record {
        goes = record {
          holds = λ w. let h = c.ready.goes.holds w in ground (arith, c.no_data);
          directory = c.ready.goes.directory;
          longer = omega (arith, c.ready.goes.longer);
        };
        no_pasv = c.ready.no_pasv;
      }

  timeouts-Ready :
      (sockfd : ℤ) (s : Session)
      → Ready rs n s
      → Ready rs n (configure_socket_io_timeout system sockfd s)
  unfolding configure_socket_io_timeout
  timeouts-Ready sockfd s g = elim (Bool-cases (is_negative sockfd)) [
    | inl bad ↦ rw bad g
    | inr good ↦ rw good (idle-Ready (set_timeouts sockfd) s refl refl g)
  ]

  give_up-Ready : (reply : Text) (s : Session) → Ready rs n s → Ready rs n (give_up system reply s)
  give_up-Ready reply s g = say-Ready system n rs (eol reply) (close_data_sockfd system s) (record {
    goes = close_data_sockfd-Goes system n rs s g.goes;
    no_pasv = (unfold close_data_sockfd make in ground (arith, g.no_pasv));
  })

  listen_passively-Ready : (s : Session) → Ready rs n s → Ready rs n (listen_passively system s)
  unfolding listen_passively
  listen_passively-Ready s g =
      let fd = s.data_sockfd in
      let s' = make system (bind fd) s in
      let s'' = make system (listen fd) s' in
      let s''' = make system (socket_name fd) s'' in
      let g' = idle-Ready (bind fd) s refl refl g in
      let g'' = idle-Ready (listen fd) s' refl refl g' in
      let g''' = idle-Ready (socket_name fd) s'' refl refl g'' in
      elim (Bool-cases (is_negative (system.answer s.trace (bind fd)))) [
        | inl unbound ↦
            rw unbound (give_up-Ready (codes "425 Can't bind passive connection.") s' g')
        | inr bound ↦ elim (Bool-cases (is_negative (system.answer s'.trace (listen fd)))) [
          | inl deaf ↦
              rw (bound, deaf)
                (give_up-Ready (codes "425 Can't listen for passive connection.") s'' g'')
          | inr listening ↦
              elim (Bool-cases (is_negative (system.answer s''.trace (socket_name fd)))) [
                | inl unnamed ↦
                    rw (bound, listening, unnamed)
                      (give_up-Ready (codes "425 Can't inspect passive connection.") s''' g''')
                | inr named ↦
                    rw (bound, listening, named)
                      (copy-Ready _ _ refl refl refl refl refl (say-Ready system n rs _ s''' g'''))
              ]
        ]
      ]

  pub cmd_pasv-Ready : (s : Session) → Ready rs n s → Ready rs n (cmd_pasv system s)
  unfolding cmd_pasv
  cmd_pasv-Ready s g =
      let s' = open_data_socket system s in
      let g' = open_data_socket-Ready s g in
      elim (Bool-cases (is_negative s'.data_sockfd)) [
        | inl failed ↦ rw failed (say-Ready system n rs _ s' g')
        | inr there ↦
            let r = timeouts-Ready s'.data_sockfd s' g' in
            rw there (listen_passively-Ready _ (copy-Ready _ _ refl refl refl refl refl r))
      ]

  connect_actively-Ready :
      (tuple : List ℕ) (s : Session) → Ready rs n s → Ready rs n (connect_actively system tuple s)
  unfolding connect_actively
  connect_actively-Ready tuple s g =
      let s' = open_data_socket system s in
      let g' = open_data_socket-Ready s g in
      elim (Bool-cases (is_negative s'.data_sockfd)) [
        | inl failed ↦ rw failed (say-Ready system n rs _ s' g')
        | inr there ↦
            let r = timeouts-Ready s'.data_sockfd s' g' in
            rw there (say-Ready system n rs _ _ (copy-Ready _ _ refl refl refl refl refl r))
      ]

  pub cmd_port-Ready : (s : Session) → Ready rs n s → Ready rs n (cmd_port system s)
  unfolding cmd_port
  cmd_port-Ready s g = elim (Option-cases (parse_port_tuple (some s.recv_cmd_args) valid)) [
    | inl wrong ↦ rw (cmd_port, wrong) (say-Ready system n rs _ s g)
    | inr (tuple, read) ↦ rw (cmd_port, read) (connect_actively-Ready tuple s g)
  ]

  -- The directory that CWD opens does not stay open.
  Probed-Ready :
      (reply : Reply) (s s' : Session)
      → Probed (probe_directory system) (leave_directory system) s reply s'
      → Ready rs n s
      → Ready rs n s'
  Probed-Ready _ s _ (untouched reply) g = g
  Probed-Ready _ s _ (not_opened path missing) g =
      idle-Ready (open_directory path) s refl (rw missing refl) g
  Probed-Ready _ s _ (visited path there) g =
      let pd = system.answer s.trace (open_directory path) in
      make-Ready system n (close_directory pd) (directory pd ∷ rs) rs
        (make system (open_directory path) s) (λ w. omega arith)
        (make-Ready system n (open_directory path) rs (directory pd ∷ rs) s
          (λ w. rw there (omega arith)) g)

  -- CWD answers, and the current directory stays one.
  pub change_cur_path-Ready :
      (s : Session)
      → 1 < system.path_max
      → Ready rs n s
      → Yields (Ready rs n) (change_cur_path system s)
  unfolding change_cur_path
  change_cur_path-Ready s room g =
      let (reply, path, s', found, is, same, probed) =
        cmd_cwd-IsDirectory (probe_directory system) (leave_directory system) system.path_max
          s.recv_cmd_args s.cur_path s room g.goes.directory in
      let g' = Probed-Ready reply s s' probed g in
      rw (Yields, found)
        (say-Ready system n rs (cwd_reply reply) (record s' { cur_path = path })
          (record {
            goes = record { holds = g'.goes.holds; directory = is; longer = g'.goes.longer };
            no_pasv = g'.no_pasv;
          }))

  pub cmd_cdup-Ready : (s : Session) → Ready rs n s → Yields (Ready rs n) (cmd_cdup system s)
  unfolding cmd_cdup
  cmd_cdup-Ready s g =
      let (path, up, is) = dir_up-IsDirectory s.cur_path g.goes.directory in
      rw (Yields, up)
        (say-Ready system n rs _ (record s { cur_path = path })
          (record {
            goes = record { holds = g.goes.holds; directory = is; longer = g.goes.longer };
            no_pasv = g.no_pasv;
          }))

  pub try_call-Ready :
      (call : Call) (refused done : String) (s : Session)
      → releases call ≡ none
      → acquires call (system.answer s.trace call) ≡ none
      → Ready rs n s
      → Ready rs n (try_call system call refused done s)
  try_call-Ready call refused done s r a g =
      let g' = idle-Ready call s r a g in
      elim (Bool-cases (is_negative (system.answer s.trace call))) [
        | inl failed ↦ rw failed (say-Ready system n rs _ _ g')
        | inr went ↦ rw went (say-Ready system n rs _ _ g')
      ]

  pub cmd_rmd-Ready : (s : Session) → Ready rs n s → Ready rs n (cmd_rmd system s)
  unfolding cmd_rmd
  cmd_rmd-Ready s g =
      let call = remove_directory (named_path system s) in
      let a = system.answer s.trace call in
      let g' = idle-Ready call s refl refl g in
      elim (Bool-cases (is_negative a)) [
        | inr went ↦ rw went (say-Ready system n rs _ _ g')
        | inl failed ↦ elim (Bool-cases (cast_u32 a == 0x8001005A)) [
          | inl full ↦ rw (failed, full) (say-Ready system n rs _ _ g')
          | inr other ↦ rw (failed, other) (say-Ready system n rs _ _ g')
        ]
      ]

  remember_path-Ready :
      (path : Option Text) (s : Session)
      → path ≢ none
      → Ready rs n s
      → Yields (Ready rs n) (remember_path system path s)
  remember_path-Ready none s somewhere g = absurd (somewhere refl)
  remember_path-Ready (some path) s somewhere g =
      say-Ready system n rs _ (record s { rename_path = path })
        (copy-Ready s (record s { rename_path = path }) refl refl refl refl refl g)

  pub cmd_rnfr-Ready :
      (limit : ℕ) (s : Session)
      → Ends system limit
      → Ready rs n s
      → Yields (Ready rs n) (cmd_rnfr system s)
  unfolding cmd_rnfr
  cmd_rnfr-Ready limit s ends g =
      let path = named_path system s in
      let call = get_stat path in
      let s' = make system call s in
      let g' = idle-Ready call s refl refl g in
      elim (Bool-cases (is_negative (system.answer s.trace call))) [
        | inl missing ↦ rw missing (say-Ready system n rs _ s' g')
        | inr there ↦ rw there (
            remember_path-Ready path s'
              (λ nowhere. let h = ends.null_stat s.trace in ground (arith, nowhere, there, h)) g')
      ]

  pub cmd_size-Ready : (s : Session) → Ready rs n s → Ready rs n (cmd_size system s)
  unfolding cmd_size
  cmd_size-Ready s g =
      let call = get_stat (named_path system s) in
      let g' = idle-Ready call s refl refl g in
      elim (Bool-cases (is_negative (system.answer s.trace call))) [
        | inl missing ↦ rw missing (say-Ready system n rs _ _ g')
        | inr there ↦ rw there (say-Ready system n rs _ _ g')
      ]

  pub cmd_rest-Ready : (s : Session) → Ready rs n s → Ready rs n (cmd_rest system s)
  unfolding cmd_rest
  cmd_rest-Ready s g = elim (Option-cases (parse_rest_offset (some s.recv_cmd_args) valid)) [
    | inl wrong ↦ rw (cmd_rest, wrong) (say-Ready system n rs _ s g)
    | inr (restore_point, read) ↦
        rw (cmd_rest, read)
          (say-Ready system n rs _ _
            (copy-Ready s (record s { restore_point = restore_point }) refl refl refl refl refl g))
  ]

  pub cmd_type-Ready : (s : Session) → Ready rs n s → Ready rs n (cmd_type system s)
  unfolding cmd_type
  cmd_type-Ready s g =
      elim (Bool-cases (peek s.recv_cmd_args == b'A' || peek s.recv_cmd_args == b'I')) [
        | inl known ↦ rw known (say-Ready system n rs _ s g)
        | inr other ↦ rw other (say-Ready system n rs _ s g)
      ]
