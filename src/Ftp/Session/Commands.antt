-- ===== src/Ftp/Session/Commands.antt =====
-- libftpvita/ftpvita.c: the commands that use no data connection.
use vitacompanion_vitadeck.Prelude.{
  ◌==◌, ◌||◌, true, not, Option, none, some, ◌++◌, if◌then◌else◌, ℤ, is_negative, cast_u32, String,
  Text, codes, peek, snprintf, decimal_text, valid,
}
use vitacompanion_vitadeck.Ftp.Parse.{parse_rest_offset}
use vitacompanion_vitadeck.Ftp.Paths.{
  Reply, syntax_error, invalid_directory, completed, dir_up, cmd_cwd,
}
use vitacompanion_vitadeck.Ftp.Session.{
  Call, open_directory, close_directory, get_stat, remove_file, remove_directory, make_directory,
  rename_file, System, Session, eol, make, answer, client_send_ctrl_msg,
}
use vitacompanion_vitadeck.Ftp.Session.Transfers.{named_path}

-- The replies of `cmd_CWD_func`.
abbrev pub cwd_reply : Reply → Text
cwd_reply syntax_error = eol (codes "500 Syntax error, command unrecognized.")
cwd_reply invalid_directory = eol (codes "550 Invalid directory.")
cwd_reply completed = eol (codes "250 Requested file action okay, completed.")

module _ (system : System) where
  abbrev pub say : String → Session → Session
  say message s = client_send_ctrl_msg system (eol (codes message)) s

  unfoldable pub cmd_noop : Session → Session
  cmd_noop s = say "200 No operation ;)" s

  unfoldable pub cmd_user : Session → Session
  cmd_user s = say "331 Username OK, need password b0ss." s

  unfoldable pub cmd_pass : Session → Session
  cmd_pass s = say "230 User logged in!" s

  unfoldable pub cmd_syst : Session → Session
  cmd_syst s = say "215 UNIX Type: L8" s

  unfoldable pub cmd_opts : Session → Session
  cmd_opts s = say "501 bad OPTS" s

  unfoldable pub cmd_quit : Session → Session
  cmd_quit s = record (say "221 Goodbye senpai :'(" s) { quit_requested = true }

  unfoldable pub cmd_pwd : Session → Session
  cmd_pwd s =
      client_send_ctrl_msg system
        (snprintf system.path_max
          (eol (codes "257 \"" ++ s.cur_path ++ codes "\" is the current directory.")))
        s

  -- The two calls on the directory that CWD tests.
  abbrev pub probe_directory : Option Text → Session → ℤ × Session
  probe_directory path s =
      (answer system (open_directory path) s, make system (open_directory path) s)

  abbrev pub leave_directory : ℤ → Session → Session
  leave_directory pd s = make system (close_directory pd) s

  -- `none` where the code follows a null pointer.
  unfoldable pub change_cur_path : Session → Option Session
  change_cur_path s =
      elim (cmd_cwd probe_directory leave_directory system.path_max s.recv_cmd_args s.cur_path s) [
        | none ↦ none
        | some (reply, path, s') ↦
            some (client_send_ctrl_msg system (cwd_reply reply) (record s' { cur_path = path }))
      ]

  unfoldable pub cmd_type : Session → Session
  cmd_type s =
      let data_type = peek s.recv_cmd_args in
      if data_type == b'A' || data_type == b'I'
      then say "200 Okay" s
      else say "504 Error: bad parameters?" s

  unfoldable pub cmd_cdup : Session → Option Session
  cmd_cdup s = elim (dir_up s.cur_path) [
    | none ↦ none
    | some path ↦ some (say "200 Command okay." (record s { cur_path = path }))
  ]

  -- A call on the named path, and one of two replies.
  abbrev pub try_call : Call → String → String → Session → Session
  try_call call refused done s =
      let ret = answer system call s in
      let s = make system call s in if is_negative ret then say refused s else say done s

  unfoldable pub cmd_dele : Session → Session
  cmd_dele s =
      try_call (remove_file (named_path system s)) "550 Could not delete the file."
        "250 File deleted." s

  unfoldable pub cmd_rmd : Session → Session
  cmd_rmd s =
      let call = remove_directory (named_path system s) in
      let ret = answer system call s in
      let s = make system call s in
      if not (is_negative ret)
      then say "250 Directory deleted." s
      else if cast_u32 ret == 0x8001005A
      then say "550 Directory is not empty." s
      else say "550 Could not delete the directory." s

  unfoldable pub cmd_mkd : Session → Session
  cmd_mkd s =
      try_call (make_directory (named_path system s)) "550 Could not create the directory."
        "257 Directory created." s

  -- The copy of a path into `rename_path`; `none` for a null pointer.
  abbrev pub remember_path : Option Text → Session → Option Session
  remember_path none s = none
  remember_path (some path) s =
      some (say "350 I need the destination name b0ss." (record s { rename_path = path }))

  unfoldable pub cmd_rnfr : Session → Option Session
  cmd_rnfr s =
      let path = named_path system s in
      let ret = answer system (get_stat path) s in
      let s = make system (get_stat path) s in
      if is_negative ret then some (say "550 The file doesn't exist." s) else remember_path path s

  unfoldable pub cmd_rnto : Session → Session
  cmd_rnto s =
      try_call (rename_file s.rename_path (named_path system s)) "550 Error renaming the file."
        "250 Rename completed." s

  unfoldable pub cmd_size : Session → Session
  cmd_size s =
      let call = get_stat (named_path system s) in
      let ret = answer system call s in
      let s = make system call s in
      if is_negative ret
      then say "550 The file doesn't exist." s
      else client_send_ctrl_msg system
          (eol (codes "213 " ++ decimal_text (system.stat s.trace).st_size)) s

  unfoldable pub cmd_rest : Session → Session
  cmd_rest s = elim (parse_rest_offset (some s.recv_cmd_args) valid) [
    | none ↦ say "501 Invalid REST offset." s
    | some restore_point ↦
        client_send_ctrl_msg system
          (snprintf 64 (eol (codes "350 Resuming at " ++ decimal_text restore_point)))
          (record s { restore_point = restore_point })
  ]

  unfoldable pub cmd_feat : Session → Session
  cmd_feat s = say "211 end" (say " UTF8" (say " REST STREAM" (say "211-extensions" s)))
