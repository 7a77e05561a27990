-- ===== src/Ftp/Session/Listing.antt =====
-- libftpvita/ftpvita.c: a line of a directory listing, and the LIST transfer.
use vitacompanion_vitadeck.Prelude.{
  ℕ, zero, suc, ◌-◌, ◌%◌, Bool, true, false, not, Option, none, some, List, [], ◌∷◌, ◌++◌, ◌==◌,
  if◌then◌else◌, ℤ, pos, negsuc, is_negative, u32, Text, codes, length, get_or, replicate, text_eq,
  snprintf, decimal_text, valid,
}
use vitacompanion_vitadeck.Ftp.Parse.{copy_command_argument}
use vitacompanion_vitadeck.Ftp.Paths.{get_vita_path}
use vitacompanion_vitadeck.Ftp.Retr.{is_zero}
use vitacompanion_vitadeck.Ftp.Session.{
  open_directory, read_directory, close_directory, get_stat, local_time, begin_transfer,
  end_transfer, System, Stat, Session, eol, make, answer, client_send_ctrl_msg,
  client_send_data_msg, client_close_data_connection, client_open_data_connection,
}

-- `%0<width>d` of a number that is not negative.
abbrev pub zero_padded : ℕ → ℕ → Text
zero_padded width n = replicate (width - length (decimal_text n)) 48 ++ decimal_text n

-- `%-2d`
abbrev pub left_padded : ℕ → Text
left_padded n = decimal_text n ++ replicate (2 - length (decimal_text n)) 32

abbrev pub num_to_month : List Text
num_to_month =
    codes "Jan"
    ∷ codes "Feb"
    ∷ codes "Mar"
    ∷ codes "Apr"
    ∷ codes "May"
    ∷ codes "Jun"
    ∷ codes "Jul"
    ∷ codes "Aug"
    ∷ codes "Sep"
    ∷ codes "Oct"
    ∷ codes "Nov"
    ∷ codes "Dec"
    ∷ []

-- The time or the year, in the 6 bytes of `yt`.
abbrev pub time_or_year : ℕ → Stat → Text
time_or_year year_now stat =
    if year_now == stat.year
    then snprintf 6 (zero_padded 2 stat.hour ++ (58 ∷ zero_padded 2 stat.minute))
    else snprintf 6 (zero_padded 4 stat.year)

unfoldable pub gen_list_format : ℕ → ℕ → Bool → Stat → Text → Text
gen_list_format year_now n dir stat filename = snprintf n (
    eol (
      (if dir then codes "drwxr-xr-x" else codes "-rw-r--r--")
      ++ codes " 1 vita vita "
      ++ decimal_text (u32 stat.st_size)
      ++ (32 ∷ get_or num_to_month (if stat.month == 0 then 0 else (stat.month - 1) % 12) [])
      ++ (32 ∷ left_padded stat.day)
      ++ (32 ∷ time_or_year year_now stat)
      ++ (32 ∷ filename)))

module _ (system : System) where
  -- One line, with the call of the clock; the result is whether it was sent.
  unfoldable pub send_entry : Bool → Stat → Text → Session → Option (Bool × Session)
  send_entry dir stat filename s =
      let s = make system local_time s in
      let text = gen_list_format (system.year_now s.trace) 512 dir stat filename in
      elim (client_send_data_msg system text s) [
        | none ↦ none
        | some (result, s) ↦ some (not (is_negative result), s)
      ]

  -- The loop over the devices, from the ones left on.
  unfoldable pub list_devices : List (Bool × Text) → Session → Option (Bool × Session)
  list_devices [] s = some (true, s)
  list_devices ((is_valid, devname) ∷ devices) s =
      let call = get_stat (some devname) in
      let s' = make system call s in
      let sent : Option (Bool × Session) =
        elim (send_entry true (system.stat s'.trace) devname s') [
          | none ↦ none
          | some (transfer_ok, s'') ↦
              let rest = list_devices devices s'' in if transfer_ok then rest else some (false, s'')
        ] in
      if not is_valid
      then list_devices devices s
      else if is_negative (answer system call s)
      then list_devices devices s'
      else sent

  -- The loop over the entries of a directory. `none` is the end of the fuel.
  unfoldable pub list_entries : ℕ → ℤ → Session → Option (Bool × Session)
  list_entries zero dir s = none
  list_entries (suc fuel) dir s =
      let count = answer system (read_directory dir) s in
      let s' = make system (read_directory dir) s in
      let stat = system.stat s'.trace in
      let sent : Option (Bool × Session) =
        elim (send_entry stat.is_directory stat (system.entry_name s'.trace) s') [
          | none ↦ none
          | some (transfer_ok, s'') ↦
              let rest = list_entries fuel dir s'' in
              if transfer_ok then rest else some (false, s'')
        ] in
      elim count [ pos zero ↦ some (true, s') | pos (suc n) ↦ sent | negsuc n ↦ some (true, s') ]

  -- The close, the reply and the release at the end of a transfer.
  unfoldable pub finish_transfer : Text → Session → Session
  finish_transfer reply s =
      make system end_transfer
        (client_send_ctrl_msg system reply (client_close_data_connection system s))

  -- The same when the transfer was not admitted.
  unfoldable pub refuse_transfer : Session → Session
  refuse_transfer s =
      client_send_ctrl_msg system (eol (codes "425 Another FTP transfer is active."))
        (client_close_data_connection system s)

  abbrev pub list_result : Bool → Text
  list_result transfer_ok =
      if transfer_ok
      then eol (codes "226 Transfer complete.")
      else eol (codes "426 Connection closed; transfer aborted.")

  abbrev pub opening_list : Text
  opening_list = eol (codes "150 Opening ASCII mode data transfer for LIST.")

  abbrev pub cannot_open : Text
  cannot_open = eol (codes "425 Can't open data connection.")

  -- The listing of the devices.
  unfoldable pub send_devices : Session → Option Session
  send_devices s =
      let (result, s) = client_open_data_connection system s in
      if is_negative result
      then some (finish_transfer cannot_open s)
      else elim (list_devices system.devices (client_send_ctrl_msg system opening_list s)) [
        | none ↦ none
        | some (transfer_ok, s) ↦ some (finish_transfer (list_result transfer_ok) s)
      ]

  -- The listing of an open directory.
  unfoldable pub send_directory : ℕ → ℤ → Session → Option Session
  send_directory fuel dir s =
      let (result, s) = client_open_data_connection system s in
      if is_negative result
      then some (finish_transfer cannot_open (make system (close_directory dir) s))
      else elim (list_entries fuel dir (client_send_ctrl_msg system opening_list s)) [
        | none ↦ none
        | some (transfer_ok, s) ↦
            some (finish_transfer (list_result transfer_ok) (make system (close_directory dir) s))
      ]

  unfoldable pub send_list : ℕ → Text → Session → Option Session
  send_list fuel path s =
      let admitted = answer system begin_transfer s in
      let s = make system begin_transfer s in
      let call = open_directory (get_vita_path path) in
      let dir = answer system call s in
      if is_zero admitted
      then some (refuse_transfer s)
      else if text_eq path (codes "/")
      then send_devices s
      else if is_negative dir
      then some (finish_transfer (eol (codes "550 Invalid directory.")) (make system call s))
      else send_directory fuel dir (make system call s)

  -- The path that LIST names when there is a file of that name, else the current directory.
  unfoldable pub cmd_list : ℕ → Session → Option Session
  cmd_list fuel s = elim (copy_command_argument (some s.recv_cmd_args) valid system.path_max) [
    | none ↦ send_list fuel s.cur_path s
    | some list_path ↦
        let call = get_stat (get_vita_path list_path) in
        let s' = make system call s in
        if is_negative (answer system call s)
        then send_list fuel s.cur_path s'
        else send_list fuel list_path s'
  ]
