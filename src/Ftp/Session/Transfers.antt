-- ===== src/Ftp/Session/Transfers.antt =====
-- libftpvita/ftpvita.c: RETR, STOR and APPE.
use vitacompanion_vitadeck.Prelude.{
  ℕ, ◌-◌, ◌^◌, Bool, true, false, not, ◌||◌, Option, none, some, [], ◌++◌, leb, ◌==◌, if◌then◌else◌,
  ℤ, pos, negsuc, is_negative, Text, codes, text_eq, snprintf, decimal_text, int_text, hex_text,
  valid,
}
use vitacompanion_vitadeck.Ftp.Paths.{get_vita_path, gen_ftp_fullpath}
use vitacompanion_vitadeck.Ftp.Retr.{RetrResult, ReadFile, SendData, is_zero, errno_of, retr_extent}
use vitacompanion_vitadeck.Ftp.Retr as Retr
use vitacompanion_vitadeck.Ftp.Store.{StoreResult, ReceiveData, WriteFile, store_stream}
use vitacompanion_vitadeck.Ftp.Store as Store
use vitacompanion_vitadeck.Ftp.Session.{
  open_file, open_append, seek_end, seek_to, read_file, write_file, close_file, receive, send,
  allocate, free_memory, begin_transfer, end_transfer, client_close_data_connection, Call, System,
  Session, eol, make, answer, transfer_sockfd, client_send_ctrl_msg, client_open_data_connection,
}
use vitacompanion_vitadeck.Ftp.Session.Listing.{finish_transfer, refuse_transfer, cannot_open}

abbrev pub retr_stage : Retr.Stage → Text
retr_stage Retr.complete = codes "complete"
retr_stage Retr.range = codes "range"
retr_stage Retr.early_eof = codes "early-eof"
retr_stage Retr.read_failed = codes "read"
retr_stage Retr.send_failed = codes "send"

abbrev pub store_stage : Store.Stage → Text
store_stage Store.complete = codes "complete"
store_stage Store.range = codes "range"
store_stage Store.receive_failed = codes "receive"
store_stage Store.write_failed = codes "write"

abbrev pub completed_reply : Text
completed_reply = eol (codes "226 Transfer completed.")

-- The reply behind a download, and behind an upload.
abbrev pub retr_reply : ℕ → ℤ → RetrResult → Text
retr_reply restore_point extent r =
    if text_eq (retr_stage r.stage) (codes "complete")
    then completed_reply
    else snprintf 256 (
        eol (
          codes "426 RETR stage="
          ++ retr_stage r.stage
          ++ codes " code=0x"
          ++ hex_text r.code
          ++ codes " net_errno="
          ++ int_text r.net_errno
          ++ codes " start="
          ++ decimal_text restore_point
          ++ codes " extent="
          ++ int_text extent
          ++ codes " read="
          ++ decimal_text r.bytes_read
          ++ codes " sent="
          ++ decimal_text r.bytes_sent
          ++ codes "."))

abbrev pub store_reply : StoreResult → Text
store_reply r =
    if text_eq (store_stage r.stage) (codes "complete")
    then completed_reply
    else snprintf 256 (
        eol (
          codes "426 STOR stage="
          ++ store_stage r.stage
          ++ codes " code=0x"
          ++ hex_text r.code
          ++ codes " net_errno="
          ++ int_text r.net_errno
          ++ codes " received="
          ++ decimal_text r.bytes_received
          ++ codes " written="
          ++ decimal_text r.bytes_written
          ++ codes "."))

abbrev pub seek_reply : ℕ → ℤ → ℤ → Text
seek_reply restore_point extent position = snprintf 192 (
    eol (
      codes "550 RETR seek failed start="
      ++ decimal_text restore_point
      ++ codes " extent="
      ++ int_text extent
      ++ codes " position="
      ++ int_text position
      ++ codes "."))

abbrev pub opening_image : Text
opening_image = eol (codes "150 Opening Image mode data transfer.")

-- `restore_point <= extent`, and `position == restore_point`
abbrev pub reaches : ℤ → ℕ → Bool
reaches (pos extent) restore_point = leb restore_point extent
reaches (negsuc n) restore_point = false

abbrev pub is_position : ℤ → ℕ → Bool
is_position (pos position) restore_point = position == restore_point
is_position (negsuc n) restore_point = false

abbrev pub extent_bytes : ℤ → ℕ
extent_bytes (pos extent) = extent
extent_bytes (negsuc n) = 0

module _ (system : System) where
  -- `retr_read` and `retr_send`
  unfoldable pub retr_read : ℤ → ReadFile Session
  retr_read fd s buffer length =
      let s' = make system (read_file fd length) s in
      (answer system (read_file fd length) s, system.stored s'.trace buffer, s')

  unfoldable pub retr_send : ℤ → SendData Session
  retr_send sockfd s bytes =
      let sent = answer system (send sockfd bytes) s in
      let s' = make system (send sockfd bytes) s in
      (sent, errno_of sent (system.net_errno s'.trace), s')

  -- `store_receive`, with `client_recv_data_raw`, and `store_write`
  unfoldable pub store_receive : ReceiveData Session
  store_receive s buffer length =
      let call = receive (transfer_sockfd system s) length in
      let s' = make system call s in
      (
        answer system call s,
        system.stored s'.trace buffer,
        errno_of (answer system call s) (system.net_errno s'.trace),
        s',
      )

  unfoldable pub store_write : ℤ → WriteFile Session
  store_write fd s bytes =
      (answer system (write_file fd bytes) s, make system (write_file fd bytes) s)

  -- From an open data connection on, with the file and the buffer.
  unfoldable pub send_extent : ℤ → ℤ → ℕ → ℤ → Session → Option Session
  send_extent fd buffer restore_point extent s =
      let s = client_send_ctrl_msg system opening_image s in
      let sockfd = transfer_sockfd system s in
      elim (retr_extent (some (retr_read fd)) (some (retr_send sockfd)) valid
        (system.stored s.trace []) system.file_buf_size restore_point (extent_bytes extent) s) [
          | none ↦ none
          | some (result, s) ↦ some (
              finish_transfer system (retr_reply restore_point extent result)
                (make system (free_memory buffer) (make system (close_file fd) s)))
        ]

  -- From the buffer on.
  unfoldable pub send_buffered : ℤ → ℤ → ℕ → ℤ → Session → Option Session
  send_buffered fd buffer restore_point extent s =
      let (result, s) = client_open_data_connection system s in
      if is_negative result
      then some (
          finish_transfer system (cannot_open system)
            (make system (free_memory buffer) (make system (close_file fd) s)))
      else send_extent fd buffer restore_point extent s

  -- From the open file on.
  unfoldable pub send_opened : ℤ → ℕ → Session → Option Session
  send_opened fd restore_point s =
      let extent = answer system (seek_end fd) s in
      let s = make system (seek_end fd) s in
      let position =
        if reaches extent restore_point
        then answer system (seek_to fd restore_point) s
        else negsuc 0 in
      let s =
        if reaches extent restore_point then make system (seek_to fd restore_point) s else s in
      let buffer = answer system (allocate system.file_buf_size) s in
      let s' = make system (allocate system.file_buf_size) s in
      if not (reaches extent restore_point) || not (is_position position restore_point)
      then some (
          finish_transfer system (seek_reply restore_point extent position)
            (make system (close_file fd) s))
      else if is_zero buffer
      then some (
          finish_transfer system (eol (codes "550 Could not allocate memory."))
            (make system (close_file fd) s'))
      else send_buffered fd buffer restore_point extent s'

  unfoldable pub send_file : Option Text → Session → Option Session
  send_file path s =
      let restore_point = s.restore_point in
      let s = record s { restore_point = 0 } in
      let admitted = answer system begin_transfer s in
      let s = make system begin_transfer s in
      let fd = answer system (open_file path false) s in
      let s' = make system (open_file path false) s in
      if is_zero admitted
      then some (refuse_transfer system s)
      else if is_negative fd
      then some (finish_transfer system (eol (codes "550 File not found.")) s')
      else send_opened fd restore_point s'

  unfoldable pub receive_stream : ℕ → ℤ → ℤ → Session → Option Session
  receive_stream fuel fd buffer s =
      let s = client_send_ctrl_msg system opening_image s in
      elim (store_stream fuel (some store_receive) (some (store_write fd)) valid
        (system.stored s.trace []) system.file_buf_size s) [
          | none ↦ none
          | some (result, s) ↦
              let s = make system (free_memory buffer) (make system (close_file fd) s) in
              let s = record s { restore_point = 0 } in
              some (
                make system end_transfer (
                  client_close_data_connection system
                    (client_send_ctrl_msg system (store_reply result) s)))
        ]

  unfoldable pub receive_buffered : ℕ → ℤ → ℤ → Session → Option Session
  receive_buffered fuel fd buffer s =
      let (result, s) = client_open_data_connection system s in
      if is_negative result
      then some (
          finish_transfer system (cannot_open system)
            (make system (free_memory buffer) (make system (close_file fd) s)))
      else receive_stream fuel fd buffer s

  unfoldable pub receive_opened : ℕ → ℤ → Session → Option Session
  receive_opened fuel fd s =
      let buffer = answer system (allocate system.file_buf_size) s in
      let s = make system (allocate system.file_buf_size) s in
      if is_zero buffer
      then some (
          finish_transfer system (eol (codes "550 Could not allocate memory."))
            (make system (close_file fd) s))
      else receive_buffered fuel fd buffer s

  -- The file is opened for appending when there is a restore point, and truncated otherwise.
  abbrev pub open_for_store : Option Text → ℕ → Call
  open_for_store path restore_point =
      if restore_point == 0 then open_file path true else open_append path

  unfoldable pub receive_file : ℕ → Option Text → Session → Option Session
  receive_file fuel path s =
      let admitted = answer system begin_transfer s in
      let s = make system begin_transfer s in
      let call = open_for_store path s.restore_point in
      let fd = answer system call s in
      let s' = make system call s in
      if is_zero admitted
      then some (refuse_transfer system s)
      else if is_negative fd
      then some (finish_transfer system (eol (codes "550 File not found.")) s')
      else receive_opened fuel fd s'

  -- The path that the arguments name.
  abbrev pub named_path : Session → Option Text
  named_path s =
      get_vita_path (gen_ftp_fullpath system.path_max system.path_max s.recv_cmd_args s.cur_path)

  unfoldable pub cmd_retr : Session → Option Session
  cmd_retr s = send_file (named_path s) s

  unfoldable pub cmd_stor : ℕ → Session → Option Session
  cmd_stor fuel s = receive_file fuel (named_path s) s

  -- `client->restore_point = -1`
  unfoldable pub cmd_appe : ℕ → Session → Option Session
  cmd_appe fuel s =
      let s = record s { restore_point = 2 ^ 32 - 1 } in receive_file fuel (named_path s) s
