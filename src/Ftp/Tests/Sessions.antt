-- ===== src/Ftp/Tests/Sessions.antt =====
-- A session that asks for a passive connection, downloads a file of three bytes, and quits.
use vitacompanion_vitadeck.Prelude.{
  ℕ, zero, suc, refl, inl, false, Option, none, some, List, [], ◌∷◌, leb, ◌==◌, if◌then◌else◌, ℤ,
  pos, negsuc, Text, codes, length, arith, Yields,
}
use vitacompanion_vitadeck.Ftp.Session.{
  Call, new_socket, accept, receive, send, open_file, seek_end, seek_to, read_file, allocate,
  begin_transfer, allocate_client, leave_list, get_stat, event, Trace, Stat, System, Session,
  no_connection, eol,
}
use vitacompanion_vitadeck.Ftp.Session.Dispatch.{retr, pasv, run_function}
use vitacompanion_vitadeck.Ftp.Session.Thread.{client_thread}
use vitacompanion_vitadeck.Ftp.Session.Resources.{
  Resource, client, acquired, released, Ready, Closed, Ends,
}
use vitacompanion_vitadeck.Ftp.Session.ThreadEnds.{IsOrderly, run_function-Ready, transfer-Closed}
use vitacompanion_vitadeck.Ftp.Session.Release.{IsReleased, client_thread-IsReleased}

-- How many lines the client has sent so far.
abbrev lines_sent : Trace → ℕ
lines_sent [] = 0
lines_sent (event (receive fd size) a ∷ trace) =
    if size == 511 then suc (lines_sent trace) else lines_sent trace
lines_sent (_ ∷ trace) = lines_sent trace

-- The lines of the client; from 60 calls on the network is down.
abbrev line_at : ℕ → Text
line_at zero = []
line_at (suc zero) = eol (codes "PASV")
line_at (suc (suc zero)) = eol (codes "RETR /ux0:data")
line_at _ = eol (codes "QUIT")

abbrev answers : Trace → Call → ℤ
answers trace new_socket = pos 9
answers trace (accept fd) = pos 11
answers trace (receive fd size) =
    if leb 60 (length trace) then pos 0 else pos (length (line_at (suc (lines_sent trace))))
answers trace (send fd bytes) = pos (length bytes)
answers trace (open_file path truncate) = pos 20
answers trace (seek_end fd) = pos 3
answers trace (seek_to fd offset) = pos offset
answers trace (read_file fd n) = pos n
answers trace (allocate n) = pos 4096
answers trace begin_transfer = pos 1
answers trace leave_list = pos 1
answers trace (get_stat none) = negsuc 0
answers trace _ = pos 0

abbrev stat_of_nothing : Stat
stat_of_nothing = record {
  is_directory = false;
  st_size = 0;
  year = 2024;
  month = 1;
  day = 1;
  hour = 0;
  minute = 0;
}

abbrev passive_client : System
passive_client = record {
  answer = answers;
  stored = λ trace buffer. line_at (lines_sent trace);
  net_errno = λ trace. pos 0;
  picked_port = λ trace. 4660;
  stat = λ trace. stat_of_nothing;
  entry_name = λ trace. [];
  year_now = λ trace. 2024;
  inet_address = λ text. 0;
  path_max = 1024;
  vita_addr = 0x0100007f;
  file_buf_size = 65536;
  devices = [];
}

passive_client-Ends : Ends passive_client 60
passive_client-Ends = record {
  receive_ends = λ trace sockfd size late. ground arith;
  directory_ends = λ trace dir late. refl;
  null_stat = λ trace. refl;
}

-- The session as the server thread leaves it to the thread of the client.
abbrev new_session : Session
new_session = record {
  ctrl_sockfd = pos 7;
  data_sockfd = negsuc 0;
  pasv_sockfd = negsuc 0;
  data_con_type = no_connection;
  data_sockaddr = (0, 0);
  cur_path = codes "/";
  rename_path = [];
  recv_cmd_args = codes "/ux0:data";
  restore_point = 0;
  quit_requested = false;
  trace = event allocate_client (pos 1) ∷ event (accept (pos 3)) (pos 7) ∷ [];
}

new_session-Ready : Ready (client ∷ []) 0 new_session
unfolding acquired released
new_session-Ready = record {
  goes = record { holds = λ w. omega arith; directory = inl refl; longer = omega arith };
  no_pasv = refl;
}

abbrev no_functions : ℕ → Session → Option Session
no_functions i s = some s

no_functions-IsOrderly : (rs : List Resource) → IsOrderly rs no_functions
no_functions-IsOrderly rs i n s g = g

client_thread-IsReleased_example :
    Yields (IsReleased []) (client_thread passive_client no_functions [] 61 61 new_session)
client_thread-IsReleased_example =
    client_thread-IsReleased passive_client no_functions [] 60 61 61 0 [] new_session (omega arith)
      passive_client-Ends (omega arith) (omega arith) (no_functions-IsOrderly (client ∷ []))
      new_session-Ready

transfer-Closed_example :
    Yields (Closed (client ∷ []) 0) (run_function passive_client no_functions 61 retr new_session)
transfer-Closed_example =
    transfer-Closed passive_client no_functions [] 60 61 (client ∷ []) (omega arith)
      passive_client-Ends (omega arith) (no_functions-IsOrderly (client ∷ [])) retr 0 new_session
      refl new_session-Ready

run_function-Ready_example :
    Yields (Ready (client ∷ []) 0) (run_function passive_client no_functions 61 pasv new_session)
run_function-Ready_example =
    run_function-Ready passive_client no_functions [] 60 61 (client ∷ []) (omega arith)
      passive_client-Ends (omega arith) (no_functions-IsOrderly (client ∷ [])) pasv 0 new_session
      new_session-Ready
