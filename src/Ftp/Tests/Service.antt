-- ===== src/Ftp/Tests/Service.antt =====
-- A server that is started, accepts clients and is shut down.
use vitacompanion_vitadeck.Prelude.{
  ◌+◌, ◌≡◌, refl, true, false, not, List, [], ◌∷◌, ltb, leb, if◌then◌else◌, ℤ, pos, negsuc,
  is_negative, codes, length, text_eq, arith, Yields,
}
use vitacompanion_vitadeck.Ftp.Lifecycle as Lifecycle
use vitacompanion_vitadeck.Ftp.Lifecycle.{ftpvita_fini}
use vitacompanion_vitadeck.Ftp.Lifecycle.Balance.{open_parts, in_order, Down, Up}
use vitacompanion_vitadeck.Ftp.Lifecycle.Start.{ftpvita_fini-Down}
use vitacompanion_vitadeck.Ftp.Server as Accept
use vitacompanion_vitadeck.Ftp.Server.{server_thread, client_list_thread_end, accept}
use vitacompanion_vitadeck.Ftp.Server.Handover.{
  Ended, Keeps, IsShut, acquired, given_up, server_thread-Ended,
}
use vitacompanion_vitadeck.Ftp.Server.Shutdown.{
  after, all_allowed, at_rest, client_list_thread_end-all,
}
use vitacompanion_vitadeck.Ftp.Tables.{Device, ftpvita_add_device, ftpvita_del_device}
use vitacompanion_vitadeck.Ftp.Tables.Devices.{IsDistinct, valid_names, del_device-of_add}

abbrev start_answers : List Lifecycle.Call → Lifecycle.Call → ℤ
start_answers calls Lifecycle.allocate_net = pos 4096
start_answers calls Lifecycle.create_mutex = pos 5
start_answers calls Lifecycle.create_thread = pos 6
start_answers calls Lifecycle.show_netstat = negsuc 76
start_answers calls _ = pos 0

-- The network is not initialised yet; the server thread never reports its start.
abbrev silent_thread : Lifecycle.System
silent_thread = record {
  answer = start_answers;
  start_status = λ calls. pos 0x7fffffff;
  is_not_initialized = λ a. is_negative a;
  is_not_terminated = λ a. false;
  is_pending = λ a. not (is_negative a);
}

abbrev down_server : Lifecycle.Server
down_server = record {
  net_memory = false;
  ftp_initialized = false;
  server_thid = negsuc 0;
  client_list_mtx = negsuc 0;
  netctl_init = negsuc 0;
  net_init = negsuc 0;
  calls = [];
}

-- A server whose network was there before.
abbrev up_server : Lifecycle.Server
up_server = record {
  net_memory = false;
  ftp_initialized = true;
  server_thid = pos 6;
  client_list_mtx = pos 5;
  netctl_init = pos 0;
  net_init = negsuc 0;
  calls =
      Lifecycle.start_thread ∷ Lifecycle.create_thread ∷ Lifecycle.create_mutex
      ∷ Lifecycle.get_ip_address ∷ Lifecycle.Call.netctl_init ∷ [];
}

up_server-Up : Up silent_thread up_server
unfolding open_parts in_order
up_server-Up = record {
  tells = record { parts = refl; ordered = refl };
  running = refl;
  locked = refl;
  started = refl;
}

ftpvita_fini-Down_example : Down silent_thread (ftpvita_fini up_server)
ftpvita_fini-Down_example = ftpvita_fini-Down silent_thread up_server up_server-Up

-- Two clients come; the heap is exhausted for the second. From 30 calls on the socket is closed.
abbrev accept_answers : Accept.System
accept_answers trace Accept.new_listener = pos 3
accept_answers trace (Accept.accept fd) =
    if leb 14 (length trace) then negsuc 0 else pos (10 + length trace)
accept_answers trace Accept.allocate_client = if ltb 8 (length trace) then pos 0 else pos 4096
accept_answers trace (Accept.create_thread n) = pos 40
accept_answers trace _ = pos 1

accept_answers-IsShut : IsShut accept_answers 30
accept_answers-IsShut trace fd late = ground arith

abbrev new_server : Accept.Server
new_server = record {
  server_sockfd = negsuc 0;
  server_start_status = Accept.start_pending;
  next_client_num = 0;
  trace = [];
}

new_server-Keeps : Keeps [] new_server
unfolding acquired given_up
new_server-Keeps w = refl

server_thread-Ended_example : Yields (Ended []) (server_thread accept_answers 31 new_server)
server_thread-Ended_example =
    server_thread-Ended accept_answers 30 31 [] new_server accept_answers-IsShut (omega arith)
      new_server-Keeps

abbrev two_clients : List Accept.Client
two_clients =
    record {
      thid = pos 40;
      ctrl_sockfd = pos 10;
      data_sockfd = negsuc 0;
      pasv_sockfd = pos 12;
      has_data_connection = true;
      is_passive = true;
    }
    ∷ record {
      thid = pos 41;
      ctrl_sockfd = pos 11;
      data_sockfd = negsuc 0;
      pasv_sockfd = negsuc 0;
      has_data_connection = false;
      is_passive = false;
    }
    ∷ []

client_list_thread_end-all_example :
    (all_allowed (client_list_thread_end (pos 5) two_clients) at_rest ≡ true)
    × (after (client_list_thread_end (pos 5) two_clients) at_rest ≡ record {
      locked = false;
      detached = pos 40 ∷ pos 41 ∷ [];
      ended = pos 40 ∷ pos 41 ∷ [];
      deleted = pos 40 ∷ pos 41 ∷ [];
      list_empty = true;
      no_clients = true;
      no_transfer = true;
    })
client_list_thread_end-all_example =
    client_list_thread_end-all (pos 5) two_clients refl (omega arith)

abbrev device_table : List Device
device_table =
    record { is_valid = true; name = codes "ux0:" }
    ∷ record { is_valid = false; name = codes "ur0:" }
    ∷ []

device_table-IsDistinct : IsDistinct device_table
unfolding valid_names
device_table-IsDistinct = (tt, (tt, tt))

del_device-of_add_example :
    IsDistinct (ftpvita_add_device (codes "uma0:") device_table).1
    × (valid_names
          (ftpvita_del_device (codes "uma0:") (ftpvita_add_device (codes "uma0:") device_table).1).1
        ≡ valid_names device_table)
del_device-of_add_example =
    del_device-of_add (codes "uma0:") device_table device_table-IsDistinct
      (unfold valid_names text_eq in (refl, tt))
