-- ===== src/Cmd/Service/Tests.antt =====
-- A command thread that serves one client, and a start whose thread reports an error.
use vitacompanion_vitadeck.Prelude.{
  refl, not, List, [], ltb, leb, if◌then◌else◌, ℤ, pos, negsuc, is_negative, length, arith, Yields,
}
use vitacompanion_vitadeck.Cmd.Service.{
  Call, new_socket, accept, Trace, System, Service, cmd_thread,
}
use vitacompanion_vitadeck.Cmd.Service.Sockets.{
  acquired, released, Holds, Ended, IsShut, cmd_thread-Ended,
}
use vitacompanion_vitadeck.Cmd.Service.Start.{StartCall, create_thread, Host, Loader}

abbrev answers : Trace → Call → ℤ
answers trace new_socket = pos 3
answers trace (accept fd) = if leb 8 (length trace) then negsuc 0 else pos 4
answers trace _ = pos 0

abbrev one_client : System
one_client = record { answer = answers; is_running = λ trace. ltb (length trace) 20 }

one_client-IsShut : IsShut one_client 20
one_client-IsShut trace fd late = ground arith

abbrev new_service : Service
new_service = record {
  loader_sockfd = negsuc 0;
  active_client_sockfd = negsuc 0;
  loader_start_status = pos 0x7fffffff;
  trace = [];
}

new_service-Holds : Holds new_service
unfolding acquired released
new_service-Holds w = refl

cmd_thread-Ended_example : Yields Ended (cmd_thread one_client 21 new_service)
cmd_thread-Ended_example =
    cmd_thread-Ended one_client 20 21 new_service one_client-IsShut (omega arith) refl refl
      new_service-Holds

abbrev start_answers : List StartCall → StartCall → ℤ
start_answers calls create_thread = pos 6
start_answers calls _ = pos 0

-- The thread reports an error after three delays.
abbrev failing_host : Host
failing_host = record {
  answer = start_answers;
  start_status = λ calls. if ltb 4 (length calls) then negsuc 4 else pos 1;
  is_pending = λ status. not (is_negative status);
}

abbrev no_loader : Loader
no_loader = record { loader_thid = negsuc 0; calls = [] }
