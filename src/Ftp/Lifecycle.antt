-- ===== src/Ftp/Lifecycle.antt =====
-- libftpvita/ftpvita.c: the start and the shutdown of the FTP server. The calls are recorded, the
-- latest first, and what the system answers may depend on all of them; what the server thread writes
-- meanwhile is answered too.
pub mod Balance
pub mod Start
use vitacompanion_vitadeck.Prelude.{
  ℕ, zero, suc, ◌+◌, Bool, true, false, not, ◌&&◌, ◌||◌, Option, none, some, List, [], ◌∷◌, ltb,
  ◌==◌, if◌then◌else◌, ℤ, pos, negsuc, is_negative, cast_u32,
}
use vitacompanion_vitadeck.Ftp.Retr.{is_zero}

pub data Call : Type 0 where
  show_netstat allocate_net net_init netctl_init get_ip_address create_mutex create_thread
        start_thread delay close_server_socket wait_thread delete_thread delete_mutex netctl_term
        net_term free_net end_clients :
      Call

pub record System : Type 0 where
  pub answer : List Call → Call → ℤ
  -- `server_start_status`, which the server thread writes
  pub start_status : List Call → ℤ
  -- whether a result is SCE_NET_ERROR_ENOTINIT, NET_CTL_ERROR_NOT_TERMINATED, SERVER_START_PENDING
  pub is_not_initialized : ℤ → Bool
  pub is_not_terminated : ℤ → Bool
  pub is_pending : ℤ → Bool

-- The variables of ftpvita.c that the start sets, and the calls made. `net_memory` tells whether
-- there is a block.
pub record Server : Type 0 where
  pub net_memory : Bool
  pub ftp_initialized : Bool
  pub server_thid : ℤ
  pub client_list_mtx : ℤ
  pub netctl_init : ℤ
  pub net_init : ℤ
  pub calls : List Call

abbrev pub make : Call → Server → Server
make call s = record s { calls = call ∷ s.calls }

-- The labels at the end of `ftpvita_init`, the last one first.
pub error_netinit : Server → Server
error_netinit s = if s.net_memory then record (make free_net s) { net_memory = false } else s

pub error_netctlinit : Server → Server
error_netctlinit s =
    error_netinit
      (if is_zero s.net_init then record (make net_term s) { net_init = negsuc 0 } else s)

pub error_netctlgetinfo : Server → Server
error_netctlgetinfo s =
    error_netctlinit
      (if is_zero s.netctl_init then record (make netctl_term s) { netctl_init = negsuc 0 } else s)

pub error_server_thread : Server → Server
error_server_thread s =
    error_netctlgetinfo (record (make delete_mutex s) { client_list_mtx = negsuc 0 })

pub error_server_start : Server → Server
error_server_start s =
    error_server_thread (record (make delete_thread s) { server_thid = negsuc 0 })

module _ (system : System) where
  -- `for (i = 0; i < SERVER_START_TIMEOUT_MS && server_start_status == SERVER_START_PENDING; i++)`
  pub await_start : ℕ → Server → Server
  await_start zero s = s
  await_start (suc left) s =
      let rest = await_start left (make delay s) in
      if system.is_pending (system.start_status s.calls) then rest else s

  abbrev pub failed_status : ℤ → ℤ
  failed_status status = if system.is_pending status then negsuc 0 else status

  -- From the started thread on.
  pub finish_start : Server → ℤ × Server
  finish_start s =
      let s = await_start 2000 s in
      let status = system.start_status s.calls in
      if is_zero status then (pos 0, record s { ftp_initialized = true }) else (
        failed_status status,
        error_server_start (make wait_thread (make close_server_socket s)),
      )

  -- From the created thread on.
  pub start_server : Server → ℤ × Server
  start_server s =
      let ret = system.answer s.calls start_thread in
      let s = make start_thread s in
      if is_negative ret then (ret, error_server_start s) else finish_start s

  -- From the created mutex on.
  pub create_server : Server → ℤ × Server
  create_server s =
      let thid = system.answer s.calls create_thread in
      let s = record (make create_thread s) { server_thid = thid } in
      if is_negative thid then (thid, error_server_thread s) else start_server s

  -- From the address on.
  pub create_list_mutex : Server → ℤ × Server
  create_list_mutex s =
      let mtx = system.answer s.calls create_mutex in
      let s = record (make create_mutex s) { client_list_mtx = mtx } in
      if is_negative mtx then (mtx, error_netctlgetinfo s) else create_server s

  pub find_address : Server → ℤ × Server
  find_address s =
      let ret = system.answer s.calls get_ip_address in
      let s = make get_ip_address s in
      if is_negative ret then (ret, error_netctlgetinfo s) else create_list_mutex s

  -- From the initialised network on.
  pub init_netctl : Server → ℤ × Server
  init_netctl s =
      let ret = system.answer s.calls Call.netctl_init in
      let s = record (make Call.netctl_init s) { netctl_init = ret } in
      if is_negative ret && not (system.is_not_terminated ret)
      then (ret, error_netctlinit s)
      else find_address s

  pub init_net : Server → ℤ × Server
  init_net s =
      let block = system.answer s.calls allocate_net in
      let s = make allocate_net s in
      let s' = record s { net_memory = true } in
      let ret = system.answer s'.calls Call.net_init in
      let s'' = record (make Call.net_init s') { net_init = ret } in
      if is_zero block
      then (negsuc 0, error_netinit (record s { net_memory = false }))
      else if is_negative ret
      then (ret, error_netinit s'')
      else init_netctl s''

  -- From the test of `ftp_initialized` on.
  pub start_net : Server → ℤ × Server
  start_net s =
      let ret = system.answer s.calls show_netstat in
      let s' = make show_netstat s in
      if is_zero ret
      then init_netctl (record s' { net_init = negsuc 0 })
      else if system.is_not_initialized ret
      then init_net s'
      else (ret, s')

  pub ftpvita_init : Server → ℤ × Server
  ftpvita_init s = if s.ftp_initialized then (negsuc 0, s) else start_net s

-- The server thread and the list of clients.
abbrev pub end_server : Server → Server
end_server s =
    if is_negative s.server_thid
    then s
    else record (make delete_thread (make wait_thread s)) { server_thid = negsuc 0 }

abbrev pub end_list : Server → Server
end_list s =
    let s = make end_clients s in
    if is_negative s.client_list_mtx
    then s
    else record (make delete_mutex s) { client_list_mtx = negsuc 0 }

abbrev pub end_net : Server → Server
end_net s =
    let s = if is_zero s.netctl_init then make netctl_term s else s in
    let s = if is_zero s.net_init then make net_term s else s in
    let s = if s.net_memory then make free_net s else s in
    record s { netctl_init = negsuc 0; net_init = negsuc 0; net_memory = false }

pub ftpvita_fini : Server → Server
ftpvita_fini s =
    if s.ftp_initialized
    then end_net
        (end_list (end_server (make close_server_socket (record s { ftp_initialized = false }))))
    else s
