-- ===== src/Ftp/Lifecycle/Balance.antt =====
-- What the start acquires, and what its error labels give up.
use vitacompanion_vitadeck.Prelude.{
  ◌≡◌, ◌≢◌, ◌⊎◌, refl, Bool, true, false, ◌&&◌, List, [], ◌∷◌, if◌then◌else◌, ℤ, pos, negsuc,
  is_negative, arith,
}
use vitacompanion_vitadeck.Ftp.Retr.{is_zero}
use vitacompanion_vitadeck.Ftp.Lifecycle.{
  Call, allocate_net, net_init, netctl_init, create_mutex, create_thread, delete_thread,
  delete_mutex, netctl_term, net_term, free_net, System, Server, make, error_netinit,
  error_netctlinit, error_netctlgetinfo, error_server_thread, error_server_start, failed_status,
}

pub data Part : Type 0 where
  memory network control mutex thread : Part

abbrev pub drop_last : List Part → List Part
drop_last [] = []
drop_last (p ∷ parts) = parts

-- What a call with its answer adds; a result of 0 means that this call has initialised its part.
abbrev pub opens : Call → ℤ → List Part → List Part
opens allocate_net a parts = if is_zero a then parts else memory ∷ parts
opens net_init a parts = if is_zero a then network ∷ parts else parts
opens netctl_init a parts = if is_zero a then control ∷ parts else parts
opens create_mutex a parts = if is_negative a then parts else mutex ∷ parts
opens create_thread a parts = if is_negative a then parts else thread ∷ parts
opens free_net a parts = drop_last parts
opens net_term a parts = drop_last parts
opens netctl_term a parts = drop_last parts
opens delete_mutex a parts = drop_last parts
opens delete_thread a parts = drop_last parts
opens _ a parts = parts

-- The parts that are open after the calls, the last opened first.
unfoldable pub open_parts : System → List Call → List Part
open_parts system [] = []
open_parts system (call ∷ calls) = opens call (system.answer calls call) (open_parts system calls)

-- Whether a call that closes a part finds it opened last.
abbrev pub closes_last : Call → List Part → Bool
closes_last free_net (memory ∷ parts) = true
closes_last free_net _ = false
closes_last net_term (network ∷ parts) = true
closes_last net_term _ = false
closes_last netctl_term (control ∷ parts) = true
closes_last netctl_term _ = false
closes_last delete_mutex (mutex ∷ parts) = true
closes_last delete_mutex _ = false
closes_last delete_thread (thread ∷ parts) = true
closes_last delete_thread _ = false
closes_last _ parts = true

unfoldable pub in_order : System → List Call → Bool
in_order system [] = true
in_order system (call ∷ calls) = in_order system calls && closes_last call (open_parts system calls)

-- The parts that the variables tell of.
abbrev pub net_parts : Server → List Part
net_parts s =
    let parts = if s.net_memory then memory ∷ [] else [] in
    let parts = if is_zero s.net_init then network ∷ parts else parts in
    if is_zero s.netctl_init then control ∷ parts else parts

abbrev pub parts_of : Server → List Part
parts_of s =
    let parts = if is_negative s.client_list_mtx then net_parts s else mutex ∷ net_parts s in
    if is_negative s.server_thid then parts else thread ∷ parts

-- The variables tell what is open, and all was closed in order.
pub record Tells (system : System) (s : Server) : Type 0 where
  pub parts : open_parts system s.calls ≡ parts_of s
  pub ordered : in_order system s.calls ≡ true

-- Nothing is open, and the variables say so.
pub record Down (system : System) (s : Server) : Type 0 where
  pub tells : Tells system s
  pub closed : open_parts system s.calls ≡ []
  pub stopped : s.ftp_initialized ≡ false

module _ (system : System) (s : Server) where
  pub error_netctlgetinfo-Down :
      Tells system s
      → is_negative s.server_thid ≡ true
      → is_negative s.client_list_mtx ≡ true
      → s.ftp_initialized ≡ false
      → Down system (error_netctlgetinfo s)
  unfolding error_netctlgetinfo error_netctlinit error_netinit open_parts in_order
  error_netctlgetinfo-Down t no_thread no_mutex off =
      let p = t.parts in
      let o = t.ordered in
      record {
        tells = record { parts = ground arith; ordered = ground arith };
        closed = ground arith;
        stopped = ground arith;
      }

  pub error_netctlinit-Down :
      Tells system s
      → is_negative s.server_thid ≡ true
      → is_negative s.client_list_mtx ≡ true
      → is_zero s.netctl_init ≡ false
      → s.ftp_initialized ≡ false
      → Down system (error_netctlinit s)
  unfolding error_netctlinit error_netinit open_parts in_order
  error_netctlinit-Down t no_thread no_mutex no_control off =
      let p = t.parts in
      let o = t.ordered in
      record {
        tells = record { parts = ground arith; ordered = ground arith };
        closed = ground arith;
        stopped = ground arith;
      }

  pub error_netinit-Down :
      Tells system s
      → is_negative s.server_thid ≡ true
      → is_negative s.client_list_mtx ≡ true
      → is_zero s.netctl_init ≡ false
      → is_zero s.net_init ≡ false
      → s.ftp_initialized ≡ false
      → Down system (error_netinit s)
  unfolding error_netinit open_parts in_order
  error_netinit-Down t no_thread no_mutex no_control no_network off =
      let p = t.parts in
      let o = t.ordered in
      record {
        tells = record { parts = ground arith; ordered = ground arith };
        closed = ground arith;
        stopped = ground arith;
      }

module _ (system : System) (s : Server) where
  pub error_server_thread-Down :
      Tells system s
      → is_negative s.server_thid ≡ true
      → is_negative s.client_list_mtx ≡ false
      → s.ftp_initialized ≡ false
      → Down system (error_server_thread s)
  unfolding error_server_thread open_parts in_order
  error_server_thread-Down t no_thread there off =
      let p = t.parts in
      let o = t.ordered in
      error_netctlgetinfo-Down system (record (make delete_mutex s) { client_list_mtx = negsuc 0 })
        (record { parts = ground arith; ordered = ground arith }) no_thread refl off

  pub error_server_start-Down :
      Tells system s
      → is_negative s.server_thid ≡ false
      → is_negative s.client_list_mtx ≡ false
      → s.ftp_initialized ≡ false
      → Down system (error_server_start s)
  unfolding error_server_start error_server_thread open_parts in_order
  error_server_start-Down t running there off =
      let p = t.parts in
      let o = t.ordered in
      let s' = record (make delete_thread s) { server_thid = negsuc 0 } in
      error_netctlgetinfo-Down system (record (make delete_mutex s') { client_list_mtx = negsuc 0 })
        (record { parts = ground arith; ordered = ground arith }) refl refl off

pub negative-nonzero : (a : ℤ) → is_negative a ≡ true → a ≢ pos 0
negative-nonzero a h = ground arith

pub minus_one-nonzero : negsuc 0 ≢ pos 0
minus_one-nonzero h = ground arith

pub failed_status-nonzero :
    (system : System) (status : ℤ) → is_zero status ≡ false → failed_status system status ≢ pos 0
failed_status-nonzero system status h = ground arith

-- The server is up, and its variables tell what is open.
pub record Up (system : System) (s : Server) : Type 0 where
  pub tells : Tells system s
  pub running : is_negative s.server_thid ≡ false
  pub locked : is_negative s.client_list_mtx ≡ false
  pub started : s.ftp_initialized ≡ true

-- The start has succeeded and the server is up, or it has failed and nothing is left open.
abbrev pub Settled : System → ℤ × Server → Type 0
Settled system (ret, s) = ((ret ≡ pos 0) × Up system s) ⊎ ((ret ≢ pos 0) × Down system s)
