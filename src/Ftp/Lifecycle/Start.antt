-- ===== src/Ftp/Lifecycle/Start.antt =====
-- What a start comes to on each path, and the shutdown behind it.
use vitacompanion_vitadeck.Prelude.{arith}
use vitacompanion_vitadeck.Ftp.Lifecycle.{System, Server, ftpvita_fini}
use vitacompanion_vitadeck.Ftp.Lifecycle.Balance.{open_parts, in_order, Down, Up}

-- From a server that is up, the shutdown closes all that is open, the last opened first: the server
-- thread, the mutex, the network control, the network and its block.
pub ftpvita_fini-Down : (system : System) (s : Server) → Up system s → Down system (ftpvita_fini s)
unfolding ftpvita_fini open_parts in_order
ftpvita_fini-Down system s u =
    let p = u.tells.parts in
    let o = u.tells.ordered in
    let on = u.started in
    let running = u.running in
    let locked = u.locked in
    record {
      tells = record { parts = ground arith; ordered = ground arith };
      closed = ground arith;
      stopped = ground arith;
    }
