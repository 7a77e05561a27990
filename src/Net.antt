-- ===== src/Net.antt =====
-- src/net.c: the thread that follows the network and starts and stops the two servers. The calls are
-- recorded, the latest first, and what the system answers may depend on all calls before.
pub mod Services
pub mod Ending
pub mod Tests
use vitacompanion_vitadeck.Prelude.{
  ℕ, Bool, true, false, not, ◌&&◌, ◌||◌, List, [], ◌∷◌, leb, ◌==◌, if◌then◌else◌, ℤ, pos, negsuc,
  is_negative, Text, codes,
}

pub data Call : Type 0 where
  netctl_init get_state register_callback check_callback unregister_callback netctl_term delay :
      Call
  set_file_buf_size : ℕ → Call
  ftp_init : Call
  add_device : Text → Call
  cmd_start cmd_end ftp_fini : Call

-- The result of a call, the state that `sceNetCtlInetGetState` stores, the identifier that
-- `sceNetCtlInetRegisterCallback` stores, and whether a result of
-- `sceNetCtlInit` is NET_CTL_ERROR_NOT_TERMINATED.
pub record System : Type 0 where
  pub answer : List Call → Call → ℤ
  pub state : List Call → ℕ
  pub callback_id : List Call → ℤ
  pub is_not_terminated : ℤ → Bool

-- The variables of net.c, and the calls made.
pub record Net : Type 0 where
  pub all_is_up : Bool
  pub net_connected : Bool
  pub desired_connected : Bool
  pub netctl_initialized : Bool
  pub netctl_cb_id : ℤ
  pub calls : List Call

abbrev pub make : Call → Net → Net
make call n = record n { calls = call ∷ n.calls }

abbrev pub add_devices : Net → Net
add_devices n = make (add_device (codes "grw0:")) (
    make (add_device (codes "xmc0:")) (
      make (add_device (codes "imc0:")) (
        make (add_device (codes "uma0:"))
          (make (add_device (codes "ur0:")) (make (add_device (codes "ux0:")) n)))))

-- From `net_connected = 1` on.
pub start_commands : System → Net → ℤ × Net
start_commands system n =
    let ret = system.answer n.calls cmd_start in
    let n = make cmd_start (record n { net_connected = true }) in
    if is_negative ret
    then (negsuc 0, make ftp_fini (record n { net_connected = false }))
    else (pos 0, record n { all_is_up = true })

pub start_services : System → Net → ℤ × Net
start_services system n =
    let n = make (set_file_buf_size 65536) n in
    let ret = system.answer n.calls ftp_init in
    let n = make ftp_init n in
    if is_negative ret then (negsuc 0, n) else start_commands system (add_devices n)

pub stop_services : Net → Net
stop_services n =
    let n = record n { net_connected = false } in
    if not n.all_is_up then n else record (make ftp_fini (make cmd_end n)) { all_is_up = false }

pub netctl_cb : ℕ → Net → Net
netctl_cb event_type n =
    if event_type == 1 || event_type == 2
    then record n { desired_connected = false }
    else if event_type == 3
    then record n { desired_connected = true }
    else n

-- The events that `sceNetCtlCheckCallback` delivers.
pub deliver : List ℕ → Net → Net
deliver [] n = n
deliver (event_type ∷ events) n = deliver events (netctl_cb event_type n)

-- The choice in the body of the loop.
pub follow : System → Net → Net
follow system n =
    if n.desired_connected && not n.all_is_up
    then (start_services system n).1
    else if not n.desired_connected && n.all_is_up
    then stop_services n
    else n

-- `while (run)`, with the events of each turn until `run` is cleared.
pub net_loop : System → List (List ℕ) → Net → Net
net_loop system [] n = n
net_loop system (events ∷ turns) n =
    net_loop system turns (make delay (follow system (deliver events (make check_callback n))))

-- `ret = sceNetCtlInetGetState(&state); desired_connected = (ret >= 0 && state == 3);`
abbrev pub sample_state : System → Net → ℤ × Net
sample_state system n =
    let ret = system.answer n.calls get_state in
    let state = system.state n.calls in
    (ret, record (make get_state n) { desired_connected = not (is_negative ret) && state == 3 })

-- From `exit_netctl` on.
abbrev pub exit_netctl : ℤ → Net → ℤ × Net
exit_netctl ret n = (
  if is_negative ret then ret else pos 0,
  if n.netctl_initialized then record (make netctl_term n) { netctl_initialized = false } else n,
)

-- What follows the loop.
abbrev pub unregister : Net → Net
unregister n =
    if is_negative n.netctl_cb_id
    then n
    else record (make unregister_callback n) { netctl_cb_id = negsuc 0 }

-- From the registration on.
pub run_registered : System → List (List ℕ) → Net → ℤ × Net
run_registered system turns n =
    let ret = system.answer n.calls register_callback in
    let n = record (make register_callback n) { netctl_cb_id = system.callback_id n.calls } in
    if is_negative ret
    then exit_netctl ret n
    else let (ret, n) = sample_state system n in
      exit_netctl ret (unregister (stop_services (net_loop system turns n)))

pub net_thread : System → List (List ℕ) → Net → ℤ × Net
net_thread system turns n =
    let n = make delay n in
    let ret = system.answer n.calls netctl_init in
    let n = make netctl_init n in
    if is_negative ret && not (system.is_not_terminated ret)
    then (ret, n)
    else let n = record n { netctl_initialized = elim ret [ pos k ↦ k == 0 | negsuc k ↦ false ] } in
      let (_, n) = sample_state system n in run_registered system turns n
