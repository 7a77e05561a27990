-- ===== src/Net/Ending.antt =====
-- What the network thread leaves behind.
use vitacompanion_vitadeck.Prelude.{
  ℕ, ◌≡◌, refl, ◌∙◌, Bool, true, false, not, ◌&&◌, List, [], ◌∷◌, Bool-cases, inl, inr, ◌==◌, ℤ,
  pos, negsuc, is_negative,
}
use vitacompanion_vitadeck.Net.{
  Call, netctl_init, get_state, register_callback, unregister_callback, netctl_term, delay, System,
  Net, make, stop_services, net_loop, sample_state, exit_netctl, unregister, run_registered,
  net_thread,
}
use vitacompanion_vitadeck.Net.Services.{
  ftp_up, cmd_up, in_order, Follows, stop_services-Follows, make-Follows, net_loop-Follows,
  stop_services_lem,
}

-- The variables before the thread starts.
abbrev pub net_start_state : Net
net_start_state = record {
  all_is_up = false;
  net_connected = false;
  desired_connected = false;
  netctl_initialized = false;
  netctl_cb_id = negsuc 0;
  calls = [];
}

-- Nothing is up, and all calls came when they may.
pub record IsDown (system : System) (connected : Bool) (calls : List Call) : Type 0 where
  pub ftp_down : ftp_up system calls ≡ false
  pub cmd_down : cmd_up system calls ≡ false
  pub disconnected : connected ≡ false
  pub ordered : in_order system calls ≡ true

Follows-IsDown :
    (system : System) (n : Net)
    → Follows system n
    → n.all_is_up ≡ false
    → IsDown system n.net_connected n.calls
Follows-IsDown system n f down = record {
  ftp_down = f.ftp ∙ down;
  cmd_down = f.cmd ∙ down;
  disconnected = f.connected ∙ down;
  ordered = f.ordered;
}

exit_netctl-IsDown :
    (system : System) (ret : ℤ) (n : Net)
    → Follows system n
    → n.all_is_up ≡ false
    → IsDown system (exit_netctl ret n).1.net_connected (exit_netctl ret n).1.calls
exit_netctl-IsDown system ret n f down = elim (Bool-cases n.netctl_initialized) [
  | inl initialized ↦
      rw (initialized)
        (Follows-IsDown system (make netctl_term n) (make-Follows system netctl_term n refl f) down)
  | inr not_initialized ↦ rw (not_initialized) (Follows-IsDown system n f down)
]

unregister-Follows :
    (system : System) (n : Net)
    → Follows system n
    → n.all_is_up ≡ false
    → Follows system (unregister n) × ((unregister n).all_is_up ≡ false)
unregister-Follows system n f down =
    let made = make-Follows system unregister_callback n refl f in
    elim (Bool-cases (is_negative n.netctl_cb_id)) [
      | inl never ↦ rw (never) (f, down)
      | inr registered ↦ rw (registered) (
        record {
          ftp = made.ftp;
          cmd = made.cmd;
          connected = made.connected;
          ordered = made.ordered;
        },
        down,
      )
    ]

sample_state-Follows :
    (system : System) (n : Net) → Follows system n → Follows system (sample_state system n).1
sample_state-Follows system n f =
    let made = make-Follows system get_state n refl f in
    record { ftp = made.ftp; cmd = made.cmd; connected = made.connected; ordered = made.ordered }

run_registered-IsDown :
    (system : System) (turns : List (List ℕ)) (n : Net)
    → Follows system n
    → n.all_is_up ≡ false
    → IsDown system
        (run_registered system turns n).1.net_connected
        (run_registered system turns n).1.calls
unfolding run_registered
run_registered-IsDown system turns n f down =
    let made = make-Follows system register_callback n refl f in
    let start : Net = record (make register_callback n) {
      netctl_cb_id = system.callback_id n.calls;
    } in
    let f' : Follows system start = record {
      ftp = made.ftp;
      cmd = made.cmd;
      connected = made.connected;
      ordered = made.ordered;
    } in
    elim (Bool-cases (is_negative (system.answer n.calls register_callback))) [
      | inl failed ↦
          rw (failed)
            (exit_netctl-IsDown system (system.answer n.calls register_callback) start f' down)
      | inr fine ↦
          let sampled = sample_state system start in
          let last = net_loop system turns sampled.1 in
          let followed =
            net_loop-Follows system turns sampled.1 (sample_state-Follows system start f') in
          let stopped =
            unregister-Follows system (stop_services last)
              (stop_services-Follows system last followed) (stop_services_lem last) in
          rw (fine) (
            exit_netctl-IsDown system sampled.0 (unregister (stop_services last)) stopped.0
              stopped.1)
    ]

net_start_state-Follows : (system : System) → Follows system net_start_state
unfolding ftp_up cmd_up in_order
net_start_state-Follows system = record { ftp = refl; cmd = refl; connected = refl; ordered = refl }

-- However the system answers and whatever the network does, when the thread has ended neither server
-- runs and the command thread is told so, and every start and end of a server came when it may: none
-- was started twice, the command server was only started while the FTP server ran, and was ended
-- before it.
pub net_thread-IsDown :
    (system : System) (turns : List (List ℕ))
    → let n = (net_thread system turns net_start_state).1 in IsDown system n.net_connected n.calls
unfolding net_thread
net_thread-IsDown system turns =
    let ret = system.answer (delay ∷ []) netctl_init in
    let begun =
      make-Follows system netctl_init (make delay net_start_state) refl
        (make-Follows system delay net_start_state refl (net_start_state-Follows system)) in
    let n : Net = record (make netctl_init (make delay net_start_state)) {
      netctl_initialized = elim ret [ pos k ↦ k == 0 | negsuc k ↦ false ];
    } in
    let begun' : Follows system n = record {
      ftp = begun.ftp;
      cmd = begun.cmd;
      connected = begun.connected;
      ordered = begun.ordered;
    } in
    elim (Bool-cases (is_negative ret && not (system.is_not_terminated ret))) [
      | inl failed ↦
          rw (failed)
            (Follows-IsDown system (make netctl_init (make delay net_start_state)) begun refl)
      | inr fine ↦ rw (fine) (
          run_registered-IsDown system turns (sample_state system n).1
            (sample_state-Follows system n begun') refl)
    ]
