-- ===== src/Net/Services.antt =====
-- The two servers run exactly while the network thread has them up.
use vitacompanion_vitadeck.Prelude.{
  ℕ, ◌≡◌, refl, ◌∙◌, Bool, true, false, not, ◌&&◌, ◌||◌, List, [], ◌∷◌, arith, Bool-cases, inl, inr,
  ◌⊎◌, ◌==◌, is_negative,
}
use vitacompanion_vitadeck.Net.{
  Call, check_callback, delay, ftp_init, add_device, cmd_start, cmd_end, ftp_fini, System, Net,
  make, start_commands, start_services, stop_services, netctl_cb, deliver, follow, net_loop,
}

-- Whether a server runs after the calls.
unfoldable pub ftp_up : System → List Call → Bool
ftp_up system [] = false
ftp_up system (ftp_init ∷ before) =
    ftp_up system before || not (is_negative (system.answer before ftp_init))
ftp_up system (ftp_fini ∷ before) = false
ftp_up system (_ ∷ before) = ftp_up system before

unfoldable pub cmd_up : System → List Call → Bool
cmd_up system [] = false
cmd_up system (cmd_start ∷ before) =
    cmd_up system before || not (is_negative (system.answer before cmd_start))
cmd_up system (cmd_end ∷ before) = false
cmd_up system (_ ∷ before) = cmd_up system before

-- Whether each call came when it may: a server is started while it is down and ended while it is up,
-- the command server only runs while the FTP server does, and devices are added to a running server.
unfoldable pub in_order : System → List Call → Bool
unfolding ftp_up cmd_up
in_order system [] = true
in_order system (ftp_init ∷ before) = in_order system before && not (ftp_up system before)
in_order system (add_device d ∷ before) = in_order system before && ftp_up system before
in_order system (cmd_start ∷ before) =
    in_order system before && (ftp_up system before && not (cmd_up system before))
in_order system (cmd_end ∷ before) = in_order system before && cmd_up system before
in_order system (ftp_fini ∷ before) =
    in_order system before && (ftp_up system before && not (cmd_up system before))
in_order system (_ ∷ before) = in_order system before

-- Both servers run when the thread has them up, and none when it has not.
pub record Follows (system : System) (n : Net) : Type 0 where
  pub ftp : ftp_up system n.calls ≡ n.all_is_up
  pub cmd : cmd_up system n.calls ≡ n.all_is_up
  pub connected : n.net_connected ≡ n.all_is_up
  pub ordered : in_order system n.calls ≡ true

start_services-Follows :
    (system : System) (n : Net)
    → Follows system n
    → n.all_is_up ≡ false
    → Follows system (start_services system n).1
unfolding start_services start_commands ftp_up cmd_up in_order
start_services-Follows system n f down = record {
  ftp = ground (arith, f.ftp, down);
  cmd = ground (arith, f.cmd, down);
  connected = ground (arith, f.connected, down);
  ordered = ground (arith, f.ftp, f.cmd, f.ordered, down);
}

pub stop_services-Follows :
    (system : System) (n : Net) → Follows system n → Follows system (stop_services n)
unfolding stop_services ftp_up cmd_up in_order
stop_services-Follows system n f = record {
  ftp = ground (arith, f.ftp);
  cmd = ground (arith, f.cmd);
  connected = ground arith;
  ordered = ground (arith, f.ftp, f.cmd, f.ordered);
}

netctl_cb-Follows :
    (system : System) (event_type : ℕ) (n : Net)
    → Follows system n
    → Follows system (netctl_cb event_type n)
unfolding netctl_cb
netctl_cb-Follows system event_type n f = elim (Bool-cases (event_type == 1 || event_type == 2)) [
  | inl lost ↦
      rw (lost) (record { ftp = f.ftp; cmd = f.cmd; connected = f.connected; ordered = f.ordered })
  | inr other ↦ elim (Bool-cases (event_type == 3)) [
    | inl found ↦
        rw (other, found)
          (record { ftp = f.ftp; cmd = f.cmd; connected = f.connected; ordered = f.ordered })
    | inr none_of_them ↦ rw (other, none_of_them) f
  ]
]

deliver-Follows :
    (system : System) (events : List ℕ) (n : Net)
    → Follows system n
    → Follows system (deliver events n)
unfolding deliver
deliver-Follows system [] n f = f
deliver-Follows system (event_type ∷ events) n f =
    deliver-Follows system events (netctl_cb event_type n) (netctl_cb-Follows system event_type n f)

follow-Follows : (system : System) (n : Net) → Follows system n → Follows system (follow system n)
unfolding follow
follow-Follows system n f = elim (Bool-cases (n.desired_connected && not n.all_is_up)) [
  | inl start ↦ rw (start) (start_services-Follows system n f (ground arith))
  | inr keep ↦ elim (Bool-cases (not n.desired_connected && n.all_is_up)) [
    | inl stop ↦ rw (keep, stop) (stop_services-Follows system n f)
    | inr same ↦ rw (keep, same) f
  ]
]

-- Calls that are neither a start nor an end of a server.
abbrev pub is_plain : Call → Bool
is_plain ftp_init = false
is_plain (add_device d) = false
is_plain cmd_start = false
is_plain cmd_end = false
is_plain ftp_fini = false
is_plain _ = true

plain_call :
    (system : System) (call : Call) (before : List Call)
    → is_plain call ≡ true
    → (ftp_up system (call ∷ before) ≡ ftp_up system before)
      × (cmd_up system (call ∷ before) ≡ cmd_up system before)
      × (in_order system (call ∷ before) ≡ in_order system before)
unfolding ftp_up cmd_up in_order
plain_call system ftp_init before plain = cc
plain_call system (add_device d) before plain = cc
plain_call system cmd_start before plain = cc
plain_call system cmd_end before plain = cc
plain_call system ftp_fini before plain = cc
plain_call system _ before plain = (refl, refl, refl)

pub make-Follows :
    (system : System) (call : Call) (n : Net)
    → is_plain call ≡ true
    → Follows system n
    → Follows system (make call n)
make-Follows system call n plain f =
    let same = plain_call system call n.calls plain in
    record {
      ftp = same.0 ∙ f.ftp;
      cmd = same.1 ∙ f.cmd;
      connected = f.connected;
      ordered = same.2 ∙ f.ordered;
    }

pub net_loop-Follows :
    (system : System) (turns : List (List ℕ)) (n : Net)
    → Follows system n
    → Follows system (net_loop system turns n)
unfolding net_loop
net_loop-Follows system [] n f = f
net_loop-Follows system (events ∷ turns) n f = net_loop-Follows system turns _ (
    make-Follows system delay _ refl (
      follow-Follows system _
        (deliver-Follows system events _ (make-Follows system check_callback n refl f))))

start_services_lem :
    (system : System) (n : Net)
    → n.all_is_up ≡ false
    → (start_services system n).1.all_is_up ≡ not (is_negative (start_services system n).0)
unfolding start_services start_commands
start_services_lem system n down = ground (arith, down)

pub stop_services_lem : (n : Net) → (stop_services n).all_is_up ≡ false
unfolding stop_services
stop_services_lem n = ground arith

-- After a turn the servers are where the network is, or a start of them was wanted and has failed, and
-- then both are down.
abbrev pub IsTurned : System → Net → Net → Type 0
IsTurned system n after =
    ((ftp_up system after.calls ≡ n.desired_connected)
      × ((cmd_up system after.calls ≡ n.desired_connected)
          × (after.all_is_up ≡ n.desired_connected)))
    ⊎ ((n.desired_connected ≡ true)
        × ((is_negative (start_services system n).0 ≡ true)
            × ((ftp_up system after.calls ≡ false)
                × ((cmd_up system after.calls ≡ false) × (after.all_is_up ≡ false)))))

all_is_up_lem :
    (system : System) (n : Net)
    → ((follow system n).all_is_up ≡ n.desired_connected)
      ⊎ ((n.desired_connected ≡ true)
          × ((follow system n).all_is_up ≡ false)
          × (is_negative (start_services system n).0 ≡ true))
unfolding follow
all_is_up_lem system n = elim (Bool-cases (n.desired_connected && not n.all_is_up)) [
  | inl start ↦
      let started = start_services_lem system n (ground arith) in
      elim (Bool-cases (is_negative (start_services system n).0)) [
        | inl failed ↦ inr (ground arith, rw (start) (ground (arith, started, failed)), failed)
        | inr fine ↦ inl (rw (start) (ground (arith, started, fine, start)))
      ]
  | inr keep ↦ elim (Bool-cases (not n.desired_connected && n.all_is_up)) [
    | inl stop ↦ inl (rw (keep, stop) (ground (arith, stop_services_lem n, stop)))
    | inr same ↦ inl (rw (keep, same) (ground (arith, keep, same)))
  ]
]

-- When the two servers run exactly while the thread has them up, then one turn of the thread brings both
-- servers, and what the thread has of them, to where the network is, unless a start was wanted and has
-- failed: then both are down, and the thread has them down. Every start and end in it comes when it may.
pub follow_lem :
    (system : System) (n : Net)
    → Follows system n
    → IsTurned system n (follow system n) × (in_order system (follow system n).calls ≡ true)
follow_lem system n f =
    let after = follow-Follows system n f in
    (
      elim (all_is_up_lem system n) [
        | inl there ↦ inl (after.ftp ∙ there, (after.cmd ∙ there, there))
        | inr (wanted, down, failed) ↦
            inr (wanted, (failed, (after.ftp ∙ down, (after.cmd ∙ down, down))))
      ],
      after.ordered,
    )
