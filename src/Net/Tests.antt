-- ===== src/Net/Tests.antt =====
-- A network that comes and goes, and a command server that cannot be started the first time.
use vitacompanion_vitadeck.Prelude.{
  ℕ, ◌≡◌, refl, true, false, List, [], ◌∷◌, if◌then◌else◌, ℤ, pos, negsuc, length, ltb,
}
use vitacompanion_vitadeck.Net.{Call, cmd_start, System, Net, follow, net_thread}
use vitacompanion_vitadeck.Net.Services.{ftp_up, cmd_up, in_order, Follows, IsTurned, follow_lem}
use vitacompanion_vitadeck.Net.Ending.{IsDown, net_start_state, net_thread-IsDown}

abbrev first_start_fails : List Call → Call → ℤ
first_start_fails before cmd_start = if ltb (length before) 20 then negsuc 0 else pos 0
first_start_fails before call = pos 0

abbrev flaky : System
flaky = record {
  answer = first_start_fails;
  state = λ before. 3;
  callback_id = λ before. pos 7;
  is_not_terminated = λ ret. false;
}

abbrev turns : List (List ℕ)
turns = [] ∷ [] ∷ (1 ∷ []) ∷ (2 ∷ 3 ∷ []) ∷ []

net_thread-IsDown_example :
    let n = (net_thread flaky turns net_start_state).1 in IsDown flaky n.net_connected n.calls
net_thread-IsDown_example = net_thread-IsDown flaky turns

abbrev wanted : Net
wanted = record net_start_state { desired_connected = true }

wanted-Follows : Follows flaky wanted
unfolding ftp_up cmd_up in_order
wanted-Follows = record { ftp = refl; cmd = refl; connected = refl; ordered = refl }

follow_lem_example :
    IsTurned flaky wanted (follow flaky wanted)
    × (in_order flaky (follow flaky wanted).calls ≡ true)
follow_lem_example = follow_lem flaky wanted wanted-Follows
