-- ===== src/Cmd/Tests.antt =====
-- Runs of the command server at concrete inputs.
use vitacompanion_vitadeck.Prelude.{
  ℕ, ◌+◌, ◌-◌, ◌<◌, ◌≤◌, ◌≡◌, ◌↔◌, refl, min, true, none, some, List, [], arith, sym, ap, ◌∙◌,
  Bool-cases, inl, inr, if◌then◌else◌, leb, valid, pos, negsuc, Text, codes, line, snprintf, length,
  take, drop, take-take,
}
use vitacompanion_vitadeck.Cmd.Os.{FtpControl, Os}
use vitacompanion_vitadeck.Cmd.Parser.{parse_cmd}
use vitacompanion_vitadeck.Cmd.Parser.Words.{words, words_from, flush, strings_at}
use vitacompanion_vitadeck.Cmd.Parser.Split.{parse_cmd-words, parse_cmd-too_many_iff}
use vitacompanion_vitadeck.Cmd.Definitions.{no_shell_shot}
use vitacompanion_vitadeck.Cmd.Commands.{confirm_loop}
use vitacompanion_vitadeck.Cmd.Commands.Launch.{sees, confirm_loop-iff-sees}
use vitacompanion_vitadeck.Cmd.Server.{Received, arg_limit, dispatch, cmd_handle, receive_command}
use vitacompanion_vitadeck.Cmd.Server.Dispatch.{cmd_handle-words, cmd_handle-fits}
use vitacompanion_vitadeck.Cmd.Server.Framing.{RecvContract, IsFramed, receive_command-Framed}

abbrev stream : Text
stream = codes "launch ABCD00001\nversion\n"

-- The world counts the bytes of the stream that were received.
abbrev quiet_ftp : FtpControl ℕ
quiet_ftp = record {
  active_client_count = λ w. (pos 0, w);
  has_active_transfer = λ w. (pos 0, w);
  is_reboot_quiesced = λ w. (pos 0, w);
  timeout_failure_count = λ w. (pos 0, w);
  abort_clients = λ w. (pos 0, w);
  prepare_for_reboot = λ w. (true, pos 0, pos 0, w);
  cancel_reboot = λ w. w;
}

abbrev portion : ℕ → ℕ → ℕ
portion asked at = min (min asked 4) (length stream - at)

abbrev small_os : Os ℕ
small_os = record {
  ftp = quiet_ftp;
  install_vpk = λ path w. (pos 0, codes "ABCD00001", w);
  destroy_app_by_name = λ name w. (pos 0, w);
  destroy_other_app = λ w. w;
  app_id_active = λ w. (pos 1, w);
  process_id = λ app w. (pos 2, w);
  name_by_id = λ process seen w. (pos 0, codes "abcd00001", w);
  launch_app_by_uri = λ uri w. (pos 0, w);
  delay_thread = λ time w. w;
  request_cold_reset = λ w. (pos 0, w);
  display_on = λ w. w;
  display_off = λ w. w;
  battery_percent = λ w. (pos 80, w);
  is_battery_charging = λ w. (pos 1, w);
  shell_module = λ w. (negsuc 0, record { module_nid = 0; modid = pos 0 }, w);
  kernel_module_segment = λ modid segment w. (negsuc 0, record { memsz = 0; vaddr = 0 }, w);
  call_shell_shot = λ offset w. (pos 0, w);
  max_app_name_length = 31;
  error_invalid = negsuc 0;
  recv = λ sockfd asked at.
      (pos (portion asked at), take (portion asked at) (drop at stream), at + portion asked at);
  send = λ sockfd bytes w. (pos (length bytes), w);
  set_send_timeout = λ sockfd w. (pos 0, w);
  set_receive_timeout = λ sockfd w. (pos 0, w);
}

portion_window :
    (asked w : ℕ)
    → take (portion asked w) (take (portion asked w) (drop w stream))
      ≡ take (portion asked w) (drop (min w (length stream)) stream)
portion_window asked w = elim (Bool-cases (leb w 25)) [
  | inl within ↦
      let here : min w 25 ≡ w = ground (arith, within) in
      take-take (portion asked w) (portion asked w) (drop w stream) (omega arith)
      ∙ ap (λ (j : ℕ). take (portion asked w) (drop j stream)) (sym here)
  | inr behind ↦ let stopped : portion asked w ≡ 0 = ground (arith, behind) in rw (stopped) refl
]

few_words : length (words (codes "launch ABCD00001\n")) ≤ 20
unfolding words words_from flush
few_words = omega arith

-- The socket delivers nothing behind the end of the stream, so that the count stops there.
abbrev small_recv : RecvContract small_os (pos 3) stream
small_recv = record {
  taken = λ w. min w (length stream);
  recv_bytes = λ w asked good. (omega arith, omega arith, portion_window asked w, omega arith);
  recv_end = λ w asked room good over. omega (arith, over);
}

receive_command-Framed_example :
    (r : Received × ℕ) × (receive_command small_os (pos 3) 10 0 ≡ some r)
    × IsFramed small_os (pos 3) 10 0 stream r
receive_command-Framed_example = receive_command-Framed small_os (pos 3) stream small_recv 10 0

abbrev launch_line : Text
launch_line = codes "launch ABCD00001\n"

cmd_handle-words_example : cmd_handle small_os launch_line 17 [] 100 no_shell_shot 0 ≡ (
    if leb (length (words launch_line)) arg_limit
    then dispatch small_os (words launch_line) [] 100 no_shell_shot 0
    else (snprintf 100 (line "Error: Too many arguments."), no_shell_shot, 0))
cmd_handle-words_example = cmd_handle-words small_os launch_line [] 100 no_shell_shot 0

cmd_handle-fits_example : length (cmd_handle small_os launch_line 17 [] 100 no_shell_shot 0).0 < 100
cmd_handle-fits_example =
    cmd_handle-fits small_os launch_line 17 [] 100 no_shell_shot 0 (omega arith) (omega arith)

parse_cmd-words_example :
    (buffer : Text) × (args : List ℕ) × (parse_cmd valid launch_line 17 valid 20
      ≡ some (buffer, args))
    × (length buffer ≡ 17)
    × (strings_at buffer args ≡ words launch_line)
parse_cmd-words_example = parse_cmd-words launch_line 20 (omega arith) few_words

parse_cmd-too_many_iff_example :
    (parse_cmd valid launch_line 17 valid 1 ≡ none) ↔ (1 < length (words launch_line))
parse_cmd-too_many_iff_example = parse_cmd-too_many_iff launch_line 1 (omega arith)

confirm_loop-iff-sees_example :
    ((confirm_loop small_os 3 (codes "ABCD00001") [] 0).0 ≡ true)
    ↔ ((k : ℕ) × (k < 3) × (sees small_os k (codes "ABCD00001") [] 0 ≡ true))
confirm_loop-iff-sees_example = confirm_loop-iff-sees small_os 3 (codes "ABCD00001") [] 0
