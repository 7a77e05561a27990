-- ===== src/Cmd/Commands/Replies.antt =====
-- Every reply is a string that fits its buffer.
use vitacompanion_vitadeck.Prelude.{
  ℕ, ◌-◌, ◌<◌, Bool, true, false, List, [], ◌∷◌, arith, if◌then◌else◌, Bool-cases, Option-cases,
  codes, inl, inr, Text, length, length-append, snprintf, length-snprintf,
}
use vitacompanion_vitadeck.Cmd.Os.{Os}
use vitacompanion_vitadeck.Cmd.Definitions.{
  Executor, version, help, destroy, foreground, install, launch, kill, ftpstatus, ftpreset, reboot,
  screen, battery, screenshot, CmdDefinition, append_response, cmd_help, ShellShot, init_shellshot,
  help_entries, cmd_definitions,
}
use vitacompanion_vitadeck.Cmd.Commands.{
  execute, cmd_launch, cmd_reboot, cmd_screen, cmd_screenshot,
}

append_response-fits :
    (res_msg : Text) (size : ℕ) (text : Text)
    → length res_msg < size
    → length (append_response res_msg size text) < size
unfolding append_response
append_response-fits res_msg size text h = ground (
  arith,
  length-append res_msg (snprintf (size - length res_msg) text),
  length-snprintf (size - length res_msg) text,
)

help_entries-fits :
    (ds : List CmdDefinition) (res_msg : Text) (size : ℕ)
    → length res_msg < size
    → length (help_entries ds res_msg size) < size
unfolding help_entries
help_entries-fits [] res_msg size h = h
help_entries-fits (d ∷ ds) res_msg size h =
    help_entries-fits ds _ size (append_response-fits res_msg size _ h)

either-fits :
    {W : Type 0} (b : Bool) (p q : Text × W) (size : ℕ)
    → length p.0 < size
    → length q.0 < size
    → length (if b then p else q).0 < size
either-fits true p q size hp hq = hp
either-fits false p q size hp hq = hq

module _ {W : Type 0} (os : Os W) where
  screenshot-fits :
      (size : ℕ) (shot : ShellShot) (w : W)
      → 0 < size
      → length (cmd_screenshot os size shot w).0 < size
  unfolding cmd_screenshot
  screenshot-fits size shot w h =
      let next = (init_shellshot os shot w).0 in
      elim (Bool-cases next.available) [
        | inr gone ↦ rw gone (length-snprintf size _ h)
        | inl there ↦ elim (Option-cases next.shell_shot) [
          | inl e ↦ rw (there, e) (length-snprintf size _ h)
          | inr (address, e) ↦ rw (there, e) (length-snprintf size _ h)
        ]
      ]

  cmd_help-fits :
      (res_msg : Text) (size : ℕ) → length res_msg < size → length (cmd_help res_msg size) < size
  unfolding cmd_help
  cmd_help-fits res_msg size r = append_response-fits _ size (10 ∷ []) (
      help_entries-fits cmd_definitions _ size
        (append_response-fits res_msg size (codes "Commands") r))

  launch-fits :
      (args : List Text) (size : ℕ) (w : W) → 0 < size → length (cmd_launch os args size w).0 < size
  unfolding cmd_launch
  launch-fits args size w h = grind (arith, length-snprintf)

  reboot-fits : (size : ℕ) (w : W) → 0 < size → length (cmd_reboot os size w).0 < size
  unfolding cmd_reboot
  reboot-fits size w h = grind (arith, length-snprintf)

  screen-fits :
      (args : List Text) (size : ℕ) (w : W) → 0 < size → length (cmd_screen os args size w).0 < size
  unfolding cmd_screen
  screen-fits args size w h = grind (arith, length-snprintf)

  -- The reply of every command, on every branch, is a string that fits the response buffer with its
  -- NUL, when the buffer is not empty and the string that it holds before fits it.
  pub execute-fits :
      (e : Executor) (args : List Text) (res_msg : Text) (size : ℕ) (shot : ShellShot) (w : W)
      → 0 < size
      → length res_msg < size
      → length (execute os e args res_msg size shot w).0 < size
  unfolding execute
  execute-fits version args res_msg size shot w h r = length-snprintf size _ h
  execute-fits help args res_msg size shot w h r = cmd_help-fits res_msg size r
  execute-fits destroy args res_msg size shot w h r = length-snprintf size _ h
  execute-fits foreground args res_msg size shot w h r =
      either-fits _ _ _ size (length-snprintf size _ h) (length-snprintf size _ h)
  execute-fits install args res_msg size shot w h r =
      either-fits _ _ _ size (length-snprintf size _ h) (length-snprintf size _ h)
  execute-fits launch args res_msg size shot w h r = launch-fits args size w h
  execute-fits kill args res_msg size shot w h r =
      either-fits _ _ _ size (length-snprintf size _ h) (length-snprintf size _ h)
  execute-fits ftpstatus args res_msg size shot w h r = length-snprintf size _ h
  execute-fits ftpreset args res_msg size shot w h r = length-snprintf size _ h
  execute-fits reboot args res_msg size shot w h r = reboot-fits size w h
  execute-fits screen args res_msg size shot w h r = screen-fits args size w h
  execute-fits battery args res_msg size shot w h r =
      either-fits _ _ _ size (length-snprintf size _ h) (length-snprintf size _ h)
  execute-fits screenshot args res_msg size shot w h r = screenshot-fits size shot w h
