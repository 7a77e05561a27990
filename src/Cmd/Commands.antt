-- ===== src/Cmd/Commands.antt =====
-- src/cmd_definitions.c: the executors that call the system.
pub mod Launch
pub mod Replies
use vitacompanion_vitadeck.Prelude.{
  ℕ, zero, suc, ◌+◌, ◌-◌, ◌*◌, ◌≤◌, ◌<◌, Bool, true, false, not, ◌&&◌, ◌||◌, Option, none, some,
  List, [], ◌∷◌, ◌++◌, ltb, leb, ◌==◌, if◌then◌else◌, ℤ, pos, negsuc, is_negative, Text, codes,
  text_eq, length, take, get_or, line, int_text, hex_text, snprintf,
}
use vitacompanion_vitadeck.Cmd.Os.{Os}
use vitacompanion_vitadeck.Cmd.Definitions.{
  Executor, version, help, destroy, foreground, install, launch, kill, ftpstatus, ftpreset, reboot,
  screen, battery, screenshot, cmd_version, cmd_help, title_ids_equal, confirm_attempts,
  confirm_interval_us, ShellShot, init_shellshot,
}

-- `x <= 0`
abbrev pub is_not_positive : ℤ → Bool
is_not_positive (pos n) = n == 0
is_not_positive (negsuc n) = true

abbrev is_zero : ℤ → Bool
is_zero (pos n) = n == 0
is_zero (negsuc n) = false

module _ {W : Type 0} (os : Os W) where
  open os use {ftp}

  abbrev pub title_id_size : ℕ
  title_id_size = os.max_app_name_length + 1

  cmd_kill : List Text → ℕ → W → Text × W
  cmd_kill args size w =
      let (result, w') = os.destroy_app_by_name (get_or args 1 []) w in
      if is_negative result
      then (snprintf size (line "Error: cannot kill the app. Is the TITLEID correct?"), w')
      else (snprintf size (line "Killed."), w')

  cmd_destroy : ℕ → W → Text × W
  cmd_destroy size w = (snprintf size (line "Apps destroyed."), os.destroy_other_app w)

  -- The result, and the string that is left in `title_id`.
  unfoldable pub get_foreground_title_id : Text → ℕ → W → ℤ × Text × W
  get_foreground_title_id title_id size w =
      let (app_id, w1) = os.app_id_active w in
      let (pid, w2) = os.process_id app_id w1 in
      let (result, name, w3) = os.name_by_id pid [] w2 in
      if ltb size title_id_size
      then (os.error_invalid, title_id, w)
      else if is_not_positive app_id
      then (pos 0, snprintf size (codes "main"), w1)
      else if is_negative pid
      then (pid, [], w2)
      else (result, take (size - 1) name, w3)

  cmd_foreground : ℕ → W → Text × W
  cmd_foreground size w =
      let (result, title_id, w') = get_foreground_title_id [] title_id_size w in
      if is_negative result
      then (
        snprintf size
            (codes "Error: cannot read foreground title ID (0x" ++ (hex_text result ++ line ").")),
        w',
      )
      else (snprintf size (codes "Foreground: " ++ (title_id ++ (10 ∷ []))), w')

  cmd_install : List Text → ℕ → W → Text × W
  cmd_install args size w =
      let (result, title_id, w') = os.install_vpk (get_or args 1 []) w in
      if is_negative result
      then (
        snprintf size
            (codes "Error: VPK installation failed (0x" ++ (hex_text result ++ line ").")),
        w',
      )
      else (snprintf size (codes "Installed: " ++ (title_id ++ (10 ∷ []))), w')

  -- The loop of `cmd_launch` over the attempts left: whether the title was seen in the foreground,
  -- and what is left in `foreground`.
  unfoldable pub confirm_loop : ℕ → Text → Text → W → Bool × Text × W
  confirm_loop zero title seen w = (false, seen, w)
  confirm_loop (suc left) title seen w =
      let (result, seen', w') = get_foreground_title_id seen title_id_size w in
      let rest = confirm_loop left title seen' (os.delay_thread confirm_interval_us w') in
      if not (is_negative result) && title_ids_equal seen' title then (true, seen', w') else rest

  abbrev pub launch_uri : Text → Text
  launch_uri title = codes "psgm:play?titleid=" ++ title

  unfoldable pub cmd_launch : List Text → ℕ → W → Text × W
  cmd_launch args size w =
      let title = get_or args 1 [] in
      let (result, w1) = os.launch_app_by_uri (launch_uri title) w in
      let (confirmed, seen, w2) = confirm_loop confirm_attempts title (codes "unknown") w1 in
      if leb 32 (length (launch_uri title))
      then (snprintf size (line "Error: TITLEID is too long."), w)
      else if is_negative result
      then (
        snprintf size (
            codes "Error: launch request failed for "
            ++ (title ++ (codes " (0x" ++ (hex_text result ++ line ").")))),
        w1,
      )
      else if confirmed
      then (snprintf size (codes "Launched: " ++ (seen ++ (10 ∷ []))), w2)
      else (
        snprintf size (
            codes "Error: launch of "
            ++ (title ++ (codes " was not confirmed; foreground=" ++ (seen ++ line ".")))),
        w2,
      )

  unfoldable pub cmd_reboot : ℕ → W → Text × W
  cmd_reboot size w =
      let (ready, clients, transfer, w1) = ftp.prepare_for_reboot w in
      let (result, w2) = os.request_cold_reset w1 in
      if not ready
      then (
        snprintf size (
            codes "Error: FTP busy; reboot refused (clients="
            ++ (int_text clients ++ (codes " transfer=" ++ (int_text transfer ++ line ").")))),
        w1,
      )
      else if is_negative result
      then (
        snprintf size
            (codes "Error: cold reset request failed (0x" ++ (hex_text result ++ line ").")),
        ftp.cancel_reboot w2,
      )
      else (snprintf size (line "Rebooting..."), w2)

  cmd_ftpstatus : ℕ → W → Text × W
  cmd_ftpstatus size w =
      let (clients, w1) = ftp.active_client_count w in
      let (transfer, w2) = ftp.has_active_transfer w1 in
      let (guard, w3) = ftp.is_reboot_quiesced w2 in
      let (failures, w4) = ftp.timeout_failure_count w3 in
      (
        snprintf size (
            codes "FTP clients="
            ++ (int_text clients
                ++ (codes " transfer="
                    ++ (int_text transfer
                        ++ (codes " reboot_guard="
                            ++ (int_text guard
                                ++ (codes " timeout_failures="
                                    ++ (int_text failures ++ (10 ∷ []))))))))),
        w4,
      )

  cmd_ftpreset : ℕ → W → Text × W
  cmd_ftpreset size w =
      let (clients, w1) = ftp.active_client_count w in
      let (transfer, w2) = ftp.has_active_transfer w1 in
      let (aborted, w3) = ftp.abort_clients w2 in
      (
        snprintf size (
            codes "FTP reset requested clients="
            ++ (int_text clients
                ++ (codes " transfer="
                    ++ (int_text transfer
                        ++ (codes " aborted=" ++ (int_text aborted ++ line ".")))))),
        w3,
      )

  cmd_screen : List Text → ℕ → W → Text × W
  cmd_screen args size w =
      let state = get_or args 1 [] in
      if text_eq state (codes "on")
      then (snprintf size (line "Turning display on..."), os.display_on w)
      else if text_eq state (codes "off")
      then (snprintf size (line "Turning display off..."), os.display_off w)
      else (snprintf size (line "Error: param should be 'on' or 'off'"), w)

  cmd_battery : ℕ → W → Text × W
  cmd_battery size w =
      let (percent, w1) = os.battery_percent w in
      let (charging, w2) = os.is_battery_charging w1 in
      if not (is_negative percent)
      then (
        snprintf size (
            codes "Battery: "
            ++ (int_text percent
                ++ (codes "% ("
                    ++ ((if is_zero charging then codes "Not charging" else codes "Charging")
                        ++ line ")")))),
        w2,
      )
      else (snprintf size (line "Error: Could not read battery percentage"), w2)

  cmd_screenshot : ℕ → ShellShot → W → Text × ShellShot × W
  cmd_screenshot size shot w =
      let (shot', w1) = init_shellshot os shot w in
      let missing : Text × ShellShot × W =
        (snprintf size (line "[ERROR] shellShot() not available."), shot', w1) in
      if not shot'.available then missing else elim shot'.shell_shot [
        | none ↦ missing
        | some address ↦
            let (ret, w2) = os.call_shell_shot address w1 in
            (
              snprintf size (
                  (if is_negative ret
                    then codes "[ERROR] Screenshot trigger failed (0x"
                    else codes "[OK] Screenshot triggered (0x")
                  ++ (hex_text ret ++ line ").")),
              shot',
              w2,
            )
      ]

  keep_shot : ShellShot → Text × W → Text × ShellShot × W
  keep_shot shot (reply, w) = (reply, shot, w)

  -- The call through `cmd_def->executor`: the string left in `res_msg`.
  unfoldable pub execute : Executor → List Text → Text → ℕ → ShellShot → W → Text × ShellShot × W
  unfolding keep_shot cmd_kill cmd_destroy cmd_foreground cmd_install cmd_launch cmd_reboot
      cmd_ftpstatus cmd_ftpreset cmd_screen cmd_battery cmd_screenshot cmd_version cmd_help
  execute version args res_msg size shot w = (cmd_version size, shot, w)
  execute help args res_msg size shot w = (cmd_help res_msg size, shot, w)
  execute destroy args res_msg size shot w = keep_shot shot (cmd_destroy size w)
  execute foreground args res_msg size shot w = keep_shot shot (cmd_foreground size w)
  execute install args res_msg size shot w = keep_shot shot (cmd_install args size w)
  execute launch args res_msg size shot w = keep_shot shot (cmd_launch args size w)
  execute kill args res_msg size shot w = keep_shot shot (cmd_kill args size w)
  execute ftpstatus args res_msg size shot w = keep_shot shot (cmd_ftpstatus size w)
  execute ftpreset args res_msg size shot w = keep_shot shot (cmd_ftpreset size w)
  execute reboot args res_msg size shot w = keep_shot shot (cmd_reboot size w)
  execute screen args res_msg size shot w = keep_shot shot (cmd_screen args size w)
  execute battery args res_msg size shot w = keep_shot shot (cmd_battery size w)
  execute screenshot args res_msg size shot w = cmd_screenshot size shot w
