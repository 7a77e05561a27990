-- ===== src/Cmd/Definitions.antt =====
-- src/cmd_definitions.c: the command table, and what each command does.
use vitacompanion_vitadeck.Prelude.{
  ℕ, zero, suc, ◌+◌, ◌-◌, Bool, true, false, not, ◌&&◌, ◌||◌, Option, none, some, List, [], ◌∷◌,
  ◌++◌, ◌*◌, ltb, leb, ◌==◌, if◌then◌else◌, ℤ, pos, negsuc, is_negative, Text, codes, peek, text_eq,
  length, bit_or, u32, line, snprintf,
}
use vitacompanion_vitadeck.Cmd.Os.{Os}

-- The executors of the table.
pub data Executor : Type 0 where
  version help destroy foreground install launch kill ftpstatus ftpreset reboot screen battery
        screenshot :
      Executor

-- `cmd_definition`
pub record CmdDefinition : Type 0 where
  pub name : Text
  pub description : Text
  pub arg_count : ℕ
  pub executor : Executor

abbrev entry : Text → Text → ℕ → Executor → CmdDefinition
entry n d a e = record { name = n; description = d; arg_count = a; executor = e }

unfoldable pub cmd_definitions : List CmdDefinition
cmd_definitions =
    entry (codes "version") (codes "Show protocol and hardening version") 0 version
    ∷ entry (codes "help") (codes "Display this help screen") 0 help
    ∷ entry (codes "destroy") (codes "Kill all running applications") 0 destroy
    ∷ entry (codes "foreground") (codes "Show the foreground title ID") 0 foreground
    ∷ entry (codes "install") (codes "Install and promote a VPK") 1 install
    ∷ entry (codes "launch") (codes "Launch an app by Title ID") 1 launch
    ∷ entry (codes "kill") (codes "Kill an app by Title ID") 1 kill
    ∷ entry (codes "ftpstatus") (codes "Show FTP clients and transfer state") 0 ftpstatus
    ∷ entry (codes "ftpreset") (codes "Abort stranded FTP clients") 0 ftpreset
    ∷ entry (codes "reboot") (codes "Reboot only when FTP is quiescent") 0 reboot
    ∷ entry (codes "screen") (codes "Turn the screen on or off") 1 screen
    ∷ entry (codes "battery") (codes "Show battery percentage") 0 battery
    ∷ entry (codes "screenshot") (codes "Trigger a SceShell screenshot") 0 screenshot
    ∷ []

-- The loop of `cmd_get_definition` over the table.
unfoldable pub find_definition : Text → List CmdDefinition → Option CmdDefinition
find_definition cmd_name [] = none
find_definition cmd_name (d ∷ ds) =
    if text_eq cmd_name d.name then some d else find_definition cmd_name ds

unfoldable pub cmd_get_definition : Text → Option CmdDefinition
unfolding find_definition cmd_definitions
cmd_get_definition cmd_name = find_definition cmd_name cmd_definitions

-- Behind the string that is in the buffer, as far as the buffer goes.
unfoldable pub append_response : Text → ℕ → Text → Text
append_response res_msg res_msg_size text =
    let used = length res_msg in
    if leb res_msg_size used then res_msg else res_msg ++ snprintf (res_msg_size - used) text

unfoldable pub help_entries : List CmdDefinition → Text → ℕ → Text
unfolding append_response
help_entries [] res_msg size = res_msg
help_entries (d ∷ ds) res_msg size =
    help_entries ds
      (append_response res_msg size (codes "; " ++ (d.name ++ (codes " - " ++ d.description)))) size

unfoldable pub cmd_help : Text → ℕ → Text
unfolding append_response help_entries cmd_definitions
cmd_help res_msg size =
    append_response
      (help_entries cmd_definitions (append_response res_msg size (codes "Commands")) size) size
      (10 ∷ [])

unfoldable pub cmd_version : ℕ → Text
cmd_version size = snprintf size (
    codes "VitaCompanion-vitadeck protocol=4 hardening=9 "
    ++ (codes "ftp=LIST,REST_SAFE,BOUNDED_IO,TIMED_IO,SINGLE_FLIGHT,SAFE_REBOOT,"
        ++ (codes "RECOVERABLE_CLIENTS,RETR_EXTENT,RETR_ERRORS,STOR_SAFE,CMD_FRAMED "
            ++ line "app=FOREGROUND,CONFIRMED_LAUNCH,VPK_INSTALL")))

-- Upper case for the comparison of title IDs.
unfoldable pub upper_char : ℕ → ℕ
upper_char c = if leb b'a' c && leb c b'z' then c - 32 else c

-- The loop compares up to the shorter end, and then the two bytes there, one of them a NUL.
unfoldable pub title_ids_equal : Text → Text → Bool
unfolding upper_char
title_ids_equal [] right = 0 == peek right
title_ids_equal (c ∷ left) [] = c == 0
title_ids_equal (c ∷ left) (d ∷ right) =
    if not (upper_char c == upper_char d) then false else title_ids_equal left right

abbrev pub confirm_attempts : ℕ
confirm_attempts = 80

abbrev pub confirm_interval_us : ℕ
confirm_interval_us = 100 * 1000

-- What SceShell's screenshot function is known to be: the statics of the file.
pub record ShellShot : Type 0 where
  pub shell_shot : Option ℕ
  pub initialized : Bool
  pub available : Bool

abbrev pub no_shell_shot : ShellShot
no_shell_shot = record { shell_shot = none; initialized = false; available = false }

-- `module_get_offset(modid, segidx, offset, &stub)`, the stub being a valid pointer: the result,
-- and what is stored in the stub on success.
module_get_offset : {W : Type 0} → Os W → ℤ → ℕ → ℕ → W → ℤ × Option ℕ × W
module_get_offset os modid segidx offset w =
    let (res, segment, w') = os.kernel_module_segment modid segidx w in
    if ltb 3 segidx
    then (negsuc 0, none, w)
    else if is_negative res
    then (res, none, w')
    else if ltb segment.memsz offset
    then (negsuc 2, none, w')
    else (pos 0, some (u32 (segment.vaddr + offset)), w')

-- The offset of the screenshot function in the known versions of SceShell.
pub shellshot_offset : ℕ → Option ℕ
shellshot_offset nid =
    if nid == 0x0552F692
    then some 0x14a928
    else if nid == 0x6CB01295 || nid == 0xEAB89D5C
    then some 0x142d5c
    else if nid == 0x5549BF1F
    then some 0x14a980
    else if nid == 0x34B4D82E
        || nid == 0x12DAC0F3
        || nid == 0x0703C828
        || nid == 0x2053B5A5
        || nid == 0xF476E785
        || nid == 0x939FFBE9
        || nid == 0x734D476A
        || nid == 0xE6A02F2B
        || nid == 0x587F9CED
    then some 0x142db4
    else none

store_shell_shot : {W : Type 0} → ShellShot → ℤ × Option ℕ × W → ShellShot × W
store_shell_shot s (res, stub, w) =
    if is_negative res then (record s { shell_shot = none }, w) else elim stub [
      | none ↦ (s, w)
      | some zero ↦ (record s { shell_shot = none }, w)
      | some (suc address) ↦ (record s { shell_shot = some (suc address); available = true }, w)
    ]

unfoldable pub init_shellshot : {W : Type 0} → Os W → ShellShot → W → ShellShot × W
unfolding module_get_offset shellshot_offset store_shell_shot
init_shellshot os s w =
    let fresh = record s { initialized = true; available = false } in
    let (ret, info, w') = os.shell_module w in
    if s.initialized
    then (s, w)
    else if is_negative ret
    then (fresh, w')
    else elim (shellshot_offset info.module_nid) [
      | none ↦ (fresh, w')
      | some offset ↦
          store_shell_shot fresh (module_get_offset os info.modid 0 (bit_or offset 1) w')
    ]
