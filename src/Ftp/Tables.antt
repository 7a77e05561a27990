-- ===== src/Ftp/Tables.antt =====
-- libftpvita/ftpvita.c: the table of the devices, the table of the custom commands, and what the
-- plugin reads of the server's variables.
pub mod Devices
use vitacompanion_vitadeck.Prelude.{
  ℕ, zero, suc, Bool, true, false, not, Option, none, some, List, [], ◌∷◌, ◌==◌, if◌then◌else◌,
  Text, text_eq,
}
use vitacompanion_vitadeck.Ftp.Session.Dispatch.{CustomCommand}

-- An entry of `device_list`.
pub record Device : Type 0 where
  pub is_valid : Bool
  pub name : Text

abbrev pub after_slot : Device → Bool × List Device → Bool × List Device
after_slot d (result, devices) = (result, d ∷ devices)

pub ftpvita_add_device : Text → List Device → Bool × List Device
ftpvita_add_device devname [] = (false, [])
ftpvita_add_device devname (d ∷ devices) =
    if not d.is_valid
    then (true, record d { is_valid = true; name = devname } ∷ devices)
    else after_slot d (ftpvita_add_device devname devices)

pub ftpvita_del_device : Text → List Device → Bool × List Device
ftpvita_del_device devname [] = (false, [])
ftpvita_del_device devname (d ∷ devices) =
    if text_eq devname d.name
    then (true, record d { is_valid = false } ∷ devices)
    else after_slot d (ftpvita_del_device devname devices)

-- The loop of `ftpvita_init` over the devices.
pub clear_devices : List Device → List Device
clear_devices [] = []
clear_devices (d ∷ devices) = record d { is_valid = false } ∷ clear_devices devices

-- A slot of `custom_command_dispatchers` that was never used has no name.
abbrev pub CustomTable : Type 0
CustomTable = List (Option CustomCommand)

abbrev pub is_free : Option CustomCommand → Bool
is_free none = true
is_free (some c) = not c.is_valid

pub ftpvita_ext_add_custom_command : Text → ℕ → CustomTable → Bool × CustomTable
ftpvita_ext_add_custom_command cmd func [] = (false, [])
ftpvita_ext_add_custom_command cmd func (slot ∷ slots) =
    let (result, slots') = ftpvita_ext_add_custom_command cmd func slots in
    if is_free slot
    then (true, some (record { is_valid = true; cmd = cmd; func = func }) ∷ slots)
    else (result, slot ∷ slots')

abbrev pub behind_slot :
    Option CustomCommand → Option (Bool × CustomTable) → Option (Bool × CustomTable)
behind_slot slot none = none
behind_slot slot (some (result, slots)) = some (result, slot ∷ slots)

-- `none` where the name of a slot that was never used is compared.
pub ftpvita_ext_del_custom_command : Text → CustomTable → Option (Bool × CustomTable)
ftpvita_ext_del_custom_command cmd [] = some (false, [])
ftpvita_ext_del_custom_command cmd (none ∷ slots) = none
ftpvita_ext_del_custom_command cmd (some c ∷ slots) =
    if text_eq cmd c.cmd
    then some (true, some (record c { is_valid = false }) ∷ slots)
    else behind_slot (some c) (ftpvita_ext_del_custom_command cmd slots)
