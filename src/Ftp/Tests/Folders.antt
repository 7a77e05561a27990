-- ===== src/Ftp/Tests/Folders.antt =====
-- A session that stands in a directory of a device.
use vitacompanion_vitadeck.Prelude.{
  ℕ, suc, ◌≡◌, ◌≢◌, inr, refl, Option, none, some, arith, ℤ, pos, negsuc, Text, codes,
}
use vitacompanion_vitadeck.Ftp.Paths.{last_slash, Reply, completed, cmd_cwd}
use vitacompanion_vitadeck.Ftp.Paths.Directory.{IsDirectory, Probed, cmd_cwd-IsDirectory}

-- The state counts the calls.
abbrev open_directory : Option Text → ℕ → ℤ × ℕ
open_directory none calls = (negsuc 1, suc calls)
open_directory (some path) calls = (pos 3, suc calls)

abbrev close_directory : ℤ → ℕ → ℕ
close_directory pd calls = suc calls

in_data : IsDirectory (codes "/ux0:/data")
unfolding last_slash
in_data = inr (refl, (4, refl))

cmd_cwd-IsDirectory_example :
    (reply : Reply) × (path : Text) × (calls : ℕ) × (cmd_cwd open_directory close_directory 256
        (codes "saves\r\n")
        (codes "/ux0:/data")
        0
      ≡ some (reply, path, calls))
    × IsDirectory path
    × ((reply ≢ completed) → path ≡ codes "/ux0:/data")
    × Probed open_directory close_directory 0 reply calls
cmd_cwd-IsDirectory_example =
    cmd_cwd-IsDirectory open_directory close_directory 256 (codes "saves\r\n") (codes "/ux0:/data")
      0 (omega arith) in_data
