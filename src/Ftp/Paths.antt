-- ===== src/Ftp/Paths.antt =====
-- libftpvita/ftpvita.c: the current directory of a session and the paths of its commands.
pub mod Directory
use vitacompanion_vitadeck.Prelude.{
  ℕ, suc, ◌+◌, ◌-◌, Bool, true, false, ◌&&◌, ◌||◌, Option, none, some, [], ◌∷◌, ◌++◌, ltb, leb,
  ◌==◌, if◌then◌else◌, valid, ℤ, is_negative, Text, codes, peek, length, get_or, take, drop,
  text_eq, snprintf,
}
use vitacompanion_vitadeck.Ftp.Parse.{copy_command_argument}

-- `strrchr(path, '/')`, as an offset.
unfoldable pub last_slash : Text → Option ℕ
last_slash [] = none
last_slash (c ∷ path) = elim (last_slash path) [
  | some i ↦ some (suc i)
  | none ↦ if c == 47 then some 0 else none
]

-- `p == path + n` for a pointer into the path or a null pointer.
abbrev pub is_at : Option ℕ → ℕ → Bool
is_at none n = false
is_at (some i) n = i == n

-- `&path[1]`, or a null pointer.
abbrev pub get_vita_path : Text → Option Text
get_vita_path path = if ltb 1 (length path) then some (drop 1 path) else none

-- The last byte of the path is its last slash.
pub path_is_at_root : Text → Bool
path_is_at_root [] = false
path_is_at_root (c ∷ path) = is_at (last_slash (c ∷ path)) (length path)

-- `if (strrchr(path, '/') == path) strcat(path, "/");`
pub add_slash : Text → Text
add_slash path = if is_at (last_slash path) 0 then path ++ (47 ∷ []) else path

-- The path cut off at a slash; the cut at a null pointer has no meaning.
abbrev pub cut_at : Option ℕ → Text → Option Text
cut_at none path = none
cut_at (some i) path = some (add_slash (take i path))

pub dir_up : Text → Option Text
dir_up path =
    if length path == 1
    then some (codes "/")
    else if path_is_at_root path
    then some (codes "/")
    else cut_at (last_slash path) path

-- `PATH_MAX` is an argument, and so is whether the directory can be opened.
abbrev pub relative_path : ℕ → Text → Text → Text
relative_path path_max cur_path cmd_path =
    if path_is_at_root cur_path
    then snprintf path_max (cur_path ++ cmd_path)
    else snprintf path_max (cur_path ++ (47 ∷ cmd_path))

pub data Reply : Type 0 where
  syntax_error invalid_directory completed : Reply

-- The calls on directories act on a state of type `W`.
module _ {W : Type 0} (open_directory : Option Text → W → ℤ × W) (close_directory : ℤ → W → W) where
  -- From the path that was built on: a directory that can be opened is closed again.
  abbrev pub enter : Text → Text → W → Option (Reply × Text × W)
  enter cur_path tmp_path w =
      let pd = (open_directory (get_vita_path tmp_path) w).0 in
      let w' = (open_directory (get_vita_path tmp_path) w).1 in
      if text_eq tmp_path (codes "/")
      then some (completed, tmp_path, w)
      else if is_negative pd
      then some (invalid_directory, cur_path, w')
      else some (completed, tmp_path, close_directory pd w')

  abbrev pub replied : Option Text → W → Option (Reply × Text × W)
  replied none w = none
  replied (some path) w = some (completed, path, w)

  -- With the argument that was copied.
  pub change_directory : ℕ → Option Text → Text → W → Option (Reply × Text × W)
  change_directory path_max none cur_path w = some (syntax_error, cur_path, w)
  change_directory path_max (some cmd_path) cur_path w =
      if text_eq cmd_path (codes "/")
      then some (completed, cmd_path, w)
      else if text_eq cmd_path (codes "..")
      then replied (dir_up cur_path) w
      else if peek cmd_path == 47
      then enter cur_path (add_slash cmd_path) w
      else enter cur_path (add_slash (relative_path path_max cur_path cmd_path)) w

  -- The reply, the current directory and the state after CWD.
  pub cmd_cwd : ℕ → Text → Text → W → Option (Reply × Text × W)
  cmd_cwd path_max args cur_path w =
      change_directory path_max (copy_command_argument (some args) valid path_max) cur_path w

-- The path that a command names, for a buffer of `path_size` bytes.
abbrev pub full_path : ℕ → Option Text → Text → Text
full_path path_size none cur_path = []
full_path path_size (some cmd_path) cur_path =
    if peek cmd_path == 47
    then snprintf path_size cmd_path
    else if leb 5 (length cmd_path) && get_or cmd_path 3 0 == 58 && get_or cmd_path 4 0 == 47
    then snprintf path_size (47 ∷ cmd_path)
    else snprintf path_size (cur_path ++ (47 ∷ cmd_path))

pub gen_ftp_fullpath : ℕ → ℕ → Text → Text → Text
gen_ftp_fullpath path_max path_size args cur_path =
    full_path path_size (copy_command_argument (some args) valid path_max) cur_path
