-- ===== src/Package/Stage.antt =====
-- src/package_installer.c: the directories of the staging area, made and removed.
use vitacompanion_vitadeck.Prelude.{
  ℕ, zero, suc, Bool, false, not, ◌&&◌, ◌||◌, Option, none, some, [], ◌∷◌, ◌++◌, leb, ◌==◌,
  if◌then◌else◌, ℤ, pos, is_negative, Text, codes, length, take, text_eq,
}
use vitacompanion_vitadeck.Ftp.Retr.{is_not_positive}
use vitacompanion_vitadeck.Ftp.Paths.{last_slash}
use vitacompanion_vitadeck.Package.Disk.{
  remove_file, get_stat, open_directory, read_directory, close_directory, make_directory,
  remove_directory, Trace, Disk, error_archive_path, path_max, answer, make,
}

-- `cursor[-1] == ':'`
abbrev pub ends_with_colon : Text → Bool
ends_with_colon [] = false
ends_with_colon (c ∷ []) = c == 58
ends_with_colon (c ∷ d ∷ path) = ends_with_colon (d ∷ path)

module _ (disk : Disk) where
  -- A directory is made, or is there already.
  unfoldable pub make_or_find : Text → Trace → ℤ × Trace
  make_or_find path trace =
      let result = answer disk (make_directory path) trace in
      let trace' = make disk (make_directory path) trace in
      let found = answer disk (get_stat path) trace' in
      let trace'' = make disk (get_stat path) trace' in
      if not (is_negative result)
      then (pos 0, trace')
      else if is_negative found || not (disk.is_directory trace'')
      then (result, trace'')
      else (pos 0, trace'')

  -- The loop of `ensure_directory` over the path: what was passed, whether a colon was, and what is left.
  unfoldable pub make_parents : Text → Bool → Text → Trace → ℤ × Trace
  make_parents passed has_colon [] trace = (pos 0, trace)
  make_parents passed has_colon (c ∷ left) trace =
      let (result, trace') =
        if has_colon && c == 47 && not (ends_with_colon passed)
        then make_or_find passed trace
        else (pos 0, trace) in
      let rest = make_parents (passed ++ (c ∷ [])) (has_colon || c == 58) left trace' in
      if is_negative result then (result, trace') else rest

  abbrev pub is_bad_length : Text → Bool
  is_bad_length path = length path == 0 || leb path_max (length path)

  unfoldable pub ensure_directory : Text → Trace → ℤ × Trace
  ensure_directory path trace =
      let (result, trace') = make_parents [] false path trace in
      if is_bad_length path
      then (error_archive_path, trace)
      else if is_negative result
      then (result, trace')
      else make_or_find path trace'

  unfoldable pub ensure_parent_directory : Text → Trace → ℤ × Trace
  ensure_parent_directory path trace =
      if is_bad_length path then (error_archive_path, trace) else elim (last_slash path) [
        | none ↦ (error_archive_path, trace)
        | some i ↦ ensure_directory (take i path) trace
      ]

abbrev pub is_dots : Text → Bool
is_dots name = text_eq name (codes ".") || text_eq name (codes "..")

abbrev pub close_and_remove : Disk → ℤ → Text → Option (ℤ × Trace) → Option (ℤ × Trace)
close_and_remove disk dir path none = none
close_and_remove disk dir path (some (result, trace)) =
    let trace = make disk (close_directory dir) trace in
    if is_negative result
    then some (result, trace)
    else some (answer disk (remove_directory path) trace, make disk (remove_directory path) trace)

-- The fuel is spent by the calls: one for a tree, one for an entry. `none` is its end.
unfoldable mutual
  pub remove_tree : Disk → ℕ → Text → Trace → Option (ℤ × Trace)
  remove_tree disk zero path trace = none
  remove_tree disk (suc fuel) path trace =
      let found = answer disk (get_stat path) trace in
      let trace' = make disk (get_stat path) trace in
      let dir = answer disk (open_directory path) trace' in
      let trace'' = make disk (open_directory path) trace' in
      let entries = remove_entries disk fuel dir path trace'' in
      if is_negative found
      then some (pos 0, trace')
      else if not (disk.is_directory trace')
      then some (answer disk (remove_file path) trace', make disk (remove_file path) trace')
      else if is_negative dir
      then some (dir, trace'')
      else close_and_remove disk dir path entries

  pub remove_entries : Disk → ℕ → ℤ → Text → Trace → Option (ℤ × Trace)
  remove_entries disk zero dir path trace = none
  remove_entries disk (suc fuel) dir path trace =
      let count = answer disk (read_directory dir) trace in
      let trace' = make disk (read_directory dir) trace in
      let name = disk.entry_name trace' in
      let child = path ++ (47 ∷ name) in
      let removed =
        if is_dots name
        then some (pos 0, trace')
        else if leb path_max (length child)
        then some (error_archive_path, trace')
        else remove_tree disk fuel child trace' in
      let rest : Option (ℤ × Trace) = elim removed [
        | none ↦ none
        | some (result, trace'') ↦
            let more = remove_entries disk fuel dir path trace'' in
            if is_negative result then some (result, trace'') else more
      ] in
      if is_not_positive count then some (count, trace') else rest
