-- ===== src/Package/HeadFile.antt =====
-- src/package_installer.c: the reading of the parameter file, and the writing of the header.
use vitacompanion_vitadeck.Prelude.{
  ℕ, ◌*◌, ◌||◌, ◌⊎◌, inl, inr, Option, none, some, List, [], ◌++◌, ltb, ◌==◌, if◌then◌else◌, ℤ, pos,
  negsuc, is_negative, Text, codes, length, snprintf,
}
use vitacompanion_vitadeck.Ftp.Retr.{is_zero}
use vitacompanion_vitadeck.Sha1.{Context}
use vitacompanion_vitadeck.Package.Head.{HeadError, make_head}
use vitacompanion_vitadeck.Package.Disk.{
  open_read, create_file, seek_end, seek_to, write, close, allocate, free, Trace, Disk, error_sfo,
  error_title_id, error_memory, error_io, io_result, install_stage, answer, make, read_loop,
}
use vitacompanion_vitadeck.Package.Stage.{ensure_parent_directory}
use vitacompanion_vitadeck.Package.Extract.{is_count}
use vitacompanion_vitadeck.Package.Sfo.{sfo_string, valid_title_id}

-- INSTALL_SFO and INSTALL_HEAD
abbrev pub install_sfo : Text
install_sfo = install_stage ++ codes "/sce_sys/param.sfo"

abbrev pub install_head : Text
install_head = install_stage ++ codes "/sce_sys/package/head.bin"

-- A whole file with its buffer, or an error.
abbrev pub Contents : Type 0
Contents = (ℤ ⊎ (ℤ × List ℕ)) × Trace

-- From the size on: the test, and the reading.
unfoldable pub read_sized : Disk → ℤ → ℕ → Trace → Contents
read_sized disk file end trace =
    let trace' = make disk (seek_to file 0) trace in
    let buffer = answer disk (allocate end) trace' in
    let trace'' = make disk (allocate end) trace' in
    let (result, bytes, trace''') = read_loop disk end file end trace'' in
    if end == 0 || ltb (1024 * 1024) end
    then (inl error_sfo, make disk (close file) trace)
    else if is_negative (answer disk (seek_to file 0) trace)
    then (inl error_io, make disk (close file) trace')
    else if is_zero buffer
    then (inl error_memory, make disk (close file) trace'')
    else if is_negative result
    then (inl result, make disk (close file) (make disk (free buffer) trace'''))
    else (inr (buffer, bytes), make disk (close file) trace''')

abbrev pub read_to : Disk → ℤ → ℤ → Trace → Contents
read_to disk file (negsuc n) trace = (inl error_sfo, make disk (close file) trace)
read_to disk file (pos end) trace = read_sized disk file end trace

unfoldable pub read_file : Disk → Text → Trace → Contents
read_file disk path trace =
    let file = answer disk (open_read path) trace in
    let trace = make disk (open_read path) trace in
    if is_negative file
    then (inl file, trace)
    else read_to disk file (answer disk (seek_end file) trace) (make disk (seek_end file) trace)

-- The header on the disk.
unfoldable pub write_head : Disk → List ℕ → Trace → ℤ × Trace
write_head disk head trace =
    let (result, trace) = ensure_parent_directory disk install_head trace in
    let output_file = answer disk (create_file install_head) trace in
    let trace' = make disk (create_file install_head) trace in
    let written = answer disk (write output_file head) trace' in
    let trace'' = make disk (close output_file) (make disk (write output_file head) trace') in
    if is_negative result
    then (result, trace)
    else if is_negative output_file
    then (output_file, trace')
    else if is_count written (length head)
    then (result, trace'')
    else (io_result written, trace'')

-- The result, the title ID that was stored, and the calls.
abbrev pub Titled : Type 0
Titled = ℤ × Text × Trace

-- From the header on, in its buffer.
abbrev pub put_head : Disk → ℕ → ℤ → HeadError ⊎ (Text × List ℕ) → Trace → Titled
put_head disk title_id_size buffer (inl error) trace =
    (error_sfo, [], make disk (free buffer) trace)
put_head disk title_id_size buffer (inr (title_id, head)) trace =
    let (result, trace) = write_head disk head trace in
    let trace = make disk (free buffer) trace in
    if is_negative result
    then (result, [], trace)
    else (pos 0, snprintf title_id_size title_id, trace)

-- From the title ID on: the header made in a buffer of its own.
unfoldable pub make_and_write : Disk → Context → List ℕ → List ℕ → ℕ → Trace → Titled
make_and_write disk context template sfo title_id_size trace =
    let buffer = answer disk (allocate (length template)) trace in
    let trace = make disk (allocate (length template)) trace in
    if is_zero buffer
    then (error_memory, [], trace)
    else put_head disk title_id_size buffer (make_head context template sfo) trace

abbrev pub head_of_title : Disk → Context → List ℕ → List ℕ → ℕ → Option Text → Trace → Titled
head_of_title disk context template sfo title_id_size none trace = (error_sfo, [], trace)
head_of_title disk context template sfo title_id_size (some title_id) trace =
    if valid_title_id title_id
    then make_and_write disk context template sfo title_id_size trace
    else (error_title_id, [], trace)

-- From the parameter file on.
abbrev pub head_of_file : Disk → Context → List ℕ → ℕ → Contents → Titled
head_of_file disk context template title_id_size (inl result, trace) = (result, [], trace)
head_of_file disk context template title_id_size (inr (buffer, sfo), trace) =
    head_of_title disk context template sfo title_id_size (sfo_string sfo (codes "TITLE_ID") 12)
      (make disk (free buffer) trace)

unfoldable pub make_head_bin : Disk → Context → List ℕ → ℕ → Trace → Titled
make_head_bin disk context template title_id_size trace =
    head_of_file disk context template title_id_size (read_file disk install_sfo trace)
