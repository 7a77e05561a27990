-- ===== src/Package/Install/Header.antt =====
-- The header is made and written inside the staging area.
use vitacompanion_vitadeck.Prelude.{
  ℕ, ◌*◌, ◌⊎◌, refl, inl, inr, ◌||◌, Bool-cases, Option, none, some, List, [], ◌∷◌, ltb, ◌==◌, ℤ,
  pos, negsuc, is_negative, Text, codes, length,
}
use vitacompanion_vitadeck.Ftp.Retr.{is_zero}
use vitacompanion_vitadeck.Sha1.{Context}
use vitacompanion_vitadeck.Package.Archive.{safe_components, is_safe_archive_path}
use vitacompanion_vitadeck.Package.Head.{HeadError, make_head}
use vitacompanion_vitadeck.Package.Disk.{
  open_read, create_file, seek_end, seek_to, write, close, allocate, free, Trace, Disk,
  install_stage, make, read_loop,
}
use vitacompanion_vitadeck.Package.Stage.{ensure_parent_directory}
use vitacompanion_vitadeck.Package.Extract.{is_count}
use vitacompanion_vitadeck.Package.Sfo.{sfo_string, valid_title_id}
use vitacompanion_vitadeck.Package.HeadFile.{
  install_sfo, install_head, Contents, read_sized, read_to, read_file, write_head, put_head,
  make_and_write, head_of_title, head_of_file, make_head_bin,
}
use vitacompanion_vitadeck.Package.Install.Inside.{
  IsStaged, IsParent, Staged, make-Staged, read_loop-Staged,
}
use vitacompanion_vitadeck.Package.Install.Folders.{ensure_parent_directory-Staged}

pub stage-IsParent : IsParent install_stage
unfolding is_safe_archive_path safe_components
stage-IsParent = (97 ∷ [], (97 ∷ [], refl, refl))

pub head-IsStaged : IsStaged install_head
unfolding is_safe_archive_path safe_components
head-IsStaged = (codes "sce_sys/package/head.bin", refl, refl)

module _ (disk : Disk) where
  pub read_sized-Staged :
      (file : ℤ) (end : ℕ) (trace : Trace)
      → Staged disk 0 trace
      → Staged disk 0 (read_sized disk file end trace).1
  unfolding read_sized
  read_sized-Staged file end trace s =
      let trace' = make disk (seek_to file 0) trace in
      let s' = make-Staged disk 0 (seek_to file 0) trace tt s in
      let buffer = disk.answer trace' (allocate end) in
      let trace'' = make disk (allocate end) trace' in
      let s'' = make-Staged disk 0 (allocate end) trace' tt s' in
      let read = read_loop disk end file end trace'' in
      let s''' = read_loop-Staged disk 0 end file end trace'' s'' in
      elim (Bool-cases (end == 0 || ltb (1024 * 1024) end)) [
        | inl bad ↦ rw bad (make-Staged disk 0 (close file) trace tt s)
        | inr fits ↦ elim (Bool-cases (is_negative (disk.answer trace (seek_to file 0)))) [
          | inl lost ↦ rw (fits, lost) (make-Staged disk 0 (close file) trace' tt s')
          | inr there ↦ elim (Bool-cases (is_zero buffer)) [
            | inl refused ↦
                rw (fits, there, refused) (make-Staged disk 0 (close file) trace'' tt s'')
            | inr given ↦ elim (Bool-cases (is_negative read.0)) [
              | inl failed ↦
                  rw (fits, there, given, failed)
                    (make-Staged disk 0 (close file) (make disk (free buffer) read.2) tt
                      (make-Staged disk 0 (free buffer) read.2 tt s'''))
              | inr good ↦
                  rw (fits, there, given, good) (make-Staged disk 0 (close file) read.2 tt s''')
            ]
          ]
        ]
      ]

  pub read_to-Staged :
      (file end : ℤ) (trace : Trace)
      → Staged disk 0 trace
      → Staged disk 0 (read_to disk file end trace).1
  read_to-Staged file (negsuc n) trace s = make-Staged disk 0 (close file) trace tt s
  read_to-Staged file (pos end) trace s = read_sized-Staged file end trace s

  pub read_file-Staged :
      (path : Text) (trace : Trace)
      → Staged disk 0 trace
      → Staged disk 0 (read_file disk path trace).1
  unfolding read_file
  read_file-Staged path trace s =
      let file = disk.answer trace (open_read path) in
      let opened = make disk (open_read path) trace in
      let s' = make-Staged disk 0 (open_read path) trace tt s in
      elim (Bool-cases (is_negative file)) [
        | inl failed ↦ rw failed s'
        | inr there ↦ rw there (
            read_to-Staged file (disk.answer opened (seek_end file))
              (make disk (seek_end file) opened) (make-Staged disk 0 (seek_end file) opened tt s'))
      ]

  pub write_head-Staged :
      (head : List ℕ) (trace : Trace)
      → Staged disk 0 trace
      → Staged disk 0 (write_head disk head trace).1
  unfolding write_head
  write_head-Staged head trace s =
      let parent = ensure_parent_directory disk install_head trace in
      let s' = ensure_parent_directory-Staged disk 0 install_head trace head-IsStaged s in
      let output_file = disk.answer parent.1 (create_file install_head) in
      let created = make disk (create_file install_head) parent.1 in
      let s'' = make-Staged disk 0 (create_file install_head) parent.1 head-IsStaged s' in
      let written = disk.answer created (write output_file head) in
      let s''' =
        make-Staged disk 0 (close output_file) (make disk (write output_file head) created) tt
          (make-Staged disk 0 (write output_file head) created tt s'') in
      elim (Bool-cases (is_negative parent.0)) [
        | inl failed ↦ rw failed s'
        | inr there ↦ elim (Bool-cases (is_negative output_file)) [
          | inl refused ↦ rw (there, refused) s''
          | inr opened ↦ elim (Bool-cases (is_count written (length head))) [
            | inl whole ↦ rw (there, opened, whole) s'''
            | inr short ↦ rw (there, opened, short) s'''
          ]
        ]
      ]

  pub put_head-Staged :
      (title_id_size : ℕ) (buffer : ℤ) (made : HeadError ⊎ (Text × List ℕ)) (trace : Trace)
      → Staged disk 0 trace
      → Staged disk 0 (put_head disk title_id_size buffer made trace).2
  put_head-Staged title_id_size buffer (inl error) trace s =
      make-Staged disk 0 (free buffer) trace tt s
  put_head-Staged title_id_size buffer (inr (title_id, head)) trace s =
      let written = write_head disk head trace in
      let s' = make-Staged disk 0 (free buffer) written.1 tt (write_head-Staged head trace s) in
      elim (Bool-cases (is_negative written.0)) [
        | inl failed ↦ rw failed s'
        | inr good ↦ rw good s'
      ]

  pub make_and_write-Staged :
      (context : Context) (template sfo : List ℕ) (title_id_size : ℕ) (trace : Trace)
      → Staged disk 0 trace
      → Staged disk 0 (make_and_write disk context template sfo title_id_size trace).2
  unfolding make_and_write
  make_and_write-Staged context template sfo title_id_size trace s =
      let buffer = disk.answer trace (allocate (length template)) in
      let given = make disk (allocate (length template)) trace in
      let s' = make-Staged disk 0 (allocate (length template)) trace tt s in
      elim (Bool-cases (is_zero buffer)) [
        | inl refused ↦ rw refused s'
        | inr there ↦
            rw there
              (put_head-Staged title_id_size buffer (make_head context template sfo) given s')
      ]

  pub head_of_title-Staged :
      (context : Context) (template sfo : List ℕ) (title_id_size : ℕ) (found : Option Text)
      (trace : Trace)
      → Staged disk 0 trace
      → Staged disk 0 (head_of_title disk context template sfo title_id_size found trace).2
  head_of_title-Staged context template sfo title_id_size none trace s = s
  head_of_title-Staged context template sfo title_id_size (some title_id) trace s =
      elim (Bool-cases (valid_title_id title_id)) [
        | inl good ↦ rw good (make_and_write-Staged context template sfo title_id_size trace s)
        | inr bad ↦ rw bad s
      ]

  pub head_of_file-Staged :
      (context : Context) (template : List ℕ) (title_id_size : ℕ) (contents : Contents)
      → Staged disk 0 contents.1
      → Staged disk 0 (head_of_file disk context template title_id_size contents).2
  head_of_file-Staged context template title_id_size (inl result, trace) s = s
  head_of_file-Staged context template title_id_size (inr (buffer, sfo), trace) s =
      head_of_title-Staged context template sfo title_id_size (sfo_string sfo (codes "TITLE_ID") 12)
        (make disk (free buffer) trace) (make-Staged disk 0 (free buffer) trace tt s)

  pub make_head_bin-Staged :
      (context : Context) (template : List ℕ) (title_id_size : ℕ) (trace : Trace)
      → Staged disk 0 trace
      → Staged disk 0 (make_head_bin disk context template title_id_size trace).2
  unfolding make_head_bin
  make_head_bin-Staged context template title_id_size trace s =
      head_of_file-Staged context template title_id_size (read_file disk install_sfo trace)
        (read_file-Staged install_sfo trace s)
