-- ===== src/Package/Install/Inside.antt =====
-- Which paths the installer makes and removes while it extracts an entry.
use vitacompanion_vitadeck.Prelude.{
  ℕ, zero, suc, ◌-◌, ◌≤◌, ◌<◌, ◌≡◌, refl, ap, ◌⊎◌, ◌∙◌, inl, inr, true, false, Bool-cases, List, [],
  ◌∷◌, ◌++◌, ◌==◌, ℤ, is_negative, cast_u32, Text, length, take, drop, get_or, c_string, arith,
}
use vitacompanion_vitadeck.Ftp.Retr.{is_not_positive}
use vitacompanion_vitadeck.Package.Archive.{is_safe_archive_path}
use vitacompanion_vitadeck.Package.Disk.{
  Call, create_file, seek_to, read, write, remove_file, make_directory, remove_directory, event,
  Trace, Disk, install_stage, make, read_loop, read_at, write_loop, write_all,
}
use vitacompanion_vitadeck.Package.Stage.{is_dots}

-- The path of an entry with a safe name, below the staging directory.
abbrev pub IsStaged : Text → Type 0
IsStaged path =
    (entry : Text) × (path ≡ install_stage ++ (47 ∷ entry)) × (is_safe_archive_path entry ≡ true)

-- What such a path is cut to at one of its slashes: `ux0:data/pkg` of `ux0:data/pkg/a`, never a path
-- that goes up.
abbrev pub IsParent : Text → Type 0
IsParent path = (rest : Text) × IsStaged (path ++ (47 ∷ rest))

-- The bytes of a name field that were read off the archive.
abbrev pub IsRead : Disk → List ℕ → ℕ → Type 0
IsRead disk name size =
    (file : ℤ) × (offset : ℕ) × (trace : Trace) × ((read_at disk file offset size trace).1 ≡ name)

-- The path of an entry less exactly one byte, where the name is safe as a C string and the last byte of
-- its field is a slash. It is that slash which is left off, unless a NUL stands in the field before it.
abbrev pub IsCut : Disk → Text → Type 0
IsCut disk path =
    (name : List ℕ) × (size : ℕ) × (c : ℕ) × IsRead disk name size
    × (get_or name (size - 1) 0 ≡ 47)
    × (is_safe_archive_path (c_string name) ≡ true)
    × (path ++ (c ∷ []) ≡ install_stage ++ (47 ∷ c_string name))

abbrev pub IsMade : Disk → Text → Type 0
IsMade disk path = IsParent path ⊎ IsCut disk path

-- The staging directory, and what the listings of the system lead to from there.
pub data Listed (disk : Disk) : Text → Type 0 where
  stage : Listed disk install_stage
  child :
      (path : Text) (trace : Trace)
      → Listed disk path
      → is_dots (disk.entry_name trace) ≡ false
      → Listed disk (path ++ (47 ∷ disk.entry_name trace))

-- The paths that the calls which make or remove something may have.
abbrev Allowed : Disk → Call → Type 0
Allowed disk (create_file path) = IsStaged path
Allowed disk (remove_file path) = IsStaged path ⊎ Listed disk path
Allowed disk (make_directory path) = IsMade disk path
Allowed disk (remove_directory path) = Listed disk path
Allowed disk _ = Unit {0}

abbrev pub AllAllowed : Disk → Trace → Type 0
AllAllowed disk [] = Unit {0}
AllAllowed disk (event call a ∷ trace) = Allowed disk call × AllAllowed disk trace

-- The calls so far, at least `n` of them.
pub record Staged (disk : Disk) (n : ℕ) (trace : Trace) : Type 0 where
  pub allowed : AllAllowed disk trace
  pub longer : n ≤ length trace

take-last :
    (b : ℕ) (path : Text)
    → take (length path) (b ∷ path) ++ (get_or (b ∷ path) (length path) 0 ∷ []) ≡ b ∷ path
take-last b [] = refl
take-last b (c ∷ path) = ap (λ end. b ∷ end) (take-last c path)

-- A path is its beginning and its last byte.
pub take-length :
    (path : Text)
    → 0 < length path
    → take (length path - 1) path ++ (get_or path (length path - 1) 0 ∷ []) ≡ path
take-length [] some_byte = absurd (omega (arith, some_byte))
take-length (b ∷ path) some_byte =
    let e : suc (length path) - 1 ≡ length path = omega arith in
    ap (λ n. take n (b ∷ path) ++ (get_or (b ∷ path) n 0 ∷ [])) e ∙ take-last b path

module _ (disk : Disk) (n : ℕ) where
  pub make-next :
      (call : Call) (trace : Trace)
      → Allowed disk call
      → Staged disk n trace
      → Staged disk (suc n) (make disk call trace)
  unfolding make
  make-next call trace h s = record { allowed = (h, s.allowed); longer = omega (arith, s.longer) }

  pub Staged-le : (m : ℕ) (trace : Trace) → m ≤ n → Staged disk n trace → Staged disk m trace
  Staged-le m trace h s = record { allowed = s.allowed; longer = omega (arith, s.longer) }

  pub make-Staged :
      (call : Call) (trace : Trace)
      → Allowed disk call
      → Staged disk n trace
      → Staged disk n (make disk call trace)
  unfolding make
  make-Staged call trace h s = record { allowed = (h, s.allowed); longer = omega (arith, s.longer) }

  pub read_loop-Staged :
      (bound : ℕ) (file : ℤ) (left : ℕ) (trace : Trace)
      → Staged disk n trace
      → Staged disk n (read_loop disk bound file left trace).2
  unfolding read_loop
  read_loop-Staged zero file left trace s = s
  read_loop-Staged (suc bound) file left trace s =
      let a = disk.answer trace (read file left) in
      let s' = make-Staged (read file left) trace tt s in
      elim (Bool-cases (left == 0)) [
        | inl end ↦ rw end s
        | inr more ↦ elim (Bool-cases (is_not_positive a)) [
          | inl failed ↦ rw (more, failed) s'
          | inr good ↦
              rw (more, good)
                (read_loop-Staged bound file (left - cast_u32 a) (make disk (read file left) trace)
                  s')
        ]
      ]

  pub read_at-Staged :
      (file : ℤ) (offset size : ℕ) (trace : Trace)
      → Staged disk n trace
      → Staged disk n (read_at disk file offset size trace).2
  unfolding read_at
  read_at-Staged file offset size trace s =
      let s' = make-Staged (seek_to file offset) trace tt s in
      elim (Bool-cases (is_negative (disk.answer trace (seek_to file offset)))) [
        | inl failed ↦ rw failed s'
        | inr there ↦
            rw there (read_loop-Staged size file size (make disk (seek_to file offset) trace) s')
      ]

  write_loop-Staged :
      (bound : ℕ) (file : ℤ) (bytes : List ℕ) (trace : Trace)
      → Staged disk n trace
      → Staged disk n (write_loop disk bound file bytes trace).1
  unfolding write_loop
  write_loop-Staged zero file bytes trace s = s
  write_loop-Staged (suc bound) file bytes trace s =
      let a = disk.answer trace (write file bytes) in
      let s' = make-Staged (write file bytes) trace tt s in
      elim (Bool-cases (length bytes == 0)) [
        | inl end ↦ rw end s
        | inr more ↦ elim (Bool-cases (is_not_positive a)) [
          | inl failed ↦ rw (more, failed) s'
          | inr good ↦
              rw (more, good)
                (write_loop-Staged bound file (drop (cast_u32 a) bytes)
                  (make disk (write file bytes) trace) s')
        ]
      ]

  pub write_all-Staged :
      (file : ℤ) (bytes : List ℕ) (trace : Trace)
      → Staged disk n trace
      → Staged disk n (write_all disk file bytes trace).1
  unfolding write_all
  write_all-Staged file bytes trace s = write_loop-Staged (length bytes) file bytes trace s
