-- ===== src/Package/Install/Cleanup.antt =====
-- The installation as a whole: it returns, it stays inside the staging area, and it cleans up.
use vitacompanion_vitadeck.Prelude.{
  ℕ, suc, ◌<◌, ◌≡◌, ◌⊎◌, refl, inl, inr, true, not, ◌||◌, Bool-cases, Option, none, some, List, [],
  ltb, ℤ, is_negative, Text, arith, Yields, Yields-found,
}
use vitacompanion_vitadeck.Sha1.{Context}
use vitacompanion_vitadeck.Package.Disk.{Trace, Disk, install_stage}
use vitacompanion_vitadeck.Package.Stage.{ensure_directory, remove_tree}
use vitacompanion_vitadeck.Package.Promote as Promote
use vitacompanion_vitadeck.Package.HeadFile.{Titled, make_head_bin}
use vitacompanion_vitadeck.Package.Install.{
  is_vpk, clean_up, promote_titled, after_extraction, install_staged, install_vpk, extract_vpk,
}
use vitacompanion_vitadeck.Package.Install.Inside.{AllAllowed, Staged, stage}
use vitacompanion_vitadeck.Package.Install.Folders.{ensure_directory-Staged}
use vitacompanion_vitadeck.Package.Install.Data.{InflateEnds}
use vitacompanion_vitadeck.Package.Install.Walk.{extract_vpk-Staged}
use vitacompanion_vitadeck.Package.Install.Removal.{
  DirectoryEnds, Gone, Removal, remove_tree-Removal,
}
use vitacompanion_vitadeck.Package.Install.Header.{stage-IsParent, make_head_bin-Staged}

-- The installation has failed, or the staging directory is gone; it has kept to the staging area, and it
-- has done nothing, or a removal of the staging directory was last.
pub record CleanedUp (disk : Disk) (fuel : ℕ) (out : Titled) : Type 0 where
  pub allowed : AllAllowed disk out.2
  pub outcome : (is_negative out.0 ≡ true) ⊎ Gone install_stage out.2
  pub removed_last :
      (out.2 ≡ [])
      ⊎ ((before : Trace) × (cleanup_result : ℤ) × (remove_tree disk fuel install_stage before
            ≡ some (cleanup_result, out.2)))

module _ (disk : Disk) (limit fuel : ℕ) (listings : DirectoryEnds disk limit)
    (inflating : InflateEnds disk limit) (more : suc limit < fuel) where
  clean_up-CleanedUp :
      (out : Titled) → Staged disk 0 out.2 → Yields (CleanedUp disk fuel) (clean_up disk fuel out)
  clean_up-CleanedUp (result, title_id, trace) s =
      let (end, went, at_end) =
        Yields-found (Removal disk 0 install_stage) (remove_tree disk fuel install_stage trace)
          (remove_tree-Removal disk limit listings fuel 0 install_stage trace more stage s) in
      rw (Yields, went)
        (record {
          allowed = at_end.staged.allowed;
          outcome = elim (at_end.outcome) [
            | inl failed ↦ inl (ground (arith, failed))
            | inr gone ↦ inr gone
          ];
          removed_last = inr (trace, end.0, went);
        })

  after_extraction-CleanedUp :
      (promoter : Promote.System) (context : Context) (template : List ℕ) (title_id_size : ℕ)
      (o : Option (ℤ × Trace))
      → Yields (λ out. AllAllowed disk out.1) o
      → Yields
          (CleanedUp disk fuel)
          (after_extraction disk fuel promoter context template title_id_size o)
  after_extraction-CleanedUp promoter context template title_id_size none y = y
  after_extraction-CleanedUp promoter context template title_id_size (some (result, trace)) y =
      let s : Staged disk 0 trace = record { allowed = y; longer = omega arith } in
      elim (Bool-cases (is_negative result)) [
        | inl failed ↦ rw failed (clean_up-CleanedUp (result, [], trace) s)
        | inr good ↦ rw good (
            clean_up-CleanedUp
              (promote_titled promoter (make_head_bin disk context template title_id_size trace))
              (make_head_bin-Staged disk context template title_id_size trace s))
      ]

  install_staged-CleanedUp :
      (promoter : Promote.System) (context : Context) (template : List ℕ) (vpk_path : Text)
      (title_id_size : ℕ) (trace : Trace)
      → Staged disk 0 trace
      → Yields
          (CleanedUp disk fuel)
          (install_staged disk fuel promoter context template vpk_path title_id_size trace)
  install_staged-CleanedUp promoter context template vpk_path title_id_size trace s =
      let made = ensure_directory disk install_stage trace in
      let s' = ensure_directory-Staged disk 0 install_stage trace (inl stage-IsParent) s in
      elim (Bool-cases (is_negative made.0)) [
        | inl failed ↦ rw failed (clean_up-CleanedUp (made.0, [], made.1) s')
        | inr there ↦ rw there (
            after_extraction-CleanedUp promoter context template title_id_size
              (extract_vpk disk fuel vpk_path made.1)
              (extract_vpk-Staged disk limit fuel vpk_path made.1 inflating (omega arith)
                s'.allowed))
      ]

-- However the system, zlib and the promoter answer, as long as directories have an end and `inflate` stops
-- going on at some point, an installation returns. It makes files only at `%s/%s` of the staging directory
-- and of a safe name. It makes directories only where such a path is cut at one of its slashes, or at
-- the path of an entry less one byte, for an entry whose name field was read off the archive and ends
-- in a slash; the byte is that slash unless the field holds a NUL. It removes only such files and what
-- the listings of the staging directory lead to. Unless it has made no call, it ends with a removal of the
-- staging directory, also when it has failed; and when its result is not negative, its last call has
-- found the staging directory gone, or has removed it.
pub install_vpk-CleanedUp :
    (disk : Disk) (limit fuel : ℕ) (promoter : Promote.System) (context : Context)
    (template : List ℕ) (vpk_path : Text) (title_id_size : ℕ)
    → DirectoryEnds disk limit
    → InflateEnds disk limit
    → suc limit < fuel
    → Yields
        (CleanedUp disk fuel)
        (install_vpk disk fuel promoter context template vpk_path title_id_size [])
unfolding install_vpk
install_vpk-CleanedUp disk limit fuel promoter context template vpk_path title_id_size listings
      inflating more =
    let s : Staged disk 0 [] = record { allowed = tt; longer = omega arith } in
    let (first, went, at_first) =
      Yields-found (Removal disk 0 install_stage) (remove_tree disk fuel install_stage [])
        (remove_tree-Removal disk limit listings fuel 0 install_stage [] more stage s) in
    elim (Bool-cases (ltb title_id_size 10 || not (is_vpk vpk_path))) [
      | inl bad ↦ rw bad (record { allowed = tt; outcome = inl refl; removed_last = inl refl })
      | inr good ↦
          rw (good, went)
            (install_staged-CleanedUp disk limit fuel listings inflating more promoter context
              template vpk_path title_id_size first.1 at_first.staged)
    ]
