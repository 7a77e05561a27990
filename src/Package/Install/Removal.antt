-- ===== src/Package/Install/Removal.antt =====
-- The removal of a tree returns, and removes nothing but what was listed.
use vitacompanion_vitadeck.Prelude.{
  ℕ, zero, suc, ◌+◌, ◌≤◌, ◌<◌, ◌≡◌, ◌⊎◌, refl, inl, inr, true, false, Bool-cases, Option, none,
  some, ◌∷◌, ◌++◌, leb, ℤ, is_negative, Text, length, arith, Yields, Yields-found,
}
use vitacompanion_vitadeck.Ftp.Retr.{is_not_positive}
use vitacompanion_vitadeck.Package.Disk.{
  remove_file, get_stat, open_directory, read_directory, close_directory, remove_directory, event,
  Trace, Disk, path_max, make,
}
use vitacompanion_vitadeck.Package.Stage.{is_dots, close_and_remove, remove_tree, remove_entries}
use vitacompanion_vitadeck.Package.Install.Inside.{
  Listed, child, Staged, Staged-le, make-next, make-Staged,
}

-- From `limit` calls on a directory has no more entries.
abbrev pub DirectoryEnds : Disk → ℕ → Type 0
DirectoryEnds disk limit =
    (trace : Trace) (dir : ℤ)
    → limit ≤ length trace
    → is_not_positive (disk.answer trace (read_directory dir)) ≡ true

-- The last call has found nothing at the path, or has removed it.
abbrev pub Gone : Text → Trace → Type 0
Gone path (event (get_stat p) a ∷ trace) = (p ≡ path) × (is_negative a ≡ true)
Gone path (event (remove_file p) a ∷ trace) = (p ≡ path) × (is_negative a ≡ false)
Gone path (event (remove_directory p) a ∷ trace) = (p ≡ path) × (is_negative a ≡ false)
Gone path _ = ⊥

-- The removal has failed, or the path is gone.
pub record Removal (disk : Disk) (n : ℕ) (path : Text) (out : ℤ × Trace) : Type 0 where
  pub staged : Staged disk n out.1
  pub outcome : (is_negative out.0 ≡ true) ⊎ Gone path out.1

module _ (disk : Disk) (limit : ℕ) where
  abbrev TreeRemoved : ℕ → Type 0
  TreeRemoved fuel =
      (n : ℕ) (path : Text) (trace : Trace)
      → 1 < fuel
      → suc limit < fuel + n
      → Listed disk path
      → Staged disk n trace
      → Yields (Removal disk n path) (remove_tree disk fuel path trace)

  abbrev EntriesRemoved : ℕ → Type 0
  EntriesRemoved fuel =
      (n : ℕ) (dir : ℤ) (path : Text) (trace : Trace)
      → 0 < fuel
      → suc limit < fuel + n
      → Listed disk path
      → Staged disk n trace
      → Yields (λ out. Staged disk n out.1) (remove_entries disk fuel dir path trace)

  close_and_remove-Removal :
      (n : ℕ) (dir : ℤ) (path : Text) (o : Option (ℤ × Trace))
      → Listed disk path
      → Yields (λ out. Staged disk n out.1) o
      → Yields (Removal disk n path) (close_and_remove disk dir path o)
  unfolding make
  close_and_remove-Removal n dir path none listed y = y
  close_and_remove-Removal n dir path (some (result, trace)) listed s =
      let closed = make disk (close_directory dir) trace in
      let s' = make-Staged disk n (close_directory dir) trace tt s in
      let s'' = make-Staged disk n (remove_directory path) closed listed s' in
      let a = disk.answer closed (remove_directory path) in
      elim (Bool-cases (is_negative result)) [
        | inl failed ↦ rw failed (record { staged = s'; outcome = inl failed })
        | inr good ↦ rw good (record {
          staged = s'';
          outcome = elim (Bool-cases (is_negative a)) [
            | inl refused ↦ inl refused
            | inr gone ↦ inr (refl, gone)
          ];
        })
      ]

  remove_tree-Removal_step : (fuel : ℕ) → EntriesRemoved fuel → TreeRemoved (suc fuel)
  unfolding remove_tree make
  remove_tree-Removal_step fuel entries n path trace some_fuel enough listed s =
      let found = disk.answer trace (get_stat path) in
      let trace' = make disk (get_stat path) trace in
      let s' = make-next disk n (get_stat path) trace tt s in
      let here = make-Staged disk n (get_stat path) trace tt s in
      let dir = disk.answer trace' (open_directory path) in
      let trace'' = make disk (open_directory path) trace' in
      let s'' = make-Staged disk (suc n) (open_directory path) trace' tt s' in
      let a = disk.answer trace' (remove_file path) in
      elim (Bool-cases (is_negative found)) [
        | inl absent ↦ rw absent (record { staged = here; outcome = inr (refl, absent) })
        | inr there ↦ elim (Bool-cases (disk.is_directory trace')) [
          | inr plain ↦
              rw (there, plain)
                (record {
                  staged = make-Staged disk n (remove_file path) trace' (inr listed) here;
                  outcome = elim (Bool-cases (is_negative a)) [
                    | inl refused ↦ inl refused
                    | inr gone ↦ inr (refl, gone)
                  ];
                })
          | inl directory ↦ elim (Bool-cases (is_negative dir)) [
            | inl refused ↦
                rw (there, directory, refused)
                  (record {
                    staged = Staged-le disk (suc n) n trace'' (omega arith) s'';
                    outcome = inl refused;
                  })
            | inr opened ↦
                let (end, went, at_end) =
                  Yields-found (λ out. Staged disk (suc n) out.1)
                    (remove_entries disk fuel dir path trace'')
                    (entries (suc n) dir path trace'' (omega arith) (omega arith) listed s'') in
                rw (there, directory, opened, went)
                  (close_and_remove-Removal n dir path (some end) listed
                    (Staged-le disk (suc n) n end.1 (omega arith) at_end))
          ]
        ]
      ]

module _ (disk : Disk) (limit : ℕ) (ends : DirectoryEnds disk limit) where
  remove_entries-Staged_step :
      (fuel : ℕ)
      → TreeRemoved disk limit fuel
      → EntriesRemoved disk limit fuel
      → EntriesRemoved disk limit (suc fuel)
  unfolding remove_entries make
  remove_entries-Staged_step fuel tree entries n dir path trace some_fuel enough listed s =
      let count = disk.answer trace (read_directory dir) in
      let trace' = make disk (read_directory dir) trace in
      let s' = make-next disk n (read_directory dir) trace tt s in
      let here = make-Staged disk n (read_directory dir) trace tt s in
      let name = disk.entry_name trace' in
      let path' = path ++ (47 ∷ name) in
      elim (Bool-cases (is_not_positive count)) [
        | inl end ↦ rw end here
        | inr more ↦
            let early : n < limit =
              let h = ends trace dir in let l = s.longer in ground (arith, more, h, l) in
            let rest = λ (trace'' : Trace) (at : Staged disk (suc n) trace'').
              Yields-found (λ out. Staged disk (suc n) out.1)
                (remove_entries disk fuel dir path trace'')
                (entries (suc n) dir path trace'' (omega arith) (omega arith) listed at) in
            elim (Bool-cases (is_dots name)) [
              | inl dots ↦
                  let (end, went, at_end) = rest trace' s' in
                  rw (more, dots, went) (Staged-le disk (suc n) n end.1 (omega arith) at_end)
              | inr other ↦ elim (Bool-cases (leb path_max (length path'))) [
                | inl long ↦ rw (more, other, long) here
                | inr short ↦
                    let (out, removed, at_out) =
                      Yields-found (Removal disk (suc n) path') (remove_tree disk fuel path' trace')
                        (tree (suc n) path' trace' (omega arith) (omega arith)
                          (child path trace' listed other) s') in
                    elim (Bool-cases (is_negative out.0)) [
                      | inl failed ↦
                          rw (more, other, short, removed, failed)
                            (Staged-le disk (suc n) n out.1 (omega arith) at_out.staged)
                      | inr good ↦
                          let (end, went, at_end) = rest out.1 at_out.staged in
                          rw (more, other, short, removed, good, went)
                            (Staged-le disk (suc n) n end.1 (omega arith) at_end)
                    ]
              ]
            ]
      ]

  both_removed : (fuel : ℕ) → TreeRemoved disk limit fuel × EntriesRemoved disk limit fuel
  both_removed zero = (
    (λ n path trace some_fuel. absurd (omega arith)),
    (λ n dir path trace some_fuel. absurd (omega arith)),
  )
  both_removed (suc fuel) =
      let (tree, entries) = both_removed fuel in
      (
        remove_tree-Removal_step disk limit fuel entries,
        remove_entries-Staged_step fuel tree entries,
      )

  pub remove_tree-Removal :
      (fuel n : ℕ) (path : Text) (trace : Trace)
      → suc limit < fuel
      → Listed disk path
      → Staged disk n trace
      → Yields (Removal disk n path) (remove_tree disk fuel path trace)
  remove_tree-Removal fuel n path trace more =
      (both_removed fuel).0 n path trace (omega arith) (omega arith)
