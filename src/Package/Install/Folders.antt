-- ===== src/Package/Install/Folders.antt =====
-- The directories that the installer makes on the way to a path.
use mathlib.Core.Path.{subst}
use vitacompanion_vitadeck.Prelude.{
  ℕ, suc, ◌≡◌, refl, ap, ◌∙◌, sym, inl, inr, Bool, false, not, ◌&&◌, ◌||◌, Bool-cases, Option-cases,
  some, [], ◌∷◌, ◌++◌, append_assoc, snoc-append, ◌==◌, is_negative, Text, take, drop,
  take-append-drop, c_string, arith,
}
use vitacompanion_vitadeck.Ftp.Paths.{last_slash}
use vitacompanion_vitadeck.Package.Disk.{get_stat, make_directory, Trace, Disk, make}
use vitacompanion_vitadeck.Package.Stage.{
  make_or_find, ends_with_colon, make_parents, is_bad_length, ensure_directory,
  ensure_parent_directory,
}
use vitacompanion_vitadeck.Package.Install.Inside.{IsStaged, IsParent, IsMade, Staged, make-Staged}

-- The cut at a slash of a path that may be made.
IsMade-front : (disk : Disk) (p q : Text) → IsMade disk (p ++ (47 ∷ q)) → IsParent p
IsMade-front disk p q (inl (rest, (entry, e, safe))) =
    (q ++ (47 ∷ rest), (entry, sym (append_assoc p (47 ∷ q) (47 ∷ rest)) ∙ e, safe))
IsMade-front disk p q (inr (name, size, c, was_read, last, safe, e)) =
    (q ++ (c ∷ []), (c_string name, sym (append_assoc p (47 ∷ q) (c ∷ [])) ∙ e, safe))

-- What follows the last slash begins with it.
last_slash-drop :
    (path : Text) (i : ℕ) → last_slash path ≡ some i → (rest : Text) × (drop i path ≡ 47 ∷ rest)
unfolding last_slash
last_slash-drop [] i h = absurd (ground (arith, h))
last_slash-drop (c ∷ path) i h = elim (Option-cases (last_slash path)) [
  | inr (j, later) ↦
      let e : i ≡ suc j = ground (arith, h, later) in
      let (rest, d) = last_slash-drop path j later in (rest, rw e d)
  | inl none_later ↦ elim (Bool-cases (c == 47)) [
    | inl slash ↦
        let e : i ≡ 0 = ground (arith, h, none_later, slash) in
        let is : c ≡ 47 = ground (arith, slash) in (path, rw (e, is) refl)
    | inr other ↦ absurd (ground (arith, h, none_later, other))
  ]
]

module _ (disk : Disk) (n : ℕ) where
  make_or_find-Staged :
      (path : Text) (trace : Trace)
      → IsMade disk path
      → Staged disk n trace
      → Staged disk n (make_or_find disk path trace).1
  unfolding make_or_find
  make_or_find-Staged path trace is s =
      let made = make disk (make_directory path) trace in
      let found = make disk (get_stat path) made in
      let s' = make-Staged disk n (make_directory path) trace is s in
      let s'' = make-Staged disk n (get_stat path) made tt s' in
      elim (Bool-cases (is_negative (disk.answer trace (make_directory path)))) [
        | inr new ↦ rw new s'
        | inl old ↦
            elim (Bool-cases
              (is_negative (disk.answer made (get_stat path)) || not (disk.is_directory found))) [
                | inl bad ↦ rw (old, bad) s''
                | inr good ↦ rw (old, good) s''
              ]
      ]

  make_parents-Staged :
      (passed : Text) (has_colon : Bool) (left : Text) (trace : Trace)
      → IsMade disk (passed ++ left)
      → Staged disk n trace
      → Staged disk n (make_parents disk passed has_colon left trace).1
  unfolding make_parents
  make_parents-Staged passed has_colon [] trace is s = s
  make_parents-Staged passed has_colon (c ∷ left) trace is s =
      let is' : IsMade disk ((passed ++ (c ∷ [])) ++ left) =
        subst (λ path. IsMade disk path) (sym (snoc-append passed c left)) is in
      elim (Bool-cases (has_colon && c == 47 && not (ends_with_colon passed))) [
        | inr skipped ↦
            rw skipped
              (make_parents-Staged (passed ++ (c ∷ [])) (has_colon || c == 58) left trace is' s)
        | inl wanted ↦
            let slash : c ≡ 47 = ground (arith, wanted) in
            let parent =
              IsMade-front disk passed left
                (subst (λ b. IsMade disk (passed ++ (b ∷ left))) slash is) in
            let s' = make_or_find-Staged passed trace (inl parent) s in
            let made = make_or_find disk passed trace in
            elim (Bool-cases (is_negative made.0)) [
              | inl failed ↦ rw (wanted, failed) s'
              | inr there ↦
                  rw (wanted, there)
                    (make_parents-Staged (passed ++ (c ∷ [])) (has_colon || c == 58) left made.1 is'
                      s')
            ]
      ]

  pub ensure_directory-Staged :
      (path : Text) (trace : Trace)
      → IsMade disk path
      → Staged disk n trace
      → Staged disk n (ensure_directory disk path trace).1
  unfolding ensure_directory
  ensure_directory-Staged path trace is s =
      let parents = make_parents disk [] false path trace in
      let s' = make_parents-Staged [] false path trace is s in
      elim (Bool-cases (is_bad_length disk path)) [
        | inl bad ↦ rw bad s
        | inr good ↦ elim (Bool-cases (is_negative parents.0)) [
          | inl failed ↦ rw (good, failed) s'
          | inr made ↦ rw (good, made) (make_or_find-Staged path parents.1 is s')
        ]
      ]

  pub ensure_parent_directory-Staged :
      (path : Text) (trace : Trace)
      → IsStaged path
      → Staged disk n trace
      → Staged disk n (ensure_parent_directory disk path trace).1
  unfolding ensure_parent_directory
  ensure_parent_directory-Staged path trace is s = elim (Bool-cases (is_bad_length disk path)) [
    | inl bad ↦ rw bad s
    | inr good ↦ elim (Option-cases (last_slash path)) [
      | inl none_there ↦ rw (good, none_there) s
      | inr (i, found) ↦
          let (rest, d) = last_slash-drop path i found in
          let whole : take i path ++ (47 ∷ rest) ≡ path =
            ap (λ end. take i path ++ end) (sym d) ∙ take-append-drop i path in
          rw (good, found)
            (ensure_directory-Staged (take i path) trace
              (inl (rest, subst (λ p. IsStaged p) (sym whole) is)) s)
    ]
  ]
