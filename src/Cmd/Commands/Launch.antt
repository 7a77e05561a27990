-- ===== src/Cmd/Commands/Launch.antt =====
-- When `launch` reports a title as launched.
use vitacompanion_vitadeck.Prelude.{
  ℕ, zero, suc, ◌<◌, ◌≡◌, refl, ◌↔◌, Bool, true, false, not, ◌&&◌, [], ◌∷◌, map, arith, Bool-cases,
  inl, inr, All, ℤ, is_negative, Text,
}
use vitacompanion_vitadeck.Cmd.Os.{Os}
use vitacompanion_vitadeck.Cmd.Definitions.{upper_char, title_ids_equal, confirm_interval_us}
use vitacompanion_vitadeck.Cmd.Commands.{title_id_size, get_foreground_title_id, confirm_loop}

-- Two title IDs without a NUL inside are taken as equal exactly when they agree in upper case.
pub title_ids_equal-iff-upper :
    (left right : Text)
    → All (λ c. 0 < c) left
    → All (λ c. 0 < c) right
    → (title_ids_equal left right ≡ true) ↔ (map upper_char left ≡ map upper_char right)
unfolding title_ids_equal
title_ids_equal-iff-upper [] [] l r = ((λ h. refl), (λ h. refl))
title_ids_equal-iff-upper [] (d ∷ right) l r = ((λ h. absurd (ground (arith, r.0))), (λ h. cc))
title_ids_equal-iff-upper (c ∷ left) [] l r = ((λ h. absurd (ground (arith, l.0))), (λ h. cc))
title_ids_equal-iff-upper (c ∷ left) (d ∷ right) l r =
    let rest = title_ids_equal-iff-upper left right l.1 r.1 in
    ((λ h. ground (arith, rest)), (λ h. ground (arith, rest)))

module _ {W : Type 0} (os : Os W) where
  -- The answer to the query number `k` of the foreground title, a pause after each query.
  pub poll : ℕ → Text → W → ℤ × Text × W
  poll zero seen w = get_foreground_title_id os seen (title_id_size os) w
  poll (suc k) seen w =
      let (_, seen', w') = get_foreground_title_id os seen (title_id_size os) w in
      poll k seen' (os.delay_thread confirm_interval_us w')

  -- Whether the query number `k` finds the title in the foreground.
  pub sees : ℕ → Text → Text → W → Bool
  unfolding poll
  sees k title seen w =
      let (result, found, _) = poll k seen w in
      not (is_negative result) && title_ids_equal found title

  abbrev seen_next : Text → W → Text
  seen_next seen w = (get_foreground_title_id os seen (title_id_size os) w).1

  abbrev world_next : Text → W → W
  world_next seen w =
      os.delay_thread confirm_interval_us (get_foreground_title_id os seen (title_id_size os) w).2

  sees_later :
      (attempts : ℕ) (title seen : Text) (w : W)
      → sees zero title seen w ≡ false
      → (k : ℕ) → k < suc attempts
      → sees k title seen w ≡ true
      → (j : ℕ) × (j < attempts) × (sees j title (seen_next seen w) (world_next seen w) ≡ true)
  unfolding sees
  sees_later attempts title seen w later zero less found = absurd (ground arith)
  sees_later attempts title seen w later (suc k) less found = (k, omega arith, found)

  -- A launch is confirmed exactly when one of the first `attempts` queries finds the title in the
  -- foreground.
  pub confirm_loop-iff-sees :
      (attempts : ℕ) (title seen : Text) (w : W)
      → ((confirm_loop os attempts title seen w).0 ≡ true)
        ↔ ((k : ℕ) × (k < attempts) × (sees k title seen w ≡ true))
  unfolding confirm_loop sees
  confirm_loop-iff-sees zero title seen w = ((λ h. cc), (λ (k, less, h). absurd (omega arith)))
  confirm_loop-iff-sees (suc attempts) title seen w =
      let (result, seen', w') = get_foreground_title_id os seen (title_id_size os) w in
      let rest =
        confirm_loop-iff-sees attempts title seen' (os.delay_thread confirm_interval_us w') in
      elim (Bool-cases (sees zero title seen w)) [
        | inl now ↦ ((λ h. (zero, omega arith, now)), (λ h. rw now))
        | inr later ↦ (
          (λ h. let (k, less, found) = rest.0 (rw later at h) in (suc k, omega arith, found)),
          (λ (k, less, found).
              rw later (rest.1 (sees_later attempts title seen w later k less found))),
        )
      ]
