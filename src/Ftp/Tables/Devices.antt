-- ===== src/Ftp/Tables/Devices.antt =====
-- The table of the devices as the names that are valid.
use mathlib.Core.Path.{subst}
use vitacompanion_vitadeck.Prelude.{
  ◌≡◌, refl, sym, ap, ◌∙◌, inl, inr, false, Bool-cases, List, [], ◌∷◌, if◌then◌else◌, Text, text_eq,
  text_eq_iff, arith, All,
}
use vitacompanion_vitadeck.Ftp.Tables.{Device, ftpvita_add_device, ftpvita_del_device}

-- The names of the valid entries, in the order of the table.
unfoldable pub valid_names : List Device → List Text
valid_names [] = []
valid_names (d ∷ devices) = if d.is_valid then d.name ∷ valid_names devices else valid_names devices

-- A name is not one of the valid ones.
abbrev pub IsAbsent : Text → List Device → Type 0
IsAbsent devname devices = All (λ name. text_eq devname name ≡ false) (valid_names devices)

-- No valid entry stands behind another entry, valid or not, of its name.
abbrev pub IsDistinct : List Device → Type 0
IsDistinct [] = Unit {0}
IsDistinct (d ∷ devices) = IsAbsent d.name devices × IsDistinct devices

abbrev pub without : Text → List Text → List Text
without devname [] = []
without devname (name ∷ names) =
    if text_eq devname name then without devname names else name ∷ without devname names

without-absent :
    (devname : Text) (names : List Text)
    → All (λ name. text_eq devname name ≡ false) names
    → without devname names ≡ names
without-absent devname [] h = refl
without-absent devname (name ∷ names) h =
    rw h.0 (ap (λ ns. name ∷ ns) (without-absent devname names h.1))

-- Deleting a device takes its name, and no other, out of the valid ones.
del_device-without :
    (devname : Text) (devices : List Device)
    → IsDistinct devices
    → valid_names (ftpvita_del_device devname devices).1 ≡ without devname (valid_names devices)
unfolding ftpvita_del_device valid_names
del_device-without devname [] is = refl
del_device-without devname (d ∷ devices) is = elim (Bool-cases (text_eq devname d.name)) [
  | inl found ↦
      let same = (text_eq_iff devname d.name).0 found in
      let absent : IsAbsent devname devices =
        subst (λ name. IsAbsent name devices) (sym same) is.0 in
      let none_left = without-absent devname (valid_names devices) absent in
      elim (Bool-cases d.is_valid) [
        | inl live ↦ rw (found, live) (rw found (sym none_left))
        | inr stale ↦ rw (found, stale) (sym none_left)
      ]
  | inr other ↦
      let rest = del_device-without devname devices is.1 in
      elim (Bool-cases d.is_valid) [
        | inl live ↦ rw (other, live) (rw other (ap (λ names. d.name ∷ names) rest))
        | inr stale ↦ rw (other, stale) rest
      ]
]

add_device-without :
    (devname : Text) (devices : List Device)
    → IsAbsent devname devices
    → without devname (valid_names (ftpvita_add_device devname devices).1) ≡ valid_names devices
unfolding ftpvita_add_device valid_names
add_device-without devname [] absent = refl
add_device-without devname (d ∷ devices) absent = elim (Bool-cases d.is_valid) [
  | inr free ↦
      let itself = (text_eq_iff devname devname).1 refl in
      rw free
        (rw itself (without-absent devname (valid_names devices) (ground (arith, absent, free))))
  | inl live ↦
      let absent' : (text_eq devname d.name ≡ false) × IsAbsent devname devices =
        ground (arith, absent, live) in
      rw (live, absent'.0)
        (ap (λ names. d.name ∷ names) (add_device-without devname devices absent'.1))
]

add_device-IsAbsent :
    (name devname : Text) (devices : List Device)
    → text_eq name devname ≡ false
    → IsAbsent name devices
    → IsAbsent name (ftpvita_add_device devname devices).1
unfolding ftpvita_add_device valid_names
add_device-IsAbsent name devname [] other absent = absent
add_device-IsAbsent name devname (d ∷ devices) other absent = elim (Bool-cases d.is_valid) [
  | inr free ↦ rw free (ground (arith, other, absent, free))
  | inl live ↦
      let absent' : (text_eq name d.name ≡ false) × IsAbsent name devices =
        ground (arith, absent, live) in
      rw live (absent'.0, add_device-IsAbsent name devname devices other absent'.1)
]

text_eq-false_sym : (s t : Text) → text_eq s t ≡ false → text_eq t s ≡ false
text_eq-false_sym s t h = elim (Bool-cases (text_eq t s)) [
  | inr no_match ↦ no_match
  | inl found ↦
      let e = (text_eq_iff s t).1 (sym ((text_eq_iff t s).0 found)) in ground (arith, e, h)
]

add_device-IsDistinct :
    (devname : Text) (devices : List Device)
    → IsAbsent devname devices
    → IsDistinct devices
    → IsDistinct (ftpvita_add_device devname devices).1
unfolding ftpvita_add_device valid_names
add_device-IsDistinct devname [] absent is = is
add_device-IsDistinct devname (d ∷ devices) absent is = elim (Bool-cases d.is_valid) [
  | inr free ↦ rw free (ground (arith, absent, free), is.1)
  | inl live ↦
      let absent' : (text_eq devname d.name ≡ false) × IsAbsent devname devices =
        ground (arith, absent, live) in
      rw live (
        add_device-IsAbsent d.name devname devices (text_eq-false_sym devname d.name absent'.0)
            is.0,
        add_device-IsDistinct devname devices absent'.1 is.1,
      )
]

-- In a table in which no valid device stands behind another entry of its name, adding a device whose
-- name is not valid keeps the table so, and deleting it again leaves the valid devices as they were.
pub del_device-of_add :
    (devname : Text) (devices : List Device)
    → IsDistinct devices
    → IsAbsent devname devices
    → let added = (ftpvita_add_device devname devices).1 in
      IsDistinct added × (valid_names (ftpvita_del_device devname added).1 ≡ valid_names devices)
del_device-of_add devname devices is absent =
    let added = add_device-IsDistinct devname devices absent is in
    (
      added,
      del_device-without devname (ftpvita_add_device devname devices).1 added
          ∙ add_device-without devname devices absent,
    )
