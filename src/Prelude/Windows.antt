-- ===== src/Prelude/Windows.antt =====
-- Windows of lists: what a buffer holds of a file or of a stream.
use Prim.Native.Nat.{ℕ, ◌+◌, ◌-◌, ◌≤◌}
use mathlib.Core.Path.{◌≡◌, refl, sym, ap, ◌∙◌}
use mathlib.Core.List.{List, ◌++◌, append_assoc}
use native.Mathlib.Omega.{arith}
use vitacompanion_vitadeck.Prelude.Lists.{
  length, take, drop, length-take, length-drop, take-drop-take, take-take, drop-drop,
  take-append-take-drop,
}

-- A window of the buffer is a window of the file.
pub slice-eq {ℓ} :
    {A : Type ℓ} (buffer file : List A) (off count p : ℕ)
    → take count buffer ≡ take count (drop off file)
    → p ≤ count
    → take (count - p) (drop p buffer) ≡ take (count - p) (drop (off + p) file)
slice-eq buffer file off count p h le =
    sym (take-drop-take (count - p) p count buffer (omega arith))
    ∙ ap (λ t. take (count - p) (drop p t)) h
    ∙ take-drop-take (count - p) p count (drop off file) (omega arith)
    ∙ ap (λ t. take (count - p) t) (drop-drop p off (off + p) file refl)

pub length-slice {ℓ} :
    {A : Type ℓ} (file : List A) (off n : ℕ)
    → off + n ≤ length file
    → length (take n (drop off file)) ≡ n
length-slice file off n h = omega (arith, length-take n (drop off file), length-drop off file)

-- What was taken of a list grows by the next elements of the list.
pub append-window {ℓ} :
    {A : Type ℓ} (base file : List A) (start sent n pending : ℕ)
    → n ≤ pending
    → (base ++ take sent (drop start file)) ++ take n (take pending (drop (start + sent) file))
      ≡ base ++ take (sent + n) (drop start file)
append-window base file start sent n pending h =
    append_assoc base (take sent (drop start file))
      (take n (take pending (drop (start + sent) file)))
    ∙ ap (λ t. base ++ t)
        (ap (λ t. take sent (drop start file) ++ t)
            (take-take n pending (drop (start + sent) file) h
              ∙ ap (λ t. take n t) (sym (drop-drop sent start (start + sent) file refl)))
          ∙ take-append-take-drop sent n (sent + n) (drop start file) refl)
