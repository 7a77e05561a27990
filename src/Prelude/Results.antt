-- ===== src/Prelude/Results.antt =====
-- What holds of the result of a computation that must not fail.
use mathlib.Core.Path.{◌≡◌, refl}
use mathlib.Core.Option.{Option, none, some}

-- There is a result, and `P` holds of it.
abbrev pub Yields : {A : Type 0} → (A → Type 0) → Option A → Type 0
Yields P none = ⊥
Yields P (some a) = P a

-- The result, to rewrite with.
pub Yields-found :
    {A : Type 0} (P : A → Type 0) (o : Option A) → Yields P o → (a : A) × (o ≡ some a) × P a
Yields-found P none y = absurd y
Yields-found P (some a) y = (a, refl, y)

pub Yields-map :
    {A : Type 0} (P Q : A → Type 0) (o : Option A) → ((a : A) → P a → Q a) → Yields P o → Yields Q o
Yields-map P Q none f y = y
Yields-map P Q (some a) f y = f a y
