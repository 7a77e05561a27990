-- ===== src/Prelude/Lists.antt =====
-- Lists measured and indexed by native numbers, under the library's names.
use Prim.Native.Nat.{ℕ, zero, suc, ◌+◌, ◌-◌, ◌≤◌, ◌<◌, min}
use mathlib.Core.Path.{◌≡◌, refl, ap}
use mathlib.Core.List.{List, [], ◌∷◌, ◌++◌}
use mathlib.Core.Option.{Option, none, some}
use native.Mathlib.Omega.{arith}

module _ {ℓ} {A : Type ℓ} where
  abbrev pub length : List A → ℕ
  length [] = 0
  length (x ∷ xs) = suc (length xs)

  abbrev pub get_elem? : List A → ℕ → Option A
  get_elem? [] i = none
  get_elem? (x ∷ xs) zero = some x
  get_elem? (x ∷ xs) (suc i) = get_elem? xs i

  abbrev pub get_or : List A → ℕ → A → A
  get_or [] i d = d
  get_or (x ∷ xs) zero d = x
  get_or (x ∷ xs) (suc i) d = get_or xs i d

  -- A write out of bounds changes nothing.
  abbrev pub set : List A → ℕ → A → List A
  set [] i v = []
  set (x ∷ xs) zero v = v ∷ xs
  set (x ∷ xs) (suc i) v = x ∷ set xs i v

  abbrev pub take : ℕ → List A → List A
  take zero xs = []
  take (suc n) [] = []
  take (suc n) (x ∷ xs) = x ∷ take n xs

  abbrev pub drop : ℕ → List A → List A
  drop zero xs = xs
  drop (suc n) [] = []
  drop (suc n) (x ∷ xs) = drop n xs

  abbrev pub replicate : ℕ → A → List A
  replicate zero a = []
  replicate (suc n) a = a ∷ replicate n a

module _ {ℓ} {A : Type ℓ} where
  pub length-append : (xs ys : List A) → length (xs ++ ys) ≡ length xs + length ys
  length-append [] ys = omega arith
  length-append (x ∷ xs) ys = omega (arith, length-append xs ys)

  pub snoc-append : (xs : List A) (a : A) (ys : List A) → (xs ++ (a ∷ [])) ++ ys ≡ xs ++ (a ∷ ys)
  snoc-append [] a ys = refl
  snoc-append (x ∷ xs) a ys = ap (λ zs. x ∷ zs) (snoc-append xs a ys)

  pub length-set : (xs : List A) (i : ℕ) (v : A) → length (set xs i v) ≡ length xs
  length-set [] i v = refl
  length-set (x ∷ xs) zero v = refl
  length-set (x ∷ xs) (suc i) v = ap suc (length-set xs i v)

  pub take-append-drop : (n : ℕ) (xs : List A) → take n xs ++ drop n xs ≡ xs
  take-append-drop zero xs = refl
  take-append-drop (suc n) [] = refl
  take-append-drop (suc n) (x ∷ xs) = ap (λ t. x ∷ t) (take-append-drop n xs)

  pub length-take : (n : ℕ) (xs : List A) → length (take n xs) ≡ min n (length xs)
  length-take zero xs = omega arith
  length-take (suc n) [] = omega arith
  length-take (suc n) (x ∷ xs) = omega (arith, length-take n xs)

  pub length-drop : (n : ℕ) (xs : List A) → length (drop n xs) ≡ length xs - n
  length-drop zero xs = omega arith
  length-drop (suc n) [] = omega arith
  length-drop (suc n) (x ∷ xs) = omega (arith, length-drop n xs)

  pub length-replicate : (n : ℕ) (a : A) → length (replicate n a) ≡ n
  length-replicate zero a = refl
  length-replicate (suc n) a = ap suc (length-replicate n a)

  -- Dropping in two goes, and taking what follows what was taken. The sum is a variable with an
  -- equation, since a sum of variables does not compute.
  pub drop-drop : (m n k : ℕ) (xs : List A) → n + m ≡ k → drop m (drop n xs) ≡ drop k xs
  drop-drop m zero k xs e = let e' : m ≡ k = omega arith in ap (λ (t : ℕ). drop t xs) e'
  drop-drop zero (suc n) zero [] e = refl
  drop-drop (suc m) (suc n) zero [] e = refl
  drop-drop zero (suc n) (suc k) [] e = refl
  drop-drop (suc m) (suc n) (suc k) [] e = refl
  drop-drop m (suc n) zero (x ∷ xs) e = absurd (omega arith)
  drop-drop m (suc n) (suc k) (x ∷ xs) e = drop-drop m n k xs (omega arith)

  pub take-append-take-drop :
      (m n k : ℕ) (xs : List A) → m + n ≡ k → take m xs ++ take n (drop m xs) ≡ take k xs
  take-append-take-drop zero n k xs e = let e' : n ≡ k = omega arith in ap (λ (t : ℕ). take t xs) e'
  take-append-take-drop (suc m) zero zero [] e = refl
  take-append-take-drop (suc m) (suc n) zero [] e = refl
  take-append-take-drop (suc m) zero (suc k) [] e = refl
  take-append-take-drop (suc m) (suc n) (suc k) [] e = refl
  take-append-take-drop (suc m) n zero (x ∷ xs) e = absurd (omega arith)
  take-append-take-drop (suc m) n (suc k) (x ∷ xs) e =
      ap (λ t. x ∷ t) (take-append-take-drop m n k xs (omega arith))

  pub take-of_le : (n : ℕ) (xs : List A) → length xs ≤ n → take n xs ≡ xs
  take-of_le zero [] h = refl
  take-of_le zero (x ∷ xs) h = absurd (omega arith)
  take-of_le (suc n) [] h = refl
  take-of_le (suc n) (x ∷ xs) h = ap (λ t. x ∷ t) (take-of_le n xs (omega arith))

  pub drop-of_le : (n : ℕ) (xs : List A) → length xs ≤ n → drop n xs ≡ []
  drop-of_le zero [] h = refl
  drop-of_le zero (x ∷ xs) h = absurd (omega arith)
  drop-of_le (suc n) [] h = refl
  drop-of_le (suc n) (x ∷ xs) h = drop-of_le n xs (omega arith)

  -- A window that lies inside what was taken.
  pub take-drop-take :
      (n p c : ℕ) (xs : List A) → p + n ≤ c → take n (drop p (take c xs)) ≡ take n (drop p xs)
  take-drop-take n p zero xs h = let n0 : n ≡ 0 = omega arith in rw (n0)
  take-drop-take n p (suc c) [] h = refl
  take-drop-take zero zero (suc c) (x ∷ xs) h = refl
  take-drop-take (suc n) zero (suc c) (x ∷ xs) h =
      ap (λ t. x ∷ t) (take-drop-take n zero c xs (omega arith))
  take-drop-take n (suc p) (suc c) (x ∷ xs) h = take-drop-take n p c xs (omega arith)

  pub take-take : (n c : ℕ) (xs : List A) → n ≤ c → take n (take c xs) ≡ take n xs
  take-take zero c xs h = refl
  take-take (suc n) zero xs h = absurd (omega arith)
  take-take (suc n) (suc c) [] h = refl
  take-take (suc n) (suc c) (x ∷ xs) h = ap (λ t. x ∷ t) (take-take n c xs (omega arith))

  -- A predicate that every element meets.
  abbrev pub All {κ} : (A → Type κ) → List A → Type κ
  All P [] = Unit
  All P (x ∷ xs) = P x × All P xs

module _ {ℓ} {A : Type ℓ} where
  pub All-append {κ} : (P : A → Type κ) (xs ys : List A) → All P xs → All P ys → All P (xs ++ ys)
  All-append P [] ys p q = q
  All-append P (x ∷ xs) ys p q = (p.0, All-append P xs ys p.1 q)

module _ {ℓ} {A : Type ℓ} where
  pub take-append : (n : ℕ) (xs ys : List A) → length xs ≡ n → take n (xs ++ ys) ≡ xs
  take-append zero [] ys h = refl
  take-append zero (x ∷ xs) ys h = absurd (omega arith)
  take-append (suc n) [] ys h = absurd (omega arith)
  take-append (suc n) (x ∷ xs) ys h = ap (λ t. x ∷ t) (take-append n xs ys (omega arith))

  pub drop-append : (n : ℕ) (xs ys : List A) → length xs ≡ n → drop n (xs ++ ys) ≡ ys
  drop-append zero [] ys h = refl
  drop-append zero (x ∷ xs) ys h = absurd (omega arith)
  drop-append (suc n) [] ys h = absurd (omega arith)
  drop-append (suc n) (x ∷ xs) ys h = drop-append n xs ys (omega arith)

  -- A write at the end of a window makes the window longer.
  pub take-set :
      (n k : ℕ) (xs : List A) (v : A)
      → n < length xs
      → n + 1 ≡ k
      → take k (set xs n v) ≡ take n xs ++ (v ∷ [])
  take-set n k [] v h e = absurd (omega arith)
  take-set zero zero (x ∷ xs) v h e = absurd (omega arith)
  take-set (suc n) zero (x ∷ xs) v h e = absurd (omega arith)
  take-set zero (suc k) (x ∷ xs) v h e =
      let e' : k ≡ 0 = omega arith in ap (λ (j : ℕ). v ∷ take j xs) e'
  take-set (suc n) (suc k) (x ∷ xs) v h e =
      ap (λ t. x ∷ t) (take-set n k xs v (omega arith) (omega arith))

  pub set-append :
      (n i k : ℕ) (xs ys : List A) (v : A)
      → length xs ≡ n
      → n + i ≡ k
      → set (xs ++ ys) k v ≡ xs ++ set ys i v
  set-append n i k [] ys v h e = let e' : k ≡ i = omega arith in ap (λ (j : ℕ). set ys j v) e'
  set-append n i zero (x ∷ xs) ys v h e = absurd (omega arith)
  set-append zero i (suc k) (x ∷ xs) ys v h e = absurd (omega arith)
  set-append (suc n) i (suc k) (x ∷ xs) ys v h e =
      ap (λ t. x ∷ t) (set-append n i k xs ys v (omega arith) (omega arith))

  pub replicate-append :
      (m n k : ℕ) (a : A) → m + n ≡ k → replicate m a ++ replicate n a ≡ replicate k a
  replicate-append zero n k a e = let e' : n ≡ k = omega arith in ap (λ (j : ℕ). replicate j a) e'
  replicate-append (suc m) n zero a e = absurd (omega arith)
  replicate-append (suc m) n (suc k) a e = ap (λ t. a ∷ t) (replicate-append m n k a (omega arith))
