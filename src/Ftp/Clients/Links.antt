-- ===== src/Ftp/Clients/Links.antt =====
-- Lists in the heap: what the links of a list say of its clients.
use vitacompanion_vitadeck.Prelude.{
  ℕ, ◌≡◌, ◌≢◌, sym, ap, ◌∙◌, ◌⊎◌, inl, inr, Bool, true, false, ◌||◌, Option, none, some, List, [],
  ◌∷◌, arith, ◌==◌, Bool-cases,
}
use vitacompanion_vitadeck.Ftp.Clients.{Heap}

abbrev pub mem : ℕ → List ℕ → Bool
mem a [] = false
mem a (x ∷ xs) = a == x || mem a xs

abbrev pub Distinct : List ℕ → Type 0
Distinct [] = Unit
Distinct (x ∷ xs) = (mem x xs ≡ false) × Distinct xs

-- From the pointer `o` on, the clients are xs, and the one before them is `p`.
abbrev pub Links : Heap → Option ℕ → Option ℕ → List ℕ → Type 0
Links h p o [] = o ≡ none
Links h p o (x ∷ xs) = (o ≡ some x) × ((h x).prev ≡ p) × Links h (some x) (h x).next xs

pub first_mem :
    (h : Heap) (p o : Option ℕ) (xs : List ℕ) (b : ℕ)
    → Links h p o xs
    → o ≡ some b
    → mem b xs ≡ true
first_mem h p o [] b l e = cc (sym e ∙ l)
first_mem h p o (y ∷ xs) b l e = let y_is : y ≡ b = cc (sym l.0 ∙ e) in ground arith

-- The client behind a client of the list is in the list too, and another one.
pub next_mem :
    (h : Heap) (p o : Option ℕ) (xs : List ℕ) (a b : ℕ)
    → Links h p o xs
    → mem a xs ≡ true
    → (h a).next ≡ some b
    → mem b xs ≡ true
next_mem h p o [] a b l m e = cc
next_mem h p o (x ∷ xs) a b l m e = elim (Bool-cases (a == x)) [
  | inl same ↦
      let e' : a ≡ x = ground arith in
      let rest =
        first_mem h (some x) (h x).next xs b l.2 (ap (λ (t : ℕ). (h t).next) (sym e') ∙ e) in
      ground (arith, rest)
  | inr other ↦
      let rest = next_mem h (some x) (h x).next xs a b l.2 (ground (arith, m, other)) e in
      ground (arith, rest)
]

pub next-other :
    (h : Heap) (p o : Option ℕ) (xs : List ℕ) (a : ℕ)
    → Links h p o xs
    → Distinct xs
    → mem a xs ≡ true
    → (h a).next ≢ some a
next-other h p o [] a l d m e = cc
next-other h p o (x ∷ xs) a l d m e = elim (Bool-cases (a == x)) [
  | inl same ↦
      let e' : a ≡ x = ground arith in
      let again =
        first_mem h (some x) (h x).next xs x l.2
          (ap (λ (t : ℕ). (h t).next) (sym e') ∙ e ∙ ap some e') in
      cc (sym again ∙ d.0)
  | inr other ↦ next-other h (some x) (h x).next xs a l.2 d.1 (ground (arith, m, other)) e
]

-- The client before a client of the list is the one before the list, when the client is its first,
-- and else another client of the list.
pub prev_cases :
    (h : Heap) (p o : Option ℕ) (xs : List ℕ) (a : ℕ)
    → Links h p o xs
    → Distinct xs
    → mem a xs ≡ true
    → ((o ≡ some a) × ((h a).prev ≡ p))
      ⊎ ((w : ℕ) × ((h a).prev ≡ some w) × (mem w xs ≡ true) × (w ≢ a))
prev_cases h p o [] a l d m = cc
prev_cases h p o (x ∷ xs) a l d m = elim (Bool-cases (a == x)) [
  | inl same ↦
      let e' : x ≡ a = ground arith in
      inl (l.0 ∙ ap some e', ap (λ (t : ℕ). (h t).prev) (sym e') ∙ l.1)
  | inr other ↦ elim (prev_cases h (some x) (h x).next xs a l.2 d.1 (ground (arith, m, other))) [
    | inl (first, e) ↦ inr (x, e, ground arith, λ e'. ground (arith, other))
    | inr (w, e, m', n) ↦ inr (w, e, ground (arith, m'), n)
  ]
]
