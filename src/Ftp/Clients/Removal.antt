-- ===== src/Ftp/Clients/Removal.antt =====
-- What `client_list_delete` leaves of the links.
use mathlib.Core.Path.{subst}
use vitacompanion_vitadeck.Prelude.{
  ℕ, ◌≡◌, ◌≢◌, refl, sym, ap, ap₂, ◌∙◌, inl, inr, true, false, Option, none, some, List, [], ◌∷◌,
  arith, ◌==◌, if◌then◌else◌, Bool-cases,
}
use vitacompanion_vitadeck.Ftp.Clients.{Heap, points_to, set_next, set_prev, unlink}
use vitacompanion_vitadeck.Ftp.Clients.Links.{mem, Distinct, Links, next_mem, prev_cases}

-- The list without a client.
abbrev pub remove : ℕ → List ℕ → List ℕ
remove a [] = []
remove a (x ∷ xs) = if x == a then xs else x ∷ remove a xs

-- The links of a heap after the client x was unlinked, for the other clients.
pub record Unlinked (h h' : Heap) (x : ℕ) : Type 0 where
  pub new_next :
      (a : ℕ) → a ≢ x → (h' a).next ≡ (if points_to (h x).prev a then (h x).next else (h a).next)
  pub new_prev :
      (a : ℕ) → a ≢ x → (h' a).prev ≡ (if points_to (h x).next a then (h x).prev else (h a).prev)

-- Links that no write has touched.
pub Links-frame :
    (h h' : Heap) (p o : Option ℕ) (xs : List ℕ)
    → ((a : ℕ) → mem a xs ≡ true → ((h' a).prev ≡ (h a).prev) × ((h' a).next ≡ (h a).next))
    → Links h p o xs
    → Links h' p o xs
Links-frame h h' p o [] same l = l
Links-frame h h' p o (x ∷ xs) same l =
    let here = same x (ground arith) in
    (
      l.0,
      here.0 ∙ l.1,
      subst (λ (t : Option ℕ). Links h' (some x) t xs) (sym here.1)
          (Links-frame h h' (some x) (h x).next xs (λ a m. same a (ground (arith, m))) l.2),
    )

points_to_self : (o : Option ℕ) (a : ℕ) → o ≡ some a → points_to o a ≡ true
points_to_self none a e = cc
points_to_self (some b) a e = let e' : b ≡ a = cc in ground arith

points_to-other : (o : Option ℕ) (a : ℕ) → o ≢ some a → points_to o a ≡ false
points_to-other none a e = refl
points_to-other (some b) a e = elim (Bool-cases (a == b)) [
  | inl same ↦ let e' : b ≡ a = ground arith in absurd (e (ap some e'))
  | inr other ↦ other
]

-- When the first client goes, the rest is a list behind the one before it.
remove_first :
    (h h' : Heap) (p : Option ℕ) (x : ℕ) (xs : List ℕ)
    → Unlinked h h' x
    → (h x).prev ≡ p
    → Distinct (x ∷ xs)
    → ((a : ℕ) → p ≡ some a → mem a xs ≡ false)
    → Links h (some x) (h x).next xs
    → Links h' p (h x).next xs
remove_first h h' p x [] u before d away l = l
remove_first h h' p x (z ∷ xs) u before d away l =
    let z_other : z ≢ x = λ e. ground (arith, d.0) in
    let pz : points_to (h x).prev z ≡ false =
      points_to-other (h x).prev z (λ e. let m = away z (sym before ∙ e) in ground (arith, m)) in
    let nz : points_to (h x).next z ≡ true = points_to_self (h x).next z l.0 in
    let next_z : (h' z).next ≡ (h z).next = u.new_next z z_other ∙ (rw (pz) refl) in
    let prev_z : (h' z).prev ≡ (h x).prev = u.new_prev z z_other ∙ (rw (nz) refl) in
    (
      l.0,
      prev_z ∙ before,
      subst (λ (t : Option ℕ). Links h' (some z) t xs) (sym next_z)
          (Links-frame h h' (some z) (h z).next xs
            (λ a m.
              let a_other : a ≢ x = λ e. let m' = rw e at m in ground (arith, m', d.0) in
              let pa : points_to (h x).prev a ≡ false =
                points_to-other (h x).prev a
                  (λ e. let m' = away a (sym before ∙ e) in ground (arith, m', m)) in
              let na : points_to (h x).next a ≡ false = points_to-other (h x).next a (λ e.
                let same : a ≡ z = cc (sym e ∙ l.0) in
                let m' = rw same at m in ground (arith, m', d.1.0)) in
              (u.new_prev a a_other ∙ (rw (na) refl), u.new_next a a_other ∙ (rw (pa) refl)))
            l.2),
    )

first_prev :
    (h : Heap) (p o : Option ℕ) (xs : List ℕ) (a : ℕ) → Links h p o xs → o ≡ some a → (h a).prev ≡ p
first_prev h p o [] a l e = cc (sym e ∙ l)
first_prev h p o (x ∷ xs) a l e =
    let x_is : x ≡ a = cc (sym l.0 ∙ e) in ap (λ (t : ℕ). (h t).prev) (sym x_is) ∙ l.1

-- When a later client goes, the list is the one without it.
pub Links-remove :
    (h h' : Heap) (p o : Option ℕ) (x : ℕ) (xs : List ℕ)
    → Unlinked h h' x
    → Links h p o xs
    → Distinct xs
    → mem x xs ≡ true
    → ((a : ℕ) → p ≡ some a → mem a xs ≡ false)
    → Links h' p (if points_to o x then (h x).next else o) (remove x xs)
Links-remove h h' p o x [] u l d m away = cc
Links-remove h h' p o x (y ∷ xs) u l d m away = elim (Bool-cases (y == x)) [
  | inl same ↦
      let y_is : y ≡ x = ground arith in
      let first : points_to o x ≡ true = points_to_self o x (l.0 ∙ ap some y_is) in
      let l' = rw y_is at l in
      let d' = rw y_is at d in
      rw (first, same)
        (remove_first h h' p x xs u l'.1 d' (λ a e. let m' = away a e in ground (arith, m')) l'.2)
  | inr other ↦
      let y_other : y ≢ x = λ e. ground (arith, other) in
      let not_first : points_to o x ≡ false =
        points_to-other o x (λ e. let y_is : y ≡ x = cc (sym l.0 ∙ e) in y_other y_is) in
      let inside : mem x xs ≡ true = ground (arith, m, other) in
      let kept : points_to (h x).next y ≡ false =
        points_to-other (h x).next y
          (λ e. let m' = next_mem h (some y) (h y).next xs x y l.2 inside e in cc (sym m' ∙ d.0)) in
      let next_is : (if points_to (h x).prev y then (h x).next else (h y).next)
          ≡ (if points_to (h y).next x then (h x).next else (h y).next) =
        elim (prev_cases h (some y) (h y).next xs x l.2 d.1 inside) [
          | inl (first, e) ↦
              let t1 : points_to (h x).prev y ≡ true = points_to_self (h x).prev y e in
              let t2 : points_to (h y).next x ≡ true = points_to_self (h y).next x first in
              rw (t1, t2) refl
          | inr (w, e, m', w_other) ↦
              let w_is : (v : ℕ) → (h x).prev ≡ some v → w ≡ v = λ v e'. cc (sym e ∙ e') in
              let apart : (h x).prev ≢ some y =
                λ e'. let y_in = rw (w_is y e') at m' in cc (sym y_in ∙ d.0) in
              let t1 : points_to (h x).prev y ≡ false = points_to-other (h x).prev y apart in
              let t2 : points_to (h y).next x ≡ false =
                points_to-other (h y).next x
                  (λ e'. apart (first_prev h (some y) (h y).next xs x l.2 e')) in
              rw (t1, t2) refl
        ] in
      let rest =
        Links-remove h h' (some y) (h y).next x xs u l.2 d.1 inside
          (λ a e. let y_is : y ≡ a = cc in rw y_is at d.0) in
      rw (not_first, other)
        (
          l.0,
          u.new_prev y y_other ∙ (rw (kept) l.1),
          subst (λ (t : Option ℕ). Links h' (some y) t (remove x xs))
              (sym (u.new_next y y_other ∙ next_is)) rest,
        )
]

set_next-next :
    (q v : Option ℕ) (h : Heap) (a : ℕ)
    → (set_next q v h a).next ≡ (if points_to q a then v else (h a).next)
set_next-next none v h a = refl
set_next-next (some b) v h a = elim (Bool-cases (a == b)) [
  | inl same ↦ rw (same) refl
  | inr other ↦ rw (other) refl
]

set_next-prev : (q v : Option ℕ) (h : Heap) (a : ℕ) → (set_next q v h a).prev ≡ (h a).prev
set_next-prev none v h a = refl
set_next-prev (some b) v h a = elim (Bool-cases (a == b)) [
  | inl same ↦ let e : b ≡ a = ground arith in rw (same) (ap (λ (t : ℕ). (h t).prev) e)
  | inr other ↦ rw (other) refl
]

set_prev-prev :
    (q v : Option ℕ) (h : Heap) (a : ℕ)
    → (set_prev q v h a).prev ≡ (if points_to q a then v else (h a).prev)
set_prev-prev none v h a = refl
set_prev-prev (some b) v h a = elim (Bool-cases (a == b)) [
  | inl same ↦ rw (same) refl
  | inr other ↦ rw (other) refl
]

set_prev-next : (q v : Option ℕ) (h : Heap) (a : ℕ) → (set_prev q v h a).next ≡ (h a).next
set_prev-next none v h a = refl
set_prev-next (some b) v h a = elim (Bool-cases (a == b)) [
  | inl same ↦ let e : b ≡ a = ground arith in rw (same) (ap (λ (t : ℕ). (h t).next) e)
  | inr other ↦ rw (other) refl
]

-- The two writes to the neighbours.
pub unlink-Unlinked :
    (h : Heap) (x : ℕ) → (h x).prev ≢ some x → (h x).next ≢ some x → Unlinked h (unlink x h) x
unlink-Unlinked h x p n =
    let h1 = set_next (h x).prev (h x).next h in
    let own : points_to (h x).prev x ≡ false = points_to-other (h x).prev x p in
    let next_kept : (h1 x).next ≡ (h x).next =
      set_next-next (h x).prev (h x).next h x ∙ (rw (own) refl) in
    let prev_kept : (h1 x).prev ≡ (h x).prev = set_next-prev (h x).prev (h x).next h x in
    record {
      new_next = λ a other.
          set_prev-next (h1 x).next (h1 x).prev h1 a ∙ set_next-next (h x).prev (h x).next h a;
      new_prev = λ a other.
          set_prev-prev (h1 x).next (h1 x).prev h1 a
          ∙ ap₂ (λ (t u : Option ℕ). if points_to t a then u else (h1 a).prev) next_kept prev_kept
          ∙ ap (λ (t : Option ℕ). if points_to (h x).next a then (h x).prev else t)
              (set_next-prev (h x).prev (h x).next h a);
    }

pub unlink-next : (h : Heap) (x : ℕ) → (h x).prev ≢ some x → (unlink x h x).next ≡ (h x).next
unlink-next h x p =
    let h1 = set_next (h x).prev (h x).next h in
    let own : points_to (h x).prev x ≡ false = points_to-other (h x).prev x p in
    set_prev-next (h1 x).next (h1 x).prev h1 x
    ∙ set_next-next (h x).prev (h x).next h x
    ∙ (rw (own) refl)
