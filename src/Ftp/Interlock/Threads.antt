-- ===== src/Ftp/Interlock/Threads.antt =====
-- One value for each thread: a change at one thread, and how many of the first `n` are marked.
use vitacompanion_vitadeck.Prelude.{
  ℕ, zero, suc, ◌+◌, ◌≤◌, ◌<◌, ◌≡◌, refl, Bool, true, false, arith, ◌==◌, if◌then◌else◌, Bool-cases,
  inl, inr, ltb,
}

abbrev pub update {ℓ} : {A : Type ℓ} → (ℕ → A) → ℕ → A → ℕ → A
update f i a j = if i == j then a else f j

abbrev pub bit : Bool → ℕ
bit true = 1
bit false = 0

module _ {ℓ} {A : Type ℓ} (mark : A → Bool) where
  pub marked : ℕ → (ℕ → A) → ℕ
  marked zero f = 0
  marked (suc n) f = marked n f + bit (mark (f n))

  marked-update_above : (n i : ℕ) (f : ℕ → A) (a : A) → n ≤ i → marked n (update f i a) ≡ marked n f
  unfolding marked
  marked-update_above zero i f a h = refl
  marked-update_above (suc n) i f a h = ground (arith, marked-update_above n i f a)

  -- A change at one thread changes the count by its mark.
  pub marked-update :
      (n i : ℕ) (f : ℕ → A) (a : A)
      → i < n
      → marked n (update f i a) + bit (mark (f i)) ≡ marked n f + bit (mark a)
  unfolding marked
  marked-update zero i f a h = absurd (omega arith)
  marked-update (suc n) i f a h = elim (Bool-cases (ltb i n)) [
    | inl below ↦ ground (arith, marked-update n i f a)
    | inr last ↦ ground (arith, marked-update_above n i f a)
  ]

  pub marked-zero : (n : ℕ) (f : ℕ → A) → ((i : ℕ) → mark (f i) ≡ false) → marked n f ≡ 0
  unfolding marked
  marked-zero zero f h = refl
  marked-zero (suc n) f h = ground (arith, h n, marked-zero n f h)

  -- With no mark counted no thread is marked.
  pub marked-none : (n i : ℕ) (f : ℕ → A) → marked n f ≡ 0 → i < n → mark (f i) ≡ false
  unfolding marked
  marked-none zero i f h lt = absurd (omega arith)
  marked-none (suc n) i f h lt = elim (Bool-cases (ltb i n)) [
    | inl below ↦ marked-none n i f (omega arith) (ground arith)
    | inr last ↦ ground arith
  ]
