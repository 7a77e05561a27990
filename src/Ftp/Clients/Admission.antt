-- ===== src/Ftp/Clients/Admission.antt =====
-- What `client_list_add` leaves in the heap, and what a heap that holds a list is.
use mathlib.Core.Path.{subst}
use vitacompanion_vitadeck.Prelude.{
  ℕ, ◌+◌, ◌≡◌, refl, sym, ap, ◌∙◌, inl, inr, Bool, true, false, not, ◌||◌, ◌&&◌, Option, none, some,
  List, [], ◌∷◌, arith, leb, ◌==◌, if◌then◌else◌, Bool-cases, length,
}
use vitacompanion_vitadeck.Ftp.Clients.{
  Client, Heap, Clients, store, set_next, set_prev, push_front, unlink,
}
use vitacompanion_vitadeck.Ftp.Clients.Links.{mem, Distinct, Links}
use vitacompanion_vitadeck.Ftp.Clients.Removal.{remove, Links-frame}

-- The heap holds the clients xs as the list, and their number and flags agree.
pub record Represents (s : Clients) (xs : List ℕ) : Type 0 where
  pub links : Links s.heap none s.client_list xs
  pub distinct : Distinct xs
  pub flags : (a : ℕ) → (s.heap a).in_client_list ≡ mem a xs
  pub count : s.number_clients ≡ length xs

pub mem-remove :
    (a x : ℕ) (xs : List ℕ) → Distinct xs → mem a (remove x xs) ≡ (mem a xs && not (a == x))
mem-remove a x [] d = refl
mem-remove a x (y ∷ xs) d = elim (Bool-cases (y == x)) [
  | inl same ↦
      let e : y ≡ x = ground arith in
      elim (Bool-cases (a == y)) [
        | inl here ↦
            let e' : y ≡ a = ground arith in
            let out : mem a xs ≡ false = rw e' at d.0 in ground (arith, same, here, out)
        | inr there ↦ ground (arith, same, there)
      ]
  | inr other ↦ ground (arith, other, mem-remove a x xs d.1)
]

pub Distinct-remove : (x : ℕ) (xs : List ℕ) → Distinct xs → Distinct (remove x xs)
Distinct-remove x [] d = tt
Distinct-remove x (y ∷ xs) d = elim (Bool-cases (y == x)) [
  | inl same ↦ rw (same) d.1
  | inr other ↦ rw (other) (ground (arith, mem-remove y x xs d.1, d.0), Distinct-remove x xs d.1)
]

pub length-remove : (x : ℕ) (xs : List ℕ) → mem x xs ≡ true → length (remove x xs) + 1 ≡ length xs
length-remove x [] m = cc
length-remove x (y ∷ xs) m = elim (Bool-cases (y == x)) [
  | inl same ↦ rw (same) (omega arith)
  | inr other ↦
      let inside : mem x xs ≡ true = ground (arith, m, other) in
      rw (other) (omega (arith, length-remove x xs inside))
]

mem_apart : (b a : ℕ) (ys : List ℕ) → mem b ys ≡ true → mem a ys ≡ false → (b == a) ≡ false
mem_apart b a ys m n = elim (Bool-cases (b == a)) [
  | inl same ↦ let e : b ≡ a = ground arith in let m' = rw e at m in cc (sym m' ∙ n)
  | inr other ↦ other
]

-- What the writes of `client_list_add` leave in each client, the list not being empty.
push_front-next :
    (h : Heap) (f a b : ℕ)
    → (a == f) ≡ false
    → (push_front a (some f) h b).next ≡ (if b == a then some f else (h b).next)
push_front-next h f a b apart =
    let self : (a == a) ≡ true = ground arith in
    let apart' : (f == a) ≡ false = ground (arith, apart) in
    elim (Bool-cases (b == a)) [
      | inl new ↦ rw (new, apart, self) refl
      | inr old ↦ elim (Bool-cases (b == f)) [
        | inl first ↦
            let e : f ≡ b = ground arith in rw (old, first, apart') (ap (λ (t : ℕ). (h t).next) e)
        | inr other ↦ rw (old, other) refl
      ]
    ]

push_front-prev :
    (h : Heap) (f a b : ℕ)
    → (a == f) ≡ false
    → (push_front a (some f) h b).prev
      ≡ (if b == a then none else if b == f then some a else (h b).prev)
push_front-prev h f a b apart = elim (Bool-cases (b == a)) [
  | inl new ↦ rw (new) refl
  | inr old ↦ elim (Bool-cases (b == f)) [
    | inl first ↦ rw (old, first) refl
    | inr other ↦ rw (old, other) refl
  ]
]

-- The new client in front of the list.
push_front-Links :
    (h : Heap) (o : Option ℕ) (xs : List ℕ) (a : ℕ)
    → Links h none o xs
    → Distinct xs
    → mem a xs ≡ false
    → (((push_front a o h a).prev ≡ none)
        × Links (push_front a o h) (some a) (push_front a o h a).next xs)
push_front-Links h none [] a l d new = (ground arith, ground arith)
push_front-Links h (some f) [] a l d new = cc
push_front-Links h none (y ∷ ys) a l d new = cc
push_front-Links h (some f) (y ∷ ys) a l d new =
    let f_is : f ≡ y = cc in
    let apart : (a == f) ≡ false = ground (arith, new, f_is) in
    let apart' : (f == a) ≡ false = ground (arith, apart) in
    let self : (a == a) ≡ true = ground arith in
    let self' : (f == f) ≡ true = ground arith in
    let h' = push_front a (some f) h in
    let frame : Links h' (some f) (h f).next ys =
      Links-frame h h' (some f) (h f).next ys
        (λ b m.
          let m_y : mem f ys ≡ false = rw (sym f_is) at d.0 in
          let old : (b == a) ≡ false = mem_apart b a ys m (ground (arith, new)) in
          let later : (b == f) ≡ false = mem_apart b f ys m m_y in
          (
            push_front-prev h f a b apart ∙ (rw (old, later) refl),
            push_front-next h f a b apart ∙ (rw (old) refl),
          ))
        (rw (sym f_is) at l.2) in
    (
      push_front-prev h f a a apart ∙ (rw (self) refl),
      (
        push_front-next h f a a apart ∙ (rw (self) (ap some f_is)),
        ap (λ (t : ℕ). (h' t).prev) (sym f_is)
            ∙ push_front-prev h f a f apart
            ∙ (rw (apart', self') refl),
        subst (λ (k : ℕ). Links h' (some k) (h' k).next ys) f_is
            (subst (λ (t : Option ℕ). Links h' (some f) t ys)
              (sym (push_front-next h f a f apart ∙ (rw (apart') refl))) frame),
      ),
    )

-- Writes to the links keep the flags.
store-flag :
    (h : Heap) (a : ℕ) (c : Client) (b : ℕ)
    → c.in_client_list ≡ (h a).in_client_list
    → (store a c h b).in_client_list ≡ (h b).in_client_list
store-flag h a c b kept = elim (Bool-cases (b == a)) [
  | inl same ↦
      let e : a ≡ b = ground arith in rw (same) (kept ∙ ap (λ (t : ℕ). (h t).in_client_list) e)
  | inr other ↦ rw (other) refl
]

push_front-flag :
    (h : Heap) (o : Option ℕ) (a b : ℕ) → (push_front a o h b).in_client_list ≡ (h b).in_client_list
push_front-flag h none a b = store-flag h a _ b refl
push_front-flag h (some f) a b =
    let h1 = store a (record (h a) { next = some f }) h in
    let h2 = store f (record (h1 f) { prev = some a }) h1 in
    store-flag h2 a (record (h2 a) { prev = none }) b refl
    ∙ store-flag h1 f (record (h1 f) { prev = some a }) b refl
    ∙ store-flag h a (record (h a) { next = some f }) b refl

set_next-flag :
    (q v : Option ℕ) (h : Heap) (b : ℕ) → (set_next q v h b).in_client_list ≡ (h b).in_client_list
set_next-flag none v h b = refl
set_next-flag (some a) v h b = store-flag h a _ b refl

set_prev-flag :
    (q v : Option ℕ) (h : Heap) (b : ℕ) → (set_prev q v h b).in_client_list ≡ (h b).in_client_list
set_prev-flag none v h b = refl
set_prev-flag (some a) v h b = store-flag h a _ b refl

pub unlink-flag : (x : ℕ) (h : Heap) (b : ℕ) → (unlink x h b).in_client_list ≡ (h b).in_client_list
unlink-flag x h b =
    let h1 = set_next (h x).prev (h x).next h in
    set_prev-flag (h1 x).next (h1 x).prev h1 b ∙ set_next-flag (h x).prev (h x).next h b

-- A write to a client that is not in a list keeps the list.
pub store-Links :
    (h : Heap) (a : ℕ) (c : Client) (p o : Option ℕ) (xs : List ℕ)
    → mem a xs ≡ false
    → Links h p o xs
    → Links (store a c h) p o xs
store-Links h a c p o xs out l =
    Links-frame h (store a c h) p o xs
      (λ b m. let apart = mem_apart b a xs m out in (rw (apart) refl, rw (apart) refl)) l

abbrev pub is_refused : Clients → Bool
is_refused s = s.reboot_quiesce_requested || leb 8 s.number_clients

-- The state after an admission.
abbrev pub admitted : ℕ → Clients → Clients
admitted client s =
    let h = push_front client s.client_list s.heap in
    record s {
      heap = store client (record (h client) { restore_point = 0; in_client_list = true }) h;
      client_list = some client;
      number_clients = s.number_clients + 1;
    }

pub admitted-Represents :
    (client : ℕ) (s : Clients) (xs : List ℕ)
    → Represents s xs
    → mem client xs ≡ false
    → Represents (admitted client s) (client ∷ xs)
admitted-Represents client s xs r new =
    let h = push_front client s.client_list s.heap in
    let c : Client = record (h client) { restore_point = 0; in_client_list = true } in
    let self : (client == client) ≡ true = ground arith in
    let pushed = push_front-Links s.heap s.client_list xs client r.links r.distinct new in
    record {
      links = (
        refl,
        (rw (self) pushed.0),
        subst (λ (t : Option ℕ). Links (store client c h) (some client) t xs) (rw (self) refl)
            (store-Links h client c (some client) (h client).next xs new pushed.1),
      );
      distinct = (new, r.distinct);
      flags = λ a. elim (Bool-cases (a == client)) [
        | inl here ↦ rw (here) refl
        | inr there ↦ rw (there) (push_front-flag s.heap s.client_list client a ∙ r.flags a)
      ];
      count = omega (arith, r.count);
    }
