-- ===== src/Ftp/Clients/List.antt =====
-- The list of the clients, as the two operations change it.
use mathlib.Core.Path.{subst}
use vitacompanion_vitadeck.Prelude.{
  ℕ, ◌-◌, ◌≡◌, ◌≢◌, refl, sym, ap, ◌∙◌, ◌⊎◌, inl, inr, Bool, true, false, ◌||◌, Option, none, some,
  List, ◌∷◌, arith, ltb, leb, ◌==◌, if◌then◌else◌, Bool-cases, length,
}
use vitacompanion_vitadeck.Ftp.Clients.{
  Client, Clients, points_to, store, client_list_add, unlink, client_list_delete,
}
use vitacompanion_vitadeck.Ftp.Clients.Links.{mem, Links, next-other, prev_cases}
use vitacompanion_vitadeck.Ftp.Clients.Removal.{remove, Links-remove, unlink-Unlinked, unlink-next}
use vitacompanion_vitadeck.Ftp.Clients.Admission.{
  Represents, mem-remove, Distinct-remove, length-remove, unlink-flag, store-Links, is_refused,
  admitted-Represents,
}

-- In a heap that holds the list, adding a client that is not in it: when the reboot guard is closed or
-- eight clients are there, it is refused and nothing changes; else it is put in front of the list, and
-- is flagged and counted.
pub client_list_add-Represents :
    (client : ℕ) (s : Clients) (xs : List ℕ)
    → Represents s xs
    → mem client xs ≡ false
    → (((s.reboot_quiesce_requested || leb 8 (length xs)) ≡ true)
        × (client_list_add client s ≡ (false, s)))
      ⊎ (((s.reboot_quiesce_requested || leb 8 (length xs)) ≡ false)
          × ((client_list_add client s).0 ≡ true)
          × Represents (client_list_add client s).1 (client ∷ xs))
unfolding client_list_add
client_list_add-Represents client s xs r new =
    let same = ap (λ (n : ℕ). s.reboot_quiesce_requested || leb 8 n) r.count in
    elim (Bool-cases (is_refused s)) [
      | inl refused ↦ inl (sym same ∙ refused, rw (refused) refl)
      | inr room ↦
          inr (sym same ∙ room, rw (room) refl, rw (room) (admitted-Represents client s xs r new))
    ]

-- The state after a removal.
abbrev removed : ℕ → Clients → Clients
removed client s =
    let h = unlink client s.heap in
    record s {
      heap =
          store client (record (h client) { next = none; prev = none; in_client_list = false }) h;
      client_list = if points_to s.client_list client then (h client).next else s.client_list;
      number_clients = if ltb 0 s.number_clients then s.number_clients - 1 else s.number_clients;
    }

removed-Represents :
    (client : ℕ) (s : Clients) (xs : List ℕ)
    → Represents s xs
    → mem client xs ≡ true
    → Represents (removed client s) (remove client xs)
removed-Represents client s xs r inside =
    let h = unlink client s.heap in
    let c : Client = record (h client) { next = none; prev = none; in_client_list = false } in
    let out : mem client (remove client xs) ≡ false =
      ground (arith, mem-remove client client xs r.distinct) in
    let prev_other : (s.heap client).prev ≢ some client = λ e.
      elim (prev_cases s.heap none s.client_list xs client r.links r.distinct inside) [
        | inl (first, e') ↦ cc (sym e ∙ e')
        | inr (w, e', m, other) ↦ other (cc (sym e' ∙ e))
      ] in
    let next_other = next-other s.heap none s.client_list xs client r.links r.distinct inside in
    let done =
      Links-remove s.heap h none s.client_list client xs
        (unlink-Unlinked s.heap client prev_other next_other) r.links r.distinct inside
        (λ a e. cc) in
    record {
      links = store-Links h client c none _ (remove client xs) out (
          subst
            (λ (t : Option ℕ).
              Links h none (if points_to s.client_list client then t else s.client_list)
                (remove client xs))
            (sym (unlink-next s.heap client prev_other)) done);
      distinct = Distinct-remove client xs r.distinct;
      flags = λ a. elim (Bool-cases (a == client)) [
        | inl here ↦ rw (here) (ground (arith, mem-remove a client xs r.distinct, here))
        | inr there ↦ rw (there) (
            unlink-flag client s.heap a
            ∙ r.flags a
            ∙ ground (arith, mem-remove a client xs r.distinct, there))
      ];
      count = ground (arith, r.count, length-remove client xs inside);
    }

client_list_delete-listed :
    (client : ℕ) (s : Clients)
    → (s.heap client).in_client_list ≡ true
    → client_list_delete client s ≡ (true, removed client s)
unfolding client_list_delete
client_list_delete-listed client s listed = rw (listed) refl

-- In a heap that holds the list, deleting a client: when it is in the list it is taken out, whatever its
-- place, and the others stay in their order, flagged and counted; else nothing changes.
pub client_list_delete-Represents :
    (client : ℕ) (s : Clients) (xs : List ℕ)
    → Represents s xs
    → ((mem client xs ≡ false) × (client_list_delete client s ≡ (false, s)))
      ⊎ ((mem client xs ≡ true)
          × ((client_list_delete client s).0 ≡ true)
          × Represents (client_list_delete client s).1 (remove client xs))
unfolding client_list_delete
client_list_delete-Represents client s xs r = elim (Bool-cases (s.heap client).in_client_list) [
  | inr gone ↦ inl (sym (r.flags client) ∙ gone, rw (gone) refl)
  | inl listed ↦
      let inside = sym (r.flags client) ∙ listed in
      let taken = client_list_delete-listed client s listed in
      inr (
        inside,
        ap (λ t. t.0) taken,
        subst (λ (t : Bool × Clients). Represents t.1 (remove client xs)) (sym taken)
            (removed-Represents client s xs r inside),
      )
]
