-- ===== src/Ftp/Clients.antt =====
-- libftpvita/ftpvita.c, `client_list_add` and `client_list_delete`: the doubly linked list of the
-- clients. Clients are addresses in a heap, and a null pointer is `none`.
pub mod Links
pub mod Removal
pub mod Admission
pub mod List
use vitacompanion_vitadeck.Prelude.{
  ℕ, zero, ◌+◌, ◌-◌, Bool, true, false, not, ◌||◌, Option, none, some, ltb, leb, ◌==◌,
  if◌then◌else◌,
}

-- The fields of `ftpvita_client_info_t` that the list uses.
pub record Client : Type 0 where
  pub prev : Option ℕ
  pub next : Option ℕ
  pub in_client_list : Bool
  pub restore_point : ℕ

abbrev pub Heap : Type 0
Heap = ℕ → Client

-- The heap, `client_list`, `number_clients` and `reboot_quiesce_requested`.
pub record Clients : Type 0 where
  pub heap : Heap
  pub client_list : Option ℕ
  pub number_clients : ℕ
  pub reboot_quiesce_requested : Bool

-- `p == a`
abbrev pub points_to : Option ℕ → ℕ → Bool
points_to none a = false
points_to (some b) a = a == b

abbrev pub store : ℕ → Client → Heap → Heap
store a c h = λ b. if b == a then c else h b

-- `if (p) p->next = v;`
abbrev pub set_next : Option ℕ → Option ℕ → Heap → Heap
set_next none v h = h
set_next (some a) v h = store a (record (h a) { next = v }) h

-- `if (p) p->prev = v;`
abbrev pub set_prev : Option ℕ → Option ℕ → Heap → Heap
set_prev none v h = h
set_prev (some a) v h = store a (record (h a) { prev = v }) h

-- The front of the list: what `client_list_add` writes to the links.
abbrev pub push_front : ℕ → Option ℕ → Heap → Heap
push_front client none h = store client (record (h client) { prev = none; next = none }) h
push_front client (some first) h =
    let h = store client (record (h client) { next = some first }) h in
    let h = store first (record (h first) { prev = some client }) h in
    store client (record (h client) { prev = none }) h

-- The result, and the state under the mutex.
pub client_list_add : ℕ → Clients → Bool × Clients
client_list_add client s =
    if s.reboot_quiesce_requested || leb 8 s.number_clients
    then (false, s)
    else let h = push_front client s.client_list s.heap in
      let h = store client (record (h client) { restore_point = 0; in_client_list = true }) h in
      (
        true,
        record s { heap = h; client_list = some client; number_clients = s.number_clients + 1 },
      )

-- What `client_list_delete` does to the links of the neighbours.
abbrev pub unlink : ℕ → Heap → Heap
unlink client h =
    let h = set_next (h client).prev (h client).next h in set_prev (h client).next (h client).prev h

pub client_list_delete : ℕ → Clients → Bool × Clients
client_list_delete client s =
    if not (s.heap client).in_client_list
    then (false, s)
    else let h = unlink client s.heap in
      let first = if points_to s.client_list client then (h client).next else s.client_list in
      let h =
        store client (record (h client) { next = none; prev = none; in_client_list = false }) h in
      let n = if ltb 0 s.number_clients then s.number_clients - 1 else s.number_clients in
      (true, record s { heap = h; client_list = first; number_clients = n })
