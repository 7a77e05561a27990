-- ===== src/Ftp/Interlock/ListMoves.antt =====
-- A move of `client_list_add` or `client_list_delete` keeps the invariant.
use vitacompanion_vitadeck.Prelude.{ℕ, ◌≤◌, ◌<◌, ◌≡◌, ◌≢◌, refl, true, false, arith, leb, ◌||◌, ◌∙◌}
use vitacompanion_vitadeck.Ftp.Interlock.Threads.{update, marked, marked-update}
use vitacompanion_vitadeck.Ftp.Interlock.{
  max_clients, free, client_thread, reboot_thread, network_thread, is_served, Shared, TransferPc,
  ListPc, RebootPc, ServerPc, ListMove,
}
use vitacompanion_vitadeck.Ftp.Interlock.Invariant.{
  has_taken, is_counted, has_lock, has_list, has_mutex, is_sure, sure-guard, Inv,
}

-- The premise of a move, for the clauses that take several moves at once.
abbrev ListPremise :
    {i : ℕ} {server : ServerPc} {m m' : Shared} {p p' : ListPc}
    → ListMove i server m p m' p'
    → Type 0
ListPremise {server} {m} (ListMove.lock_add g h) = (server ≡ ServerPc.serving) × (m.mutex ≡ free)
ListPremise {m} (ListMove.add_refused h) = (m.quiesce || leb max_clients m.number_clients) ≡ true
ListPremise {m} (ListMove.add_admitted h) = (m.quiesce || leb max_clients m.number_clients) ≡ false
ListPremise {m} (ListMove.lock_delete h) = m.mutex ≡ free
ListPremise {m} (ListMove.lock_detached h) = m.mutex ≡ free
ListPremise _ = Unit

list_premise :
    {i : ℕ} {server : ServerPc} {m m' : Shared} {p p' : ListPc} (mv : ListMove i server m p m' p')
    → ListPremise mv
list_premise (ListMove.lock_add g h) = (g, h)
list_premise (ListMove.add_refused h) = h
list_premise (ListMove.add_admitted h) = h
list_premise (ListMove.lock_delete h) = h
list_premise (ListMove.lock_detached h) = h
list_premise _ = tt

module _ {n : ℕ} {m : Shared} {transfer : ℕ → TransferPc} {client : ℕ → ListPc} {reboot : RebootPc}
    {server : ServerPc} (inv : Inv n m transfer client reboot server) where
  open inv use {
    active, single, attached, gone, server_lock, guard, clients, at_most, room, client_lock,
    reboot_lock, snapshot, no_clients, no_transfer, no_admission,
  }

  list-rest :
      (i : ℕ) {p p' : ListPc} {m' : Shared}
      → ListMove i server m p m' p'
      → (m'.quiesce ≡ m.quiesce) × (m'.transfer_active ≡ m.transfer_active)
  list-rest i (ListMove.lock_add up q) = (refl, refl)
  list-rest i _ = (refl, refl)

  list-clients :
      (i : ℕ) {p p' : ListPc} {m' : Shared}
      → i < n
      → client i ≡ p
      → ListMove i server m p m' p'
      → m'.number_clients ≡ marked is_counted n (update client i p')
  list-clients i {p' = p'} lt e (ListMove.lock_add up q) =
      ground (arith, clients, marked-update is_counted n i client p' lt)
  list-clients i {p' = p'} lt e mv =
      ground (arith, clients, marked-update is_counted n i client p' lt)

  list-at_most :
      (i : ℕ) {p p' : ListPc} {m' : Shared}
      → client i ≡ p
      → ListMove i server m p m' p'
      → m'.number_clients ≤ max_clients
  list-at_most i e (ListMove.lock_add up q) = at_most
  list-at_most i e mv = ground (arith, at_most, room i)

  list-room :
      (i : ℕ) {p p' : ListPc} {m' : Shared}
      → client i ≡ p
      → ListMove i server m p m' p'
      → (j : ℕ) → update client i p' j ≡ ListPc.admitted
      → m'.number_clients < max_clients
  list-room i e (ListMove.lock_add up q) j h = ground (arith, room j)
  list-room i e mv j h = ground (arith, list_premise mv, room j, client_lock i, client_lock j)

  list-client_lock :
      (i : ℕ) {p p' : ListPc} {m' : Shared}
      → client i ≡ p
      → ListMove i server m p m' p'
      → (j : ℕ) → has_lock (update client i p' j) ≡ true
      → m'.mutex ≡ client_thread j
  list-client_lock i e (ListMove.lock_add up q) j h = ground (arith, q, client_lock j)
  list-client_lock i e mv j h = ground (arith, list_premise mv, client_lock i, client_lock j)

  list-reboot_lock :
      (i : ℕ) {p p' : ListPc} {m' : Shared}
      → client i ≡ p
      → ListMove i server m p m' p'
      → has_mutex reboot ≡ true
      → (m'.mutex ≡ reboot_thread) × (m'.number_clients ≡ m.number_clients)
  list-reboot_lock i e (ListMove.lock_add up q) h = ground (arith, q, reboot_lock h)
  list-reboot_lock i e mv h = ground (arith, list_premise mv, client_lock i, reboot_lock h)

  list-no_clients :
      (i : ℕ) {p p' : ListPc} {m' : Shared}
      → client i ≡ p
      → ListMove i server m p m' p'
      → is_sure reboot ≡ true
      → m'.number_clients ≡ 0
  list-no_clients i e (ListMove.lock_add up q) h = no_clients h
  list-no_clients i e mv h = ground (arith, no_clients h, no_admission h i)

  list-no_admission :
      (i : ℕ) {p p' : ListPc} {m' : Shared}
      → client i ≡ p
      → ListMove i server m p m' p'
      → is_sure reboot ≡ true
      → (j : ℕ) → update client i p' j ≢ ListPc.admitted
  list-no_admission i e (ListMove.lock_add up q) s j h = ground (arith, no_admission s j)
  list-no_admission i e mv s j h =
      ground (arith, list_premise mv, no_admission s j, guard, sure-guard reboot s)

  list-snapshot :
      (i : ℕ) {p p' : ListPc} {m' : Shared}
      → client i ≡ p
      → ListMove i server m p m' p'
      → (k : ℕ) → reboot ≡ RebootPc.counted k
      → k ≡ m'.number_clients
  list-snapshot i e mv k h = ground (arith, snapshot k h, list-reboot_lock i e mv (ground arith))

  list-attached :
      (i : ℕ) {p p' : ListPc} {m' : Shared}
      → transfer i ≡ TransferPc.idle
      → ListMove i server m p m' p'
      → (j : ℕ) → has_taken (transfer j) ≡ true
      → is_served (update client i p' j) ≡ true
  list-attached i out mv j h = ground (arith, out, attached j h)

  list-gone :
      (i : ℕ) {p p' : ListPc} {m' : Shared}
      → client i ≡ p
      → ListMove i server m p m' p'
      → server ≡ ServerPc.down
      → (j : ℕ) → update client i p' j ≡ ListPc.outside
  list-gone i e (ListMove.lock_add up q) off j = absurd (ground (arith, up, off))
  list-gone i e mv off j = ground (arith, gone off i, gone off j)

  list-server_lock :
      (i : ℕ) {p p' : ListPc} {m' : Shared}
      → client i ≡ p
      → ListMove i server m p m' p'
      → has_list server ≡ true
      → m'.mutex ≡ network_thread
  list-server_lock i e (ListMove.lock_add up q) h = ground (arith, q, server_lock h)
  list-server_lock i e mv h = ground (arith, list_premise mv, client_lock i, server_lock h)

  pub list-Inv :
      (i : ℕ) {p p' : ListPc} {m' : Shared}
      → i < n
      → transfer i ≡ TransferPc.idle
      → client i ≡ p
      → ListMove i server m p m' p'
      → Inv n m' transfer (update client i p') reboot server
  list-Inv i lt out e mv =
      let (same_guard, same_active) = list-rest i mv in
      record {
        active = λ st j h. same_active ∙ active st j h;
        single = single;
        attached = list-attached i out mv;
        gone = list-gone i e mv;
        server_lock = list-server_lock i e mv;
        guard = same_guard ∙ guard;
        clients = list-clients i lt e mv;
        at_most = list-at_most i e mv;
        room = list-room i e mv;
        client_lock = list-client_lock i e mv;
        reboot_lock = λ h. (list-reboot_lock i e mv h).0;
        snapshot = list-snapshot i e mv;
        no_clients = list-no_clients i e mv;
        no_transfer = no_transfer;
        no_admission = list-no_admission i e mv;
      }
