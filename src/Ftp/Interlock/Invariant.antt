-- ===== src/Ftp/Interlock/Invariant.antt =====
-- What holds between the shared variables and where the threads stand.
use vitacompanion_vitadeck.Prelude.{ℕ, ◌≤◌, ◌<◌, ◌≡◌, ◌≢◌, refl, Bool, true, false, arith}
use vitacompanion_vitadeck.Ftp.Interlock.Threads.{marked, marked-zero}
use vitacompanion_vitadeck.Ftp.Interlock.{
  max_clients, client_thread, reboot_thread, Shared, TransferPc, ListPc, RebootPc, ServerPc,
  network_thread, is_served, init_system,
}

-- The threads that have set `transfer_active`.
abbrev pub has_taken : TransferPc → Bool
has_taken TransferPc.taken = true
has_taken TransferPc.backing_out = true
has_taken TransferPc.transferring = true
has_taken _ = false

-- The clients that are counted, and those that hold the mutex.
abbrev pub is_counted : ListPc → Bool
is_counted ListPc.added = true
is_counted ListPc.listed = true
is_counted ListPc.deleting = true
is_counted _ = false

abbrev pub has_lock : ListPc → Bool
has_lock ListPc.outside = false
has_lock ListPc.listed = false
has_lock ListPc.detached = false
has_lock _ = true

-- Whether the reboot holds the guard closed, holds the mutex, and has found the server quiet.
abbrev pub has_guard : RebootPc → Bool
has_guard RebootPc.calm = false
has_guard RebootPc.opened = false
has_guard _ = true

abbrev pub has_mutex : RebootPc → Bool
has_mutex RebootPc.calm = false
has_mutex RebootPc.requested = false
has_mutex RebootPc.rebooting = false
has_mutex _ = true

abbrev pub is_sure : RebootPc → Bool
is_sure RebootPc.quiet = true
is_sure RebootPc.rebooting = true
is_sure _ = false

-- Whether `ftpvita_fini` holds the mutex, and whether `transfer_active` tells of all transfers: it does not
-- between its reset and the end of the clients.
abbrev pub has_list : ServerPc → Bool
has_list ServerPc.ending = true
has_list ServerPc.emptied = true
has_list ServerPc.cleared = true
has_list _ = false

abbrev pub is_steady : ServerPc → Bool
is_steady ServerPc.cleared = false
is_steady ServerPc.waiting = false
is_steady _ = true

pub sure-guard : (r : RebootPc) → is_sure r ≡ true → has_guard r ≡ true
sure-guard RebootPc.calm h = cc
sure-guard _ h = ground arith

pub record Inv (n : ℕ) (m : Shared) (transfer : ℕ → TransferPc) (client : ℕ → ListPc)
    (reboot : RebootPc) (server : ServerPc) : Type 0 where
  pub active :
      is_steady server ≡ true → (i : ℕ) → has_taken (transfer i) ≡ true → m.transfer_active ≡ true
  pub single :
      is_steady server ≡ true
      → (i j : ℕ) → has_taken (transfer i) ≡ true
      → has_taken (transfer j) ≡ true
      → i ≡ j
  pub attached : (i : ℕ) → has_taken (transfer i) ≡ true → is_served (client i) ≡ true
  pub gone : server ≡ ServerPc.down → (i : ℕ) → client i ≡ ListPc.outside
  pub server_lock : has_list server ≡ true → m.mutex ≡ network_thread
  pub guard : m.quiesce ≡ has_guard reboot
  pub clients : m.number_clients ≡ marked is_counted n client
  pub at_most : m.number_clients ≤ max_clients
  pub room : (i : ℕ) → client i ≡ ListPc.admitted → m.number_clients < max_clients
  pub client_lock : (i : ℕ) → has_lock (client i) ≡ true → m.mutex ≡ client_thread i
  pub reboot_lock : has_mutex reboot ≡ true → m.mutex ≡ reboot_thread
  pub snapshot : (k : ℕ) → reboot ≡ RebootPc.counted k → k ≡ m.number_clients
  pub no_clients : is_sure reboot ≡ true → m.number_clients ≡ 0
  pub no_transfer : is_sure reboot ≡ true → (i : ℕ) → transfer i ≢ TransferPc.transferring
  pub no_admission : is_sure reboot ≡ true → (i : ℕ) → client i ≢ ListPc.admitted

pub Inv-init :
    (n : ℕ)
    → Inv n init_system.shared init_system.transfer init_system.client init_system.reboot
        init_system.server
Inv-init n = record {
  active = λ st i h. cc;
  single = λ st i j h k. cc;
  attached = λ i h. cc;
  gone = λ h i. refl;
  server_lock = λ h. cc;
  guard = refl;
  clients = ground (arith, marked-zero is_counted n (λ _. ListPc.outside) (λ i. refl));
  at_most = omega arith;
  room = λ i h. cc;
  client_lock = λ i h. cc;
  reboot_lock = λ h. cc;
  snapshot = λ k h. cc;
  no_clients = λ h. cc;
  no_transfer = λ h. cc;
  no_admission = λ h. cc;
}
