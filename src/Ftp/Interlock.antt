-- ===== src/Ftp/Interlock.antt =====
-- libftpvita/ftpvita.c: the admission of clients and transfers against the reboot interlock and the
-- shutdown of the server, one atomic access of the shared variables at a time.
pub mod Safety
pub mod Threads
pub mod Invariant
pub mod TransferMoves
pub mod ListMoves
pub mod RebootMoves
pub mod ServerMoves
use Threads.{update}
use vitacompanion_vitadeck.Prelude.{ℕ, ◌+◌, ◌-◌, ◌<◌, ◌≡◌, Bool, true, false, leb, not, ◌==◌, ◌||◌}

abbrev pub max_clients : ℕ
max_clients = 8

-- The thread that holds the client list mutex.
pub data Owner : Type 0 where
  free : Owner
  client_thread : ℕ → Owner
  reboot_thread : Owner
  network_thread : Owner

-- `transfer_active`, `reboot_quiesce_requested`, `number_clients`, and the mutex.
pub record Shared : Type 0 where
  pub transfer_active : Bool
  pub quiesce : Bool
  pub number_clients : ℕ
  pub mutex : Owner

-- Where a thread stands in `client_begin_transfer` and `client_end_transfer`.
pub data TransferPc : Type 0 where
  idle : TransferPc
  checked : TransferPc  -- the first look at the guard found it open
  taken : TransferPc  -- the compare-and-swap has set `transfer_active`
  backing_out : TransferPc  -- the second look found the guard closed
  transferring : TransferPc  -- admitted

-- Where it stands in `client_list_add` and `client_list_delete`, for the client that it serves.
pub data ListPc : Type 0 where
  outside : ListPc
  adding : ListPc  -- holds the mutex for `client_list_add`
  admitted : ListPc  -- passed the tests, before the count goes up
  refused : ListPc  -- failed them, before the mutex is released
  added : ListPc  -- counted, before the mutex is released
  listed : ListPc
  deleting : ListPc  -- holds the mutex for `client_list_delete`
  deleted : ListPc  -- counted down, before the mutex is released
  detached : ListPc  -- taken out of the list by `client_list_thread_end`, still running
  leaving : ListPc  -- a detached one holds the mutex for `client_list_delete`

-- Where the command thread stands in `ftpvita_prepare_for_reboot`.
pub data RebootPc : Type 0 where
  calm : RebootPc
  requested : RebootPc  -- the compare-and-swap has closed the guard
  locked : RebootPc  -- holds the mutex
  counted : ℕ → RebootPc  -- has read the number of clients
  busy : RebootPc  -- found a client or a transfer, before it opens the guard
  opened : RebootPc  -- has opened the guard, before the mutex is released
  quiet : RebootPc  -- found neither, before the mutex is released
  rebooting : RebootPc  -- returned 1

-- Where the network thread stands in `ftpvita_fini`, and between it and `ftpvita_init`.
pub data ServerPc : Type 0 where
  serving : ServerPc
  closed : ServerPc  -- the server thread has ended
  ending : ServerPc  -- holds the mutex for `client_list_thread_end`
  emptied : ServerPc  -- has taken all clients out of the list, and the count is 0
  cleared : ServerPc  -- has reset `transfer_active`, before the mutex is released
  waiting : ServerPc  -- waits for the threads of the clients
  down : ServerPc  -- all of them have ended, and the variables are reset

pub record System : Type 0 where
  pub shared : Shared
  pub transfer : ℕ → TransferPc
  pub client : ℕ → ListPc
  pub reboot : RebootPc
  pub server : ServerPc

-- `client_begin_transfer` and `client_end_transfer` of thread `i`.
pub data TransferMove (m : Shared) : TransferPc → Shared → TransferPc → Type 0 where
  look_closed : m.quiesce ≡ true → TransferMove m idle m idle
  look_open : m.quiesce ≡ false → TransferMove m idle m checked
  swap_fails : m.transfer_active ≡ true → TransferMove m checked m idle
  swap :
      m.transfer_active ≡ false → TransferMove m checked (record m { transfer_active = true }) taken
  look_again_closed : m.quiesce ≡ true → TransferMove m taken m backing_out
  look_again_open : m.quiesce ≡ false → TransferMove m taken m transferring
  back_out : TransferMove m backing_out (record m { transfer_active = false }) idle
  end_transfer : TransferMove m transferring (record m { transfer_active = false }) idle

-- `client_list_add` and `client_list_delete` of thread `i`. Clients are added by the server thread.
pub data ListMove (i : ℕ) (server : ServerPc) (m : Shared) : ListPc → Shared → ListPc → Type 0 where
  lock_add :
      server ≡ serving
      → m.mutex ≡ free
      → ListMove i server m outside (record m { mutex = client_thread i }) adding
  add_refused :
      (m.quiesce || leb max_clients m.number_clients) ≡ true → ListMove i server m adding m refused
  add_admitted :
      (m.quiesce || leb max_clients m.number_clients) ≡ false
      → ListMove i server m adding m admitted
  count_up : ListMove i server m admitted (record m { number_clients = m.number_clients + 1 }) added
  unlock_refused : ListMove i server m refused (record m { mutex = free }) outside
  unlock_added : ListMove i server m added (record m { mutex = free }) listed
  lock_delete :
      m.mutex ≡ free → ListMove i server m listed (record m { mutex = client_thread i }) deleting
  count_down :
      ListMove i server m deleting (record m { number_clients = m.number_clients - 1 }) deleted
  unlock_deleted : ListMove i server m deleted (record m { mutex = free }) outside
  lock_detached :
      m.mutex ≡ free → ListMove i server m detached (record m { mutex = client_thread i }) leaving
  unlock_detached : ListMove i server m leaving (record m { mutex = free }) outside

-- `ftpvita_prepare_for_reboot` and `ftpvita_cancel_reboot` of the command thread.
pub data RebootMove (m : Shared) : RebootPc → Shared → RebootPc → Type 0 where
  swap_closed : m.quiesce ≡ true → RebootMove m calm m calm
  close_guard : m.quiesce ≡ false → RebootMove m calm (record m { quiesce = true }) requested
  lock_fails : RebootMove m requested (record m { quiesce = false }) calm
  lock : m.mutex ≡ free → RebootMove m requested (record m { mutex = reboot_thread }) locked
  count : RebootMove m locked m (counted m.number_clients)
  find_busy :
      {clients : ℕ}
      → (not (clients == 0) || m.transfer_active) ≡ true
      → RebootMove m (counted clients) m busy
  find_quiet :
      {clients : ℕ}
      → (not (clients == 0) || m.transfer_active) ≡ false
      → RebootMove m (counted clients) m quiet
  open_guard : RebootMove m busy (record m { quiesce = false }) opened
  unlock_busy : RebootMove m opened (record m { mutex = free }) calm
  unlock_quiet : RebootMove m quiet (record m { mutex = free }) rebooting
  cancel : RebootMove m rebooting (record m { quiesce = false }) calm

-- `in_client_list = 0` for a client that is in the list.
abbrev pub detach_listed : ListPc → ListPc
detach_listed listed = detached
detach_listed p = p

-- What the server thread does for a client that it adds.
abbrev pub is_adding : ListPc → Bool
is_adding adding = true
is_adding admitted = true
is_adding refused = true
is_adding added = true
is_adding _ = false

-- The thread of a client runs, and has not begun to delete the client.
abbrev pub is_served : ListPc → Bool
is_served listed = true
is_served detached = true
is_served _ = false

-- The command thread is not in `ftpvita_prepare_for_reboot`.
abbrev pub is_resting : RebootPc → Bool
is_resting calm = true
is_resting rebooting = true
is_resting _ = false

-- The variables as `ftpvita_fini` leaves them and `ftpvita_init` sets them.
abbrev pub reset : Shared → Shared
reset m = record m { transfer_active = false; quiesce = false; number_clients = 0 }

-- `ftpvita_fini` and the next `ftpvita_init` of the network thread, with `client_list_thread_end`. The
-- command thread has ended before, and the next one begins behind `ftpvita_init`. The resets of
-- `ftpvita_fini`, and those of `ftpvita_init`, are a step each: no other thread is left by then.
pub data ServerMove (m : Shared) (client : ℕ → ListPc) (reboot : RebootPc)
    : ServerPc → Shared → (ℕ → ListPc) → RebootPc → ServerPc → Type 0 where
  server_ends :
      is_resting reboot ≡ true
      → ((i : ℕ) → is_adding (client i) ≡ false)
      → ServerMove m client reboot serving m client reboot closed
  lock_list :
      m.mutex ≡ free
      → ServerMove m client reboot closed (record m { mutex = network_thread }) client reboot ending
  detach_all :
      ServerMove m client reboot ending
        (record m { number_clients = 0 })
        (λ i. detach_listed (client i))
        reboot
        emptied
  clear_transfer :
      ServerMove m client reboot emptied
        (record m { transfer_active = false })
        client
        reboot
        cleared
  unlock_list : ServerMove m client reboot cleared (record m { mutex = free }) client reboot waiting
  fini :
      ((i : ℕ) → client i ≡ outside) → ServerMove m client reboot waiting (reset m) client calm down
  init : ServerMove m client reboot down (reset m) client calm serving

-- A step of one of `n` client threads, of the command thread or of the network thread. The thread of a
-- client transfers while it serves the client, and deletes the client between transfers; the command
-- thread runs while the server does.
pub data Step (n : ℕ) (s : System) : System → Type 0 where
  transfer_step :
      (i : ℕ) {m : Shared} {p : TransferPc}
      → i < n
      → is_served (s.client i) ≡ true
      → TransferMove s.shared (s.transfer i) m p
      → Step n s (record s { shared = m; transfer = update s.transfer i p })
  list_step :
      (i : ℕ) {m : Shared} {p : ListPc}
      → i < n
      → s.transfer i ≡ idle
      → ListMove i s.server s.shared (s.client i) m p
      → Step n s (record s { shared = m; client = update s.client i p })
  reboot_step :
      {m : Shared} {p : RebootPc}
      → s.server ≡ serving
      → RebootMove s.shared s.reboot m p
      → Step n s (record s { shared = m; reboot = p })
  server_step :
      {m : Shared} {c : ℕ → ListPc} {r : RebootPc} {p : ServerPc}
      → ServerMove s.shared s.client s.reboot s.server m c r p
      → Step n s (record s { shared = m; client = c; reboot = r; server = p })

-- What the first `ftpvita_init` leaves.
abbrev pub init_system : System
init_system = record {
  shared = record { transfer_active = false; quiesce = false; number_clients = 0; mutex = free };
  transfer = λ _. idle;
  client = λ _. outside;
  reboot = calm;
  server = serving;
}

pub data Reach (n : ℕ) : System → Type 0 where
  start : Reach n init_system
  later : {s t : System} → Reach n s → Step n s t → Reach n t
