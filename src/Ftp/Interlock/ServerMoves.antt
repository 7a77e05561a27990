-- ===== src/Ftp/Interlock/ServerMoves.antt =====
-- A move of `ftpvita_fini` or `ftpvita_init` keeps the invariant.
use vitacompanion_vitadeck.Prelude.{ℕ, ◌≡◌, ◌≢◌, refl, Bool, true, false, ◌∙◌, arith}
use vitacompanion_vitadeck.Ftp.Interlock.Threads.{marked-zero}
use vitacompanion_vitadeck.Ftp.Interlock.{
  Owner, free, client_thread, reboot_thread, network_thread, Shared, TransferPc, ListPc, RebootPc,
  ServerPc, detach_listed, is_served, reset, ServerMove,
}
use vitacompanion_vitadeck.Ftp.Interlock.Invariant.{
  has_taken, is_counted, has_lock, has_mutex, has_list, is_steady, Inv,
}

-- What a detached client still is, and is no more.
detach_listed-is_served : (p : ListPc) → is_served p ≡ true → is_served (detach_listed p) ≡ true
detach_listed-is_served ListPc.listed h = refl
detach_listed-is_served ListPc.detached h = refl
detach_listed-is_served _ h = absurd (ground arith)

detach_listed-has_lock : (p : ListPc) → has_lock (detach_listed p) ≡ has_lock p
detach_listed-has_lock ListPc.listed = refl
detach_listed-has_lock _ = refl

detach_listed-is_counted : (p : ListPc) → has_lock p ≡ false → is_counted (detach_listed p) ≡ false
detach_listed-is_counted ListPc.outside h = refl
detach_listed-is_counted ListPc.listed h = refl
detach_listed-is_counted ListPc.detached h = refl
detach_listed-is_counted _ h = absurd (ground arith)

detach_listed-admitted : (p : ListPc) → has_lock p ≡ false → detach_listed p ≢ ListPc.admitted
detach_listed-admitted ListPc.outside h = λ e. cc
detach_listed-admitted ListPc.listed h = λ e. cc
detach_listed-admitted ListPc.detached h = λ e. cc
detach_listed-admitted _ h = absurd (ground arith)

module _ {n : ℕ} {m : Shared} {transfer : ℕ → TransferPc} {client : ℕ → ListPc}
    {reboot : RebootPc} where
  -- The variables are reset with no client left.
  reset-Inv :
      (server server' : ServerPc)
      → Inv n m transfer client reboot server
      → ((i : ℕ) → client i ≡ ListPc.outside)
      → has_list server' ≡ false
      → Inv n (reset m) transfer client RebootPc.calm server'
  reset-Inv server server' inv out unlocked =
      let idle : (i : ℕ) → has_taken (transfer i) ≡ false =
        λ i. ground (arith, inv.attached i, out i) in
      record {
        active = λ st i h. absurd (ground (arith, idle i, h));
        single = λ st i j h k. absurd (ground (arith, idle i, h));
        attached = inv.attached;
        gone = λ h i. out i;
        server_lock = λ h. absurd (ground (arith, unlocked, h));
        guard = refl;
        clients = ground (arith, marked-zero is_counted n client (λ i. ground (arith, out i)));
        at_most = omega arith;
        room = λ i h. absurd (ground (arith, out i, h));
        client_lock = λ i h. absurd (ground (arith, out i, h));
        reboot_lock = λ h. cc;
        snapshot = λ k h. cc;
        no_clients = λ h. cc;
        no_transfer = λ h. cc;
        no_admission = λ h. cc;
      }

  -- While the network thread holds the mutex, all clients in the list are detached.
  detach_listed-Inv :
      Inv n m transfer client reboot ServerPc.ending
      → Inv n
          (record m { number_clients = 0 })
          transfer
          (λ i. detach_listed (client i))
          reboot
          ServerPc.emptied
  detach_listed-Inv inv =
      let held : m.mutex ≡ network_thread = inv.server_lock refl in
      let unlocked : (i : ℕ) → has_lock (client i) ≡ false =
        λ i. ground (arith, inv.client_lock i, held) in
      let calm : has_mutex reboot ≡ false = ground (arith, inv.reboot_lock, held) in
      record {
        active = λ st. inv.active refl;
        single = λ st. inv.single refl;
        attached = λ i h. detach_listed-is_served (client i) (inv.attached i h);
        gone = λ h. cc;
        server_lock = λ h. held;
        guard = inv.guard;
        clients = ground (
          arith,
          marked-zero is_counted n (λ i. detach_listed (client i))
              (λ i. detach_listed-is_counted (client i) (unlocked i)),
        );
        at_most = omega arith;
        room = λ i h. absurd (detach_listed-admitted (client i) (unlocked i) h);
        client_lock =
            λ i h. absurd (ground (arith, detach_listed-has_lock (client i), unlocked i, h));
        reboot_lock = λ h. absurd (ground (arith, calm, h));
        snapshot = λ k h. absurd (ground (arith, calm, h));
        no_clients = λ h. refl;
        no_transfer = inv.no_transfer;
        no_admission = λ h i. detach_listed-admitted (client i) (unlocked i);
      }

  -- Only the mutex, `transfer_active` and the place of the network thread change.
  kept-Inv :
      (active : Bool) (owner : Owner) (server server' : ServerPc)
      → let m' = record m { transfer_active = active; mutex = owner } in
        Inv n m transfer client reboot server
        → (is_steady server' ≡ true → (is_steady server ≡ true) × (active ≡ m.transfer_active))
        → server' ≢ ServerPc.down
        → (has_list server' ≡ true → owner ≡ network_thread)
        → ((i : ℕ) → has_lock (client i) ≡ true → owner ≡ client_thread i)
        → (has_mutex reboot ≡ true → owner ≡ reboot_thread)
        → Inv n m' transfer client reboot server'
  kept-Inv active owner server server' inv same up list_held client_held reboot_held = record {
    active = λ st i h. (same st).1 ∙ inv.active (same st).0 i h;
    single = λ st. inv.single (same st).0;
    attached = inv.attached;
    gone = λ h. absurd (up h);
    server_lock = list_held;
    guard = inv.guard;
    clients = inv.clients;
    at_most = inv.at_most;
    room = inv.room;
    client_lock = client_held;
    reboot_lock = reboot_held;
    snapshot = inv.snapshot;
    no_clients = inv.no_clients;
    no_transfer = inv.no_transfer;
    no_admission = inv.no_admission;
  }

  pub server-Inv :
      {server server' : ServerPc} {m' : Shared} {client' : ℕ → ListPc} {reboot' : RebootPc}
      → ServerMove m client reboot server m' client' reboot' server'
      → Inv n m transfer client reboot server
      → Inv n m' transfer client' reboot' server'
  server-Inv (ServerMove.server_ends rest none) inv =
      kept-Inv m.transfer_active m.mutex ServerPc.serving ServerPc.closed inv (λ st. (refl, refl))
        (λ h. cc) (λ h. cc) inv.client_lock inv.reboot_lock
  server-Inv (ServerMove.lock_list q) inv =
      kept-Inv m.transfer_active network_thread ServerPc.closed ServerPc.ending inv
        (λ st. (refl, refl)) (λ h. cc) (λ h. refl) (λ i h. ground (arith, inv.client_lock i h, q))
        (λ h. ground (arith, inv.reboot_lock h, q))
  server-Inv ServerMove.detach_all inv = detach_listed-Inv inv
  server-Inv ServerMove.clear_transfer inv =
      kept-Inv false m.mutex ServerPc.emptied ServerPc.cleared inv (λ st. cc) (λ h. cc)
        inv.server_lock inv.client_lock inv.reboot_lock
  server-Inv ServerMove.unlock_list inv =
      let held : m.mutex ≡ network_thread = inv.server_lock refl in
      kept-Inv m.transfer_active free ServerPc.cleared ServerPc.waiting inv (λ st. cc) (λ h. cc)
        (λ h. cc) (λ i h. absurd (ground (arith, inv.client_lock i h, held)))
        (λ h. absurd (ground (arith, inv.reboot_lock h, held)))
  server-Inv (ServerMove.fini out) inv = reset-Inv ServerPc.waiting ServerPc.down inv out refl
  server-Inv ServerMove.init inv = reset-Inv ServerPc.down ServerPc.serving inv (inv.gone refl) refl
