-- ===== src/Ftp/Interlock/RebootMoves.antt =====
-- A move of `ftpvita_prepare_for_reboot` or `ftpvita_cancel_reboot` keeps the invariant.
use vitacompanion_vitadeck.Prelude.{ℕ, ◌≡◌, ◌≢◌, refl, ap, true, false, arith, ◌==◌, not, ◌||◌, ◌∙◌}
use vitacompanion_vitadeck.Ftp.Interlock.{
  free, client_thread, reboot_thread, Shared, TransferPc, ListPc, RebootPc, ServerPc, RebootMove,
}
use vitacompanion_vitadeck.Ftp.Interlock.Invariant.{
  has_lock, has_guard, has_mutex, is_sure, is_steady, Inv,
}

-- The premise of a move, for the clauses that take several moves at once.
abbrev RebootPremise : {m m' : Shared} {p p' : RebootPc} → RebootMove m p m' p' → Type 0
RebootPremise {m} (RebootMove.swap_closed h) = m.quiesce ≡ true
RebootPremise {m} (RebootMove.close_guard h) = m.quiesce ≡ false
RebootPremise {m} (RebootMove.lock h) = m.mutex ≡ free
RebootPremise {m} (RebootMove.find_busy {clients} h) =
    (not (clients == 0) || m.transfer_active) ≡ true
RebootPremise {m} (RebootMove.find_quiet {clients} h) =
    (not (clients == 0) || m.transfer_active) ≡ false
RebootPremise _ = Unit

reboot_premise : {m m' : Shared} {p p' : RebootPc} (mv : RebootMove m p m' p') → RebootPremise mv
reboot_premise (RebootMove.swap_closed h) = h
reboot_premise (RebootMove.close_guard h) = h
reboot_premise (RebootMove.lock h) = h
reboot_premise (RebootMove.find_busy h) = h
reboot_premise (RebootMove.find_quiet h) = h
reboot_premise _ = tt

module _ {n : ℕ} {m : Shared} {transfer : ℕ → TransferPc} {client : ℕ → ListPc} {reboot : RebootPc}
    {server : ServerPc} (inv : Inv n m transfer client reboot server) where
  open inv use {
    active, single, attached, gone, server_lock, guard, clients, at_most, room, client_lock,
    reboot_lock, snapshot, no_clients, no_transfer, no_admission,
  }

  reboot-shared :
      {p p' : RebootPc} {m' : Shared}
      → RebootMove m p m' p'
      → (m'.transfer_active ≡ m.transfer_active) × (m'.number_clients ≡ m.number_clients)
  reboot-shared (RebootMove.swap_closed q) = (refl, refl)
  reboot-shared _ = (refl, refl)

  reboot-guard :
      {p p' : RebootPc} {m' : Shared}
      → reboot ≡ p
      → RebootMove m p m' p'
      → m'.quiesce ≡ has_guard p'
  reboot-guard e (RebootMove.swap_closed q) = ground (arith, guard)
  reboot-guard e mv = ground (arith, guard)

  reboot-client_lock :
      {p p' : RebootPc} {m' : Shared}
      → reboot ≡ p
      → RebootMove m p m' p'
      → (j : ℕ) → has_lock (client j) ≡ true
      → m'.mutex ≡ client_thread j
  reboot-client_lock e (RebootMove.swap_closed q) j h = client_lock j h
  reboot-client_lock e mv j h = ground (arith, reboot_premise mv, client_lock j, reboot_lock)

  reboot-reboot_lock :
      {p p' : RebootPc} {m' : Shared}
      → reboot ≡ p
      → RebootMove m p m' p'
      → has_mutex p' ≡ true
      → m'.mutex ≡ reboot_thread
  reboot-reboot_lock e (RebootMove.swap_closed q) h = ground arith
  reboot-reboot_lock e mv h = ground (arith, reboot_lock)

  reboot-snapshot :
      {p p' : RebootPc} {m' : Shared}
      → reboot ≡ p
      → RebootMove m p m' p'
      → (k : ℕ) → p' ≡ RebootPc.counted k
      → k ≡ m'.number_clients
  reboot-snapshot e (RebootMove.swap_closed q) k h = ground arith
  reboot-snapshot e mv k h = ground arith

  -- Finding the server quiet, with the mutex held, leaves no way in.
  reboot-sure :
      {p p' : RebootPc} {m' : Shared}
      → reboot ≡ p
      → RebootMove m p m' p'
      → is_steady server ≡ true
      → is_sure p' ≡ true
      → (j : ℕ)
      → (m.number_clients ≡ 0)
        × (transfer j ≢ TransferPc.transferring)
        × (client j ≢ ListPc.admitted)
  reboot-sure e (RebootMove.swap_closed q) steady h j = absurd (ground arith)
  reboot-sure e (RebootMove.find_quiet {clients = k} q) steady h j = (
    ground (arith, snapshot k),
    λ t. ground (arith, active steady j),
    λ t. ground (arith, client_lock j, reboot_lock),
  )
  reboot-sure e RebootMove.unlock_quiet steady h j = (
    ground (arith, no_clients),
    λ t. no_transfer (ground arith) j t,
    λ t. no_admission (ground arith) j t,
  )
  reboot-sure e _ steady h j = absurd (ground arith)

  pub reboot-Inv :
      {p' : RebootPc} {m' : Shared}
      → server ≡ ServerPc.serving
      → RebootMove m reboot m' p'
      → Inv n m' transfer client p' server
  reboot-Inv up mv =
      let steady : is_steady server ≡ true = ap is_steady up in
      let (same_active, same_clients) = reboot-shared mv in
      record {
        active = λ st j h. same_active ∙ active st j h;
        single = single;
        attached = attached;
        gone = gone;
        server_lock = λ h. absurd (ground (arith, up, h));
        guard = reboot-guard refl mv;
        clients = same_clients ∙ clients;
        at_most = omega (arith, same_clients, at_most);
        room = λ j h. omega (arith, same_clients, room j h);
        client_lock = reboot-client_lock refl mv;
        reboot_lock = reboot-reboot_lock refl mv;
        snapshot = reboot-snapshot refl mv;
        no_clients = λ h. same_clients ∙ (reboot-sure refl mv steady h 0).0;
        no_transfer = λ h j. (reboot-sure refl mv steady h j).1;
        no_admission = λ h j. (reboot-sure refl mv steady h j).2;
      }
