-- ===== src/Ftp/Interlock/TransferMoves.antt =====
-- A move of `client_begin_transfer` or `client_end_transfer` keeps the invariant.
use vitacompanion_vitadeck.Prelude.{ℕ, ◌≡◌, ◌≢◌, refl, true, false, arith, ◌∙◌}
use vitacompanion_vitadeck.Ftp.Interlock.Threads.{update}
use vitacompanion_vitadeck.Ftp.Interlock.{
  is_served, Shared, TransferPc, ListPc, RebootPc, ServerPc, TransferMove,
}
use vitacompanion_vitadeck.Ftp.Interlock.Invariant.{has_taken, is_sure, is_steady, sure-guard, Inv}

-- The premise of a move, for the clauses that take several moves at once.
abbrev TransferPremise : {m m' : Shared} {p p' : TransferPc} → TransferMove m p m' p' → Type 0
TransferPremise {m} (TransferMove.look_closed h) = m.quiesce ≡ true
TransferPremise {m} (TransferMove.look_open h) = m.quiesce ≡ false
TransferPremise {m} (TransferMove.swap_fails h) = m.transfer_active ≡ true
TransferPremise {m} (TransferMove.swap h) = m.transfer_active ≡ false
TransferPremise {m} (TransferMove.look_again_closed h) = m.quiesce ≡ true
TransferPremise {m} (TransferMove.look_again_open h) = m.quiesce ≡ false
TransferPremise _ = Unit

transfer_premise :
    {m m' : Shared} {p p' : TransferPc} (mv : TransferMove m p m' p') → TransferPremise mv
transfer_premise (TransferMove.look_closed h) = h
transfer_premise (TransferMove.look_open h) = h
transfer_premise (TransferMove.swap_fails h) = h
transfer_premise (TransferMove.swap h) = h
transfer_premise (TransferMove.look_again_closed h) = h
transfer_premise (TransferMove.look_again_open h) = h
transfer_premise _ = tt

module _ {n : ℕ} {m : Shared} {transfer : ℕ → TransferPc} {client : ℕ → ListPc} {reboot : RebootPc}
    {server : ServerPc} (inv : Inv n m transfer client reboot server) where
  open inv use {
    active, single, attached, gone, server_lock, guard, clients, at_most, room, client_lock,
    reboot_lock, snapshot, no_clients, no_transfer, no_admission,
  }

  transfer-active :
      (i : ℕ) {p p' : TransferPc} {m' : Shared}
      → transfer i ≡ p
      → TransferMove m p m' p'
      → is_steady server ≡ true
      → (j : ℕ) → has_taken (update transfer i p' j) ≡ true
      → m'.transfer_active ≡ true
  transfer-active i e (TransferMove.look_closed q) st j h = ground (arith, active st j)
  transfer-active i e mv st j h =
      ground (arith, transfer_premise mv, active st j, active st i, single st i j)

  transfer-single :
      (i : ℕ) {p p' : TransferPc} {m' : Shared}
      → transfer i ≡ p
      → TransferMove m p m' p'
      → is_steady server ≡ true
      → (j k : ℕ) → has_taken (update transfer i p' j) ≡ true
      → has_taken (update transfer i p' k) ≡ true
      → j ≡ k
  transfer-single i e (TransferMove.look_closed q) st j k h h' = ground (arith, single st j k)
  transfer-single i e mv st j k h h' = ground (
    arith,
    transfer_premise mv,
    single st j k,
    single st i j,
    single st i k,
    active st j,
    active st k,
  )

  transfer-none :
      (i : ℕ) {p p' : TransferPc} {m' : Shared}
      → transfer i ≡ p
      → TransferMove m p m' p'
      → is_sure reboot ≡ true
      → (j : ℕ) → update transfer i p' j ≢ TransferPc.transferring
  transfer-none i e (TransferMove.look_closed q) s j h = ground (arith, no_transfer s j)
  transfer-none i e mv s j h =
      ground (arith, transfer_premise mv, no_transfer s j, guard, s, sure-guard reboot)

  transfer-rest :
      (i : ℕ) {p p' : TransferPc} {m' : Shared}
      → TransferMove m p m' p'
      → (m'.quiesce ≡ m.quiesce) × (m'.number_clients ≡ m.number_clients) × (m'.mutex ≡ m.mutex)
  transfer-rest i (TransferMove.look_closed q) = (refl, refl, refl)
  transfer-rest i _ = (refl, refl, refl)

  pub transfer-Inv :
      (i : ℕ) {p p' : TransferPc} {m' : Shared}
      → is_served (client i) ≡ true
      → transfer i ≡ p
      → TransferMove m p m' p'
      → Inv n m' (update transfer i p') client reboot server
  transfer-Inv i on e mv =
      let (same_guard, same_clients, same_mutex) = transfer-rest i mv in
      record {
        active = transfer-active i e mv;
        single = transfer-single i e mv;
        attached = λ j h. ground (arith, on, attached j);
        gone = gone;
        server_lock = λ h. same_mutex ∙ server_lock h;
        guard = same_guard ∙ guard;
        clients = same_clients ∙ clients;
        at_most = omega (arith, same_clients);
        room = λ j h. omega (arith, same_clients, room j h);
        client_lock = λ j h. same_mutex ∙ client_lock j h;
        reboot_lock = λ h. same_mutex ∙ reboot_lock h;
        snapshot = λ k h. omega (arith, same_clients, snapshot k h);
        no_clients = λ h. same_clients ∙ no_clients h;
        no_transfer = transfer-none i e mv;
        no_admission = no_admission;
      }
