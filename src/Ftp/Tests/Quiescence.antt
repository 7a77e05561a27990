-- ===== src/Ftp/Tests/Quiescence.antt =====
-- A transfer that ends, and then a reboot.
use vitacompanion_vitadeck.Prelude.{ℕ, ◌≤◌, ◌<◌, ◌≡◌, ◌≢◌, ◌⊎◌, refl, false, arith}
use vitacompanion_vitadeck.Ftp.Interlock.{
  max_clients, TransferPc, ListPc, TransferMove, ListMove, RebootMove, System, transfer_step,
  list_step, reboot_step, Reach, start, later,
}
use vitacompanion_vitadeck.Ftp.Interlock.Invariant.{is_steady}
use vitacompanion_vitadeck.Ftp.Interlock.Safety.{single_flight, reboot_quiescent}

-- Client 0 of two is added, and its thread is admitted to a transfer.
abbrev in_list : (s : System) × Reach 2 s
in_list = (
  _,
  later
      (later
        (later (later start (list_step 0 (omega arith) refl (ListMove.lock_add refl refl)))
          (list_step 0 (omega arith) refl (ListMove.add_admitted refl)))
        (list_step 0 (omega arith) refl ListMove.count_up))
      (list_step 0 (omega arith) refl ListMove.unlock_added),
)

abbrev in_transfer : (s : System) × Reach 2 s
in_transfer = (
  _,
  later
      (later (later in_list.1 (transfer_step 0 (omega arith) refl (TransferMove.look_open refl)))
        (transfer_step 0 (omega arith) refl (TransferMove.swap refl)))
      (transfer_step 0 (omega arith) refl (TransferMove.look_again_open refl)),
)

-- It ends, the client leaves, and the reboot finds the server quiet.
abbrev left : (s : System) × Reach 2 s
left = (
  _,
  later
      (later
        (later (later in_transfer.1 (transfer_step 0 (omega arith) refl TransferMove.end_transfer))
          (list_step 0 (omega arith) refl (ListMove.lock_delete refl)))
        (list_step 0 (omega arith) refl ListMove.count_down))
      (list_step 0 (omega arith) refl ListMove.unlock_deleted),
)

abbrev at_reboot : (s : System) × Reach 2 s
at_reboot = (
  _,
  later
      (later
        (later
          (later (later left.1 (reboot_step refl (RebootMove.close_guard refl)))
            (reboot_step refl (RebootMove.lock refl)))
          (reboot_step refl RebootMove.count))
        (reboot_step refl (RebootMove.find_quiet refl)))
      (reboot_step refl RebootMove.unlock_quiet),
)

single_flight_example :
    let s = in_transfer.0 in
    (s.shared.number_clients ≤ max_clients)
    × ((i j : ℕ)
        → s.transfer i ≡ TransferPc.transferring
        → s.transfer j ≡ TransferPc.transferring
        → (i ≡ j) ⊎ (is_steady s.server ≡ false))
single_flight_example = single_flight in_transfer.1

reboot_quiescent_example :
    let s = at_reboot.0 in
    (s.shared.number_clients ≡ 0)
    × ((i : ℕ) → i < 2 → (s.client i ≢ ListPc.listed) × (s.client i ≢ ListPc.admitted))
    × ((i : ℕ) → s.transfer i ≢ TransferPc.transferring)
reboot_quiescent_example = reboot_quiescent at_reboot.1 refl
