-- ===== src/Ftp/Interlock/Safety.antt =====
-- What the interlock guarantees in every reachable state.
use vitacompanion_vitadeck.Prelude.{
  ℕ, ◌≤◌, ◌<◌, ◌≡◌, ◌≢◌, refl, ◌⊎◌, inl, inr, false, Bool-cases, arith,
}
use vitacompanion_vitadeck.Ftp.Interlock.Threads.{marked-none}
use vitacompanion_vitadeck.Ftp.Interlock.{
  max_clients, TransferPc, ListPc, RebootPc, System, Step, transfer_step, list_step, reboot_step,
  server_step, Reach, start, later,
}
use vitacompanion_vitadeck.Ftp.Interlock.Invariant.{is_counted, is_steady, Inv, Inv-init}
use vitacompanion_vitadeck.Ftp.Interlock.TransferMoves.{transfer-Inv}
use vitacompanion_vitadeck.Ftp.Interlock.ListMoves.{list-Inv}
use vitacompanion_vitadeck.Ftp.Interlock.RebootMoves.{reboot-Inv}
use vitacompanion_vitadeck.Ftp.Interlock.ServerMoves.{server-Inv}

abbrev pub Holds : ℕ → System → Type 0
Holds n s = Inv n s.shared s.transfer s.client s.reboot s.server

Step-Inv : {n : ℕ} {s t : System} → Step n s t → Holds n s → Holds n t
Step-Inv (transfer_step i lt on mv) inv = transfer-Inv inv i on refl mv
Step-Inv (list_step i lt out mv) inv = list-Inv inv i lt out refl mv
Step-Inv (reboot_step up mv) inv = reboot-Inv inv up mv
Step-Inv (server_step mv) inv = server-Inv mv inv

pub Reach-Inv : {n : ℕ} {s : System} → Reach n s → Holds n s
Reach-Inv {n} start = Inv-init n
Reach-Inv (later r st) = Step-Inv st (Reach-Inv r)

-- However the client threads, the command thread and the network thread with its shutdowns and starts
-- interleave, never more than eight clients are counted. Two data transfers are admitted at a time
-- only where `client_list_thread_end` has reset `transfer_active` and the clients that it detached have
-- not all ended; apart from that it is one at most.
pub single_flight :
    {n : ℕ} {s : System}
    → Reach n s
    → (s.shared.number_clients ≤ max_clients)
      × ((i j : ℕ)
          → s.transfer i ≡ TransferPc.transferring
          → s.transfer j ≡ TransferPc.transferring
          → (i ≡ j) ⊎ (is_steady s.server ≡ false))
single_flight {s} r =
    let inv = Reach-Inv r in
    (
      inv.at_most,
      λ i j p q. elim (Bool-cases (is_steady s.server)) [
        | inl steady ↦ inl (inv.single steady i j (ground (arith, p)) (ground (arith, q)))
        | inr resetting ↦ inr resetting
      ],
    )

-- Once a reboot is admitted, and until it is cancelled or `ftpvita_fini` opens the guard at the end of a
-- shutdown, no client is in the list, none is being admitted, and no data transfer is running, in
-- whatever order the threads have come there.
pub reboot_quiescent :
    {n : ℕ} {s : System}
    → Reach n s
    → s.reboot ≡ RebootPc.rebooting
    → (s.shared.number_clients ≡ 0)
      × ((i : ℕ) → i < n → (s.client i ≢ ListPc.listed) × (s.client i ≢ ListPc.admitted))
      × ((i : ℕ) → s.transfer i ≢ TransferPc.transferring)
reboot_quiescent {n} {s} r e =
    let inv = Reach-Inv r in
    let empty = inv.no_clients (ground arith) in
    (
      empty,
      λ i lt. (
        (λ h.
            ground
              (arith, marked-none is_counted n i s.client (ground (arith, inv.clients, empty)) lt)),
        inv.no_admission (ground arith) i,
      ),
      inv.no_transfer (ground arith),
    )
