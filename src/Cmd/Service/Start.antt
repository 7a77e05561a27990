-- ===== src/Cmd/Service/Start.antt =====
-- src/cmd.c: `cmd_start` and `cmd_end`. What the command thread writes meanwhile is answered by the
-- system, and `close_socket_slot` of its two slots is one call here.
use vitacompanion_vitadeck.Prelude.{
  Option, none, some, ℕ, zero, suc, ◌≡◌, ◌≢◌, ◌⊎◌, Bool, true, false, List, [], ◌∷◌, if◌then◌else◌,
  ℤ, pos, negsuc, is_negative, arith,
}
use vitacompanion_vitadeck.Ftp.Retr.{is_zero}

pub data StartCall : Type 0 where
  create_thread start_thread delay close_loader_slot close_client_slot wait_thread delete_thread :
      StartCall

-- The results of the calls, `loader_start_status`, and whether that is CMD_START_PENDING.
pub record Host : Type 0 where
  pub answer : List StartCall → StartCall → ℤ
  pub start_status : List StartCall → ℤ
  pub is_pending : ℤ → Bool

-- `loader_thid`, and the calls made.
pub record Loader : Type 0 where
  pub loader_thid : ℤ
  pub calls : List StartCall

abbrev pub call : StartCall → Loader → Loader
call c l = record l { calls = c ∷ l.calls }

-- The loop that waits for the status.
pub await_status : Host → ℕ → Loader → Loader
await_status host zero l = l
await_status host (suc left) l =
    let rest = await_status host left (call delay l) in
    if host.is_pending (host.start_status l.calls) then rest else l

abbrev pub give_up_thread : Loader → Loader
give_up_thread l = record (call delete_thread l) { loader_thid = negsuc 0 }

-- From the started thread on.
pub finish_start : Host → Loader → ℤ × Loader
finish_start host l =
    let l = await_status host 2000 l in
    let status = host.start_status l.calls in
    if is_zero status then (pos 0, l) else (
      if host.is_pending status then negsuc 0 else status,
      give_up_thread (call wait_thread (call close_loader_slot l)),
    )

-- From the test of `loader_thid` on.
pub create_loader : Host → Loader → ℤ × Loader
create_loader host l =
    let thid = host.answer l.calls create_thread in
    let l = record (call create_thread l) { loader_thid = thid } in
    let ret = host.answer l.calls start_thread in
    let l' = call start_thread l in
    if is_negative thid
    then (thid, l)
    else if is_negative ret
    then (ret, give_up_thread l')
    else finish_start host l'

pub cmd_start : Host → Loader → ℤ × Loader
cmd_start host l = if is_negative l.loader_thid then create_loader host l else (pos 0, l)

pub cmd_end : Loader → Loader
cmd_end l =
    let l = call close_client_slot (call close_loader_slot l) in
    if is_negative l.loader_thid then l else give_up_thread (call wait_thread l)

-- The thread object that exists behind the calls: the one that was created and not deleted.
unfoldable pub thread_of : Host → List StartCall → Option ℤ
thread_of host [] = none
thread_of host (create_thread ∷ calls) =
    if is_negative (host.answer calls create_thread)
    then thread_of host calls
    else some (host.answer calls create_thread)
thread_of host (delete_thread ∷ calls) = none
thread_of host (_ ∷ calls) = thread_of host calls

-- How `cmd_start` comes out: with a thread that `loader_thid` names, or without a thread.
abbrev pub Begun : Host → ℤ × Loader → Type 0
Begun host (ret, l) =
    ((ret ≡ pos 0)
      × ((is_negative l.loader_thid ≡ false) × (thread_of host l.calls ≡ some l.loader_thid)))
    ⊎ ((ret ≢ pos 0) × ((is_negative l.loader_thid ≡ true) × (thread_of host l.calls ≡ none)))

-- When `loader_thid` tells whether there is a thread, `cmd_end` leaves none.
cmd_end-none :
    (host : Host) (l : Loader)
    → thread_of host l.calls ≡ (if is_negative l.loader_thid then none else some l.loader_thid)
    → (thread_of host (cmd_end l).calls ≡ none) × (is_negative (cmd_end l).loader_thid ≡ true)
unfolding cmd_end thread_of
cmd_end-none host l tells = ground arith
