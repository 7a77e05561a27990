-- ===== src/Ftp/Session/ListingEnds.antt =====
-- LIST returns, closes its data connection, and releases what it has acquired.
use vitacompanion_vitadeck.Prelude.{
  ℕ, zero, suc, ◌+◌, ◌<◌, refl, inl, inr, Bool, true, Bool-cases, some, Option-cases, List, [], ◌∷◌,
  ◌==◌, ℤ, is_negative, cast_u32, Text, codes, text_eq, length, drop, length-drop, arith, valid,
  Yields, Yields-found, sign_cases,
}
use vitacompanion_vitadeck.Ftp.Parse.{copy_command_argument}
use vitacompanion_vitadeck.Ftp.Paths.{get_vita_path}
use vitacompanion_vitadeck.Ftp.Retr.{is_zero}
use vitacompanion_vitadeck.Ftp.Session.{
  send, local_time, get_stat, open_directory, read_directory, close_directory, begin_transfer,
  System, Session, eol, make, client_send_ctrl_msg, send_all_loop, client_send_all,
  client_send_data_msg, client_open_data_connection, transfer_sockfd, Stat,
}
use vitacompanion_vitadeck.Ftp.Session.Listing.{
  gen_list_format, send_entry, list_devices, list_entries, list_result, opening_list, cannot_open,
  send_devices, send_directory, send_list, cmd_list,
}
use vitacompanion_vitadeck.Ftp.Session.Resources.{
  Resource, transfer, directory, Goes, Goes-le, Ready, Closed, Ends, make-Ready,
}
use vitacompanion_vitadeck.Ftp.Session.Steps.{
  idle-Goes, idle-same, release-Goes, say-Goes, open_connection-Goes, finish_transfer-Closed,
  refuse_transfer-Closed,
}

module _ (system : System) (n : ℕ) (rs : List Resource) where
  send_all_loop-Goes :
      (fuel : ℕ) (sockfd : ℤ) (bytes : List ℕ) (s : Session)
      → length bytes < fuel
      → Goes rs n s
      → Yields (λ out. Goes rs n out.1) (send_all_loop system fuel sockfd bytes s)
  unfolding send_all_loop
  send_all_loop-Goes zero sockfd bytes s enough g = absurd (omega arith)
  send_all_loop-Goes (suc fuel) sockfd [] s enough g = g
  send_all_loop-Goes (suc fuel) sockfd (b ∷ bytes) s enough g =
      let call = send sockfd (b ∷ bytes) in
      let a = system.answer s.trace call in
      let after = idle-same system n rs call s refl refl g in
      elim (Bool-cases (is_negative a)) [
        | inl failed ↦ rw failed after
        | inr good ↦ elim (Bool-cases (cast_u32 a == 0)) [
          | inl stuck ↦ rw (good, stuck) after
          | inr some_bytes ↦
              rw (good, some_bytes)
                (send_all_loop-Goes fuel sockfd (drop (cast_u32 a) (b ∷ bytes)) (make system call s)
                  (let l = length-drop (cast_u32 a) (b ∷ bytes) in ground (arith, some_bytes, l))
                  after)
        ]
      ]

  send_data_msg-Goes :
      (message : Text) (s : Session)
      → Goes rs n s
      → Yields (λ out. Goes rs n out.1) (client_send_data_msg system message s)
  unfolding client_send_data_msg client_send_all
  send_data_msg-Goes message s g =
      send_all_loop-Goes (suc (length message)) (transfer_sockfd system s) message s (omega arith) g

  send_entry-Goes :
      (dir : Bool) (stat : Stat) (filename : Text) (s : Session)
      → Goes rs n s
      → Yields (λ out. Goes rs n out.1) (send_entry system dir stat filename s)
  unfolding send_entry
  send_entry-Goes dir stat filename s g =
      let s' = make system local_time s in
      let text = gen_list_format (system.year_now s'.trace) 512 dir stat filename in
      let (out, sent, after) =
        Yields-found (λ out. Goes rs n out.1) (client_send_data_msg system text s')
          (send_data_msg-Goes text s' (idle-same system n rs local_time s refl refl g)) in
      rw (Yields, sent) after

  list_devices-Goes :
      (devices : List (Bool × Text)) (s : Session)
      → Goes rs n s
      → Yields (λ out. Goes rs n out.1) (list_devices system devices s)
  unfolding list_devices
  list_devices-Goes [] s g = g
  list_devices-Goes ((is_valid, devname) ∷ devices) s g = elim (Bool-cases is_valid) [
    | inr skipped ↦ rw skipped (list_devices-Goes devices s g)
    | inl listed ↦
        let call = get_stat (some devname) in
        let s' = make system call s in
        let g' = idle-same system n rs call s refl refl g in
        elim (Bool-cases (is_negative (system.answer s.trace call))) [
          | inl missing ↦ rw (listed, missing) (list_devices-Goes devices s' g')
          | inr there ↦
              let (out, sent, after) =
                Yields-found (λ out. Goes rs n out.1)
                  (send_entry system true (system.stat s'.trace) devname s')
                  (send_entry-Goes true (system.stat s'.trace) devname s' g') in
              rw (listed, there, sent)
                (elim (Bool-cases out.0) [
                  | inl going_on ↦ rw going_on (list_devices-Goes devices out.1 after)
                  | inr stopped ↦ rw stopped after
                ])
        ]
  ]

module _ (system : System) (limit : ℕ) (ends : Ends system limit) (rs : List Resource) where
  list_entries-Goes :
      (fuel n : ℕ) (dir : ℤ) (s : Session)
      → 0 < fuel
      → limit < fuel + n
      → Goes rs n s
      → Yields (λ out. Goes rs n out.1) (list_entries system fuel dir s)
  unfolding list_entries
  list_entries-Goes zero n dir s some_fuel enough g = absurd (omega arith)
  list_entries-Goes (suc fuel) n dir s some_fuel enough g =
      let call = read_directory dir in
      let s' = make system call s in
      let a = system.answer s.trace call in
      let g' = idle-Goes system n rs call s refl refl g in
      let stat = system.stat s'.trace in
      elim (sign_cases a) [
        | inl end ↦ rw (Yields, end) (Goes-le system (suc n) n rs s' (omega arith) g')
        | inr (inr (m, failed)) ↦
            rw (Yields, failed) (Goes-le system (suc n) n rs s' (omega arith) g')
        | inr (inl (m, found)) ↦
            let early : n < limit =
              let l = g.longer in ground (arith, ends.directory_ends s.trace dir, found) in
            let (out, sent, after) =
              Yields-found (λ out. Goes rs (suc n) out.1)
                (send_entry system stat.is_directory stat (system.entry_name s'.trace) s')
                (send_entry-Goes system (suc n) rs stat.is_directory stat
                  (system.entry_name s'.trace) s' g') in
            rw (Yields, found, sent)
              (elim (Bool-cases out.0) [
                | inr stopped ↦ rw stopped (Goes-le system (suc n) n rs out.1 (omega arith) after)
                | inl going_on ↦
                    let (end, went, at_end) =
                      Yields-found (λ out. Goes rs (suc n) out.1)
                        (list_entries system fuel dir out.1)
                        (list_entries-Goes fuel (suc n) dir out.1 (omega arith) (omega arith)
                          after) in
                    rw (going_on, went) (Goes-le system (suc n) n rs end.1 (omega arith) at_end)
              ])
      ]

module _ (system : System) (n : ℕ) (rs : List Resource) where
  send_devices-Closed :
      (s : Session) → Ready (transfer ∷ rs) n s → Yields (Closed rs n) (send_devices system s)
  unfolding send_devices
  send_devices-Closed s g =
      let (result, s') = client_open_data_connection system s in
      let g' = open_connection-Goes system n (transfer ∷ rs) s g in
      elim (Bool-cases (is_negative result)) [
        | inl failed ↦ rw failed (finish_transfer-Closed system n rs (cannot_open system) s' g')
        | inr connected ↦
            let said = client_send_ctrl_msg system (opening_list system) s' in
            let (out, sent, after) =
              Yields-found (λ out. Goes (transfer ∷ rs) n out.1)
                (list_devices system system.devices said)
                (list_devices-Goes system n (transfer ∷ rs) system.devices said
                  (say-Goes system n (transfer ∷ rs) (opening_list system) s' g')) in
            rw (connected, sent)
              (finish_transfer-Closed system n rs (list_result system out.0) out.1 after)
      ]

  send_directory-Closed :
      (limit fuel : ℕ) (dir : ℤ) (s : Session)
      → Ends system limit
      → limit < fuel
      → Ready (directory dir ∷ transfer ∷ rs) n s
      → Yields (Closed rs n) (send_directory system fuel dir s)
  unfolding send_directory
  send_directory-Closed limit fuel dir s ends enough g =
      let held = directory dir ∷ transfer ∷ rs in
      let (result, s') = client_open_data_connection system s in
      let g' = open_connection-Goes system n held s g in
      elim (Bool-cases (is_negative result)) [
        | inl failed ↦ rw failed (
            finish_transfer-Closed system n rs (cannot_open system) _ (
              release-Goes system n (transfer ∷ rs) (close_directory dir) (directory dir) s' refl
                refl g'))
        | inr connected ↦
            let said = client_send_ctrl_msg system (opening_list system) s' in
            let (out, sent, after) =
              Yields-found (λ out. Goes held n out.1) (list_entries system fuel dir said)
                (list_entries-Goes system limit ends held fuel n dir said (omega arith)
                  (omega arith) (say-Goes system n held (opening_list system) s' g')) in
            rw (connected, sent)
              (finish_transfer-Closed system n rs (list_result system out.0) _ (
                release-Goes system n (transfer ∷ rs) (close_directory dir) (directory dir) out.1
                  refl refl after))
      ]

module _ (system : System) (limit fuel n : ℕ) (rs : List Resource) (ends : Ends system limit)
    (enough : limit < fuel) where
  pub send_list-Closed :
      (path : Text) (s : Session)
      → Ready rs n s
      → Yields (Closed rs n) (send_list system fuel path s)
  unfolding send_list
  send_list-Closed path s g =
      let a = system.answer s.trace begin_transfer in
      let s' = make system begin_transfer s in
      let call = open_directory (get_vita_path path) in
      elim (Bool-cases (is_zero a)) [
        | inl refused ↦ rw refused (
            refuse_transfer-Closed system n rs s'
              (make-Ready system n begin_transfer rs rs s (λ w. rw refused (omega arith)) g).goes)
        | inr admitted ↦
            let g' =
              make-Ready system n begin_transfer rs (transfer ∷ rs) s
                (λ w. rw admitted (omega arith)) g in
            elim (Bool-cases (text_eq path (codes "/"))) [
              | inl root ↦ rw (admitted, root) (send_devices-Closed system n rs s' g')
              | inr other ↦ elim (Bool-cases (is_negative (system.answer s'.trace call))) [
                | inl missing ↦
                    rw (admitted, other, missing)
                      (finish_transfer-Closed system n rs (eol (codes "550 Invalid directory."))
                        (make system call s')
                        (make-Ready system n call (transfer ∷ rs) (transfer ∷ rs) s'
                          (λ w. rw missing (omega arith)) g').goes)
                | inr there ↦
                    let dir = system.answer s'.trace call in
                    rw (admitted, other, there)
                      (send_directory-Closed system n rs limit fuel dir (make system call s') ends
                        enough
                        (make-Ready system n call (transfer ∷ rs) (directory dir ∷ transfer ∷ rs) s'
                          (λ w. rw there (omega arith)) g'))
              ]
            ]
      ]

  pub cmd_list-Closed : (s : Session) → Ready rs n s → Yields (Closed rs n) (cmd_list system fuel s)
  unfolding cmd_list
  cmd_list-Closed s g =
      elim (Option-cases (copy_command_argument (some s.recv_cmd_args) valid system.path_max)) [
        | inl nothing ↦ rw (Yields, nothing) (send_list-Closed s.cur_path s g)
        | inr (list_path, copied) ↦
            let call = get_stat (get_vita_path list_path) in
            let s' = make system call s in
            let g' = make-Ready system n call rs rs s (λ w. refl) g in
            elim (Bool-cases (is_negative (system.answer s.trace call))) [
              | inl missing ↦ rw (Yields, copied, missing) (send_list-Closed s.cur_path s' g')
              | inr there ↦ rw (Yields, copied, there) (send_list-Closed list_path s' g')
            ]
      ]
