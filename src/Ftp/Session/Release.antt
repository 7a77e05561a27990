-- ===== src/Ftp/Session/Release.antt =====
-- What the end of a thread releases.
use vitacompanion_vitadeck.Prelude.{
  ℕ, ◌+◌, ◌<◌, ◌≡◌, refl, ap, ◌∙◌, inl, inr, true, Bool-cases, Option, none, List, ◌∷◌, is_negative,
  codes, arith, Yields, Yields-found,
}
use vitacompanion_vitadeck.Ftp.Retr.{is_zero}
use vitacompanion_vitadeck.Ftp.Session.{
  Call, leave_list, free_client, exit_delete_thread, exit_thread, close_pasv_sockfd,
  close_data_sockfd, System, Session, eol, make, client_send_ctrl_msg, close_ctrl_sockfd,
  client_close_data_connection,
}
use vitacompanion_vitadeck.Ftp.Session.Dispatch.{CustomCommand}
use vitacompanion_vitadeck.Ftp.Session.Thread.{client_loop, end_client, client_thread}
use vitacompanion_vitadeck.Ftp.Session.Resources.{
  Resource, client, releases, acquires, Weight, total, acquired, released, Goes, Ready, Closed,
  Ends,
}
use vitacompanion_vitadeck.Ftp.Session.Steps.{
  idle-same, release-Goes, say-Ready, close_connection-Closed,
}
use vitacompanion_vitadeck.Ftp.Session.ThreadEnds.{IsOrderly, client_loop-Ready}

-- All that has been acquired has been released, but for `rs`.
abbrev pub IsReleased : List Resource → Session → Type 0
IsReleased rs s = (w : Weight) → released w s.trace + total w rs ≡ acquired w s.trace

close_ctrl_sockfd-Goes :
    (system : System) (n : ℕ) (rs : List Resource) (s : Session)
    → Goes rs n s
    → Goes rs n (close_ctrl_sockfd system s)
      × (is_negative (close_ctrl_sockfd system s).ctrl_sockfd ≡ true)
unfolding close_ctrl_sockfd make acquired released
close_ctrl_sockfd-Goes system n rs s g = elim (Bool-cases (is_negative s.ctrl_sockfd)) [
  | inl closed ↦ rw closed (g, closed)
  | inr open_fd ↦ rw open_fd (
    record {
      holds = λ w. let h = g.holds w in ground (arith, open_fd);
      directory = g.directory;
      longer = omega (arith, g.longer);
    },
    refl,
  )
]

close_connection-ctrl :
    (system : System) (s : Session)
    → (client_close_data_connection system s).ctrl_sockfd ≡ s.ctrl_sockfd
unfolding client_close_data_connection close_pasv_sockfd close_data_sockfd make
close_connection-ctrl system s = ground arith

-- With all its sockets closed the session owns nothing.
Closed-IsReleased :
    (n : ℕ) (rs : List Resource) (s : Session)
    → Closed rs n s
    → is_negative s.ctrl_sockfd ≡ true
    → IsReleased rs s
Closed-IsReleased n rs s c ctrl w =
    let h = c.ready.goes.holds w in ground (arith, c.ready.no_pasv, c.no_data, ctrl)

-- The end of the thread gives up the block of the client and all sockets.
end_client-IsReleased :
    (system : System) (functions : ℕ → Session → Option Session) (customs : List CustomCommand)
    (transfer_fuel n : ℕ) (rs : List Resource) (s : Session)
    → Goes (client ∷ rs) n s
    → IsReleased rs (end_client system functions customs transfer_fuel s)
unfolding end_client
end_client-IsReleased system functions customs transfer_fuel n rs s g =
    let held = client ∷ rs in
    let left = make system leave_list s in
    let (g', closed) =
      close_ctrl_sockfd-Goes system n held left
        (idle-same system n held leave_list s refl refl g) in
    let s' = client_close_data_connection system (close_ctrl_sockfd system left) in
    let c = close_connection-Closed system n held (close_ctrl_sockfd system left) g' in
    let freed = make system free_client s' in
    let e : Goes rs n freed =
      release-Goes system n rs free_client client s' refl refl c.ready.goes in
    let ended : (call : Call)
        → releases call ≡ none
        → acquires call (system.answer freed.trace call) ≡ none
        → IsReleased rs (make system call freed) =
      λ call r a.
        Closed-IsReleased n rs (make system call freed)
          (record {
            ready = record {
              goes = idle-same system n rs call freed r a e;
              no_pasv = (unfold make in c.ready.no_pasv);
            };
            no_data = (unfold make in c.no_data);
            no_type = (unfold make in c.no_type);
          })
          (unfold make in
            ap is_negative (close_connection-ctrl system (close_ctrl_sockfd system left))
            ∙ closed) in
    elim (Bool-cases (is_zero (system.answer s.trace leave_list))) [
      | inl kept ↦ rw kept (ended exit_thread refl refl)
      | inr own ↦ rw own (ended exit_delete_thread refl refl)
    ]

-- The thread of a client returns, whatever the client sent and whatever else the system answered,
-- when from `limit` calls on a receive brings nothing more and a directory has no more entries, a
-- stat of a null pointer fails, the fuels of the thread and of a transfer are above `limit`, PATH_MAX
-- is above 1, and the custom commands return and keep a session in order, as it is at first. It has
-- then released all that it was given and all that it acquired: every socket, file, directory, buffer and
-- admission of a transfer, and the block of the client.
pub client_thread-IsReleased :
    (system : System) (functions : ℕ → Session → Option Session) (customs : List CustomCommand)
    (limit fuel transfer_fuel n : ℕ) (rs : List Resource) (s : Session)
    → 1 < system.path_max
    → Ends system limit
    → limit < transfer_fuel
    → limit < fuel
    → IsOrderly (client ∷ rs) functions
    → Ready (client ∷ rs) n s
    → Yields (IsReleased rs) (client_thread system functions customs transfer_fuel fuel s)
unfolding client_thread
client_thread-IsReleased system functions customs limit fuel transfer_fuel n rs s room ends enough
      more orderly g =
    let greeted = client_send_ctrl_msg system (eol (codes "220 FTPVita Server ready.")) s in
    let (s', ran, after) =
      Yields-found (Ready (client ∷ rs) n)
        (client_loop system functions customs transfer_fuel fuel greeted)
        (client_loop-Ready system functions customs limit transfer_fuel (client ∷ rs) room ends
          enough orderly fuel n greeted (omega arith) (omega arith)
          (say-Ready system n (client ∷ rs) _ s g)) in
    rw (Yields, ran)
      (end_client-IsReleased system functions customs transfer_fuel n rs s' after.goes)
