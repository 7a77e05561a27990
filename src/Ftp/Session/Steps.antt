-- ===== src/Ftp/Session/Steps.antt =====
-- The steps that the commands share, and what the session holds behind each.
use vitacompanion_vitadeck.Prelude.{
  ℕ, suc, ◌≡◌, refl, inl, inr, ◌||◌, Bool-cases, none, some, List, ◌∷◌, ℤ, is_negative, Text, arith,
}
use vitacompanion_vitadeck.Ftp.Session.{
  Call, connect, accept, set_timeouts, send, end_transfer, is_active, is_none, System, Session,
  make, client_send_ctrl_msg, close_data_sockfd, close_pasv_sockfd, client_close_data_connection,
  configure_socket_io_timeout, client_open_data_connection,
}
use vitacompanion_vitadeck.Ftp.Session.Listing.{finish_transfer, refuse_transfer}
use vitacompanion_vitadeck.Ftp.Session.Resources.{
  Resource, transfer, acquires, releases, acquired, released, Goes, Ready, Closed, make-Goes,
  Goes-le,
}

module _ (system : System) (n : ℕ) (rs : List Resource) where
  -- A call that acquires and releases nothing.
  pub idle-Goes :
      (call : Call) (s : Session)
      → releases call ≡ none
      → acquires call (system.answer s.trace call) ≡ none
      → Goes rs n s
      → Goes rs (suc n) (make system call s)
  idle-Goes call s none_released none_acquired g =
      make-Goes system n call rs rs s (λ w. rw (none_released, none_acquired) refl) g

  -- The same, counted as no progress.
  pub idle-same :
      (call : Call) (s : Session)
      → releases call ≡ none
      → acquires call (system.answer s.trace call) ≡ none
      → Goes rs n s
      → Goes rs n (make system call s)
  idle-same call s r a g =
      Goes-le system (suc n) n rs (make system call s) (omega arith) (idle-Goes call s r a g)

  pub release-Goes :
      (call : Call) (r : Resource) (s : Session)
      → releases call ≡ some r
      → acquires call (system.answer s.trace call) ≡ none
      → Goes (r ∷ rs) n s
      → Goes rs n (make system call s)
  release-Goes call r s given none_acquired g =
      Goes-le system (suc n) n rs (make system call s) (omega arith)
        (make-Goes system n call (r ∷ rs) rs s (λ w. rw (given, none_acquired) (omega arith)) g)

  pub acquire-Goes :
      (call : Call) (r : Resource) (s : Session)
      → releases call ≡ none
      → acquires call (system.answer s.trace call) ≡ some r
      → Goes rs n s
      → Goes (r ∷ rs) n (make system call s)
  acquire-Goes call r s none_released taken g =
      Goes-le system (suc n) n (r ∷ rs) (make system call s) (omega arith)
        (make-Goes system n call rs (r ∷ rs) s (λ w. rw (none_released, taken) (omega arith)) g)

  pub swap-Goes : (p q : Resource) (s : Session) → Goes (p ∷ q ∷ rs) n s → Goes (q ∷ p ∷ rs) n s
  swap-Goes p q s g = record {
    holds = λ w. omega (arith, g.holds w);
    directory = g.directory;
    longer = g.longer;
  }

  pub say-Goes :
      (message : Text) (s : Session)
      → Goes rs n s
      → Goes rs n (client_send_ctrl_msg system message s)
  unfolding client_send_ctrl_msg
  say-Goes message s g = idle-same (send s.ctrl_sockfd message) s refl refl g

  pub close_data_sockfd-Goes : (s : Session) → Goes rs n s → Goes rs n (close_data_sockfd system s)
  unfolding close_data_sockfd make acquired released
  close_data_sockfd-Goes s g = elim (Bool-cases (is_negative s.data_sockfd)) [
    | inl closed ↦ rw closed g
    | inr open_fd ↦ rw open_fd (record {
      holds = λ w. let h = g.holds w in ground (arith, open_fd);
      directory = g.directory;
      longer = omega (arith, g.longer);
    })
  ]

  pub close_pasv_sockfd-Goes : (s : Session) → Goes rs n s → Goes rs n (close_pasv_sockfd system s)
  unfolding close_pasv_sockfd make acquired released
  close_pasv_sockfd-Goes s g = elim (Bool-cases (is_negative s.pasv_sockfd)) [
    | inl closed ↦ rw closed g
    | inr open_fd ↦ rw open_fd (record {
      holds = λ w. let h = g.holds w in ground (arith, open_fd);
      directory = g.directory;
      longer = omega (arith, g.longer);
    })
  ]

  -- Behind the close no data connection is left.
  pub close_connection-Closed :
      (s : Session) → Goes rs n s → Closed rs n (client_close_data_connection system s)
  unfolding client_close_data_connection
  close_connection-Closed s g =
      let closed =
        close_pasv_sockfd-Goes (close_data_sockfd system s) (close_data_sockfd-Goes s g) in
      record {
        ready = record {
          goes = record {
            holds = closed.holds;
            directory = closed.directory;
            longer = closed.longer;
          };
          no_pasv = (unfold close_pasv_sockfd in ground arith);
        };
        no_data = (unfold close_pasv_sockfd close_data_sockfd make in ground arith);
        no_type = refl;
      }

  pub say-Closed :
      (message : Text) (s : Session)
      → Closed rs n s
      → Closed rs n (client_send_ctrl_msg system message s)
  say-Closed message s c = record {
    ready = record {
      goes = say-Goes message s c.ready.goes;
      no_pasv = (unfold client_send_ctrl_msg make in c.ready.no_pasv);
    };
    no_data = (unfold client_send_ctrl_msg make in c.no_data);
    no_type = (unfold client_send_ctrl_msg make in c.no_type);
  }

  pub say-Ready :
      (message : Text) (s : Session)
      → Ready rs n s
      → Ready rs n (client_send_ctrl_msg system message s)
  say-Ready message s c = record {
    goes = say-Goes message s c.goes;
    no_pasv = (unfold client_send_ctrl_msg make in c.no_pasv);
  }

  pub timeouts-Goes :
      (sockfd : ℤ) (s : Session)
      → Goes rs n s
      → Goes rs n (configure_socket_io_timeout system sockfd s)
  unfolding configure_socket_io_timeout
  timeouts-Goes sockfd s g = elim (Bool-cases (is_negative sockfd)) [
    | inl bad ↦ rw bad g
    | inr good ↦ rw good (idle-same (set_timeouts sockfd) s refl refl g)
  ]

  -- The accepted socket becomes one of the session's, which had none before.
  accept-Goes :
      (s : Session)
      → Ready rs n s
      → Goes rs n (record (make system (accept s.data_sockfd) s) {
        pasv_sockfd = system.answer s.trace (accept s.data_sockfd);
      })
  unfolding make acquired released
  accept-Goes s g = record {
    holds = λ w. let h = g.goes.holds w in ground (arith, g.no_pasv);
    directory = g.goes.directory;
    longer = omega (arith, g.goes.longer);
  }

  pub open_connection-Goes :
      (s : Session) → Ready rs n s → Goes rs n (client_open_data_connection system s).1
  unfolding client_open_data_connection
  open_connection-Goes s g =
      elim (Bool-cases (is_none s.data_con_type || is_negative s.data_sockfd)) [
        | inl missing ↦ rw missing g.goes
        | inr present ↦ elim (Bool-cases (is_active s.data_con_type)) [
          | inl on ↦
              rw (present, on)
                (idle-same (connect s.data_sockfd s.data_sockaddr.0 s.data_sockaddr.1) s refl refl
                  g.goes)
          | inr off ↦ rw (present, off) (timeouts-Goes _ _ (accept-Goes s g))
        ]
      ]

-- The release of the transfer, behind the close of the data connection.
pub release_transfer-Closed :
    (system : System) (n : ℕ) (rs : List Resource) (s : Session)
    → Closed (transfer ∷ rs) n s
    → Closed rs n (make system end_transfer s)
release_transfer-Closed system n rs s c = record {
  ready = record {
    goes = release-Goes system n rs end_transfer transfer s refl refl c.ready.goes;
    no_pasv = (unfold make in c.ready.no_pasv);
  };
  no_data = (unfold make in c.no_data);
  no_type = (unfold make in c.no_type);
}

-- The end of an admitted transfer closes the data connection and releases the transfer.
pub finish_transfer-Closed :
    (system : System) (n : ℕ) (rs : List Resource) (reply : Text) (s : Session)
    → Goes (transfer ∷ rs) n s
    → Closed rs n (finish_transfer system reply s)
unfolding finish_transfer
finish_transfer-Closed system n rs reply s g = release_transfer-Closed system n rs _ (
    say-Closed system n (transfer ∷ rs) reply (client_close_data_connection system s)
      (close_connection-Closed system n (transfer ∷ rs) s g))

pub refuse_transfer-Closed :
    (system : System) (n : ℕ) (rs : List Resource) (s : Session)
    → Goes rs n s
    → Closed rs n (refuse_transfer system s)
unfolding refuse_transfer
refuse_transfer-Closed system n rs s g =
    say-Closed system n rs _ (client_close_data_connection system s)
      (close_connection-Closed system n rs s g)
