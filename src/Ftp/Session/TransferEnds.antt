-- ===== src/Ftp/Session/TransferEnds.antt =====
-- RETR, STOR and APPE return, close their data connection, and release what they have acquired.
use vitacompanion_vitadeck.Prelude.{
  ℕ, ◌≡◌, refl, inl, inr, true, false, Bool-cases, Option, none, some, List, [], ◌∷◌, ◌==◌,
  if◌then◌else◌, ℤ, is_negative, Text, codes, arith, valid, Yields, Yields-found, negsuc,
}
use vitacompanion_vitadeck.Ftp.Retr.{is_zero}
use vitacompanion_vitadeck.Ftp.Retr.Returns.{retr_extent_returns}
use vitacompanion_vitadeck.Ftp.Session.{
  open_file, seek_end, seek_to, read_file, close_file, send, allocate, free_memory, begin_transfer,
  System, Session, Call, eol, make, client_send_ctrl_msg, client_open_data_connection,
  transfer_sockfd,
}
use vitacompanion_vitadeck.Ftp.Session.Listing.{finish_transfer, refuse_transfer, cannot_open}
use vitacompanion_vitadeck.Ftp.Session.Transfers.{
  retr_read, retr_send, retr_reply, seek_reply, opening_image, reaches, is_position, extent_bytes,
  send_extent, send_buffered, send_opened, send_file, open_for_store,
}
use vitacompanion_vitadeck.Ftp.Session.Resources.{
  Resource, transfer, file, memory, releases, acquires, Goes, Ready, Closed, make-Ready,
}
use vitacompanion_vitadeck.Ftp.Session.Steps.{
  idle-same, release-Goes, swap-Goes, say-Goes, open_connection-Goes, finish_transfer-Closed,
  refuse_transfer-Closed,
}

module _ (system : System) (n : ℕ) (rs : List Resource) where
  -- The file and then the buffer are given back.
  pub release_both-Goes :
      (fd buffer : ℤ) (s : Session)
      → Goes (memory buffer ∷ file fd ∷ transfer ∷ rs) n s
      → Goes (transfer ∷ rs) n (make system (free_memory buffer) (make system (close_file fd) s))
  release_both-Goes fd buffer s g =
      release-Goes system n (transfer ∷ rs) (free_memory buffer) (memory buffer) _ refl refl (
        release-Goes system n (memory buffer ∷ transfer ∷ rs) (close_file fd) (file fd) s refl refl
          (swap-Goes system n (transfer ∷ rs) (memory buffer) (file fd) s g))

  pub send_extent-Closed :
      (fd buffer : ℤ) (restore_point : ℕ) (extent : ℤ) (s : Session)
      → Goes (memory buffer ∷ file fd ∷ transfer ∷ rs) n s
      → Yields (Closed rs n) (send_extent system fd buffer restore_point extent s)
  unfolding send_extent retr_read retr_send
  send_extent-Closed fd buffer restore_point extent s g =
      let held = memory buffer ∷ file fd ∷ transfer ∷ rs in
      let s' = client_send_ctrl_msg system opening_image s in
      let sockfd = transfer_sockfd system s' in
      let (out, sent, after) =
        Yields-found (λ out. Goes held n out.1) _
          (retr_extent_returns (retr_read system fd) (retr_send system sockfd) (Goes held n)
            (λ w bytes size h. idle-same system n held (read_file fd size) w refl refl h)
            (λ w bytes h. idle-same system n held (send sockfd bytes) w refl refl h) valid
            (system.stored s'.trace []) system.file_buf_size restore_point (extent_bytes extent) s'
            (say-Goes system n held opening_image s g)) in
      rw (Yields, sent)
        (finish_transfer-Closed system n rs (retr_reply restore_point extent out.0) _
          (release_both-Goes fd buffer out.1 after))

  pub send_buffered-Closed :
      (fd buffer : ℤ) (restore_point : ℕ) (extent : ℤ) (s : Session)
      → Ready (memory buffer ∷ file fd ∷ transfer ∷ rs) n s
      → Yields (Closed rs n) (send_buffered system fd buffer restore_point extent s)
  unfolding send_buffered
  send_buffered-Closed fd buffer restore_point extent s g =
      let (result, s') = client_open_data_connection system s in
      let g' = open_connection-Goes system n (memory buffer ∷ file fd ∷ transfer ∷ rs) s g in
      elim (Bool-cases (is_negative result)) [
        | inl failed ↦ rw failed (
            finish_transfer-Closed system n rs (cannot_open system) _
              (release_both-Goes fd buffer s' g'))
        | inr connected ↦ rw connected (send_extent-Closed fd buffer restore_point extent s' g')
      ]

  -- From the buffer on, with the file at its position.
  pub allocate_then-Closed :
      (fd : ℤ) (s : Session) (run : ℤ → Session → Option Session)
      → ((buffer : ℤ) (s : Session)
          → Ready (memory buffer ∷ file fd ∷ transfer ∷ rs) n s
          → Yields (Closed rs n) (run buffer s))
      → Ready (file fd ∷ transfer ∷ rs) n s
      → let call = allocate system.file_buf_size in
        let buffer = system.answer s.trace call in
        Yields (Closed rs n) (
          if is_zero buffer
          then some (
              finish_transfer system
                (eol (codes "550 Could not allocate memory."))
                (make system (close_file fd) (make system call s)))
          else run buffer (make system call s))
  allocate_then-Closed fd s run closes g =
      let call = allocate system.file_buf_size in
      let buffer = system.answer s.trace call in
      let held = file fd ∷ transfer ∷ rs in
      elim (Bool-cases (is_zero buffer)) [
        | inl refused ↦ rw refused (
            finish_transfer-Closed system n rs (eol (codes "550 Could not allocate memory.")) _ (
              release-Goes system n (transfer ∷ rs) (close_file fd) (file fd) _ refl refl
                (make-Ready system n call held held s (λ w. rw refused (omega arith)) g).goes))
        | inr given ↦ rw given (
            closes buffer (make system call s) (
              make-Ready system n call held (memory buffer ∷ held) s (λ w. rw given (omega arith))
                g))
      ]

  pub send_opened-Closed :
      (fd : ℤ) (restore_point : ℕ) (s : Session)
      → Ready (file fd ∷ transfer ∷ rs) n s
      → Yields (Closed rs n) (send_opened system fd restore_point s)
  unfolding send_opened
  send_opened-Closed fd restore_point s g =
      let held = file fd ∷ transfer ∷ rs in
      let extent = system.answer s.trace (seek_end fd) in
      let s' = make system (seek_end fd) s in
      let g' = make-Ready system n (seek_end fd) held held s (λ w. refl) g in
      let close : (reply : Text) (s : Session)
          → Ready held n s
          → Closed rs n (finish_transfer system reply (make system (close_file fd) s)) =
        λ reply s g.
          finish_transfer-Closed system n rs reply _
            (release-Goes system n (transfer ∷ rs) (close_file fd) (file fd) s refl refl g.goes) in
      elim (Bool-cases (reaches extent restore_point)) [
        | inr short ↦ rw (Yields, short) (close (seek_reply restore_point extent (negsuc 0)) s' g')
        | inl long ↦
            let call = seek_to fd restore_point in
            let position = system.answer s'.trace call in
            let g'' = make-Ready system n call held held s' (λ w. refl) g' in
            elim (Bool-cases (is_position position restore_point)) [
              | inr elsewhere ↦
                  rw (Yields, long, elsewhere)
                    (close (seek_reply restore_point extent position) _ g'')
              | inl there ↦
                  rw (Yields, long, there)
                    (allocate_then-Closed fd (make system call s')
                      (λ buffer s. send_buffered system fd buffer restore_point extent s)
                      (λ buffer s. send_buffered-Closed fd buffer restore_point extent s) g'')
            ]
      ]

  -- The admission and the opening of the file, which both kinds of transfer begin with.
  pub admit_then-Closed :
      (call : Call) (s : Session) (run : ℤ → Session → Option Session)
      → releases call ≡ none
      → ((a : ℤ) → is_negative a ≡ true → acquires call a ≡ none)
      → ((a : ℤ) → is_negative a ≡ false → acquires call a ≡ some (file a))
      → ((fd : ℤ) (s : Session)
          → Ready (file fd ∷ transfer ∷ rs) n s
          → Yields (Closed rs n) (run fd s))
      → Ready rs n s
      → let s' = make system begin_transfer s in
        let fd = system.answer s'.trace call in
        Yields (Closed rs n) (
          if is_zero (system.answer s.trace begin_transfer)
          then some (refuse_transfer system s')
          else if is_negative fd
          then some
              (finish_transfer system (eol (codes "550 File not found.")) (make system call s'))
          else run fd (make system call s'))
  admit_then-Closed call s run none_released failing taking closes g =
      let a = system.answer s.trace begin_transfer in
      let s' = make system begin_transfer s in
      let fd = system.answer s'.trace call in
      elim (Bool-cases (is_zero a)) [
        | inl refused ↦ rw refused (
            refuse_transfer-Closed system n rs s'
              (make-Ready system n begin_transfer rs rs s (λ w. rw refused (omega arith)) g).goes)
        | inr admitted ↦
            let held = transfer ∷ rs in
            let g' =
              make-Ready system n begin_transfer rs held s (λ w. rw admitted (omega arith)) g in
            elim (Bool-cases (is_negative fd)) [
              | inl missing ↦
                  rw (admitted, missing)
                    (finish_transfer-Closed system n rs (eol (codes "550 File not found."))
                      (make system call s')
                      (make-Ready system n call held held s'
                        (λ w. rw (none_released, failing fd missing) refl) g').goes)
              | inr there ↦
                  rw (admitted, there)
                    (closes fd (make system call s') (
                      make-Ready system n call held (file fd ∷ held) s'
                        (λ w. rw (none_released, taking fd there) (omega arith)) g'))
            ]
      ]

  pub send_file-Closed :
      (path : Option Text) (s : Session)
      → Ready rs n s
      → Yields (Closed rs n) (send_file system path s)
  unfolding send_file
  send_file-Closed path s g =
      admit_then-Closed (open_file path false) (record s { restore_point = 0 })
        (λ fd s'. send_opened system fd s.restore_point s') refl (λ a h. rw h refl)
        (λ a h. rw h refl) (λ fd s'. send_opened-Closed fd s.restore_point s')
        (record {
          goes = record {
            holds = g.goes.holds;
            directory = g.goes.directory;
            longer = g.goes.longer;
          };
          no_pasv = g.no_pasv;
        })

  pub open_for_store-releases :
      (path : Option Text) (restore_point : ℕ)
      → releases (open_for_store system path restore_point) ≡ none
  open_for_store-releases path restore_point = elim (Bool-cases (restore_point == 0)) [
    | inl fresh ↦ rw fresh refl
    | inr resumed ↦ rw resumed refl
  ]

  pub open_for_store-fails :
      (path : Option Text) (restore_point : ℕ) (a : ℤ)
      → is_negative a ≡ true
      → acquires (open_for_store system path restore_point) a ≡ none
  open_for_store-fails path restore_point a h = elim (Bool-cases (restore_point == 0)) [
    | inl fresh ↦ rw (fresh, h) refl
    | inr resumed ↦ rw (resumed, h) refl
  ]

  pub open_for_store-opens :
      (path : Option Text) (restore_point : ℕ) (a : ℤ)
      → is_negative a ≡ false
      → acquires (open_for_store system path restore_point) a ≡ some (file a)
  open_for_store-opens path restore_point a h = elim (Bool-cases (restore_point == 0)) [
    | inl fresh ↦ rw (fresh, h) refl
    | inr resumed ↦ rw (resumed, h) refl
  ]
