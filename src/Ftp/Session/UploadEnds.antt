-- ===== src/Ftp/Session/UploadEnds.antt =====
-- An upload closes what it has opened, on every path.
use vitacompanion_vitadeck.Prelude.{
  ℕ, suc, ◌<◌, refl, inl, inr, Bool-cases, Option, List, [], ◌∷◌, ℤ, is_negative, Text, arith,
  valid, Yields, Yields-found,
}
use vitacompanion_vitadeck.Ftp.Store.Returns.{store_stream_returns}
use vitacompanion_vitadeck.Ftp.Session.{
  write_file, receive, System, Session, make, client_send_ctrl_msg, client_open_data_connection,
  transfer_sockfd,
}
use vitacompanion_vitadeck.Ftp.Session.Listing.{cannot_open}
use vitacompanion_vitadeck.Ftp.Session.Transfers.{
  store_receive, store_write, store_reply, opening_image, receive_stream, receive_buffered,
  receive_opened, open_for_store, receive_file,
}
use vitacompanion_vitadeck.Ftp.Session.Resources.{
  Resource, transfer, file, memory, Goes, Ready, Closed, Ends, Goes-le,
}
use vitacompanion_vitadeck.Ftp.Session.Steps.{
  idle-Goes, idle-same, say-Goes, open_connection-Goes, close_connection-Closed,
  finish_transfer-Closed, release_transfer-Closed,
}
use vitacompanion_vitadeck.Ftp.Session.TransferEnds.{
  release_both-Goes, allocate_then-Closed, admit_then-Closed, open_for_store-releases,
  open_for_store-fails, open_for_store-opens,
}

module _ (system : System) (limit fuel n : ℕ) (rs : List Resource) (ends : Ends system limit)
    (enough : limit < fuel) where
  receive_stream-Closed :
      (fd buffer : ℤ) (s : Session)
      → Goes (memory buffer ∷ file fd ∷ transfer ∷ rs) n s
      → Yields (Closed rs n) (receive_stream system fuel fd buffer s)
  unfolding receive_stream store_receive store_write
  receive_stream-Closed fd buffer s g =
      let held = memory buffer ∷ file fd ∷ transfer ∷ rs in
      let s' = client_send_ctrl_msg system opening_image s in
      let (out, sent, after) =
        Yields-found (λ out. Goes held n out.1) _
          (store_stream_returns (store_receive system) (store_write system fd) (Goes held) limit
            (λ m w bytes size h.
              idle-Goes system m held (receive (transfer_sockfd system w) size) w refl refl h)
            (λ m w bytes h. idle-same system m held (write_file fd bytes) w refl refl h)
            (λ m w bytes size late h.
              ends.receive_ends w.trace (transfer_sockfd system w) size
                (let l = h.longer in omega (arith, late)))
            (λ m w h. Goes-le system (suc m) m held w (omega arith) h) fuel n valid
            (system.stored s'.trace []) system.file_buf_size s' enough
            (say-Goes system n held opening_image s g)) in
      let both = release_both-Goes system n rs fd buffer out.1 after in
      rw (Yields, sent)
        (release_transfer-Closed system n rs _ (
          close_connection-Closed system n (transfer ∷ rs) _ (
            say-Goes system n (transfer ∷ rs) (store_reply out.0) _
              (record { holds = both.holds; directory = both.directory; longer = both.longer }))))

  receive_buffered-Closed :
      (fd buffer : ℤ) (s : Session)
      → Ready (memory buffer ∷ file fd ∷ transfer ∷ rs) n s
      → Yields (Closed rs n) (receive_buffered system fuel fd buffer s)
  unfolding receive_buffered
  receive_buffered-Closed fd buffer s g =
      let (result, s') = client_open_data_connection system s in
      let g' = open_connection-Goes system n (memory buffer ∷ file fd ∷ transfer ∷ rs) s g in
      elim (Bool-cases (is_negative result)) [
        | inl failed ↦ rw failed (
            finish_transfer-Closed system n rs (cannot_open system) _
              (release_both-Goes system n rs fd buffer s' g'))
        | inr connected ↦ rw connected (receive_stream-Closed fd buffer s' g')
      ]

  receive_opened-Closed :
      (fd : ℤ) (s : Session)
      → Ready (file fd ∷ transfer ∷ rs) n s
      → Yields (Closed rs n) (receive_opened system fuel fd s)
  unfolding receive_opened
  receive_opened-Closed fd s g =
      allocate_then-Closed system n rs fd s (λ buffer s. receive_buffered system fuel fd buffer s)
        (λ buffer s. receive_buffered-Closed fd buffer s) g

  pub receive_file-Closed :
      (path : Option Text) (s : Session)
      → Ready rs n s
      → Yields (Closed rs n) (receive_file system fuel path s)
  unfolding receive_file make
  receive_file-Closed path s g =
      admit_then-Closed system n rs (open_for_store system path s.restore_point) s
        (λ fd s'. receive_opened system fuel fd s')
        (open_for_store-releases system n rs path s.restore_point)
        (open_for_store-fails system n rs path s.restore_point)
        (open_for_store-opens system n rs path s.restore_point)
        (λ fd s'. receive_opened-Closed fd s') g
