-- ===== src/Ftp/Session/Resources.antt =====
-- What a session holds: the resources that its calls acquire and release.
use vitacompanion_vitadeck.Prelude.{
  ℕ, suc, ◌+◌, ◌≤◌, ◌≡◌, ◌||◌, true, Option, none, some, List, [], ◌∷◌, if◌then◌else◌, ℤ,
  is_negative, length, arith,
}
use vitacompanion_vitadeck.Ftp.Paths.Directory.{IsDirectory}
use vitacompanion_vitadeck.Ftp.Retr.{is_zero}
use vitacompanion_vitadeck.Ftp.Session.{
  Call, receive, read_directory, get_stat, new_socket, accept, close_socket, open_file, open_append,
  close_file, open_directory, close_directory, allocate, free_memory, begin_transfer, end_transfer,
  allocate_client, free_client, event, Trace, System, Session, is_none, make,
}

pub data Resource : Type 0 where
  socket file directory memory : ℤ → Resource
  transfer client : Resource

-- A descriptor that is an error code names nothing.
abbrev pub opened : (ℤ → Resource) → ℤ → Option Resource
opened r fd = if is_negative fd then none else some (r fd)

-- What a call with its answer acquires.
abbrev pub acquires : Call → ℤ → Option Resource
acquires new_socket a = opened socket a
acquires (accept fd) a = opened socket a
acquires (open_file path truncate) a = opened file a
acquires (open_append path) a = opened file a
acquires (open_directory path) a = opened directory a
acquires (allocate size) a = if is_zero a then none else some (memory a)
acquires allocate_client a = if is_zero a then none else some client
acquires begin_transfer a = if is_zero a then none else some transfer
acquires _ a = none

-- What a call gives up.
abbrev pub releases : Call → Option Resource
releases (close_socket fd) = some (socket fd)
releases (close_file fd) = some (file fd)
releases (close_directory fd) = some (directory fd)
releases (free_memory address) = some (memory address)
releases free_client = some client
releases end_transfer = some transfer
releases _ = none

-- Resources are counted with a weight for each: a weight of 1 for one of them counts that one.
abbrev pub Weight : Type 0
Weight = Resource → ℕ

abbrev pub weigh : Weight → Option Resource → ℕ
weigh w none = 0
weigh w (some r) = w r

abbrev pub total : Weight → List Resource → ℕ
total w [] = 0
total w (r ∷ rs) = w r + total w rs

unfoldable pub acquired : Weight → Trace → ℕ
acquired w [] = 0
acquired w (event call a ∷ trace) = weigh w (acquires call a) + acquired w trace

unfoldable pub released : Weight → Trace → ℕ
released w [] = 0
released w (event call a ∷ trace) = weigh w (releases call) + released w trace

-- The sockets that the session refers to.
abbrev pub owned : Weight → Session → ℕ
owned w s =
    weigh w (opened socket s.ctrl_sockfd)
    + (weigh w (opened socket s.data_sockfd) + weigh w (opened socket s.pasv_sockfd))

-- Whatever has been acquired has been released, or is one of `rs`, or is a socket of the session.
abbrev pub Holds : List Resource → Session → Type 0
Holds rs s = (w : Weight) → released w s.trace + (total w rs + owned w s) ≡ acquired w s.trace

-- A session on its way: what it holds, its current directory, and how many calls it has made.
pub record Goes (rs : List Resource) (n : ℕ) (s : Session) : Type 0 where
  pub holds : Holds rs s
  pub directory : IsDirectory s.cur_path
  pub longer : n ≤ length s.trace

-- Between two commands no accepted data socket is left.
pub record Ready (rs : List Resource) (n : ℕ) (s : Session) : Type 0 where
  pub goes : Goes rs n s
  pub no_pasv : is_negative s.pasv_sockfd ≡ true

-- Behind a transfer no data connection is left.
pub record Closed (rs : List Resource) (n : ℕ) (s : Session) : Type 0 where
  pub ready : Ready rs n s
  pub no_data : is_negative s.data_sockfd ≡ true
  pub no_type : is_none s.data_con_type ≡ true

module _ (system : System) (n : ℕ) where
  -- A call changes what is held by what it acquires and releases.
  pub make-Goes :
      (call : Call) (rs rs' : List Resource) (s : Session)
      → ((w : Weight)
          → total w rs' + weigh w (releases call)
            ≡ total w rs + weigh w (acquires call (system.answer s.trace call)))
      → Goes rs n s
      → Goes rs' (suc n) (make system call s)
  unfolding make acquired released
  make-Goes call rs rs' s change g = record {
    holds = λ w. omega (arith, change w, g.holds w);
    directory = g.directory;
    longer = omega (arith, g.longer);
  }

  pub Goes-le : (m : ℕ) (rs : List Resource) (s : Session) → m ≤ n → Goes rs n s → Goes rs m s
  Goes-le m rs s h g = record {
    holds = g.holds;
    directory = g.directory;
    longer = omega (arith, g.longer);
  }

-- The network and the directories end: from `limit` calls on a receive brings nothing more, and a
-- directory has no more entries. There is no file behind a null pointer.
pub record Ends (system : System) (limit : ℕ) : Type 0 where
  pub receive_ends :
      (trace : Trace) (sockfd : ℤ) (size : ℕ)
      → limit ≤ length trace
      → is_zero (system.answer trace (receive sockfd size))
          || is_negative (system.answer trace (receive sockfd size))
        ≡ true
  pub directory_ends :
      (trace : Trace) (dir : ℤ)
      → limit ≤ length trace
      → is_zero (system.answer trace (read_directory dir))
          || is_negative (system.answer trace (read_directory dir))
        ≡ true
  pub null_stat : (trace : Trace) → is_negative (system.answer trace (get_stat none)) ≡ true

-- The same between two commands, without the progress.
pub make-Ready :
    (system : System) (n : ℕ) (call : Call) (rs rs' : List Resource) (s : Session)
    → ((w : Weight)
        → total w rs' + weigh w (releases call)
          ≡ total w rs + weigh w (acquires call (system.answer s.trace call)))
    → Ready rs n s
    → Ready rs' n (make system call s)
make-Ready system n call rs rs' s change r = record {
  goes =
      Goes-le system (suc n) n rs' (make system call s) (omega arith)
        (make-Goes system n call rs rs' s change r.goes);
  no_pasv = (unfold make in r.no_pasv);
}
