-- ===== src/Ftp/Paths/Directory.antt =====
-- What the current directory of a session looks like.
use vitacompanion_vitadeck.Prelude.{
  valid, ℕ, zero, suc, ◌-◌, ◌<◌, ◌≡◌, ◌≢◌, refl, ap, ◌∙◌, ◌⊎◌, inl, inr, true, false, ◌&&◌, Option,
  none, some, Option-cases, Bool-cases, [], ◌∷◌, ◌++◌, arith, leb, ◌==◌, ℤ, is_negative, Text,
  codes, peek, length, get_or, take, snprintf, length-snprintf, text_eq, text_eq_iff,
}
use vitacompanion_vitadeck.Ftp.Parse.{copy_command_argument}
use vitacompanion_vitadeck.Ftp.Paths.{
  last_slash, get_vita_path, path_is_at_root, add_slash, dir_up, relative_path, Reply, syntax_error,
  invalid_directory, completed, enter, change_directory, cmd_cwd, full_path, gen_ftp_fullpath,
}

-- The root, or a path that begins with a slash and has another one, as `/ux0:/data` has.
abbrev pub IsDirectory : Text → Type 0
IsDirectory path =
    (path ≡ codes "/") ⊎ ((peek path ≡ 47) × ((i : ℕ) × (last_slash path ≡ some (suc i))))

begins-last_slash : (path : Text) → peek path ≡ 47 → (i : ℕ) × (last_slash path ≡ some i)
unfolding last_slash
begins-last_slash [] h = absurd (ground arith)
begins-last_slash (c ∷ path) h = elim (Option-cases (last_slash path)) [
  | inl none_later ↦ (0, rw (none_later) (ground (arith, h)))
  | inr (i, later) ↦ (suc i, rw (later) refl)
]

last_slash-append : (path : Text) → last_slash (path ++ (47 ∷ [])) ≡ some (length path)
unfolding last_slash
last_slash-append [] = refl
last_slash-append (c ∷ path) = rw (last_slash-append path) refl

-- A path that begins with a slash and gets another one when it has none.
add_slash-IsDirectory : (path : Text) → peek path ≡ 47 → IsDirectory (add_slash path)
unfolding add_slash
add_slash-IsDirectory [] h = absurd (ground arith)
add_slash-IsDirectory (c ∷ path) h = let (i, last) = begins-last_slash (c ∷ path) h in go i last
  where
    go :
        (i : ℕ)
        → last_slash (c ∷ path) ≡ some i
        → (add_slash (c ∷ path) ≡ codes "/")
          ⊎ ((peek (add_slash (c ∷ path)) ≡ 47)
              × ((j : ℕ) × (last_slash (add_slash (c ∷ path)) ≡ some (suc j))))
    go zero last = inr (rw (last) h, (length path, rw (last) (last_slash-append (c ∷ path))))
    go (suc i) last =
        let later : (suc i == 0) ≡ false = ground arith in
        inr (rw (last, later) h, (i, rw (last, later) last))

take-begins : (n : ℕ) (path : Text) → peek path ≡ 47 → peek (take (suc n) path) ≡ 47
take-begins n [] h = h
take-begins n (c ∷ path) h = h

snprintf-begins : (n : ℕ) (path : Text) → 1 < n → peek path ≡ 47 → peek (snprintf n path) ≡ 47
unfolding snprintf
snprintf-begins n path room h =
    let e : n - 1 ≡ suc (n - 2) = omega arith in
    ap (λ (k : ℕ). peek (take k path)) e ∙ take-begins (n - 2) path h

IsDirectory-begins : (path : Text) → IsDirectory path → peek path ≡ 47
IsDirectory-begins path (inl root) = ap peek root
IsDirectory-begins path (inr (begins, other)) = begins

-- Going up always succeeds.
pub dir_up-IsDirectory :
    (path : Text) → IsDirectory path → (up : Text) × (dir_up path ≡ some up) × IsDirectory up
unfolding dir_up
dir_up-IsDirectory path is = elim (Bool-cases (length path == 1)) [
  | inl short ↦ (codes "/", rw (short) refl, inl refl)
  | inr long ↦ elim (Bool-cases (path_is_at_root path)) [
    | inl at_root ↦ (codes "/", rw (long, at_root) refl, inl refl)
    | inr below ↦ elim is [
      | inl root ↦ absurd (let one = ap length root in ground (arith, one, long))
      | inr (begins, (i, last)) ↦ (
        add_slash (take (suc i) path),
        rw (long, below, last) refl,
        add_slash-IsDirectory (take (suc i) path) (take-begins i path begins),
      )
    ]
  ]
]

-- What CWD does with directories: nothing, an attempt to open one that fails, or one that is opened
-- and closed at once.
pub data Probed {W : Type 0} (open_directory : Option Text → W → ℤ × W)
    (close_directory : ℤ → W → W) (w : W) : Reply → W → Type 0 where
  untouched : (reply : Reply) → Probed open_directory close_directory w reply w
  not_opened :
      (path : Option Text)
      → is_negative (open_directory path w).0 ≡ true
      → Probed open_directory close_directory w invalid_directory (open_directory path w).1
  visited :
      (path : Option Text)
      → is_negative (open_directory path w).0 ≡ false
      → Probed open_directory close_directory w completed
          (close_directory (open_directory path w).0 (open_directory path w).1)

abbrev Outcome :
    {W : Type 0} (open_directory : Option Text → W → ℤ × W) (close_directory : ℤ → W → W)
    → Text
    → W
    → Option (Reply × Text × W)
    → Type 0
Outcome {W} open_directory close_directory cur_path w out =
    (reply : Reply) × (path : Text) × (w' : W) × (out ≡ some (reply, path, w'))
    × IsDirectory path
    × ((reply ≢ completed) → path ≡ cur_path)
    × Probed open_directory close_directory w reply w'

relative_path-begins :
    (path_max : ℕ) (cur_path cmd_path : Text)
    → 1 < path_max
    → peek cur_path ≡ 47
    → peek (relative_path path_max cur_path cmd_path) ≡ 47
relative_path-begins path_max [] cmd_path room h = absurd (ground arith)
relative_path-begins path_max (c ∷ cur_path) cmd_path room h =
    elim (Bool-cases (path_is_at_root (c ∷ cur_path))) [
      | inl at_root ↦ rw (at_root) (snprintf-begins path_max ((c ∷ cur_path) ++ cmd_path) room h)
      | inr below ↦ rw (below) (snprintf-begins path_max ((c ∷ cur_path) ++ (47 ∷ cmd_path)) room h)
    ]

module _ {W : Type 0} (open_directory : Option Text → W → ℤ × W) (close_directory : ℤ → W → W) where
  enter-Outcome :
      (cur_path path : Text) (w : W)
      → IsDirectory cur_path
      → IsDirectory path
      → Outcome open_directory close_directory cur_path w
          (enter open_directory close_directory cur_path path w)
  enter-Outcome cur_path path w is is' =
      let name = get_vita_path path in
      let pd = (open_directory name w).0 in
      let w' = (open_directory name w).1 in
      elim (Bool-cases (text_eq path (codes "/"))) [
        | inl root ↦
            (completed, path, w, rw (root) refl, is', λ h. absurd (h refl), untouched completed)
        | inr below ↦ elim (Bool-cases (is_negative pd)) [
          | inl missing ↦ (
            invalid_directory,
            cur_path,
            w',
            rw (below, missing) refl,
            is,
            λ h. refl,
            not_opened name missing,
          )
          | inr there ↦ (
            completed,
            path,
            close_directory pd w',
            rw (below, there) refl,
            is',
            λ h. absurd (h refl),
            visited name there,
          )
        ]
      ]

  change_directory-Outcome :
      (path_max : ℕ) (argument : Option Text) (cur_path : Text) (w : W)
      → 1 < path_max
      → IsDirectory cur_path
      → Outcome open_directory close_directory cur_path w
          (change_directory open_directory close_directory path_max argument cur_path w)
  unfolding change_directory
  change_directory-Outcome path_max none cur_path w room is =
      (syntax_error, cur_path, w, refl, is, λ h. refl, untouched syntax_error)
  change_directory-Outcome path_max (some cmd_path) cur_path w room is =
      elim (Bool-cases (text_eq cmd_path (codes "/"))) [
        | inl root ↦ (
          completed,
          cmd_path,
          w,
          rw (root) refl,
          inl ((text_eq_iff cmd_path (codes "/")).0 root),
          λ h. absurd (h refl),
          untouched completed,
        )
        | inr not_root ↦ elim (Bool-cases (text_eq cmd_path (codes ".."))) [
          | inl up ↦
              let (above, e, is') = dir_up-IsDirectory cur_path is in
              (
                completed,
                above,
                w,
                rw (not_root, up, e) refl,
                is',
                λ h. absurd (h refl),
                untouched completed,
              )
          | inr not_up ↦ elim (Bool-cases (peek cmd_path == 47)) [
            | inl full ↦
                rw (not_root, not_up, full)
                  (enter-Outcome cur_path (add_slash cmd_path) w is
                    (add_slash-IsDirectory cmd_path (ground (arith, full))))
            | inr relative ↦
                let path = relative_path path_max cur_path cmd_path in
                rw (not_root, not_up, relative)
                  (enter-Outcome cur_path (add_slash path) w is (
                    add_slash-IsDirectory path (
                      relative_path-begins path_max cur_path cmd_path room
                        (IsDirectory-begins cur_path is))))
          ]
        ]
      ]

  -- CWD always answers, whatever its arguments, when a path may have more than one byte and the
  -- current directory is the root or a path that begins with a slash and has another one. The current
  -- directory stays one of these, and it only changes when the answer is that the action was completed.
  -- A directory that CWD opens is closed at once: its calls on directories are none, one attempt to
  -- open that fails, for which it answers that the directory is invalid, or one that succeeds with
  -- the close of what it opened.
  pub cmd_cwd-IsDirectory :
      (path_max : ℕ) (args cur_path : Text) (w : W)
      → 1 < path_max
      → IsDirectory cur_path
      → (reply : Reply) × (path : Text) × (w' : W) × (cmd_cwd open_directory close_directory
            path_max args cur_path w
          ≡ some (reply, path, w'))
        × IsDirectory path
        × ((reply ≢ completed) → path ≡ cur_path)
        × Probed open_directory close_directory w reply w'
  unfolding cmd_cwd
  cmd_cwd-IsDirectory path_max args cur_path w room is =
      change_directory-Outcome path_max _ cur_path w room is

full_path-begins :
    (path_size : ℕ) (argument : Option Text) (cur_path : Text)
    → 1 < path_size
    → peek cur_path ≡ 47
    → (length (full_path path_size argument cur_path) < path_size)
      × ((full_path path_size argument cur_path ≡ [])
          ⊎ (peek (full_path path_size argument cur_path) ≡ 47))
full_path-begins path_size none cur_path room h = (omega arith, inl refl)
full_path-begins path_size (some cmd_path) [] room h = absurd (ground arith)
full_path-begins path_size (some cmd_path) (c ∷ cur_path) room h =
    let fits : (s : Text) → length (snprintf path_size s) < path_size =
      λ s. length-snprintf path_size s (omega arith) in
    elim (Bool-cases (peek cmd_path == 47)) [
      | inl full ↦
          rw (full)
            (fits cmd_path, inr (snprintf-begins path_size cmd_path room (ground (arith, full))))
      | inr relative ↦
          elim (Bool-cases
            (leb 5 (length cmd_path) && get_or cmd_path 3 0 == 58 && get_or cmd_path 4 0 == 47)) [
              | inl device ↦
                  rw (relative, device)
                    (
                      fits (47 ∷ cmd_path),
                      inr (snprintf-begins path_size (47 ∷ cmd_path) room refl),
                    )
              | inr plain ↦
                  let path = (c ∷ cur_path) ++ (47 ∷ cmd_path) in
                  rw (relative, plain) (fits path, inr (snprintf-begins path_size path room h))
            ]
    ]

-- With a buffer of more than one byte and a current directory that begins with a slash, the path that a
-- command names fits the buffer with its NUL, and begins with a slash or is empty.
pub gen_ftp_fullpath-begins :
    (path_max path_size : ℕ) (args cur_path : Text)
    → 1 < path_size
    → peek cur_path ≡ 47
    → (length (gen_ftp_fullpath path_max path_size args cur_path) < path_size)
      × ((gen_ftp_fullpath path_max path_size args cur_path ≡ [])
          ⊎ (peek (gen_ftp_fullpath path_max path_size args cur_path) ≡ 47))
unfolding gen_ftp_fullpath
gen_ftp_fullpath-begins path_max path_size args cur_path room h =
    full_path-begins path_size (copy_command_argument (some args) valid path_max) cur_path room h
