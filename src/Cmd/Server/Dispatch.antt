-- ===== src/Cmd/Server/Dispatch.antt =====
-- How a command is dispatched, and that its reply fits the buffer.
use vitacompanion_vitadeck.Prelude.{
  ℕ, ◌-◌, ◌<◌, ◌≡◌, ap, Option, none, some, List, [], ◌∷◌, arith, leb, ◌==◌, if◌then◌else◌,
  Bool-cases, inl, inr, valid, Text, length, line, snprintf, length-snprintf,
}
use vitacompanion_vitadeck.Cmd.Parser.{parse_cmd}
use vitacompanion_vitadeck.Cmd.Parser.Words.{words, strings_at}
use vitacompanion_vitadeck.Cmd.Parser.Split.{parse_cmd-words, parse_cmd-too_many_iff}
use vitacompanion_vitadeck.Cmd.Os.{Os}
use vitacompanion_vitadeck.Cmd.Definitions.{CmdDefinition, ShellShot, cmd_get_definition}
use vitacompanion_vitadeck.Cmd.Commands.Replies.{execute-fits}
use vitacompanion_vitadeck.Cmd.Server.{
  arg_limit, run_definition, dispatch, handle_split, cmd_handle,
}

module _ {W : Type 0} (os : Os W) where
  -- A command is dispatched on its words: those up to the first line feed, in order. With more
  -- than twenty words it is refused, and then nothing was called.
  pub cmd_handle-words :
      (cmd res_msg : Text) (size : ℕ) (shot : ShellShot) (w : W)
      → cmd_handle os cmd (length cmd) res_msg size shot w ≡ (
          if leb (length (words cmd)) arg_limit
          then dispatch os (words cmd) res_msg size shot w
          else (snprintf size (line "Error: Too many arguments."), shot, w))
  unfolding cmd_handle
  cmd_handle-words cmd res_msg size shot w =
      elim (Bool-cases (leb (length (words cmd)) arg_limit)) [
        | inl few ↦
            let (buffer, args, e, _, strings) =
              parse_cmd-words cmd arg_limit (omega arith) (ground arith) in
            rw (few, e) (ap (λ t. dispatch os t res_msg size shot w) strings)
        | inr many ↦
            let e = (parse_cmd-too_many_iff cmd arg_limit (omega arith)).1 (ground arith) in
            rw (many, e)
      ]

  run_definition-fits :
      (d : Option CmdDefinition) (args : List Text) (res_msg : Text) (size : ℕ) (shot : ShellShot)
      (w : W)
      → 0 < size
      → length res_msg < size
      → length (run_definition os d args res_msg size shot w).0 < size
  unfolding run_definition
  run_definition-fits none args res_msg size shot w h r = length-snprintf size _ h
  run_definition-fits (some d) args res_msg size shot w h r =
      elim (Bool-cases (d.arg_count == length args - 1)) [
        | inl e ↦ rw e (execute-fits os d.executor args res_msg size shot w h r)
        | inr e ↦ rw e (length-snprintf size _ h)
      ]

  dispatch-fits :
      (args : List Text) (res_msg : Text) (size : ℕ) (shot : ShellShot) (w : W)
      → 0 < size
      → length res_msg < size
      → length (dispatch os args res_msg size shot w).0 < size
  unfolding dispatch
  dispatch-fits [] res_msg size shot w h r = length-snprintf size _ h
  dispatch-fits (name ∷ args) res_msg size shot w h r =
      run_definition-fits (cmd_get_definition name) (name ∷ args) res_msg size shot w h r

  handle_split-fits :
      (o : Option (Text × List ℕ)) (res_msg : Text) (size : ℕ) (shot : ShellShot) (w : W)
      → 0 < size
      → length res_msg < size
      → length (handle_split os o res_msg size shot w).0 < size
  unfolding handle_split
  handle_split-fits none res_msg size shot w h r = length-snprintf size _ h
  handle_split-fits (some (buffer, args)) res_msg size shot w h r =
      dispatch-fits (strings_at buffer args) res_msg size shot w h r

  -- Whatever the command, the reply is a string that fits the response buffer with its NUL, when the
  -- buffer is not empty and the string that it holds before fits it.
  pub cmd_handle-fits :
      (cmd : Text) (cmd_size : ℕ) (res_msg : Text) (size : ℕ) (shot : ShellShot) (w : W)
      → 0 < size
      → length res_msg < size
      → length (cmd_handle os cmd cmd_size res_msg size shot w).0 < size
  unfolding cmd_handle
  cmd_handle-fits cmd cmd_size res_msg size shot w h r =
      handle_split-fits (parse_cmd valid cmd cmd_size valid arg_limit) res_msg size shot w h r
