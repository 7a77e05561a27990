-- ===== src/Cmd/Server.antt =====
-- src/cmd.c: framing, dispatch and the session of one command client.
pub mod Dispatch
pub mod Framing
use vitacompanion_vitadeck.Prelude.{
  ℕ, zero, suc, ◌+◌, ◌-◌, ◌≤◌, ◌<◌, Bool, true, false, not, ◌&&◌, ◌||◌, Option, none, some, List,
  [], ◌∷◌, ◌++◌, map, ltb, leb, ◌==◌, if◌then◌else◌, ℤ, pos, negsuc, is_negative, cast_u32, Text,
  codes, length, take, drop, get_or, line, snprintf, valid,
}
use vitacompanion_vitadeck.Cmd.Parser.{parse_cmd}
use vitacompanion_vitadeck.Cmd.Parser.Words.{strings_at}
use vitacompanion_vitadeck.Cmd.Os.{Os}
use vitacompanion_vitadeck.Cmd.Definitions.{CmdDefinition, cmd_get_definition, ShellShot}
use vitacompanion_vitadeck.Cmd.Commands.{execute}

abbrev pub arg_limit : ℕ
arg_limit = 20

abbrev pub cmd_request_bytes : ℕ
cmd_request_bytes = 256

abbrev pub cmd_response_bytes : ℕ
cmd_response_bytes = 1024

-- `memchr(cmd, '\n', used) != NULL`
pub has_newline : Text → Bool
has_newline [] = false
has_newline (c ∷ s) = c == 10 || has_newline s

-- What `receive_command` finds: an error of a receive, or the bytes and whether they are too many.
pub data Received : Type 0 where
  failed : ℤ → Received
  command : Text → Bool → Received

abbrev pub framed : ℕ → Text → Received
framed capacity cmd = command cmd (length cmd == capacity && not (has_newline cmd))

module _ {W : Type 0} (os : Os W) where
  -- The loop of `receive_command`, with the bytes used so far. `none` is the end of the fuel.
  pub receive_loop : ℕ → ℤ → ℕ → Text → W → Option (Received × W)
  receive_loop zero sockfd capacity used w = none
  receive_loop (suc fuel) sockfd capacity used w =
      let (received, bytes, w') = os.recv sockfd (capacity - length used) w in
      let used' = used ++ take (cast_u32 received) bytes in
      let rest = receive_loop fuel sockfd capacity used' w' in
      if ltb (length used) capacity
      then if is_negative received
        then some (failed received, w')
        else if cast_u32 received == 0
        then some (framed capacity used, w')
        else if has_newline used'
        then some (framed capacity used', w')
        else rest
      else some (framed capacity used, w)

  -- Every receive but the last adds a byte.
  pub receive_command : ℤ → ℕ → W → Option (Received × W)
  receive_command sockfd capacity w = receive_loop (suc capacity) sockfd capacity [] w

  abbrev reply : ℕ → Text → ShellShot → W → Text × ShellShot × W
  reply size message shot w = (snprintf size message, shot, w)

  -- The dispatch on the arguments, which stand in the split buffer.
  run_definition :
      Option CmdDefinition → List Text → Text → ℕ → ShellShot → W → Text × ShellShot × W
  run_definition none args res_msg size shot w = reply size (line "Error: Unknown command.") shot w
  run_definition (some d) args res_msg size shot w =
      if not (d.arg_count == length args - 1)
      then reply size (line "Error: Incorrect number of arguments.") shot w
      else execute os d.executor args res_msg size shot w

  -- The commands with their words as arguments, once the buffer has been split.
  pub dispatch : List Text → Text → ℕ → ShellShot → W → Text × ShellShot × W
  unfolding run_definition
  dispatch [] res_msg size shot w = reply size (line "Error: Empty command.") shot w
  dispatch (name ∷ args) res_msg size shot w =
      run_definition (cmd_get_definition name) (name ∷ args) res_msg size shot w

  handle_split : Option (Text × List ℕ) → Text → ℕ → ShellShot → W → Text × ShellShot × W
  handle_split none res_msg size shot w = reply size (line "Error: Too many arguments.") shot w
  handle_split (some (buffer, args)) res_msg size shot w =
      dispatch (strings_at buffer args) res_msg size shot w

  -- The string left in `res_msg`, the statics of the executors, and the world.
  pub cmd_handle : Text → ℕ → Text → ℕ → ShellShot → W → Text × ShellShot × W
  unfolding handle_split
  cmd_handle cmd cmd_size res_msg res_msg_size shot w =
      handle_split (parse_cmd valid cmd cmd_size valid arg_limit) res_msg res_msg_size shot w

  -- The fuel is one more than the bytes left.
  pub send_response : ℕ → ℤ → Text → W → W
  send_response zero sockfd response w = w
  send_response (suc fuel) sockfd response w =
      let (sent, w') = os.send sockfd response w in
      let rest = send_response fuel sockfd (drop (cast_u32 sent) response) w' in
      if ltb 0 (length response)
      then if is_negative sent || cast_u32 sent == 0 then w' else rest
      else w

  -- The first timeout that cannot be set decides.
  pub configure_socket_io_timeout : ℤ → W → ℤ × W
  configure_socket_io_timeout sockfd w =
      let (ret, w') = os.set_send_timeout sockfd w in
      if is_negative ret then (ret, w') else os.set_receive_timeout sockfd w'

  reply_to : Option (Received × W) → ShellShot → W → Option (Text × ShellShot × W)
  reply_to none shot w = none
  reply_to (some (failed e, w)) shot _ =
      some (reply cmd_response_bytes (line "Error: Command receive failed or timed out.") shot w)
  reply_to (some (command cmd too_long, w)) shot _ =
      if too_long
      then some (reply cmd_response_bytes (line "Error: Command is too long.") shot w)
      else if length cmd == 0
      then some (reply cmd_response_bytes (line "Error: Empty command.") shot w)
      else some (cmd_handle cmd (length cmd) [] cmd_response_bytes shot w)

  -- An empty response is replaced.
  or_empty : Text × ShellShot × W → Text × ShellShot × W
  or_empty ([], shot, w) = reply cmd_response_bytes (line "Error: Empty response.") shot w
  or_empty (c ∷ s, shot, w) = (c ∷ s, shot, w)

  answer_client : Option (Text × ShellShot × W) → Option (Text × ShellShot × W)
  answer_client none = none
  answer_client (some answer) = some (or_empty answer)

  -- What the command thread does for one accepted client, before it closes the socket: the
  -- response, the statics and the world behind the sends.
  pub serve_client : ℤ → ShellShot → W → Option (Text × ShellShot × W)
  unfolding reply_to or_empty answer_client
  serve_client sockfd shot w =
      let (ret, w') = configure_socket_io_timeout sockfd w in
      let answer : Option (Text × ShellShot × W) =
        if is_negative ret
        then some
            (reply cmd_response_bytes (line "Error: Cannot configure command timeout.") shot w')
        else reply_to (receive_command sockfd cmd_request_bytes w') shot w' in
      elim (answer_client answer) [
        | none ↦ none
        | some (response, shot', w'') ↦
            some (response, shot', send_response (suc (length response)) sockfd response w'')
      ]
