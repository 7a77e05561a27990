-- ===== src/Lib.antt =====
-- Verification of vitacompanion, a PS Vita plugin with an FTP server and a command server.
--
-- The program. `main.c` starts a thread that follows the network (`src/net.c`); while it is up, the
-- FTP server (`libftpvita`) and the command server (`src/cmd.c`) run. The command server takes one
-- client at a time, reads a line, splits it (`src/parser.c`), looks the command up and runs it
-- (`src/cmd_definitions.c`); the commands call the system, the FTP server's controls, and the
-- package installer (`src/package_installer.c`), which uses SHA-1 (`src/sha1.c`).
--
-- The files.
-- Prelude: tests, lists, C integers and C strings, `snprintf`.
-- Ftp/Parse: `libftpvita/ftpvita_parse.h`, one function per loop and one per parser. Line,
--   Argument, Number and Port hold the theorems on command lines, arguments, the REST offset and the PORT
--   tuple.
-- Ftp/Retr: `libftpvita/ftpvita_retr.h`. The callbacks are arguments; their contract, that of sceIoRead
--   and sceNetSend, is the record RetrContract in Transfer.
-- Ftp/Store: `libftpvita/ftpvita_store.h`, with StoreContract in Upload.
-- Ftp/Clients: `client_list_add` and `client_list_delete` of `libftpvita/ftpvita.c`, on a heap of
--   clients with their links. Links, Removal and Admission say what the writes do to a list, List
--   what they make of the list as a whole.
-- Ftp/Paths: `get_vita_path`, `path_is_at_root`, `dir_up`, `cmd_CWD_func` and `gen_ftp_fullpath` of
--   `libftpvita/ftpvita.c`. CWD takes the calls that open and close a directory as functions on a state.
--   Directory holds the theorems on the current directory.
-- Ftp/Interlock: the accesses of `libftpvita/ftpvita.c` to `transfer_active`,
--   `reboot_quiesce_requested`, `number_clients` and the list mutex: `client_begin_transfer`,
--   `client_end_transfer`, `client_list_add`, `client_list_delete`, `ftpvita_prepare_for_reboot`,
--   `ftpvita_cancel_reboot`, and `client_list_thread_end`, `ftpvita_fini` and `ftpvita_init`, as a step
--   relation, one step for one atomic access. The resets of `ftpvita_fini` and of `ftpvita_init` are a
--   step each, since no other thread is left by then, and only starts that succeed are steps. The
--   command thread runs between `ftpvita_init` and `ftpvita_fini`, as `start_services` and
--   `stop_services` of `src/net.c` have it. Invariant says what holds between the variables and where the
--   threads stand, TransferMoves, ListMoves, RebootMoves and ServerMoves that it is kept, and Safety what
--   follows.
-- Ftp/Session: `libftpvita/ftpvita.c` and `ftpvita_client_info_t` of `libftpvita/ftpvita.h`, the session of
--   one client. A session is a record with the trace of its calls and their answers; the system's
--   answers are a function of the trace. Listing, Transfers, Connections and Commands hold the handlers
--   `cmd_*_func`, Dispatch the table and `get_dispatch_func`, Thread `client_thread`. Resources says what a
--   call acquires and releases; Steps, ListingEnds, TransferEnds, UploadEnds, CommandEnds, ThreadEnds and
--   Release follow it through the handlers and the thread.
-- Ftp/Server: `server_thread`, `client_list_thread_end` and `ftpvita_abort_clients` of the same file, with the
--   theorems in Handover and Shutdown.
-- Ftp/Lifecycle: `ftpvita_init` with its error labels and `ftpvita_fini`. Balance follows the labels, Start
--   the start and the shutdown.
-- Ftp/Tables: the tables of devices and custom commands, with Devices.
-- Cmd/Parser: `src/parser.c`. Arguments are offsets into the buffer, which is split in place. Words says
--   what the words of a command are, Split that the tokenizer finds them.
-- Cmd/Os: what the commands call of the system and of the FTP server: a record of operations on a
--   state of the world, a parameter of the executors.
-- Cmd/Definitions, Cmd/Commands: `src/cmd_definitions.c`, one function per executor.
-- Cmd/Server: `src/cmd.c`, what the command thread does for one client.
-- Cmd/Service: `src/cmd.c`, the command thread with its two socket slots, and in Start `cmd_start` and
--   `cmd_end`. Sockets says what the thread leaves.
-- Main: `src/main.c`, with `net_start` and `net_end` of `src/net.c`.
-- Net: `src/net.c`. The calls made are recorded, and the system's answers are a function of them; the
--   loop runs over a list of turns. Services and Ending hold the theorems.
-- Sha1: `src/sha1.c`. A context is a record, `sha1_transform` the function `compress` of the state and
--   the block. Blocks follows the data block by block, Padding says what the padding is, Standard
--   describes the hash as FIPS 180 does, Standard/Compression shows that the loops compute it, Digest holds
--   the theorems.
-- Package/Archive, Package/Sfo, Package/Head, Package/Promote: `src/package_installer.c`, the check on
--   entry names and the end record of an archive, the parameter file, the signed header, and the calls
--   that promote a package. Sfo/Entry describes an entry of the parameter file by its bytes, Sfo/Found what
--   a lookup finds, Head/Signing and Head/Made the signatures and the header that is made.
-- Package/Disk, Package/Stage, Package/Extract, Package/HeadFile, Package/Install: the same file, its calls
--   of the disk and reads and writes of whole buffers, `ensure_directory` and `remove_tree`,
--   `extract_zip_data`, `read_file` and `make_head_bin`, and `extract_vpk` and `install_vpk`. Inside, Folders, Data
--   and Walk follow the paths that the extraction touches, Removal, Header and Cleanup the rest of an
--   installation.
-- Ftp/Tests, Cmd/Tests, Cmd/Service/Tests, Net/Tests, Main/Tests, Package/Tests: runs at concrete inputs.
--
-- Conventions. Integers are natural numbers with the wrap-around of their width written out, and ℤ where
-- the sign matters. A C string is the list of the bytes before its NUL. An array is a list; `set`
-- outside its bounds changes nothing. What a function writes through a pointer is part of its result.
--
-- The system. Where the order of calls matters, a state has the trace of its calls, the latest first,
-- and a call's answer is a function of the calls before it, so that a theorem that holds for every such
-- function holds for every run. Resources are counted by a weight for each: the weights of what was
-- acquired and of what was released are equal for all weights only when they are the same resources.
--
-- Fuel. Loops over text and buffers are structural. A download has fuel for each byte up to the extent,
-- an upload is proved to return with more fuel than the peer has bytes left, `receive_command` has one
-- step more than the buffer has bytes, `safe_components` one more than the path has, and `send_response`
-- one more than the response has; the theorems on the first four give a result for this fuel.
-- The loops that go on as long as the system lets them have fuel, and theorems that it is enough when
-- it is more than a number of calls from which on the system says stop: Ends (the client sends no more
-- and a directory has no more entries), IsShut (a listening socket is closed), InflateEnds
-- (`inflate` does not go on) and DirectoryEnds (a directory of the stage has no more entries).
--
-- Not modelled. The system's libraries and zlib are no part of the repository; their answers are
-- parameters. Logging, the names given to sockets and threads, and the tests are left out. The options of a
-- socket's timeouts are one call. The promotion has its own record
-- of calls. Null arguments of `install_vpk` are left out. The interlock leaves the list's links
-- out and takes each atomic access and each access under the mutex as one step; the first, unlocked
-- count in `ftpvita_prepare_for_reboot` only fills the report. In a session `client_begin_transfer`,
-- `client_end_transfer` and `client_list_delete` are calls with any answer.
pub mod Cmd
pub mod Ftp
pub mod Main
pub mod Net
pub mod Package
pub mod Prelude
pub mod Sha1
