-- ===== src/Ftp/Session/Dispatch.antt =====
-- libftpvita/ftpvita.c: the dispatch table and the search for a handler.
use vitacompanion_vitadeck.Prelude.{
  ℕ, Bool, ◌&&◌, Option, none, some, List, [], ◌∷◌, if◌then◌else◌, Text, codes, text_eq,
}
use vitacompanion_vitadeck.Ftp.Session.{System, Session}
use vitacompanion_vitadeck.Ftp.Session.Connections.{cmd_pasv, cmd_port}
use vitacompanion_vitadeck.Ftp.Session.Listing.{cmd_list}
use vitacompanion_vitadeck.Ftp.Session.Transfers.{cmd_retr, cmd_stor, cmd_appe}
use vitacompanion_vitadeck.Ftp.Session.Commands.{
  cmd_noop, cmd_user, cmd_pass, cmd_quit, cmd_syst, cmd_pwd, change_cur_path, cmd_type, cmd_cdup,
  cmd_dele, cmd_rmd, cmd_mkd, cmd_rnfr, cmd_rnto, cmd_size, cmd_rest, cmd_feat, cmd_opts,
}

-- The functions of the table, and those of the custom commands by a number.
pub data Function : Type 0 where
  noop user pass quit syst pasv port list pwd cwd type cdup retr stor dele rmd mkd rnfr rnto size
        rest feat opts appe :
      Function
  custom : ℕ → Function

abbrev pub cmd_dispatch_table : List (Text × Function)
cmd_dispatch_table =
    (codes "NOOP", noop)
    ∷ (codes "USER", user)
    ∷ (codes "PASS", pass)
    ∷ (codes "QUIT", quit)
    ∷ (codes "SYST", syst)
    ∷ (codes "PASV", pasv)
    ∷ (codes "PORT", port)
    ∷ (codes "LIST", list)
    ∷ (codes "PWD", pwd)
    ∷ (codes "CWD", cwd)
    ∷ (codes "TYPE", type)
    ∷ (codes "CDUP", cdup)
    ∷ (codes "RETR", retr)
    ∷ (codes "STOR", stor)
    ∷ (codes "DELE", dele)
    ∷ (codes "RMD", rmd)
    ∷ (codes "MKD", mkd)
    ∷ (codes "RNFR", rnfr)
    ∷ (codes "RNTO", rnto)
    ∷ (codes "SIZE", size)
    ∷ (codes "REST", rest)
    ∷ (codes "FEAT", feat)
    ∷ (codes "OPTS", opts)
    ∷ (codes "APPE", appe)
    ∷ []

-- An entry of `custom_command_dispatchers`.
pub record CustomCommand : Type 0 where
  pub is_valid : Bool
  pub cmd : Text
  pub func : ℕ

unfoldable pub find_custom : List CustomCommand → Text → Option Function
find_custom [] cmd = none
find_custom (entry ∷ entries) cmd =
    if entry.is_valid && text_eq cmd entry.cmd
    then some (custom entry.func)
    else find_custom entries cmd

unfoldable pub find_function : List (Text × Function) → List CustomCommand → Text → Option Function
find_function [] customs cmd = find_custom customs cmd
find_function ((name, func) ∷ table) customs cmd =
    if text_eq cmd name then some func else find_function table customs cmd

unfoldable pub get_dispatch_func : List CustomCommand → Text → Option Function
get_dispatch_func customs cmd = find_function cmd_dispatch_table customs cmd

-- The call of a function, with the functions of the custom commands as a parameter. The fuel is that
-- of the uploads and of the listings.
unfoldable pub run_function :
    System → (ℕ → Session → Option Session) → ℕ → Function → Session → Option Session
run_function system customs fuel noop s = some (cmd_noop system s)
run_function system customs fuel user s = some (cmd_user system s)
run_function system customs fuel pass s = some (cmd_pass system s)
run_function system customs fuel quit s = some (cmd_quit system s)
run_function system customs fuel syst s = some (cmd_syst system s)
run_function system customs fuel pasv s = some (cmd_pasv system s)
run_function system customs fuel port s = some (cmd_port system s)
run_function system customs fuel list s = cmd_list system fuel s
run_function system customs fuel pwd s = some (cmd_pwd system s)
run_function system customs fuel cwd s = change_cur_path system s
run_function system customs fuel type s = some (cmd_type system s)
run_function system customs fuel cdup s = cmd_cdup system s
run_function system customs fuel retr s = cmd_retr system s
run_function system customs fuel stor s = cmd_stor system fuel s
run_function system customs fuel dele s = some (cmd_dele system s)
run_function system customs fuel rmd s = some (cmd_rmd system s)
run_function system customs fuel mkd s = some (cmd_mkd system s)
run_function system customs fuel rnfr s = cmd_rnfr system s
run_function system customs fuel rnto s = some (cmd_rnto system s)
run_function system customs fuel size s = some (cmd_size system s)
run_function system customs fuel rest s = some (cmd_rest system s)
run_function system customs fuel feat s = some (cmd_feat system s)
run_function system customs fuel opts s = some (cmd_opts system s)
run_function system customs fuel appe s = cmd_appe system fuel s
run_function system customs fuel (custom n) s = customs n s
