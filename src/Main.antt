-- ===== src/Main.antt =====
-- src/main.c, and `net_start` and `net_end` of src/net.c: the start and the stop of the plugin. The
-- calls are recorded, the latest first.
pub mod Balance
pub mod Tests
use vitacompanion_vitadeck.Prelude.{
  Bool, true, false, List, [], ◌∷◌, if◌then◌else◌, ℤ, pos, negsuc, is_negative,
}

pub data Call : Type 0 where
  pool_init create_thread start_thread wait_thread delete_thread pool_term : Call

abbrev pub System : Type 0
System = List Call → Call → ℤ

-- `run` and `net_thid`, and the calls made.
pub record Plugin : Type 0 where
  pub run : Bool
  pub net_thid : ℤ
  pub calls : List Call

abbrev pub make : Call → Plugin → Plugin
make call p = record p { calls = call ∷ p.calls }

-- From the created thread on.
abbrev pub run_thread : System → Plugin → ℤ × Plugin
run_thread system p =
    let ret = system p.calls start_thread in
    let p = make start_thread p in
    if is_negative ret
    then (ret, record (make delete_thread p) { net_thid = negsuc 0 })
    else (ret, p)

-- From the test of `net_thid` on.
abbrev pub create_net_thread : System → Plugin → ℤ × Plugin
create_net_thread system p =
    let thid = system p.calls create_thread in
    let p = record (make create_thread p) { net_thid = thid } in
    if is_negative thid then (thid, p) else run_thread system p

pub net_start : System → Plugin → ℤ × Plugin
net_start system p = if is_negative p.net_thid then create_net_thread system p else (pos 0, p)

pub net_end : Plugin → Plugin
net_end p =
    if is_negative p.net_thid
    then p
    else record (make delete_thread (make wait_thread p)) { net_thid = negsuc 0 }

pub data StartResult : Type 0 where
  start_success start_failed : StartResult

-- From the pool on.
abbrev pub start_net : System → Plugin → StartResult × Plugin
start_net system p =
    let (ret, p) = net_start system (record p { run = true }) in
    if is_negative ret
    then (start_failed, make pool_term (record p { run = false }))
    else (start_success, p)

pub module_start : System → Plugin → StartResult × Plugin
module_start system p =
    let ret = system p.calls pool_init in
    let p = make pool_init p in if is_negative ret then (start_failed, p) else start_net system p

pub module_stop : Plugin → Plugin
module_stop p = make pool_term (net_end (record p { run = false }))
