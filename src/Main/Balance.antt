-- ===== src/Main/Balance.antt =====
-- What a start and a stop of the plugin leave behind.
use vitacompanion_vitadeck.Prelude.{
  ◌≡◌, ◌⊎◌, Bool, true, false, ◌&&◌, List, [], ◌∷◌, if◌then◌else◌, is_negative, arith,
}
use vitacompanion_vitadeck.Main.{
  Call, pool_init, create_thread, wait_thread, delete_thread, pool_term, System, Plugin, net_start,
  net_end, StartResult, start_success, start_failed, module_start, module_stop,
}

pub data Part : Type 0 where
  pool thread : Part

abbrev drop_last : List Part → List Part
drop_last [] = []
drop_last (p ∷ parts) = parts

-- The parts that are open after the calls, the last opened first.
unfoldable pub open_parts : System → List Call → List Part
open_parts system [] = []
open_parts system (pool_init ∷ calls) =
    let parts = open_parts system calls in
    if is_negative (system calls pool_init) then parts else pool ∷ parts
open_parts system (create_thread ∷ calls) =
    let parts = open_parts system calls in
    if is_negative (system calls create_thread) then parts else thread ∷ parts
open_parts system (delete_thread ∷ calls) = drop_last (open_parts system calls)
open_parts system (pool_term ∷ calls) = drop_last (open_parts system calls)
open_parts system (_ ∷ calls) = open_parts system calls

abbrev is_thread : List Part → Bool
is_thread (thread ∷ parts) = true
is_thread _ = false

abbrev is_pool : List Part → Bool
is_pool (pool ∷ parts) = true
is_pool _ = false

-- A thread is deleted, and the pool given back, when it is what was opened last: so no thread outlives
-- the pool.
unfoldable pub in_order : System → List Call → Bool
unfolding open_parts
in_order system [] = true
in_order system (delete_thread ∷ calls) =
    in_order system calls && is_thread (open_parts system calls)
in_order system (pool_term ∷ calls) = in_order system calls && is_pool (open_parts system calls)
in_order system (_ ∷ calls) = in_order system calls

-- What a plugin without a network thread, and with nothing open, becomes.
abbrev pub Started : System → StartResult × Plugin → Type 0
Started system (result, p) =
    (in_order system p.calls ≡ true)
    × (((result ≡ start_success)
          × ((p.run ≡ true)
              × ((is_negative p.net_thid ≡ false)
                  × (open_parts system p.calls ≡ thread ∷ pool ∷ []))))
        ⊎ ((result ≡ start_failed)
            × ((is_negative p.net_thid ≡ true) × (open_parts system p.calls ≡ []))))

-- From a plugin with nothing open, a start succeeds, and then the pool and the network thread are there
-- and `run` is set, or it fails, and then all that it opened is closed again, in order.
pub module_start-Started :
    (system : System) (p : Plugin)
    → is_negative p.net_thid ≡ true
    → open_parts system p.calls ≡ []
    → in_order system p.calls ≡ true
    → Started system (module_start system p)
unfolding module_start net_start open_parts in_order
module_start-Started system p no_thread nothing ordered = ground arith

-- A stop of a plugin that has started clears `run`, waits for the network thread, deletes it, and gives
-- back the pool last.
pub module_stop-closes :
    (system : System) (p : Plugin)
    → is_negative p.net_thid ≡ false
    → open_parts system p.calls ≡ thread ∷ pool ∷ []
    → in_order system p.calls ≡ true
    → let stopped = module_stop p in
      (stopped.run ≡ false)
      × (open_parts system stopped.calls ≡ [])
      × (in_order system stopped.calls ≡ true)
      × (stopped.calls ≡ pool_term ∷ delete_thread ∷ wait_thread ∷ p.calls)
unfolding module_stop net_end open_parts in_order
module_stop-closes system p there parts ordered = ground arith
