-- ===== src/Main/Tests.antt =====
-- A start of the plugin whose thread cannot be started, and a stop.
use vitacompanion_vitadeck.Prelude.{refl, true, false, [], ◌∷◌, pos, negsuc}
use vitacompanion_vitadeck.Main.{
  pool_init, create_thread, start_thread, System, Plugin, module_start,
}
use vitacompanion_vitadeck.Main.Balance.{open_parts, in_order, Started, module_start-Started}

abbrev stuck_thread : System
stuck_thread calls create_thread = pos 6
stuck_thread calls start_thread = negsuc 0
stuck_thread calls _ = pos 0

abbrev loaded_plugin : Plugin
loaded_plugin = record { run = false; net_thid = negsuc 0; calls = [] }

module_start-Started_example : Started stuck_thread (module_start stuck_thread loaded_plugin)
module_start-Started_example =
    module_start-Started stuck_thread loaded_plugin refl (unfold open_parts in refl)
      (unfold in_order in refl)

abbrev running_plugin : Plugin
running_plugin = record {
  run = true;
  net_thid = pos 6;
  calls = start_thread ∷ create_thread ∷ pool_init ∷ [];
}
