-- ===== src/Cmd/Os.antt =====
-- What the commands call of the system, and of the other parts of the plugin: parameters of the
-- command server. An operation gets the state of the world, and returns its result and the state
-- behind it; results that the code drops are left out.
use vitacompanion_vitadeck.Prelude.{ℕ, ℤ, Text, Bool}

-- `ftpvita_*` as src/cmd_definitions.c uses it.
pub record FtpControl (W : Type 0) : Type 0 where
  pub active_client_count : W → ℤ × W
  pub has_active_transfer : W → ℤ × W
  pub is_reboot_quiesced : W → ℤ × W
  pub timeout_failure_count : W → ℤ × W
  pub abort_clients : W → ℤ × W
  pub prepare_for_reboot : W → Bool × ℤ × ℤ × W
  pub cancel_reboot : W → W

-- What `taiGetModuleInfo` and `sceKernelGetModuleInfo` tell.
pub record ShellModule : Type 0 where
  pub module_nid : ℕ
  pub modid : ℤ

pub record SegmentInfo : Type 0 where
  pub memsz : ℕ
  pub vaddr : ℕ

pub record Os (W : Type 0) : Type 0 where
  pub ftp : FtpControl W
  -- `install_vpk`, with the title ID that it leaves in its 12 bytes
  pub install_vpk : Text → W → ℤ × Text × W
  pub destroy_app_by_name : Text → W → ℤ × W
  pub destroy_other_app : W → W
  pub app_id_active : W → ℤ × W
  pub process_id : ℤ → W → ℤ × W
  pub name_by_id : ℤ → Text → W → ℤ × Text × W
  pub launch_app_by_uri : Text → W → ℤ × W
  pub delay_thread : ℕ → W → W
  pub request_cold_reset : W → ℤ × W
  pub display_on : W → W
  pub display_off : W → W
  pub battery_percent : W → ℤ × W
  pub is_battery_charging : W → ℤ × W
  pub shell_module : W → ℤ × ShellModule × W
  pub kernel_module_segment : ℤ → ℕ → W → ℤ × SegmentInfo × W
  pub call_shell_shot : ℕ → W → ℤ × W
  -- SCE_APPMGR_MAX_APP_NAME_LENGTH and SCE_APPMGR_ERROR_INVALID
  pub max_app_name_length : ℕ
  pub error_invalid : ℤ
  -- the command socket
  pub recv : ℤ → ℕ → W → ℤ × Text × W
  pub send : ℤ → Text → W → ℤ × W
  pub set_send_timeout : ℤ → W → ℤ × W
  pub set_receive_timeout : ℤ → W → ℤ × W
