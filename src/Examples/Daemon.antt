-- ===== src/Examples/Daemon.antt =====
-- The theorems on the daemon's options at concrete inputs.
use sricd.Base.{◌≡◌, true, false, [], ◌∷◌, none, some}
use sricd.Daemon.{
  Settings, initial, default_serial_dev, set_options, restart_options, handle_sigterm, wlog_writes,
  wlog_debug_writes,
}
use sricd.Daemon.Options.{set_options-restart_options}

abbrev some_settings : Settings
some_settings = record initial {
  socket_path = 47 ∷ 115 ∷ [];
  sdev_path = 47 ∷ 97 ∷ [];
  log_enable = true;
  log_level = 2;
}

set_options-restart_options_example :
    (s' : Settings) × (set_options (restart_options some_settings) initial ≡ some s')
    × (s'.fg ≡ true)
    × (s'.socket_path ≡ 47 ∷ 115 ∷ [])
    × (wlog_writes s' ≡ wlog_writes some_settings)
    × (wlog_debug_writes s' ≡ false)
    × (s'.sdev_path ≡ default_serial_dev)
    × (s'.pid_path ≡ none)
    × (handle_sigterm s' ≡ none)
set_options-restart_options_example = set_options-restart_options some_settings
