-- ===== src/Main.antt =====
-- src/main.c: the program from its command line to its exit code.
pub mod Balanced
use knot_virtualthing.Prelude.{
  ℕ, ℤ, pos, negsuc, String, Bool, true, false, not, ◌&&◌, Option, none, some, List, [], ◌∷◌, eqb_ℤ,
  ltb_ℤ, is_nonzero, if◌then◌else◌,
}
use knot_virtualthing.Protocol.{Value}
use knot_virtualthing.Storage.{LSettings}
use knot_virtualthing.Thing.{DeviceSettings}
use knot_virtualthing.Modbus.Connect.{ModbusLibrary, negated}
use knot_virtualthing.Device.World.{Outside}
use knot_virtualthing.Device.Start.{Process, device_start, device_destroy}
use knot_virtualthing.Options.{LogLevels, Opt, Settings, settings_load}

abbrev pub exit_success : ℕ
exit_success = 0

abbrev pub exit_failure : ℕ
exit_failure = 1

-- What main calls, the newest first: settings_load and settings_free, l_main_init where it succeeds,
-- l_main_exit, log_enable, the allocation and free_device_settings of the files' paths, device_start
-- with its code, daemon, the main loop and device_destroy.
pub data MainCall : Type 0 where
  settings_new settings_free main_init main_exit : MainCall
  conf_files_new conf_files_free daemon main_run destroy : MainCall
  log_enable start : ℤ → MainCall

-- signal_handler
pub data Signal : Type 0 where
  sigint sigterm other : Signal

-- whether l_main_quit is called
unfoldable pub signal_handler : Signal → Bool
signal_handler sigint = true
signal_handler sigterm = true
signal_handler other = false

-- What the operating system and ell do: whether the main loop can be made, what daemon and errno
-- answer, and the main loop, in which the callbacks of the program run until a signal ends it.
pub record MainSystem {l : LSettings} (o : Outside l) : Type 0 where
  pub l_main_init : Bool
  pub daemon : ℤ
  pub errno : ℤ
  pub l_main_run : Process o → Process o

-- What log_stderr_handler writes before the message; `none` is nothing, and no message.
unfoldable pub log_stderr_handler : LogLevels → ℤ → ℤ → String → Option (List String)
log_stderr_handler levels log_priority priority func =
    if ltb_ℤ log_priority priority
    then none
    else if eqb_ℤ priority (pos levels.l_log_err)
    then some ("ERR: " ∷ func ∷ "() " ∷ [])
    else if eqb_ℤ priority (pos levels.l_log_warning)
    then some ("WARN: " ∷ [])
    else if eqb_ℤ priority (pos levels.l_log_info)
    then some ("INFO: " ∷ [])
    else if eqb_ℤ priority (pos levels.l_log_debug)
    then some ("DEBUG: " ∷ [])
    else none

abbrev pub set_device_settings : Settings → DeviceSettings
set_device_settings settings = record {
  credentials_path = settings.credentials_path;
  device_path = settings.device_path;
  cloud_path = settings.cloud_path;
}

module _ {l : LSettings} {o : Outside l} (sys : MainSystem o) where
  unfoldable pub detach_daemon : ℤ
  detach_daemon = if is_nonzero sys.daemon then negated sys.errno else pos 0

module _ {l : LSettings} (o : Outside l) (lib : ModbusLibrary) (levels : LogLevels)
    (sys : MainSystem o) where
  abbrev pub Outcome : Type 0
  Outcome = ℕ × (List MainCall × Process o)

  -- from settings_free on
  abbrev pub main_loop : List MainCall → Process o → Outcome
  main_loop log p = (
    exit_success,
    (main_exit ∷ destroy ∷ main_run ∷ settings_free ∷ log, device_destroy o lib (sys.l_main_run p)),
  )

  -- device_start has answered.
  unfoldable pub main_started : Settings → ℤ → List MainCall → Process o → Outcome
  unfolding detach_daemon
  main_started settings err log p =
      let freed = conf_files_free ∷ start err ∷ log in
      if is_nonzero err
      then (exit_failure, (conf_files_free ∷ settings_free ∷ main_exit ∷ start err ∷ log, p))
      else if settings.detach && is_nonzero (detach_daemon sys)
      then (exit_failure, (main_exit ∷ settings_free ∷ daemon ∷ freed, p))
      else main_loop (if settings.detach then daemon ∷ freed else freed) p

  -- The settings are loaded; `none` is the end of the program by a copy from NULL in device_start.
  unfoldable pub main_loaded : Value → Settings → Process o → Option Outcome
  unfolding main_started
  main_loaded junk settings p =
      let log = conf_files_new ∷ log_enable settings.log_level ∷ main_init ∷ settings_new ∷ [] in
      if settings.help
      then some (exit_success, (settings_free ∷ settings_new ∷ [], p))
      else if not sys.l_main_init
      then some (exit_failure, (settings_free ∷ settings_new ∷ [], p))
      else elim (device_start o lib junk (set_device_settings settings) p) [
        | none ↦ none
        | some (err, p') ↦ some (main_started settings err log p')
      ]

  unfoldable pub main : Value → List Opt → ℤ → Process o → Option Outcome
  unfolding main_loaded
  main junk opts remaining p = elim (settings_load levels opts remaining) [
    | none ↦ some (exit_failure, (settings_free ∷ settings_new ∷ [], p))
    | some settings ↦ main_loaded junk settings p
  ]
