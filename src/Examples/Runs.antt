-- ===== src/Examples/Runs.antt =====
-- Command lines, and the program from one of them to its exit.
use knot_virtualthing.Prelude.{ℕ, pos, negsuc, ◌≡◌, refl, Option, none, some, List, [], ◌∷◌, true}
use knot_virtualthing.Options.{
  LogLevels, Opt, credentials_file, log, settings_load, parse_args, parse_log_level,
  default_settings,
}
use knot_virtualthing.Options.Reference.{described, settings_load-described}
use knot_virtualthing.Main.{
  MainSystem, MainCall, main, main_loaded, main_started, detach_daemon, exit_failure,
}
use knot_virtualthing.Main.Balanced.{IsBalanced, main-IsBalanced}
use knot_virtualthing.Storage.{
  storage_open, make_dirs, make_each, open_at, storage_close, segments, after_slash,
}
use knot_virtualthing.Storage.Access.{
  storage_read_key_string, storage_read_key_int, storage_read_key_number, get_data_item_groups,
  matches_group,
}
use knot_virtualthing.Thing.{lookup_item, device_set_thing_credentials}
use knot_virtualthing.Properties.Load.{
  set_sensor_id, set_schema, set_modbus_source_properties, set_thing_name,
  set_modbus_slave_properties, set_thing_user_token, set_rabbit_mq_url, valid_bit_offset,
}
use knot_virtualthing.Properties.Limits.{get_limit, read_event, set_event}
use knot_virtualthing.Properties.Create.{
  load_item, load_items, set_data_items, device_set_new_data_item, thing_open, set_thing_properties,
  cloud_open, set_cloud_properties, credentials_open, set_thing_credentials,
  properties_create_device,
}
use knot_virtualthing.Poll.{poll_create, add_entry, poll_destroy}
use knot_virtualthing.Modbus.Connect.{
  iface_modbus_start, create_ctx, create_tcp, start_made, start_ctx,
}
use knot_virtualthing.Sm.{sm_start}
use knot_virtualthing.Device.Polling.{create_data_item_polling, create_each}
use knot_virtualthing.Device.Start.{
  Process, device_start, start_created, start_polling, start_modbus, start_cloud,
  knot_thing_destroy,
}
use knot_virtualthing.Examples.Creates.{all_entries}
use knot_virtualthing.Examples.Links.{reachable}
use knot_virtualthing.Examples.Starts.{answering, fresh}

abbrev levels : LogLevels
levels = record { l_log_err = 3; l_log_warning = 4; l_log_info = 6; l_log_debug = 7 }

abbrev options : List Opt
options = log "debug" ∷ credentials_file "a.conf" ∷ credentials_file "b.conf" ∷ []

settings_load-described_example :
    settings_load levels options (pos 0)
    ≡ described levels options (pos 0) (default_settings levels)
settings_load-described_example = settings_load-described levels options (pos 0)

-- The program cannot be detached, and its main loop leaves the process as it is.
abbrev attached : MainSystem (answering (pos 0))
attached = record { l_main_init = true; daemon = negsuc 0; errno = pos 1; l_main_run = λ p. p }

abbrev Outcome : Type 0
Outcome = ℕ × (List MainCall × Process (answering (pos 0)))

abbrev outcome_or_not : Option Outcome → Outcome
outcome_or_not none = (9, ([], fresh (pos 0) all_entries))
outcome_or_not (some r) = r

abbrev outcome : Outcome
outcome = outcome_or_not (
    main (answering (pos 0)) reachable levels attached 0 options (pos 0)
      (fresh (pos 0) all_entries))

main-IsBalanced_example : IsBalanced exit_failure outcome.1.0
unfolding set_sensor_id set_schema set_modbus_source_properties set_thing_name
    set_modbus_slave_properties set_thing_user_token set_rabbit_mq_url valid_bit_offset get_limit
    read_event set_event load_item load_items set_data_items device_set_new_data_item thing_open
    set_thing_properties cloud_open set_cloud_properties credentials_open set_thing_credentials
    properties_create_device storage_open make_dirs make_each open_at storage_close segments
    after_slash storage_read_key_string storage_read_key_int storage_read_key_number
    get_data_item_groups matches_group lookup_item device_set_thing_credentials device_start
    start_created start_polling start_modbus start_cloud create_data_item_polling create_each
    poll_create add_entry sm_start iface_modbus_start create_ctx create_tcp start_made start_ctx
    knot_thing_destroy poll_destroy main main_loaded main_started detach_daemon settings_load
    parse_args parse_log_level
main-IsBalanced_example =
    main-IsBalanced (answering (pos 0)) reachable levels attached 0 options (pos 0)
      (fresh (pos 0) all_entries) exit_failure outcome.1.0 outcome.1.1 refl
