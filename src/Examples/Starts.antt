-- ===== src/Examples/Starts.antt =====
-- Processes that are started.
use knot_virtualthing.Prelude.{
  ◌==◌, if◌then◌else◌, ℤ, pos, negsuc, ◌≡◌, ◌⊎◌, refl, Option, none, some, [], false,
}
use knot_virtualthing.Storage.{
  storage_open, make_dirs, make_each, open_at, storage_close, segments, after_slash, minus, einval,
}
use knot_virtualthing.Storage.Access.{
  storage_read_key_string, storage_read_key_int, storage_read_key_number, get_data_item_groups,
  matches_group,
}
use knot_virtualthing.Thing.{lookup_item, device_set_thing_credentials}
use knot_virtualthing.Properties.Load.{
  set_sensor_id, set_schema, set_modbus_source_properties, set_thing_name,
  set_modbus_slave_properties, set_thing_user_token, set_rabbit_mq_url, valid_bit_offset,
}
use knot_virtualthing.Properties.Limits.{get_limit, read_event, set_event}
use knot_virtualthing.Properties.Create.{
  load_item, load_items, set_data_items, device_set_new_data_item, thing_open, set_thing_properties,
  cloud_open, set_cloud_properties, credentials_open, set_thing_credentials,
  properties_create_device,
}
use knot_virtualthing.Poll.{poll_create, add_entry, poll_destroy}
use knot_virtualthing.Modbus.Connect.{
  iface_modbus_start, create_ctx, create_tcp, start_made, start_ctx,
}
use knot_virtualthing.Modbus.Connect.Held.{live_contexts, is_up}
use knot_virtualthing.Sm.{sm_start, disconnected}
use knot_virtualthing.Device.World.{World, Outside}
use knot_virtualthing.Device.Polling.{create_data_item_polling, create_each}
use knot_virtualthing.Device.Start.{
  Process, device_start, device_destroy, start_created, start_polling, start_modbus, start_cloud,
  knot_thing_destroy,
}
use knot_virtualthing.Device.Start.Failed.{IsFresh, NothingLive, device_start-failed}
use knot_virtualthing.Device.Start.Succeeded.{IsStarted, device_start-IsStarted}
use knot_virtualthing.Device.Start.Destroyed.{device_start-destroy}
use knot_virtualthing.Examples.Settings.{Entries, put, settings, store_with, working}
use knot_virtualthing.Examples.Files.{knot, thing}
use knot_virtualthing.Examples.Creates.{all_entries, blank}
use knot_virtualthing.Examples.Links.{reachable}

abbrev world_of : Entries → World settings
world_of entries = record {
  thing = blank;
  store = store_with entries;
  event = record { sensor_timeouts = none; active = false };
  poll = record { poll_entries = []; active = false };
  conn_mask = 0;
  log = [];
  crashed = false;
}

-- an outside in which the cloud answers `rc`
abbrev pub answering : ℤ → Outside settings
answering rc = record {
  sys = working;
  knot = knot;
  ans = record { timer = λ log. some 7; rc = λ log. rc; random = λ log. 48879 };
  print_hex = λ n. if n == 48879 then "beef" else "0";
}

abbrev pub fresh : (rc : ℤ) → Entries → Process (answering rc)
fresh rc entries = record {
  machine = record { current = disconnected; world = world_of entries };
  link = record {
    connect_to = none;
    modbus_io = none;
    modbus_ctx = none;
    conn_cb = none;
    disconn_cb = none;
    calls = [];
  };
  thing_held = false;
}

pub fresh-IsFresh : (rc : ℤ) (entries : Entries) → IsFresh (fresh rc entries)
fresh-IsFresh rc entries = record {
  no_timers = refl;
  no_polls = refl;
  no_events = refl;
  idle_link = record {
    no_ios = refl;
    no_timers = refl;
    no_contexts = refl;
    no_io = refl;
    no_timer = refl;
  };
  no_links = refl;
}

abbrev start_or_not :
    (rc : ℤ) → Entries → Option (ℤ × Process (answering rc)) → ℤ × Process (answering rc)
start_or_not rc entries none = (pos 9, fresh rc entries)
start_or_not rc entries (some r) = r

abbrev pub started : (rc : ℤ) → Entries → ℤ × Process (answering rc)
started rc entries =
    start_or_not rc entries
      (device_start (answering rc) reachable 0 thing.conf_files (fresh rc entries))

device_start-IsStarted_example : IsStarted thing.conf_files (started (pos 0) all_entries).1
unfolding set_sensor_id set_schema set_modbus_source_properties set_thing_name
    set_modbus_slave_properties set_thing_user_token set_rabbit_mq_url valid_bit_offset get_limit
    read_event set_event load_item load_items set_data_items device_set_new_data_item thing_open
    set_thing_properties cloud_open set_cloud_properties credentials_open set_thing_credentials
    properties_create_device storage_open make_dirs make_each open_at storage_close segments
    after_slash storage_read_key_string storage_read_key_int storage_read_key_number
    get_data_item_groups matches_group lookup_item device_set_thing_credentials device_start
    start_created start_polling start_modbus start_cloud create_data_item_polling create_each
    poll_create add_entry sm_start iface_modbus_start create_ctx create_tcp start_made start_ctx
    knot_thing_destroy poll_destroy
device_start-IsStarted_example =
    device_start-IsStarted (answering (pos 0)) reachable 0 thing.conf_files
      (fresh (pos 0) all_entries) (pos 0) (started (pos 0) all_entries).1
      (fresh-IsFresh (pos 0) all_entries) refl refl

-- the cloud refuses the start
device_start-failed_example :
    NothingLive (started (negsuc 0) all_entries).1
    × (((started (negsuc 0) all_entries).1.thing_held ≡ false) ⊎ (negsuc 0 ≡ minus einval))
unfolding set_sensor_id set_schema set_modbus_source_properties set_thing_name
    set_modbus_slave_properties set_thing_user_token set_rabbit_mq_url valid_bit_offset get_limit
    read_event set_event load_item load_items set_data_items device_set_new_data_item thing_open
    set_thing_properties cloud_open set_cloud_properties credentials_open set_thing_credentials
    properties_create_device storage_open make_dirs make_each open_at storage_close segments
    after_slash storage_read_key_string storage_read_key_int storage_read_key_number
    get_data_item_groups matches_group lookup_item device_set_thing_credentials device_start
    start_created start_polling start_modbus start_cloud create_data_item_polling create_each
    poll_create add_entry sm_start iface_modbus_start create_ctx create_tcp start_made start_ctx
    knot_thing_destroy poll_destroy
device_start-failed_example =
    device_start-failed (answering (negsuc 0)) reachable 0 thing.conf_files
      (fresh (negsuc 0) all_entries) (negsuc 0) (started (negsuc 0) all_entries).1
      (fresh-IsFresh (negsuc 0) all_entries) refl refl

-- an address that src/iface-modbus.c does not know
abbrev pub udp_entries : Entries
udp_entries = put all_entries "KNoTThing" "ModbusURL" "udp://localhost:502"

device_start-destroy_example :
    let p = device_destroy (answering (pos 0)) reachable (started (pos 0) all_entries).1 in
    NothingLive p
    × (live_contexts p.link.calls ≡ [])
    × (is_up p.link.calls ≡ false)
    × (p.thing_held ≡ false)
unfolding set_sensor_id set_schema set_modbus_source_properties set_thing_name
    set_modbus_slave_properties set_thing_user_token set_rabbit_mq_url valid_bit_offset get_limit
    read_event set_event load_item load_items set_data_items device_set_new_data_item thing_open
    set_thing_properties cloud_open set_cloud_properties credentials_open set_thing_credentials
    properties_create_device storage_open make_dirs make_each open_at storage_close segments
    after_slash storage_read_key_string storage_read_key_int storage_read_key_number
    get_data_item_groups matches_group lookup_item device_set_thing_credentials device_start
    start_created start_polling start_modbus start_cloud create_data_item_polling create_each
    poll_create add_entry sm_start iface_modbus_start create_ctx create_tcp start_made start_ctx
    knot_thing_destroy poll_destroy
device_start-destroy_example =
    device_start-destroy (answering (pos 0)) reachable 0 thing.conf_files
      (fresh (pos 0) all_entries) (started (pos 0) all_entries).1
      (fresh-IsFresh (pos 0) all_entries) refl
