-- ===== src/Examples/Together.antt =====
-- A process that has started, and the theorem on it and its connection.
use knot_virtualthing.Prelude.{◌≡◌, none, pos, refl, List, [], ◌∷◌}
use knot_virtualthing.Storage.{
  storage_open, make_dirs, make_each, open_at, storage_close, segments, after_slash,
}
use knot_virtualthing.Storage.Access.{
  storage_read_key_string, storage_read_key_int, storage_read_key_number, get_data_item_groups,
  matches_group,
}
use knot_virtualthing.Thing.{lookup_item, device_set_thing_credentials}
use knot_virtualthing.Properties.Load.{
  set_sensor_id, set_schema, set_modbus_source_properties, set_thing_name,
  set_modbus_slave_properties, set_thing_user_token, set_rabbit_mq_url, valid_bit_offset,
}
use knot_virtualthing.Properties.Limits.{get_limit, read_event, set_event}
use knot_virtualthing.Properties.Create.{
  load_item, load_items, set_data_items, device_set_new_data_item, thing_open, set_thing_properties,
  cloud_open, set_cloud_properties, credentials_open, set_thing_credentials,
  properties_create_device,
}
use knot_virtualthing.Poll.{poll_create, add_entry, poll_destroy}
use knot_virtualthing.Modbus.Connect.{
  iface_modbus_start, create_ctx, create_tcp, start_made, start_ctx,
}
use knot_virtualthing.Modbus.Connect.Held.{live_timers}
use knot_virtualthing.Sm.{sm_start}
use knot_virtualthing.Device.Polling.{create_data_item_polling, create_each}
use knot_virtualthing.Device.Start.{
  device_start, start_created, start_polling, start_modbus, start_cloud, knot_thing_destroy,
}
use knot_virtualthing.Device.Session.{cloud_connected, cloud_disconnected}
use knot_virtualthing.Device.Run.{RunStep, timer_ends, lost, elsewhere, run_steps}
use knot_virtualthing.Device.Run.Started.{running, unknown_prefix_never_connects}
use knot_virtualthing.Examples.Files.{thing}
use knot_virtualthing.Examples.Links.{reachable}
use knot_virtualthing.Examples.Starts.{answering, fresh, fresh-IsFresh, started, udp_entries}
use knot_virtualthing.Examples.Values.{floats}

abbrev steps : List RunStep
steps = timer_ends ∷ elsewhere cloud_connected tt ∷ lost ∷ elsewhere cloud_disconnected tt ∷ []

unknown_prefix_never_connects_example :
    let p = (started (pos 0) udp_entries).1 in
    (p.link.modbus_ctx ≡ none)
    × (live_timers p.link.calls ≡ [])
    × ((run_steps (answering (pos 0)) reachable floats steps (running p)).link ≡ p.link)
unfolding set_sensor_id set_schema set_modbus_source_properties set_thing_name
    set_modbus_slave_properties set_thing_user_token set_rabbit_mq_url valid_bit_offset get_limit
    read_event set_event load_item load_items set_data_items device_set_new_data_item thing_open
    set_thing_properties cloud_open set_cloud_properties credentials_open set_thing_credentials
    properties_create_device storage_open make_dirs make_each open_at storage_close segments
    after_slash storage_read_key_string storage_read_key_int storage_read_key_number
    get_data_item_groups matches_group lookup_item device_set_thing_credentials device_start
    start_created start_polling start_modbus start_cloud create_data_item_polling create_each
    poll_create add_entry sm_start iface_modbus_start create_ctx create_tcp start_made start_ctx
    knot_thing_destroy poll_destroy
unknown_prefix_never_connects_example =
    unknown_prefix_never_connects (answering (pos 0)) reachable floats 0 thing.conf_files
      (fresh (pos 0) udp_entries) (started (pos 0) udp_entries).1 steps
      (fresh-IsFresh (pos 0) udp_entries) refl refl refl
