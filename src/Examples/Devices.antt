-- ===== src/Examples/Devices.antt =====
-- A thing with one sensor, and sessions of it.
use knot_virtualthing.Thing.Calls.{Answers, Log}
use knot_virtualthing.Poll.{PollState}
use knot_virtualthing.Prelude.{
  ◌==◌, if◌then◌else◌, pos, true, false, ◌≡◌, refl, none, some, List, [], ◌∷◌, inl, inr,
}
use knot_virtualthing.Thing.{Thing, DataItem}
use knot_virtualthing.Storage.{storage_open, make_dirs, make_each, open_at, segments, after_slash}
use knot_virtualthing.Storage.Access.{get_data_item_groups, check_groups}
use knot_virtualthing.Properties.Update.{properties_update_data_item, update_open, update_groups}
use knot_virtualthing.Event.Sensors.{event_start, event_add_data_item, event_stop, remove_all}
use knot_virtualthing.Sm.{
  sm_input_event, get_next, get_next_disconnected, get_next_auth, get_next_config, get_next_online,
  first_state, enter, disconnected, online, unregister, ready, unreg_req,
}
use knot_virtualthing.Device.World.{
  World, Outside, null, sensor_ids, configs, device_start_event, device_has_thing_token,
  device_start_read_cloud, device_send_auth_request, device_send_config, device_check_schema_change,
  device_msg_timeout_create, device_msg_timeout_remove, device_publish_data_all, publish_items,
  on_publish_data, device_publish_data_list, publish_each, add_items, device_stop_event,
}
use knot_virtualthing.Device.Safe.{session_safe}
use knot_virtualthing.Device.Handlers.{
  on_cloud_connected, on_modbus_connected, on_cloud_receive, receive, set_conn_bitmask, config_msg,
  modbus, request_msg, conn_handler, input, Program, auth_msg, CloudMsg,
}
use knot_virtualthing.Device.Session.{
  Callback, callback, session, cloud_connected, modbus_connected, cloud_disconnected, msg_timeout,
  cloud_receive, event_timeout,
}
use knot_virtualthing.Device.Feeds.{published}
use knot_virtualthing.Device.Invariant.{
  TimersAt, Grants, session-TimersAt, session-unregister, session_quiet,
}
use knot_virtualthing.Device.Links.{Links, conn_handler_lem}
use knot_virtualthing.Device.Up.{IsUp, session-IsUp}
use knot_virtualthing.Poll.{poll_destroy, poll_start, start_timers}
use knot_virtualthing.Poll.Timers.{Step, create, start, stop, steps, live, poll_destroy-steps}
use knot_virtualthing.Modbus.Read.{Slave, iface_modbus_read_data}
use knot_virtualthing.Event.Compare.{
  event_check_value, is_lower_than_threshold, is_higher_than_threshold,
}
use knot_virtualthing.Thing.{lookup_item}
use knot_virtualthing.Thing.Calls.{cloud_publish}
use knot_virtualthing.Device.Handlers.{on_modbus_poll_receive}
use knot_virtualthing.Device.Publish.{poll_publishes}
use knot_virtualthing.Device.Leak.{removed, unregister_leaks}
use knot_virtualthing.Examples.Settings.{settings, working, no_entries, store_with}
use knot_virtualthing.Examples.Files.{knot}
use knot_virtualthing.Examples.Values.{floats, watched}

abbrev sensor : DataItem
sensor = record {
  sensor_id = pos 1;
  schema = record { value_type = pos 1; unit = pos 0; type_id = pos 0; name = "level" };
  event = record watched {
    event_flags = record watched.event_flags { time = true };
    time_sec = 30;
  };
  current_val = 20;
  sent_val = 20;
  modbus_source = record { reg_addr = pos 2; bit_offset = pos 16; endianness_type_sensor = pos 1 };
}

abbrev thing : Thing
thing = record {
  token = "secret";
  id = "1f";
  name = "pump";
  user_token = "user";
  modbus_slave_id = pos 1;
  modbus_slave_url = "tcp://localhost:502";
  rabbitmq_url = "amqp://localhost";
  conf_files = record {
    credentials_path = "credentials.conf";
    device_path = "thing.conf";
    cloud_path = "cloud.conf";
  };
  data_items = sensor ∷ [];
  msg_to = none;
}

abbrev world : World settings
world = record {
  thing = thing;
  store = store_with no_entries;
  event = record { sensor_timeouts = none; active = false };
  poll = record { poll_entries = []; active = false };
  conn_mask = 0;
  log = [];
  crashed = false;
}

abbrev outside : Outside settings
outside = record {
  sys = working;
  knot = knot;
  ans = record { timer = λ log. some 7; rc = λ log. pos 0; random = λ log. 48879 };
  print_hex = λ n. if n == 48879 then "beef" else "0";
}

abbrev idle : Program outside
idle = record { current = disconnected; world = world }

abbrev granted : CloudMsg
granted = record { msg_type = auth_msg; error = false; msg_token = none; list = null }

abbrev day : List Callback
day =
    cloud_connected
    ∷ modbus_connected
    ∷ msg_timeout
    ∷ cloud_receive granted
    ∷ event_timeout (pos 1)
    ∷ cloud_disconnected
    ∷ []

session-TimersAt_example :
    TimersAt (session outside floats day idle).current (session outside floats day idle).world
session-TimersAt_example =
    session-TimersAt outside floats (λ log. tt) day idle ((refl, refl), (tt, tt))

abbrev locked : List Callback
locked = cloud_connected ∷ modbus_connected ∷ msg_timeout ∷ event_timeout (pos 1) ∷ []

no_grant : ¬ Grants locked
no_grant (inl n) = n
no_grant (inr (inl n)) = n
no_grant (inr (inr (inl n))) = n
no_grant (inr (inr (inr (inl n)))) = n
no_grant (inr (inr (inr (inr n)))) = n

session_quiet_example : published (session outside floats locked idle).world.log ≡ []
session_quiet_example = session_quiet outside floats locked idle refl no_grant

abbrev gone : Program outside
gone = record { current = unregister; world = world }

session-unregister_example : (session outside floats day gone).current ≡ unregister
session-unregister_example = session-unregister outside floats day gone refl

abbrev links : Links
links = record { cloud_up = true; modbus_up = false }

abbrev cloud_only : Program outside
cloud_only = record { current = disconnected; world = record world { conn_mask = 0xf0 } }

conn_handler_lem_example :
    conn_handler outside modbus true cloud_only
    ≡ input outside ready null
        (record { current = disconnected; world = record world { conn_mask = 0xff } })
conn_handler_lem_example = conn_handler_lem outside modbus true links cloud_only refl

unregister_leaks_example :
    ((input outside unreg_req null (record { current = online; world = world })).world.event
      ≡ world.event)
    × ((device_start_event outside (record world {
      event = record world.event { sensor_timeouts = some (some 3 ∷ []) };
    })).1.event
        ≡ (device_start_event outside world).1.event)
    × (removed (device_start_event outside world).1.log ≡ [])
unregister_leaks_example = unregister_leaks outside null world (some (some 3 ∷ []))

session-IsUp_example : IsUp outside (session outside floats day idle)
session-IsUp_example = session-IsUp outside floats day idle (λ k. cc)

-- no pollings yet
abbrev no_polls : Log × PollState
no_polls = ([], record { poll_entries = []; active = false })

abbrev two_polls : List Step
two_polls = create 1 (pos 1) ∷ start ∷ create 1 (pos 2) ∷ stop ∷ []

poll_destroy-steps_example : live (poll_destroy (steps outside.ans two_polls no_polls)).0 ≡ []
poll_destroy-steps_example = poll_destroy-steps outside.ans two_polls no_polls refl

-- timers that can never be made
abbrev no_timers : Answers
no_timers = record outside.ans { timer = λ log. none }

-- the register holds 60, above the upper limit
abbrev hot : Slave
hot = record {
  read_input_bits = λ addr n. (pos 0, []);
  read_registers = λ addr n. (pos 1, 60);
  errno = 0;
}

abbrev working_thing : World settings
working_thing = record world { event = record { sensor_timeouts = some []; active = true } }

abbrev polled_world : World settings
polled_world =
    (on_modbus_poll_receive outside floats hot (pos 1)
      (record { current = online; world = working_thing })).1.world

poll_publishes_example :
    (published polled_world.log ≡ cloud_publish "1f" (pos 1) (pos 1) 60 ∷ [])
    × (lookup_item (pos 1) polled_world.thing.data_items
        ≡ some (record sensor { current_val = 60; sent_val = 60 }))
unfolding lookup_item iface_modbus_read_data event_check_value is_lower_than_threshold
    is_higher_than_threshold
poll_publishes_example =
    poll_publishes outside floats hot (pos 1) sensor working_thing (pos 1) 60 refl refl refl

-- the cloud asks for the value of the sensor
abbrev asked : CloudMsg
asked = record {
  msg_type = request_msg;
  error = false;
  msg_token = none;
  list = sensor_ids (pos 1 ∷ []);
}

-- the configuration of the sensor, as the cloud confirms or changes it
abbrev configured : CloudMsg
configured = record {
  msg_type = config_msg;
  error = false;
  msg_token = none;
  list =
      configs (
        record { sensor_id = sensor.sensor_id; schema = sensor.schema; event = sensor.event } ∷ []);
}

-- The thing comes online, publishes what the cloud asks for, and its configuration changes.
abbrev busy : List Callback
busy =
    cloud_connected
    ∷ modbus_connected
    ∷ cloud_receive granted
    ∷ cloud_receive configured
    ∷ cloud_receive asked
    ∷ cloud_receive configured
    ∷ []

session_safe_example : (session outside floats busy idle).world.crashed ≡ false
unfolding callback on_cloud_connected on_modbus_connected on_cloud_receive receive conn_handler
    set_conn_bitmask poll_start start_timers sm_input_event get_next get_next_disconnected
    get_next_auth get_next_config get_next_online first_state enter device_has_thing_token
    device_start_read_cloud device_send_auth_request device_send_config device_check_schema_change
    device_msg_timeout_create device_msg_timeout_remove device_publish_data_all publish_items
    on_publish_data device_publish_data_list publish_each lookup_item device_start_event add_items
    event_start event_add_data_item device_stop_event event_stop remove_all
    properties_update_data_item update_open update_groups storage_open make_dirs make_each open_at
    segments after_slash get_data_item_groups check_groups
session_safe_example =
    session_safe outside floats busy idle (tt, (tt, (tt, (tt, (tt, ((((_, refl), tt), tt)))))))
