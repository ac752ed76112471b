-- ===== src/Device/World.antt =====
-- src/device.c: the state of the program, and the functions of src/device.h that the state machine
-- calls.
use knot_virtualthing.Prelude.{
  ℕ, ◌%◌, ◌^◌, ℤ, pos, negsuc, String, Bool, true, Option, none, some, List, [], ◌∷◌, is_neg,
  str_eq, strncpy, if◌then◌else◌,
}
use knot_virtualthing.Protocol.{Config, Knot}
use knot_virtualthing.Storage.{LSettings, System, Store}
use knot_virtualthing.Thing.{Thing, DataItem, lookup_item}
use knot_virtualthing.Thing.Calls.{
  Call, Log, Answers, on_msg_timeout, timeout_create, timeout_modify, timeout_remove,
  cloud_read_start, cloud_register, cloud_auth, cloud_update_config, cloud_publish, getrandom,
}
use knot_virtualthing.Event.Sensors.{EventState, event_start, event_stop, event_add_data_item}
use knot_virtualthing.Poll.{PollState}
use knot_virtualthing.Properties.Credentials.{
  properties_store_credentials, properties_clear_credentials,
}
use knot_virtualthing.Properties.Update.{properties_update_data_item}
use knot_virtualthing.Sm.{Device}

-- What `void *user_data` points to: nothing, a token (or NULL for it), a queue of sensor ids, or a
-- queue of configurations.
pub data UserData : Type 0 where
  null : UserData
  token : Option String → UserData
  sensor_ids : List ℤ → UserData
  configs : List Config → UserData

-- All state of the program but that of the machine. `crashed` is set where the code reads through a
-- NULL pointer or through a pointer of another type than it takes it for.
pub record World (l : LSettings) : Type 0 where
  pub thing : Thing
  pub store : Store l
  pub event : EventState
  pub poll : PollState
  pub conn_mask : ℕ
  pub log : Log
  pub crashed : Bool

-- What the program takes from outside the repository.
pub record Outside (l : LSettings) : Type 0 where
  pub sys : System
  pub knot : Knot
  pub ans : Answers
  -- sprintf with "%PRIx64"
  pub print_hex : ℕ → String

module _ {l : LSettings} (o : Outside l) where
  abbrev pub crash : World l → World l
  crash w = record w { crashed = true }

  -- A call of the cloud library: its return code, with the call in the log.
  abbrev pub say : Call → World l → ℤ × World l
  say c w = (o.ans.rc (c ∷ w.log), record w { log = c ∷ w.log })

  unfoldable pub device_has_thing_token : World l → ℤ
  device_has_thing_token w = if str_eq w.thing.token "" then pos 0 else pos 1

  unfoldable pub device_generate_thing_id : World l → World l
  device_generate_thing_id w =
      let r = o.ans.random w.log % 2 ^ 64 in
      record w { thing = record w.thing { id = o.print_hex r }; log = getrandom r ∷ w.log }

  unfoldable pub device_start_read_cloud : World l → ℤ × World l
  device_start_read_cloud w = say (cloud_read_start w.thing.id) w

  unfoldable pub device_store_credentials_on_file : UserData → World l → ℤ × World l
  device_store_credentials_on_file (token (some t)) w =
      let (rc, store') =
        properties_store_credentials l o.sys o.knot w.thing.conf_files.credentials_path w.thing.id t
          w.store in
      if is_neg rc then (negsuc 0, record w { store = store' }) else (
        pos 0,
        record w { store = store'; thing = record w.thing { token = strncpy o.knot.token_len t } },
      )
  device_store_credentials_on_file _ w = (negsuc 0, crash w)

  unfoldable pub device_clear_credentials_on_file : World l → ℤ × World l
  device_clear_credentials_on_file w =
      let (rc, thing', store') =
        properties_clear_credentials l o.sys w.thing.conf_files.credentials_path
          (w.thing, w.store) in
      (rc, record w { thing = thing'; store = store' })

  -- l_hashmap_foreach with foreach_event_add_data_item
  unfoldable pub add_items : List DataItem → Log × EventState → Log × EventState
  add_items [] le = le
  add_items (i ∷ items) le = add_items items (event_add_data_item o.ans i.sensor_id i.event le)

  unfoldable pub device_start_event : World l → ℤ × World l
  device_start_event w =
      let (rc, event1) = event_start w.event in
      let (log', event2) = add_items w.thing.data_items (w.log, event1) in
      if is_neg rc
      then (rc, record w { event = event1 })
      else (pos 0, record w { event = event2; log = log' })

  unfoldable pub device_stop_event : World l → World l
  device_stop_event w =
      let (log', event') = event_stop (w.log, w.event) in record w { event = event'; log = log' }

  -- foreach_update_config, whose result l_queue_foreach does not read
  unfoldable pub update_config_item : Config → World l → World l
  update_config_item config w =
      elim (properties_update_data_item l o.sys o.knot w.thing.conf_files.device_path config
        (w.thing, w.store)) [
          | none ↦ crash w
          | some (rc, thing', store') ↦ record w { thing = thing'; store = store' }
        ]

  unfoldable pub update_config_items : List Config → World l → World l
  update_config_items [] w = w
  update_config_items (c ∷ cs) w = update_config_items cs (update_config_item c w)

  -- A queue that is NULL has no items.
  unfoldable pub device_update_config : UserData → World l → ℤ × World l
  device_update_config (configs cs) w =
      (pos 0, (device_start_event (update_config_items cs (device_stop_event w))).1)
  device_update_config null w = (pos 0, (device_start_event (device_stop_event w)).1)
  device_update_config _ w = (pos 0, crash w)

  unfoldable pub device_check_schema_change : World l → ℤ × World l
  device_check_schema_change w = (pos 1, w)

  unfoldable pub device_send_register_request : World l → ℤ × World l
  device_send_register_request w = say (cloud_register w.thing.id w.thing.name) w

  unfoldable pub device_send_auth_request : World l → ℤ × World l
  device_send_auth_request w = say (cloud_auth w.thing.id w.thing.token) w

  -- foreach_send_config, which pushes to the head of the queue
  abbrev pub config_queue : List DataItem → List Config → List Config
  config_queue [] q = q
  config_queue (i ∷ items) q =
      config_queue items
        (record { sensor_id = i.sensor_id; schema = i.schema; event = i.event } ∷ q)

  unfoldable pub device_send_config : World l → ℤ × World l
  device_send_config w = say (cloud_update_config w.thing.id (config_queue w.thing.data_items [])) w

  -- on_publish_data for the item that the lookup found
  abbrev pub publish_item : Option DataItem → World l → World l
  publish_item none w = w
  publish_item (some i) w =
      (say (cloud_publish w.thing.id i.sensor_id i.schema.value_type i.current_val) w).1

  unfoldable pub on_publish_data : ℤ → World l → World l
  on_publish_data sensor_id w = publish_item (lookup_item sensor_id w.thing.data_items) w

  unfoldable pub publish_each : List ℤ → World l → World l
  publish_each [] w = w
  publish_each (id ∷ ids) w = publish_each ids (on_publish_data id w)

  unfoldable pub device_publish_data_list : UserData → World l → World l
  device_publish_data_list (sensor_ids ids) w = publish_each ids w
  device_publish_data_list null w = w
  device_publish_data_list _ w = crash w

  unfoldable pub publish_items : List DataItem → World l → World l
  publish_items [] w = w
  publish_items (i ∷ items) w = publish_items items (on_publish_data i.sensor_id w)

  unfoldable pub device_publish_data_all : World l → World l
  device_publish_data_all w = publish_items w.thing.data_items w

  unfoldable pub device_msg_timeout_create : ℕ → World l → World l
  device_msg_timeout_create seconds w = elim w.thing.msg_to [
    | some to ↦ w
    | none ↦ record w {
      thing = record w.thing { msg_to = o.ans.timer w.log };
      log = timeout_create seconds on_msg_timeout (o.ans.timer w.log) ∷ w.log;
    }
  ]

  unfoldable pub device_msg_timeout_modify : ℕ → World l → World l
  device_msg_timeout_modify seconds w = record w {
    log = timeout_modify w.thing.msg_to seconds ∷ w.log;
  }

  unfoldable pub device_msg_timeout_remove : World l → World l
  device_msg_timeout_remove w = record w {
    log = timeout_remove w.thing.msg_to ∷ w.log;
    thing = record w.thing { msg_to = none };
  }

  -- The functions of src/device.h, as the state machine calls them.
  abbrev pub device : Device (World l) UserData
  device = record {
    has_thing_token = device_has_thing_token;
    generate_thing_id = device_generate_thing_id;
    start_read_cloud = device_start_read_cloud;
    store_credentials_on_file = device_store_credentials_on_file;
    clear_credentials_on_file = device_clear_credentials_on_file;
    check_schema_change = device_check_schema_change;
    send_register_request = device_send_register_request;
    send_auth_request = device_send_auth_request;
    send_config = device_send_config;
    publish_data_list = device_publish_data_list;
    publish_data_all = device_publish_data_all;
    start_event = device_start_event;
    stop_event = device_stop_event;
    update_config = device_update_config;
    msg_timeout_create = device_msg_timeout_create;
    msg_timeout_modify = device_msg_timeout_modify;
    msg_timeout_remove = device_msg_timeout_remove;
  }
