-- ===== src/Examples/Files.antt =====
-- Files of settings, with the theorems on what is left in them.
use knot_virtualthing.Prelude.{
  is_neg, fd_of, false, ℤ, pos, ◌≡◌, refl, none, some, [], ◌∷◌, ◌++◌, ◌==◌, if◌then◌else◌,
}
use knot_virtualthing.Protocol.{int, Knot}
use knot_virtualthing.Storage.{storage_open, Store, System, save_settings}
use knot_virtualthing.Storage.Access.{
  matches_group, change, storage_write_key_string, check_groups, get_data_item_groups,
  storage_write_key_int,
}
use knot_virtualthing.Storage.Access.Groups.{last_group_decides, write_after_groups_loses}
use knot_virtualthing.Properties.Credentials.{properties_store_credentials}
use knot_virtualthing.Properties.Credentials.Stored.{store_credentials_kept, KeepsCredentials}
use knot_virtualthing.Properties.Credentials.{properties_clear_credentials}
use knot_virtualthing.Properties.Credentials.Cleared.{clear_credentials_cleared}
use knot_virtualthing.Properties.Update.{update_event_data_item}
use knot_virtualthing.Properties.Update.Kept.{update_event_kept}
use knot_virtualthing.Storage.Access.{storage_has_unit}
use knot_virtualthing.Protocol.{KnotEvent}
use knot_virtualthing.Thing.{Thing, device_clear_thing_id, device_clear_thing_token}
use knot_virtualthing.Examples.Settings.{
  Entries, no_entries, put, settings, settings-SettingsLaws, working, store_with,
}

abbrev pub knot : Knot
knot = record {
  token_len = 36;
  uuid_len = 36;
  data_name_len = 64;
  device_name_len = 64;
  value_type = λ t. int;
  to_time_sec = λ n. if is_neg n then 0 else fd_of n;
  assign_limit = λ t v old. v;
  to_value_type = λ n. n;
  to_unit = λ n. n;
  to_type_id = λ n. n;
  schema_is_valid = λ a b c. pos 0;
  event_is_valid = λ f t s a b. pos 0;
}

abbrev thing_entries : Entries
thing_entries = put (put no_entries "DataItem_0" "SchemaSensorId" "0") "KNoTThing" "Name" "pump"

-- descriptor 5 is open on the file of a thing
abbrev opened : Store settings
opened = record (store_with thing_entries) {
  storage_list = λ fd. some thing_entries;
  open_files = λ fd. some "thing.conf";
}

-- the second call, pwrite, fails
abbrev full_disk : System
full_disk = record working { errno = λ n. if n == 1 then 28 else 0 }

-- a name that get_data_item_groups refuses stands before one that it accepts
abbrev odd_entries : Entries
odd_entries = record no_entries { groups = "DataItem_x" ∷ "DataItem_0" ∷ [] }

abbrev odd : Store settings
odd = record opened { storage_list = λ fd. some odd_entries }

last_group_decides_example :
    (get_data_item_groups settings 5 odd).0
    ≡ some (
        settings.get_groups
          (check_groups settings (("DataItem_x" ∷ []) ++ "DataItem_0" ∷ []) (pos 0) odd_entries).1)
unfolding matches_group
last_group_decides_example =
    last_group_decides settings 5 odd odd_entries ("DataItem_x" ∷ []) "DataItem_0" refl refl refl
      refl

write_after_groups_loses_example :
    settings.get_string
      (settings.load (
        (storage_write_key_int settings working 5 "DataItem_0" "EventTimeSec"
            (pos 9)
            (get_data_item_groups settings 5 opened).1).1.files
          "thing.conf"))
      "KNoTThing"
      "Name"
    ≡ none
unfolding storage_write_key_int get_data_item_groups change save_settings
write_after_groups_loses_example =
    write_after_groups_loses settings settings-SettingsLaws working 5 opened thing_entries
      "thing.conf" "KNoTThing" "Name" "DataItem_0" "EventTimeSec" (pos 9) refl refl refl refl refl
      refl

abbrev credentials : ℤ × Store settings
credentials =
    properties_store_credentials settings working knot "credentials.conf" "1f" "token"
      (store_with no_entries)

store_credentials_kept_example :
    KeepsCredentials settings (credentials.1.files "credentials.conf") "1f" "token"
unfolding properties_store_credentials storage_open storage_write_key_string change save_settings
store_credentials_kept_example =
    store_credentials_kept settings settings-SettingsLaws working knot "credentials.conf" "1f"
      "token" (store_with no_entries) refl

abbrev pub thing : Thing
thing = record {
  token = "secret";
  id = "1f";
  name = "pump";
  user_token = "user";
  modbus_slave_id = pos 1;
  modbus_slave_url = "tcp://localhost:502";
  rabbitmq_url = "amqp://localhost";
  conf_files = record {
    credentials_path = "credentials.conf";
    device_path = "thing.conf";
    cloud_path = "cloud.conf";
  };
  data_items = [];
  msg_to = none;
}

abbrev forgotten : ℤ × Thing × Store settings
forgotten = properties_clear_credentials settings working "credentials.conf" (thing, credentials.1)

clear_credentials_cleared_example :
    KeepsCredentials settings (forgotten.2.files "credentials.conf") "" ""
    × (forgotten.1 ≡ device_clear_thing_id (device_clear_thing_token thing))
unfolding properties_clear_credentials properties_store_credentials storage_open
    storage_write_key_string change save_settings
clear_credentials_cleared_example =
    clear_credentials_cleared settings settings-SettingsLaws working "credentials.conf" thing
      credentials.1 refl

-- a data item with all keys of an event
abbrev watched_entries : Entries
watched_entries =
    put
      (put (put (put thing_entries "DataItem_0" "EventTimeSec" "30") "DataItem_0" "EventChange" "1")
        "DataItem_0" "EventLowerThreshold" "10")
      "DataItem_0" "EventUpperThreshold" "50"

abbrev watched_store : Store settings
watched_store = record opened { storage_list = λ fd. some watched_entries }

abbrev no_event : KnotEvent
no_event = record {
  event_flags = record {
    time = false;
    change = false;
    lower_threshold = false;
    upper_threshold = false;
    unregistered = false;
  };
  time_sec = 0;
  lower_limit = 0;
  upper_limit = 0;
}

update_event_kept_example :
    update_event_data_item settings working 5 "DataItem_0" int no_event watched_store
    ≡ (pos 0, watched_store)
unfolding storage_has_unit
update_event_kept_example =
    update_event_kept settings working 5 "DataItem_0" int no_event watched_store
      (refl, (refl, (refl, (refl, tt)))) refl refl refl refl
