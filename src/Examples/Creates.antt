-- ===== src/Examples/Creates.antt =====
-- A device that is created from three files.
use knot_virtualthing.Prelude.{ℤ, pos, refl, Option, none, some}
use knot_virtualthing.Storage.{
  Store, storage_open, make_dirs, make_each, open_at, storage_close, segments, after_slash,
}
use knot_virtualthing.Storage.Access.{
  storage_read_key_string, storage_read_key_int, storage_read_key_number, get_data_item_groups,
  matches_group,
}
use knot_virtualthing.Thing.{Thing, lookup_item, device_set_thing_credentials}
use knot_virtualthing.Properties.Load.{
  set_sensor_id, set_schema, set_modbus_source_properties, set_thing_name,
  set_modbus_slave_properties, set_thing_user_token, set_rabbit_mq_url, valid_bit_offset,
}
use knot_virtualthing.Properties.Limits.{get_limit, read_event, set_event}
use knot_virtualthing.Properties.Create.{
  load_item, load_items, set_data_items, device_set_new_data_item, thing_open, set_thing_properties,
  cloud_open, set_cloud_properties, credentials_open, set_thing_credentials,
  properties_create_device,
}
use knot_virtualthing.Properties.Create.WellFormed.{WellFormed}
use knot_virtualthing.Properties.Create.Complete.{properties_create_device-WellFormed}
use knot_virtualthing.Storage.Held.{NothingOpen}
use knot_virtualthing.Properties.Credentials.{properties_store_credentials}
use knot_virtualthing.Properties.Closed.Operations.{
  create_device, store_credentials, next, done, Operations-NothingOpen,
}
use knot_virtualthing.Examples.Settings.{Entries, put, put_number, settings, store_with, working}
use knot_virtualthing.Examples.Files.{knot, thing}
use knot_virtualthing.Examples.Loads.{slave_entries}

-- one text for all three files
abbrev pub all_entries : Entries
all_entries =
    put
      (put
        (put
          (put
            (put (put_number slave_entries "DataItem_0" "SchemaSensorId" (pos 7)) "Cloud" "Url"
              "amqp://localhost")
            "Cloud" "UserToken" "user")
          "KNoTThing" "Name" "pump")
        "Credentials" "ThingId" "1f")
      "Credentials" "ThingToken" "secret"

-- the static variable before it is filled
abbrev pub blank : Thing
blank = record thing {
  token = "";
  id = "";
  name = "";
  user_token = "";
  modbus_slave_id = pos 0;
  modbus_slave_url = "";
  rabbitmq_url = "";
}

abbrev created : Option (ℤ × (Thing × Store settings))
created =
    properties_create_device settings working knot 0 thing.conf_files blank (store_with all_entries)

abbrev created_or_not : Option (ℤ × (Thing × Store settings)) → ℤ × (Thing × Store settings)
created_or_not none = (pos 9, (blank, store_with all_entries))
created_or_not (some r) = r

properties_create_device-WellFormed_example : WellFormed knot (created_or_not created).1.0
unfolding set_sensor_id set_schema set_modbus_source_properties set_thing_name
    set_modbus_slave_properties set_thing_user_token set_rabbit_mq_url valid_bit_offset get_limit
    read_event set_event load_item load_items set_data_items device_set_new_data_item thing_open
    set_thing_properties cloud_open set_cloud_properties credentials_open set_thing_credentials
    properties_create_device storage_open make_dirs make_each open_at storage_close segments
    after_slash storage_read_key_string storage_read_key_int storage_read_key_number
    get_data_item_groups matches_group lookup_item device_set_thing_credentials
properties_create_device-WellFormed_example =
    properties_create_device-WellFormed settings working knot 0 thing.conf_files blank
      (store_with all_entries) (pos 0) (created_or_not created).1.0 (created_or_not created).1.1
      refl refl refl

abbrev stored : ℤ × Store settings
stored =
    properties_store_credentials settings working knot "credentials.conf" "2f" "token"
      (created_or_not created).1.1

Operations-NothingOpen_example : NothingOpen stored.1
unfolding set_sensor_id set_schema set_modbus_source_properties set_thing_name
    set_modbus_slave_properties set_thing_user_token set_rabbit_mq_url valid_bit_offset get_limit
    read_event set_event load_item load_items set_data_items device_set_new_data_item thing_open
    set_thing_properties cloud_open set_cloud_properties credentials_open set_thing_credentials
    properties_create_device storage_open make_dirs make_each open_at storage_close segments
    after_slash storage_read_key_string storage_read_key_int storage_read_key_number
    get_data_item_groups matches_group lookup_item device_set_thing_credentials
Operations-NothingOpen_example =
    Operations-NothingOpen settings working knot (store_with all_entries) stored.1
      (next (create_device 0 thing.conf_files blank (created_or_not created).1.0 (pos 0) refl)
        (next (store_credentials "credentials.conf" "2f" "token" stored.0 refl) done))
      (record { no_settings = λ j. refl; no_files = λ j. refl })
