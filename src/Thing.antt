-- ===== src/Thing.antt =====
-- struct knot_thing of src/device.c, with the setters of src/device.c that the loading and storing of
-- the properties calls, and what the program says to the cloud library and to the timers of ell.
pub mod Calls
use knot_virtualthing.Prelude.{
  ℕ, ℤ, String, Bool, true, false, not, Option, none, some, List, [], ◌∷◌, map, eqb_ℤ, strncpy,
  if◌then◌else◌,
}
use knot_virtualthing.Protocol.{Value, Flags, KnotEvent, Schema, Config, Knot}

-- struct modbus_source
pub record ModbusSource : Type 0 where
  pub reg_addr : ℤ
  pub bit_offset : ℤ
  pub endianness_type_sensor : ℤ

-- struct knot_data_item
pub record DataItem : Type 0 where
  pub sensor_id : ℤ
  pub schema : Schema
  pub event : KnotEvent
  pub current_val : Value
  pub sent_val : Value
  pub modbus_source : ModbusSource

-- struct device_settings of src/device.h
pub record DeviceSettings : Type 0 where
  pub credentials_path : String
  pub device_path : String
  pub cloud_path : String

-- struct knot_thing. The arrays of characters are the texts that they hold; `data_items`, a hash map
-- by sensor id, is the list of its values in the order in which it is walked; `msg_to` is the timer
-- that ell returned.
pub record Thing : Type 0 where
  pub token : String
  pub id : String
  pub name : String
  pub user_token : String
  pub modbus_slave_id : ℤ
  pub modbus_slave_url : String
  pub rabbitmq_url : String
  pub conf_files : DeviceSettings
  pub data_items : List DataItem
  pub msg_to : Option ℕ

-- l_hashmap_lookup(data_items, sensor_id)
unfoldable pub lookup_item : ℤ → List DataItem → Option DataItem
lookup_item id [] = none
lookup_item id (i ∷ items) = if eqb_ℤ i.sensor_id id then some i else lookup_item id items

-- A write through the pointer that the lookup returned.
unfoldable pub update_item : ℤ → (DataItem → DataItem) → List DataItem → List DataItem
update_item id f [] = []
update_item id f (i ∷ items) =
    let rest = update_item id f items in if eqb_ℤ i.sensor_id id then f i ∷ items else i ∷ rest

-- `strcpy` into an array that the caller has found long enough
abbrev pub device_set_thing_name : String → Thing → Thing
device_set_thing_name name thing = record thing { name = name }

abbrev pub device_set_thing_user_token : String → Thing → Thing
device_set_thing_user_token token thing = record thing { user_token = token }

abbrev pub device_set_thing_modbus_slave : ℤ → String → Thing → Thing
device_set_thing_modbus_slave slave_id url thing = record thing {
  modbus_slave_id = slave_id;
  modbus_slave_url = url;
}

abbrev pub device_set_thing_rabbitmq_url : String → Thing → Thing
device_set_thing_rabbitmq_url url thing = record thing { rabbitmq_url = url }

unfoldable pub device_clear_thing_id : Thing → Thing
device_clear_thing_id thing = record thing { id = "" }

unfoldable pub device_clear_thing_token : Thing → Thing
device_clear_thing_token thing = record thing { token = "" }

module _ (knot : Knot) where
  unfoldable pub device_set_thing_credentials : String → String → Thing → Thing
  device_set_thing_credentials id token thing = record thing {
    id = strncpy knot.uuid_len id;
    token = strncpy knot.token_len token;
  }

  -- The assignments to one item; a configuration that is marked UNREGISTERED keeps its event.
  unfoldable pub update_schema : Config → Schema → Schema
  update_schema config schema = record {
    type_id = config.schema.type_id;
    unit = config.schema.unit;
    value_type = config.schema.value_type;
    name = strncpy knot.data_name_len config.schema.name;
  }

  unfoldable pub update_event : Config → KnotEvent → KnotEvent
  update_event config event =
      if not config.event.event_flags.unregistered
      then record {
        event_flags = config.event.event_flags;
        time_sec = config.event.time_sec;
        lower_limit =
            knot.assign_limit config.schema.value_type config.event.lower_limit event.lower_limit;
        upper_limit =
            knot.assign_limit config.schema.value_type config.event.upper_limit event.upper_limit;
      }
      else event

  unfoldable pub device_update_config_data_item : Config → Thing → Thing
  unfolding update_schema update_event update_item
  device_update_config_data_item config thing = record thing {
    data_items =
        update_item config.sensor_id
          (λ i. record i {
            schema = update_schema config i.schema;
            event = update_event config i.event;
          })
          thing.data_items;
  }
