-- ===== src/Properties/Load.antt =====
-- src/properties.c: the parts of the device's files that are checked one by one when they are loaded.
-- A part that is refused leaves the thing as it is. The proofs are in the children.
pub mod Accepted
use knot_virtualthing.Prelude.{
  ℕ, ℤ, pos, String, Bool, true, false, not, ◌&&◌, ◌||◌, Option, none, some, strlen, str_eq, ltb,
  ltb_ℤ, eqb_ℤ, is_nonzero, if◌then◌else◌,
}
use knot_virtualthing.Protocol.{
  ValueType, int, float, bool, raw, int64, uint, uint64, other, Schema, Knot,
}
use knot_virtualthing.Storage.{LSettings, Store, minus, einval}
use knot_virtualthing.Storage.Access.{storage_read_key_string, storage_read_key_int}
use knot_virtualthing.Thing.{
  Thing, ModbusSource, lookup_item, device_set_thing_name, device_set_thing_user_token,
  device_set_thing_modbus_slave, device_set_thing_rabbitmq_url,
}
use knot_virtualthing.Properties.Update.{
  schema_sensor_id, schema_sensor_name, schema_value_type, schema_unit, schema_type_id,
}

abbrev pub cloud_group : String
cloud_group = "Cloud"

abbrev pub rabbit_url : String
rabbit_url = "Url"

abbrev pub thing_group : String
thing_group = "KNoTThing"

abbrev pub thing_name : String
thing_name = "Name"

abbrev pub thing_user_token : String
thing_user_token = "UserToken"

abbrev pub thing_modbus_slave_id : String
thing_modbus_slave_id = "ModbusSlaveId"

abbrev pub thing_modbus_url : String
thing_modbus_url = "ModbusURL"

abbrev pub modbus_min_slave_id : ℤ
modbus_min_slave_id = pos 0

abbrev pub modbus_max_slave_id : ℤ
modbus_max_slave_id = pos 255

abbrev pub modbus_reg_address : String
modbus_reg_address = "ModbusRegisterAddress"

abbrev pub modbus_bit_offset : String
modbus_bit_offset = "ModbusBitOffset"

abbrev pub modbus_type_endianness : String
modbus_type_endianness = "ModbusTypeEndianness"

-- The masks of the value types; a type without a name is in none of them.
abbrev pub is_word : ValueType → Bool
is_word int = true
is_word uint = true
is_word float = true
is_word _ = false

abbrev pub is_long : ValueType → Bool
is_long int64 = true
is_long uint64 = true
is_long float = true
is_long _ = false

abbrev pub is_bool : ValueType → Bool
is_bool bool = true
is_bool _ = false

abbrev pub accept : Bool → ℤ
accept true = pos 0
accept false = minus einval

unfoldable pub valid_bit_offset : ℤ → ValueType → ℤ
valid_bit_offset bit_offset value_type =
    if eqb_ℤ bit_offset (pos 1)
    then accept (is_bool value_type)
    else if eqb_ℤ bit_offset (pos 8) || (eqb_ℤ bit_offset (pos 16) || eqb_ℤ bit_offset (pos 32))
    then accept (is_word value_type)
    else if eqb_ℤ bit_offset (pos 64)
    then accept (is_long value_type)
    else minus einval

-- the code, and what is stored through the pointers
abbrev pub refused {ℓ} : {A : Type ℓ} → ℤ × Option A
refused = (minus einval, none)

-- `rc <= 0` refuses: a text that is no number, or a key that is not there
abbrev pub with_int {ℓ} : {A : Type ℓ} → ℤ × Option ℤ → (ℤ → ℤ × Option A) → ℤ × Option A
with_int (rc, none) next = refused
with_int (rc, some v) next = next v

-- NULL and the empty text are refused
abbrev pub with_text {ℓ} : {A : Type ℓ} → Option String → (String → ℤ × Option A) → ℤ × Option A
with_text none next = refused
with_text (some t) next = if str_eq t "" then refused else next t

module _ (l : LSettings) (knot : Knot) (fd : ℕ) (st : Store l) where
  unfoldable pub set_modbus_source_properties : String → Schema → ℤ × Option ModbusSource
  set_modbus_source_properties group schema =
      with_int (storage_read_key_int l fd group modbus_reg_address st) (λ reg_addr.
        with_int (storage_read_key_int l fd group modbus_type_endianness st) (λ endianness_type.
          with_int (storage_read_key_int l fd group modbus_bit_offset st) (λ bit_offset.
            if eqb_ℤ (valid_bit_offset bit_offset (knot.value_type schema.value_type)) (pos 0)
            then (
              pos 0,
              some (record {
                reg_addr = reg_addr;
                bit_offset = bit_offset;
                endianness_type_sensor = endianness_type;
              }),
            )
            else refused)))

  unfoldable pub set_schema : String → ℤ × Option Schema
  set_schema group = with_text (storage_read_key_string l fd group schema_sensor_name st) (λ name.
      if not (ltb (strlen name) knot.data_name_len)
      then refused
      else with_int (storage_read_key_int l fd group schema_value_type st) (λ value_type.
        with_int (storage_read_key_int l fd group schema_unit st) (λ unit.
          with_int (storage_read_key_int l fd group schema_type_id st) (λ type_id.
            let schema_aux : Schema = record {
              value_type = knot.to_value_type value_type;
              unit = knot.to_unit unit;
              type_id = knot.to_type_id type_id;
              name = name;
            } in
            if is_nonzero (
              knot.schema_is_valid (knot.to_type_id type_id) (knot.to_value_type value_type)
                (knot.to_unit unit))
            then refused
            else (pos 0, some schema_aux)))))

  unfoldable pub set_sensor_id : Thing → String → ℤ × Option ℤ
  set_sensor_id thing group =
      with_int (storage_read_key_int l fd group schema_sensor_id st) (λ sensor_id.
        elim (lookup_item sensor_id thing.data_items) [
          | none ↦ (pos 0, some sensor_id)
          | some i ↦ refused
        ])

  -- The thing that a setter of src/device.h has changed; `none` where the part was refused.
  unfoldable pub set_modbus_slave_properties : Thing → ℤ × Option Thing
  set_modbus_slave_properties thing =
      with_int (storage_read_key_int l fd thing_group thing_modbus_slave_id st) (λ id.
        if ltb_ℤ id modbus_min_slave_id || ltb_ℤ modbus_max_slave_id id
        then refused
        else with_text (storage_read_key_string l fd thing_group thing_modbus_url st)
            (λ url. (pos 0, some (device_set_thing_modbus_slave id url thing))))

  unfoldable pub set_thing_user_token : Thing → ℤ × Option Thing
  set_thing_user_token thing =
      with_text (storage_read_key_string l fd cloud_group thing_user_token st)
        (λ user_token. (pos 0, some (device_set_thing_user_token user_token thing)))

  unfoldable pub set_rabbit_mq_url : Thing → ℤ × Option Thing
  set_rabbit_mq_url thing =
      with_text (storage_read_key_string l fd cloud_group rabbit_url st)
        (λ rabbitmq_url. (pos 0, some (device_set_thing_rabbitmq_url rabbitmq_url thing)))

  unfoldable pub set_thing_name : Thing → ℤ × Option Thing
  set_thing_name thing = with_text (storage_read_key_string l fd thing_group thing_name st) (λ name.
      if not (ltb (strlen name) knot.device_name_len)
      then refused
      else (pos 0, some (device_set_thing_name name thing)))
