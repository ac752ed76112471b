-- ===== src/Properties/Load/Accepted.antt =====
-- What src/properties.c has checked of the parts of a file that it accepts.
use knot_virtualthing.Prelude.{
  ℕ, ◌<◌, ℤ, pos, String, false, ◌≡◌, some, strlen, str_eq, is_neg, is_nonzero, arith, ltb_ℤ,
  eqb→eq,
}
use knot_virtualthing.Protocol.{ValueType, Schema, Knot}
use knot_virtualthing.Storage.{LSettings, Store}
use knot_virtualthing.Thing.{Thing, ModbusSource}
use knot_virtualthing.Modbus.Read.{Slave, iface_modbus_read_data}
use knot_virtualthing.Properties.Load.{
  valid_bit_offset, set_modbus_source_properties, set_schema, set_modbus_slave_properties,
}

-- A slave that answers every read.
pub record AnswersAll (slave : Slave) : Type 0 where
  pub bits : (addr : ℤ) (n : ℕ) → is_neg (slave.read_input_bits addr n).0 ≡ false
  pub registers : (addr : ℤ) (n : ℕ) → is_neg (slave.read_registers addr n).0 ≡ false

-- For every bit offset that valid_bit_offset accepts for some type, iface_modbus_read_data reads a
-- value from a slave that answers: it never comes to its case for an unknown offset.
pub valid_offset_reads :
    (slave : Slave) (bit_offset reg_addr e : ℤ) (t : ValueType)
    → AnswersAll slave
    → valid_bit_offset bit_offset t ≡ pos 0
    → is_neg (iface_modbus_read_data slave reg_addr bit_offset e).0 ≡ false
unfolding valid_bit_offset iface_modbus_read_data
valid_offset_reads slave bit_offset reg_addr e t a h = ground (
  arith,
  a.bits reg_addr 1,
  a.bits reg_addr 8,
  a.registers reg_addr 1,
  a.registers reg_addr 2,
  a.registers reg_addr 4,
)

module _ (l : LSettings) (knot : Knot) (fd : ℕ) (st : Store l) where
  -- A schema that set_schema stores has a name that is not empty and that fits into its field with
  -- the closing NUL, and the protocol library finds it valid.
  pub set_schema_accepted :
      (group : String) (rc : ℤ) (schema : Schema)
      → set_schema l knot fd st group ≡ (rc, some schema)
      → (rc ≡ pos 0)
        × (strlen schema.name < knot.data_name_len)
        × (str_eq schema.name "" ≡ false)
        × (is_nonzero (knot.schema_is_valid schema.type_id schema.value_type schema.unit) ≡ false)
  unfolding set_schema
  set_schema_accepted group rc schema h = ground arith

  -- A slave id that set_modbus_slave_properties stores lies between 0 and 255, and the URL that it
  -- stores is not empty; the data items have not changed.
  pub set_modbus_slave_accepted :
      (thing thing' : Thing) (rc : ℤ)
      → set_modbus_slave_properties l knot fd st thing ≡ (rc, some thing')
      → (rc ≡ pos 0)
        × (ltb_ℤ thing'.modbus_slave_id (pos 0) ≡ false)
        × (ltb_ℤ (pos 255) thing'.modbus_slave_id ≡ false)
        × (str_eq thing'.modbus_slave_url "" ≡ false)
        × (thing'.data_items ≡ thing.data_items)
  unfolding set_modbus_slave_properties
  set_modbus_slave_accepted thing thing' rc h = ground arith

  pub source_valid :
      (group : String) (schema : Schema) (rc : ℤ) (s : ModbusSource)
      → set_modbus_source_properties l knot fd st group schema ≡ (rc, some s)
      → valid_bit_offset s.bit_offset (knot.value_type schema.value_type) ≡ pos 0
  unfolding set_modbus_source_properties
  source_valid group schema rc s h =
      ground
        (arith, eqb→eq (valid_bit_offset s.bit_offset (knot.value_type schema.value_type)) (pos 0))

  -- A source that set_modbus_source_properties stores can be read from every slave that answers.
  pub accepted_source_reads :
      (slave : Slave) (group : String) (schema : Schema) (rc : ℤ) (s : ModbusSource)
      → AnswersAll slave
      → set_modbus_source_properties l knot fd st group schema ≡ (rc, some s)
      → is_neg (iface_modbus_read_data slave s.reg_addr s.bit_offset s.endianness_type_sensor).0
        ≡ false
  accepted_source_reads slave group schema rc s a h =
      valid_offset_reads slave s.bit_offset s.reg_addr s.endianness_type_sensor
        (knot.value_type schema.value_type) a (source_valid group schema rc s h)
