-- ===== src/Examples/Loads.antt =====
-- Files whose parts are accepted when they are loaded.
use knot_virtualthing.Prelude.{pos, false, ◌≡◌, refl, some, [], is_neg}
use knot_virtualthing.Protocol.{Schema}
use knot_virtualthing.Storage.{Store}
use knot_virtualthing.Storage.Access.{storage_read_key_int}
use knot_virtualthing.Thing.{Thing, ModbusSource}
use knot_virtualthing.Modbus.Read.{Slave, iface_modbus_read_data}
use knot_virtualthing.Properties.Load.{valid_bit_offset, set_modbus_source_properties}
use knot_virtualthing.Properties.Load.Accepted.{AnswersAll, accepted_source_reads}
use knot_virtualthing.Examples.Settings.{Entries, no_entries, put, put_number, settings, store_with}
use knot_virtualthing.Storage.{
  storage_open, storage_close, save_settings, make_dirs, make_each, open_at, segments, after_slash,
}
use knot_virtualthing.Storage.Access.{
  storage_write_key_string, storage_write_key_int, change, save_changed,
}
use knot_virtualthing.Properties.Load.{set_schema}
use knot_virtualthing.Properties.Update.{update_schema_data_item, and_then}
use knot_virtualthing.Properties.Update.Reloaded.{schema_reloaded}
use knot_virtualthing.Prelude.{fd_of, ℤ, arith}
use knot_virtualthing.Examples.Settings.{settings-SettingsLaws, settings-NumberLaws, working}
use knot_virtualthing.Examples.Files.{knot, thing}

abbrev pub entries : Entries
entries =
    put_number
      (put_number
        (put_number
          (put_number
            (put_number
              (put_number (put no_entries "DataItem_0" "SchemaSensorName" "level") "DataItem_0"
                "SchemaValueType" (pos 1))
              "DataItem_0" "SchemaUnit" (pos 1))
            "DataItem_0" "SchemaTypeId" (pos 9))
          "DataItem_0" "ModbusRegisterAddress" (pos 2))
        "DataItem_0" "ModbusBitOffset" (pos 32))
      "DataItem_0" "ModbusTypeEndianness" (pos 1)

abbrev pub slave_entries : Entries
slave_entries =
    put_number (put entries "KNoTThing" "ModbusURL" "tcp://localhost:502") "KNoTThing"
      "ModbusSlaveId" (pos 3)

abbrev loaded : Store settings
loaded = record (store_with slave_entries) { storage_list = λ fd. some slave_entries }

abbrev level : Schema
level = record { value_type = pos 1; unit = pos 1; type_id = pos 9; name = "level" }

abbrev attached : Thing
attached = record thing { modbus_slave_id = pos 3; modbus_slave_url = "tcp://localhost:502" }

abbrev answering : Slave
answering = record {
  read_input_bits = λ addr n. (pos n, []);
  read_registers = λ addr n. (pos n, 77);
  errno = 0;
}

answering-AnswersAll : AnswersAll answering
answering-AnswersAll = record { bits = λ addr n. refl; registers = λ addr n. refl }

abbrev source : ModbusSource
source = record { reg_addr = pos 2; bit_offset = pos 32; endianness_type_sensor = pos 1 }

accepted_source_reads_example :
    is_neg (iface_modbus_read_data answering (pos 2) (pos 32) (pos 1)).0 ≡ false
unfolding set_modbus_source_properties valid_bit_offset storage_read_key_int
accepted_source_reads_example =
    accepted_source_reads settings knot 5 loaded answering "DataItem_0" level (pos 0) source
      answering-AnswersAll refl

-- descriptor 5 is open on a file
abbrev open_store : Store settings
open_store = record loaded { open_files = λ fd. some "thing.conf" }

abbrev valve : Schema
valve = record { value_type = pos 1; unit = pos 1; type_id = pos 9; name = "valve" }

abbrev reopened : ℤ × Store settings
reopened =
    storage_open settings working "thing.conf"
      (storage_close settings working 5
        (update_schema_data_item settings working 5 "DataItem_0" valve open_store).1).1

schema_reloaded_example :
    set_schema settings knot (fd_of reopened.0) reopened.1 "DataItem_0" ≡ (pos 0, some valve)
unfolding update_schema_data_item and_then storage_write_key_int storage_write_key_string change
    save_changed save_settings storage_close storage_open make_dirs make_each open_at segments
    after_slash
schema_reloaded_example =
    schema_reloaded settings settings-SettingsLaws settings-NumberLaws working knot 5 "thing.conf"
      "DataItem_0" valve slave_entries open_store refl refl
      (record { value_type = refl; unit = refl; type_id = refl }) refl (omega arith) refl refl refl
