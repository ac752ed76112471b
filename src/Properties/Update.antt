-- ===== src/Properties/Update.antt =====
-- src/properties.c: writing a new configuration of a data item to the device file. The proofs are in
-- the children.
pub mod Kept
pub mod Reloaded
use knot_virtualthing.Prelude.{
  fd_of, ℕ, ℤ, pos, negsuc, String, Bool, true, false, not, Option, none, some, List, [], ◌∷◌,
  is_neg, eqb_ℤ, ◌||◌, if◌then◌else◌,
}
use knot_virtualthing.Protocol.{
  ValueType, raw, other, Value, val_i, Flags, KnotEvent, Schema, Config, Knot,
}
use knot_virtualthing.Protocol
use knot_virtualthing.Storage.{LSettings, System, Number, Store, minus, einval, storage_open}
use knot_virtualthing.Storage.Access.{
  storage_read_key_int, storage_has_unit, storage_write_key_string, storage_write_key_int,
  storage_write_key_number, storage_remove_key, get_data_item_groups,
}
use knot_virtualthing.Thing.{Thing, device_update_config_data_item}
use knot_virtualthing.Properties.Credentials.{close_after}

abbrev pub event_lower_threshold : String
event_lower_threshold = "EventLowerThreshold"

abbrev pub event_upper_threshold : String
event_upper_threshold = "EventUpperThreshold"

abbrev pub event_time_sec : String
event_time_sec = "EventTimeSec"

abbrev pub event_change : String
event_change = "EventChange"

abbrev pub schema_sensor_id : String
schema_sensor_id = "SchemaSensorId"

abbrev pub schema_sensor_name : String
schema_sensor_name = "SchemaSensorName"

abbrev pub schema_value_type : String
schema_value_type = "SchemaValueType"

abbrev pub schema_unit : String
schema_unit = "SchemaUnit"

abbrev pub schema_type_id : String
schema_type_id = "SchemaTypeId"

module _ (l : LSettings) (sys : System) where
  unfoldable pub set_limit : ℕ → String → String → ValueType → Value → Store l → ℤ × Store l
  set_limit fd group key Protocol.int v st = storage_write_key_int l sys fd group key (val_i v) st
  set_limit fd group key Protocol.float v st =
      storage_write_key_number l sys Number.float fd group key v st
  set_limit fd group key Protocol.bool v st =
      storage_write_key_number l sys Number.bool fd group key v st
  set_limit fd group key Protocol.int64 v st =
      storage_write_key_number l sys Number.int64 fd group key v st
  set_limit fd group key Protocol.uint v st =
      storage_write_key_number l sys Number.uint fd group key v st
  set_limit fd group key Protocol.uint64 v st =
      storage_write_key_number l sys Number.uint64 fd group key v st
  set_limit fd group key raw v st = (minus einval, st)
  set_limit fd group key (other inside) v st = (minus einval, st)

  -- One of the four parts of update_event_data_item: what an event that has the flag writes, and
  -- what happens to the key of one that has not. The result of the removal is not read.
  unfoldable pub update_key :
      Bool → (Store l → ℤ × Store l) → ℕ → String → String → Store l → ℤ × Store l
  update_key true write fd group key st = write st
  update_key false write fd group key st =
      if not (storage_has_unit l fd group key st)
      then (pos 0, (storage_remove_key l sys fd group key st).1)
      else (pos 0, st)

  -- `return rc` on an error, else the next part
  unfoldable pub and_then : ℤ × Store l → (Store l → ℤ × Store l) → ℤ × Store l
  and_then (rc, st) next = if is_neg rc then (rc, st) else next st

  unfoldable pub update_event_data_item : ℕ → String → ValueType → KnotEvent → Store l → ℤ × Store l
  update_event_data_item fd group value_type event st =
      and_then
        (update_key event.event_flags.time
          (storage_write_key_int l sys fd group event_time_sec (pos event.time_sec)) fd group
          event_time_sec st)
        (λ st1.
          and_then
            (update_key event.event_flags.change
              (storage_write_key_int l sys fd group event_change (pos 1)) fd group event_change st1)
            (λ st2.
              and_then
                (update_key event.event_flags.lower_threshold
                  (set_limit fd group event_lower_threshold value_type event.lower_limit) fd group
                  event_lower_threshold st2)
                (λ st3.
                  and_then
                    (update_key event.event_flags.upper_threshold
                      (set_limit fd group event_upper_threshold value_type event.upper_limit) fd
                      group event_upper_threshold st3)
                    (λ st4. (pos 0, st4)))))

  unfoldable pub update_schema_data_item : ℕ → String → Schema → Store l → ℤ × Store l
  update_schema_data_item fd group schema st =
      and_then (storage_write_key_int l sys fd group schema_type_id schema.type_id st) (λ st1.
        and_then (storage_write_key_int l sys fd group schema_unit schema.unit st1) (λ st2.
          and_then (storage_write_key_int l sys fd group schema_value_type schema.value_type st2)
            (storage_write_key_string l sys fd group schema_sensor_name schema.name)))

module _ (l : LSettings) where
  -- rc > 0, and the value that was read is the one that is looked for
  abbrev pub is_read : ℤ → ℤ × Option ℤ → Bool
  is_read sensor_id (rc, none) = false
  is_read sensor_id (rc, some id) = eqb_ℤ sensor_id id

  unfoldable pub equal_sensor_id : ℕ → String → ℤ → Store l → Bool
  equal_sensor_id fd group sensor_id st =
      is_read sensor_id (storage_read_key_int l fd group schema_sensor_id st)

module _ (l : LSettings) (sys : System) (knot : Knot) where
  -- the body of the loop for the group that holds the sensor: `has_err`
  unfoldable pub update_group : ℕ → String → Config → Store l → Bool × Store l
  update_group fd group config st =
      let (rc, st1) = update_schema_data_item l sys fd group config.schema st in
      let (rc', st2) =
        update_event_data_item l sys fd group (knot.value_type config.schema.value_type)
          config.event st1 in
      if not config.event.event_flags.unregistered
      then (is_neg rc || is_neg rc', st2)
      else (is_neg rc, st1)

  -- the loop over the groups, which ends at the first that holds the sensor
  unfoldable pub update_groups : ℕ → List String → Config → Store l → Bool × Store l
  update_groups fd [] config st = (false, st)
  update_groups fd (g ∷ gs) config st =
      let rest = update_groups fd gs config st in
      if equal_sensor_id l fd g config.sensor_id st then update_group fd g config st else rest

  -- from the open descriptor on; `none` is the access through the NULL of get_data_item_groups
  unfoldable pub update_open : ℕ → Config → Store l → Option (ℤ × Store l)
  unfolding update_groups
  update_open fd config st =
      let (found, st1) = get_data_item_groups l fd st in
      elim found [
        | none ↦ none
        | some groups ↦
            let (has_err, st2) = update_groups fd groups config st1 in
            some (if has_err then negsuc 0 else pos 0, close_after l sys fd st2)
      ]

  unfoldable pub properties_update_data_item :
      String → Config → Thing × Store l → Option (ℤ × Thing × Store l)
  properties_update_data_item filename config (thing, st) =
      let (device_fd, st1) = storage_open l sys filename st in
      if is_neg device_fd
      then some (device_fd, thing, st1)
      else elim (update_open (fd_of device_fd) config st1) [
        | none ↦ none
        | some (rc, st2) ↦ some (rc, device_update_config_data_item knot config thing, st2)
      ]
