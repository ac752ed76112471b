-- ===== src/Properties/Create.antt =====
-- src/properties.c: the loading of a thing from its three files. The proofs are in the children.
pub mod Parts
pub mod WellFormed
pub mod Complete
use knot_virtualthing.Prelude.{
  fd_of, ℕ, ℤ, pos, String, Bool, true, false, Option, none, some, List, [], ◌∷◌, is_neg,
  if◌then◌else◌,
}
use knot_virtualthing.Protocol.{Value, Schema, KnotEvent, Knot}
use knot_virtualthing.Storage.{LSettings, System, Store, minus, einval, storage_open}
use knot_virtualthing.Storage.Access.{storage_read_key_string, get_data_item_groups}
use knot_virtualthing.Thing.{
  Thing, DataItem, ModbusSource, DeviceSettings, device_set_thing_credentials,
}
use knot_virtualthing.Properties.Credentials.{
  close_after, credentials_group, credentials_thing_id, credentials_thing_token,
}
use knot_virtualthing.Properties.Load.{
  refused, set_sensor_id, set_schema, set_modbus_source_properties, set_thing_name,
  set_modbus_slave_properties, set_thing_user_token, set_rabbit_mq_url,
}
use knot_virtualthing.Properties.Limits.{set_event}

-- device_set_new_data_item of src/device.c; `l_new` fills the values with zeros. The id is new.
unfoldable pub device_set_new_data_item : DataItem → Thing → Thing
device_set_new_data_item item thing = record thing { data_items = item ∷ thing.data_items }

abbrev pub new_item : ℤ → Schema → KnotEvent → ModbusSource → DataItem
new_item sensor_id schema event source = record {
  sensor_id = sensor_id;
  schema = schema;
  event = event;
  current_val = 0;
  sent_val = 0;
  modbus_source = source;
}

-- `if (rc < 0) goto error`, where a part that is refused is not stored
abbrev pub with_part {ℓ κ} :
    {A : Type ℓ} {B : Type κ} → ℤ × Option A → (A → ℤ × Option B) → ℤ × Option B
with_part (rc, none) next = refused
with_part (rc, some a) next = next a

abbrev pub insert_item : Option DataItem → Thing → Thing
insert_item none thing = thing
insert_item (some item) thing = device_set_new_data_item item thing

abbrev pub is_loaded {ℓ} : {A : Type ℓ} → Option A → Bool
is_loaded none = false
is_loaded (some a) = true

-- What a setter leaves: its code, and the thing that it has changed or left alone.
abbrev pub kept : Thing → ℤ × Option Thing → ℤ × Thing
kept thing (rc, none) = (rc, thing)
kept thing (rc, some thing') = (rc, thing')

-- The two texts are copied; `none` is the copy from NULL, where a key is missing.
abbrev pub copy_credentials : Knot → Option String → Option String → Thing → Option Thing
copy_credentials knot (some id) (some token) thing =
    some (device_set_thing_credentials knot id token thing)
copy_credentials knot _ _ thing = none

module _ (l : LSettings) (knot : Knot) (junk : Value) where
  -- the body of the loop of set_data_items, up to the insertion
  unfoldable pub load_item : ℕ → String → Thing → Store l → ℤ × Option DataItem
  load_item fd group thing st = with_part (set_sensor_id l knot fd st thing group) (λ sensor_id.
      with_part (set_schema l knot fd st group) (λ schema.
        with_part (set_event l knot junk fd st group schema) (λ event.
          with_part (set_modbus_source_properties l knot fd st group schema)
            (λ source. (pos 0, some (new_item sensor_id schema event source))))))

  -- The loop; the items before the one that is refused stay in the thing.
  unfoldable pub load_items : ℕ → List String → Thing → Store l → ℤ × Thing
  load_items fd [] thing st = (pos 0, thing)
  load_items fd (group ∷ groups) thing st =
      let item = (load_item fd group thing st).1 in
      let rest = load_items fd groups (insert_item item thing) st in
      if is_loaded item then rest else (minus einval, thing)

  unfoldable pub set_data_items : ℕ → Thing → Store l → ℤ × (Thing × Store l)
  unfolding load_items
  set_data_items fd thing st =
      let (groups, st1) = get_data_item_groups l fd st in
      elim groups [
        | none ↦ (minus einval, (thing, st1))
        | some gs ↦ let (rc, thing') = load_items fd gs thing st1 in (rc, (thing', st1))
      ]

module _ (l : LSettings) (sys : System) (knot : Knot) (junk : Value) where
  -- from the open descriptor on, each part behind the check of the one before it
  unfoldable pub thing_open : ℕ → Thing → Store l → ℤ × (Thing × Store l)
  thing_open fd thing st =
      let (rc, thing1) = kept thing (set_thing_name l knot fd st thing) in
      let (rc', thing2) = kept thing1 (set_modbus_slave_properties l knot fd st thing1) in
      let (rc'', (thing3, st')) = set_data_items l knot junk fd thing2 st in
      if is_neg rc
      then (rc, (thing1, close_after l sys fd st))
      else if is_neg rc'
      then (rc', (thing2, close_after l sys fd st))
      else (rc'', (thing3, close_after l sys fd st'))

  unfoldable pub set_thing_properties : String → Thing → Store l → ℤ × (Thing × Store l)
  set_thing_properties filename thing st =
      let (fd, st1) = storage_open l sys filename st in
      if is_neg fd then (fd, (thing, st1)) else thing_open (fd_of fd) thing st1

  unfoldable pub cloud_open : ℕ → Thing → Store l → ℤ × (Thing × Store l)
  cloud_open fd thing st =
      let (rc, thing1) = kept thing (set_rabbit_mq_url l knot fd st thing) in
      let (rc', thing2) = kept thing1 (set_thing_user_token l knot fd st thing1) in
      if is_neg rc
      then (rc, (thing1, close_after l sys fd st))
      else (rc', (thing2, close_after l sys fd st))

  unfoldable pub set_cloud_properties : String → Thing → Store l → ℤ × (Thing × Store l)
  set_cloud_properties filename thing st =
      let (fd, st1) = storage_open l sys filename st in
      if is_neg fd then (fd, (thing, st1)) else cloud_open (fd_of fd) thing st1

  unfoldable pub credentials_open : ℕ → Thing → Store l → Option (ℤ × (Thing × Store l))
  credentials_open fd thing st =
      let id = storage_read_key_string l fd credentials_group credentials_thing_id st in
      let token = storage_read_key_string l fd credentials_group credentials_thing_token st in
      elim (copy_credentials knot id token thing) [
        | none ↦ none
        | some thing' ↦ some (pos 0, (thing', close_after l sys fd st))
      ]

  unfoldable pub set_thing_credentials : String → Thing → Store l → Option (ℤ × (Thing × Store l))
  set_thing_credentials filename thing st =
      let (fd, st1) = storage_open l sys filename st in
      if is_neg fd then some (fd, (thing, st1)) else credentials_open (fd_of fd) thing st1

  unfoldable pub properties_create_device :
      DeviceSettings → Thing → Store l → Option (ℤ × (Thing × Store l))
  properties_create_device conf_files thing st =
      let (rc, (thing1, st1)) = set_thing_properties conf_files.device_path thing st in
      let (rc', (thing2, st2)) = set_cloud_properties conf_files.cloud_path thing1 st1 in
      if is_neg rc
      then some (rc, (thing1, st1))
      else if is_neg rc'
      then some (rc', (thing2, st2))
      else set_thing_credentials conf_files.credentials_path thing2 st2
