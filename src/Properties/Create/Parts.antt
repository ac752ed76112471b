-- ===== src/Properties/Create/Parts.antt =====
-- What src/properties.c has checked of a data item, and of the single parts of a thing, that it loads.
use knot_virtualthing.Prelude.{
  ℕ, ◌<◌, ℤ, pos, String, false, ◌≡◌, refl, Option, none, some, is_neg, strlen, str_eq, ltb_ℤ,
  is_nonzero, arith,
}
use knot_virtualthing.Protocol.{Value, Schema, KnotEvent, Knot}
use knot_virtualthing.Storage.{LSettings, Store}
use knot_virtualthing.Thing.{Thing, DataItem, lookup_item}
use knot_virtualthing.Properties.Load.{
  valid_bit_offset, set_sensor_id, set_schema, set_modbus_source_properties, set_thing_name,
  set_modbus_slave_properties, set_thing_user_token, set_rabbit_mq_url,
}
use knot_virtualthing.Properties.Load.Accepted.{set_schema_accepted, source_valid}
use knot_virtualthing.Properties.Limits.{set_event, event_code}
use knot_virtualthing.Properties.Create.{kept, with_part, load_item, new_item}

-- The schema and the event are valid for the protocol, the name fits into its field, and the source
-- can be read for the type.
pub record IsItem (knot : Knot) (i : DataItem) : Type 0 where
  pub name_fits : strlen i.schema.name < knot.data_name_len
  pub schema_valid :
      is_nonzero (knot.schema_is_valid i.schema.type_id i.schema.value_type i.schema.unit) ≡ false
  pub event_valid :
      is_nonzero (
        knot.event_is_valid i.event.event_flags i.schema.value_type i.event.time_sec
          i.event.lower_limit i.event.upper_limit)
      ≡ false
  pub source_valid :
      valid_bit_offset i.modbus_source.bit_offset (knot.value_type i.schema.value_type) ≡ pos 0

with_part-some {ℓ κ} :
    {A : Type ℓ} {B : Type κ} (r : ℤ × Option A) (next : A → ℤ × Option B) (rc : ℤ) (b : B)
    → with_part r next ≡ (rc, some b)
    → (a : A) × (r ≡ (r.0, some a)) × (next a ≡ (rc, some b))
with_part-some (c, none) next rc b h = absurd (cc)
with_part-some (c, some a) next rc b h = (a, refl, h)

module _ (l : LSettings) (knot : Knot) (junk : Value) (fd : ℕ) (st : Store l) where
  set_sensor_id_new :
      (thing : Thing) (group : String) (rc id : ℤ)
      → set_sensor_id l knot fd st thing group ≡ (rc, some id)
      → lookup_item id thing.data_items ≡ none
  unfolding set_sensor_id
  set_sensor_id_new thing group rc id h = ground arith

  set_event_valid :
      (group : String) (schema : Schema) (rc : ℤ) (e : KnotEvent)
      → set_event l knot junk fd st group schema ≡ (rc, some e)
      → is_nonzero (event_code knot schema e) ≡ false
  unfolding set_event
  set_event_valid group schema rc e h = ground arith

  pub load_item-IsItem :
      (group : String) (thing : Thing) (rc : ℤ) (i : DataItem)
      → load_item l knot junk fd group thing st ≡ (rc, some i)
      → IsItem knot i × (lookup_item i.sensor_id thing.data_items ≡ none)
  unfolding load_item
  load_item-IsItem group thing rc i h =
      let (id, p, h1) = with_part-some (set_sensor_id l knot fd st thing group) _ rc i h in
      let (schema, q, h2) = with_part-some (set_schema l knot fd st group) _ rc i h1 in
      let (event, r, h3) = with_part-some (set_event l knot junk fd st group schema) _ rc i h2 in
      let (source, s, h4) =
        with_part-some (set_modbus_source_properties l knot fd st group schema) _ rc i h3 in
      let e : new_item id schema event source ≡ i = cc in
      let (_, name_fits, _, schema_valid) = set_schema_accepted l knot fd st group _ schema q in
      rw (← e) (
        record {
          name_fits = name_fits;
          schema_valid = schema_valid;
          event_valid = set_event_valid group schema _ event r;
          source_valid = source_valid l knot fd st group schema _ source s;
        },
        set_sensor_id_new thing group _ id p,
      )

  pub set_thing_name_lem :
      (thing : Thing)
      → is_neg (kept thing (set_thing_name l knot fd st thing)).0 ≡ false
      → let t = (kept thing (set_thing_name l knot fd st thing)).1 in
        (strlen t.name < knot.device_name_len)
        × (str_eq t.name "" ≡ false)
        × (t ≡ record thing { name = t.name })
  unfolding set_thing_name
  set_thing_name_lem thing h = ground arith

  pub set_slave_lem :
      (thing : Thing)
      → is_neg (kept thing (set_modbus_slave_properties l knot fd st thing)).0 ≡ false
      → let t = (kept thing (set_modbus_slave_properties l knot fd st thing)).1 in
        (ltb_ℤ t.modbus_slave_id (pos 0) ≡ false)
        × (ltb_ℤ (pos 255) t.modbus_slave_id ≡ false)
        × (str_eq t.modbus_slave_url "" ≡ false)
        × (t ≡ record thing {
          modbus_slave_id = t.modbus_slave_id;
          modbus_slave_url = t.modbus_slave_url;
        })
  unfolding set_modbus_slave_properties
  set_slave_lem thing h = ground arith

  pub set_user_token_lem :
      (thing : Thing)
      → is_neg (kept thing (set_thing_user_token l knot fd st thing)).0 ≡ false
      → let t = (kept thing (set_thing_user_token l knot fd st thing)).1 in
        (str_eq t.user_token "" ≡ false) × (t ≡ record thing { user_token = t.user_token })
  unfolding set_thing_user_token
  set_user_token_lem thing h = ground arith

  pub set_rabbit_mq_url_lem :
      (thing : Thing)
      → is_neg (kept thing (set_rabbit_mq_url l knot fd st thing)).0 ≡ false
      → let t = (kept thing (set_rabbit_mq_url l knot fd st thing)).1 in
        (str_eq t.rabbitmq_url "" ≡ false) × (t ≡ record thing { rabbitmq_url = t.rabbitmq_url })
  unfolding set_rabbit_mq_url
  set_rabbit_mq_url_lem thing h = ground arith
