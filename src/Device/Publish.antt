-- ===== src/Device/Publish.antt =====
-- What src/device.c publishes when the poll of a sensor has read a value.
use knot_virtualthing.Prelude.{
  ℤ, pos, true, ◌≡◌, refl, ap, ◌∙◌, some, List, [], ◌∷◌, Bool-cases, inl, inr, arith, eqb_ℤ, ltb_ℤ,
}
use knot_virtualthing.Protocol.{Value, Float}
use knot_virtualthing.Storage.{LSettings}
use knot_virtualthing.Thing.{Thing, DataItem, lookup_item, update_item}
use knot_virtualthing.Thing.Calls.{cloud_publish}
use knot_virtualthing.Event.Compare.{event_check_value}
use knot_virtualthing.Modbus.Read.{Slave, iface_modbus_read_data}
use knot_virtualthing.Sm.{online, pub_data, sm_input_event}
use knot_virtualthing.Device.World.{
  World, Outside, sensor_ids, device_publish_data_list, publish_each, on_publish_data,
}
use knot_virtualthing.Device.Handlers.{
  input, store_value, mark_sent, check_item, receive_item, on_modbus_poll_receive,
}
use knot_virtualthing.Device.Feeds.{published}

lookup-here :
    (id : ℤ) (j : DataItem) (items : List DataItem)
    → eqb_ℤ j.sensor_id id ≡ true
    → lookup_item id (j ∷ items) ≡ some j
unfolding lookup_item
lookup-here id j items e = rw e

pub lookup-update :
    (id : ℤ) (f : DataItem → DataItem) (items : List DataItem) (i : DataItem)
    → ((j : DataItem) → (f j).sensor_id ≡ j.sensor_id)
    → lookup_item id items ≡ some i
    → lookup_item id (update_item id f items) ≡ some (f i)
unfolding lookup_item update_item
lookup-update id f [] i k h = cc
lookup-update id f (j ∷ items) i k h = elim (Bool-cases (eqb_ℤ j.sensor_id id)) [
  | inl e ↦
      let q : some j ≡ some i = ground arith in
      let z : some (f j) ≡ some (f i) = cc in
      rw e (lookup-here id (f j) items (ap (λ (n : ℤ). eqb_ℤ n id) (k j) ∙ e) ∙ z)
  | inr e ↦
      let q : lookup_item id items ≡ some i = ground arith in
      rw (e, e) (lookup-update id f items i k q)
]

module _ {l : LSettings} (o : Outside l) (fl : Float) where
  publish_online :
      (id : ℤ) (i : DataItem) (w : World l)
      → lookup_item id w.thing.data_items ≡ some i
      → let w' =
          (input o pub_data
            (sensor_ids (id ∷ []))
            (record { current = online; world = w })).world in
        (published w'.log
          ≡ cloud_publish w.thing.id i.sensor_id i.schema.value_type i.current_val
            ∷ published w.log)
        × (w'.thing ≡ w.thing)
  unfolding sm_input_event device_publish_data_list publish_each on_publish_data
  publish_online id i w h = rw h (refl, refl)

  -- Where the machine is ONLINE, the polled sensor is a data item of the thing, its value is read and
  -- the check of the event asks for a publication, exactly one message is published, with the value
  -- that was read, and this value is kept as the current one and as the one sent last.
  pub poll_publishes :
      (slave : Slave) (id : ℤ) (i : DataItem) (w : World l) (rc : ℤ) (v : Value)
      → lookup_item id w.thing.data_items ≡ some i
      → let s = i.modbus_source in
        iface_modbus_read_data slave s.reg_addr s.bit_offset s.endianness_type_sensor ≡ (rc, some v)
        → ltb_ℤ (pos 0) (
            event_check_value fl w.event.active i.event v i.sent_val
              (o.knot.value_type i.schema.value_type))
          ≡ true
        → let w' =
            (on_modbus_poll_receive o fl slave id
              (record { current = online; world = w })).1.world in
          (published w'.log
            ≡ cloud_publish w.thing.id i.sensor_id i.schema.value_type v ∷ published w.log)
          × (lookup_item id w'.thing.data_items ≡ some (mark_sent (store_value (some v) i)))
  unfolding on_modbus_poll_receive receive_item check_item
  poll_publishes slave id i w rc v found read due =
      let read_items = update_item id (store_value (some v)) w.thing.data_items in
      let sent_items = update_item id mark_sent read_items in
      let here : lookup_item id sent_items ≡ some (mark_sent (store_value (some v) i)) =
        lookup-update id mark_sent read_items (store_value (some v) i) (λ j. refl)
          (lookup-update id (store_value (some v)) w.thing.data_items i (λ j. refl) found) in
      let ran =
        publish_online id (mark_sent (store_value (some v) i))
          (record w { thing = record w.thing { data_items = sent_items } }) here in
      rw (found, read, due) (ran.0, ap (λ (t : Thing). lookup_item id t.data_items) ran.1 ∙ here)
