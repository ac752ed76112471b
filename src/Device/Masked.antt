-- ===== src/Device/Masked.antt =====
-- src/device.c: what the callbacks do to the mask of the connections.
use knot_virtualthing.Prelude.{
  ℤ, pos, Bool, true, false, ◌≡◌, refl, ◌∙◌, Option, none, some, List, ltb_ℤ, inl, inr, Bool-cases,
  ap,
}
use knot_virtualthing.Protocol.{Float}
use knot_virtualthing.Storage.{LSettings}
use knot_virtualthing.Thing.{DataItem, lookup_item, update_item}
use knot_virtualthing.Event.Compare.{event_check_value}
use knot_virtualthing.Modbus.Read.{Slave, iface_modbus_read_data}
use knot_virtualthing.Sm.{Event}
use knot_virtualthing.Sm.Frame.{frame_step}
use knot_virtualthing.Device.World.{Outside, UserData}
use knot_virtualthing.Device.Handlers.{
  Conn, cloud, MsgType, update_msg, request_msg, register_msg, unregister_msg, auth_msg, config_msg,
  CloudMsg, Program, conn_handler, receive, check_item, receive_item, store_value, input,
  on_cloud_connected, on_cloud_disconnected, on_msg_timeout, on_event_timeout, on_cloud_receive,
  on_modbus_poll_receive,
}
use knot_virtualthing.Device.Session.{
  Callback, callback, cloud_connected, cloud_disconnected, modbus_connected, modbus_disconnected,
  ended, msg_timeout, event_timeout, cloud_receive, poll_receive,
}
use knot_virtualthing.Device.Links.{Links, mask, set_link, conn_handler_lem}
use knot_virtualthing.Device.Up.{device-FrameRules}

-- a callback of another source than the connection to the slave
abbrev pub IsElsewhere : Callback → Type 0
IsElsewhere modbus_connected = ⊥
IsElsewhere modbus_disconnected = ⊥
IsElsewhere c = Unit

-- What a callback from elsewhere makes of the two connections.
abbrev pub links_after : Callback → Links → Links
links_after cloud_connected k = set_link cloud true k
links_after cloud_disconnected k = set_link cloud false k
links_after c k = k

pub links_after-modbus : (c : Callback) (k : Links) → (links_after c k).modbus_up ≡ k.modbus_up
links_after-modbus cloud_connected k = refl
links_after-modbus _ k = refl

module _ {l : LSettings} (o : Outside l) where
  input-mask :
      (e : Event) (p : UserData) (m : Program o)
      → (input o e p m).world.conn_mask ≡ m.world.conn_mask
  input-mask e p m = frame_step (device-FrameRules o) m.current e p m.world

  pub conn_handler-mask :
      (conn : Conn) (up : Bool) (k : Links) (m : Program o)
      → m.world.conn_mask ≡ mask k
      → (conn_handler o conn up m).world.conn_mask ≡ mask (set_link conn up k)
  conn_handler-mask conn up k m h =
      ap (λ (n : Program o). n.world.conn_mask) (conn_handler_lem o conn up k m h)
      ∙ input-mask _ _ _

  receive-mask :
      (t : MsgType) (err : Bool) (msg : CloudMsg) (m : Program o)
      → (receive o t err msg m).world.conn_mask ≡ m.world.conn_mask
  unfolding receive
  receive-mask update_msg false msg m = input-mask _ _ m
  receive-mask request_msg false msg m = input-mask _ _ m
  receive-mask register_msg true msg m = input-mask _ _ m
  receive-mask register_msg false msg m = input-mask _ _ m
  receive-mask unregister_msg false msg m = input-mask _ _ m
  receive-mask auth_msg true msg m = input-mask _ _ m
  receive-mask auth_msg false msg m = input-mask _ _ m
  receive-mask config_msg true msg m = input-mask _ _ m
  receive-mask config_msg false msg m = input-mask _ _ m
  receive-mask _ _ msg m = refl

module _ {l : LSettings} (o : Outside l) (fl : Float) where
  check_mask :
      (id : ℤ) (i : DataItem) (items : List DataItem) (m : Program o)
      → (check_item o fl id i items m).world.conn_mask ≡ m.world.conn_mask
  unfolding check_item
  check_mask id i items m =
      elim (Bool-cases (
        ltb_ℤ (pos 0) (
          event_check_value fl m.world.event.active i.event i.current_val i.sent_val
            (o.knot.value_type i.schema.value_type)))) [
              | inl e ↦ rw (e, check_item) (input-mask o _ _ _)
              | inr e ↦ rw (e, check_item) refl
            ]

  item_mask :
      (slave : Slave) (id : ℤ) (i : Option DataItem) (m : Program o)
      → (receive_item o fl slave id i m).1.world.conn_mask ≡ m.world.conn_mask
  unfolding receive_item
  item_mask slave id none m = refl
  item_mask slave id (some i) m =
      let s = i.modbus_source in
      let v = (iface_modbus_read_data slave s.reg_addr s.bit_offset s.endianness_type_sensor).1 in
      check_mask id (store_value v i) (update_item id (store_value v) m.world.thing.data_items) m

  -- The mask stands for the connections that a callback leaves.
  pub callback-mask :
      (c : Callback) (k : Links) (m : Program o)
      → IsElsewhere c
      → m.world.conn_mask ≡ mask k
      → (callback o fl c m).world.conn_mask ≡ mask (links_after c k)
  unfolding callback on_cloud_connected on_cloud_disconnected on_msg_timeout on_event_timeout
      on_cloud_receive on_modbus_poll_receive
  callback-mask cloud_connected k m e h = conn_handler-mask o cloud true k m h
  callback-mask cloud_disconnected k m e h = conn_handler-mask o cloud false k m h
  callback-mask modbus_connected k m e h = absurd e
  callback-mask modbus_disconnected k m e h = absurd e
  callback-mask msg_timeout k m e h = input-mask o _ _ (ended o fl m) ∙ h
  callback-mask (event_timeout id) k m e h = input-mask o _ _ m ∙ h
  callback-mask (cloud_receive msg) k m e h = receive-mask o msg.msg_type msg.error msg m ∙ h
  callback-mask (poll_receive slave id) k m e h =
      item_mask slave id (lookup_item id m.world.thing.data_items) m ∙ h
