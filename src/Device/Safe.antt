-- ===== src/Device/Safe.antt =====
-- src/device.c: `void *user_data` is read as what it is, in a session.
pub mod Inputs
use knot_virtualthing.Prelude.{
  ℕ, ℤ, pos, Bool, true, false, not, ◌≡◌, refl, ◌∙◌, Option, none, some, List, [], ◌∷◌, inl, inr,
  Option-cases, Bool-cases, arith, ltb_ℤ, is_neg, ◌==◌, ap,
}
use knot_virtualthing.Protocol.{Float}
use knot_virtualthing.Storage.{LSettings}
use knot_virtualthing.Thing.{DataItem, lookup_item, update_item}
use knot_virtualthing.Event.Compare.{event_check_value}
use knot_virtualthing.Modbus.Read.{Slave, iface_modbus_read_data}
use knot_virtualthing.Poll.{poll_start}
use knot_virtualthing.Sm.{
  State, disconnected, auth, register, config, online, unregister, error, Event, ready, not_ready,
  timeout, auth_ok, auth_not_ok, reg_ok, reg_not_ok, cfg_upt_ok, cfg_upt_not_ok, unreg_req,
  reg_perm, pub_data, data_updt, unexpected, get_next, first_state, get_next_disconnected,
  get_next_auth, get_next_register, get_next_config, get_next_online, get_next_unregister,
  get_next_error, enter, sm_input_event, same_state,
}
use knot_virtualthing.Device.World.{
  World, Outside, UserData, null, token, sensor_ids, configs, device, on_publish_data, publish_each,
  publish_items, device_store_credentials_on_file, device_clear_credentials_on_file,
  device_generate_thing_id, device_start_read_cloud, device_check_schema_change,
  device_send_register_request, device_send_auth_request, device_send_config,
  device_publish_data_list, device_publish_data_all, device_start_event, device_stop_event,
  device_msg_timeout_create, device_msg_timeout_modify, device_msg_timeout_remove,
  device_has_thing_token,
}
use knot_virtualthing.Device.Handlers.{
  Conn, modbus, cloud, MsgType, update_msg, request_msg, register_msg, unregister_msg, auth_msg,
  config_msg, CloudMsg, Program, set_conn_bitmask, conn_code, connected_mask, conn_handler, receive,
  check_item, receive_item, store_value, input, on_cloud_connected, on_cloud_disconnected,
  on_modbus_connected, on_modbus_disconnected, on_msg_timeout, on_event_timeout, on_cloud_receive,
  on_modbus_poll_receive,
}
use knot_virtualthing.Device.Session.{
  Callback, callback, session, cloud_connected, cloud_disconnected, modbus_connected,
  modbus_disconnected, msg_timeout, event_timeout, cloud_receive, ended, poll_receive,
}
use knot_virtualthing.Device.Safe.Inputs.{AreIds, IsToken, AreConfigs, input_safe}

module _ {l : LSettings} (o : Outside l) (fl : Float) where
  abbrev pub MatchesType : MsgType → Bool → CloudMsg → Program o → Type 0
  MatchesType request_msg false msg m = AreIds msg.list
  MatchesType register_msg false msg m = IsToken (token msg.msg_token)
  MatchesType config_msg false msg m = AreConfigs o msg.list m.current m.world
  MatchesType t err msg m = Unit

  -- A message comes with what its type says: a request with sensor ids, a registration with a token,
  -- a configuration with configurations, whose updates return where they are made, in ONLINE.
  abbrev pub IsTyped : Callback → Program o → Type 0
  IsTyped (cloud_receive msg) m = MatchesType msg.msg_type msg.error msg m
  IsTyped c m = Unit

  -- each in the state in which it comes
  abbrev pub AllTyped : List Callback → Program o → Type 0
  AllTyped [] m = Unit
  AllTyped (c ∷ cs) m = IsTyped c m × AllTyped cs (callback o fl c m)

  conn_safe :
      (conn : Conn) (up : Bool) (m : Program o)
      → (conn_handler o conn up m).world.crashed ≡ m.world.crashed
  unfolding conn_handler
  conn_safe conn up m =
      let mask = set_conn_bitmask up m.world.conn_mask (conn_code conn) in
      let m' : Program o = record m { world = record m.world { conn_mask = mask } } in
      elim (Bool-cases (not (mask == connected_mask))) [
        | inl e ↦ rw (e, conn_handler) (input_safe o not_ready null m' tt)
        | inr e ↦ rw (e, conn_handler) (input_safe o ready null m' tt)
      ]

  receive_safe :
      (t : MsgType) (err : Bool) (msg : CloudMsg) (m : Program o)
      → MatchesType t err msg m
      → (receive o t err msg m).world.crashed ≡ m.world.crashed
  unfolding receive
  receive_safe update_msg false msg m h = input_safe o data_updt msg.list m tt
  receive_safe request_msg false msg m h = input_safe o pub_data msg.list m h
  receive_safe register_msg true msg m h = input_safe o reg_not_ok null m tt
  receive_safe register_msg false msg m h = input_safe o reg_ok (token msg.msg_token) m h
  receive_safe unregister_msg false msg m h = input_safe o unreg_req null m tt
  receive_safe auth_msg true msg m h = input_safe o auth_not_ok null m tt
  receive_safe auth_msg false msg m h = input_safe o auth_ok null m tt
  receive_safe config_msg true msg m h = input_safe o cfg_upt_not_ok null m tt
  receive_safe config_msg false msg m h = input_safe o cfg_upt_ok msg.list m h
  receive_safe _ _ msg m h = refl

  check_safe :
      (id : ℤ) (i : DataItem) (items : List DataItem) (m : Program o)
      → (check_item o fl id i items m).world.crashed ≡ m.world.crashed
  unfolding check_item
  check_safe id i items m =
      elim (Bool-cases (
        ltb_ℤ (pos 0) (
          event_check_value fl m.world.event.active i.event i.current_val i.sent_val
            (o.knot.value_type i.schema.value_type)))) [
              | inl e ↦ rw (e, check_item) (input_safe o pub_data (sensor_ids (id ∷ [])) _ tt)
              | inr e ↦ rw (e, check_item) refl
            ]

  item_safe :
      (slave : Slave) (id : ℤ) (i : Option DataItem) (m : Program o)
      → (receive_item o fl slave id i m).1.world.crashed ≡ m.world.crashed
  unfolding receive_item
  item_safe slave id none m = refl
  item_safe slave id (some i) m =
      let s = i.modbus_source in
      let v = (iface_modbus_read_data slave s.reg_addr s.bit_offset s.endianness_type_sensor).1 in
      check_safe id (store_value v i) (update_item id (store_value v) m.world.thing.data_items) m

  callback_safe :
      (c : Callback) (m : Program o)
      → IsTyped c m
      → (callback o fl c m).world.crashed ≡ m.world.crashed
  unfolding callback on_cloud_connected on_cloud_disconnected on_modbus_connected
      on_modbus_disconnected on_msg_timeout on_event_timeout on_cloud_receive on_modbus_poll_receive
      poll_start
  callback_safe cloud_connected m h = conn_safe cloud true m
  callback_safe cloud_disconnected m h = conn_safe cloud false m
  callback_safe modbus_connected m h = conn_safe modbus true _
  callback_safe modbus_disconnected m h = conn_safe modbus false _
  callback_safe msg_timeout m h = input_safe o timeout null (ended o fl m) tt
  callback_safe (event_timeout id) m h = input_safe o pub_data (sensor_ids (id ∷ [])) m tt
  callback_safe (cloud_receive msg) m h = receive_safe msg.msg_type msg.error msg m h
  callback_safe (poll_receive slave id) m h =
      item_safe slave id (lookup_item id m.world.thing.data_items) m

  -- In a session whose messages come with what their types say, in any order of callbacks and with any
  -- answers from outside, no pointer that is NULL or of another type is read through: the mark for it
  -- stays as it was. A request comes with a queue of sensor ids or NULL, a registration with a token,
  -- and a configuration with a queue of configurations or NULL; where it comes in ONLINE,
  -- properties_update_data_item returns for each of them.
  pub session_safe :
      (cs : List Callback) (m : Program o)
      → AllTyped cs m
      → (session o fl cs m).world.crashed ≡ m.world.crashed
  unfolding session
  session_safe [] m h = refl
  session_safe (c ∷ cs) m (a, b) = session_safe cs (callback o fl c m) b ∙ callback_safe c m a
