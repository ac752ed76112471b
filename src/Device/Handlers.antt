-- ===== src/Device/Handlers.antt =====
-- src/device.c: the callbacks of the cloud library, of the Modbus connection and of the timers, each
-- of which feeds the state machine.
use Prim.Native.Nat.{bit_and, bit_or}
use knot_virtualthing.Prelude.{
  ℕ, ◌-◌, ◌==◌, ℤ, pos, String, Bool, true, false, not, Option, none, some, List, [], ◌∷◌, ltb_ℤ,
  if◌then◌else◌,
}
use knot_virtualthing.Protocol.{Value, Float}
use knot_virtualthing.Storage.{LSettings, minus, einval}
use knot_virtualthing.Thing.{DataItem, lookup_item, update_item}
use knot_virtualthing.Event.Compare.{event_check_value}
use knot_virtualthing.Poll.{poll_start, poll_stop}
use knot_virtualthing.Modbus.Read.{Slave, iface_modbus_read_data}
use knot_virtualthing.Sm.{
  Machine, Event, ready, not_ready, timeout, auth_ok, auth_not_ok, reg_ok, reg_not_ok, cfg_upt_ok,
  cfg_upt_not_ok, unreg_req, pub_data, data_updt, sm_input_event,
}
use knot_virtualthing.Device.World.{UserData, null, token, sensor_ids, World, Outside, device}

-- enum CONN_TYPE
pub data Conn : Type 0 where
  modbus cloud : Conn

abbrev pub conn_code : Conn → ℕ
conn_code modbus = 0x0f
conn_code cloud = 0xf0

abbrev pub connected_mask : ℕ
connected_mask = 0xff

-- `~b2` of the macro set_conn_bitmask, on the eight bits of the mask
unfoldable pub set_conn_bitmask : Bool → ℕ → ℕ → ℕ
set_conn_bitmask true b1 b2 = bit_or b1 b2
set_conn_bitmask false b1 b2 = bit_and b1 (0xff - b2)

-- The types of the cloud library's messages; `other` is a value outside the enumeration.
pub data MsgType : Type 0 where
  update_msg request_msg register_msg unregister_msg auth_msg config_msg list_msg : MsgType
  msg_types_length : MsgType
  other : ℕ → MsgType

-- struct knot_cloud_msg: whether `error` is set, the token, and the queue `list`.
pub record CloudMsg : Type 0 where
  pub msg_type : MsgType
  pub error : Bool
  pub msg_token : Option String
  pub list : UserData

-- The item with the value that was read; where the read failed the value stays.
abbrev pub store_value : Option Value → DataItem → DataItem
store_value none i = i
store_value (some v) i = record i { current_val = v }

abbrev pub mark_sent : DataItem → DataItem
mark_sent i = record i { sent_val = i.current_val }

module _ {l : LSettings} (o : Outside l) where
  abbrev pub Program : Type 0
  Program = Machine (World l)

  abbrev pub input : Event → UserData → Program → Program
  input e p m = sm_input_event (device o) e p m

  abbrev pub with_world : Program → World l → Program
  with_world m w = record m { world = w }

  unfoldable pub conn_handler : Conn → Bool → Program → Program
  conn_handler conn is_up m =
      let mask = set_conn_bitmask is_up m.world.conn_mask (conn_code conn) in
      let m' = with_world m (record m.world { conn_mask = mask }) in
      if not (mask == connected_mask) then input not_ready null m' else input ready null m'

  unfoldable pub on_cloud_connected : Program → Program
  on_cloud_connected = conn_handler cloud true

  unfoldable pub on_cloud_disconnected : Program → Program
  on_cloud_disconnected = conn_handler cloud false

  unfoldable pub on_modbus_connected : Program → Program
  on_modbus_connected m =
      let (log', poll') = poll_start (m.world.log, m.world.poll) in
      conn_handler modbus true (with_world m (record m.world { poll = poll'; log = log' }))

  unfoldable pub on_modbus_disconnected : Program → Program
  on_modbus_disconnected m =
      conn_handler modbus false (with_world m (record m.world { poll = poll_stop m.world.poll }))

  unfoldable pub on_msg_timeout : Program → Program
  on_msg_timeout = input timeout null

  unfoldable pub on_event_timeout : ℤ → Program → Program
  on_event_timeout id = input pub_data (sensor_ids (id ∷ []))

  -- the `switch` on the type, with `error`
  unfoldable pub receive : MsgType → Bool → CloudMsg → Program → Program
  receive update_msg false msg m = input data_updt msg.list m
  receive request_msg false msg m = input pub_data msg.list m
  receive register_msg true msg m = input reg_not_ok null m
  receive register_msg false msg m = input reg_ok (token msg.msg_token) m
  receive unregister_msg false msg m = input unreg_req null m
  receive auth_msg true msg m = input auth_not_ok null m
  receive auth_msg false msg m = input auth_ok null m
  receive config_msg true msg m = input cfg_upt_not_ok null m
  receive config_msg false msg m = input cfg_upt_ok msg.list m
  receive _ _ msg m = m

  unfoldable pub on_cloud_receive : CloudMsg → Program → Program
  unfolding receive
  on_cloud_receive msg m = receive msg.msg_type msg.error msg m

  abbrev pub set_items : Program → List DataItem → Program
  set_items m items =
      with_world m (record m.world { thing = record m.world.thing { data_items = items } })

  -- on_modbus_poll_receive behind its lookup: `i` is the item with the value that was read.
  unfoldable pub check_item : Float → ℤ → DataItem → List DataItem → Program → Program
  check_item fl id i items m =
      let verdict =
        event_check_value fl m.world.event.active i.event i.current_val i.sent_val
          (o.knot.value_type i.schema.value_type) in
      if ltb_ℤ (pos 0) verdict
      then input pub_data (sensor_ids (id ∷ [])) (set_items m (update_item id mark_sent items))
      else set_items m items

  unfoldable pub receive_item : Float → Slave → ℤ → Option DataItem → Program → ℤ × Program
  unfolding check_item
  receive_item fl slave id none m = (minus einval, m)
  receive_item fl slave id (some i) m =
      let (rc, v) =
        iface_modbus_read_data slave i.modbus_source.reg_addr i.modbus_source.bit_offset
          i.modbus_source.endianness_type_sensor in
      (
        rc,
        check_item fl id (store_value v i) (update_item id (store_value v) m.world.thing.data_items)
            m,
      )

  unfoldable pub on_modbus_poll_receive : Float → Slave → ℤ → Program → ℤ × Program
  unfolding receive_item
  on_modbus_poll_receive fl slave id m =
      receive_item fl slave id (lookup_item id m.world.thing.data_items) m
