-- ===== src/Device/Start.antt =====
-- src/device.c: device_start and device_destroy, which bring up and take down all other parts. The
-- proofs are in the children.
pub mod Failed
pub mod Succeeded
pub mod Unreached
pub mod Destroyed
use knot_virtualthing.Prelude.{
  ℕ, ℤ, Bool, true, false, Option, none, some, List, [], ◌∷◌, is_neg, is_nonzero, pos,
  if◌then◌else◌,
}
use knot_virtualthing.Protocol.{Value}
use knot_virtualthing.Storage.{LSettings, Store, minus, einval}
use knot_virtualthing.Thing.{Thing, DeviceSettings}
use knot_virtualthing.Thing.Calls.{Log, timeout_remove, cloud_start, cloud_stop}
use knot_virtualthing.Event.Sensors.{event_stop}
use knot_virtualthing.Poll.{poll_destroy}
use knot_virtualthing.Modbus.Connect.{ModbusLibrary, Link, iface_modbus_start, iface_modbus_stop}
use knot_virtualthing.Sm.{sm_start}
use knot_virtualthing.Properties.Create.{properties_create_device}
use knot_virtualthing.Device.World.{World, Outside, say}
use knot_virtualthing.Device.Handlers.{
  Program, with_world, on_modbus_connected, on_modbus_disconnected,
}
use knot_virtualthing.Device.Polling.{create_data_item_polling}

-- All state of the program: the machine with the device behind it, the connection to the slave, and
-- whether the texts and data items that `thing` points to are allocated.
pub record Process {l : LSettings} (o : Outside l) : Type 0 where
  pub machine : Program o
  pub link : Link (Program o)
  pub thing_held : Bool

-- `if (to) l_timeout_remove(to)`
abbrev pub remove_timer : Option ℕ → Log → Log
remove_timer none log = log
remove_timer (some to) log = timeout_remove (some to) ∷ log

module _ {l : LSettings} (o : Outside l) (lib : ModbusLibrary) where
  abbrev pub on_world : (World l → World l) → Process o → Process o
  on_world f p = record p { machine = with_world o p.machine (f p.machine.world) }

  unfoldable pub knot_thing_destroy : Process o → Process o
  knot_thing_destroy p =
      record (on_world (λ w. record w { log = remove_timer w.thing.msg_to w.log }) p) {
        thing_held = false;
      }

  abbrev pub destroy_polls : World l → World l
  destroy_polls w =
      let (log', poll') = poll_destroy (w.log, w.poll) in record w { log = log'; poll = poll' }

  -- from knot_cloud_start on
  unfoldable pub start_cloud : DeviceSettings → Process o → ℤ × Process o
  start_cloud conf_files p =
      let thing = p.machine.world.thing in
      let (err, w) = say o (cloud_start thing.rabbitmq_url thing.user_token) p.machine.world in
      let failed = record (on_world (λ v. destroy_polls w) p) {
        link = iface_modbus_stop lib p.link;
      } in
      if is_neg err
      then (err, knot_thing_destroy failed)
      else (pos 0, on_world (λ v. record w { thing = record thing { conf_files = conf_files } }) p)

  -- from iface_modbus_start on
  unfoldable pub start_modbus : DeviceSettings → Process o → ℤ × Process o
  start_modbus conf_files p =
      let thing = p.machine.world.thing in
      let (err, link') =
        iface_modbus_start lib thing.modbus_slave_url thing.modbus_slave_id
          (some (on_modbus_connected o)) (some (on_modbus_disconnected o)) p.link in
      let p' = record p { link = link' } in
      if is_neg err
      then (err, knot_thing_destroy (on_world destroy_polls p'))
      else start_cloud conf_files p'

  -- from create_data_item_polling on
  unfoldable pub start_polling : DeviceSettings → Process o → ℤ × Process o
  start_polling conf_files p =
      let w = p.machine.world in
      let (err, (log', poll')) =
        create_data_item_polling o.ans w.thing.data_items (w.log, w.poll) in
      let p' = on_world (λ v. record w { log = log'; poll = poll' }) p in
      if is_neg err then (err, knot_thing_destroy p') else start_modbus conf_files p'

  -- properties_create_device has answered.
  unfoldable pub start_created : DeviceSettings → ℤ × (Thing × Store l) → Process o → ℤ × Process o
  start_created conf_files (rc, (thing, store)) p =
      let w = record p.machine.world { thing = thing; store = store } in
      if is_nonzero rc
      then (minus einval, record (on_world (λ v. w) p) { thing_held = true })
      else start_polling conf_files
          (record { machine = sm_start w; link = p.link; thing_held = true })

  -- `none` is the copy from NULL in properties_create_device; `junk` is what the stack holds there.
  unfoldable pub device_start : Value → DeviceSettings → Process o → Option (ℤ × Process o)
  device_start junk conf_files p =
      let w = p.machine.world in
      elim (properties_create_device l o.sys o.knot junk conf_files
        (record w.thing { data_items = [] }) w.store) [
          | none ↦ none
          | some created ↦ some (start_created conf_files created p)
        ]

  abbrev pub stop_events : World l → World l
  stop_events w =
      let (log', event') = event_stop (w.log, w.event) in record w { log = log'; event = event' }

  -- `knot_cloud_stop`
  abbrev pub stop_cloud : World l → World l
  stop_cloud w = record w { log = cloud_stop ∷ w.log }

  unfoldable pub device_destroy : Process o → Process o
  device_destroy p =
      let p' = on_world (λ w. stop_cloud (destroy_polls (stop_events w))) p in
      knot_thing_destroy (record p' { link = iface_modbus_stop lib p.link })
