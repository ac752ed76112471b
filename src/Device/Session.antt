-- ===== src/Device/Session.antt =====
-- A session of src/device.c: the callbacks in the order in which the main loop makes them.
use knot_virtualthing.Prelude.{ℤ, List, [], ◌∷◌}
use knot_virtualthing.Protocol.{Float}
use knot_virtualthing.Storage.{LSettings}
use knot_virtualthing.Thing.Calls.{timeout_ended}
use knot_virtualthing.Modbus.Read.{Slave}
use knot_virtualthing.Device.World.{Outside}
use knot_virtualthing.Device.Handlers.{
  CloudMsg, Program, on_cloud_connected, on_cloud_disconnected, on_modbus_connected,
  on_modbus_disconnected, on_msg_timeout, on_event_timeout, on_cloud_receive,
  on_modbus_poll_receive,
}

pub data Callback : Type 0 where
  cloud_connected cloud_disconnected modbus_connected modbus_disconnected msg_timeout : Callback
  event_timeout : ℤ → Callback
  cloud_receive : CloudMsg → Callback
  -- with what the slave answers to this read
  poll_receive : Slave → ℤ → Callback

module _ {l : LSettings} (o : Outside l) (fl : Float) where
  -- The reply timer has ended; it does not run until it is set again.
  abbrev pub ended : Program o → Program o
  ended m = record m {
    world = record m.world { log = timeout_ended m.world.thing.msg_to ∷ m.world.log };
  }

  unfoldable pub callback : Callback → Program o → Program o
  callback cloud_connected m = on_cloud_connected o m
  callback cloud_disconnected m = on_cloud_disconnected o m
  callback modbus_connected m = on_modbus_connected o m
  callback modbus_disconnected m = on_modbus_disconnected o m
  callback msg_timeout m = on_msg_timeout o (ended m)
  callback (event_timeout id) m = on_event_timeout o id m
  callback (cloud_receive msg) m = on_cloud_receive o msg m
  callback (poll_receive slave id) m = (on_modbus_poll_receive o fl slave id m).1

  unfoldable pub session : List Callback → Program o → Program o
  session [] m = m
  session (c ∷ cs) m = session cs (callback c m)
