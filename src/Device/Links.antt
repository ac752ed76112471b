-- ===== src/Device/Links.antt =====
-- The two connections of src/device.c, and the mask in which they are kept.
use knot_virtualthing.Prelude.{ℕ, Bool, true, false, ◌≡◌, ◌&&◌, if◌then◌else◌}
use knot_virtualthing.Storage.{LSettings}
use knot_virtualthing.Sm.{ready, not_ready}
use knot_virtualthing.Device.World.{Outside, null}
use knot_virtualthing.Device.Handlers.{
  Conn, modbus, cloud, Program, input, conn_handler, set_conn_bitmask,
}

-- Which connections are up.
pub record Links : Type 0 where
  pub cloud_up : Bool
  pub modbus_up : Bool

abbrev pub mask_of : Bool → Bool → ℕ
mask_of false false = 0x00
mask_of false true = 0x0f
mask_of true false = 0xf0
mask_of true true = 0xff

abbrev pub mask : Links → ℕ
mask k = mask_of k.cloud_up k.modbus_up

abbrev pub set_link : Conn → Bool → Links → Links
set_link cloud up k = record k { cloud_up = up }
set_link modbus up k = record k { modbus_up = up }

module _ {l : LSettings} (o : Outside l) where
  conn_lem :
      (conn : Conn) (up c b : Bool) (m : Program o)
      → m.world.conn_mask ≡ mask_of c b
      → let k = set_link conn up (record { cloud_up = c; modbus_up = b }) in
        conn_handler o conn up m
        ≡ input o
            (if k.cloud_up && k.modbus_up then ready else not_ready)
            null
            (record m { world = record m.world { conn_mask = mask k } })
  unfolding conn_handler set_conn_bitmask
  conn_lem cloud true true true m h = rw h
  conn_lem cloud true true false m h = rw h
  conn_lem cloud true false true m h = rw h
  conn_lem cloud true false false m h = rw h
  conn_lem cloud false true true m h = rw h
  conn_lem cloud false true false m h = rw h
  conn_lem cloud false false true m h = rw h
  conn_lem cloud false false false m h = rw h
  conn_lem modbus true true true m h = rw h
  conn_lem modbus true true false m h = rw h
  conn_lem modbus true false true m h = rw h
  conn_lem modbus true false false m h = rw h
  conn_lem modbus false true true m h = rw h
  conn_lem modbus false true false m h = rw h
  conn_lem modbus false false true m h = rw h
  conn_lem modbus false false false m h = rw h

  -- Where the mask stands for two connections `k`, a change of one of them makes it stand for the two
  -- connections after the change, and the machine is given EVT_READY if both are then up and
  -- EVT_NOT_READY if one is down.
  pub conn_handler_lem :
      (conn : Conn) (up : Bool) (k : Links) (m : Program o)
      → m.world.conn_mask ≡ mask k
      → let k' = set_link conn up k in
        conn_handler o conn up m
        ≡ input o
            (if k'.cloud_up && k'.modbus_up then ready else not_ready)
            null
            (record m { world = record m.world { conn_mask = mask k' } })
  conn_handler_lem conn up k m h = conn_lem conn up k.cloud_up k.modbus_up m h
