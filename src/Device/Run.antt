-- ===== src/Device/Run.antt =====
-- src/device.c with src/iface-modbus.c: the running program, in which the timer of the connection to
-- the slave, the loss of the connection and all other callbacks follow each other in any order.
pub mod Mask
pub mod Started
use knot_virtualthing.Prelude.{
  not, ◌==◌, ℕ, Bool, true, false, ◌||◌, Option, none, some, List, [], ◌∷◌, if◌then◌else◌,
}
use knot_virtualthing.Protocol.{Float}
use knot_virtualthing.Storage.{LSettings}
use knot_virtualthing.Modbus.Connect.{Calls, ModbusLibrary, Link, attempt_connect, on_disconnected}
use knot_virtualthing.Modbus.Connect.Held.{times_set}
use knot_virtualthing.Device.World.{Outside}
use knot_virtualthing.Device.Handlers.{Program}
use knot_virtualthing.Device.Session.{Callback, callback}
use knot_virtualthing.Device.Masked.{IsElsewhere}

-- The machine with the device, the connection to the slave, and whether its timer is running: it has
-- been set, by its creation or again, and has not ended since.
pub record Running {l : LSettings} (o : Outside l) : Type 0 where
  pub machine : Program o
  pub link : Link (Program o)
  pub armed : Bool

-- The timer of the connection ends, the watched connection is lost, or another callback runs.
pub data RunStep : Type 0 where
  timer_ends lost : RunStep
  elsewhere : (c : Callback) → IsElsewhere c → RunStep

-- Of the calls from `log` to `log'`, one has set the timer.
abbrev pub is_set : Calls → Calls → Bool
is_set log log' = not (times_set log' == times_set log)

abbrev pub is_there : Option ℕ → Bool
is_there none = false
is_there (some to) = true

module _ {l : LSettings} (o : Outside l) (lib : ModbusLibrary) (fl : Float) where
  -- A timer that ends is not running, until a call sets it again.
  unfoldable pub attempt_step : Running o → Running o
  attempt_step r =
      let (link', m) = attempt_connect lib r.link.connect_to (r.link, r.machine) in
      if r.armed
      then record { machine = m; link = link'; armed = is_set r.link.calls link'.calls }
      else r

  -- l_io calls on_disconnected only where there is one.
  unfoldable pub lost_step : Running o → Running o
  lost_step r =
      let (link', m) = on_disconnected lib (r.link, r.machine) in
      if is_there r.link.modbus_io
      then record { machine = m; link = link'; armed = r.armed || is_set r.link.calls link'.calls }
      else r

  abbrev pub run_step : RunStep → Running o → Running o
  run_step timer_ends r = attempt_step r
  run_step lost r = lost_step r
  run_step (elsewhere c e) r = record r { machine = callback o fl c r.machine }

  unfoldable pub run_steps : List RunStep → Running o → Running o
  run_steps [] r = r
  run_steps (s ∷ ss) r = run_steps ss (run_step s r)
