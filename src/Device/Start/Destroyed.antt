-- ===== src/Device/Start/Destroyed.antt =====
-- src/device.c, device_destroy: a device that has started is taken down.
use knot_virtualthing.Prelude.{pos, false, ◌≡◌, refl, none, some, []}
use knot_virtualthing.Protocol.{Value}
use knot_virtualthing.Storage.{LSettings}
use knot_virtualthing.Thing.{DeviceSettings}
use knot_virtualthing.Event.Sensors.{event_stop}
use knot_virtualthing.Poll.Timers.{Accounts, poll_destroy-live}
use knot_virtualthing.Modbus.Connect.{ModbusLibrary, iface_modbus_stop}
use knot_virtualthing.Modbus.Connect.Held
use knot_virtualthing.Modbus.Connect.Held.{live_contexts, is_up}
use knot_virtualthing.Modbus.Connect.Lifetime.{iface_modbus_stop-IsIdle}
use knot_virtualthing.Device.World.{World, Outside}
use knot_virtualthing.Device.Start.{
  Process, device_start, device_destroy, knot_thing_destroy, on_world, stop_events, stop_cloud,
  destroy_polls,
}
use knot_virtualthing.Device.Start.Failed.{IsFresh, NothingLive, destroyed-NothingLive}
use knot_virtualthing.Device.Start.Succeeded.{device_start-IsStarted}

module _ {l : LSettings} (o : Outside l) (lib : ModbusLibrary) where
  stop_events-Accounts :
      (w : World l)
      → w.event.sensor_timeouts ≡ none
      → Accounts (w.log, w.poll)
      → Accounts ((stop_events o lib w).log, (stop_events o lib w).poll)
  unfolding event_stop
  stop_events-Accounts w e a = rw (e, event_stop) a

  device_destroy-NothingLive :
      (p : Process o)
      → p.machine.world.event.sensor_timeouts ≡ none
      → Accounts (p.machine.world.log, p.machine.world.poll)
      → Held.Accounts p.link
      → let p' = device_destroy o lib p in
        NothingLive p'
        × (live_contexts p'.link.calls ≡ [])
        × (is_up p'.link.calls ≡ false)
        × (p'.thing_held ≡ false)
  unfolding device_destroy knot_thing_destroy iface_modbus_stop
  device_destroy-NothingLive p e a b =
      let idle = iface_modbus_stop-IsIdle lib p.link b in
      let w = stop_events o lib p.machine.world in
      let q : Process o =
        record (on_world o lib (λ v. stop_cloud o lib (destroy_polls o lib w)) p) {
          link = iface_modbus_stop lib p.link;
        } in
      let (n, held) = destroyed-NothingLive o lib q (record {
        no_timers = poll_destroy-live (w.log, w.poll) (stop_events-Accounts p.machine.world e a);
        no_attempts = idle.no_timers;
        no_ios = idle.no_ios;
      }) in
      (n, idle.no_contexts, refl, held)

  -- A device that a fresh process has started with the return code 0 is taken down by device_destroy
  -- without a trace: no timer of a polling or of an attempt to connect is live, no l_io and no
  -- context, no connection is open, and what the thing points to is freed.
  pub device_start-destroy :
      (junk : Value) (conf_files : DeviceSettings) (p p' : Process o)
      → IsFresh p
      → device_start o lib junk conf_files p ≡ some (pos 0, p')
      → let p'' = device_destroy o lib p' in
        NothingLive p''
        × (live_contexts p''.link.calls ≡ [])
        × (is_up p''.link.calls ≡ false)
        × (p''.thing_held ≡ false)
  device_start-destroy junk conf_files p p' f h =
      let s = device_start-IsStarted o lib junk conf_files p (pos 0) p' f h refl in
      device_destroy-NothingLive p' s.no_events s.polls_held s.link_held
