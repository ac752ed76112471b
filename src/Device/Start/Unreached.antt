-- ===== src/Device/Start/Unreached.antt =====
-- src/device.c, device_start, where the slave's address has a prefix that src/iface-modbus.c does not
-- know.
use knot_virtualthing.Prelude.{
  ℤ, pos, String, true, false, ◌≡◌, refl, ap, ◌∙◌, Option, none, some, [], is_neg, is_nonzero,
  arith, Option-cases, Bool-cases, inl, inr, codes, is_prefix,
}
use knot_virtualthing.Protocol.{Value}
use knot_virtualthing.Storage.{LSettings, Store, einval}
use knot_virtualthing.Thing.{Thing, DeviceSettings}
use knot_virtualthing.Thing.Calls.{cloud_start}
use knot_virtualthing.Modbus.Connect.{
  ModbusLibrary, Link, create_ctx, start_made, iface_modbus_start, tcp_prefix, rtu_prefix,
}
use knot_virtualthing.Modbus.Connect.Held.{live_timers}
use knot_virtualthing.Sm.{sm_start}
use knot_virtualthing.Properties.Create.{properties_create_device}
use knot_virtualthing.Device.World.{World, Outside, say}
use knot_virtualthing.Device.Handlers.{Program, on_modbus_connected, on_modbus_disconnected}
use knot_virtualthing.Device.Polling.{create_data_item_polling}
use knot_virtualthing.Device.Start.{
  Process, start_cloud, start_modbus, start_polling, start_created, device_start, on_world,
}
use knot_virtualthing.Device.Start.Failed.{IsFresh}

-- The connection of a process that has started: what iface_modbus_start made of the one before it.
abbrev pub IsLinked :
    {l : LSettings} (o : Outside l) → ModbusLibrary → Link (Program o) → Process o → Type 0
IsLinked o lib link p =
    p.link
    ≡ (iface_modbus_start lib p.machine.world.thing.modbus_slave_url
        p.machine.world.thing.modbus_slave_id (some (on_modbus_connected o))
        (some (on_modbus_disconnected o)) link).1

module _ {W : Type 0} (lib : ModbusLibrary) where
  -- An address with neither prefix gives no context, and the positive return code 22.
  pub unknown_prefix :
      (url : String) (slave_id : ℤ) (connected_cb disconnected_cb : Option (W → W)) (link : Link W)
      → is_prefix tcp_prefix (codes url) ≡ false
      → is_prefix rtu_prefix (codes url) ≡ false
      → iface_modbus_start lib url slave_id connected_cb disconnected_cb link
        ≡ (pos einval, record link { modbus_ctx = none })
  unfolding iface_modbus_start create_ctx start_made
  unknown_prefix url slave_id connected_cb disconnected_cb link a b = rw (a, b, create_ctx) refl

module _ {l : LSettings} (o : Outside l) (lib : ModbusLibrary) where
  start_modbus-IsLinked :
      (conf_files : DeviceSettings) (p : Process o)
      → is_nonzero (start_modbus o lib conf_files p).0 ≡ false
      → IsLinked o lib p.link (start_modbus o lib conf_files p).1
  unfolding start_modbus start_cloud
  start_modbus-IsLinked conf_files p h =
      let thing = p.machine.world.thing in
      let (err, link') =
        iface_modbus_start lib thing.modbus_slave_url thing.modbus_slave_id
          (some (on_modbus_connected o)) (some (on_modbus_disconnected o)) p.link in
      let (err', w) = say o (cloud_start thing.rabbitmq_url thing.user_token) p.machine.world in
      elim (Bool-cases (is_neg err)) [
        | inl e ↦ absurd (ground arith)
        | inr e ↦ elim (Bool-cases (is_neg err')) [
          | inl e' ↦ absurd (ground arith)
          | inr e' ↦ rw (e, e', start_modbus, start_cloud) refl
        ]
      ]

  start_polling-IsLinked :
      (conf_files : DeviceSettings) (p : Process o)
      → is_nonzero (start_polling o lib conf_files p).0 ≡ false
      → IsLinked o lib p.link (start_polling o lib conf_files p).1
  unfolding start_polling
  start_polling-IsLinked conf_files p h =
      let w = p.machine.world in
      let (err, (log', poll')) =
        create_data_item_polling o.ans w.thing.data_items (w.log, w.poll) in
      let p' = on_world o lib (λ v. record w { log = log'; poll = poll' }) p in
      elim (Bool-cases (is_neg err)) [
        | inl e ↦ absurd (ground arith)
        | inr e ↦ rw (e, start_polling) (start_modbus-IsLinked conf_files p' (ground arith))
      ]

  start_created-IsLinked :
      (conf_files : DeviceSettings) (created : ℤ × (Thing × Store l)) (p : Process o)
      → is_nonzero (start_created o lib conf_files created p).0 ≡ false
      → IsLinked o lib p.link (start_created o lib conf_files created p).1
  unfolding start_created sm_start
  start_created-IsLinked conf_files (code, (thing, store)) p h =
      let w : World l = record p.machine.world { thing = thing; store = store } in
      elim (Bool-cases (is_nonzero code)) [
        | inl n ↦ absurd (ground arith)
        | inr n ↦
            rw (n, start_created)
              (start_polling-IsLinked conf_files
                (record { machine = sm_start w; link = p.link; thing_held = true }) (ground arith))
      ]

  pub device_start-IsLinked :
      (junk : Value) (conf_files : DeviceSettings) (p p' : Process o)
      → device_start o lib junk conf_files p ≡ some (pos 0, p')
      → IsLinked o lib p.link p'
  unfolding device_start
  device_start-IsLinked junk conf_files p p' h =
      let w = p.machine.world in
      let blank : Thing = record w.thing { data_items = [] } in
      elim (Option-cases (properties_create_device l o.sys o.knot junk conf_files blank w.store)) [
        | inl e ↦ absurd (ground (arith, e))
        | inr (created, e) ↦
            let same : start_created o lib conf_files created p ≡ (pos 0, p') = ground (arith, e) in
            let code : (start_created o lib conf_files created p).0 ≡ pos 0 = cc in
            let there : (start_created o lib conf_files created p).1 ≡ p' = cc in
            rw (← there) (start_created-IsLinked conf_files created p (ap is_nonzero code))
      ]

  -- The connection after a start with such an address.
  pub unknown_prefix_link :
      (junk : Value) (conf_files : DeviceSettings) (p p' : Process o)
      → IsFresh p
      → device_start o lib junk conf_files p ≡ some (pos 0, p')
      → is_prefix tcp_prefix (codes p'.machine.world.thing.modbus_slave_url) ≡ false
      → is_prefix rtu_prefix (codes p'.machine.world.thing.modbus_slave_url) ≡ false
      → (p'.link ≡ record p.link { modbus_ctx = none })
        × (p'.link.modbus_ctx ≡ none)
        × (live_timers p'.link.calls ≡ [])
  unknown_prefix_link junk conf_files p p' f h a b =
      let thing = p'.machine.world.thing in
      let e =
        device_start-IsLinked junk conf_files p p' h
        ∙ ap (λ (r : ℤ × Link (Program o)). r.1)
            (unknown_prefix lib thing.modbus_slave_url thing.modbus_slave_id
              (some (on_modbus_connected o)) (some (on_modbus_disconnected o)) p.link a b) in
      (
        e,
        ap (λ (k : Link (Program o)). k.modbus_ctx) e,
        ap (λ (k : Link (Program o)). live_timers k.calls) e ∙ f.idle_link.no_timers,
      )
