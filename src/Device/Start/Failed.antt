-- ===== src/Device/Start/Failed.antt =====
-- src/device.c, device_start: what a start that fails leaves behind.
use knot_virtualthing.Prelude.{
  ℕ, ℤ, true, false, ◌≡◌, ◌⊎◌, refl, ap, sym, ◌∙◌, Option, none, some, [], is_neg, is_nonzero,
  arith, Option-cases, Bool-cases, inl, inr,
}
use knot_virtualthing.Protocol.{Value}
use knot_virtualthing.Storage.{LSettings, Store, minus, einval}
use knot_virtualthing.Thing.{Thing, DeviceSettings}
use knot_virtualthing.Thing.Calls.{Log, cloud_start}
use knot_virtualthing.Poll.Timers.{live, timers, Accounts, poll_destroy-live}
use knot_virtualthing.Modbus.Connect.{ModbusLibrary, iface_modbus_start}
use knot_virtualthing.Modbus.Connect.Held
use knot_virtualthing.Modbus.Connect.Held.{live_ios, live_timers, to_list}
use knot_virtualthing.Modbus.Connect.Lifetime.{
  IsIdle, iface_modbus_start-Accounts, iface_modbus_stop-IsIdle,
}
use knot_virtualthing.Modbus.Connect.Refused.{iface_modbus_start-failed}
use knot_virtualthing.Sm.{sm_start}
use knot_virtualthing.Properties.Create.{properties_create_device}
use knot_virtualthing.Device.World.{World, Outside, say}
use knot_virtualthing.Device.Handlers.{on_modbus_connected, on_modbus_disconnected}
use knot_virtualthing.Device.Polling.{
  create_data_item_polling, polling_failed, polling_sign, create_data_item_polling-Accounts,
}
use knot_virtualthing.Device.Start.{
  Process, remove_timer, knot_thing_destroy, start_cloud, start_modbus, start_polling,
  start_created, device_start, on_world,
}

-- Nothing has run yet: no timer is live, the queue of the pollings is empty, that of the sensors'
-- timers is NULL, nothing of the connection is live, and the mask names no connection.
pub record IsFresh {l : LSettings} {o : Outside l} (p : Process o) : Type 0 where
  pub no_timers : live p.machine.world.log ≡ []
  pub no_polls : p.machine.world.poll.poll_entries ≡ []
  pub no_events : p.machine.world.event.sensor_timeouts ≡ none
  pub idle_link : IsIdle p.link
  pub no_links : p.machine.world.conn_mask ≡ 0

-- No timer of ell is live, neither of the pollings nor of the connection, and no l_io.
pub record NothingLive {l : LSettings} {o : Outside l} (p : Process o) : Type 0 where
  pub no_timers : live p.machine.world.log ≡ []
  pub no_attempts : live_timers p.link.calls ≡ []
  pub no_ios : live_ios p.link.calls ≡ []

remove_timer-live : (to : Option ℕ) (log : Log) → live log ≡ [] → live (remove_timer to log) ≡ []
remove_timer-live none log h = h
remove_timer-live (some to) log h = rw h

module _ {l : LSettings} (o : Outside l) (lib : ModbusLibrary) where
  pub destroyed-NothingLive :
      (p : Process o)
      → NothingLive p
      → NothingLive (knot_thing_destroy o lib p) × ((knot_thing_destroy o lib p).thing_held ≡ false)
  unfolding knot_thing_destroy
  destroyed-NothingLive p n = (
    record {
      no_timers = remove_timer-live p.machine.world.thing.msg_to p.machine.world.log n.no_timers;
      no_attempts = n.no_attempts;
      no_ios = n.no_ios;
    },
    refl,
  )

  start_cloud-failed :
      (conf_files : DeviceSettings) (p : Process o)
      → Accounts (p.machine.world.log, p.machine.world.poll)
      → Held.Accounts p.link
      → is_nonzero (start_cloud o lib conf_files p).0 ≡ true
      → let p' = (start_cloud o lib conf_files p).1 in NothingLive p' × (p'.thing_held ≡ false)
  unfolding start_cloud
  start_cloud-failed conf_files p a b h =
      let thing = p.machine.world.thing in
      let (err, w) = say o (cloud_start thing.rabbitmq_url thing.user_token) p.machine.world in
      let idle = iface_modbus_stop-IsIdle lib p.link b in
      elim (Bool-cases (is_neg err)) [
        | inr e ↦ absurd (ground arith)
        | inl e ↦
            rw (e, start_cloud)
              (destroyed-NothingLive _ (record {
                no_timers = poll_destroy-live (w.log, w.poll) a;
                no_attempts = idle.no_timers;
                no_ios = idle.no_ios;
              }))
      ]

  start_modbus-failed :
      (conf_files : DeviceSettings) (p : Process o)
      → Accounts (p.machine.world.log, p.machine.world.poll)
      → IsIdle p.link
      → is_nonzero (start_modbus o lib conf_files p).0 ≡ true
      → let p' = (start_modbus o lib conf_files p).1 in NothingLive p' × (p'.thing_held ≡ false)
  unfolding start_modbus
  start_modbus-failed conf_files p a i h =
      let thing = p.machine.world.thing in
      let up = some (on_modbus_connected o) in
      let down = some (on_modbus_disconnected o) in
      let (err, link') =
        iface_modbus_start lib thing.modbus_slave_url thing.modbus_slave_id up down p.link in
      elim (Bool-cases (is_neg err)) [
        | inl e ↦
            let (t, io) =
              iface_modbus_start-failed lib thing.modbus_slave_url thing.modbus_slave_id up down
                p.link i e in
            rw (e, start_modbus)
              (destroyed-NothingLive _ (record {
                no_timers = poll_destroy-live (p.machine.world.log, p.machine.world.poll) a;
                no_attempts = t;
                no_ios = io;
              }))
        | inr e ↦
            let b =
              iface_modbus_start-Accounts lib thing.modbus_slave_url thing.modbus_slave_id up down
                p.link i in
            rw (e, start_modbus)
              (start_cloud-failed conf_files (record p { link = link' }) a b (ground arith))
      ]

  start_polling-failed :
      (conf_files : DeviceSettings) (p : Process o)
      → Accounts (p.machine.world.log, p.machine.world.poll)
      → IsIdle p.link
      → is_nonzero (start_polling o lib conf_files p).0 ≡ true
      → let p' = (start_polling o lib conf_files p).1 in NothingLive p' × (p'.thing_held ≡ false)
  unfolding start_polling
  start_polling-failed conf_files p a i h =
      let w = p.machine.world in
      let items = w.thing.data_items in
      let (err, (log', poll')) = create_data_item_polling o.ans items (w.log, w.poll) in
      let a' = create_data_item_polling-Accounts o.ans items (w.log, w.poll) a in
      elim (Bool-cases (is_neg err)) [
        | inl e ↦
            rw (e, start_polling)
              (destroyed-NothingLive _ (record {
                no_timers =
                    polling_failed o.ans items (w.log, w.poll) a
                      (polling_sign o.ans items (w.log, w.poll) ∙ e);
                no_attempts = i.no_timers;
                no_ios = i.no_ios;
              }))
        | inr e ↦
            rw (e, start_polling)
              (start_modbus-failed conf_files
                (on_world o lib (λ v. record w { log = log'; poll = poll' }) p) a' i (ground arith))
      ]

  start_created-failed :
      (conf_files : DeviceSettings) (created : ℤ × (Thing × Store l)) (p : Process o)
      → IsFresh p
      → is_nonzero (start_created o lib conf_files created p).0 ≡ true
      → let (rc, p') = start_created o lib conf_files created p in
        NothingLive p' × ((p'.thing_held ≡ false) ⊎ (rc ≡ minus einval))
  unfolding start_created sm_start
  start_created-failed conf_files (rc, (thing, store)) p f h =
      let w : World l = record p.machine.world { thing = thing; store = store } in
      let a : Accounts (w.log, w.poll) = f.no_timers ∙ ap timers (sym f.no_polls) in
      elim (Bool-cases (is_nonzero rc)) [
        | inl e ↦
            rw (e, start_created)
              (
                record {
                  no_timers = f.no_timers;
                  no_attempts = f.idle_link.no_timers;
                  no_ios = f.idle_link.no_ios;
                },
                inr refl,
              )
        | inr e ↦
            let (n, held) =
              start_polling-failed conf_files
                (record { machine = sm_start w; link = p.link; thing_held = true }) a f.idle_link
                (ground arith) in
            rw (e, start_created) (n, inl held)
      ]

  -- A start of a fresh process that returns an error leaves no timer of ell and no l_io: no timer of
  -- a polling and none of an attempt to connect. What the thing points to is freed, unless the error
  -- is -EINVAL.
  pub device_start-failed :
      (junk : Value) (conf_files : DeviceSettings) (p : Process o) (rc : ℤ) (p' : Process o)
      → IsFresh p
      → device_start o lib junk conf_files p ≡ some (rc, p')
      → is_nonzero rc ≡ true
      → NothingLive p' × ((p'.thing_held ≡ false) ⊎ (rc ≡ minus einval))
  unfolding device_start
  device_start-failed junk conf_files p rc p' f h n =
      let w = p.machine.world in
      elim (Option-cases (
        properties_create_device l o.sys o.knot junk conf_files (record w.thing { data_items = [] })
          w.store)) [
            | inl e ↦ absurd (ground (arith, e))
            | inr (created, e) ↦
                let same : start_created o lib conf_files created p ≡ (rc, p') =
                  ground (arith, e) in
                let code : (start_created o lib conf_files created p).0 ≡ rc = cc in
                let there : (start_created o lib conf_files created p).1 ≡ p' = cc in
                rw (← code, ← there) (start_created-failed conf_files created p f (rw code n))
          ]
