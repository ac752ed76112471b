-- ===== src/Device/Start/Succeeded.antt =====
-- src/device.c, device_start: what a start that returns 0 has brought up.
use knot_virtualthing.Prelude.{
  ℤ, pos, negsuc, zero, suc, true, false, ◌≡◌, refl, ap, sym, ◌∙◌, none, some, List, [], is_neg,
  is_nonzero, arith, Option-cases, Bool-cases, inl, inr,
}
use knot_virtualthing.Protocol.{Value}
use knot_virtualthing.Storage.{LSettings, Store}
use knot_virtualthing.Thing.{Thing, DeviceSettings}
use knot_virtualthing.Thing.Calls.{cloud_start}
use knot_virtualthing.Poll.{PollEntry}
use knot_virtualthing.Poll.Timers.{live, timers, Accounts}
use knot_virtualthing.Modbus.Connect.{ModbusLibrary, iface_modbus_start}
use knot_virtualthing.Modbus.Connect.Held
use knot_virtualthing.Modbus.Connect.Held.{live_contexts, live_timers}
use knot_virtualthing.Modbus.Connect.Lifetime.{IsIdle, iface_modbus_start-Accounts}
use knot_virtualthing.Sm.{sm_start, disconnected}
use knot_virtualthing.Properties.Create.{properties_create_device}
use knot_virtualthing.Properties.Create.WellFormed.{WellFormed, WellFormed-files}
use knot_virtualthing.Properties.Create.Complete.{properties_create_device-WellFormed}
use knot_virtualthing.Device.World.{World, Outside, say}
use knot_virtualthing.Device.Handlers.{on_modbus_connected, on_modbus_disconnected}
use knot_virtualthing.Device.Polling.{
  polled, push_ids, create_data_item_polling, polling_created, polling_sign,
  create_data_item_polling-Accounts,
}
use knot_virtualthing.Device.Start.{
  Process, start_cloud, start_modbus, start_polling, start_created, device_start, on_world,
}
use knot_virtualthing.Device.Start.Failed.{IsFresh}

-- The thing is well formed and remembers its files, each data item has one polling, the queue of the
-- pollings holds the timers that are live, the static variables of the connection hold what is live
-- there, no sensor has a timer, the mask names no connection, and the machine is in DISCONNECTED.
pub record IsStarted {l : LSettings} {o : Outside l} (conf_files : DeviceSettings) (p : Process o)
    : Type 0 where
  pub well_formed : WellFormed o.knot p.machine.world.thing
  pub files_known : p.machine.world.thing.conf_files ≡ conf_files
  pub all_polled :
      polled p.machine.world.poll.poll_entries ≡ push_ids p.machine.world.thing.data_items []
  pub polls_held : Accounts (p.machine.world.log, p.machine.world.poll)
  pub link_held : Held.Accounts p.link
  pub no_events : p.machine.world.event.sensor_timeouts ≡ none
  pub no_links : p.machine.world.conn_mask ≡ 0
  pub machine_idle : p.machine.current ≡ disconnected

-- The same before the files are remembered and the cloud is started.
record IsPolled {l : LSettings} {o : Outside l} (p : Process o) : Type 0 where
  well_formed : WellFormed o.knot p.machine.world.thing
  all_polled :
      polled p.machine.world.poll.poll_entries ≡ push_ids p.machine.world.thing.data_items []
  polls_held : Accounts (p.machine.world.log, p.machine.world.poll)
  no_events : p.machine.world.event.sensor_timeouts ≡ none
  no_links : p.machine.world.conn_mask ≡ 0
  machine_idle : p.machine.current ≡ disconnected

zero-code : (rc : ℤ) → is_nonzero rc ≡ false → rc ≡ pos 0
zero-code (pos zero) h = refl
zero-code (pos (suc n)) h = absurd (cc)
zero-code (negsuc n) h = absurd (cc)

module _ {l : LSettings} (o : Outside l) (lib : ModbusLibrary) where
  start_cloud-IsStarted :
      (conf_files : DeviceSettings) (p : Process o)
      → IsPolled p
      → Held.Accounts p.link
      → is_nonzero (start_cloud o lib conf_files p).0 ≡ false
      → IsStarted conf_files (start_cloud o lib conf_files p).1
  unfolding start_cloud
  start_cloud-IsStarted conf_files p s a h =
      let thing = p.machine.world.thing in
      let (err, w) = say o (cloud_start thing.rabbitmq_url thing.user_token) p.machine.world in
      elim (Bool-cases (is_neg err)) [
        | inl e ↦ absurd (ground arith)
        | inr e ↦
            rw (e, start_cloud)
              (record {
                well_formed = WellFormed-files o.knot thing conf_files s.well_formed;
                files_known = refl;
                all_polled = s.all_polled;
                polls_held = s.polls_held;
                link_held = a;
                no_events = s.no_events;
                no_links = s.no_links;
                machine_idle = s.machine_idle;
              })
      ]

  start_modbus-IsStarted :
      (conf_files : DeviceSettings) (p : Process o)
      → IsPolled p
      → IsIdle p.link
      → is_nonzero (start_modbus o lib conf_files p).0 ≡ false
      → IsStarted conf_files (start_modbus o lib conf_files p).1
  unfolding start_modbus
  start_modbus-IsStarted conf_files p s i h =
      let thing = p.machine.world.thing in
      let up = some (on_modbus_connected o) in
      let down = some (on_modbus_disconnected o) in
      let (err, link') =
        iface_modbus_start lib thing.modbus_slave_url thing.modbus_slave_id up down p.link in
      elim (Bool-cases (is_neg err)) [
        | inl e ↦ absurd (ground arith)
        | inr e ↦
            rw (e, start_modbus)
              (start_cloud-IsStarted conf_files (record p { link = link' })
                (record {
                  well_formed = s.well_formed;
                  all_polled = s.all_polled;
                  polls_held = s.polls_held;
                  no_events = s.no_events;
                  no_links = s.no_links;
                  machine_idle = s.machine_idle;
                })
                (iface_modbus_start-Accounts lib thing.modbus_slave_url thing.modbus_slave_id up
                  down p.link i)
                (ground arith))
      ]

  start_polling-IsStarted :
      (conf_files : DeviceSettings) (p : Process o)
      → WellFormed o.knot p.machine.world.thing
      → p.machine.world.poll.poll_entries ≡ []
      → live p.machine.world.log ≡ []
      → p.machine.world.event.sensor_timeouts ≡ none
      → p.machine.world.conn_mask ≡ 0
      → p.machine.current ≡ disconnected
      → IsIdle p.link
      → is_nonzero (start_polling o lib conf_files p).0 ≡ false
      → IsStarted conf_files (start_polling o lib conf_files p).1
  unfolding start_polling
  start_polling-IsStarted conf_files p f no_polls no_timers no_events no_links idle i h =
      let w = p.machine.world in
      let items = w.thing.data_items in
      let (err, (log', poll')) = create_data_item_polling o.ans items (w.log, w.poll) in
      let p' = on_world o lib (λ v. record w { log = log'; poll = poll' }) p in
      elim (Bool-cases (is_neg err)) [
        | inl e ↦ absurd (ground arith)
        | inr e ↦
            rw (e, start_polling)
              (start_modbus-IsStarted conf_files p'
                (record {
                  well_formed = f;
                  all_polled =
                      polling_created o.ans items (w.log, w.poll)
                        (polling_sign o.ans items (w.log, w.poll) ∙ e)
                      ∙ ap (λ (es : List PollEntry). push_ids items (polled es)) no_polls;
                  polls_held =
                      create_data_item_polling-Accounts o.ans items (w.log, w.poll)
                        (no_timers ∙ ap timers (sym no_polls));
                  no_events = no_events;
                  no_links = no_links;
                  machine_idle = idle;
                })
                i (ground arith))
      ]

  start_created-IsStarted :
      (junk : Value) (conf_files : DeviceSettings) (code : ℤ) (thing : Thing) (store : Store l)
      (p : Process o)
      → IsFresh p
      → properties_create_device l o.sys o.knot junk conf_files
          (record p.machine.world.thing { data_items = [] })
          p.machine.world.store
        ≡ some (code, (thing, store))
      → is_nonzero (start_created o lib conf_files (code, (thing, store)) p).0 ≡ false
      → IsStarted conf_files (start_created o lib conf_files (code, (thing, store)) p).1
  unfolding start_created sm_start
  start_created-IsStarted junk conf_files code thing store p f e h =
      let w : World l = record p.machine.world { thing = thing; store = store } in
      elim (Bool-cases (is_nonzero code)) [
        | inl n ↦ absurd (ground arith)
        | inr n ↦
            let well_formed =
              properties_create_device-WellFormed l o.sys o.knot junk conf_files
                (record p.machine.world.thing { data_items = [] }) p.machine.world.store code thing
                store e (ap is_neg (zero-code code n)) refl in
            rw (n, start_created)
              (start_polling-IsStarted conf_files
                (record { machine = sm_start w; link = p.link; thing_held = true }) well_formed
                f.no_polls f.no_timers f.no_events f.no_links refl f.idle_link (ground arith))
      ]

  -- A start of a fresh process that returns 0 has loaded a thing that is well formed and remembers
  -- the three files; each of its data items has one polling and nothing else has one, the queue of
  -- the pollings holds exactly the live timers, the static variables of the connection to the slave
  -- hold exactly what is live there, no sensor has a timer, the mask names no
  -- connection, and the machine is in DISCONNECTED.
  pub device_start-IsStarted :
      (junk : Value) (conf_files : DeviceSettings) (p : Process o) (rc : ℤ) (p' : Process o)
      → IsFresh p
      → device_start o lib junk conf_files p ≡ some (rc, p')
      → rc ≡ pos 0
      → IsStarted conf_files p'
  unfolding device_start
  device_start-IsStarted junk conf_files p rc p' f h z =
      let w = p.machine.world in
      let blank : Thing = record w.thing { data_items = [] } in
      elim (Option-cases (properties_create_device l o.sys o.knot junk conf_files blank w.store)) [
        | inl e ↦ absurd (ground (arith, e))
        | inr ((code, (thing, store)), e) ↦
            let same : start_created o lib conf_files (code, (thing, store)) p ≡ (rc, p') =
              ground (arith, e) in
            let code_lem : (start_created o lib conf_files (code, (thing, store)) p).0 ≡ rc = cc in
            let there : (start_created o lib conf_files (code, (thing, store)) p).1 ≡ p' = cc in
            rw (← there) (
              start_created-IsStarted junk conf_files code thing store p f e
                (ap is_nonzero (code_lem ∙ z)))
      ]
