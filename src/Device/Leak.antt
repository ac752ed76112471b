-- ===== src/Device/Leak.antt =====
-- What src/device.c and src/event.c do with the timers of the sensors where the thing is unregistered
-- while it is online.
use knot_virtualthing.Prelude.{ℕ, ℤ, ◌≡◌, refl, ◌∙◌, Option, List, [], ◌∷◌, Bool-cases, inl, inr}
use knot_virtualthing.Storage.{LSettings}
use knot_virtualthing.Protocol.{KnotEvent}
use knot_virtualthing.Thing.{DataItem}
use knot_virtualthing.Thing.Calls.{Log, timeout_remove}
use knot_virtualthing.Event.Sensors.{EventState, event_start, event_add_data_item}
use knot_virtualthing.Sm.{online, unreg_req, sm_input_event}
use knot_virtualthing.Device.World.{World, Outside, UserData, device_start_event, add_items}
use knot_virtualthing.Device.Handlers.{input}
use knot_virtualthing.Device.Sound.{clear_same}

-- the timers that a log has removed
abbrev pub removed : Log → List (Option ℕ)
removed [] = []
removed (timeout_remove to ∷ log) = to ∷ removed log
removed (c ∷ log) = removed log

module _ {l : LSettings} (o : Outside l) where
  removed-add :
      (id : ℤ) (e : KnotEvent) (log : Log) (st : EventState)
      → removed (event_add_data_item o.ans id e (log, st)).0 ≡ removed log
  unfolding event_add_data_item
  removed-add id e log st = elim (Bool-cases e.event_flags.time) [ inl p ↦ rw p | inr p ↦ rw p ]

  removed-add_items :
      (items : List DataItem) (log : Log) (st : EventState)
      → removed (add_items o items (log, st)).0 ≡ removed log
  unfolding add_items
  removed-add_items [] log st = refl
  removed-add_items (i ∷ items) log st =
      let (log', st') = event_add_data_item o.ans i.sensor_id i.event (log, st) in
      removed-add_items items log' st' ∙ removed-add i.sensor_id i.event log st

  start_lem :
      (w : World l) (q : Option (List (Option ℕ)))
      → ((device_start_event o
            (record w { event = record w.event { sensor_timeouts = q } })).1.event
          ≡ (device_start_event o w).1.event)
        × (removed (device_start_event o w).1.log ≡ removed w.log)
  unfolding device_start_event event_start
  start_lem w q = (refl, removed-add_items w.thing.data_items w.log _)

  -- EVT_UNREG_REQ leaves the event module of an online thing as it is; and a start of the events makes
  -- the same state of the module whatever queue `q` was there before, and removes no timer.
  pub unregister_leaks :
      (p : UserData) (w : World l) (q : Option (List (Option ℕ)))
      → ((input o unreg_req p (record { current = online; world = w })).world.event ≡ w.event)
        × ((device_start_event o
              (record w { event = record w.event { sensor_timeouts = q } })).1.event
            ≡ (device_start_event o w).1.event)
        × (removed (device_start_event o w).1.log ≡ removed w.log)
  unfolding sm_input_event
  unregister_leaks p w q = ((clear_same o w).2, (start_lem w q).0, (start_lem w q).1)
