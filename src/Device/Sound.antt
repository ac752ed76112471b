-- ===== src/Device/Sound.antt =====
-- The timers of src/device.c and src/event.c: the reply timer as armed, ended or disarmed, and the calls on
-- timers that are NULL.
use knot_virtualthing.Prelude.{
  ℕ, ℤ, String, Bool, ◌≡◌, refl, ◌∙◌, Option, none, some, List, [], ◌∷◌, arith, Bool-cases, inl,
  inr,
}
use knot_virtualthing.Protocol.{Config, KnotEvent}
use knot_virtualthing.Storage.{LSettings, Store}
use knot_virtualthing.Thing.{
  Thing, DataItem, device_clear_thing_id, device_clear_thing_token, device_update_config_data_item,
}
use knot_virtualthing.Thing.Calls.{Log, timeout_modify, timeout_remove}
use knot_virtualthing.Event.Sensors.{
  EventState, event_start, event_stop, event_add_data_item, remove_all, push_head,
}
use knot_virtualthing.Properties.Credentials.{properties_clear_credentials}
use knot_virtualthing.Properties.Update.{properties_update_data_item}
use knot_virtualthing.Device.World
use knot_virtualthing.Device.Reply.{IsHeld, Runs, IsGone}

-- Every timer that was set again or removed is a timer and not NULL.
abbrev pub NoNull : Log → Type 0
NoNull [] = Unit
NoNull (timeout_modify none n ∷ log) = ⊥
NoNull (timeout_remove none ∷ log) = ⊥
NoNull (c ∷ log) = NoNull log

abbrev pub AllTimers : List (Option ℕ) → Type 0
AllTimers [] = Unit
AllTimers (none ∷ q) = ⊥
AllTimers (some to ∷ q) = AllTimers q

abbrev pub QueueHolds : Option (List (Option ℕ)) → Type 0
QueueHolds none = Unit
QueueHolds (some q) = AllTimers q

abbrev pub IsTimer : Option ℕ → Type 0
IsTimer none = ⊥
IsTimer (some to) = Unit

-- of the log and the timers of the sensors
abbrev pub Sound : Log → EventState → Type 0
Sound log event = NoNull log × QueueHolds event.sensor_timeouts

-- The reply timer is there; it may have ended.
abbrev pub Pending : {l : LSettings} → World.World l → Type 0
Pending w = IsHeld w.thing.msg_to w.log × Sound w.log w.event

-- The reply timer is there, and it runs: it has been set and has not ended since.
abbrev pub Armed : {l : LSettings} → World.World l → Type 0
Armed w = Pending w × Runs w.thing.msg_to w.log

-- No reply timer is there.
abbrev pub Disarmed : {l : LSettings} → World.World l → Type 0
Disarmed w = IsGone w.thing.msg_to w.log × Sound w.log w.event

pub timer_of : (to : Option ℕ) → IsTimer to → (t : ℕ) × (to ≡ some t)
timer_of none h = absurd h
timer_of (some t) h = (t, refl)

remove_all-NoNull :
    (q : List (Option ℕ)) (log : Log) → AllTimers q → NoNull log → NoNull (remove_all q log)
unfolding remove_all
remove_all-NoNull [] log a h = h
remove_all-NoNull (none ∷ q) log a h = absurd a
remove_all-NoNull (some to ∷ q) log a h = remove_all-NoNull q (timeout_remove (some to) ∷ log) a h

pub stop_lem :
    (log : Log) (q : Option (List (Option ℕ))) (a : Bool)
    → Sound log (record { sensor_timeouts = q; active = a })
    → let (log', event') = event_stop (log, record { sensor_timeouts = q; active = a }) in
      Sound log' event'
unfolding event_stop
stop_lem log none a h = h
stop_lem log (some q) a h = (remove_all-NoNull q log h.1 h.0, tt)

push_lem :
    (to : Option ℕ) (q : Option (List (Option ℕ)))
    → IsTimer to
    → QueueHolds q
    → QueueHolds (push_head to q)
push_lem none q t h = absurd t
push_lem (some to) none t h = h
push_lem (some to) (some q) t h = h

-- What an operation leaves alone that is no operation on a timer.
abbrev pub SameTimers : {l : LSettings} → World.World l → World.World l → Type 0
SameTimers w w' = (w'.thing.msg_to ≡ w.thing.msg_to) × (w'.log ≡ w.log) × (w'.event ≡ w.event)

module _ {l : LSettings} (w w' : World.World l) (s : SameTimers w w') where
  pub Disarmed-same : Disarmed w → Disarmed w'
  Disarmed-same h = rw (s.0, s.1, s.2) h

module _ {l : LSettings} (o : World.Outside l)
    (alloc : (log : Log) → IsTimer (o.ans.timer log)) where
  pub add-Sound :
      (id : ℤ) (e : KnotEvent) (log : Log) (event : EventState)
      → Sound log event
      → let (log', event') = event_add_data_item o.ans id e (log, event) in Sound log' event'
  unfolding event_add_data_item
  add-Sound id e log event h = elim (Bool-cases e.event_flags.time) [
    | inl p ↦ rw p (h.0, push_lem (o.ans.timer log) event.sensor_timeouts (alloc log) h.1)
    | inr p ↦ rw p h
  ]

  add_items-Sound :
      (items : List DataItem) (log : Log) (event : EventState)
      → Sound log event
      → let (log', event') = World.add_items o items (log, event) in Sound log' event'
  unfolding World.add_items
  add_items-Sound [] log event h = h
  add_items-Sound (i ∷ items) log event h =
      let (log', event') = event_add_data_item o.ans i.sensor_id i.event (log, event) in
      add_items-Sound items log' event' (add-Sound i.sensor_id i.event log event h)

  pub start-Sound :
      (w : World.World l)
      → Sound w.log w.event
      → let w' = (World.device_start_event o w).1 in Sound w'.log w'.event
  unfolding World.device_start_event event_start
  start-Sound w h = add_items-Sound w.thing.data_items w.log _ (h.0, tt)

module _ {l : LSettings} (o : World.Outside l) where
  clear-msg_to :
      (path : String) (thing : Thing) (st : Store l)
      → (properties_clear_credentials l o.sys path (thing, st)).1.msg_to ≡ thing.msg_to
  unfolding properties_clear_credentials device_clear_thing_id device_clear_thing_token
  clear-msg_to path thing st = ground arith

  update-msg_to :
      (path : String) (c : Config) (thing : Thing) (st : Store l) {rc : ℤ} {thing' : Thing}
      {st' : Store l}
      → properties_update_data_item l o.sys o.knot path c (thing, st) ≡ some (rc, thing', st')
      → thing'.msg_to ≡ thing.msg_to
  unfolding properties_update_data_item device_update_config_data_item
  update-msg_to path c thing st h = ground arith

  pub clear_same : (w : World.World l) → SameTimers w (World.device_clear_credentials_on_file o w).1
  unfolding World.device_clear_credentials_on_file
  clear_same w = (clear-msg_to _ w.thing w.store, refl, refl)

  update_same : (c : Config) (w : World.World l) → SameTimers w (World.update_config_item o c w)
  unfolding World.update_config_item
  update_same c w =
      go
        (properties_update_data_item l o.sys o.knot w.thing.conf_files.device_path c
          (w.thing, w.store))
        refl
    where
      go :
          (r : Option (ℤ × Thing × Store l))
          → properties_update_data_item l o.sys o.knot w.thing.conf_files.device_path c
              (w.thing, w.store)
            ≡ r
          → SameTimers w (World.update_config_item o c w)
      go none e = rw (e, World.update_config_item) (refl, refl, refl)
      go (some (rc, thing', st')) e =
          rw (e, World.update_config_item) (update-msg_to _ c w.thing w.store e, refl, refl)

  pub store_same :
      (p : World.UserData) (w : World.World l)
      → SameTimers w (World.device_store_credentials_on_file o p w).1
  unfolding World.device_store_credentials_on_file
  store_same (World.token (some t)) w = ground arith
  store_same (World.token none) w = (refl, refl, refl)
  store_same World.null w = (refl, refl, refl)
  store_same (World.sensor_ids ids) w = (refl, refl, refl)
  store_same (World.configs cs) w = (refl, refl, refl)

  pub update_items_same :
      (cs : List Config) (w : World.World l) → SameTimers w (World.update_config_items o cs w)
  unfolding World.update_config_items
  update_items_same [] w = (refl, refl, refl)
  update_items_same (c ∷ cs) w =
      let (a, b, d) = update_same c w in
      let (a', b', d') = update_items_same cs (World.update_config_item o c w) in
      (a' ∙ a, b' ∙ b, d' ∙ d)
