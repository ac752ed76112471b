-- ===== src/Device/Reply.antt =====
-- The reply timer of src/device.c in the log: whether it is live, and whether it runs.
use knot_virtualthing.Prelude.{
  ℕ, ℤ, Bool, true, false, ◌==◌, ==_iff, ◌≡◌, refl, ◌∙◌, ap, Option, none, some, List, [], ◌∷◌,
  if◌then◌else◌, Option-cases, Bool-cases, inl, inr,
}
use knot_virtualthing.Protocol.{KnotEvent}
use knot_virtualthing.Storage.{LSettings}
use knot_virtualthing.Thing.{DataItem}
use knot_virtualthing.Thing.Calls.{
  Log, on_msg_timeout, timeout_create, timeout_modify, timeout_remove, timeout_ended,
}
use knot_virtualthing.Poll.{PollEntry, start_timers}
use knot_virtualthing.Poll.Timers.{drop_first, drop-head}
use knot_virtualthing.Event.Sensors.{
  EventState, event_start, event_stop, event_add_data_item, remove_all,
}
use knot_virtualthing.Device.World.{
  World, Outside, add_items, device_start_event, device_stop_event,
}

-- the timers with the callback on_msg_timeout that were created and not removed
abbrev pub reply_timers : Log → List ℕ
reply_timers [] = []
reply_timers (timeout_create seconds on_msg_timeout (some t) ∷ log) = t ∷ reply_timers log
reply_timers (timeout_remove (some t) ∷ log) = drop_first t (reply_timers log)
reply_timers (c ∷ log) = reply_timers log

-- whether the timer has been set, by its creation or again, and has neither ended nor been removed since
abbrev pub is_running : ℕ → Log → Bool
is_running t [] = false
is_running t (timeout_create seconds cb (some u) ∷ log) = if u == t then true else is_running t log
is_running t (timeout_modify (some u) seconds ∷ log) = if u == t then true else is_running t log
is_running t (timeout_remove (some u) ∷ log) = if u == t then false else is_running t log
is_running t (timeout_ended (some u) ∷ log) = if u == t then false else is_running t log
is_running t (c ∷ log) = is_running t log

-- The one reply timer that is live is thing.msg_to.
abbrev pub IsHeld : Option ℕ → Log → Type 0
IsHeld none log = ⊥
IsHeld (some t) log = reply_timers log ≡ t ∷ []

abbrev pub Runs : Option ℕ → Log → Type 0
Runs none log = ⊥
Runs (some t) log = is_running t log ≡ true

-- thing.msg_to is NULL and no reply timer is live.
abbrev pub IsGone : Option ℕ → Log → Type 0
IsGone to log = (to ≡ none) × (reply_timers log ≡ [])

pub same-IsHeld :
    (to : Option ℕ) (log log' : Log)
    → reply_timers log' ≡ reply_timers log
    → IsHeld to log
    → IsHeld to log'
same-IsHeld none log log' e h = h
same-IsHeld (some t) log log' e h = e ∙ h

pub same-Runs :
    (to : Option ℕ) (log log' : Log)
    → ((t : ℕ) → is_running t log' ≡ is_running t log)
    → Runs to log
    → Runs to log'
same-Runs none log log' e h = h
same-Runs (some t) log log' e h = e t ∙ h

pub modify-Runs :
    (to : Option ℕ) (n : ℕ) (log : Log) → IsHeld to log → Runs to (timeout_modify to n ∷ log)
modify-Runs none n log h = absurd h
modify-Runs (some t) n log h = rw ((==_iff t t).1 refl)

pub modify-IsHeld :
    (to : Option ℕ) (n : ℕ) (log : Log) → IsHeld to log → IsHeld to (timeout_modify to n ∷ log)
modify-IsHeld none n log h = absurd h
modify-IsHeld (some t) n log h = h

pub remove-reply :
    (to : Option ℕ) (log : Log) → IsHeld to log → reply_timers (timeout_remove to ∷ log) ≡ []
remove-reply none log h = absurd h
remove-reply (some t) log h = ap (drop_first t) h ∙ drop-head t []

pub create-IsHeld :
    (to : Option ℕ) (n : ℕ) (log : Log)
    → (t : ℕ) × (to ≡ some t)
    → reply_timers log ≡ []
    → IsHeld to (timeout_create n on_msg_timeout to ∷ log)
create-IsHeld none n log (t, e) h = absurd (cc)
create-IsHeld (some u) n log (t, e) h = ap (λ (ts : List ℕ). u ∷ ts) h

pub create-Runs :
    (to : Option ℕ) (n : ℕ) (log : Log)
    → (t : ℕ) × (to ≡ some t)
    → Runs to (timeout_create n on_msg_timeout to ∷ log)
create-Runs none n log (t, e) = absurd (cc)
create-Runs (some u) n log (t, e) = rw ((==_iff u u).1 refl)

pub remove_all-reply :
    (q : List (Option ℕ)) (log : Log) → reply_timers log ≡ [] → reply_timers (remove_all q log) ≡ []
unfolding remove_all
remove_all-reply [] log h = h
remove_all-reply (none ∷ q) log h = remove_all-reply q (timeout_remove none ∷ log) h
remove_all-reply (some t ∷ q) log h =
    remove_all-reply q (timeout_remove (some t) ∷ log) (ap (drop_first t) h)

pub start_timers-reply :
    (es : List PollEntry) (log : Log) → reply_timers (start_timers es log) ≡ reply_timers log
unfolding start_timers
start_timers-reply [] log = refl
start_timers-reply (e ∷ es) log =
    start_timers-reply es (timeout_modify (some e.to) e.interval ∷ log)

pub start_timers-Runs :
    (to : Option ℕ) (es : List PollEntry) (log : Log) → Runs to log → Runs to (start_timers es log)
unfolding start_timers
start_timers-Runs none es log h = absurd h
start_timers-Runs (some t) [] log h = h
start_timers-Runs (some t) (e ∷ es) log h =
    start_timers-Runs (some t) es (timeout_modify (some e.to) e.interval ∷ log)
      (elim (Bool-cases (e.to == t)) [ inl y ↦ rw y refl | inr n ↦ rw n h ])

module _ {l : LSettings} (o : Outside l) where
  add-reply :
      (id : ℤ) (e : KnotEvent) (log : Log) (event : EventState)
      → reply_timers (event_add_data_item o.ans id e (log, event)).0 ≡ reply_timers log
  unfolding event_add_data_item
  add-reply id e log event = elim (Bool-cases e.event_flags.time) [
    | inl p ↦ rw (p, event_add_data_item) refl
    | inr p ↦ rw (p, event_add_data_item) refl
  ]

  pub add_items-reply :
      (items : List DataItem) (log : Log) (event : EventState)
      → reply_timers (add_items o items (log, event)).0 ≡ reply_timers log
  unfolding add_items
  add_items-reply [] log event = refl
  add_items-reply (i ∷ items) log event =
      let (log', event') = event_add_data_item o.ans i.sensor_id i.event (log, event) in
      add_items-reply items log' event' ∙ add-reply i.sensor_id i.event log event

  pub start-reply : (w : World l) → reply_timers (device_start_event o w).1.log ≡ reply_timers w.log
  unfolding device_start_event event_start
  start-reply w = add_items-reply w.thing.data_items w.log _

  pub stop-reply :
      (w : World l) → reply_timers w.log ≡ [] → reply_timers (device_stop_event o w).log ≡ []
  unfolding device_stop_event event_stop
  stop-reply w h = elim (Option-cases w.event.sensor_timeouts) [
    | inl e ↦ rw (e, device_stop_event, event_stop) h
    | inr (q, e) ↦ rw (e, device_stop_event, event_stop) (remove_all-reply q w.log h)
  ]
