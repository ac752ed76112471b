-- ===== src/Event/Sensors.antt =====
-- src/event.c: the timers of the sensors, and the flag that the check of a value reads.
use knot_virtualthing.Prelude.{
  ℕ, ℤ, pos, Bool, true, false, Option, none, some, List, [], ◌∷◌, if◌then◌else◌,
}
use knot_virtualthing.Protocol.{KnotEvent}
use knot_virtualthing.Thing.Calls.{Log, Answers, timeout_create, timeout_remove, on_sensor_to}

-- The static variables; `sensor_timeouts` is NULL or a queue of timers. `timeout_cb` is set by
-- event_start to the one function that is ever given.
pub record EventState : Type 0 where
  pub sensor_timeouts : Option (List (Option ℕ))
  pub active : Bool

-- l_queue_push_head, which ignores a NULL queue
abbrev pub push_head : Option ℕ → Option (List (Option ℕ)) → Option (List (Option ℕ))
push_head to none = none
push_head to (some q) = some (to ∷ q)

module _ (ans : Answers) where
  unfoldable pub event_add_data_item : ℤ → KnotEvent → Log × EventState → Log × EventState
  event_add_data_item id event (log, st) =
      if event.event_flags.time
      then (
        timeout_create event.time_sec (on_sensor_to id event.time_sec) (ans.timer log) ∷ log,
        record st { sensor_timeouts = push_head (ans.timer log) st.sensor_timeouts },
      )
      else (log, st)

-- on_sensor_to, the callback of the timer `to`, which event_add_data_item gave the id and the seconds. `timeout_cb`
-- acts on all other state `W` of the program, the log among it; the timer is set again after it.
unfoldable pub fire_sensor :
    {W : Type 0} → (ℤ → W → W) → (Option ℕ → ℕ → W → W) → Option ℕ → ℤ → ℕ → W → W
fire_sensor timeout_cb modify to id timeout_sec w = modify to timeout_sec (timeout_cb id w)

-- l_queue_new does not return NULL: ell ends the program where memory is short.
unfoldable pub event_start : EventState → ℤ × EventState
event_start st = (pos 0, record { sensor_timeouts = some []; active = true })

-- l_queue_destroy calls timeout_destroy for each timer
unfoldable pub remove_all : List (Option ℕ) → Log → Log
remove_all [] log = log
remove_all (to ∷ tos) log = remove_all tos (timeout_remove to ∷ log)

unfoldable pub event_stop : Log × EventState → Log × EventState
unfolding remove_all
event_stop (log, st) = elim st.sensor_timeouts [
  | none ↦ (log, record st { active = false })
  | some q ↦ (remove_all q log, record { sensor_timeouts = none; active = false })
]
