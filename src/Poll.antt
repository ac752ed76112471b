-- ===== src/Poll.antt =====
-- src/poll.c: the timers that read the sensors. The proofs are in the child.
pub mod Timers
use knot_virtualthing.Prelude.{
  ℕ, ℤ, pos, negsuc, Bool, true, false, Option, none, some, List, [], ◌∷◌, if◌then◌else◌,
}
use knot_virtualthing.Thing.Calls.{
  Log, Answers, timeout_create, timeout_modify, timeout_remove, on_poll_timeout,
}

-- struct poll_entry with the struct poll_data that it points to; `to` is a timer, not NULL. The
-- callback is the same in all entries, a parameter of `on_poll_timeout`.
pub record PollEntry : Type 0 where
  pub id : ℤ
  pub interval : ℕ
  pub to : ℕ

-- the static variables; an empty list is a NULL queue or an empty one
pub record PollState : Type 0 where
  pub poll_entries : List PollEntry
  pub active : Bool

-- l_queue_foreach with poll_timer_start
unfoldable pub start_timers : List PollEntry → Log → Log
start_timers [] log = log
start_timers (e ∷ es) log = start_timers es (timeout_modify (some e.to) e.interval ∷ log)

unfoldable pub poll_start : Log × PollState → Log × PollState
unfolding start_timers
poll_start (log, st) = (start_timers st.poll_entries log, record st { active = true })

unfoldable pub poll_stop : PollState → PollState
poll_stop st = record st { active = false }

-- The callback of the timer of `e`. `read_cb` acts on all other state `W` of the program, the log
-- among it; the timer is set again after it.
unfoldable pub fire : {W : Type 0} → (ℤ → W → W) → (ℕ → ℕ → W → W) → PollEntry → PollState → W → W
fire read_cb modify e st w = if st.active then modify e.to e.interval (read_cb e.id w) else w

-- l_queue_destroy with entry_destroy
unfoldable pub remove_timers : List PollEntry → Log → Log
remove_timers [] log = log
remove_timers (e ∷ es) log = remove_timers es (timeout_remove (some e.to) ∷ log)

unfoldable pub poll_destroy : Log × PollState → Log × PollState
unfolding remove_timers
poll_destroy (log, st) = (remove_timers st.poll_entries log, record st { poll_entries = [] })

-- The entry that poll_create adds once `l_timeout_create` has answered. -ENOMSG where it failed.
unfoldable pub add_entry : Option ℕ → ℕ → ℤ → PollState → ℤ × PollState
add_entry none interval id st = (negsuc 41, st)
add_entry (some to) interval id st = (
  pos 0,
  record st { poll_entries = record { id = id; interval = interval; to = to } ∷ st.poll_entries },
)

unfoldable pub poll_create : Answers → ℕ → ℤ → Log × PollState → ℤ × (Log × PollState)
unfolding add_entry
poll_create ans interval id (log, st) =
    let to = ans.timer log in
    let (rc, st') = add_entry to interval id st in
    (rc, (timeout_create 0 (on_poll_timeout id interval) to ∷ log, st'))
