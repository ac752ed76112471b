-- ===== src/Poll/Timers.antt =====
-- The timers of src/poll.c, from their creation to poll_destroy.
use knot_virtualthing.Prelude.{
  ℕ, ℤ, ◌≡◌, refl, ◌∙◌, ap, some, List, [], ◌∷◌, Option-cases, inl, inr, if◌then◌else◌, ◌==◌,
  ==_iff,
}
use knot_virtualthing.Thing.Calls.{Log, Answers, timeout_create, timeout_modify, timeout_remove}
use knot_virtualthing.Poll.{
  PollEntry, PollState, start_timers, poll_start, poll_stop, remove_timers, poll_destroy, add_entry,
  poll_create,
}

abbrev pub drop_first : ℕ → List ℕ → List ℕ
drop_first t [] = []
drop_first t (u ∷ us) = if t == u then us else u ∷ drop_first t us

-- the timers that a log has created and not removed, the newest first
abbrev pub live : Log → List ℕ
live [] = []
live (timeout_create seconds cb (some t) ∷ log) = t ∷ live log
live (timeout_remove (some t) ∷ log) = drop_first t (live log)
live (c ∷ log) = live log

abbrev pub timers : List PollEntry → List ℕ
timers [] = []
timers (e ∷ es) = e.to ∷ timers es

-- The queue holds the live timers.
abbrev pub Accounts : Log × PollState → Type 0
Accounts (log, st) = live log ≡ timers st.poll_entries

-- the operations before poll_destroy
pub data Step : Type 0 where
  create : ℕ → ℤ → Step
  start stop : Step

live-start_timers : (es : List PollEntry) (log : Log) → live (start_timers es log) ≡ live log
unfolding start_timers
live-start_timers [] log = refl
live-start_timers (e ∷ es) log = live-start_timers es (timeout_modify (some e.to) e.interval ∷ log)

pub drop-head : (t : ℕ) (ts : List ℕ) → drop_first t (t ∷ ts) ≡ ts
drop-head t ts = rw ((==_iff t t).1 refl)

live-remove_timers :
    (es : List PollEntry) (log : Log) → live log ≡ timers es → live (remove_timers es log) ≡ []
unfolding remove_timers
live-remove_timers [] log h = h
live-remove_timers (e ∷ es) log h =
    live-remove_timers es (timeout_remove (some e.to) ∷ log)
      (ap (drop_first e.to) h ∙ drop-head e.to (timers es))

pub poll_destroy-live : (ls : Log × PollState) → Accounts ls → live (poll_destroy ls).0 ≡ []
unfolding poll_destroy
poll_destroy-live (log, st) h = live-remove_timers st.poll_entries log h

module _ (ans : Answers) where
  abbrev pub step : Step → Log × PollState → Log × PollState
  step (create interval id) ls = (poll_create ans interval id ls).1
  step start ls = poll_start ls
  step stop (log, st) = (log, poll_stop st)

  unfoldable pub steps : List Step → Log × PollState → Log × PollState
  steps [] ls = ls
  steps (s ∷ ss) ls = steps ss (step s ls)

  pub poll_create-Accounts :
      (interval : ℕ) (id : ℤ) (ls : Log × PollState)
      → Accounts ls
      → Accounts (poll_create ans interval id ls).1
  unfolding poll_create
  poll_create-Accounts interval id (log, st) h = elim (Option-cases (ans.timer log)) [
    | inl e ↦ rw (e, add_entry) h
    | inr (t, e) ↦ rw (e, add_entry) (ap (λ (ts : List ℕ). t ∷ ts) h)
  ]

  step-Accounts : (s : Step) (ls : Log × PollState) → Accounts ls → Accounts (step s ls)
  unfolding poll_start poll_stop
  step-Accounts (create interval id) ls h = poll_create-Accounts interval id ls h
  step-Accounts start (log, st) h = live-start_timers st.poll_entries log ∙ h
  step-Accounts stop (log, st) h = h

  steps-Accounts : (ss : List Step) (ls : Log × PollState) → Accounts ls → Accounts (steps ss ls)
  unfolding steps
  steps-Accounts [] ls h = h
  steps-Accounts (s ∷ ss) ls h = steps-Accounts ss (step s ls) (step-Accounts s ls h)

  -- Whatever pollings are created, started and stopped, in any order and with any creations that
  -- fail, poll_destroy then removes every timer that was created and not yet removed, if the queue
  -- held exactly these timers at the beginning.
  pub poll_destroy-steps :
      (ss : List Step) (ls : Log × PollState)
      → Accounts ls
      → live (poll_destroy (steps ss ls)).0 ≡ []
  poll_destroy-steps ss ls h = poll_destroy-live (steps ss ls) (steps-Accounts ss ls h)
