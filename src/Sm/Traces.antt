-- ===== src/Sm/Traces.antt =====
-- What holds of every session, that is of every list of events, of src/sm.c.
use knot_virtualthing.Prelude.{
  Bool, true, false, ◌≡◌, ◌≢◌, refl, List, [], ◌∷◌, ◌⊎◌, inl, inr, Bool-cases,
}
use knot_virtualthing.Sm.{
  Device, State, disconnected, config, online, unregister, error, Event, not_ready, auth_ok,
  reg_perm, unexpected, Machine, sm_input_event, run,
}
use knot_virtualthing.Sm.Timer.{IsKnown, AllKnown}
use knot_virtualthing.Sm.Diagram.{Change, sm_input_event-Change}

abbrev pub Occurs : {P : Type 0} → Event → List (Event × P) → Type 0
Occurs e [] = ⊥
Occurs e ((f, p) ∷ es) = (f ≡ e) ⊎ Occurs e es

-- CONFIG and ONLINE: the cloud has accepted the credentials
abbrev pub is_authenticated : State → Bool
is_authenticated config = true
is_authenticated online = true
is_authenticated _ = false

Change-auth_ok :
    {e : Event} {s t : State}
    → Change e s t
    → is_authenticated s ≡ false
    → is_authenticated t ≡ true
    → e ≡ auth_ok
Change-auth_ok Change.new_schema h k = refl
Change-auth_ok Change.old_schema h k = refl
Change-auth_ok Change.configured h k = cc
Change-auth_ok Change.reconfigure h k = cc
Change-auth_ok (Change.link_lost l) h k = cc
Change-auth_ok _ h k = cc

module _ {W P : Type 0} (d : Device W P) where
  pub step_needs_auth_ok :
      (e : Event) (p : P) (m : Machine W)
      → is_authenticated m.current ≡ false
      → is_authenticated (sm_input_event d e p m).current ≡ true
      → e ≡ auth_ok
  step_needs_auth_ok e p m h k = elim (sm_input_event-Change d e p m) [
    | inl same ↦ cc
    | inr change ↦ Change-auth_ok change h k
  ]

  -- A session that starts in a state other than CONFIG and ONLINE and ends in one of these two has
  -- seen EVT_AUTH_OK.
  pub run_needs_auth_ok :
      (es : List (Event × P)) (m : Machine W)
      → is_authenticated m.current ≡ false
      → is_authenticated (run d es m).current ≡ true
      → Occurs auth_ok es
  unfolding run
  run_needs_auth_ok [] m h k = cc
  run_needs_auth_ok ((e, p) ∷ es) m h k =
      elim (Bool-cases (is_authenticated (sm_input_event d e p m).current)) [
        | inl yet ↦ inl (step_needs_auth_ok e p m h yet)
        | inr not_yet ↦ inr (run_needs_auth_ok es (sm_input_event d e p m) not_yet k)
      ]

  pub unregister_step :
      (e : Event) (p : P) (w : W)
      → IsKnown e
      → e ≢ reg_perm
      → sm_input_event d e p (record { current = unregister; world = w })
        ≡ record { current = unregister; world = w }
  unfolding sm_input_event
  unregister_step reg_perm p w k h = absurd (h refl)
  unregister_step (unexpected n) p w k h = absurd k
  unregister_step _ p w k h = refl

  -- UNREGISTER is left by EVT_REG_PERM only: any other events of the enumeration change nothing,
  -- neither the state nor anything behind the device.
  pub run-unregister :
      (es : List (Event × P)) (w : W)
      → AllKnown es
      → ¬ Occurs reg_perm es
      → run d es (record { current = unregister; world = w })
        ≡ record { current = unregister; world = w }
  unfolding run
  run-unregister [] w k h = refl
  run-unregister ((e, p) ∷ es) w k h =
      rw (unregister_step e p w k.0 (λ q. h (inl q))) (run-unregister es w k.1 (λ o. h (inr o)))

  pub error_step :
      (e : Event) (p : P) (w : W)
      → sm_input_event d e p (record { current = error; world = w })
        ≡ record { current = error; world = w }
  unfolding sm_input_event
  error_step e p w = refl

  -- ERROR is final: no event changes the state or anything behind the device.
  pub run-error :
      (es : List (Event × P)) (w : W)
      → run d es (record { current = error; world = w }) ≡ record { current = error; world = w }
  unfolding run
  run-error [] w = refl
  run-error ((e, p) ∷ es) w = rw (error_step e p w) (run-error es w)

  -- A lost link ends the work of every state but UNREGISTER and ERROR: after EVT_NOT_READY the
  -- machine is in DISCONNECTED, whatever the device answers.
  pub not_ready_disconnects :
      (s : State) (p : P) (w : W)
      → s ≢ unregister
      → s ≢ error
      → (sm_input_event d not_ready p (record { current = s; world = w })).current ≡ disconnected
  unfolding sm_input_event
  not_ready_disconnects unregister p w h k = absurd (h refl)
  not_ready_disconnects error p w h k = absurd (k refl)
  not_ready_disconnects _ p w h k = refl
