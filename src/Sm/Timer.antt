-- ===== src/Sm/Timer.antt =====
-- The reply timer of src/sm.c (`device_msg_timeout_*`) as a protocol between the machine and a
-- device.
use knot_virtualthing.Prelude.{ℕ, List, [], ◌∷◌, inl, inr, Bool-cases, is_neg, is_nonzero}
use knot_virtualthing.Sm.{
  Device, State, disconnected, auth, register, config, online, unregister, error, Event, ready,
  not_ready, timeout, auth_ok, auth_not_ok, reg_ok, reg_not_ok, cfg_upt_ok, cfg_upt_not_ok,
  unreg_req, reg_perm, pub_data, unexpected, Machine, sm_input_event, run, first_state,
}

-- The value is one of the enumeration.
abbrev pub IsKnown : Event → Type 0
IsKnown (unexpected n) = ⊥
IsKnown _ = Unit

-- What a device promises of its timer, for a reading of "armed" and "disarmed": `create` is for a
-- disarmed timer, `modify` and `remove` are for an armed one, and nothing else touches it.
pub record TimerRules {W P : Type 0} (d : Device W P) (Armed Disarmed : W → Type 0) : Type 0 where
  pub create : (n : ℕ) (w : W) → Disarmed w → Armed (d.msg_timeout_create n w)
  pub modify : (n : ℕ) (w : W) → Armed w → Armed (d.msg_timeout_modify n w)
  pub remove : (w : W) → Armed w → Disarmed (d.msg_timeout_remove w)
  pub generate_off : (w : W) → Disarmed w → Disarmed (d.generate_thing_id w)
  pub generate_on : (w : W) → Armed w → Armed (d.generate_thing_id w)
  pub read_off : (w : W) → Disarmed w → Disarmed (d.start_read_cloud w).1
  pub read_on : (w : W) → Armed w → Armed (d.start_read_cloud w).1
  pub store_off : (p : P) (w : W) → Disarmed w → Disarmed (d.store_credentials_on_file p w).1
  pub clear_off : (w : W) → Disarmed w → Disarmed (d.clear_credentials_on_file w).1
  pub schema_off : (w : W) → Disarmed w → Disarmed (d.check_schema_change w).1
  pub register_off : (w : W) → Disarmed w → Disarmed (d.send_register_request w).1
  pub register_on : (w : W) → Armed w → Armed (d.send_register_request w).1
  pub auth_off : (w : W) → Disarmed w → Disarmed (d.send_auth_request w).1
  pub auth_on : (w : W) → Armed w → Armed (d.send_auth_request w).1
  pub config_off : (w : W) → Disarmed w → Disarmed (d.send_config w).1
  pub config_on : (w : W) → Armed w → Armed (d.send_config w).1
  pub list_off : (p : P) (w : W) → Disarmed w → Disarmed (d.publish_data_list p w)
  pub all_off : (w : W) → Disarmed w → Disarmed (d.publish_data_all w)
  pub start_off : (w : W) → Disarmed w → Disarmed (d.start_event w).1
  pub stop_off : (w : W) → Disarmed w → Disarmed (d.stop_event w)
  pub update_off : (p : P) (w : W) → Disarmed w → Disarmed (d.update_config p w).1

abbrev pub TimerAt : {W : Type 0} → (W → Type 0) → (W → Type 0) → State → W → Type 0
TimerAt Armed Disarmed auth w = Armed w
TimerAt Armed Disarmed register w = Armed w
TimerAt Armed Disarmed config w = Armed w
TimerAt Armed Disarmed _ w = Disarmed w

abbrev pub AllKnown : {P : Type 0} → List (Event × P) → Type 0
AllKnown [] = Unit
AllKnown ((e, p) ∷ es) = IsKnown e × AllKnown es

module _ {W P : Type 0} {d : Device W P} {Armed Disarmed : W → Type 0}
    (r : TimerRules d Armed Disarmed) where
  open r use {
    create, modify, remove, generate_off, generate_on, read_off, read_on, store_off, clear_off,
    schema_off, register_off, register_on, auth_off, auth_on, config_off, config_on, list_off,
    all_off, start_off, stop_off, update_off,
  }

  pub sm_input_event-TimerAt :
      (s : State) (e : Event) (p : P) (w : W)
      → IsKnown e
      → TimerAt Armed Disarmed s w
      → let m = sm_input_event d e p (record { current = s; world = w }) in
        TimerAt Armed Disarmed m.current m.world
  unfolding sm_input_event
  sm_input_event-TimerAt disconnected ready p w k h =
      elim (Bool-cases (is_nonzero (d.has_thing_token w))) [
        | inl e ↦ rw (e, first_state) (create _ _ (auth_off _ (read_off _ h)))
        | inr e ↦ rw (e, first_state) (create _ _ (register_off _ (read_off _ (generate_off _ h))))
      ]
  sm_input_event-TimerAt disconnected (unexpected n) p w k h = absurd k
  sm_input_event-TimerAt disconnected _ p w k h = h
  sm_input_event-TimerAt auth not_ready p w k h = remove w h
  sm_input_event-TimerAt auth auth_ok p w k h =
      elim (Bool-cases (is_nonzero (d.check_schema_change (d.msg_timeout_remove w)).0)) [
        | inl e ↦ rw e (create _ _ (config_off _ (schema_off _ (remove w h))))
        | inr e ↦ rw e (start_off _ (all_off _ (schema_off _ (remove w h))))
      ]
  sm_input_event-TimerAt auth auth_not_ok p w k h = clear_off _ (remove w h)
  sm_input_event-TimerAt auth unreg_req p w k h = clear_off _ (remove w h)
  sm_input_event-TimerAt auth timeout p w k h = modify _ _ (auth_on w h)
  sm_input_event-TimerAt auth (unexpected n) p w k h = absurd k
  sm_input_event-TimerAt auth _ p w k h = h
  sm_input_event-TimerAt register not_ready p w k h = remove w h
  sm_input_event-TimerAt register reg_ok p w k h =
      elim (Bool-cases (is_neg (d.store_credentials_on_file p (d.msg_timeout_remove w)).0)) [
        | inl e ↦ rw e (store_off p _ (remove w h))
        | inr e ↦ rw e (create _ _ (auth_off _ (store_off p _ (remove w h))))
      ]
  sm_input_event-TimerAt register reg_not_ok p w k h = read_on _ (generate_on w h)
  sm_input_event-TimerAt register timeout p w k h = modify _ _ (register_on w h)
  sm_input_event-TimerAt register (unexpected n) p w k h = absurd k
  sm_input_event-TimerAt register _ p w k h = h
  sm_input_event-TimerAt config not_ready p w k h = remove w h
  sm_input_event-TimerAt config cfg_upt_ok p w k h = start_off _ (all_off _ (remove w h))
  sm_input_event-TimerAt config cfg_upt_not_ok p w k h = remove w h
  sm_input_event-TimerAt config unreg_req p w k h = clear_off _ (remove w h)
  sm_input_event-TimerAt config timeout p w k h = modify _ _ (config_on w h)
  sm_input_event-TimerAt config (unexpected n) p w k h = absurd k
  sm_input_event-TimerAt config _ p w k h = h
  sm_input_event-TimerAt online not_ready p w k h = stop_off w h
  sm_input_event-TimerAt online pub_data p w k h = list_off p w h
  sm_input_event-TimerAt online unreg_req p w k h = clear_off w h
  sm_input_event-TimerAt online cfg_upt_ok p w k h =
      elim (Bool-cases (is_nonzero (d.update_config p w).0)) [
        | inl e ↦ rw e (create _ _ (config_off _ (update_off p w h)))
        | inr e ↦ rw e (update_off p w h)
      ]
  sm_input_event-TimerAt online (unexpected n) p w k h = absurd k
  sm_input_event-TimerAt online _ p w k h = h
  sm_input_event-TimerAt unregister reg_perm p w k h =
      create _ _ (register_off _ (read_off _ (generate_off _ h)))
  sm_input_event-TimerAt unregister (unexpected n) p w k h = absurd k
  sm_input_event-TimerAt unregister _ p w k h = h
  sm_input_event-TimerAt error _ p w k h = h

  -- For every device that keeps the rules of the timer and every sequence of known events: if the
  -- timer is armed in AUTH, REGISTER and CONFIG and disarmed in the other states before it, then so
  -- it is after it.
  pub run-TimerAt :
      (es : List (Event × P)) (m : Machine W)
      → AllKnown es
      → TimerAt Armed Disarmed m.current m.world
      → TimerAt Armed Disarmed (run d es m).current (run d es m).world
  unfolding run
  run-TimerAt [] m k h = h
  run-TimerAt ((e, p) ∷ es) m k h =
      run-TimerAt es (sm_input_event d e p m) k.1
        (sm_input_event-TimerAt m.current e p m.world k.0 h)
