-- ===== src/Sm/Diagram.antt =====
-- The state diagram of src/sm.c, with the device left out: which changes of state an event can make.
use knot_virtualthing.Prelude.{ℕ, ◌≡◌, refl, ◌⊎◌, inl, inr, Bool-cases, is_neg, is_nonzero}
use knot_virtualthing.Sm.{
  Device, State, disconnected, auth, register, config, online, unregister, error, Event, ready,
  not_ready, auth_ok, auth_not_ok, reg_ok, cfg_upt_ok, cfg_upt_not_ok, unreg_req, reg_perm,
  unexpected, Machine, sm_input_event, first_state,
}

pub data HasLink : State → Type 0 where
  auth_link : HasLink auth
  register_link : HasLink register
  config_link : HasLink config
  online_link : HasLink online

pub data Change : Event → State → State → Type 0 where
  known_thing : Change ready disconnected auth
  new_thing : Change ready disconnected register
  registered : Change reg_ok register auth
  not_stored : Change reg_ok register error
  new_schema : Change auth_ok auth config
  old_schema : Change auth_ok auth online
  refused : Change auth_not_ok auth unregister
  configured : Change cfg_upt_ok config online
  not_configured : Change cfg_upt_not_ok config error
  reconfigure : Change cfg_upt_ok online config
  forget_auth : Change unreg_req auth unregister
  forget_config : Change unreg_req config unregister
  forget_online : Change unreg_req online unregister
  permitted : Change reg_perm unregister register
  link_lost : {s : State} → HasLink s → Change not_ready s disconnected
  invalid : (n : ℕ) {s : State} → Change (unexpected n) s error

-- the state that the event leads to, as an equation that a proof can split on
module _ {W P : Type 0} (d : Device W P) where
  abbrev pub after : State → Event → P → W → State
  after s e p w = (sm_input_event d e p (record { current = s; world = w })).current

  after-Change :
      (s : State) (e : Event) (p : P) (w : W) → (after s e p w ≡ s) ⊎ Change e s (after s e p w)
  unfolding sm_input_event
  after-Change disconnected ready p w = elim (Bool-cases (is_nonzero (d.has_thing_token w))) [
    | inl e ↦ rw (e, after, first_state) (inr known_thing)
    | inr e ↦ rw (e, after, first_state) (inr new_thing)
  ]
  after-Change disconnected (unexpected n) p w = inr (invalid n)
  after-Change disconnected _ p w = inl refl
  after-Change auth auth_ok p w =
      elim (Bool-cases (is_nonzero (d.check_schema_change (d.msg_timeout_remove w)).0)) [
        | inl e ↦ rw (e, after) (inr new_schema)
        | inr e ↦ rw (e, after) (inr old_schema)
      ]
  after-Change auth not_ready p w = inr (link_lost auth_link)
  after-Change auth auth_not_ok p w = inr refused
  after-Change auth unreg_req p w = inr forget_auth
  after-Change auth (unexpected n) p w = inr (invalid n)
  after-Change auth _ p w = inl refl
  after-Change register reg_ok p w =
      elim (Bool-cases (is_neg (d.store_credentials_on_file p (d.msg_timeout_remove w)).0)) [
        | inl e ↦ rw (e, after) (inr not_stored)
        | inr e ↦ rw (e, after) (inr registered)
      ]
  after-Change register not_ready p w = inr (link_lost register_link)
  after-Change register (unexpected n) p w = inr (invalid n)
  after-Change register _ p w = inl refl
  after-Change config cfg_upt_ok p w = inr configured
  after-Change config cfg_upt_not_ok p w = inr not_configured
  after-Change config unreg_req p w = inr forget_config
  after-Change config not_ready p w = inr (link_lost config_link)
  after-Change config (unexpected n) p w = inr (invalid n)
  after-Change config _ p w = inl refl
  after-Change online cfg_upt_ok p w = elim (Bool-cases (is_nonzero (d.update_config p w).0)) [
    | inl e ↦ rw (e, after) (inr reconfigure)
    | inr e ↦ rw (e, after) (inl refl)
  ]
  after-Change online unreg_req p w = inr forget_online
  after-Change online not_ready p w = inr (link_lost online_link)
  after-Change online (unexpected n) p w = inr (invalid n)
  after-Change online _ p w = inl refl
  after-Change unregister reg_perm p w = inr permitted
  after-Change unregister (unexpected n) p w = inr (invalid n)
  after-Change unregister _ p w = inl refl
  after-Change error _ p w = inl refl

  -- Whatever the device answers, an event either leaves the state as it is or makes a change of the
  -- diagram `Change`.
  pub sm_input_event-Change :
      (e : Event) (p : P) (m : Machine W)
      → ((sm_input_event d e p m).current ≡ m.current)
        ⊎ Change e m.current (sm_input_event d e p m).current
  sm_input_event-Change e p m = after-Change m.current e p m.world
