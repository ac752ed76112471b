-- ===== src/Sm/BringUp.antt =====
-- The sessions of src/sm.c that start a thing with a token and a thing without one.
use knot_virtualthing.Prelude.{
  ℤ, Bool, true, false, ◌≡◌, refl, ap, List, [], ◌∷◌, is_neg, is_nonzero,
}
use knot_virtualthing.Sm.{
  Device, State, auth, register, online, error, Event, ready, auth_ok, reg_ok, cfg_upt_ok, Machine,
  sm_input_event, run, sm_start, first_state,
}

world_kept :
    {W : Type 0} (m : Machine W) {s : State}
    → m.current ≡ s
    → m ≡ record { current = s; world = m.world }
world_kept m h = ap (λ (c : State). record { current = c; world = m.world }) h

-- What follows once the machine waits for the answer to an authentication request: EVT_AUTH_OK, and
-- EVT_CFG_UPT_OK if the schema has to be sent.
module _ {W P : Type 0} (d : Device W P) where
  run-cons :
      (e : Event) (p : P) (es : List (Event × P)) (m : Machine W)
      → run d ((e, p) ∷ es) m ≡ run d es (sm_input_event d e p m)
  unfolding run
  run-cons e p es m = refl

  abbrev pub schema_changed : W → Bool
  schema_changed w = is_nonzero (d.check_schema_change (d.msg_timeout_remove w)).0

  abbrev pub answers : Bool → P → List (Event × P)
  answers true p = (auth_ok, p) ∷ (cfg_upt_ok, p) ∷ []
  answers false p = (auth_ok, p) ∷ []

  auth-online :
      (b : Bool) (p : P) (w : W)
      → schema_changed w ≡ b
      → (run d (answers b p) (record { current = auth; world = w })).current ≡ online
  unfolding run sm_input_event
  auth-online true p w h = rw h
  auth-online false p w h = rw h

  -- the device when the authentication request of a known thing has been sent
  abbrev pub sent_auth : P → W → W
  sent_auth p w = (sm_input_event d ready p (sm_start w)).world

  ready_known :
      (p : P) (w : W)
      → is_nonzero (d.has_thing_token w) ≡ true
      → sm_input_event d ready p (sm_start w) ≡ record { current = auth; world = sent_auth p w }
  unfolding sm_input_event sm_start
  ready_known p w h = world_kept (sm_input_event d ready p (sm_start w)) (rw (h, first_state))

  -- A thing with a stored token is brought online by EVT_READY, EVT_AUTH_OK and, where the device
  -- says that its schema has changed, EVT_CFG_UPT_OK.
  pub known_thing_comes_online :
      (b : Bool) (p : P) (w : W)
      → is_nonzero (d.has_thing_token w) ≡ true
      → schema_changed (sent_auth p w) ≡ b
      → (run d ((ready, p) ∷ answers b p) (sm_start w)).current ≡ online
  known_thing_comes_online b p w h k =
      rw (run-cons, ready_known p w h) (auth-online b p (sent_auth p w) k)

  -- the device when the request to register has been sent, and when the token has been handed over
  abbrev pub sent_register : P → W → W
  sent_register p w = (sm_input_event d ready p (sm_start w)).world

  abbrev pub stored : P → W → ℤ × W
  stored p w = d.store_credentials_on_file p (d.msg_timeout_remove (sent_register p w))

  abbrev pub sent_auth_new : P → W → W
  sent_auth_new p w =
      (sm_input_event d reg_ok p (record { current = register; world = sent_register p w })).world

  ready_new :
      (p : P) (w : W)
      → is_nonzero (d.has_thing_token w) ≡ false
      → sm_input_event d ready p (sm_start w)
        ≡ record { current = register; world = sent_register p w }
  unfolding sm_input_event sm_start
  ready_new p w h = world_kept (sm_input_event d ready p (sm_start w)) (rw (h, first_state))

  reg_ok_stored :
      (p : P) (w : W)
      → is_neg (stored p w).0 ≡ false
      → sm_input_event d reg_ok p (record { current = register; world = sent_register p w })
        ≡ record { current = auth; world = sent_auth_new p w }
  unfolding sm_input_event
  reg_ok_stored p w h =
      world_kept
        (sm_input_event d reg_ok p (record { current = register; world = sent_register p w }))
        (rw h)

  -- A thing without a token is brought online by EVT_READY, EVT_REG_OK, EVT_AUTH_OK and, where the
  -- device says that its schema has changed, EVT_CFG_UPT_OK, if the device stores the credentials.
  pub new_thing_comes_online :
      (b : Bool) (p : P) (w : W)
      → is_nonzero (d.has_thing_token w) ≡ false
      → is_neg (stored p w).0 ≡ false
      → schema_changed (sent_auth_new p w) ≡ b
      → (run d ((ready, p) ∷ (reg_ok, p) ∷ answers b p) (sm_start w)).current ≡ online
  new_thing_comes_online b p w h k c =
      rw (run-cons, ready_new p w h, run-cons, reg_ok_stored p w k)
        (auth-online b p (sent_auth_new p w) c)

  -- A token that cannot be stored ends the session in ERROR.
  reg_ok_not_stored :
      (p : P) (w : W)
      → is_neg (stored p w).0 ≡ true
      → (sm_input_event d reg_ok p
          (record { current = register; world = sent_register p w })).current
        ≡ error
  unfolding sm_input_event
  reg_ok_not_stored p w h = rw h
