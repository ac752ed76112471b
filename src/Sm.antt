-- ===== src/Sm.antt =====
-- src/sm.c, src/sm.h, src/sm-pvt.h: the state machine of the virtual device. The machine calls the
-- device only through src/device.h, which is the record `Device` of the child `Interface`; the tests
-- of the repository link it with a fake device in the same way. The proofs are in the children.
mod Interface
pub mod Timer
pub mod Diagram
pub mod Traces
pub mod Quiet
pub mod BringUp
pub mod Frame
pub mod Names
pub use Interface.{Device}
use knot_virtualthing.Prelude.{
  ℕ, ℤ, Bool, true, false, List, [], ◌∷◌, is_neg, is_nonzero, if◌then◌else◌,
}

-- enum STATES; its last name, N_OF_STATES, is the length of the table and no state.
pub data State : Type 0 where
  disconnected auth register config online unregister error : State

-- enum EVENTS; `unexpected` stands for an integer outside the enumeration, which the `default`
-- labels catch.
pub data Event : Type 0 where
  ready not_ready timeout auth_ok auth_not_ok reg_ok reg_not_ok : Event
  cfg_upt_ok cfg_upt_not_ok unreg_req reg_perm pub_data data_updt : Event
  unexpected : ℕ → Event

abbrev pub default_msg_timeout : ℕ
default_msg_timeout = 3

-- `next != current_state` compares addresses in one table, so it compares the states.
abbrev pub same_state : State → State → Bool
same_state disconnected disconnected = true
same_state auth auth = true
same_state register register = true
same_state config config = true
same_state online online = true
same_state unregister unregister = true
same_state error error = true
same_state _ _ = false

-- `current_state`, beside all other state of the program.
pub record Machine (W : Type 0) : Type 0 where
  pub current : State
  pub world : W

module _ {W P : Type 0} (d : Device W P) where
  -- the branch of EVT_READY on the stored token
  unfoldable pub first_state : Bool → W → State × W
  first_state true w = (auth, w)
  first_state false w = (register, d.generate_thing_id w)

  unfoldable pub get_next_disconnected : Event → P → W → State × W
  unfolding first_state
  get_next_disconnected ready p w =
      let (next, w1) = first_state (is_nonzero (d.has_thing_token w)) w in
      (next, (d.start_read_cloud w1).1)
  get_next_disconnected (unexpected n) p w = (error, w)
  get_next_disconnected _ p w = (disconnected, w)

  unfoldable pub get_next_auth : Event → P → W → State × W
  get_next_auth not_ready p w = (disconnected, d.msg_timeout_remove w)
  get_next_auth auth_ok p w =
      let w1 = d.msg_timeout_remove w in
      let (changed, w2) = d.check_schema_change w1 in
      (if is_nonzero changed then config else online, w2)
  get_next_auth auth_not_ok p w = (unregister, d.msg_timeout_remove w)
  get_next_auth unreg_req p w = (unregister, d.msg_timeout_remove w)
  get_next_auth timeout p w =
      (auth, d.msg_timeout_modify default_msg_timeout (d.send_auth_request w).1)
  get_next_auth (unexpected n) p w = (error, w)
  get_next_auth _ p w = (auth, w)

  unfoldable pub get_next_register : Event → P → W → State × W
  get_next_register not_ready p w = (disconnected, d.msg_timeout_remove w)
  get_next_register reg_ok p w =
      let (rc, w1) = d.store_credentials_on_file p (d.msg_timeout_remove w) in
      (if is_neg rc then error else auth, w1)
  get_next_register reg_not_ok p w = (register, (d.start_read_cloud (d.generate_thing_id w)).1)
  get_next_register timeout p w =
      (register, d.msg_timeout_modify default_msg_timeout (d.send_register_request w).1)
  get_next_register (unexpected n) p w = (error, w)
  get_next_register _ p w = (register, w)

  unfoldable pub get_next_config : Event → P → W → State × W
  get_next_config not_ready p w = (disconnected, d.msg_timeout_remove w)
  get_next_config cfg_upt_ok p w = (online, d.msg_timeout_remove w)
  get_next_config cfg_upt_not_ok p w = (error, d.msg_timeout_remove w)
  get_next_config unreg_req p w = (unregister, d.msg_timeout_remove w)
  get_next_config timeout p w =
      (config, d.msg_timeout_modify default_msg_timeout (d.send_config w).1)
  get_next_config (unexpected n) p w = (error, w)
  get_next_config _ p w = (config, w)

  unfoldable pub get_next_online : Event → P → W → State × W
  get_next_online not_ready p w = (disconnected, d.stop_event w)
  get_next_online pub_data p w = (online, d.publish_data_list p w)
  get_next_online data_updt p w = (online, w)
  get_next_online unreg_req p w = (unregister, w)
  get_next_online cfg_upt_ok p w =
      let (rc, w1) = d.update_config p w in (if is_nonzero rc then config else online, w1)
  get_next_online (unexpected n) p w = (error, w)
  get_next_online _ p w = (online, w)

  unfoldable pub get_next_unregister : Event → P → W → State × W
  get_next_unregister reg_perm p w = (register, (d.start_read_cloud (d.generate_thing_id w)).1)
  get_next_unregister (unexpected n) p w = (error, w)
  get_next_unregister _ p w = (unregister, w)

  unfoldable pub get_next_error : Event → P → W → State × W
  get_next_error e p w = (error, w)

  -- The functions that `sm_start` puts into the table `states`.
  unfoldable pub get_next : State → Event → P → W → State × W
  unfolding get_next_disconnected get_next_auth get_next_register get_next_config get_next_online
      get_next_unregister get_next_error
  get_next disconnected e p w = get_next_disconnected e p w
  get_next auth e p w = get_next_auth e p w
  get_next register e p w = get_next_register e p w
  get_next config e p w = get_next_config e p w
  get_next online e p w = get_next_online e p w
  get_next unregister e p w = get_next_unregister e p w
  get_next error e p w = get_next_error e p w

  enter_auth : W → W
  enter_auth w = d.msg_timeout_create default_msg_timeout (d.send_auth_request w).1

  enter_register : W → W
  enter_register w = d.msg_timeout_create default_msg_timeout (d.send_register_request w).1

  enter_config : W → W
  enter_config w = d.msg_timeout_create default_msg_timeout (d.send_config w).1

  enter_online : W → W
  enter_online w = (d.start_event (d.publish_data_all w)).1

  enter_unregister : W → W
  enter_unregister w = (d.clear_credentials_on_file w).1

  unfoldable pub enter : State → W → W
  unfolding enter_auth enter_register enter_config enter_online enter_unregister
  enter disconnected w = w
  enter auth w = enter_auth w
  enter register w = enter_register w
  enter config w = enter_config w
  enter online w = enter_online w
  enter unregister w = enter_unregister w
  enter error w = w

  -- The state changes after `enter` has run; nothing that `enter` calls reads it.
  unfoldable pub sm_input_event : Event → P → Machine W → Machine W
  unfolding get_next enter
  sm_input_event e p m =
      let (id, w1) = get_next m.current e p m.world in
      if same_state id m.current
      then record { current = m.current; world = w1 }
      else record { current = id; world = enter id w1 }

  -- The events of a session, in the order in which the main loop delivers them.
  unfoldable pub run : List (Event × P) → Machine W → Machine W
  run [] m = m
  run ((e, p) ∷ es) m = run es (sm_input_event e p m)

unfoldable pub sm_start : {W : Type 0} → W → Machine W
sm_start w = record { current = disconnected; world = w }
