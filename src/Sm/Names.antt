-- ===== src/Sm/Names.antt =====
-- src/sm.c: the names of events and states in the messages of the log.
use knot_virtualthing.Prelude.{String, str_eq, if◌then◌else◌, ◌≡◌, refl, sym, ◌∙◌, ap}
use knot_virtualthing.Sm.{
  State, disconnected, auth, register, config, online, unregister, error, Event, ready, not_ready,
  timeout, auth_ok, auth_not_ok, reg_ok, reg_not_ok, cfg_upt_ok, cfg_upt_not_ok, unreg_req,
  reg_perm, pub_data, data_updt, unexpected,
}

unfoldable pub event_to_str : Event → String
event_to_str reg_perm = "EVT_REG_PERM"
event_to_str not_ready = "EVT_NOT_READY"
event_to_str pub_data = "EVT_PUB_DATA"
event_to_str data_updt = "EVT_DATA_UPDT"
event_to_str timeout = "EVT_TIMEOUT"
event_to_str cfg_upt_ok = "EVT_CFG_UPT_OK"
event_to_str cfg_upt_not_ok = "EVT_CFG_UPT_NOT_OK"
event_to_str unreg_req = "EVT_UNREG_REQ"
event_to_str ready = "EVT_READY"
event_to_str auth_ok = "EVT_AUTH_OK"
event_to_str auth_not_ok = "EVT_AUTH_NOT_OK"
event_to_str reg_ok = "EVT_REG_OK"
event_to_str reg_not_ok = "EVT_REG_NOT_OK"
event_to_str (unexpected n) = "Unexpected Event"

unfoldable pub state_to_str : State → String
state_to_str disconnected = "ST_DISCONNECTED"
state_to_str auth = "ST_AUTH"
state_to_str register = "ST_REGISTER"
state_to_str config = "ST_CONFIG"
state_to_str online = "ST_ONLINE"
state_to_str unregister = "ST_UNREGISTER"
state_to_str error = "ST_ERROR"

-- the state that a name stands for
abbrev state_of : String → State
state_of name =
    if str_eq name "ST_DISCONNECTED"
    then disconnected
    else if str_eq name "ST_AUTH"
    then auth
    else if str_eq name "ST_REGISTER"
    then register
    else if str_eq name "ST_CONFIG"
    then config
    else if str_eq name "ST_ONLINE"
    then online
    else if str_eq name "ST_UNREGISTER"
    then unregister
    else error

state_of-name : (s : State) → state_of (state_to_str s) ≡ s
unfolding state_to_str
state_of-name disconnected = refl
state_of-name auth = refl
state_of-name register = refl
state_of-name config = refl
state_of-name online = refl
state_of-name unregister = refl
state_of-name error = refl

-- No two states have the same name.
pub state_to_str_injective : (s t : State) → state_to_str s ≡ state_to_str t → s ≡ t
state_to_str_injective s t h = sym (state_of-name s) ∙ ap state_of h ∙ state_of-name t
