-- ===== src/Examples/Machines.antt =====
-- A small device for the machine of src/sm.c, like the fake device of the repository's tests.
use knot_virtualthing.Prelude.{
  ℕ, suc, ℤ, pos, Bool, true, false, ◌≡◌, refl, List, [], ◌∷◌, inl, inr, ◌⊎◌,
}
use knot_virtualthing.Sm.{
  Device, disconnected, online, Event, ready, not_ready, timeout, auth_ok, reg_ok, reg_perm,
  pub_data, Machine, sm_input_event, run, sm_start,
}
use knot_virtualthing.Sm.Timer.{TimerRules, TimerAt, run-TimerAt}
use knot_virtualthing.Sm.Diagram.{Change, sm_input_event-Change}
use knot_virtualthing.Sm.Traces.{Occurs, run_needs_auth_ok}
use knot_virtualthing.Sm.Quiet.{QuietRules, run_quiet}
use knot_virtualthing.Sm.BringUp.{answers, new_thing_comes_online}

-- The token, whether the schema has changed, whether the timer runs, and the number of publications.
pub record Fake : Type 0 where
  pub has_token : ℤ
  pub new_schema : ℤ
  pub armed : Bool
  pub published : ℕ

abbrev fake : Device Fake ℕ
fake = record {
  has_thing_token = λ w. w.has_token;
  generate_thing_id = λ w. w;
  start_read_cloud = λ w. (pos 0, w);
  store_credentials_on_file = λ p w. (pos 0, record w { has_token = pos 1 });
  clear_credentials_on_file = λ w. (pos 0, record w { has_token = pos 0 });
  check_schema_change = λ w. (w.new_schema, w);
  send_register_request = λ w. (pos 0, w);
  send_auth_request = λ w. (pos 0, w);
  send_config = λ w. (pos 0, w);
  publish_data_list = λ p w. record w { published = suc w.published };
  publish_data_all = λ w. record w { published = suc w.published };
  start_event = λ w. (pos 0, w);
  stop_event = λ w. w;
  update_config = λ p w. (pos p, w);
  msg_timeout_create = λ n w. record w { armed = true };
  msg_timeout_modify = λ n w. w;
  msg_timeout_remove = λ w. record w { armed = false };
}

abbrev Runs : Fake → Type 0
Runs w = w.armed ≡ true

abbrev Rests : Fake → Type 0
Rests w = w.armed ≡ false

fake-TimerRules : TimerRules fake Runs Rests
fake-TimerRules = record {
  create = λ n w h. refl;
  modify = λ n w h. h;
  remove = λ w h. refl;
  generate_off = λ w h. h;
  generate_on = λ w h. h;
  read_off = λ w h. h;
  read_on = λ w h. h;
  store_off = λ p w h. h;
  clear_off = λ w h. h;
  schema_off = λ w h. h;
  register_off = λ w h. h;
  register_on = λ w h. h;
  auth_off = λ w h. h;
  auth_on = λ w h. h;
  config_off = λ w h. h;
  config_on = λ w h. h;
  list_off = λ p w h. h;
  all_off = λ w h. h;
  start_off = λ w h. h;
  stop_off = λ w h. h;
  update_off = λ p w h. h;
}

fake-QuietRules : QuietRules fake (λ w. w.published)
fake-QuietRules = record {
  create = λ n w. refl;
  modify = λ n w. refl;
  remove = λ w. refl;
  generate = λ w. refl;
  read = λ w. refl;
  store = λ p w. refl;
  clear = λ w. refl;
  schema = λ w. refl;
  send_register = λ w. refl;
  send_auth = λ w. refl;
  send_config = λ w. refl;
}

abbrev fresh : Fake
fresh = record { has_token = pos 0; new_schema = pos 1; armed = false; published = 0 }

abbrev known : Fake
known = record { has_token = pos 1; new_schema = pos 0; armed = false; published = 0 }

abbrev start_up : List (Event × ℕ)
start_up = (ready, 0) ∷ (reg_ok, 0) ∷ (auth_ok, 0) ∷ (timeout, 0) ∷ []

abbrev idle : Machine Fake
idle = record { current = disconnected; world = fresh }

run-TimerAt_example :
    TimerAt Runs Rests (run fake start_up idle).current (run fake start_up idle).world
run-TimerAt_example = run-TimerAt fake-TimerRules start_up idle (tt, (tt, (tt, (tt, tt)))) refl

abbrev before_auth : List (Event × ℕ)
before_auth = (ready, 0) ∷ (timeout, 0) ∷ (reg_ok, 0) ∷ (pub_data, 0) ∷ []

not_granted : ¬ Occurs auth_ok before_auth
not_granted (inl p) = cc
not_granted (inr (inl p)) = cc
not_granted (inr (inr (inl p))) = cc
not_granted (inr (inr (inr (inl p)))) = cc
not_granted (inr (inr (inr (inr n)))) = n

run_quiet_example : (run fake before_auth idle).world.published ≡ 0
run_quiet_example = run_quiet fake-QuietRules before_auth idle refl not_granted

run_needs_auth_ok_example : Occurs auth_ok start_up
unfolding run sm_input_event
run_needs_auth_ok_example = run_needs_auth_ok fake start_up idle refl refl

sm_input_event-Change_example :
    ((sm_input_event fake ready 0 idle).current ≡ disconnected)
    ⊎ Change ready disconnected (sm_input_event fake ready 0 idle).current
sm_input_event-Change_example = sm_input_event-Change fake ready 0 idle

abbrev knocking : List (Event × ℕ)
knocking = (ready, 0) ∷ (not_ready, 0) ∷ (auth_ok, 0) ∷ []

not_permitted : ¬ Occurs reg_perm knocking
not_permitted (inl p) = cc
not_permitted (inr (inl p)) = cc
not_permitted (inr (inr (inl p))) = cc
not_permitted (inr (inr (inr n))) = n

new_thing_comes_online_example :
    (run fake ((ready, 0) ∷ (reg_ok, 0) ∷ answers fake true 0) (sm_start fresh)).current ≡ online
unfolding sm_input_event sm_start
new_thing_comes_online_example = new_thing_comes_online fake true 0 fresh refl refl refl
