-- ===== src/Device/Armed.antt =====
-- The functions of src/device.c against the rules of the reply timer.
use knot_virtualthing.Prelude.{◌≡◌, ◌∙◌, ℕ, ℤ, refl, Option, none, some, List, [], ◌∷◌}
use knot_virtualthing.Storage.{LSettings}
use knot_virtualthing.Thing.{DataItem, lookup_item}
use knot_virtualthing.Thing.Calls.{Log, timeout_modify, timeout_remove}
use knot_virtualthing.Sm.Timer.{TimerRules}
use knot_virtualthing.Event.Sensors.{event_start}
use knot_virtualthing.Device.World.{
  World, Outside, UserData, null, token, sensor_ids, configs, device, publish_item, publish_each,
  publish_items, on_publish_data, device_generate_thing_id, device_start_read_cloud,
  device_store_credentials_on_file, device_clear_credentials_on_file, device_start_event,
  device_stop_event, update_config_items, device_update_config, device_check_schema_change,
  device_send_register_request, device_send_auth_request, device_send_config,
  device_publish_data_list, device_publish_data_all, device_msg_timeout_create,
  device_msg_timeout_modify, device_msg_timeout_remove,
}
use knot_virtualthing.Device.Sound.{
  NoNull, IsTimer, timer_of, Pending, Armed, Disarmed, Disarmed-same, stop_lem, start-Sound,
  clear_same, store_same, update_items_same,
}
use knot_virtualthing.Device.Reply.{
  reply_timers, is_running, same-IsHeld, same-Runs, IsHeld, modify-Runs, modify-IsHeld,
  remove-reply, create-IsHeld, create-Runs, start-reply, stop-reply,
}

modify_lem :
    (to : Option ℕ) (n : ℕ) (log : Log)
    → IsHeld to log
    → NoNull log
    → NoNull (timeout_modify to n ∷ log)
modify_lem none n log t h = absurd t
modify_lem (some to) n log t h = h

remove_lem :
    (to : Option ℕ) (log : Log) → IsHeld to log → NoNull log → NoNull (timeout_remove to ∷ log)
remove_lem none log t h = absurd t
remove_lem (some to) log t h = h

-- What a call to the cloud, or a random number, leaves alone.
pub record Apart {l : LSettings} (w w' : World l) : Type 0 where
  same_msg_to : w'.thing.msg_to ≡ w.thing.msg_to
  same_event : w'.event ≡ w.event
  replies : reply_timers w'.log ≡ reply_timers w.log
  runs : (t : ℕ) → is_running t w'.log ≡ is_running t w.log
  no_null : NoNull w.log → NoNull w'.log

module _ {l : LSettings} (w w' : World l) (a : Apart w w') where
  pub Pending-apart : Pending w → Pending w'
  Pending-apart h =
      rw (a.same_msg_to, a.same_event)
        (same-IsHeld w.thing.msg_to w.log w'.log a.replies h.0, (a.no_null h.1.0, h.1.1))

  Armed-apart : Armed w → Armed w'
  Armed-apart h =
      (Pending-apart h.0, rw a.same_msg_to (same-Runs w.thing.msg_to w.log w'.log a.runs h.1))

module _ {l : LSettings} (o : Outside l) where
  generate-Apart : (w : World l) → Apart w (device_generate_thing_id o w)
  unfolding device_generate_thing_id
  generate-Apart w = record {
    same_msg_to = refl;
    same_event = refl;
    replies = refl;
    runs = λ t. refl;
    no_null = λ h. h;
  }

  read-Apart : (w : World l) → Apart w (device_start_read_cloud o w).1
  unfolding device_start_read_cloud
  read-Apart w = record {
    same_msg_to = refl;
    same_event = refl;
    replies = refl;
    runs = λ t. refl;
    no_null = λ h. h;
  }

  pub register-Apart : (w : World l) → Apart w (device_send_register_request o w).1
  unfolding device_send_register_request
  register-Apart w = record {
    same_msg_to = refl;
    same_event = refl;
    replies = refl;
    runs = λ t. refl;
    no_null = λ h. h;
  }

  pub auth-Apart : (w : World l) → Apart w (device_send_auth_request o w).1
  unfolding device_send_auth_request
  auth-Apart w = record {
    same_msg_to = refl;
    same_event = refl;
    replies = refl;
    runs = λ t. refl;
    no_null = λ h. h;
  }

  pub config-Apart : (w : World l) → Apart w (device_send_config o w).1
  unfolding device_send_config
  config-Apart w = record {
    same_msg_to = refl;
    same_event = refl;
    replies = refl;
    runs = λ t. refl;
    no_null = λ h. h;
  }

module _ {l : LSettings} (o : Outside l) (alloc : (log : Log) → IsTimer (o.ans.timer log)) where
  publish_item-Disarmed :
      (i : Option DataItem) (w : World l) → Disarmed w → Disarmed (publish_item o i w)
  publish_item-Disarmed none w h = h
  publish_item-Disarmed (some i) w h = h

  publish-Disarmed : (id : ℤ) (w : World l) → Disarmed w → Disarmed (on_publish_data o id w)
  unfolding on_publish_data
  publish-Disarmed id w h = publish_item-Disarmed (lookup_item id w.thing.data_items) w h

  each-Disarmed : (ids : List ℤ) (w : World l) → Disarmed w → Disarmed (publish_each o ids w)
  unfolding publish_each
  each-Disarmed [] w h = h
  each-Disarmed (id ∷ ids) w h =
      each-Disarmed ids (on_publish_data o id w) (publish-Disarmed id w h)

  items-Disarmed :
      (is' : List DataItem) (w : World l) → Disarmed w → Disarmed (publish_items o is' w)
  unfolding publish_items
  items-Disarmed [] w h = h
  items-Disarmed (i ∷ is') w h =
      items-Disarmed is' (on_publish_data o i.sensor_id w) (publish-Disarmed i.sensor_id w h)

  list-Disarmed :
      (p : UserData) (w : World l) → Disarmed w → Disarmed (device_publish_data_list o p w)
  unfolding device_publish_data_list
  list-Disarmed (sensor_ids ids) w h = each-Disarmed ids w h
  list-Disarmed null w h = h
  list-Disarmed (token t) w h = h
  list-Disarmed (configs cs) w h = h

  stop-Disarmed : (w : World l) → Disarmed w → Disarmed (device_stop_event o w)
  unfolding device_stop_event
  stop-Disarmed w h =
      ((h.0.0, stop-reply o w h.0.1), stop_lem w.log w.event.sensor_timeouts w.event.active h.1)

  start-Disarmed : (w : World l) → Disarmed w → Disarmed (device_start_event o w).1
  unfolding device_start_event event_start
  start-Disarmed w h = ((h.0.0, start-reply o w ∙ h.0.1), start-Sound o alloc w h.1)

  update-Disarmed :
      (p : UserData) (w : World l) → Disarmed w → Disarmed (device_update_config o p w).1
  unfolding device_update_config
  update-Disarmed (configs cs) w h =
      let w1 = device_stop_event o w in
      let w2 = update_config_items o cs w1 in
      start-Disarmed w2 (Disarmed-same w1 w2 (update_items_same o cs w1) (stop-Disarmed w h))
  update-Disarmed null w h = start-Disarmed _ (stop-Disarmed w h)
  update-Disarmed (token t) w h = h
  update-Disarmed (sensor_ids ids) w h = h

  create-Armed : (n : ℕ) (w : World l) → Disarmed w → Armed (device_msg_timeout_create o n w)
  unfolding device_msg_timeout_create
  create-Armed n w h =
      let to = o.ans.timer w.log in
      let made = timer_of to (alloc w.log) in
      rw (h.0.0, device_msg_timeout_create)
        ((create-IsHeld to n w.log made h.0.1, h.1), create-Runs to n w.log made)

  -- A timer that has ended is set again.
  pub modify-Armed : (n : ℕ) (w : World l) → Pending w → Armed (device_msg_timeout_modify o n w)
  unfolding device_msg_timeout_modify
  modify-Armed n w h = (
    (
      modify-IsHeld w.thing.msg_to n w.log h.0,
      (modify_lem w.thing.msg_to n w.log h.0 h.1.0, h.1.1),
    ),
    modify-Runs w.thing.msg_to n w.log h.0,
  )

  -- The device keeps the rules that the state machine relies on.
  pub device-TimerRules : TimerRules (device o) Armed Disarmed
  unfolding device_generate_thing_id device_start_read_cloud device_check_schema_change
      device_send_register_request device_send_auth_request device_send_config
      device_publish_data_all device_msg_timeout_modify device_msg_timeout_remove
  device-TimerRules = record {
    create = create-Armed;
    modify = λ n w h. modify-Armed n w h.0;
    remove = λ w h. (
      (refl, remove-reply w.thing.msg_to w.log h.0.0),
      (remove_lem w.thing.msg_to w.log h.0.0 h.0.1.0, h.0.1.1),
    );
    generate_off = λ w h. h;
    generate_on = λ w. Armed-apart w _ (generate-Apart o w);
    read_off = λ w h. h;
    read_on = λ w. Armed-apart w _ (read-Apart o w);
    store_off =
        λ p w. Disarmed-same w (device_store_credentials_on_file o p w).1 (store_same o p w);
    clear_off = λ w. Disarmed-same w (device_clear_credentials_on_file o w).1 (clear_same o w);
    schema_off = λ w h. h;
    register_off = λ w h. h;
    register_on = λ w. Armed-apart w _ (register-Apart o w);
    auth_off = λ w h. h;
    auth_on = λ w. Armed-apart w _ (auth-Apart o w);
    config_off = λ w h. h;
    config_on = λ w. Armed-apart w _ (config-Apart o w);
    list_off = list-Disarmed;
    all_off = λ w. items-Disarmed w.thing.data_items w;
    start_off = start-Disarmed;
    stop_off = stop-Disarmed;
    update_off = update-Disarmed;
  }
