-- ===== src/Device/Safe/Inputs.antt =====
-- src/device.c, src/sm.c: one event with what belongs to it, and what `void *user_data` is read as.
use knot_virtualthing.Prelude.{
  ℕ, ℤ, ◌≡◌, refl, ◌∙◌, none, some, List, [], ◌∷◌, inl, inr, Option-cases, Bool-cases, arith,
}
use knot_virtualthing.Storage.{LSettings, Store}
use knot_virtualthing.Thing.{Thing, DataItem, lookup_item}
use knot_virtualthing.Protocol.{Config}
use knot_virtualthing.Properties.Update.{properties_update_data_item}
use knot_virtualthing.Sm.{
  State, disconnected, auth, register, config, online, unregister, error, Event, ready, not_ready,
  reg_ok, cfg_upt_ok, reg_perm, pub_data, get_next, first_state, get_next_disconnected,
  get_next_auth, get_next_register, get_next_config, get_next_online, get_next_unregister,
  get_next_error, enter, sm_input_event, same_state,
}
use knot_virtualthing.Device.World.{
  World, Outside, UserData, null, token, sensor_ids, configs, device, on_publish_data, publish_each,
  publish_items, device_store_credentials_on_file, device_clear_credentials_on_file,
  device_generate_thing_id, device_start_read_cloud, device_check_schema_change,
  device_send_register_request, device_send_auth_request, device_send_config,
  device_publish_data_list, device_publish_data_all, device_start_event, device_stop_event,
  device_msg_timeout_create, device_msg_timeout_modify, device_msg_timeout_remove,
  device_has_thing_token, update_config_item, update_config_items, device_update_config,
}
use knot_virtualthing.Device.Handlers.{Program, input}

-- a queue of sensor ids, or NULL
abbrev pub AreIds : UserData → Type 0
AreIds null = Unit
AreIds (sensor_ids ids) = Unit
AreIds _ = ⊥

abbrev pub IsToken : UserData → Type 0
IsToken (token (some t)) = Unit
IsToken _ = ⊥

module _ {l : LSettings} (o : Outside l) where
  -- properties_update_data_item returns for each configuration: it does not read through the NULL
  -- that get_data_item_groups answers for a file whose last group is no data item.
  abbrev pub UpdatesReturn : List Config → World l → Type 0
  UpdatesReturn [] w = Unit
  UpdatesReturn (c ∷ cs) w =
      ((r : ℤ × Thing × Store l) × (properties_update_data_item l o.sys o.knot
            w.thing.conf_files.device_path c (w.thing, w.store)
          ≡ some r))
      × UpdatesReturn cs (update_config_item o c w)

  -- NULL or a queue of configurations; in ONLINE their updates return.
  abbrev pub AreConfigs : UserData → State → World l → Type 0
  AreConfigs null s w = Unit
  AreConfigs (configs cs) online w = UpdatesReturn cs (device_stop_event o w)
  AreConfigs (configs cs) s w = Unit
  AreConfigs p s w = ⊥

  -- what an event comes with
  abbrev pub Carries : Event → UserData → State → World l → Type 0
  Carries pub_data p s w = AreIds p
  Carries reg_ok p s w = IsToken p
  Carries cfg_upt_ok p s w = AreConfigs p s w
  Carries e p s w = Unit

  publish_safe : (id : ℤ) (w : World l) → (on_publish_data o id w).crashed ≡ w.crashed
  unfolding on_publish_data
  publish_safe id w = elim (Option-cases (lookup_item id w.thing.data_items)) [
    | inl e ↦ rw (e, on_publish_data)
    | inr (i, e) ↦ rw (e, on_publish_data)
  ]

  each_safe : (ids : List ℤ) (w : World l) → (publish_each o ids w).crashed ≡ w.crashed
  unfolding publish_each
  each_safe [] w = refl
  each_safe (id ∷ ids) w = each_safe ids (on_publish_data o id w) ∙ publish_safe id w

  items_safe : (is : List DataItem) (w : World l) → (publish_items o is w).crashed ≡ w.crashed
  unfolding publish_items
  items_safe [] w = refl
  items_safe (i ∷ is) w =
      items_safe is (on_publish_data o i.sensor_id w) ∙ publish_safe i.sensor_id w

  list_safe :
      (p : UserData) (w : World l) → AreIds p → (device_publish_data_list o p w).crashed ≡ w.crashed
  unfolding device_publish_data_list
  list_safe (sensor_ids ids) w h = each_safe ids w
  list_safe null w h = refl
  list_safe (token t) w h = absurd h
  list_safe (configs cs) w h = absurd h

  start_safe : (w : World l) → (device_start_event o w).1.crashed ≡ w.crashed
  unfolding device_start_event
  start_safe w = ground arith

  update_config_item_safe :
      (c : Config) (w : World l) (r : ℤ × Thing × Store l)
      → properties_update_data_item l o.sys o.knot w.thing.conf_files.device_path c
          (w.thing, w.store)
        ≡ some r
      → (update_config_item o c w).crashed ≡ w.crashed
  unfolding update_config_item
  update_config_item_safe c w r e = rw (e, update_config_item) refl

  update_config_items_safe :
      (cs : List Config) (w : World l)
      → UpdatesReturn cs w
      → (update_config_items o cs w).crashed ≡ w.crashed
  unfolding update_config_items
  update_config_items_safe [] w h = refl
  update_config_items_safe (c ∷ cs) w ((r, e), h) =
      update_config_items_safe cs (update_config_item o c w) h ∙ update_config_item_safe c w r e

  update_safe :
      (p : UserData) (w : World l)
      → AreConfigs p online w
      → (device_update_config o p w).1.crashed ≡ w.crashed
  unfolding device_update_config device_stop_event
  update_safe null w h = start_safe (device_stop_event o w)
  update_safe (configs cs) w h =
      start_safe (update_config_items o cs (device_stop_event o w))
      ∙ update_config_items_safe cs (device_stop_event o w) h
  update_safe (token t) w h = absurd h
  update_safe (sensor_ids ids) w h = absurd h

  store_safe :
      (p : UserData) (w : World l)
      → IsToken p
      → (device_store_credentials_on_file o p w).1.crashed ≡ w.crashed
  unfolding device_store_credentials_on_file
  store_safe (token (some t)) w h = ground arith
  store_safe (token none) w h = absurd h
  store_safe null w h = absurd h
  store_safe (sensor_ids ids) w h = absurd h
  store_safe (configs cs) w h = absurd h

  create_safe : (n : ℕ) (w : World l) → (device_msg_timeout_create o n w).crashed ≡ w.crashed
  unfolding device_msg_timeout_create
  create_safe n w = elim (Option-cases w.thing.msg_to) [
    | inl e ↦ rw (e, device_msg_timeout_create)
    | inr (to, e) ↦ rw (e, device_msg_timeout_create)
  ]

  enter_safe : (s : State) (w : World l) → (enter (device o) s w).crashed ≡ w.crashed
  unfolding enter device_send_register_request device_send_auth_request device_send_config
      device_publish_data_all device_clear_credentials_on_file
  enter_safe disconnected w = refl
  enter_safe auth w = create_safe _ _
  enter_safe register w = create_safe _ _
  enter_safe config w = create_safe _ _
  enter_safe online w = start_safe _ ∙ items_safe w.thing.data_items w
  enter_safe unregister w = refl
  enter_safe error w = refl

  disconnected_safe :
      (e : Event) (p : UserData) (w : World l)
      → (get_next_disconnected (device o) e p w).1.crashed ≡ w.crashed
  unfolding get_next_disconnected first_state device_has_thing_token device_generate_thing_id
      device_start_read_cloud
  disconnected_safe ready p w = ground arith
  disconnected_safe _ p w = refl

  auth_safe :
      (e : Event) (p : UserData) (w : World l)
      → (get_next_auth (device o) e p w).1.crashed ≡ w.crashed
  unfolding get_next_auth device_check_schema_change device_send_auth_request
      device_msg_timeout_modify device_msg_timeout_remove
  auth_safe not_ready p w = refl
  auth_safe _ p w = refl

  register_safe :
      (e : Event) (p : UserData) (w : World l)
      → Carries e p register w
      → (get_next_register (device o) e p w).1.crashed ≡ w.crashed
  unfolding get_next_register device_generate_thing_id device_start_read_cloud
      device_send_register_request device_msg_timeout_modify device_msg_timeout_remove
  register_safe reg_ok p w h = store_safe p (device_msg_timeout_remove o w) h
  register_safe _ p w h = refl

  config_safe :
      (e : Event) (p : UserData) (w : World l)
      → (get_next_config (device o) e p w).1.crashed ≡ w.crashed
  unfolding get_next_config device_send_config device_msg_timeout_modify device_msg_timeout_remove
  config_safe not_ready p w = refl
  config_safe _ p w = refl

  online_safe :
      (e : Event) (p : UserData) (w : World l)
      → Carries e p online w
      → (get_next_online (device o) e p w).1.crashed ≡ w.crashed
  unfolding get_next_online device_stop_event
  online_safe pub_data p w h = list_safe p w h
  online_safe cfg_upt_ok p w h = update_safe p w h
  online_safe _ p w h = refl

  unregister_safe :
      (e : Event) (p : UserData) (w : World l)
      → (get_next_unregister (device o) e p w).1.crashed ≡ w.crashed
  unfolding get_next_unregister device_generate_thing_id device_start_read_cloud
  unregister_safe reg_perm p w = refl
  unregister_safe _ p w = refl

  next_safe :
      (s : State) (e : Event) (p : UserData) (w : World l)
      → Carries e p s w
      → (get_next (device o) s e p w).1.crashed ≡ w.crashed
  unfolding get_next get_next_error
  next_safe disconnected e p w h = disconnected_safe e p w
  next_safe auth e p w h = auth_safe e p w
  next_safe register e p w h = register_safe e p w h
  next_safe config e p w h = config_safe e p w
  next_safe online e p w h = online_safe e p w h
  next_safe unregister e p w h = unregister_safe e p w
  next_safe error e p w h = refl

  -- An event with what belongs to it reads through no wrong pointer.
  pub input_safe :
      (e : Event) (p : UserData) (m : Program o)
      → Carries e p m.current m.world
      → (input o e p m).world.crashed ≡ m.world.crashed
  unfolding sm_input_event
  input_safe e p m h =
      let (id, w1) = get_next (device o) m.current e p m.world in
      let n = next_safe m.current e p m.world h in
      elim (Bool-cases (same_state id m.current)) [
        | inl s ↦ rw (s, sm_input_event) n
        | inr s ↦ rw (s, sm_input_event) (enter_safe id w1 ∙ n)
      ]
