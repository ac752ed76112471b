-- ===== src/Device/Up.antt =====
-- The connections of src/device.c while the state machine works with the cloud.
use knot_virtualthing.Prelude.{
  ℕ, ℤ, true, ◌≡◌, refl, ◌∙◌, none, some, List, [], ◌∷◌, inl, inr, Option-cases, arith,
}
use knot_virtualthing.Protocol.{Float, Config}
use knot_virtualthing.Storage.{LSettings}
use knot_virtualthing.Thing.{DataItem, lookup_item}
use knot_virtualthing.Properties.Update.{properties_update_data_item}
use knot_virtualthing.Sm.{Event}
use knot_virtualthing.Sm.Frame.{FrameRules, frame_step, is_linked, step-is_linked, down-is_linked}
use knot_virtualthing.Device.World.{
  World, Outside, UserData, null, token, sensor_ids, configs, device, on_publish_data, publish_each,
  publish_items, update_config_item, update_config_items, device_store_credentials_on_file,
  device_clear_credentials_on_file, device_generate_thing_id, device_start_read_cloud,
  device_check_schema_change, device_send_register_request, device_send_auth_request,
  device_send_config, device_publish_data_list, device_publish_data_all, device_start_event,
  device_stop_event, device_update_config, device_msg_timeout_create, device_msg_timeout_modify,
  device_msg_timeout_remove,
}
use knot_virtualthing.Device.Handlers.{Program, input, connected_mask}
use knot_virtualthing.Device.Session.{Callback, callback, session}
use knot_virtualthing.Device.Feeds.{
  Feeds, ignored, fed, callback-Feeds, MaskStep, same_mask, down, both_up, IsSent,
}

module _ {l : LSettings} (o : Outside l) where
  publish_mask : (id : ℤ) (w : World l) → (on_publish_data o id w).conn_mask ≡ w.conn_mask
  unfolding on_publish_data
  publish_mask id w = elim (Option-cases (lookup_item id w.thing.data_items)) [
    | inl e ↦ rw (e, on_publish_data)
    | inr (i, e) ↦ rw (e, on_publish_data)
  ]

  each_mask : (ids : List ℤ) (w : World l) → (publish_each o ids w).conn_mask ≡ w.conn_mask
  unfolding publish_each
  each_mask [] w = refl
  each_mask (id ∷ ids) w = each_mask ids (on_publish_data o id w) ∙ publish_mask id w

  items_mask : (is : List DataItem) (w : World l) → (publish_items o is w).conn_mask ≡ w.conn_mask
  unfolding publish_items
  items_mask [] w = refl
  items_mask (i ∷ is) w =
      items_mask is (on_publish_data o i.sensor_id w) ∙ publish_mask i.sensor_id w

  list_mask :
      (p : UserData) (w : World l) → (device_publish_data_list o p w).conn_mask ≡ w.conn_mask
  unfolding device_publish_data_list
  list_mask (sensor_ids ids) w = each_mask ids w
  list_mask null w = refl
  list_mask (token t) w = refl
  list_mask (configs cs) w = refl

  config_mask : (c : Config) (w : World l) → (update_config_item o c w).conn_mask ≡ w.conn_mask
  unfolding update_config_item
  config_mask c w =
      elim (Option-cases (
        properties_update_data_item l o.sys o.knot w.thing.conf_files.device_path c
          (w.thing, w.store))) [
            | inl e ↦ rw (e, update_config_item)
            | inr (r, e) ↦ rw (e, update_config_item)
          ]

  configs_mask :
      (cs : List Config) (w : World l) → (update_config_items o cs w).conn_mask ≡ w.conn_mask
  unfolding update_config_items
  configs_mask [] w = refl
  configs_mask (c ∷ cs) w = configs_mask cs (update_config_item o c w) ∙ config_mask c w

  start_mask : (w : World l) → (device_start_event o w).1.conn_mask ≡ w.conn_mask
  unfolding device_start_event
  start_mask w = ground arith

  update_mask :
      (p : UserData) (w : World l) → (device_update_config o p w).1.conn_mask ≡ w.conn_mask
  unfolding device_update_config device_stop_event
  update_mask (configs cs) w =
      start_mask (update_config_items o cs (device_stop_event o w))
      ∙ configs_mask cs (device_stop_event o w)
  update_mask null w = start_mask (device_stop_event o w)
  update_mask (token t) w = refl
  update_mask (sensor_ids ids) w = refl

  store_mask :
      (p : UserData) (w : World l)
      → (device_store_credentials_on_file o p w).1.conn_mask ≡ w.conn_mask
  unfolding device_store_credentials_on_file
  store_mask (token (some t)) w = ground arith
  store_mask (token none) w = refl
  store_mask null w = refl
  store_mask (sensor_ids ids) w = refl
  store_mask (configs cs) w = refl

  create_mask : (n : ℕ) (w : World l) → (device_msg_timeout_create o n w).conn_mask ≡ w.conn_mask
  unfolding device_msg_timeout_create
  create_mask n w = elim (Option-cases w.thing.msg_to) [
    | inl e ↦ rw (e, device_msg_timeout_create)
    | inr (to, e) ↦ rw (e, device_msg_timeout_create)
  ]

  pub device-FrameRules : FrameRules (device o) (λ w. w.conn_mask)
  unfolding device_generate_thing_id device_start_read_cloud device_check_schema_change
      device_send_register_request device_send_auth_request device_send_config
      device_msg_timeout_modify device_msg_timeout_remove device_clear_credentials_on_file
      device_stop_event device_publish_data_all
  device-FrameRules = record {
    quiet = record {
      create = create_mask;
      modify = λ n w. refl;
      remove = λ w. refl;
      generate = λ w. refl;
      read = λ w. refl;
      store = store_mask;
      clear = λ w. refl;
      schema = λ w. refl;
      send_register = λ w. refl;
      send_auth = λ w. refl;
      send_config = λ w. refl;
    };
    publish_list = list_mask;
    publish_all = λ w. items_mask w.thing.data_items w;
    start = start_mask;
    stop = λ w. refl;
    update = update_mask;
  }

  -- A state that needs the connections has both of them.
  abbrev pub IsUp : Program o → Type 0
  IsUp m = is_linked m.current ≡ true → m.world.conn_mask ≡ connected_mask

module _ {l : LSettings} (o : Outside l) (fl : Float) where
  fed-IsUp :
      (c : Callback) (e : Event) (p : UserData) (m : Program o) (w : World l)
      → IsSent c e
      → MaskStep e m.world w
      → IsUp o m
      → IsUp o (input o e p (record m { world = w }))
  fed-IsUp c e p m w s (same_mask q n) h k =
      frame_step (device-FrameRules o) m.current e p w
      ∙ (q ∙ h (step-is_linked (device o) e p (record m { world = w }) n s.not_reg_perm k))
  fed-IsUp c e p m w s (down q) h k =
      let gone = down-is_linked (device o) e p (record m { world = w }) q in cc
  fed-IsUp c e p m w s (both_up q) h k = frame_step (device-FrameRules o) m.current e p w ∙ q

  Feeds-IsUp : (c : Callback) (m m' : Program o) → Feeds o fl c m m' → IsUp o m → IsUp o m'
  Feeds-IsUp c m _ (ignored w p q) h k = q ∙ h k
  Feeds-IsUp c m _ (fed e u w p s q) h k = fed-IsUp c e u m w s q h k

  -- After every session, in any order of callbacks and with any answers from outside, the mask says
  -- that both connections are up if the machine is in AUTH, REGISTER, CONFIG or ONLINE, provided that
  -- this holds before it.
  pub session-IsUp : (cs : List Callback) (m : Program o) → IsUp o m → IsUp o (session o fl cs m)
  unfolding session
  session-IsUp [] m h = h
  session-IsUp (c ∷ cs) m h =
      session-IsUp cs (callback o fl c m)
        (Feeds-IsUp c m (callback o fl c m) (callback-Feeds o fl c m) h)
