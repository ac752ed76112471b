-- ===== src/Sm/Frame.antt =====
-- What the machine of src/sm.c leaves alone because no function of the device changes it.
use knot_virtualthing.Prelude.{◌≡◌, ◌≢◌, refl, true, false, Bool, inl, inr, Bool-cases, is_nonzero}
use knot_virtualthing.Sm.{
  Device, State, disconnected, auth, register, config, online, unregister, error, Event, ready,
  not_ready, timeout, auth_ok, cfg_upt_ok, cfg_upt_not_ok, unreg_req, reg_perm, pub_data,
  sm_input_event, Machine,
}
use knot_virtualthing.Sm.Quiet.{QuietRules, quiet_step}
use knot_virtualthing.Sm.Diagram.{Change, sm_input_event-Change}

-- `seen` is something of the device that none of its functions changes.
pub record FrameRules {W P A : Type 0} (d : Device W P) (seen : W → A) : Type 0 where
  pub quiet : QuietRules d seen
  pub publish_list : (p : P) (w : W) → seen (d.publish_data_list p w) ≡ seen w
  pub publish_all : (w : W) → seen (d.publish_data_all w) ≡ seen w
  pub start : (w : W) → seen (d.start_event w).1 ≡ seen w
  pub stop : (w : W) → seen (d.stop_event w) ≡ seen w
  pub update : (p : P) (w : W) → seen (d.update_config p w).1 ≡ seen w

module _ {W P A : Type 0} {d : Device W P} {seen : W → A} (r : FrameRules d seen) where
  open r use {publish_list, publish_all, start, stop, update}
  open r.quiet use {
    create, modify, remove, generate, read, store, clear, schema, send_register, send_auth,
    send_config,
  }

  pub frame_step :
      (s : State) (e : Event) (p : P) (w : W)
      → seen (sm_input_event d e p (record { current = s; world = w })).world ≡ seen w
  unfolding sm_input_event
  frame_step auth auth_ok p w =
      elim (Bool-cases (is_nonzero (d.check_schema_change (d.msg_timeout_remove w)).0)) [
        | inl e ↦ rw e (simp (create, send_config, schema, remove))
        | inr e ↦ rw e (simp (start, publish_all, schema, remove))
      ]
  frame_step config not_ready p w = remove w
  frame_step config cfg_upt_ok p w = simp (start, publish_all, remove)
  frame_step config cfg_upt_not_ok p w = remove w
  frame_step config unreg_req p w = simp (clear, remove)
  frame_step config timeout p w = simp (modify, send_config)
  frame_step config _ p w = refl
  frame_step online not_ready p w = stop w
  frame_step online pub_data p w = publish_list p w
  frame_step online unreg_req p w = clear w
  frame_step online cfg_upt_ok p w = elim (Bool-cases (is_nonzero (d.update_config p w).0)) [
    | inl e ↦ rw e (simp (create, send_config, update))
    | inr e ↦ rw e (update p w)
  ]
  frame_step online _ p w = refl
  frame_step disconnected auth_ok p w = refl
  frame_step register auth_ok p w = refl
  frame_step unregister auth_ok p w = refl
  frame_step error auth_ok p w = refl
  frame_step s e p w = quiet_step r.quiet s e p w refl (λ q. cc)

-- the states that need both connections
abbrev pub is_linked : State → Bool
is_linked auth = true
is_linked register = true
is_linked config = true
is_linked online = true
is_linked _ = false

Change-is_linked :
    {e : Event} {s t : State}
    → Change e s t
    → e ≢ ready
    → e ≢ reg_perm
    → is_linked t ≡ true
    → is_linked s ≡ true
Change-is_linked Change.known_thing n k h = absurd (n refl)
Change-is_linked Change.new_thing n k h = absurd (n refl)
Change-is_linked Change.permitted n k h = absurd (k refl)
Change-is_linked Change.registered n k h = refl
Change-is_linked Change.new_schema n k h = refl
Change-is_linked Change.old_schema n k h = refl
Change-is_linked Change.configured n k h = refl
Change-is_linked Change.reconfigure n k h = refl
Change-is_linked _ n k h = cc

module _ {W P : Type 0} (d : Device W P) where
  pub step-is_linked :
      (e : Event) (p : P) (m : Machine W)
      → e ≢ ready
      → e ≢ reg_perm
      → is_linked (sm_input_event d e p m).current ≡ true
      → is_linked m.current ≡ true
  step-is_linked e p m n k h = elim (sm_input_event-Change d e p m) [
    | inl same ↦ cc
    | inr change ↦ Change-is_linked change n k h
  ]

  pub not_ready-is_linked :
      (s : State) (p : P) (w : W)
      → is_linked (sm_input_event d not_ready p (record { current = s; world = w })).current ≡ false
  unfolding sm_input_event
  not_ready-is_linked disconnected p w = refl
  not_ready-is_linked auth p w = refl
  not_ready-is_linked register p w = refl
  not_ready-is_linked config p w = refl
  not_ready-is_linked online p w = refl
  not_ready-is_linked unregister p w = refl
  not_ready-is_linked error p w = refl

  pub down-is_linked :
      (e : Event) (p : P) (m : Machine W)
      → e ≡ not_ready
      → is_linked (sm_input_event d e p m).current ≡ false
  down-is_linked e p m q = rw q (not_ready-is_linked m.current p m.world)
