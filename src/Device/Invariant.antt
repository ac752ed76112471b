-- ===== src/Device/Invariant.antt =====
-- What holds after every session of src/device.c.
use knot_virtualthing.Prelude.{
  ℕ, false, ◌≡◌, refl, ap, ◌∙◌, List, [], ◌∷◌, ◌⊎◌, inl, inr, Bool-cases, Option-cases,
}
use knot_virtualthing.Protocol.{Float}
use knot_virtualthing.Storage.{LSettings}
use knot_virtualthing.Thing.Calls.{Log, timeout_ended}
use knot_virtualthing.Sm.{
  State, auth, register, config, unregister, auth_ok, timeout, sm_input_event, default_msg_timeout,
}
use knot_virtualthing.Sm.Timer.{TimerAt, sm_input_event-TimerAt}
use knot_virtualthing.Sm.Traces.{unregister_step, is_authenticated, step_needs_auth_ok}
use knot_virtualthing.Sm.Quiet.{QuietRules, quiet_step}
use knot_virtualthing.Device.World.{
  World, Outside, null, device, device_generate_thing_id, device_start_read_cloud,
  device_check_schema_change, device_send_register_request, device_send_auth_request,
  device_send_config, device_msg_timeout_modify, device_msg_timeout_remove,
  device_msg_timeout_create,
}
use knot_virtualthing.Device.Handlers.{Program, input, on_msg_timeout}
use knot_virtualthing.Device.Session.{Callback, msg_timeout, callback, session, ended}
use knot_virtualthing.Device.Sound.{IsTimer, Pending, Armed, Disarmed, store_same, clear_same}
use knot_virtualthing.Device.Armed.{
  device-TimerRules, modify-Armed, Pending-apart, auth-Apart, register-Apart, config-Apart,
}
use knot_virtualthing.Device.Reply.{same-IsHeld}
use knot_virtualthing.Device.Feeds.{
  IsOther, Prepares, GrantsAuth, published, Feeds, ignored, fed, callback-Feeds,
}

-- In AUTH, REGISTER and CONFIG the one live reply timer is thing.msg_to, and it runs: it has been set and
-- has not ended since. In the other states thing.msg_to is NULL and no reply timer is live. No NULL
-- timer was ever set again or removed.
abbrev pub TimersAt : {l : LSettings} → State → World l → Type 0
TimersAt s w = TimerAt Armed Disarmed s w

-- The same, but the timer may have ended.
abbrev EndedAt : {l : LSettings} → State → World l → Type 0
EndedAt s w = TimerAt Pending Disarmed s w

module _ {l : LSettings} (c : Callback) (w w' : World l) (p : Prepares c w w') where
  prepared-Pending : Pending w → Pending w'
  prepared-Pending h =
      rw (p.msg_to, p.event)
        (same-IsHeld w.thing.msg_to w.log w'.log p.replies h.0, (p.no_null h.1.0, h.1.1))

  prepared-Armed : IsOther c → Armed w → Armed w'
  prepared-Armed i h = (prepared-Pending h.0, rw p.msg_to (p.still i w.thing.msg_to h.1))

  prepared-Disarmed : Disarmed w → Disarmed w'
  prepared-Disarmed h =
      rw (p.msg_to, p.event) ((h.0.0, p.replies ∙ h.0.1), (p.no_null h.1.0, h.1.1))

  prepared-TimersAt : (s : State) → IsOther c → TimersAt s w → TimersAt s w'
  prepared-TimersAt auth i h = prepared-Armed i h
  prepared-TimersAt register i h = prepared-Armed i h
  prepared-TimersAt config i h = prepared-Armed i h
  prepared-TimersAt _ i h = prepared-Disarmed h

-- one of the callbacks grants the authentication
abbrev pub Grants : List Callback → Type 0
Grants [] = ⊥
Grants (c ∷ cs) = GrantsAuth c ⊎ Grants cs

module _ {l : LSettings} (o : Outside l) where
  create_quiet :
      (n : ℕ) (w : World l) → published (device_msg_timeout_create o n w).log ≡ published w.log
  unfolding device_msg_timeout_create
  create_quiet n w = elim (Option-cases w.thing.msg_to) [
    | inl e ↦ rw (e, device_msg_timeout_create)
    | inr (to, e) ↦ rw (e, device_msg_timeout_create)
  ]

ended-Pending :
    {l : LSettings} (w : World l)
    → Pending w
    → Pending (record w { log = timeout_ended w.thing.msg_to ∷ w.log })
ended-Pending w h =
    (same-IsHeld w.thing.msg_to w.log (timeout_ended w.thing.msg_to ∷ w.log) refl h.0, h.1)

module _ {l : LSettings} (o : Outside l) (fl : Float) where
  Feeds-TimersAt :
      (alloc : (log : Log) → IsTimer (o.ans.timer log)) (c : Callback) (m m' : Program o)
      → IsOther c
      → Feeds o fl c m m'
      → TimersAt m.current m.world
      → TimersAt m'.current m'.world
  Feeds-TimersAt alloc c m _ i (ignored w p q) h = prepared-TimersAt c m.world w p m.current i h
  Feeds-TimersAt alloc c m _ i (fed e u w p s q) h =
      sm_input_event-TimerAt (device-TimerRules o alloc) m.current e u w s.known
        (prepared-TimersAt c m.world w p m.current i h)

  ended-EndedAt :
      (s : State) (w : World l)
      → TimersAt s w
      → EndedAt s (record w { log = timeout_ended w.thing.msg_to ∷ w.log })
  ended-EndedAt auth w h = ended-Pending w h.0
  ended-EndedAt register w h = ended-Pending w h.0
  ended-EndedAt config w h = ended-Pending w h.0
  ended-EndedAt _ w h = h

  -- EVT_TIMEOUT sets the timer that has ended.
  timeout-TimersAt :
      (alloc : (log : Log) → IsTimer (o.ans.timer log)) (s : State) (w : World l)
      → EndedAt s w
      → let m = input o timeout null (record { current = s; world = w }) in
        TimersAt m.current m.world
  unfolding sm_input_event
  timeout-TimersAt alloc auth w h =
      modify-Armed o alloc default_msg_timeout (device_send_auth_request o w).1
        (Pending-apart w _ (auth-Apart o w) h)
  timeout-TimersAt alloc register w h =
      modify-Armed o alloc default_msg_timeout (device_send_register_request o w).1
        (Pending-apart w _ (register-Apart o w) h)
  timeout-TimersAt alloc config w h =
      modify-Armed o alloc default_msg_timeout (device_send_config o w).1
        (Pending-apart w _ (config-Apart o w) h)
  timeout-TimersAt alloc _ w h = h

  callback-TimersAt :
      (alloc : (log : Log) → IsTimer (o.ans.timer log)) (c : Callback) (m : Program o)
      → TimersAt m.current m.world
      → TimersAt (callback o fl c m).current (callback o fl c m).world
  unfolding callback on_msg_timeout
  callback-TimersAt alloc msg_timeout m h =
      timeout-TimersAt alloc m.current (ended o fl m).world (ended-EndedAt m.current m.world h)
  callback-TimersAt alloc c m h = Feeds-TimersAt alloc c m _ tt (callback-Feeds o fl c m) h

  -- If the timers of ell can always be created, then after every session, in any order of callbacks
  -- and with any answers from outside: in AUTH, REGISTER and CONFIG one reply timer is live, it is
  -- thing.msg_to, and it runs, as it has been set and has neither ended nor been removed since; in
  -- the other states none is live and thing.msg_to is NULL; and no timer that is NULL was ever set
  -- again or removed, if all this holds before it.
  pub session-TimersAt :
      (alloc : (log : Log) → IsTimer (o.ans.timer log)) (cs : List Callback) (m : Program o)
      → TimersAt m.current m.world
      → TimersAt (session o fl cs m).current (session o fl cs m).world
  unfolding session
  session-TimersAt alloc [] m h = h
  session-TimersAt alloc (c ∷ cs) m h =
      session-TimersAt alloc cs (callback o fl c m) (callback-TimersAt alloc c m h)

  Feeds-unregister :
      (c : Callback) (m m' : Program o)
      → Feeds o fl c m m'
      → m.current ≡ unregister
      → m'.current ≡ unregister
  Feeds-unregister c m _ (ignored w p q) h = h
  Feeds-unregister c m _ (fed e u w p s q) h =
      rw h (
        ap (λ (n : Program o). n.current) (unregister_step (device o) e u w s.known s.not_reg_perm))

  -- No callback of the device gives EVT_REG_PERM, so no session leaves UNREGISTER.
  pub session-unregister :
      (cs : List Callback) (m : Program o)
      → m.current ≡ unregister
      → (session o fl cs m).current ≡ unregister
  unfolding session
  session-unregister [] m h = h
  session-unregister (c ∷ cs) m h =
      session-unregister cs (callback o fl c m)
        (Feeds-unregister c m (callback o fl c m) (callback-Feeds o fl c m) h)

  device-QuietRules : QuietRules (device o) (λ w. published w.log)
  unfolding device_generate_thing_id device_start_read_cloud device_check_schema_change
      device_send_register_request device_send_auth_request device_send_config
      device_msg_timeout_modify device_msg_timeout_remove
  device-QuietRules = record {
    create = create_quiet o;
    modify = λ n w. refl;
    remove = λ w. refl;
    generate = λ w. refl;
    read = λ w. refl;
    store = λ p w. ap published (store_same o p w).1;
    clear = λ w. ap published (clear_same o w).1;
    schema = λ w. refl;
    send_register = λ w. refl;
    send_auth = λ w. refl;
    send_config = λ w. refl;
  }

  Feeds-quiet :
      (c : Callback) (m m' : Program o)
      → Feeds o fl c m m'
      → is_authenticated m.current ≡ false
      → ¬ GrantsAuth c
      → (is_authenticated m'.current ≡ false) × (published m'.world.log ≡ published m.world.log)
  Feeds-quiet c m _ (ignored w p q) h k = (h, p.said)
  Feeds-quiet c m _ (fed e u w p s q) h k =
      let n = λ (q : e ≡ auth_ok). k (s.granted q) in
      (
        elim (Bool-cases (is_authenticated (input o e u (record m { world = w })).current)) [
          | inl yet ↦ absurd (n (step_needs_auth_ok (device o) e u (record m { world = w }) h yet))
          | inr not_yet ↦ not_yet
        ],
        quiet_step device-QuietRules m.current e u w h n ∙ p.said,
      )

  -- A session that starts in a state other than CONFIG and ONLINE, and in which the cloud sends no
  -- AUTH_MSG without an error, publishes no data, whatever sensors, timers and connections do.
  pub session_quiet :
      (cs : List Callback) (m : Program o)
      → is_authenticated m.current ≡ false
      → ¬ Grants cs
      → published (session o fl cs m).world.log ≡ published m.world.log
  unfolding session
  session_quiet [] m h k = refl
  session_quiet (c ∷ cs) m h k =
      let (still, same) =
        Feeds-quiet c m (callback o fl c m) (callback-Feeds o fl c m) h (λ g. k (inl g)) in
      session_quiet cs (callback o fl c m) still (λ g. k (inr g)) ∙ same
