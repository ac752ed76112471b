-- ===== src/Device/Feeds.antt =====
-- What a callback of src/device.c does before it gives an event to the state machine, and which events
-- it may give.
use knot_virtualthing.Prelude.{
  ℕ, arith, ℤ, pos, Bool, true, false, not, ◌≡◌, ◌≢◌, refl, Option, none, some, List, [], ◌∷◌,
  Bool-cases, inl, inr, ltb_ℤ, ◌==◌,
}
use knot_virtualthing.Protocol.{Float}
use knot_virtualthing.Storage.{LSettings}
use knot_virtualthing.Thing.{DataItem, lookup_item, update_item}
use knot_virtualthing.Thing.Calls.{Log, timeout_modify, cloud_publish}
use knot_virtualthing.Event.Compare.{event_check_value}
use knot_virtualthing.Poll.{PollEntry, start_timers, poll_start}
use knot_virtualthing.Modbus.Read.{Slave, iface_modbus_read_data}
use knot_virtualthing.Sm.{
  Event, ready, not_ready, auth_ok, reg_perm, pub_data, data_updt, reg_ok, reg_not_ok, unreg_req,
  auth_not_ok, cfg_upt_ok, cfg_upt_not_ok, timeout,
}
use knot_virtualthing.Sm.Timer.{IsKnown}
use knot_virtualthing.Device.World.{World, Outside, UserData, null, token, sensor_ids}
use knot_virtualthing.Device.Handlers.{
  Conn, modbus, cloud, MsgType, update_msg, request_msg, register_msg, unregister_msg, auth_msg,
  config_msg, CloudMsg, Program, set_conn_bitmask, conn_code, connected_mask, conn_handler, receive,
  check_item, receive_item, store_value, input, on_cloud_connected, on_cloud_disconnected,
  on_modbus_connected, on_modbus_disconnected, on_msg_timeout, on_event_timeout, on_cloud_receive,
  on_modbus_poll_receive,
}
use knot_virtualthing.Device.Session.{
  Callback, callback, cloud_connected, cloud_disconnected, modbus_connected, modbus_disconnected,
  msg_timeout, event_timeout, cloud_receive, poll_receive, ended,
}
use knot_virtualthing.Device.Sound.{NoNull}
use knot_virtualthing.Device.Reply.{reply_timers, Runs, start_timers-reply, start_timers-Runs}

-- the publications of a log
abbrev pub published : Log → Log
published [] = []
published (cloud_publish id sensor t v ∷ log) = cloud_publish id sensor t v ∷ published log
published (c ∷ log) = published log

-- any callback but the end of the reply timer
abbrev pub IsOther : Callback → Type 0
IsOther msg_timeout = ⊥
IsOther c = Unit

-- What the callback `c` does before it gives an event.
pub record Prepares (c : Callback) {l : LSettings} (w w' : World l) : Type 0 where
  pub msg_to : w'.thing.msg_to ≡ w.thing.msg_to
  pub event : w'.event ≡ w.event
  pub no_null : NoNull w.log → NoNull w'.log
  pub said : published w'.log ≡ published w.log
  pub replies : reply_timers w'.log ≡ reply_timers w.log
  pub still : IsOther c → (to : Option ℕ) → Runs to w.log → Runs to w'.log

-- a message of the cloud that grants the authentication
abbrev pub GrantsAuth : Callback → Type 0
GrantsAuth (cloud_receive msg) = (msg.msg_type ≡ auth_msg) × (msg.error ≡ false)
GrantsAuth _ = ⊥

-- the events that the callback `c` may give to the machine
pub record IsSent (c : Callback) (e : Event) : Type 0 where
  pub known : IsKnown e
  pub not_reg_perm : e ≢ reg_perm
  pub granted : e ≡ auth_ok → GrantsAuth c

-- The mask of the connections when the event `e` is given: it has not changed and `e` is not
-- EVT_READY, or `e` is EVT_NOT_READY, or both connections are up.
pub data MaskStep {l : LSettings} (e : Event) (w w' : World l) : Type 0 where
  same_mask : w'.conn_mask ≡ w.conn_mask → e ≢ ready → MaskStep e w w'
  down : e ≡ not_ready → MaskStep e w w'
  both_up : w'.conn_mask ≡ connected_mask → MaskStep e w w'

-- an event that is neither of the two
sent : {c : Callback} {e : Event} → IsKnown e → e ≢ reg_perm → e ≢ auth_ok → IsSent c e
sent k n a = record { known = k; not_reg_perm = n; granted = λ q. absurd (a q) }

Prepares-refl : (c : Callback) {l : LSettings} (w : World l) → Prepares c w w
Prepares-refl c w = record {
  msg_to = refl;
  event = refl;
  no_null = λ h. h;
  said = refl;
  replies = refl;
  still = λ i to h. h;
}

start_timers-NoNull : (es : List PollEntry) (log : Log) → NoNull log → NoNull (start_timers es log)
unfolding start_timers
start_timers-NoNull [] log h = h
start_timers-NoNull (e ∷ es) log h =
    start_timers-NoNull es (timeout_modify (some e.to) e.interval ∷ log) h

published-start_timers :
    (es : List PollEntry) (log : Log) → published (start_timers es log) ≡ published log
unfolding start_timers
published-start_timers [] log = refl
published-start_timers (e ∷ es) log =
    published-start_timers es (timeout_modify (some e.to) e.interval ∷ log)

module _ {l : LSettings} (o : Outside l) (fl : Float) where
  pub data Feeds (c : Callback) (m : Program o) : Program o → Type 0 where
    ignored :
        (w : World l)
        → Prepares c m.world w
        → w.conn_mask ≡ m.world.conn_mask
        → Feeds c m (record m { world = w })
    fed :
        (e : Event) (p : UserData) (w : World l)
        → Prepares c m.world w
        → IsSent c e
        → MaskStep e m.world w
        → Feeds c m (input o e p (record m { world = w }))

  conn-Feeds :
      (c : Callback) (conn : Conn) (up : Bool) (m : Program o) (w : World l)
      → Prepares c m.world w
      → Feeds c m (conn_handler o conn up (record m { world = w }))
  unfolding conn_handler
  conn-Feeds c conn up m w h =
      elim (Bool-cases (not (set_conn_bitmask up w.conn_mask (conn_code conn) == connected_mask))) [
        | inl e ↦ rw e (fed not_ready null _ prepared (sent tt (λ q. cc) (λ q. cc)) (down refl))
        | inr e ↦
            rw e (
              fed ready null _ prepared (sent tt (λ q. cc) (λ q. cc)) (both_up (ground (arith, e))))
      ]
    where
      prepared :
          Prepares c m.world
            (record w { conn_mask = set_conn_bitmask up w.conn_mask (conn_code conn) })
      prepared = record {
        msg_to = h.msg_to;
        event = h.event;
        no_null = h.no_null;
        said = h.said;
        replies = h.replies;
        still = h.still;
      }

  plain :
      (c : Callback) (e : Event) (p : UserData) (m : Program o)
      → IsSent c e
      → e ≢ ready
      → Feeds c m (input o e p m)
  plain c e p m s n = fed e p m.world (Prepares-refl _ m.world) s (same_mask refl n)

  receive-Feeds :
      (t : MsgType) (err : Bool) (msg : CloudMsg) (m : Program o)
      → msg.msg_type ≡ t
      → msg.error ≡ err
      → Feeds (cloud_receive msg) m (receive o t err msg m)
  unfolding receive
  receive-Feeds update_msg false msg m a b =
      plain _ data_updt msg.list m (sent tt (λ q. cc) (λ q. cc)) (λ q. cc)
  receive-Feeds request_msg false msg m a b =
      plain _ pub_data msg.list m (sent tt (λ q. cc) (λ q. cc)) (λ q. cc)
  receive-Feeds register_msg true msg m a b =
      plain _ reg_not_ok null m (sent tt (λ q. cc) (λ q. cc)) (λ q. cc)
  receive-Feeds register_msg false msg m a b =
      plain _ reg_ok (token msg.msg_token) m (sent tt (λ q. cc) (λ q. cc)) (λ q. cc)
  receive-Feeds unregister_msg false msg m a b =
      plain _ unreg_req null m (sent tt (λ q. cc) (λ q. cc)) (λ q. cc)
  receive-Feeds auth_msg true msg m a b =
      plain _ auth_not_ok null m (sent tt (λ q. cc) (λ q. cc)) (λ q. cc)
  receive-Feeds auth_msg false msg m a b =
      plain _ auth_ok null m (record { known = tt; not_reg_perm = λ q. cc; granted = λ q. (a, b) })
        (λ q. cc)
  receive-Feeds config_msg true msg m a b =
      plain _ cfg_upt_not_ok null m (sent tt (λ q. cc) (λ q. cc)) (λ q. cc)
  receive-Feeds config_msg false msg m a b =
      plain _ cfg_upt_ok msg.list m (sent tt (λ q. cc) (λ q. cc)) (λ q. cc)
  receive-Feeds _ _ msg m a b = ignored m.world (Prepares-refl _ m.world) refl

  check-Feeds :
      (c : Callback) (id : ℤ) (i : DataItem) (items : List DataItem) (m : Program o)
      → Feeds c m (check_item o fl id i items m)
  unfolding check_item
  check-Feeds c id i items m =
      elim (Bool-cases (
        ltb_ℤ (pos 0) (
          event_check_value fl m.world.event.active i.event i.current_val i.sent_val
            (o.knot.value_type i.schema.value_type)))) [
              | inl e ↦ rw e (
                  fed pub_data _ _
                    (record {
                      msg_to = refl;
                      event = refl;
                      no_null = λ h. h;
                      said = refl;
                      replies = refl;
                      still = λ i to h. h;
                    })
                    (sent tt (λ q. cc) (λ q. cc)) (same_mask refl (λ q. cc)))
              | inr e ↦ rw e (
                  ignored _
                    (record {
                      msg_to = refl;
                      event = refl;
                      no_null = λ h. h;
                      said = refl;
                      replies = refl;
                      still = λ i to h. h;
                    })
                    refl)
            ]

  item-Feeds :
      (c : Callback) (slave : Slave) (id : ℤ) (i : Option DataItem) (m : Program o)
      → Feeds c m (receive_item o fl slave id i m).1
  unfolding receive_item
  item-Feeds c slave id none m = ignored m.world (Prepares-refl _ m.world) refl
  item-Feeds c slave id (some i) m =
      let s = i.modbus_source in
      let v = (iface_modbus_read_data slave s.reg_addr s.bit_offset s.endianness_type_sensor).1 in
      check-Feeds c id (store_value v i) (update_item id (store_value v) m.world.thing.data_items) m

  -- Every callback of the session is one of these steps.
  pub callback-Feeds : (c : Callback) (m : Program o) → Feeds c m (callback o fl c m)
  unfolding callback on_cloud_connected on_cloud_disconnected on_modbus_connected
      on_modbus_disconnected on_msg_timeout on_event_timeout on_cloud_receive on_modbus_poll_receive
      poll_start
  callback-Feeds cloud_connected m = conn-Feeds _ cloud true m m.world (Prepares-refl _ m.world)
  callback-Feeds cloud_disconnected m = conn-Feeds _ cloud false m m.world (Prepares-refl _ m.world)
  callback-Feeds modbus_connected m = conn-Feeds _ modbus true m _ (record {
    msg_to = refl;
    event = refl;
    no_null = start_timers-NoNull m.world.poll.poll_entries m.world.log;
    said = published-start_timers m.world.poll.poll_entries m.world.log;
    replies = start_timers-reply m.world.poll.poll_entries m.world.log;
    still = λ i to h. start_timers-Runs to m.world.poll.poll_entries m.world.log h;
  })
  callback-Feeds modbus_disconnected m = conn-Feeds _ modbus false m _ (record {
    msg_to = refl;
    event = refl;
    no_null = λ h. h;
    said = refl;
    replies = refl;
    still = λ i to h. h;
  })
  callback-Feeds msg_timeout m =
      fed timeout null (ended o fl m).world
        (record {
          msg_to = refl;
          event = refl;
          no_null = λ h. h;
          said = refl;
          replies = refl;
          still = λ i to h. absurd i;
        })
        (sent tt (λ q. cc) (λ q. cc)) (same_mask refl (λ q. cc))
  callback-Feeds (event_timeout id) m =
      plain _ pub_data (sensor_ids (id ∷ [])) m (sent tt (λ q. cc) (λ q. cc)) (λ q. cc)
  callback-Feeds (cloud_receive msg) m = receive-Feeds msg.msg_type msg.error msg m refl refl
  callback-Feeds (poll_receive slave id) m =
      item-Feeds _ slave id (lookup_item id m.world.thing.data_items) m
