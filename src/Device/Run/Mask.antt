-- ===== src/Device/Run/Mask.antt =====
-- src/device.c with src/iface-modbus.c: the mask of the connections against the connection.
use knot_virtualthing.Prelude.{
  ℕ, ◌+◌, Bool, true, false, ◌||◌, ◌≡◌, ◌⊎◌, refl, ◌∙◌, ap, Option, some, List, [], ◌∷◌, inl, inr,
  Bool-cases, if◌then◌else◌, arith,
}
use knot_virtualthing.Protocol.{Float}
use knot_virtualthing.Storage.{LSettings}
use knot_virtualthing.Modbus.Connect.{
  Calls, ModbusLibrary, Link, attempt_connect, on_disconnected, run_callback,
}
use knot_virtualthing.Modbus.Connect.Held.{Accounts, SocketAnswers, is_up, times_set}
use knot_virtualthing.Modbus.Connect.Attempt.{attempt_connect-outcome}
use knot_virtualthing.Modbus.Connect.Lifetime.{on_disconnected-Accounts}
use knot_virtualthing.Modbus.Connect.Frame.{attempt_connect-SameSetup, on_disconnected-SameSetup}
use knot_virtualthing.Poll.{poll_start}
use knot_virtualthing.Device.World.{Outside}
use knot_virtualthing.Device.Handlers.{Program, modbus, on_modbus_connected, on_modbus_disconnected}
use knot_virtualthing.Device.Links.{Links, mask, set_link}
use knot_virtualthing.Device.Masked.{
  links_after, links_after-modbus, conn_handler-mask, callback-mask,
}
use knot_virtualthing.Device.Run.{
  Running, RunStep, timer_ends, lost, elsewhere, is_set, is_there, attempt_step, lost_step,
  run_step, run_steps,
}

-- A connection is open, an l_io watches it, and no attempt is pending.
pub record IsAttached {l : LSettings} {o : Outside l} (r : Running o) : Type 0 where
  pub watched : (io : ℕ) × (r.link.modbus_io ≡ some io)
  pub open_connection : is_up r.link.calls ≡ true
  pub not_armed : r.armed ≡ false

-- The mask stands for two connections; the one to the slave is down in it and an attempt is pending, or
-- the slave is attached; the connection has a timer and calls the device back.
pub record IsTrue {l : LSettings} {o : Outside l} (r : Running o) : Type 0 where
  pub links : Links
  pub masked : r.machine.world.conn_mask ≡ mask links
  pub attached : ((links.modbus_up ≡ false) × (r.armed ≡ true)) ⊎ IsAttached r
  pub timer : (to : ℕ) × (r.link.connect_to ≡ some to)
  pub accounts : Accounts r.link
  pub calls_up : r.link.conn_cb ≡ some (on_modbus_connected o)
  pub calls_down : r.link.disconn_cb ≡ some (on_modbus_disconnected o)

or-true : (a b : Bool) → b ≡ true → (a || b) ≡ true
or-true a b h = ground arith

is_set-no : (log log' : Calls) → times_set log' ≡ times_set log → is_set log log' ≡ false
is_set-no log log' h = ground arith

is_set-once : (log log' : Calls) → times_set log' ≡ times_set log + 1 → is_set log log' ≡ true
is_set-once log log' h = ground arith

branch-IsTrue :
    {l : LSettings} {o : Outside l} (b : Bool) (x y : Running o)
    → b ≡ true
    → IsTrue x
    → IsTrue (if b then x else y)
branch-IsTrue b x y e t = rw e t

stay-IsTrue :
    {l : LSettings} {o : Outside l} (b : Bool) (x y : Running o)
    → b ≡ false
    → IsTrue y
    → IsTrue (if b then x else y)
stay-IsTrue b x y e t = rw e t

module _ {l : LSettings} (o : Outside l) where
  up_mask :
      (k : Links) (m : Program o)
      → m.world.conn_mask ≡ mask k
      → (on_modbus_connected o m).world.conn_mask ≡ mask (set_link modbus true k)
  unfolding on_modbus_connected poll_start
  up_mask k m h = conn_handler-mask o modbus true k _ h

  down_mask :
      (k : Links) (m : Program o)
      → m.world.conn_mask ≡ mask k
      → (on_modbus_disconnected o m).world.conn_mask ≡ mask (set_link modbus false k)
  unfolding on_modbus_disconnected
  down_mask k m h = conn_handler-mask o modbus false k _ h

module _ {l : LSettings} (o : Outside l) (lib : ModbusLibrary) (fl : Float) where
  attempted-IsTrue :
      (r : Running o)
      → SocketAnswers lib
      → r.armed ≡ true
      → IsTrue r
      → let (link', m) = attempt_connect lib r.link.connect_to (r.link, r.machine) in
        IsTrue {o = o}
          (record { machine = m; link = link'; armed = is_set r.link.calls link'.calls })
  attempted-IsTrue r s armed t =
      let (accounts, outcome) =
        attempt_connect-outcome lib r.link.connect_to r.link r.machine s t.accounts in
      let f = attempt_connect-SameSetup lib r.link.connect_to r.link r.machine in
      let down : t.links.modbus_up ≡ false = elim t.attached [
        | inl d ↦ d.0
        | inr a ↦ let n = a.not_armed in absurd (cc)
      ] in
      elim outcome [
        | inl c ↦
            let back =
              c.called_back
              ∙ ap (λ (cb : Option (Program o → Program o)). run_callback cb r.machine)
                  t.calls_up in
            record {
              links = set_link modbus true t.links;
              masked =
                  ap (λ (m : Program o). m.world.conn_mask) back
                  ∙ up_mask o t.links r.machine t.masked;
              attached = inr (record {
                watched = c.watched;
                open_connection = c.open_connection;
                not_armed =
                    is_set-no r.link.calls
                      (attempt_connect lib r.link.connect_to (r.link, r.machine)).0.calls
                      c.not_set_again;
              });
              timer = (t.timer.0, f.same_timer ∙ t.timer.1);
              accounts = accounts;
              calls_up = f.same_conn_cb ∙ t.calls_up;
              calls_down = f.same_disconn_cb ∙ t.calls_down;
            }
        | inr c ↦ record {
          links = t.links;
          masked = ap (λ (m : Program o). m.world.conn_mask) c.no_callback ∙ t.masked;
          attached = inl (
            down,
            is_set-once r.link.calls
                (attempt_connect lib r.link.connect_to (r.link, r.machine)).0.calls c.set_once,
          );
          timer = (t.timer.0, f.same_timer ∙ t.timer.1);
          accounts = accounts;
          calls_up = f.same_conn_cb ∙ t.calls_up;
          calls_down = f.same_disconn_cb ∙ t.calls_down;
        }
      ]

  attempt_step-IsTrue :
      (r : Running o) → SocketAnswers lib → IsTrue r → IsTrue (attempt_step o lib fl r)
  unfolding attempt_step
  attempt_step-IsTrue r s t = elim (Bool-cases r.armed) [
    | inl a ↦ branch-IsTrue r.armed _ r a (attempted-IsTrue r s a t)
    | inr a ↦ stay-IsTrue r.armed _ r a t
  ]

  sets_timer :
      (to : ℕ) (link : Link (Program o)) (m : Program o)
      → link.connect_to ≡ some to
      → times_set (on_disconnected lib (link, m)).0.calls ≡ times_set link.calls + 1
  unfolding on_disconnected
  sets_timer to link m h = rw (h, on_disconnected) refl

  called_down :
      (link : Link (Program o)) (m : Program o)
      → (on_disconnected lib (link, m)).1 ≡ run_callback link.disconn_cb m
  unfolding on_disconnected
  called_down link m = ground arith

  lost_step-IsTrue : (r : Running o) → IsTrue r → IsTrue (lost_step o lib fl r)
  unfolding lost_step
  lost_step-IsTrue r t =
      let f = on_disconnected-SameSetup lib r.link r.machine in
      let back =
        called_down r.link r.machine
        ∙ ap (λ (cb : Option (Program o → Program o)). run_callback cb r.machine) t.calls_down in
      let set_again = or-true r.armed _ (
        is_set-once r.link.calls (on_disconnected lib (r.link, r.machine)).0.calls
          (sets_timer t.timer.0 r.link r.machine t.timer.1)) in
      let gone : IsTrue {o = o} (record {
        machine = (on_disconnected lib (r.link, r.machine)).1;
        link = (on_disconnected lib (r.link, r.machine)).0;
        armed = r.armed || is_set r.link.calls (on_disconnected lib (r.link, r.machine)).0.calls;
      }) =
        record {
          links = set_link modbus false t.links;
          masked =
              ap (λ (m : Program o). m.world.conn_mask) back
              ∙ down_mask o t.links r.machine t.masked;
          attached = inl (refl, set_again);
          timer = (t.timer.0, f.same_timer ∙ t.timer.1);
          accounts = on_disconnected-Accounts lib r.link r.machine t.accounts;
          calls_up = f.same_conn_cb ∙ t.calls_up;
          calls_down = f.same_disconn_cb ∙ t.calls_down;
        } in
      elim (Bool-cases (is_there r.link.modbus_io)) [
        | inl e ↦ branch-IsTrue (is_there r.link.modbus_io) _ r e gone
        | inr e ↦ stay-IsTrue (is_there r.link.modbus_io) _ r e t
      ]

  run_step-IsTrue :
      (s : RunStep) (r : Running o) → SocketAnswers lib → IsTrue r → IsTrue (run_step o lib fl s r)
  run_step-IsTrue timer_ends r s t = attempt_step-IsTrue r s t
  run_step-IsTrue lost r s t = lost_step-IsTrue r t
  run_step-IsTrue (elsewhere c e) r s t = record {
    links = links_after c t.links;
    masked = callback-mask o fl c t.links r.machine e t.masked;
    attached = elim t.attached [
      | inl d ↦ inl (links_after-modbus c t.links ∙ d.0, d.1)
      | inr a ↦ inr (record {
        watched = a.watched;
        open_connection = a.open_connection;
        not_armed = a.not_armed;
      })
    ];
    timer = t.timer;
    accounts = t.accounts;
    calls_up = t.calls_up;
    calls_down = t.calls_down;
  }

  -- Whatever the timer of the connection, lost connections and all other callbacks do, in any order and
  -- with any answers from outside: if the mask stands for two connections; if it says that the slave
  -- is down and an attempt is pending, or a connection is open, an l_io watches it and no attempt is
  -- pending; and if the connection has a timer, the static variables hold exactly what is live and
  -- the callbacks are those of the device, then all this is so afterwards.
  pub run_steps-IsTrue :
      (ss : List RunStep) (r : Running o)
      → SocketAnswers lib
      → IsTrue r
      → IsTrue (run_steps o lib fl ss r)
  unfolding run_steps
  run_steps-IsTrue [] r s t = t
  run_steps-IsTrue (x ∷ ss) r s t =
      run_steps-IsTrue ss (run_step o lib fl x r) s (run_step-IsTrue x r s t)
