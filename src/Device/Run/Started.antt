-- ===== src/Device/Run/Started.antt =====
-- src/device.c with src/iface-modbus.c: the run of a program from device_start on.
use knot_virtualthing.Prelude.{
  [], ◌∷◌, is_prefix, ℤ, pos, false, ◌≡◌, refl, ◌∙◌, ap, codes, Option, none, some, List,
}
use knot_virtualthing.Protocol.{Value, Float}
use knot_virtualthing.Storage.{LSettings}
use knot_virtualthing.Thing.{DeviceSettings}
use knot_virtualthing.Modbus.Connect.{ModbusLibrary, Link, tcp_prefix, rtu_prefix}
use knot_virtualthing.Modbus.Connect.Held.{live_timers}
use knot_virtualthing.Device.World.{Outside}
use knot_virtualthing.Device.Start.{Process, device_start}
use knot_virtualthing.Device.Start.Failed.{IsFresh}
use knot_virtualthing.Device.Start.Unreached.{unknown_prefix_link}
use knot_virtualthing.Device.Run.{
  Running, RunStep, timer_ends, lost, elsewhere, is_there, attempt_step, lost_step, run_step,
  run_steps,
}

-- The main loop of a process begins: the timer that iface_modbus_start created runs, where there is
-- one.
abbrev pub running : {l : LSettings} {o : Outside l} → Process o → Running o
running p = record { machine = p.machine; link = p.link; armed = is_there p.link.connect_to }

module _ {W : Type 0} (lib : ModbusLibrary) (slave_id : ℤ)
    (connected_cb disconnected_cb : Option (W → W)) where
  record IsCalledBack (link : Link W) : Type 0 where
    up : link.conn_cb ≡ connected_cb
    down : link.disconn_cb ≡ disconnected_cb

-- No attempt is pending, and no l_io tells of a loss.
record IsStill {l : LSettings} {o : Outside l} (r : Running o) : Type 0 where
  not_armed : r.armed ≡ false
  unwatched : r.link.modbus_io ≡ none

module _ {l : LSettings} (o : Outside l) (lib : ModbusLibrary) (fl : Float) where
  attempt_step-IsStill : (r : Running o) → IsStill r → attempt_step o lib fl r ≡ r
  unfolding attempt_step
  attempt_step-IsStill r s = rw (s.not_armed, attempt_step) refl

  lost_step-IsStill : (r : Running o) → IsStill r → lost_step o lib fl r ≡ r
  unfolding lost_step
  lost_step-IsStill r s = rw (s.unwatched, lost_step) refl

  run_steps-IsStill :
      (ss : List RunStep) (r : Running o) → IsStill r → (run_steps o lib fl ss r).link ≡ r.link
  unfolding run_steps
  run_steps-IsStill [] r s = refl
  run_steps-IsStill (timer_ends ∷ ss) r s =
      ap (λ (q : Running o). (run_steps o lib fl ss q).link) (attempt_step-IsStill r s)
      ∙ run_steps-IsStill ss r s
  run_steps-IsStill (lost ∷ ss) r s =
      ap (λ (q : Running o). (run_steps o lib fl ss q).link) (lost_step-IsStill r s)
      ∙ run_steps-IsStill ss r s
  run_steps-IsStill (elsewhere c e ∷ ss) r s =
      run_steps-IsStill ss (run_step o lib fl (elsewhere c e) r)
        (record { not_armed = s.not_armed; unwatched = s.unwatched })

  -- If a start of a fresh process returns 0 and the slave's address that it has loaded begins with
  -- neither prefix, then there is no context and no live timer for the connection, and whatever
  -- steps follow, in any order and with any answers from outside, no attempt to connect is made: no
  -- call for the connection is made, and its static variables stay as they are.
  pub unknown_prefix_never_connects :
      (junk : Value) (conf_files : DeviceSettings) (p p' : Process o) (ss : List RunStep)
      → IsFresh p
      → device_start o lib junk conf_files p ≡ some (pos 0, p')
      → is_prefix tcp_prefix (codes p'.machine.world.thing.modbus_slave_url) ≡ false
      → is_prefix rtu_prefix (codes p'.machine.world.thing.modbus_slave_url) ≡ false
      → (p'.link.modbus_ctx ≡ none)
        × (live_timers p'.link.calls ≡ [])
        × ((run_steps o lib fl ss (running p')).link ≡ p'.link)
  unknown_prefix_never_connects junk conf_files p p' ss f h a b =
      let (e, ctx, timers) = unknown_prefix_link o lib junk conf_files p p' f h a b in
      (
        ctx,
        timers,
        run_steps-IsStill ss (running p') (record {
          not_armed =
              ap (λ (k : Link _). is_there k.connect_to) e ∙ ap is_there f.idle_link.no_timer;
          unwatched = ap (λ (k : Link _). k.modbus_io) e ∙ f.idle_link.no_io;
        }),
      )
