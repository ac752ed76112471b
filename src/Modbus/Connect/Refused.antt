-- ===== src/Modbus/Connect/Refused.antt =====
-- src/iface-modbus.c, iface_modbus_start: a start that fails.
use knot_virtualthing.Prelude.{
  ℕ, ℤ, String, true, ◌≡◌, refl, ap, ◌∙◌, Option, none, some, [], is_neg, arith, Bool-cases, inl,
  inr, codes,
}
use knot_virtualthing.Modbus.Connect.{
  ModbusLibrary, Link, create_ctx, start_ctx, start_made, iface_modbus_start,
}
use knot_virtualthing.Modbus.Connect.Held.{live_ios, live_timers, to_list}
use knot_virtualthing.Modbus.Connect.Lifetime.{IsIdle, iface_modbus_start-Accounts}

module _ {W : Type 0} (lib : ModbusLibrary) where
  start_made-failed :
      (errno : ℤ) (ctx : Option ℕ) (slave_id : ℤ) (connected_cb disconnected_cb : Option (W → W))
      (link : Link W)
      → is_neg (start_made lib errno ctx slave_id connected_cb disconnected_cb link).0 ≡ true
      → let link' = (start_made lib errno ctx slave_id connected_cb disconnected_cb link).1 in
        (link'.connect_to ≡ link.connect_to) × (link'.modbus_io ≡ link.modbus_io)
  unfolding start_made start_ctx
  start_made-failed errno none slave_id connected_cb disconnected_cb link h = (refl, refl)
  start_made-failed errno (some ctx) slave_id connected_cb disconnected_cb link h =
      elim (Bool-cases (is_neg (lib.set_slave link.calls))) [
        | inl e ↦ rw (e, start_made) (refl, refl)
        | inr e ↦ absurd (ground arith)
      ]

  pub iface_modbus_start-failed :
      (url : String) (slave_id : ℤ) (connected_cb disconnected_cb : Option (W → W)) (link : Link W)
      → IsIdle link
      → is_neg (iface_modbus_start lib url slave_id connected_cb disconnected_cb link).0 ≡ true
      → let link' = (iface_modbus_start lib url slave_id connected_cb disconnected_cb link).1 in
        (live_timers link'.calls ≡ []) × (live_ios link'.calls ≡ [])
  unfolding iface_modbus_start
  iface_modbus_start-failed url slave_id connected_cb disconnected_cb link i h =
      let a = iface_modbus_start-Accounts lib url slave_id connected_cb disconnected_cb link i in
      let (errno, (ctx, log)) = create_ctx lib (codes url) link.calls in
      let link1 : Link W = record link { modbus_ctx = ctx; calls = log } in
      let (t, io) = start_made-failed errno ctx slave_id connected_cb disconnected_cb link1 h in
      (a.timers ∙ ap to_list (t ∙ i.no_timer), a.ios ∙ ap to_list (io ∙ i.no_io))
