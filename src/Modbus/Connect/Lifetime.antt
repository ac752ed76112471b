-- ===== src/Modbus/Connect/Lifetime.antt =====
-- src/iface-modbus.c: everything between iface_modbus_start and iface_modbus_stop.
use knot_virtualthing.Prelude.{
  ℕ, ℤ, String, false, ◌≡◌, refl, ap, sym, ◌∙◌, Option, none, some, List, [], ◌∷◌, is_neg, codes,
  Option-cases, Bool-cases, inl, inr,
}
use knot_virtualthing.Modbus.Connect.{
  Calls, ModbusLibrary, Link, create_ctx, on_disconnected, attempt_connect, start_ctx, start_made,
  iface_modbus_start, iface_modbus_stop, free, close, io_destroy, timeout_remove, timeout_create_ms,
  set_slave,
}
use knot_virtualthing.Modbus.Connect.Held.{
  live_ios, live_timers, live_contexts, is_up, SocketAnswers, to_list, Accounts, dropped,
}
use knot_virtualthing.Modbus.Connect.Made.{create_ctx-IsMade}
use knot_virtualthing.Modbus.Connect.Attempt.{attempt_connect-outcome}

-- Nothing is live, and no static variable holds anything.
pub record IsIdle {W : Type 0} (link : Link W) : Type 0 where
  pub no_ios : live_ios link.calls ≡ []
  pub no_timers : live_timers link.calls ≡ []
  pub no_contexts : live_contexts link.calls ≡ []
  pub no_io : link.modbus_io ≡ none
  pub no_timer : link.connect_to ≡ none

-- What happens between the start and the stop: the timer calls attempt_connect, or the watched
-- connection is lost.
pub data LinkStep : Type 0 where
  attempt lost : LinkStep

-- the calls of iface_modbus_stop
abbrev stop_calls : Option ℕ → Option ℕ → Option ℕ → Calls → Calls
stop_calls to io ctx log = free ctx ∷ close ctx ∷ io_destroy io ∷ timeout_remove to ∷ log

stopped-ios :
    (to io ctx : Option ℕ) (log : Calls)
    → live_ios log ≡ to_list io
    → live_ios (stop_calls to io ctx log) ≡ []
stopped-ios to none ctx log h = h
stopped-ios to (some io) ctx log h = dropped io (live_ios log) h

stopped-timers :
    (to io ctx : Option ℕ) (log : Calls)
    → live_timers log ≡ to_list to
    → live_timers (stop_calls to io ctx log) ≡ []
stopped-timers none io ctx log h = h
stopped-timers (some to) io ctx log h = dropped to (live_timers log) h

stopped-contexts :
    (to io ctx : Option ℕ) (log : Calls)
    → live_contexts log ≡ to_list ctx
    → live_contexts (stop_calls to io ctx log) ≡ []
stopped-contexts to io none log h = h
stopped-contexts to io (some ctx) log h = dropped ctx (live_contexts log) h

module _ {W : Type 0} (lib : ModbusLibrary) where
  timer-Accounts :
      (to : Option ℕ) (link : Link W)
      → Accounts link
      → link.connect_to ≡ none
      → Accounts (record link { connect_to = to; calls = timeout_create_ms 1 to ∷ link.calls })
  timer-Accounts none link a h = record {
    ios = a.ios;
    timers = a.timers ∙ ap to_list h;
    contexts = a.contexts;
  }
  timer-Accounts (some to) link a h = record {
    ios = a.ios;
    timers = ap (λ (ts : List ℕ). to ∷ ts) (a.timers ∙ ap to_list h);
    contexts = a.contexts;
  }

  start_ctx-Accounts :
      (ctx : ℕ) (slave_id : ℤ) (connected_cb disconnected_cb : Option (W → W)) (link : Link W)
      → Accounts link
      → link.connect_to ≡ none
      → Accounts (start_ctx lib ctx slave_id connected_cb disconnected_cb link).1
  unfolding start_ctx
  start_ctx-Accounts ctx slave_id connected_cb disconnected_cb link a h =
      let link1 : Link W = record link { calls = set_slave ctx slave_id ∷ link.calls } in
      let a1 : Accounts link1 = record { ios = a.ios; timers = a.timers; contexts = a.contexts } in
      let b = timer-Accounts (lib.timer link1.calls) link1 a1 h in
      elim (Bool-cases (is_neg (lib.set_slave link.calls))) [
        | inl e ↦ rw (e, start_ctx) a1
        | inr e ↦
            rw (e, start_ctx) (record { ios = b.ios; timers = b.timers; contexts = b.contexts })
      ]

  start_made-Accounts :
      (errno : ℤ) (ctx : Option ℕ) (slave_id : ℤ) (connected_cb disconnected_cb : Option (W → W))
      (link : Link W)
      → Accounts link
      → link.connect_to ≡ none
      → Accounts (start_made lib errno ctx slave_id connected_cb disconnected_cb link).1
  unfolding start_made
  start_made-Accounts errno none slave_id connected_cb disconnected_cb link a h = a
  start_made-Accounts errno (some ctx) slave_id connected_cb disconnected_cb link a h =
      start_ctx-Accounts ctx slave_id connected_cb disconnected_cb link a h

  pub iface_modbus_start-Accounts :
      (url : String) (slave_id : ℤ) (connected_cb disconnected_cb : Option (W → W)) (link : Link W)
      → IsIdle link
      → Accounts (iface_modbus_start lib url slave_id connected_cb disconnected_cb link).1
  unfolding iface_modbus_start
  iface_modbus_start-Accounts url slave_id connected_cb disconnected_cb link i =
      let m = create_ctx-IsMade lib (codes url) link.calls i.no_contexts in
      let (ctx, log) = (create_ctx lib (codes url) link.calls).1 in
      let link1 : Link W = record link { modbus_ctx = ctx; calls = log } in
      let a : Accounts link1 = record {
        ios = m.same_ios ∙ i.no_ios ∙ ap to_list (sym i.no_io);
        timers = m.same_timers ∙ i.no_timers ∙ ap to_list (sym i.no_timer);
        contexts = m.made;
      } in
      start_made-Accounts (create_ctx lib (codes url) link.calls).0 ctx slave_id connected_cb
        disconnected_cb link1 a i.no_timer

  pub on_disconnected-Accounts :
      (link : Link W) (w : W) → Accounts link → Accounts (on_disconnected lib (link, w)).0
  unfolding on_disconnected
  on_disconnected-Accounts link w a = elim (Option-cases link.connect_to) [
    | inl e ↦ rw (e, on_disconnected) a
    | inr (to, e) ↦
        rw (e, on_disconnected) (record { ios = a.ios; timers = a.timers; contexts = a.contexts })
  ]

  abbrev pub link_step : LinkStep → Link W × W → Link W × W
  link_step attempt (link, w) = attempt_connect lib link.connect_to (link, w)
  link_step lost lw = on_disconnected lib lw

  unfoldable pub link_steps : List LinkStep → Link W × W → Link W × W
  link_steps [] lw = lw
  link_steps (s ∷ ss) lw = link_steps ss (link_step s lw)

  link_steps-Accounts :
      (ss : List LinkStep) (lw : Link W × W)
      → SocketAnswers lib
      → Accounts lw.0
      → Accounts (link_steps ss lw).0
  unfolding link_steps
  link_steps-Accounts [] lw s a = a
  link_steps-Accounts (attempt ∷ ss) (link, w) s a =
      link_steps-Accounts ss (attempt_connect lib link.connect_to (link, w)) s
        (attempt_connect-outcome lib link.connect_to link w s a).0
  link_steps-Accounts (lost ∷ ss) (link, w) s a =
      link_steps-Accounts ss (on_disconnected lib (link, w)) s (on_disconnected-Accounts link w a)

  pub iface_modbus_stop-IsIdle :
      (link : Link W) → Accounts link → IsIdle (iface_modbus_stop lib link)
  unfolding iface_modbus_stop
  iface_modbus_stop-IsIdle link a = record {
    no_ios = stopped-ios link.connect_to link.modbus_io link.modbus_ctx link.calls a.ios;
    no_timers = stopped-timers link.connect_to link.modbus_io link.modbus_ctx link.calls a.timers;
    no_contexts =
        stopped-contexts link.connect_to link.modbus_io link.modbus_ctx link.calls a.contexts;
    no_io = refl;
    no_timer = refl;
  }

  -- Whatever iface_modbus_start returns, and whatever attempts and lost connections follow in any
  -- order, after iface_modbus_stop no l_io, no timer and no context is live, no connection is open,
  -- and the static variables hold neither an l_io nor a timer, if that was so before the start.
  pub stopped-IsIdle :
      (url : String) (slave_id : ℤ) (connected_cb disconnected_cb : Option (W → W))
      (ss : List LinkStep) (link : Link W) (w : W)
      → SocketAnswers lib
      → IsIdle link
      → let (rc, started) = iface_modbus_start lib url slave_id connected_cb disconnected_cb link in
        let stopped = iface_modbus_stop lib (link_steps ss (started, w)).0 in
        IsIdle stopped × (is_up stopped.calls ≡ false)
  unfolding iface_modbus_stop
  stopped-IsIdle url slave_id connected_cb disconnected_cb ss link w s i =
      let a = iface_modbus_start-Accounts url slave_id connected_cb disconnected_cb link i in
      let started = (iface_modbus_start lib url slave_id connected_cb disconnected_cb link).1 in
      (
        iface_modbus_stop-IsIdle (link_steps ss (started, w)).0
            (link_steps-Accounts ss (started, w) s a),
        refl,
      )
