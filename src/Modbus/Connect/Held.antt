-- ===== src/Modbus/Connect/Held.antt =====
-- src/iface-modbus.c: what the interface has created and not given back.
use knot_virtualthing.Prelude.{
  ℕ, ◌+◌, negsuc, Bool, true, false, not, ◌≡◌, refl, ap, ◌∙◌, Option, none, some, List, [], ◌∷◌,
  is_neg, eqb_ℤ, if◌then◌else◌, arith, Option-cases, Bool-cases, inl, inr,
}
use knot_virtualthing.Poll.Timers.{drop_first, drop-head}
use knot_virtualthing.Modbus.Connect.{
  Calls, ModbusLibrary, Link, new_tcp_pi, new_rtu, connect, close, free, io_new, io_destroy,
  timeout_create_ms, timeout_modify, timeout_remove, close_socket, destroy_io,
}

abbrev pub live_ios : Calls → List ℕ
live_ios [] = []
live_ios (io_new s (some io) ∷ log) = io ∷ live_ios log
live_ios (io_destroy (some io) ∷ log) = drop_first io (live_ios log)
live_ios (c ∷ log) = live_ios log

abbrev pub live_timers : Calls → List ℕ
live_timers [] = []
live_timers (timeout_create_ms t (some to) ∷ log) = to ∷ live_timers log
live_timers (timeout_remove (some to) ∷ log) = drop_first to (live_timers log)
live_timers (c ∷ log) = live_timers log

abbrev pub live_contexts : Calls → List ℕ
live_contexts [] = []
live_contexts (new_tcp_pi hostname port (some ctx) ∷ log) = ctx ∷ live_contexts log
live_contexts (new_rtu line (some ctx) ∷ log) = ctx ∷ live_contexts log
live_contexts (free (some ctx) ∷ log) = drop_first ctx (live_contexts log)
live_contexts (c ∷ log) = live_contexts log

-- whether the last connection that was made is still open
abbrev pub is_up : Calls → Bool
is_up [] = false
is_up (connect ctx rc ∷ log) = if is_neg rc then is_up log else true
is_up (close ctx ∷ log) = false
is_up (c ∷ log) = is_up log

-- how often the timer of the connection has been set, by its creation or again
abbrev pub times_set : Calls → ℕ
times_set [] = 0
times_set (timeout_create_ms t to ∷ log) = times_set log + 1
times_set (timeout_modify to seconds ∷ log) = times_set log + 1
times_set (c ∷ log) = times_set log

-- modbus_get_socket answers -1 exactly where no connection is open.
abbrev pub SocketAnswers : ModbusLibrary → Type 0
SocketAnswers lib = (log : Calls) → eqb_ℤ (lib.socket log) (negsuc 0) ≡ not (is_up log)

abbrev pub to_list : Option ℕ → List ℕ
to_list none = []
to_list (some n) = n ∷ []

-- The static variables hold what is live.
pub record Accounts {W : Type 0} (link : Link W) : Type 0 where
  pub ios : live_ios link.calls ≡ to_list link.modbus_io
  pub timers : live_timers link.calls ≡ to_list link.connect_to
  pub contexts : live_contexts link.calls ≡ to_list link.modbus_ctx

pub dropped : (t : ℕ) (ts : List ℕ) → ts ≡ to_list (some t) → drop_first t ts ≡ []
dropped t ts h = ap (drop_first t) h ∙ drop-head t []

module _ {W : Type 0} (lib : ModbusLibrary) where
  pub close_socket-times_set :
      (link : Link W) → times_set (close_socket lib link).calls ≡ times_set link.calls
  unfolding close_socket
  close_socket-times_set link = ground arith

  pub destroy_io-times_set :
      (link : Link W) → times_set (destroy_io lib link).calls ≡ times_set link.calls
  unfolding destroy_io
  destroy_io-times_set link = elim (Option-cases link.modbus_io) [
    | inl e ↦ rw (e, destroy_io) refl
    | inr (io, e) ↦ rw (e, destroy_io) refl
  ]

  pub close_socket-Accounts :
      (link : Link W)
      → SocketAnswers lib
      → Accounts link
      → Accounts (close_socket lib link)
        × (is_up (close_socket lib link).calls ≡ false)
        × ((close_socket lib link).conn_cb ≡ link.conn_cb)
  unfolding close_socket
  close_socket-Accounts link s a =
      let answer = s link.calls in
      elim (Bool-cases (eqb_ℤ (lib.socket link.calls) (negsuc 0))) [
        | inl e ↦ rw (e, close_socket) (a, ground arith, refl)
        | inr e ↦
            rw (e, close_socket)
              (record { ios = a.ios; timers = a.timers; contexts = a.contexts }, refl, refl)
      ]

  pub destroy_io-Accounts :
      (link : Link W)
      → Accounts link
      → Accounts (destroy_io lib link)
        × (is_up (destroy_io lib link).calls ≡ is_up link.calls)
        × ((destroy_io lib link).conn_cb ≡ link.conn_cb)
        × ((destroy_io lib link).modbus_io ≡ none)
  unfolding destroy_io
  destroy_io-Accounts link a = elim (Option-cases link.modbus_io) [
    | inl e ↦ rw (e, destroy_io) (a, refl, refl, e)
    | inr (io, e) ↦
        rw (e, destroy_io)
          (
            record {
              ios = dropped io (live_ios link.calls) (a.ios ∙ ap to_list e);
              timers = a.timers;
              contexts = a.contexts;
            },
            refl,
            refl,
            refl,
          )
  ]
