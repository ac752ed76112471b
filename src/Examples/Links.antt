-- ===== src/Examples/Links.antt =====
-- A slave that is reached over TCP, and the theorems on the connection to it.
use knot_virtualthing.Prelude.{
  ℕ, ◌+◌, pos, negsuc, true, false, ◌≡◌, ◌⊎◌, refl, none, some, [], ◌∷◌, if◌then◌else◌, Bool-cases,
  inl, inr,
}
use knot_virtualthing.Modbus.Connect.{
  ModbusLibrary, Link, iface_modbus_start, iface_modbus_stop, attempt_connect, create_ctx,
  create_tcp, start_ctx, start_made,
}
use knot_virtualthing.Modbus.Connect.Held.{is_up, SocketAnswers, Accounts}
use knot_virtualthing.Modbus.Connect.Attempt.{IsConnected, IsRetried, attempt_connect-outcome}
use knot_virtualthing.Modbus.Connect.Lifetime.{IsIdle, attempt, lost, link_steps, stopped-IsIdle}

-- Every call succeeds.
abbrev pub reachable : ModbusLibrary
reachable = record {
  scan_tcp = λ text. some ("localhost", "502");
  scan_rtu = λ text. none;
  errno = λ log. pos 0;
  open_port = λ log. pos 3;
  get_rs485 = λ log. negsuc 0;
  context = λ log. some 1;
  set_slave = λ log. pos 0;
  socket = λ log. if is_up log then pos 7 else negsuc 0;
  connect = λ log. pos 0;
  io = λ log. some 2;
  set_disconnect_handler = λ log. true;
  timer = λ log. some 4;
}

pub reachable-SocketAnswers : SocketAnswers reachable
reachable-SocketAnswers log = elim (Bool-cases (is_up log)) [
  | inl e ↦ rw e refl
  | inr e ↦ rw e refl
]

-- The state behind the callbacks counts the connections.
abbrev pub unlinked : Link ℕ
unlinked = record {
  connect_to = none;
  modbus_io = none;
  modbus_ctx = none;
  conn_cb = none;
  disconn_cb = none;
  calls = [];
}

abbrev started : Link ℕ
started =
    (iface_modbus_start reachable "tcp://localhost:502" (pos 3) (some (λ n. n + 1)) none unlinked).1

attempt_connect-outcome_example :
    Accounts (attempt_connect reachable (some 4) (started, 0)).0
    × (IsConnected 1 (some (λ (n : ℕ). n + 1)) 0 (attempt_connect reachable (some 4) (started, 0))
        ⊎ IsRetried 1 (some 4) 0 (attempt_connect reachable (some 4) (started, 0)))
unfolding iface_modbus_start create_ctx create_tcp start_ctx start_made
attempt_connect-outcome_example =
    attempt_connect-outcome reachable (some 4) started 0 reachable-SocketAnswers
      (record { ios = refl; timers = refl; contexts = refl })

stopped-IsIdle_example :
    let stopped =
      iface_modbus_stop reachable
        (link_steps reachable (attempt ∷ lost ∷ attempt ∷ []) (started, 0)).0 in
    IsIdle stopped × (is_up stopped.calls ≡ false)
stopped-IsIdle_example =
    stopped-IsIdle reachable "tcp://localhost:502" (pos 3) (some (λ n. n + 1)) none
      (attempt ∷ lost ∷ attempt ∷ []) unlinked 0 reachable-SocketAnswers
      (record {
        no_ios = refl;
        no_timers = refl;
        no_contexts = refl;
        no_io = refl;
        no_timer = refl;
      })
