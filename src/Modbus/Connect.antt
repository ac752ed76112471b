-- ===== src/Modbus/Connect.antt =====
-- src/iface-modbus.c: the connection to the slave, from iface_modbus_start to iface_modbus_stop. What
-- libmodbus, ell and the system answer is a parameter. The proofs are in the children.
pub mod Held
pub mod Made
pub mod Attempt
pub mod Lifetime
pub mod Refused
pub mod Frame
use knot_virtualthing.Prelude.{
  ℕ, zero, suc, ℤ, pos, negsuc, String, Bool, true, false, not, Option, none, some, List, [], ◌∷◌,
  codes, is_prefix, is_neg, eqb_ℤ, fd_of, if◌then◌else◌,
}
use knot_virtualthing.Storage.{minus, einval}

-- MODBUS_RTU_RS232, MODBUS_RTU_RS485
pub data SerialMode : Type 0 where
  rs232 rs485 : SerialMode

-- what sscanf finds in the address of a serial line
pub record SerialLine : Type 0 where
  pub port : String
  pub baud_rate : ℤ
  pub parity : ℕ
  pub data_bit : ℤ
  pub stop_bit : ℤ

-- The calls that src/iface-modbus.c makes, with the answers that the later ones depend on. A context,
-- an l_io and a timer are the numbers that their creation answered; `none` is NULL.
pub data ModbusCall : Type 0 where
  open_port : List ℕ → ModbusCall
  get_rs485 : ℕ → ModbusCall
  close_port : ℕ → ModbusCall
  new_tcp_pi : String → String → Option ℕ → ModbusCall
  new_rtu : SerialLine → Option ℕ → ModbusCall
  set_serial_mode : ℕ → SerialMode → ModbusCall
  set_rts_none : ℕ → ModbusCall
  set_slave : ℕ → ℤ → ModbusCall
  connect : Option ℕ → ℤ → ModbusCall
  close : Option ℕ → ModbusCall
  free : Option ℕ → ModbusCall
  io_new : ℤ → Option ℕ → ModbusCall
  set_disconnect_handler : ℕ → ModbusCall
  io_destroy : Option ℕ → ModbusCall
  timeout_create_ms : ℕ → Option ℕ → ModbusCall
  timeout_modify : Option ℕ → ℕ → ModbusCall
  timeout_remove : Option ℕ → ModbusCall

-- The newest call comes first.
abbrev pub Calls : Type 0
Calls = List ModbusCall

-- The answers, which may depend on all calls before; `scan_tcp` and `scan_rtu` are sscanf with the
-- formats of create_tcp and create_rtu, `none` where it does not fill all its fields.
pub record ModbusLibrary : Type 0 where
  pub scan_tcp : List ℕ → Option (String × String)
  pub scan_rtu : List ℕ → Option SerialLine
  pub errno : Calls → ℤ
  pub open_port : Calls → ℤ
  pub get_rs485 : Calls → ℤ
  pub context : Calls → Option ℕ
  pub set_slave : Calls → ℤ
  pub socket : Calls → ℤ
  pub connect : Calls → ℤ
  pub io : Calls → Option ℕ
  pub set_disconnect_handler : Calls → Bool
  pub timer : Calls → Option ℕ

-- The static variables, and the calls so far. `W` is all other state of the program, on which the
-- callbacks act.
pub record Link (W : Type 0) : Type 0 where
  pub connect_to : Option ℕ
  pub modbus_io : Option ℕ
  pub modbus_ctx : Option ℕ
  pub conn_cb : Option (W → W)
  pub disconn_cb : Option (W → W)
  pub calls : Calls

abbrev pub tcp_prefix : List ℕ
tcp_prefix = codes "tcp://"

abbrev pub rtu_prefix : List ℕ
rtu_prefix = codes "serial://"

abbrev pub reconnect_timeout : ℕ
reconnect_timeout = 5

-- `&text[n]`
abbrev pub skip : ℕ → List ℕ → List ℕ
skip zero text = text
skip (suc n) [] = []
skip (suc n) (c ∷ cs) = skip n cs

-- `-e`
abbrev pub negated : ℤ → ℤ
negated (pos n) = minus n
negated (negsuc n) = pos (suc n)

abbrev pub run_callback : {W : Type 0} → Option (W → W) → W → W
run_callback none w = w
run_callback (some cb) w = cb w

module _ (lib : ModbusLibrary) where
  -- what follows modbus_new_rtu: a context is configured
  abbrev pub configure : SerialMode → Option ℕ → Calls → Calls
  configure mode none log = log
  configure mode (some ctx) log = set_rts_none ctx ∷ set_serial_mode ctx mode ∷ log

  -- from the open port on
  unfoldable pub open_rtu : SerialLine → ℕ → Calls → Option ℕ × Calls
  open_rtu line fd log =
      let mode = if is_neg (lib.get_rs485 log) then rs232 else rs485 in
      let log' = close_port fd ∷ get_rs485 fd ∷ log in
      let ctx = lib.context log' in (ctx, configure mode ctx (new_rtu line ctx ∷ log'))

  -- The text that is opened is the whole rest of the address, as it is in the code.
  unfoldable pub create_rtu : List ℕ → Calls → Option ℕ × Calls
  unfolding open_rtu
  create_rtu url log = elim (lib.scan_rtu (skip 8 url)) [
    | none ↦ (none, log)
    | some line ↦
        let fd = lib.open_port log in
        let log' = open_port (skip 8 url) ∷ log in
        if is_neg fd then (none, log') else open_rtu line (fd_of fd) log'
  ]

  unfoldable pub create_tcp : List ℕ → Calls → Option ℕ × Calls
  create_tcp url log = elim (lib.scan_tcp (skip 6 url)) [
    | none ↦ (none, log)
    | some (hostname, port) ↦ (lib.context log, new_tcp_pi hostname port (lib.context log) ∷ log)
  ]

  -- The context, and `errno` after it.
  unfoldable pub create_ctx : List ℕ → Calls → ℤ × (Option ℕ × Calls)
  create_ctx url log =
      let (tcp, log1) = create_tcp url log in
      let (rtu, log2) = create_rtu url log in
      if is_prefix tcp_prefix url
      then (lib.errno log1, (tcp, log1))
      else if is_prefix rtu_prefix url
      then (lib.errno log2, (rtu, log2))
      else (minus einval, (none, log))

module _ {W : Type 0} (lib : ModbusLibrary) where
  abbrev pub called : ModbusCall → Link W → Link W
  called c link = record link { calls = c ∷ link.calls }

  unfoldable pub on_disconnected : Link W × W → Link W × W
  on_disconnected (link, w) = elim link.connect_to [
    | none ↦ (link, run_callback link.disconn_cb w)
    | some to ↦
        (called (timeout_modify (some to) reconnect_timeout) link, run_callback link.disconn_cb w)
  ]

  -- `modbus_close` where the socket of the context is open
  unfoldable pub close_socket : Link W → Link W
  close_socket link =
      if not (eqb_ℤ (lib.socket link.calls) (negsuc 0))
      then called (close link.modbus_ctx) link
      else link

  unfoldable pub destroy_io : Link W → Link W
  destroy_io link = elim link.modbus_io [
    | none ↦ link
    | some io ↦ record (called (io_destroy (some io)) link) { modbus_io = none }
  ]

  -- the label `retry`
  abbrev pub retry : Option ℕ → Link W × W → Link W × W
  retry to (link, w) = (called (timeout_modify to reconnect_timeout) link, w)

  -- `modbus_io` is the new l_io: what follows l_io_new, with the labels below it
  unfoldable pub use_io : Option ℕ → Option ℕ → Link W × W → Link W × W
  use_io to none (link, w) =
      retry to (called (close link.modbus_ctx) (record link { modbus_io = none }), w)
  use_io to (some io) (link, w) =
      let link1 = called (set_disconnect_handler io) link in
      let link2 = called (io_destroy (some io)) link1 in
      let link3 = called (close link.modbus_ctx) link2 in
      if lib.set_disconnect_handler link.calls
      then (record link1 { modbus_io = some io }, run_callback link.conn_cb w)
      else retry to (record link3 { modbus_io = none }, w)

  unfoldable pub attempt_connect : Option ℕ → Link W × W → Link W × W
  unfolding close_socket destroy_io use_io
  attempt_connect to (link, w) =
      let link1 = destroy_io (close_socket link) in
      let rc = lib.connect link1.calls in
      let link2 = called (connect link1.modbus_ctx rc) link1 in
      let io = lib.io link2.calls in
      let link3 = called (io_new (lib.socket link2.calls) io) link2 in
      if is_neg rc then retry to (link2, w) else use_io to io (link3, w)

  -- from the context on
  unfoldable pub start_ctx : ℕ → ℤ → Option (W → W) → Option (W → W) → Link W → ℤ × Link W
  start_ctx ctx slave_id connected_cb disconnected_cb link =
      let rc = lib.set_slave link.calls in
      let link1 = called (set_slave ctx slave_id) link in
      let to = lib.timer link1.calls in
      if is_neg rc then (negated (lib.errno link1.calls), link1) else (
        pos 0,
        record (called (timeout_create_ms 1 to) link1) {
          conn_cb = connected_cb;
          disconn_cb = disconnected_cb;
          connect_to = to;
        },
      )

  -- create_ctx has answered.
  unfoldable pub start_made :
      ℤ → Option ℕ → ℤ → Option (W → W) → Option (W → W) → Link W → ℤ × Link W
  unfolding start_ctx
  start_made errno none slave_id connected_cb disconnected_cb link = (negated errno, link)
  start_made errno (some ctx) slave_id connected_cb disconnected_cb link =
      start_ctx ctx slave_id connected_cb disconnected_cb link

  unfoldable pub iface_modbus_start :
      String → ℤ → Option (W → W) → Option (W → W) → Link W → ℤ × Link W
  unfolding start_made
  iface_modbus_start url slave_id connected_cb disconnected_cb link =
      let (errno, (ctx, log)) = create_ctx lib (codes url) link.calls in
      start_made errno ctx slave_id connected_cb disconnected_cb
        (record link { modbus_ctx = ctx; calls = log })

  -- The freed context stays in `modbus_ctx`.
  unfoldable pub iface_modbus_stop : Link W → Link W
  iface_modbus_stop link = record link {
    connect_to = none;
    modbus_io = none;
    calls =
        free link.modbus_ctx
        ∷ close link.modbus_ctx
        ∷ io_destroy link.modbus_io
        ∷ timeout_remove link.connect_to
        ∷ link.calls;
  }
