-- ===== src/Modbus/Connect/Made.antt =====
-- src/iface-modbus.c, create_ctx: the context that it answers is the one that is live.
use knot_virtualthing.Prelude.{
  ℕ, String, ◌≡◌, refl, ap, Option, none, some, List, [], ◌∷◌, is_neg, fd_of, is_prefix,
  if◌then◌else◌, Option-cases, Bool-cases, inl, inr,
}
use knot_virtualthing.Modbus.Connect.{
  Calls, ModbusLibrary, create_rtu, open_rtu, create_tcp, create_ctx, SerialLine, SerialMode, rs232,
  rs485, new_rtu, new_tcp_pi, open_port, close_port, get_rs485, configure, skip, tcp_prefix,
  rtu_prefix,
}
use knot_virtualthing.Modbus.Connect.Held.{live_ios, live_timers, live_contexts, to_list}

-- The calls that make a context: no l_io and no timer is made, and the context is live.
pub record IsMade (log : Calls) (ctx : Option ℕ) (log' : Calls) : Type 0 where
  pub same_ios : live_ios log' ≡ live_ios log
  pub same_timers : live_timers log' ≡ live_timers log
  pub made : live_contexts log' ≡ to_list ctx

new_tcp_pi-IsMade :
    (hostname port : String) (ctx : Option ℕ) (log : Calls)
    → live_contexts log ≡ []
    → IsMade log ctx (new_tcp_pi hostname port ctx ∷ log)
new_tcp_pi-IsMade hostname port none log h = record {
  same_ios = refl;
  same_timers = refl;
  made = h;
}
new_tcp_pi-IsMade hostname port (some ctx) log h = record {
  same_ios = refl;
  same_timers = refl;
  made = ap (λ (cs : List ℕ). ctx ∷ cs) h;
}

module _ (lib : ModbusLibrary) where
  create_tcp-IsMade :
      (url : List ℕ) (log : Calls)
      → live_contexts log ≡ []
      → IsMade log (create_tcp lib url log).0 (create_tcp lib url log).1
  unfolding create_tcp
  create_tcp-IsMade url log h = elim (Option-cases (lib.scan_tcp (skip 6 url))) [
    | inl e ↦ rw (e, create_tcp) (record { same_ios = refl; same_timers = refl; made = h })
    | inr ((hostname, port), e) ↦
        rw (e, create_tcp) (new_tcp_pi-IsMade hostname port (lib.context log) log h)
  ]

  configure-IsMade :
      (line : SerialLine) (mode : SerialMode) (ctx : Option ℕ) (log before : Calls)
      → live_contexts log ≡ []
      → live_ios log ≡ live_ios before
      → live_timers log ≡ live_timers before
      → IsMade before ctx (configure lib mode ctx (new_rtu line ctx ∷ log))
  configure-IsMade line mode none log before h a b = record {
    same_ios = a;
    same_timers = b;
    made = h;
  }
  configure-IsMade line mode (some ctx) log before h a b = record {
    same_ios = a;
    same_timers = b;
    made = ap (λ (cs : List ℕ). ctx ∷ cs) h;
  }

  open_rtu-IsMade :
      (line : SerialLine) (fd : ℕ) (log : Calls)
      → live_contexts log ≡ []
      → IsMade log (open_rtu lib line fd log).0 (open_rtu lib line fd log).1
  unfolding open_rtu
  open_rtu-IsMade line fd log h =
      configure-IsMade line (if is_neg (lib.get_rs485 log) then rs232 else rs485)
        (lib.context (close_port fd ∷ get_rs485 fd ∷ log)) (close_port fd ∷ get_rs485 fd ∷ log) log
        h refl refl

  create_rtu-IsMade :
      (url : List ℕ) (log : Calls)
      → live_contexts log ≡ []
      → IsMade log (create_rtu lib url log).0 (create_rtu lib url log).1
  unfolding create_rtu
  create_rtu-IsMade url log h = elim (Option-cases (lib.scan_rtu (skip 8 url))) [
    | inl e ↦ rw (e, create_rtu) (record { same_ios = refl; same_timers = refl; made = h })
    | inr (line, e) ↦ elim (Bool-cases (is_neg (lib.open_port log))) [
      | inl n ↦ rw (e, n, create_rtu) (record { same_ios = refl; same_timers = refl; made = h })
      | inr n ↦
          let m =
            open_rtu-IsMade line (fd_of (lib.open_port log)) (open_port (skip 8 url) ∷ log) h in
          rw (e, n, create_rtu)
            (record { same_ios = m.same_ios; same_timers = m.same_timers; made = m.made })
    ]
  ]

  pub create_ctx-IsMade :
      (url : List ℕ) (log : Calls)
      → live_contexts log ≡ []
      → IsMade log (create_ctx lib url log).1.0 (create_ctx lib url log).1.1
  unfolding create_ctx
  create_ctx-IsMade url log h = elim (Bool-cases (is_prefix tcp_prefix url)) [
    | inl a ↦ rw (a, create_ctx) (create_tcp-IsMade url log h)
    | inr a ↦ elim (Bool-cases (is_prefix rtu_prefix url)) [
      | inl b ↦ rw (a, b, create_ctx) (create_rtu-IsMade url log h)
      | inr b ↦ rw (a, b, create_ctx) (record { same_ios = refl; same_timers = refl; made = h })
    ]
  ]
