-- ===== src/Modbus/Connect/Attempt.antt =====
-- src/iface-modbus.c, attempt_connect: each attempt ends with a connection or with another attempt.
use knot_virtualthing.Prelude.{
  ℕ, ◌+◌, ℤ, true, false, ◌≡◌, ◌⊎◌, inl, inr, refl, ap, ◌∙◌, Option, none, some, List, [], ◌∷◌,
  is_neg, Bool-cases,
}
use knot_virtualthing.Modbus.Connect.{
  Calls, ModbusLibrary, Link, timeout_modify, reconnect_timeout, run_callback, close_socket,
  destroy_io, use_io, attempt_connect, called, connect, io_new,
}
use knot_virtualthing.Modbus.Connect.Held.{
  live_ios, live_timers, live_contexts, is_up, times_set, close_socket-times_set,
  destroy_io-times_set, SocketAnswers, to_list, Accounts, dropped, close_socket-Accounts,
  destroy_io-Accounts,
}

-- The connection is open, an l_io watches it, no call has set a timer, where `n` had done so before,
-- and the callback `cb` has run.
pub record IsConnected {W : Type 0} (n : ℕ) (cb : Option (W → W)) (w : W) (after : Link W × W)
    : Type 0 where
  pub watched : (io : ℕ) × (after.0.modbus_io ≡ some io)
  pub open_connection : is_up after.0.calls ≡ true
  pub not_set_again : times_set after.0.calls ≡ n
  pub called_back : after.1 ≡ run_callback cb w

-- No connection is open, no l_io is left, the last call sets the timer again and no other call has
-- done so, where `n` had before, and no callback ran.
pub record IsRetried {W : Type 0} (n : ℕ) (to : Option ℕ) (w : W) (after : Link W × W)
    : Type 0 where
  pub unwatched : after.0.modbus_io ≡ none
  pub no_connection : is_up after.0.calls ≡ false
  pub set_again : (log : Calls) × (after.0.calls ≡ timeout_modify to reconnect_timeout ∷ log)
  pub set_once : times_set after.0.calls ≡ n + 1
  pub no_callback : after.1 ≡ w

io_new-ios :
    (io : Option ℕ) (log : Calls) (s : ℤ)
    → live_ios log ≡ []
    → live_ios (io_new s io ∷ log) ≡ to_list io
io_new-ios none log s h = h
io_new-ios (some io) log s h = ap (λ (ios : List ℕ). io ∷ ios) h

io_new-others :
    (io : Option ℕ) (log : Calls) (s : ℤ)
    → (live_timers (io_new s io ∷ log) ≡ live_timers log)
      × (live_contexts (io_new s io ∷ log) ≡ live_contexts log)
      × (is_up (io_new s io ∷ log) ≡ is_up log)
      × (times_set (io_new s io ∷ log) ≡ times_set log)
io_new-others none log s = (refl, refl, refl, refl)
io_new-others (some io) log s = (refl, refl, refl, refl)

module _ {W : Type 0} (lib : ModbusLibrary) where
  use_io-outcome :
      (n : ℕ) (to io : Option ℕ) (link : Link W) (w : W) (cb : Option (W → W))
      → times_set link.calls ≡ n
      → link.conn_cb ≡ cb
      → live_ios link.calls ≡ to_list io
      → live_timers link.calls ≡ to_list link.connect_to
      → live_contexts link.calls ≡ to_list link.modbus_ctx
      → is_up link.calls ≡ true
      → Accounts (use_io lib to io (link, w)).0
        × (IsConnected n cb w (use_io lib to io (link, w))
            ⊎ IsRetried n to w (use_io lib to io (link, w)))
  unfolding use_io
  use_io-outcome n to none link w cb z f a b c up = (
    record { ios = a; timers = b; contexts = c },
    inr (record {
      unwatched = refl;
      no_connection = refl;
      set_again = (_, refl);
      set_once = ap (λ (k : ℕ). k + 1) z;
      no_callback = refl;
    }),
  )
  use_io-outcome n to (some io) link w cb z f a b c up =
      elim (Bool-cases (lib.set_disconnect_handler link.calls)) [
        | inl e ↦
            rw (e, use_io)
              (
                record { ios = a; timers = b; contexts = c },
                inl (record {
                  watched = (io, refl);
                  open_connection = up;
                  not_set_again = z;
                  called_back = ap (λ (g : Option (W → W)). run_callback g w) f;
                }),
              )
        | inr e ↦
            rw (e, use_io)
              (
                record { ios = dropped io (live_ios link.calls) a; timers = b; contexts = c },
                inr (record {
                  unwatched = refl;
                  no_connection = refl;
                  set_again = (_, refl);
                  set_once = ap (λ (k : ℕ). k + 1) z;
                  no_callback = refl;
                }),
              )
      ]

  -- If the static variables hold exactly the l_io, the timer and the context that are live,
  -- they do so after every attempt to connect, and the attempt has one of two outcomes: a
  -- connection is open, an l_io watches it, no timer is set again and the callback for
  -- connections has run once; or no connection is open, no l_io is left, the callback has not
  -- run, and the last call, and no other, sets the timer of the attempt to five seconds.
  pub attempt_connect-outcome :
      (to : Option ℕ) (link : Link W) (w : W)
      → SocketAnswers lib
      → Accounts link
      → Accounts (attempt_connect lib to (link, w)).0
        × (IsConnected (times_set link.calls) link.conn_cb w (attempt_connect lib to (link, w))
            ⊎ IsRetried (times_set link.calls) to w (attempt_connect lib to (link, w)))
  unfolding attempt_connect
  attempt_connect-outcome to link w s a =
      let (a1, down1, cb1) = close_socket-Accounts lib link s a in
      let (a2, down2, cb2, no_io) = destroy_io-Accounts lib (close_socket lib link) a1 in
      let link1 = destroy_io lib (close_socket lib link) in
      let rc = lib.connect link1.calls in
      let link2 = called lib (connect link1.modbus_ctx rc) link1 in
      let io = lib.io link2.calls in
      let n = destroy_io-times_set lib (close_socket lib link) ∙ close_socket-times_set lib link in
      let ios : live_ios link1.calls ≡ [] = a2.ios ∙ ap to_list no_io in
      elim (Bool-cases (is_neg rc)) [
        | inl e ↦
            rw (e, attempt_connect)
              (
                record { ios = a2.ios; timers = a2.timers; contexts = a2.contexts },
                inr (record {
                  unwatched = no_io;
                  no_connection = rw e (down2 ∙ down1);
                  set_again = (_, refl);
                  set_once = ap (λ (k : ℕ). k + 1) n;
                  no_callback = refl;
                }),
              )
        | inr e ↦
            let (t, c, u, i) = io_new-others io link2.calls (lib.socket link2.calls) in
            let up : is_up link2.calls ≡ true = rw e refl in
            rw (e, attempt_connect)
              (use_io-outcome (times_set link.calls) to io
                (called lib (io_new (lib.socket link2.calls) io) link2) w link.conn_cb (i ∙ n)
                (cb2 ∙ cb1) (io_new-ios io link2.calls (lib.socket link2.calls) ios) (t ∙ a2.timers)
                (c ∙ a2.contexts) (u ∙ up))
      ]
