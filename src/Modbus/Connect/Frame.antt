-- ===== src/Modbus/Connect/Frame.antt =====
-- src/iface-modbus.c: what attempts and lost connections leave alone.
use knot_virtualthing.Prelude.{
  ℕ, ◌≡◌, refl, ◌∙◌, Option, none, some, is_neg, arith, Bool-cases, inl, inr,
}
use knot_virtualthing.Modbus.Connect.{
  ModbusLibrary, Link, close_socket, destroy_io, use_io, attempt_connect, on_disconnected, called,
  connect, io_new,
}

-- the callbacks and the timer of a link
pub record SameSetup {W : Type 0} (link link' : Link W) : Type 0 where
  pub same_conn_cb : link'.conn_cb ≡ link.conn_cb
  pub same_disconn_cb : link'.disconn_cb ≡ link.disconn_cb
  pub same_timer : link'.connect_to ≡ link.connect_to

module _ {W : Type 0} (lib : ModbusLibrary) where
  close_socket-SameSetup : (link : Link W) → SameSetup link (close_socket lib link)
  unfolding close_socket
  close_socket-SameSetup link = record {
    same_conn_cb = ground arith;
    same_disconn_cb = ground arith;
    same_timer = ground arith;
  }

  destroy_io-SameSetup : (link : Link W) → SameSetup link (destroy_io lib link)
  unfolding destroy_io
  destroy_io-SameSetup link = record {
    same_conn_cb = ground arith;
    same_disconn_cb = ground arith;
    same_timer = ground arith;
  }

  use_io-SameSetup :
      (to io : Option ℕ) (link : Link W) (w : W) → SameSetup link (use_io lib to io (link, w)).0
  unfolding use_io
  use_io-SameSetup to none link w = record {
    same_conn_cb = refl;
    same_disconn_cb = refl;
    same_timer = refl;
  }
  use_io-SameSetup to (some io) link w = record {
    same_conn_cb = ground arith;
    same_disconn_cb = ground arith;
    same_timer = ground arith;
  }

  pub attempt_connect-SameSetup :
      (to : Option ℕ) (link : Link W) (w : W) → SameSetup link (attempt_connect lib to (link, w)).0
  unfolding attempt_connect
  attempt_connect-SameSetup to link w =
      let a = close_socket-SameSetup link in
      let b = destroy_io-SameSetup (close_socket lib link) in
      let link1 = destroy_io lib (close_socket lib link) in
      let rc = lib.connect link1.calls in
      let link2 = called lib (connect link1.modbus_ctx rc) link1 in
      let link3 = called lib (io_new (lib.socket link2.calls) (lib.io link2.calls)) link2 in
      let c = use_io-SameSetup to (lib.io link2.calls) link3 w in
      elim (Bool-cases (is_neg rc)) [
        | inl e ↦
            rw (e, attempt_connect)
              (record {
                same_conn_cb = b.same_conn_cb ∙ a.same_conn_cb;
                same_disconn_cb = b.same_disconn_cb ∙ a.same_disconn_cb;
                same_timer = b.same_timer ∙ a.same_timer;
              })
        | inr e ↦
            rw (e, attempt_connect)
              (record {
                same_conn_cb = c.same_conn_cb ∙ b.same_conn_cb ∙ a.same_conn_cb;
                same_disconn_cb = c.same_disconn_cb ∙ b.same_disconn_cb ∙ a.same_disconn_cb;
                same_timer = c.same_timer ∙ b.same_timer ∙ a.same_timer;
              })
      ]

  pub on_disconnected-SameSetup :
      (link : Link W) (w : W) → SameSetup link (on_disconnected lib (link, w)).0
  unfolding on_disconnected
  on_disconnected-SameSetup link w = record {
    same_conn_cb = ground arith;
    same_disconn_cb = ground arith;
    same_timer = ground arith;
  }
