-- ===== src/Properties/Closed/Writes.antt =====
-- src/properties.c: the writes behind an open descriptor keep it open, and nothing else is.
use knot_virtualthing.Prelude.{ℕ, ℤ, String, Bool, true, false, is_neg, Bool-cases, inl, inr}
use knot_virtualthing.Protocol
use knot_virtualthing.Protocol.{Value, Config, Knot, KnotEvent, Schema, ValueType}
use knot_virtualthing.Storage.{LSettings, System, Store}
use knot_virtualthing.Storage.Access.{
  storage_write_key_string, storage_write_key_int, storage_write_key_number, storage_remove_key,
  storage_has_unit,
}
use knot_virtualthing.Storage.Held.{
  NothingOpen, OnlyOpen, storage_close-NothingOpen, change-OnlyOpen,
}
use knot_virtualthing.Thing.{Thing}
use knot_virtualthing.Properties.Credentials.{
  erase_thing_id, erase_thing_token, clear_open, store_open, credentials_group,
  credentials_thing_id, credentials_thing_token,
}
use knot_virtualthing.Properties.Update.{
  set_limit, update_key, update_event_data_item, update_schema_data_item, and_then,
}

module _ (l : LSettings) (sys : System) where
  write_string-OnlyOpen :
      (fd : ℕ) (group key value : String) (st : Store l)
      → OnlyOpen fd st
      → OnlyOpen fd (storage_write_key_string l sys fd group key value st).1
  unfolding storage_write_key_string
  write_string-OnlyOpen fd group key value st o = change-OnlyOpen l sys _ fd _ st o

  pub clear_open-NothingOpen :
      (fd : ℕ) (thing : Thing) (st : Store l)
      → OnlyOpen fd st
      → NothingOpen (clear_open l sys fd (thing, st)).2
  unfolding clear_open erase_thing_token erase_thing_id
  clear_open-NothingOpen fd thing st o =
      let (rc, st1) =
        storage_write_key_string l sys fd credentials_group credentials_thing_token "" st in
      let (rc', st2) =
        storage_write_key_string l sys fd credentials_group credentials_thing_id "" st1 in
      let o1 : OnlyOpen fd st1 =
        write_string-OnlyOpen fd credentials_group credentials_thing_token "" st o in
      let o2 : OnlyOpen fd st2 =
        write_string-OnlyOpen fd credentials_group credentials_thing_id "" st1 o1 in
      elim (Bool-cases (is_neg rc)) [
        | inl a ↦ rw (a, clear_open) (storage_close-NothingOpen l sys fd st1 o1)
        | inr a ↦ elim (Bool-cases (is_neg rc')) [
          | inl b ↦ rw (a, b, clear_open) (storage_close-NothingOpen l sys fd st2 o2)
          | inr b ↦ rw (a, b, clear_open) (storage_close-NothingOpen l sys fd st2 o2)
        ]
      ]

  pub store_open-NothingOpen :
      (fd : ℕ) (id token : String) (st : Store l)
      → OnlyOpen fd st
      → NothingOpen (store_open l sys fd id token st).1
  unfolding store_open
  store_open-NothingOpen fd id token st o =
      let write = λ (k v : String) (st : Store l) (o : OnlyOpen fd st).
        write_string-OnlyOpen fd credentials_group k v st o in
      let (rc, st1) =
        storage_write_key_string l sys fd credentials_group credentials_thing_token token st in
      let (rc', st2) =
        storage_write_key_string l sys fd credentials_group credentials_thing_id id st1 in
      let o1 : OnlyOpen fd st1 = write credentials_thing_token token st o in
      let o2 : OnlyOpen fd st2 = write credentials_thing_id id st1 o1 in
      elim (Bool-cases (is_neg rc)) [
        | inl a ↦ rw (a, store_open) (storage_close-NothingOpen l sys fd st1 o1)
        | inr a ↦ elim (Bool-cases (is_neg rc')) [
          | inl b ↦
              rw (a, b, store_open)
                (storage_close-NothingOpen l sys fd _ (write credentials_thing_token "" st2 o2))
          | inr b ↦ rw (a, b, store_open) (storage_close-NothingOpen l sys fd st2 o2)
        ]
      ]

  set_limit-OnlyOpen :
      (fd : ℕ) (group key : String) (t : ValueType) (v : Value) (st : Store l)
      → OnlyOpen fd st
      → OnlyOpen fd (set_limit l sys fd group key t v st).1
  unfolding set_limit storage_write_key_int storage_write_key_number
  set_limit-OnlyOpen fd group key Protocol.int v st o = change-OnlyOpen l sys _ fd _ st o
  set_limit-OnlyOpen fd group key Protocol.float v st o = change-OnlyOpen l sys _ fd _ st o
  set_limit-OnlyOpen fd group key Protocol.bool v st o = change-OnlyOpen l sys _ fd _ st o
  set_limit-OnlyOpen fd group key Protocol.int64 v st o = change-OnlyOpen l sys _ fd _ st o
  set_limit-OnlyOpen fd group key Protocol.uint v st o = change-OnlyOpen l sys _ fd _ st o
  set_limit-OnlyOpen fd group key Protocol.uint64 v st o = change-OnlyOpen l sys _ fd _ st o
  set_limit-OnlyOpen fd group key Protocol.raw v st o = o
  set_limit-OnlyOpen fd group key (Protocol.other inside) v st o = o

  -- What is done keeps `fd` open.
  abbrev pub Keeps : ℕ → (Store l → ℤ × Store l) → Type 0
  Keeps fd f = (st : Store l) → OnlyOpen fd st → OnlyOpen fd (f st).1

  update_key-OnlyOpen :
      (fd : ℕ) (flag : Bool) (write : Store l → ℤ × Store l) (group key : String) (st : Store l)
      → Keeps fd write
      → OnlyOpen fd st
      → OnlyOpen fd (update_key l sys flag write fd group key st).1
  unfolding update_key storage_remove_key
  update_key-OnlyOpen fd true write group key st w o = w st o
  update_key-OnlyOpen fd false write group key st w o =
      elim (Bool-cases (storage_has_unit l fd group key st)) [
        | inl e ↦ rw (e, update_key) o
        | inr e ↦ rw (e, update_key) (change-OnlyOpen l sys _ fd _ st o)
      ]

  and_then-OnlyOpen :
      (fd : ℕ) (r : ℤ × Store l) (next : Store l → ℤ × Store l)
      → OnlyOpen fd r.1
      → Keeps fd next
      → OnlyOpen fd (and_then l sys r next).1
  unfolding and_then
  and_then-OnlyOpen fd (rc, st) next o k = elim (Bool-cases (is_neg rc)) [
    | inl e ↦ rw (e, and_then) o
    | inr e ↦ rw (e, and_then) (k st o)
  ]

  write_int-OnlyOpen :
      (fd : ℕ) (group key : String) (v : ℤ) → Keeps fd (storage_write_key_int l sys fd group key v)
  unfolding storage_write_key_int
  write_int-OnlyOpen fd group key v st o = change-OnlyOpen l sys _ fd _ st o

  pub update_schema-OnlyOpen :
      (fd : ℕ) (group : String) (schema : Schema)
      → Keeps fd (update_schema_data_item l sys fd group schema)
  unfolding update_schema_data_item
  update_schema-OnlyOpen fd group schema st o =
      and_then-OnlyOpen fd _ _ (write_int-OnlyOpen fd group _ _ st o) (λ st1 o1.
        and_then-OnlyOpen fd _ _ (write_int-OnlyOpen fd group _ _ st1 o1) (λ st2 o2.
          and_then-OnlyOpen fd _ _ (write_int-OnlyOpen fd group _ _ st2 o2)
            (λ st3 o3. write_string-OnlyOpen fd group _ _ st3 o3)))

  pub update_event-OnlyOpen :
      (fd : ℕ) (group : String) (t : ValueType) (event : KnotEvent)
      → Keeps fd (update_event_data_item l sys fd group t event)
  unfolding update_event_data_item
  update_event-OnlyOpen fd group t event st o =
      and_then-OnlyOpen fd _ _
        (update_key-OnlyOpen fd _ _ group _ st (write_int-OnlyOpen fd group _ _) o)
        (λ st1 o1.
          and_then-OnlyOpen fd _ _
            (update_key-OnlyOpen fd _ _ group _ st1 (write_int-OnlyOpen fd group _ _) o1)
            (λ st2 o2.
              and_then-OnlyOpen fd _ _
                (update_key-OnlyOpen fd _ _ group _ st2 (set_limit-OnlyOpen fd group _ t _) o2)
                (λ st3 o3.
                  and_then-OnlyOpen fd _ _
                    (update_key-OnlyOpen fd _ _ group _ st3 (set_limit-OnlyOpen fd group _ t _) o3)
                    (λ st4 o4. o4))))
