-- ===== src/Properties/Closed/Updates.antt =====
-- src/properties.c: the operations that change the files close the descriptors that they open.
use knot_virtualthing.Prelude.{
  ℕ, ℤ, String, Bool, true, false, ◌≡◌, some, List, [], ◌∷◌, is_neg, fd_of, arith, Bool-cases,
  Option-cases, inl, inr, not, ltb, strlen, if◌then◌else◌,
}
use knot_virtualthing.Protocol.{Config, Knot}
use knot_virtualthing.Storage.{LSettings, System, Store, storage_open}
use knot_virtualthing.Storage.Access.{get_data_item_groups}
use knot_virtualthing.Storage.Held.{
  NothingOpen, OnlyOpen, storage_open-refused, storage_open-OnlyOpen, storage_close-NothingOpen,
  get_data_item_groups-OnlyOpen,
}
use knot_virtualthing.Thing.{Thing}
use knot_virtualthing.Properties.Credentials.{
  close_after, properties_clear_credentials, properties_store_credentials,
}
use knot_virtualthing.Properties.Update.{
  update_schema_data_item, update_group, update_groups, update_open, properties_update_data_item,
  equal_sensor_id,
}
use knot_virtualthing.Properties.Closed.Writes.{
  clear_open-NothingOpen, store_open-NothingOpen, update_schema-OnlyOpen, update_event-OnlyOpen,
}

module _ (l : LSettings) (sys : System) (knot : Knot) where
  branch-OnlyOpen :
      (fd : ℕ) (b : Bool) (x y : Bool × Store l)
      → OnlyOpen fd x.1
      → OnlyOpen fd y.1
      → OnlyOpen fd (if b then x else y).1
  branch-OnlyOpen fd true x y a c = a
  branch-OnlyOpen fd false x y a c = c

  update_group-OnlyOpen :
      (fd : ℕ) (group : String) (config : Config) (st : Store l)
      → OnlyOpen fd st
      → OnlyOpen fd (update_group l sys knot fd group config st).1
  unfolding update_group
  update_group-OnlyOpen fd group config st o =
      let o1 = update_schema-OnlyOpen l sys fd group config.schema st o in
      let o2 =
        update_event-OnlyOpen l sys fd group (knot.value_type config.schema.value_type) config.event
          (update_schema_data_item l sys fd group config.schema st).1 o1 in
      branch-OnlyOpen fd (not config.event.event_flags.unregistered) _ _ o2 o1

  update_groups-OnlyOpen :
      (fd : ℕ) (groups : List String) (config : Config) (st : Store l)
      → OnlyOpen fd st
      → OnlyOpen fd (update_groups l sys knot fd groups config st).1
  unfolding update_groups
  update_groups-OnlyOpen fd [] config st o = o
  update_groups-OnlyOpen fd (g ∷ gs) config st o =
      let rest = update_groups-OnlyOpen fd gs config st o in
      elim (Bool-cases (equal_sensor_id l fd g config.sensor_id st)) [
        | inl e ↦ rw (e, update_groups) (update_group-OnlyOpen fd g config st o)
        | inr e ↦ rw (e, update_groups) rest
      ]

  update_open-NothingOpen :
      (fd : ℕ) (config : Config) (st : Store l) (rc : ℤ) (st' : Store l)
      → OnlyOpen fd st
      → update_open l sys knot fd config st ≡ some (rc, st')
      → NothingOpen st'
  unfolding update_open
  update_open-NothingOpen fd config st rc st' o h =
      let (found, st1) = get_data_item_groups l fd st in
      let o1 : OnlyOpen fd st1 = get_data_item_groups-OnlyOpen l sys fd st o in
      elim (Option-cases found) [
        | inl e ↦ absurd (ground (arith, e))
        | inr (groups, e) ↦
            let (has_err, st2) = update_groups l sys knot fd groups config st1 in
            let closed =
              storage_close-NothingOpen l sys fd st2
                (update_groups-OnlyOpen fd groups config st1 o1) in
            let same : close_after l sys fd st2 ≡ st' = ground (arith, e) in rw (← same) closed
      ]

  pub store_credentials-NothingOpen :
      (filename id token : String) (st : Store l)
      → NothingOpen st
      → NothingOpen (properties_store_credentials l sys knot filename id token st).1
  unfolding properties_store_credentials
  store_credentials-NothingOpen filename id token st n =
      elim (Bool-cases (ltb knot.token_len (strlen token))) [
        | inl a ↦ rw (a, properties_store_credentials) n
        | inr a ↦ elim (Bool-cases (is_neg (storage_open l sys filename st).0)) [
          | inl b ↦
              rw (a, b, properties_store_credentials) (storage_open-refused l sys filename st n b)
          | inr b ↦
              rw (a, b, properties_store_credentials)
                (store_open-NothingOpen l sys _ id token _
                  (storage_open-OnlyOpen l sys filename st n b))
        ]
      ]

  pub clear_credentials-NothingOpen :
      (filename : String) (thing : Thing) (st : Store l)
      → NothingOpen st
      → NothingOpen (properties_clear_credentials l sys filename (thing, st)).2
  unfolding properties_clear_credentials
  clear_credentials-NothingOpen filename thing st n =
      elim (Bool-cases (is_neg (storage_open l sys filename st).0)) [
        | inl b ↦ rw (b, properties_clear_credentials) (storage_open-refused l sys filename st n b)
        | inr b ↦
            rw (b, properties_clear_credentials)
              (clear_open-NothingOpen l sys _ thing _ (storage_open-OnlyOpen l sys filename st n b))
      ]

  pub update_data_item-NothingOpen :
      (filename : String) (config : Config) (thing : Thing) (st : Store l) (rc : ℤ) (thing' : Thing)
      (st' : Store l)
      → properties_update_data_item l sys knot filename config (thing, st) ≡ some (rc, thing', st')
      → NothingOpen st
      → NothingOpen st'
  unfolding properties_update_data_item
  update_data_item-NothingOpen filename config thing st rc thing' st' h n =
      let (fd, st1) = storage_open l sys filename st in
      elim (Bool-cases (is_neg fd)) [
        | inl b ↦
            let same : st1 ≡ st' = ground (arith, b) in
            rw (← same) (storage_open-refused l sys filename st n b)
        | inr b ↦ elim (Option-cases (update_open l sys knot (fd_of fd) config st1)) [
          | inl e ↦ absurd (ground (arith, b, e))
          | inr ((rc2, st2), e) ↦
              let same : st2 ≡ st' = ground (arith, b, e) in
              rw (← same) (
                update_open-NothingOpen (fd_of fd) config st1 rc2 st2
                  (storage_open-OnlyOpen l sys filename st n b) e)
        ]
      ]
