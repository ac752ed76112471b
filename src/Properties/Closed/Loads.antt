-- ===== src/Properties/Closed/Loads.antt =====
-- src/properties.c: properties_create_device closes the descriptors of its three files.
use knot_virtualthing.Prelude.{
  ℕ, ℤ, String, ◌≡◌, some, is_neg, fd_of, arith, Bool-cases, Option-cases, inl, inr,
}
use knot_virtualthing.Protocol.{Value, Knot}
use knot_virtualthing.Storage.{LSettings, System, Store, storage_open}
use knot_virtualthing.Storage.Access.{storage_read_key_string, get_data_item_groups}
use knot_virtualthing.Storage.Held.{
  NothingOpen, OnlyOpen, storage_open-refused, storage_open-OnlyOpen, storage_close-NothingOpen,
  get_data_item_groups-OnlyOpen,
}
use knot_virtualthing.Thing.{Thing, DeviceSettings}
use knot_virtualthing.Properties.Credentials.{
  close_after, credentials_group, credentials_thing_id, credentials_thing_token,
}
use knot_virtualthing.Properties.Load.{
  set_thing_name, set_modbus_slave_properties, set_rabbit_mq_url,
}
use knot_virtualthing.Properties.Create.{
  kept, set_data_items, thing_open, set_thing_properties, cloud_open, set_cloud_properties,
  credentials_open, set_thing_credentials, properties_create_device, copy_credentials,
}

module _ (l : LSettings) (sys : System) (knot : Knot) (junk : Value) where
  set_data_items-OnlyOpen :
      (fd : ℕ) (thing : Thing) (st : Store l)
      → OnlyOpen fd st
      → OnlyOpen fd (set_data_items l knot junk fd thing st).1.1
  unfolding set_data_items
  set_data_items-OnlyOpen fd thing st o =
      let o1 : OnlyOpen fd (get_data_item_groups l fd st).1 =
        get_data_item_groups-OnlyOpen l sys fd st o in
      elim (Option-cases (get_data_item_groups l fd st).0) [
        | inl e ↦ rw (e, set_data_items) o1
        | inr (gs, e) ↦ rw (e, set_data_items) o1
      ]

  thing_open-NothingOpen :
      (fd : ℕ) (thing : Thing) (st : Store l)
      → OnlyOpen fd st
      → NothingOpen (thing_open l sys knot junk fd thing st).1.1
  unfolding thing_open
  thing_open-NothingOpen fd thing st o =
      let one = kept thing (set_thing_name l knot fd st thing) in
      let two = kept one.1 (set_modbus_slave_properties l knot fd st one.1) in
      let closed = storage_close-NothingOpen l sys fd st o in
      elim (Bool-cases (is_neg one.0)) [
        | inl a ↦ rw (a, thing_open) closed
        | inr a ↦ elim (Bool-cases (is_neg two.0)) [
          | inl b ↦ rw (a, b, thing_open) closed
          | inr b ↦
              rw (a, b, thing_open)
                (storage_close-NothingOpen l sys fd _ (set_data_items-OnlyOpen fd two.1 st o))
        ]
      ]

  set_thing_properties-NothingOpen :
      (filename : String) (thing : Thing) (st : Store l)
      → NothingOpen st
      → NothingOpen (set_thing_properties l sys knot junk filename thing st).1.1
  unfolding set_thing_properties
  set_thing_properties-NothingOpen filename thing st n =
      elim (Bool-cases (is_neg (storage_open l sys filename st).0)) [
        | inl b ↦ rw (b, set_thing_properties) (storage_open-refused l sys filename st n b)
        | inr b ↦
            rw (b, set_thing_properties)
              (thing_open-NothingOpen _ thing _ (storage_open-OnlyOpen l sys filename st n b))
      ]

  cloud_open-NothingOpen :
      (fd : ℕ) (thing : Thing) (st : Store l)
      → OnlyOpen fd st
      → NothingOpen (cloud_open l sys knot junk fd thing st).1.1
  unfolding cloud_open
  cloud_open-NothingOpen fd thing st o =
      let closed = storage_close-NothingOpen l sys fd st o in
      elim (Bool-cases (is_neg (kept thing (set_rabbit_mq_url l knot fd st thing)).0)) [
        | inl a ↦ rw (a, cloud_open) closed
        | inr a ↦ rw (a, cloud_open) closed
      ]

  set_cloud_properties-NothingOpen :
      (filename : String) (thing : Thing) (st : Store l)
      → NothingOpen st
      → NothingOpen (set_cloud_properties l sys knot junk filename thing st).1.1
  unfolding set_cloud_properties
  set_cloud_properties-NothingOpen filename thing st n =
      elim (Bool-cases (is_neg (storage_open l sys filename st).0)) [
        | inl b ↦ rw (b, set_cloud_properties) (storage_open-refused l sys filename st n b)
        | inr b ↦
            rw (b, set_cloud_properties)
              (cloud_open-NothingOpen _ thing _ (storage_open-OnlyOpen l sys filename st n b))
      ]

  credentials_open-NothingOpen :
      (fd : ℕ) (thing : Thing) (st : Store l) (rc : ℤ) (t : Thing) (st' : Store l)
      → credentials_open l sys knot junk fd thing st ≡ some (rc, (t, st'))
      → OnlyOpen fd st
      → NothingOpen st'
  unfolding credentials_open
  credentials_open-NothingOpen fd thing st rc t st' h o =
      let id = storage_read_key_string l fd credentials_group credentials_thing_id st in
      let token = storage_read_key_string l fd credentials_group credentials_thing_token st in
      elim (Option-cases (copy_credentials knot id token thing)) [
        | inl e ↦ absurd (ground (arith, e))
        | inr (t', e) ↦
            let same : close_after l sys fd st ≡ st' = ground (arith, e) in
            rw (← same) (storage_close-NothingOpen l sys fd st o)
      ]

  set_thing_credentials-NothingOpen :
      (filename : String) (thing : Thing) (st : Store l) (rc : ℤ) (t : Thing) (st' : Store l)
      → set_thing_credentials l sys knot junk filename thing st ≡ some (rc, (t, st'))
      → NothingOpen st
      → NothingOpen st'
  unfolding set_thing_credentials
  set_thing_credentials-NothingOpen filename thing st rc t st' h n =
      let (fd, st1) = storage_open l sys filename st in
      elim (Bool-cases (is_neg fd)) [
        | inl b ↦
            let same : st1 ≡ st' = ground arith in
            rw (← same) (storage_open-refused l sys filename st n b)
        | inr b ↦
            credentials_open-NothingOpen (fd_of fd) thing st1 rc t st' (ground arith)
              (storage_open-OnlyOpen l sys filename st n b)
      ]

  pub create_device-NothingOpen :
      (conf_files : DeviceSettings) (thing : Thing) (st : Store l) (rc : ℤ) (t : Thing)
      (st' : Store l)
      → properties_create_device l sys knot junk conf_files thing st ≡ some (rc, (t, st'))
      → NothingOpen st
      → NothingOpen st'
  unfolding properties_create_device
  create_device-NothingOpen conf_files thing st rc t st' h n =
      let one = set_thing_properties l sys knot junk conf_files.device_path thing st in
      let two = set_cloud_properties l sys knot junk conf_files.cloud_path one.1.0 one.1.1 in
      let n1 : NothingOpen one.1.1 =
        set_thing_properties-NothingOpen conf_files.device_path thing st n in
      let n2 : NothingOpen two.1.1 =
        set_cloud_properties-NothingOpen conf_files.cloud_path one.1.0 one.1.1 n1 in
      elim (Bool-cases (is_neg one.0)) [
        | inl a ↦ let same : one.1.1 ≡ st' = ground arith in rw (← same) n1
        | inr a ↦ elim (Bool-cases (is_neg two.0)) [
          | inl b ↦ let same : two.1.1 ≡ st' = ground arith in rw (← same) n2
          | inr b ↦
              set_thing_credentials-NothingOpen conf_files.credentials_path two.1.0 two.1.1 rc t st'
                (ground arith) n2
        ]
      ]
