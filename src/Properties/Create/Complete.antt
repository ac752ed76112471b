-- ===== src/Properties/Create/Complete.antt =====
-- src/properties.c, properties_create_device: the three files together.
use knot_virtualthing.Prelude.{
  fd_of, ℕ, ◌≤◌, ℤ, String, false, ◌≡◌, refl, ap, ◌∙◌, Option, none, some, [], is_neg, strlen,
  str_eq, arith, Bool-cases, Option-cases, inl, inr,
}
use knot_virtualthing.Protocol.{Value, Knot}
use knot_virtualthing.Storage.{LSettings, System, Store, storage_open}
use knot_virtualthing.Storage.Access.{storage_read_key_string}
use knot_virtualthing.Thing.{Thing, DeviceSettings, device_set_thing_credentials}
use knot_virtualthing.Properties.Credentials.{
  credentials_group, credentials_thing_id, credentials_thing_token,
}
use knot_virtualthing.Properties.Load.{set_thing_user_token, set_rabbit_mq_url}
use knot_virtualthing.Properties.Create.Parts.{set_user_token_lem, set_rabbit_mq_url_lem}
use knot_virtualthing.Properties.Create.WellFormed.{
  IsThing, WellFormed, strlen-strncpy, thing_open-IsThing,
}
use knot_virtualthing.Properties.Create.{
  kept, set_thing_properties, cloud_open, set_cloud_properties, credentials_open,
  set_thing_credentials, copy_credentials, properties_create_device,
}

-- What the cloud file has set.
record IsConnected (knot : Knot) (thing t : Thing) : Type 0 where
  rabbitmq_given : str_eq t.rabbitmq_url "" ≡ false
  user_token_given : str_eq t.user_token "" ≡ false
  unchanged : t ≡ record thing { rabbitmq_url = t.rabbitmq_url; user_token = t.user_token }

-- What the credentials have set.
record IsIdentified (knot : Knot) (thing t : Thing) : Type 0 where
  id_fits : strlen t.id ≤ knot.uuid_len
  token_fits : strlen t.token ≤ knot.token_len
  unchanged : t ≡ record thing { id = t.id; token = t.token }

IsIdentified-set :
    (knot : Knot) (id token : String) (thing : Thing)
    → IsIdentified knot thing (device_set_thing_credentials knot id token thing)
unfolding device_set_thing_credentials
IsIdentified-set knot id token thing = record {
  id_fits = strlen-strncpy knot.uuid_len id;
  token_fits = strlen-strncpy knot.token_len token;
  unchanged = refl;
}

copy_credentials-IsIdentified :
    (knot : Knot) (id token : Option String) (thing t : Thing)
    → copy_credentials knot id token thing ≡ some t
    → IsIdentified knot thing t
copy_credentials-IsIdentified knot (some id) (some token) thing t h =
    let e : device_set_thing_credentials knot id token thing ≡ t = cc in
    rw (← e) (IsIdentified-set knot id token thing)
copy_credentials-IsIdentified knot none token thing t h = absurd (cc)
copy_credentials-IsIdentified knot (some id) none thing t h = absurd (cc)

WellFormed-three :
    (knot : Knot) (t1 t2 t3 : Thing)
    → IsThing knot t1
    → IsConnected knot t1 t2
    → IsIdentified knot t2 t3
    → WellFormed knot t3
WellFormed-three knot t1 t2 t3 a b c =
    let name : t3.name ≡ t1.name =
      ap (λ (t : Thing). t.name) c.unchanged ∙ ap (λ (t : Thing). t.name) b.unchanged in
    let id : t3.modbus_slave_id ≡ t1.modbus_slave_id =
      ap (λ (t : Thing). t.modbus_slave_id) c.unchanged
      ∙ ap (λ (t : Thing). t.modbus_slave_id) b.unchanged in
    let url : t3.modbus_slave_url ≡ t1.modbus_slave_url =
      ap (λ (t : Thing). t.modbus_slave_url) c.unchanged
      ∙ ap (λ (t : Thing). t.modbus_slave_url) b.unchanged in
    let items : t3.data_items ≡ t1.data_items =
      ap (λ (t : Thing). t.data_items) c.unchanged ∙ ap (λ (t : Thing). t.data_items) b.unchanged in
    let rabbitmq : t3.rabbitmq_url ≡ t2.rabbitmq_url =
      ap (λ (t : Thing). t.rabbitmq_url) c.unchanged in
    let user : t3.user_token ≡ t2.user_token = ap (λ (t : Thing). t.user_token) c.unchanged in
    record {
      is_thing = record {
        name_fits = rw name a.name_fits;
        name_given = rw name a.name_given;
        slave_low = rw id a.slave_low;
        slave_high = rw id a.slave_high;
        url_given = rw url a.url_given;
        items = rw items a.items;
      };
      rabbitmq_given = rw rabbitmq b.rabbitmq_given;
      user_token_given = rw user b.user_token_given;
      id_fits = c.id_fits;
      token_fits = c.token_fits;
    }

module _ (l : LSettings) (sys : System) (knot : Knot) (junk : Value) where
  set_thing_properties-IsThing :
      (filename : String) (thing : Thing) (st : Store l)
      → thing.data_items ≡ []
      → is_neg (set_thing_properties l sys knot junk filename thing st).0 ≡ false
      → IsThing knot (set_thing_properties l sys knot junk filename thing st).1.0
  unfolding set_thing_properties
  set_thing_properties-IsThing filename thing st z h =
      let (fd, st1) = storage_open l sys filename st in
      elim (Bool-cases (is_neg fd)) [
        | inl n ↦ absurd (ground arith)
        | inr n ↦
            rw (n, set_thing_properties)
              (thing_open-IsThing l sys knot junk (fd_of fd) thing st1 z (ground arith))
      ]

  cloud_open-IsConnected :
      (fd : ℕ) (thing : Thing) (st : Store l)
      → is_neg (cloud_open l sys knot junk fd thing st).0 ≡ false
      → IsConnected knot thing (cloud_open l sys knot junk fd thing st).1.0
  unfolding cloud_open
  cloud_open-IsConnected fd thing st h =
      let one = kept thing (set_rabbit_mq_url l knot fd st thing) in
      let two = kept one.1 (set_thing_user_token l knot fd st one.1) in
      elim (Bool-cases (is_neg one.0)) [
        | inl n ↦ absurd (ground arith)
        | inr n ↦
            let n' : is_neg two.0 ≡ false = ground arith in
            let (a, f1) = set_rabbit_mq_url_lem l knot junk fd st thing n in
            let (b, f2) = set_user_token_lem l knot junk fd st one.1 n' in
            let url : two.1.rabbitmq_url ≡ one.1.rabbitmq_url =
              ap (λ (t : Thing). t.rabbitmq_url) f2 in
            rw (n, cloud_open)
              (record { rabbitmq_given = rw url a; user_token_given = b; unchanged = cc })
      ]

  set_cloud_properties-IsConnected :
      (filename : String) (thing : Thing) (st : Store l)
      → is_neg (set_cloud_properties l sys knot junk filename thing st).0 ≡ false
      → IsConnected knot thing (set_cloud_properties l sys knot junk filename thing st).1.0
  unfolding set_cloud_properties
  set_cloud_properties-IsConnected filename thing st h =
      let (fd, st1) = storage_open l sys filename st in
      elim (Bool-cases (is_neg fd)) [
        | inl n ↦ absurd (ground arith)
        | inr n ↦
            rw (n, set_cloud_properties)
              (cloud_open-IsConnected (fd_of fd) thing st1 (ground arith))
      ]

  credentials_open-IsIdentified :
      (fd : ℕ) (thing : Thing) (st : Store l) (rc : ℤ) (t : Thing) (st' : Store l)
      → credentials_open l sys knot junk fd thing st ≡ some (rc, (t, st'))
      → IsIdentified knot thing t
  unfolding credentials_open
  credentials_open-IsIdentified fd thing st rc t st' h =
      let id = storage_read_key_string l fd credentials_group credentials_thing_id st in
      let token = storage_read_key_string l fd credentials_group credentials_thing_token st in
      elim (Option-cases (copy_credentials knot id token thing)) [
        | inl e ↦ absurd (ground (arith, e))
        | inr (t', e) ↦
            let same : t' ≡ t = ground (arith, e) in
            copy_credentials-IsIdentified knot id token thing t (e ∙ ap some same)
      ]

  set_thing_credentials-IsIdentified :
      (filename : String) (thing : Thing) (st : Store l) (rc : ℤ) (t : Thing) (st' : Store l)
      → set_thing_credentials l sys knot junk filename thing st ≡ some (rc, (t, st'))
      → is_neg rc ≡ false
      → IsIdentified knot thing t
  unfolding set_thing_credentials
  set_thing_credentials-IsIdentified filename thing st rc t st' h n =
      let (fd, st1) = storage_open l sys filename st in
      elim (Bool-cases (is_neg fd)) [
        | inl neg ↦ absurd (ground arith)
        | inr neg ↦ credentials_open-IsIdentified (fd_of fd) thing st1 rc t st' (ground arith)
      ]

  -- If the creation of a device from its three files returns without a negative code, starting from a
  -- thing with no data items, the thing is well formed: its name is not empty and fits into its
  -- field, the slave's number lies between 0 and 255 and its address is not empty, each data item has
  -- a schema and an event that the protocol accepts, a name that fits and a source that can be read
  -- for its type, no two data items have the same sensor id, the broker's address and the user's
  -- token are not empty, and the id and the token fit into their fields.
  pub properties_create_device-WellFormed :
      (conf_files : DeviceSettings) (thing : Thing) (st : Store l) (rc : ℤ) (t : Thing)
      (st' : Store l)
      → properties_create_device l sys knot junk conf_files thing st ≡ some (rc, (t, st'))
      → is_neg rc ≡ false
      → thing.data_items ≡ []
      → WellFormed knot t
  unfolding properties_create_device
  properties_create_device-WellFormed conf_files thing st rc t st' h n z =
      let one = set_thing_properties l sys knot junk conf_files.device_path thing st in
      let two = set_cloud_properties l sys knot junk conf_files.cloud_path one.1.0 one.1.1 in
      elim (Bool-cases (is_neg one.0)) [
        | inl a ↦ absurd (ground arith)
        | inr a ↦ elim (Bool-cases (is_neg two.0)) [
          | inl b ↦ absurd (ground arith)
          | inr b ↦
              WellFormed-three knot one.1.0 two.1.0 t
                (set_thing_properties-IsThing conf_files.device_path thing st z a)
                (set_cloud_properties-IsConnected conf_files.cloud_path one.1.0 one.1.1 b)
                (set_thing_credentials-IsIdentified conf_files.credentials_path two.1.0 two.1.1 rc t
                  st' (ground arith) n)
        ]
      ]
