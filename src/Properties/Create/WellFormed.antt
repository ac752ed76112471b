-- ===== src/Properties/Create/WellFormed.antt =====
-- The things that src/properties.c loads.

use knot_virtualthing.Prelude.{
  ℕ, ◌<◌, ◌≤◌, pos, String, false, ◌≡◌, refl, ap, ◌∙◌, Option, none, some, List, [], ◌∷◌, is_neg,
  strlen, str_eq, ltb_ℤ, arith, Bool-cases, Option-cases, inl, inr, strncpy, zero, suc,
}
use knot_virtualthing.Protocol.{Value, Knot}
use knot_virtualthing.Storage.{LSettings, System, Store}
use knot_virtualthing.Storage.Access.{get_data_item_groups}
use knot_virtualthing.Thing.{DeviceSettings, Thing, DataItem, lookup_item}
use knot_virtualthing.Properties.Create.Parts.{
  IsItem, load_item-IsItem, set_thing_name_lem, set_slave_lem,
}
use knot_virtualthing.Properties.Load.{set_thing_name, set_modbus_slave_properties}
use knot_virtualthing.Properties.Create.{
  kept, load_item, load_items, set_data_items, insert_item, device_set_new_data_item, thing_open,
}

-- The items are valid, and no two have the same sensor id.
abbrev pub AreItems : Knot → List DataItem → Type 0
AreItems knot [] = Unit
AreItems knot (i ∷ items) =
    IsItem knot i × (lookup_item i.sensor_id items ≡ none) × AreItems knot items

-- What the device file holds of the thing: the names fit into their fields, the slave has a number
-- that Modbus knows and an address, and the items are valid.
pub record IsThing (knot : Knot) (thing : Thing) : Type 0 where
  pub name_fits : strlen thing.name < knot.device_name_len
  pub name_given : str_eq thing.name "" ≡ false
  pub slave_low : ltb_ℤ thing.modbus_slave_id (pos 0) ≡ false
  pub slave_high : ltb_ℤ (pos 255) thing.modbus_slave_id ≡ false
  pub url_given : str_eq thing.modbus_slave_url "" ≡ false
  pub items : AreItems knot thing.data_items

-- Together with the cloud file and the credentials.
pub record WellFormed (knot : Knot) (thing : Thing) : Type 0 where
  pub is_thing : IsThing knot thing
  pub rabbitmq_given : str_eq thing.rabbitmq_url "" ≡ false
  pub user_token_given : str_eq thing.user_token "" ≡ false
  pub id_fits : strlen thing.id ≤ knot.uuid_len
  pub token_fits : strlen thing.token ≤ knot.token_len

-- The paths of the files do not count.
pub WellFormed-files :
    (knot : Knot) (thing : Thing) (conf_files : DeviceSettings)
    → WellFormed knot thing
    → WellFormed knot (record thing { conf_files = conf_files })
WellFormed-files knot thing conf_files f = record {
  is_thing = record {
    name_fits = f.is_thing.name_fits;
    name_given = f.is_thing.name_given;
    slave_low = f.is_thing.slave_low;
    slave_high = f.is_thing.slave_high;
    url_given = f.is_thing.url_given;
    items = f.is_thing.items;
  };
  rabbitmq_given = f.rabbitmq_given;
  user_token_given = f.user_token_given;
  id_fits = f.id_fits;
  token_fits = f.token_fits;
}

pub strlen-strncpy : (n : ℕ) (s : String) → strlen (strncpy n s) ≤ n
strlen-strncpy zero s = omega arith
strlen-strncpy (suc n) String.[] = omega arith
strlen-strncpy (suc n) (String.◌∷◌ c s) = omega (arith, strlen-strncpy n s)

module _ (l : LSettings) (knot : Knot) (junk : Value) where
  load_items-AreItems :
      (fd : ℕ) (groups : List String) (thing : Thing) (st : Store l)
      → is_neg (load_items l knot junk fd groups thing st).0 ≡ false
      → AreItems knot thing.data_items
      → let t = (load_items l knot junk fd groups thing st).1 in
        AreItems knot t.data_items × (t ≡ record thing { data_items = t.data_items })
  unfolding load_items device_set_new_data_item
  load_items-AreItems fd [] thing st h a = (a, refl)
  load_items-AreItems fd (g ∷ groups) thing st h a =
      elim (Option-cases (load_item l knot junk fd g thing st).1) [
        | inl e ↦ absurd (cc)
        | inr (i, e) ↦
            let code = (load_item l knot junk fd g thing st).0 in
            let (valid, new) =
              load_item-IsItem l knot junk fd st g thing code i
                (ap (λ (o : Option DataItem). (code, o)) e) in
            let h' : is_neg (load_items l knot junk fd groups (insert_item (some i) thing) st).0
                ≡ false =
              cc in
            rw e (load_items-AreItems fd groups (insert_item (some i) thing) st h' (valid, new, a))
      ]

  set_data_items-AreItems :
      (fd : ℕ) (thing : Thing) (st : Store l)
      → is_neg (set_data_items l knot junk fd thing st).0 ≡ false
      → AreItems knot thing.data_items
      → let t = (set_data_items l knot junk fd thing st).1.0 in
        AreItems knot t.data_items × (t ≡ record thing { data_items = t.data_items })
  unfolding set_data_items
  set_data_items-AreItems fd thing st h a =
      let st1 = (get_data_item_groups l fd st).1 in
      elim (Option-cases (get_data_item_groups l fd st).0) [
        | inl e ↦ absurd (cc)
        | inr (gs, e) ↦
            let h' : is_neg (load_items l knot junk fd gs thing st1).0 ≡ false = cc in
            rw (e, set_data_items) (load_items-AreItems fd gs thing st1 h' a)
      ]

IsThing-three :
    (knot : Knot) (t1 t2 t3 : Thing)
    → strlen t1.name < knot.device_name_len
    → str_eq t1.name "" ≡ false
    → ltb_ℤ t2.modbus_slave_id (pos 0) ≡ false
    → ltb_ℤ (pos 255) t2.modbus_slave_id ≡ false
    → str_eq t2.modbus_slave_url "" ≡ false
    → t2
      ≡ record t1 { modbus_slave_id = t2.modbus_slave_id; modbus_slave_url = t2.modbus_slave_url }
    → AreItems knot t3.data_items
    → t3 ≡ record t2 { data_items = t3.data_items }
    → IsThing knot t3
IsThing-three knot t1 t2 t3 a b c d e f g h =
    let name : t3.name ≡ t1.name = ap (λ (t : Thing). t.name) h ∙ ap (λ (t : Thing). t.name) f in
    let id : t3.modbus_slave_id ≡ t2.modbus_slave_id = ap (λ (t : Thing). t.modbus_slave_id) h in
    let url : t3.modbus_slave_url ≡ t2.modbus_slave_url =
      ap (λ (t : Thing). t.modbus_slave_url) h in
    record {
      name_fits = rw name a;
      name_given = rw name b;
      slave_low = rw id c;
      slave_high = rw id d;
      url_given = rw url e;
      items = g;
    }

module _ (l : LSettings) (sys : System) (knot : Knot) (junk : Value) where
  pub thing_open-IsThing :
      (fd : ℕ) (thing : Thing) (st : Store l)
      → thing.data_items ≡ []
      → is_neg (thing_open l sys knot junk fd thing st).0 ≡ false
      → IsThing knot (thing_open l sys knot junk fd thing st).1.0
  unfolding thing_open
  thing_open-IsThing fd thing st z h =
      let one = kept thing (set_thing_name l knot fd st thing) in
      let two = kept one.1 (set_modbus_slave_properties l knot fd st one.1) in
      elim (Bool-cases (is_neg one.0)) [
        | inl n ↦ absurd (ground arith)
        | inr n ↦ elim (Bool-cases (is_neg two.0)) [
          | inl n' ↦ absurd (ground arith)
          | inr n' ↦
              let items : is_neg (set_data_items l knot junk fd two.1 st).0 ≡ false =
                ground arith in
              let (a, b, f1) = set_thing_name_lem l knot junk fd st thing n in
              let (c, d, e, f2) = set_slave_lem l knot junk fd st one.1 n' in
              let same : two.1.data_items ≡ thing.data_items =
                ap (λ (t : Thing). t.data_items) f2 ∙ ap (λ (t : Thing). t.data_items) f1 in
              let (g, f3) =
                set_data_items-AreItems l knot junk fd two.1 st items (rw (same ∙ z) tt) in
              rw (n, n', thing_open) (IsThing-three knot one.1 two.1 _ a b c d e f2 g f3)
        ]
      ]
