-- ===== src/Properties/Closed/Operations.antt =====
-- src/properties.c: sequences of its four operations.
use knot_virtualthing.Prelude.{ℤ, String, some, ◌≡◌}
use knot_virtualthing.Protocol.{Value, Config, Knot}
use knot_virtualthing.Storage.{LSettings, System, Store}
use knot_virtualthing.Storage.Held.{NothingOpen}
use knot_virtualthing.Thing.{Thing, DeviceSettings}
use knot_virtualthing.Properties.Credentials.{
  properties_clear_credentials, properties_store_credentials,
}
use knot_virtualthing.Properties.Update.{properties_update_data_item}
use knot_virtualthing.Properties.Create.{properties_create_device}
use knot_virtualthing.Properties.Closed.Updates.{
  store_credentials-NothingOpen, clear_credentials-NothingOpen, update_data_item-NothingOpen,
}
use knot_virtualthing.Properties.Closed.Loads.{create_device-NothingOpen}

-- One operation of src/properties.h that returns, with the files and descriptors after it.
pub data Operation (l : LSettings) (sys : System) (knot : Knot) (st : Store l)
    : Store l → Type 0 where
  store_credentials :
      {st' : Store l} (filename id token : String) (rc : ℤ)
      → properties_store_credentials l sys knot filename id token st ≡ (rc, st')
      → Operation l sys knot st st'
  clear_credentials :
      {st' : Store l} (filename : String) (thing thing' : Thing) (rc : ℤ)
      → properties_clear_credentials l sys filename (thing, st) ≡ (rc, thing', st')
      → Operation l sys knot st st'
  update_data_item :
      {st' : Store l} (filename : String) (config : Config) (thing thing' : Thing) (rc : ℤ)
      → properties_update_data_item l sys knot filename config (thing, st) ≡ some (rc, thing', st')
      → Operation l sys knot st st'
  create_device :
      {st' : Store l} (junk : Value) (conf_files : DeviceSettings) (thing thing' : Thing) (rc : ℤ)
      → properties_create_device l sys knot junk conf_files thing st ≡ some (rc, (thing', st'))
      → Operation l sys knot st st'

-- any number of them, one after the other
pub data Operations (l : LSettings) (sys : System) (knot : Knot) : Store l → Store l → Type 0 where
  done : {st : Store l} → Operations l sys knot st st
  next :
      {st st' st'' : Store l}
      → Operation l sys knot st st'
      → Operations l sys knot st' st''
      → Operations l sys knot st st''

module _ (l : LSettings) (sys : System) (knot : Knot) where
  Operation-NothingOpen :
      (st st' : Store l) → Operation l sys knot st st' → NothingOpen st → NothingOpen st'
  Operation-NothingOpen st st' (store_credentials filename id token rc h) n =
      let same : (properties_store_credentials l sys knot filename id token st).1 ≡ st' = cc in
      rw (← same) (store_credentials-NothingOpen l sys knot filename id token st n)
  Operation-NothingOpen st st' (clear_credentials filename thing thing' rc h) n =
      let same : (properties_clear_credentials l sys filename (thing, st)).2 ≡ st' = cc in
      rw (← same) (clear_credentials-NothingOpen l sys knot filename thing st n)
  Operation-NothingOpen st st' (update_data_item filename config thing thing' rc h) n =
      update_data_item-NothingOpen l sys knot filename config thing st rc thing' st' h n
  Operation-NothingOpen st st' (create_device junk conf_files thing thing' rc h) n =
      create_device-NothingOpen l sys knot junk conf_files thing st rc thing' st' h n

  -- Whatever operations of src/properties.h run one after the other, each until it returns, with any
  -- code, and whichever system calls fail: if no descriptor is open and no settings are in memory
  -- before them, then none are after them.
  pub Operations-NothingOpen :
      (st st' : Store l) → Operations l sys knot st st' → NothingOpen st → NothingOpen st'
  Operations-NothingOpen st _ done n = n
  Operations-NothingOpen st st' (next {st' = st1} o os) n =
      Operations-NothingOpen st1 st' os (Operation-NothingOpen st st1 o n)
