-- ===== src/Properties/Credentials.antt =====
-- src/properties.c: the credentials. The names of groups and keys are those of
-- src/conf-parameters.h. The proofs are in the children.
pub mod Stored
pub mod Cleared
use knot_virtualthing.Prelude.{
  fd_of, ℕ, ℤ, pos, String, Bool, true, false, Option, none, some, List, [], ◌∷◌, is_neg, ltb,
  strlen, if◌then◌else◌,
}
use knot_virtualthing.Protocol.{Knot}
use knot_virtualthing.Storage.{LSettings, System, Store, minus, einval, storage_open, storage_close}
use knot_virtualthing.Storage.Access.{storage_read_key_string, storage_write_key_string}
use knot_virtualthing.Thing.{
  Thing, device_clear_thing_id, device_clear_thing_token, device_set_thing_credentials,
}

abbrev pub credentials_group : String
credentials_group = "Credentials"

abbrev pub credentials_thing_id : String
credentials_thing_id = "ThingId"

abbrev pub credentials_thing_token : String
credentials_thing_token = "ThingToken"

module _ (l : LSettings) (sys : System) where
  -- `storage_close`, whose result is not read
  abbrev pub close_after : ℕ → Store l → Store l
  close_after fd st = (storage_close l sys fd st).1

  unfoldable pub erase_thing_id : ℕ → Thing × Store l → ℤ × Thing × Store l
  erase_thing_id cred_fd (thing, st) =
      let (rc, st') =
        storage_write_key_string l sys cred_fd credentials_group credentials_thing_id "" st in
      (rc, if is_neg rc then thing else device_clear_thing_id thing, st')

  unfoldable pub erase_thing_token : ℕ → Thing × Store l → ℤ × Thing × Store l
  erase_thing_token cred_fd (thing, st) =
      let (rc, st') =
        storage_write_key_string l sys cred_fd credentials_group credentials_thing_token "" st in
      (rc, if is_neg rc then thing else device_clear_thing_token thing, st')

  -- from the open descriptor on
  unfoldable pub clear_open : ℕ → Thing × Store l → ℤ × Thing × Store l
  unfolding erase_thing_id erase_thing_token
  clear_open cred_fd ts =
      let (rc, thing1, st1) = erase_thing_token cred_fd ts in
      let (rc', thing2, st2) = erase_thing_id cred_fd (thing1, st1) in
      if is_neg rc
      then (minus einval, thing1, close_after cred_fd st1)
      else if is_neg rc'
      then (minus einval, thing2, close_after cred_fd st2)
      else (rc', thing2, close_after cred_fd st2)

  unfoldable pub properties_clear_credentials : String → Thing × Store l → ℤ × Thing × Store l
  unfolding clear_open
  properties_clear_credentials filename (thing, st) =
      let (cred_fd, st1) = storage_open l sys filename st in
      if is_neg cred_fd then (cred_fd, thing, st1) else clear_open (fd_of cred_fd) (thing, st1)

  -- from the open descriptor on: where the id cannot be written, the token is taken back
  unfoldable pub store_open : ℕ → String → String → Store l → ℤ × Store l
  store_open cred_fd id token st =
      let (rc, st1) =
        storage_write_key_string l sys cred_fd credentials_group credentials_thing_token token st in
      let (rc', st2) =
        storage_write_key_string l sys cred_fd credentials_group credentials_thing_id id st1 in
      let (_, st3) =
        storage_write_key_string l sys cred_fd credentials_group credentials_thing_token "" st2 in
      if is_neg rc
      then (minus einval, close_after cred_fd st1)
      else if is_neg rc'
      then (minus einval, close_after cred_fd st3)
      else (rc', close_after cred_fd st2)

  unfoldable pub properties_store_credentials :
      Knot → String → String → String → Store l → ℤ × Store l
  unfolding store_open
  properties_store_credentials knot filename id token st =
      let (cred_fd, st1) = storage_open l sys filename st in
      if ltb knot.token_len (strlen token)
      then (minus einval, st)
      else if is_neg cred_fd
      then (cred_fd, st1)
      else store_open (fd_of cred_fd) id token st1
