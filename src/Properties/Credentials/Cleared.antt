-- ===== src/Properties/Credentials/Cleared.antt =====
-- What src/properties.c leaves of the credentials where the thing forgets them.
use knot_virtualthing.Prelude.{
  fd_of, ℕ, pos, String, ◌≡◌, refl, some, arith, is_neg, inl, inr, Bool-cases,
}
use knot_virtualthing.Storage.{LSettings, SettingsLaws, System, Store, storage_open}
use knot_virtualthing.Storage.Saved.{storage_open_lem, files-storage_close}
use knot_virtualthing.Storage.Access.{storage_write_key_string}
use knot_virtualthing.Thing.{Thing, device_clear_thing_id, device_clear_thing_token}
use knot_virtualthing.Properties.Credentials.{
  credentials_group, credentials_thing_id, credentials_thing_token, clear_open, erase_thing_id,
  erase_thing_token, properties_clear_credentials,
}
use knot_virtualthing.Properties.Credentials.Stored.{KeepsCredentials, store_both}

module _ (l : LSettings) (laws : SettingsLaws l) (sys : System) where
  clear_open_lem :
      (fd : ℕ) (path : String) (s : l.S) (thing : Thing) (st : Store l)
      → st.storage_list fd ≡ some s
      → st.open_files fd ≡ some path
      → (clear_open l sys fd (thing, st)).0 ≡ pos 0
      → let (rc, thing', st') = clear_open l sys fd (thing, st) in
        KeepsCredentials l (st'.files path) "" ""
        × (thing' ≡ device_clear_thing_id (device_clear_thing_token thing))
  unfolding clear_open erase_thing_id erase_thing_token
  clear_open_lem fd path s thing st a b h =
      let st1 =
        (storage_write_key_string l sys fd credentials_group credentials_thing_token "" st).1 in
      elim (Bool-cases (
        is_neg
          (storage_write_key_string l sys fd credentials_group credentials_thing_token "" st).0)) [
            | inl n ↦ ground arith
            | inr n ↦
                elim (Bool-cases (
                  is_neg
                    (storage_write_key_string l sys fd credentials_group credentials_thing_id ""
                      st1).0)) [
                        | inl n' ↦ ground arith
                        | inr n' ↦
                            rw
                              (
                                clear_open,
                                erase_thing_id,
                                erase_thing_token,
                                n,
                                n',
                                files-storage_close l sys,
                              )
                              (store_both l laws sys fd path "" "" s st a b n n', refl)
                      ]
          ]

  -- Where properties_clear_credentials returns 0, both credentials are empty texts in the file, and
  -- the thing has neither an id nor a token and is otherwise as before.
  pub clear_credentials_cleared :
      (path : String) (thing : Thing) (st : Store l)
      → (properties_clear_credentials l sys path (thing, st)).0 ≡ pos 0
      → let (rc, thing', st') = properties_clear_credentials l sys path (thing, st) in
        KeepsCredentials l (st'.files path) "" ""
        × (thing' ≡ device_clear_thing_id (device_clear_thing_token thing))
  unfolding properties_clear_credentials
  clear_credentials_cleared path thing st h =
      let (fd, st1) = storage_open l sys path st in
      elim (Bool-cases (is_neg (storage_open l sys path st).0)) [
        | inl n ↦ ground arith
        | inr n ↦
            let (s, listed, opened) = storage_open_lem l sys path st n in
            let h' : (clear_open l sys (fd_of fd) (thing, st1)).0 ≡ pos 0 = ground arith in
            rw (properties_clear_credentials, n)
              (clear_open_lem (fd_of fd) path s thing st1 listed opened h')
      ]
