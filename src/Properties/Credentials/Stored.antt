-- ===== src/Properties/Credentials/Stored.antt =====
-- What src/properties.c leaves of the credentials in their file.
use knot_virtualthing.Prelude.{
  fd_of, ℕ, pos, String, true, false, ◌≡◌, refl, Option, none, some, arith, strlen, ltb, is_neg,
  ◌==◌, ==_iff, inl, inr, Bool-cases,
}
use knot_virtualthing.Protocol.{Knot}
use knot_virtualthing.Storage.{
  LSettings, SettingsLaws, System, Store, update, save_settings, storage_open,
}
use knot_virtualthing.Storage.Saved.{
  storage_open_lem, files-storage_close, saved, storage_list-save_settings,
  open_files-save_settings,
}
use knot_virtualthing.Storage.Access.{storage_write_key_string, change, save_changed}
use knot_virtualthing.Properties.Credentials.{
  credentials_group, credentials_thing_id, credentials_thing_token, store_open,
  properties_store_credentials,
}

-- the credentials that the text of a file holds
abbrev pub KeepsCredentials : (l : LSettings) → l.Text → String → String → Type 0
KeepsCredentials l text id token =
    (l.get_string (l.load text) credentials_group credentials_thing_id ≡ some id)
    × (l.get_string (l.load text) credentials_group credentials_thing_token ≡ some token)

module _ (l : LSettings) (laws : SettingsLaws l) (sys : System) where
  -- A write that returns 0: the settings that it made, in memory and in the file.
  pub record Wrote (fd : ℕ) (path g k v : String) (st st' : Store l) : Type 0 where
    pub before : l.S
    pub after : l.S
    pub was : st.storage_list fd ≡ some before
    pub set : l.set_string before g k v ≡ some after
    pub listed : st'.storage_list fd ≡ some after
    pub opened : st'.open_files fd ≡ some path
    pub file : st'.files path ≡ l.to_data after

  save_changed-Wrote :
      (fd : ℕ) (path g k v : String) (s : l.S) (t : Option l.S) (st : Store l)
      → st.storage_list fd ≡ some s
      → st.open_files fd ≡ some path
      → l.set_string s g k v ≡ t
      → (save_changed l sys fd t st).0 ≡ pos 0
      → Wrote fd path g k v st (save_changed l sys fd t st).1
  unfolding save_changed
  save_changed-Wrote fd path g k v s none st a b c d = cc
  save_changed-Wrote fd path g k v s (some u) st a b c d =
      let st1 = record st { storage_list = update st.storage_list fd (some u) } in
      let here : (fd == fd) ≡ true = (==_iff fd fd).1 refl in
      record {
        before = s;
        after = u;
        was = a;
        set = c;
        listed = rw (storage_list-save_settings l sys fd u st1) (rw here);
        opened = rw (open_files-save_settings l sys fd u st1) b;
        file = saved l sys fd u st1 path b d;
      }

  pub wrote :
      (fd : ℕ) (path g k v : String) (s : l.S) (st : Store l)
      → st.storage_list fd ≡ some s
      → st.open_files fd ≡ some path
      → (storage_write_key_string l sys fd g k v st).0 ≡ pos 0
      → Wrote fd path g k v st (storage_write_key_string l sys fd g k v st).1
  unfolding storage_write_key_string change
  wrote fd path g k v s st a b =
      rw (a, storage_write_key_string, change)
        (save_changed-Wrote fd path g k v s (l.set_string s g k v) st a b refl)

  write_zero :
      (fd : ℕ) (g k v : String) (st : Store l)
      → is_neg (storage_write_key_string l sys fd g k v st).0 ≡ false
      → (storage_write_key_string l sys fd g k v st).0 ≡ pos 0
  unfolding storage_write_key_string change save_settings
  write_zero fd g k v st h = ground arith

  both-Wrote :
      (fd : ℕ) (path id token : String) (st st1 st2 : Store l)
      → Wrote fd path credentials_group credentials_thing_token token st st1
      → Wrote fd path credentials_group credentials_thing_id id st1 st2
      → KeepsCredentials l (st2.files path) id token
  both-Wrote fd path id token st st1 st2 a b =
      let same : b.before ≡ a.after = cc in
      (
        rw
            (
              b.file,
              laws.load-to_data,
              laws.get-set b.before b.after credentials_group credentials_thing_id credentials_group
                  credentials_thing_id id b.set,
            )
            refl,
        rw
            (
              b.file,
              laws.load-to_data,
              laws.get-set b.before b.after credentials_group credentials_thing_id credentials_group
                  credentials_thing_token id b.set,
              same,
              laws.get-set a.before a.after credentials_group credentials_thing_token
                  credentials_group credentials_thing_token token a.set,
            )
            refl,
      )

  -- Two writes that return no error leave the id and the token in the file.
  pub store_both :
      (fd : ℕ) (path id token : String) (s : l.S) (st : Store l)
      → st.storage_list fd ≡ some s
      → st.open_files fd ≡ some path
      → let (rc, st1) =
          storage_write_key_string l sys fd credentials_group credentials_thing_token token st in
        let (rc', st2) =
          storage_write_key_string l sys fd credentials_group credentials_thing_id id st1 in
        is_neg rc ≡ false → is_neg rc' ≡ false → KeepsCredentials l (st2.files path) id token
  store_both fd path id token s st a b n n' =
      let one =
        wrote fd path credentials_group credentials_thing_token token s st a b
          (write_zero fd credentials_group credentials_thing_token token st n) in
      let st1 =
        (storage_write_key_string l sys fd credentials_group credentials_thing_token token st).1 in
      let two =
        wrote fd path credentials_group credentials_thing_id id one.after st1 one.listed one.opened
          (write_zero fd credentials_group credentials_thing_id id st1 n') in
      both-Wrote fd path id token st st1
        (storage_write_key_string l sys fd credentials_group credentials_thing_id id st1).1 one two

  store_open_lem :
      (fd : ℕ) (path id token : String) (s : l.S) (st : Store l)
      → st.storage_list fd ≡ some s
      → st.open_files fd ≡ some path
      → (store_open l sys fd id token st).0 ≡ pos 0
      → KeepsCredentials l ((store_open l sys fd id token st).1.files path) id token
  unfolding store_open
  store_open_lem fd path id token s st a b h =
      let st1 =
        (storage_write_key_string l sys fd credentials_group credentials_thing_token token st).1 in
      elim (Bool-cases (
        is_neg
          (storage_write_key_string l sys fd credentials_group credentials_thing_token token
            st).0)) [
              | inl n ↦ ground arith
              | inr n ↦
                  elim (Bool-cases (
                    is_neg
                      (storage_write_key_string l sys fd credentials_group credentials_thing_id id
                        st1).0)) [
                          | inl n' ↦ ground arith
                          | inr n' ↦
                              rw (store_open, n, n', files-storage_close l sys)
                                (store_both fd path id token s st a b n n')
                        ]
            ]

  -- Where properties_store_credentials returns 0, a program that loads the file again finds the id
  -- and the token there.
  pub store_credentials_kept :
      (knot : Knot) (path id token : String) (st : Store l)
      → (properties_store_credentials l sys knot path id token st).0 ≡ pos 0
      → KeepsCredentials l
          ((properties_store_credentials l sys knot path id token st).1.files path)
          id
          token
  unfolding properties_store_credentials
  store_credentials_kept knot path id token st h =
      let (fd, st1) = storage_open l sys path st in
      elim (Bool-cases (ltb knot.token_len (strlen token))) [
        | inl n ↦ ground arith
        | inr n ↦ elim (Bool-cases (is_neg (storage_open l sys path st).0)) [
          | inl n' ↦ ground arith
          | inr n' ↦
              let (s, listed, opened) = storage_open_lem l sys path st n' in
              let h' : (store_open l sys (fd_of fd) id token st1).0 ≡ pos 0 = ground arith in
              rw (properties_store_credentials, n, n')
                (store_open_lem (fd_of fd) path id token s st1 listed opened h')
        ]
      ]
