-- ===== src/Storage/Saved.antt =====
-- What src/storage.c leaves in a file.
use knot_virtualthing.Prelude.{
  is_neg, ==_iff, fd_of, ℕ, ◌+◌, ℤ, pos, String, true, false, not, ◌≡◌, refl, some, eq_iff, arith,
  if◌then◌else◌, ◌==◌,
}
use knot_virtualthing.Storage.{
  LSettings, System, Store, save_settings, open_at, storage_open, storage_close, make_dirs,
}

module _ (l : LSettings) (sys : System) where
  -- A save that succeeds leaves the settings in the file, and one that fails leaves the old text or,
  -- where pwrite failed after ftruncate, an empty file.
  pub files-save_settings :
      (fd : ℕ) (s : l.S) (st : Store l) (path : String)
      → st.open_files fd ≡ some path
      → let (rc, st') = save_settings l sys fd s st in
        st'.files path ≡ (
          if not (sys.errno st.calls == 0)
          then st.files path
          else if not (sys.errno (st.calls + 1) == 0)
          then l.empty_text
          else l.to_data s)
  unfolding save_settings
  files-save_settings fd s st path h = ground (arith, eq_iff path path)

  -- the settings in memory are those that were saved
  pub storage_list-save_settings :
      (fd : ℕ) (s : l.S) (st : Store l)
      → (save_settings l sys fd s st).1.storage_list ≡ st.storage_list
  unfolding save_settings
  storage_list-save_settings fd s st = ground arith

  pub open_files-save_settings :
      (fd : ℕ) (s : l.S) (st : Store l) → (save_settings l sys fd s st).1.open_files ≡ st.open_files
  unfolding save_settings
  open_files-save_settings fd s st = ground arith

  -- A save that returns 0 has put the settings into the file.
  pub saved :
      (fd : ℕ) (s : l.S) (st : Store l) (path : String)
      → st.open_files fd ≡ some path
      → (save_settings l sys fd s st).0 ≡ pos 0
      → (save_settings l sys fd s st).1.files path ≡ l.to_data s
  unfolding save_settings
  saved fd s st path h e = ground (arith, files-save_settings fd s st path h)

  pub opened_at :
      (path : String) (err : ℤ) (st : Store l)
      → is_neg (open_at l sys path (err, st)).0 ≡ false
      → let (rc, st') = open_at l sys path (err, st) in
        (st'.storage_list (fd_of rc) ≡ some (l.load (st.files path)))
        × (st'.open_files (fd_of rc) ≡ some path)
        × (st'.files path ≡ st.files path)
  unfolding open_at
  opened_at path err st h =
      let fd = sys.descriptor st.calls in
      let here : (fd == fd) ≡ true = (==_iff fd fd).1 refl in ground arith

  -- A descriptor that storage_open returns has settings in memory, and is open on the file.
  pub storage_open_lem :
      (path : String) (st : Store l)
      → is_neg (storage_open l sys path st).0 ≡ false
      → let (rc, st') = storage_open l sys path st in
        (s : l.S) × (st'.storage_list (fd_of rc) ≡ some s) × (st'.open_files (fd_of rc) ≡ some path)
  unfolding storage_open
  storage_open_lem path st h =
      let (err, st1) = make_dirs l sys path st in
      let found = opened_at path err st1 h in (l.load (st1.files path), found.0, found.1)

  pub files-storage_close : (fd : ℕ) (st : Store l) → (storage_close l sys fd st).1.files ≡ st.files
  unfolding storage_close
  files-storage_close fd st = ground arith
