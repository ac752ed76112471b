-- ===== src/Storage/Written.antt =====
-- src/storage.c: what a write that succeeds has changed, in memory and in the file.
use knot_virtualthing.Prelude.{
  ap, ◌∙◌, List, [], ◌∷◌, ◌++◌, ◌+◌, codes, fd_of, ℕ, pos, String, true, false, ◌≡◌, refl, Option,
  none, some, is_neg, arith, ◌==◌, ==_iff,
}
use knot_virtualthing.Storage.{
  LSettings, System, Store, update, save_settings, make_each, make_dirs, segments, after_slash,
  storage_open,
}
use knot_virtualthing.Storage.Saved.{
  opened_at, saved, storage_list-save_settings, open_files-save_settings,
}
use knot_virtualthing.Storage.Access.{change, save_changed}

module _ (l : LSettings) (sys : System) where
  -- The settings that `f` made of those before it.
  pub record Changed (f : l.S → Option l.S) (fd : ℕ) (path : String) (st st' : Store l)
      : Type 0 where
    pub before : l.S
    pub after : l.S
    pub was : st.storage_list fd ≡ some before
    pub made : f before ≡ some after
    pub listed : st'.storage_list fd ≡ some after
    pub opened : st'.open_files fd ≡ some path
    pub file : st'.files path ≡ l.to_data after

  save_zero :
      (fd : ℕ) (s : l.S) (st : Store l)
      → is_neg (save_settings l sys fd s st).0 ≡ false
      → (save_settings l sys fd s st).0 ≡ pos 0
  unfolding save_settings
  save_zero fd s st h = ground arith

  save_changed-Changed :
      (f : l.S → Option l.S) (fd : ℕ) (path : String) (s : l.S) (t : Option l.S) (st : Store l)
      → st.storage_list fd ≡ some s
      → st.open_files fd ≡ some path
      → f s ≡ t
      → is_neg (save_changed l sys fd t st).0 ≡ false
      → Changed f fd path st (save_changed l sys fd t st).1
  unfolding save_changed
  save_changed-Changed f fd path s none st a b c d = absurd (cc)
  save_changed-Changed f fd path s (some u) st a b c d =
      let st1 = record st { storage_list = update st.storage_list fd (some u) } in
      let here : (fd == fd) ≡ true = (==_iff fd fd).1 refl in
      record {
        before = s;
        after = u;
        was = a;
        made = c;
        listed = rw (storage_list-save_settings l sys fd u st1) (rw here);
        opened = rw (open_files-save_settings l sys fd u st1) b;
        file = saved l sys fd u st1 path b (save_zero fd u st1 d);
      }

  pub changed :
      (missing fd : ℕ) (f : l.S → Option l.S) (path : String) (s : l.S) (st : Store l)
      → st.storage_list fd ≡ some s
      → st.open_files fd ≡ some path
      → is_neg (change l sys missing fd f st).0 ≡ false
      → Changed f fd path st (change l sys missing fd f st).1
  unfolding change
  changed missing fd f path s st a b =
      rw (a, change) (save_changed-Changed f fd path s (f s) st a b refl)

  make_each-files :
      (segs : List (List ℕ)) (dir : List ℕ) (st : Store l)
      → (make_each l sys segs dir st).1.files ≡ st.files
  unfolding make_each
  make_each-files [] dir st = refl
  make_each-files ([] ∷ segs) dir st = make_each-files segs dir st
  make_each-files ((c ∷ seg) ∷ segs) dir st =
      let dir' = dir ++ (c ∷ seg) ++ b'/' ∷ [] in
      let made =
        make_each-files segs dir' (record st { calls = st.calls + 1; dirs = dir' ∷ st.dirs }) in
      let there = make_each-files segs dir' (record st { calls = st.calls + 1 }) in ground arith

  make_dirs-files : (path : String) (st : Store l) → (make_dirs l sys path st).1.files ≡ st.files
  unfolding make_dirs
  make_dirs-files path st =
      let files =
        make_each-files (segments [] (after_slash (codes path))) (b'/' ∷ [])
          (record st { calls = st.calls + 1 }) in
      ground arith

  -- A descriptor that storage_open returns has the settings that the file holds.
  pub storage_open-loads :
      (path : String) (st : Store l)
      → is_neg (storage_open l sys path st).0 ≡ false
      → (storage_open l sys path st).1.storage_list (fd_of (storage_open l sys path st).0)
        ≡ some (l.load (st.files path))
  unfolding storage_open
  storage_open-loads path st h =
      let (err, st1) = make_dirs l sys path st in
      (opened_at l sys path err st1 h).0
      ∙ ap (λ (files : String → l.Text). some (l.load (files path))) (make_dirs-files path st)
