-- ===== src/Storage/Held.antt =====
-- src/storage.c: which descriptors are open, and which have settings in memory.
use knot_virtualthing.Prelude.{
  ℕ, ℤ, String, true, false, ◌≡◌, refl, Option, none, some, List, [], ◌∷◌, is_neg, fd_of, codes,
  ◌+◌, ◌++◌, arith, Bool-cases, inl, inr, ◌==◌, ==_iff, if◌then◌else◌,
}
use knot_virtualthing.Storage.{
  LSettings, System, Store, make_each, make_dirs, segments, after_slash, open_at, storage_open,
  storage_close,
}
use knot_virtualthing.Storage.Saved.{storage_list-save_settings, open_files-save_settings}
use knot_virtualthing.Storage.Access.{save_changed, change, get_data_item_groups}

-- No descriptor is open, and no settings are in memory.
pub record NothingOpen {l : LSettings} (st : Store l) : Type 0 where
  pub no_settings : (j : ℕ) → st.storage_list j ≡ none
  pub no_files : (j : ℕ) → st.open_files j ≡ none

-- `fd` has settings, and nothing else is open.
pub record OnlyOpen {l : LSettings} (fd : ℕ) (st : Store l) : Type 0 where
  pub held : (s : l.S) × (st.storage_list fd ≡ some s)
  pub no_other_settings : (j : ℕ) → (fd == j) ≡ false → st.storage_list j ≡ none
  pub no_other_files : (j : ℕ) → (fd == j) ≡ false → st.open_files j ≡ none

module _ (l : LSettings) (sys : System) where
  make_each-lists :
      (segs : List (List ℕ)) (dir : List ℕ) (st : Store l)
      → ((make_each l sys segs dir st).1.storage_list ≡ st.storage_list)
        × ((make_each l sys segs dir st).1.open_files ≡ st.open_files)
  unfolding make_each
  make_each-lists [] dir st = (refl, refl)
  make_each-lists ([] ∷ segs) dir st = make_each-lists segs dir st
  make_each-lists ((c ∷ seg) ∷ segs) dir st =
      let dir' = dir ++ (c ∷ seg) ++ b'/' ∷ [] in
      let made =
        make_each-lists segs dir' (record st { calls = st.calls + 1; dirs = dir' ∷ st.dirs }) in
      let there = make_each-lists segs dir' (record st { calls = st.calls + 1 }) in ground arith

  make_dirs-lists :
      (path : String) (st : Store l)
      → ((make_dirs l sys path st).1.storage_list ≡ st.storage_list)
        × ((make_dirs l sys path st).1.open_files ≡ st.open_files)
  unfolding make_dirs
  make_dirs-lists path st =
      let lists =
        make_each-lists (segments [] (after_slash (codes path))) (b'/' ∷ [])
          (record st { calls = st.calls + 1 }) in
      ground arith

  -- The same descriptors are open and have settings in both.
  NothingOpen-lists :
      (st st' : Store l)
      → NothingOpen st
      → st'.storage_list ≡ st.storage_list
      → st'.open_files ≡ st.open_files
      → NothingOpen st'
  NothingOpen-lists st st' n a b = record {
    no_settings = λ j. rw a (n.no_settings j);
    no_files = λ j. rw b (n.no_files j);
  }

  open_at-refused :
      (path : String) (err : ℤ) (st : Store l)
      → NothingOpen st
      → is_neg (open_at l sys path (err, st)).0 ≡ true
      → NothingOpen (open_at l sys path (err, st)).1
  unfolding open_at
  open_at-refused path err st n h =
      NothingOpen-lists st (open_at l sys path (err, st)).1 n (ground arith) (ground arith)

  open_at-OnlyOpen :
      (path : String) (err : ℤ) (st : Store l)
      → NothingOpen st
      → is_neg (open_at l sys path (err, st)).0 ≡ false
      → OnlyOpen (fd_of (open_at l sys path (err, st)).0) (open_at l sys path (err, st)).1
  unfolding open_at
  open_at-OnlyOpen path err st n h =
      let fd = sys.descriptor st.calls in
      let here : (fd == fd) ≡ true = (==_iff fd fd).1 refl in
      elim (Bool-cases (is_neg err)) [
        | inl a ↦ absurd (ground arith)
        | inr a ↦ elim (Bool-cases (sys.errno st.calls == 0)) [
          | inr b ↦ absurd (ground arith)
          | inl b ↦
              rw (a, b, open_at)
                (record {
                  held = (l.load (st.files path), rw here);
                  no_other_settings = λ j e. rw e (n.no_settings j);
                  no_other_files = λ j e. rw e (n.no_files j);
                })
        ]
      ]

  pub storage_open-refused :
      (path : String) (st : Store l)
      → NothingOpen st
      → is_neg (storage_open l sys path st).0 ≡ true
      → NothingOpen (storage_open l sys path st).1
  unfolding storage_open
  storage_open-refused path st n h =
      let (err, st1) = make_dirs l sys path st in
      let (a, b) = make_dirs-lists path st in
      open_at-refused path err st1 (NothingOpen-lists st st1 n a b) h

  pub storage_open-OnlyOpen :
      (path : String) (st : Store l)
      → NothingOpen st
      → is_neg (storage_open l sys path st).0 ≡ false
      → OnlyOpen (fd_of (storage_open l sys path st).0) (storage_open l sys path st).1
  unfolding storage_open
  storage_open-OnlyOpen path st n h =
      let (err, st1) = make_dirs l sys path st in
      let (a, b) = make_dirs-lists path st in
      open_at-OnlyOpen path err st1 (NothingOpen-lists st st1 n a b) h

  pub storage_close-NothingOpen :
      (fd : ℕ) (st : Store l) → OnlyOpen fd st → NothingOpen (storage_close l sys fd st).1
  unfolding storage_close
  storage_close-NothingOpen fd st o =
      rw (o.held.1, storage_close)
        (record {
          no_settings = λ j. elim (Bool-cases (fd == j)) [
            | inl e ↦ rw e
            | inr e ↦ rw e (o.no_other_settings j e)
          ];
          no_files = λ j. elim (Bool-cases (fd == j)) [
            | inl e ↦ rw e
            | inr e ↦ rw e (o.no_other_files j e)
          ];
        })

  put-OnlyOpen :
      (fd : ℕ) (s : l.S) (st st' : Store l)
      → OnlyOpen fd st
      → st'.storage_list ≡ (λ j. if fd == j then some s else st.storage_list j)
      → st'.open_files ≡ st.open_files
      → OnlyOpen fd st'
  put-OnlyOpen fd s st st' o a b = record {
    held = (s, rw (a, (==_iff fd fd).1 refl));
    no_other_settings = λ j e. rw (a, e) (o.no_other_settings j e);
    no_other_files = λ j e. rw b (o.no_other_files j e);
  }

  pub save_changed-OnlyOpen :
      (fd : ℕ) (new : Option l.S) (st : Store l)
      → OnlyOpen fd st
      → OnlyOpen fd (save_changed l sys fd new st).1
  unfolding save_changed
  save_changed-OnlyOpen fd none st o = o
  save_changed-OnlyOpen fd (some s) st o =
      put-OnlyOpen fd s st _ o (storage_list-save_settings l sys fd s _)
        (open_files-save_settings l sys fd s _)

  pub change-OnlyOpen :
      (missing fd : ℕ) (f : l.S → Option l.S) (st : Store l)
      → OnlyOpen fd st
      → OnlyOpen fd (change l sys missing fd f st).1
  unfolding change
  change-OnlyOpen missing fd f st o =
      rw (o.held.1, change) (save_changed-OnlyOpen fd (f o.held.0) st o)

  pub get_data_item_groups-OnlyOpen :
      (fd : ℕ) (st : Store l) → OnlyOpen fd st → OnlyOpen fd (get_data_item_groups l fd st).1
  unfolding get_data_item_groups
  get_data_item_groups-OnlyOpen fd st o =
      rw (o.held.1, get_data_item_groups) (put-OnlyOpen fd _ st _ o refl refl)
