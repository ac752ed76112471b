-- ===== src/Storage/Access/Groups.antt =====
-- The groups of the data items in src/storage.c: what get_data_item_groups accepts, and what it does
-- to the settings behind the descriptor.
use knot_virtualthing.Prelude.{
  ℕ, ℤ, pos, String, Bool, true, false, ◌≡◌, refl, ◌∙◌, Option, none, some, List, [], ◌∷◌, ◌++◌,
  ◌||◌, str_eq, eq_iff, codes, is_prefix, arith, if◌then◌else◌, Bool-cases, Option-cases, ◌==◌,
  ==_iff, inl, inr,
}
use knot_virtualthing.Storage.{LSettings, SettingsLaws, System, Store, update}
use knot_virtualthing.Storage.Saved.{saved}
use knot_virtualthing.Storage.Access.{
  data_item_group, matches_group, is_among, check_valid_groups, without_group, check_groups,
  get_data_item_groups, save_changed, change, storage_write_key_int,
}

-- the name begins with DataItem_
abbrev pub is_item : String → Bool
is_item g = is_prefix (codes data_item_group) (codes g)

module _ (l : LSettings) where
  last_decides :
      (gs : List String) (g : String) (err : ℤ) (s : l.S)
      → is_item g ≡ true
      → (check_groups l (gs ++ g ∷ []) err s).0 ≡ check_valid_groups g []
  unfolding check_groups
  last_decides [] g err s h = rw h
  last_decides (x ∷ gs) g err s h = last_decides gs g _ _ h

  -- Where the last group of the file is a data item with a valid name, get_data_item_groups succeeds,
  -- whatever groups stand before it: an invalid name among these goes unnoticed.
  pub last_group_decides :
      (fd : ℕ) (st : Store l) (s : l.S) (gs : List String) (g : String)
      → st.storage_list fd ≡ some s
      → l.get_groups s ≡ gs ++ g ∷ []
      → matches_group g ≡ true
      → is_item g ≡ true
      → (get_data_item_groups l fd st).0
        ≡ some (l.get_groups (check_groups l (gs ++ g ∷ []) (pos 0) s).1)
  unfolding get_data_item_groups check_valid_groups
  last_group_decides fd st s gs g h e v i =
      rw (h, get_data_item_groups) (ground (arith, e, v, last_decides gs g (pos 0) s i))

module _ (l : LSettings) (laws : SettingsLaws l) where
  get-without :
      (s : l.S) (g g' k : String)
      → l.get_string (without_group l s g) g' k
        ≡ (if str_eq g g' then none else l.get_string s g' k)
  get-without s g g' k = elim (Option-cases (l.remove_group s g)) [
    | inl e ↦ rw (e, without_group) (ground (arith, eq_iff g g', laws.get-remove_none s g k e))
    | inr (t, e) ↦ rw (e, without_group) (laws.get-remove_group s t g g' k e)
  ]

  get-step :
      (x : String) (s : l.S) (g k : String) (b : Bool)
      → is_item g ≡ false
      → (if b then none else l.get_string (if is_item x then s else without_group l s x) g k)
        ≡ (if str_eq x g || b then none else l.get_string s g k)
  get-step x s g k b h = elim (Bool-cases (is_item x)) [
    | inl e ↦ rw e (ground (arith, eq_iff x g))
    | inr e ↦ rw e (ground (arith, get-without s x g k))
  ]

  pub get-check_groups :
      (gs : List String) (err : ℤ) (s : l.S) (g k : String)
      → is_item g ≡ false
      → l.get_string (check_groups l gs err s).1 g k
        ≡ (if is_among g gs then none else l.get_string s g k)
  unfolding check_groups
  get-check_groups [] err s g k h = refl
  get-check_groups (x ∷ gs) err s g k h =
      get-check_groups gs (if is_item x then check_valid_groups x gs else err)
        (if is_item x then s else without_group l s x) g k h
      ∙ get-step x s g k (is_among g gs) h

  changed_loses :
      (sys : System) (fd : ℕ) (st : Store l) (t : Option l.S) (path g k : String)
      → st.open_files fd ≡ some path
      → ((u : l.S) → t ≡ some u → l.get_string u g k ≡ none)
      → (save_changed l sys fd t st).0 ≡ pos 0
      → l.get_string (l.load ((save_changed l sys fd t st).1.files path)) g k ≡ none
  unfolding save_changed
  changed_loses sys fd st none path g k h f e = cc
  changed_loses sys fd st (some u) path g k h f e =
      rw
        (saved l sys fd u (record st { storage_list = update st.storage_list fd (some u) }) path h
          e)
        (laws.load-to_data u g k ∙ f u refl)

  -- Reading the groups of the data items takes every other group out of the settings behind the
  -- descriptor, and a write of a number to another group then saves the file without them: if the
  -- write returns 0, a key of a group `g` that the file had, and that is no data item, is gone from
  -- the file.
  pub write_after_groups_loses :
      (sys : System) (fd : ℕ) (st : Store l) (s : l.S) (path g k group key : String) (v : ℤ)
      → st.storage_list fd ≡ some s
      → st.open_files fd ≡ some path
      → is_item g ≡ false
      → is_among g (l.get_groups s) ≡ true
      → str_eq group g ≡ false
      → (storage_write_key_int l sys fd group key v (get_data_item_groups l fd st).1).0 ≡ pos 0
      → l.get_string
          (l.load (
            (storage_write_key_int l sys fd group key v (get_data_item_groups l fd st).1).1.files
              path))
          g
          k
        ≡ none
  unfolding get_data_item_groups storage_write_key_int change
  write_after_groups_loses sys fd st s path g k group key v a b c d e =
      let left = (check_groups l (l.get_groups s) (pos 0) s).1 in
      let here : (fd == fd) ≡ true = (==_iff fd fd).1 refl in
      rw (a, get_data_item_groups)
        (rw (here, change)
          (λ ok.
            changed_loses sys fd
              (record st { storage_list = update st.storage_list fd (some left) })
              (l.set_int left group key v) path g k b
              (λ u q.
                laws.get-set_int left u group key g k v q e
                ∙ get-check_groups (l.get_groups s) (pos 0) s g k c
                ∙ rw d)
              ok))
