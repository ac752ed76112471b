-- ===== src/Storage/Library.antt =====
-- What src/storage.c uses of ell's `l_settings` and of the operating system.
use knot_virtualthing.Prelude.{
  ℕ, ℤ, String, Bool, false, ◌≡◌, Option, none, some, List, ◌&&◌, str_eq, if◌then◌else◌,
}
use knot_virtualthing.Protocol.{Value}

-- The kinds of l_settings_get_<kind> and l_settings_set_<kind> that limits of events use.
pub data Number : Type 0 where
  int float bool int64 uint uint64 : Number

-- struct l_settings. A getter that returns false or NULL gives `none`, and so does a setter or a
-- removal that returns false.
pub record LSettings : Type 1 where
  pub S : Type 0
  -- the text of a file
  pub Text : Type 0
  pub empty_text : Text
  -- l_settings_new, then l_settings_load_from_file with the text of the file
  pub load : Text → S
  pub to_data : S → Text
  pub get_groups : S → List String
  pub has_key : S → String → String → Bool
  pub get_string : S → String → String → Option String
  pub set_string : S → String → String → String → Option S
  pub get_int : S → String → String → Option ℤ
  pub set_int : S → String → String → ℤ → Option S
  pub get_number : Number → S → String → String → Option Value
  pub set_number : Number → S → String → String → Value → Option S
  pub remove_key : S → String → String → Option S
  pub remove_group : S → String → Option S

-- What the code relies on: a text that was written reads back, a set string is read back and the
-- other keys stay, and a group that was removed has no keys and leaves the others alone.
pub record SettingsLaws (l : LSettings) : Type 0 where
  pub load-to_data :
      (s : l.S) (g k : String) → l.get_string (l.load (l.to_data s)) g k ≡ l.get_string s g k
  pub get-set :
      (s t : l.S) (g k g' k' v : String)
      → l.set_string s g k v ≡ some t
      → l.get_string t g' k' ≡ (if str_eq g g' && str_eq k k' then some v else l.get_string s g' k')
  pub get-set_int :
      (s t : l.S) (g k g' k' : String) (v : ℤ)
      → l.set_int s g k v ≡ some t
      → str_eq g g' ≡ false
      → l.get_string t g' k' ≡ l.get_string s g' k'
  pub get-remove_group :
      (s t : l.S) (g g' k' : String)
      → l.remove_group s g ≡ some t
      → l.get_string t g' k' ≡ (if str_eq g g' then none else l.get_string s g' k')
  -- a removal fails only where the group is not there
  pub get-remove_none :
      (s : l.S) (g k : String) → l.remove_group s g ≡ none → l.get_string s g k ≡ none

-- The same for the numbers: one that was set is read back, and the other keys keep theirs.
pub record NumberLaws (l : LSettings) : Type 0 where
  pub get_int-to_data :
      (s : l.S) (g k : String) → l.get_int (l.load (l.to_data s)) g k ≡ l.get_int s g k
  pub get_int-set_int :
      (s t : l.S) (g k g' k' : String) (v : ℤ)
      → l.set_int s g k v ≡ some t
      → l.get_int t g' k' ≡ (if str_eq g g' && str_eq k k' then some v else l.get_int s g' k')
  pub get_int-set_string :
      (s t : l.S) (g k g' k' v : String)
      → l.set_string s g k v ≡ some t
      → str_eq k k' ≡ false
      → l.get_int t g' k' ≡ l.get_int s g' k'

-- The answers of the operating system to the n-th call: its errno (0 for success), and the
-- descriptor of an `open`. The last says whether a path is a regular file.
pub record System : Type 0 where
  pub errno : ℕ → ℕ
  pub descriptor : ℕ → ℕ
  pub is_regular : ℕ → Bool
