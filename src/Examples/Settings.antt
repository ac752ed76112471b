-- ===== src/Examples/Settings.antt =====
-- A settings library that keeps the laws, and an operating system in which every call succeeds.
use knot_virtualthing.Prelude.{
  ℤ, String, Bool, true, false, refl, ap, sym, ◌∙◌, Option, none, some, List, [], ◌∷◌, ◌&&◌, str_eq,
  if◌then◌else◌, Bool-cases, inl, inr, ◌≡◌,
}
use knot_virtualthing.Storage.{LSettings, SettingsLaws, NumberLaws, System, Store}

-- the names of the groups, the texts of the keys, and the numbers among them
pub record Entries : Type 0 where
  pub groups : List String
  pub text : String → String → Option String
  pub number : String → String → Option ℤ

abbrev pub no_entries : Entries
no_entries = record { groups = []; text = λ g k. none; number = λ g k. none }

abbrev pub is_some : Option String → Bool
is_some none = false
is_some (some t) = true

abbrev pub drop_group : String → List String → List String
drop_group g [] = []
drop_group g (x ∷ xs) = if str_eq g x then drop_group g xs else x ∷ drop_group g xs

abbrev pub put : Entries → String → String → String → Entries
put s g k v = record {
  groups = g ∷ drop_group g s.groups;
  text = λ g' k'. if str_eq g g' && str_eq k k' then some v else s.text g' k';
  number = λ g' k'. if str_eq g g' && str_eq k k' then none else s.number g' k';
}

-- a number is written as one text, whatever it is
abbrev pub put_number : Entries → String → String → ℤ → Entries
put_number s g k v = record (put s g k "number") {
  number = λ g' k'. if str_eq g g' && str_eq k k' then some v else s.number g' k';
}

abbrev pub take_group : Entries → String → Entries
take_group s g = record {
  groups = drop_group g s.groups;
  text = λ g' k'. if str_eq g g' then none else s.text g' k';
  number = λ g' k'. if str_eq g g' then none else s.number g' k';
}

abbrev pub settings : LSettings
settings = record {
  S = Entries;
  Text = Entries;
  empty_text = no_entries;
  load = λ t. t;
  to_data = λ s. s;
  get_groups = λ s. s.groups;
  has_key = λ s g k. is_some (s.text g k);
  get_string = λ s g k. s.text g k;
  set_string = λ s g k v. some (put s g k v);
  get_int = λ s g k. s.number g k;
  set_int = λ s g k v. some (put_number s g k v);
  get_number = λ kind s g k. none;
  set_number = λ kind s g k v. some (put s g k "1");
  remove_key = λ s g k. none;
  remove_group = λ s g. some (take_group s g);
}

abbrev text_of : Option Entries → String → String → Option String
text_of none g k = none
text_of (some s) g k = s.text g k

pub settings-SettingsLaws : SettingsLaws settings
settings-SettingsLaws = record {
  load-to_data = λ s g k. refl;
  get-set = λ s t g k g' k' v h. ap (λ (o : Option Entries). text_of o g' k') (sym h);
  get-set_int = λ s t g k g' k' v h e. ap (λ (o : Option Entries). text_of o g' k') (sym h) ∙ rw e;
  get-remove_group = λ s t g g' k' h. ap (λ (o : Option Entries). text_of o g' k') (sym h);
  get-remove_none = λ s g k h. cc;
}

abbrev number_of : Option Entries → String → String → Option ℤ
number_of none g k = none
number_of (some s) g k = s.number g k

put_keeps :
    (s : Entries) (g k g' k' v : String)
    → str_eq k k' ≡ false
    → (put s g k v).number g' k' ≡ s.number g' k'
put_keeps s g k g' k' v h = elim (Bool-cases (str_eq g g')) [
  | inl e ↦ rw (e, h) refl
  | inr e ↦ rw e refl
]

pub settings-NumberLaws : NumberLaws settings
settings-NumberLaws = record {
  get_int-to_data = λ s g k. refl;
  get_int-set_int = λ s t g k g' k' v h. ap (λ (o : Option Entries). number_of o g' k') (sym h);
  get_int-set_string = λ s t g k g' k' v h e.
      ap (λ (o : Option Entries). number_of o g' k') (sym h) ∙ put_keeps s g k g' k' v e;
}

abbrev pub working : System
working = record { errno = λ n. 0; descriptor = λ n. 5; is_regular = λ n. true }

abbrev pub store_with : Entries → Store settings
store_with s = record {
  storage_list = λ fd. none;
  files = λ p. s;
  open_files = λ fd. none;
  dirs = [];
  calls = 0;
}
