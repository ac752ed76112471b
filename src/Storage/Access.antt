-- ===== src/Storage/Access.antt =====
-- src/storage.c: reading and writing the keys of an open file, and the groups of the data items.
pub mod Groups
use knot_virtualthing.Prelude.{
  ℕ, ℤ, pos, String, Bool, true, false, not, Option, none, some, List, [], ◌∷◌, ◌&&◌, ◌||◌, str_eq,
  codes, is_prefix, is_digit, is_neg, if◌then◌else◌,
}
use knot_virtualthing.Protocol.{Value}
use knot_virtualthing.Storage.{
  LSettings, System, Number, Store, minus, eio, einval, update, save_settings,
}

-- what a getter of the library returns, and what it leaves in `*value`
abbrev pub got {ℓ} : {A : Type ℓ} → Option A → ℤ × Option A
got none = (pos 0, none)
got (some a) = (pos 1, some a)

abbrev pub option_bind {ℓ κ} : {A : Type ℓ} {B : Type κ} → Option A → (A → Option B) → Option B
option_bind none f = none
option_bind (some a) f = f a

module _ (l : LSettings) where
  -- NULL is `none`
  unfoldable pub storage_read_key_string : ℕ → String → String → Store l → Option String
  storage_read_key_string fd group key st =
      option_bind (st.storage_list fd) (λ settings. l.get_string settings group key)

  -- The return code, and the value where one was stored through the pointer.
  unfoldable pub storage_read_key_int : ℕ → String → String → Store l → ℤ × Option ℤ
  storage_read_key_int fd group key st = elim (st.storage_list fd) [
    | none ↦ (minus einval, none)
    | some settings ↦ got (l.get_int settings group key)
  ]

  -- storage_read_key_float, _bool, _int64, _uint, _uint64, which differ in the library's getter only
  unfoldable pub storage_read_key_number : Number → ℕ → String → String → Store l → ℤ × Option Value
  storage_read_key_number kind fd group key st = elim (st.storage_list fd) [
    | none ↦ (minus einval, none)
    | some settings ↦ got (l.get_number kind settings group key)
  ]

  unfoldable pub storage_has_unit : ℕ → String → String → Store l → Bool
  storage_has_unit fd group key st = elim (st.storage_list fd) [
    | none ↦ false
    | some settings ↦ l.has_key settings group key
  ]

module _ (l : LSettings) (sys : System) where
  -- The settings behind the descriptor are changed in place, and then saved.
  unfoldable pub save_changed : ℕ → Option l.S → Store l → ℤ × Store l
  save_changed fd none st = (minus einval, st)
  save_changed fd (some settings) st =
      save_settings l sys fd settings
        (record st { storage_list = update st.storage_list fd (some settings) })

  -- `missing` is the error for a descriptor that is not open.
  unfoldable pub change : ℕ → ℕ → (l.S → Option l.S) → Store l → ℤ × Store l
  unfolding save_changed
  change missing fd f st = elim (st.storage_list fd) [
    | none ↦ (minus missing, st)
    | some settings ↦ save_changed fd (f settings) st
  ]

  unfoldable pub storage_write_key_string : ℕ → String → String → String → Store l → ℤ × Store l
  storage_write_key_string fd group key value =
      change eio fd (λ settings. l.set_string settings group key value)

  unfoldable pub storage_write_key_int : ℕ → String → String → ℤ → Store l → ℤ × Store l
  storage_write_key_int fd group key value =
      change einval fd (λ settings. l.set_int settings group key value)

  -- storage_write_key_float, _bool, _int64, _uint, _uint64
  unfoldable pub storage_write_key_number :
      Number → ℕ → String → String → Value → Store l → ℤ × Store l
  storage_write_key_number kind fd group key value =
      change einval fd (λ settings. l.set_number kind settings group key value)

  unfoldable pub storage_remove_group : ℕ → String → Store l → ℤ × Store l
  storage_remove_group fd group = change einval fd (λ settings. l.remove_group settings group)

  unfoldable pub storage_remove_key : ℕ → String → String → Store l → ℤ × Store l
  storage_remove_key fd group key = change einval fd (λ settings. l.remove_key settings group key)

-- DATA_ITEM_GROUP
abbrev pub data_item_group : String
data_item_group = "DataItem_"

abbrev pub all_digits : List ℕ → Bool
all_digits [] = true
all_digits (c ∷ cs) = is_digit c && all_digits cs

-- what follows the prefix
abbrev pub after_prefix : List ℕ → List ℕ → List ℕ
after_prefix [] text = text
after_prefix (p ∷ ps) [] = []
after_prefix (p ∷ ps) (c ∷ cs) = after_prefix ps cs

abbrev pub is_empty {ℓ} : {A : Type ℓ} → List A → Bool
is_empty [] = true
is_empty (x ∷ xs) = false

-- regexec with ^DataItem_[0-9]+$
unfoldable pub matches_group : String → Bool
matches_group name =
    let rest = after_prefix (codes data_item_group) (codes name) in
    is_prefix (codes data_item_group) (codes name) && not (is_empty rest) && all_digits rest

-- strcmp over the groups behind the index
abbrev pub is_among : String → List String → Bool
is_among name [] = false
is_among name (g ∷ gs) = str_eq g name || is_among name gs

-- `all_groups[index]`, with the groups that follow it
unfoldable pub check_valid_groups : String → List String → ℤ
unfolding matches_group
check_valid_groups name later =
    if not (matches_group name)
    then minus einval
    else if is_among name later
    then minus einval
    else pos 0

module _ (l : LSettings) where
  -- `l_settings_remove_group`, whose result is not read
  abbrev pub without_group : l.S → String → l.S
  without_group settings group = elim (l.remove_group settings group) [
    | none ↦ settings
    | some t ↦ t
  ]

  -- The loop over all groups: the settings and `err`.
  unfoldable pub check_groups : List String → ℤ → l.S → ℤ × l.S
  unfolding check_valid_groups
  check_groups [] err settings = (err, settings)
  check_groups (g ∷ gs) err settings =
      let is_item = is_prefix (codes data_item_group) (codes g) in
      check_groups gs (if is_item then check_valid_groups g gs else err)
        (if is_item then settings else without_group settings g)

  -- NULL is `none`. The settings behind the descriptor lose their other groups.
  unfoldable pub get_data_item_groups : ℕ → Store l → Option (List String) × Store l
  unfolding check_groups
  get_data_item_groups fd st = elim (st.storage_list fd) [
    | none ↦ (none, st)
    | some settings ↦
        let (err, left) = check_groups (l.get_groups settings) (pos 0) settings in
        (
          if is_neg err then none else some (l.get_groups left),
          record st { storage_list = update st.storage_list fd (some left) },
        )
  ]
