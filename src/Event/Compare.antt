-- ===== src/Event/Compare.antt =====
-- src/event.c: the comparison of values and the check of an event. The proofs are in the children.
pub mod Check
use knot_virtualthing.Prelude.{
  ℕ, ℤ, pos, negsuc, Bool, true, false, ◌&&◌, not, ltb_ℤ, eqb_ℤ, is_neg, if◌then◌else◌,
}
use knot_virtualthing.Protocol.{
  ValueType, int, float, bool, raw, int64, uint, uint64, other, in_range, Value, val_i, val_b,
  Float, Flags, KnotEvent,
}

-- errno values; the code returns them negated
abbrev pub enomsg : ℤ
enomsg = negsuc 41

abbrev pub einval : ℤ
einval = negsuc 21

unfoldable pub compare_int : ℤ → ℤ → ℤ
compare_int val1 val2 =
    if ltb_ℤ val1 val2 then negsuc 0 else if ltb_ℤ val2 val1 then pos 1 else pos 0

unfoldable pub compare_bool : Bool → Bool → ℤ
compare_bool false true = negsuc 0
compare_bool true false = pos 1
compare_bool _ _ = pos 0

-- `unsigned char *val1, *val2`, which the body does not read
unfoldable pub compare_raw : Value → Value → ℤ
compare_raw val1 val2 = pos 1

abbrev pub is_zero_ℤ : ℤ → Bool
is_zero_ℤ a = eqb_ℤ a (pos 0)

module _ (fl : Float) where
  unfoldable pub compare_float : fl.F → fl.F → ℤ
  compare_float val1 val2 =
      if fl.lt val1 val2 then negsuc 0 else if fl.lt val2 val1 then pos 1 else pos 0

  unfoldable pub compare_knot_value : Value → Value → ValueType → ℤ
  unfolding compare_int compare_bool compare_raw compare_float
  compare_knot_value val1 val2 int = compare_int (val_i val1) (val_i val2)
  compare_knot_value val1 val2 float = compare_float (fl.val_f val1) (fl.val_f val2)
  compare_knot_value val1 val2 bool = compare_bool (val_b val1) (val_b val2)
  compare_knot_value val1 val2 raw = compare_raw val1 val2
  compare_knot_value val1 val2 _ = pos 1

  unfoldable pub is_value_equal : Value → Value → ValueType → Bool
  unfolding compare_knot_value
  is_value_equal new_value old_value value_type =
      is_zero_ℤ (compare_knot_value new_value old_value value_type)

  unfoldable pub is_lower_than_threshold : Value → Value → ValueType → Bool
  unfolding compare_knot_value
  is_lower_than_threshold value threshold value_type =
      is_neg (compare_knot_value value threshold value_type)

  unfoldable pub is_higher_than_threshold : Value → Value → ValueType → Bool
  unfolding compare_knot_value
  is_higher_than_threshold value threshold value_type =
      ltb_ℤ (pos 0) (compare_knot_value value threshold value_type)

  -- The result 1 asks for a publication. `active` is the file's static flag.
  unfoldable pub event_check_value : Bool → KnotEvent → Value → Value → ValueType → ℤ
  event_check_value active event current_val sent_val value_type =
      if not active
      then enomsg
      else if not (in_range value_type)
      then einval
      else if event.event_flags.change && not (is_value_equal current_val sent_val value_type)
      then pos 1
      else if event.event_flags.lower_threshold
          && is_lower_than_threshold current_val event.lower_limit value_type
      then pos 1
      else if event.event_flags.upper_threshold
          && is_higher_than_threshold current_val event.upper_limit value_type
      then pos 1
      else pos 0
