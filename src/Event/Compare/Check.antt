-- ===== src/Event/Compare/Check.antt =====
-- When src/event.c asks for a publication, for each type of value.
use knot_virtualthing.Prelude.{
  ℤ, pos, Bool, true, false, ◌≡◌, refl, ◌||◌, ◌&&◌, not, arith, ltb_ℤ, is_neg, if◌then◌else◌,
}
use knot_virtualthing.Protocol.{
  ValueType, int, float, bool, other, in_range, Value, val_i, val_b, Float, Flags, KnotEvent,
}
use knot_virtualthing.Event.Compare.{
  event_check_value, is_value_equal, is_lower_than_threshold, is_higher_than_threshold, compare_int,
  compare_bool, compare_float, enomsg, einval, is_zero_ℤ,
}

-- The types whose values the file orders.
abbrev pub is_ordered : ValueType → Bool
is_ordered int = true
is_ordered float = true
is_ordered bool = true
is_ordered _ = false

-- The order of the values of such a type: of signed 32-bit numbers, of floats, and false below true.
abbrev pub below : Float → ValueType → Value → Value → Bool
below fl int a b = ltb_ℤ (val_i a) (val_i b)
below fl float a b = fl.lt (fl.val_f a) (fl.val_f b)
below fl bool a b = not (val_b a) && val_b b
below fl _ a b = false

-- What is wanted of a check, from what the event watches.
abbrev pub is_due : Flags → Bool → Bool → Bool → Bool
is_due f changed too_low too_high =
    f.change && changed || (f.lower_threshold && too_low || f.upper_threshold && too_high)

abbrev pub verdict : Bool → ℤ
verdict true = pos 1
verdict false = pos 0

int_equal : (a b : ℤ) → is_zero_ℤ (compare_int a b) ≡ not (ltb_ℤ a b || ltb_ℤ b a)
unfolding compare_int
int_equal a b = ground arith

int_lower : (a b : ℤ) → is_neg (compare_int a b) ≡ ltb_ℤ a b
unfolding compare_int
int_lower a b = ground arith

int_higher : (a b : ℤ) → ltb_ℤ (pos 0) (compare_int a b) ≡ ltb_ℤ b a
unfolding compare_int
int_higher a b = ground arith

bool_equal : (a b : Bool) → is_zero_ℤ (compare_bool a b) ≡ not ((not a && b) || (not b && a))
unfolding compare_bool
bool_equal a b = ground arith

bool_lower : (a b : Bool) → is_neg (compare_bool a b) ≡ not a && b
unfolding compare_bool
bool_lower a b = ground arith

bool_higher : (a b : Bool) → ltb_ℤ (pos 0) (compare_bool a b) ≡ not b && a
unfolding compare_bool
bool_higher a b = ground arith

module _ (fl : Float) where
  float_equal : (a b : fl.F) → is_zero_ℤ (compare_float fl a b) ≡ not (fl.lt a b || fl.lt b a)
  unfolding compare_float
  float_equal a b = ground arith

  float_lower : (a b : fl.F) → is_neg (compare_float fl a b) ≡ fl.lt a b
  unfolding compare_float
  float_lower a b = ground arith

  float_higher : (a b : fl.F) → ltb_ℤ (pos 0) (compare_float fl a b) ≡ fl.lt b a
  unfolding compare_float
  float_higher a b = ground (arith, fl.lt_asym a b)

  module _ (a b : Value) where
    equal_lem :
        (t : ValueType)
        → is_ordered t ≡ true
        → is_value_equal fl a b t ≡ not (below fl t a b || below fl t b a)
    unfolding is_value_equal
    equal_lem int h = int_equal (val_i a) (val_i b)
    equal_lem float h = float_equal (fl.val_f a) (fl.val_f b)
    equal_lem bool h = bool_equal (val_b a) (val_b b)
    equal_lem _ h = cc

    lower_lem :
        (t : ValueType) → is_ordered t ≡ true → is_lower_than_threshold fl a b t ≡ below fl t a b
    unfolding is_lower_than_threshold
    lower_lem int h = int_lower (val_i a) (val_i b)
    lower_lem float h = float_lower (fl.val_f a) (fl.val_f b)
    lower_lem bool h = bool_lower (val_b a) (val_b b)
    lower_lem _ h = cc

    higher_lem :
        (t : ValueType) → is_ordered t ≡ true → is_higher_than_threshold fl a b t ≡ below fl t b a
    unfolding is_higher_than_threshold
    higher_lem int h = int_higher (val_i a) (val_i b)
    higher_lem float h = float_higher (fl.val_f a) (fl.val_f b)
    higher_lem bool h = bool_higher (val_b a) (val_b b)
    higher_lem _ h = cc

  ordered_in_range : (t : ValueType) → is_ordered t ≡ true → in_range t ≡ true
  ordered_in_range int h = refl
  ordered_in_range (other i) h = cc
  ordered_in_range _ h = refl

  -- For an INT, FLOAT or BOOL an active module asks for a publication (1) exactly if the event
  -- watches changes and the value lies below or above the one sent last, or it watches the lower
  -- limit and the value is below it, or it watches the upper limit and the value is above it; it
  -- answers 0 otherwise.
  pub check_ordered :
      (e : KnotEvent) (cur sent : Value) (t : ValueType)
      → is_ordered t ≡ true
      → event_check_value fl true e cur sent t
        ≡ verdict (
            is_due e.event_flags
              (below fl t cur sent || below fl t sent cur)
              (below fl t cur e.lower_limit)
              (below fl t e.upper_limit cur))
  unfolding event_check_value
  check_ordered e cur sent t h = ground (
    arith,
    ordered_in_range t h,
    equal_lem cur sent t h,
    lower_lem cur e.lower_limit t h,
    higher_lem cur e.upper_limit t h,
  )

  -- For the other types of the protocol (RAW, INT64, UINT, UINT64) the values do not count: an
  -- active module asks for a publication exactly if the event watches changes or the upper limit,
  -- and the lower limit never asks for one.
  pub check_unordered :
      (e : KnotEvent) (cur sent : Value) (t : ValueType)
      → is_ordered t ≡ false
      → in_range t ≡ true
      → event_check_value fl true e cur sent t
        ≡ verdict (e.event_flags.change || e.event_flags.upper_threshold)
  unfolding event_check_value is_value_equal is_lower_than_threshold is_higher_than_threshold
  check_unordered e cur sent int h k = cc
  check_unordered e cur sent float h k = cc
  check_unordered e cur sent bool h k = cc
  check_unordered e cur sent (other i) h k = ground arith
  check_unordered e cur sent _ h k = ground arith

  -- If the module is stopped, or the type is out of range, the check asks for no publication: it
  -- answers -EINVAL where the module is active and -ENOMSG where it is not.
  pub check_refused :
      (active : Bool) (e : KnotEvent) (cur sent : Value) (t : ValueType)
      → active && in_range t ≡ false
      → event_check_value fl active e cur sent t ≡ (if active then einval else enomsg)
  unfolding event_check_value
  check_refused active e cur sent t h = ground arith
