-- ===== src/Protocol.antt =====
-- What the program uses of the KNoT protocol's types (knot_protocol.h, knot_types.h, outside the
-- repository): value types, values, events, schemas and configurations.
use knot_virtualthing.Prelude.{
  ℕ, ◌-◌, ◌%◌, ◌^◌, ℤ, pos, negsuc, Bool, true, false, String, ltb, ◌==◌, not, ◌≡◌, if◌then◌else◌,
}

-- The names KNOT_VALUE_TYPE_*. `other` is an integer that none of these names stands for, with
-- whether it lies between KNOT_VALUE_TYPE_MIN and KNOT_VALUE_TYPE_MAX.
pub data ValueType : Type 0 where
  int float bool raw int64 uint uint64 : ValueType
  other : Bool → ValueType

-- KNOT_VALUE_TYPE_MIN ≤ value_type ≤ KNOT_VALUE_TYPE_MAX
abbrev pub in_range : ValueType → Bool
in_range (other inside) = inside
in_range _ = true

-- `union knot_value_type`: the number that its first eight bytes hold, the lowest byte first. The
-- members are views of these bytes.
abbrev pub Value : Type 0
Value = ℕ

abbrev pub val_i : Value → ℤ
val_i v = let w = v % 2 ^ 32 in if ltb w (2 ^ 31) then pos w else negsuc (2 ^ 32 - w - 1)

abbrev pub val_b : Value → Bool
val_b v = not (v % 2 ^ 8 == 0)

-- `float`: a type with the view of the bytes and the comparison that C gives it.
pub record Float : Type 1 where
  pub F : Type 0
  pub val_f : Value → F
  pub lt : F → F → Bool
  pub lt_asym : (a b : F) → lt a b ≡ true → lt b a ≡ false

-- `event_flags`, one field for each bit KNOT_EVT_FLAG_*
pub record Flags : Type 0 where
  pub time : Bool
  pub change : Bool
  pub lower_threshold : Bool
  pub upper_threshold : Bool
  pub unregistered : Bool

-- knot_event
pub record KnotEvent : Type 0 where
  pub event_flags : Flags
  pub time_sec : ℕ
  pub lower_limit : Value
  pub upper_limit : Value

-- knot_schema; `value_type`, `unit` and `type_id` are the numbers of the protocol
pub record Schema : Type 0 where
  pub value_type : ℤ
  pub unit : ℤ
  pub type_id : ℤ
  pub name : String

-- knot_msg_config
pub record Config : Type 0 where
  pub sensor_id : ℤ
  pub schema : Schema
  pub event : KnotEvent

-- The constants and functions of the protocol library: KNOT_PROTOCOL_*_LEN, the type that a number
-- stands for, the conversions of an int to the fields `time_sec`, `value_type`, `unit` and `type_id`,
-- the checks of schemas and events (0 for a valid one), and knot_value_assign_limit, whose last
-- argument is the value that is assigned to.
pub record Knot : Type 0 where
  pub token_len : ℕ
  pub uuid_len : ℕ
  pub data_name_len : ℕ
  pub device_name_len : ℕ
  pub value_type : ℤ → ValueType
  pub to_time_sec : ℤ → ℕ
  pub to_value_type : ℤ → ℤ
  pub to_unit : ℤ → ℤ
  pub to_type_id : ℤ → ℤ
  pub assign_limit : ℤ → Value → Value → Value
  pub schema_is_valid : ℤ → ℤ → ℤ → ℤ
  pub event_is_valid : Flags → ℤ → ℕ → Value → Value → ℤ
