-- ===== src/Properties/Limits.antt =====
-- src/properties.c: the event of a data item, with its limits, as it is loaded from a file.
use knot_virtualthing.Prelude.{
  ℕ, ◌+◌, ◌-◌, ◌*◌, ◌/◌, ◌%◌, ◌^◌, ℤ, pos, negsuc, String, Bool, false, Option, none, some, ltb_ℤ,
  is_nonzero, if◌then◌else◌,
}
use knot_virtualthing.Protocol.{
  ValueType, int, float, bool, raw, int64, uint, uint64, other, Value, Flags, KnotEvent, Schema,
  Knot,
}
use knot_virtualthing.Storage.{LSettings, Number, Store, minus, einval}
use knot_virtualthing.Storage.Access.{storage_read_key_int, storage_read_key_number}
use knot_virtualthing.Properties.Update.{
  event_lower_threshold, event_upper_threshold, event_time_sec, event_change,
}
use knot_virtualthing.Properties.Load.{refused}

-- the four bytes of an int
abbrev pub bytes_of_int : ℤ → ℕ
bytes_of_int (pos n) = n % 2 ^ 32
bytes_of_int (negsuc n) = 2 ^ 32 - 1 - n % 2 ^ 32

-- The union after an assignment to a member of `size` bytes; the other bytes stay.
abbrev pub put_member : ℕ → ℕ → Value → Value
put_member size bytes v = bytes % 256 ^ size + v / 256 ^ size * 256 ^ size

-- What a read leaves in the union. A read that finds nothing leaves no value that is used.
abbrev pub put_read : ℕ → ℤ × Option Value → Value → ℤ × Value
put_read size (rc, none) temp = (rc, temp)
put_read size (rc, some v) temp = (rc, put_member size v temp)

abbrev pub int_read : ℤ × Option ℤ → Value → ℤ × Value
int_read (rc, none) temp = (rc, temp)
int_read (rc, some v) temp = (rc, put_member 4 (bytes_of_int v) temp)

module _ (l : LSettings) (fd : ℕ) (st : Store l) where
  -- get_lower_limit and get_upper_limit, which differ in the key only
  unfoldable pub get_limit : String → String → ValueType → Value → ℤ × Value
  get_limit key group int temp = int_read (storage_read_key_int l fd group key st) temp
  get_limit key group float temp =
      put_read 4 (storage_read_key_number l Number.float fd group key st) temp
  get_limit key group bool temp =
      put_read 1 (storage_read_key_number l Number.bool fd group key st) temp
  get_limit key group int64 temp =
      put_read 8 (storage_read_key_number l Number.int64 fd group key st) temp
  get_limit key group uint temp =
      put_read 4 (storage_read_key_number l Number.uint fd group key st) temp
  get_limit key group uint64 temp =
      put_read 8 (storage_read_key_number l Number.uint64 fd group key st) temp
  get_limit key group raw temp = (minus einval, temp)
  get_limit key group (other inside) temp = (minus einval, temp)

  abbrev pub get_lower_limit : String → ValueType → Value → ℤ × Value
  get_lower_limit = get_limit event_lower_threshold

  abbrev pub get_upper_limit : String → ValueType → Value → ℤ × Value
  get_upper_limit = get_limit event_upper_threshold

abbrev pub no_flags : Flags
no_flags = record {
  time = false;
  change = false;
  lower_threshold = false;
  upper_threshold = false;
  unregistered = false;
}

-- `rc > 0`
abbrev pub is_found {ℓ} : {A : Type ℓ} → ℤ × A → Bool
is_found (rc, a) = ltb_ℤ (pos 0) rc

abbrev pub seconds_of : Knot → ℤ × Option ℤ → ℕ
seconds_of knot (rc, none) = 0
seconds_of knot (rc, some v) = knot.to_time_sec v

-- knot_event_is_valid
abbrev pub event_code : Knot → Schema → KnotEvent → ℤ
event_code knot schema e =
    knot.event_is_valid e.event_flags schema.value_type e.time_sec e.lower_limit e.upper_limit

-- `junk` is what the union on the stack holds before it is written.
module _ (l : LSettings) (knot : Knot) (junk : Value) (fd : ℕ) (st : Store l) where
  -- the event before it is validated
  unfoldable pub read_event : String → Schema → KnotEvent
  read_event group schema =
      let t = knot.value_type schema.value_type in
      let lower = get_lower_limit l fd st group t junk in
      let upper = get_upper_limit l fd st group t lower.1 in
      let seconds = storage_read_key_int l fd group event_time_sec st in
      let change = storage_read_key_int l fd group event_change st in
      record {
        event_flags = record no_flags {
          time = is_found seconds;
          change = is_found change;
          lower_threshold = is_found lower;
          upper_threshold = is_found upper;
        };
        time_sec = seconds_of knot seconds;
        lower_limit = if is_found lower then knot.assign_limit schema.value_type lower.1 0 else 0;
        upper_limit = if is_found upper then knot.assign_limit schema.value_type upper.1 0 else 0;
      }

  unfoldable pub set_event : String → Schema → ℤ × Option KnotEvent
  set_event group schema =
      let event_aux = read_event group schema in
      if is_nonzero (event_code knot schema event_aux) then refused else (pos 0, some event_aux)
