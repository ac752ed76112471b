-- ===== src/Examples/Values.antt =====
-- Values of sensors, bytes from a slave and a random number, with the theorems on them.
use knot_virtualthing.Prelude.{
  some, if◌then◌else◌, ◌==◌, ℕ, ◌%◌, ◌^◌, pos, true, false, ◌≡◌, refl, List, [], ◌∷◌, ltb, arith,
}
use knot_virtualthing.Protocol.{int, uint, Float, KnotEvent}
use knot_virtualthing.Event.Compare.{event_check_value}
use knot_virtualthing.Event.Compare.Check.{check_ordered, check_unordered}
use knot_virtualthing.Bits.{word, AreBytes}
use knot_virtualthing.Modbus.Endian.{
  config_endianness_32, config_endianness_64, big_endian, mid_big_endian,
}
use knot_virtualthing.Modbus.Endian.Wire.{received}
use knot_virtualthing.Modbus.Endian.Words.{endianness_32_restores}
use knot_virtualthing.Modbus.Endian.Longs.{endianness_64_restores}
use knot_virtualthing.Modbus.Read.{Slave, type_u32, type_u64, iface_modbus_read_data}
use knot_virtualthing.Modbus.Read.Values.{bits_of, read_u32, read_u64}

pub ltb_asym : (a b : ℕ) → ltb a b ≡ true → ltb b a ≡ false
ltb_asym a b h = ground arith

-- the low four bytes, in the order of the unsigned numbers
abbrev pub floats : Float
floats = record { F = ℕ; val_f = λ v. v % 2 ^ 32; lt = λ a b. ltb a b; lt_asym = ltb_asym }

-- a sensor between 10 and 50 that also reports changes
abbrev pub watched : KnotEvent
watched = record {
  event_flags = record {
    time = false;
    change = false;
    lower_threshold = true;
    upper_threshold = true;
    unregistered = false;
  };
  time_sec = 0;
  lower_limit = 10;
  upper_limit = 50;
}

-- 60 lies above the upper limit
check_ordered_example : event_check_value floats true watched 60 20 int ≡ pos 1
check_ordered_example = check_ordered floats watched 60 20 int refl

-- 20 lies between the limits, and is published all the same
check_unordered_example : event_check_value floats true watched 20 20 uint ≡ pos 1
check_unordered_example = check_unordered floats watched 20 20 uint refl refl

bytes : AreBytes (0x78 ∷ 0x56 ∷ 0x34 ∷ 0x12 ∷ [])
bytes = (omega arith, (omega arith, (omega arith, (omega arith, tt))))

endianness_32_restores_example :
    config_endianness_32 (word (received big_endian (0x78 ∷ 0x56 ∷ 0x34 ∷ 0x12 ∷ []))) big_endian
    ≡ word (0x78 ∷ 0x56 ∷ 0x34 ∷ 0x12 ∷ [])
endianness_32_restores_example = endianness_32_restores big_endian 0x78 0x56 0x34 0x12 bytes

abbrev long : List ℕ
long = 1 ∷ 2 ∷ 3 ∷ 4 ∷ 5 ∷ 6 ∷ 7 ∷ 8 ∷ []

long-AreBytes : AreBytes long
long-AreBytes = (
  omega arith,
  (
    omega arith,
    (omega arith, (omega arith, (omega arith, (omega arith, (omega arith, (omega arith, tt)))))),
  ),
)

endianness_64_restores_example :
    config_endianness_64 (word (received mid_big_endian long)) mid_big_endian ≡ word long
endianness_64_restores_example = endianness_64_restores mid_big_endian 1 2 3 4 5 6 7 8 long-AreBytes

-- a slave that answers with the bits of 0xa5, and with the registers of two values
abbrev slave : Slave
slave = record {
  read_input_bits = λ addr n. (pos 8, bits_of 0xa5);
  read_registers = λ addr n.
      if n == 2
      then (pos 2, word (received big_endian (0x78 ∷ 0x56 ∷ 0x34 ∷ 0x12 ∷ [])))
      else (pos 4, word (received mid_big_endian long));
  errno = 0;
}

read_u32_example :
    iface_modbus_read_data slave (pos 7) type_u32 big_endian ≡ (pos 2, some 0x12345678)
read_u32_example = read_u32 slave (pos 7) big_endian (pos 2) refl 0x78 0x56 0x34 0x12 bytes refl

read_u64_example :
    iface_modbus_read_data slave (pos 7) type_u64 mid_big_endian ≡ (pos 4, some (word long))
read_u64_example =
    read_u64 slave (pos 7) mid_big_endian (pos 4) refl 1 2 3 4 5 6 7 8 long-AreBytes refl
