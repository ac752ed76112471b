-- ===== src/Modbus/Endian.antt =====
-- src/iface-modbus.c: the order of the bytes of 32-bit and 64-bit values that are read from Modbus
-- registers, and the endianness types of src/conf-parameters.h. The proofs are in the children.
pub mod Wire
pub mod Words
pub mod Longs
use Prim.Native.Nat.{bit_and, bit_or}
use knot_virtualthing.Prelude.{ℕ, ◌*◌, ◌/◌, ◌%◌, ◌^◌, ℤ, pos, Bool, ◌||◌, eqb_ℤ, if◌then◌else◌}

-- MODBUS_ENDIANNESS_TYPE_*
abbrev pub big_endian : ℤ
big_endian = pos 1

abbrev pub mid_big_endian : ℤ
mid_big_endian = pos 2

abbrev pub little_endian : ℤ
little_endian = pos 3

abbrev pub mid_little_endian : ℤ
mid_little_endian = pos 4

abbrev pub shr : ℕ → ℕ → ℕ
shr x k = x / 2 ^ k

-- `x << k` on uint32_t and on uint64_t
abbrev pub shl32 : ℕ → ℕ → ℕ
shl32 x k = x * 2 ^ k % 2 ^ 32

abbrev pub shl64 : ℕ → ℕ → ℕ
shl64 x k = x * 2 ^ k % 2 ^ 64

-- the new `*src`
unfoldable pub config_endianness_32 : ℕ → ℤ → ℕ
config_endianness_32 src endianness_type =
    if eqb_ℤ endianness_type big_endian
    then bit_or (shr (bit_and src 0xffff0000) 16) (shl32 (bit_and src 0x0000ffff) 16)
    else if eqb_ℤ endianness_type mid_big_endian
    then bit_or
        (bit_or (bit_or (shr (bit_and src 0xff000000) 24) (shr (bit_and src 0x00ff0000) 8))
          (shl32 (bit_and src 0x0000ff00) 8))
        (shl32 (bit_and src 0x000000ff) 24)
    else if eqb_ℤ endianness_type little_endian
    then bit_or
        (bit_or (bit_or (shr (bit_and src 0xff000000) 8) (shl32 (bit_and src 0x00ff0000) 8))
          (shr (bit_and src 0x0000ff00) 8))
        (shl32 (bit_and src 0x000000ff) 8)
    else src

-- the first assignment: the two bytes of each register change places
unfoldable pub swap_bytes_64 : ℕ → ℕ
swap_bytes_64 src =
    bit_or
      (bit_or
        (bit_or
          (bit_or
            (bit_or
              (bit_or
                (bit_or (shr (bit_and src 0xff00000000000000) 8)
                  (shl64 (bit_and src 0x00ff000000000000) 8))
                (shr (bit_and src 0x0000ff0000000000) 8))
              (shl64 (bit_and src 0x000000ff00000000) 8))
            (shr (bit_and src 0x00000000ff000000) 8))
          (shl64 (bit_and src 0x0000000000ff0000) 8))
        (shr (bit_and src 0x000000000000ff00) 8))
      (shl64 (bit_and src 0x00000000000000ff) 8)

-- the second assignment: the four registers are reversed
unfoldable pub swap_registers_64 : ℕ → ℕ
swap_registers_64 src =
    bit_or
      (bit_or
        (bit_or (shr (bit_and src 0xffff000000000000) 48) (shr (bit_and src 0x0000ffff00000000) 16))
        (shl64 (bit_and src 0x00000000ffff0000) 16))
      (shl64 (bit_and src 0x000000000000ffff) 48)

unfoldable pub config_endianness_64 : ℕ → ℤ → ℕ
config_endianness_64 src endianness_type =
    let src' =
      if eqb_ℤ endianness_type mid_big_endian || eqb_ℤ endianness_type little_endian
      then swap_bytes_64 src
      else src in
    if eqb_ℤ endianness_type mid_big_endian || eqb_ℤ endianness_type big_endian
    then swap_registers_64 src'
    else src'
