-- ===== src/Modbus/Read.antt =====
-- src/iface-modbus.c: iface_modbus_read_data, with what libmodbus answers as a parameter. The proofs are
-- in the child.
pub mod Values
use Prim.Native.Nat.{bit_or}
use knot_virtualthing.Prelude.{
  ℕ, suc, ◌*◌, ◌%◌, ◌^◌, ℤ, pos, Option, none, some, List, [], ◌∷◌, is_neg, eqb_ℤ, if◌then◌else◌,
}
use knot_virtualthing.Protocol.{Value}
use knot_virtualthing.Storage.{minus, einval}
use knot_virtualthing.Modbus.Endian.{config_endianness_32, config_endianness_64}

-- The answers of the slave to one read: modbus_read_input_bits with the bits, one number each, and
-- modbus_read_registers with the registers, the first one lowest, as the host holds them; and errno.
pub record Slave : Type 0 where
  pub read_input_bits : ℤ → ℕ → ℤ × List ℕ
  pub read_registers : ℤ → ℕ → ℤ × ℕ
  pub errno : ℕ

abbrev pub first : List ℕ → ℕ
first [] = 0
first (b ∷ bs) = b

-- enum modbus_types_offset
abbrev pub type_bool : ℤ
type_bool = pos 1

abbrev pub type_byte : ℤ
type_byte = pos 8

abbrev pub type_u16 : ℤ
type_u16 = pos 16

abbrev pub type_u32 : ℤ
type_u32 = pos 32

abbrev pub type_u64 : ℤ
type_u64 = pos 64

-- the loop `tmp.val_byte |= byte_tmp[i] << i`, from the bit `i`, on a byte
unfoldable pub collect_bits : List ℕ → ℕ → ℕ → ℕ
collect_bits [] i tmp = tmp
collect_bits (b ∷ bs) i tmp = collect_bits bs (suc i) (bit_or tmp (b * 2 ^ i) % 2 ^ 8)

-- The return code of the read and `tmp`, whose bytes beyond the type's are 0.
unfoldable pub read_tmp : Slave → ℤ → ℤ → ℤ → ℤ × Value
read_tmp slave reg_addr bit_offset endianness_type =
    let (rc1, bit) = slave.read_input_bits reg_addr 1 in
    let (rc8, bits) = slave.read_input_bits reg_addr 8 in
    let (rc16, w16) = slave.read_registers reg_addr 1 in
    let (rc32, w32) = slave.read_registers reg_addr 2 in
    let (rc64, w64) = slave.read_registers reg_addr 4 in
    if eqb_ℤ bit_offset type_bool
    then (rc1, first bit % 2 ^ 8)
    else if eqb_ℤ bit_offset type_byte
    then (rc8, collect_bits bits 0 0)
    else if eqb_ℤ bit_offset type_u16
    then (rc16, w16 % 2 ^ 16)
    else if eqb_ℤ bit_offset type_u32
    then (rc32, config_endianness_32 (w32 % 2 ^ 32) endianness_type)
    else if eqb_ℤ bit_offset type_u64
    then (rc64, config_endianness_64 (w64 % 2 ^ 64) endianness_type)
    else (minus einval, 0)

abbrev pub checked : ℕ → ℤ × Value → ℤ × Option Value
checked errno (rc, tmp) = if is_neg rc then (minus errno, none) else (rc, some tmp)

-- The value that is copied to `out`; `none` where `out` is left alone.
unfoldable pub iface_modbus_read_data : Slave → ℤ → ℤ → ℤ → ℤ × Option Value
unfolding read_tmp
iface_modbus_read_data slave reg_addr bit_offset endianness_type =
    checked slave.errno (read_tmp slave reg_addr bit_offset endianness_type)
