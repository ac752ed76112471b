-- ===== src/Modbus/Read/Values.antt =====
-- What src/iface-modbus.c reads from a slave that answers with the registers or bits of a value.
use knot_virtualthing.Prelude.{
  ℕ, ◌/◌, ◌%◌, ◌^◌, ◌<◌, ℤ, true, false, ◌≡◌, refl, ap, some, List, [], ◌∷◌, arith, is_neg, ◌==◌,
  ==_iff,
}
use knot_virtualthing.Bits.{word, AreBytes, all_below, all_below_sound}
use knot_virtualthing.Modbus.Endian.Wire.{received}
use knot_virtualthing.Modbus.Endian.Words.{endianness_32_restores}
use knot_virtualthing.Modbus.Endian.Longs.{endianness_64_restores}
use knot_virtualthing.Modbus.Read.{
  Slave, type_byte, type_u32, type_u64, collect_bits, iface_modbus_read_data,
}

-- the eight bits of a byte, the lowest first
abbrev pub bits_of : ℕ → List ℕ
bits_of n =
    n % 2
    ∷ n / 2 % 2
    ∷ n / 4 % 2
    ∷ n / 8 % 2
    ∷ n / 16 % 2
    ∷ n / 32 % 2
    ∷ n / 64 % 2
    ∷ n / 128 % 2
    ∷ []

bits_table : all_below 256 (λ n. collect_bits (bits_of n) 0 0 == n) ≡ true
unfolding all_below collect_bits
bits_table = refl

received_32_below :
    (e : ℤ) (a b c d : ℕ)
    → AreBytes (a ∷ b ∷ c ∷ d ∷ [])
    → word (received e (a ∷ b ∷ c ∷ d ∷ [])) < 2 ^ 32
received_32_below e a b c d h = ground arith

received_64_below :
    (e : ℤ) (a b c d a' b' c' d' : ℕ)
    → AreBytes (a ∷ b ∷ c ∷ d ∷ a' ∷ b' ∷ c' ∷ d' ∷ [])
    → word (received e (a ∷ b ∷ c ∷ d ∷ a' ∷ b' ∷ c' ∷ d' ∷ [])) < 2 ^ 64
received_64_below e a b c d a' b' c' d' h = ground arith

below_32 : (n : ℕ) → n < 2 ^ 32 → n % 2 ^ 32 ≡ n
below_32 n h = omega arith

below_64 : (n : ℕ) → n < 2 ^ 64 → n % 2 ^ 64 ≡ n
below_64 n h = omega arith

module _ (slave : Slave) (reg_addr : ℤ) (e rc : ℤ) (ok : is_neg rc ≡ false) where
  -- If the slave answers a read of eight bits with the bits of a byte, the lowest first, then the
  -- value that is read is that byte.
  pub read_byte :
      (n : ℕ)
      → n < 256
      → slave.read_input_bits reg_addr 8 ≡ (rc, bits_of n)
      → iface_modbus_read_data slave reg_addr type_byte e ≡ (rc, some n)
  unfolding iface_modbus_read_data
  read_byte n l h = rw (
    h,
    ok,
    (==_iff _ n).0 (all_below_sound 256 (λ n. collect_bits (bits_of n) 0 0 == n) n bits_table l),
  )

  -- If the slave answers a read of two registers with those that a slave of the endianness type
  -- sends for a 32-bit value, then that value is read.
  pub read_u32 :
      (a b c d : ℕ)
      → AreBytes (a ∷ b ∷ c ∷ d ∷ [])
      → slave.read_registers reg_addr 2 ≡ (rc, word (received e (a ∷ b ∷ c ∷ d ∷ [])))
      → iface_modbus_read_data slave reg_addr type_u32 e ≡ (rc, some (word (a ∷ b ∷ c ∷ d ∷ [])))
  unfolding iface_modbus_read_data
  read_u32 a b c d l h =
      rw (h, ok, below_32 _ (received_32_below e a b c d l))
        (ap (λ (v : ℕ). (rc, some v)) (endianness_32_restores e a b c d l))

  -- If the slave answers a read of four registers with those that a slave of the endianness type
  -- sends for a 64-bit value, then that value is read.
  pub read_u64 :
      (a b c d a' b' c' d' : ℕ)
      → AreBytes (a ∷ b ∷ c ∷ d ∷ a' ∷ b' ∷ c' ∷ d' ∷ [])
      → slave.read_registers reg_addr 4
        ≡ (rc, word (received e (a ∷ b ∷ c ∷ d ∷ a' ∷ b' ∷ c' ∷ d' ∷ [])))
      → iface_modbus_read_data slave reg_addr type_u64 e
        ≡ (rc, some (word (a ∷ b ∷ c ∷ d ∷ a' ∷ b' ∷ c' ∷ d' ∷ [])))
  unfolding iface_modbus_read_data
  read_u64 a b c d a' b' c' d' l h =
      rw (h, ok, below_64 _ (received_64_below e a b c d a' b' c' d' l))
        (ap (λ (v : ℕ). (rc, some v)) (endianness_64_restores e a b c d a' b' c' d' l))
