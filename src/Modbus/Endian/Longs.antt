-- ===== src/Modbus/Endian/Longs.antt =====
-- The four orders of a 64-bit value, byte by byte.
use Prim.Native.Nat.{bit_and}
use knot_virtualthing.Prelude.{
  eqb→eq, ℕ, ℤ, Bool, true, false, ◌≡◌, ap, ◌∙◌, List, [], ◌∷◌, arith, inl, inr, Bool-cases, eqb_ℤ,
}
use knot_virtualthing.Bits.{word, mask, keep, AreBytes, and-mask, or_fields}
use knot_virtualthing.Modbus.Endian.Wire.{received}
use knot_virtualthing.Modbus.Endian.{
  big_endian, mid_big_endian, little_endian, shr, shl64, config_endianness_64, swap_bytes_64,
  swap_registers_64,
}

module _ (b0 b1 b2 b3 b4 b5 b6 b7 : ℕ)
    (h : AreBytes (b0 ∷ b1 ∷ b2 ∷ b3 ∷ b4 ∷ b5 ∷ b6 ∷ b7 ∷ [])) where
  right :
      (ks : List Bool) (k : ℕ)
      → shr (bit_and (word (b0 ∷ b1 ∷ b2 ∷ b3 ∷ b4 ∷ b5 ∷ b6 ∷ b7 ∷ [])) (word (mask ks))) k
        ≡ shr (word (keep ks (b0 ∷ b1 ∷ b2 ∷ b3 ∷ b4 ∷ b5 ∷ b6 ∷ b7 ∷ []))) k
  right ks k = ap (λ (t : ℕ). shr t k) (and-mask ks (b0 ∷ b1 ∷ b2 ∷ b3 ∷ b4 ∷ b5 ∷ b6 ∷ b7 ∷ []) h)

  left :
      (ks : List Bool) (k : ℕ)
      → shl64 (bit_and (word (b0 ∷ b1 ∷ b2 ∷ b3 ∷ b4 ∷ b5 ∷ b6 ∷ b7 ∷ [])) (word (mask ks))) k
        ≡ shl64 (word (keep ks (b0 ∷ b1 ∷ b2 ∷ b3 ∷ b4 ∷ b5 ∷ b6 ∷ b7 ∷ []))) k
  left ks k = ap (λ (t : ℕ). shl64 t k) (and-mask ks (b0 ∷ b1 ∷ b2 ∷ b3 ∷ b4 ∷ b5 ∷ b6 ∷ b7 ∷ []) h)

  swap_bytes_lem :
      swap_bytes_64 (word (b0 ∷ b1 ∷ b2 ∷ b3 ∷ b4 ∷ b5 ∷ b6 ∷ b7 ∷ []))
      ≡ word (b1 ∷ b0 ∷ b3 ∷ b2 ∷ b5 ∷ b4 ∷ b7 ∷ b6 ∷ [])
  unfolding swap_bytes_64
  swap_bytes_lem =
      or_fields (b1 ∷ 0 ∷ b3 ∷ b2 ∷ b5 ∷ b4 ∷ b7 ∷ b6 ∷ []) (0 ∷ b0 ∷ 0 ∷ 0 ∷ 0 ∷ 0 ∷ 0 ∷ 0 ∷ [])
        (b1 ∷ b0 ∷ b3 ∷ b2 ∷ b5 ∷ b4 ∷ b7 ∷ b6 ∷ [])
        (or_fields (0 ∷ 0 ∷ b3 ∷ b2 ∷ b5 ∷ b4 ∷ b7 ∷ b6 ∷ []) (b1 ∷ 0 ∷ 0 ∷ 0 ∷ 0 ∷ 0 ∷ 0 ∷ 0 ∷ [])
          (b1 ∷ 0 ∷ b3 ∷ b2 ∷ b5 ∷ b4 ∷ b7 ∷ b6 ∷ [])
          (or_fields (0 ∷ 0 ∷ b3 ∷ 0 ∷ b5 ∷ b4 ∷ b7 ∷ b6 ∷ []) (0 ∷ 0 ∷ 0 ∷ b2 ∷ 0 ∷ 0 ∷ 0 ∷ 0 ∷ [])
            (0 ∷ 0 ∷ b3 ∷ b2 ∷ b5 ∷ b4 ∷ b7 ∷ b6 ∷ [])
            (or_fields (0 ∷ 0 ∷ 0 ∷ 0 ∷ b5 ∷ b4 ∷ b7 ∷ b6 ∷ [])
              (0 ∷ 0 ∷ b3 ∷ 0 ∷ 0 ∷ 0 ∷ 0 ∷ 0 ∷ []) (0 ∷ 0 ∷ b3 ∷ 0 ∷ b5 ∷ b4 ∷ b7 ∷ b6 ∷ [])
              (or_fields (0 ∷ 0 ∷ 0 ∷ 0 ∷ b5 ∷ 0 ∷ b7 ∷ b6 ∷ [])
                (0 ∷ 0 ∷ 0 ∷ 0 ∷ 0 ∷ b4 ∷ 0 ∷ 0 ∷ []) (0 ∷ 0 ∷ 0 ∷ 0 ∷ b5 ∷ b4 ∷ b7 ∷ b6 ∷ [])
                (or_fields (0 ∷ 0 ∷ 0 ∷ 0 ∷ 0 ∷ 0 ∷ b7 ∷ b6 ∷ [])
                  (0 ∷ 0 ∷ 0 ∷ 0 ∷ b5 ∷ 0 ∷ 0 ∷ 0 ∷ []) (0 ∷ 0 ∷ 0 ∷ 0 ∷ b5 ∷ 0 ∷ b7 ∷ b6 ∷ [])
                  (or_fields (0 ∷ 0 ∷ 0 ∷ 0 ∷ 0 ∷ 0 ∷ b7 ∷ 0 ∷ [])
                    (0 ∷ 0 ∷ 0 ∷ 0 ∷ 0 ∷ 0 ∷ 0 ∷ b6 ∷ []) (0 ∷ 0 ∷ 0 ∷ 0 ∷ 0 ∷ 0 ∷ b7 ∷ b6 ∷ [])
                    (right (false ∷ false ∷ false ∷ false ∷ false ∷ false ∷ false ∷ true ∷ []) 8
                      ∙ omega arith)
                    (left (false ∷ false ∷ false ∷ false ∷ false ∷ false ∷ true ∷ false ∷ []) 8
                      ∙ omega arith)
                    (omega arith) (omega arith))
                  (right (false ∷ false ∷ false ∷ false ∷ false ∷ true ∷ false ∷ false ∷ []) 8
                    ∙ omega arith)
                  (omega arith) (omega arith))
                (left (false ∷ false ∷ false ∷ false ∷ true ∷ false ∷ false ∷ false ∷ []) 8
                  ∙ omega arith)
                (omega arith) (omega arith))
              (right (false ∷ false ∷ false ∷ true ∷ false ∷ false ∷ false ∷ false ∷ []) 8
                ∙ omega arith)
              (omega arith) (omega arith))
            (left (false ∷ false ∷ true ∷ false ∷ false ∷ false ∷ false ∷ false ∷ []) 8
              ∙ omega arith)
            (omega arith) (omega arith))
          (right (false ∷ true ∷ false ∷ false ∷ false ∷ false ∷ false ∷ false ∷ []) 8
            ∙ omega arith)
          (omega arith) (omega arith))
        (left (true ∷ false ∷ false ∷ false ∷ false ∷ false ∷ false ∷ false ∷ []) 8 ∙ omega arith)
        (omega arith) (omega arith)

  swap_registers_lem :
      swap_registers_64 (word (b0 ∷ b1 ∷ b2 ∷ b3 ∷ b4 ∷ b5 ∷ b6 ∷ b7 ∷ []))
      ≡ word (b6 ∷ b7 ∷ b4 ∷ b5 ∷ b2 ∷ b3 ∷ b0 ∷ b1 ∷ [])
  unfolding swap_registers_64
  swap_registers_lem =
      or_fields (b6 ∷ b7 ∷ b4 ∷ b5 ∷ b2 ∷ b3 ∷ 0 ∷ 0 ∷ []) (0 ∷ 0 ∷ 0 ∷ 0 ∷ 0 ∷ 0 ∷ b0 ∷ b1 ∷ [])
        (b6 ∷ b7 ∷ b4 ∷ b5 ∷ b2 ∷ b3 ∷ b0 ∷ b1 ∷ [])
        (or_fields (b6 ∷ b7 ∷ b4 ∷ b5 ∷ 0 ∷ 0 ∷ 0 ∷ 0 ∷ []) (0 ∷ 0 ∷ 0 ∷ 0 ∷ b2 ∷ b3 ∷ 0 ∷ 0 ∷ [])
          (b6 ∷ b7 ∷ b4 ∷ b5 ∷ b2 ∷ b3 ∷ 0 ∷ 0 ∷ [])
          (or_fields (b6 ∷ b7 ∷ 0 ∷ 0 ∷ 0 ∷ 0 ∷ 0 ∷ 0 ∷ []) (0 ∷ 0 ∷ b4 ∷ b5 ∷ 0 ∷ 0 ∷ 0 ∷ 0 ∷ [])
            (b6 ∷ b7 ∷ b4 ∷ b5 ∷ 0 ∷ 0 ∷ 0 ∷ 0 ∷ [])
            (right (false ∷ false ∷ false ∷ false ∷ false ∷ false ∷ true ∷ true ∷ []) 48
              ∙ omega arith)
            (right (false ∷ false ∷ false ∷ false ∷ true ∷ true ∷ false ∷ false ∷ []) 16
              ∙ omega arith)
            (omega arith) (omega arith))
          (left (false ∷ false ∷ true ∷ true ∷ false ∷ false ∷ false ∷ false ∷ []) 16 ∙ omega arith)
          (omega arith) (omega arith))
        (left (true ∷ true ∷ false ∷ false ∷ false ∷ false ∷ false ∷ false ∷ []) 48 ∙ omega arith)
        (omega arith) (omega arith)

-- For every endianness type and every 64-bit value: from the registers that a slave of this type
-- sends for the value, the function restores the value. A type without a name counts as
-- MID_LITTLE_ENDIAN, whose registers hold the value as it is.
pub endianness_64_restores :
    (e : ℤ) (b0 b1 b2 b3 b4 b5 b6 b7 : ℕ)
    → AreBytes (b0 ∷ b1 ∷ b2 ∷ b3 ∷ b4 ∷ b5 ∷ b6 ∷ b7 ∷ [])
    → config_endianness_64 (word (received e (b0 ∷ b1 ∷ b2 ∷ b3 ∷ b4 ∷ b5 ∷ b6 ∷ b7 ∷ []))) e
      ≡ word (b0 ∷ b1 ∷ b2 ∷ b3 ∷ b4 ∷ b5 ∷ b6 ∷ b7 ∷ [])
unfolding config_endianness_64
endianness_64_restores e b0 b1 b2 b3 b4 b5 b6 b7 h = elim (Bool-cases (eqb_ℤ e big_endian)) [
  | inl p ↦ rw (eqb→eq e big_endian p) (swap_registers_lem b6 b7 b4 b5 b2 b3 b0 b1 (omega arith))
  | inr p ↦ elim (Bool-cases (eqb_ℤ e mid_big_endian)) [
    | inl q ↦ rw (eqb→eq e mid_big_endian q) (
        ap swap_registers_64 (swap_bytes_lem b7 b6 b5 b4 b3 b2 b1 b0 (omega arith))
        ∙ swap_registers_lem b6 b7 b4 b5 b2 b3 b0 b1 (omega arith))
    | inr q ↦ elim (Bool-cases (eqb_ℤ e little_endian)) [
      | inl r ↦ rw (eqb→eq e little_endian r) (swap_bytes_lem b1 b0 b3 b2 b5 b4 b7 b6 (omega arith))
      | inr r ↦ rw (p, q, r)
    ]
  ]
]
