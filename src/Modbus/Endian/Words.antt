-- ===== src/Modbus/Endian/Words.antt =====
-- The four orders of a 32-bit value, byte by byte.
use Prim.Native.Nat.{bit_and}
use knot_virtualthing.Prelude.{
  ℕ, ℤ, Bool, true, false, ◌≡◌, ap, ◌∙◌, List, [], ◌∷◌, arith, inl, inr, Bool-cases, eqb_ℤ,
}
use knot_virtualthing.Bits.{word, mask, keep, AreBytes, and-mask, or_fields}
use knot_virtualthing.Modbus.Endian.Wire.{received}
use knot_virtualthing.Modbus.Endian.{
  big_endian, mid_big_endian, little_endian, shr, shl32, config_endianness_32,
}

module _ (a b c d : ℕ) (h : AreBytes (a ∷ b ∷ c ∷ d ∷ [])) where
  right :
      (ks : List Bool) (k : ℕ)
      → shr (bit_and (word (a ∷ b ∷ c ∷ d ∷ [])) (word (mask ks))) k
        ≡ shr (word (keep ks (a ∷ b ∷ c ∷ d ∷ []))) k
  right ks k = ap (λ (t : ℕ). shr t k) (and-mask ks (a ∷ b ∷ c ∷ d ∷ []) h)

  left :
      (ks : List Bool) (k : ℕ)
      → shl32 (bit_and (word (a ∷ b ∷ c ∷ d ∷ [])) (word (mask ks))) k
        ≡ shl32 (word (keep ks (a ∷ b ∷ c ∷ d ∷ []))) k
  left ks k = ap (λ (t : ℕ). shl32 t k) (and-mask ks (a ∷ b ∷ c ∷ d ∷ []) h)

  big_lem : config_endianness_32 (word (a ∷ b ∷ c ∷ d ∷ [])) big_endian ≡ word (c ∷ d ∷ a ∷ b ∷ [])
  unfolding config_endianness_32
  big_lem =
      or_fields (c ∷ d ∷ 0 ∷ 0 ∷ []) (0 ∷ 0 ∷ a ∷ b ∷ []) (c ∷ d ∷ a ∷ b ∷ [])
        (right (false ∷ false ∷ true ∷ true ∷ []) 16 ∙ omega arith)
        (left (true ∷ true ∷ false ∷ false ∷ []) 16 ∙ omega arith) (omega arith) (omega arith)

  mid_big_lem :
      config_endianness_32 (word (a ∷ b ∷ c ∷ d ∷ [])) mid_big_endian ≡ word (d ∷ c ∷ b ∷ a ∷ [])
  unfolding config_endianness_32
  mid_big_lem =
      or_fields (d ∷ c ∷ b ∷ 0 ∷ []) (0 ∷ 0 ∷ 0 ∷ a ∷ []) (d ∷ c ∷ b ∷ a ∷ [])
        (or_fields (d ∷ c ∷ 0 ∷ 0 ∷ []) (0 ∷ 0 ∷ b ∷ 0 ∷ []) (d ∷ c ∷ b ∷ 0 ∷ [])
          (or_fields (d ∷ 0 ∷ 0 ∷ 0 ∷ []) (0 ∷ c ∷ 0 ∷ 0 ∷ []) (d ∷ c ∷ 0 ∷ 0 ∷ [])
            (right (false ∷ false ∷ false ∷ true ∷ []) 24 ∙ omega arith)
            (right (false ∷ false ∷ true ∷ false ∷ []) 8 ∙ omega arith) (omega arith) (omega arith))
          (left (false ∷ true ∷ false ∷ false ∷ []) 8 ∙ omega arith) (omega arith) (omega arith))
        (left (true ∷ false ∷ false ∷ false ∷ []) 24 ∙ omega arith) (omega arith) (omega arith)

  little_lem :
      config_endianness_32 (word (a ∷ b ∷ c ∷ d ∷ [])) little_endian ≡ word (b ∷ a ∷ d ∷ c ∷ [])
  unfolding config_endianness_32
  little_lem =
      or_fields (b ∷ 0 ∷ d ∷ c ∷ []) (0 ∷ a ∷ 0 ∷ 0 ∷ []) (b ∷ a ∷ d ∷ c ∷ [])
        (or_fields (0 ∷ 0 ∷ d ∷ c ∷ []) (b ∷ 0 ∷ 0 ∷ 0 ∷ []) (b ∷ 0 ∷ d ∷ c ∷ [])
          (or_fields (0 ∷ 0 ∷ d ∷ 0 ∷ []) (0 ∷ 0 ∷ 0 ∷ c ∷ []) (0 ∷ 0 ∷ d ∷ c ∷ [])
            (right (false ∷ false ∷ false ∷ true ∷ []) 8 ∙ omega arith)
            (left (false ∷ false ∷ true ∷ false ∷ []) 8 ∙ omega arith) (omega arith) (omega arith))
          (right (false ∷ true ∷ false ∷ false ∷ []) 8 ∙ omega arith) (omega arith) (omega arith))
        (left (true ∷ false ∷ false ∷ false ∷ []) 8 ∙ omega arith) (omega arith) (omega arith)

-- For every endianness type and every 32-bit value: from the registers that a slave of this type
-- sends for the value, the function restores the value. A type without a name counts as
-- MID_LITTLE_ENDIAN, whose registers hold the value as it is.
pub endianness_32_restores :
    (e : ℤ) (a b c d : ℕ)
    → AreBytes (a ∷ b ∷ c ∷ d ∷ [])
    → config_endianness_32 (word (received e (a ∷ b ∷ c ∷ d ∷ []))) e ≡ word (a ∷ b ∷ c ∷ d ∷ [])
unfolding config_endianness_32
endianness_32_restores e a b c d h = elim (Bool-cases (eqb_ℤ e big_endian)) [
  | inl p ↦ rw p (big_lem c d a b (omega arith))
  | inr p ↦ elim (Bool-cases (eqb_ℤ e mid_big_endian)) [
    | inl q ↦ rw (p, q) (mid_big_lem d c b a (omega arith))
    | inr q ↦ elim (Bool-cases (eqb_ℤ e little_endian)) [
      | inl r ↦ rw (p, q, r) (little_lem b a d c (omega arith))
      | inr r ↦ rw (p, q, r)
    ]
  ]
]
