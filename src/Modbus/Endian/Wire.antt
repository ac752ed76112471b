-- ===== src/Modbus/Endian/Wire.antt =====
-- What a Modbus slave of each endianness type sends, independently of src/iface-modbus.c: how the
-- bytes of a value (the lowest first) lie in the registers that the host has received (each register
-- two bytes, the lowest first).
use knot_virtualthing.Prelude.{ℕ, ℤ, List, [], ◌∷◌, ◌++◌, eqb_ℤ, if◌then◌else◌}
use knot_virtualthing.Modbus.Endian.{big_endian, mid_big_endian, little_endian}

-- the highest register first
abbrev pub reverse_registers : List ℕ → List ℕ
reverse_registers [] = []
reverse_registers (a ∷ []) = a ∷ []
reverse_registers (a ∷ b ∷ bs) = reverse_registers bs ++ (a ∷ b ∷ [])

-- the two bytes of each register exchanged
abbrev pub swap_in_registers : List ℕ → List ℕ
swap_in_registers [] = []
swap_in_registers (a ∷ []) = a ∷ []
swap_in_registers (a ∷ b ∷ bs) = b ∷ a ∷ swap_in_registers bs

abbrev pub received : ℤ → List ℕ → List ℕ
received e bs =
    if eqb_ℤ e big_endian
    then reverse_registers bs
    else if eqb_ℤ e mid_big_endian
    then reverse_registers (swap_in_registers bs)
    else if eqb_ℤ e little_endian
    then swap_in_registers bs
    else bs
