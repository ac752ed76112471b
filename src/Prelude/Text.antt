-- ===== src/Prelude/Text.antt =====
-- Texts as lists of bytes, and the string functions of C that the code uses.
use Prim.Native.Nat.{ℕ, zero, suc}
use Prim.Native.Char.{code}
use Prim.Native.String.{String}
use mathlib.Core.Bool.{Bool, true, false, ◌&&◌}
use mathlib.Core.List.{List, [], ◌∷◌}
use knot_virtualthing.Prelude.Tests.{◌==◌, leb}

abbrev pub codes : String → List ℕ
codes String.[] = []
codes (String.◌∷◌ c s) = code c ∷ codes s

-- strncmp(text, prefix, strlen(prefix)) == 0
abbrev pub is_prefix : List ℕ → List ℕ → Bool
is_prefix [] text = true
is_prefix (p ∷ ps) [] = false
is_prefix (p ∷ ps) (c ∷ cs) = (p == c) && is_prefix ps cs

abbrev pub is_digit : ℕ → Bool
is_digit c = leb b'0' c && leb c b'9'

abbrev pub length {ℓ} : {A : Type ℓ} → List A → ℕ
length [] = 0
length (x ∷ xs) = suc (length xs)

abbrev pub strlen : String → ℕ
strlen s = length (codes s)

-- The bytes that strncpy copies from a text, at most `n`.
abbrev pub strncpy : ℕ → String → String
strncpy zero s = String.[]
strncpy (suc n) String.[] = String.[]
strncpy (suc n) (String.◌∷◌ c s) = String.◌∷◌ c (strncpy n s)
