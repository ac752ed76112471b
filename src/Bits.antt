-- ===== src/Bits.antt =====
-- `&` and `|` on words that are written byte by byte: they work on each byte by itself.
use Prim.Native.Nat.{bit_and, bit_or, digits, bit_and-bitwise, bit_or-bitwise, min, max}
use mathlib.Core.Path.{ap₂}
use knot_virtualthing.Prelude.{
  ◌⊎◌, inl, inr, ◌∙◌, sym, false, ℕ, zero, suc, List, [], ◌∷◌, ◌+◌, ◌*◌, ◌/◌, ◌%◌, ◌<◌, ◌≤◌, ◌≡◌,
  refl, Bool, true, ◌&&◌, arith, ◌==◌,
}

-- The digit recursion that both operations stand for, with its fuel, over the two digit functions.
module _ (one : ℕ → ℕ) (join : ℕ → ℕ → ℕ) where
  enough_fuel : (n m a b : ℕ) → a ≤ n → a ≤ m → digits one join n a b ≡ digits one join m a b
  enough_fuel zero zero a b p q = refl
  enough_fuel zero (suc m) zero b p q = refl
  enough_fuel zero (suc m) (suc a) b p q = absurd (omega arith)
  enough_fuel (suc n) zero zero b p q = refl
  enough_fuel (suc n) zero (suc a) b p q = absurd (omega arith)
  enough_fuel (suc n) (suc m) zero b p q = refl
  enough_fuel (suc n) (suc m) (suc a) b p q =
      omega (arith, enough_fuel n m (suc a / 2) (b / 2) (omega arith) (omega arith))

zero-and : (b : ℕ) → bit_and 0 b ≡ 0
zero-and b = bit_and-bitwise 0 b

zero-or : (b : ℕ) → bit_or 0 b ≡ b
zero-or b = bit_or-bitwise 0 b

and_digit : (a b : ℕ) → bit_and a b ≡ bit_and (a / 2) (b / 2) * 2 + min (a % 2) (b % 2)
and_digit zero b = omega (arith, zero-and b, zero-and (b / 2))
and_digit (suc a) b = omega (
  arith,
  bit_and-bitwise (suc a) b,
  bit_and-bitwise (suc a / 2) (b / 2),
  enough_fuel (λ _. zero) min a (suc a / 2) (suc a / 2) (b / 2) (omega arith) (omega arith),
)

or_digit : (a b : ℕ) → bit_or a b ≡ bit_or (a / 2) (b / 2) * 2 + max (a % 2) (b % 2)
or_digit zero b = omega (arith, zero-or b, zero-or (b / 2))
or_digit (suc a) b = omega (
  arith,
  bit_or-bitwise (suc a) b,
  bit_or-bitwise (suc a / 2) (b / 2),
  enough_fuel (λ b. b) max a (suc a / 2) (suc a / 2) (b / 2) (omega arith) (omega arith),
)

-- `f` works on the digits below the base `k` and on the rest separately.
abbrev pub IsDigitwise : (ℕ → ℕ → ℕ) → ℕ → Type 0
IsDigitwise f k = (a m b n : ℕ) → a < k → m < k → f (a + k * b) (m + k * n) ≡ f a m + k * f b n

and_two : IsDigitwise bit_and 2
and_two a m b n p q =
    let high : (a + 2 * b) / 2 ≡ b = omega arith in
    let high' : (m + 2 * n) / 2 ≡ n = omega arith in
    let low : a / 2 ≡ 0 = omega arith in
    ground (arith, and_digit (a + 2 * b) (m + 2 * n), and_digit a m, zero-and (m / 2))

or_two : IsDigitwise bit_or 2
or_two a m b n p q =
    let high : (a + 2 * b) / 2 ≡ b = omega arith in
    let high' : (m + 2 * n) / 2 ≡ n = omega arith in
    let low : a / 2 ≡ 0 = omega arith in
    ground (arith, or_digit (a + 2 * b) (m + 2 * n), or_digit a m, zero-or (m / 2))

-- From a base to its square, at the numerals that lead from a bit to a byte.
module _ (f : ℕ → ℕ → ℕ) where
  four : IsDigitwise f 2 → IsDigitwise f 4
  four h a m b n p q =
      let e : a + 4 * b ≡ a % 2 + 2 * (a / 2 + 2 * b) = omega arith in
      let e' : m + 4 * n ≡ m % 2 + 2 * (m / 2 + 2 * n) = omega arith in
      let d : a ≡ a % 2 + 2 * (a / 2) = omega arith in
      let d' : m ≡ m % 2 + 2 * (m / 2) = omega arith in
      omega (
        arith,
        ap₂ f e e',
        ap₂ f d d',
        h (a % 2) (m % 2) (a / 2 + 2 * b) (m / 2 + 2 * n) (omega arith) (omega arith),
        h (a % 2) (m % 2) (a / 2) (m / 2) (omega arith) (omega arith),
        h (a / 2) (m / 2) b n (omega arith) (omega arith),
      )

  sixteen : IsDigitwise f 4 → IsDigitwise f 16
  sixteen h a m b n p q =
      let e : a + 16 * b ≡ a % 4 + 4 * (a / 4 + 4 * b) = omega arith in
      let e' : m + 16 * n ≡ m % 4 + 4 * (m / 4 + 4 * n) = omega arith in
      let d : a ≡ a % 4 + 4 * (a / 4) = omega arith in
      let d' : m ≡ m % 4 + 4 * (m / 4) = omega arith in
      omega (
        arith,
        ap₂ f e e',
        ap₂ f d d',
        h (a % 4) (m % 4) (a / 4 + 4 * b) (m / 4 + 4 * n) (omega arith) (omega arith),
        h (a % 4) (m % 4) (a / 4) (m / 4) (omega arith) (omega arith),
        h (a / 4) (m / 4) b n (omega arith) (omega arith),
      )

  byte : IsDigitwise f 16 → IsDigitwise f 256
  byte h a m b n p q =
      let e : a + 256 * b ≡ a % 16 + 16 * (a / 16 + 16 * b) = omega arith in
      let e' : m + 256 * n ≡ m % 16 + 16 * (m / 16 + 16 * n) = omega arith in
      let d : a ≡ a % 16 + 16 * (a / 16) = omega arith in
      let d' : m ≡ m % 16 + 16 * (m / 16) = omega arith in
      omega (
        arith,
        ap₂ f e e',
        ap₂ f d d',
        h (a % 16) (m % 16) (a / 16 + 16 * b) (m / 16 + 16 * n) (omega arith) (omega arith),
        h (a % 16) (m % 16) (a / 16) (m / 16) (omega arith) (omega arith),
        h (a / 16) (m / 16) b n (omega arith) (omega arith),
      )

and_byte : IsDigitwise bit_and 256
and_byte = byte bit_and (sixteen bit_and (four bit_and and_two))

or_byte : IsDigitwise bit_or 256
or_byte = byte bit_or (sixteen bit_or (four bit_or or_two))

-- A word, its lowest byte first.
abbrev pub word : List ℕ → ℕ
word [] = 0
word (b ∷ bs) = b + 256 * word bs

abbrev pub AreBytes : List ℕ → Type 0
AreBytes [] = Unit
AreBytes (b ∷ bs) = (b < 256) × AreBytes bs

-- At every place one of the two words has the byte 0.
abbrev pub AreDisjoint : List ℕ → List ℕ → Type 0
AreDisjoint [] [] = Unit
AreDisjoint [] (b ∷ bs) = ⊥
AreDisjoint (a ∷ xs) [] = ⊥
AreDisjoint (a ∷ xs) (b ∷ bs) = (a < 256) × (b < 256) × ((a ≡ 0) ⊎ (b ≡ 0)) × AreDisjoint xs bs

-- A mask of whole bytes.
abbrev pub mask : List Bool → List ℕ
mask [] = []
mask (true ∷ ks) = 255 ∷ mask ks
mask (false ∷ ks) = 0 ∷ mask ks

abbrev pub keep : List Bool → List ℕ → List ℕ
keep [] bs = []
keep (k ∷ ks) [] = []
keep (true ∷ ks) (b ∷ bs) = b ∷ keep ks bs
keep (false ∷ ks) (b ∷ bs) = 0 ∷ keep ks bs

unfoldable pub all_below : ℕ → (ℕ → Bool) → Bool
all_below zero p = true
all_below (suc n) p = p n && all_below n p

pub all_below_sound : (n : ℕ) (p : ℕ → Bool) (x : ℕ) → all_below n p ≡ true → x < n → p x ≡ true
unfolding all_below
all_below_sound zero p x h l = absurd (omega arith)
all_below_sound (suc n) p x h l = ground (arith, all_below_sound n p x)

byte_table :
    all_below 256 (λ b. (bit_and b 255 == b) && (bit_and b 0 == 0) && (bit_or b 0 == b)) ≡ true
unfolding all_below
byte_table = refl

byte_laws : (b : ℕ) → b < 256 → (bit_and b 255 ≡ b) × (bit_and b 0 ≡ 0) × (bit_or b 0 ≡ b)
byte_laws b h =
    let t =
      all_below_sound 256 (λ b. (bit_and b 255 == b) && (bit_and b 0 == 0) && (bit_or b 0 == b)) b
        byte_table h in
    ground arith

-- `x & mask` keeps the bytes of the mask and clears the others.
pub and-mask :
    (ks : List Bool) (bs : List ℕ)
    → AreBytes bs
    → bit_and (word bs) (word (mask ks)) ≡ word (keep ks bs)
and-mask [] [] h = zero-and 0
and-mask [] (b ∷ bs) h =
    omega (arith, and_byte b 0 (word bs) 0, and-mask [] bs h.1, byte_laws b h.0)
and-mask (k ∷ ks) [] h = zero-and _
and-mask (true ∷ ks) (b ∷ bs) h =
    omega (arith, and_byte b 255 (word bs) (word (mask ks)), and-mask ks bs h.1, byte_laws b h.0)
and-mask (false ∷ ks) (b ∷ bs) h =
    omega (arith, and_byte b 0 (word bs) (word (mask ks)), and-mask ks bs h.1, byte_laws b h.0)

or-sum : (xs bs : List ℕ) → AreDisjoint xs bs → bit_or (word xs) (word bs) ≡ word xs + word bs
or-sum [] [] h = zero-or 0
or-sum [] (b ∷ bs) h = absurd h
or-sum (a ∷ xs) [] h = absurd h
or-sum (a ∷ xs) (b ∷ bs) (p, q, inl e, h) =
    ground (arith, or_byte a b (word xs) (word bs), or-sum xs bs h, zero-or b)
or-sum (a ∷ xs) (b ∷ bs) (p, q, inr e, h) =
    ground (arith, or_byte a b (word xs) (word bs), or-sum xs bs h, byte_laws a p)

-- `x | y` of words that share no byte is their sum.
pub or_fields :
    (xs bs cs : List ℕ) {x y : ℕ}
    → x ≡ word xs
    → y ≡ word bs
    → AreDisjoint xs bs
    → word cs ≡ word xs + word bs
    → bit_or x y ≡ word cs
or_fields xs bs cs e f d s = ap₂ bit_or e f ∙ or-sum xs bs d ∙ sym s
