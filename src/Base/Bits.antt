-- ===== src/Base/Bits.antt =====
-- Facts on bits: tables over small ranges, and masks at any number.
use Prim.Native.Nat.{
  max, digits, bit_or-bitwise, ℕ, zero, suc, ◌+◌, ◌*◌, ◌/◌, ◌%◌, ◌≤◌, ◌<◌, bit_or,
}
use mathlib.Core.Path.{◌≡◌, refl}
use mathlib.Core.Bool.{Bool, true, ◌&&◌}
use native.Mathlib.Omega.{arith}

unfoldable pub all_below : ℕ → (ℕ → Bool) → Bool
all_below zero test = true
all_below (suc bound) test = all_below bound test && test bound

pub all_below_sound :
    (bound : ℕ) (test : ℕ → Bool) (v : ℕ) → all_below bound test ≡ true → v < bound → test v ≡ true
unfolding all_below
all_below_sound (suc bound) test v all small = ground (arith, all_below_sound bound test v)
all_below_sound zero test v all small = absurd (omega arith)

-- `bit_or` by its lowest digit. Its definition counts digits down; any count that is large enough
-- gives the same number.
abbrev or_upto : ℕ → ℕ → ℕ → ℕ
or_upto count a b = digits (λ c. c) max count a b

or_upto_enough : (p q a b : ℕ) → a ≤ p → a ≤ q → or_upto p a b ≡ or_upto q a b
or_upto_enough (suc p) (suc q) zero b hp hq = refl
or_upto_enough (suc p) zero zero b hp hq = refl
or_upto_enough zero (suc q) zero b hp hq = refl
or_upto_enough zero zero a b hp hq = refl
or_upto_enough zero (suc q) (suc a) b hp hq = absurd (omega arith)
or_upto_enough (suc p) zero (suc a) b hp hq = absurd (omega arith)
or_upto_enough (suc p) (suc q) (suc a) b hp hq =
    let ih = or_upto_enough p q (suc a / 2) (b / 2) (omega arith) (omega arith) in omega (arith, ih)

pub zero-bit_or : (b : ℕ) → bit_or 0 b ≡ b
zero-bit_or b = bit_or-bitwise 0 b

pub bit_or_digit : (a b : ℕ) → bit_or a b ≡ bit_or (a / 2) (b / 2) * 2 + max (a % 2) (b % 2)
bit_or_digit zero b = omega (arith, zero-bit_or b, zero-bit_or (b / 2))
bit_or_digit (suc a) b =
    let here = bit_or-bitwise (suc a) b in
    let below = bit_or-bitwise (suc a / 2) (b / 2) in
    let same = or_upto_enough a (suc a / 2) (suc a / 2) (b / 2) (omega arith) (omega arith) in
    omega (arith, here, below, same)

bit_or-zero_upto : (n a : ℕ) → a ≤ n → bit_or a 0 ≡ a
bit_or-zero_upto n zero h = zero-bit_or 0
bit_or-zero_upto zero (suc a) h = absurd (omega arith)
bit_or-zero_upto (suc n) (suc a) h =
    omega (arith, bit_or_digit (suc a) 0, bit_or-zero_upto n (suc a / 2) (omega arith))

pub bit_or-zero : (a : ℕ) → bit_or a 0 ≡ a
bit_or-zero a = bit_or-zero_upto a a (omega arith)

-- Setting a flag that is clear adds it. The flags are those of the page tables: P, R_W, U_S, PS.
pub or_one : (a : ℕ) → a % 2 ≡ 0 → bit_or a 1 ≡ a + 1
or_one a h = omega (arith, bit_or_digit a 1, bit_or-zero (a / 2))

pub or_two : (a : ℕ) → a % 4 < 2 → bit_or a 2 ≡ a + 2
or_two a h = omega (arith, bit_or_digit a 2, or_one (a / 2))

pub or_four : (a : ℕ) → a % 8 < 4 → bit_or a 4 ≡ a + 4
or_four a h = omega (arith, bit_or_digit a 4, or_two (a / 2))

or_sixteen : (a : ℕ) → a % 32 < 16 → bit_or a 16 ≡ a + 16
or_sixteen a h = omega (arith, bit_or_digit a 16, bit_or_digit (a / 2) 8, or_four (a / 2 / 2))

pub or_128 : (a : ℕ) → a % 256 < 128 → bit_or a 128 ≡ a + 128
or_128 a h = omega (
  arith,
  bit_or_digit a 128,
  bit_or_digit (a / 2) 64,
  bit_or_digit (a / 2 / 2) 32,
  or_sixteen (a / 2 / 2 / 2),
)
