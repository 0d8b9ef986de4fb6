-- ===== src/Common/Bits.antt =====
-- `&` and `|` as arithmetic, at every width: the recursion of both on binary digits, a single bit,
-- a low mask, and disjoint fields.
use Prim.Native.Nat.{
  ℕ, zero, suc, ◌+◌, ◌-◌, ◌*◌, ◌/◌, ◌%◌, ◌^◌, ◌≤◌, ◌<◌, min, max, digits, bitwise, bit_and, bit_or,
  bit_and-bitwise, bit_or-bitwise,
}
use mathlib.Core.Path.{◌≡◌, refl, ap}
use mathlib.Core.Bool.{Bool, true, not, ◌&&◌}
use native.Mathlib.Nat.{pow-suc, one-le-pow, div-div-eq-div-mul}
use native.Mathlib.Omega.{arith}
use toy_bootloader.Common.Tests.{◌==◌}

-- `VAL & (1 << BIT)` as a condition.
unfoldable pub test_bit : ℕ → ℕ → Bool
test_bit v b = not (bit_and v (2 ^ b) == 0)

-- The digits above the fuel are zero, so any two sufficient amounts of fuel agree.
module _ (at_end : ℕ → ℕ) (op : ℕ → ℕ → ℕ) where
  digits_enough : (f g a b : ℕ) → a ≤ f → a ≤ g → digits at_end op f a b ≡ digits at_end op g a b
  digits_enough zero zero a b p q = refl
  digits_enough zero (suc g) zero b p q = refl
  digits_enough zero (suc g) (suc a) b p q = absurd (omega arith)
  digits_enough (suc f) zero zero b p q = refl
  digits_enough (suc f) zero (suc a) b p q = absurd (omega arith)
  digits_enough (suc f) (suc g) zero b p q = refl
  digits_enough (suc f) (suc g) (suc a) b p q =
      rw (digits_enough f g (suc a / 2) (b / 2) (omega arith) (omega arith))

  bitwise_halves :
      (a b : ℕ)
      → bitwise at_end op (suc a) b
        ≡ bitwise at_end op (suc a / 2) (b / 2) * 2 + op (suc a % 2) (b % 2)
  bitwise_halves a b =
      omega (arith, digits_enough a (suc a / 2) (suc a / 2) (b / 2) (omega arith) (omega arith))

pub bit_and_halves : (a b : ℕ) → bit_and a b ≡ bit_and (a / 2) (b / 2) * 2 + min (a % 2) (b % 2)
bit_and_halves zero b = simp bit_and-bitwise (omega arith)
bit_and_halves (suc a) b = simp bit_and-bitwise (bitwise_halves (λ y. 0) min a b)

pub bit_or_halves : (a b : ℕ) → bit_or a b ≡ bit_or (a / 2) (b / 2) * 2 + max (a % 2) (b % 2)
bit_or_halves zero b = simp bit_or-bitwise (omega arith)
bit_or_halves (suc a) b = simp bit_or-bitwise (bitwise_halves (λ y. y) max a b)

and_zero_fuel : (f a : ℕ) → a ≤ f → bit_and a 0 ≡ 0
and_zero_fuel f zero h = refl
and_zero_fuel zero (suc a) h = absurd (omega arith)
and_zero_fuel (suc f) (suc a) h =
    omega (arith, bit_and_halves (suc a) 0, and_zero_fuel f (suc a / 2) (omega arith))

pub bit_and-zero : (a : ℕ) → bit_and a 0 ≡ 0
bit_and-zero a = and_zero_fuel a a (omega arith)

or_zero_fuel : (f a : ℕ) → a ≤ f → bit_or a 0 ≡ a
or_zero_fuel f zero h = refl
or_zero_fuel zero (suc a) h = absurd (omega arith)
or_zero_fuel (suc f) (suc a) h =
    omega (arith, bit_or_halves (suc a) 0, or_zero_fuel f (suc a / 2) (omega arith))

pub bit_or-zero : (a : ℕ) → bit_or a 0 ≡ a
bit_or-zero a = or_zero_fuel a a (omega arith)

double-pow : (q k : ℕ) → q * 2 ^ suc k ≡ 2 * (q * 2 ^ k)
double-pow q k = omega (arith, ap (λ (t : ℕ). q * t) (pow-suc 2 k))

halve-pow : (a k : ℕ) → a / 2 ^ suc k ≡ a / 2 / 2 ^ k
halve-pow a k = omega (arith, div-div-eq-div-mul a 2 (2 ^ k), ap (λ (t : ℕ). a / t) (double k))
  where
    double : (k : ℕ) → 2 ^ suc k ≡ 2 * 2 ^ k
    double k = omega (arith, pow-suc 2 k)

-- A single bit.
pub bit_and-pow : (k a : ℕ) → bit_and a (2 ^ k) ≡ a / 2 ^ k % 2 * 2 ^ k
bit_and-pow zero a = omega (arith, bit_and_halves a 1, bit_and-zero (a / 2))
bit_and-pow (suc k) a = ground (
  arith,
  bit_and_halves a (2 ^ suc k),
  pow-suc 2 k,
  double-pow (a / 2 ^ suc k % 2) k,
  halve-pow a k,
  bit_and-pow k (a / 2),
)

-- Setting a single bit.
pub bit_or-pow : (k a : ℕ) → bit_or a (2 ^ k) / 2 ^ k % 2 ≡ 1
bit_or-pow zero a = omega (arith, bit_or_halves a 1)
bit_or-pow (suc k) a = ground (
  arith,
  bit_or_halves a (2 ^ suc k),
  pow-suc 2 k,
  halve-pow (bit_or a (2 ^ suc k)) k,
  bit_or-pow k (a / 2),
)

pub test_bit_lem : (v b : ℕ) → test_bit v b ≡ not (v / 2 ^ b % 2 == 0)
unfolding test_bit
test_bit_lem v b = rw bit_and-pow (ground (arith, one-le-pow b 2, one_bit (v / 2 ^ b % 2) (2 ^ b)))
  where
    one_bit : (d p : ℕ) → 0 < p → (d * p == 0) ≡ (d == 0)
    one_bit zero p h = ground arith
    one_bit (suc d) p h = grind arith

-- A field above `k` bits, and one that fits in them.
pub bit_or_fields : (k q r : ℕ) → r < 2 ^ k → bit_or (q * 2 ^ k) r ≡ q * 2 ^ k + r
bit_or_fields zero q r h = ground (arith, bit_or-zero q)
bit_or_fields (suc k) q r h = ground (
  arith,
  bit_or_halves (q * 2 ^ suc k) r,
  double-pow q k,
  pow-suc 2 k,
  bit_or_fields k q (r / 2) (omega (arith, pow-suc 2 k)),
)

or_comm_fuel : (n a b : ℕ) → a ≤ n → b ≤ n → bit_or a b ≡ bit_or b a
or_comm_fuel zero a b ha hb = let e : a ≡ b = omega arith in rw e refl
or_comm_fuel (suc n) a b ha hb = ground (
  arith,
  bit_or_halves a b,
  bit_or_halves b a,
  or_comm_fuel n (a / 2) (b / 2) (omega arith) (omega arith),
)

pub bit_or_comm : (a b : ℕ) → bit_or a b ≡ bit_or b a
bit_or_comm a b = or_comm_fuel (a + b) a b (omega arith) (omega arith)

and_low_fuel : (k q r : ℕ) → r < 2 ^ k → bit_and (q * 2 ^ k + r) (2 ^ k - 1) ≡ r
and_low_fuel zero q r h = rw bit_and-zero (omega arith)
and_low_fuel (suc k) q r h = ground (
  arith,
  bit_and_halves (q * 2 ^ suc k + r) (2 ^ suc k - 1),
  double-pow q k,
  pow-suc 2 k,
  one-le-pow k 2,
  and_low_fuel k q (r / 2) (omega (arith, pow-suc 2 k)),
)

-- A mask of the `k` low bits.
pub bit_and_mask : (k a : ℕ) → bit_and a (2 ^ k - 1) ≡ a % 2 ^ k
bit_and_mask k a = ground (arith, one-le-pow k 2, and_low_fuel k (a / 2 ^ k) (a % 2 ^ k))

-- Two functions agree below a bound: every value is checked by evaluation.
unfoldable pub same_below : (ℕ → ℕ) → (ℕ → ℕ) → ℕ → Bool
same_below f g zero = true
same_below f g (suc n) = (f n == g n) && same_below f g n

pub same_below_sound : (f g : ℕ → ℕ) (n : ℕ) → same_below f g n ≡ true → (i : ℕ) → i < n → f i ≡ g i
unfolding same_below
same_below_sound f g zero e i h = absurd (omega arith)
same_below_sound f g (suc n) e i h = ground (arith, same_below_sound f g n (ground arith) i)

-- A test holds below a bound.
unfoldable pub all_below : (ℕ → Bool) → ℕ → Bool
all_below p zero = true
all_below p (suc n) = p n && all_below p n

pub all_below_sound : (p : ℕ → Bool) (n : ℕ) → all_below p n ≡ true → (i : ℕ) → i < n → p i ≡ true
unfolding all_below
all_below_sound p zero e i h = absurd (omega arith)
all_below_sound p (suc n) e i h = ground (arith, all_below_sound p n (ground arith) i)
