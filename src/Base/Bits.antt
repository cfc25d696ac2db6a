-- ===== src/Base/Bits.antt =====
-- What `&` and `|` do to each binary digit of a word of any width.
use Prim.Native.Nat.{
  ℕ, zero, suc, ◌+◌, ◌*◌, ◌/◌, ◌%◌, ◌≤◌, min, max, bit_and, bit_or, digits, bit_and-bitwise,
  bit_or-bitwise,
}
use mathlib.Core.Path.{◌≡◌, refl}
use native.Mathlib.Omega.{arith}

-- The digit of weight 2 ^ i.
abbrev pub bit_at : ℕ → ℕ → ℕ
bit_at n zero = n % 2
bit_at n (suc i) = bit_at (n / 2) i

-- The recursion behind the operations needs no more rounds than the first word.
digits_rounds :
    (z : ℕ → ℕ) (f : ℕ → ℕ → ℕ) (n m a b : ℕ) → a ≤ n → a ≤ m → digits z f n a b ≡ digits z f m a b
digits_rounds z f zero zero a b p q = refl
digits_rounds z f zero (suc m) zero b p q = refl
digits_rounds z f zero (suc m) (suc a) b p q = absurd (omega arith)
digits_rounds z f (suc n) zero zero b p q = refl
digits_rounds z f (suc n) zero (suc a) b p q = absurd (omega arith)
digits_rounds z f (suc n) (suc m) zero b p q = refl
digits_rounds z f (suc n) (suc m) (suc a) b p q =
    rw (digits_rounds z f n m (suc a / 2) (b / 2) (omega arith) (omega arith))

pub and_digit : (a b : ℕ) → bit_and a b ≡ bit_and (a / 2) (b / 2) * 2 + min (a % 2) (b % 2)
and_digit zero b = omega (arith, bit_and-bitwise 0 b, bit_and-bitwise 0 (b / 2))
and_digit (suc a) b = omega (
  arith,
  bit_and-bitwise (suc a) b,
  bit_and-bitwise (suc a / 2) (b / 2),
  digits_rounds (λ x. 0) min a (suc a / 2) (suc a / 2) (b / 2) (omega arith) (omega arith),
)

or_digit : (a b : ℕ) → bit_or a b ≡ bit_or (a / 2) (b / 2) * 2 + max (a % 2) (b % 2)
or_digit zero b = omega (arith, bit_or-bitwise 0 b, bit_or-bitwise 0 (b / 2))
or_digit (suc a) b = omega (
  arith,
  bit_or-bitwise (suc a) b,
  bit_or-bitwise (suc a / 2) (b / 2),
  digits_rounds (λ x. x) max a (suc a / 2) (suc a / 2) (b / 2) (omega arith) (omega arith),
)

and_half : (a b : ℕ) → bit_and a b / 2 ≡ bit_and (a / 2) (b / 2)
and_half a b = omega (arith, and_digit a b)

or_half : (a b : ℕ) → bit_or a b / 2 ≡ bit_or (a / 2) (b / 2)
or_half a b = omega (arith, or_digit a b)

pub bit_at-and : (a b i : ℕ) → bit_at (bit_and a b) i ≡ min (bit_at a i) (bit_at b i)
bit_at-and a b zero = omega (arith, and_digit a b)
bit_at-and a b (suc i) = rw (and_half a b) (bit_at-and (a / 2) (b / 2) i)

pub bit_at-or : (a b i : ℕ) → bit_at (bit_or a b) i ≡ max (bit_at a i) (bit_at b i)
bit_at-or a b zero = omega (arith, or_digit a b)
bit_at-or a b (suc i) = rw (or_half a b) (bit_at-or (a / 2) (b / 2) i)

pub bit_at-le-one : (a i : ℕ) → bit_at a i ≤ 1
bit_at-le-one a zero = omega arith
bit_at-le-one a (suc i) = bit_at-le-one (a / 2) i

bits_ext_below : (n a b : ℕ) → a ≤ n → b ≤ n → ((i : ℕ) → bit_at a i ≡ bit_at b i) → a ≡ b
bits_ext_below zero a b p q h = omega arith
bits_ext_below (suc n) a b p q h =
    omega
      (arith, h 0, bits_ext_below n (a / 2) (b / 2) (omega arith) (omega arith) (λ i. h (suc i)))

-- Words with the same digits are equal.
pub bits_ext : (a b : ℕ) → ((i : ℕ) → bit_at a i ≡ bit_at b i) → a ≡ b
bits_ext a b h = bits_ext_below (a + b) a b (omega arith) (omega arith) h

bit_at-zero : (i : ℕ) → bit_at 0 i ≡ 0
bit_at-zero zero = refl
bit_at-zero (suc i) = bit_at-zero i

pub bit_and-zero : (a : ℕ) → bit_and a 0 ≡ 0
bit_and-zero a = bits_ext _ _ λ i. omega (arith, bit_at-and a 0 i, bit_at-zero i)
