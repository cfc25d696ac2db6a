-- ===== src/Gralloc/Lock/Bytes.antt =====
-- The bits of CPU access in a usage, through the conversions between int and uint64_t of gbm_lock.
use hardware_arpi.Base.{ℕ, ◌+◌, ◌*◌, ◌/◌, ◌%◌, ◌^◌, ◌<◌, ◌≡◌, sym, ◌∙◌, ap, bit_and, bit_or, arith}
use hardware_arpi.Base.Bits.{bit_at, bit_at-and, bit_at-or, bits_ext, and_digit, bit_and-zero}
use hardware_arpi.Platform.{sign_extend, cpu_access}

-- 0x66 is bits 1, 2, 5 and 6.
cpu_bits :
    (u : ℕ)
    → bit_and u cpu_access ≡ bit_at u 1 * 2 + bit_at u 2 * 4 + bit_at u 5 * 32 + bit_at u 6 * 64
cpu_bits u = omega (
  arith,
  and_digit u 0x66,
  and_digit (u / 2) 0x33,
  and_digit (u / 2 / 2) 0x19,
  and_digit (u / 2 / 2 / 2) 0xc,
  and_digit (u / 2 / 2 / 2 / 2) 0x6,
  and_digit (u / 2 / 2 / 2 / 2 / 2) 0x3,
  and_digit (u / 2 / 2 / 2 / 2 / 2 / 2) 0x1,
  bit_and-zero (u / 2 / 2 / 2 / 2 / 2 / 2 / 2),
)

pub cpu_or_zero :
    (a b : ℕ)
    → bit_and a cpu_access ≡ 0
    → bit_and b cpu_access ≡ 0
    → bit_and (bit_or a b) cpu_access ≡ 0
cpu_or_zero a b p q = omega (
  arith,
  cpu_bits a,
  cpu_bits b,
  cpu_bits (bit_or a b),
  bit_at-or a b 1,
  bit_at-or a b 2,
  bit_at-or a b 5,
  bit_at-or a b 6,
)

pub cpu_or_left : (a b : ℕ) → bit_and (bit_or a b) cpu_access ≡ 0 → bit_and a cpu_access ≡ 0
cpu_or_left a b p = omega (
  arith,
  cpu_bits a,
  cpu_bits (bit_or a b),
  bit_at-or a b 1,
  bit_at-or a b 2,
  bit_at-or a b 5,
  bit_at-or a b 6,
)

pub cpu_or_right : (a b : ℕ) → bit_and (bit_or a b) cpu_access ≡ 0 → bit_and b cpu_access ≡ 0
cpu_or_right a b p = omega (
  arith,
  cpu_bits b,
  cpu_bits (bit_or a b),
  bit_at-or a b 1,
  bit_at-or a b 2,
  bit_at-or a b 5,
  bit_at-or a b 6,
)

pub cpu_low_word : (u : ℕ) → bit_and (u % 2 ^ 32) cpu_access ≡ bit_and u cpu_access
cpu_low_word u = omega (arith, cpu_bits u, cpu_bits (u % 2 ^ 32))

pub sign_extend_low_word : (w : ℕ) → w < 2 ^ 32 → sign_extend w % 2 ^ 32 ≡ w
sign_extend_low_word w h = ground arith

pub cpu-sign_extend :
    (w : ℕ) → w < 2 ^ 32 → bit_and (sign_extend w) cpu_access ≡ bit_and w cpu_access
cpu-sign_extend w h =
    sym (cpu_low_word (sign_extend w))
    ∙ ap (λ (t : ℕ). bit_and t cpu_access) (sign_extend_low_word w h)

-- A usage that a lock already has adds no bit to it.
pub or_granted :
    (held asked : ℕ) → bit_and held asked ≡ asked → bit_or held (bit_or asked held) ≡ held
or_granted held asked e = bits_ext _ _ λ i. omega (
  arith,
  bit_at-or held (bit_or asked held) i,
  bit_at-or asked held i,
  bit_at-and held asked i,
  ap (λ (t : ℕ). bit_at t i) e,
)
