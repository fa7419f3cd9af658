-- ===== src/Core/Common.antt =====
-- The helpers of include/market_data/core/common.hpp.
use market_data_feed_handler.Prelude.{
  ℕ, ◌+◌, ◌-◌, ◌*◌, ◌^◌, ◌≡◌, ◌↔◌, Bool, true, ◌&&◌, not, bit_and, arith, ◌==◌, u64, zero, suc, ◌≤◌,
  ◌<◌, refl, ◌≢◌, if◌then◌else◌, ==_ne,
}
use native.Mathlib.Decide.{ℕ_discrete}
use market_data_feed_handler.Prelude.Smear.{
  smear_all, smear_all-Spreads, Spreads-ones, highest_digit, exponent-lt,
}
use native.Mathlib.Nat.{one-le-pow}
use market_data_feed_handler.Prelude.Bits.{bit_and-pred_iff}

-- `CACHE_LINE_SIZE`, where the library does not define the interference size.
abbrev pub cache_line_size : ℕ
cache_line_size = 64

-- `n != 0 && (n & (n - 1)) == 0`
unfoldable pub is_power_of_2 : ℕ → Bool
is_power_of_2 n = not (n == 0) && bit_and n (n - 1) == 0

-- The two halves that `rdtsc` and `rdtscp` leave in registers, as one 64-bit counter:
-- `(hi << 32) | lo`, which for `lo` below 2^32 is a sum.
unfoldable pub tsc_word : ℕ → ℕ → ℕ
tsc_word hi lo = u64 (hi * 2 ^ 32 + lo)

-- The test is true of the powers of two, and of them only.
pub is_power_of_2_iff : (n : ℕ) → (is_power_of_2 n ≡ true) ↔ ((k : ℕ) × (n ≡ 2 ^ k))
unfolding is_power_of_2
is_power_of_2_iff zero = (λ e. cc, λ (k, e). absurd (omega (arith, one-le-pow k 2)))
is_power_of_2_iff (suc m) =
    let (into, back) = bit_and-pred_iff (suc m) (omega arith) in
    (λ e. into (ground arith), λ p. ground (arith, back p))

-- `next_power_of_2`. The shifts and `|` stay within 64 bits; the sum wraps.
unfoldable pub next_power_of_2 : ℕ → ℕ
next_power_of_2 n = if n == 0 then 1 else u64 (smear_all (n - 1) + 1)

next_power_of_2-digit :
    (n k : ℕ) → n ≢ 0 → smear_all (n - 1) ≡ 2 ^ suc k - 1 → next_power_of_2 n ≡ u64 (2 ^ suc k)
unfolding next_power_of_2
next_power_of_2-digit n k ne e =
    let whole : 2 ^ suc k - 1 + 1 ≡ 2 ^ suc k = omega (arith, one-le-pow (suc k) 2 (omega arith)) in
    rw (==_ne n 0 ne, e, whole) refl

-- Of every `size_t`, the result is the least power of two that is not below it, modulo 2^64: above 2^63
-- that is 0.
pub next_power_of_2_least :
    (n : ℕ)
    → n ≤ 2 ^ 64
    → (k : ℕ) × (next_power_of_2 n ≡ u64 (2 ^ k))
      × (k ≤ 64)
      × (n ≤ 2 ^ k)
      × ((j : ℕ) → n ≤ 2 ^ j → k ≤ j)
unfolding next_power_of_2
next_power_of_2_least n fits = elim (ℕ_discrete n 0) [
  | yes z ↦ (0, rw z refl, omega arith, omega arith, λ j h. omega arith)
  | no ne ↦ elim (ℕ_discrete n 1) [
    | yes one ↦
        (0, rw (one, smear_all-Spreads.none) refl, omega arith, omega arith, λ j h. omega arith)
    | no more ↦
        let (k, low, high) = highest_digit n (n - 1) (omega arith) (omega arith) in
        let small : k < 64 = exponent-lt k 64 (omega (arith, low, fits)) in
        let ones = Spreads-ones smear_all-Spreads k (n - 1) small low high in
        (
          suc k,
          next_power_of_2-digit n k ne ones,
          omega arith,
          omega (arith, low),
          λ j h. exponent-lt k j (omega (arith, low, h)),
        )
  ]
]
