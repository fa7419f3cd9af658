-- ===== src/Timestamp/Conversion.antt =====
-- How exact the conversions between cycles and nanoseconds are, and where they overflow.
use native.Mathlib.Nat.{div-mul-le_self}
use market_data_feed_handler.Prelude.{
  ℕ, ◌+◌, ◌-◌, ◌*◌, ◌/◌, ◌≤◌, ◌<◌, ◌≡◌, refl, false, some, arith, ◌==◌, ==_ne, u64, u64_mod,
}
use market_data_feed_handler.Timestamp.{tsc_to_ns, ns_to_tsc, calibrate_tsc}

-- `r` is `a / b` rounded down.
abbrev pub IsQuotient : ℕ → ℕ → ℕ → Type 0
IsQuotient a b r = (r * b ≤ a) × (a < (r + 1) * b)

div-IsQuotient : (a b : ℕ) → 0 < b → IsQuotient a b (a / b)
div-IsQuotient a b pos = grind arith

-- Below 18,446,744,074 cycles the nanoseconds are the exact quotient, rounded down.
pub tsc_to_ns_exact :
    (frequency tsc : ℕ)
    → 0 < frequency
    → tsc ≤ 18_446_744_073
    → (ns : ℕ) × (tsc_to_ns frequency tsc ≡ some ns) × IsQuotient (tsc * 1_000_000_000) frequency ns
unfolding tsc_to_ns
tsc_to_ns_exact frequency tsc pos small =
    let ne : (frequency == 0) ≡ false = ==_ne frequency 0 (omega arith) in
    let fits : u64 (tsc * 1_000_000_000) ≡ tsc * 1_000_000_000 = omega arith in
    rw (ne, fits)
      (tsc * 1_000_000_000 / frequency, refl, div-IsQuotient (tsc * 1_000_000_000) frequency pos)

-- From there on the product wraps, and the result is short of the true value by at least the 2^64
-- nanosecond-hertz that are lost.
pub tsc_to_ns_overflow :
    (frequency tsc : ℕ)
    → 0 < frequency
    → 18_446_744_074 ≤ tsc
    → (ns : ℕ) × (tsc_to_ns frequency tsc ≡ some ns)
      × (ns * frequency + u64_mod ≤ tsc * 1_000_000_000)
unfolding tsc_to_ns
tsc_to_ns_overflow frequency tsc pos large =
    let ne : (frequency == 0) ≡ false = ==_ne frequency 0 (omega arith) in
    rw ne (
      u64 (tsc * 1_000_000_000) / frequency,
      refl,
      omega (arith, div-mul-le_self (u64 (tsc * 1_000_000_000)) frequency),
    )

-- Cycles to nanoseconds and back loses at most one cycle and the cycles of one nanosecond, and never
-- gains any.
pub ns_to_tsc-tsc_to_ns :
    (frequency tsc : ℕ) {ns : ℕ}
    → 0 < frequency
    → tsc ≤ 18_446_744_073
    → tsc_to_ns frequency tsc ≡ some ns
    → (ns_to_tsc frequency ns ≤ tsc)
      × (tsc * 1_000_000_000 < (ns_to_tsc frequency ns + 1) * 1_000_000_000 + frequency)
unfolding ns_to_tsc
ns_to_tsc-tsc_to_ns frequency tsc {ns} pos small e =
    let (exact, found, quotient) = tsc_to_ns_exact frequency tsc pos small in
    let same : exact ≡ ns = cc in
    let bounds : IsQuotient (tsc * 1_000_000_000) frequency ns = rw same at quotient in omega arith

-- The calibrated frequency is the exact quotient, if the counter has not gone further than
-- 18,446,744,073 cycles, whether or not it wrapped round between the readings.
pub calibrate_tsc_exact :
    (start_tsc cycles duration_ns : ℕ)
    → start_tsc < u64_mod
    → 0 < duration_ns
    → cycles ≤ 18_446_744_073
    → (frequency : ℕ) × (calibrate_tsc start_tsc (u64 (start_tsc + cycles)) duration_ns
        ≡ some frequency)
      × IsQuotient (cycles * 1_000_000_000) duration_ns frequency
unfolding calibrate_tsc
calibrate_tsc_exact start_tsc cycles duration_ns word pos small =
    let ne : (duration_ns == 0) ≡ false = ==_ne duration_ns 0 (omega arith) in
    let fits : u64 (u64 (u64 (start_tsc + cycles) + u64_mod - start_tsc) * 1_000_000_000)
        ≡ cycles * 1_000_000_000 =
      omega arith in
    rw (ne, fits)
      (
        cycles * 1_000_000_000 / duration_ns,
        refl,
        div-IsQuotient (cycles * 1_000_000_000) duration_ns pos,
      )
