-- ===== src/Timestamp/Tests.antt =====
-- A counter of 3 GHz, and the theorems at it.
use market_data_feed_handler.Prelude.{
  ℕ, ◌+◌, ◌-◌, ◌*◌, ◌≤◌, ◌<◌, ◌≡◌, refl, some, none, arith, u64_mod, List, [], ◌∷◌, ◌%◌,
}
use market_data_feed_handler.Timestamp.{
  tsc_to_ns, tsc_to_us, ns_to_tsc, now_us, elapsed_ns, elapsed_us,
}
use market_data_feed_handler.Timestamp.Conversion.{
  IsQuotient, tsc_to_ns_exact, tsc_to_ns_overflow, ns_to_tsc-tsc_to_ns,
}

abbrev hertz : ℕ
hertz = 3_000_000_000

conversions :
    (tsc_to_ns hertz 3_000 ≡ some 1_000)
    × (tsc_to_us hertz 3_000 ≡ some 1)
    × (tsc_to_ns 0 3_000 ≡ none)
    × (ns_to_tsc hertz 1_000 ≡ 3_000)
    × (elapsed_ns hertz (u64_mod - 1_000) 2_000 ≡ some 1_000)
    × (elapsed_us hertz (u64_mod - 1_000) 5_000 ≡ some 2)
    × (now_us 1_999 ≡ 1)
unfolding tsc_to_ns tsc_to_us ns_to_tsc elapsed_ns elapsed_us now_us
conversions = (refl, refl, refl, refl, refl, refl, refl)

tsc_to_ns_exact_example :
    (ns : ℕ) × (tsc_to_ns hertz 3_001 ≡ some ns) × IsQuotient (3_001 * 1_000_000_000) hertz ns
tsc_to_ns_exact_example = tsc_to_ns_exact hertz 3_001 (omega arith) (omega arith)

-- Seven seconds at 3 GHz.
tsc_to_ns_overflow_example :
    (ns : ℕ) × (tsc_to_ns hertz 21_000_000_000 ≡ some ns)
    × (ns * hertz + u64_mod ≤ 21_000_000_000 * 1_000_000_000)
tsc_to_ns_overflow_example = tsc_to_ns_overflow hertz 21_000_000_000 (omega arith) (omega arith)

ns_to_tsc-tsc_to_ns_example :
    (ns_to_tsc hertz 1_000 ≤ 3_001)
    × (3_001 * 1_000_000_000 < (ns_to_tsc hertz 1_000 + 1) * 1_000_000_000 + hertz)
unfolding tsc_to_ns
ns_to_tsc-tsc_to_ns_example =
    ns_to_tsc-tsc_to_ns hertz 3_001 {ns = 1_000} (omega arith) (omega arith) refl

-- A clock that shows the last digit of the seconds alone.
abbrev last_digit : ℕ → List ℕ
last_digit seconds = (48 + seconds % 10) ∷ []
