-- ===== src/Timestamp.antt =====
-- `Timestamp` and `ScopedLatency` of include/market_data/utils/timestamp.hpp. The frequency, the
-- counter and the clock are inputs. `none` is a division by 0, which stops the program.
pub mod Conversion
pub mod Format
mod Tests
use mathlib.Core.Option
use market_data_feed_handler.Prelude.{
  ℕ, ◌+◌, ◌-◌, ◌*◌, ◌/◌, Option, none, some, ◌==◌, if◌then◌else◌, u64, u64_mod,
}
use market_data_feed_handler.Core.Common.{tsc_word}

-- Unsigned division.
abbrev pub divide : ℕ → ℕ → Option ℕ
divide a b = if b == 0 then none else some (a / b)

unfoldable pub tsc_to_ns : ℕ → ℕ → Option ℕ
tsc_to_ns frequency tsc = divide (u64 (tsc * 1_000_000_000)) frequency

unfoldable pub tsc_to_us : ℕ → ℕ → Option ℕ
tsc_to_us frequency tsc = divide (u64 (tsc * 1_000_000)) frequency

unfoldable pub ns_to_tsc : ℕ → ℕ → ℕ
ns_to_tsc frequency ns = u64 (ns * frequency) / 1_000_000_000

-- `calibrate_tsc`, from the two readings of the counter and the nanoseconds between them.
unfoldable pub calibrate_tsc : ℕ → ℕ → ℕ → Option ℕ
calibrate_tsc start_tsc end_tsc duration_ns =
    let tsc_diff = u64 (end_tsc + u64_mod - start_tsc) in
    divide (u64 (tsc_diff * 1_000_000_000)) duration_ns

-- `initialize`, whose result is the class's `tsc_frequency_` from then on.
unfoldable pub initialize : ℕ → ℕ → ℕ → Option ℕ
unfolding calibrate_tsc
initialize start_tsc end_tsc duration_ns = calibrate_tsc start_tsc end_tsc duration_ns

-- `now_tsc`, of the halves of the counter.
unfoldable pub now_tsc : ℕ → ℕ → ℕ
now_tsc hi lo = tsc_word hi lo

unfoldable pub now_us : ℕ → ℕ
now_us now_ns = now_ns / 1000

-- Without the label, which nothing reads.
pub record ScopedLatency : Type 0 where
  pub start_tsc : ℕ

-- The constructor, with the counter that it reads.
unfoldable pub begin_scope : ℕ → ScopedLatency
begin_scope tsc = record { start_tsc = tsc }

-- The latency that the destructor measures, and throws away.
unfoldable pub end_scope : ℕ → ℕ → ScopedLatency → Option ℕ
end_scope frequency end_tsc scope = tsc_to_ns frequency (u64 (end_tsc + u64_mod - scope.start_tsc))

-- `ScopedLatency::elapsed_ns`, from the reading at the construction and the one now.
unfoldable pub elapsed_ns : ℕ → ℕ → ℕ → Option ℕ
elapsed_ns frequency start_tsc current_tsc =
    tsc_to_ns frequency (u64 (current_tsc + u64_mod - start_tsc))

unfoldable pub elapsed_us : ℕ → ℕ → ℕ → Option ℕ
elapsed_us frequency start_tsc current_tsc =
    Option.map (λ ns. ns / 1000) (elapsed_ns frequency start_tsc current_tsc)
