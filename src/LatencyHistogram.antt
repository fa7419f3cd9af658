-- ===== src/LatencyHistogram.antt =====
-- `LatencyHistogram` of include/market_data/metrics/latency_tracker.hpp, with no other thread at work
-- on the atomics (`Threads` is about several). A `uint64_t` is its value, and sums keep their wrap-around.
pub mod Bucket
pub mod Summary
pub mod Statistics
pub mod Percentile
pub mod Threads
mod Tests
use Prim.Native.Nat.{min as min_nat}
use market_data_feed_handler.Prelude.{
  ℕ, zero, suc, ◌+◌, ◌-◌, ◌*◌, ◌/◌, ◌^◌, Bool, ◌&&◌, List, [], ◌∷◌, ◌==◌, ltb, leb, if◌then◌else◌,
  get_or, set, replicate, u64, u64_mod,
}

abbrev pub num_buckets : ℕ
num_buckets = 32

pub record LatencyHistogram : Type 0 where
  pub buckets : List ℕ
  pub total_count : ℕ
  pub min : ℕ
  pub max : ℕ
  pub sum : ℕ

-- `reset`, which the constructor calls too.
unfoldable pub reset : LatencyHistogram → LatencyHistogram
reset h = record {
  buckets = replicate num_buckets 0;
  total_count = 0;
  min = u64_mod - 1;
  max = 0;
  sum = 0;
}

-- `while (val > 0 && bucket < NUM_BUCKETS - 1) { val >>= 1; ++bucket; }`. Fuel of 31 rounds is enough,
-- since `bucket` starts at 0 (`Bucket.shift_loop_bounds`).
unfoldable pub shift_loop : ℕ → ℕ → ℕ → ℕ
shift_loop zero val bucket = bucket
shift_loop (suc fuel) val bucket =
    let rest = shift_loop fuel (val / 2) (bucket + 1) in
    if ltb 0 val && ltb bucket (num_buckets - 1) then rest else bucket

unfoldable pub get_bucket : ℕ → ℕ
get_bucket latency_ns =
    let latency_us = latency_ns / 1000 in
    if latency_ns == 0
    then 0
    else if latency_us == 0
    then 0
    else min_nat (shift_loop 31 latency_us 0) (num_buckets - 1)

-- `(1ULL << bucket) * 1000`
unfoldable pub get_bucket_upper_bound : ℕ → ℕ
get_bucket_upper_bound bucket = if bucket == 0 then 1000 else u64 (2 ^ bucket * 1000)

-- The loops of `update_min` and `update_max`. `failures` is how often `compare_exchange_weak` fails
-- without cause; a failure leaves the atomic, and `current`, as they are.
unfoldable pub update_min : ℕ → ℕ → ℕ → ℕ
update_min zero value current = if ltb value current then value else current
update_min (suc failures) value current =
    let again = update_min failures value current in if ltb value current then again else current

unfoldable pub update_max : ℕ → ℕ → ℕ → ℕ
update_max zero value current = if ltb current value then value else current
update_max (suc failures) value current =
    let again = update_max failures value current in if ltb current value then again else current

-- `record`
unfoldable pub record_latency : ℕ → ℕ → LatencyHistogram → LatencyHistogram
record_latency failures latency_ns h =
    let bucket = get_bucket latency_ns in
    record {
      buckets = set h.buckets bucket (u64 (get_or h.buckets bucket 0 + 1));
      total_count = u64 (h.total_count + 1);
      min = update_min failures latency_ns h.min;
      max = update_max failures latency_ns h.max;
      sum = u64 (h.sum + latency_ns);
    }

-- The loop of `get_percentile`, from bucket `i` on.
unfoldable pub percentile_loop : ℕ → List ℕ → ℕ → ℕ → ℕ
percentile_loop target [] i cumulative = get_bucket_upper_bound (num_buckets - 1)
percentile_loop target (c ∷ buckets) i cumulative =
    let cumulative' = u64 (cumulative + c) in
    let rest = percentile_loop target buckets (i + 1) cumulative' in
    if leb target cumulative' then get_bucket_upper_bound i else rest

-- `get_percentile`. `scale total` stands for `static_cast<uint64_t>(total * percentile)`, a product
-- of `double`s: see the header of the library.
unfoldable pub get_percentile : (ℕ → ℕ) → LatencyHistogram → ℕ
unfolding percentile_loop
get_percentile scale h =
    let total = h.total_count in
    if total == 0 then 0 else percentile_loop (scale total) h.buckets 0 0

unfoldable pub mean : LatencyHistogram → ℕ
mean h = let total = h.total_count in if total == 0 then 0 else h.sum / total

-- A quarter of the range, whose subtraction wraps.
unfoldable pub stddev : LatencyHistogram → ℕ
stddev h = let range = u64 (h.max + u64_mod - h.min) in range / 4

-- `count`
unfoldable pub count : LatencyHistogram → ℕ
count h = h.total_count
