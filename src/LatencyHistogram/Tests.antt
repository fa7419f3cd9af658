-- ===== src/LatencyHistogram/Tests.antt =====
-- A histogram of three samples, and the theorems at it.
use market_data_feed_handler.Prelude.{
  ℕ, ◌*◌, ◌/◌, ◌≤◌, ◌<◌, ◌≡◌, refl, ◌&&◌, List, [], ◌∷◌, ltb, leb, arith,
}
use market_data_feed_handler.LatencyHistogram.{
  LatencyHistogram, get_bucket, get_bucket_upper_bound, get_percentile, mean, stddev, reset,
  record_latency, shift_loop, update_min, update_max,
}
use market_data_feed_handler.LatencyHistogram.Summary.{
  Summary, record_all, record_all-Summary, count_if,
}
use market_data_feed_handler.LatencyHistogram.Percentile.{
  get_percentile_brackets, get_percentile_of_zero,
}

-- The contents of a histogram before its constructor has run do not matter.
abbrev raw : LatencyHistogram
raw = record { buckets = []; total_count = 7; min = 7; max = 7; sum = 7 }

abbrev samples : List ℕ
samples = 200_000 ∷ 5_000 ∷ 300 ∷ []

-- `static_cast<uint64_t>(total * 0.99)` at totals that a product by 99/100 gives exactly.
abbrev ninety_nine : ℕ → ℕ
ninety_nine n = n * 99 / 100

abbrev half : ℕ → ℕ
half n = n / 2

bucket_edges :
    (get_bucket 999 ≡ 0)
    × (get_bucket 1000 ≡ 1)
    × (get_bucket 1999 ≡ 1)
    × (get_bucket 2000 ≡ 2)
    × (get_bucket 0xffff_ffff_ffff_ffff ≡ 31)
unfolding get_bucket shift_loop
bucket_edges = (refl, refl, refl, refl, refl)

three_samples :
    let h = record_all 1 raw samples in
    (h.total_count ≡ 3)
    × (h.min ≡ 300)
    × (h.max ≡ 200_000)
    × (get_percentile ninety_nine h ≡ 8_000)
    × (mean h ≡ 68_433)
    × (stddev h ≡ 49_925)
unfolding record_all record_latency reset update_min update_max get_bucket shift_loop get_percentile
    get_bucket_upper_bound mean stddev
three_samples = (refl, refl, refl, refl, refl, refl)

record_all-Summary_example : Summary (record_all 1 raw samples) samples
record_all-Summary_example = record_all-Summary 1 raw samples (omega arith)

get_percentile_brackets_example :
    let result = get_percentile ninety_nine (record_all 0 raw samples) in
    (2 ≤ count_if (λ x. ltb x result) samples)
    × (count_if (λ x. leb 1000 x && ltb (2 * x) result) samples < 2)
get_percentile_brackets_example =
    get_percentile_brackets 0 raw ninety_nine samples (omega arith) (omega arith) (omega arith)
      (omega arith)

-- One sample of 200 microseconds has a median of one.
get_percentile_of_zero_example : get_percentile half (record_all 0 raw (200_000 ∷ [])) ≡ 1000
get_percentile_of_zero_example = get_percentile_of_zero 0 raw half 200_000 [] (omega arith) refl
