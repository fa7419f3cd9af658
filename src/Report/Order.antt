-- ===== src/Report/Order.antt =====
-- The numbers of a report are in order.
use market_data_feed_handler.Prelude.{
  ℕ, ◌+◌, ◌/◌, ◌≤◌, ◌<◌, ◌≡◌, refl, ap, true, some, List, [], ◌∷◌, ◌==◌, ltb, leb, arith, u64,
  u64_mod, length, Bool-cases, inl, inr,
}
use market_data_feed_handler.LatencyHistogram.{
  LatencyHistogram, get_bucket_upper_bound, percentile_loop, get_percentile, mean, count,
}
use market_data_feed_handler.LatencyHistogram.Bucket.{upper_bound-le}
use market_data_feed_handler.LatencyHistogram.Summary.{
  total, least, greatest, record_all, record_all-Summary,
}
use market_data_feed_handler.LatencyHistogram.Statistics.{mean_bounds}
use market_data_feed_handler.Report.{
  Products, p50, p99, p999, p9999, min_latency, max_latency, Latencies, latencies,
}

-- A loop from bucket `i` on reports no less than the bound of a bucket before.
percentile_loop-ge :
    (target k : ℕ) (buckets : List ℕ) (i cumulative : ℕ)
    → length buckets + i ≡ 32
    → k ≤ i
    → k < 32
    → get_bucket_upper_bound k ≤ percentile_loop target buckets i cumulative
unfolding percentile_loop
percentile_loop-ge target k [] i cumulative e h small =
    upper_bound-le k 31 (omega arith) (omega arith)
percentile_loop-ge target k (c ∷ buckets) i cumulative e h small =
    elim (Bool-cases (leb target (u64 (cumulative + c)))) [
      | inl stop ↦ rw stop (upper_bound-le k i h (omega arith))
      | inr go ↦ rw go (
          percentile_loop-ge target k buckets (i + 1) (u64 (cumulative + c)) (omega arith)
            (omega arith) small)
    ]

-- A greater target is met no earlier.
percentile_loop_mono :
    (target target' : ℕ) (buckets : List ℕ) (i cumulative : ℕ)
    → target ≤ target'
    → length buckets + i ≡ 32
    → percentile_loop target buckets i cumulative ≤ percentile_loop target' buckets i cumulative
unfolding percentile_loop
percentile_loop_mono target target' [] i cumulative h e = omega arith
percentile_loop_mono target target' (c ∷ buckets) i cumulative h e =
    elim (Bool-cases (leb target' (u64 (cumulative + c)))) [
      | inl stop ↦
          let stop' : leb target (u64 (cumulative + c)) ≡ true = ground arith in
          rw (stop, stop') (omega arith)
      | inr go ↦ elim (Bool-cases (leb target (u64 (cumulative + c)))) [
        | inl stop ↦
            rw (stop, go)
              (percentile_loop-ge target' i buckets (i + 1) (u64 (cumulative + c)) (omega arith)
                (omega arith) (omega arith))
        | inr go' ↦
            rw (go, go')
              (percentile_loop_mono target target' buckets (i + 1) (u64 (cumulative + c)) h
                (omega arith))
      ]
    ]

pub get_percentile_mono :
    (scale scale' : ℕ → ℕ) (h : LatencyHistogram)
    → length h.buckets ≡ 32
    → scale h.total_count ≤ scale' h.total_count
    → get_percentile scale h ≤ get_percentile scale' h
unfolding get_percentile
get_percentile_mono scale scale' h sized le = elim (Bool-cases (h.total_count == 0)) [
  | inl none_yet ↦ rw none_yet (omega arith)
  | inr some_yet ↦ rw some_yet (
      percentile_loop_mono (scale h.total_count) (scale' h.total_count) h.buckets 0 0 le
        (omega arith))
]

-- The products of `double`s are in the order of their percentiles.
pub record AreOrdered (products : Products) (n : ℕ) : Type 0 where
  pub low : products.of_50 n ≤ products.of_99 n
  pub middle : products.of_99 n ≤ products.of_999 n
  pub high : products.of_999 n ≤ products.of_9999 n

in_us_mono : {a b : ℕ} → a ≤ b → a / 1000 ≤ b / 1000
in_us_mono h = omega (arith, h)

-- A report of a history that is not empty and whose sum fits a word has latencies: the percentiles are
-- in order, and the mean is between the minimum and the maximum, which are those of the history, in
-- whole microseconds.
pub latencies_ordered :
    (products : Products) (failures : ℕ) (h : LatencyHistogram) (x : ℕ) (samples : List ℕ)
    → length (x ∷ samples) < u64_mod
    → total (x ∷ samples) < u64_mod
    → AreOrdered products (length (x ∷ samples))
    → (l : Latencies) × (latencies products (record_all failures h (x ∷ samples)) ≡ some l)
      × (l.min ≡ least (x ∷ samples) / 1000)
      × (l.max ≡ greatest (x ∷ samples) / 1000)
      × (l.min ≤ l.mean)
      × (l.mean ≤ l.max)
      × (l.at_50 ≤ l.at_99)
      × (l.at_99 ≤ l.at_999)
      × (l.at_999 ≤ l.at_9999)
unfolding latencies p50 p99 p999 p9999 min_latency max_latency count
latencies_ordered products failures h x samples few fits ordered =
    let s = record_all-Summary failures h (x ∷ samples) few in
    let m = mean_bounds failures h x samples few fits in
    let recorded = record_all failures h (x ∷ samples) in
    let least_le : recorded.min ≤ mean recorded = omega (arith, s.minimal, m.0) in
    let le_greatest : mean recorded ≤ recorded.max = omega (arith, s.maximal, m.1) in
    let some_sample : ltb 0 recorded.total_count ≡ true = ground (arith, s.counted) in
    rw some_sample (
      _,
      refl,
      ap (λ t. t / 1000) s.minimal,
      ap (λ t. t / 1000) s.maximal,
      in_us_mono least_le,
      in_us_mono le_greatest,
      in_us_mono (
          get_percentile_mono products.of_50 products.of_99 recorded s.sized
            (rw s.counted ordered.low)),
      in_us_mono (
          get_percentile_mono products.of_99 products.of_999 recorded s.sized
            (rw s.counted ordered.middle)),
      in_us_mono (
          get_percentile_mono products.of_999 products.of_9999 recorded s.sized
            (rw s.counted ordered.high)),
    )
