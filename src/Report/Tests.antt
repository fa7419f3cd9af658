-- ===== src/Report/Tests.antt =====
-- A report of three samples.
use market_data_feed_handler.Prelude.{ℕ, ◌*◌, ◌/◌, ◌≤◌, ◌≡◌, some, List, [], ◌∷◌, arith}
use market_data_feed_handler.LatencyHistogram.{LatencyHistogram}
use market_data_feed_handler.LatencyHistogram.Summary.{record_all, least, greatest}
use market_data_feed_handler.Report.{Products, Latencies, latencies}
use market_data_feed_handler.Report.Order.{latencies_ordered}

-- The products at totals that products of natural numbers give exactly.
abbrev products : Products
products = record {
  of_50 = λ n. n * 50 / 100;
  of_99 = λ n. n * 99 / 100;
  of_999 = λ n. n * 999 / 1000;
  of_9999 = λ n. n * 9999 / 10000;
}

abbrev raw : LatencyHistogram
raw = record { buckets = []; total_count = 7; min = 7; max = 7; sum = 7 }

abbrev samples : List ℕ
samples = 5_000 ∷ 300 ∷ []

latencies_ordered_example :
    (l : Latencies) × (latencies products (record_all 0 raw (200_000 ∷ samples)) ≡ some l)
    × (l.min ≡ least (200_000 ∷ samples) / 1000)
    × (l.max ≡ greatest (200_000 ∷ samples) / 1000)
    × (l.min ≤ l.mean)
    × (l.mean ≤ l.max)
    × (l.at_50 ≤ l.at_99)
    × (l.at_99 ≤ l.at_999)
    × (l.at_999 ≤ l.at_9999)
latencies_ordered_example =
    latencies_ordered products 0 raw 200_000 samples (omega arith) (omega arith)
      (record { low = omega arith; middle = omega arith; high = omega arith })
